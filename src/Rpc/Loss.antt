-- ===== src/Rpc/Loss.antt =====
-- Packet loss and the queues of the event loop: rpc_impl/rpc_pkt_loss.cc and rpc_queues.cc.
use rdma_yuxi.Prelude.{
  ℕ, ◌+◌, ◌-◌, ◌%◌, ◌^◌, false, ltb, ◌==◌, if◌then◌else◌, some, List, [], ◌∷◌, ◌++◌, update,
}
use rdma_yuxi.Wire.Header.{session_credits}
use rdma_yuxi.Rpc.State.{
  ClientInfo, SSlot, Session, Ref, EnqReqArgs, Rpc, Env, slot_of, session_of, set_session,
  set_client, with_slot, tx_buf,
}
use rdma_yuxi.Rpc.Tx.{enqueue_pkt_tx_burst_st, enqueue_rfr_st, drain_tx_batch_and_dma_queue}
use rdma_yuxi.Rpc.Kick.{kick_st}
use rdma_yuxi.Rpc.Client.{enqueue_request_st}

-- `num_tx` is rolled back to the packets that were answered.
abbrev pub rolled_slot : Rpc → SSlot → SSlot
rolled_slot r x = record x {
  client_info = record ci { num_tx = ci.num_rx; progress_tsc = r.ev_loop_tsc };
}
  where
    ci : ClientInfo
    ci = x.client_info

-- The credits of the packets that got no answer are taken back.
abbrev pub rolled_session : Rpc → Ref → Session
rolled_session r p = record (with_slot s p.slot (rolled_slot r (s.slots p.slot))) {
  credits = s.credits + (ci.num_tx - ci.num_rx);
  num_re_tx = s.num_re_tx + 1;
}
  where
    s : Session
    s = session_of r p

    ci : ClientInfo
    ci = (s.slots p.slot).client_info

unfoldable pub roll_back : Rpc → Ref → Rpc
roll_back r p = record (set_session r p.sn (rolled_session r p)) { num_re_tx = r.num_re_tx + 1 }

-- `pkt_loss_retransmit_st`. `num_tx` is at least `num_rx`, so the `size_t` difference is that of ℕ.
unfoldable pub pkt_loss_retransmit_st : Env → Rpc → Ref → Rpc
pkt_loss_retransmit_st env r p =
    if ci.num_tx - ci.num_rx == 0
    then r
    else if ltb 0 ci.wheel_count
    then record r { still_in_wheel_during_retx = r.still_in_wheel_during_retx + 1 }
    else kick_st env (roll_back r p) p
  where
    ci : ClientInfo
    ci = (slot_of r p).client_info

-- One round of the data path's loop in `pkt_loss_scan_st`. Requests that are only stalled are
-- passed over; the test for a failed server is the constant `false` and has no code here.
unfoldable pub scan_one : Env → Rpc → Ref → Rpc
scan_one env r p =
    if ci.num_tx == ci.num_rx
    then r
    else if ltb env.rpc_rto_cycles ((r.ev_loop_tsc + 2 ^ 64 - ci.progress_tsc) % 2 ^ 64)
    then drain_tx_batch_and_dma_queue (pkt_loss_retransmit_st env r p)
    else r
  where
    ci : ClientInfo
    ci = (slot_of r p).client_info

unfoldable pub scan_loop : Env → List Ref → Rpc → Rpc
scan_loop env [] r = r
scan_loop env (p ∷ ps) r = scan_loop env ps (scan_one env r p)

-- The data path's part of `pkt_loss_scan_st`, up to its loop over the sessions that are being
-- connected or disconnected, whose requests it sends again: no request joins or leaves the list while it is
-- walked.
unfoldable pub pkt_loss_scan_st : Env → Rpc → Rpc
pkt_loss_scan_st env r = scan_loop env r.active r

-- The loop of `process_credit_stall_queue_st` over the slots `ps`; `kept` are those written back.
unfoldable pub stall_loop : Env → List Ref → List Ref → Rpc → Rpc
stall_loop env [] kept r = record r { stallq = kept }
stall_loop env (p ∷ ps) kept r =
    if ltb 0 (session_of r p).credits
    then stall_loop env ps kept (kick_st env r p)
    else stall_loop env ps (kept ++ (p ∷ [])) r

-- `process_credit_stall_queue_st`
unfoldable pub process_credit_stall_queue_st : Env → Rpc → Rpc
process_credit_stall_queue_st env r = stall_loop env r.stallq [] r

-- One entry of the wheel's ready queue: a request packet or a request for response is sent.
unfoldable pub process_ready : Env → Rpc → Ref × ℕ → Rpc
process_ready env r (p, pkt_num) = set_client sent p (record ci {
  wheel_count = ci.wheel_count - 1;
  in_wheel = update ci.in_wheel (pkt_num % session_credits) false;
})
  where
    sent : Rpc
    sent =
        if ltb pkt_num (tx_buf (slot_of r p)).num_pkts
        then enqueue_pkt_tx_burst_st env r p pkt_num (some (p, pkt_num % session_credits))
        else enqueue_rfr_st env r p ((slot_of r p).client_info.resp_msgbuf.hdr 0)

    ci : ClientInfo
    ci = (slot_of sent p).client_info

-- `process_wheel_st`, given what the wheel has ready after it was reaped.
unfoldable pub process_wheel_st : Env → List (Ref × ℕ) → Rpc → Rpc
process_wheel_st env [] r = r
process_wheel_st env (e ∷ es) r = process_wheel_st env es (process_ready env r e)

unfoldable pub bg_request_loop : Env → List EnqReqArgs → Rpc → Rpc
bg_request_loop env [] r = r
bg_request_loop env (args ∷ l) r = bg_request_loop env l (enqueue_request_st env r args)

-- `process_bg_queues_enqueue_request_st`
unfoldable pub process_bg_queues_enqueue_request_st : Env → Rpc → Rpc
process_bg_queues_enqueue_request_st env r =
    bg_request_loop env r.bg_enqueue_request (record r { bg_enqueue_request = [] })
