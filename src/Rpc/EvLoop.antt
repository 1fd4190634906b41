-- ===== src/Rpc/EvLoop.antt =====
-- Reception and the event loop: `process_comps_st` of rpc_impl/rpc_rx.cc and
-- `run_event_loop_do_one_st` of rpc_impl/rpc_ev_loop.cc.
use rdma_yuxi.Rpc.Reply.{is_connected, process_bg_queues_enqueue_response_st}
use rdma_yuxi.Prelude.{
  ◌+◌, ◌-◌, ◌^◌, ltb, ℕ, ◌%◌, Bool, false, not, ltb, leb, if◌then◌else◌, List, [], ◌∷◌, length,
}
use rdma_yuxi.Wire.Header.{PktHdr, PktType, check_magic, session_req_window}
use rdma_yuxi.Rpc.State.{Pkt, Ref, Rpc, Env}
use rdma_yuxi.Rpc.Tx.{do_tx_burst_st}
use rdma_yuxi.Rpc.Client.{process_expl_cr_st}
use rdma_yuxi.Rpc.Response.{process_resp_one_st}
use rdma_yuxi.Rpc.Loss.{
  process_credit_stall_queue_st, process_wheel_st, process_bg_queues_enqueue_request_st,
  pkt_loss_scan_st,
}
use rdma_yuxi.Rpc.Server.{process_small_req_st, process_large_req_one_st, process_rfr_st}

-- The slot that a packet is for.
abbrev pub sslot_of : PktHdr → Ref
sslot_of h = record { sn = h.dest_session_num; slot = h.req_num % session_req_window }

-- A packet that is for a connected session is handled by its type; responses and credit returns get
-- the time of the batch.
unfoldable pub dispatch : Env → Rpc → Pkt → Rpc
dispatch env r pkt = elim pkt.hdr.pkt_type [
  | PktType.req ↦
      if leb pkt.hdr.msg_size env.max_data_per_pkt
      then process_small_req_st env r (sslot_of pkt.hdr) pkt
      else process_large_req_one_st env r (sslot_of pkt.hdr) pkt
  | PktType.resp ↦ process_resp_one_st env r (sslot_of pkt.hdr) pkt r.ev_loop_tsc
  | PktType.rfr ↦ process_rfr_st env r (sslot_of pkt.hdr) pkt.hdr
  | PktType.expl_cr ↦ process_expl_cr_st env r (sslot_of pkt.hdr) pkt.hdr r.ev_loop_tsc
]

-- The tests that a packet passes before.
unfoldable pub is_accepted : Rpc → PktHdr → Bool
is_accepted r h =
    if not (check_magic h)
    then false
    else if leb r.num_sessions h.dest_session_num
    then false
    else if not (r.live h.dest_session_num)
    then false
    else is_connected (r.sessions h.dest_session_num).state

unfoldable pub process_pkt : Env → Rpc → Pkt → Rpc
process_pkt env r pkt = if is_accepted r pkt.hdr then dispatch env r pkt else r

-- The loop of `process_comps_st` over the packets of a burst.
unfoldable pub process_comps_st : Env → List Pkt → Rpc → Rpc
process_comps_st env [] r = r
process_comps_st env (pkt ∷ l) r = process_comps_st env l (process_pkt env r pkt)

-- The scan for lost packets, in a new epoch.
unfoldable pub scan_in_epoch : Env → Rpc → Rpc
scan_in_epoch env r =
    if ltb env.rpc_pkt_loss_scan_cycles ((r.ev_loop_tsc + 2 ^ 64 - r.pkt_loss_scan_tsc) % 2 ^ 64)
    then pkt_loss_scan_st env (record r { pkt_loss_scan_tsc = r.ev_loop_tsc })
    else r

-- One round of the event loop, after session management: at the time `tsc`, with the burst `pkts`
-- and the wheel's packets that are ready.
unfoldable pub run_event_loop_do_one_st : Env → ℕ → List Pkt → List (Ref × ℕ) → Rpc → Rpc
run_event_loop_do_one_st env tsc pkts ready r = scan_in_epoch env (
    if ltb 0 env.num_bg_threads
    then process_bg_queues_enqueue_response_st env (process_bg_queues_enqueue_request_st env burst)
    else burst)
  where
    received : Rpc
    received = process_comps_st env pkts (record r { ev_loop_tsc = tsc })

    paced : Rpc
    paced = process_wheel_st env ready (process_credit_stall_queue_st env received)

    burst : Rpc
    burst = if ltb 0 (length paced.tx_batch) then do_tx_burst_st paced else paced
