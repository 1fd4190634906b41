-- ===== src/Rpc/Client.antt =====
-- The client side of the data path: rpc_impl/rpc_req.cc (enqueue_request), rpc_cr.cc, rpc_resp.cc
-- (process_resp_one_st), rpc_pkt_loss.cc and rpc_queues.cc.
use rdma_yuxi.Prelude.{
  ℕ, ◌+◌, ◌-◌, ◌%◌, ◌^◌, Bool, true, false, not, ◌&&◌, ltb, leb, ◌==◌, if◌then◌else◌, List, [], ◌∷◌,
  ◌++◌,
}
use rdma_yuxi.Wire.Header.{
  PktHdr, PktType, session_credits, session_req_window, msg_size_bits, req_num_bits,
}
use rdma_yuxi.Rpc.State.{
  MsgBuffer, ClientInfo, SSlot, Session, Ref, EnqReqArgs, Rpc, Env, slot_of, session_of,
  set_session, with_slot, user,
}
use rdma_yuxi.Rpc.Buffers.{fill_hdrs}
use rdma_yuxi.Rpc.Kick.{kick_req_st, req_pkts_pending}

abbrev pub ref_eq : Ref → Ref → Bool
ref_eq p q = p.sn == q.sn && p.slot == q.slot

-- `delete_from_active_rpc_list`
unfoldable pub remove_ref : Ref → List Ref → List Ref
remove_ref p [] = []
remove_ref p (q ∷ l) = if ref_eq p q then l else q ∷ remove_ref p l

-- Header 0 of a request: the fields that `enqueue_request` writes, cut to their widths; the magic
-- number is the buffer's.
unfoldable pub req_hdr : MsgBuffer → ℕ → ℕ → ℕ → PktHdr
req_hdr m req_type remote_session_num req_num = record {
  req_type = req_type % 2 ^ 8;
  msg_size = m.data_size % 2 ^ msg_size_bits;
  dest_session_num = remote_session_num;
  pkt_type = PktType.req;
  pkt_num = 0;
  req_num = req_num % 2 ^ req_num_bits;
  magic = (m.hdr 0).magic;
}

-- The slot that `enqueue_request` fills in.
unfoldable pub start_slot : Rpc → Session → SSlot → EnqReqArgs → SSlot
unfolding fill_hdrs req_hdr
start_slot r s x args = record x {
  tx_msgbuf = user (
      fill_hdrs args.req_msgbuf (
        req_hdr args.req_msgbuf args.req_type s.remote_session_num
          (x.cur_req_num + session_req_window)));
  cur_req_num = x.cur_req_num + session_req_window;
  client_info = record ci {
    resp_msgbuf = args.resp_msgbuf;
    cont_func = args.cont_func;
    tag = args.tag;
    progress_tsc = r.ev_loop_tsc;
    num_rx = 0;
    num_tx = 0;
    cont_etid = args.cont_etid;
  };
}
  where
    ci : ClientInfo
    ci = x.client_info

-- The rest of `enqueue_request`, with slot `i` popped from the free slots, which are now `rest`.
unfoldable pub start_request : Env → Rpc → EnqReqArgs → ℕ → List ℕ → Rpc
start_request env r args i rest =
    if ltb 0 s.credits
    then kick_req_st env started p
    else record started { stallq = r.stallq ++ (p ∷ []) }
  where
    s : Session
    s = r.sessions args.session_num

    p : Ref
    p = record { sn = args.session_num; slot = i }

    started : Rpc
    started =
        record (set_session r args.session_num
          (record (with_slot s i (start_slot r s (s.slots i) args)) { sslot_free_vec = rest })) {
            active = r.active ++ (p ∷ []);
          }

-- `enqueue_request` in the dispatch thread: with no free slot the request joins the backlog.
unfoldable pub enqueue_request_st : Env → Rpc → EnqReqArgs → Rpc
enqueue_request_st env r args = elim (r.sessions args.session_num).sslot_free_vec [
  | [] ↦
      set_session r args.session_num
        (record s { enq_req_backlog = s.enq_req_backlog ++ (args ∷ []) })
  | i ∷ rest ↦ start_request env r args i rest
]
  where
    s : Session
    s = r.sessions args.session_num

-- `enqueue_request` as the thread `etid` calls it: any other thread queues the request.
unfoldable pub enqueue_request : Env → Rpc → ℕ → EnqReqArgs → Rpc
enqueue_request env r etid args =
    if etid == r.creator_etid then enqueue_request_st env r args else record r {
      bg_enqueue_request = r.bg_enqueue_request ++ (record args { cont_etid = etid } ∷ []);
    }

-- `in_order_client`, which counts the packets that it drops for a packet in the wheel.
unfoldable pub in_order_client : Rpc → Ref → PktHdr → Bool × Rpc
in_order_client r p h =
    if not (h.req_num == (slot_of r p).cur_req_num)
    then (false, r)
    else if not (h.pkt_num == ci.num_rx)
    then (false, r)
    else if leb ci.num_tx h.pkt_num
    then (false, r)
    else if ci.in_wheel (h.pkt_num % session_credits)
    then (false, record r { still_in_wheel_during_retx = r.still_in_wheel_during_retx + 1 })
    else (true, r)
  where
    ci : ClientInfo
    ci = (slot_of r p).client_info

-- The slot with one more packet received, and the new progress time.
abbrev pub rx_slot : Rpc → SSlot → SSlot
rx_slot r x = record x {
  client_info = record ci { num_rx = ci.num_rx + 1; progress_tsc = r.ev_loop_tsc };
}
  where
    ci : ClientInfo
    ci = x.client_info

-- `update_timely_rate` (the sample that Timely gets; `size_t` subtraction wraps) and `bump_credits`.
abbrev pub rx_session : Rpc → Ref → PktHdr → ℕ → Session
rx_session r p h rx_tsc = record (with_slot s p.slot (rx_slot r (s.slots p.slot))) {
  credits = s.credits + 1;
  samples =
      (
        rx_tsc,
        (rx_tsc + 2 ^ 64 - (s.slots p.slot).client_info.tx_ts (h.pkt_num % session_credits))
            % 2 ^ 64,
      )
      ∷ s.samples;
}
  where
    s : Session
    s = session_of r p

-- What both handlers of the client do on a packet in order.
unfoldable pub count_rx : Rpc → Ref → PktHdr → ℕ → Rpc
count_rx r p h rx_tsc = set_session r p.sn (rx_session r p h rx_tsc)

-- What is left of the request is sent.
unfoldable pub take_cr : Env → Rpc → Ref → Rpc
take_cr env r p = if req_pkts_pending (slot_of r p) then kick_req_st env r p else r

-- `process_expl_cr_st`
unfoldable pub process_expl_cr_st : Env → Rpc → Ref → PktHdr → ℕ → Rpc
process_expl_cr_st env r p h rx_tsc =
    if (in_order_client r p h).0
    then take_cr env (count_rx (in_order_client r p h).1 p h rx_tsc) p
    else (in_order_client r p h).1
