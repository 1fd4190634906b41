-- ===== src/Peer/Send.antt =====
-- The client sends its request.
use rdma_yuxi.Prelude.{
  ℕ, ◌+◌, ◌^◌, ◌<◌, ◌≡◌, refl, ap, sym, subst, ◌∙◌, arith, true, false, leb, List, [], ◌∷◌, ◌++◌,
  some, ==_self,
}
use rdma_yuxi.Wire.Header.{session_req_window, req_num_bits}
use rdma_yuxi.Wire.Sizes.{data_size_to_num_pkts}
use rdma_yuxi.Rpc.State.{
  MsgBuffer, Pkt, SSlot, Ref, EnqReqArgs, Rpc, Env, slot_of, session_of, set_session, with_slot,
  tx_buf,
}
use rdma_yuxi.Rpc.Tx.{enqueue_pkt_tx_burst_st}
use rdma_yuxi.Rpc.Tx.Frame.{SameButTs, clear_ts, enqueue_pkt-SameButTs}
use rdma_yuxi.Rpc.Buffers.{fill_hdrs, alloc_msg_buffer}
use rdma_yuxi.Rpc.Buffers.Cut.{packet_of, numbered, hdr-fill_hdrs}
use rdma_yuxi.Rpc.Kick.{can_bypass_wheel, count_tx, kick_req_st}
use rdma_yuxi.Rpc.Kick.Sends.{req_quota, kick_req_st-one}
use rdma_yuxi.Rpc.Client.{start_slot, req_hdr, start_request, enqueue_request_st, enqueue_request}
use rdma_yuxi.Peer.Programs.{req_type, msg_size, hello_args, send_request}
use rdma_yuxi.Peer.Hello.{last_sent, last_sent-enqueue_pkt}
use rdma_yuxi.Peer.RoundTrip.{IsWaiting}

last_sent-count_tx : (r : Rpc) (p : Ref) → last_sent (count_tx r p) ≡ last_sent r
unfolding count_tx
last_sent-count_tx r p = refl

-- A client that can send at once: its session has a free slot and credits, no request waits, and
-- no packet of the slot is in the wheel.
pub record IsReady (env : Env) (c : Rpc) (sn i : ℕ) (rest : List ℕ) : Type 0 where
  pub popped : (c.sessions sn).sslot_free_vec ≡ i ∷ rest
  pub credit : 0 < (c.sessions sn).credits
  pub backlog : (c.sessions sn).enq_req_backlog ≡ []
  pub in_wheel : ((c.sessions sn).slots i).client_info.in_wheel 0 ≡ false
  pub wheel : ((c.sessions sn).slots i).client_info.wheel_count ≡ 0
  pub uncongested : env.is_uncongested (c.sessions sn).samples ≡ true
  pub fits : ((c.sessions sn).slots i).cur_req_num + session_req_window < 2 ^ req_num_bits

module _ (env : Env) (c : Rpc) (sn i : ℕ) (rest : List ℕ) (cont_func tag : ℕ)
    (wide : leb msg_size env.max_data_per_pkt ≡ true) (h : IsReady env c sn i rest) where
  abbrev args : EnqReqArgs
  args = hello_args env.traits sn cont_func tag

  abbrev pub o : Ref
  o = record { sn = sn; slot = i }

  abbrev filled : Rpc
  filled =
      record (set_session c sn
        (record (with_slot (c.sessions sn) i
          (start_slot c (c.sessions sn) ((c.sessions sn).slots i) args)) {
            sslot_free_vec = rest;
          })) { active = c.active ++ (o ∷ []) }

  started : send_request env c sn cont_func tag ≡ kick_req_st env filled o
  unfolding send_request enqueue_request enqueue_request_st start_request
  started = rw (==_self c.creator_etid, h.popped) (ground (arith, h.credit))

  one_pkt : req_quota filled o ≡ 1
  unfolding start_slot fill_hdrs alloc_msg_buffer data_size_to_num_pkts
  one_pkt = ground (arith, h.credit, wide)

  at_once : can_bypass_wheel env filled o ≡ true
  unfolding can_bypass_wheel start_slot
  at_once = ground (arith, h.wheel, h.uncongested)

  first : (slot_of filled o).client_info.num_tx ≡ 0
  unfolding start_slot
  first = ground arith

  queued : Rpc
  queued = enqueue_pkt_tx_burst_st env filled o 0 (some (o, 0))

  sent_is : send_request env c sn cont_func tag ≡ count_tx queued o
  unfolding queued
  sent_is = started ∙ kick_req_st-one env filled o one_pkt at_once first

  same : SameButTs filled queued
  unfolding queued
  same = enqueue_pkt-SameButTs env filled o 0 (some (o, 0))

  abbrev pub request_buf : MsgBuffer
  request_buf = fill_hdrs args.req_msgbuf (
      req_hdr args.req_msgbuf req_type (c.sessions sn).remote_session_num
        (((c.sessions sn).slots i).cur_req_num + session_req_window))

  abbrev pub request : Pkt
  request = packet_of env.traits request_buf 0

  buf_is : tx_buf (slot_of filled o) ≡ request_buf
  unfolding start_slot
  buf_is = ground arith

  pub sends :
      last_sent (send_request env c sn cont_func tag)
      ≡ some (record { dest = sn; msg_buffer = request_buf; pkt_idx = 0; tx_ts = some (o, 0) })
  unfolding queued
  sends =
      ap last_sent sent_is
      ∙ last_sent-count_tx queued o
      ∙ last_sent-enqueue_pkt env filled o 0 (some (o, 0))
      ∙ ap (λ m. some (record { dest = sn; msg_buffer = m; pkt_idx = 0; tx_ts = some (o, 0) }))
          buf_is

  num_pkts_is : args.req_msgbuf.num_pkts ≡ 1
  unfolding alloc_msg_buffer data_size_to_num_pkts
  num_pkts_is = ground (arith, wide)

  pub hdr_is :
      request.hdr
      ≡ numbered
          (req_hdr args.req_msgbuf req_type
            (c.sessions sn).remote_session_num
            (((c.sessions sn).slots i).cur_req_num + session_req_window))
          0
  unfolding req_hdr
  hdr_is = hdr-fill_hdrs args.req_msgbuf _ 0 (omega arith) (omega (arith, num_pkts_is))

  pub number_is : request.hdr.req_num ≡ ((c.sessions sn).slots i).cur_req_num + session_req_window
  unfolding req_hdr
  number_is = ap (λ t. t.req_num) hdr_is ∙ omega (arith, h.fits)

  abbrev new_slot : SSlot
  new_slot = start_slot c (c.sessions sn) ((c.sessions sn).slots i) args

  slot_is : clear_ts (slot_of queued o) ≡ clear_ts new_slot
  slot_is = ap (λ s. s.slots i) (same sn) ∙ ground arith

  backlog_is : (session_of queued o).enq_req_backlog ≡ []
  backlog_is = ap (λ s. s.enq_req_backlog) (same sn) ∙ ground (arith, h.backlog)

  free_is : (session_of queued o).sslot_free_vec ≡ rest
  free_is = ap (λ s. s.sslot_free_vec) (same sn) ∙ ground arith

  pub cont_is : (slot_of (send_request env c sn cont_func tag) o).client_info.cont_func ≡ cont_func
  unfolding start_slot count_tx
  cont_is =
      ap (λ q. (slot_of q o).client_info.cont_func) sent_is
      ∙ ground (arith, ap (λ x. x.client_info.cont_func) slot_is)

  pub tag_is : (slot_of (send_request env c sn cont_func tag) o).client_info.tag ≡ tag
  unfolding start_slot count_tx
  tag_is =
      ap (λ q. (slot_of q o).client_info.tag) sent_is
      ∙ ground (arith, ap (λ x. x.client_info.tag) slot_is)

  pub rest_is : (session_of (send_request env c sn cont_func tag) o).sslot_free_vec ≡ rest
  unfolding count_tx
  rest_is = ap (λ q. (session_of q o).sslot_free_vec) sent_is ∙ ground (arith, free_is)

  pub type_is : request.hdr.req_type ≡ req_type
  unfolding req_hdr
  type_is = ap (λ t. t.req_type) hdr_is

  -- The slot waits for the answer to the packet.
  pub waiting : IsWaiting (send_request env c sn cont_func tag) o request
  unfolding start_slot count_tx alloc_msg_buffer
  waiting =
      subst (λ q. IsWaiting q o request) (sym sent_is)
        (record {
          current = number_is ∙ ground (arith, ap (λ x. x.cur_req_num) slot_is);
          nothing = ground (arith, ap (λ x. x.client_info.num_rx) slot_is);
          sent = ground arith;
          in_wheel = ground (arith, ap (λ x. x.client_info.in_wheel 0) slot_is, h.in_wheel);
          backlog = ground (arith, backlog_is);
          here = ground (arith, ap (λ x. x.client_info.cont_etid) slot_is);
          room = ground (arith, ap (λ x. x.client_info.resp_msgbuf.max_data_size) slot_is);
        })
