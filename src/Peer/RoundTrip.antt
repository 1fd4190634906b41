-- ===== src/Peer/RoundTrip.antt =====
-- A request of the client's, from its arrival at the server to the continuation.
use rdma_yuxi.Rpc.Server.Quiet.{invoke-runs, runs-take_small}
use rdma_yuxi.Rpc.Reply.{is_connected}
use rdma_yuxi.Prelude.{
  ℕ, ◌+◌, ◌%◌, ◌<◌, ◌≤◌, ◌≡◌, ap, sym, ◌∙◌, arith, true, false, leb, [], ◌∷◌, Option, none, some,
}
use rdma_yuxi.Wire.Header.{Traits, invalid_bg_etid, session_credits}
use rdma_yuxi.Wire.Sizes.{data_size_to_num_pkts}
use rdma_yuxi.Rpc.State.{Pkt, foreground, SSlot, Ref, run_cont, Rpc, Env, slot_of, session_of}
use rdma_yuxi.Rpc.Buffers.{resize_msg_buffer, copy_bytes, fill_hdrs}
use rdma_yuxi.Rpc.Buffers.Cut.{packet_of, numbered, hdr-fill_hdrs}
use rdma_yuxi.Rpc.Server.{
  invoke_req_func, submit_bg_req_st, take_small_req, small_req_msgbuf, bury_resp_msgbuf_server_st,
  process_small_req_st,
}
use rdma_yuxi.Rpc.Tx.Runs.{runs}
use rdma_yuxi.Rpc.Response.{process_resp_one_st}
use rdma_yuxi.Rpc.Answer.{IsAnswer, process_resp_one_st-ends}
use rdma_yuxi.Peer.Programs.{msg_size, hello, hello_size, hello_slot, req_handler}
use rdma_yuxi.Peer.Hello.{last_sent, response_hdr, response, req_handler-sends}

-- The packet that was handed to the transport last, as it arrives.
abbrev pub sent_packet : Traits → Rpc → Option Pkt
sent_packet tr r = elim (last_sent r) [
  | none ↦ none
  | some t ↦ some (packet_of tr t.msg_buffer t.pkt_idx)
]

-- A request with a new number that arrives at the server, whose handler runs in place.
module _ (env : Env) (r : Rpc) (p : Ref) (pkt : Pkt)
    (new : (slot_of r p).cur_req_num < pkt.hdr.req_num)
    (mode : env.req_func_type pkt.hdr.req_type ≡ foreground) where
  abbrev q : Rpc
  q = process_small_req_st env r p pkt

  taken_up : q ≡ invoke_req_func env (take_small_req env r p pkt) p pkt.hdr.req_type
  unfolding process_small_req_st
  taken_up = ground (arith, new)

  invoked :
      slot_of (invoke_req_func env (take_small_req env r p pkt) p pkt.hdr.req_type) p
      ≡ slot_of (take_small_req env r p pkt) p
  unfolding invoke_req_func submit_bg_req_st
  invoked = ground (arith, mode)

  slot_is : slot_of q p ≡ slot_of (take_small_req env r p pkt) p
  slot_is = ap (λ t. slot_of t p) taken_up ∙ invoked

  num_pkts-small : (small_req_msgbuf env pkt).num_pkts ≡ 1
  unfolding small_req_msgbuf
  num_pkts-small = ground (arith, mode)

  pub invoked_once : runs p q.events ≡ runs p r.events + 1
  invoked_once =
      ap (λ t. runs p t.events) taken_up
      ∙ invoke-runs env (take_small_req env r p pkt) p pkt.hdr.req_type
      ∙ ap (λ n. n + 1) (runs-take_small env r p pkt)

  state-served : (session_of q p).state ≡ (session_of r p).state
  unfolding process_small_req_st take_small_req invoke_req_func submit_bg_req_st
      bury_resp_msgbuf_server_st
  state-served = ground (arith, new, mode)

  remote-served : (session_of q p).remote_session_num ≡ (session_of r p).remote_session_num
  unfolding process_small_req_st take_small_req invoke_req_func submit_bg_req_st
      bury_resp_msgbuf_server_st
  remote-served = ground (arith, new, mode)

  abbrev x : SSlot
  x = slot_of (take_small_req env r p pkt) p

  fields :
      (x.cur_req_num ≡ pkt.hdr.req_num)
      × (x.server_info.req_type ≡ pkt.hdr.req_type)
      × (x.server_info.req_msgbuf.num_pkts ≡ 1)
      × (x.pre_resp_msgbuf ≡ (slot_of r p).pre_resp_msgbuf)
  unfolding take_small_req bury_resp_msgbuf_server_st
  fields = (ground arith, ground arith, ground (arith, num_pkts-small), ground arith)

  fits : (response_hdr q p).pkt_num ≡ 0
  fits = ground (arith, ap (λ y. y.server_info.req_msgbuf.num_pkts) slot_is, fields)

  numbered_as : (response_hdr q p).req_num ≡ pkt.hdr.req_num
  numbered_as = ap (λ y. y.cur_req_num) slot_is ∙ fields.0

  abbrev answer : Pkt
  answer = packet_of env.traits (response env q p) 0

  one_pkt :
      leb msg_size env.max_data_per_pkt ≡ true
      → (hello_slot env (slot_of q p)).pre_resp_msgbuf.num_pkts ≡ 1
  unfolding resize_msg_buffer data_size_to_num_pkts
  one_pkt wide = ground (arith, wide)

  answer_hdr : leb msg_size env.max_data_per_pkt ≡ true → answer.hdr ≡ numbered (response_hdr q p) 0
  answer_hdr wide =
      hdr-fill_hdrs (hello_slot env (slot_of q p)).pre_resp_msgbuf (response_hdr q p) 0
        (omega (arith, fits)) (omega (arith, one_pkt wide))

  text : (i : ℕ) → i < hello_size → answer.payload i ≡ hello i
  unfolding fill_hdrs resize_msg_buffer copy_bytes
  text i lt = ground arith

-- A client's slot that sent its request and got nothing yet, with room for the response and no
-- request behind it.
pub record IsWaiting (c : Rpc) (o : Ref) (pkt : Pkt) : Type 0 where
  pub current : pkt.hdr.req_num ≡ (slot_of c o).cur_req_num
  pub nothing : (slot_of c o).client_info.num_rx ≡ 0
  pub sent : 0 < (slot_of c o).client_info.num_tx
  pub in_wheel : (slot_of c o).client_info.in_wheel 0 ≡ false
  pub backlog : (session_of c o).enq_req_backlog ≡ []
  pub here : (slot_of c o).client_info.cont_etid ≡ invalid_bg_etid
  pub room : msg_size ≤ (slot_of c o).client_info.resp_msgbuf.max_data_size

module _ (env : Env) (r : Rpc) (p : Ref) (pkt : Pkt) (cenv : Env) (c : Rpc) (o : Ref) (rx_tsc : ℕ)
    (wide : leb msg_size env.max_data_per_pkt ≡ true) (same : cenv.traits ≡ env.traits)
    (new : (slot_of r p).cur_req_num < pkt.hdr.req_num)
    (mode : env.req_func_type pkt.hdr.req_type ≡ foreground)
    (open_session : is_connected (session_of r p).state ≡ true) (w : IsWaiting c o pkt) where
  abbrev served : Rpc
  served = process_small_req_st env r p pkt

  abbrev pub reply : Pkt
  reply = answer env r p pkt new mode

  hdr_is : reply.hdr ≡ numbered (response_hdr served p) 0
  hdr_is = answer_hdr env r p pkt new mode wide

  size_is : reply.hdr.msg_size ≡ msg_size
  size_is = ap (λ h. h.msg_size) hdr_is

  num_is : reply.hdr.pkt_num ≡ 0
  num_is = ap (λ h. h.pkt_num) hdr_is ∙ omega (arith, fits env r p pkt new mode)

  req_is : reply.hdr.req_num ≡ pkt.hdr.req_num
  req_is = ap (λ h. h.req_num) hdr_is ∙ numbered_as env r p pkt new mode

  expected : IsAnswer cenv c o reply
  expected = record {
    small =
        ap (λ n. leb n cenv.max_data_per_pkt) size_is
        ∙ ap (λ t. leb msg_size t.max_data_per_pkt) same
        ∙ wide;
    room = omega (arith, size_is, w.room);
    current = req_is ∙ w.current;
    number = num_is ∙ sym w.nothing;
    sent = omega (arith, num_is, w.sent);
    in_wheel =
        ap (λ n. (slot_of c o).client_info.in_wheel (n % session_credits)) num_is ∙ w.in_wheel;
    backlog = w.backlog;
    here = w.here;
  }

  stays : is_connected (session_of served p).state ≡ true
  stays = ap is_connected (state-served env r p pkt new mode) ∙ open_session

  abbrev answered : Rpc
  answered = process_resp_one_st cenv c o reply rx_tsc

  -- A request in one packet with a new number reaches a server whose handler runs in place. The handler
  -- hands one packet to the transport, and when this packet reaches the client's slot that waits for it,
  -- the continuation is called once with the request's tag, the response buffer holds the server's
  -- text, and the slot is free again. Client and server have the same transport, a response fits its
  -- packet, the session is connected at the server, and no other request waits at the client.
  pub hello-answered :
      (i : ℕ)
      → i < hello_size
      → (sent_packet env.traits (req_handler env served p) ≡ some reply)
        × (answered.events
            ≡ run_cont (slot_of c o).client_info.cont_func (slot_of c o).client_info.tag ∷ c.events)
        × ((slot_of answered o).client_info.resp_msgbuf.bytes i ≡ hello i)
        × ((session_of answered o).sslot_free_vec ≡ o.slot ∷ (session_of c o).sslot_free_vec)
  hello-answered i lt =
      let e =
        process_resp_one_st-ends cenv c o reply rx_tsc expected i (omega (arith, size_is, lt)) in
      (
        ap
            (λ s. elim s [
              | none ↦ none
              | some t ↦ some (packet_of env.traits t.msg_buffer t.pkt_idx)
            ])
            (req_handler-sends env served p stays),
        e.0,
        e.1 ∙ text env r p pkt new mode i lt,
        e.2,
      )
