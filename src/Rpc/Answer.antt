-- ===== src/Rpc/Answer.antt =====
-- A response in one packet at the client.
use rdma_yuxi.Prelude.{
  ℕ, ◌%◌, ◌<◌, ◌≤◌, ◌≡◌, refl, ap, ◌∙◌, arith, true, false, leb, if◌then◌else◌, [], ◌∷◌,
}
use rdma_yuxi.Wire.Header.{session_credits, invalid_bg_etid}
use rdma_yuxi.Rpc.State.{Pkt, Ref, run_cont, Rpc, Env, slot_of, session_of}
use rdma_yuxi.Rpc.Buffers.{copy_bytes}
use rdma_yuxi.Rpc.Client.{in_order_client, count_rx}
use rdma_yuxi.Rpc.Response.{
  free_slot, start_backlog, invoke_cont, complete, store_small_resp, take_resp, process_resp_one_st,
}

-- The first packet of an answer that the slot expects, which fits the response buffer.
pub record IsAnswer (env : Env) (r : Rpc) (p : Ref) (pkt : Pkt) : Type 0 where
  pub small : leb pkt.hdr.msg_size env.max_data_per_pkt ≡ true
  pub room : pkt.hdr.msg_size ≤ (slot_of r p).client_info.resp_msgbuf.max_data_size
  pub current : pkt.hdr.req_num ≡ (slot_of r p).cur_req_num
  pub number : pkt.hdr.pkt_num ≡ (slot_of r p).client_info.num_rx
  pub sent : pkt.hdr.pkt_num < (slot_of r p).client_info.num_tx
  pub in_wheel : (slot_of r p).client_info.in_wheel (pkt.hdr.pkt_num % session_credits) ≡ false
  pub backlog : (session_of r p).enq_req_backlog ≡ []
  pub here : (slot_of r p).client_info.cont_etid ≡ invalid_bg_etid

module _ (env : Env) (r : Rpc) (p : Ref) (pkt : Pkt) (rx_tsc : ℕ) (a : IsAnswer env r p pkt) where
  in_order : in_order_client r p pkt.hdr ≡ (true, r)
  unfolding in_order_client
  in_order = ground (arith, a.current, a.number, a.sent, a.in_wheel)

  abbrev counted : Rpc
  counted = count_rx r p pkt.hdr rx_tsc

  abbrev stored : Rpc
  stored = store_small_resp env counted p pkt

  taken : process_resp_one_st env r p pkt rx_tsc ≡ take_resp env counted p pkt
  unfolding process_resp_one_st
  taken =
      ap (λ w. if w.0 then take_resp env (count_rx w.1 p pkt.hdr rx_tsc) p pkt else w.1) in_order

  small_is : take_resp env counted p pkt ≡ complete env stored p
  unfolding take_resp
  small_is = rw a.small refl

  backlog-stored : (session_of stored p).enq_req_backlog ≡ []
  unfolding store_small_resp count_rx
  backlog-stored = ground (arith, a.backlog)

  -- With no request waiting, the slot is freed and the continuation called.
  complete_is :
      complete env stored p ≡ invoke_cont (free_slot stored p) (slot_of stored p).client_info
  unfolding complete start_backlog
  complete_is =
      ap
        (λ l.
          invoke_cont (start_backlog env (free_slot stored p) p.sn l)
            (slot_of stored p).client_info)
        backlog-stored

  abbrev ended : Rpc
  ended = process_resp_one_st env r p pkt rx_tsc

  ended_is : ended ≡ invoke_cont (free_slot stored p) (slot_of stored p).client_info
  ended_is = taken ∙ small_is ∙ complete_is

  -- The continuation is called, and nothing else happens.
  logged :
      (invoke_cont (free_slot stored p) (slot_of stored p).client_info).events
      ≡ run_cont (slot_of r p).client_info.cont_func (slot_of r p).client_info.tag ∷ r.events
  unfolding invoke_cont free_slot store_small_resp count_rx
  logged = ground (arith, a.here)

  copied :
      (i : ℕ)
      → i < pkt.hdr.msg_size
      → (slot_of
            (invoke_cont (free_slot stored p) (slot_of stored p).client_info)
            p).client_info.resp_msgbuf.bytes
          i
        ≡ pkt.payload i
  unfolding invoke_cont free_slot store_small_resp count_rx copy_bytes
  copied i lt = ground arith

  freed :
      (session_of
        (invoke_cont (free_slot stored p) (slot_of stored p).client_info)
        p).sslot_free_vec
      ≡ p.slot ∷ (session_of r p).sslot_free_vec
  unfolding invoke_cont free_slot store_small_resp count_rx
  freed = ground arith

  pub process_resp_one_st-ends :
      (i : ℕ)
      → i < pkt.hdr.msg_size
      → (ended.events
          ≡ run_cont (slot_of r p).client_info.cont_func (slot_of r p).client_info.tag ∷ r.events)
        × ((slot_of ended p).client_info.resp_msgbuf.bytes i ≡ pkt.payload i)
        × ((session_of ended p).sslot_free_vec ≡ p.slot ∷ (session_of r p).sslot_free_vec)
  process_resp_one_st-ends i lt = (
    ap (λ q. q.events) ended_is ∙ logged,
    ap (λ q. (slot_of q p).client_info.resp_msgbuf.bytes i) ended_is ∙ copied i lt,
    ap (λ q. (session_of q p).sslot_free_vec) ended_is ∙ freed,
  )
