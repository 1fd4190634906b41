-- ===== src/Rpc/Listed/Answers.antt =====
-- Responses at the client, for any slot.
use rdma_yuxi.Rpc.Credits.Responses.Stored.{IsReady, IsResponse}
use rdma_yuxi.Prelude.{
  ℕ, ◌-◌, ◌<◌, ◌≡◌, refl, ap, ◌∙◌, arith, inl, inr, true, false, leb, ◌==◌, Bool-cases,
}
use rdma_yuxi.Wire.Header.{session_req_window}
use rdma_yuxi.Rpc.State.{MsgBuffer, Pkt, Ref, Rpc, Env, slot_of, tx_buf}
use rdma_yuxi.Rpc.Kick.{kick_rfr_st, slot_wire_pkts}
use rdma_yuxi.Rpc.Kick.Lists.{lists-kick_rfr}
use rdma_yuxi.Rpc.Kick.Sends.{rfr_quota, kick_rfr_st-Sends}
use rdma_yuxi.Rpc.Client.{in_order_client, count_rx}
use rdma_yuxi.Rpc.Response.{
  set_resp, store_small_resp, size_resp, request_rest, store_large_resp, finish_large_resp,
  complete, take_resp, process_resp_one_st,
}
use rdma_yuxi.Rpc.Credits.{is_null}
use rdma_yuxi.Rpc.Credits.Responses.Packets.{
  take_small-IsReady, take_large-IsReady, process_resp_one_st-IsSound,
}
use rdma_yuxi.Rpc.Listed.{IsListed, still-IsListed, sent-not_stalled}
use rdma_yuxi.Rpc.Listed.Finish.{queues, complete-IsListed, queues-complete}
use rdma_yuxi.Rpc.Listed.Receive.{
  IsClient, same-IsClient, kicked-IsListed, in_order-active, checked-IsClient, counted-IsListed,
  sent-counted, queues-counted,
}

-- The slot sent something, the lists are right, and the queues are those of `r`.
abbrev IsOpen : Rpc → Ref → Rpc → Type 0
IsOpen r p q = (0 < (slot_of q p).client_info.num_tx) × IsListed q q.stallq × (queues q ≡ queues r)

module _ (r : Rpc) (p : Ref) (env : Env) where
  set_resp-IsOpen : (q : Rpc) (b : MsgBuffer) → IsOpen r p q → IsOpen r p (set_resp q p b)
  set_resp-IsOpen q b (pos, v, same) = (
    ground (arith, pos),
    still-IsListed q (set_resp q p b) q.stallq refl (λ a. ground arith) (λ a. ground arith) v,
    same,
  )

  small-IsOpen : (q : Rpc) (pkt : Pkt) → IsOpen r p q → IsOpen r p (store_small_resp env q p pkt)
  unfolding store_small_resp
  small-IsOpen q pkt h = set_resp-IsOpen q _ h

  size-IsOpen : (q : Rpc) (pkt : Pkt) → IsOpen r p q → IsOpen r p (size_resp env q p pkt)
  unfolding size_resp
  size-IsOpen q pkt h = elim (Bool-cases (pkt.hdr.pkt_num == (tx_buf (slot_of q p)).num_pkts - 1)) [
    | inl e ↦ rw e (set_resp-IsOpen q _ h)
    | inr e ↦ rw e h
  ]

  rest-IsOpen : (q : Rpc) → IsOpen r p q → IsOpen r p (request_rest env q p)
  unfolding request_rest
  rest-IsOpen q h =
      elim (Bool-cases ((slot_of q p).client_info.num_tx == slot_wire_pkts (slot_of q p))) [
        | inl e ↦ rw e h
        | inr e ↦ rw e (
          ground (arith, h, (kick_rfr_st-Sends env q p p.sn p.slot).3),
          kicked-IsListed q (kick_rfr_st env q p) p (rfr_quota q p) (lists-kick_rfr env q p)
              (kick_rfr_st-Sends env q p) (sent-not_stalled q p q.stallq h.0 h.1) h.1,
          ap (λ l. (l.2, l.3)) (lists-kick_rfr env q p) ∙ h.2,
        )
      ]

  large-IsOpen : (q : Rpc) (pkt : Pkt) → IsOpen r p q → IsOpen r p (store_large_resp env q p pkt)
  unfolding store_large_resp
  large-IsOpen q pkt h = set_resp-IsOpen _ _ (rest-IsOpen _ (size-IsOpen q pkt h))

  complete-IsOpen :
      (q : Rpc)
      → p.slot < session_req_window
      → IsReady p q
      → IsOpen r p q
      → IsListed (complete env q p) (complete env q p).stallq
        × (queues (complete env q p) ≡ queues r)
  complete-IsOpen q lt h (pos, v, same) =
      (complete-IsListed env q p lt h.0 pos h.1 h.2 v, queues-complete env q p ∙ same)

module _ (env : Env) (wide : 0 < env.max_data_per_pkt) (r : Rpc) (p : Ref) (pkt : Pkt) (rx_tsc : ℕ)
    (lt : p.slot < session_req_window) (c : IsClient r)
    (resp : (in_order_client r p pkt.hdr).0 ≡ true → IsResponse env (slot_of r p) pkt.hdr) where
  abbrev q : Rpc
  q = count_rx (in_order_client r p pkt.hdr).1 p pkt.hdr rx_tsc

  module _ (e : (in_order_client r p pkt.hdr).0 ≡ true) where
    act : is_null (slot_of r p).tx_msgbuf ≡ false
    act = in_order-active r p pkt.hdr lt c.sound e

    opened : IsOpen r p q
    opened = (
      sent-counted env r p lt c pkt.hdr rx_tsc e,
      counted-IsListed env r p lt c pkt.hdr rx_tsc,
      queues-counted env r p lt c pkt.hdr rx_tsc,
    )

    taken :
        IsListed (take_resp env q p pkt) (take_resp env q p pkt).stallq
        × (queues (take_resp env q p pkt) ≡ queues r)
    unfolding take_resp finish_large_resp
    taken = elim (Bool-cases (leb pkt.hdr.msg_size env.max_data_per_pkt)) [
      | inl small ↦ rw small (
          complete-IsOpen r p env (store_small_resp env q p pkt) lt
            (take_small-IsReady env wide r p pkt rx_tsc lt act c.sound (resp e) e small)
            (small-IsOpen r p env q pkt opened))
      | inr large ↦
          let t = store_large_resp env q p pkt in
          let t-IsOpen = large-IsOpen r p env q pkt opened in
          elim (Bool-cases ((slot_of t p).client_info.num_rx == slot_wire_pkts (slot_of t p))) [
            | inl last ↦
                rw (large, last)
                  (complete-IsOpen r p env t lt
                    (take_large-IsReady env wide r p pkt rx_tsc lt act c.sound (resp e) e last)
                    t-IsOpen)
            | inr more ↦ rw (large, more) (t-IsOpen.1, t-IsOpen.2)
          ]
    ]

  -- A response packet, for any slot, leaves a client a client. If it is in order, its number follows
  -- those of the request, and a response in one packet is the first one.
  pub process_resp_one_st-IsClient : IsClient (process_resp_one_st env r p pkt rx_tsc)
  unfolding process_resp_one_st
  process_resp_one_st-IsClient = elim (Bool-cases (in_order_client r p pkt.hdr).0) [
    | inl e ↦
        same-IsClient r (process_resp_one_st env r p pkt rx_tsc) (rw e (taken e).1)
          (process_resp_one_st-IsSound env wide r p pkt rx_tsc lt (act e) c.sound (resp e))
          (rw e (taken e).0) c
    | inr e ↦ rw e (checked-IsClient env r p lt c pkt.hdr)
  ]
