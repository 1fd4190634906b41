-- ===== src/Rpc/Credits/Responses/Packets.antt =====
-- The packets of a response keep the invariant of client sessions.
use rdma_yuxi.Prelude.{
  ℕ, ◌+◌, ◌≤◌, ◌<◌, ◌≡◌, ap, ◌∙◌, arith, inl, inr, true, false, leb, ◌==◌, Bool-cases,
}
use native.Mathlib.Decide.{ℕ_discrete}
use rdma_yuxi.Wire.Header.{session_req_window}
use rdma_yuxi.Rpc.State.{Pkt, Ref, Rpc, Env, slot_of, tx_buf}
use rdma_yuxi.Rpc.Kick.{slot_wire_pkts}
use rdma_yuxi.Rpc.Client.{in_order_client, count_rx, rx_slot}
use rdma_yuxi.Rpc.Response.{
  complete, store_small_resp, store_large_resp, finish_large_resp, take_resp, process_resp_one_st,
}
use rdma_yuxi.Rpc.Credits.{is_null, AllSound}
use rdma_yuxi.Rpc.Credits.Receive.{
  in_order_client-true, slot-count_rx, sessions-in_order_client, same_sessions, counted-IsSound,
}
use rdma_yuxi.Rpc.Credits.Responses.{complete-IsSound}
use rdma_yuxi.Rpc.Credits.Responses.Stored.{
  IsResponse, IsAnswered, IsReady, small-IsReady, store_large_resp-IsSound, finish-IsReady,
}

module _ (env : Env) (wide : 0 < env.max_data_per_pkt) (r : Rpc) (p : Ref) (pkt : Pkt) (rx_tsc : ℕ)
    (lt : p.slot < session_req_window) (act : is_null (slot_of r p).tx_msgbuf ≡ false)
    (all : AllSound r) (resp : IsResponse env (slot_of r p) pkt.hdr) where
  abbrev pub q : Rpc
  q = count_rx (in_order_client r p pkt.hdr).1 p pkt.hdr rx_tsc

  abbrev n : ℕ
  n = (tx_buf (slot_of r p)).num_pkts

  abbrev k : ℕ
  k = pkt.hdr.pkt_num + 1

  q-IsSound : (in_order_client r p pkt.hdr).0 ≡ true → AllSound q
  q-IsSound e j = counted-IsSound env r p pkt.hdr rx_tsc lt act all e j

  same : slot_of q p ≡ rx_slot (in_order_client r p pkt.hdr).1 (slot_of r p)
  same =
      slot-count_rx (in_order_client r p pkt.hdr).1 p pkt.hdr rx_tsc
      ∙ ap (λ f. rx_slot (in_order_client r p pkt.hdr).1 ((f p.sn).slots p.slot))
          (sessions-in_order_client r p pkt.hdr)

  ans : (in_order_client r p pkt.hdr).0 ≡ true → IsAnswered p n k q
  ans e = (
    ap (λ z. is_null z.tx_msgbuf) same ∙ act,
    ap (λ z. (tx_buf z).num_pkts) same,
    ground (arith, ap (λ z. z.client_info.num_rx) same, in_order_client-true r p pkt.hdr e),
  )

  first : (in_order_client r p pkt.hdr).0 ≡ true → k ≡ n → (slot_of q p).client_info.num_tx ≤ n
  first e eq = ground (
    arith,
    ap (λ z. z.client_info.num_tx) same,
    in_order_client-true r p pkt.hdr e,
    ((all p.sn).sound p.slot lt).limited act,
  )

  stored :
      (in_order_client r p pkt.hdr).0 ≡ true
      → AllSound (store_large_resp env q p pkt) × IsAnswered p n k (store_large_resp env q p pkt)
  stored e =
      store_large_resp-IsSound env wide p lt pkt n k q (ans e) (q-IsSound e) resp.1
        (elim (ℕ_discrete k n) [
          | yes eq ↦ inl (first e eq)
          | no ne ↦ inr (λ f. ne (omega (arith, f, resp.0)))
        ])

  -- A packet in order leaves the request ready to complete, where the code completes it.
  pub take_small-IsReady :
      (in_order_client r p pkt.hdr).0 ≡ true
      → leb pkt.hdr.msg_size env.max_data_per_pkt ≡ true
      → IsReady p (store_small_resp env q p pkt)
  take_small-IsReady e small =
      small-IsReady env wide p lt pkt n k q (ans e) (q-IsSound e) small (resp.2 small)
        (first e (resp.2 small))

  pub take_large-IsReady :
      (in_order_client r p pkt.hdr).0 ≡ true
      → ((slot_of (store_large_resp env q p pkt) p).client_info.num_rx
          == slot_wire_pkts (slot_of (store_large_resp env q p pkt) p))
        ≡ true
      → IsReady p (store_large_resp env q p pkt)
  take_large-IsReady e =
      finish-IsReady env wide p lt pkt n k (store_large_resp env q p pkt) (stored e).1 (stored e).0
        resp.1

  complete_ready : (t : Rpc) → IsReady p t → AllSound (complete env t p)
  complete_ready t h = complete-IsSound env t p lt h.0 h.1 h.2

  -- A response packet at a slot with an active request keeps every client session sound: in order or
  -- not, of one packet or several, the last one included, which frees the slot for a request of the
  -- backlog. The packet's number follows those of the request, and a response in one packet is the
  -- first one.
  pub process_resp_one_st-IsSound : AllSound (process_resp_one_st env r p pkt rx_tsc)
  unfolding process_resp_one_st take_resp finish_large_resp
  process_resp_one_st-IsSound sn = elim (Bool-cases (in_order_client r p pkt.hdr).0) [
    | inl e ↦ elim (Bool-cases (leb pkt.hdr.msg_size env.max_data_per_pkt)) [
      | inl small ↦
          rw (e, small)
            (complete_ready (store_small_resp env q p pkt) (take_small-IsReady e small) sn)
      | inr large ↦
          elim (Bool-cases (
            (slot_of (store_large_resp env q p pkt) p).client_info.num_rx
            == slot_wire_pkts (slot_of (store_large_resp env q p pkt) p))) [
              | inl last ↦
                  rw (e, large, last)
                    (complete_ready (store_large_resp env q p pkt) (take_large-IsReady e last) sn)
              | inr more ↦ rw (e, large, more) ((stored e).0 sn)
            ]
    ]
    | inr e ↦ rw e (same_sessions env r p pkt.hdr rx_tsc lt act all sn)
  ]
