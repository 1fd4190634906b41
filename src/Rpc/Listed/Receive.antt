-- ===== src/Rpc/Listed/Receive.antt =====
-- Packets at the client, for any slot: what is not for an active request is dropped.
use rdma_yuxi.Prelude.{
  ℕ, ◌<◌, ◌≡◌, refl, ap, sym, ◌∙◌, subst, arith, inl, inr, true, false, [], Bool-cases, All,
}
use rdma_yuxi.Wire.Header.{PktHdr, session_req_window}
use rdma_yuxi.Rpc.State.{Ref, Rpc, Env, slot_of}
use rdma_yuxi.Rpc.Tx.Lists.{lists}
use rdma_yuxi.Rpc.Kick.{kick_req_st, req_pkts_pending}
use rdma_yuxi.Rpc.Kick.Lists.{lists-kick_req}
use rdma_yuxi.Rpc.Kick.Sends.{Sends, req_quota, kick_req_st-Sends}
use rdma_yuxi.Rpc.Client.{in_order_client, count_rx, take_cr, process_expl_cr_st}
use rdma_yuxi.Rpc.Credits.{is_null, HasResp, AllSound}
use rdma_yuxi.Rpc.Credits.Receive.{
  in_order_client-true, sessions-in_order_client, process_expl_cr_st-IsSound,
}
use rdma_yuxi.Rpc.Listed.{count_ref, IsListed, still-IsListed, Sends-IsListed, sent-not_stalled}
use rdma_yuxi.Rpc.Listed.Finish.{queues}

-- A client: its sessions are sound, its lists have what they should, requests that wait for the
-- dispatch thread come with response buffers, and no responses do.
pub record IsClient (r : Rpc) : Type 0 where
  pub sound : AllSound r
  pub listed : IsListed r r.stallq
  pub queued : All HasResp r.bg_enqueue_request
  pub no_responses : r.bg_enqueue_response ≡ []

-- What has the same queues is a client if its sessions and lists are right.
pub same-IsClient :
    (r q : Rpc) → queues q ≡ queues r → AllSound q → IsListed q q.stallq → IsClient r → IsClient q
same-IsClient r q same s l c = record {
  sound = s;
  listed = l;
  queued = subst (All HasResp) (sym (ap (λ z. z.0) same)) c.queued;
  no_responses = ap (λ z. z.1) same ∙ c.no_responses;
}

-- Packets sent for a slot that is not stalled.
pub kicked-IsListed :
    (r q : Rpc) (p : Ref) (n : ℕ)
    → lists q ≡ lists r
    → Sends r q p n
    → count_ref p r.stallq ≡ 0
    → IsListed r r.stallq
    → IsListed q q.stallq
kicked-IsListed r q p n same sent none_ v =
    subst (IsListed q) (sym (ap (λ l. l.1) same))
      (Sends-IsListed r q p n r.stallq (ap (λ l. l.0) same) sent none_ v)

-- A packet in order is for an active request.
pub in_order-active :
    (r : Rpc) (p : Ref) (h : PktHdr)
    → p.slot < session_req_window
    → AllSound r
    → (in_order_client r p h).0 ≡ true
    → is_null (slot_of r p).tx_msgbuf ≡ false
in_order-active r p h lt all e = elim (Bool-cases (is_null (slot_of r p).tx_msgbuf)) [
  | inl null_ ↦
      ground (arith, in_order_client-true r p h e, ((all p.sn).sound p.slot lt).idle null_)
  | inr some_ ↦ some_
]

module _ (env : Env) (r : Rpc) (p : Ref) (lt : p.slot < session_req_window) (c : IsClient r) where
  pub lists-checked : (h : PktHdr) → lists (in_order_client r p h).1 ≡ lists r
  unfolding in_order_client
  lists-checked h = ground arith

  -- A packet out of order changes no list and no session.
  pub checked-IsClient : (h : PktHdr) → IsClient (in_order_client r p h).1
  checked-IsClient h =
      same-IsClient r (in_order_client r p h).1 (ap (λ l. (l.2, l.3)) (lists-checked h))
        (λ sn. rw (sessions-in_order_client r p h) (c.sound sn))
        (subst (IsListed (in_order_client r p h).1) (sym (ap (λ l. l.1) (lists-checked h))) (
          still-IsListed r (in_order_client r p h).1 r.stallq (ap (λ l. l.0) (lists-checked h))
            (λ a.
              ap (λ f. is_null ((f a.sn).slots a.slot).tx_msgbuf) (sessions-in_order_client r p h))
            (λ a.
              ap (λ f. ((f a.sn).slots a.slot).client_info.num_tx) (sessions-in_order_client r p h))
            c.listed))
        c

  pub counted-IsListed :
      (h : PktHdr) (rx_tsc : ℕ)
      → IsListed
          (count_rx (in_order_client r p h).1 p h rx_tsc)
          (count_rx (in_order_client r p h).1 p h rx_tsc).stallq
  unfolding count_rx
  counted-IsListed h rx_tsc =
      still-IsListed (in_order_client r p h).1 (count_rx (in_order_client r p h).1 p h rx_tsc)
        (in_order_client r p h).1.stallq refl (λ a. ground arith) (λ a. ground arith)
        (checked-IsClient h).listed

  pub sent-counted :
      (h : PktHdr) (rx_tsc : ℕ)
      → (in_order_client r p h).0 ≡ true
      → 0 < (slot_of (count_rx (in_order_client r p h).1 p h rx_tsc) p).client_info.num_tx
  unfolding count_rx
  sent-counted h rx_tsc e = ground (
    arith,
    in_order_client-true r p h e,
    ap (λ f. ((f p.sn).slots p.slot).client_info.num_tx) (sessions-in_order_client r p h),
  )

  pub not_stalled :
      (h : PktHdr) (rx_tsc : ℕ)
      → (in_order_client r p h).0 ≡ true
      → count_ref p (count_rx (in_order_client r p h).1 p h rx_tsc).stallq ≡ 0
  not_stalled h rx_tsc e =
      sent-not_stalled (count_rx (in_order_client r p h).1 p h rx_tsc) p _ (sent-counted h rx_tsc e)
        (counted-IsListed h rx_tsc)

  pub queues-counted :
      (h : PktHdr) (rx_tsc : ℕ) → queues (count_rx (in_order_client r p h).1 p h rx_tsc) ≡ queues r
  unfolding count_rx
  queues-counted h rx_tsc = ap (λ l. (l.2, l.3)) (lists-checked h)

  take_cr-IsListed :
      (q : Rpc)
      → count_ref p q.stallq ≡ 0
      → IsListed q q.stallq
      → IsListed (take_cr env q p) (take_cr env q p).stallq × (queues (take_cr env q p) ≡ queues q)
  unfolding take_cr
  take_cr-IsListed q none_ v = elim (Bool-cases (req_pkts_pending (slot_of q p))) [
    | inl e ↦ rw e (
      kicked-IsListed q (kick_req_st env q p) p (req_quota q p) (lists-kick_req env q p)
          (kick_req_st-Sends env q p) none_ v,
      ap (λ l. (l.2, l.3)) (lists-kick_req env q p),
    )
    | inr e ↦ rw e (v, refl)
  ]

  -- A credit return, for any slot, leaves a client a client.
  pub process_expl_cr_st-IsClient :
      (h : PktHdr) (rx_tsc : ℕ) → IsClient (process_expl_cr_st env r p h rx_tsc)
  unfolding process_expl_cr_st
  process_expl_cr_st-IsClient h rx_tsc = elim (Bool-cases (in_order_client r p h).0) [
    | inl e ↦
        let q = count_rx (in_order_client r p h).1 p h rx_tsc in
        let t = take_cr-IsListed q (not_stalled h rx_tsc e) (counted-IsListed h rx_tsc) in
        let all =
          process_expl_cr_st-IsSound env r p h rx_tsc lt (in_order-active r p h lt c.sound e)
            c.sound in
        same-IsClient r (process_expl_cr_st env r p h rx_tsc) (rw e (t.1 ∙ queues-counted h rx_tsc))
          all (rw e t.0) c
    | inr e ↦ rw e (checked-IsClient h)
  ]
