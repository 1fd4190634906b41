-- ===== src/Rpc/Credits/Kicks.antt =====
-- Sending keeps the invariant of client sessions.
use rdma_yuxi.Prelude.{
  ℕ, ◌+◌, ◌≤◌, ◌<◌, ◌≡◌, ◌≢◌, ◌⊎◌, inl, inr, false, ltb, ◌==◌, if◌then◌else◌, ◌&&◌, arith, ap,
  subst, sym, ◌∙◌, IsDistinct, All, mem, Bool-cases,
}
use mathlib.Core.Path.{ap₂}
use rdma_yuxi.Wire.Header.{session_req_window}
use rdma_yuxi.Wire.Sizes.{wire_pkts}
use rdma_yuxi.Rpc.State.{SSlot, Ref, Rpc, Env, slot_of, session_of, tx_buf}
use rdma_yuxi.Rpc.Kick.{kick_req_st, kick_rfr_st, kick_st, req_pkts_pending}
use rdma_yuxi.Rpc.Kick.Sends.{
  Sends, still, still_session, req_quota, rfr_quota, kick_req_st-Sends, kick_rfr_st-Sends,
}
use rdma_yuxi.Rpc.Credits.{
  outstanding, in_flight, is_null, tx_limit, SlotIsSound, IsSound, HasResp, in_flight_change,
}

-- A slot that sent `m` packets within its limit is still sound.
raise :
    (i m : ℕ) (x y : SSlot)
    → still y ≡ still x
    → y.client_info.num_tx ≡ x.client_info.num_tx + m
    → (m ≡ 0) ⊎ ((is_null x.tx_msgbuf ≡ false) × (x.client_info.num_tx + m ≤ tx_limit x))
    → SlotIsSound i x
    → SlotIsSound i y
raise i m x y same sent ok v = ground (
  arith,
  ap (λ z. z.client_info.num_rx) same,
  ap tx_limit same,
  ap (λ z. z.client_info.resp_msgbuf.num_pkts) same,
  ap (λ z. is_null z.tx_msgbuf) same,
  ap (λ z. z.cur_req_num) same,
)

module _ (r q : Rpc) (p : Ref) (n : ℕ) (sent : Sends r q p n) where
  -- What the slot `i` of session `sn` sent.
  abbrev share : ℕ → ℕ → ℕ
  share sn i = if p.sn == sn && p.slot == i then n else 0

  sent_num :
      (sn i : ℕ)
      → ((q.sessions sn).slots i).client_info.num_tx
        ≡ ((r.sessions sn).slots i).client_info.num_tx + share sn i
  sent_num sn i = ground (arith, (sent sn i).3)

  same_slot : (sn i : ℕ) → still ((q.sessions sn).slots i) ≡ still ((r.sessions sn).slots i)
  same_slot sn i = (sent sn i).1

  outstanding_raise :
      (sn i : ℕ)
      → ((r.sessions sn).slots i).client_info.num_rx ≤ ((r.sessions sn).slots i).client_info.num_tx
      → outstanding ((q.sessions sn).slots i) ≡ outstanding ((r.sessions sn).slots i) + share sn i
  outstanding_raise sn i le =
      omega (arith, sent_num sn i, ap (λ z. z.client_info.num_rx) (same_slot sn i))

  same_session : (sn : ℕ) → still_session (q.sessions sn) ≡ still_session (r.sessions sn)
  same_session sn = (sent sn 0).0

  in_flight_raise :
      (sn : ℕ)
      → p.slot < session_req_window
      → IsSound (r.sessions sn)
      → in_flight (q.sessions sn) ≡ in_flight (r.sessions sn) + share sn p.slot
  in_flight_raise sn lt v = omega (
    arith,
    in_flight_change (r.sessions sn) (q.sessions sn) p.slot others lt,
    outstanding_raise sn p.slot (v.sound p.slot lt).ordered,
  )
    where
      others :
          (j : ℕ)
          → j ≢ p.slot
          → outstanding ((q.sessions sn).slots j) ≡ outstanding ((r.sessions sn).slots j)
      others j ne = ground (arith, sent_num sn j, ap (λ z. z.client_info.num_rx) (same_slot sn j))

  -- A send within the credits and the slot's limit keeps every session sound.
  pub Sends-IsSound :
      p.slot < session_req_window
      → n ≤ (session_of r p).credits
      → (n ≡ 0)
        ⊎ ((is_null (slot_of r p).tx_msgbuf ≡ false)
            × ((slot_of r p).client_info.num_tx + n ≤ tx_limit (slot_of r p)))
      → (sn : ℕ) → IsSound (r.sessions sn)
      → IsSound (q.sessions sn)
  Sends-IsSound lt le ok sn v = record {
    conserved = ground (arith, in_flight_raise sn lt v, (sent sn 0).2, v.conserved);
    sound =
        λ i h. raise i (share sn i) _ _ (same_slot sn i) (sent_num sn i) (within i) (v.sound i h);
    free_iff = λ i h.
        ap (λ z. mem i z.sslot_free_vec) (same_session sn)
        ∙ v.free_iff i h
        ∙ sym (ap (λ z. is_null z.tx_msgbuf) (same_slot sn i));
    free_lt = λ i h. v.free_lt i (sym (ap (λ z. mem i z.sslot_free_vec) (same_session sn)) ∙ h);
    backlog_sized =
        subst (λ z. All HasResp z.enq_req_backlog) (sym (same_session sn)) v.backlog_sized;
    distinct = subst (λ z. IsDistinct z.sslot_free_vec) (sym (same_session sn)) v.distinct;
  }
    where
      at_p : (i : ℕ) → p.sn ≡ sn → p.slot ≡ i → (r.sessions sn).slots i ≡ slot_of r p
      at_p i e f = sym (ap₂ (λ a b. (r.sessions a).slots b) e f)

      within :
          (i : ℕ)
          → (share sn i ≡ 0)
            ⊎ ((is_null ((r.sessions sn).slots i).tx_msgbuf ≡ false)
                × (((r.sessions sn).slots i).client_info.num_tx + share sn i
                    ≤ tx_limit ((r.sessions sn).slots i)))
      within i = elim (Bool-cases (p.sn == sn && p.slot == i)) [
        | inl e ↦
            let x = at_p i (ground arith) (ground arith) in
            elim ok [
              | inl z ↦ inl (rw e z)
              | inr a ↦ inr (ap (λ z. is_null z.tx_msgbuf) x ∙ a.0, rw (e, x) a.1)
            ]
        | inr e ↦ inl (rw e)
      ]

-- `kick_req_st` keeps every client session sound, at any slot with an active request.
pub kick_req_st-IsSound :
    (env : Env) (r : Rpc) (p : Ref)
    → p.slot < session_req_window
    → is_null (slot_of r p).tx_msgbuf ≡ false
    → IsSound (session_of r p)
    → (sn : ℕ) → IsSound (r.sessions sn)
    → IsSound ((kick_req_st env r p).sessions sn)
kick_req_st-IsSound env r p lt act u =
    Sends-IsSound r (kick_req_st env r p) p (req_quota r p) (kick_req_st-Sends env r p) lt
      (omega arith) (inr (act, ground (arith, u.sound p.slot lt)))

-- `kick_rfr_st` does, once the last packet of the request is answered.
pub kick_rfr_st-IsSound :
    (env : Env) (r : Rpc) (p : Ref)
    → p.slot < session_req_window
    → is_null (slot_of r p).tx_msgbuf ≡ false
    → (tx_buf (slot_of r p)).num_pkts ≤ (slot_of r p).client_info.num_rx
    → IsSound (session_of r p)
    → (sn : ℕ) → IsSound (r.sessions sn)
    → IsSound ((kick_rfr_st env r p).sessions sn)
unfolding wire_pkts
kick_rfr_st-IsSound env r p lt act answered u =
    Sends-IsSound r (kick_rfr_st env r p) p (rfr_quota r p) (kick_rfr_st-Sends env r p) lt
      (omega arith) (inr (act, ground (arith, u.sound p.slot lt)))

pub kick_st-IsSound :
    (env : Env) (r : Rpc) (p : Ref)
    → p.slot < session_req_window
    → is_null (slot_of r p).tx_msgbuf ≡ false
    → (slot_of r p).client_info.num_tx ≡ (slot_of r p).client_info.num_rx
    → IsSound (session_of r p)
    → (sn : ℕ) → IsSound (r.sessions sn)
    → IsSound ((kick_st env r p).sessions sn)
unfolding kick_st req_pkts_pending
kick_st-IsSound env r p lt act even u sn v =
    elim (Bool-cases (ltb (slot_of r p).client_info.num_tx (tx_buf (slot_of r p)).num_pkts)) [
      | inl e ↦ rw e (kick_req_st-IsSound env r p lt act u sn v)
      | inr e ↦ rw e (kick_rfr_st-IsSound env r p lt act (ground arith) u sn v)
    ]
