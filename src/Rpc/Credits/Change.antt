-- ===== src/Rpc/Credits/Change.antt =====
-- The invariant of a client session across a change to one of its slots.
use rdma_yuxi.Prelude.{
  ℕ, ◌+◌, ◌<◌, ◌≡◌, ◌≢◌, inl, inr, true, ◌==◌, arith, ap, subst, sym, ◌∙◌, mem, IsDistinct, All,
  update, Bool-cases,
}
use native.Mathlib.Decide.{ℕ_discrete}
use rdma_yuxi.Wire.Header.{session_req_window}
use rdma_yuxi.Rpc.State.{SSlot, Session, Rpc, set_session}
use rdma_yuxi.Rpc.Credits.{outstanding, is_null, SlotIsSound, IsSound, HasResp, in_flight_change}

-- The free slots and the backlog of a session.
pub record FreeIsSound (s : Session) : Type 0 where
  pub free_iff :
      (i : ℕ) → i < session_req_window → mem i s.sslot_free_vec ≡ is_null (s.slots i).tx_msgbuf
  pub free_lt : (i : ℕ) → mem i s.sslot_free_vec ≡ true → i < session_req_window
  pub distinct : IsDistinct s.sslot_free_vec
  pub backlog_sized : All HasResp s.enq_req_backlog

module _ (s t : Session) (k : ℕ) (lt : k < session_req_window) (x : SSlot)
    (slots : (i : ℕ) → t.slots i ≡ update s.slots k x i) where
  others : (i : ℕ) → i ≢ k → t.slots i ≡ s.slots i
  others i ne = ground (arith, slots i)

  changed : t.slots k ≡ x
  changed = ground (arith, slots k)

  -- One slot gets a new content; credits and outstanding packets change together.
  pub change-IsSound :
      SlotIsSound k x
      → t.credits + outstanding x ≡ s.credits + outstanding (s.slots k)
      → FreeIsSound t
      → IsSound s
      → IsSound t
  change-IsSound vx bal f v = record {
    conserved = omega (
      arith,
      in_flight_change s t k (λ j ne. ap outstanding (others j ne)) lt,
      ap outstanding changed,
      v.conserved,
    );
    sound = λ i h. elim (ℕ_discrete i k) [
      | yes e ↦
          subst (λ j. SlotIsSound j (t.slots j)) (sym e) (subst (SlotIsSound k) (sym changed) vx)
      | no ne ↦ subst (SlotIsSound i) (sym (others i ne)) (v.sound i h)
    ];
    free_iff = f.free_iff;
    free_lt = f.free_lt;
    distinct = f.distinct;
    backlog_sized = f.backlog_sized;
  }

  -- The free slots stay sound where neither they nor the slot's activity change.
  pub same-FreeIsSound :
      t.sslot_free_vec ≡ s.sslot_free_vec
      → t.enq_req_backlog ≡ s.enq_req_backlog
      → is_null x.tx_msgbuf ≡ is_null (s.slots k).tx_msgbuf
      → IsSound s
      → FreeIsSound t
  same-FreeIsSound same backlog act v = record {
    free_iff = λ i h. elim (ℕ_discrete i k) [
      | yes e ↦
          ap (mem i) same
          ∙ v.free_iff i h
          ∙ ap (λ j. is_null (s.slots j).tx_msgbuf) e
          ∙ sym act
          ∙ ap (λ z. is_null z.tx_msgbuf) (sym changed)
          ∙ ap (λ j. is_null (t.slots j).tx_msgbuf) (sym e)
      | no ne ↦ ap (mem i) same ∙ v.free_iff i h ∙ ap (λ z. is_null z.tx_msgbuf) (sym (others i ne))
    ];
    free_lt = λ i h. v.free_lt i (ap (mem i) (sym same) ∙ h);
    distinct = subst IsDistinct (sym same) v.distinct;
    backlog_sized = subst (All HasResp) (sym backlog) v.backlog_sized;
  }

-- A sound session put in place of another leaves all sessions sound.
pub set_session-IsSound :
    (r : Rpc) (k : ℕ) (t : Session)
    → (IsSound (r.sessions k) → IsSound t)
    → (sn : ℕ) → IsSound (r.sessions sn)
    → IsSound ((set_session r k t).sessions sn)
set_session-IsSound r k t h sn v = elim (Bool-cases (k == sn)) [
  | inl e ↦ rw e (h (subst (λ j. IsSound (r.sessions j)) (let d : sn ≡ k = ground arith in d) v))
  | inr e ↦ rw e v
]
