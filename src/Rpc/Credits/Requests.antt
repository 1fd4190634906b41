-- ===== src/Rpc/Credits/Requests.antt =====
-- A new request keeps the invariant of its session, with a free slot or without.
use rdma_yuxi.Prelude.{
  ℕ, ◌<◌, ◌≡◌, refl, ap, sym, subst, ◌∙◌, arith, inl, inr, true, false, ltb, List, [], ◌∷◌, ◌++◌,
  All, mem, IsDistinct, Bool-cases,
}
use native.Mathlib.Decide.{ℕ_discrete}
use rdma_yuxi.Wire.Header.{session_req_window}
use rdma_yuxi.Rpc.State.{SSlot, Session, Ref, EnqReqArgs, Rpc, Env, slot_of, set_session, with_slot}
use rdma_yuxi.Rpc.Client.{start_slot, start_request, enqueue_request_st}
use rdma_yuxi.Rpc.Loss.{bg_request_loop, process_bg_queues_enqueue_request_st}
use rdma_yuxi.Rpc.Credits.{
  outstanding, in_flight_cong, is_null, HasResp, SlotIsSound, IsSound, AllSound,
}
use rdma_yuxi.Rpc.Credits.Kicks.{kick_req_st-IsSound}
use rdma_yuxi.Rpc.Credits.Change.{FreeIsSound, change-IsSound, set_session-IsSound}

pub All-append :
    (l : List EnqReqArgs) (a : EnqReqArgs) → All HasResp l → HasResp a → All HasResp (l ++ (a ∷ []))
All-append [] a h k = (k, tt)
All-append (b ∷ l) a h k = (h.0, All-append l a h.1 k)

module _ (r : Rpc) (args : EnqReqArgs) (i : ℕ) (rest : List ℕ)
    (free : (r.sessions args.session_num).sslot_free_vec ≡ i ∷ rest) (sized : HasResp args) where
  abbrev old : Session
  old = r.sessions args.session_num

  abbrev pub new_slot : SSlot
  new_slot = start_slot r old (old.slots i) args

  abbrev pub started : Session
  started = record (with_slot old i new_slot) { sslot_free_vec = rest }

  pub free_lt : IsSound old → i < session_req_window
  free_lt v = v.free_lt i (ap (mem i) free ∙ (let e : mem i (i ∷ rest) ≡ true = ground arith in e))

  pub null_before : IsSound old → is_null (old.slots i).tx_msgbuf ≡ true
  null_before v =
      sym (v.free_iff i (free_lt v))
      ∙ ap (mem i) free
      ∙ (let e : mem i (i ∷ rest) ≡ true = ground arith in e)

  new_slot-IsSound : SlotIsSound i (old.slots i) → SlotIsSound i new_slot
  unfolding start_slot
  new_slot-IsSound v = record {
    ordered = omega arith;
    limited = λ e. omega arith;
    sized = λ e. omega arith;
    idle = λ e. refl;
    numbered = omega (arith, v.numbered);
  }

  pub new_slot-active : is_null new_slot.tx_msgbuf ≡ false
  unfolding start_slot
  new_slot-active = refl

  outstanding_new : outstanding new_slot ≡ 0
  unfolding start_slot
  outstanding_new = refl

  started-FreeIsSound : IsSound old → FreeIsSound started
  started-FreeIsSound v = record {
    free_iff = λ j lt. elim (ℕ_discrete j i) [
      | yes e ↦
          ground
            (arith, (subst IsDistinct free v.distinct).0, ap (λ k. mem k rest) e, new_slot-active)
      | no ne ↦ ground (arith, v.free_iff j lt, ap (mem j) free)
    ];
    free_lt = λ j e.
        v.free_lt j (ap (mem j) free ∙ (let f : mem j (i ∷ rest) ≡ true = ground (arith, e) in f));
    distinct = (subst IsDistinct free v.distinct).1;
    backlog_sized = v.backlog_sized;
  }

  started-IsSound : IsSound old → IsSound started
  started-IsSound v =
      change-IsSound old started i (free_lt v) new_slot (λ j. refl)
        (new_slot-IsSound (v.sound i (free_lt v)))
        (omega (arith, outstanding_new, (v.sound i (free_lt v)).idle (null_before v)))
        (started-FreeIsSound v) v

  -- The request is started in the free slot; with credits its first packets are sent.
  start_request-IsSound : (env : Env) → AllSound r → AllSound (start_request env r args i rest)
  unfolding start_request
  start_request-IsSound env all sn = elim (Bool-cases (ltb 0 old.credits)) [
    | inl e ↦ rw e (
        kick_req_st-IsSound env q p (free_lt (all args.session_num)) active
          (q-IsSound args.session_num) sn (q-IsSound sn))
    | inr e ↦ rw e (q-IsSound sn)
  ]
    where
      p : Ref
      p = record { sn = args.session_num; slot = i }

      q : Rpc
      q = record (set_session r args.session_num started) { active = r.active ++ (p ∷ []) }

      q-IsSound : AllSound q
      q-IsSound k = set_session-IsSound r args.session_num started started-IsSound k (all k)

      active : is_null (slot_of q p).tx_msgbuf ≡ false
      active = ground (arith, new_slot-active)

-- A request keeps all client sessions sound: it takes a free slot, or waits in the backlog.
pub enqueue_request_st-IsSound :
    (env : Env) (r : Rpc) (args : EnqReqArgs)
    → HasResp args
    → AllSound r
    → AllSound (enqueue_request_st env r args)
unfolding enqueue_request_st
enqueue_request_st-IsSound env r args sized all = by_free s.sslot_free_vec refl
  where
    s : Session
    s = r.sessions args.session_num

    waiting : Session
    waiting = record s { enq_req_backlog = s.enq_req_backlog ++ (args ∷ []) }

    waits : IsSound s → IsSound waiting
    waits v = record {
      conserved = omega (arith, in_flight_cong s waiting (λ j. refl), v.conserved);
      sound = v.sound;
      free_iff = v.free_iff;
      free_lt = v.free_lt;
      distinct = v.distinct;
      backlog_sized = All-append s.enq_req_backlog args v.backlog_sized sized;
    }

    by_free :
        (l : List ℕ)
        → s.sslot_free_vec ≡ l
        → (sn : ℕ)
        → IsSound (
            (elim l as (λ _. Rpc) [
              | [] ↦ set_session r args.session_num waiting
              | i ∷ rest ↦ start_request env r args i rest
            ]).sessions
              sn)
    by_free [] e sn = set_session-IsSound r args.session_num waiting waits sn (all sn)
    by_free (i ∷ rest) e sn = start_request-IsSound r args i rest e sized env all sn

bg_request_loop-IsSound :
    (env : Env) (l : List EnqReqArgs) (r : Rpc)
    → All HasResp l
    → AllSound r
    → AllSound (bg_request_loop env l r)
unfolding bg_request_loop
bg_request_loop-IsSound env [] r h all = all
bg_request_loop-IsSound env (a ∷ l) r (sized, h) all =
    bg_request_loop-IsSound env l (enqueue_request_st env r a) h
      (enqueue_request_st-IsSound env r a sized all)

-- The requests that background threads queued keep all client sessions sound.
pub process_bg_queues_enqueue_request_st-IsSound :
    (env : Env) (r : Rpc)
    → All HasResp r.bg_enqueue_request
    → AllSound r
    → AllSound (process_bg_queues_enqueue_request_st env r)
unfolding process_bg_queues_enqueue_request_st
process_bg_queues_enqueue_request_st-IsSound env r h all =
    bg_request_loop-IsSound env r.bg_enqueue_request (record r { bg_enqueue_request = [] }) h all
