-- ===== src/Rpc/Listed/Requests.antt =====
-- A new request joins the active list, and the stall queue where it has no credits.
use rdma_yuxi.Prelude.{
  ℕ, ◌+◌, ◌≤◌, ◌<◌, ◌≡◌, refl, ap, sym, ◌∙◌, subst, arith, inl, inr, true, false, not, ◌&&◌, ltb,
  if◌then◌else◌, List, [], ◌∷◌, ◌++◌, Bool-cases,
}
use rdma_yuxi.Wire.Header.{session_req_window}
use rdma_yuxi.Rpc.State.{Session, Ref, EnqReqArgs, Rpc, Env, slot_of, set_session, with_slot}
use rdma_yuxi.Rpc.Kick.{kick_req_st}
use rdma_yuxi.Rpc.Kick.Lists.{lists-kick_req}
use rdma_yuxi.Rpc.Kick.Sends.{req_quota, kick_req_st-Sends}
use rdma_yuxi.Rpc.Client.{ref_eq, start_slot, start_request, enqueue_request_st}
use rdma_yuxi.Rpc.Credits.{is_null, HasResp, AllSound}
use rdma_yuxi.Rpc.Credits.Requests.{null_before, free_lt, new_slot-active}
use rdma_yuxi.Rpc.Listed.{
  count_ref, in_use, may_stall, IsListed, ref_is, still-IsListed, Sends-IsListed,
}

count_ref-snoc :
    (a p : Ref) (l : List Ref)
    → count_ref a (l ++ (p ∷ [])) ≡ count_ref a l + (if ref_eq p a then 1 else 0)
count_ref-snoc a p [] = omega arith
count_ref-snoc a p (q ∷ l) = omega (arith, count_ref-snoc a p l)

module _ (r : Rpc) (args : EnqReqArgs) (i : ℕ) (rest : List ℕ)
    (free : (r.sessions args.session_num).sslot_free_vec ≡ i ∷ rest) (sized : HasResp args)
    (all : AllSound r) (v : IsListed r r.stallq) where
  abbrev p : Ref
  p = record { sn = args.session_num; slot = i }

  abbrev old : Session
  old = r.sessions args.session_num

  abbrev q : Rpc
  q =
      record (set_session r args.session_num
        (record (with_slot old i (start_slot r old (old.slots i) args)) {
          sslot_free_vec = rest;
        })) { active = r.active ++ (p ∷ []) }

  below : i < session_req_window
  below = free_lt r args i rest free sized (all args.session_num)

  unused : is_null (old.slots i).tx_msgbuf ≡ true
  unused = null_before r args i rest free sized (all args.session_num)

  not_active : count_ref p r.active ≡ 0
  not_active = ground (arith, v.once p, unused)

  not_stalled : count_ref p r.stallq ≡ 0
  not_stalled = ground (arith, v.stalled p, unused)

  used : in_use q p ≡ true
  used = ground (arith, below, new_slot-active r args i rest free sized)

  fresh : (slot_of q p).client_info.num_tx ≡ 0
  unfolding start_slot
  fresh = ground arith

  other : (a : Ref) → ref_eq p a ≡ false → slot_of q a ≡ slot_of r a
  other a ne = ground (arith, ne)

  other_use : (a : Ref) → ref_eq p a ≡ false → in_use q a ≡ in_use r a
  other_use a ne = ap (λ x. ltb a.slot session_req_window && not (is_null x.tx_msgbuf)) (other a ne)

  self : ref_eq p p ≡ true
  self = ground arith

  started-IsListed : IsListed q r.stallq
  started-IsListed = record {
    once = λ a. elim (Bool-cases (ref_eq p a)) [
      | inl e ↦
          subst (λ z. count_ref z q.active ≡ (if in_use q z then 1 else 0)) (ref_is p a e)
            (count_ref-snoc p p r.active ∙ ground (arith, not_active, used, self))
      | inr e ↦ count_ref-snoc a p r.active ∙ ground (arith, e, v.once a, other_use a e)
    ];
    stalled = λ a. elim (Bool-cases (ref_eq p a)) [
      | inl e ↦ omega (arith, not_stalled, ap (λ z. count_ref z r.stallq) (ref_is p a e))
      | inr e ↦
          ground (arith, v.stalled a, other_use a e, ap (λ x. x.client_info.num_tx) (other a e))
    ];
  }

  -- Without credits it is stalled.
  stalled-IsListed : IsListed (record q { stallq = r.stallq ++ (p ∷ []) }) (r.stallq ++ (p ∷ []))
  stalled-IsListed = record {
    once = started-IsListed.once;
    stalled = λ a. elim (Bool-cases (ref_eq p a)) [
      | inl e ↦
          subst (λ z. count_ref z (r.stallq ++ (p ∷ [])) ≤ may_stall q z) (ref_is p a e)
            (ground (arith, count_ref-snoc p p r.stallq, not_stalled, used, fresh, self))
      | inr e ↦ ground (arith, count_ref-snoc a p r.stallq, e, started-IsListed.stalled a)
    ];
  }

  kicked-IsListed : (env : Env) → IsListed (kick_req_st env q p) (kick_req_st env q p).stallq
  kicked-IsListed env =
      subst (IsListed (kick_req_st env q p)) (sym (ap (λ l. l.1) (lists-kick_req env q p))) (
        Sends-IsListed q (kick_req_st env q p) p (req_quota q p) r.stallq
          (ap (λ l. l.0) (lists-kick_req env q p)) (kick_req_st-Sends env q p) not_stalled
          started-IsListed)

  start_request-IsListed :
      (env : Env)
      → IsListed (start_request env r args i rest) (start_request env r args i rest).stallq
  unfolding start_request
  start_request-IsListed env = elim (Bool-cases (ltb 0 old.credits)) [
    | inl e ↦ rw e (kicked-IsListed env)
    | inr e ↦ rw e stalled-IsListed
  ]

-- A request keeps the lists.
pub enqueue_request_st-IsListed :
    (env : Env) (r : Rpc) (args : EnqReqArgs)
    → HasResp args
    → AllSound r
    → IsListed r r.stallq
    → IsListed (enqueue_request_st env r args) (enqueue_request_st env r args).stallq
unfolding enqueue_request_st
enqueue_request_st-IsListed env r args sized all v = by_free s.sslot_free_vec refl
  where
    s : Session
    s = r.sessions args.session_num

    waiting : Rpc
    waiting =
        set_session r args.session_num
          (record s { enq_req_backlog = s.enq_req_backlog ++ (args ∷ []) })

    by_free :
        (l : List ℕ)
        → s.sslot_free_vec ≡ l
        → IsListed
            (elim l as (λ _. Rpc) [ [] ↦ waiting | i ∷ rest ↦ start_request env r args i rest ])
            (elim l as (λ _. Rpc) [
              | [] ↦ waiting
              | i ∷ rest ↦ start_request env r args i rest
            ]).stallq
    by_free [] e = still-IsListed r waiting r.stallq refl (λ a. ground arith) (λ a. ground arith) v
    by_free (i ∷ rest) e = start_request-IsListed r args i rest e sized all v env
