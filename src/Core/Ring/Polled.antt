-- ===== src/Core/Ring/Polled.antt =====
-- `PollCompletion` puts coroutines back into the ring, behind the others.
use rdma_yuxi.Prelude.{
  refl, ℕ, true, false, ltb, List, [], ◌∷◌, ◌++◌, append-nil, append_assoc, arith, update, inl, inr,
  Bool-cases, Option, none, some, subst,
}
use rdma_yuxi.Core.Scheduler.{
  Scheduler, Wc, Polled, keep, aborted, completed, poll_qp, count_completion, poll_loop,
  poll_completion,
}
use rdma_yuxi.Core.Poll.{IsFromCoro, IsTaken, taken}
use rdma_yuxi.Core.Ring.{IsScheduled}
use rdma_yuxi.Core.Ring.Awaited.{same-IsRing, count_completion-IsScheduled}

-- A poll that does not abort leaves the ring `r` with the coroutines `w` behind it.
abbrev pub IsExtended : ℕ → List ℕ → Option (Scheduler × (ℕ → List Wc)) → Type 0
IsExtended n r none = Unit
IsExtended n r (some (t, left)) = (w : List ℕ) × IsScheduled n t (r ++ w)

IsExtended-append :
    (n : ℕ) (r w : List ℕ) (o : Option (Scheduler × (ℕ → List Wc)))
    → IsExtended n (r ++ w) o
    → IsExtended n r o
IsExtended-append n r w none h = tt
IsExtended-append n r w (some (t, left)) (u, v) =
    (w ++ u, subst (IsScheduled n t) (append_assoc r w u) v)

polled-IsExtended :
    (n q : ℕ) (qs kept r : List ℕ) (s : Scheduler) (rest : ℕ → List Wc) (o : Polled)
    → IsTaken n o
    → IsScheduled n s r
    → ((k l : List ℕ) (t : Scheduler) → IsScheduled n t l → IsExtended n l (poll_loop qs k t rest))
    → IsExtended n r (elim o [
      | keep ↦ poll_loop qs (kept ++ (q ∷ [])) s rest
      | aborted ↦ none
      | completed c ↦ elim (ltb 0 (s.pending_counts c)) [
        | true ↦ poll_loop qs kept (count_completion s c) rest
        | false ↦ none
      ]
    ])
polled-IsExtended n q qs kept r s rest keep h v rec = rec (kept ++ (q ∷ [])) r s v
polled-IsExtended n q qs kept r s rest aborted h v rec = tt
polled-IsExtended n q qs kept r s rest (completed c) h v rec =
    elim (Bool-cases (ltb 0 (s.pending_counts c))) [
      | inl e ↦
          let woken : (w : List ℕ) × IsScheduled n (count_completion s c) (r ++ w) =
            count_completion-IsScheduled n s r c v h (ground arith) in
          rw e (
            IsExtended-append n r woken.0 (poll_loop qs kept (count_completion s c) rest)
              (rec kept (r ++ woken.0) (count_completion s c) woken.1))
      | inr e ↦ rw e tt
    ]

poll_loop-IsExtended :
    (n : ℕ) (qs kept r : List ℕ) (s : Scheduler) (cq : ℕ → List Wc)
    → IsFromCoro n cq
    → IsScheduled n s r
    → IsExtended n r (poll_loop qs kept s cq)
unfolding poll_loop
poll_loop-IsExtended n [] kept r s cq from v = (
  [],
  rw append-nil (record {
    ring = same-IsRing n s (record s { pending_qps = kept }) r refl refl refl v.ring;
    awaited = record {
      outside = v.awaited.outside;
      pending = v.awaited.pending;
      woken = v.awaited.woken;
    };
  }),
)
poll_loop-IsExtended n (q ∷ qs) kept r s cq from v =
    polled-IsExtended n q qs kept r s rest (poll_qp (cq q)).0 (taken n (cq q) (from q)).0 v
      (λ k l t.
        poll_loop-IsExtended n qs k l t rest
          (λ j. ground (arith, from j, (taken n (cq q) (from q)).1)))
  where
    rest : ℕ → List Wc
    rest = update cq q (poll_qp (cq q)).1

-- A poll keeps the ring in order, and puts coroutines behind it.
pub poll_completion-IsExtended :
    (n : ℕ) (s : Scheduler) (r : List ℕ) (cq : ℕ → List Wc)
    → IsFromCoro n cq
    → IsScheduled n s r
    → IsExtended n r (poll_completion s cq)
unfolding poll_completion
poll_completion-IsExtended n s r cq from v = poll_loop-IsExtended n s.pending_qps [] r s cq from v
