-- ===== src/Core/Poll.antt =====
-- Polling keeps the books of the scheduler: the pending queue pairs and the coroutines' counts.
use rdma_yuxi.Prelude.{
  ℕ, true, false, ◌+◌, ◌-◌, ◌<◌, ◌≡◌, inl, inr, List, [], ◌∷◌, ◌++◌, arith, ap, length,
  length-append, All, sum_below, sum_below_change, update, Option, none, some, Bool-cases, ltb,
}
use rdma_yuxi.Core.Scheduler.{
  Scheduler, Wc, Polled, keep, aborted, completed, add_pending_qp, append_coroutine, poll_qp,
  count_completion, poll_loop, poll_completion,
}

-- Every pending queue pair is counted for one coroutine.
abbrev pub IsBalanced : ℕ → Scheduler → Type 0
IsBalanced n s = length s.pending_qps ≡ sum_below n s.pending_counts

-- All completions carry the number of one of the `n` coroutines.
abbrev pub IsFromCoro : ℕ → (ℕ → List Wc) → Type 0
IsFromCoro n cq = (q : ℕ) → All (λ w. w.wr_id < n) (cq q)

-- A post counts for its coroutine.
pub add_pending_qp-IsBalanced :
    (n : ℕ) (s : Scheduler) (c qp : ℕ)
    → c < n
    → IsBalanced n s
    → IsBalanced n (add_pending_qp s c qp)
unfolding add_pending_qp
add_pending_qp-IsBalanced n s c qp lt v = omega (
  arith,
  length-append s.pending_qps (qp ∷ []),
  v,
  sum_below_change n c s.pending_counts (update s.pending_counts c (s.pending_counts c + 1))
      (λ j ne. ground arith) lt,
  (let e : update s.pending_counts c (s.pending_counts c + 1) c ≡ s.pending_counts c + 1 =
        ground arith in
      e),
)

pub counts-count_completion :
    (s : Scheduler) (c : ℕ)
    → (count_completion s c).pending_counts ≡ update s.pending_counts c (s.pending_counts c - 1)
unfolding count_completion append_coroutine
counts-count_completion s c = ground arith

-- A completion is one fewer for its coroutine.
sum-count_completion :
    (n : ℕ) (s : Scheduler) (c : ℕ)
    → c < n
    → ltb 0 (s.pending_counts c) ≡ true
    → sum_below n (count_completion s c).pending_counts + 1 ≡ sum_below n s.pending_counts
sum-count_completion n s c lt pos = omega (
  arith,
  ap (sum_below n) (counts-count_completion s c),
  sum_below_change n c s.pending_counts (update s.pending_counts c (s.pending_counts c - 1))
      (λ j ne. ground arith) lt,
  (let e : update s.pending_counts c (s.pending_counts c - 1) c + 1 ≡ s.pending_counts c =
        ground arith in
      e),
)

-- What polling takes from a completion queue is of one of the coroutines, as is the rest.
abbrev pub IsTaken : ℕ → Polled → Type 0
IsTaken n keep = Unit
IsTaken n aborted = Unit
IsTaken n (completed c) = c < n

pub taken :
    (n : ℕ) (l : List Wc)
    → All (λ w. w.wr_id < n) l
    → IsTaken n (poll_qp l).0 × All (λ w. w.wr_id < n) (poll_qp l).1
unfolding poll_qp
taken n [] h = (tt, tt)
taken n (w ∷ l) (lt, h) = ground (arith, taken n l h, h)

-- A poll that does not abort leaves the books balanced.
abbrev pub IsKept : ℕ → Option (Scheduler × (ℕ → List Wc)) → Type 0
IsKept n none = Unit
IsKept n (some (t, left)) = IsBalanced n t × IsFromCoro n left

-- One queue pair polled with the outcome `o`, if the rest of the loop keeps the books.
after_poll :
    (n q : ℕ) (qs kept : List ℕ) (s : Scheduler) (rest : ℕ → List Wc) (o : Polled)
    → IsTaken n o
    → length kept + length (q ∷ qs) ≡ sum_below n s.pending_counts
    → ((k : List ℕ) (t : Scheduler)
        → length k + length qs ≡ sum_below n t.pending_counts
        → IsKept n (poll_loop qs k t rest))
    → IsKept n (elim o [
      | keep ↦ poll_loop qs (kept ++ (q ∷ [])) s rest
      | aborted ↦ none
      | completed c ↦ elim (ltb 0 (s.pending_counts c)) [
        | true ↦ poll_loop qs kept (count_completion s c) rest
        | false ↦ none
      ]
    ])
after_poll n q qs kept s rest keep h bal rec =
    rec (kept ++ (q ∷ [])) s (omega (arith, length-append kept (q ∷ []), bal))
after_poll n q qs kept s rest aborted h bal rec = tt
after_poll n q qs kept s rest (completed c) h bal rec =
    elim (Bool-cases (ltb 0 (s.pending_counts c))) [
      | inl e ↦
          rw e
            (rec kept (count_completion s c) (omega (arith, sum-count_completion n s c h e, bal)))
      | inr e ↦ rw e tt
    ]

-- The loop keeps the books, of the queue pairs kept and those still to poll.
poll_loop-IsBalanced :
    (n : ℕ) (qs kept : List ℕ) (s : Scheduler) (cq : ℕ → List Wc)
    → IsFromCoro n cq
    → length kept + length qs ≡ sum_below n s.pending_counts
    → IsKept n (poll_loop qs kept s cq)
unfolding poll_loop
poll_loop-IsBalanced n [] kept s cq from bal = (omega (arith, bal), from)
poll_loop-IsBalanced n (q ∷ qs) kept s cq from bal =
    after_poll n q qs kept s rest (poll_qp (cq q)).0 (taken n (cq q) (from q)).0 bal (λ k t.
      poll_loop-IsBalanced n qs k t rest (λ j. ground (arith, from j, (taken n (cq q) (from q)).1)))
  where
    rest : ℕ → List Wc
    rest = update cq q (poll_qp (cq q)).1

-- A poll takes each queue pair off the list that it counts down for, and no other: the pending queue
-- pairs still are as many as the coroutines wait for, unless the program aborts.
pub poll_completion-IsBalanced :
    (n : ℕ) (s : Scheduler) (cq : ℕ → List Wc)
    → IsFromCoro n cq
    → IsBalanced n s
    → IsKept n (poll_completion s cq)
unfolding poll_completion
poll_completion-IsBalanced n s cq from bal =
    poll_loop-IsBalanced n s.pending_qps [] s cq from (omega (arith, bal))
