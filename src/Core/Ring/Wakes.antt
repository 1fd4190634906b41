-- ===== src/Core/Ring/Wakes.antt =====
-- What a poll does with the completions that are ready, and which coroutines stop waiting.
use rdma_yuxi.Prelude.{
  append-nil, append_assoc, ◌≤◌, ℕ, suc, ◌+◌, ◌^◌, ◌<◌, ◌≡◌, refl, ap, sym, ◌∙◌, subst, true, false,
  ltb, ◌==◌, if◌then◌else◌, List, [], ◌∷◌, ◌++◌, All, mem, update, arith, Option, none, some,
}
use rdma_yuxi.Core.Scheduler.{
  Scheduler, Wc, Polled, keep, aborted, completed, poll_qp, count_completion, poll_loop,
  poll_completion,
}
use rdma_yuxi.Core.Poll.{IsFromCoro, IsTaken, taken, counts-count_completion}
use rdma_yuxi.Core.Ring.{IsRing}
use rdma_yuxi.Core.Ring.Steps.{SchedSteps}
use rdma_yuxi.Core.Ring.Fair.{first_scheduler, first-IsScheduled}

-- How often a number is in a list.
abbrev pub count : ℕ → List ℕ → ℕ
count a [] = 0
count a (x ∷ l) = (if x == a then 1 else 0) + count a l

-- The queue pairs, polled in order: those of `kept` have nothing ready or are to be tried again, and
-- the others have completions, which are of the coroutines `cs`.
pub data Delivered : List ℕ → (ℕ → List Wc) → List ℕ → List ℕ → Type 0 where
  none_left : (cq : ℕ → List Wc) → Delivered [] cq [] []
  next :
      (q c : ℕ) (qs kept cs : List ℕ) (cq : ℕ → List Wc) (l : List Wc)
      → poll_qp (cq q) ≡ (completed c, l)
      → Delivered qs (update cq q l) kept cs
      → Delivered (q ∷ qs) cq kept (c ∷ cs)
  stays :
      (q : ℕ) (qs kept cs : List ℕ) (cq : ℕ → List Wc) (l : List Wc)
      → poll_qp (cq q) ≡ (keep, l)
      → Delivered qs (update cq q l) kept cs
      → Delivered (q ∷ qs) cq (q ∷ kept) cs

-- A poll went through, with the queue pairs `kept` left, and the completions of `cs` counted off.
abbrev pub IsCounted : ℕ → List ℕ → List ℕ → (ℕ → ℕ) → Option (Scheduler × (ℕ → List Wc)) → Type 0
IsCounted n kept cs counts none = ⊥
IsCounted n kept cs counts (some (t, left)) =
    (t.pending_qps ≡ kept) × ((c : ℕ) → c < n → t.pending_counts c + count c cs ≡ counts c)

-- One round of the loop, by what polling the queue pair came to.
abbrev after :
    ℕ
    → List ℕ
    → List ℕ
    → Scheduler
    → (ℕ → List Wc)
    → Polled × List Wc
    → Option (Scheduler × (ℕ → List Wc))
after q qs kept s cq r = elim r.0 [
  | keep ↦ poll_loop qs (kept ++ (q ∷ [])) s (update cq q r.1)
  | aborted ↦ none
  | completed c ↦ elim (ltb 0 (s.pending_counts c)) [
    | true ↦ poll_loop qs kept (count_completion s c) (update cq q r.1)
    | false ↦ none
  ]
]

poll_loop-completed :
    (q c : ℕ) (qs kept : List ℕ) (s : Scheduler) (cq : ℕ → List Wc) (l : List Wc)
    → poll_qp (cq q) ≡ (completed c, l)
    → ltb 0 (s.pending_counts c) ≡ true
    → poll_loop (q ∷ qs) kept s cq ≡ poll_loop qs kept (count_completion s c) (update cq q l)
unfolding poll_loop
poll_loop-completed q c qs kept s cq l e pos =
    ap (after q qs kept s cq) e
    ∙ ap
        (λ b. elim b [
          | true ↦ poll_loop qs kept (count_completion s c) (update cq q l)
          | false ↦ none
        ])
        pos

poll_loop-keep :
    (q : ℕ) (qs kept : List ℕ) (s : Scheduler) (cq : ℕ → List Wc) (l : List Wc)
    → poll_qp (cq q) ≡ (keep, l)
    → poll_loop (q ∷ qs) kept s cq ≡ poll_loop qs (kept ++ (q ∷ [])) s (update cq q l)
unfolding poll_loop
poll_loop-keep q qs kept s cq l e = ap (after q qs kept s cq) e

-- What polling a queue pair takes and leaves is of the coroutines.
from-poll :
    (n q : ℕ) (cq : ℕ → List Wc) (o : Polled) (l : List Wc)
    → IsFromCoro n cq
    → poll_qp (cq q) ≡ (o, l)
    → IsTaken n o × IsFromCoro n (update cq q l)
from-poll n q cq o l from e = (
  subst (IsTaken n) (ap (λ r. r.0) e) (taken n (cq q) (from q)).0,
  λ j. ground (arith, from j, rest),
)
  where
    rest : All (λ w. w.wr_id < n) l
    rest = subst (All (λ w. w.wr_id < n)) (ap (λ r. r.1) e) (taken n (cq q) (from q)).1

IsCounted-one :
    (n c : ℕ) (kept cs : List ℕ) (s : Scheduler) (o : Option (Scheduler × (ℕ → List Wc)))
    → 0 < s.pending_counts c
    → IsCounted n kept cs (count_completion s c).pending_counts o
    → IsCounted n kept (c ∷ cs) s.pending_counts o
IsCounted-one n c kept cs s none pos h = h
IsCounted-one n c kept cs s (some (t, left)) pos (e, f) =
    (e, λ x lt. ground (arith, f x lt, ap (λ f. f x) (counts-count_completion s c)))

poll_loop-IsCounted :
    (n : ℕ) (qs before kept cs : List ℕ) (cq : ℕ → List Wc)
    → Delivered qs cq kept cs
    → IsFromCoro n cq
    → (s : Scheduler) → ((c : ℕ) → c < n → count c cs ≤ s.pending_counts c)
    → IsCounted n (before ++ kept) cs s.pending_counts (poll_loop qs before s cq)
unfolding poll_loop
poll_loop-IsCounted n qs before kept cs cq (none_left _) from s counts =
    (sym (append-nil before), λ c lt. omega arith)
poll_loop-IsCounted n qs before kept cs cq (next q c qs' kept' cs' cq' l e k) from s counts =
    let (known, rest) = from-poll n q cq' (completed c) l from e in
    let pos : 0 < s.pending_counts c = ground (arith, counts c known) in
    subst (IsCounted n (before ++ kept') (c ∷ cs') s.pending_counts)
      (sym (poll_loop-completed q c qs' before s cq' l e (ground (arith, pos))))
      (IsCounted-one n c (before ++ kept') cs' s _ pos (
        poll_loop-IsCounted n qs' before kept' cs' (update cq' q l) k rest (count_completion s c)
          (λ x lt. ground (arith, ap (λ f. f x) (counts-count_completion s c), counts x lt))))
poll_loop-IsCounted n qs before kept cs cq (stays q qs' kept' cs' cq' l e k) from s counts =
    subst (IsCounted n (before ++ (q ∷ kept')) cs' s.pending_counts)
      (sym (poll_loop-keep q qs' before s cq' l e))
      (subst
        (λ m.
          IsCounted n m cs' s.pending_counts
            (poll_loop qs' (before ++ (q ∷ [])) s (update cq' q l)))
        (append_assoc before (q ∷ []) kept')
        (poll_loop-IsCounted n qs' (before ++ (q ∷ [])) kept' cs' (update cq' q l) k
          (from-poll n q cq' keep l from e).1 s counts))

pub counted_result :
    (n : ℕ) (kept cs : List ℕ) (counts : ℕ → ℕ) (o : Option (Scheduler × (ℕ → List Wc)))
    → IsCounted n kept cs counts o
    → (t : Scheduler) × (left : ℕ → List Wc) × (o ≡ some (t, left))
      × (t.pending_qps ≡ kept)
      × ((c : ℕ) → c < n → t.pending_counts c + count c cs ≡ counts c)
counted_result n kept cs counts none h = absurd h
counted_result n kept cs counts (some (t, left)) (e, f) = (t, left, refl, e, f)

pub polled :
    (n : ℕ) (s : Scheduler) (cq : ℕ → List Wc) (kept cs : List ℕ)
    → IsFromCoro n cq
    → Delivered s.pending_qps cq kept cs
    → ((i : ℕ) → i < n → count i cs ≤ s.pending_counts i)
    → IsCounted n kept cs s.pending_counts (poll_completion s cq)
unfolding poll_completion
polled n s cq kept cs from all counts =
    poll_loop-IsCounted n s.pending_qps [] kept cs cq all from s counts

-- In any run of the scheduler: a poll goes through when the completions that are ready are of
-- coroutines that wait for as many. It takes just the queue pairs with a completion off the list of
-- pending ones, and counts each completion off for its coroutine; a coroutine all of whose requests
-- have completed has nothing pending and is in the ring. The completions carry the numbers of
-- coroutines.
pub poll_completion-wakes :
    (m s : Scheduler) (n c d : ℕ) (cq : ℕ → List Wc) (kept cs : List ℕ)
    → n < 2 ^ 64
    → SchedSteps (suc n) (first_scheduler m n) s
    → IsFromCoro (suc n) cq
    → Delivered s.pending_qps cq kept cs
    → ((i : ℕ) → i < suc n → count i cs ≤ s.pending_counts i)
    → d < suc n
    → c < suc n
    → s.pending_counts c ≡ count c cs
    → (t : Scheduler) × (left : ℕ → List Wc) × (r : List ℕ) × (poll_completion s cq
        ≡ some (t, left))
      × (t.pending_qps ≡ kept)
      × (t.pending_counts d + count d cs ≡ s.pending_counts d)
      × (t.pending_counts c ≡ 0)
      × IsRing (suc n) t r
      × (mem c (t.coro_head ∷ r) ≡ true)
poll_completion-wakes m s n c d cq kept cs le run from all counts lt' lt done =
    let (t, left, e, rest, counted) =
      counted_result (suc n) kept cs s.pending_counts (poll_completion s cq)
        (polled (suc n) s cq kept cs from all counts) in
    let (r, v) = first-IsScheduled m t n le (SchedSteps.polls s t cq left run from e) in
    let idle : t.pending_counts c ≡ 0 = omega (arith, counted c lt, done) in
    (t, left, r, e, rest, counted d lt', idle, v.ring, ground (arith, v.awaited.pending c lt, idle))
