-- ===== src/Core/Verbs/Counted.antt =====
-- The completions that come back are of requests that were posted: a poll never meets one that its
-- coroutine does not wait for.
use rdma_yuxi.Prelude.{
  ℕ, zero, suc, ◌+◌, ◌<◌, ◌≤◌, ◌≡◌, refl, ap, sym, ◌∙◌, subst, Bool, true, false, ◌==◌,
  if◌then◌else◌, inl, inr, Bool-cases, List, [], ◌∷◌, ◌++◌, update, arith, none, some,
}
use rdma_yuxi.Core.Scheduler.{
  Scheduler, Wc, zero_counts, new_scheduler, loop_link_coroutine, add_pending_qp, rdma_post,
  rdma_post_sync, run_coroutine, yield_coroutine, poll_completion,
}
use rdma_yuxi.Core.Poll.{IsFromCoro}
use rdma_yuxi.Core.Ring.Yield.{counts-yield}
use rdma_yuxi.Core.Ring.Steps.{yield-nothing}
use rdma_yuxi.Core.Ring.Fair.{first_scheduler}
use rdma_yuxi.Core.Ring.Wakes.{Delivered, count, polled, counted_result}
use rdma_yuxi.Core.Verbs.{
  SendWr, Post, Issued, rdma_batch, rdma_write_op, rdma_write_to_mr, rdma_read_op, rdma_cas,
  rdma_batch_sync, rdma_read_sync, wr_id_of,
}

-- The operations whose completions are polled for later, with their arguments.
pub data Op : Type 0 where
  batch : (ℕ → SendWr) → ℕ → Op
  write : ℕ → ℕ → ℕ → Op
  write_to_mr : ℕ → ℕ → ℕ → ℕ → ℕ → Op
  read : ℕ → ℕ → ℕ → Op
  cas : ℕ → ℕ → ℕ → ℕ → Op

abbrev pub issue : Scheduler → ℕ → ℕ → (Post → Bool) → Op → Issued
issue s c qp rc (batch sr last) = rdma_batch s c qp rc sr last
issue s c qp rc (write buf offset size) = rdma_write_op s c qp rc buf offset size
issue s c qp rc (write_to_mr buf offset size local remote) =
    rdma_write_to_mr s c qp rc buf offset size local remote
issue s c qp rc (read buf offset size) = rdma_read_op s c qp rc buf offset size
issue s c qp rc (cas buf offset compare swap) = rdma_cas s c qp rc buf offset compare swap

-- The requests that are posted, with one more if its post succeeded.
abbrev pub with_post : Issued → List ℕ → List ℕ
with_post (post, ok, t) l = if ok then wr_id_of post ∷ l else l

-- A run of the scheduler, with the identifiers of the requests that were posted and of the
-- completions that polls took. A poll's completions are of requests that were posted and have not
-- completed.
pub data VerbSteps (n : ℕ) (init : Scheduler) : Scheduler → List ℕ → List ℕ → Type 0 where
  begin : VerbSteps n init init [] []
  issues :
      (s : Scheduler) (l d : List ℕ) (c qp : ℕ) (rc : Post → Bool) (op : Op)
      → VerbSteps n init s l d
      → VerbSteps n init (issue s c qp rc op).2 (with_post (issue s c qp rc op) l) d
  batches :
      (s : Scheduler) (l d : List ℕ) (c qp : ℕ) (rc : Post → Bool) (sr : ℕ → SendWr) (last : ℕ)
      (ready : Bool)
      → VerbSteps n init s l d
      → VerbSteps n init (rdma_batch_sync s c qp rc sr last ready).2 l d
  reads :
      (s : Scheduler) (l d : List ℕ) (c qp : ℕ) (rc : Post → Bool) (buf offset size : ℕ)
      (ready : Bool)
      → VerbSteps n init s l d
      → VerbSteps n init (rdma_read_sync s c qp rc buf offset size ready).2 l d
  yields :
      (s : Scheduler) (l d : List ℕ) (c : ℕ)
      → VerbSteps n init s l d
      → VerbSteps n init (yield_coroutine s c) l d
  passes :
      (s : Scheduler) (l d : List ℕ) (c : ℕ)
      → VerbSteps n init s l d
      → VerbSteps n init (run_coroutine s c) l d
  polls :
      (s t : Scheduler) (l d : List ℕ) (cq left : ℕ → List Wc) (kept cs : List ℕ)
      → VerbSteps n init s l d
      → IsFromCoro n cq
      → Delivered s.pending_qps cq kept cs
      → ((i : ℕ) → i < n → count i (cs ++ d) ≤ count i l)
      → poll_completion s cq ≡ some (t, left)
      → VerbSteps n init t l (cs ++ d)

-- What a coroutine waits for, and what has completed, make up what it posted.
abbrev IsAccounted : ℕ → (ℕ → ℕ) → List ℕ → List ℕ → Type 0
IsAccounted n counts l d = (i : ℕ) → i < n → counts i + count i d ≡ count i l

pub count-append : (c : ℕ) (l k : List ℕ) → count c (l ++ k) ≡ count c l + count c k
count-append c [] k = omega arith
count-append c (x ∷ l) k = omega (arith, count-append c l k)

zero_counts-before : (n i : ℕ) (f : ℕ → ℕ) (c : ℕ) → c < i → zero_counts n i f c ≡ f c
unfolding zero_counts
zero_counts-before zero i f c lt = refl
zero_counts-before (suc n) i f c lt = ground (arith, zero_counts-before n (i + 1) (update f i 0) c)

zero_counts_lem : (n i : ℕ) (f : ℕ → ℕ) (c : ℕ) → i ≤ c → c < i + n → zero_counts n i f c ≡ 0
unfolding zero_counts
zero_counts_lem zero i f c le lt = absurd (omega (arith, le, lt))
zero_counts_lem (suc n) i f c le lt = ground (
  arith,
  zero_counts-before n (i + 1) (update f i 0) c,
  zero_counts_lem n (i + 1) (update f i 0) c,
)

first-IsAccounted :
    (m : Scheduler) (n : ℕ) → IsAccounted (suc n) (first_scheduler m n).pending_counts [] []
unfolding loop_link_coroutine new_scheduler
first-IsAccounted m n i lt = ground (arith, zero_counts_lem (suc n) 0 m.pending_counts i)

-- Every operation posts the coroutine's number, and counts for the coroutine if its post succeeds.
issued :
    (s : Scheduler) (c qp : ℕ) (rc : Post → Bool) (op : Op)
    → (p : Post) × (wr_id_of p ≡ c)
      × (issue s c qp rc op ≡ (p, (rdma_post s c qp (rc p)).0, (rdma_post s c qp (rc p)).1))
unfolding rdma_batch rdma_write_op rdma_write_to_mr rdma_read_op rdma_cas
issued s c qp rc (batch sr last) = (_, ground arith, refl)
issued s c qp rc (write buf offset size) = (_, refl, refl)
issued s c qp rc (write_to_mr buf offset size local remote) = (_, refl, refl)
issued s c qp rc (read buf offset size) = (_, refl, refl)
issued s c qp rc (cas buf offset compare swap) = (_, refl, refl)

post-IsAccounted :
    (n : ℕ) (s : Scheduler) (l d : List ℕ) (c qp : ℕ) (p : Post) (ok : Bool)
    → wr_id_of p ≡ c
    → IsAccounted n s.pending_counts l d
    → IsAccounted n
        (rdma_post s c qp ok).1.pending_counts
        (with_post (p, (rdma_post s c qp ok).0, (rdma_post s c qp ok).1) l)
        d
unfolding rdma_post add_pending_qp
post-IsAccounted n s l d c qp p true e v i lt = ground (arith, v i lt, e)
post-IsAccounted n s l d c qp p false e v i lt = v i lt

issue-IsAccounted :
    (n : ℕ) (s : Scheduler) (l d : List ℕ) (c qp : ℕ) (rc : Post → Bool) (op : Op)
    → IsAccounted n s.pending_counts l d
    → IsAccounted n (issue s c qp rc op).2.pending_counts (with_post (issue s c qp rc op) l) d
issue-IsAccounted n s l d c qp rc op v =
    let (p, own, e) = issued s c qp rc op in
    subst (λ r. IsAccounted n r.2.pending_counts (with_post r l) d) (sym e)
      (post-IsAccounted n s l d c qp p (rc p) own v)

sync-kept : (s : Scheduler) (posted ready : Bool) → (rdma_post_sync s posted ready).1 ≡ s
unfolding rdma_post_sync
sync-kept s posted ready = ground arith

counts-yield_coroutine :
    (s : Scheduler) (c : ℕ) → (yield_coroutine s c).pending_counts ≡ s.pending_counts
counts-yield_coroutine s c = elim (Bool-cases (s.pending_counts c == 0)) [
  | inl e ↦ ap (λ t. t.pending_counts) (yield-nothing s c e)
  | inr e ↦ counts-yield s c e
]

-- A poll counts off what it took.
poll-IsAccounted :
    (n : ℕ) (s : Scheduler) (l d kept cs : List ℕ) (cq : ℕ → List Wc)
    → IsFromCoro n cq
    → Delivered s.pending_qps cq kept cs
    → ((i : ℕ) → i < n → count i (cs ++ d) ≤ count i l)
    → IsAccounted n s.pending_counts l d
    → (t : Scheduler) × (left : ℕ → List Wc) × (poll_completion s cq ≡ some (t, left))
      × (t.pending_qps ≡ kept)
      × IsAccounted n t.pending_counts l (cs ++ d)
poll-IsAccounted n s l d kept cs cq from all due v =
    let (t, left, e, rest, counted) =
      counted_result n kept cs s.pending_counts (poll_completion s cq) (
        polled n s cq kept cs from all
          (λ i lt. omega (arith, due i lt, v i lt, count-append i cs d))) in
    (t, left, e, rest, λ i lt. omega (arith, counted i lt, v i lt, count-append i cs d))

steps-IsAccounted :
    (n : ℕ) (init s : Scheduler) (l d : List ℕ)
    → IsAccounted n init.pending_counts [] []
    → VerbSteps n init s l d
    → IsAccounted n s.pending_counts l d
unfolding rdma_batch_sync rdma_read_sync run_coroutine
steps-IsAccounted n init s l d v VerbSteps.begin = v
steps-IsAccounted n init _ _ d v (VerbSteps.issues s l _ c qp rc op k) =
    issue-IsAccounted n s l d c qp rc op (steps-IsAccounted n init s l d v k)
steps-IsAccounted n init _ l d v (VerbSteps.batches s _ _ c qp rc sr last ready k) =
    subst (λ t. IsAccounted n t.pending_counts l d) (sym (sync-kept s _ ready))
      (steps-IsAccounted n init s l d v k)
steps-IsAccounted n init _ l d v (VerbSteps.reads s _ _ c qp rc buf offset size ready k) =
    subst (λ t. IsAccounted n t.pending_counts l d) (sym (sync-kept s _ ready))
      (steps-IsAccounted n init s l d v k)
steps-IsAccounted n init _ l d v (VerbSteps.yields s _ _ c k) =
    subst (λ f. IsAccounted n f l d) (sym (counts-yield_coroutine s c))
      (steps-IsAccounted n init s l d v k)
steps-IsAccounted n init _ l d v (VerbSteps.passes s _ _ c k) = steps-IsAccounted n init s l d v k
steps-IsAccounted n init t l _ v (VerbSteps.polls s _ _ d cq left kept cs k from all due e) =
    let (u, rest, same, pending, w) =
      poll-IsAccounted n s l d kept cs cq from all due (steps-IsAccounted n init s l d v k) in
    subst (λ x. IsAccounted n x.pending_counts l (cs ++ d))
      (ap (λ o. elim o [ some (x, y) ↦ x | none ↦ u ]) (sym same ∙ e)) w

-- In any run of the scheduler from its construction - the RDMA operations of any coroutines, whose
-- posts succeed or fail, yields, passes of control and polls, in any order - a poll goes through when
-- its completions are of requests that were posted and have not completed: none of them is one that
-- its coroutine does not wait for. The queue pairs without a completion stay, and what a coroutine
-- then waits for is what it posted less what has completed. An operation that polls in place takes no
-- other's completion.
pub poll_completion-expected :
    (m s : Scheduler) (n c : ℕ) (l d kept cs : List ℕ) (cq : ℕ → List Wc)
    → VerbSteps (suc n) (first_scheduler m n) s l d
    → IsFromCoro (suc n) cq
    → Delivered s.pending_qps cq kept cs
    → ((i : ℕ) → i < suc n → count i (cs ++ d) ≤ count i l)
    → c < suc n
    → (t : Scheduler) × (left : ℕ → List Wc) × (poll_completion s cq ≡ some (t, left))
      × (t.pending_qps ≡ kept)
      × (t.pending_counts c + count c (cs ++ d) ≡ count c l)
poll_completion-expected m s n c l d kept cs cq run from all due lt =
    let (t, left, e, rest, v) =
      poll-IsAccounted (suc n) s l d kept cs cq from all due
        (steps-IsAccounted (suc n) (first_scheduler m n) s l d (first-IsAccounted m n) run) in
    (t, left, e, rest, v c lt)
