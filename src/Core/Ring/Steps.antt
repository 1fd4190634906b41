-- ===== src/Core/Ring/Steps.antt =====
-- Runs of the scheduler.
use rdma_yuxi.Prelude.{
  ℕ, suc, ◌^◌, range, ◌<◌, ◌≡◌, ◌≢◌, refl, ap, sym, ◌∙◌, subst, Bool, true, false, ◌==◌, List, ◌∷◌,
  ◌++◌, mem, arith, inl, inr, Bool-cases, ==_iff, Option, some,
}
use mathlib.Core.Bool.{false≢true}
use rdma_yuxi.Core.Scheduler.{
  Scheduler, Wc, rdma_post, run_coroutine, yield_coroutine, poll_completion, loop_link_coroutine,
}
use rdma_yuxi.Core.Poll.{IsFromCoro}
use rdma_yuxi.Core.Ring.{IsRing, IsAwaited, IsScheduled}
use rdma_yuxi.Core.Ring.Links.{Chain-frame, mem-append, mem-split, next-mem}
use rdma_yuxi.Core.Ring.Start.{loop_link_coroutine-IsRing, mem-loop_link, waits-loop_link}
use rdma_yuxi.Core.Ring.Yield.{
  head-yield, counts-yield, waits-yield, next_in, self_out, yield_coroutine-IsRing,
}
use rdma_yuxi.Core.Ring.Awaited.{add_pending_qp-IsScheduled}
use rdma_yuxi.Core.Ring.Polled.{IsExtended, poll_completion-IsExtended}

-- A run of the scheduler from the state `init`: coroutines that do not wait post requests, and yield
-- when they are not the head; one of them passes control to the next one; and completions are polled
-- for. That a coroutine that yields does not wait is what the code asserts.
pub data SchedSteps (n : ℕ) (init : Scheduler) : Scheduler → Type 0 where
  begin : SchedSteps n init init
  posts :
      (s : Scheduler) (c qp : ℕ) (posted : Bool)
      → SchedSteps n init s
      → (s.coro_array c).is_wait_poll ≡ false
      → SchedSteps n init (rdma_post s c qp posted).1
  yields :
      (s : Scheduler) (c : ℕ)
      → SchedSteps n init s
      → c < n
      → c ≢ s.coro_head
      → (s.coro_array c).is_wait_poll ≡ false
      → SchedSteps n init (yield_coroutine s c)
  passes :
      (s : Scheduler) (c : ℕ)
      → SchedSteps n init s
      → c < n
      → (s.coro_array c).is_wait_poll ≡ false
      → SchedSteps n init (run_coroutine s (s.coro_array c).next_coro)
  polls :
      (s t : Scheduler) (cq left : ℕ → List Wc)
      → SchedSteps n init s
      → IsFromCoro n cq
      → poll_completion s cq ≡ some (t, left)
      → SchedSteps n init t

-- A coroutine that does not wait is in the ring.
awake-mem :
    (n : ℕ) (s : Scheduler) (r : List ℕ) (c : ℕ)
    → IsAwaited n s r
    → c < n
    → (s.coro_array c).is_wait_poll ≡ false
    → mem c (s.coro_head ∷ r) ≡ true
awake-mem n s r c v lt awake = ground (arith, v.outside c lt)

pub post-IsScheduled :
    (n : ℕ) (s : Scheduler) (r : List ℕ) (c qp : ℕ) (posted : Bool)
    → IsScheduled n s r
    → (s.coro_array c).is_wait_poll ≡ false
    → IsScheduled n (rdma_post s c qp posted).1 r
unfolding rdma_post
post-IsScheduled n s r c qp true v awake = add_pending_qp-IsScheduled n s r c v qp awake
post-IsScheduled n s r c qp false v awake = v

pub run_coroutine-IsScheduled :
    (n : ℕ) (s : Scheduler) (r : List ℕ) (c : ℕ)
    → IsScheduled n s r
    → mem c (s.coro_head ∷ r) ≡ true
    → IsScheduled n (run_coroutine s c) r
unfolding run_coroutine
run_coroutine-IsScheduled n s r c v m = record {
  ring = record {
    chain =
        Chain-frame s.coro_array (run_coroutine s c).coro_array s.coro_head s.coro_head r
          (λ x m. ground arith) (λ x m. ground arith) v.ring.chain;
    tail = v.ring.tail;
    distinct = v.ring.distinct;
    bounded = v.ring.bounded;
  };
  awaited = record {
    outside = λ x lt out. ground (arith, v.awaited.outside x lt out, (==_iff c x).0);
    pending = λ x lt out. v.awaited.pending x lt out;
    woken = λ x m w. ground (arith, v.awaited.woken x m);
  };
}

-- A coroutine that yields with nothing pending goes on; else it leaves the ring.
pub yield-nothing :
    (s : Scheduler) (c : ℕ) → s.pending_counts c == 0 ≡ true → yield_coroutine s c ≡ s
unfolding yield_coroutine
yield-nothing s c e = rw e refl

pub yield-IsScheduled :
    (n : ℕ) (s : Scheduler) (xs ys : List ℕ) (c : ℕ)
    → s.pending_counts c == 0 ≡ false
    → IsScheduled n s (xs ++ (c ∷ ys))
    → IsScheduled n (yield_coroutine s c) (xs ++ ys)
yield-IsScheduled n s xs ys c more v = record {
  ring = yield_coroutine-IsRing s c more n xs ys v.ring;
  awaited = record {
    outside = λ x lt m. ground (
      arith,
      head-yield s c more,
      waits-yield s c more x,
      next_in s c more n xs ys v.ring,
      v.awaited.outside x lt,
      mem-append x xs ys,
      mem-append x xs (c ∷ ys),
    );
    pending = λ x lt m. ground (
      arith,
      head-yield s c more,
      ap (λ f. f x) (counts-yield s c more),
      v.awaited.pending x lt,
      mem-append x xs ys,
      mem-append x xs (c ∷ ys),
    );
    woken = λ x m w. ground (
      arith,
      head-yield s c more,
      ap (λ f. f x) (counts-yield s c more),
      waits-yield s c more x,
      self_out s c more n xs ys v.ring,
      v.awaited.woken x,
      mem-append x xs ys,
      mem-append x xs (c ∷ ys),
    );
  };
}

yield-kept :
    (n : ℕ) (s : Scheduler) (r : List ℕ) (c : ℕ)
    → IsScheduled n s r
    → mem c r ≡ true
    → (l : List ℕ) × IsScheduled n (yield_coroutine s c) l
yield-kept n s r c v m = elim (Bool-cases (s.pending_counts c == 0)) [
  | inl none_left ↦ (r, rw (yield-nothing s c none_left) v)
  | inr more ↦
      let (xs, ys, e) = mem-split c r m in
      (xs ++ ys, yield-IsScheduled n s xs ys c more (subst (IsScheduled n s) e v))
]

extended :
    (n : ℕ) (r : List ℕ) (o : Option (Scheduler × (ℕ → List Wc))) (t : Scheduler)
    (left : ℕ → List Wc)
    → IsExtended n r o
    → o ≡ some (t, left)
    → (l : List ℕ) × IsScheduled n t l
extended n r o t left h e = let (w, v) = subst (IsExtended n r) e h in (r ++ w, v)

pub steps-IsScheduled :
    {n : ℕ} {init : Scheduler} (s : Scheduler)
    → SchedSteps n init s
    → (l : List ℕ) → IsScheduled n init l
    → (r : List ℕ) × IsScheduled n s r
steps-IsScheduled s begin l v = (l, v)
steps-IsScheduled {n} s (posts q c qp posted k awake) l v =
    let (r, w) = steps-IsScheduled q k l v in (r, post-IsScheduled n q r c qp posted w awake)
steps-IsScheduled {n} s (yields q c k lt ne awake) l v =
    let (r, w) = steps-IsScheduled q k l v in
    yield-kept n q r c w (ground (arith, awake-mem n q r c w.awaited lt awake, ne))
steps-IsScheduled {n} s (passes q c k lt awake) l v =
    let (r, w) = steps-IsScheduled q k l v in
    (
      r,
      run_coroutine-IsScheduled n q r (q.coro_array c).next_coro w (
          next-mem q.coro_array q.coro_head q.coro_head c r w.ring.chain
            (awake-mem n q r c w.awaited lt awake)),
    )
steps-IsScheduled {n} s (polls q t cq left k from e) l v =
    let (r, w) = steps-IsScheduled q k l v in
    extended n r (poll_completion q cq) s left (poll_completion-IsExtended n q r cq from w) e

-- At the start all coroutines are in the ring, and none waits.
pub start-IsScheduled :
    (s : Scheduler) (n : ℕ)
    → n < 2 ^ 64
    → ((c : ℕ) → (s.coro_array c).is_wait_poll ≡ false)
    → IsScheduled (suc n) (loop_link_coroutine s (suc n)) (range 1 n)
start-IsScheduled s n le awake = record {
  ring = loop_link_coroutine-IsRing s n le;
  awaited = record {
    outside = λ c lt out. absurd (omega (arith, mem-loop_link s n le c out, lt));
    pending = λ c lt out. absurd (omega (arith, mem-loop_link s n le c out, lt));
    woken = λ c m w. absurd (false≢true (sym (waits-loop_link s n le c ∙ awake c) ∙ w));
  };
}

-- In any run of the scheduler from coroutines that were linked in a loop, none of them waiting, the
-- links are a ring, forwards and backwards up to the head; and a coroutine with no request pending
-- is in it, so that none is left waiting for nothing.
pub SchedSteps-mem :
    (s t : Scheduler) (n c : ℕ)
    → n < 2 ^ 64
    → ((i : ℕ) → (s.coro_array i).is_wait_poll ≡ false)
    → SchedSteps (suc n) (loop_link_coroutine s (suc n)) t
    → c < suc n
    → t.pending_counts c ≡ 0
    → (r : List ℕ) × IsRing (suc n) t r × (mem c (t.coro_head ∷ r) ≡ true)
SchedSteps-mem s t n c le awake k lt idle =
    let (r, v) = steps-IsScheduled t k (range 1 n) (start-IsScheduled s n le awake) in
    (r, v.ring, ground (arith, v.awaited.pending c lt))
