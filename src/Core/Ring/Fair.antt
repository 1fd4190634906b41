-- ===== src/Core/Ring/Fair.antt =====
-- What a round between two polls comes to, from any state of the scheduler.
use rdma_yuxi.Prelude.{
  ℕ, suc, ◌^◌, ◌≤◌, ◌<◌, ◌≡◌, refl, ap, sym, ◌∙◌, subst, true, false, List, [], ◌∷◌, ◌++◌,
  append-nil, mem, IsDistinct, length, range, arith,
}
use mathlib.Core.Bool.{true≢false}
use rdma_yuxi.Core.Scheduler.{Scheduler, new_coroutine, new_scheduler, loop_link_coroutine}
use rdma_yuxi.Core.Ring.{IsScheduled}
use rdma_yuxi.Core.Ring.Links.{mem-append, IsDistinct-left, IsDistinct-length}
use rdma_yuxi.Core.Ring.Yield.{first_of}
use rdma_yuxi.Core.Ring.Steps.{SchedSteps, steps-IsScheduled, start-IsScheduled}
use rdma_yuxi.Core.Ring.Turns.{Turns, IsRound, next_coro, next_is, turns-IsRound}

-- A scheduler for `n + 1` coroutines that was constructed on the memory `m`, and linked.
abbrev pub first_scheduler : Scheduler → ℕ → Scheduler
first_scheduler m n = loop_link_coroutine (new_scheduler m (suc n)) (suc n)

new_scheduler-awake :
    (m : Scheduler) (n c : ℕ) → ((new_scheduler m n).coro_array c).is_wait_poll ≡ false
unfolding new_scheduler new_coroutine
new_scheduler-awake m n c = refl

pub first-IsScheduled :
    (m u : Scheduler) (n : ℕ)
    → n < 2 ^ 64
    → SchedSteps (suc n) (first_scheduler m n) u
    → (r : List ℕ) × IsScheduled (suc n) u r
first-IsScheduled m u n le k =
    steps-IsScheduled u k (range 1 n)
      (start-IsScheduled (new_scheduler m (suc n)) n le (new_scheduler-awake m (suc n)))

-- A round that is over gave control to the whole ring.
round_over :
    (n h : ℕ) (r w : List ℕ) (t : Scheduler)
    → IsDistinct (h ∷ r)
    → IsRound n h r t w
    → next_coro t ≡ t.coro_head
    → r ≡ w
round_over n h r w t d v over =
    by_rest v.todo v.all (sym (next_is n t v.done v.todo v.turn) ∙ over ∙ v.head)
  where
    by_rest : (todo : List ℕ) → r ≡ w ++ todo → first_of todo t.coro_head ≡ h → r ≡ w
    by_rest [] all e = all ∙ append-nil w
    by_rest (c ∷ todo) all e = absurd (
        true≢false
          (ground (arith, e, mem-append c w (c ∷ todo), ap (mem c) all, d.0, ap (λ x. mem x r) e)))

-- The number of coroutines that got control does not pass that of the ring.
round-IsDistinct :
    (n h : ℕ) (r w : List ℕ) (t : Scheduler)
    → IsDistinct (h ∷ r)
    → IsRound n h r t w
    → IsDistinct (h ∷ w)
round-IsDistinct n h r w t d v =
    IsDistinct-left (h ∷ w) v.todo (subst (λ l. IsDistinct (h ∷ l)) v.all d)

module _ (m u t : Scheduler) (n : ℕ) (w : List ℕ) (le : n < 2 ^ 64)
    (run : SchedSteps (suc n) (first_scheduler m n) u) (polling : u.running ≡ u.coro_head)
    (turns : Turns u t w) where
  ring : (r : List ℕ) × IsScheduled (suc n) u r
  ring = first-IsScheduled m u n le run

  round : IsRound (suc n) u.coro_head ring.0 t w
  round = turns-IsRound (suc n) ring.0 u t w ring.1 polling turns

  -- In any run of the scheduler, a round of turns that starts at the head, goes on with requests,
  -- yields and passes of control in any order, and is over, gave control to every coroutine that had
  -- nothing pending when it started.
  pub Turns-mem :
      (c : ℕ)
      → next_coro t ≡ t.coro_head
      → c < suc n
      → u.pending_counts c ≡ 0
      → mem c (u.coro_head ∷ w) ≡ true
  Turns-mem c over lt idle =
      subst (λ l. mem c (u.coro_head ∷ l) ≡ true)
        (round_over (suc n) u.coro_head ring.0 w t ring.1.ring.distinct round over)
        (ground (arith, ring.1.awaited.pending c lt))

  -- In any run of the scheduler, a round of turns that starts at the head gives control to no
  -- coroutine twice, nor back to the head: after at most `n` turns, where there are `n + 1`
  -- coroutines, it is over.
  pub Turns-length : IsDistinct (u.coro_head ∷ w) × (length w ≤ n)
  Turns-length =
      let d = round-IsDistinct (suc n) u.coro_head ring.0 w t ring.1.ring.distinct round in
      (
        d,
        (omega (
          arith,
          IsDistinct-length (suc n) (u.coro_head ∷ w) d (λ c k.
              ring.1.ring.bounded c
                (ground (arith, mem-append c w round.todo, ap (mem c) round.all))),
        )),
      )
