-- ===== src/Core/Tests.antt =====
-- The scheduler and the allocators on small states.
use rdma_yuxi.Prelude.{ℕ, ◌≡◌, refl, arith, false, List, [], ◌∷◌, if◌then◌else◌, ◌==◌}
use rdma_yuxi.Core.Scheduler.{Scheduler, Wc, success, poll_completion, add_pending_qp}
use rdma_yuxi.Core.Poll.{
  IsBalanced, IsFromCoro, IsKept, add_pending_qp-IsBalanced, poll_completion-IsBalanced,
}
use rdma_yuxi.Core.Scheduler.{
  link_loop, set_next, set_prev, run_coroutine, yield_coroutine, append_coroutine, rdma_post,
  loop_link_coroutine, poll_loop, poll_qp, count_completion,
}
use rdma_yuxi.Prelude.{◌++◌, range, mem, true, some, none, Option}
use rdma_yuxi.Core.Ring.{IsRing}
use rdma_yuxi.Core.Ring.Moves.{append_coroutine-IsRing}
use rdma_yuxi.Core.Ring.Yield.{yield_coroutine-IsRing}
use rdma_yuxi.Core.Ring.Start.{loop_link_coroutine-IsRing}
use rdma_yuxi.Core.Ring.Steps.{SchedSteps, SchedSteps-mem}

abbrev quiet : Scheduler
quiet = record {
  coro_array = λ i. record { is_wait_poll = false; prev_coro = i; next_coro = i };
  coro_head = 0;
  coro_tail = 1;
  pending_qps = [];
  pending_counts = λ _. 0;
  running = 0;
}

-- Coroutine 1 has a request on the queue pair 5.
abbrev waiting : Scheduler
waiting = add_pending_qp quiet 1 5

waiting-IsBalanced : IsBalanced 2 waiting
waiting-IsBalanced = add_pending_qp-IsBalanced 2 quiet 1 5 (omega arith) refl

-- One completion, on the queue pair 5.
abbrev cq : ℕ → List Wc
cq q = if q == 5 then record { status = success; wr_id = 1 } ∷ [] else []

cq-IsFromCoro : IsFromCoro 2 cq
cq-IsFromCoro q = ground arith

poll_completion-IsBalanced_example : IsKept 2 (poll_completion waiting cq)
poll_completion-IsBalanced_example =
    poll_completion-IsBalanced 2 waiting cq cq-IsFromCoro waiting-IsBalanced

-- Three coroutines in a ring; coroutine 1 posts a request on queue pair 5 and yields.
abbrev linked : Scheduler
linked = loop_link_coroutine quiet 3

abbrev posted : Scheduler
posted = (rdma_post linked 1 5 true).1

abbrev yielded : Scheduler
yielded = yield_coroutine posted 1

posted-IsRing : IsRing 3 posted ([] ++ (1 ∷ 2 ∷ []))
unfolding rdma_post add_pending_qp loop_link_coroutine
posted-IsRing = record {
  chain = ring.chain;
  tail = ring.tail;
  distinct = ring.distinct;
  bounded = ring.bounded;
}
  where
    ring : IsRing 3 linked (range 1 2)
    ring = loop_link_coroutine-IsRing quiet 2 (omega arith)

one_pending : posted.pending_counts 1 == 0 ≡ false
unfolding rdma_post add_pending_qp loop_link_coroutine
one_pending = refl

yielded-IsRing : IsRing 3 yielded (2 ∷ [])
yielded-IsRing = yield_coroutine-IsRing posted 1 one_pending 3 [] (2 ∷ []) posted-IsRing

yield_coroutine-IsRing_example : IsRing 3 yielded (2 ∷ [])
yield_coroutine-IsRing_example =
    yield_coroutine-IsRing posted 1 one_pending 3 [] (2 ∷ []) posted-IsRing

yielded-out : mem 1 (yielded.coro_head ∷ 2 ∷ []) ≡ false
unfolding rdma_post add_pending_qp loop_link_coroutine yield_coroutine run_coroutine
yielded-out = refl

yielded-waits : (yielded.coro_array 1).is_wait_poll ≡ true
unfolding rdma_post add_pending_qp loop_link_coroutine yield_coroutine run_coroutine set_next
    set_prev link_loop
yielded-waits = refl

append_coroutine-IsRing_example : IsRing 3 (append_coroutine yielded 1) (2 ∷ 1 ∷ [])
append_coroutine-IsRing_example =
    append_coroutine-IsRing 3 yielded (2 ∷ []) 1 yielded-IsRing (omega arith) yielded-out
      yielded-waits

-- The completion of the request is polled, and coroutine 1 is back.
abbrev state_of : Option (Scheduler × (ℕ → List Wc)) → Scheduler
state_of none = yielded
state_of (some (t, left)) = t

abbrev left_of : Option (Scheduler × (ℕ → List Wc)) → ℕ → List Wc
left_of none = cq
left_of (some (t, left)) = left

abbrev resumed : Scheduler
resumed = state_of (poll_completion yielded cq)

polled : poll_completion yielded cq ≡ some (resumed, left_of (poll_completion yielded cq))
unfolding rdma_post add_pending_qp loop_link_coroutine yield_coroutine run_coroutine poll_completion
    poll_loop poll_qp count_completion append_coroutine
polled = refl

resumed-counts : resumed.pending_counts 1 ≡ 0
unfolding rdma_post add_pending_qp loop_link_coroutine yield_coroutine run_coroutine poll_completion
    poll_loop poll_qp count_completion append_coroutine set_next set_prev
resumed-counts = refl

linked-awake : (linked.coro_array 1).is_wait_poll ≡ false
unfolding loop_link_coroutine set_next set_prev link_loop
linked-awake = refl

posted-awake : (posted.coro_array 1).is_wait_poll ≡ false
unfolding rdma_post add_pending_qp loop_link_coroutine set_next set_prev link_loop
posted-awake = refl

posted-head : posted.coro_head ≡ 0
unfolding rdma_post add_pending_qp loop_link_coroutine
posted-head = refl

cq-of_three : IsFromCoro 3 cq
cq-of_three q = ground arith

resumed-steps : SchedSteps 3 linked resumed
resumed-steps =
    SchedSteps.polls yielded resumed cq (left_of (poll_completion yielded cq))
      (SchedSteps.yields posted 1 (SchedSteps.posts linked 1 5 true SchedSteps.begin linked-awake)
        (omega arith) (λ e. absurd (omega (arith, e, posted-head))) posted-awake)
      cq-of_three polled

SchedSteps-mem_example : (r : List ℕ) × IsRing 3 resumed r × (mem 1 (resumed.coro_head ∷ r) ≡ true)
SchedSteps-mem_example =
    SchedSteps-mem quiet resumed 2 1 (omega arith) (λ i. refl) resumed-steps (omega arith)
      resumed-counts
