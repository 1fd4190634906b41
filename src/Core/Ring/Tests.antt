-- ===== src/Core/Ring/Tests.antt =====
-- Rounds and polls of three coroutines.
use rdma_yuxi.Prelude.{
  ◌+◌, ℕ, ◌≡◌, ◌≤◌, ◌<◌, refl, arith, true, ◌==◌, if◌then◌else◌, List, [], ◌∷◌, mem, length,
  IsDistinct, some,
}
use rdma_yuxi.Core.Scheduler.{
  Scheduler, Wc, success, new_coroutine, zero_counts, new_scheduler, link_loop, set_next, set_prev,
  loop_link_coroutine, add_pending_qp, rdma_post, run_coroutine, yield_coroutine, poll_qp,
  poll_completion,
}
use rdma_yuxi.Core.Poll.{IsFromCoro}
use rdma_yuxi.Core.Ring.{IsRing}
use rdma_yuxi.Core.Ring.Steps.{SchedSteps}
use rdma_yuxi.Core.Ring.Turns.{Turns, next_coro}
use rdma_yuxi.Core.Ring.Fair.{first_scheduler, Turns-mem, Turns-length}
use rdma_yuxi.Core.Ring.Wakes.{Delivered, count, poll_completion-wakes}

abbrev memory : Scheduler
memory = record {
  coro_array = λ i. record { is_wait_poll = true; prev_coro = i; next_coro = i };
  coro_head = 7;
  coro_tail = 7;
  pending_qps = [];
  pending_counts = λ _. 9;
  running = 0;
}

abbrev fresh : Scheduler
fresh = first_scheduler memory 2

-- Control goes to coroutine 1, which posts a request on the queue pair 5 and yields to coroutine 2.
abbrev first : Scheduler
first = run_coroutine fresh (next_coro fresh)

abbrev asked : Scheduler
asked = (rdma_post first first.running 5 true).1

abbrev last : Scheduler
last = yield_coroutine asked asked.running

first-next : next_coro fresh ≡ 1
unfolding new_scheduler loop_link_coroutine link_loop set_next set_prev new_coroutine
first-next = refl

last-next : next_coro last ≡ last.coro_head
unfolding new_scheduler loop_link_coroutine link_loop set_next set_prev new_coroutine run_coroutine
    yield_coroutine rdma_post add_pending_qp zero_counts
last-next = refl

turns : Turns fresh last (1 ∷ 2 ∷ [])
unfolding new_scheduler loop_link_coroutine link_loop set_next set_prev new_coroutine run_coroutine
    yield_coroutine rdma_post add_pending_qp zero_counts
turns =
    Turns.yields asked (1 ∷ [])
      (Turns.posts first (1 ∷ []) 5 true
        (Turns.passes fresh [] Turns.begin (λ e. ground (arith, e))) refl)
      (λ e. ground (arith, e)) refl (λ e. ground (arith, e))

fresh-steps : SchedSteps 3 fresh fresh
fresh-steps = SchedSteps.begin

fresh-idle : fresh.pending_counts 2 ≡ 0
unfolding new_scheduler loop_link_coroutine zero_counts
fresh-idle = refl

fresh-head : fresh.running ≡ fresh.coro_head
unfolding new_scheduler loop_link_coroutine
fresh-head = refl

Turns-mem_example : mem 2 (fresh.coro_head ∷ 1 ∷ 2 ∷ []) ≡ true
Turns-mem_example =
    Turns-mem memory fresh last 2 (1 ∷ 2 ∷ []) (omega arith) fresh-steps fresh-head turns 2
      last-next (omega arith) fresh-idle

Turns-length_example : IsDistinct (fresh.coro_head ∷ 1 ∷ 2 ∷ []) × (length {A = ℕ} (1 ∷ 2 ∷ []) ≤ 2)
Turns-length_example =
    Turns-length memory fresh last 2 (1 ∷ 2 ∷ []) (omega arith) fresh-steps fresh-head turns

-- The request of coroutine 1 has completed.
abbrev cq : ℕ → List Wc
cq q = if q == 5 then record { status = success; wr_id = 1 } ∷ [] else []

cq-IsFromCoro : IsFromCoro 3 cq
cq-IsFromCoro q = ground arith

last-steps : SchedSteps 3 fresh last
unfolding new_scheduler loop_link_coroutine link_loop set_next set_prev new_coroutine run_coroutine
    yield_coroutine rdma_post add_pending_qp zero_counts
last-steps =
    SchedSteps.yields asked 1
      (SchedSteps.posts first 1 5 true (SchedSteps.passes fresh 0 fresh-steps (omega arith) refl)
        refl)
      (omega arith) (λ e. ground (arith, e)) refl

-- Coroutine 2 has posted a request on the queue pair 6, which has nothing ready.
abbrev busy : Scheduler
busy = (rdma_post last 2 6 true).1

busy-steps : SchedSteps 3 fresh busy
unfolding new_scheduler loop_link_coroutine link_loop set_next set_prev new_coroutine run_coroutine
    yield_coroutine rdma_post add_pending_qp zero_counts
busy-steps = SchedSteps.posts last 2 6 true last-steps refl

busy-delivered : Delivered busy.pending_qps cq (6 ∷ []) (1 ∷ [])
unfolding new_scheduler loop_link_coroutine link_loop set_next set_prev new_coroutine run_coroutine
    yield_coroutine rdma_post add_pending_qp zero_counts poll_qp
busy-delivered =
    Delivered.next 5 1 (6 ∷ []) (6 ∷ []) [] cq [] refl
      (Delivered.stays 6 [] [] [] _ [] refl (Delivered.none_left _))

busy-counts : (i : ℕ) → i < 3 → count i (1 ∷ []) ≤ busy.pending_counts i
unfolding new_scheduler loop_link_coroutine link_loop set_next set_prev new_coroutine run_coroutine
    yield_coroutine rdma_post add_pending_qp zero_counts
busy-counts i lt = ground arith

one_done : busy.pending_counts 1 ≡ count 1 (1 ∷ [])
unfolding new_scheduler loop_link_coroutine link_loop set_next set_prev new_coroutine run_coroutine
    yield_coroutine rdma_post add_pending_qp zero_counts
one_done = refl

poll_completion-wakes_example :
    (t : Scheduler) × (left : ℕ → List Wc) × (r : List ℕ) × (poll_completion busy cq
      ≡ some (t, left))
    × (t.pending_qps ≡ 6 ∷ [])
    × (t.pending_counts 2 + count 2 (1 ∷ []) ≡ busy.pending_counts 2)
    × (t.pending_counts 1 ≡ 0)
    × IsRing 3 t r
    × (mem 1 (t.coro_head ∷ r) ≡ true)
poll_completion-wakes_example =
    poll_completion-wakes memory busy 2 1 2 cq (6 ∷ []) (1 ∷ []) (omega arith) busy-steps
      cq-IsFromCoro busy-delivered busy-counts (omega arith) (omega arith) one_done
