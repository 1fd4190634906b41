-- ===== src/Core/Verbs/Tests.antt =====
-- Two coroutines with an operation each, and the completion of one of them.
use rdma_yuxi.Prelude.{
  ℕ, ◌+◌, ◌<◌, ◌≤◌, ◌≡◌, refl, arith, Bool, true, false, ◌==◌, if◌then◌else◌, List, [], ◌∷◌, ◌++◌,
  some,
}
use rdma_yuxi.Core.Scheduler.{
  Scheduler, Wc, success, new_coroutine, zero_counts, new_scheduler, link_loop, set_next, set_prev,
  loop_link_coroutine, add_pending_qp, rdma_post, rdma_post_sync, run_coroutine, yield_coroutine,
  poll_qp, poll_completion,
}
use rdma_yuxi.Core.Poll.{IsFromCoro}
use rdma_yuxi.Core.Ring.Fair.{first_scheduler}
use rdma_yuxi.Core.Ring.Wakes.{Delivered, count}
use rdma_yuxi.Core.Verbs.{Post, rdma_read_op, rdma_cas, rdma_read_sync}
use rdma_yuxi.Core.Verbs.Counted.{Op, issue, VerbSteps, poll_completion-expected}

abbrev memory : Scheduler
memory = record {
  coro_array = λ i. record { is_wait_poll = true; prev_coro = i; next_coro = i };
  coro_head = 7;
  coro_tail = 7;
  pending_qps = 3 ∷ [];
  pending_counts = λ _. 9;
  running = 0;
}

abbrev rc : Post → Bool
rc p = true

abbrev full : Post → Bool
full p = false

abbrev fresh : Scheduler
fresh = first_scheduler memory 2

-- Coroutine 1 reads 64 bytes and yields; coroutine 2 reads in place, and compares and swaps twice,
-- where the second post fails.
abbrev asked : Scheduler
asked = yield_coroutine (issue (run_coroutine fresh 1) 1 5 rc (Op.read 4096 0 64)).2 1

abbrev looked : Scheduler
looked = (rdma_read_sync asked 2 6 rc 4160 64 8 true).2

abbrev busy : Scheduler
busy = (issue looked 2 6 rc (Op.cas 4160 64 0 1)).2

abbrev last : Scheduler
last = (issue busy 2 6 full (Op.cas 4160 64 0 1)).2

last-steps : VerbSteps 3 fresh last (2 ∷ 1 ∷ []) []
unfolding rdma_read_op rdma_cas rdma_post
last-steps = VerbSteps.issues busy (2 ∷ 1 ∷ []) [] 2 6 full (Op.cas 4160 64 0 1) (
    VerbSteps.issues looked (1 ∷ []) [] 2 6 rc (Op.cas 4160 64 0 1) (
      VerbSteps.reads asked (1 ∷ []) [] 2 6 rc 4160 64 8 true (
        VerbSteps.yields _ (1 ∷ []) [] 1 (
          VerbSteps.issues (run_coroutine fresh 1) [] [] 1 5 rc (Op.read 4096 0 64)
            (VerbSteps.passes fresh [] [] 1 VerbSteps.begin)))))

abbrev cq : ℕ → List Wc
cq q = if q == 5 then record { status = success; wr_id = 1 } ∷ [] else []

cq-IsFromCoro : IsFromCoro 3 cq
cq-IsFromCoro q = ground arith

last-delivered : Delivered last.pending_qps cq (6 ∷ []) (1 ∷ [])
unfolding new_scheduler loop_link_coroutine link_loop set_next set_prev new_coroutine run_coroutine
    yield_coroutine rdma_post rdma_post_sync add_pending_qp zero_counts poll_qp rdma_read_op
    rdma_cas rdma_read_sync
last-delivered =
    Delivered.next 5 1 (6 ∷ []) (6 ∷ []) [] cq [] refl
      (Delivered.stays 6 [] [] [] _ [] refl (Delivered.none_left _))

last-due : (i : ℕ) → i < 3 → count i ((1 ∷ []) ++ []) ≤ count i (2 ∷ 1 ∷ [])
last-due i lt = ground arith

poll_completion-expected_example :
    (t : Scheduler) × (left : ℕ → List Wc) × (poll_completion last cq ≡ some (t, left))
    × (t.pending_qps ≡ 6 ∷ [])
    × (t.pending_counts 2 + count 2 ((1 ∷ []) ++ []) ≡ count 2 (2 ∷ 1 ∷ []))
poll_completion-expected_example =
    poll_completion-expected memory last 2 2 (2 ∷ 1 ∷ []) [] (6 ∷ []) (1 ∷ []) cq last-steps
      cq-IsFromCoro last-delivered last-due (omega arith)
