-- ===== src/Core/Scheduler.antt =====
-- The coroutine scheduler: core/scheduler/corotine_scheduler.h and .cc, with the coroutines of
-- core/scheduler/coroutine.h. A pointer to a coroutine is its index in `coro_array`.
use rdma_yuxi.Prelude.{
  ℕ, zero, suc, ◌+◌, ◌-◌, ◌%◌, ◌^◌, Bool, true, false, not, ltb, ◌==◌, if◌then◌else◌, List, [], ◌∷◌,
  ◌++◌, Option, none, some, update,
}

pub record Coroutine : Type 0 where
  pub is_wait_poll : Bool
  pub prev_coro : ℕ
  pub next_coro : ℕ

-- `CoroutineScheduler`; `running` is the coroutine that control was passed to last.
pub record Scheduler : Type 0 where
  pub coro_array : ℕ → Coroutine
  pub coro_head : ℕ
  pub coro_tail : ℕ
  pub pending_qps : List ℕ
  pub pending_counts : ℕ → ℕ
  pub running : ℕ

-- `Coroutine()`, on memory that holds `m`: the links are left as they are.
unfoldable pub new_coroutine : Coroutine → Coroutine
new_coroutine m = record m { is_wait_poll = false }

-- The constructor's loop over the counts from index `i` on.
unfoldable pub zero_counts : ℕ → ℕ → (ℕ → ℕ) → ℕ → ℕ
zero_counts zero i f = f
zero_counts (suc n) i f = zero_counts n (i + 1) (update f i 0)

-- `CoroutineScheduler()`, on memory that holds `m`: the head and the tail are left as they are.
unfoldable pub new_scheduler : Scheduler → ℕ → Scheduler
new_scheduler m coro_num = record m {
  pending_qps = [];
  pending_counts = zero_counts coro_num 0 m.pending_counts;
  coro_array = λ i. new_coroutine (m.coro_array i);
}

-- The status of a work completion, as `PollCompletion` tells them apart, and a completion with the
-- `wr_id` that its request was posted with.
pub data WcStatus : Type 0 where
  success retry_exc_err other_err : WcStatus

pub record Wc : Type 0 where
  pub status : WcStatus
  pub wr_id : ℕ

unfoldable pub add_pending_qp : Scheduler → ℕ → ℕ → Scheduler
add_pending_qp s coro_id qp = record s {
  pending_qps = s.pending_qps ++ (qp ∷ []);
  pending_counts = update s.pending_counts coro_id (s.pending_counts coro_id + 1);
}

-- `RDMABatch`, `RDMAWrite` (both), `RDMARead` and `RDMACAS`, given whether the post succeeds.
unfoldable pub rdma_post : Scheduler → ℕ → ℕ → Bool → Bool × Scheduler
rdma_post s coro_id qp posted = if posted then (true, add_pending_qp s coro_id qp) else (false, s)

-- `RDMABatchSync` and `RDMAReadSync`: the completion is polled for in place.
unfoldable pub rdma_post_sync : Scheduler → Bool → Bool → Bool × Scheduler
rdma_post_sync s posted completed =
    if not posted then (false, s) else if not completed then (false, s) else (true, s)

-- The loop of `LoopLinkCoroutine` from index `i` on; the pointer before the first is address
-- arithmetic on `coro_array`.
unfoldable pub link_loop : ℕ → ℕ → (ℕ → Coroutine) → ℕ → Coroutine
link_loop zero i f = f
link_loop (suc n) i f =
    link_loop n (i + 1)
      (update f i (record (f i) { prev_coro = (i + 2 ^ 64 - 1) % 2 ^ 64; next_coro = i + 1 }))

unfoldable pub set_next : (ℕ → Coroutine) → ℕ → ℕ → ℕ → Coroutine
set_next f a b = update f a (record (f a) { next_coro = b })

unfoldable pub set_prev : (ℕ → Coroutine) → ℕ → ℕ → ℕ → Coroutine
set_prev f a b = update f a (record (f a) { prev_coro = b })

unfoldable pub loop_link_coroutine : Scheduler → ℕ → Scheduler
unfolding link_loop
loop_link_coroutine s coro_num = record s {
  coro_head = 0;
  coro_tail = coro_num - 1;
  coro_array =
      set_next (set_prev (link_loop coro_num 0 s.coro_array) 0 (coro_num - 1)) (coro_num - 1) 0;
}

unfoldable pub run_coroutine : Scheduler → ℕ → Scheduler
run_coroutine s c = record s {
  coro_array = update s.coro_array c (record (s.coro_array c) { is_wait_poll = false });
  running = c;
}

-- The coroutine leaves the list of those that can run, and the next one runs.
unfoldable pub yield_coroutine : Scheduler → ℕ → Scheduler
yield_coroutine s cid =
    if s.pending_counts cid == 0
    then s
    else run_coroutine
        (record s {
          coro_tail = if s.coro_tail == cid then prev else s.coro_tail;
          coro_array = update unlinked cid (record (unlinked cid) { is_wait_poll = true });
        })
        next
  where
    next : ℕ
    next = (s.coro_array cid).next_coro

    prev : ℕ
    prev = (s.coro_array cid).prev_coro

    unlinked : ℕ → Coroutine
    unlinked = set_prev (set_next s.coro_array prev next) next prev

unfoldable pub append_coroutine : Scheduler → ℕ → Scheduler
append_coroutine s c = if not (s.coro_array c).is_wait_poll then s else record s {
  coro_tail = c;
  coro_array =
      set_prev (set_next (set_next s.coro_array s.coro_tail c) c s.coro_head) c s.coro_tail;
}

-- What polling one queue pair comes to.
pub data Polled : Type 0 where
  keep : Polled
  aborted : Polled
  completed : ℕ → Polled

-- One queue pair is polled until it has nothing left, reports an error, or completes a request of a
-- coroutine other than 0.
unfoldable pub poll_qp : List Wc → Polled × List Wc
poll_qp [] = (keep, [])
poll_qp (w ∷ l) =
    let rest = poll_qp l in
    elim w.status [
      | success ↦ if w.wr_id == 0 then rest else (completed w.wr_id, l)
      | retry_exc_err ↦ (keep, l)
      | other_err ↦ (aborted, l)
    ]

-- A completed request is taken off its coroutine's count, and with the last one the coroutine can
-- run again.
unfoldable pub count_completion : Scheduler → ℕ → Scheduler
count_completion s c = if counted.pending_counts c == 0 then append_coroutine counted c else counted
  where
    counted : Scheduler
    counted = record s { pending_counts = update s.pending_counts c (s.pending_counts c - 1) }

-- The loop over the pending queue pairs `qs`, with `kept` those that stay, and the completion queue
-- of each queue pair; none if the program aborts or a completion is not expected.
unfoldable pub poll_loop :
    List ℕ → List ℕ → Scheduler → (ℕ → List Wc) → Option (Scheduler × (ℕ → List Wc))
poll_loop [] kept s cq = some (record s { pending_qps = kept }, cq)
poll_loop (q ∷ qs) kept s cq = elim (poll_qp (cq q)).0 [
  | keep ↦ poll_loop qs (kept ++ (q ∷ [])) s (update cq q (poll_qp (cq q)).1)
  | aborted ↦ none
  | completed c ↦ elim (ltb 0 (s.pending_counts c)) [
    | true ↦ poll_loop qs kept (count_completion s c) (update cq q (poll_qp (cq q)).1)
    | false ↦ none
  ]
]

unfoldable pub poll_completion : Scheduler → (ℕ → List Wc) → Option (Scheduler × (ℕ → List Wc))
poll_completion s cq = poll_loop s.pending_qps [] s cq
