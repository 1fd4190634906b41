-- ===== src/Core/Ring.antt =====
-- The ring of coroutines that can run, as core/scheduler/corotine_scheduler.h links it, and the list
-- that it stands for.
pub mod Links
pub mod Moves
pub mod Yield
pub mod Start
pub mod Awaited
pub mod Polled
pub mod Steps
pub mod Turns
pub mod Fair
pub mod Wakes
mod Tests
use rdma_yuxi.Prelude.{ℕ, ◌<◌, ◌≡◌, true, false, List, ◌∷◌, mem, IsDistinct}
use rdma_yuxi.Core.Scheduler.{Scheduler}
use rdma_yuxi.Core.Ring.Links.{Chain, last_of}

-- The head and the coroutines `r` behind it, in the order in which they are to run, of `n`
-- coroutines. The link from the head back to the tail is left open.
pub record IsRing (n : ℕ) (s : Scheduler) (r : List ℕ) : Type 0 where
  pub chain : Chain s.coro_array s.coro_head r s.coro_head
  pub tail : s.coro_tail ≡ last_of s.coro_head r
  pub distinct : IsDistinct (s.coro_head ∷ r)
  pub bounded : (c : ℕ) → mem c (s.coro_head ∷ r) ≡ true → c < n

-- A coroutine outside of the ring waits for requests that are pending; one in the ring that is still
-- marked as waiting has none left, and so was put back by a poll.
pub record IsAwaited (n : ℕ) (s : Scheduler) (r : List ℕ) : Type 0 where
  pub outside :
      (c : ℕ) → c < n → mem c (s.coro_head ∷ r) ≡ false → (s.coro_array c).is_wait_poll ≡ true
  pub pending : (c : ℕ) → c < n → mem c (s.coro_head ∷ r) ≡ false → 0 < s.pending_counts c
  pub woken :
      (c : ℕ)
      → mem c (s.coro_head ∷ r) ≡ true
      → (s.coro_array c).is_wait_poll ≡ true
      → s.pending_counts c ≡ 0

pub record IsScheduled (n : ℕ) (s : Scheduler) (r : List ℕ) : Type 0 where
  pub ring : IsRing n s r
  pub awaited : IsAwaited n s r
