-- ===== src/Core/Ring/Moves.antt =====
-- The scheduler's moves on the ring are moves on a list: `Yield` takes a coroutine out of it, and
-- `AppendCoroutine` puts one behind it.
use rdma_yuxi.Prelude.{
  ℕ, ◌<◌, ◌≡◌, ◌≢◌, refl, ap, sym, true, false, not, if◌then◌else◌, List, [], ◌∷◌, ◌++◌, mem, arith,
}
use rdma_yuxi.Core.Scheduler.{Coroutine, Scheduler, set_next, set_prev, append_coroutine}
use rdma_yuxi.Core.Ring.{IsRing}
use rdma_yuxi.Core.Ring.Links.{
  Chain, last_of, mem-append, last_of-append, last_of-mem, IsDistinct-append, Chain-join,
  Chain-relink,
}

module _ (n : ℕ) (s : Scheduler) (r : List ℕ) (c : ℕ) (ring : IsRing n s r) (lt : c < n)
    (out : mem c (s.coro_head ∷ r) ≡ false) (wait : (s.coro_array c).is_wait_poll ≡ true) where
  abbrev h : ℕ
  h = s.coro_head

  abbrev g : ℕ → Coroutine
  g = set_prev (set_next (set_next s.coro_array s.coro_tail c) c h) c s.coro_tail

  abbrev t : Scheduler
  t = record s { coro_tail = c; coro_array = g }

  append_coroutine-waiting : append_coroutine s c ≡ t
  unfolding append_coroutine
  append_coroutine-waiting = ap (λ b. if not b then s else t) wait

  pub head-append : (append_coroutine s c).coro_head ≡ h
  head-append = rw append_coroutine-waiting refl

  pub counts-append : (append_coroutine s c).pending_counts ≡ s.pending_counts
  counts-append = rw append_coroutine-waiting refl

  pub waits-append :
      (x : ℕ) → ((append_coroutine s c).coro_array x).is_wait_poll ≡ (s.coro_array x).is_wait_poll
  unfolding set_next set_prev
  waits-append x = rw append_coroutine-waiting (ground arith)

  next-g :
      (x : ℕ)
      → mem x (h ∷ r) ≡ true
      → x ≢ last_of h r
      → (g x).next_coro ≡ (s.coro_array x).next_coro
  unfolding set_next set_prev
  next-g x m ne = ground (arith, out, ring.tail)

  prev-g : (x : ℕ) → mem x r ≡ true → (g x).prev_coro ≡ (s.coro_array x).prev_coro
  unfolding set_next set_prev
  prev-g x m = ground (arith, out)

  last-g : (g (last_of h r)).next_coro ≡ c
  unfolding set_next set_prev
  last-g = ground (arith, ring.tail, out, last_of-mem h r)

  appended : Chain g h (r ++ (c ∷ [])) h
  unfolding set_next set_prev
  appended =
      Chain-join g h c h r []
        (Chain-relink s.coro_array g h h c r ring.distinct next-g prev-g last-g ring.chain)
        (ground (arith, ring.tail)) (ground arith)

  -- A waiting coroutine outside of the ring is put behind the others.
  pub append_coroutine-IsRing : IsRing n (append_coroutine s c) (r ++ (c ∷ []))
  append_coroutine-IsRing = rw append_coroutine-waiting (record {
    chain = appended;
    tail = sym (last_of-append h c r []);
    distinct =
        IsDistinct-append (h ∷ r) (c ∷ []) ring.distinct (refl, tt) (λ a m. ground (arith, out));
    bounded = λ a m. ground (arith, mem-append a r (c ∷ []), ring.bounded a);
  })
