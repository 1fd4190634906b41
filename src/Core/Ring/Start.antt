-- ===== src/Core/Ring/Start.antt =====
-- `LoopLinkCoroutine` links the coroutines into a ring in the order of their numbers.
use rdma_yuxi.Prelude.{
  ℕ, zero, suc, ◌+◌, ◌-◌, ◌%◌, ◌^◌, ◌≤◌, ◌<◌, ◌≡◌, refl, ap, ◌∙◌, false, leb, ltb, ◌&&◌,
  if◌then◌else◌, ◌∷◌, mem, IsDistinct, range, arith, update,
}
use rdma_yuxi.Core.Scheduler.{
  Coroutine, Scheduler, link_loop, set_next, set_prev, loop_link_coroutine,
}
use rdma_yuxi.Core.Ring.{IsRing}
use rdma_yuxi.Core.Ring.Links.{Chain, last_of}

-- One round of the loop.
abbrev linked : ℕ → (ℕ → Coroutine) → ℕ → Coroutine
linked i f = update f i (record (f i) { prev_coro = (i + 2 ^ 64 - 1) % 2 ^ 64; next_coro = i + 1 })

-- The loop's links, from `i` on for `n` coroutines.
next-link_loop :
    (n i : ℕ) (f : ℕ → Coroutine) (x : ℕ)
    → (link_loop n i f x).next_coro ≡ (if leb i x && ltb x (i + n) then x + 1 else (f x).next_coro)
unfolding link_loop
next-link_loop zero i f x = ground arith
next-link_loop (suc n) i f x = ground (arith, next-link_loop n (i + 1) (linked i f) x)

prev-link_loop :
    (n i : ℕ) (f : ℕ → Coroutine) (x : ℕ)
    → (link_loop n i f x).prev_coro
      ≡ (if leb i x && ltb x (i + n) then (x + 2 ^ 64 - 1) % 2 ^ 64 else (f x).prev_coro)
unfolding link_loop
prev-link_loop zero i f x = ground arith
prev-link_loop (suc n) i f x = ground (arith, prev-link_loop n (i + 1) (linked i f) x)

waits-link_loop :
    (n i : ℕ) (f : ℕ → Coroutine) (x : ℕ) → (link_loop n i f x).is_wait_poll ≡ (f x).is_wait_poll
unfolding link_loop
waits-link_loop zero i f x = refl
waits-link_loop (suc n) i f x = ground (arith, waits-link_loop n (i + 1) (linked i f) x)

mem-range : (n i x : ℕ) → mem x (range i n) ≡ (leb i x && ltb x (i + n))
mem-range zero i x = ground arith
mem-range (suc n) i x = ground (arith, mem-range n (i + 1) x)

range-IsDistinct : (n i : ℕ) → IsDistinct (range i n)
range-IsDistinct zero i = tt
range-IsDistinct (suc n) i = (ground (arith, mem-range n (i + 1) i), range-IsDistinct n (i + 1))

last_of-range : (n i : ℕ) → last_of i (range (i + 1) n) ≡ i + n
last_of-range zero i = omega arith
last_of-range (suc n) i = omega (arith, last_of-range n (i + 1))

-- Links from one index to the next make a run.
Chain-range :
    (f : ℕ → Coroutine) (n i b : ℕ)
    → ((x : ℕ) → i ≤ x → x < i + n → (f x).next_coro ≡ x + 1)
    → ((x : ℕ) → i < x → x ≤ i + n → (f x).prev_coro ≡ x - 1)
    → (f (i + n)).next_coro ≡ b
    → Chain f i (range (i + 1) n) b
Chain-range f zero i b next prev end =
    ground (arith, end, ap (λ k. (f k).next_coro) (let e : i + 0 ≡ i = omega arith in e))
Chain-range f (suc n) i b next prev end = (
  next i (omega arith) (omega arith),
  ground (arith, prev (i + 1) (omega arith) (omega arith)),
  Chain-range f n (i + 1) b (λ x le lt. next x (omega arith) (omega arith))
      (λ x le lt. prev x (omega arith) (omega arith))
      (ap (λ k. (f k).next_coro) (let e : i + 1 + n ≡ i + suc n = omega arith in e) ∙ end),
)

module _ (s : Scheduler) (n : ℕ) (le : n < 2 ^ 64) where
  abbrev t : Scheduler
  t = loop_link_coroutine s (suc n)

  next-t : (x : ℕ) → x < n → (t.coro_array x).next_coro ≡ x + 1
  unfolding loop_link_coroutine set_next set_prev
  next-t x lt = ground (arith, next-link_loop (suc n) 0 s.coro_array x)

  prev-t : (x : ℕ) → 0 < x → x ≤ n → (t.coro_array x).prev_coro ≡ x - 1
  unfolding loop_link_coroutine set_next set_prev
  prev-t x lt h = ground (arith, prev-link_loop (suc n) 0 s.coro_array x)

  end-t : (t.coro_array n).next_coro ≡ 0
  unfolding loop_link_coroutine set_next set_prev
  end-t = ground arith

  pub waits-loop_link : (x : ℕ) → (t.coro_array x).is_wait_poll ≡ (s.coro_array x).is_wait_poll
  unfolding loop_link_coroutine set_next set_prev
  waits-loop_link x = ground (arith, waits-link_loop (suc n) 0 s.coro_array x)

  -- The coroutines are linked into a ring in the order of their numbers, of which there are at most
  -- `2 ^ 64`.
  pub loop_link_coroutine-IsRing : IsRing (suc n) t (range 1 n)
  unfolding loop_link_coroutine
  loop_link_coroutine-IsRing = record {
    chain =
        Chain-range t.coro_array n 0 0 (λ x _ lt. next-t x (omega arith))
          (λ x lt h. prev-t x lt (omega arith))
          (ap (λ k. (t.coro_array k).next_coro) (let e : 0 + n ≡ n = omega arith in e) ∙ end-t);
    tail = ground (arith, last_of-range n 0);
    distinct = range-IsDistinct (suc n) 0;
    bounded = λ c m. ground (arith, mem-range (suc n) 0 c);
  }

  pub mem-loop_link : (c : ℕ) → mem c (t.coro_head ∷ range 1 n) ≡ false → suc n ≤ c
  unfolding loop_link_coroutine
  mem-loop_link c out = ground (arith, mem-range (suc n) 0 c)
