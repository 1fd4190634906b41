-- ===== src/Core/Ring/Yield.antt =====
-- `Yield` takes the coroutine out of the ring, wherever it stands behind the head.
use rdma_yuxi.Prelude.{
  inl, inr, Bool-cases, ℕ, ◌≡◌, refl, ap, ◌∙◌, subst, true, false, ◌==◌, if◌then◌else◌, List, [],
  ◌∷◌, ◌++◌, append-nil, mem, IsDistinct, arith,
}
use mathlib.Core.Bool.{true≢false}
use rdma_yuxi.Core.Scheduler.{
  Coroutine, Scheduler, set_next, set_prev, run_coroutine, yield_coroutine,
}
use rdma_yuxi.Core.Ring.{IsRing}
use rdma_yuxi.Core.Ring.Links.{
  Chain, last_of, mem-append, last_of-append, last_of-mem, IsDistinct-left, IsDistinct-right,
  IsDistinct-apart, IsDistinct-append, Chain-split, Chain-join, Chain-relink, Chain-frame,
}

-- The coroutine that runs after those of a list, where `h` is the head.
abbrev pub first_of : List ℕ → ℕ → ℕ
first_of [] h = h
first_of (c ∷ l) h = c

pub first_of-next :
    (f : ℕ → Coroutine) (c h : ℕ) (l : List ℕ) → Chain f c l h → (f c).next_coro ≡ first_of l h
first_of-next f c h [] e = e
first_of-next f c h (d ∷ l) e = e.0

module _ (s : Scheduler) (c : ℕ) (pending : s.pending_counts c == 0 ≡ false) where
  abbrev f : ℕ → Coroutine
  f = s.coro_array

  abbrev next : ℕ
  next = (f c).next_coro

  abbrev prev : ℕ
  prev = (f c).prev_coro

  abbrev t : Scheduler
  t = yield_coroutine s c

  pub head-yield : t.coro_head ≡ s.coro_head
  unfolding yield_coroutine run_coroutine
  head-yield = rw pending refl

  tail-yield : t.coro_tail ≡ (if s.coro_tail == c then prev else s.coro_tail)
  unfolding yield_coroutine run_coroutine
  tail-yield = rw pending refl

  pub counts-yield : t.pending_counts ≡ s.pending_counts
  unfolding yield_coroutine run_coroutine
  counts-yield = rw pending refl

  pub running-yield : t.running ≡ next
  unfolding yield_coroutine run_coroutine
  running-yield = rw pending refl

  next-yield : (x : ℕ) → (t.coro_array x).next_coro ≡ (if prev == x then next else (f x).next_coro)
  unfolding yield_coroutine run_coroutine set_next set_prev
  next-yield x = ground (arith, pending)

  prev-yield : (x : ℕ) → (t.coro_array x).prev_coro ≡ (if next == x then prev else (f x).prev_coro)
  unfolding yield_coroutine run_coroutine set_next set_prev
  prev-yield x = ground (arith, pending)

  pub waits-yield :
      (x : ℕ)
      → (t.coro_array x).is_wait_poll
        ≡ (if next == x then false else if c == x then true else (f x).is_wait_poll)
  unfolding yield_coroutine run_coroutine set_next set_prev
  waits-yield x = ground (arith, pending)

  -- The parts of the ring before and after the coroutine.
  module _ (n : ℕ) (xs ys : List ℕ) (ring : IsRing n s (xs ++ (c ∷ ys))) where
    abbrev h : ℕ
    h = s.coro_head

    parts : Chain f h xs c × (prev ≡ last_of h xs) × Chain f c ys h
    parts = Chain-split f h c h xs ys ring.chain

    next_is : next ≡ first_of ys h
    next_is = first_of-next f c h ys parts.2

    d : IsDistinct ((h ∷ xs) ++ (c ∷ ys))
    d = ring.distinct

    left : IsDistinct (h ∷ xs)
    left = IsDistinct-left (h ∷ xs) (c ∷ ys) d

    right : IsDistinct (c ∷ ys)
    right = IsDistinct-right (h ∷ xs) (c ∷ ys) d

    apart : (a : ℕ) → mem a (h ∷ xs) ≡ true → mem a (c ∷ ys) ≡ false
    apart a m = IsDistinct-apart a (h ∷ xs) (c ∷ ys) d m

    -- The next coroutine is the head, or behind.
    next-mem : (a : ℕ) → a ≡ next → mem a xs ≡ false
    next-mem a e = by_rest ys refl
      where
        by_rest : (l : List ℕ) → ys ≡ l → mem a xs ≡ false
        by_rest [] same = ground (arith, left, next_is, e, ap (λ l. first_of l h) same)
        by_rest (b ∷ l) same = elim (Bool-cases (mem a xs)) [
          | inl m ↦ absurd (
              true≢false (
                ground (
                  arith,
                  apart a (ground (arith, m)),
                  next_is,
                  e,
                  ap (λ l. first_of l h) same,
                  ap (mem a) same,
                )))
          | inr out ↦ out
        ]

    front : Chain t.coro_array h xs next
    front =
        Chain-relink f t.coro_array h c next xs left
          (λ x m ne. ground (arith, next-yield x, parts.1))
          (λ x m. ground (arith, prev-yield x, next-mem x))
          (ground (arith, next-yield (last_of h xs), parts.1)) parts.0

    -- The part behind: its first coroutine is now linked to the part before.
    back : (b : ℕ) (l : List ℕ) → ys ≡ b ∷ l → Chain t.coro_array b l h
    back b l same =
        Chain-frame f t.coro_array b h l
          (λ x m. ground (
            arith,
            next-yield x,
            parts.1,
            apart prev,
            last_of-mem h xs,
            ap (mem prev) same,
            ap (mem x) same,
          ))
          (λ x m. ground (
            arith,
            prev-yield x,
            next_is,
            ap (λ k. first_of k h) same,
            subst (λ k. IsDistinct (c ∷ k)) same right,
          ))
          (subst (λ k. Chain f c k h) same parts.2).2

    joined : (l : List ℕ) → ys ≡ l → Chain t.coro_array h (xs ++ l) h
    joined [] same =
        rw append-nil
          (subst (Chain t.coro_array h xs) (next_is ∙ ap (λ l. first_of l h) same) front)
    joined (b ∷ l) same =
        Chain-join t.coro_array h b h xs l
          (subst (Chain t.coro_array h xs) (next_is ∙ ap (λ l. first_of l h) same) front)
          (ground (arith, prev-yield b, parts.1, next_is, ap (λ k. first_of k h) same))
          (back b l same)

    last_is : (l : List ℕ) → ys ≡ l → t.coro_tail ≡ last_of h (xs ++ l)
    last_is [] same = rw append-nil (
        ground
          (arith, tail-yield, ring.tail, last_of-append h c xs ys, ap (last_of c) same, parts.1))
    last_is (b ∷ l) same = ground (
      arith,
      tail-yield,
      ring.tail,
      last_of-append h c xs ys,
      ap (last_of c) same,
      last_of-append h b xs l,
      last_of-mem b l,
      subst (λ k. IsDistinct (c ∷ k)) same right,
    )

    -- A coroutine behind the head that yields with requests pending leaves the ring; the others keep
    -- their order.
    pub yield_coroutine-IsRing : IsRing n t (xs ++ ys)
    yield_coroutine-IsRing = record {
      chain = rw head-yield (joined ys refl);
      tail = rw head-yield (last_is ys refl);
      distinct =
          rw head-yield
            (IsDistinct-append (h ∷ xs) ys left right.1 (λ a m. ground (arith, apart a m)));
      bounded =
          rw head-yield
            (λ a m. ground (arith, ring.bounded a, mem-append a xs (c ∷ ys), mem-append a xs ys));
    }

    first-mem : (l : List ℕ) → mem (first_of l h) (h ∷ l) ≡ true
    first-mem [] = ground arith
    first-mem (b ∷ l) = ground arith

    pub next_in : mem next (h ∷ (xs ++ ys)) ≡ true
    next_in = ground (arith, next_is, first-mem ys, mem-append next xs ys)

    pub self_out : mem c (h ∷ (xs ++ ys)) ≡ false
    self_out = ground (arith, right, mem-append c xs ys, apart c)
