-- ===== src/Core/Ring/Awaited.antt =====
-- Which coroutines wait, through the operations of the scheduler.
use rdma_yuxi.Prelude.{
  ℕ, ◌-◌, ◌<◌, ◌≡◌, ◌≢◌, ◌⊎◌, refl, ap, ◌∙◌, true, false, not, ◌==◌, if◌then◌else◌, List, [], ◌∷◌,
  ◌++◌, append-nil, mem, arith, update, inl, inr, Bool-cases,
}
use native.Mathlib.Decide.{ℕ_discrete}
use rdma_yuxi.Core.Scheduler.{
  Scheduler, add_pending_qp, set_next, set_prev, append_coroutine, count_completion,
}
use rdma_yuxi.Core.Ring.{IsRing, IsAwaited, IsScheduled}
use rdma_yuxi.Core.Ring.Links.{mem-append}
use rdma_yuxi.Core.Ring.Moves.{head-append, counts-append, waits-append, append_coroutine-IsRing}

-- The ring after a change that spares its links.
pub same-IsRing :
    (n : ℕ) (s t : Scheduler) (r : List ℕ)
    → t.coro_array ≡ s.coro_array
    → t.coro_head ≡ s.coro_head
    → t.coro_tail ≡ s.coro_tail
    → IsRing n s r
    → IsRing n t r
same-IsRing n s t r a h l v = record {
  chain = rw (a, h) v.chain;
  tail = rw (h, l) v.tail;
  distinct = rw h v.distinct;
  bounded = rw h v.bounded;
}

module _ (n : ℕ) (s : Scheduler) (r : List ℕ) (c : ℕ) (v : IsScheduled n s r) where
  -- A post is for a coroutine that does not wait.
  pub add_pending_qp-IsScheduled :
      (qp : ℕ) → (s.coro_array c).is_wait_poll ≡ false → IsScheduled n (add_pending_qp s c qp) r
  unfolding add_pending_qp
  add_pending_qp-IsScheduled qp awake = record {
    ring = same-IsRing n s (add_pending_qp s c qp) r refl refl refl v.ring;
    awaited = record {
      outside = v.awaited.outside;
      pending = λ x lt m. ground (arith, v.awaited.pending x lt m);
      woken = λ x m w. ground (arith, v.awaited.woken x m w, awake);
    };
  }

  abbrev counted : Scheduler
  counted = record s { pending_counts = update s.pending_counts c (s.pending_counts c - 1) }

  counted-IsRing : IsRing n counted r
  counted-IsRing = same-IsRing n s counted r refl refl refl v.ring

  -- A waiting coroutine is outside of the ring as long as requests are pending.
  waiting-out :
      0 < s.pending_counts c
      → (s.coro_array c).is_wait_poll ≡ true
      → mem c (s.coro_head ∷ r) ≡ false
  waiting-out pos wait = elim (Bool-cases (mem c (s.coro_head ∷ r))) [
    | inl m ↦ absurd (omega (arith, v.awaited.woken c m wait))
    | inr out ↦ out
  ]

  count_completion-last : s.pending_counts c ≡ 1 → count_completion s c ≡ append_coroutine counted c
  unfolding count_completion
  count_completion-last one =
      ap (λ b. if b then append_coroutine counted c else counted)
        (let e : counted.pending_counts c == 0 ≡ true = ground arith in e)

  count_completion-other :
      s.pending_counts c ≢ 1 → 0 < s.pending_counts c → count_completion s c ≡ counted
  unfolding count_completion
  count_completion-other more pos =
      ap (λ b. if b then append_coroutine counted c else counted)
        (let e : counted.pending_counts c == 0 ≡ false = ground (arith, more) in e)

  -- The last completion of a waiting coroutine puts it back.
  module _ (lt : c < n) (one : s.pending_counts c ≡ 1)
      (wait : (s.coro_array c).is_wait_poll ≡ true) where
    out : mem c (s.coro_head ∷ r) ≡ false
    out = waiting-out (omega arith) wait

    appended-IsAwaited : IsAwaited n (append_coroutine counted c) (r ++ (c ∷ []))
    appended-IsAwaited = record {
      outside = λ x le m. ground (
        arith,
        waits-append n counted r c counted-IsRing lt out wait x,
        head-append n counted r c counted-IsRing lt out wait,
        mem-append x r (c ∷ []),
        v.awaited.outside x le,
      );
      pending = λ x le m. ground (
        arith,
        ap (λ f. f x) (counts-append n counted r c counted-IsRing lt out wait),
        head-append n counted r c counted-IsRing lt out wait,
        mem-append x r (c ∷ []),
        v.awaited.pending x le,
      );
      woken = λ x m w. ground (
        arith,
        ap (λ f. f x) (counts-append n counted r c counted-IsRing lt out wait),
        waits-append n counted r c counted-IsRing lt out wait x,
        head-append n counted r c counted-IsRing lt out wait,
        mem-append x r (c ∷ []),
        v.awaited.woken x,
      );
    }

    last_completion : IsScheduled n (count_completion s c) (r ++ (c ∷ []))
    last_completion = rw (count_completion-last one) (record {
      ring = append_coroutine-IsRing n counted r c counted-IsRing lt out wait;
      awaited = appended-IsAwaited;
    })

  -- Any other completion is only counted.
  counted-IsAwaited :
      0 < s.pending_counts c
      → ((s.pending_counts c ≢ 1) ⊎ ((s.coro_array c).is_wait_poll ≡ false))
      → IsAwaited n counted r
  counted-IsAwaited pos other = record {
    outside = v.awaited.outside;
    pending = λ x lt m. ground (arith, v.awaited.pending x lt m, v.awaited.outside x lt m, other);
    woken = λ x m w. ground (arith, v.awaited.woken x m w);
  }

  more_completions :
      s.pending_counts c ≢ 1 → 0 < s.pending_counts c → IsScheduled n (count_completion s c) r
  more_completions more pos =
      rw (count_completion-other more pos)
        (record { ring = counted-IsRing; awaited = counted-IsAwaited pos (inl more) })

  -- A coroutine that does not wait stays where it is.
  awake_completion :
      s.pending_counts c ≡ 1
      → (s.coro_array c).is_wait_poll ≡ false
      → IsScheduled n (count_completion s c) r
  unfolding append_coroutine
  awake_completion one awake =
      rw (count_completion-last one ∙ ap (λ b. if not b then counted else appended) awake)
        (record { ring = counted-IsRing; awaited = counted-IsAwaited (omega arith) (inr awake) })
    where
      appended : Scheduler
      appended = record counted {
        coro_tail = c;
        coro_array =
            set_prev (set_next (set_next s.coro_array s.coro_tail c) c s.coro_head) c s.coro_tail;
      }

  -- A completion leaves the ring as it was, or puts its coroutine behind the others.
  pub count_completion-IsScheduled :
      c < n → 0 < s.pending_counts c → (w : List ℕ) × IsScheduled n (count_completion s c) (r ++ w)
  count_completion-IsScheduled lt pos = elim (ℕ_discrete (s.pending_counts c) 1) [
    | yes one ↦ elim (Bool-cases (s.coro_array c).is_wait_poll) [
      | inl wait ↦ (c ∷ [], last_completion lt one wait)
      | inr awake ↦ ([], rw append-nil (awake_completion one awake))
    ]
    | no more ↦ ([], rw append-nil (more_completions more pos))
  ]
