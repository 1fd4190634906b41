-- ===== src/Alloc/Full.antt =====
-- Allocation while memory is left: the search, the splitting down and the reservation find a buffer.
use rdma_yuxi.Prelude.{
  ℕ, zero, suc, ◌+◌, ◌-◌, ◌*◌, ◌/◌, ◌≤◌, ◌<◌, ◌≡◌, refl, ap, sym, ◌∙◌, arith, true, false, List, [],
  ◌∷◌, Option, none, some, inl, inr, Bool-cases, All,
}
use mathlib.Core.Bool.{true≢false}
use native.Mathlib.Decide.{ℕ_discrete}
use rdma_yuxi.Alloc.Huge.{
  new_huge_alloc, Buffer, HugeAlloc, class_max_size, num_classes, largest_class_size, get_class,
  split_last, alloc_last, split, alloc_from_class, push_buffers, reserve_hugepages, is_empty,
  next_class, split_down, after_reserve, alloc_larger, alloc_buf,
}
use rdma_yuxi.Alloc.Cover.{IsSized, split_down-IsSized, reserve-IsSized, next_class-bounds}

-- A class with free buffers.
abbrev HasFree : HugeAlloc → ℕ → Type 0
HasFree h i = is_empty (h.freelist i) ≡ false

split_last-HasFree :
    (h : HugeAlloc) (i : ℕ) (l : List Buffer) → is_empty l ≡ false → HasFree (split_last h i l) i
unfolding split_last
split_last-HasFree h i [] e = absurd (true≢false e)
split_last-HasFree h i (b ∷ l) e = ground arith

-- Splitting down from a class with free buffers leaves some in the class aimed at.
split_down-HasFree :
    (n : ℕ) (h : HugeAlloc) (i k : ℕ) → k ≡ i + n → HasFree h k → HasFree (split_down n h i) i
unfolding split_down split
split_down-HasFree zero h i k e f = ap (λ k. is_empty (h.freelist k)) (omega (arith, e)) ∙ f
split_down-HasFree (suc n) h i k e f = split_down-HasFree n (split h (i + n)) i (i + n) refl (
    split_last-HasFree h (i + n) (h.freelist (i + n + 1))
      (ap (λ k. is_empty (h.freelist k)) (omega (arith, e)) ∙ f))

-- The class that the search finds has free buffers, and it finds one if there is one.
next_class-HasFree : (h : HugeAlloc) (n i j : ℕ) → next_class h n i ≡ some j → HasFree h j
unfolding next_class
next_class-HasFree h zero i j e = ground (arith, e)
next_class-HasFree h (suc n) i j e = ground (arith, e, next_class-HasFree h n (i + 1) j)

next_class-none :
    (h : HugeAlloc) (n i j : ℕ)
    → next_class h n i ≡ none
    → i ≤ j
    → j < i + n
    → is_empty (h.freelist j) ≡ true
unfolding next_class
next_class-none h zero i j e le lt = absurd (omega arith)
next_class-none h (suc n) i j e le lt = elim (Bool-cases (is_empty (h.freelist i))) [
  | inl f ↦ elim (ℕ_discrete i j) [
    | yes same ↦ ap (λ k. is_empty (h.freelist k)) (sym same) ∙ f
    | no other ↦
        next_class-none h n (i + 1) j (ground (arith, e, f)) (ground (arith, other, le))
          (omega (arith, lt))
  ]
  | inr f ↦ ground (arith, e, f)
]

from_full :
    (g : HugeAlloc) (i : ℕ) (l : List Buffer)
    → All (λ z. z.class_size ≡ class_max_size i) l
    → is_empty l ≡ false
    → (alloc_last g i l).0.class_size ≡ class_max_size i
unfolding alloc_last
from_full g i [] v e = absurd (true≢false e)
from_full g i (b ∷ l) v e = v.0

push_buffers-full :
    (n i base lkey : ℕ) (l : List Buffer)
    → is_empty l ≡ false
    → is_empty (push_buffers n i base lkey l) ≡ false
unfolding push_buffers
push_buffers-full zero i base lkey l e = e
push_buffers-full (suc n) i base lkey l e = push_buffers-full n (i + 1) base lkey _ refl

push_buffers-some :
    (n i base lkey : ℕ) (l : List Buffer) → 1 ≤ n → is_empty (push_buffers n i base lkey l) ≡ false
unfolding push_buffers
push_buffers-some zero i base lkey l h = absurd (omega arith)
push_buffers-some (suc n) i base lkey l h = push_buffers-full n (i + 1) base lkey _ refl

class-full :
    (g : HugeAlloc) (i : ℕ)
    → IsSized g
    → HasFree g i
    → (alloc_from_class g i).0.class_size ≡ class_max_size i
unfolding alloc_from_class
class-full g i v e = from_full g i (g.freelist i) (v i) e

-- The region that the system gives is added to the largest class.
reserve-HasFree :
    (h : HugeAlloc) (size base lkey : ℕ)
    → largest_class_size ≤ size
    → HasFree (reserve_hugepages h size (some (base, lkey))).1 (num_classes - 1)
unfolding reserve_hugepages
reserve-HasFree h size base lkey le =
    push_buffers-some (size / largest_class_size) 0 base lkey (h.freelist (num_classes - 1))
      (omega (arith, le))

-- The memory that an allocation of class `i` can use: a free buffer of this class or a larger one, or
-- a region from the system that holds a buffer of the largest class.
pub data HasMemory (h : HugeAlloc) (i : ℕ) (region : Option (ℕ × ℕ)) : Type 0 where
  in_class : (j : ℕ) → i ≤ j → j < num_classes → HasFree h j → HasMemory h i region
  from_system :
      (base lkey : ℕ)
      → region ≡ some (base, lkey)
      → largest_class_size ≤ h.prev_allocation_size * 2
      → HasMemory h i region

-- A new allocator has memory for every class as soon as the system gives a region.
pub new_huge_alloc-HasMemory :
    (initial_size i base lkey : ℕ) → HasMemory (new_huge_alloc initial_size) i (some (base, lkey))
unfolding new_huge_alloc
new_huge_alloc-HasMemory initial_size i base lkey = from_system base lkey refl (ground arith)

pub new_huge_alloc-IsSized : (initial_size : ℕ) → IsSized (new_huge_alloc initial_size)
unfolding new_huge_alloc
new_huge_alloc-IsSized initial_size i = tt

module _ (h : HugeAlloc) (i : ℕ) (lt : i < num_classes) (v : IsSized h) where
  reserved-full :
      (base lkey : ℕ)
      → largest_class_size ≤ h.prev_allocation_size * 2
      → (alloc_larger h i (some (base, lkey)) none).0.class_size ≡ class_max_size i
  unfolding alloc_larger after_reserve reserve_hugepages
  reserved-full base lkey le =
      class-full (split_down (num_classes - 1 - i) g i) i
        (split_down-IsSized (num_classes - 1 - i) g i
          (reserve-IsSized wider (h.prev_allocation_size * 2) (some (base, lkey)) v))
        (split_down-HasFree (num_classes - 1 - i) g i (num_classes - 1) (omega (arith, lt))
          (reserve-HasFree wider (h.prev_allocation_size * 2) base lkey le))
    where
      wider : HugeAlloc
      wider = record h { prev_allocation_size = h.prev_allocation_size * 2 }

      g : HugeAlloc
      g = (reserve_hugepages wider (h.prev_allocation_size * 2) (some (base, lkey))).1

  alloc_larger-full :
      (region : Option (ℕ × ℕ)) (o : Option ℕ)
      → is_empty (h.freelist i) ≡ true
      → HasMemory h i region
      → next_class h (num_classes - (i + 1)) (i + 1) ≡ o
      → (alloc_larger h i region o).0.class_size ≡ class_max_size i
  unfolding alloc_larger
  alloc_larger-full region (some j) out m e =
      class-full (split_down (j - i) h i) i (split_down-IsSized (j - i) h i v) (
        split_down-HasFree (j - i) h i j
          (omega (arith, next_class-bounds h (num_classes - (i + 1)) (i + 1) j e))
          (next_class-HasFree h (num_classes - (i + 1)) (i + 1) j e))
  alloc_larger-full region none out (in_class j le top f) e = elim (ℕ_discrete i j) [
    | yes same ↦ absurd (true≢false (sym out ∙ ap (λ k. is_empty (h.freelist k)) same ∙ f))
    | no other ↦ absurd (
        true≢false (
          sym (
            next_class-none h (num_classes - (i + 1)) (i + 1) j e (ground (arith, other, le))
              (omega (arith, lt, top)))
          ∙ f))
  ]
  alloc_larger-full region none out (from_system base lkey same le) e =
      ap (λ region. (alloc_larger h i region none).0.class_size) same ∙ reserved-full base lkey le

-- An allocation succeeds as long as there is memory for it: with a free buffer of its class or of a
-- larger one, or with a region from the system that holds a buffer of the largest class, the buffer
-- has the size of the class.
pub alloc_buf-HasMemory :
    (undef : ℕ) (h : HugeAlloc) (size : ℕ) (region : Option (ℕ × ℕ))
    → get_class undef size < num_classes
    → IsSized h
    → HasMemory h (get_class undef size) region
    → (alloc_buf undef h size region).0.class_size ≡ class_max_size (get_class undef size)
unfolding alloc_buf
alloc_buf-HasMemory undef h size region lt v m =
    elim (Bool-cases (is_empty (h.freelist (get_class undef size)))) [
      | inl e ↦ rw e (alloc_larger-full h (get_class undef size) lt v region _ e m refl)
      | inr e ↦ rw e (class-full h (get_class undef size) v e)
    ]
