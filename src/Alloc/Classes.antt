-- ===== src/Alloc/Classes.antt =====
-- The fast and the slow computation of a size's class agree.
use rdma_yuxi.Prelude.{
  ℕ, zero, suc, ◌+◌, ◌-◌, ◌*◌, ◌/◌, ◌%◌, ◌^◌, ◌≤◌, ◌<◌, ◌≡◌, ap, sym, ◌∙◌, refl, arith, ◌==◌,
  if◌then◌else◌,
}
use native.Mathlib.Nat.{div-add-mod', mod-lt, div-div-eq-div-mul, mul-le-mul_right, two-pow-succ}
use native.Mathlib.Decide.{dec_lt}
use rdma_yuxi.Alloc.Huge.{
  bit_scan_reverse, msb_index, get_class, class_loop, get_class_slow, largest_class_size,
  min_class_size, num_classes, class_max_size,
}

-- The number of bits of `x`, with `n` at most.
abbrev bits : ℕ → ℕ → ℕ
bits zero x = 0
bits (suc n) x = let rest = bits n (x / 2) in if x == 0 then 0 else rest + 1

bits-zero : (n : ℕ) → bits n 0 ≡ 0
bits-zero zero = refl
bits-zero (suc n) = ground arith

-- A quotient is 0 just when the divisor is larger.
quot_zero : (x m : ℕ) → 0 < m → x < m → x / m ≡ 0
quot_zero x m h lt = elim (dec_lt 0 (x / m)) [
  | yes p ↦
      absurd (omega (arith, div-add-mod' x m, mul-le-mul_right {m = 1} {n = x / m} m (omega arith)))
  | no p ↦ omega arith
]

quot_pos : (x m : ℕ) → 0 < m → m ≤ x → 1 ≤ x / m
quot_pos x m h le = elim (dec_lt 0 (x / m)) [
  | yes p ↦ omega arith
  | no p ↦
      let e : x / m ≡ 0 = omega arith in
      absurd (omega (arith, div-add-mod' x m, ap (λ q. q * m) e, mod-lt x h))
]

-- The slow loop counts the bits of the number of smallest buffers before the last.
class_loop-bits :
    (n size c lim : ℕ)
    → 0 < lim
    → 0 < size
    → class_loop n size c lim ≡ c + bits n ((size - 1) / lim)
unfolding class_loop
class_loop-bits zero size c lim h k = omega arith
class_loop-bits (suc n) size c lim h k = ground (
  arith,
  class_loop-bits n size (c + 1) (lim * 2) (omega arith) k,
  div-div-eq-div-mul (size - 1) lim 2,
  quot_zero (size - 1) lim h,
  quot_pos (size - 1) lim h,
)

-- On a number that is not 0 the instruction counts one bit fewer.
bit_scan_reverse-bits :
    (undef n x : ℕ) → 1 ≤ x → x < 2 ^ n → bit_scan_reverse undef n x + 1 ≡ bits n x
unfolding bit_scan_reverse
bit_scan_reverse-bits undef zero x h lt = absurd (omega arith)
bit_scan_reverse-bits undef (suc n) x h lt =
    ground (arith, bit_scan_reverse-bits undef n (x / 2), bits-zero n, two-pow-succ n)

-- Shifted by one, it counts them all; of 0 it is not defined.
bit_scan_reverse-double :
    (undef n x : ℕ) → 1 ≤ x → x < 2 ^ n → bit_scan_reverse undef (suc n) (x * 2) ≡ bits n x
unfolding bit_scan_reverse
bit_scan_reverse-double undef n x h lt =
    let e : x * 2 / 2 ≡ x = omega arith in
    ground (arith, bit_scan_reverse-bits undef n x h lt, ap (bit_scan_reverse undef n) e)

bit_scan_reverse-zero : (undef n : ℕ) → bit_scan_reverse undef n 0 ≡ undef
unfolding bit_scan_reverse
bit_scan_reverse-zero undef zero = refl
bit_scan_reverse-zero undef (suc n) = refl

-- Any room that is enough gives the same bits.
bits-enough : (m n x : ℕ) → x < 2 ^ m → x < 2 ^ n → bits m x ≡ bits n x
bits-enough zero n x h k =
    ground (arith, bits-zero n, ap (bits n) (let e : x ≡ 0 = omega (arith, h) in e))
bits-enough (suc m) zero x h k =
    ground (arith, bits-zero (suc m), ap (bits (suc m)) (let e : x ≡ 0 = omega (arith, k) in e))
bits-enough (suc m) (suc n) x h k =
    ground (arith, bits-enough m n (x / 2), two-pow-succ m, two-pow-succ n)

get_class_slow-bits : (size : ℕ) → 1 ≤ size → get_class_slow size ≡ bits 18 ((size - 1) / 64)
unfolding get_class_slow
get_class_slow-bits size h = omega (arith, class_loop-bits 18 size 0 64 (omega arith) h)

-- The class that a size has by the highest bit is the class that the reference function searches
-- for, on every size that is allowed; for sizes of the smallest class, if the instruction leaves 0
-- behind for 0.
pub get_class-get_class_slow :
    (undef size : ℕ)
    → 1 ≤ size
    → size ≤ largest_class_size
    → (size ≤ min_class_size → undef ≡ 0)
    → get_class undef size ≡ get_class_slow size
unfolding get_class msb_index
get_class-get_class_slow undef size h le small = elim (dec_lt 0 ((size - 1) / 64)) [
  | yes p ↦
      ap (bit_scan_reverse undef 32)
        (let e : (size - 1) / 64 * 2 % 2 ^ 32 ≡ (size - 1) / 64 * 2 = omega arith in e)
      ∙ bit_scan_reverse-double undef 31 ((size - 1) / 64) p (omega arith)
      ∙ bits-enough 31 18 ((size - 1) / 64) (omega arith) (omega arith)
      ∙ sym (get_class_slow-bits size h)
  | no p ↦
      let z : (size - 1) / 64 ≡ 0 = omega arith in
      ap (λ y. bit_scan_reverse undef 32 (y * 2 % 2 ^ 32)) z
      ∙ bit_scan_reverse-zero undef 32
      ∙ small (omega arith)
      ∙ sym (bits-zero 18)
      ∙ ap (bits 18) (sym z)
      ∙ sym (get_class_slow-bits size h)
]

bits-fit : (n x : ℕ) → x < 2 ^ n → x < 2 ^ bits n x
bits-fit zero x h = h
bits-fit (suc n) x h =
    ground (arith, bits-fit n (x / 2), two-pow-succ n, two-pow-succ (bits n (x / 2)))

bits-at_most : (n x : ℕ) → bits n x ≤ n
bits-at_most zero x = omega arith
bits-at_most (suc n) x = ground (arith, bits-at_most n (x / 2))

-- A size's class is one of the classes, and holds it.
pub get_class-fits :
    (undef size : ℕ)
    → 1 ≤ size
    → size ≤ largest_class_size
    → (size ≤ min_class_size → undef ≡ 0)
    → (get_class undef size < num_classes) × (size ≤ class_max_size (get_class undef size))
unfolding class_max_size
get_class-fits undef size h le small =
    let x = (size - 1) / 64 in
    let e : get_class undef size ≡ bits 17 x =
      get_class-get_class_slow undef size h le small
      ∙ get_class_slow-bits size h
      ∙ bits-enough 18 17 x (omega arith) (omega arith) in
    (
      omega (arith, e, bits-at_most 17 x),
      omega (arith, ap (λ c. 64 * 2 ^ c) e, bits-fit 17 x (omega arith)),
    )
