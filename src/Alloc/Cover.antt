-- ===== src/Alloc/Cover.antt =====
-- No address is in two buffers: what the allocator gives out it takes off the free buffers.
pub mod Give
use rdma_yuxi.Prelude.{
  ℕ, zero, suc, ◌+◌, ◌-◌, ◌*◌, ◌/◌, ◌%◌, ◌^◌, ◌≤◌, ◌<◌, ◌≡◌, ◌≢◌, ◌⊎◌, refl, ap, sym, ◌∙◌, arith,
  Bool, true, false, ltb, leb, ◌==◌, ◌&&◌, if◌then◌else◌, List, [], ◌∷◌, Option, none, some, inl,
  inr, Bool-cases, Option-cases, All, subst, update, sum_below, sum_below_change,
}
use native.Mathlib.Nat.{two-pow-succ}
use native.Mathlib.Decide.{ℕ_discrete}
use rdma_yuxi.Alloc.Huge.{
  Buffer, HugeAlloc, class_max_size, halves, null_buffer, num_classes, largest_class_size,
  get_class, set_freelist, free_buf, split_last, alloc_last, split, alloc_from_class, push_buffers,
  reserve_hugepages, is_empty, next_class, split_down, alloc_larger, alloc_buf,
}

-- Is the address in the buffer?
abbrev pub has_addr : ℕ → Buffer → ℕ
has_addr a b = if leb b.buf a && ltb a (b.buf + b.class_size) then 1 else 0

-- In how many buffers of a list is it?
abbrev pub count : ℕ → List Buffer → ℕ
count a [] = 0
count a (b ∷ l) = has_addr a b + count a l

-- In how many free buffers is it?
pub free_count : ℕ → HugeAlloc → ℕ
free_count a h = sum_below num_classes (λ i. count a (h.freelist i))

-- Every free buffer has the size of its class.
abbrev pub IsSized : HugeAlloc → Type 0
IsSized h = (i : ℕ) → All (λ b. b.class_size ≡ class_max_size i) (h.freelist i)

-- A class's free buffers are exchanged.
pub set_freelist-free_count :
    (a : ℕ) (h : HugeAlloc) (i : ℕ) (l : List Buffer)
    → i < num_classes
    → free_count a (set_freelist h i l) + count a (h.freelist i) ≡ free_count a h + count a l
unfolding free_count
set_freelist-free_count a h i l lt = omega (
  arith,
  sum_below_change num_classes i (λ j. count a (h.freelist j))
      (λ j. count a (update h.freelist i l j))
      (λ j ne. ap (count a) (let e : update h.freelist i l j ≡ h.freelist j = ground arith in e))
      lt,
  ap (count a) (let e : update h.freelist i l i ≡ l = ground arith in e),
)

pub set_freelist-IsSized :
    (h : HugeAlloc) (i : ℕ) (l : List Buffer)
    → All (λ b. b.class_size ≡ class_max_size i) l
    → IsSized h
    → IsSized (set_freelist h i l)
set_freelist-IsSized h i l fit v j = elim (ℕ_discrete i j) [
  | yes e ↦
      subst (All (λ b. b.class_size ≡ class_max_size j))
        (let f : l ≡ update h.freelist i l j = ground arith in f)
        (subst (λ k. All (λ b. b.class_size ≡ class_max_size k) l) e fit)
  | no ne ↦
      subst (All (λ b. b.class_size ≡ class_max_size j))
        (let f : h.freelist j ≡ update h.freelist i l j = ground arith in f) (v j)
]

double : (i : ℕ) → class_max_size (i + 1) ≡ class_max_size i * 2
unfolding class_max_size
double i = omega (arith, two-pow-succ i, ap (λ j. 2 ^ j) (let e : i + 1 ≡ suc i = omega arith in e))

-- A buffer is its two halves.
halves-count :
    (a : ℕ) (b : Buffer) (l : List Buffer) (k : ℕ)
    → b.class_size ≡ k * 2
    → count a (halves b l) ≡ has_addr a b + count a l
halves-count a b l k e = ground (arith, e)

split_last-free_count :
    (a : ℕ) (h : HugeAlloc) (i : ℕ) (l : List Buffer)
    → i + 1 < num_classes
    → h.freelist (i + 1) ≡ l
    → All (λ z. z.class_size ≡ class_max_size (i + 1)) l
    → free_count a (split_last h i l) ≡ free_count a h
unfolding split_last
split_last-free_count a h i [] lt e v = refl
split_last-free_count a h i (b ∷ r) lt e v = omega (
  arith,
  set_freelist-free_count a h (i + 1) r lt,
  set_freelist-free_count a (set_freelist h (i + 1) r) i (halves b (h.freelist i)) (omega arith),
  halves-count a b (h.freelist i) (class_max_size i) (v.0 ∙ double i),
  ap (count a) e,
  ap (count a) (let f : (set_freelist h (i + 1) r).freelist i ≡ h.freelist i = ground arith in f),
)

half : {m n : ℕ} → m ≡ n * 2 → m / 2 ≡ n
half e = omega (arith, e)

split_last-IsSized :
    (h : HugeAlloc) (i : ℕ) (l : List Buffer)
    → All (λ z. z.class_size ≡ class_max_size (i + 1)) l
    → IsSized h
    → IsSized (split_last h i l)
unfolding split_last
split_last-IsSized h i [] fit v j = v j
split_last-IsSized h i (b ∷ r) fit v j =
    set_freelist-IsSized (set_freelist h (i + 1) r) i (halves b (h.freelist i))
      (half (fit.0 ∙ double i), (half (fit.0 ∙ double i), v i))
      (set_freelist-IsSized h (i + 1) r fit.1 v) j

split-free_count :
    (a : ℕ) (h : HugeAlloc) (i : ℕ)
    → i + 1 < num_classes
    → IsSized h
    → free_count a (split h i) ≡ free_count a h
unfolding split
split-free_count a h i lt v = split_last-free_count a h i (h.freelist (i + 1)) lt refl (v (i + 1))

split-IsSized : (h : HugeAlloc) (i : ℕ) → IsSized h → IsSized (split h i)
unfolding split
split-IsSized h i v = split_last-IsSized h i (h.freelist (i + 1)) (v (i + 1)) v

pub split_down-free_count :
    (a n : ℕ) (h : HugeAlloc) (i : ℕ)
    → i + n < num_classes
    → IsSized h
    → free_count a (split_down n h i) ≡ free_count a h
unfolding split_down
split_down-free_count a zero h i lt v = refl
split_down-free_count a (suc n) h i lt v =
    split_down-free_count a n (split h (i + n)) i (omega arith) (split-IsSized h (i + n) v)
    ∙ split-free_count a h (i + n) (omega arith) v

pub split_down-IsSized : (n : ℕ) (h : HugeAlloc) (i : ℕ) → IsSized h → IsSized (split_down n h i)
unfolding split_down
split_down-IsSized zero h i v j = v j
split_down-IsSized (suc n) h i v j =
    split_down-IsSized n (split h (i + n)) i (split-IsSized h (i + n) v) j

pub alloc_last-free_count :
    (a : ℕ) (h : HugeAlloc) (i : ℕ) (l : List Buffer)
    → i < num_classes
    → h.freelist i ≡ l
    → free_count a (alloc_last h i l).1 + has_addr a (alloc_last h i l).0 ≡ free_count a h
unfolding alloc_last free_count
alloc_last-free_count a h i [] lt e = ground arith
alloc_last-free_count a h i (b ∷ r) lt e =
    omega (arith, set_freelist-free_count a h i r lt, ap (count a) e)

-- What a class gives out has the class's size, if it is a buffer at all.
pub alloc_last-size :
    (h : HugeAlloc) (i : ℕ) (l : List Buffer)
    → All (λ z. z.class_size ≡ class_max_size i) l
    → ((alloc_last h i l).0 ≡ null_buffer) ⊎ ((alloc_last h i l).0.class_size ≡ class_max_size i)
unfolding alloc_last
alloc_last-size h i [] v = inl refl
alloc_last-size h i (b ∷ r) v = inr v.0

-- A region is the buffers it is cut into.
abbrev pub region_buffer : ℕ → ℕ → ℕ → Buffer
region_buffer base n i = record {
  buf = base + i * largest_class_size;
  class_size = n * largest_class_size;
  lkey = 0;
}

abbrev first_buffer : ℕ → ℕ → ℕ → Buffer
first_buffer base i lkey = record {
  buf = base + i * largest_class_size;
  class_size = largest_class_size;
  lkey = lkey;
}

region-first :
    (a n i base lkey : ℕ)
    → has_addr a (region_buffer base (suc n) i)
      ≡ has_addr a (first_buffer base i lkey) + has_addr a (region_buffer base n (i + 1))
region-first a n i base lkey = ground arith

push_buffers-count :
    (a n i base lkey : ℕ) (l : List Buffer)
    → count a (push_buffers n i base lkey l) ≡ has_addr a (region_buffer base n i) + count a l
unfolding push_buffers
push_buffers-count a zero i base lkey l = ground arith
push_buffers-count a (suc n) i base lkey l = omega (
  arith,
  push_buffers-count a n (i + 1) base lkey (first_buffer base i lkey ∷ l),
  region-first a n i base lkey,
)

push_buffers-IsSized :
    (n i base lkey : ℕ) (l : List Buffer)
    → All (λ b. b.class_size ≡ class_max_size (num_classes - 1)) l
    → All (λ b. b.class_size ≡ class_max_size (num_classes - 1)) (push_buffers n i base lkey l)
unfolding push_buffers class_max_size
push_buffers-IsSized zero i base lkey l v = v
push_buffers-IsSized (suc n) i base lkey l v =
    push_buffers-IsSized n (i + 1) base lkey (first_buffer base i lkey ∷ l) (refl, v)

-- The addresses that a region adds, if the system has one.
abbrev pub region_count : ℕ → ℕ → Option (ℕ × ℕ) → ℕ
region_count a size none = 0
region_count a size (some (base, lkey)) =
    has_addr a (region_buffer base (size / largest_class_size) 0)

pub reserve-free_count :
    (a : ℕ) (h : HugeAlloc) (size : ℕ) (region : Option (ℕ × ℕ))
    → free_count a (reserve_hugepages h size region).1 ≡ free_count a h + region_count a size region
unfolding reserve_hugepages free_count
reserve-free_count a h size none = omega arith
reserve-free_count a h size (some (base, lkey)) = omega (
  arith,
  set_freelist-free_count a h (num_classes - 1)
      (push_buffers (size / largest_class_size) 0 base lkey (h.freelist (num_classes - 1)))
      (omega arith),
  push_buffers-count a (size / largest_class_size) 0 base lkey (h.freelist (num_classes - 1)),
)

pub reserve-IsSized :
    (h : HugeAlloc) (size : ℕ) (region : Option (ℕ × ℕ))
    → IsSized h
    → IsSized (reserve_hugepages h size region).1
unfolding reserve_hugepages
reserve-IsSized h size none v j = v j
reserve-IsSized h size (some (base, lkey)) v j =
    set_freelist-IsSized h (num_classes - 1)
      (push_buffers (size / largest_class_size) 0 base lkey (h.freelist (num_classes - 1)))
      (push_buffers-IsSized (size / largest_class_size) 0 base lkey (h.freelist (num_classes - 1))
        (v (num_classes - 1)))
      v j

pub next_class-bounds :
    (h : HugeAlloc) (n i j : ℕ) → next_class h n i ≡ some j → (i ≤ j) × (j < i + n)
unfolding next_class
next_class-bounds h zero i j e = ground (arith, e)
next_class-bounds h (suc n) i j e = ground (arith, e, next_class-bounds h n (i + 1) j)
