-- ===== src/Alloc/Huge.antt =====
-- The hugepage allocator: peer/erpc/util/huge_alloc.h and huge_alloc.cc, with the buffers of
-- peer/erpc/util/buffer.h and the functions of peer/erpc/util/math_utils.h that it uses.
use rdma_yuxi.Prelude.{
  ℕ, zero, suc, ◌+◌, ◌-◌, ◌*◌, ◌/◌, ◌%◌, ◌^◌, Bool, true, false, ltb, ◌==◌, if◌then◌else◌, List, [],
  ◌∷◌, Option, none, some, update,
}

-- `k_min_class_size`, `k_num_classes`, `k_max_class_size`, `kHugepageSize`
abbrev pub min_class_size : ℕ
min_class_size = 64

abbrev pub num_classes : ℕ
num_classes = 18

abbrev pub largest_class_size : ℕ
largest_class_size = 8 * 2 ^ 20

abbrev pub hugepage_size : ℕ
hugepage_size = 2 * 2 ^ 20

-- `class_max_size`
unfoldable pub class_max_size : ℕ → ℕ
class_max_size class_i = min_class_size * 2 ^ class_i

-- `round_up` to a power of two, on numbers below `2 ^ 64`.
unfoldable pub round_up : ℕ → ℕ → ℕ
round_up power x = (x + (power - 1)) / power * power

-- The instruction `bsrl`: the index of the highest bit set. Of 0 it is not defined, and is `undef`;
-- a number of 32 bits is halved at most 32 times.
unfoldable pub bit_scan_reverse : ℕ → ℕ → ℕ → ℕ
bit_scan_reverse undef zero x = undef
bit_scan_reverse undef (suc fuel) x =
    let rest = bit_scan_reverse undef fuel (x / 2) in
    if x == 0 then undef else if x == 1 then 0 else rest + 1

-- `msb_index`
unfoldable pub msb_index : ℕ → ℕ → ℕ
msb_index undef x = bit_scan_reverse undef 32 (x * 2 % 2 ^ 32)

-- `get_class`, given what the instruction leaves for 0.
unfoldable pub get_class : ℕ → ℕ → ℕ
get_class undef size = msb_index undef ((size - 1) / 2 ^ 6)

-- The loop of `get_class_slow`, on fuel.
unfoldable pub class_loop : ℕ → ℕ → ℕ → ℕ → ℕ
class_loop zero size size_class class_lim = size_class
class_loop (suc fuel) size size_class class_lim =
    let rest = class_loop fuel size (size_class + 1) (class_lim * 2) in
    if ltb class_lim size then rest else size_class

-- `get_class_slow`; the loop ends within as many rounds as there are classes.
unfoldable pub get_class_slow : ℕ → ℕ
get_class_slow size = class_loop num_classes size 0 min_class_size

-- `Buffer`; the address 0 is the null pointer.
pub record Buffer : Type 0 where
  pub buf : ℕ
  pub class_size : ℕ
  pub lkey : ℕ

abbrev pub null_buffer : Buffer
null_buffer = record { buf = 0; class_size = 0; lkey = 0 }

-- `HugeAlloc`: the free lists with the back first, and the statistics.
pub record HugeAlloc : Type 0 where
  pub freelist : ℕ → List Buffer
  pub prev_allocation_size : ℕ
  pub shm_reserved : ℕ
  pub user_alloc_tot : ℕ

-- The constructor: nothing is reserved, and the first region is at least one of the largest class.
unfoldable pub new_huge_alloc : ℕ → HugeAlloc
new_huge_alloc initial_size = record {
  freelist = λ i. [];
  prev_allocation_size =
      if ltb initial_size largest_class_size then largest_class_size else initial_size;
  shm_reserved = 0;
  user_alloc_tot = 0;
}

abbrev pub set_freelist : HugeAlloc → ℕ → List Buffer → HugeAlloc
set_freelist h i l = record h { freelist = update h.freelist i l }

-- `free_buf`; the total is a number of 64 bits, which wraps.
unfoldable pub free_buf : ℕ → HugeAlloc → Buffer → HugeAlloc
free_buf undef h b = record (set_freelist h i (b ∷ h.freelist i)) {
  user_alloc_tot = (h.user_alloc_tot + 2 ^ 64 - b.class_size) % 2 ^ 64;
}
  where
    i : ℕ
    i = get_class undef b.class_size

-- The halves of a buffer, the second first.
abbrev pub halves : Buffer → List Buffer → List Buffer
halves b l =
    record { buf = b.buf + b.class_size / 2; class_size = b.class_size / 2; lkey = b.lkey }
    ∷ record { buf = b.buf; class_size = b.class_size / 2; lkey = b.lkey }
    ∷ l

-- `split` of class `i + 1`, given its free buffers: the last one is split. An empty class, which the
-- code asserts not to be, stays as it is.
unfoldable pub split_last : HugeAlloc → ℕ → List Buffer → HugeAlloc
split_last h i [] = h
split_last h i (b ∷ l) = set_freelist (set_freelist h (i + 1) l) i (halves b (h.freelist i))

unfoldable pub split : HugeAlloc → ℕ → HugeAlloc
split h i = split_last h i (h.freelist (i + 1))

-- `alloc_from_class`, given the class's free buffers; of an empty class there is no buffer.
unfoldable pub alloc_last : HugeAlloc → ℕ → List Buffer → Buffer × HugeAlloc
alloc_last h i [] = (null_buffer, h)
alloc_last h i (b ∷ l) =
    (b, record (set_freelist h i l) { user_alloc_tot = h.user_alloc_tot + b.class_size })

unfoldable pub alloc_from_class : HugeAlloc → ℕ → Buffer × HugeAlloc
alloc_from_class h i = alloc_last h i (h.freelist i)

-- The buffers of the largest class that a region of `n` such sizes at `base` is cut into.
unfoldable pub push_buffers : ℕ → ℕ → ℕ → ℕ → List Buffer → List Buffer
push_buffers zero i base lkey l = l
push_buffers (suc n) i base lkey l = push_buffers n (i + 1) base lkey (
    record { buf = base + i * largest_class_size; class_size = largest_class_size; lkey = lkey }
    ∷ l)

-- `reserve_hugepages`, given the region that `alloc_raw` gets from the system, if any.
unfoldable pub reserve_hugepages : HugeAlloc → ℕ → Option (ℕ × ℕ) → Bool × HugeAlloc
reserve_hugepages h size none = (false, h)
reserve_hugepages h size (some (base, lkey)) = (
  true,
  record (set_freelist h (num_classes - 1)
      (push_buffers (size / largest_class_size) 0 base lkey (h.freelist (num_classes - 1)))) {
        shm_reserved = h.shm_reserved + round_up hugepage_size size;
      },
)

abbrev pub is_empty : List Buffer → Bool
is_empty [] = true
is_empty (b ∷ l) = false

-- The search for the first class from `i` on, of the last `n`, with free buffers.
unfoldable pub next_class : HugeAlloc → ℕ → ℕ → Option ℕ
next_class h zero i = none
next_class h (suc n) i =
    let rest = next_class h n (i + 1) in if is_empty (h.freelist i) then rest else some i

-- The loop that splits down to class `i` from the class `n` above it.
unfoldable pub split_down : ℕ → HugeAlloc → ℕ → HugeAlloc
split_down zero h i = h
split_down (suc n) h i = split_down n (split h (i + n)) i

-- After an attempt to reserve: with the new buffers class `i` is filled by splitting; else the
-- previous reservation is restored, and there is no buffer.
unfoldable pub after_reserve : ℕ → Bool × HugeAlloc → Buffer × HugeAlloc
after_reserve i (true, g) = alloc_from_class (split_down (num_classes - 1 - i) g i) i
after_reserve i (false, g) =
    (null_buffer, record g { prev_allocation_size = g.prev_allocation_size / 2 })

-- `alloc` from a class without free buffers, given the first larger class that has some.
unfoldable pub alloc_larger : HugeAlloc → ℕ → Option (ℕ × ℕ) → Option ℕ → Buffer × HugeAlloc
alloc_larger h i region (some j) = alloc_from_class (split_down (j - i) h i) i
alloc_larger h i region none = after_reserve i (
    reserve_hugepages (record h { prev_allocation_size = h.prev_allocation_size * 2 })
      (h.prev_allocation_size * 2) region)

-- `alloc`
unfoldable pub alloc_buf : ℕ → HugeAlloc → ℕ → Option (ℕ × ℕ) → Buffer × HugeAlloc
alloc_buf undef h size region =
    if is_empty (h.freelist (get_class undef size))
    then alloc_larger h (get_class undef size) region
        (next_class h (num_classes - (get_class undef size + 1)) (get_class undef size + 1))
    else alloc_from_class h (get_class undef size)
