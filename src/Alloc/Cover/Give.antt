-- ===== src/Alloc/Cover/Give.antt =====
-- Allocation and freeing, by the addresses that are free.
use rdma_yuxi.Prelude.{
  ℕ, ◌+◌, ◌-◌, ◌*◌, ◌≤◌, ◌<◌, ◌≡◌, ◌⊎◌, refl, arith, Bool, true, false, ◌∷◌, Option, none, some,
  inl, inr, Bool-cases,
}
use rdma_yuxi.Alloc.Huge.{
  Buffer, HugeAlloc, class_max_size, null_buffer, num_classes, get_class, free_buf,
  alloc_from_class, reserve_hugepages, is_empty, next_class, split_down, after_reserve,
  alloc_larger, alloc_buf,
}
use rdma_yuxi.Alloc.Cover.{
  has_addr, free_count, IsSized, region_count, set_freelist-free_count, split_down-free_count,
  split_down-IsSized, alloc_last-free_count, alloc_last-size, reserve-free_count, reserve-IsSized,
  next_class-bounds,
}

-- What allocation comes to: no address is free or given out more often than it was free before,
-- the region that the system added included, and what is given out has the size of its class.
abbrev pub IsGiven : ℕ → HugeAlloc → Option (ℕ × ℕ) → ℕ → Buffer × HugeAlloc → Type 0
IsGiven a h region i (b, t) =
    (free_count a t + has_addr a b
      ≤ free_count a h + region_count a (h.prev_allocation_size * 2) region)
    × ((b ≡ null_buffer) ⊎ (b.class_size ≡ class_max_size i))

-- From a state whose free addresses are those of `h`, or those and the region's.
from_class :
    (a : ℕ) (h g : HugeAlloc) (region : Option (ℕ × ℕ)) (i : ℕ)
    → i < num_classes
    → IsSized g
    → free_count a g ≤ free_count a h + region_count a (h.prev_allocation_size * 2) region
    → IsGiven a h region i (alloc_from_class g i)
unfolding alloc_from_class
from_class a h g region i lt v le = (
  omega (arith, alloc_last-free_count a g i (g.freelist i) lt refl, le),
  alloc_last-size g i (g.freelist i) (v i),
)

after_reserve-IsGiven :
    (a : ℕ) (h : HugeAlloc) (i : ℕ) (region : Option (ℕ × ℕ)) (q : Bool × HugeAlloc)
    → i < num_classes
    → IsSized q.1
    → free_count a q.1 ≤ free_count a h + region_count a (h.prev_allocation_size * 2) region
    → IsGiven a h region i (after_reserve i q)
unfolding after_reserve free_count
after_reserve-IsGiven a h i region (true, g) lt v le =
    from_class a h (split_down (num_classes - 1 - i) g i) region i lt
      (split_down-IsSized (num_classes - 1 - i) g i v)
      (omega (arith, split_down-free_count a (num_classes - 1 - i) g i (omega arith) v, le))
after_reserve-IsGiven a h i region (false, g) lt v le = (ground (arith, le), inl refl)

alloc_larger-IsGiven :
    (a : ℕ) (h : HugeAlloc) (i : ℕ) (region : Option (ℕ × ℕ)) (o : Option ℕ)
    → i < num_classes
    → IsSized h
    → next_class h (num_classes - (i + 1)) (i + 1) ≡ o
    → IsGiven a h region i (alloc_larger h i region o)
unfolding alloc_larger free_count
alloc_larger-IsGiven a h i region (some j) lt v e =
    from_class a h (split_down (j - i) h i) region i lt (split_down-IsSized (j - i) h i v) (
      omega (
        arith,
        split_down-free_count a (j - i) h i
            (omega (arith, next_class-bounds h (num_classes - (i + 1)) (i + 1) j e)) v,
      ))
alloc_larger-IsGiven a h i region none lt v e =
    after_reserve-IsGiven a h i region (reserve_hugepages wider (h.prev_allocation_size * 2) region)
      lt (reserve-IsSized wider (h.prev_allocation_size * 2) region v)
      (omega (arith, reserve-free_count a wider (h.prev_allocation_size * 2) region))
  where
    wider : HugeAlloc
    wider = record h { prev_allocation_size = h.prev_allocation_size * 2 }

-- Allocation of a size that has a class: no address is free or given out more often than it was
-- free before, or is in the region that the system added; and the buffer has the size of its class,
-- or is null.
pub alloc_buf-IsGiven :
    (undef a : ℕ) (h : HugeAlloc) (size : ℕ) (region : Option (ℕ × ℕ))
    → get_class undef size < num_classes
    → IsSized h
    → IsGiven a h region (get_class undef size) (alloc_buf undef h size region)
unfolding alloc_buf
alloc_buf-IsGiven undef a h size region lt v =
    elim (Bool-cases (is_empty (h.freelist (get_class undef size)))) [
      | inl e ↦ rw e (alloc_larger-IsGiven a h (get_class undef size) region _ lt v refl)
      | inr e ↦ rw e (from_class a h h region (get_class undef size) lt v (omega arith))
    ]

-- A buffer that is freed is free at its addresses once more, whatever its class.
pub free_buf-free_count :
    (undef a : ℕ) (h : HugeAlloc) (b : Buffer)
    → get_class undef b.class_size < num_classes
    → free_count a (free_buf undef h b) ≡ free_count a h + has_addr a b
unfolding free_buf free_count
free_buf-free_count undef a h b lt = omega (
  arith,
  set_freelist-free_count a h (get_class undef b.class_size)
      (b ∷ h.freelist (get_class undef b.class_size)) lt,
)
