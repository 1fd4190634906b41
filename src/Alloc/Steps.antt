-- ===== src/Alloc/Steps.antt =====
-- Sequences of allocations and frees.
use rdma_yuxi.Prelude.{
  ℕ, ◌+◌, ◌-◌, ◌*◌, ◌≤◌, ◌<◌, ◌≡◌, arith, Bool, true, false, List, [], ◌∷◌, ◌++◌, Option, none,
  some, inl, inr, Bool-cases, All,
}
use rdma_yuxi.Alloc.Huge.{
  Buffer, HugeAlloc, class_max_size, num_classes, get_class, free_buf, alloc_last, alloc_from_class,
  reserve_hugepages, is_empty, split_down, after_reserve, alloc_larger, alloc_buf,
}
use rdma_yuxi.Alloc.Cover.{
  count, free_count, IsSized, region_count, set_freelist-IsSized, split_down-IsSized,
  reserve-IsSized,
}
use rdma_yuxi.Alloc.Cover.Give.{alloc_buf-IsGiven, free_buf-free_count}

count-append : (a : ℕ) (l r : List Buffer) → count a (l ++ r) ≡ count a l + count a r
count-append a [] r = omega arith
count-append a (b ∷ l) r = omega (arith, count-append a l r)

alloc_last-IsSized :
    (h : HugeAlloc) (i : ℕ) (l : List Buffer)
    → All (λ z. z.class_size ≡ class_max_size i) l
    → IsSized h
    → IsSized (alloc_last h i l).1
unfolding alloc_last
alloc_last-IsSized h i [] fit v j = v j
alloc_last-IsSized h i (b ∷ r) fit v j = set_freelist-IsSized h i r fit.1 v j

class-IsSized : (h : HugeAlloc) (i : ℕ) → IsSized h → IsSized (alloc_from_class h i).1
unfolding alloc_from_class
class-IsSized h i v j = alloc_last-IsSized h i (h.freelist i) (v i) v j

after_reserve-IsSized : (i : ℕ) (q : Bool × HugeAlloc) → IsSized q.1 → IsSized (after_reserve i q).1
unfolding after_reserve
after_reserve-IsSized i (true, g) v j =
    class-IsSized (split_down (num_classes - 1 - i) g i) i
      (split_down-IsSized (num_classes - 1 - i) g i v) j
after_reserve-IsSized i (false, g) v j = v j

alloc_larger-IsSized :
    (h : HugeAlloc) (i : ℕ) (region : Option (ℕ × ℕ)) (o : Option ℕ)
    → IsSized h
    → IsSized (alloc_larger h i region o).1
unfolding alloc_larger
alloc_larger-IsSized h i region (some k) v j =
    class-IsSized (split_down (k - i) h i) i (split_down-IsSized (k - i) h i v) j
alloc_larger-IsSized h i region none v j =
    after_reserve-IsSized i (reserve_hugepages wider (h.prev_allocation_size * 2) region)
      (reserve-IsSized wider (h.prev_allocation_size * 2) region v) j
  where
    wider : HugeAlloc
    wider = record h { prev_allocation_size = h.prev_allocation_size * 2 }

alloc_buf-IsSized :
    (undef : ℕ) (h : HugeAlloc) (size : ℕ) (region : Option (ℕ × ℕ))
    → IsSized h
    → IsSized (alloc_buf undef h size region).1
unfolding alloc_buf
alloc_buf-IsSized undef h size region v j =
    elim (Bool-cases (is_empty (h.freelist (get_class undef size)))) [
      | inl e ↦ rw e (alloc_larger-IsSized h (get_class undef size) region _ v j)
      | inr e ↦ rw e (class-IsSized h (get_class undef size) v j)
    ]

free_buf-IsSized :
    (undef : ℕ) (h : HugeAlloc) (b : Buffer)
    → b.class_size ≡ class_max_size (get_class undef b.class_size)
    → IsSized h
    → IsSized (free_buf undef h b)
unfolding free_buf
free_buf-IsSized undef h b fit v j =
    set_freelist-IsSized h (get_class undef b.class_size)
      (b ∷ h.freelist (get_class undef b.class_size)) (fit, v (get_class undef b.class_size)) v j

-- A run from the state `init`: the state, the buffers that users hold, and in how many regions of
-- the system the address `a` was. What is freed is a buffer that is held, of a class's size, as the
-- code asserts.
pub data HugeSteps (undef a : ℕ) (init : HugeAlloc) : HugeAlloc → List Buffer → ℕ → Type 0 where
  begin : HugeSteps undef a init init [] 0
  allocs :
      (h : HugeAlloc) (held : List Buffer) (n size : ℕ) (region : Option (ℕ × ℕ))
      → HugeSteps undef a init h held n
      → get_class undef size < num_classes
      → HugeSteps undef a init
          (alloc_buf undef h size region).1
          ((alloc_buf undef h size region).0 ∷ held)
          (n + region_count a (h.prev_allocation_size * 2) region)
  frees :
      (h : HugeAlloc) (l r : List Buffer) (b : Buffer) (n : ℕ)
      → HugeSteps undef a init h (l ++ (b ∷ r)) n
      → b.class_size ≡ class_max_size (get_class undef b.class_size)
      → get_class undef b.class_size < num_classes
      → HugeSteps undef a init (free_buf undef h b) (l ++ r) n

steps-IsSized :
    {undef a : ℕ} {init : HugeAlloc} (h : HugeAlloc) (held : List Buffer) (n : ℕ)
    → HugeSteps undef a init h held n
    → IsSized init
    → IsSized h
steps-IsSized h held n begin v = v
steps-IsSized h held n (allocs g gs m size region s lt) v =
    alloc_buf-IsSized _ g size region (steps-IsSized g gs m s v)
steps-IsSized h held n (frees g l r b m s fit lt) v =
    free_buf-IsSized _ g b fit (steps-IsSized g (l ++ (b ∷ r)) m s v)

-- In any run of allocations and frees, an address is in no more buffers, free or held, than it was
-- in at the start and in regions of the system that came since: where those do not overlap, no two
-- buffers do.
pub HugeSteps-count :
    {undef a : ℕ} {init : HugeAlloc} (h : HugeAlloc) (held : List Buffer) (n : ℕ)
    → HugeSteps undef a init h held n
    → IsSized init
    → free_count a h + count a held ≤ free_count a init + n
HugeSteps-count h held n begin v = omega arith
HugeSteps-count {undef} {a} h held n (allocs g gs m size region s lt) v = omega (
  arith,
  HugeSteps-count g gs m s v,
  (alloc_buf-IsGiven undef a g size region lt (steps-IsSized g gs m s v)).0,
)
HugeSteps-count {undef} {a} h held n (frees g l r b m s fit lt) v = omega (
  arith,
  HugeSteps-count g (l ++ (b ∷ r)) m s v,
  free_buf-free_count undef a g b lt,
  count-append a l r,
  count-append a l (b ∷ r),
)
