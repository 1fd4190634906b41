-- ===== src/Core/Memory/Reuse.antt =====
-- When the memory of a buffer is given out again: `Alloc` of core/allocator/buffer_allocator.h goes
-- back to the front of its region, in the expectation that the buffers there are done with.
use rdma_yuxi.Prelude.{
  ℕ, ◌+◌, ◌≤◌, ◌<◌, ◌≡◌, ◌⊎◌, inl, inr, List, [], ◌∷◌, All, arith, ltb, Bool-cases, subst,
}
use rdma_yuxi.Core.Memory.{BufferAllocator, alloc}

-- The buffers that the allocator gives out for the sizes, in order: where each starts, and its size.
unfoldable pub buffers : List ℕ → BufferAllocator → List (ℕ × ℕ)
buffers [] b = []
buffers (size ∷ l) b = ((alloc b size).0, size) ∷ buffers l (alloc b size).1

abbrev pub total : List ℕ → ℕ
total [] = 0
total (size ∷ l) = size + total l

-- The two ranges of `n` and `k` bytes do not overlap.
abbrev pub IsApart : ℕ → ℕ → ℕ → ℕ → Type 0
IsApart p n q k = (p + n ≤ q) ⊎ (q + k ≤ p)

-- `Alloc` goes on behind the last buffer, or at the front of the region.
record IsNext (b c : BufferAllocator) (size p : ℕ) : Type 0 where
  start : c.start ≡ b.start
  end : c.end ≡ b.end
  place :
      ((b.start + b.cur_offset + size ≤ b.end)
        × (p ≡ b.start + b.cur_offset)
        × (c.cur_offset ≡ b.cur_offset + size))
      ⊎ ((b.end < b.start + b.cur_offset + size) × (p ≡ b.start) × (c.cur_offset ≡ size))

alloc-IsNext : (b : BufferAllocator) (size : ℕ) → IsNext b (alloc b size).1 size (alloc b size).0
unfolding alloc
alloc-IsNext b size = elim (Bool-cases (ltb b.end (b.start + b.cur_offset + size))) [
  | inl e ↦ ground (arith, e)
  | inr e ↦ ground (arith, e)
]

-- A buffer of `n` bytes at the offset `o` is not reached by buffers for the sizes `l`, of at most `m`
-- bytes each: the next one is behind it and those of `l` do not fill the region up to it, or the next
-- one is in front of it and those of `l` end there.
IsSafe : BufferAllocator → ℕ → ℕ → List ℕ → ℕ → Type 0
IsSafe b o n l m =
    (b.start + o + n ≤ b.end)
    × (((o + n ≤ b.cur_offset) × (b.start + b.cur_offset + total l + m ≤ b.end + o))
        ⊎ (b.cur_offset + total l ≤ o))

IsSafe-step :
    (b c : BufferAllocator) (o n size m p : ℕ) (l : List ℕ)
    → IsNext b c size p
    → size ≤ m
    → IsSafe b o n (size ∷ l) m
    → IsApart (b.start + o) n p size × IsSafe c o n l m
unfolding IsSafe
IsSafe-step b c o n size m p l v le safe = ground (arith, v, safe)

buffers-IsApart :
    (l : List ℕ) (b : BufferAllocator) (o n m : ℕ)
    → All (λ k. k ≤ m) l
    → IsSafe b o n l m
    → All (λ q. IsApart (b.start + o) n q.0 q.1) (buffers l b)
unfolding buffers
buffers-IsApart [] b o n m small safe = tt
buffers-IsApart (size ∷ l) b o n m (le, small) safe =
    let v = alloc-IsNext b size in
    let (apart, kept) = IsSafe-step b (alloc b size).1 o n size m (alloc b size).0 l v le safe in
    (
      apart,
      subst (λ s. All (λ q. IsApart (s + o) n q.0 q.1) (buffers l (alloc b size).1)) v.start
          (buffers-IsApart l (alloc b size).1 o n m small kept),
    )

-- Where the allocator stands behind a buffer that it has given out.
IsSafe-start :
    (b c : BufferAllocator) (size m p : ℕ) (l : List ℕ)
    → IsNext b c size p
    → b.start + size + total l + m ≤ b.end
    → (o : ℕ) × (c.start + o ≡ p) × IsSafe c o size l m
unfolding IsSafe
IsSafe-start b c size m p l v room = elim v.place [
  | inl (fits, at, cur) ↦
      (b.cur_offset, omega (arith, v.start, at), ground (arith, v.start, v.end, cur))
  | inr (over, at, cur) ↦ (0, omega (arith, v.start, at), ground (arith, v.start, v.end, cur))
]

-- A buffer is not given out again until the buffers after it have used up the region, but for the
-- size `m` of the largest of them: none of those for the sizes `l` overlaps it, if they are of at
-- most `m` bytes and with the buffer and `m` more bytes still fit the region.
pub alloc-kept :
    (b : BufferAllocator) (size m : ℕ) (l : List ℕ)
    → All (λ k. k ≤ m) l
    → b.start + size + total l + m ≤ b.end
    → All (λ q. IsApart (alloc b size).0 size q.0 q.1) (buffers l (alloc b size).1)
alloc-kept b size m l small room =
    let (o, at, safe) =
      IsSafe-start b (alloc b size).1 size m (alloc b size).0 l (alloc-IsNext b size) room in
    subst (λ p. All (λ q. IsApart p size q.0 q.1) (buffers l (alloc b size).1)) at
      (buffers-IsApart l (alloc b size).1 o size m small safe)
