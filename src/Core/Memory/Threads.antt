-- ===== src/Core/Memory/Threads.antt =====
-- The buffers that threads take from their regions: core/allocator/region_allocator.h and
-- core/allocator/buffer_allocator.h together.
use rdma_yuxi.Prelude.{ℕ, ◌+◌, ◌≤◌, ◌<◌, ◌≡◌, ◌≢◌, ◌⊎◌, refl, inl, inr, List, [], ◌∷◌, All, arith}
use rdma_yuxi.Core.Memory.{
  per_thread_alloc_size, RegionAllocator, global_mr_size, get_thread_local_region, BufferAllocator,
  new_buffer_allocator, alloc, alloc_bounds, free, get_thread_local_region-disjoint,
}

-- What a thread asks its allocator for.
pub data Request : Type 0 where
  allocs : ℕ → Request
  frees : ℕ → Request

-- No buffer is larger than a region.
abbrev pub IsSmall : Request → Type 0
IsSmall (allocs size) = size ≤ per_thread_alloc_size
IsSmall (frees p) = Unit

unfoldable pub serve : List Request → BufferAllocator → BufferAllocator
serve [] b = b
serve (allocs size ∷ l) b = serve l (alloc b size).1
serve (frees p ∷ l) b = serve l (free b p)

-- The allocator of a thread.
abbrev pub thread_allocator : RegionAllocator → ℕ → BufferAllocator
thread_allocator a tid =
    new_buffer_allocator (get_thread_local_region a tid).0 (get_thread_local_region a tid).1

alloc-range :
    (b : BufferAllocator) (size : ℕ)
    → ((alloc b size).1.start ≡ b.start) × ((alloc b size).1.end ≡ b.end)
unfolding alloc
alloc-range b size = ground arith

-- The allocator of a region from `s` to `e`, with its offset inside.
record IsInside (s e : ℕ) (b : BufferAllocator) : Type 0 where
  start : b.start ≡ s
  end : b.end ≡ e
  offset : b.start + b.cur_offset ≤ b.end

module _ (s e : ℕ) (large : s + per_thread_alloc_size ≤ e) where
  serve-IsInside :
      (l : List Request) (b : BufferAllocator)
      → All IsSmall l
      → IsInside s e b
      → IsInside s e (serve l b)
  unfolding serve free
  serve-IsInside [] b small v = v
  serve-IsInside (allocs size ∷ l) b (fits, small) v =
      serve-IsInside l (alloc b size).1 small
        (ground (arith, v, alloc-range b size, alloc_bounds b size))
  serve-IsInside (frees p ∷ l) b (fits, small) v = serve-IsInside l b small v

  served-inside :
      (l : List Request) (b : BufferAllocator) (size : ℕ)
      → All IsSmall l
      → IsInside s e b
      → size ≤ per_thread_alloc_size
      → (s ≤ (alloc (serve l b) size).0) × ((alloc (serve l b) size).0 + size ≤ e)
  served-inside l b size small v fits =
      ground (arith, serve-IsInside l b small v, alloc_bounds (serve l b) size)

thread_allocator-IsInside :
    (a : RegionAllocator) (tid : ℕ)
    → IsInside
        (get_thread_local_region a tid).0
        (get_thread_local_region a tid).1
        (thread_allocator a tid)
unfolding new_buffer_allocator get_thread_local_region
thread_allocator-IsInside a tid = record { start = refl; end = refl; offset = omega arith }

region_size :
    (a : RegionAllocator) (tid : ℕ)
    → (get_thread_local_region a tid).0 + per_thread_alloc_size ≤ (get_thread_local_region a tid).1
unfolding get_thread_local_region
region_size a tid = omega arith

-- The next buffer of a thread, after whatever requests it made before.
abbrev pub next_buffer : RegionAllocator → ℕ → List Request → ℕ → ℕ
next_buffer a tid l size = (alloc (serve l (thread_allocator a tid)) size).0

-- Two threads' buffers do not overlap, whatever each of them allocated and freed before, and lie in
-- the registered memory, if no buffer is larger than a region.
pub next_buffer-disjoint :
    (a : RegionAllocator) (s t : ℕ) (l k : List Request) (size other : ℕ)
    → s < a.thread_num
    → t < a.thread_num
    → s ≢ t
    → All IsSmall l
    → All IsSmall k
    → size ≤ per_thread_alloc_size
    → other ≤ per_thread_alloc_size
    → (a.global_mr ≤ next_buffer a s l size)
      × (next_buffer a s l size + size ≤ a.global_mr + global_mr_size a)
      × ((next_buffer a s l size + size ≤ next_buffer a t k other)
          ⊎ (next_buffer a t k other + other ≤ next_buffer a s l size))
next_buffer-disjoint a s t l k size other lt lt' ne small small' fits fits' =
    let mine =
      served-inside (get_thread_local_region a s).0 (get_thread_local_region a s).1
        (region_size a s) l (thread_allocator a s) size small (thread_allocator-IsInside a s)
        fits in
    let theirs =
      served-inside (get_thread_local_region a t).0 (get_thread_local_region a t).1
        (region_size a t) k (thread_allocator a t) other small' (thread_allocator-IsInside a t)
        fits' in
    let (low, high, apart) = get_thread_local_region-disjoint a s t lt ne in
    (
      omega (arith, mine, low),
      omega (arith, mine, high),
      elim apart [
        | inl e ↦ inl (omega (arith, mine, theirs, e))
        | inr e ↦ inr (omega (arith, mine, theirs, e))
      ],
    )
