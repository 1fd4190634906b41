-- ===== src/Core/Memory.antt =====
-- The memory of the compute threads: core/allocator/region_allocator.h, which gives each thread its
-- region, and core/allocator/buffer_allocator.h, which gives out the buffers of a region.
pub mod Threads
pub mod Reuse
mod Tests
use rdma_yuxi.Prelude.{ℕ, ◌+◌, ◌*◌, ◌≤◌, ◌<◌, ◌≡◌, ◌≢◌, ◌⊎◌, arith, ltb, if◌then◌else◌}

-- `PER_THREAD_ALLOC_SIZE`
abbrev pub per_thread_alloc_size : ℕ
per_thread_alloc_size = 500 * 1024 * 1024

pub record RegionAllocator : Type 0 where
  pub global_mr : ℕ
  pub thread_num : ℕ

-- `RDMARegionAllocator()`, given the memory that `malloc` returns; that it is set to zero and
-- registered with the device is not in the state.
unfoldable pub new_region_allocator : ℕ → ℕ → RegionAllocator
new_region_allocator memory thread_num_per_machine = record {
  global_mr = memory;
  thread_num = thread_num_per_machine;
}

-- `RDMARegionAllocator`'s buffer has this many bytes.
unfoldable pub global_mr_size : RegionAllocator → ℕ
global_mr_size a = a.thread_num * per_thread_alloc_size

unfoldable pub get_thread_local_region : RegionAllocator → ℕ → ℕ × ℕ
get_thread_local_region a tid =
    (a.global_mr + tid * per_thread_alloc_size, a.global_mr + (tid + 1) * per_thread_alloc_size)

-- `RDMABufferAllocator` over the range from `start` to `end`.
pub record BufferAllocator : Type 0 where
  pub start : ℕ
  pub end : ℕ
  pub cur_offset : ℕ

-- `RDMABufferAllocator()`
unfoldable pub new_buffer_allocator : ℕ → ℕ → BufferAllocator
new_buffer_allocator s e = record { start = s; end = e; cur_offset = 0 }

-- `Alloc`: the next buffer, or the first once the region is used up.
unfoldable pub alloc : BufferAllocator → ℕ → ℕ × BufferAllocator
alloc b size =
    (wrapped.start + wrapped.cur_offset, record wrapped { cur_offset = wrapped.cur_offset + size })
  where
    wrapped : BufferAllocator
    wrapped = if ltb b.end (b.start + b.cur_offset + size) then record b { cur_offset = 0 } else b

-- `Free` does nothing.
unfoldable pub free : BufferAllocator → ℕ → BufferAllocator
free b p = b

-- The regions of the threads are inside the registered memory, and two threads' regions do not
-- overlap: one ends before the other starts.
pub get_thread_local_region-disjoint :
    (a : RegionAllocator) (s t : ℕ)
    → s < a.thread_num
    → s ≢ t
    → (a.global_mr ≤ (get_thread_local_region a s).0)
      × ((get_thread_local_region a s).1 ≤ a.global_mr + global_mr_size a)
      × (((get_thread_local_region a s).1 ≤ (get_thread_local_region a t).0)
          ⊎ ((get_thread_local_region a t).1 ≤ (get_thread_local_region a s).0))
unfolding get_thread_local_region global_mr_size
get_thread_local_region-disjoint a s t lt ne = ground arith

-- A buffer that is not larger than the region is given out inside the region, with the offset left
-- inside as well, and it starts where the last one ended or at the region's start.
pub alloc_bounds :
    (b : BufferAllocator) (size : ℕ)
    → b.start + size ≤ b.end
    → b.start + b.cur_offset ≤ b.end
    → (b.start ≤ (alloc b size).0)
      × ((alloc b size).0 + size ≤ b.end)
      × ((alloc b size).1.start + (alloc b size).1.cur_offset ≤ b.end)
      × (((alloc b size).0 ≡ b.start + b.cur_offset) ⊎ ((alloc b size).0 ≡ b.start))
unfolding alloc
alloc_bounds b size fits inside = ground arith
