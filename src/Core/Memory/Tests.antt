-- ===== src/Core/Memory/Tests.antt =====
-- Two threads and their buffers.
use rdma_yuxi.Prelude.{◌+◌, ◌≤◌, ◌≡◌, ◌⊎◌, refl, arith, List, [], ◌∷◌, All}
use rdma_yuxi.Core.Memory.{
  RegionAllocator, new_region_allocator, global_mr_size, BufferAllocator, new_buffer_allocator,
  alloc,
}
use rdma_yuxi.Core.Memory.Threads.{Request, allocs, frees, next_buffer, next_buffer-disjoint}
use rdma_yuxi.Core.Memory.Reuse.{buffers, IsApart, alloc-kept}

abbrev machine : RegionAllocator
machine = new_region_allocator 4096 2

abbrev requests : List Request
requests = allocs 64 ∷ frees 4096 ∷ allocs 16 ∷ []

two_threads : machine.thread_num ≡ 2
unfolding new_region_allocator
two_threads = refl

next_buffer-disjoint_example :
    (machine.global_mr ≤ next_buffer machine 0 requests 32)
    × (next_buffer machine 0 requests 32 + 32 ≤ machine.global_mr + global_mr_size machine)
    × ((next_buffer machine 0 requests 32 + 32 ≤ next_buffer machine 1 [] 64)
        ⊎ (next_buffer machine 1 [] 64 + 64 ≤ next_buffer machine 0 requests 32))
next_buffer-disjoint_example =
    next_buffer-disjoint machine 0 1 requests [] 32 64 (omega (arith, two_threads))
      (omega (arith, two_threads)) (λ e. ground (arith, e)) (omega arith, (tt, (omega arith, tt)))
      tt (omega arith) (omega arith)

-- A region of 64 bytes; the third buffer is at its front again.
abbrev small : BufferAllocator
small = new_buffer_allocator 100 164

abbrev used : BufferAllocator
used = record small { cur_offset = 30 }

used-range : (used.start ≡ 100) × (used.end ≡ 164)
unfolding new_buffer_allocator
used-range = (refl, refl)

third_wraps : buffers (16 ∷ 10 ∷ 14 ∷ []) used ≡ (130, 16) ∷ (146, 10) ∷ (100, 14) ∷ []
unfolding new_buffer_allocator buffers alloc
third_wraps = refl

alloc-kept_example :
    All (λ q. IsApart (alloc used 16).0 16 q.0 q.1) (buffers (10 ∷ 14 ∷ []) (alloc used 16).1)
alloc-kept_example =
    alloc-kept used 16 14 (10 ∷ 14 ∷ []) (omega arith, (omega arith, tt))
      (omega (arith, used-range))
