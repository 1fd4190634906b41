-- ===== src/Alloc/Tests.antt =====
-- The hugepage allocator on small states.
use rdma_yuxi.Prelude.{◌+◌, ◌≡◌, ◌<◌, refl, arith, [], some}
use rdma_yuxi.Alloc.Huge.{
  Buffer, HugeAlloc, get_class, get_class_slow, msb_index, bit_scan_reverse, alloc_buf, free_buf,
  num_classes,
}
use rdma_yuxi.Alloc.Classes.{get_class-get_class_slow}
use rdma_yuxi.Alloc.Full.{HasMemory, alloc_buf-HasMemory}
use rdma_yuxi.Alloc.Steps.{HugeSteps, HugeSteps-count}
use rdma_yuxi.Alloc.Huge.{
  class_max_size, alloc_larger, next_class, after_reserve, reserve_hugepages, push_buffers,
  split_down, split, split_last, alloc_from_class, alloc_last,
}
use rdma_yuxi.Prelude.{◌≤◌}
use rdma_yuxi.Alloc.Cover.{region_count, count, free_count}
use rdma_yuxi.Alloc.Cover.Give.{IsGiven, alloc_buf-IsGiven}

get_class-get_class_slow_example : get_class 0 5000 ≡ get_class_slow 5000
get_class-get_class_slow_example =
    get_class-get_class_slow 0 5000 (omega arith) (omega arith) (λ h. refl)

-- An allocator without memory, which gets a region at 4096.
abbrev empty : HugeAlloc
empty = record {
  freelist = λ i. [];
  prev_allocation_size = 8388608;
  shm_reserved = 0;
  user_alloc_tot = 0;
}

class_of : get_class 0 100 < num_classes
unfolding get_class msb_index bit_scan_reverse
class_of = omega arith

alloc_buf-IsGiven_example :
    IsGiven 5000 empty (some (4096, 1)) (get_class 0 100) (alloc_buf 0 empty 100 (some (4096, 1)))
alloc_buf-IsGiven_example = alloc_buf-IsGiven 0 5000 empty 100 (some (4096, 1)) class_of (λ i. tt)

abbrev given : Buffer
given = record { buf = 4096; class_size = 100; lkey = 1 }

-- A region of the system in place of free buffers.
alloc_buf-HasMemory_example :
    (alloc_buf 0 empty 100 (some (4096, 1))).0.class_size ≡ class_max_size (get_class 0 100)
alloc_buf-HasMemory_example =
    alloc_buf-HasMemory 0 empty 100 (some (4096, 1)) class_of (λ i. tt)
      (HasMemory.from_system 4096 1 refl (omega arith))

-- The state and the buffer after an allocation of 100 bytes.
abbrev used : HugeAlloc
used = (alloc_buf 0 empty 100 (some (4096, 1))).1

abbrev held : Buffer
held = (alloc_buf 0 empty 100 (some (4096, 1))).0

held-size : held.class_size ≡ 128
unfolding alloc_buf get_class msb_index bit_scan_reverse alloc_larger next_class after_reserve
    reserve_hugepages push_buffers split_down split split_last alloc_from_class alloc_last
held-size = refl

class_of_128 : get_class 0 128 ≡ 1
unfolding get_class msb_index bit_scan_reverse
class_of_128 = refl

held-fits : held.class_size ≡ class_max_size (get_class 0 held.class_size)
unfolding class_max_size
held-fits = rw (held-size, class_of_128) refl

held-class : get_class 0 held.class_size < num_classes
held-class = rw (held-size, class_of_128) (omega arith)

-- An allocation, and the buffer freed again.
freed-steps :
    HugeSteps 0 4100 empty
      (free_buf 0 used held)
      []
      (0 + region_count 4100 16777216 (some (4096, 1)))
freed-steps =
    HugeSteps.frees used [] [] held _
      (HugeSteps.allocs empty [] 0 100 (some (4096, 1)) HugeSteps.begin class_of) held-fits
      held-class

HugeSteps-count_example :
    free_count 4100 (free_buf 0 used held) + count 4100 []
    ≤ free_count 4100 empty + (0 + region_count 4100 16777216 (some (4096, 1)))
HugeSteps-count_example =
    HugeSteps-count (free_buf 0 used held) [] (0 + region_count 4100 16777216 (some (4096, 1)))
      freed-steps (λ i. tt)
