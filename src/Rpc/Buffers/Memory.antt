-- ===== src/Rpc/Buffers/Memory.antt =====
-- The memory of a message buffer is the hugepage allocator's.
use rdma_yuxi.Prelude.{ℕ, ◌*◌, ◌/◌, ◌%◌, ◌≤◌, ◌<◌, ◌≡◌, Option}
use rdma_yuxi.Wire.Header.{Traits}
use rdma_yuxi.Wire.Sizes.{data_size_to_num_pkts, max_msg_size}
use rdma_yuxi.Alloc.Huge.{
  Buffer, HugeAlloc, alloc_buf, get_class, largest_class_size, min_class_size,
}
use rdma_yuxi.Alloc.Cover.{IsSized}
use rdma_yuxi.Alloc.Full.{HasMemory}
use rdma_yuxi.Rpc.Buffers.Layout.{data_addr, get_pkthdr_n, alloc_size}

module _ (tr : Traits) (wide : 0 < tr.max_data_per_pkt) (aligned : tr.hdr_size % 8 ≡ 0)
    (hdrs : tr.max_data_per_pkt ≤ largest_class_size / tr.max_data_per_pkt * tr.hdr_size) (size : ℕ)
    (pos : 0 < size) (le : size ≤ max_msg_size tr) where
  abbrev pkts : ℕ
  pkts = data_size_to_num_pkts tr size

  abbrev full : ℕ
  full = largest_class_size / tr.max_data_per_pkt

  module _ (undef : ℕ) (h : HugeAlloc) (region : Option (ℕ × ℕ)) (v : IsSized h)
      (small : alloc_size tr size ≤ min_class_size → undef ≡ 0)
      (memory : HasMemory h (get_class undef (alloc_size tr size)) region) where
    abbrev b : Buffer
    b = (alloc_buf undef h (alloc_size tr size) region).0

    abbrev at : ℕ → ℕ
    at n = get_pkthdr_n tr (data_addr tr b.buf) size n
