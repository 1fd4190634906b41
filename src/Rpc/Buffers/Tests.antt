-- ===== src/Rpc/Buffers/Tests.antt =====
-- A buffer for a message of two packets, from a new region.
use rdma_yuxi.Prelude.{ℕ, ◌*◌, ◌^◌, some}
use rdma_yuxi.Wire.Header.{ib_traits}
use rdma_yuxi.Alloc.Huge.{Buffer, HugeAlloc, alloc_buf, new_huge_alloc}
use rdma_yuxi.Rpc.Buffers.Layout.{data_addr, get_pkthdr_n, alloc_size}

abbrev empty : HugeAlloc
empty = new_huge_alloc (8 * 2 ^ 20)

abbrev given : Buffer
given = (alloc_buf 0 empty (alloc_size ib_traits 5000) (some (4096, 1))).0

abbrev hdr_at : ℕ → ℕ
hdr_at n = get_pkthdr_n ib_traits (data_addr ib_traits given.buf) 5000 n
