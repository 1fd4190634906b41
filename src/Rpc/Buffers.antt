-- ===== src/Rpc/Buffers.antt =====
-- Operations on message buffers: resizing, copying received data, and the headers of the packets
-- of a message (peer/erpc/msg_buffer.h, peer/erpc/rpc.h and the header loops of
-- rpc_impl/rpc_req.cc and rpc_impl/rpc_resp.cc).
pub mod Cut
pub mod Layout
pub mod Memory
mod Tests
use rdma_yuxi.Prelude.{
  ℕ, zero, suc, ◌+◌, ◌-◌, ◌*◌, ◌%◌, ◌^◌, min, true, ltb, leb, if◌then◌else◌, ◌&&◌, ◌==◌, update,
}
use rdma_yuxi.Wire.Header.{PktHdr, PktType, Traits, pkt_hdr_magic, pkt_num_bits}
use rdma_yuxi.Wire.Sizes.{data_size_to_num_pkts}
use rdma_yuxi.Rpc.State.{MsgBuffer, Pkt}

-- `Rpc::resize_msg_buffer`, for a size that the buffer has room for, as the code asserts.
unfoldable pub resize_msg_buffer : Traits → MsgBuffer → ℕ → MsgBuffer
resize_msg_buffer tr m new_data_size = record m {
  data_size = new_data_size;
  num_pkts = data_size_to_num_pkts tr new_data_size;
}

-- `memcpy(&dst[offset], src, count)`
unfoldable pub copy_bytes : (ℕ → ℕ) → ℕ → (ℕ → ℕ) → ℕ → ℕ → ℕ
copy_bytes dst offset src count i =
    if leb offset i && ltb i (offset + count) then src (i - offset) else dst i

-- `Rpc::copy_data_to_msgbuf`
unfoldable pub copy_data_to_msgbuf : Traits → MsgBuffer → ℕ → Pkt → MsgBuffer
unfolding copy_bytes
copy_data_to_msgbuf tr m pkt_idx pkt = record m {
  bytes = copy_bytes m.bytes (pkt_idx * tr.max_data_per_pkt) pkt.payload (
      min tr.max_data_per_pkt
        ((pkt.hdr.msg_size + 2 ^ 64 - pkt_idx * tr.max_data_per_pkt) % 2 ^ 64));
}

-- The loop that copies header 0 to the `n` headers from `i` on, numbered from `base + i`.
copy_hdrs : ℕ → ℕ → ℕ → (ℕ → PktHdr) → ℕ → PktHdr
copy_hdrs zero i base f = f
copy_hdrs (suc n) i base f =
    copy_hdrs n (i + 1) base (update f i (record (f 0) { pkt_num = (base + i) % 2 ^ pkt_num_bits }))

-- Header 0 is written, then copied to the other packets of the message.
unfoldable pub fill_hdrs : MsgBuffer → PktHdr → MsgBuffer
unfolding copy_hdrs
fill_hdrs m h = record m { hdr = copy_hdrs (m.num_pkts - 1) 1 h.pkt_num (update m.hdr 0 h) }

-- `Rpc::alloc_msg_buffer`, when the allocator has memory. The header of a packet as memory holds it,
-- and header 0 with the magic that the constructor of `MsgBuffer` writes.
abbrev blank_hdr : ℕ → PktHdr
blank_hdr magic = record {
  req_type = 0;
  msg_size = 0;
  dest_session_num = 0;
  pkt_type = PktType.req;
  pkt_num = 0;
  req_num = 0;
  magic = magic;
}

unfoldable pub alloc_msg_buffer : Traits → ℕ → MsgBuffer
alloc_msg_buffer tr max_data_size = record {
  valid = true;
  dynamic = true;
  max_data_size = max_data_size;
  data_size = max_data_size;
  max_num_pkts = data_size_to_num_pkts tr max_data_size;
  num_pkts = data_size_to_num_pkts tr max_data_size;
  hdr = λ i. blank_hdr (if i == 0 then pkt_hdr_magic else 0);
  bytes = λ _. 0;
}
