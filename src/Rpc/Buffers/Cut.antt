-- ===== src/Rpc/Buffers/Cut.antt =====
-- A message cut into packets, and put together again.
use native.Mathlib.Nat.{mul-le-mul_right, add-mul}
use native.Mathlib.Decide.{dec_lt}
use rdma_yuxi.Prelude.{
  ℕ, zero, suc, ◌+◌, ◌-◌, ◌*◌, ◌%◌, ◌^◌, ◌<◌, ◌≡◌, refl, sym, ◌∙◌, ap, arith, leb, ltb, ◌&&◌,
  if◌then◌else◌, update,
}
use rdma_yuxi.Wire.Header.{PktHdr, Traits, pkt_num_bits}
use rdma_yuxi.Wire.Sizes.{data_size_to_num_pkts, data_size_to_num_pkts_bounds}
use rdma_yuxi.Rpc.State.{MsgBuffer, Pkt}
use rdma_yuxi.Rpc.Buffers.{copy_hdrs, fill_hdrs, copy_bytes, copy_data_to_msgbuf}

-- Packet `i` of a message as the transport delivers it: its header and its share of the data.
abbrev pub packet_of : Traits → MsgBuffer → ℕ → Pkt
packet_of tr m i = record { hdr = m.hdr i; payload = λ j. m.bytes (i * tr.max_data_per_pkt + j) }

-- Header 0 with a packet's number.
abbrev pub numbered : PktHdr → ℕ → PktHdr
numbered h i = record h { pkt_num = (h.pkt_num + i) % 2 ^ pkt_num_bits }

copy_hdrs_lem :
    (n i base : ℕ) (f : ℕ → PktHdr) (j : ℕ)
    → 0 < i
    → copy_hdrs n i base f j ≡ (
        if leb i j && ltb j (i + n)
        then record (f 0) { pkt_num = (base + j) % 2 ^ pkt_num_bits }
        else f j)
unfolding copy_hdrs
copy_hdrs_lem zero i base f j pos = ground arith
copy_hdrs_lem (suc n) i base f j pos = ground (
  arith,
  copy_hdrs_lem n (i + 1) base
      (update f i (record (f 0) { pkt_num = (base + i) % 2 ^ pkt_num_bits })) j,
)

-- Every packet of a message carries header 0 with its own number.
pub hdr-fill_hdrs :
    (m : MsgBuffer) (h : PktHdr) (i : ℕ)
    → h.pkt_num < 2 ^ pkt_num_bits
    → i < m.num_pkts
    → (fill_hdrs m h).hdr i ≡ numbered h i
unfolding fill_hdrs
hdr-fill_hdrs m h i fits lt =
    ground (arith, copy_hdrs_lem (m.num_pkts - 1) 1 h.pkt_num (update m.hdr 0 h) i)

-- All packets but the last are full.
pub pkt-lt-size :
    (tr : Traits) (size i : ℕ)
    → 0 < tr.max_data_per_pkt
    → 0 < size
    → i < data_size_to_num_pkts tr size
    → i * tr.max_data_per_pkt < size
pkt-lt-size tr size i wide pos lt = omega (
  arith,
  (data_size_to_num_pkts_bounds tr size wide).2 pos,
  mul-le-mul_right {m = i} {n = data_size_to_num_pkts tr size - 1} tr.max_data_per_pkt
      (omega arith),
)

-- The data of packet `i` go to their place, and what stands before them stays.
pub bytes-copy_data :
    (tr : Traits) (d m : MsgBuffer) (i j : ℕ)
    → m.data_size < 2 ^ 64
    → (m.hdr i).msg_size ≡ m.data_size
    → i * tr.max_data_per_pkt < m.data_size
    → j < m.data_size
    → j < (i + 1) * tr.max_data_per_pkt
    → (copy_data_to_msgbuf tr d i (packet_of tr m i)).bytes j
      ≡ (if ltb j (i * tr.max_data_per_pkt) then d.bytes j else m.bytes j)
unfolding copy_data_to_msgbuf copy_bytes
bytes-copy_data tr d m i j fits size lt inside below = elim (dec_lt j (i * tr.max_data_per_pkt)) [
  | yes before ↦ ground arith
  | no after ↦ ground (
    arith,
    add-mul i 1 tr.max_data_per_pkt,
    (let e : (m.data_size + 2 ^ 64 - i * tr.max_data_per_pkt) % 2 ^ 64
            ≡ m.data_size - i * tr.max_data_per_pkt =
          omega arith in
        e),
    ap m.bytes
        (let e : i * tr.max_data_per_pkt + (j - i * tr.max_data_per_pkt) ≡ j = omega arith in e),
  )
]

fill_hdrs_same :
    (b : MsgBuffer) (h : PktHdr)
    → ((fill_hdrs b h).data_size ≡ b.data_size) × ((fill_hdrs b h).bytes ≡ b.bytes)
unfolding fill_hdrs
fill_hdrs_same b h = (refl, refl)

-- The next packet of a message that `fill_hdrs` prepared: its data are put behind those that are
-- there.
pub bytes-next_packet :
    (tr : Traits) (d b : MsgBuffer) (h : PktHdr) (i j : ℕ)
    → 0 < tr.max_data_per_pkt
    → 0 < b.data_size
    → b.data_size < 2 ^ 24
    → i < data_size_to_num_pkts tr b.data_size
    → ((fill_hdrs b h).hdr i).msg_size ≡ b.data_size
    → j < b.data_size
    → j < (i + 1) * tr.max_data_per_pkt
    → (j < i * tr.max_data_per_pkt → d.bytes j ≡ b.bytes j)
    → (copy_data_to_msgbuf tr d i (packet_of tr (fill_hdrs b h) i)).bytes j ≡ b.bytes j
bytes-next_packet tr d b h i j wide pos fits lt size inside below before =
    let (same, data_is) = fill_hdrs_same b h in
    ground (
      arith,
      bytes-copy_data tr d (fill_hdrs b h) i j (omega (arith, same, fits)) (size ∙ sym same)
          (omega (arith, pkt-lt-size tr b.data_size i wide pos lt, same))
          (omega (arith, same, inside)) below,
      before,
      ap (λ f. f j) data_is,
    )
