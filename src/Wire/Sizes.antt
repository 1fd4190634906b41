-- ===== src/Wire/Sizes.antt =====
-- Message sizes and packet numbers: `Rpc::data_size_to_num_pkts`, `wire_pkts`, `resp_ntoi`,
-- `kMaxMsgSize` of peer/erpc/rpc.h and `MsgBuffer::get_pkt_size` of peer/erpc/msg_buffer.h.
use rdma_yuxi.Prelude.{
  ℕ, ◌+◌, ◌-◌, ◌*◌, ◌/◌, ◌%◌, ◌^◌, ◌≤◌, ◌<◌, min, ◌≡◌, arith, leb, if◌then◌else◌,
}
use native.Mathlib.Nat.{div-add-mod', mod-lt, mul-le-mul_right}
use native.Mathlib.Decide.{dec_lt}
use rdma_yuxi.Wire.Header.{Traits, pkt_num_bits, format, PktType}

-- `HugeAlloc::k_max_class_size`
abbrev pub max_class_size : ℕ
max_class_size = 8 * 2 ^ 20

module _ (tr : Traits) where
  unfoldable pub data_size_to_num_pkts : ℕ → ℕ
  data_size_to_num_pkts size =
      if leb size tr.max_data_per_pkt
      then 1
      else (size + tr.max_data_per_pkt - 1) / tr.max_data_per_pkt

  -- `kMaxMsgSize`
  unfoldable pub max_msg_size : ℕ
  max_msg_size = max_class_size - max_class_size / tr.max_data_per_pkt * tr.hdr_size

  -- The bytes of packet `pkt_idx` of a message with its header.
  unfoldable pub get_pkt_size : ℕ → ℕ → ℕ
  get_pkt_size data_size pkt_idx =
      tr.hdr_size
      + min tr.max_data_per_pkt ((data_size + 2 ^ 64 - pkt_idx * tr.max_data_per_pkt) % 2 ^ 64)

-- All packets that one endpoint sends: those of the request and all but one of the response.
unfoldable pub wire_pkts : ℕ → ℕ → ℕ
wire_pkts num_req_pkts num_resp_pkts = num_req_pkts + num_resp_pkts - 1

-- A response packet's number on the wire, as its index in the response.
unfoldable pub resp_ntoi : ℕ → ℕ → ℕ
resp_ntoi pkt_num num_req_pkts = (pkt_num + 1 + 2 ^ 64 - num_req_pkts) % 2 ^ 64

-- The quotient rounded up: `n` packets of `m` bytes hold `s` bytes, and one fewer do not.
ceil_bounds :
    (s m : ℕ)
    → 0 < m
    → let n = (s + m - 1) / m in (s ≤ n * m) × (0 < s → (n - 1) * m < s) × (0 < s → 1 ≤ n)
ceil_bounds s m h = grind (arith, div-add-mod' (s + m - 1) m, mod-lt (s + m - 1) h)

-- A message is cut into the least number of packets that hold it, and at least one.
pub data_size_to_num_pkts_bounds :
    (tr : Traits) (size : ℕ)
    → 0 < tr.max_data_per_pkt
    → (1 ≤ data_size_to_num_pkts tr size)
      × (size ≤ data_size_to_num_pkts tr size * tr.max_data_per_pkt)
      × (0 < size → (data_size_to_num_pkts tr size - 1) * tr.max_data_per_pkt < size)
unfolding data_size_to_num_pkts
data_size_to_num_pkts_bounds tr size h = ground (arith, ceil_bounds size tr.max_data_per_pkt h)

few_pkts : (a b k m x : ℕ) → a * m ≤ x → b * m ≤ x → 2 * x < k * m → a + b < k
few_pkts a b k m x ha hb hx = elim (dec_lt (a + b) k) [
  | yes h ↦ h
  | no h ↦ absurd (omega (arith, mul-le-mul_right {m = k} {n = a + b} m (omega arith)))
]

-- All packets of a message but one are full.
full_pkts :
    (tr : Traits) (size limit : ℕ)
    → 0 < tr.max_data_per_pkt
    → size ≤ limit
    → (data_size_to_num_pkts tr size - 1) * tr.max_data_per_pkt ≤ limit
unfolding data_size_to_num_pkts
full_pkts tr size limit h le = ground (arith, ceil_bounds size tr.max_data_per_pkt h)

-- The number of packets that two messages of the largest size take fits the packet number field,
-- so no header of the exchange is cut.
pub pkt_num_fits :
    (tr : Traits) (req_size resp_size pkt_num : ℕ)
    → 0 < tr.max_data_per_pkt
    → 2 * max_msg_size tr < 2 ^ pkt_num_bits * tr.max_data_per_pkt
    → req_size ≤ max_msg_size tr
    → resp_size ≤ max_msg_size tr
    → pkt_num < wire_pkts (data_size_to_num_pkts tr req_size) (data_size_to_num_pkts tr resp_size)
    → (format 0 0 0 PktType.resp pkt_num 0).pkt_num ≡ pkt_num
unfolding format wire_pkts
pkt_num_fits tr req_size resp_size pkt_num hm hs hq hp hn = omega (
  arith,
  few_pkts (data_size_to_num_pkts tr req_size - 1) (data_size_to_num_pkts tr resp_size - 1)
      (2 ^ pkt_num_bits) tr.max_data_per_pkt (max_msg_size tr) (full_pkts tr _ _ hm hq)
      (full_pkts tr _ _ hm hp) hs,
)
