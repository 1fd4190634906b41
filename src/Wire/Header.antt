-- ===== src/Wire/Header.antt =====
-- peer/erpc/pkthdr.h, and the constants of peer/erpc/sm_types.h and peer/erpc/common.h that
-- the data path uses. A bit field keeps its wrap-around written out.
use rdma_yuxi.Prelude.{ℕ, ◌-◌, ◌%◌, ◌^◌, Bool, ◌&&◌, true, false, ◌==◌}

-- `kSessionCredits`, `kSessionReqWindow`, `kPktHdrMagic`.
abbrev pub session_credits : ℕ
session_credits = 32

abbrev pub session_req_window : ℕ
session_req_window = 8

abbrev pub pkt_hdr_magic : ℕ
pkt_hdr_magic = 11

-- `kInvalidReqType`
abbrev pub invalid_req_type : ℕ
invalid_req_type = 255

-- `kInvalidBgETid`: the thread id that stands for the dispatch thread
abbrev pub invalid_bg_etid : ℕ
invalid_bg_etid = 8

-- The widths of the bit fields.
abbrev pub msg_size_bits : ℕ
msg_size_bits = 24

abbrev pub req_num_bits : ℕ
req_num_bits = 44

abbrev pub pkt_num_bits : ℕ
pkt_num_bits = 14

pub data PktType : Type 0 where
  req rfr expl_cr resp : PktType

abbrev pub pkt_type_eq : PktType → PktType → Bool
pkt_type_eq PktType.req PktType.req = true
pkt_type_eq PktType.rfr PktType.rfr = true
pkt_type_eq PktType.expl_cr PktType.expl_cr = true
pkt_type_eq PktType.resp PktType.resp = true
pkt_type_eq _ _ = false

-- `pkthdr_t` without its headroom.
pub record PktHdr : Type 0 where
  pub req_type : ℕ
  pub msg_size : ℕ
  pub dest_session_num : ℕ
  pub pkt_type : PktType
  pub pkt_num : ℕ
  pub req_num : ℕ
  pub magic : ℕ

-- `pkthdr_t::format`: each value is cut to its field.
unfoldable pub format : ℕ → ℕ → ℕ → PktType → ℕ → ℕ → PktHdr
format req_type msg_size dest_session_num pkt_type pkt_num req_num = record {
  req_type = req_type % 2 ^ 8;
  msg_size = msg_size % 2 ^ msg_size_bits;
  dest_session_num = dest_session_num % 2 ^ 16;
  pkt_type = pkt_type;
  pkt_num = pkt_num % 2 ^ pkt_num_bits;
  req_num = req_num % 2 ^ req_num_bits;
  magic = pkt_hdr_magic;
}

unfoldable pub matches : PktHdr → PktType → ℕ → Bool
matches h t n = pkt_type_eq h.pkt_type t && h.pkt_num == n

unfoldable pub check_magic : PktHdr → Bool
check_magic h = h.magic == pkt_hdr_magic

-- What the RPC layer takes from its transport: `kMaxDataPerPkt`, `sizeof(pkthdr_t)`, `kUnsigBatch`
-- and `kPostlist`.
pub record Traits : Type 0 where
  pub max_data_per_pkt : ℕ
  pub hdr_size : ℕ
  pub unsig_batch : ℕ
  pub postlist : ℕ

-- `IBTransport` on InfiniBand, which the server links: an MTU of 3840 and a header of 16 bytes.
abbrev pub ib_traits : Traits
ib_traits = record { max_data_per_pkt = 3840 - 16; hdr_size = 16; unsig_batch = 64; postlist = 16 }
