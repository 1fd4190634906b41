-- ===== src/Rpc/Server/Message.antt =====
-- A message that a client cut into packets, as the server counts and stores them.
use rdma_yuxi.Prelude.{
  ℕ, ◌+◌, ◌*◌, ◌^◌, ◌≤◌, ◌<◌, ◌≡◌, refl, ap, sym, ◌∙◌, subst, arith, Bool, true, false, ◌==◌,
  if◌then◌else◌, List, [], ◌∷◌,
}
use rdma_yuxi.Wire.Header.{PktHdr, Traits, session_req_window, pkt_num_bits}
use rdma_yuxi.Wire.Sizes.{data_size_to_num_pkts}
use rdma_yuxi.Rpc.State.{MsgBuffer, Pkt, Ref, Rpc, Env}
use rdma_yuxi.Rpc.Buffers.{fill_hdrs, alloc_msg_buffer, copy_data_to_msgbuf}
use rdma_yuxi.Rpc.Buffers.Cut.{packet_of, numbered, hdr-fill_hdrs, bytes-next_packet}
use rdma_yuxi.Rpc.Server.{process_large_req_one_st}
use rdma_yuxi.Rpc.Server.Reassembly.{View, taken}

-- A message as `enqueue_request` cuts it: header 0 has its size and number 0, and the packets are as
-- many as the size needs.
pub record IsMessage (tr : Traits) (b : MsgBuffer) (h : PktHdr) : Type 0 where
  pub wide : 0 < tr.max_data_per_pkt
  pub large : tr.max_data_per_pkt < b.data_size
  pub size : h.msg_size ≡ b.data_size
  pub fits : b.data_size < 2 ^ 24
  pub pkts : b.num_pkts ≡ data_size_to_num_pkts tr b.data_size
  pub few : b.num_pkts ≤ 2 ^ pkt_num_bits
  pub first : h.pkt_num ≡ 0

module _ (tr : Traits) (b : MsgBuffer) (h : PktHdr) (ok : IsMessage tr b h) where
  -- The packets that the transport carries.
  abbrev pub packet : ℕ → Pkt
  packet i = packet_of tr (fill_hdrs b h) i

  -- The request is not here yet, or its first `k` packets are counted and their data in place.
  abbrev pub IsPrefix : View → Type 0
  IsPrefix (q, k, m) =
      (q ≡ h.req_num)
      × (1 ≤ k)
      × (k ≤ b.num_pkts)
      × (m.num_pkts ≡ b.num_pkts)
      × ((j : ℕ) → j < b.data_size → j < k * tr.max_data_per_pkt → m.bytes j ≡ b.bytes j)

  abbrev pub IsAwaiting : View → Type 0
  IsAwaiting (q, k, m) = q + session_req_window ≡ h.req_num

  module _ (i : ℕ) (lt : i < b.num_pkts) where
    hdr_is : (packet i).hdr ≡ numbered h i
    hdr_is = hdr-fill_hdrs b h i (omega (arith, ok.first)) lt

    pub pkt_num-packet : (packet i).hdr.pkt_num ≡ i
    pkt_num-packet = ap (λ g. g.pkt_num) hdr_is ∙ omega (arith, ok.first, ok.few)

    pub req_num-packet : (packet i).hdr.req_num ≡ h.req_num
    req_num-packet = ap (λ g. g.req_num) hdr_is

    msg_size-packet : (packet i).hdr.msg_size ≡ b.data_size
    msg_size-packet = ap (λ g. g.msg_size) hdr_is ∙ ok.size

    num_pkts-alloc : (alloc_msg_buffer tr (packet i).hdr.msg_size).num_pkts ≡ b.num_pkts
    unfolding alloc_msg_buffer
    num_pkts-alloc = ap (data_size_to_num_pkts tr) msg_size-packet ∙ sym ok.pkts

    num_pkts-copy :
        (m : MsgBuffer) (k : ℕ) → (copy_data_to_msgbuf tr m k (packet i)).num_pkts ≡ m.num_pkts
    unfolding copy_data_to_msgbuf
    num_pkts-copy m k = refl

    -- The data of the packet are put behind those that are there.
    bytes-packet :
        (m : MsgBuffer) (j : ℕ)
        → j < b.data_size
        → j < (i + 1) * tr.max_data_per_pkt
        → (j < i * tr.max_data_per_pkt → m.bytes j ≡ b.bytes j)
        → (copy_data_to_msgbuf tr m i (packet i)).bytes j ≡ b.bytes j
    bytes-packet m j inside =
        bytes-next_packet tr m b h i j ok.wide (omega (arith, ok.large)) ok.fits
          (omega (arith, ok.pkts, lt)) msg_size-packet inside

    -- By the packet's number.
    abbrev pub by_num : View → Bool → ℕ → View
    by_num v c k =
        if c
        then (
          (packet i).hdr.req_num,
          1,
          copy_data_to_msgbuf tr (alloc_msg_buffer tr (packet i).hdr.msg_size) k (packet i),
        )
        else (v.0, v.1 + 1, copy_data_to_msgbuf tr v.2 k (packet i))

    pub taken-packet : (v : View) → taken tr (packet i) v ≡ by_num v (i == 0) i
    taken-packet v = ap (λ k. by_num v (k == 0) k) pkt_num-packet

    pub first-IsPrefix : (v : View) → i ≡ 0 → IsPrefix (taken tr (packet i) v)
    first-IsPrefix v zero_is =
        subst IsPrefix
          (sym
            (taken-packet v ∙ ap (λ c. by_num v c i) (let e : i == 0 ≡ true = ground arith in e)))
          (
            req_num-packet,
            omega arith,
            omega arith,
            num_pkts-copy (alloc_msg_buffer tr (packet i).hdr.msg_size) i ∙ num_pkts-alloc,
            λ j inside below.
                bytes-packet (alloc_msg_buffer tr (packet i).hdr.msg_size) j inside
                  (omega (arith, zero_is, below))
                  (λ before.
                    absurd (omega (arith, before, ap (λ t. t * tr.max_data_per_pkt) zero_is))),
          )

    pub next-IsPrefix : (v : View) → i ≡ v.1 → IsPrefix v → IsPrefix (taken tr (packet i) v)
    next-IsPrefix v same (num, one, le, pkts, data_is) =
        subst IsPrefix
          (sym
            (taken-packet v ∙ ap (λ c. by_num v c i) (let e : i == 0 ≡ false = ground arith in e)))
          (
            num,
            omega arith,
            omega (arith, same, lt),
            num_pkts-copy v.2 i ∙ pkts,
            λ j inside below.
                bytes-packet v.2 j inside
                  (subst (λ t. j < (t + 1) * tr.max_data_per_pkt) (sym same) below)
                  (λ before.
                    data_is j inside (subst (λ t. j < t * tr.max_data_per_pkt) same before)),
          )

  -- Packets arrive at the slot `p`, by their indices.
  abbrev pub deliver : Env → Ref → List ℕ → Rpc → Rpc
  deliver env p [] r = r
  deliver env p (i ∷ l) r = deliver env p l (process_large_req_one_st env r p (packet i))
