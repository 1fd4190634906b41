-- ===== src/Rpc/Credits/Responses/Stored.antt =====
-- What a response packet leaves in the slot keeps the invariant of client sessions.
use rdma_yuxi.Prelude.{
  ℕ, ◌+◌, ◌-◌, ◌≤◌, ◌<◌, ◌≡◌, ◌≢◌, ◌⊎◌, ap, ◌∙◌, arith, inl, inr, true, false, leb, ◌==◌,
  Bool-cases, update,
}
use rdma_yuxi.Wire.Header.{PktHdr, session_req_window}
use rdma_yuxi.Wire.Sizes.{data_size_to_num_pkts, data_size_to_num_pkts_bounds, wire_pkts, resp_ntoi}
use rdma_yuxi.Rpc.State.{MsgBuffer, Pkt, SSlot, Ref, Rpc, Env, slot_of, tx_buf}
use rdma_yuxi.Rpc.Buffers.{resize_msg_buffer, copy_bytes, copy_data_to_msgbuf}
use rdma_yuxi.Rpc.Kick.{kick_rfr_st, slot_wire_pkts}
use rdma_yuxi.Rpc.Kick.Sends.{still, kick_rfr_st-Sends}
use rdma_yuxi.Rpc.Response.{set_resp, store_small_resp, size_resp, request_rest, store_large_resp}
use rdma_yuxi.Rpc.Credits.{is_null, AllSound}
use rdma_yuxi.Rpc.Credits.Kicks.{kick_rfr_st-IsSound}
use rdma_yuxi.Rpc.Credits.Responses.{set_resp-IsSound}

-- What a server's response packet satisfies: it follows the request's packets, of which there is one
-- at least, and a response in one packet is the first packet.
abbrev pub IsResponse : Env → SSlot → PktHdr → Type 0
IsResponse env x h =
    (1 ≤ (tx_buf x).num_pkts)
    × ((tx_buf x).num_pkts ≤ h.pkt_num + 1)
    × (leb h.msg_size env.max_data_per_pkt ≡ true → h.pkt_num + 1 ≡ (tx_buf x).num_pkts)

-- At the slot, a request of `n` packets is active, and `k` packets are answered.
abbrev pub IsAnswered : Ref → ℕ → ℕ → Rpc → Type 0
IsAnswered p n k q =
    (is_null (slot_of q p).tx_msgbuf ≡ false)
    × ((tx_buf (slot_of q p)).num_pkts ≡ n)
    × ((slot_of q p).client_info.num_rx ≡ k)

-- The request has nothing outstanding, in sound sessions.
abbrev pub IsReady : Ref → Rpc → Type 0
IsReady p q =
    (is_null (slot_of q p).tx_msgbuf ≡ false)
    × ((slot_of q p).client_info.num_tx ≡ (slot_of q p).client_info.num_rx)
    × AllSound q

pub slot-set_resp :
    (q : Rpc) (p : Ref) (b : MsgBuffer) (n k : ℕ)
    → IsAnswered p n k q
    → IsAnswered p n k (set_resp q p b)
slot-set_resp q p b n k (a, m, c) = (ground (arith, a), ground (arith, m), ground (arith, c))

pub num_tx-set_resp :
    (q : Rpc) (p : Ref) (b : MsgBuffer)
    → (slot_of (set_resp q p b) p).client_info.num_tx ≡ (slot_of q p).client_info.num_tx
num_tx-set_resp q p b = ground arith

module _ (env : Env) (wide : 0 < env.max_data_per_pkt) (p : Ref) (lt : p.slot < session_req_window)
    (pkt : Pkt) (n k : ℕ) where
  pub small_pkts :
      leb pkt.hdr.msg_size env.max_data_per_pkt ≡ true
      → data_size_to_num_pkts env.traits pkt.hdr.msg_size ≡ 1
  unfolding data_size_to_num_pkts
  small_pkts h = ground (arith, h)

  -- The response in one packet leaves nothing outstanding.
  pub small-IsReady :
      (q : Rpc)
      → IsAnswered p n k q
      → AllSound q
      → leb pkt.hdr.msg_size env.max_data_per_pkt ≡ true
      → k ≡ n
      → (slot_of q p).client_info.num_tx ≤ n
      → IsReady p (store_small_resp env q p pkt)
  unfolding store_small_resp resize_msg_buffer
  small-IsReady q ans all small last le = (
    after.0,
    omega (
      arith,
      after.2,
      num_tx-set_resp q p b,
      (all p.sn).sound p.slot lt,
      ((all p.sn).sound p.slot lt).ordered,
      ans.2,
      last,
      le,
    ),
    set_resp-IsSound q p lt ans.0 b (omega (arith, small_pkts small))
        (ground (arith, ans.1, ans.2, small_pkts small, le, last)) all,
  )
    where
      b : MsgBuffer
      b =
          record (resize_msg_buffer env.traits (slot_of q p).client_info.resp_msgbuf
            pkt.hdr.msg_size) {
              hdr = update (slot_of q p).client_info.resp_msgbuf.hdr 0 pkt.hdr;
              bytes =
                  copy_bytes (slot_of q p).client_info.resp_msgbuf.bytes 0 pkt.payload
                    pkt.hdr.msg_size;
            }

      after : IsAnswered p n k (set_resp q p b)
      after = slot-set_resp q p b n k ans

  pub size_resp-IsSound :
      (q : Rpc)
      → IsAnswered p n k q
      → AllSound q
      → n ≤ k
      → (slot_of q p).client_info.num_tx ≤ n ⊎ (pkt.hdr.pkt_num ≢ n - 1)
      → AllSound (size_resp env q p pkt) × IsAnswered p n k (size_resp env q p pkt)
  unfolding size_resp resize_msg_buffer
  size_resp-IsSound q ans all le first =
      elim (Bool-cases (pkt.hdr.pkt_num == (tx_buf (slot_of q p)).num_pkts - 1)) [
        | inl e ↦ rw e (
          set_resp-IsSound q p lt ans.0 b
              (data_size_to_num_pkts_bounds env.traits pkt.hdr.msg_size wide).0
              (ground (
                arith,
                ans.1,
                ans.2,
                le,
                first,
                data_size_to_num_pkts_bounds env.traits pkt.hdr.msg_size wide,
              ))
              all,
          slot-set_resp q p b n k ans,
        )
        | inr e ↦ rw e (all, ans)
      ]
    where
      b : MsgBuffer
      b =
          record (resize_msg_buffer env.traits (slot_of q p).client_info.resp_msgbuf
            pkt.hdr.msg_size) { hdr = update (slot_of q p).client_info.resp_msgbuf.hdr 0 pkt.hdr }

  pub request_rest-IsSound :
      (q : Rpc)
      → IsAnswered p n k q
      → AllSound q
      → n ≤ k
      → AllSound (request_rest env q p) × IsAnswered p n k (request_rest env q p)
  unfolding request_rest
  request_rest-IsSound q (a, m, c) all le =
      elim (Bool-cases ((slot_of q p).client_info.num_tx == slot_wire_pkts (slot_of q p))) [
        | inl e ↦ rw e (all, (a, m, c))
        | inr e ↦ rw e (
          λ sn. kick_rfr_st-IsSound env q p lt a (omega (arith, m, c, le)) (all p.sn) sn (all sn),
          (
            ap (λ z. is_null z.tx_msgbuf) same ∙ a,
            ap (λ z. (tx_buf z).num_pkts) same ∙ m,
            ap (λ z. z.client_info.num_rx) same ∙ c,
          ),
        )
      ]
    where
      same : still (slot_of (kick_rfr_st env q p) p) ≡ still (slot_of q p)
      same = (kick_rfr_st-Sends env q p p.sn p.slot).1

  pub store_large_resp-IsSound :
      (q : Rpc)
      → IsAnswered p n k q
      → AllSound q
      → n ≤ k
      → (slot_of q p).client_info.num_tx ≤ n ⊎ (pkt.hdr.pkt_num ≢ n - 1)
      → AllSound (store_large_resp env q p pkt) × IsAnswered p n k (store_large_resp env q p pkt)
  unfolding store_large_resp copy_data_to_msgbuf
  store_large_resp-IsSound q ans all le first = (
    set_resp-IsSound t p lt t-IsSound.1.0 b
        (((t-IsSound.0 p.sn).sound p.slot lt).sized t-IsSound.1.0)
        (ground (arith, (t-IsSound.0 p.sn).sound p.slot lt, t-IsSound.1)) t-IsSound.0,
    slot-set_resp t p b n k t-IsSound.1,
  )
    where
      opened : Rpc
      opened = size_resp env q p pkt

      t : Rpc
      t = request_rest env opened p

      t-IsSound : AllSound t × IsAnswered p n k t
      t-IsSound =
          request_rest-IsSound opened (size_resp-IsSound q ans all le first).1
            (size_resp-IsSound q ans all le first).0 le

      b : MsgBuffer
      b =
          copy_data_to_msgbuf env.traits (slot_of t p).client_info.resp_msgbuf
            (resp_ntoi pkt.hdr.pkt_num (tx_buf (slot_of t p)).num_pkts) pkt

  -- Nor does the last packet of a larger one.
  pub finish-IsReady :
      (q : Rpc)
      → IsAnswered p n k q
      → AllSound q
      → n ≤ k
      → ((slot_of q p).client_info.num_rx == slot_wire_pkts (slot_of q p)) ≡ true
      → IsReady p q
  unfolding wire_pkts
  finish-IsReady q (a, m, c) all le e =
      (a, ground (arith, (all p.sn).sound p.slot lt, a, m, c, le, e), all)
