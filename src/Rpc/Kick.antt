-- ===== src/Rpc/Kick.antt =====
-- Sending what the credits allow: rpc_impl/rpc_kick.cc, and the tests of peer/erpc/rpc.h that choose
-- what to send.
pub mod Sends
pub mod Lists
pub mod Paced
pub mod Packets
mod Tests
use rdma_yuxi.Prelude.{
  ◌≡◌, refl, ℕ, zero, suc, ◌+◌, ◌-◌, ◌%◌, min, Bool, ◌&&◌, ltb, ◌==◌, if◌then◌else◌, some,
}
use rdma_yuxi.Wire.Header.{session_credits}
use rdma_yuxi.Wire.Sizes.{wire_pkts}
use rdma_yuxi.Rpc.State.{
  ClientInfo, SSlot, Session, Ref, Rpc, Env, slot_of, session_of, set_session, with_slot, tx_buf,
}
use rdma_yuxi.Rpc.Tx.{enqueue_pkt_tx_burst_st, enqueue_wheel_req_st, enqueue_rfr_st}

-- `can_bypass_wheel`
unfoldable pub can_bypass_wheel : Env → Rpc → Ref → Bool
can_bypass_wheel env r p =
    (slot_of r p).client_info.wheel_count == 0 && env.is_uncongested (session_of r p).samples

-- `ci.num_tx_++; credits--;`
unfoldable pub count_tx : Rpc → Ref → Rpc
count_tx r p =
    set_session r p.sn
      (record (with_slot s p.slot
        (record x { client_info = record ci { num_tx = ci.num_tx + 1 } })) {
          credits = s.credits - 1;
        })
  where
    s : Session
    s = session_of r p

    x : SSlot
    x = slot_of r p

    ci : ClientInfo
    ci = x.client_info

-- One round of the loop of `kick_req_st`.
unfoldable pub kick_req_one : Env → Bool → Ref → Rpc → Rpc
unfolding count_tx
kick_req_one env bypass p r =
    count_tx
      (if bypass
        then enqueue_pkt_tx_burst_st env r p num_tx (some (p, num_tx % session_credits))
        else enqueue_wheel_req_st env r p num_tx)
      p
  where
    num_tx : ℕ
    num_tx = (slot_of r p).client_info.num_tx

kick_req_loop : Env → Bool → Ref → ℕ → Rpc → Rpc
kick_req_loop env bypass p zero r = r
kick_req_loop env bypass p (suc n) r = kick_req_loop env bypass p n (kick_req_one env bypass p r)

-- `kick_req_st`, for a slot that has sent no more packets than its request has: there the difference
-- of the two, of type size_t, is a difference of natural numbers. The code asserts that there are
-- credits.
unfoldable pub kick_req_st : Env → Rpc → Ref → Rpc
unfolding kick_req_loop
kick_req_st env r p =
    kick_req_loop env (can_bypass_wheel env r p) p
      (min (session_of r p).credits
        ((tx_buf (slot_of r p)).num_pkts - (slot_of r p).client_info.num_tx))
      r

-- One round of the loop of `kick_rfr_st`.
unfoldable pub kick_rfr_one : Env → Ref → Rpc → Rpc
unfolding count_tx
kick_rfr_one env p r =
    count_tx (enqueue_rfr_st env r p ((slot_of r p).client_info.resp_msgbuf.hdr 0)) p

kick_rfr_loop : Env → Ref → ℕ → Rpc → Rpc
kick_rfr_loop env p zero r = r
kick_rfr_loop env p (suc n) r = kick_rfr_loop env p n (kick_rfr_one env p r)

-- The packets that the client sends for the slot's request, once the response's size is known.
abbrev pub slot_wire_pkts : SSlot → ℕ
unfolding wire_pkts
slot_wire_pkts x = wire_pkts (tx_buf x).num_pkts x.client_info.resp_msgbuf.num_pkts

pub slot_wire_pkts_lem :
    (x : SSlot)
    → slot_wire_pkts x ≡ wire_pkts (tx_buf x).num_pkts x.client_info.resp_msgbuf.num_pkts
unfolding slot_wire_pkts
slot_wire_pkts_lem x = refl

-- `kick_rfr_st`, for a slot that has sent no more packets than are to be sent, and with credits, as the
-- code asserts.
unfoldable pub kick_rfr_st : Env → Rpc → Ref → Rpc
unfolding kick_rfr_loop wire_pkts
kick_rfr_st env r p =
    kick_rfr_loop env p
      (min (session_of r p).credits
        (slot_wire_pkts (slot_of r p) - (slot_of r p).client_info.num_tx))
      r

-- `req_pkts_pending`
unfoldable pub req_pkts_pending : SSlot → Bool
req_pkts_pending x = ltb x.client_info.num_tx (tx_buf x).num_pkts

-- The choice that several callers make between the two kicks.
unfoldable pub kick_st : Env → Rpc → Ref → Rpc
unfolding req_pkts_pending
kick_st env r p =
    if req_pkts_pending (slot_of r p) then kick_req_st env r p else kick_rfr_st env r p
