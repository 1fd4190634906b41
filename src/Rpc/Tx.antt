-- ===== src/Rpc/Tx.antt =====
-- Transmission: the TX batch, the control packets and the timing wheel's entry point
-- (peer/erpc/rpc.h, rpc_impl/rpc_cr.cc and rpc_impl/rpc_rfr.cc).
pub mod Frame
pub mod Counts
pub mod Handed
pub mod Runs
pub mod Lists
use rdma_yuxi.Prelude.{
  ℕ, ◌+◌, ◌*◌, ◌%◌, ◌^◌, true, ltb, ◌==◌, if◌then◌else◌, Option, none, some, List, [], ◌∷◌, length,
  update,
}
use rdma_yuxi.Wire.Header.{PktHdr, PktType, session_credits, pkt_hdr_magic, pkt_num_bits}
use rdma_yuxi.Wire.Sizes.{get_pkt_size}
use rdma_yuxi.Rpc.State.{
  MsgBuffer, ClientInfo, Ref, TxItem, burst, flush, wheel_insert, Rpc, Env, slot_of, session_of,
  set_client, tx_buf, log,
}

-- One iteration of the loop over the batch: stamp the packet's TX timestamp, if it has a place.
stamp : ℕ → Option (Ref × ℕ) → Rpc → Rpc
stamp tsc none r = r
stamp tsc (some (p, i)) r = set_client r p (record ci { tx_ts = update ci.tx_ts i tsc })
  where
    ci : ClientInfo
    ci = (slot_of r p).client_info

stamp_all : ℕ → List TxItem → Rpc → Rpc
unfolding stamp
stamp_all tsc [] r = r
stamp_all tsc (x ∷ xs) r = stamp_all tsc xs (stamp tsc x.tx_ts r)

-- `do_tx_burst_st`
unfoldable pub do_tx_burst_st : Rpc → Rpc
unfolding stamp_all
do_tx_burst_st r = record (log (stamp_all r.now r.tx_batch r) (burst r.tx_batch)) { tx_batch = [] }

-- The end of both `enqueue_*_tx_burst_st`: a full batch is sent.
enqueue_item : Env → Rpc → TxItem → Rpc
unfolding do_tx_burst_st
enqueue_item env r x =
    if length (x ∷ r.tx_batch) == env.postlist
    then do_tx_burst_st (record r { tx_batch = x ∷ r.tx_batch })
    else record r { tx_batch = x ∷ r.tx_batch }

-- `enqueue_pkt_tx_burst_st`
unfoldable pub enqueue_pkt_tx_burst_st : Env → Rpc → Ref → ℕ → Option (Ref × ℕ) → Rpc
unfolding enqueue_item
enqueue_pkt_tx_burst_st env r p pkt_idx tx_ts =
    enqueue_item env r
      (record { dest = p.sn; msg_buffer = tx_buf (slot_of r p); pkt_idx = pkt_idx; tx_ts = tx_ts })

-- `enqueue_hdr_tx_burst_st`
unfoldable pub enqueue_hdr_tx_burst_st : Env → Rpc → Ref → MsgBuffer → Option (Ref × ℕ) → Rpc
unfolding enqueue_item
enqueue_hdr_tx_burst_st env r p ctrl_msgbuf tx_ts =
    enqueue_item env r
      (record { dest = p.sn; msg_buffer = ctrl_msgbuf; pkt_idx = 0; tx_ts = tx_ts })

-- `drain_tx_batch_and_dma_queue`
unfoldable pub drain_tx_batch_and_dma_queue : Rpc → Rpc
unfolding do_tx_burst_st
drain_tx_batch_and_dma_queue r =
    log (if ltb 0 (length r.tx_batch) then do_tx_burst_st r else r) flush

-- The control buffer that a header goes into: 8 bytes of data, one packet.
abbrev pub ctrl_buf : PktHdr → MsgBuffer
ctrl_buf h = record {
  valid = true;
  dynamic = true;
  max_data_size = 8;
  data_size = 8;
  max_num_pkts = 1;
  num_pkts = 1;
  hdr = λ _. h;
  bytes = λ _. 0;
}

-- `ctrl_msgbuf_head_++`, going round at `2 * kUnsigBatch`.
next_ctrl : Env → Rpc → Rpc
next_ctrl env r = record r {
  ctrl_msgbuf_head =
      if r.ctrl_msgbuf_head + 1 == 2 * env.unsig_batch then 0 else r.ctrl_msgbuf_head + 1;
}

-- The header of a credit return for a request packet.
unfoldable pub cr_hdr : Rpc → Ref → PktHdr → PktHdr
cr_hdr r p h = record {
  req_type = h.req_type;
  msg_size = 0;
  dest_session_num = (session_of r p).remote_session_num;
  pkt_type = PktType.expl_cr;
  pkt_num = h.pkt_num;
  req_num = h.req_num;
  magic = pkt_hdr_magic;
}

-- `enqueue_cr_st`
unfoldable pub enqueue_cr_st : Env → Rpc → Ref → PktHdr → Rpc
unfolding enqueue_hdr_tx_burst_st next_ctrl cr_hdr
enqueue_cr_st env r p h =
    enqueue_hdr_tx_burst_st env (next_ctrl env r) p (ctrl_buf (cr_hdr r p h)) none

-- The header of a request for response; its number is `num_tx`, cut to the field.
unfoldable pub rfr_hdr : Rpc → Ref → PktHdr → PktHdr
rfr_hdr r p h = record {
  req_type = h.req_type;
  msg_size = 0;
  dest_session_num = (session_of r p).remote_session_num;
  pkt_type = PktType.rfr;
  pkt_num = (slot_of r p).client_info.num_tx % 2 ^ pkt_num_bits;
  req_num = h.req_num;
  magic = pkt_hdr_magic;
}

-- `enqueue_rfr_st`
unfoldable pub enqueue_rfr_st : Env → Rpc → Ref → PktHdr → Rpc
unfolding enqueue_hdr_tx_burst_st next_ctrl rfr_hdr
enqueue_rfr_st env r p h =
    enqueue_hdr_tx_burst_st env (next_ctrl env r) p (ctrl_buf (rfr_hdr r p h))
      (some (p, (rfr_hdr r p h).pkt_num % session_credits))

-- `enqueue_wheel_req_st`: the wheel gets the packet's number and, for its pacing, its size.
unfoldable pub enqueue_wheel_req_st : Env → Rpc → Ref → ℕ → Rpc
enqueue_wheel_req_st env r p pkt_num =
    set_client
      (log r
        (wheel_insert p pkt_num (get_pkt_size env.traits (tx_buf (slot_of r p)).data_size pkt_num)))
      p
      (record ci {
        in_wheel = update ci.in_wheel (pkt_num % session_credits) true;
        wheel_count = ci.wheel_count + 1;
      })
  where
    ci : ClientInfo
    ci = (slot_of r p).client_info
