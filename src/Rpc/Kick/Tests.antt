-- ===== src/Rpc/Kick/Tests.antt =====
-- Kicks of a slot with a request of three packets and two credits, and of one that waits for the rest
-- of its response.
use rdma_yuxi.Prelude.{ℕ, ◌+◌, ◌<◌, ◌≤◌, ◌≡◌, arith, true, ◌==◌, if◌then◌else◌, [], ◌∷◌, update}
use rdma_yuxi.Wire.Header.{ib_traits}
use rdma_yuxi.Wire.Sizes.{data_size_to_num_pkts, wire_pkts}
use rdma_yuxi.Rpc.State.{
  foreground, client, connected, user, ClientInfo, SSlot, Session, Ref, Rpc, Env, slot_of,
  session_of, tx_buf,
}
use rdma_yuxi.Rpc.Buffers.{alloc_msg_buffer}
use rdma_yuxi.Rpc.Open.{new_session}
use rdma_yuxi.Rpc.Tx.Handed.{handed, wheel_of}
use rdma_yuxi.Rpc.Kick.{kick_req_st, kick_rfr_st, can_bypass_wheel, slot_wire_pkts}
use rdma_yuxi.Rpc.Kick.Sends.{Sends, req_quota, rfr_quota}
use rdma_yuxi.Rpc.Kick.Packets.{
  each, req_item, wheel_item, rfr_item, kick_req_st-packets, kick_rfr_st-packets,
}

abbrev env : Env
env = record {
  traits = ib_traits;
  rpc_rto_cycles = 100;
  rpc_pkt_loss_scan_cycles = 100;
  num_bg_threads = 0;
  req_func_type = λ _. foreground;
  is_uncongested = λ _. true;
}

abbrev slot0 : Ref
slot0 = record { sn = 0; slot = 0 }

-- A slot that has sent `n` packets of a request of `size` bytes.
abbrev slot : ℕ → ℕ → SSlot
slot size n = record x {
  tx_msgbuf = user (alloc_msg_buffer ib_traits size);
  cur_req_num = 8;
  client_info = record ci { resp_msgbuf = alloc_msg_buffer ib_traits 8000; num_tx = n; num_rx = n };
}
  where
    x : SSlot
    x = (new_session client).slots 0

    ci : ClientInfo
    ci = x.client_info

abbrev session : ℕ → ℕ → Session
session size n = record (new_session client) {
  state = connected;
  slots = update (new_session client).slots 0 (slot size n);
  credits = 2;
}

abbrev calling : ℕ → ℕ → Rpc
calling size n = record {
  num_sessions = 1;
  live = λ i. i == 0;
  sessions = λ _. session size n;
  stallq = [];
  active = slot0 ∷ [];
  ctrl_msgbuf_head = 0;
  tx_batch = [];
  ev_loop_tsc = 1000;
  pkt_loss_scan_tsc = 900;
  now = 1000;
  num_re_tx = 0;
  still_in_wheel_during_retx = 0;
  rand_seed = 7;
  creator_etid = 0;
  bg_enqueue_request = [];
  bg_enqueue_response = [];
  events = [];
}

abbrev asking : Rpc
asking = calling 10000 0

-- The request had one packet, and the first of the two packets of the response is there.
abbrev getting : Rpc
getting = calling 16 1

asking-more : (slot_of asking slot0).client_info.num_tx < (tx_buf (slot_of asking slot0)).num_pkts
unfolding alloc_msg_buffer data_size_to_num_pkts new_session
asking-more = omega arith

getting-more : (slot_of getting slot0).client_info.num_tx < slot_wire_pkts (slot_of getting slot0)
unfolding alloc_msg_buffer data_size_to_num_pkts new_session wire_pkts slot_wire_pkts
getting-more = omega arith

kick_req_st-packets_example :
    (0 < req_quota asking slot0)
    × (0 + req_quota asking slot0 ≤ (tx_buf (slot_of asking slot0)).num_pkts)
    × (handed (kick_req_st env asking slot0) ≡ (
        if can_bypass_wheel env asking slot0
        then each
            (req_item slot0 (tx_buf (slot_of asking slot0)))
            0
            (req_quota asking slot0)
            (handed asking)
        else handed asking))
    × (wheel_of (kick_req_st env asking slot0).events ≡ (
        if can_bypass_wheel env asking slot0
        then wheel_of asking.events
        else each
            (wheel_item ib_traits slot0 (tx_buf (slot_of asking slot0)))
            0
            (req_quota asking slot0)
            (wheel_of asking.events)))
    × Sends asking (kick_req_st env asking slot0) slot0 (req_quota asking slot0)
kick_req_st-packets_example = kick_req_st-packets env asking slot0 (omega arith) asking-more

kick_rfr_st-packets_example :
    (0 < rfr_quota getting slot0)
    × (1 + rfr_quota getting slot0 ≤ slot_wire_pkts (slot_of getting slot0))
    × (handed (kick_rfr_st env getting slot0)
        ≡ each
            (rfr_item
              (session_of getting slot0).remote_session_num
              ((slot_of getting slot0).client_info.resp_msgbuf.hdr 0)
              slot0)
            1
            (rfr_quota getting slot0)
            (handed getting))
    × (wheel_of (kick_rfr_st env getting slot0).events ≡ wheel_of getting.events)
    × Sends getting (kick_rfr_st env getting slot0) slot0 (rfr_quota getting slot0)
kick_rfr_st-packets_example = kick_rfr_st-packets env getting slot0 (omega arith) getting-more
