-- ===== src/Rpc/Response/Tests.antt =====
-- A large response at a small client.
use rdma_yuxi.Prelude.{ℕ, false, ◌+◌, ◌≡◌, refl, arith, true, [], ◌∷◌, ◌==◌, update}
use rdma_yuxi.Wire.Header.{PktHdr, PktType, ib_traits, pkt_hdr_magic, invalid_bg_etid}
use rdma_yuxi.Wire.Sizes.{data_size_to_num_pkts, resp_ntoi, wire_pkts}
use rdma_yuxi.Rpc.State.{
  MsgBuffer, foreground, client, connected, user, ClientInfo, SSlot, Session, Ref, Rpc, Env,
  slot_of,
}
use rdma_yuxi.Rpc.Buffers.{fill_hdrs, alloc_msg_buffer, resize_msg_buffer, copy_data_to_msgbuf}
use rdma_yuxi.Rpc.Open.{new_session}
use rdma_yuxi.Rpc.Kick.{kick_rfr_st, kick_rfr_one, count_tx}
use rdma_yuxi.Rpc.Tx.{enqueue_rfr_st, enqueue_hdr_tx_burst_st, rfr_hdr, do_tx_burst_st}
use rdma_yuxi.Rpc.Client.{in_order_client, count_rx}
use rdma_yuxi.Rpc.Response.{
  free_slot, start_backlog, invoke_cont, complete, size_resp, request_rest, store_large_resp,
  finish_large_resp, take_resp, process_resp_one_st,
}
use rdma_yuxi.Rpc.Response.Parts.{view}
use rdma_yuxi.Rpc.Kick.Paced.{conts}
use rdma_yuxi.Rpc.Response.Clocked.{in_turn, deliver_resp-ends}
use rdma_yuxi.Rpc.Response.Delivery.{IsReply, IsExpecting, deliver_resp, deliver_resp-bytes}

abbrev env : Env
env = record {
  traits = ib_traits;
  rpc_rto_cycles = 100;
  rpc_pkt_loss_scan_cycles = 100;
  num_bg_threads = 0;
  req_func_type = λ _. foreground;
  is_uncongested = λ _. true;
}

abbrev slot0 : Ref
slot0 = record { sn = 0; slot = 0 }

-- The slot has sent its request of 16 bytes, the eighth of the session.
abbrev slot : SSlot
slot = record x {
  tx_msgbuf = user (alloc_msg_buffer ib_traits 16);
  cur_req_num = 8;
  client_info = record ci {
    resp_msgbuf = alloc_msg_buffer ib_traits 8000;
    num_tx = 1;
    num_rx = 0;
    cont_etid = invalid_bg_etid;
  };
}
  where
    x : SSlot
    x = (new_session client).slots 0

    ci : ClientInfo
    ci = x.client_info

abbrev asked : Session
asked = record (new_session client) {
  state = connected;
  slots = update (new_session client).slots 0 slot;
  credits = 31;
  sslot_free_vec = [];
}

abbrev calling : Rpc
calling = record {
  num_sessions = 1;
  live = λ i. i == 0;
  sessions = λ _. asked;
  stallq = [];
  active = slot0 ∷ [];
  ctrl_msgbuf_head = 0;
  tx_batch = [];
  ev_loop_tsc = 1000;
  pkt_loss_scan_tsc = 900;
  now = 1000;
  num_re_tx = 0;
  still_in_wheel_during_retx = 0;
  rand_seed = 7;
  creator_etid = 0;
  bg_enqueue_request = [];
  bg_enqueue_response = [];
  events = [];
}

-- A response of 5000 bytes, which is two packets, and its header.
abbrev message : MsgBuffer
message = record (alloc_msg_buffer ib_traits 5000) { bytes = λ i. i }

abbrev hdr : PktHdr
hdr = record {
  req_type = 2;
  msg_size = 5000;
  dest_session_num = 0;
  pkt_type = PktType.resp;
  pkt_num = 0;
  req_num = 8;
  magic = pkt_hdr_magic;
}

message-IsReply : IsReply ib_traits message hdr
unfolding alloc_msg_buffer data_size_to_num_pkts
message-IsReply = record {
  wide = omega arith;
  large = omega arith;
  size = refl;
  fits = omega arith;
  pkts = refl;
  few = omega arith;
}

two_pkts : message.num_pkts ≡ 2
unfolding alloc_msg_buffer data_size_to_num_pkts
two_pkts = refl

size_is : message.data_size ≡ 5000
unfolding alloc_msg_buffer
size_is = refl

-- Both packets, the second one also too early and too late.
abbrev after : Rpc
after =
    deliver_resp env message hdr message-IsReply slot0 ((1, 5) ∷ (0, 6) ∷ (1, 7) ∷ (1, 8) ∷ [])
      calling

calling-expects : IsExpecting env message hdr message-IsReply slot0 (view calling slot0)
unfolding new_session alloc_msg_buffer data_size_to_num_pkts
calling-expects = (refl, refl, refl, refl, omega arith)

after-all : (slot_of after slot0).client_info.num_rx ≡ 0 + message.num_pkts
unfolding process_resp_one_st take_resp finish_large_resp store_large_resp request_rest size_resp
    complete invoke_cont start_backlog free_slot in_order_client count_rx kick_rfr_st kick_rfr_one
    count_tx enqueue_rfr_st enqueue_hdr_tx_burst_st rfr_hdr do_tx_burst_st fill_hdrs
    alloc_msg_buffer resize_msg_buffer copy_data_to_msgbuf data_size_to_num_pkts resp_ntoi wire_pkts
    new_session
after-all = refl

deliver_resp-bytes_example :
    ((slot_of after slot0).client_info.resp_msgbuf.bytes 4500 ≡ 4500)
    × ((slot_of after slot0).client_info.resp_msgbuf.num_pkts ≡ message.num_pkts)
deliver_resp-bytes_example =
    deliver_resp-bytes env message hdr message-IsReply slot0
      ((1, 5) ∷ (0, 6) ∷ (1, 7) ∷ (1, 8) ∷ []) calling 4500
      (
        omega (arith, two_pkts),
        (omega (arith, two_pkts), (omega (arith, two_pkts), (omega (arith, two_pkts), tt))),
      )
      calling-expects after-all (omega (arith, size_is))

-- The two packets in order.
one_asked : (slot_of calling slot0).client_info.num_tx ≡ 1
unfolding new_session
one_asked = refl

none_in_wheel : (w : ℕ) → (slot_of calling slot0).client_info.in_wheel w ≡ false
unfolding new_session
none_in_wheel w = refl

deliver_resp-ends_example :
    ((slot_of
        (deliver_resp env message hdr message-IsReply slot0
          (in_turn env message hdr message-IsReply slot0 (λ k. 10 + k) 0 message.num_pkts)
          calling)
        slot0).client_info.num_rx
      ≡ 0 + message.num_pkts)
    × (conts
          (deliver_resp env message hdr message-IsReply slot0
            (in_turn env message hdr message-IsReply slot0 (λ k. 10 + k) 0 message.num_pkts)
            calling).events
        ≡ conts calling.events + 1)
deliver_resp-ends_example =
    deliver_resp-ends env message hdr message-IsReply slot0 (λ k. 10 + k) calling calling-expects
      (omega (arith, one_asked)) (omega (arith, one_asked, two_pkts)) none_in_wheel
