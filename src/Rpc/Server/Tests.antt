-- ===== src/Rpc/Server/Tests.antt =====
-- A large request at a small server.
use rdma_yuxi.Rpc.Server.Message.{IsMessage, deliver}
use rdma_yuxi.Prelude.{◌*◌, ◌^◌, ◌≤◌, some, ◌+◌, ◌≡◌, refl, arith, true, [], ◌∷◌, ◌==◌, range}
use rdma_yuxi.Wire.Header.{PktHdr, PktType, ib_traits, pkt_hdr_magic}
use rdma_yuxi.Wire.Sizes.{data_size_to_num_pkts}
use rdma_yuxi.Rpc.State.{MsgBuffer, foreground, server, connected, Ref, Rpc, Env, slot_of}
use rdma_yuxi.Rpc.Buffers.{fill_hdrs, alloc_msg_buffer, copy_data_to_msgbuf}
use rdma_yuxi.Rpc.Open.{new_session}
use rdma_yuxi.Rpc.Tx.{
  enqueue_cr_st, enqueue_hdr_tx_burst_st, cr_hdr, drain_tx_batch_and_dma_queue, do_tx_burst_st,
  enqueue_pkt_tx_burst_st,
}
use rdma_yuxi.Rpc.Tx.Runs.{runs}
use rdma_yuxi.Rpc.Buffers.Layout.{alloc_size}
use rdma_yuxi.Alloc.Huge.{HugeAlloc, alloc_buf, largest_class_size, new_huge_alloc}
use rdma_yuxi.Alloc.Full.{new_huge_alloc-IsSized, new_huge_alloc-HasMemory}
use rdma_yuxi.Rpc.Server.{
  bury_resp_msgbuf_server_st, invoke_req_func, is_in_order_req, answer_again, count_large_req,
  return_credit, store_req_data, finish_large_req, process_large_req_one_st, resend_response,
}
use rdma_yuxi.Rpc.Server.Delivery.{deliver-bytes, deliver-runs}

abbrev env : Env
env = record {
  traits = ib_traits;
  rpc_rto_cycles = 100;
  rpc_pkt_loss_scan_cycles = 100;
  num_bg_threads = 0;
  req_func_type = λ _. foreground;
  is_uncongested = λ _. true;
}

abbrev serving : Rpc
serving = record {
  num_sessions = 1;
  live = λ i. i == 0;
  sessions = λ _. record (new_session server) { state = connected };
  stallq = [];
  active = [];
  ctrl_msgbuf_head = 0;
  tx_batch = [];
  ev_loop_tsc = 1000;
  pkt_loss_scan_tsc = 900;
  now = 1000;
  num_re_tx = 0;
  still_in_wheel_during_retx = 0;
  rand_seed = 7;
  creator_etid = 0;
  bg_enqueue_request = [];
  bg_enqueue_response = [];
  events = [];
}

abbrev slot0 : Ref
slot0 = record { sn = 0; slot = 0 }

-- A message of 5000 bytes, which is two packets, and its header.
abbrev message : MsgBuffer
message = record (alloc_msg_buffer ib_traits 5000) { bytes = λ i. i }

abbrev hdr : PktHdr
hdr = record {
  req_type = 2;
  msg_size = 5000;
  dest_session_num = 0;
  pkt_type = PktType.req;
  pkt_num = 0;
  req_num = 8;
  magic = pkt_hdr_magic;
}

message-IsMessage : IsMessage ib_traits message hdr
unfolding alloc_msg_buffer data_size_to_num_pkts
message-IsMessage = record {
  wide = omega arith;
  large = omega arith;
  size = refl;
  fits = omega arith;
  pkts = refl;
  few = omega arith;
  first = refl;
}

serving-awaits : (slot_of serving slot0).cur_req_num + 8 ≡ 8
unfolding new_session
serving-awaits = refl

two_pkts : message.num_pkts ≡ 2
unfolding alloc_msg_buffer data_size_to_num_pkts
two_pkts = refl

size_is : message.data_size ≡ 5000
unfolding alloc_msg_buffer
size_is = refl

-- Both packets, the second one also too early and too late.
abbrev after : Rpc
after = deliver ib_traits message hdr message-IsMessage env slot0 (1 ∷ 0 ∷ 1 ∷ 1 ∷ []) serving

after-num : (slot_of after slot0).cur_req_num ≡ 8
unfolding process_large_req_one_st is_in_order_req count_large_req bury_resp_msgbuf_server_st
    alloc_msg_buffer return_credit store_req_data copy_data_to_msgbuf finish_large_req
    invoke_req_func answer_again enqueue_cr_st resend_response drain_tx_batch_and_dma_queue
    enqueue_pkt_tx_burst_st fill_hdrs data_size_to_num_pkts new_session enqueue_hdr_tx_burst_st
    do_tx_burst_st cr_hdr
after-num = refl

after-all : (slot_of after slot0).server_info.num_rx ≡ message.num_pkts
unfolding process_large_req_one_st is_in_order_req count_large_req bury_resp_msgbuf_server_st
    alloc_msg_buffer return_credit store_req_data copy_data_to_msgbuf finish_large_req
    invoke_req_func answer_again enqueue_cr_st resend_response drain_tx_batch_and_dma_queue
    enqueue_pkt_tx_burst_st fill_hdrs data_size_to_num_pkts new_session enqueue_hdr_tx_burst_st
    do_tx_burst_st cr_hdr
after-all = refl

deliver-bytes_example : (slot_of after slot0).server_info.req_msgbuf.bytes 4000 ≡ 4000
deliver-bytes_example =
    deliver-bytes env message hdr message-IsMessage slot0 (1 ∷ 0 ∷ 1 ∷ 1 ∷ []) serving 4000
      (
        omega (arith, two_pkts),
        (omega (arith, two_pkts), (omega (arith, two_pkts), (omega (arith, two_pkts), tt))),
      )
      serving-awaits after-num after-all (omega (arith, size_is))

abbrev memory : HugeAlloc
memory = new_huge_alloc (8 * 2 ^ 20)

message-small : alloc_size ib_traits message.data_size ≤ largest_class_size
unfolding alloc_size alloc_msg_buffer data_size_to_num_pkts
message-small = omega arith

deliver-runs_example :
    (alloc_size ib_traits message.data_size
      ≤ (alloc_buf 0 memory (alloc_size ib_traits message.data_size) (some (4096, 1))).0.class_size)
    × ((slot_of
          (deliver ib_traits message hdr message-IsMessage env slot0
            (range 0 message.num_pkts)
            serving)
          slot0).cur_req_num
        ≡ 8)
    × ((slot_of
          (deliver ib_traits message hdr message-IsMessage env slot0
            (range 0 message.num_pkts)
            serving)
          slot0).server_info.num_rx
        ≡ message.num_pkts)
    × (runs slot0
          (deliver ib_traits message hdr message-IsMessage env slot0
            (range 0 message.num_pkts)
            serving).events
        ≡ runs slot0 serving.events + 1)
deliver-runs_example =
    deliver-runs env message hdr message-IsMessage slot0 serving 0 memory (some (4096, 1))
      serving-awaits (new_huge_alloc-IsSized (8 * 2 ^ 20)) message-small (λ h. refl)
      (new_huge_alloc-HasMemory (8 * 2 ^ 20) _ 4096 1)
