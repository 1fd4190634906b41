-- ===== src/Rpc/Tests.antt =====
-- The data path on small states.
use rdma_yuxi.Rpc.Credits.Responses.Stored.{IsResponse}
use rdma_yuxi.Rpc.Server.Quiet.{IsOnce}
use rdma_yuxi.Prelude.{◌≡◌, ◌≤◌, refl, arith, true, false, [], ◌∷◌, ◌==◌}
use rdma_yuxi.Wire.Header.{PktHdr, PktType, ib_traits, pkt_hdr_magic}
use rdma_yuxi.Rpc.State.{
  Pkt, foreground, client, server, connected, Ref, EnqReqArgs, Rpc, Env, slot_of,
}
use rdma_yuxi.Wire.Sizes.{data_size_to_num_pkts}
use rdma_yuxi.Rpc.Tx.{do_tx_burst_st, enqueue_pkt_tx_burst_st, enqueue_wheel_req_st}
use rdma_yuxi.Rpc.Buffers.{fill_hdrs, alloc_msg_buffer}
use rdma_yuxi.Rpc.Kick.{req_pkts_pending, can_bypass_wheel, count_tx, kick_req_one, kick_req_st}
use rdma_yuxi.Rpc.Client.{
  start_request, start_slot, req_hdr, enqueue_request_st, process_expl_cr_st, in_order_client,
  count_rx, take_cr,
}
use rdma_yuxi.Rpc.Loss.{pkt_loss_scan_st}
use rdma_yuxi.Rpc.Open.{new_session, new_session-IsSound}
use rdma_yuxi.Rpc.Credits.{is_null, AllSound}
use rdma_yuxi.Rpc.Credits.Receive.{process_expl_cr_st-IsSound}
use rdma_yuxi.Rpc.Response.{process_resp_one_st}
use rdma_yuxi.Rpc.Credits.Responses.Packets.{process_resp_one_st-IsSound}
use rdma_yuxi.Rpc.Credits.Requests.{enqueue_request_st-IsSound}
use rdma_yuxi.Rpc.Credits.Steps.{ClientSteps, ClientSteps-credits}
use rdma_yuxi.Rpc.Credits.{in_flight}
use rdma_yuxi.Wire.Header.{session_credits}
use rdma_yuxi.Prelude.{◌+◌}
use rdma_yuxi.Rpc.Credits.Loss.{pkt_loss_scan_st-IsSound}
use rdma_yuxi.Rpc.Server.{process_small_req_st}
use rdma_yuxi.Rpc.Server.Once.{ServerSteps, small, done, step, ServerSteps-IsOnce}

abbrev env : Env
env = record {
  traits = ib_traits;
  rpc_rto_cycles = 100;
  rpc_pkt_loss_scan_cycles = 100;
  num_bg_threads = 0;
  req_func_type = λ _. foreground;
  is_uncongested = λ _. true;
}

abbrev idle : Rpc
idle = record {
  num_sessions = 1;
  live = λ i. i == 0;
  sessions = λ _. new_session client;
  stallq = [];
  active = [];
  ctrl_msgbuf_head = 0;
  tx_batch = [];
  ev_loop_tsc = 1000;
  pkt_loss_scan_tsc = 900;
  now = 1000;
  num_re_tx = 0;
  still_in_wheel_during_retx = 0;
  rand_seed = 7;
  creator_etid = 0;
  bg_enqueue_request = [];
  bg_enqueue_response = [];
  events = [];
}

-- A request of two packets, with a response buffer of one.
abbrev args : EnqReqArgs
args = record {
  session_num = 0;
  req_type = 2;
  req_msgbuf = alloc_msg_buffer ib_traits 5000;
  resp_msgbuf = alloc_msg_buffer ib_traits 16;
  cont_func = 3;
  tag = 4;
  cont_etid = 8;
}

abbrev slot0 : Ref
slot0 = record { sn = 0; slot = 0 }

abbrev sent : Rpc
sent = enqueue_request_st env idle args

idle-IsSound : AllSound idle
idle-IsSound sn = new_session-IsSound client

args-HasResp : 1 ≤ args.resp_msgbuf.num_pkts
unfolding alloc_msg_buffer data_size_to_num_pkts
args-HasResp = omega arith

sent-IsSound : AllSound sent
sent-IsSound = enqueue_request_st-IsSound env idle args args-HasResp idle-IsSound

sent-active : is_null (slot_of sent slot0).tx_msgbuf ≡ false
unfolding enqueue_request_st start_request start_slot req_hdr fill_hdrs alloc_msg_buffer
    data_size_to_num_pkts kick_req_st kick_req_one count_tx can_bypass_wheel enqueue_wheel_req_st
    enqueue_pkt_tx_burst_st do_tx_burst_st new_session
sent-active = refl

sent-listed : sent.active ≡ slot0 ∷ []
unfolding enqueue_request_st start_request start_slot req_hdr fill_hdrs alloc_msg_buffer
    data_size_to_num_pkts kick_req_st kick_req_one count_tx can_bypass_wheel enqueue_wheel_req_st
    enqueue_pkt_tx_burst_st do_tx_burst_st new_session
sent-listed = refl

-- A credit return for the first packet.
abbrev credit_return : PktHdr
credit_return = record {
  req_type = 2;
  msg_size = 0;
  dest_session_num = 0;
  pkt_type = PktType.expl_cr;
  pkt_num = 0;
  req_num = 8;
  magic = pkt_hdr_magic;
}

enqueue_request_st-IsSound_example : AllSound (enqueue_request_st env sent args)
enqueue_request_st-IsSound_example =
    enqueue_request_st-IsSound env sent args args-HasResp sent-IsSound

-- The first packet's credit is back, and the response comes in one packet.
abbrev credited : Rpc
credited = process_expl_cr_st env sent slot0 credit_return 1500

credited-IsSound : AllSound credited
credited-IsSound =
    process_expl_cr_st-IsSound env sent slot0 credit_return 1500 (omega arith) sent-active
      sent-IsSound

abbrev response : Pkt
response = record {
  hdr = record credit_return { pkt_type = PktType.resp; msg_size = 16; pkt_num = 1 };
  payload = λ i. i;
}

credited-active : is_null (slot_of credited slot0).tx_msgbuf ≡ false
unfolding enqueue_request_st start_request start_slot req_hdr fill_hdrs alloc_msg_buffer
    data_size_to_num_pkts kick_req_st kick_req_one count_tx can_bypass_wheel enqueue_wheel_req_st
    enqueue_pkt_tx_burst_st do_tx_burst_st new_session process_expl_cr_st in_order_client count_rx
    take_cr req_pkts_pending
credited-active = refl

answer_pkt-IsResponse : IsResponse env (slot_of credited slot0) response.hdr
unfolding enqueue_request_st start_request start_slot req_hdr fill_hdrs alloc_msg_buffer
    data_size_to_num_pkts kick_req_st kick_req_one count_tx can_bypass_wheel enqueue_wheel_req_st
    enqueue_pkt_tx_burst_st do_tx_burst_st new_session process_expl_cr_st in_order_client count_rx
    take_cr req_pkts_pending
answer_pkt-IsResponse = (omega arith, omega arith, λ _. refl)

process_resp_one_st-IsSound_example :
    AllSound (process_resp_one_st env credited slot0 response 1600)
process_resp_one_st-IsSound_example =
    process_resp_one_st-IsSound env (omega arith) credited slot0 response 1600 (omega arith)
      credited-active credited-IsSound answer_pkt-IsResponse

-- The request, the credit return and the response in one run.
answered-steps : ClientSteps env idle (process_resp_one_st env credited slot0 response 1600)
answered-steps =
    ClientSteps.responses credited slot0 response 1600
      (ClientSteps.credit_returns sent slot0 credit_return 1500
        (ClientSteps.requests idle args ClientSteps.begin args-HasResp) (omega arith, sent-active))
      (omega arith, credited-active) answer_pkt-IsResponse

ClientSteps-credits_example :
    (((process_resp_one_st env credited slot0 response 1600).sessions 0).credits
        + in_flight ((process_resp_one_st env credited slot0 response 1600).sessions 0)
      ≡ session_credits)
    × (in_flight ((process_resp_one_st env credited slot0 response 1600).sessions 0)
        ≤ session_credits)
ClientSteps-credits_example =
    ClientSteps-credits env idle (process_resp_one_st env credited slot0 response 1600) 0
      (omega arith) idle-IsSound answered-steps

-- The same request, so late that its packets count as lost.
abbrev late : Rpc
late = record sent { ev_loop_tsc = 1500; active = slot0 ∷ [] }

pkt_loss_scan_st-IsSound_example : AllSound (pkt_loss_scan_st env late)
pkt_loss_scan_st-IsSound_example =
    pkt_loss_scan_st-IsSound env late ((omega arith, sent-active), tt) sent-IsSound

-- A server that gets the same request in one packet twice.
abbrev serving : Rpc
serving = record idle { sessions = λ _. record (new_session server) { state = connected } }

abbrev small_req : Pkt
small_req = record {
  hdr = record credit_return { pkt_type = PktType.req; msg_size = 16 };
  payload = λ i. i;
}

abbrev once : Rpc
once = process_small_req_st env serving slot0 small_req

abbrev twice : Rpc
twice = process_small_req_st env once slot0 small_req

both : ServerSteps env slot0 serving twice
both =
    step serving once twice (small serving small_req refl)
      (step once twice twice (small once small_req refl) (done twice))

ServerSteps-IsOnce_example : IsOnce serving twice slot0
ServerSteps-IsOnce_example = ServerSteps-IsOnce env slot0 serving twice both
