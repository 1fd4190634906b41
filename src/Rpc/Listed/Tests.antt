-- ===== src/Rpc/Listed/Tests.antt =====
-- A client's first request, in two rounds of its event loop.
use rdma_yuxi.Prelude.{◌≤◌, refl, arith, true, [], ◌∷◌, ◌==◌}
use rdma_yuxi.Wire.Header.{PktType, ib_traits, pkt_hdr_magic}
use rdma_yuxi.Wire.Sizes.{data_size_to_num_pkts}
use rdma_yuxi.Rpc.State.{Pkt, foreground, client, connected, EnqReqArgs, Rpc, Env}
use rdma_yuxi.Rpc.Open.{new_session, new_session-IsSound}
use rdma_yuxi.Rpc.Buffers.{alloc_msg_buffer}
use rdma_yuxi.Rpc.Client.{enqueue_request}
use rdma_yuxi.Rpc.EvLoop.{run_event_loop_do_one_st}
use rdma_yuxi.Rpc.Credits.{AllSound, in_flight_cong}
use rdma_yuxi.Rpc.Listed.Receive.{IsClient}
use rdma_yuxi.Rpc.Listed.Rounds.{AreFromServer, ClientRounds, ClientRounds-IsClient}

abbrev env : Env
env = record {
  traits = ib_traits;
  rpc_rto_cycles = 100;
  rpc_pkt_loss_scan_cycles = 100;
  num_bg_threads = 0;
  req_func_type = λ _. foreground;
  is_uncongested = λ _. true;
}

abbrev idle : Rpc
idle = record {
  num_sessions = 1;
  live = λ i. i == 0;
  sessions = λ _. record (new_session client) { state = connected };
  stallq = [];
  active = [];
  ctrl_msgbuf_head = 0;
  tx_batch = [];
  ev_loop_tsc = 1000;
  pkt_loss_scan_tsc = 900;
  now = 1000;
  num_re_tx = 0;
  still_in_wheel_during_retx = 0;
  rand_seed = 7;
  creator_etid = 0;
  bg_enqueue_request = [];
  bg_enqueue_response = [];
  events = [];
}

-- A request of two packets, with a response buffer of one.
abbrev args : EnqReqArgs
args = record {
  session_num = 0;
  req_type = 2;
  req_msgbuf = alloc_msg_buffer ib_traits 5000;
  resp_msgbuf = alloc_msg_buffer ib_traits 16;
  cont_func = 3;
  tag = 4;
  cont_etid = 8;
}

args-HasResp : 1 ≤ args.resp_msgbuf.num_pkts
unfolding alloc_msg_buffer data_size_to_num_pkts
args-HasResp = omega arith

idle-IsSound : AllSound idle
idle-IsSound sn =
    let v = new_session-IsSound client in
    let s = record (new_session client) { state = connected } in
    record {
      conserved = omega (arith, in_flight_cong (new_session client) s (λ j. refl), v.conserved);
      sound = v.sound;
      free_iff = v.free_iff;
      free_lt = v.free_lt;
      distinct = v.distinct;
      backlog_sized = v.backlog_sized;
    }

idle-IsClient : IsClient idle
unfolding new_session
idle-IsClient = record {
  sound = idle-IsSound;
  listed = record { once = λ a. ground arith; stalled = λ a. omega arith };
  queued = tt;
  no_responses = refl;
}

-- The credit return for the first packet, twice.
abbrev credit_return : Pkt
credit_return = record {
  hdr = record {
    req_type = 2;
    msg_size = 0;
    dest_session_num = 0;
    pkt_type = PktType.expl_cr;
    pkt_num = 0;
    req_num = 8;
    magic = pkt_hdr_magic;
  };
  payload = λ _. 0;
}

abbrev sent : Rpc
sent = enqueue_request env idle 0 args

abbrev credited : Rpc
credited =
    run_event_loop_do_one_st env 1500 (credit_return ∷ credit_return ∷ []) []
      (record sent { now = 1501 })

from_server :
    AreFromServer env
      (record sent { ev_loop_tsc = 1500; now = 1501 })
      (credit_return ∷ credit_return ∷ [])
unfolding AreFromServer
from_server = (tt, (tt, tt))

credited-ClientRounds : ClientRounds env idle credited
credited-ClientRounds =
    ClientRounds.rounds sent 1500 1501 (credit_return ∷ credit_return ∷ []) []
      (ClientRounds.calls idle 0 args ClientRounds.begin args-HasResp) from_server

ClientRounds-IsClient_example : IsClient credited
ClientRounds-IsClient_example =
    ClientRounds-IsClient env idle credited (omega arith) idle-IsClient credited-ClientRounds
