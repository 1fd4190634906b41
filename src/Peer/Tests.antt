-- ===== src/Peer/Tests.antt =====
-- The two programs on a new session.
use rdma_yuxi.Prelude.{◌≡◌, refl, arith, true, [], ◌∷◌, ◌==◌, List, ℕ, ◌≤◌}
use rdma_yuxi.Wire.Header.{ib_traits}
use rdma_yuxi.Rpc.State.{Pkt, foreground, client, server, connected, Ref, Rpc, Env, slot_of}
use rdma_yuxi.Rpc.Open.{new_session}
use rdma_yuxi.Rpc.Buffers.{alloc_msg_buffer}
use rdma_yuxi.Rpc.Server.{process_small_req_st}
use rdma_yuxi.Rpc.Response.{process_resp_one_st}
use rdma_yuxi.Peer.Send.{IsReady}
use rdma_yuxi.Peer.Call.{pkt, back, waits}

abbrev env : Env
env = record {
  traits = ib_traits;
  rpc_rto_cycles = 100;
  rpc_pkt_loss_scan_cycles = 100;
  num_bg_threads = 0;
  req_func_type = λ _. foreground;
  is_uncongested = λ _. true;
}

abbrev asking : Rpc
asking = record {
  num_sessions = 1;
  live = λ i. i == 0;
  sessions = λ _. new_session client;
  stallq = [];
  active = [];
  ctrl_msgbuf_head = 0;
  tx_batch = [];
  ev_loop_tsc = 1000;
  pkt_loss_scan_tsc = 900;
  now = 1000;
  num_re_tx = 0;
  still_in_wheel_during_retx = 0;
  rand_seed = 7;
  creator_etid = 0;
  bg_enqueue_request = [];
  bg_enqueue_response = [];
  events = [];
}

abbrev serving : Rpc
serving = record asking {
  sessions = λ _. record (new_session server) {
    state = connected;
    slots = λ i. record ((new_session server).slots i) {
      pre_resp_msgbuf = alloc_msg_buffer ib_traits 3824;
    };
  };
}

abbrev slot0 : Ref
slot0 = record { sn = 0; slot = 0 }

abbrev others : List ℕ
others = 1 ∷ 2 ∷ 3 ∷ 4 ∷ 5 ∷ 6 ∷ 7 ∷ []

asking-IsReady : IsReady env asking 0 0 others
unfolding new_session
asking-IsReady = record {
  popped = refl;
  credit = omega arith;
  backlog = refl;
  in_wheel = refl;
  wheel = refl;
  uncongested = refl;
  fits = omega arith;
}

numbers_level : (slot_of serving slot0).cur_req_num ≡ ((asking.sessions 0).slots 0).cur_req_num
unfolding new_session
numbers_level = refl

has_room : 16 ≤ (slot_of serving slot0).pre_resp_msgbuf.max_data_size
unfolding alloc_msg_buffer
has_room = omega arith

-- What the client sends, with its continuation 3 and its tag 4, and what it gets back.
abbrev asked : Rpc
asked =
    waits env asking 0 0 others 3 4 900 env serving slot0 refl refl asking-IsReady numbers_level
      refl refl has_room

abbrev question : Pkt
question =
    pkt env asking 0 0 others 3 4 900 env serving slot0 refl refl asking-IsReady numbers_level refl
      refl has_room

abbrev answer : Pkt
answer =
    back env asking 0 0 others 3 4 900 env serving slot0 refl refl asking-IsReady numbers_level refl
      refl has_room

abbrev after : Rpc
after = process_resp_one_st env asked slot0 answer 900

-- The handler on the slot that has taken up a request.
abbrev taken : Rpc
taken = process_small_req_st env serving slot0 question
