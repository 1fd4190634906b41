-- ===== src/Sm/Tests.antt =====
-- Session management on small states.
use rdma_yuxi.Prelude.{if◌then◌else◌, ◌≡◌, refl, arith, true, [], ◌∷◌, none, some}
use rdma_yuxi.Sm.Types.{SmPktType, SmErrType, Endpoint, SmPkt, new_endpoint}
use rdma_yuxi.Sm.State.{Sm, SmEnv}
use rdma_yuxi.Sm.Api.{ok, ealready, new_client_session, create_session_st, destroy_session_st}
use rdma_yuxi.Sm.State.{SmSession, send_sm_req_st}
use rdma_yuxi.Rpc.State.{SessionState}
use rdma_yuxi.Sm.Calls.{
  is_ok, can_create, can_destroy, session_calls-error, destroy_session_st-twice,
}
use rdma_yuxi.Sm.Handlers.{handle_sm_pkt}
use rdma_yuxi.Sm.Handlers.{new_server_session}
use rdma_yuxi.Sm.State.{have_ring_entries}
use rdma_yuxi.Sm.Again.{Opens, handle_copies, answers, accepted, entered, handle_copies-answers}
use rdma_yuxi.Sm.Entries.{IsSound}
use rdma_yuxi.Sm.Entries.Parts.{IsKept}
use rdma_yuxi.Sm.Entries.Steps.{SmSteps, SmSteps-entries}
use rdma_yuxi.Wire.Header.{session_credits}
use rdma_yuxi.Sm.State.{num_rx_ring_entries}
use rdma_yuxi.Sm.Api.{num_active}
use rdma_yuxi.Prelude.{◌+◌, ◌*◌, ◌≤◌}
use rdma_yuxi.Sm.Entries.Keep.{handle_sm_pkt-IsKept}

abbrev env : SmEnv
env = record {
  now = 10;
  next_u64 = 77;
  local_routing_info = 5;
  resolve_remote_routing_info = λ r. some r;
  can_alloc_pre_resp = λ _. true;
}

-- An `Rpc` without sessions.
abbrev fresh : Sm
fresh = record {
  rpc_id = 0;
  hostname = 97 ∷ [];
  sm_udp_port = 31850;
  transport_type = 1;
  ring_entries_available = 4096;
  session_vec = [];
  sm_pending_reqs = [];
  conn_req_token_map = λ _. none;
  retry_connect_on_invalid_rpc_id = true;
  events = [];
}

fresh-IsSound : IsSound fresh
fresh-IsSound = record { entries = refl; numbered = tt }

abbrev created : Sm
created = (create_session_st env fresh true (98 ∷ []) 31850 0).1

abbrev far : Endpoint
unfolding new_endpoint
far = record (new_endpoint 1) {
  hostname = 98 ∷ [];
  sm_udp_port = 31850;
  rpc_id = 0;
  session_num = 3;
}

abbrev connect : SmPkt
connect = record {
  pkt_type = SmPktType.connect_req;
  err_type = SmErrType.no_error;
  uniq_token = 99;
  client = far;
  server = record far { hostname = 97 ∷ []; session_num = 65535 };
}

handle_sm_pkt-IsKept_example : IsKept (handle_sm_pkt env fresh connect)
handle_sm_pkt-IsKept_example = handle_sm_pkt-IsKept env fresh connect (omega arith) fresh-IsSound

-- A server that knows no token, and the client's request to it.
connect-Opens : Opens env fresh connect far.routing_info
unfolding have_ring_entries far
connect-Opens = (refl, refl, refl, refl, refl, refl)

handle_copies-answers_example :
    handle_copies (env ∷ env ∷ env ∷ []) connect fresh
    ≡ some (
        answers
          (env ∷ env ∷ env ∷ [])
          (accepted connect (new_server_session env fresh connect far.routing_info))
          (entered fresh (new_server_session env fresh connect far.routing_info)))
handle_copies-answers_example =
    handle_copies-answers env fresh connect far.routing_info (env ∷ env ∷ []) connect-Opens
      (omega arith)

-- A session is created and destroyed.
destroyed-steps : SmSteps fresh (destroy_session_st env created true 0).1
destroyed-steps =
    SmSteps.destroys env created true 0
      (SmSteps.creates env fresh true (98 ∷ []) 31850 0 SmSteps.begin (omega arith))

SmSteps-entries_example :
    ((destroy_session_st env created true 0).1.ring_entries_available
        + session_credits * num_active (destroy_session_st env created true 0).1.session_vec
      ≡ num_rx_ring_entries)
    × (session_credits * num_active (destroy_session_st env created true 0).1.session_vec
        ≤ num_rx_ring_entries)
SmSteps-entries_example =
    SmSteps-entries fresh (destroy_session_st env created true 0).1 fresh-IsSound destroyed-steps

-- The calls on an `Rpc` without sessions.
session_calls-error_example :
    (is_ok (create_session_st env fresh true (97 ∷ []) 31850 0).0
      ≡ can_create fresh true (97 ∷ []) 31850 0)
    × ((create_session_st env fresh true (97 ∷ []) 31850 0).1 ≡ (
        if can_create fresh true (97 ∷ []) 31850 0
        then (create_session_st env fresh true (97 ∷ []) 31850 0).1
        else fresh))
    × (is_ok (destroy_session_st env fresh true 3).0 ≡ can_destroy fresh true 3)
    × ((destroy_session_st env fresh true 3).1
        ≡ (if can_destroy fresh true 3 then (destroy_session_st env fresh true 3).1 else fresh))
session_calls-error_example = session_calls-error env fresh true (97 ∷ []) 31850 0 3

-- A connected session.
abbrev session0 : SmSession
session0 = record (new_client_session env fresh (98 ∷ []) 31850 0) {
  state = SessionState.connected;
}

abbrev connected0 : Sm
connected0 = record fresh { session_vec = some session0 ∷ [] }

session0-number : session0.local_session_num ≡ 0
unfolding new_client_session
session0-number = refl

may_destroy : can_destroy connected0 true 0 ≡ true
unfolding new_client_session
may_destroy = refl

destroy_session_st-twice_example :
    (destroy_session_st env connected0 true 0 ≡ (
      ok 0,
      send_sm_req_st env connected0
          (record session0 { state = SessionState.disconnect_in_progress }),
    ))
    × (destroy_session_st env (destroy_session_st env connected0 true 0).1 true 0
        ≡ (ealready, (destroy_session_st env connected0 true 0).1))
destroy_session_st-twice_example =
    destroy_session_st-twice env connected0 0 session0 refl session0-number may_destroy refl env
