-- ===== src/Sm/Linked/Tests.antt =====
-- A client and a server on one session.
use rdma_yuxi.Prelude.{◌+◌, ◌≡◌, refl, arith, true, [], ◌∷◌, none, some, get_elem?}
use rdma_yuxi.Wire.Header.{session_credits}
use rdma_yuxi.Sm.Types.{new_endpoint}
use rdma_yuxi.Sm.State.{Sm, SmEnv, sm_req_pkt, have_ring_entries}
use rdma_yuxi.Sm.Api.{ok, new_client_session, create_session_st, destroy_session_st}
use rdma_yuxi.Sm.Again.{Opens}
use rdma_yuxi.Sm.Calls.{can_create}
use rdma_yuxi.Sm.Linked.{IsLinked, exchange}
use rdma_yuxi.Sm.Linked.Cycle.{create_session_st-connects, session_cycle}

abbrev env : SmEnv
env = record {
  now = 10;
  next_u64 = 77;
  local_routing_info = 5;
  resolve_remote_routing_info = λ r. some (r + 1);
  can_alloc_pre_resp = λ _. true;
}

abbrev client : Sm
client = record {
  rpc_id = 0;
  hostname = 97 ∷ [];
  sm_udp_port = 31850;
  transport_type = 1;
  ring_entries_available = 4096;
  session_vec = none ∷ [];
  sm_pending_reqs = [];
  conn_req_token_map = λ _. none;
  retry_connect_on_invalid_rpc_id = true;
  events = [];
}

abbrev server : Sm
server = record client { hostname = 98 ∷ []; session_vec = [] }

may : can_create client true (98 ∷ []) 31850 0 ≡ true
unfolding have_ring_entries
may = refl

opens : Opens env server (sm_req_pkt (new_client_session env client (98 ∷ []) 31850 0)) 6
unfolding have_ring_entries sm_req_pkt new_client_session new_endpoint
opens = (refl, refl, refl, refl, refl, refl)

create_session_st-connects_example :
    (t : Sm) × (u : Sm) × ((create_session_st env client true (98 ∷ []) 31850 0).0 ≡ ok 1)
    × (exchange env env (create_session_st env client true (98 ∷ []) 31850 0).1 server
        ≡ some (t, u))
    × IsLinked t u 1 0
    × (t.ring_entries_available + session_credits ≡ 4096)
    × (u.ring_entries_available + session_credits ≡ 4096)
create_session_st-connects_example =
    create_session_st-connects env env env client server (98 ∷ []) 31850 0 6 6 may (omega arith)
      opens (omega arith) refl

session_cycle_example :
    (t : Sm) × (u : Sm) × (a : Sm) × (b : Sm) × (exchange env env
        (create_session_st env client true (98 ∷ []) 31850 0).1
        server
      ≡ some (t, u))
    × (exchange env env (destroy_session_st env t true 1).1 u ≡ some (a, b))
    × (get_elem? a.session_vec 1 ≡ some none)
    × (get_elem? b.session_vec 0 ≡ some none)
    × (a.ring_entries_available ≡ 4096)
    × (b.ring_entries_available ≡ 4096)
session_cycle_example =
    session_cycle env env env client server (98 ∷ []) 31850 0 6 6 may (omega arith) opens
      (omega arith) refl env env env
