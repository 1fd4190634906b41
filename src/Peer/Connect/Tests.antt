-- ===== src/Peer/Connect/Tests.antt =====
-- The client waits for the server through two rounds in which nothing arrives.
use rdma_yuxi.Prelude.{◌≡◌, refl, arith, true, false, [], ◌∷◌, ◌++◌, none, some}
use rdma_yuxi.Sm.Types.{SmPkt, new_endpoint}
use rdma_yuxi.Sm.State.{Sm, SmEnv, sm_req_pkt, have_ring_entries}
use rdma_yuxi.Sm.Api.{new_client_session}
use rdma_yuxi.Sm.Handlers.{handle_sm_pkt}
use rdma_yuxi.Sm.Again.{Opens}
use rdma_yuxi.Sm.Calls.{can_create}
use rdma_yuxi.Sm.Linked.{IsLinked, last_sent}
use rdma_yuxi.Peer.Connect.{
  server_hostname, udp_port, quiet_rounds, connect_server, connect_server-ends,
}

abbrev env : SmEnv
env = record {
  now = 10;
  next_u64 = 77;
  local_routing_info = 5;
  resolve_remote_routing_info = λ r. some r;
  can_alloc_pre_resp = λ _. true;
}

abbrev server : Sm
server = record {
  rpc_id = 0;
  hostname = server_hostname;
  sm_udp_port = udp_port;
  transport_type = 1;
  ring_entries_available = 4096;
  session_vec = [];
  sm_pending_reqs = [];
  conn_req_token_map = λ _. none;
  retry_connect_on_invalid_rpc_id = false;
  events = [];
}

-- `192.168.3.72`
abbrev client : Sm
client = record server {
  hostname = b'1' ∷ b'9' ∷ b'2' ∷ b'.' ∷ b'1' ∷ b'6' ∷ b'8' ∷ b'.' ∷ b'3' ∷ b'.' ∷ b'7' ∷ b'2' ∷ [];
}

may : can_create client true server_hostname udp_port 0 ≡ true
unfolding have_ring_entries
may = refl

opens : Opens env server (sm_req_pkt (new_client_session env client server_hostname udp_port 0)) 5
unfolding have_ring_entries sm_req_pkt new_client_session new_endpoint
opens = (refl, refl, refl, refl, refl, refl)

connect_server-ends_example :
    (u : Sm) × (resp : SmPkt) × (t : Sm) × (handle_sm_pkt env server
        (sm_req_pkt (new_client_session env client server_hostname udp_port 0))
      ≡ some u)
    × (last_sent u.events ≡ some resp)
    × (connect_server env (quiet_rounds 2 ++ (((env, resp) ∷ []) ∷ [])) client ≡ some (true, t))
    × IsLinked t u 0 0
connect_server-ends_example =
    connect_server-ends env env env client server 5 5 may (omega arith) opens (omega arith) refl 2
      []
