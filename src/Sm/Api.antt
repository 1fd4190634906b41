-- ===== src/Sm/Api.antt =====
-- The user's session functions: peer/erpc/rpc_impl/rpc_sm_api.cc.
use rdma_yuxi.Prelude.{
  ℕ, ◌+◌, ◌%◌, ◌^◌, Bool, not, ◌&&◌, ◌||◌, ltb, ◌==◌, if◌then◌else◌, List, [], ◌∷◌, ◌++◌, Option,
  none, some, get_elem?, length, is_some,
}
use rdma_yuxi.Wire.Header.{session_req_window}
use rdma_yuxi.Rpc.State.{Role, SessionState}
use rdma_yuxi.Sm.Types.{Endpoint, new_endpoint, same_name, max_hostname_len}
use rdma_yuxi.Sm.State.{
  SmSession, Sm, SmEnv, have_ring_entries, alloc_ring_entries, send_sm_req_st, is_client,
}

-- What the two functions return: a session number or 0, or a negative error number.
pub data Ret : Type 0 where
  ok : ℕ → Ret
  eperm einval enomem ebusy ealready : Ret

-- The endpoints of a new client session; the server's number and routing information follow with
-- its response.
abbrev client_endpoint : SmEnv → Sm → Endpoint
client_endpoint env s = record (new_endpoint s.transport_type) {
  hostname = s.hostname;
  sm_udp_port = s.sm_udp_port;
  rpc_id = s.rpc_id;
  session_num = length s.session_vec % 2 ^ 16;
  routing_info = env.local_routing_info;
}

abbrev server_endpoint : Sm → List ℕ → ℕ → ℕ → Endpoint
server_endpoint s rem_hostname rem_sm_udp_port rem_rpc_id = record (new_endpoint s.transport_type) {
  hostname = rem_hostname;
  sm_udp_port = rem_sm_udp_port;
  rpc_id = rem_rpc_id;
}

unfoldable pub new_client_session : SmEnv → Sm → List ℕ → ℕ → ℕ → SmSession
unfolding new_endpoint
new_client_session env s rem_hostname rem_sm_udp_port rem_rpc_id = record {
  role = Role.client;
  state = SessionState.connect_in_progress;
  uniq_token = env.next_u64;
  client = client_endpoint env s;
  server = server_endpoint s rem_hostname rem_sm_udp_port rem_rpc_id;
  local_session_num = length s.session_vec % 2 ^ 16;
  remote_session_num = 0;
  sm_req_ts = 0;
  num_free_slots = session_req_window;
}

-- A session is added to the vector of all sessions, with its ring entries.
unfoldable pub add_session : Sm → SmSession → Sm
unfolding alloc_ring_entries
add_session s x = record (alloc_ring_entries s) { session_vec = s.session_vec ++ (some x ∷ []) }

-- `create_session_st` in or out of the dispatch thread, with the parts of the remote's URI. A name is
-- copied without its end, for which the array has no room when the name is of the largest length.
unfoldable pub create_session_st : SmEnv → Sm → Bool → List ℕ → ℕ → ℕ → Ret × Sm
create_session_st env s in_dispatch rem_hostname rem_sm_udp_port rem_rpc_id =
    if not in_dispatch
    then (eperm, s)
    else if length rem_hostname == 0 || ltb max_hostname_len (length rem_hostname)
    then (einval, s)
    else if same_name rem_hostname s.hostname
        && rem_rpc_id == s.rpc_id
        && rem_sm_udp_port == s.sm_udp_port
    then (einval, s)
    else if not (have_ring_entries s)
    then (enomem, s)
    else (ok x.client.session_num, send_sm_req_st env (add_session s x) x)
  where
    x : SmSession
    x = new_client_session env s rem_hostname rem_sm_udp_port rem_rpc_id

-- What `destroy_session_st` does by the state of a client session with all slots free.
unfoldable pub destroy_in_state : SmEnv → Sm → SmSession → Ret × Sm
destroy_in_state env s x = elim x.state [
  | SessionState.connect_in_progress ↦ (eperm, s)
  | SessionState.connected ↦
      (ok 0, send_sm_req_st env s (record x { state = SessionState.disconnect_in_progress }))
  | SessionState.disconnect_in_progress ↦ (ealready, s)
  | SessionState.reset_in_progress ↦ (ok 0, s)
]

-- `destroy_session_st`. A negative session number is given by its two's complement, which no session
-- vector reaches.
unfoldable pub destroy_session_st : SmEnv → Sm → Bool → ℕ → Ret × Sm
destroy_session_st env s in_dispatch session_num =
    if not in_dispatch then (eperm, s) else elim (get_elem? s.session_vec session_num) [
      | none ↦ (einval, s)
      | some none ↦ (eperm, s)
      | some (some x) ↦
          if not (is_client x.role)
          then (einval, s)
          else if not (x.num_free_slots == session_req_window)
          then (ebusy, s)
          else destroy_in_state env s x
    ]

-- The loop of `num_active_sessions_st`
abbrev pub num_active : List (Option SmSession) → ℕ
num_active [] = 0
num_active (x ∷ l) = (if is_some x then 1 else 0) + num_active l

unfoldable pub num_active_sessions_st : Sm → ℕ
num_active_sessions_st s = num_active s.session_vec
