-- ===== src/Sm/Handlers.antt =====
-- The handlers of session management packets: rpc_impl/rpc_connect_handlers.cc,
-- rpc_disconnect_handlers.cc and `handle_sm_rx_st` of rpc_sm_helpers.cc. A handler is none where an
-- assertion or an exception stops the program.
use rdma_yuxi.Prelude.{
  erase, insert, ℕ, zero, suc, ◌+◌, ◌%◌, ◌^◌, Bool, true, false, not, ◌&&◌, ◌==◌, if◌then◌else◌,
  List, [], ◌∷◌, Option, none, some, get_elem?, length, range, update,
}
use rdma_yuxi.Wire.Header.{session_req_window}
use rdma_yuxi.Rpc.State.{Role, SessionState}
use rdma_yuxi.Sm.Types.{
  SmPktType, SmErrType, SmEventType, Endpoint, SmPkt, is_resp, endpoint_eq, same_name,
  sm_construct_resp, invalid_session_num,
}
use rdma_yuxi.Sm.State.{
  SmSession, Sm, SmEnv, sm_handler, freed_pre_resp, have_ring_entries, free_ring_entries, log_sm,
  put_session, sm_pkt_udp_tx_st, send_sm_req_st, bury_session_st, is_client, is_connecting,
}
use rdma_yuxi.Sm.Api.{add_session}

abbrev pub guard {ℓ} : {A : Type ℓ} → Bool → Option A → Option A
guard b x = if b then x else none

abbrev pub is_connected : SessionState → Bool
is_connected SessionState.connected = true
is_connected SessionState.connect_in_progress = false
is_connected SessionState.disconnect_in_progress = false
is_connected SessionState.reset_in_progress = false

-- A response with an error, or with the server's endpoint.
unfoldable pub send_resp : Sm → SmPkt → SmErrType → Option Sm
send_resp s pkt err = elim (sm_construct_resp pkt err) [
  | none ↦ none
  | some resp ↦ some (sm_pkt_udp_tx_st s resp)
]

unfoldable pub send_server : Sm → SmPkt → Endpoint → Option Sm
send_server s pkt server = elim (sm_construct_resp pkt SmErrType.no_error) [
  | none ↦ none
  | some resp ↦ some (sm_pkt_udp_tx_st s (record resp { server = server }))
]

-- A connect request whose token is known: the response is sent again while the session is there.
unfoldable pub connect_again : Sm → SmPkt → ℕ → Option Sm
connect_again s pkt n = elim (get_elem? s.session_vec n) [
  | none ↦ none
  | some none ↦ some s
  | some (some x) ↦ if is_connected x.state then send_server s pkt x.server else some s
]

-- The first slot, from `i` on, that gets no response buffer.
abbrev pub first_without : (ℕ → Bool) → ℕ → ℕ → Option ℕ
first_without can i zero = none
first_without can i (suc n) =
    let rest = first_without can (i + 1) n in if can i then rest else some i

-- The session that a connect request creates.
unfoldable pub new_server_session : SmEnv → Sm → SmPkt → ℕ → SmSession
new_server_session env s pkt client_rinfo = record {
  role = Role.server;
  state = SessionState.connected;
  uniq_token = pkt.uniq_token;
  client = record (pkt.client) { routing_info = client_rinfo };
  server = record (pkt.server) {
    session_num = length s.session_vec % 2 ^ 16;
    routing_info = env.local_routing_info;
  };
  local_session_num = length s.session_vec % 2 ^ 16;
  remote_session_num = pkt.client.session_num;
  sm_req_ts = 0;
  num_free_slots = session_req_window;
}

-- The session is entered, its token remembered, and the response sent.
unfoldable pub accept_connect : SmEnv → Sm → SmPkt → ℕ → Option Sm
accept_connect env s pkt client_rinfo =
    send_server
      (add_session
        (record s {
          conn_req_token_map = update s.conn_req_token_map x.uniq_token (some x.server.session_num);
        })
        x)
      pkt x.server
  where
    x : SmSession
    x = new_server_session env s pkt client_rinfo

-- A connect request whose token is new.
unfoldable pub connect_new : SmEnv → Sm → SmPkt → Option Sm
connect_new env s pkt =
    if not (pkt.server.transport_type == s.transport_type)
    then send_resp s pkt SmErrType.invalid_transport
    else if not (have_ring_entries s)
    then send_resp s pkt SmErrType.ring_exhausted
    else elim (env.resolve_remote_routing_info pkt.client.routing_info) [
      | none ↦ send_resp s pkt SmErrType.routing_resolution_failure
      | some rinfo ↦ elim (first_without env.can_alloc_pre_resp 0 session_req_window) [
        | some i ↦
            send_resp (log_sm s (freed_pre_resp (length s.session_vec) (range 0 i))) pkt
              SmErrType.out_of_memory
        | none ↦ accept_connect env s pkt rinfo
      ]
    ]

-- `handle_connect_req_st`
unfoldable pub handle_connect_req_st : SmEnv → Sm → SmPkt → Option Sm
handle_connect_req_st env s pkt = elim (s.conn_req_token_map pkt.uniq_token) [
  | some n ↦ connect_again s pkt n
  | none ↦ connect_new env s pkt
]

abbrev pub is_invalid_rpc_id : SmErrType → Bool
is_invalid_rpc_id SmErrType.invalid_remote_rpc_id = true
is_invalid_rpc_id _ = false

abbrev pub is_no_error : SmErrType → Bool
is_no_error SmErrType.no_error = true
is_no_error _ = false

-- A session whose connection failed: its entries are freed, the user told, and the session buried.
unfoldable pub fail_connect : Sm → SmSession → SmErrType → Sm
fail_connect s x err =
    bury_session_st
      (log_sm (free_ring_entries s) (sm_handler x.local_session_num SmEventType.connect_failed err))
      x

-- The server has created its end: the session is connected, or disconnected again if the server
-- cannot be reached.
unfoldable pub finish_connect : SmEnv → Sm → SmSession → SmPkt → Sm
finish_connect env s x pkt = elim (env.resolve_remote_routing_info pkt.server.routing_info) [
  | none ↦
      send_sm_req_st env s
        (record x { server = pkt.server; state = SessionState.disconnect_in_progress })
  | some rinfo ↦
      log_sm
        (put_session s x.local_session_num (
          some (record x {
            server = record (pkt.server) { routing_info = rinfo };
            remote_session_num = pkt.server.session_num;
            state = SessionState.connected;
          })))
        (sm_handler x.local_session_num SmEventType.connected SmErrType.no_error)
]

-- A connect response for a session that waits for one.
unfoldable pub connect_resp : SmEnv → Sm → SmSession → SmPkt → Sm
connect_resp env s x pkt =
    if is_invalid_rpc_id pkt.err_type && s.retry_connect_on_invalid_rpc_id
    then record s { sm_pending_reqs = insert x.local_session_num s.sm_pending_reqs }
    else if not (is_no_error pkt.err_type)
    then fail_connect s x pkt.err_type
    else finish_connect env s x pkt

-- The assertions on the response.
abbrev pub is_expected : SmSession → SmPkt → Bool
is_expected x pkt =
    is_client x.role
    && endpoint_eq x.client pkt.client
    && same_name x.server.hostname pkt.server.hostname
    && x.server.rpc_id == pkt.server.rpc_id
    && x.server.session_num == invalid_session_num

-- `handle_connect_resp_st`
unfoldable pub handle_connect_resp_st : SmEnv → Sm → SmPkt → Option Sm
handle_connect_resp_st env s pkt = elim (get_elem? s.session_vec pkt.client.session_num) [
  | none ↦ none
  | some none ↦ some s
  | some (some x) ↦
      if not (is_connecting x.state)
      then some s
      else guard (is_expected x pkt) (some (connect_resp env s x pkt))
]

-- The assertions on a disconnect request, and on the response to one.
abbrev pub is_disconnecting : SessionState → Bool
is_disconnecting SessionState.disconnect_in_progress = true
is_disconnecting _ = false

abbrev pub may_disconnect : SmSession → SmPkt → Bool
may_disconnect x pkt =
    not (is_client x.role)
    && is_connected x.state
    && endpoint_eq x.server pkt.server
    && endpoint_eq x.client pkt.client

abbrev pub is_disconnected : SmSession → SmPkt → Bool
is_disconnected x pkt =
    is_client x.role
    && is_disconnecting x.state
    && endpoint_eq x.client pkt.client
    && endpoint_eq x.server pkt.server

-- `handle_disconnect_req_st`; that all responses were sent is the data path's to say.
unfoldable pub handle_disconnect_req_st : Sm → SmPkt → Option Sm
handle_disconnect_req_st s pkt = elim (get_elem? s.session_vec pkt.server.session_num) [
  | none ↦ none
  | some none ↦ send_resp s pkt SmErrType.no_error
  | some (some x) ↦
      guard (may_disconnect x pkt) (elim (send_resp (free_ring_entries s) pkt SmErrType.no_error) [
        | none ↦ none
        | some t ↦ some (bury_session_st t x)
      ])
]

-- `handle_disconnect_resp_st`
unfoldable pub handle_disconnect_resp_st : Sm → SmPkt → Option Sm
handle_disconnect_resp_st s pkt =
    guard (is_no_error pkt.err_type) (elim (get_elem? s.session_vec pkt.client.session_num) [
      | none ↦ none
      | some none ↦ some s
      | some (some x) ↦ guard (is_disconnected x pkt) (
          some (
            bury_session_st
              (log_sm (free_ring_entries s)
                (sm_handler x.local_session_num SmEventType.disconnected SmErrType.no_error))
              x))
    ])

-- One packet of the queue that `handle_sm_rx_st` empties: a response ends the wait for one.
unfoldable pub handle_sm_pkt : SmEnv → Sm → SmPkt → Option Sm
handle_sm_pkt env s pkt = elim pkt.pkt_type [
  | SmPktType.connect_req ↦ handle_connect_req_st env t pkt
  | SmPktType.disconnect_req ↦ handle_disconnect_req_st t pkt
  | SmPktType.connect_resp ↦ handle_connect_resp_st env t pkt
  | SmPktType.disconnect_resp ↦ handle_disconnect_resp_st t pkt
  | _ ↦ none
]
  where
    t : Sm
    t =
        if is_resp pkt
        then record s { sm_pending_reqs = erase pkt.client.session_num s.sm_pending_reqs }
        else s

-- `handle_sm_rx_st`, with the surroundings as each packet meets them.
unfoldable pub handle_sm_rx_st : List (SmEnv × SmPkt) → Sm → Option Sm
handle_sm_rx_st [] s = some s
handle_sm_rx_st ((env, pkt) ∷ l) s = elim (handle_sm_pkt env s pkt) [
  | none ↦ none
  | some t ↦ handle_sm_rx_st l t
]
