-- ===== src/Sm/State.antt =====
-- The state of session management: what class `Rpc` and class `Session` keep for it, the ring
-- entries (peer/erpc/rpc.h), and the helpers of rpc_impl/rpc_sm_helpers.cc.
use rdma_yuxi.Prelude.{
  insert, ℕ, ◌+◌, ◌-◌, Bool, true, false, leb, if◌then◌else◌, List, [], ◌∷◌, Option, none, some,
  set,
}
use rdma_yuxi.Wire.Header.{session_credits}
use rdma_yuxi.Rpc.State.{Role, SessionState}
use rdma_yuxi.Sm.Types.{SmPktType, SmErrType, SmEventType, Endpoint, SmPkt, is_req}

-- `Transport::kNumRxRingEntries`
abbrev pub num_rx_ring_entries : ℕ
num_rx_ring_entries = 4096

-- The control path's part of a `Session`; `num_free_slots` is the size of `sslot_free_vec_`.
pub record SmSession : Type 0 where
  pub role : Role
  pub state : SessionState
  pub uniq_token : ℕ
  pub client : Endpoint
  pub server : Endpoint
  pub local_session_num : ℕ
  pub remote_session_num : ℕ
  pub sm_req_ts : ℕ
  pub num_free_slots : ℕ

-- What leaves session management: packets with the host and port they go to, calls of the user's
-- handler, and the pre-allocated response buffers freed, by slot.
pub data SmEvent : Type 0 where
  sent : List ℕ → ℕ → SmPkt → SmEvent
  sm_handler : ℕ → SmEventType → SmErrType → SmEvent
  freed_pre_resp : ℕ → List ℕ → SmEvent

-- The members of `Rpc` and its `Nexus` that session management uses: `session_vec_` with none for
-- null pointers, the pending requests as a list without repetition, the events newest first.
pub record Sm : Type 0 where
  pub rpc_id : ℕ
  pub hostname : List ℕ
  pub sm_udp_port : ℕ
  pub transport_type : ℕ
  pub ring_entries_available : ℕ
  pub session_vec : List (Option SmSession)
  pub sm_pending_reqs : List ℕ
  pub conn_req_token_map : ℕ → Option ℕ
  pub retry_connect_on_invalid_rpc_id : Bool
  pub events : List SmEvent

-- What a handler takes from its surroundings: the time, a random number, the transport's routing
-- information and how it resolves that of others, and for which slots a response buffer can be
-- allocated.
pub record SmEnv : Type 0 where
  pub now : ℕ
  pub next_u64 : ℕ
  pub local_routing_info : ℕ
  pub resolve_remote_routing_info : ℕ → Option ℕ
  pub can_alloc_pre_resp : ℕ → Bool

unfoldable pub have_ring_entries : Sm → Bool
have_ring_entries s = leb session_credits s.ring_entries_available

unfoldable pub alloc_ring_entries : Sm → Sm
alloc_ring_entries s = record s {
  ring_entries_available = s.ring_entries_available - session_credits;
}

unfoldable pub free_ring_entries : Sm → Sm
free_ring_entries s = record s {
  ring_entries_available = s.ring_entries_available + session_credits;
}

abbrev pub log_sm : Sm → SmEvent → Sm
log_sm s e = record s { events = e ∷ s.events }

-- A session in its place in `session_vec_` is changed.
abbrev pub put_session : Sm → ℕ → Option SmSession → Sm
put_session s n x = record s { session_vec = set s.session_vec n x }

-- `sm_pkt_udp_tx_st`: a request goes to the server, a response to the client.
unfoldable pub sm_pkt_udp_tx_st : Sm → SmPkt → Sm
sm_pkt_udp_tx_st s pkt = log_sm s (
    sent (if is_req pkt then pkt.server.hostname else pkt.client.hostname)
      (if is_req pkt then pkt.server.sm_udp_port else pkt.client.sm_udp_port) pkt)

abbrev pub is_connecting : SessionState → Bool
is_connecting SessionState.connect_in_progress = true
is_connecting SessionState.connected = false
is_connecting SessionState.disconnect_in_progress = false
is_connecting SessionState.reset_in_progress = false

-- The request that a client session sends in its state.
unfoldable pub sm_req_pkt : SmSession → SmPkt
sm_req_pkt x = record {
  pkt_type = if is_connecting x.state then SmPktType.connect_req else SmPktType.disconnect_req;
  err_type = SmErrType.no_error;
  uniq_token = x.uniq_token;
  client = x.client;
  server = x.server;
}

-- `send_sm_req_st` for the session `x` that stands at its number.
unfoldable pub send_sm_req_st : SmEnv → Sm → SmSession → Sm
send_sm_req_st env s x =
    sm_pkt_udp_tx_st
      (record (put_session s x.local_session_num (some (record x { sm_req_ts = env.now }))) {
        sm_pending_reqs = insert x.local_session_num s.sm_pending_reqs;
      })
      (sm_req_pkt x)

abbrev pub is_client : Role → Bool
is_client Role.client = true
is_client Role.server = false

-- `bury_session_st`: a server session's response buffers are freed, and the session is gone.
unfoldable pub bury_session_st : Sm → SmSession → Sm
bury_session_st s x =
    put_session
      (if is_client x.role
        then s
        else log_sm s (freed_pre_resp x.local_session_num (0 ∷ 1 ∷ 2 ∷ 3 ∷ 4 ∷ 5 ∷ 6 ∷ 7 ∷ [])))
      x.local_session_num none
