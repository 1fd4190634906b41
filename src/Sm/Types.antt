-- ===== src/Sm/Types.antt =====
-- Session management packets: peer/erpc/sm_types.h.
use rdma_yuxi.Prelude.{ℕ, Bool, true, false, not, ◌&&◌, ◌==◌, List, [], ◌∷◌, Option, none, some}

pub data SmPktType : Type 0 where
  unblock ping_req ping_resp connect_req connect_resp disconnect_req disconnect_resp : SmPktType

pub data SmErrType : Type 0 where
  no_error srv_disconnected ring_exhausted out_of_memory routing_resolution_failure : SmErrType
  invalid_remote_rpc_id invalid_transport : SmErrType

pub data SmEventType : Type 0 where
  connected connect_failed disconnected disconnect_failed : SmEventType

unfoldable pub sm_pkt_type_is_req : SmPktType → Bool
sm_pkt_type_is_req SmPktType.ping_req = true
sm_pkt_type_is_req SmPktType.connect_req = true
sm_pkt_type_is_req SmPktType.disconnect_req = true
sm_pkt_type_is_req SmPktType.ping_resp = false
sm_pkt_type_is_req SmPktType.unblock = false
sm_pkt_type_is_req SmPktType.connect_resp = false
sm_pkt_type_is_req SmPktType.disconnect_resp = false

-- The response type of a request type; none where the code throws.
unfoldable pub sm_pkt_type_req_to_resp : SmPktType → Option SmPktType
sm_pkt_type_req_to_resp SmPktType.ping_req = some SmPktType.ping_resp
sm_pkt_type_req_to_resp SmPktType.connect_req = some SmPktType.connect_resp
sm_pkt_type_req_to_resp SmPktType.disconnect_req = some SmPktType.disconnect_resp
sm_pkt_type_req_to_resp SmPktType.ping_resp = none
sm_pkt_type_req_to_resp SmPktType.unblock = none
sm_pkt_type_req_to_resp SmPktType.connect_resp = none
sm_pkt_type_req_to_resp SmPktType.disconnect_resp = none

-- `SessionEndpoint`; the host name is its characters, the routing information the transport's.
pub record Endpoint : Type 0 where
  pub transport_type : ℕ
  pub hostname : List ℕ
  pub sm_udp_port : ℕ
  pub rpc_id : ℕ
  pub session_num : ℕ
  pub routing_info : ℕ

-- `kInvalidSessionNum`, `kInvalidRpcId`, `kMaxHostnameLen`
abbrev pub invalid_session_num : ℕ
invalid_session_num = 65535

abbrev pub invalid_rpc_id : ℕ
invalid_rpc_id = 255

abbrev pub max_hostname_len : ℕ
max_hostname_len = 128

-- The default constructor of an endpoint, but for the type of its transport, which it leaves open.
unfoldable pub new_endpoint : ℕ → Endpoint
new_endpoint transport_type = record {
  transport_type = transport_type;
  hostname = [];
  sm_udp_port = 0;
  rpc_id = invalid_rpc_id;
  session_num = invalid_session_num;
  routing_info = 0;
}

-- `strcmp(a, b) == 0`
abbrev pub same_name : List ℕ → List ℕ → Bool
same_name [] [] = true
same_name [] (y ∷ ys) = false
same_name (x ∷ xs) [] = false
same_name (x ∷ xs) (y ∷ ys) = x == y && same_name xs ys

-- `SessionEndpoint::operator==`: the routing information is left out.
unfoldable pub endpoint_eq : Endpoint → Endpoint → Bool
endpoint_eq a b =
    a.transport_type == b.transport_type
    && same_name a.hostname b.hostname
    && a.sm_udp_port == b.sm_udp_port
    && a.rpc_id == b.rpc_id
    && a.session_num == b.session_num

pub record SmPkt : Type 0 where
  pub pkt_type : SmPktType
  pub err_type : SmErrType
  pub uniq_token : ℕ
  pub client : Endpoint
  pub server : Endpoint

unfoldable pub is_req : SmPkt → Bool
is_req pkt = sm_pkt_type_is_req pkt.pkt_type

unfoldable pub is_resp : SmPkt → Bool
is_resp pkt = not (is_req pkt)

-- `sm_construct_resp` for a connect and for a disconnect request, by the response type that
-- `sm_pkt_type_req_to_resp` has for it.
unfoldable pub sm_construct_resp : SmPkt → SmErrType → Option SmPkt
sm_construct_resp req err_type = elim (sm_pkt_type_req_to_resp req.pkt_type) [
  | none ↦ none
  | some t ↦ some (record req { pkt_type = t; err_type = err_type })
]
