-- ===== src/Sm/Linked.antt =====
-- The two ends of a session, at a client and at a server.
pub mod Connect
pub mod Disconnect
pub mod Cycle
mod Tests
use rdma_yuxi.Prelude.{
  ℕ, ◌≡◌, refl, ap, ◌∙◌, arith, true, ◌==◌, ◌&&◌, ==_self, List, [], ◌∷◌, Option, none, some,
  get_elem?,
}
use rdma_yuxi.Wire.Header.{session_req_window}
use rdma_yuxi.Rpc.State.{Role, SessionState}
use rdma_yuxi.Sm.Types.{Endpoint, SmPkt, endpoint_eq, same_name}
use rdma_yuxi.Sm.State.{SmSession, Sm, SmEnv, SmEvent, sent, sm_handler, freed_pre_resp}
use rdma_yuxi.Sm.Handlers.{handle_sm_pkt}
use rdma_yuxi.Sm.Again.{option-some}

pub same_name_self : (l : List ℕ) → same_name l l ≡ true
same_name_self [] = refl
same_name_self (x ∷ l) = rw (==_self x, same_name_self l) refl

-- Endpoints that agree but for the routing information count as equal.
pub endpoint_eq_routed :
    (a : Endpoint) (k l : ℕ)
    → endpoint_eq (record a { routing_info = k }) (record a { routing_info = l }) ≡ true
unfolding endpoint_eq
endpoint_eq_routed a k l =
    rw
      (
        ==_self a.transport_type,
        same_name_self a.hostname,
        ==_self a.sm_udp_port,
        ==_self a.rpc_id,
        ==_self a.session_num,
      )
      refl

-- The session `n` of the client `c` and the session `k` of the server `v` are connected to each
-- other, and no request is under way.
pub record IsLinked (c v : Sm) (n k : ℕ) : Type 0 where
  pub near : SmSession
  pub far : SmSession
  pub near_at : get_elem? c.session_vec n ≡ some (some near)
  pub far_at : get_elem? v.session_vec k ≡ some (some far)
  pub near_role : near.role ≡ Role.client
  pub far_role : far.role ≡ Role.server
  pub near_state : near.state ≡ SessionState.connected
  pub far_state : far.state ≡ SessionState.connected
  pub near_free : near.num_free_slots == session_req_window ≡ true
  pub near_number : (near.local_session_num ≡ n) × (near.client.session_num ≡ n)
  pub far_number : (far.local_session_num ≡ k) × (near.server.session_num ≡ k)
  pub near_remote : near.remote_session_num ≡ k
  pub far_remote : far.remote_session_num ≡ n
  pub same_client : endpoint_eq far.client near.client ≡ true
  pub same_server : endpoint_eq far.server near.server ≡ true

-- The packet that was sent last.
abbrev pub last_sent : List SmEvent → Option SmPkt
last_sent [] = none
last_sent (sent host port pkt ∷ l) = some pkt
last_sent (sm_handler n event err ∷ l) = last_sent l
last_sent (freed_pre_resp n slots ∷ l) = last_sent l

-- The request that `c` has sent reaches `v`, and the response of `v` reaches `c`.
unfoldable pub exchange : SmEnv → SmEnv → Sm → Sm → Option (Sm × Sm)
exchange senv renv c v = elim (last_sent c.events) [
  | none ↦ none
  | some req ↦ elim (handle_sm_pkt senv v req) [
    | none ↦ none
    | some u ↦ elim (last_sent u.events) [
      | none ↦ none
      | some resp ↦ elim (handle_sm_pkt renv c resp) [ none ↦ none | some t ↦ some (t, u) ]
    ]
  ]
]

pub exchange_lem :
    (senv renv : SmEnv) (c v t u : Sm) (req resp : SmPkt)
    → last_sent c.events ≡ some req
    → handle_sm_pkt senv v req ≡ some u
    → last_sent u.events ≡ some resp
    → handle_sm_pkt renv c resp ≡ some t
    → exchange senv renv c v ≡ some (t, u)
unfolding exchange
exchange_lem senv renv c v t u req resp e1 e2 e3 e4 =
    option-some (last_sent c.events) req _ _ e1
    ∙ option-some (handle_sm_pkt senv v req) u _ _ e2
    ∙ option-some (last_sent u.events) resp _ _ e3
    ∙ option-some (handle_sm_pkt renv c resp) t _ _ e4
