-- ===== src/Sm/Linked/Connect.antt =====
-- A session is set up at both ends: `create_session_st` at a client, `handle_connect_req_st` at a
-- server, and `handle_connect_resp_st` at the client.
use rdma_yuxi.Prelude.{
  ℕ, ◌-◌, ◌^◌, ◌<◌, ◌≡◌, refl, ap, ◌∙◌, arith, Bool, true, false, not, ◌&&◌, ◌++◌, List, [], ◌∷◌,
  Option, none, some, get_elem?, set, erase, length, if◌then◌else◌,
}
use mathlib.Core.Bool.{false≢true}
use rdma_yuxi.Wire.Header.{session_credits}
use rdma_yuxi.Rpc.State.{SessionState}
use rdma_yuxi.Sm.Types.{
  SmErrType, SmEventType, SmPkt, new_endpoint, endpoint_eq, is_resp, is_req, sm_pkt_type_is_req,
}
use rdma_yuxi.Sm.State.{
  SmSession, Sm, SmEnv, sm_handler, log_sm, put_session, is_connecting, sm_pkt_udp_tx_st,
  send_sm_req_st, have_ring_entries, sm_req_pkt, alloc_ring_entries,
}
use rdma_yuxi.Sm.Api.{ok, new_client_session, add_session, create_session_st}
use rdma_yuxi.Sm.Handlers.{
  guard, new_server_session, is_expected, connect_resp, finish_connect, handle_connect_req_st,
  handle_connect_resp_st, handle_sm_pkt,
}
use rdma_yuxi.Sm.Entries.{get_elem?-append, get_elem?-set}
use rdma_yuxi.Sm.Again.{Opens, accepted, entered, option-some, place-some, first_connect, stands}
use rdma_yuxi.Sm.Calls.{can_create}
use rdma_yuxi.Sm.Linked.{
  IsLinked, last_sent, exchange, exchange_lem, same_name_self, endpoint_eq_routed,
}

-- The last of four branches, when the tests before it fail.
pub last_branch :
    {A : Type 0} (a b d : Bool) (p q r z : A)
    → (not a && not b && d) ≡ true
    → (if a then p else if b then q else if not d then r else z) ≡ z
last_branch false false true p q r z e = refl
last_branch true b d p q r z e = absurd (false≢true e)
last_branch false true d p q r z e = absurd (false≢true e)
last_branch false false false p q r z e = absurd (false≢true e)

-- A guard that holds, behind a test that does.
pub guarded :
    {A : Type 0} (b d : Bool) (p : Option A) (q r : A)
    → b ≡ true
    → d ≡ true
    → q ≡ r
    → (if not b then p else guard d (some q)) ≡ some r
guarded true true p q r e f g = ap some g
guarded true false p q r e f g = absurd (false≢true f)
guarded false d p q r e f g = absurd (false≢true e)

-- A client creates a session.
module _ (env : SmEnv) (c : Sm) (host : List ℕ) (port rem : ℕ)
    (may : can_create c true host port rem ≡ true) (short : length c.session_vec < 2 ^ 16) where
  abbrev x : SmSession
  x = new_client_session env c host port rem

  -- The session as it waits for the server's response.
  abbrev waiting : SmSession
  waiting = record x { sm_req_ts = env.now }

  abbrev asked : Sm
  asked = send_sm_req_st env (add_session c x) x

  number : x.local_session_num ≡ length c.session_vec
  unfolding new_client_session
  number = omega (arith, short)

  own_number : x.client.session_num ≡ length c.session_vec
  unfolding new_client_session
  own_number = omega (arith, short)

  pub create_session_st-asked :
      create_session_st env c true host port rem ≡ (ok (length c.session_vec), asked)
  unfolding create_session_st
  create_session_st-asked =
      last_branch _ _ (have_ring_entries c) _ _ _ _ may ∙ ap (λ k. (ok k, asked)) own_number

  -- The request is on its way, and the session has its ring entries.
  pub asked_is :
      (last_sent asked.events ≡ some (sm_req_pkt x))
      × (asked.ring_entries_available ≡ c.ring_entries_available - session_credits)
  unfolding send_sm_req_st sm_pkt_udp_tx_st add_session alloc_ring_entries
  asked_is = (refl, refl)

  pub waiting_at : get_elem? asked.session_vec (length c.session_vec) ≡ some (some waiting)
  unfolding send_sm_req_st sm_pkt_udp_tx_st add_session alloc_ring_entries
  waiting_at =
      ap
        (λ k.
          get_elem? (set (c.session_vec ++ (some x ∷ [])) k (some waiting)) (length c.session_vec))
        number
      ∙ get_elem?-set (c.session_vec ++ (some x ∷ [])) (length c.session_vec) (some x)
          (some waiting) (get_elem?-append c.session_vec (some x))

  -- The server accepts, and the response reaches the client, whose session still waits in `s`.
  module _ (senv renv : SmEnv) (v s : Sm) (rinfo srinfo : ℕ)
      (opens : Opens senv v (sm_req_pkt x) rinfo) (short_server : length v.session_vec < 2 ^ 16)
      (still : get_elem? s.session_vec (length c.session_vec) ≡ some (some waiting))
      (resolves : renv.resolve_remote_routing_info senv.local_routing_info ≡ some srinfo) where
    abbrev y : SmSession
    y = new_server_session senv v (sm_req_pkt x) rinfo

    abbrev response : SmPkt
    response = accepted (sm_req_pkt x) y

    abbrev served : Sm
    served = sm_pkt_udp_tx_st (entered v y) response

    -- The client's session as it is connected.
    abbrev linked : SmSession
    linked = record waiting {
      server = record (y.server) { routing_info = srinfo };
      remote_session_num = y.server.session_num;
      state = SessionState.connected;
    }

    served_is : handle_connect_req_st senv v (sm_req_pkt x) ≡ some served
    served_is =
        first_connect senv v (sm_req_pkt x) rinfo opens.0 opens.1 opens.2 opens.3 opens.4 opens.5

    expected : is_expected waiting response ≡ true
    unfolding new_client_session new_server_session sm_req_pkt endpoint_eq new_endpoint
    expected = ground (arith, same_name_self c.hostname, same_name_self host)

    -- The wait for the response is over, and the session connected.
    abbrev answered : Sm
    answered = record s { sm_pending_reqs = erase x.client.session_num s.sm_pending_reqs }

    abbrev connected : Sm
    connected =
        log_sm (put_session answered x.local_session_num (some linked))
          (sm_handler x.local_session_num SmEventType.connected SmErrType.no_error)

    connect_resp-connected : connect_resp renv answered waiting response ≡ connected
    unfolding connect_resp finish_connect new_server_session
    connect_resp-connected =
        option-some (renv.resolve_remote_routing_info senv.local_routing_info) srinfo _ _ resolves

    still_connecting : is_connecting x.state ≡ true
    unfolding new_client_session
    still_connecting = refl

    pub received : handle_sm_pkt renv s response ≡ some connected
    unfolding handle_sm_pkt is_resp is_req sm_pkt_type_is_req handle_connect_resp_st sm_req_pkt
    received =
        ap
          (λ k. elim (get_elem? s.session_vec k) [
            | none ↦ none
            | some none ↦ some answered
            | some (some z) ↦
                if not (is_connecting z.state)
                then some answered
                else guard (is_expected z response) (some (connect_resp renv answered z response))
          ])
          own_number
        ∙ place-some (get_elem? s.session_vec (length c.session_vec)) waiting _ _ _ still
        ∙ guarded _ _ _ _ _ still_connecting expected connect_resp-connected

    server_number : y.local_session_num ≡ length v.session_vec
    unfolding new_server_session
    server_number = omega (arith, short_server)

    -- Both ends are connected, and to each other.
    connect-IsLinked : IsLinked connected served (length c.session_vec) (length v.session_vec)
    unfolding sm_pkt_udp_tx_st add_session alloc_ring_entries new_client_session new_server_session
        sm_req_pkt
    connect-IsLinked = record {
      near = linked;
      far = y;
      near_at =
          ap (λ k. get_elem? (set s.session_vec k (some linked)) (length c.session_vec)) number
          ∙ get_elem?-set s.session_vec (length c.session_vec) (some waiting) (some linked) still;
      far_at = stands senv v (sm_req_pkt x) rinfo;
      near_role = refl;
      far_role = refl;
      near_state = refl;
      far_state = refl;
      near_free = refl;
      near_number = (number, own_number);
      far_number = (server_number, server_number);
      near_remote = server_number;
      far_remote = own_number;
      same_client = endpoint_eq_routed x.client rinfo x.client.routing_info;
      same_server = endpoint_eq_routed y.server y.server.routing_info srinfo;
    }

    req_served : handle_sm_pkt senv v (sm_req_pkt x) ≡ some served
    unfolding handle_sm_pkt is_resp is_req sm_pkt_type_is_req sm_req_pkt new_client_session
    req_served = served_is

    resp_sent : last_sent served.events ≡ some response
    unfolding sm_pkt_udp_tx_st
    resp_sent = refl

    entries :
        (connected.ring_entries_available ≡ s.ring_entries_available)
        × (served.ring_entries_available ≡ v.ring_entries_available - session_credits)
    unfolding sm_pkt_udp_tx_st add_session alloc_ring_entries
    entries = (refl, refl)

    -- The session's request reaches the server, and the response the client.
    pub exchange-connects :
        last_sent s.events ≡ some (sm_req_pkt x)
        → (t : Sm) × (u : Sm) × (exchange senv renv s v ≡ some (t, u))
          × IsLinked t u (length c.session_vec) (length v.session_vec)
          × (t.ring_entries_available ≡ s.ring_entries_available)
          × (u.ring_entries_available ≡ v.ring_entries_available - session_credits)
    exchange-connects sent_is = (
      connected,
      served,
      exchange_lem senv renv s v connected served (sm_req_pkt x) response sent_is req_served
          resp_sent received,
      connect-IsLinked,
      entries.0,
      entries.1,
    )

    -- The same by the steps: the server's, and the client's with the server's response.
    pub response-connects :
        (u : Sm) × (resp : SmPkt) × (t : Sm) × (handle_sm_pkt senv v (sm_req_pkt x) ≡ some u)
        × (last_sent u.events ≡ some resp)
        × (handle_sm_pkt renv s resp ≡ some t)
        × IsLinked t u (length c.session_vec) (length v.session_vec)
    response-connects =
        (served, response, connected, req_served, resp_sent, received, connect-IsLinked)
