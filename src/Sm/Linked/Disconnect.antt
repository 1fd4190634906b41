-- ===== src/Sm/Linked/Disconnect.antt =====
-- A session is taken down at both ends: `destroy_session_st` at the client,
-- `handle_disconnect_req_st` at the server, and `handle_disconnect_resp_st` at the client.
use rdma_yuxi.Prelude.{
  ℕ, ◌+◌, ◌≡◌, refl, ap, ◌∙◌, arith, true, List, Option, none, some, get_elem?, set, erase, inl,
  inr, Bool-cases,
}
use rdma_yuxi.Wire.Header.{session_credits}
use rdma_yuxi.Rpc.State.{SessionState}
use rdma_yuxi.Sm.Types.{
  SmPktType, SmErrType, SmEventType, SmPkt, is_resp, is_req, sm_pkt_type_is_req, sm_construct_resp,
  sm_pkt_type_req_to_resp,
}
use rdma_yuxi.Sm.State.{
  SmSession, Sm, SmEnv, sm_handler, log_sm, is_client, free_ring_entries, sm_pkt_udp_tx_st,
  send_sm_req_st, sm_req_pkt, bury_session_st,
}
use rdma_yuxi.Sm.Api.{ok, destroy_session_st}
use rdma_yuxi.Sm.Handlers.{
  guard, send_resp, may_disconnect, is_disconnected, handle_disconnect_req_st,
  handle_disconnect_resp_st, handle_sm_pkt,
}
use rdma_yuxi.Sm.Entries.{get_elem?-set}
use rdma_yuxi.Sm.Again.{place-some}
use rdma_yuxi.Sm.Calls.{can_destroy, can_destroy_entry, destroy_session_st-asked, still_there}
use rdma_yuxi.Sm.Linked.{IsLinked, last_sent, exchange, exchange_lem, endpoint_eq_routed}

-- A buried session is gone from its place.
bury_session_st-vec :
    (s : Sm) (x : SmSession)
    → ((bury_session_st s x).session_vec ≡ set s.session_vec x.local_session_num none)
      × ((bury_session_st s x).ring_entries_available ≡ s.ring_entries_available)
      × (last_sent (bury_session_st s x).events ≡ last_sent s.events)
unfolding bury_session_st
bury_session_st-vec s x = elim (Bool-cases (is_client x.role)) [
  | inl e ↦ rw e (refl, refl, refl)
  | inr e ↦ rw e (refl, refl, refl)
]

set_gone :
    (l : List (Option SmSession)) (m n : ℕ) (x : SmSession)
    → m ≡ n
    → get_elem? l n ≡ some (some x)
    → get_elem? (set l m none) n ≡ some none
set_gone l m n x e there =
    ap (λ k. get_elem? (set l k none) n) e ∙ get_elem?-set l n (some x) none there

module _ (env senv renv : SmEnv) (c v : Sm) (n k : ℕ) (link : IsLinked c v n k) where
  abbrev near : SmSession
  near = link.near

  abbrev far : SmSession
  far = link.far

  -- The client's session as it waits for the server's response.
  abbrev closing : SmSession
  closing = record near { state = SessionState.disconnect_in_progress }

  abbrev waiting : SmSession
  waiting = record closing { sm_req_ts = env.now }

  abbrev asked : Sm
  asked = send_sm_req_st env c closing

  may : can_destroy c true n ≡ true
  may =
      ap can_destroy_entry link.near_at ∙ rw (link.near_role, link.near_free, link.near_state) refl

  asked_is : destroy_session_st env c true n ≡ (ok 0, asked)
  asked_is =
      destroy_session_st-asked env c n near link.near_at link.near_number.0 may link.near_state

  waiting_at : get_elem? asked.session_vec n ≡ some (some waiting)
  waiting_at = still_there env c n near link.near_at link.near_number.0 may link.near_state

  abbrev response : SmPkt
  response = record (sm_req_pkt closing) {
    pkt_type = SmPktType.disconnect_resp;
    err_type = SmErrType.no_error;
  }

  abbrev served : Sm
  served = bury_session_st (sm_pkt_udp_tx_st (free_ring_entries v) response) far

  may_be : may_disconnect far (sm_req_pkt closing) ≡ true
  unfolding sm_req_pkt
  may_be = ground (arith, link.far_role, link.far_state, link.same_server, link.same_client)

  resp_sent :
      send_resp (free_ring_entries v) (sm_req_pkt closing) SmErrType.no_error
      ≡ some (sm_pkt_udp_tx_st (free_ring_entries v) response)
  unfolding send_resp sm_construct_resp sm_pkt_type_req_to_resp sm_req_pkt
  resp_sent = refl

  -- What the server's handler does with a session that it finds, and with the response sent.
  abbrev buried : Option Sm → Option Sm
  buried o = elim o [ none ↦ none | some t ↦ some (bury_session_st t far) ]

  abbrev serve : SmSession → Option Sm
  serve z =
      guard (may_disconnect z (sm_req_pkt closing))
        (elim (send_resp (free_ring_entries v) (sm_req_pkt closing) SmErrType.no_error) [
          | none ↦ none
          | some t ↦ some (bury_session_st t z)
        ])

  req_served : handle_sm_pkt senv v (sm_req_pkt closing) ≡ some served
  unfolding handle_sm_pkt is_resp is_req sm_pkt_type_is_req handle_disconnect_req_st sm_req_pkt
  req_served =
      ap
        (λ k. elim (get_elem? v.session_vec k) [
          | none ↦ none
          | some none ↦ send_resp v (sm_req_pkt closing) SmErrType.no_error
          | some (some z) ↦ serve z
        ])
        link.far_number.1
      ∙ place-some (get_elem? v.session_vec k) far _ _ serve link.far_at
      ∙ ap
          (λ b.
            guard b
              (buried (send_resp (free_ring_entries v) (sm_req_pkt closing) SmErrType.no_error)))
          may_be
      ∙ ap buried resp_sent

  abbrev answered : Sm
  answered = record asked { sm_pending_reqs = erase near.client.session_num asked.sm_pending_reqs }

  abbrev closed : Sm
  closed =
      bury_session_st
        (log_sm (free_ring_entries answered)
          (sm_handler near.local_session_num SmEventType.disconnected SmErrType.no_error))
        waiting

  are_same : is_disconnected waiting response ≡ true
  unfolding sm_req_pkt
  are_same = ground (
    arith,
    link.near_role,
    endpoint_eq_routed near.client near.client.routing_info near.client.routing_info,
    endpoint_eq_routed near.server near.server.routing_info near.server.routing_info,
  )

  abbrev finish : SmSession → Option Sm
  finish z = guard (is_disconnected z response) (
      some (
        bury_session_st
          (log_sm (free_ring_entries answered)
            (sm_handler z.local_session_num SmEventType.disconnected SmErrType.no_error))
          z))

  resp_handled : handle_sm_pkt renv asked response ≡ some closed
  unfolding handle_sm_pkt is_resp is_req sm_pkt_type_is_req handle_disconnect_resp_st sm_req_pkt
  resp_handled =
      ap
        (λ k. elim (get_elem? asked.session_vec k) [
          | none ↦ none
          | some none ↦ some answered
          | some (some z) ↦ finish z
        ])
        link.near_number.1
      ∙ place-some (get_elem? asked.session_vec n) waiting _ _ finish waiting_at
      ∙ ap (λ b. guard b (some closed)) are_same

  closed-gone :
      (get_elem? closed.session_vec n ≡ some none)
      × (closed.ring_entries_available ≡ c.ring_entries_available + session_credits)
  unfolding free_ring_entries send_sm_req_st sm_pkt_udp_tx_st
  closed-gone =
      let s : Sm =
        log_sm (free_ring_entries answered)
          (sm_handler near.local_session_num SmEventType.disconnected SmErrType.no_error) in
      (
        ap (λ l. get_elem? l n) (bury_session_st-vec s waiting).0
            ∙ set_gone asked.session_vec near.local_session_num n waiting link.near_number.0
                waiting_at,
        (bury_session_st-vec s waiting).1,
      )

  served-gone :
      (get_elem? served.session_vec k ≡ some none)
      × (served.ring_entries_available ≡ v.ring_entries_available + session_credits)
      × (last_sent served.events ≡ some response)
  unfolding free_ring_entries sm_pkt_udp_tx_st
  served-gone =
      let s : Sm = sm_pkt_udp_tx_st (free_ring_entries v) response in
      (
        ap (λ l. get_elem? l k) (bury_session_st-vec s far).0
            ∙ set_gone v.session_vec far.local_session_num k far link.far_number.0 link.far_at,
        (bury_session_st-vec s far).1,
        (bury_session_st-vec s far).2,
      )

  req_sent : last_sent asked.events ≡ some (sm_req_pkt closing)
  unfolding send_sm_req_st sm_pkt_udp_tx_st
  req_sent = refl

  -- A session whose ends are connected to each other, with no request under way, is destroyed: the client's request reaches the server and the response the client, and the session
  -- is gone at both ends, with its ring entries returned at each.
  pub destroy_session_st-frees :
      (t u : Sm) × (exchange senv renv (destroy_session_st env c true n).1 v ≡ some (t, u))
      × (get_elem? t.session_vec n ≡ some none)
      × (get_elem? u.session_vec k ≡ some none)
      × (t.ring_entries_available ≡ c.ring_entries_available + session_credits)
      × (u.ring_entries_available ≡ v.ring_entries_available + session_credits)
  destroy_session_st-frees = (
    closed,
    served,
    ap (λ r. exchange senv renv r.1 v) asked_is
        ∙ exchange_lem senv renv asked v closed served (sm_req_pkt closing) response req_sent
            req_served served-gone.2 resp_handled,
    closed-gone.0,
    served-gone.0,
    closed-gone.1,
    served-gone.1,
  )
