-- ===== src/Peer/Connect.antt =====
-- The client's `main` (peer/client/client.cc) up to the connected session: it creates a session with
-- the server and runs the event loop until `Rpc::is_connected` (peer/erpc/rpc.h).
mod Tests
use rdma_yuxi.Prelude.{
  ℕ, zero, suc, ◌^◌, ◌<◌, ◌≡◌, refl, ap, ◌∙◌, sym, subst, arith, Bool, true, false, List, [], ◌∷◌,
  ◌++◌, Option, none, some, get_elem?, length,
}
use rdma_yuxi.Rpc.State.{SessionState}
use rdma_yuxi.Sm.Types.{SmPkt}
use rdma_yuxi.Sm.State.{Sm, SmEnv, SmSession, sm_req_pkt, send_sm_req_st}
use rdma_yuxi.Sm.Api.{
  Ret, ok, eperm, einval, enomem, ebusy, ealready, new_client_session, add_session,
  create_session_st,
}
use rdma_yuxi.Sm.Handlers.{handle_sm_pkt, handle_sm_rx_st}
use rdma_yuxi.Sm.Again.{Opens, option-some, place-some}
use rdma_yuxi.Sm.Calls.{can_create}
use rdma_yuxi.Sm.Linked.{IsLinked, last_sent}
use rdma_yuxi.Sm.Linked.Connect.{create_session_st-asked, asked_is, waiting_at, response-connects}

-- `kServerHostname`, `kUDPPort`
abbrev pub server_hostname : List ℕ
server_hostname =
    b'1' ∷ b'9' ∷ b'2' ∷ b'.' ∷ b'1' ∷ b'6' ∷ b'8' ∷ b'.' ∷ b'3' ∷ b'.' ∷ b'7' ∷ b'1' ∷ []

abbrev pub udp_port : ℕ
udp_port = 31850

-- The session's state is read through the pointer at its number; none where there is no session.
unfoldable pub is_connected : Sm → ℕ → Option Bool
is_connected s n = elim (get_elem? s.session_vec n) [
  | none ↦ none
  | some none ↦ none
  | some (some x) ↦ some (rdma_yuxi.Sm.Handlers.is_connected x.state)
]

-- The loop that waits for the connection, over the session management packets that each round of the
-- event loop finds. It is true where the loop has ended, and false where the rounds are used up.
unfoldable pub wait_connected : List (List (SmEnv × SmPkt)) → Sm → ℕ → Option (Bool × Sm)
wait_connected [] s n = elim (is_connected s n) [ none ↦ none | some b ↦ some (b, s) ]
wait_connected (pkts ∷ rounds) s n = elim (is_connected s n) [
  | none ↦ none
  | some true ↦ some (true, s)
  | some false ↦ elim (handle_sm_rx_st pkts s) [ none ↦ none | some t ↦ wait_connected rounds t n ]
]

-- The number that `create_session` returns is used as it is; one of an error is not a session's.
unfoldable pub connect_server : SmEnv → List (List (SmEnv × SmPkt)) → Sm → Option (Bool × Sm)
connect_server env rounds s = elim (create_session_st env s true server_hostname udp_port 0).0 [
  | ok n ↦ wait_connected rounds (create_session_st env s true server_hostname udp_port 0).1 n
  | _ ↦ none
]

-- Rounds in which no packet arrives.
abbrev pub quiet_rounds : ℕ → List (List (SmEnv × SmPkt))
quiet_rounds zero = []
quiet_rounds (suc k) = [] ∷ quiet_rounds k

-- A session in its place is read.
at-connected :
    (s : Sm) (n : ℕ) (x : SmSession)
    → get_elem? s.session_vec n ≡ some (some x)
    → is_connected s n ≡ some (rdma_yuxi.Sm.Handlers.is_connected x.state)
unfolding is_connected
at-connected s n x e = place-some (get_elem? s.session_vec n) x _ _ _ e

-- One round, by what the test of the loop says.
abbrev round :
    List (SmEnv × SmPkt) → List (List (SmEnv × SmPkt)) → Sm → ℕ → Option Bool → Option (Bool × Sm)
round pkts rounds s n o = elim o [
  | none ↦ none
  | some true ↦ some (true, s)
  | some false ↦ elim (handle_sm_rx_st pkts s) [ none ↦ none | some t ↦ wait_connected rounds t n ]
]

wait-done :
    (rounds : List (List (SmEnv × SmPkt))) (s : Sm) (n : ℕ)
    → is_connected s n ≡ some true
    → wait_connected rounds s n ≡ some (true, s)
unfolding wait_connected
wait-done [] s n e = option-some (is_connected s n) true _ _ e
wait-done (pkts ∷ rounds) s n e = ap (round pkts rounds s n) e

wait-round :
    (pkts : List (SmEnv × SmPkt)) (rounds : List (List (SmEnv × SmPkt))) (s t : Sm) (n : ℕ)
    → is_connected s n ≡ some false
    → handle_sm_rx_st pkts s ≡ some t
    → wait_connected (pkts ∷ rounds) s n ≡ wait_connected rounds t n
unfolding wait_connected
wait-round pkts rounds s t n e f =
    ap (round pkts rounds s n) e ∙ option-some (handle_sm_rx_st pkts s) t _ _ f

wait-quiet :
    (k : ℕ) (rounds : List (List (SmEnv × SmPkt))) (s : Sm) (n : ℕ)
    → is_connected s n ≡ some false
    → wait_connected (quiet_rounds k ++ rounds) s n ≡ wait_connected rounds s n
unfolding handle_sm_rx_st
wait-quiet zero rounds s n e = refl
wait-quiet (suc k) rounds s n e =
    wait-round [] (quiet_rounds k ++ rounds) s s n e refl ∙ wait-quiet k rounds s n e

rx-one :
    (env : SmEnv) (pkt : SmPkt) (s t : Sm)
    → handle_sm_pkt env s pkt ≡ some t
    → handle_sm_rx_st ((env, pkt) ∷ []) s ≡ some t
unfolding handle_sm_rx_st
rx-one env pkt s t e = option-some (handle_sm_pkt env s pkt) t _ _ e

module _ (env senv renv : SmEnv) (c v : Sm) (rinfo srinfo : ℕ)
    (may : can_create c true server_hostname udp_port 0 ≡ true)
    (short : length c.session_vec < 2 ^ 16)
    (opens : Opens senv v (sm_req_pkt (new_client_session env c server_hostname udp_port 0)) rinfo)
    (short_server : length v.session_vec < 2 ^ 16)
    (resolves : renv.resolve_remote_routing_info senv.local_routing_info ≡ some srinfo) where
  abbrev n : ℕ
  n = length c.session_vec

  abbrev x : SmSession
  x = new_client_session env c server_hostname udp_port 0

  abbrev asked : Sm
  asked = send_sm_req_st env (add_session c x) x

  call : create_session_st env c true server_hostname udp_port 0 ≡ (ok n, asked)
  call = create_session_st-asked env c server_hostname udp_port 0 may short

  waiting : is_connected asked n ≡ some false
  unfolding new_client_session
  waiting = at-connected asked n _ (waiting_at env c server_hostname udp_port 0 may short)

  linked : (t u : Sm) (k : ℕ) → IsLinked t u n k → is_connected t n ≡ some true
  linked t u k link =
      at-connected t n link.near link.near_at
      ∙ ap (λ q. some (rdma_yuxi.Sm.Handlers.is_connected q)) link.near_state

  -- The client's wait for the connection ends: the server that the request reaches answers it, and
  -- in the round in which the answer arrives, after any number of rounds in which nothing does, the
  -- session is connected, and its ends are connected to each other. The call is one that
  -- `can_create` allows, the request one that `Opens` a session, the session vectors have room, and
  -- the client resolves the server's routing information.
  pub connect_server-ends :
      (k : ℕ) (rounds : List (List (SmEnv × SmPkt)))
      → (u : Sm) × (resp : SmPkt) × (t : Sm) × (handle_sm_pkt senv v
            (sm_req_pkt (new_client_session env c server_hostname udp_port 0))
          ≡ some u)
        × (last_sent u.events ≡ some resp)
        × (connect_server env (quiet_rounds k ++ (((renv, resp) ∷ []) ∷ rounds)) c ≡ some (true, t))
        × IsLinked t u (length c.session_vec) (length v.session_vec)
  unfolding connect_server
  connect_server-ends k rounds =
      let (u, resp, t, served, sent_is, got, link) =
        response-connects env c server_hostname udp_port 0 may short senv renv v asked rinfo srinfo
          opens short_server (waiting_at env c server_hostname udp_port 0 may short) resolves in
      let all : List (List (SmEnv × SmPkt)) = quiet_rounds k ++ (((renv, resp) ∷ []) ∷ rounds) in
      (
        u,
        resp,
        t,
        served,
        sent_is,
        ap (λ r. elim r.0 [ ok n ↦ wait_connected all r.1 n | _ ↦ none ]) call
            ∙ wait-quiet k (((renv, resp) ∷ []) ∷ rounds) asked n waiting
            ∙ wait-round ((renv, resp) ∷ []) rounds asked t n waiting (rx-one renv resp asked t got)
            ∙ wait-done rounds t n (linked t u (length v.session_vec) link),
        link,
      )
