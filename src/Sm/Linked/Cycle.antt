-- ===== src/Sm/Linked/Cycle.antt =====
-- The life of a session, from `create_session_st` to its end at both ends.
use rdma_yuxi.Prelude.{
  ℕ, ◌+◌, ◌^◌, ◌≤◌, ◌<◌, ◌≡◌, ap, ◌∙◌, arith, true, List, none, some, get_elem?, length,
}
use rdma_yuxi.Wire.Header.{session_credits}
use rdma_yuxi.Sm.State.{Sm, SmEnv, sm_req_pkt, have_ring_entries}
use rdma_yuxi.Sm.Api.{ok, new_client_session, create_session_st, destroy_session_st}
use rdma_yuxi.Sm.Again.{Opens}
use rdma_yuxi.Sm.Calls.{can_create}
use rdma_yuxi.Sm.Linked.{IsLinked, exchange}
use rdma_yuxi.Sm.Linked.Connect.{create_session_st-asked, asked_is, waiting_at, exchange-connects}
use rdma_yuxi.Sm.Linked.Disconnect.{destroy_session_st-frees}

have_ring_entries-le :
    (s : Sm) → have_ring_entries s ≡ true → session_credits ≤ s.ring_entries_available
unfolding have_ring_entries
have_ring_entries-le s h = ground (arith, h)

can_create-le :
    (c : Sm) (host : List ℕ) (port rem : ℕ)
    → can_create c true host port rem ≡ true
    → session_credits ≤ c.ring_entries_available
can_create-le c host port rem may =
    have_ring_entries-le c (let e : have_ring_entries c ≡ true = ground (arith, may) in e)

module _ (env senv renv : SmEnv) (c v : Sm) (host : List ℕ) (port rem rinfo srinfo : ℕ)
    (may : can_create c true host port rem ≡ true) (short : length c.session_vec < 2 ^ 16)
    (opens : Opens senv v (sm_req_pkt (new_client_session env c host port rem)) rinfo)
    (short_server : length v.session_vec < 2 ^ 16)
    (resolves : renv.resolve_remote_routing_info senv.local_routing_info ≡ some srinfo) where
  -- A client creates a session: the call returns its number, the request reaches the server and the
  -- response the client, and the two ends are connected to each other, with the ring entries of one
  -- session taken at each. The call is one that `can_create` allows, the request one that `Opens` a
  -- session, the session vectors have room, and the client resolves the server's routing
  -- information.
  pub create_session_st-connects :
      (t : Sm) × (u : Sm) × ((create_session_st env c true host port rem).0
        ≡ ok (length c.session_vec))
      × (exchange senv renv (create_session_st env c true host port rem).1 v ≡ some (t, u))
      × IsLinked t u (length c.session_vec) (length v.session_vec)
      × (t.ring_entries_available + session_credits ≡ c.ring_entries_available)
      × (u.ring_entries_available + session_credits ≡ v.ring_entries_available)
  create_session_st-connects =
      let call = create_session_st-asked env c host port rem may short in
      let (t, u, met, link, near, far) =
        exchange-connects env c host port rem may short senv renv v _ rinfo srinfo opens
          short_server (waiting_at env c host port rem may short) resolves
          (asked_is env c host port rem may short).0 in
      (
        t,
        u,
        ap (λ r. r.0) call,
        ap (λ r. exchange senv renv r.1 v) call ∙ met,
        link,
        omega (
          arith,
          near,
          (asked_is env c host port rem may short).1,
          can_create-le c host port rem may,
        ),
        omega (arith, far, have_ring_entries-le v opens.3),
      )

  -- A client creates a session and destroys it again: with the answers of the server the session is
  -- gone at both ends, and each has as many ring entries as before. The call is one that
  -- `can_create` allows, the request one that `Opens` a session, the session vectors have room, and
  -- the client resolves the server's routing information.
  pub session_cycle :
      (later slater rlater : SmEnv)
      → (t : Sm) × (u : Sm) × (a : Sm) × (b : Sm) × (exchange senv renv
            (create_session_st env c true host port rem).1
            v
          ≡ some (t, u))
        × (exchange slater rlater (destroy_session_st later t true (length c.session_vec)).1 u
            ≡ some (a, b))
        × (get_elem? a.session_vec (length c.session_vec) ≡ some none)
        × (get_elem? b.session_vec (length v.session_vec) ≡ some none)
        × (a.ring_entries_available ≡ c.ring_entries_available)
        × (b.ring_entries_available ≡ v.ring_entries_available)
  session_cycle later slater rlater =
      let (t, u, _, met, link, near, far) = create_session_st-connects in
      let (a, b, parted, gone, gone', back, back') =
        destroy_session_st-frees later slater rlater t u (length c.session_vec)
          (length v.session_vec) link in
      (t, u, a, b, met, parted, gone, gone', omega (arith, near, back), omega (arith, far, back'))
