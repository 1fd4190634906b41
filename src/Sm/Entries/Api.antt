-- ===== src/Sm/Entries/Api.antt =====
-- create_session_st and destroy_session_st keep the ring entries' account.
use rdma_yuxi.Prelude.{
  ℕ, ◌^◌, ◌<◌, ◌≡◌, ◌&&◌, ◌||◌, ltb, ◌==◌, ap, ◌∙◌, arith, Bool, not, List, [], ◌∷◌, ◌++◌, none,
  some, get_elem?, length, inl, inr,
}
use rdma_yuxi.Wire.Header.{session_req_window}
use rdma_yuxi.Rpc.State.{SessionState}
use rdma_yuxi.Sm.Types.{max_hostname_len, same_name}
use rdma_yuxi.Sm.State.{is_client, SmSession, Sm, SmEnv, have_ring_entries, send_sm_req_st}
use rdma_yuxi.Sm.Api.{
  Ret, ok, eperm, einval, ealready, add_session, create_session_st, destroy_session_st,
  destroy_in_state, new_client_session,
}
use rdma_yuxi.Sm.Entries.{get_elem?-append, IsSound, add_session-IsSound}
use rdma_yuxi.Sm.Entries.Parts.{send_sm_req_st-IsSound, here, ret_if, vec_cases}

-- Creating a session takes its ring entries, and no more, in every case.
pub create_session_st-IsSound :
    (env : SmEnv) (s : Sm) (in_dispatch : Bool) (host : List ℕ) (port rem : ℕ)
    → length s.session_vec < 2 ^ 16
    → IsSound s
    → IsSound (create_session_st env s in_dispatch host port rem).1
unfolding create_session_st new_client_session add_session
create_session_st-IsSound env s d host port rem lt v = ret_if (not d) _ _ v λ _.
    ret_if (length host == 0 || ltb max_hostname_len (length host)) _ _ v λ _.
      ret_if (same_name host s.hostname && rem == s.rpc_id && port == s.sm_udp_port) _ _ v λ _.
        ret_if (not (have_ring_entries s)) _ _ v λ room.
          send_sm_req_st-IsSound env (add_session s x) x x
            (ap (get_elem? (s.session_vec ++ (some x ∷ []))) num
              ∙ get_elem?-append s.session_vec (some x))
            (add_session-IsSound s x (ground (arith, room)) num v)
  where
    x : SmSession
    x = new_client_session env s host port rem

    num : x.local_session_num ≡ length s.session_vec
    num = omega (arith, lt)

ret_place :
    (s : Sm) (n : ℕ) (d e : Ret × Sm) (f : SmSession → Ret × Sm)
    → IsSound s
    → IsSound d.1
    → IsSound e.1
    → ((x : SmSession)
        → get_elem? s.session_vec x.local_session_num ≡ some (some x)
        → IsSound (f x).1)
    → let r : Ret × Sm = elim (get_elem? s.session_vec n) [
      | none ↦ d
      | some none ↦ e
      | some (some x) ↦ f x
    ] in
      IsSound r.1
ret_place s n d e f v h k l = elim (vec_cases s.session_vec n) [
  | inl q ↦ rw q h
  | inr (inl q) ↦ rw q k
  | inr (inr (x, q)) ↦ rw q (l x (here s n x q v))
]

destroy_in_state-IsSound :
    (env : SmEnv) (s : Sm) (x : SmSession)
    → get_elem? s.session_vec x.local_session_num ≡ some (some x)
    → IsSound s
    → IsSound (destroy_in_state env s x).1
unfolding destroy_in_state
destroy_in_state-IsSound env s x h v = by_state x.state
  where
    by_state :
        (z : SessionState)
        → let r : Ret × Sm = elim z [
          | SessionState.connect_in_progress ↦ (eperm, s)
          | SessionState.connected ↦ (
            ok 0,
            send_sm_req_st env s (record x { state = SessionState.disconnect_in_progress }),
          )
          | SessionState.disconnect_in_progress ↦ (ealready, s)
          | SessionState.reset_in_progress ↦ (ok 0, s)
        ] in
          IsSound r.1
    by_state SessionState.connect_in_progress = v
    by_state SessionState.connected =
        send_sm_req_st-IsSound env s (record x { state = SessionState.disconnect_in_progress }) x h
          v
    by_state SessionState.disconnect_in_progress = v
    by_state SessionState.reset_in_progress = v

-- Destroying a session frees nothing before the server's response.
pub destroy_session_st-IsSound :
    (env : SmEnv) (s : Sm) (in_dispatch : Bool) (n : ℕ)
    → IsSound s
    → IsSound (destroy_session_st env s in_dispatch n).1
unfolding destroy_session_st
destroy_session_st-IsSound env s d n v = ret_if (not d) _ _ v λ _.
    ret_place s n (einval, s) (eperm, s) _ v v v
      λ x h. ret_if (not (is_client x.role)) _ _ v λ _.
        ret_if (not (x.num_free_slots == session_req_window)) _ _ v
          λ _. destroy_in_state-IsSound env s x h v
