-- ===== src/Sm/Entries/Keep.antt =====
-- The session management handlers keep the ring entries' account.
use rdma_yuxi.Prelude.{
  erase, ℕ, ◌^◌, ◌<◌, ◌≡◌, ◌&&◌, ◌==◌, refl, arith, true, not, if◌then◌else◌, none, some, get_elem?,
  length, inl, inr, Bool-cases,
}
use rdma_yuxi.Wire.Header.{session_req_window}
use rdma_yuxi.Rpc.State.{SessionState}
use rdma_yuxi.Sm.Types.{SmPktType, SmErrType, SmEventType, SmPkt, is_resp}
use rdma_yuxi.Sm.State.{
  log_sm, sm_handler, is_connecting, SmSession, Sm, SmEnv, have_ring_entries, free_ring_entries,
  sm_pkt_udp_tx_st, bury_session_st,
}
use rdma_yuxi.Sm.Handlers.{
  send_resp, connect_again, new_server_session, accept_connect, connect_new, handle_connect_req_st,
  is_connected, is_expected, is_no_error, is_invalid_rpc_id, may_disconnect, is_disconnected,
  first_without, fail_connect, finish_connect, connect_resp, handle_connect_resp_st,
  handle_disconnect_req_st, handle_disconnect_resp_st, handle_sm_pkt,
}
use rdma_yuxi.Sm.Entries.{IsSound, change-IsSound, add_session-IsSound}
use rdma_yuxi.Sm.Entries.Parts.{
  IsKept, stopped, kept, same-IsSound, send_sm_req_st-IsSound, bury-IsSound, if-IsKept,
  guard-IsKept, option-IsSound, option-IsKept, send_resp-IsKept, send_server-IsKept, place-IsKept,
}

accept_connect-IsKept :
    (env : SmEnv) (s : Sm) (pkt : SmPkt) (rinfo : ℕ)
    → have_ring_entries s ≡ true
    → length s.session_vec < 2 ^ 16
    → IsSound s
    → IsKept (accept_connect env s pkt rinfo)
unfolding accept_connect new_server_session have_ring_entries
accept_connect-IsKept env s pkt rinfo room lt v =
    send_server-IsKept _ pkt _
      (add_session-IsSound _ _ room (omega (arith, lt)) (same-IsSound s _ refl refl v))

connect_new-IsKept :
    (env : SmEnv) (s : Sm) (pkt : SmPkt)
    → length s.session_vec < 2 ^ 16
    → IsSound s
    → IsKept (connect_new env s pkt)
unfolding connect_new
connect_new-IsKept env s pkt lt v =
    if-IsKept (not (pkt.server.transport_type == s.transport_type)) _ _
      (λ _. send_resp-IsKept s pkt _ v)
      λ _.
        if-IsKept (not (have_ring_entries s)) _ _ (λ _. send_resp-IsKept s pkt _ v)
          λ room.
            option-IsKept (env.resolve_remote_routing_info pkt.client.routing_info) _ _
              (send_resp-IsKept s pkt _ v)
              λ rinfo _.
                option-IsKept (first_without env.can_alloc_pre_resp 0 session_req_window) _ _
                  (accept_connect-IsKept env s pkt rinfo (ground (arith, room)) lt v)
                  λ i _. send_resp-IsKept _ pkt _ (same-IsSound s _ refl refl v)

handle_connect_req_st-IsKept :
    (env : SmEnv) (s : Sm) (pkt : SmPkt)
    → length s.session_vec < 2 ^ 16
    → IsSound s
    → IsKept (handle_connect_req_st env s pkt)
unfolding handle_connect_req_st connect_again connect_new
handle_connect_req_st-IsKept env s pkt lt v =
    option-IsKept (s.conn_req_token_map pkt.uniq_token) _ _ (connect_new-IsKept env s pkt lt v)
      λ n e. place-IsKept s n _ _ _ v stopped (kept s v) λ x h.
        if-IsKept (is_connected x.state) _ _ (λ _. send_server-IsKept s pkt x.server v)
          (λ _. kept s v)

-- The client session that `finish_connect` connects.
abbrev connected_session : SmSession → SmPkt → ℕ → SmSession
connected_session x pkt rinfo = record x {
  server = record (pkt.server) { routing_info = rinfo };
  remote_session_num = pkt.server.session_num;
  state = SessionState.connected;
}

finish_connect-IsSound :
    (env : SmEnv) (s : Sm) (x : SmSession) (pkt : SmPkt)
    → get_elem? s.session_vec x.local_session_num ≡ some (some x)
    → IsSound s
    → IsSound (finish_connect env s x pkt)
unfolding finish_connect
finish_connect-IsSound env s x pkt h v =
    option-IsSound (env.resolve_remote_routing_info pkt.server.routing_info) _ _
      (send_sm_req_st-IsSound env s
        (record x { server = pkt.server; state = SessionState.disconnect_in_progress }) x h v)
      λ rinfo.
        change-IsSound s _ x.local_session_num (some x) (some (connected_session x pkt rinfo)) h
          refl refl refl v

connect_resp-IsSound :
    (env : SmEnv) (s : Sm) (x : SmSession) (pkt : SmPkt)
    → get_elem? s.session_vec x.local_session_num ≡ some (some x)
    → IsSound s
    → IsSound (connect_resp env s x pkt)
unfolding connect_resp fail_connect free_ring_entries
connect_resp-IsSound env s x pkt h v =
    elim (Bool-cases (is_invalid_rpc_id pkt.err_type && s.retry_connect_on_invalid_rpc_id)) [
      | inl e ↦ rw e (same-IsSound s _ refl refl v)
      | inr e ↦ elim (Bool-cases (not (is_no_error pkt.err_type))) [
        | inl f ↦
            rw (e, f)
              (bury-IsSound s
                (log_sm (free_ring_entries s)
                  (sm_handler x.local_session_num SmEventType.connect_failed pkt.err_type))
                x h refl refl v)
        | inr f ↦ rw (e, f) (finish_connect-IsSound env s x pkt h v)
      ]
    ]

handle_connect_resp_st-IsKept :
    (env : SmEnv) (s : Sm) (pkt : SmPkt) → IsSound s → IsKept (handle_connect_resp_st env s pkt)
unfolding handle_connect_resp_st
handle_connect_resp_st-IsKept env s pkt v =
    place-IsKept s pkt.client.session_num _ _ _ v stopped (kept s v) λ x h.
      if-IsKept (not (is_connecting x.state)) _ _ (λ _. kept s v)
        λ _. guard-IsKept (is_expected x pkt) _ λ _. kept _ (connect_resp-IsSound env s x pkt h v)

send_resp-same :
    (s : Sm) (pkt : SmPkt) (err : SmErrType) (u : Sm)
    → send_resp s pkt err ≡ some u
    → (u.session_vec ≡ s.session_vec) × (u.ring_entries_available ≡ s.ring_entries_available)
unfolding send_resp sm_pkt_udp_tx_st
send_resp-same s pkt err u e = (ground (arith, e), ground (arith, e))

handle_disconnect_req_st-IsKept :
    (s : Sm) (pkt : SmPkt) → IsSound s → IsKept (handle_disconnect_req_st s pkt)
unfolding handle_disconnect_req_st free_ring_entries
handle_disconnect_req_st-IsKept s pkt v =
    place-IsKept s pkt.server.session_num _ _ _ v stopped
      (send_resp-IsKept s pkt SmErrType.no_error v)
      λ x h. guard-IsKept (may_disconnect x pkt) _ λ _.
        option-IsKept (send_resp (free_ring_entries s) pkt SmErrType.no_error) none
          (λ t. some (bury_session_st t x)) stopped
          λ u e. kept _ (
            bury-IsSound s u x h (send_resp-same (free_ring_entries s) pkt SmErrType.no_error u e).0
              (send_resp-same (free_ring_entries s) pkt SmErrType.no_error u e).1 v)

handle_disconnect_resp_st-IsKept :
    (s : Sm) (pkt : SmPkt) → IsSound s → IsKept (handle_disconnect_resp_st s pkt)
unfolding handle_disconnect_resp_st bury_session_st free_ring_entries
handle_disconnect_resp_st-IsKept s pkt v = guard-IsKept (is_no_error pkt.err_type) _ (λ _.
    place-IsKept s pkt.client.session_num _ _ _ v stopped (kept s v)
      λ x h. guard-IsKept (is_disconnected x pkt) _ λ _. kept _ (bury-IsSound s _ x h refl refl v))

-- Every session management packet leaves the ring's account in order, whatever it is and however
-- often it comes, unless an assertion stops the program: the entries that are free and those of the
-- sessions make up the ring, and each session stands at its number.
pub handle_sm_pkt-IsKept :
    (env : SmEnv) (s : Sm) (pkt : SmPkt)
    → length s.session_vec < 2 ^ 16
    → IsSound s
    → IsKept (handle_sm_pkt env s pkt)
unfolding handle_sm_pkt
handle_sm_pkt-IsKept env s pkt lt v = by_type pkt.pkt_type
  where
    t : Sm
    t =
        if is_resp pkt
        then record s { sm_pending_reqs = erase pkt.client.session_num s.sm_pending_reqs }
        else s

    t-IsSound : IsSound t
    t-IsSound = elim (Bool-cases (is_resp pkt)) [
      | inl e ↦ rw e (
          same-IsSound s
            (record s { sm_pending_reqs = erase pkt.client.session_num s.sm_pending_reqs }) refl
            refl v)
      | inr e ↦ rw e v
    ]

    short : length t.session_vec < 2 ^ 16
    short = ground (arith, lt)

    by_type :
        (z : SmPktType)
        → IsKept (elim z [
          | SmPktType.connect_req ↦ handle_connect_req_st env t pkt
          | SmPktType.disconnect_req ↦ handle_disconnect_req_st t pkt
          | SmPktType.connect_resp ↦ handle_connect_resp_st env t pkt
          | SmPktType.disconnect_resp ↦ handle_disconnect_resp_st t pkt
          | _ ↦ none
        ])
    by_type SmPktType.connect_req = handle_connect_req_st-IsKept env t pkt short t-IsSound
    by_type SmPktType.disconnect_req = handle_disconnect_req_st-IsKept t pkt t-IsSound
    by_type SmPktType.connect_resp = handle_connect_resp_st-IsKept env t pkt t-IsSound
    by_type SmPktType.disconnect_resp = handle_disconnect_resp_st-IsKept t pkt t-IsSound
    by_type SmPktType.unblock = stopped
    by_type SmPktType.ping_req = stopped
    by_type SmPktType.ping_resp = stopped
