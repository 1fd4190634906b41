-- ===== src/Sm/Again.antt =====
-- A connect request that arrives twice.
use rdma_yuxi.Prelude.{
  ℕ, ◌^◌, ◌<◌, ◌≡◌, refl, ap, ◌∙◌, arith, true, ◌==◌, List, [], ◌∷◌, Option, none, some, get_elem?,
  length, update,
}
use rdma_yuxi.Wire.Header.{session_req_window}
use rdma_yuxi.Sm.Types.{SmPktType, SmErrType, SmPkt, sm_construct_resp, sm_pkt_type_req_to_resp}
use rdma_yuxi.Sm.State.{
  SmSession, Sm, SmEnv, have_ring_entries, sm_pkt_udp_tx_st, alloc_ring_entries,
}
use rdma_yuxi.Sm.Api.{add_session}
use rdma_yuxi.Sm.Handlers.{
  first_without, new_server_session, send_server, accept_connect, connect_again, connect_new,
  handle_connect_req_st,
}
use rdma_yuxi.Sm.Entries.{get_elem?-append}

-- The response to a request that created the session `x`.
abbrev pub accepted : SmPkt → SmSession → SmPkt
accepted pkt x = record pkt {
  pkt_type = SmPktType.connect_resp;
  err_type = SmErrType.no_error;
  server = x.server;
}

-- The state with the session and its token, before the response is sent.
abbrev pub entered : Sm → SmSession → Sm
entered s x =
    add_session
      (record s {
        conn_req_token_map = update s.conn_req_token_map x.uniq_token (some x.server.session_num);
      })
      x

-- A connect request with a new token that passes every test of the server's.
abbrev pub Opens : SmEnv → Sm → SmPkt → ℕ → Type 0
Opens env s pkt rinfo =
    (pkt.pkt_type ≡ SmPktType.connect_req)
    × (s.conn_req_token_map pkt.uniq_token ≡ none)
    × (pkt.server.transport_type == s.transport_type ≡ true)
    × (have_ring_entries s ≡ true)
    × (env.resolve_remote_routing_info pkt.client.routing_info ≡ some rinfo)
    × (first_without env.can_alloc_pre_resp 0 session_req_window ≡ none)

-- The copies of a packet that arrive one after the other, each in its surroundings.
abbrev pub handle_copies : List SmEnv → SmPkt → Sm → Option Sm
handle_copies [] pkt s = some s
handle_copies (env ∷ l) pkt s = elim (handle_connect_req_st env s pkt) [
  | none ↦ none
  | some t ↦ handle_copies l pkt t
]

abbrev then_copies : List SmEnv → SmPkt → Option Sm → Option Sm
then_copies l pkt o = elim o [ none ↦ none | some t ↦ handle_copies l pkt t ]

-- One response for each copy.
abbrev pub answers : List SmEnv → SmPkt → Sm → Sm
answers [] resp s = s
answers (env ∷ l) resp s = answers l resp (sm_pkt_udp_tx_st s resp)

send_server-accepted :
    (s : Sm) (pkt : SmPkt) (x : SmSession)
    → pkt.pkt_type ≡ SmPktType.connect_req
    → send_server s pkt x.server ≡ some (sm_pkt_udp_tx_st s (accepted pkt x))
unfolding send_server sm_construct_resp sm_pkt_type_req_to_resp
send_server-accepted s pkt x e = rw e refl

pub option-none :
    {A B : Type 0} (o : Option A) (d : B) (f : A → B)
    → o ≡ none
    → elim o [ none ↦ d | some a ↦ f a ] ≡ d
option-none o d f e = ap (λ o. elim o [ none ↦ d | some a ↦ f a ]) e

pub option-some :
    {A B : Type 0} (o : Option A) (a : A) (d : B) (f : A → B)
    → o ≡ some a
    → elim o [ none ↦ d | some a ↦ f a ] ≡ f a
option-some o a d f e = ap (λ o. elim o [ none ↦ d | some a ↦ f a ]) e

-- A look at a place of the session vector where a session stands.
pub place-some :
    {B : Type 0} (o : Option (Option SmSession)) (x : SmSession) (d e : B) (f : SmSession → B)
    → o ≡ some (some x)
    → elim o [ none ↦ d | some none ↦ e | some (some x) ↦ f x ] ≡ f x
place-some o x d e f h = ap (λ o. elim o [ none ↦ d | some none ↦ e | some (some x) ↦ f x ]) h

module _ (env : SmEnv) (s : Sm) (pkt : SmPkt) (rinfo : ℕ) where
  abbrev x : SmSession
  x = new_server_session env s pkt rinfo

  abbrev t : Sm
  t = sm_pkt_udp_tx_st (entered s x) (accepted pkt x)

  connect_new-accepted :
      pkt.pkt_type ≡ SmPktType.connect_req
      → pkt.server.transport_type == s.transport_type ≡ true
      → have_ring_entries s ≡ true
      → env.resolve_remote_routing_info pkt.client.routing_info ≡ some rinfo
      → first_without env.can_alloc_pre_resp 0 session_req_window ≡ none
      → connect_new env s pkt ≡ some t
  unfolding connect_new accept_connect
  connect_new-accepted type trans room res mem =
      rw (trans, room)
        (option-some (env.resolve_remote_routing_info pkt.client.routing_info) rinfo _ _ res
          ∙ option-none (first_without env.can_alloc_pre_resp 0 session_req_window) _ _ mem
          ∙ send_server-accepted (entered s x) pkt x type)

  pub first_connect :
      pkt.pkt_type ≡ SmPktType.connect_req
      → s.conn_req_token_map pkt.uniq_token ≡ none
      → pkt.server.transport_type == s.transport_type ≡ true
      → have_ring_entries s ≡ true
      → env.resolve_remote_routing_info pkt.client.routing_info ≡ some rinfo
      → first_without env.can_alloc_pre_resp 0 session_req_window ≡ none
      → handle_connect_req_st env s pkt ≡ some t
  unfolding handle_connect_req_st
  first_connect type new trans room res mem =
      option-none (s.conn_req_token_map pkt.uniq_token) _ _ new
      ∙ connect_new-accepted type trans room res mem

  token :
      length s.session_vec < 2 ^ 16
      → t.conn_req_token_map pkt.uniq_token ≡ some (length s.session_vec)
  unfolding sm_pkt_udp_tx_st add_session alloc_ring_entries new_server_session
  token short = ground arith

  pub stands : get_elem? t.session_vec (length s.session_vec) ≡ some (some x)
  unfolding sm_pkt_udp_tx_st add_session alloc_ring_entries
  stands = get_elem?-append s.session_vec (some x)

  -- A state in which the session is entered answers the request and stays so.
  second_connect :
      (next : SmEnv) (u : Sm)
      → pkt.pkt_type ≡ SmPktType.connect_req
      → u.conn_req_token_map pkt.uniq_token ≡ some (length s.session_vec)
      → get_elem? u.session_vec (length s.session_vec) ≡ some (some x)
      → handle_connect_req_st next u pkt ≡ some (sm_pkt_udp_tx_st u (accepted pkt x))
  unfolding handle_connect_req_st connect_again new_server_session
  second_connect next u type known here =
      option-some (u.conn_req_token_map pkt.uniq_token) (length s.session_vec) _ _ known
      ∙ place-some (get_elem? u.session_vec (length s.session_vec)) x _ _ _ here
      ∙ send_server-accepted u pkt x type

  again :
      (l : List SmEnv) (u : Sm)
      → pkt.pkt_type ≡ SmPktType.connect_req
      → u.conn_req_token_map pkt.uniq_token ≡ some (length s.session_vec)
      → get_elem? u.session_vec (length s.session_vec) ≡ some (some x)
      → handle_copies l pkt u ≡ some (answers l (accepted pkt x) u)
  unfolding sm_pkt_udp_tx_st
  again [] u type known here = refl
  again (next ∷ l) u type known here =
      ap (then_copies l pkt) (second_connect next u type known here)
      ∙ again l (sm_pkt_udp_tx_st u (accepted pkt x)) type known here

  -- A connect request that opens a session, and then any number of copies of it: there is one new
  -- session, at one number and with one share of the ring's entries, and every copy is answered with
  -- the same response. The request is one that `Opens` a session, and the session vector has room.
  pub handle_copies-answers :
      (l : List SmEnv)
      → Opens env s pkt rinfo
      → length s.session_vec < 2 ^ 16
      → handle_copies (env ∷ l) pkt s ≡ some (answers (env ∷ l) (accepted pkt x) (entered s x))
  handle_copies-answers l (type, new, trans, room, res, mem) short =
      ap (then_copies l pkt) (first_connect type new trans room res mem)
      ∙ again l t type (token short) stands
