-- ===== src/Sm/Calls.antt =====
-- What the user's session functions return (peer/erpc/rpc_impl/rpc_sm_api.cc), and what a call that
-- fails leaves behind.
use rdma_yuxi.Prelude.{
  if◌then◌else◌, ℕ, ◌≡◌, refl, ap, sym, ◌∙◌, subst, arith, Bool, true, false, not, ltb, ◌==◌, ◌&&◌,
  ◌||◌, List, Option, none, some, get_elem?, set, length, inl, inr,
}
use rdma_yuxi.Wire.Header.{session_req_window}
use rdma_yuxi.Rpc.State.{SessionState}
use rdma_yuxi.Sm.Types.{max_hostname_len, same_name}
use rdma_yuxi.Sm.State.{
  SmSession, Sm, SmEnv, have_ring_entries, send_sm_req_st, sm_pkt_udp_tx_st, is_client,
}
use rdma_yuxi.Sm.Api.{
  Ret, ok, eperm, einval, enomem, ebusy, ealready, create_session_st, destroy_session_st,
  destroy_in_state,
}
use rdma_yuxi.Sm.Entries.{get_elem?-set}
use rdma_yuxi.Sm.Entries.Parts.{vec_cases}

abbrev pub is_ok : Ret → Bool
is_ok (ok n) = true
is_ok eperm = false
is_ok einval = false
is_ok enomem = false
is_ok ebusy = false
is_ok ealready = false

create_fails :
    (env : SmEnv) (s : Sm) (d : Bool) (host : List ℕ) (port rem : ℕ)
    → is_ok (create_session_st env s d host port rem).0 ≡ false
    → (create_session_st env s d host port rem).1 ≡ s
unfolding create_session_st
create_fails env s d host port rem e = ground (arith, e)

destroy_in_state_fails :
    (env : SmEnv) (s : Sm) (x : SmSession)
    → is_ok (destroy_in_state env s x).0 ≡ false
    → (destroy_in_state env s x).1 ≡ s
unfolding destroy_in_state
destroy_in_state_fails env s x e = ground (arith, e)

-- The calls that succeed: from the dispatch thread, to another endpoint whose name has a length that
-- is allowed, with ring entries left; and for a client session that is there, with all slots free,
-- and connected or reset.
abbrev pub can_create : Sm → Bool → List ℕ → ℕ → ℕ → Bool
can_create s d host port rem =
    d
    && not (length host == 0 || ltb max_hostname_len (length host))
    && not (same_name host s.hostname && rem == s.rpc_id && port == s.sm_udp_port)
    && have_ring_entries s

abbrev pub is_settled : SessionState → Bool
is_settled SessionState.connect_in_progress = false
is_settled SessionState.connected = true
is_settled SessionState.disconnect_in_progress = false
is_settled SessionState.reset_in_progress = true

abbrev pub can_destroy_entry : Option (Option SmSession) → Bool
can_destroy_entry none = false
can_destroy_entry (some none) = false
can_destroy_entry (some (some x)) =
    is_client x.role && x.num_free_slots == session_req_window && is_settled x.state

abbrev pub can_destroy : Sm → Bool → ℕ → Bool
can_destroy s d n = d && can_destroy_entry (get_elem? s.session_vec n)

create_succeeds :
    (env : SmEnv) (s : Sm) (d : Bool) (host : List ℕ) (port rem : ℕ)
    → is_ok (create_session_st env s d host port rem).0 ≡ can_create s d host port rem
unfolding create_session_st
create_succeeds env s d host port rem = ground arith

module _ (env : SmEnv) (s : Sm) (n : ℕ) where
  destroy_fails :
      (d : Bool)
      → is_ok (destroy_session_st env s d n).0 ≡ false
      → (destroy_session_st env s d n).1 ≡ s
  unfolding destroy_session_st
  destroy_fails d = elim (vec_cases s.session_vec n) [
    | inl q ↦ rw q (λ e. ground arith)
    | inr (inl q) ↦ rw q (λ e. ground arith)
    | inr (inr (x, q)) ↦ rw q (λ e. ground (arith, e, destroy_in_state_fails env s x))
  ]

  destroy_succeeds : (d : Bool) → is_ok (destroy_session_st env s d n).0 ≡ can_destroy s d n
  unfolding destroy_session_st destroy_in_state
  destroy_succeeds d = elim (vec_cases s.session_vec n) [
    | inl q ↦ rw q (ground arith)
    | inr (inl q) ↦ rw q (ground arith)
    | inr (inr (x, q)) ↦ rw q (ground arith)
  ]

-- What a call that fails leaves, given that it succeeds just when `c` says.
unless : (s t : Sm) (b c : Bool) → b ≡ c → (b ≡ false → t ≡ s) → t ≡ (if c then t else s)
unless s t b true e f = refl
unless s t b false e f = f e

-- Creating a session succeeds just for the calls that `can_create` says, and destroying one for those
-- of `can_destroy`; a call that fails changes nothing.
pub session_calls-error :
    (env : SmEnv) (s : Sm) (d : Bool) (host : List ℕ) (port rem n : ℕ)
    → let created : Ret × Sm = create_session_st env s d host port rem in
      let destroyed : Ret × Sm = destroy_session_st env s d n in
      (is_ok created.0 ≡ can_create s d host port rem)
      × (created.1 ≡ (if can_create s d host port rem then created.1 else s))
      × (is_ok destroyed.0 ≡ can_destroy s d n)
      × (destroyed.1 ≡ (if can_destroy s d n then destroyed.1 else s))
session_calls-error env s d host port rem n = (
  create_succeeds env s d host port rem,
  unless s _ _ _ (create_succeeds env s d host port rem) (create_fails env s d host port rem),
  destroy_succeeds env s n d,
  unless s _ _ _ (destroy_succeeds env s n d) (destroy_fails env s n d),
)

module _ (env : SmEnv) (s : Sm) (n : ℕ) (x : SmSession)
    (there : get_elem? s.session_vec n ≡ some (some x)) (its : x.local_session_num ≡ n)
    (may : can_destroy s true n ≡ true) (open_ : x.state ≡ SessionState.connected) where
  abbrev closing : SmSession
  closing = record x { state = SessionState.disconnect_in_progress }

  abbrev asked : Sm
  asked = send_sm_req_st env s closing

  mine : (is_client x.role ≡ true) × ((x.num_free_slots == session_req_window) ≡ true)
  mine =
      let e : can_destroy_entry (some (some x)) ≡ true = ap can_destroy_entry (sym there) ∙ may in
      (ground (arith, e), ground (arith, e))

  pub destroy_session_st-asked : destroy_session_st env s true n ≡ (ok 0, asked)
  unfolding destroy_session_st destroy_in_state
  destroy_session_st-asked = rw (there, mine.0, mine.1, open_) refl

  pub still_there :
      get_elem? asked.session_vec n ≡ some (some (record closing { sm_req_ts = env.now }))
  unfolding send_sm_req_st sm_pkt_udp_tx_st
  still_there =
      ap (λ k. get_elem? (set s.session_vec k (some (record closing { sm_req_ts = env.now }))) n)
        its
      ∙ get_elem?-set s.session_vec n (some x) _ there

  again : (later : SmEnv) → destroy_session_st later asked true n ≡ (ealready, asked)
  unfolding destroy_session_st destroy_in_state
  again later = rw (still_there, mine.0, mine.1) refl

  -- A connected session that can be destroyed is asked to be, once: until the server answers, another
  -- call says that it is on its way and changes nothing.
  pub destroy_session_st-twice :
      (later : SmEnv)
      → (destroy_session_st env s true n ≡ (ok 0, asked))
        × (destroy_session_st later (destroy_session_st env s true n).1 true n
            ≡ (ealready, (destroy_session_st env s true n).1))
  destroy_session_st-twice later = (
    destroy_session_st-asked,
    subst (λ t. destroy_session_st later t true n ≡ (ealready, t))
        (sym (ap (λ r. r.1) destroy_session_st-asked)) (again later),
  )
