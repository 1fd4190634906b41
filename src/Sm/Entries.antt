-- ===== src/Sm/Entries.antt =====
-- The ring entries of the sessions: every session in `session_vec_` holds its entries, and none
-- are lost.
pub mod Parts
pub mod Api
pub mod Keep
pub mod Steps
use rdma_yuxi.Prelude.{
  ℕ, zero, suc, ◌+◌, ◌*◌, ◌%◌, ◌^◌, ◌<◌, ◌≡◌, refl, ap, subst, sym, ◌∙◌, arith, Bool, true, false,
  not, leb, if◌then◌else◌, List, [], ◌∷◌, ◌++◌, Option, none, some, get_elem?, set, length, is_some,
  inl, inr, Bool-cases,
}
use mathlib.Core.Bool.{true≢false}
use rdma_yuxi.Wire.Header.{session_credits}
use rdma_yuxi.Sm.Types.{SmErrType, SmPkt, Endpoint, sm_construct_resp}
use rdma_yuxi.Sm.State.{
  SmSession, Sm, SmEnv, num_rx_ring_entries, have_ring_entries, alloc_ring_entries,
  free_ring_entries, sm_pkt_udp_tx_st, send_sm_req_st, bury_session_st,
}
use rdma_yuxi.Sm.Api.{
  add_session, num_active, create_session_st, destroy_session_st, destroy_in_state,
  new_client_session,
}

abbrev bit : Option SmSession → ℕ
bit x = if is_some x then 1 else 0

abbrev IsAt : ℕ → Option SmSession → Type 0
IsAt n none = Unit
IsAt n (some x) = x.local_session_num ≡ n

-- Every session of the list carries its own number, the first place being `i`.
abbrev IsNumbered : ℕ → List (Option SmSession) → Type 0
IsNumbered i [] = Unit
IsNumbered i (x ∷ l) = IsAt i x × IsNumbered (i + 1) l

pub record IsSound (s : Sm) : Type 0 where
  pub entries :
      s.ring_entries_available + session_credits * num_active s.session_vec ≡ num_rx_ring_entries
  pub numbered : IsNumbered 0 s.session_vec

num_active-append :
    (l : List (Option SmSession)) (x : Option SmSession)
    → num_active (l ++ (x ∷ [])) ≡ num_active l + bit x
num_active-append [] x = omega arith
num_active-append (y ∷ l) x = omega (arith, num_active-append l x)

num_active-set :
    (l : List (Option SmSession)) (n : ℕ) (o x : Option SmSession)
    → get_elem? l n ≡ some o
    → num_active (set l n x) + bit o ≡ num_active l + bit x
num_active-set [] n o x h = ground arith
num_active-set (y ∷ l) zero o x h = ground arith
num_active-set (y ∷ l) (suc n) o x h = omega (arith, num_active-set l n o x h)

IsNumbered-set :
    (l : List (Option SmSession)) (i n : ℕ) (x : Option SmSession)
    → IsNumbered i l
    → IsAt (i + n) x
    → IsNumbered i (set l n x)
IsNumbered-set [] i n x h at = tt
IsNumbered-set (y ∷ l) i zero x h at =
    (subst (λ k. IsAt k x) (let e : i + 0 ≡ i = omega arith in e) at, h.1)
IsNumbered-set (y ∷ l) i (suc n) x h at = (
  h.0,
  IsNumbered-set l (i + 1) n x h.1
      (subst (λ k. IsAt k x) (let e : i + suc n ≡ i + 1 + n = omega arith in e) at),
)

IsNumbered-append :
    (l : List (Option SmSession)) (i : ℕ) (x : Option SmSession)
    → IsNumbered i l
    → IsAt (i + length l) x
    → IsNumbered i (l ++ (x ∷ []))
IsNumbered-append [] i x h at =
    (subst (λ k. IsAt k x) (let e : i + 0 ≡ i = omega arith in e) at, tt)
IsNumbered-append (y ∷ l) i x h at = (
  h.0,
  IsNumbered-append l (i + 1) x h.1
      (subst (λ k. IsAt k x) (let e : i + suc (length l) ≡ i + 1 + length l = omega arith in e) at),
)

IsNumbered-get :
    (l : List (Option SmSession)) (i n : ℕ) (x : SmSession)
    → IsNumbered i l
    → get_elem? l n ≡ some (some x)
    → x.local_session_num ≡ i + n
IsNumbered-get [] i n x h e = ground arith
IsNumbered-get (y ∷ l) i zero x h e = ground arith
IsNumbered-get (y ∷ l) i (suc n) x h e = omega (arith, IsNumbered-get l (i + 1) n x h.1 e)

-- A place of the vector changes, and the ring entries with it.
pub change-IsSound :
    (s t : Sm) (n : ℕ) (o x : Option SmSession)
    → get_elem? s.session_vec n ≡ some o
    → t.session_vec ≡ set s.session_vec n x
    → IsAt n x
    → t.ring_entries_available + session_credits * bit x
      ≡ s.ring_entries_available + session_credits * bit o
    → IsSound s
    → IsSound t
change-IsSound s t n o x h e at bal v = record {
  entries = omega (arith, num_active-set s.session_vec n o x h, ap num_active e, v.entries);
  numbered = subst (IsNumbered 0) (sym e) (
      IsNumbered-set s.session_vec 0 n x v.numbered
        (subst (λ k. IsAt k x) (let e : n ≡ 0 + n = omega arith in e) at));
}

-- A session is added where the ring has its entries.
pub add_session-IsSound :
    (s : Sm) (x : SmSession)
    → have_ring_entries s ≡ true
    → x.local_session_num ≡ length s.session_vec
    → IsSound s
    → IsSound (add_session s x)
unfolding add_session alloc_ring_entries have_ring_entries
add_session-IsSound s x h at v = record {
  entries = ground (arith, num_active-append s.session_vec (some x), v.entries);
  numbered = IsNumbered-append s.session_vec 0 (some x) v.numbered (omega (arith, at));
}

-- The session that is added stands at the end.
pub get_elem?-append :
    (l : List (Option SmSession)) (x : Option SmSession)
    → get_elem? (l ++ (x ∷ [])) (length l) ≡ some x
get_elem?-append [] x = refl
get_elem?-append (y ∷ l) x = get_elem?-append l x

pub get_elem?-set :
    (l : List (Option SmSession)) (n : ℕ) (y z : Option SmSession)
    → get_elem? l n ≡ some y
    → get_elem? (set l n z) n ≡ some z
get_elem?-set [] n y z e = absurd (true≢false (sym (ap is_some e)))
get_elem?-set (x ∷ l) zero y z e = refl
get_elem?-set (x ∷ l) (suc n) y z e = get_elem?-set l n y z e
