-- ===== src/Sm/Entries/Parts.antt =====
-- How the parts of the session functions and handlers keep the ring entries' account.
use rdma_yuxi.Prelude.{
  ℕ, ◌≡◌, ◌⊎◌, refl, ap, ◌∙◌, arith, Bool, true, false, if◌then◌else◌, List, Option, none, some,
  get_elem?, inl, inr, Bool-cases, Option-cases,
}
use rdma_yuxi.Sm.Types.{SmErrType, SmPkt, Endpoint, sm_construct_resp}
use rdma_yuxi.Sm.State.{
  SmSession, Sm, SmEnv, free_ring_entries, sm_pkt_udp_tx_st, send_sm_req_st, bury_session_st,
}
use rdma_yuxi.Sm.Api.{Ret}
use rdma_yuxi.Sm.Handlers.{send_resp, send_server, guard}
use rdma_yuxi.Sm.Entries.{IsSound, IsNumbered-get, change-IsSound}

-- States that agree in what the account is of.
pub same-IsSound :
    (s t : Sm)
    → t.session_vec ≡ s.session_vec
    → t.ring_entries_available ≡ s.ring_entries_available
    → IsSound s
    → IsSound t
same-IsSound s t e f v = record { entries = rw (e, f) v.entries; numbered = rw e v.numbered }

pub sm_pkt_udp_tx_st-IsSound : (s : Sm) (pkt : SmPkt) → IsSound s → IsSound (sm_pkt_udp_tx_st s pkt)
unfolding sm_pkt_udp_tx_st
sm_pkt_udp_tx_st-IsSound s pkt = same-IsSound s (sm_pkt_udp_tx_st s pkt) refl refl

pub send_sm_req_st-IsSound :
    (env : SmEnv) (s : Sm) (x y : SmSession)
    → get_elem? s.session_vec x.local_session_num ≡ some (some y)
    → IsSound s
    → IsSound (send_sm_req_st env s x)
unfolding send_sm_req_st sm_pkt_udp_tx_st
send_sm_req_st-IsSound env s x y h =
    change-IsSound s (send_sm_req_st env s x) x.local_session_num (some y)
      (some (record x { sm_req_ts = env.now })) h refl refl refl

-- A session is buried after its entries are freed.
pub bury-IsSound :
    (s t : Sm) (x : SmSession)
    → get_elem? s.session_vec x.local_session_num ≡ some (some x)
    → t.session_vec ≡ s.session_vec
    → t.ring_entries_available ≡ (free_ring_entries s).ring_entries_available
    → IsSound s
    → IsSound (bury_session_st t x)
unfolding bury_session_st free_ring_entries
bury-IsSound s t x h e f =
    change-IsSound s (bury_session_st t x) x.local_session_num (some x) none h (ground (arith, e))
      tt (ground (arith, f))

-- The place of a session is the one it was found at.
pub here :
    (s : Sm) (n : ℕ) (x : SmSession)
    → get_elem? s.session_vec n ≡ some (some x)
    → IsSound s
    → get_elem? s.session_vec x.local_session_num ≡ some (some x)
here s n x h v =
    ap (get_elem? s.session_vec) (
      let e : x.local_session_num ≡ n =
        omega (arith, IsNumbered-get s.session_vec 0 n x v.numbered h) in
      e)
    ∙ h

-- A handler that does not stop the program keeps the account.
pub data IsKept : Option Sm → Type 0 where
  stopped : IsKept none
  kept : (t : Sm) → IsSound t → IsKept (some t)

-- The account through a test, and through a look at an option.
pub if-IsKept :
    (b : Bool) (x y : Option Sm)
    → (b ≡ true → IsKept x)
    → (b ≡ false → IsKept y)
    → IsKept (if b then x else y)
if-IsKept b x y h k = elim (Bool-cases b) [ inl e ↦ rw e (h e) | inr e ↦ rw e (k e) ]

pub guard-IsKept : (b : Bool) (x : Option Sm) → (b ≡ true → IsKept x) → IsKept (guard b x)
guard-IsKept b x h = if-IsKept b x none h (λ _. stopped)

pub ret_if :
    (b : Bool) (x y : Ret × Sm)
    → IsSound x.1
    → (b ≡ false → IsSound y.1)
    → IsSound (if b then x else y).1
ret_if b x y h k = elim (Bool-cases b) [ inl e ↦ rw e h | inr e ↦ rw e (k e) ]

pub option-IsSound :
    {A : Type 0} (o : Option A) (d : Sm) (f : A → Sm)
    → IsSound d
    → ((a : A) → IsSound (f a))
    → IsSound (elim o [ none ↦ d | some a ↦ f a ])
option-IsSound none d f h k = h
option-IsSound (some a) d f h k = k a

pub option-IsKept :
    {A : Type 0} (o : Option A) (d : Option Sm) (f : A → Option Sm)
    → IsKept d
    → ((a : A) → o ≡ some a → IsKept (f a))
    → IsKept (elim o [ none ↦ d | some a ↦ f a ])
option-IsKept none d f h k = h
option-IsKept (some a) d f h k = k a refl

pub send_resp-IsKept :
    (s : Sm) (pkt : SmPkt) (err : SmErrType) → IsSound s → IsKept (send_resp s pkt err)
unfolding send_resp
send_resp-IsKept s pkt err v =
    option-IsKept (sm_construct_resp pkt err) none _ stopped
      (λ resp e. kept _ (sm_pkt_udp_tx_st-IsSound s resp v))

pub send_server-IsKept :
    (s : Sm) (pkt : SmPkt) (server : Endpoint) → IsSound s → IsKept (send_server s pkt server)
unfolding send_server
send_server-IsKept s pkt server v =
    option-IsKept (sm_construct_resp pkt SmErrType.no_error) none _ stopped
      (λ resp e. kept _ (sm_pkt_udp_tx_st-IsSound s (record resp { server = server }) v))

-- The account through a look at a place of the session vector.
pub place-IsKept :
    (s : Sm) (n : ℕ) (d e : Option Sm) (f : SmSession → Option Sm)
    → IsSound s
    → IsKept d
    → IsKept e
    → ((x : SmSession) → get_elem? s.session_vec x.local_session_num ≡ some (some x) → IsKept (f x))
    → IsKept (elim (get_elem? s.session_vec n) [ none ↦ d | some none ↦ e | some (some x) ↦ f x ])
place-IsKept s n d e f v h k l =
    option-IsKept (get_elem? s.session_vec n) d _ h
      λ o eq. option-IsKept o e f k λ x same. l x (here s n x (eq ∙ ap some same) v)

-- What stands at a place of the session vector.
pub vec_cases :
    (l : List (Option SmSession)) (n : ℕ)
    → (get_elem? l n ≡ none)
      ⊎ (get_elem? l n ≡ some none)
      ⊎ ((x : SmSession) × (get_elem? l n ≡ some (some x)))
vec_cases l n = elim (Option-cases (get_elem? l n)) [
  | inl e ↦ inl e
  | inr (none, e) ↦ inr (inl e)
  | inr (some x, e) ↦ inr (inr (x, e))
]
