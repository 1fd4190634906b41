-- ===== src/Sm/Entries/Steps.antt =====
-- Runs of session management.
use rdma_yuxi.Prelude.{
  ℕ, ◌+◌, ◌*◌, ◌^◌, ◌<◌, ◌≤◌, ◌≡◌, subst, arith, Bool, List, Option, none, some, length,
}
use rdma_yuxi.Wire.Header.{session_credits}
use rdma_yuxi.Sm.Types.{SmPkt}
use rdma_yuxi.Sm.State.{Sm, SmEnv, num_rx_ring_entries}
use rdma_yuxi.Sm.Api.{num_active, create_session_st, destroy_session_st}
use rdma_yuxi.Sm.Handlers.{handle_sm_pkt}
use rdma_yuxi.Sm.Entries.{IsSound}
use rdma_yuxi.Sm.Entries.Parts.{IsKept, stopped, kept}
use rdma_yuxi.Sm.Entries.Api.{create_session_st-IsSound, destroy_session_st-IsSound}
use rdma_yuxi.Sm.Entries.Keep.{handle_sm_pkt-IsKept}

-- A run from the state `init`, in any order, in surroundings that may change with every step: the
-- user creates and destroys sessions, and packets arrive, of which none stops the program. Session
-- numbers have 16 bits.
pub data SmSteps (init : Sm) : Sm → Type 0 where
  begin : SmSteps init init
  creates :
      (env : SmEnv) (s : Sm) (in_dispatch : Bool) (host : List ℕ) (port rem : ℕ)
      → SmSteps init s
      → length s.session_vec < 2 ^ 16
      → SmSteps init (create_session_st env s in_dispatch host port rem).1
  destroys :
      (env : SmEnv) (s : Sm) (in_dispatch : Bool) (n : ℕ)
      → SmSteps init s
      → SmSteps init (destroy_session_st env s in_dispatch n).1
  packets :
      (env : SmEnv) (s t : Sm) (pkt : SmPkt)
      → SmSteps init s
      → length s.session_vec < 2 ^ 16
      → handle_sm_pkt env s pkt ≡ some t
      → SmSteps init t

-- What is kept is sound, where the program goes on.
SoundIf : Option Sm → Type 0
SoundIf none = Unit
SoundIf (some t) = IsSound t

kept-SoundIf : (o : Option Sm) → IsKept o → SoundIf o
unfolding SoundIf
kept-SoundIf none stopped = tt
kept-SoundIf (some t) (kept u v) = v

packet-IsSound : (o : Option Sm) (t : Sm) → IsKept o → o ≡ some t → IsSound t
unfolding SoundIf
packet-IsSound o t k e = subst SoundIf e (kept-SoundIf o k)

steps-IsSound : (init s : Sm) → IsSound init → SmSteps init s → IsSound s
steps-IsSound init s v begin = v
steps-IsSound init s v (creates env q d host port rem r lt) =
    create_session_st-IsSound env q d host port rem lt (steps-IsSound init q v r)
steps-IsSound init s v (destroys env q d n r) =
    destroy_session_st-IsSound env q d n (steps-IsSound init q v r)
steps-IsSound init s v (packets env q t pkt r lt e) =
    packet-IsSound (handle_sm_pkt env q pkt) s
      (handle_sm_pkt-IsKept env q pkt lt (steps-IsSound init q v r)) e

-- In any run of session management from a state whose account is in order, such as one without
-- sessions, the free entries of the ring and those of the live sessions make up the ring, so that
-- the live sessions never have more entries than there are.
pub SmSteps-entries :
    (init s : Sm)
    → IsSound init
    → SmSteps init s
    → (s.ring_entries_available + session_credits * num_active s.session_vec ≡ num_rx_ring_entries)
      × (session_credits * num_active s.session_vec ≤ num_rx_ring_entries)
SmSteps-entries init s v r =
    ((steps-IsSound init s v r).entries, omega (arith, (steps-IsSound init s v r).entries))
