-- ===== src/Rpc/Listed.antt =====
-- The lists of a client: the active requests (`active_rpcs_root_sentinel_` to
-- `active_rpcs_tail_sentinel_`) and the stall queue `stallq_` of peer/erpc/rpc.h.
pub mod Requests
pub mod Finish
pub mod Receive
pub mod Answers
pub mod Sending
pub mod Retries
pub mod Rounds
mod Tests
use rdma_yuxi.Prelude.{
  ℕ, ◌+◌, ◌≤◌, ◌<◌, ◌≡◌, refl, ap, sym, ◌∙◌, subst, arith, inl, inr, Bool, true, false, not, ◌&&◌,
  ltb, ◌==◌, if◌then◌else◌, List, [], ◌∷◌, All, Bool-cases,
}
use mathlib.Core.Path.{ap₂}
use rdma_yuxi.Wire.Header.{session_req_window}
use rdma_yuxi.Rpc.State.{SSlot, Ref, Rpc, slot_of}
use rdma_yuxi.Rpc.Client.{ref_eq}
use rdma_yuxi.Rpc.Kick.Sends.{Sends}
use rdma_yuxi.Rpc.Credits.{is_null, IsActive, SameActive}

-- How often a slot is in a list.
abbrev pub count_ref : Ref → List Ref → ℕ
count_ref a [] = 0
count_ref a (q ∷ l) = (if ref_eq q a then 1 else 0) + count_ref a l

abbrev pub in_use : Rpc → Ref → Bool
in_use r a = ltb a.slot session_req_window && not (is_null (slot_of r a).tx_msgbuf)

-- How often a slot may be in the stall queue: once, if its request is active and has sent nothing.
abbrev pub may_stall : Rpc → Ref → ℕ
may_stall r a = if in_use r a then (if (slot_of r a).client_info.num_tx == 0 then 1 else 0) else 0

-- The active list has every slot with an active request once, and no other. The stall queue `st` has
-- such slots at most once, and only those that have sent nothing.
pub record IsListed (r : Rpc) (st : List Ref) : Type 0 where
  pub once : (a : Ref) → count_ref a r.active ≡ (if in_use r a then 1 else 0)
  pub stalled : (a : Ref) → count_ref a st ≤ may_stall r a

pub ref_is : (p a : Ref) → ref_eq p a ≡ true → p ≡ a
ref_is p a e =
    ap₂ {C = Ref} (λ n i. record { sn = n; slot = i }) (ground (arith, e)) (ground (arith, e))

-- A step at the slot `p`, which is not stalled.
pub step-IsListed :
    (r q : Rpc) (p : Ref) (st : List Ref)
    → q.active ≡ r.active
    → SameActive r q
    → ((a : Ref)
        → ref_eq p a ≡ false
        → (slot_of q a).client_info.num_tx ≡ (slot_of r a).client_info.num_tx)
    → count_ref p st ≡ 0
    → IsListed r st
    → IsListed q st
step-IsListed r q p st same act others none_ v = record {
  once = λ a. ap (count_ref a) same ∙ v.once a ∙ ground (arith, act a);
  stalled = λ a. elim (Bool-cases (ref_eq p a)) [
    | inl e ↦ omega (arith, none_, ap (λ z. count_ref z st) (ref_is p a e))
    | inr e ↦ ground (arith, v.stalled a, act a, others a e)
  ];
}

-- A step that sends nothing, and starts and ends no request.
pub still-IsListed :
    (r q : Rpc) (st : List Ref)
    → q.active ≡ r.active
    → SameActive r q
    → ((a : Ref) → (slot_of q a).client_info.num_tx ≡ (slot_of r a).client_info.num_tx)
    → IsListed r st
    → IsListed q st
still-IsListed r q st same act num v = record {
  once = λ a. ap (count_ref a) same ∙ v.once a ∙ ground (arith, act a);
  stalled = λ a. ground (arith, v.stalled a, act a, num a);
}

-- Packets sent for a slot that is not stalled.
pub Sends-IsListed :
    (r q : Rpc) (p : Ref) (n : ℕ) (st : List Ref)
    → q.active ≡ r.active
    → Sends r q p n
    → count_ref p st ≡ 0
    → IsListed r st
    → IsListed q st
Sends-IsListed r q p n st same sent =
    step-IsListed r q p st same (λ a. ap (λ z. is_null z.tx_msgbuf) (sent a.sn a.slot).1)
      (λ a ne. ground (arith, ne, (sent a.sn a.slot).3))

-- A slot that sent something is not stalled.
pub sent-not_stalled :
    (r : Rpc) (p : Ref) (st : List Ref)
    → 0 < (slot_of r p).client_info.num_tx
    → IsListed r st
    → count_ref p st ≡ 0
sent-not_stalled r p st pos v = ground (arith, v.stalled p, pos)

-- Every slot of a list that has only slots in use is active.
pub all-IsActive :
    (r : Rpc) (l : List Ref)
    → ((a : Ref) → 0 < count_ref a l → in_use r a ≡ true)
    → All (IsActive r) l
all-IsActive r [] h = tt
all-IsActive r (q ∷ l) h =
    ((ground (arith, h q), ground (arith, h q)), all-IsActive r l (λ a lt. h a (omega arith)))
