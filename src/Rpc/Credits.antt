-- ===== src/Rpc/Credits.antt =====
-- The invariant of a client session: what its credits, its slots and its free slots say together.
pub mod Kicks
pub mod Change
pub mod Receive
pub mod Requests
pub mod Responses
pub mod Loss
pub mod Steps
use rdma_yuxi.Prelude.{
  ℕ, ◌+◌, ◌-◌, ◌%◌, ◌≤◌, ◌<◌, ◌≡◌, ◌≢◌, Bool, true, false, ltb, if◌then◌else◌, mem, All, IsDistinct,
  sum_below, sum_below_change, sum_below_cong,
}
use rdma_yuxi.Wire.Header.{session_credits, session_req_window}
use rdma_yuxi.Rpc.State.{
  Rpc, Ref, EnqReqArgs, slot_of, TxPtr, null, user, pre_resp, dyn_resp, SSlot, Session, tx_buf,
}

-- The packets of a slot that were sent and not answered: each holds one credit.
abbrev pub outstanding : SSlot → ℕ
outstanding x = x.client_info.num_tx - x.client_info.num_rx

pub in_flight : Session → ℕ
in_flight s = sum_below session_req_window (λ i. outstanding (s.slots i))

-- No request is active in the slot.
abbrev pub is_null : TxPtr → Bool
is_null null = true
is_null (user m) = false
is_null pre_resp = false
is_null dyn_resp = false

-- The packets that may have been sent: those of the request, and once its last packet is answered
-- also the requests for the rest of the response.
abbrev pub tx_limit : SSlot → ℕ
tx_limit x =
    if ltb x.client_info.num_rx (tx_buf x).num_pkts
    then (tx_buf x).num_pkts
    else (tx_buf x).num_pkts + x.client_info.resp_msgbuf.num_pkts - 1

-- A request comes with a response buffer for at least one packet, as every buffer is allocated.
abbrev pub HasResp : EnqReqArgs → Type 0
HasResp a = 1 ≤ a.resp_msgbuf.num_pkts

-- What holds of slot `i`.
pub record SlotIsSound (i : ℕ) (x : SSlot) : Type 0 where
  pub ordered : x.client_info.num_rx ≤ x.client_info.num_tx
  pub limited : is_null x.tx_msgbuf ≡ false → x.client_info.num_tx ≤ tx_limit x
  pub sized : is_null x.tx_msgbuf ≡ false → 1 ≤ x.client_info.resp_msgbuf.num_pkts
  pub idle : is_null x.tx_msgbuf ≡ true → x.client_info.num_tx ≡ x.client_info.num_rx
  pub numbered : x.cur_req_num % session_req_window ≡ i

pub record IsSound (s : Session) : Type 0 where
  pub conserved : s.credits + in_flight s ≡ session_credits
  pub sound : (i : ℕ) → i < session_req_window → SlotIsSound i (s.slots i)
  pub free_iff :
      (i : ℕ) → i < session_req_window → mem i s.sslot_free_vec ≡ is_null (s.slots i).tx_msgbuf
  pub free_lt : (i : ℕ) → mem i s.sslot_free_vec ≡ true → i < session_req_window
  pub distinct : IsDistinct s.sslot_free_vec
  pub backlog_sized : All HasResp s.enq_req_backlog

-- Where one slot changes, the outstanding packets change by that slot's.
pub in_flight_change :
    (s t : Session) (k : ℕ)
    → ((j : ℕ) → j ≢ k → outstanding (t.slots j) ≡ outstanding (s.slots j))
    → k < session_req_window
    → in_flight t + outstanding (s.slots k) ≡ in_flight s + outstanding (t.slots k)
unfolding in_flight
in_flight_change s t k h lt =
    sum_below_change session_req_window k (λ i. outstanding (s.slots i))
      (λ i. outstanding (t.slots i)) h lt

pub in_flight_cong :
    (s t : Session)
    → ((j : ℕ) → outstanding (t.slots j) ≡ outstanding (s.slots j))
    → in_flight t ≡ in_flight s
unfolding in_flight
in_flight_cong s t h =
    sum_below_cong session_req_window (λ i. outstanding (s.slots i)) (λ i. outstanding (t.slots i))
      h

-- With nothing outstanding nothing is in flight.
pub in_flight_zero : (s : Session) → ((j : ℕ) → outstanding (s.slots j) ≡ 0) → in_flight s ≡ 0
unfolding in_flight
in_flight_zero s h = sum_below_cong session_req_window (λ _. 0) (λ j. outstanding (s.slots j)) h

-- A pointer to a slot with an active request.
abbrev pub IsActive : Rpc → Ref → Type 0
IsActive r p = (p.slot < session_req_window) × (is_null (slot_of r p).tx_msgbuf ≡ false)

-- All client sessions are sound. A state has this of the sessions that `sn` numbers.
abbrev pub AllSound : Rpc → Type 0
AllSound r = (sn : ℕ) → IsSound (r.sessions sn)

-- No request starts or ends.
abbrev pub SameActive : Rpc → Rpc → Type 0
SameActive r q = (p : Ref) → is_null (slot_of q p).tx_msgbuf ≡ is_null (slot_of r p).tx_msgbuf
