-- ===== src/Rpc/Credits/Receive.antt =====
-- Credit returns keep the invariant, and packets out of order change no session.
use rdma_yuxi.Prelude.{ℕ, ◌%◌, ◌<◌, ◌≡◌, inl, inr, true, false, arith, refl, ap, ◌∙◌, Bool-cases}
use rdma_yuxi.Wire.Header.{PktHdr, session_credits, session_req_window}
use rdma_yuxi.Rpc.State.{SSlot, Session, Ref, Rpc, Env, slot_of, session_of}
use rdma_yuxi.Rpc.Kick.{req_pkts_pending}
use rdma_yuxi.Rpc.Client.{
  in_order_client, rx_slot, rx_session, count_rx, process_expl_cr_st, take_cr,
}
use rdma_yuxi.Rpc.Credits.{is_null, IsSound}
use rdma_yuxi.Rpc.Credits.Kicks.{kick_req_st-IsSound}
use rdma_yuxi.Rpc.Credits.Change.{change-IsSound, same-FreeIsSound, set_session-IsSound}

-- A packet in order answers the oldest outstanding packet of the slot's current request.
pub in_order_client-true :
    (r : Rpc) (p : Ref) (h : PktHdr)
    → (in_order_client r p h).0 ≡ true
    → (h.req_num ≡ (slot_of r p).cur_req_num)
      × (h.pkt_num ≡ (slot_of r p).client_info.num_rx)
      × (h.pkt_num < (slot_of r p).client_info.num_tx)
      × ((slot_of r p).client_info.in_wheel (h.pkt_num % session_credits) ≡ false)
unfolding in_order_client
in_order_client-true r p h e = ground arith

-- The test for order changes no session.
pub sessions-in_order_client :
    (r : Rpc) (p : Ref) (h : PktHdr) → (in_order_client r p h).1.sessions ≡ r.sessions
unfolding in_order_client
sessions-in_order_client r p h = ground arith

-- Counting an answer returns its credit.
pub count_rx-IsSound :
    (r : Rpc) (p : Ref) (h : PktHdr) (rx_tsc : ℕ)
    → p.slot < session_req_window
    → is_null (slot_of r p).tx_msgbuf ≡ false
    → (slot_of r p).client_info.num_rx < (slot_of r p).client_info.num_tx
    → (sn : ℕ) → IsSound (r.sessions sn)
    → IsSound ((count_rx r p h rx_tsc).sessions sn)
unfolding count_rx
count_rx-IsSound r p h rx_tsc lt act open_ = set_session-IsSound r p.sn t λ v.
    change-IsSound s t p.slot lt x (λ i. refl) (ground (arith, v.sound p.slot lt)) (omega arith)
      (same-FreeIsSound s t p.slot lt x (λ i. refl) refl refl refl v) v
  where
    s : Session
    s = session_of r p

    t : Session
    t = rx_session r p h rx_tsc

    x : SSlot
    x = rx_slot r (s.slots p.slot)

pub slot-count_rx :
    (r : Rpc) (p : Ref) (h : PktHdr) (rx_tsc : ℕ)
    → slot_of (count_rx r p h rx_tsc) p ≡ rx_slot r (slot_of r p)
unfolding count_rx
slot-count_rx r p h rx_tsc = ground arith

-- What a packet in order says, in the state with the drop counter.
module _ (env : Env) (r : Rpc) (p : Ref) (h : PktHdr) (rx_tsc : ℕ)
    (lt : p.slot < session_req_window) (act : is_null (slot_of r p).tx_msgbuf ≡ false)
    (all : (sn : ℕ) → IsSound (r.sessions sn)) where
  abbrev checked : Rpc
  checked = (in_order_client r p h).1

  slot_of-checked : slot_of checked p ≡ slot_of r p
  slot_of-checked = ap (λ f. (f p.sn).slots p.slot) (sessions-in_order_client r p h)

  checked_active : is_null (slot_of checked p).tx_msgbuf ≡ false
  checked_active = ap (λ z. is_null z.tx_msgbuf) slot_of-checked ∙ act

  pub same_sessions : (sn : ℕ) → IsSound (checked.sessions sn)
  same_sessions sn = rw sessions-in_order_client (all sn)

  abbrev counted : Rpc
  counted = count_rx checked p h rx_tsc

  pub counted_active : is_null (slot_of counted p).tx_msgbuf ≡ false
  counted_active = ap (λ z. is_null z.tx_msgbuf) (slot-count_rx checked p h rx_tsc) ∙ checked_active

  pub counted-IsSound : (in_order_client r p h).0 ≡ true → (sn : ℕ) → IsSound (counted.sessions sn)
  counted-IsSound e sn =
      count_rx-IsSound checked p h rx_tsc lt checked_active
        (omega (
          arith,
          in_order_client-true r p h e,
          ap (λ z. z.client_info.num_rx) slot_of-checked,
          ap (λ z. z.client_info.num_tx) slot_of-checked,
        ))
        sn (same_sessions sn)

  -- A credit return keeps every client session sound, whether or not it is in order: for slots with
  -- an active request the credits and the outstanding packets still make up the session's credits.
  pub process_expl_cr_st-IsSound :
      (sn : ℕ) → IsSound ((process_expl_cr_st env r p h rx_tsc).sessions sn)
  unfolding process_expl_cr_st take_cr
  process_expl_cr_st-IsSound sn = elim (Bool-cases (in_order_client r p h).0) [
    | inl e ↦ elim (Bool-cases (req_pkts_pending (slot_of counted p))) [
      | inl more ↦
          rw (e, more)
            (kick_req_st-IsSound env counted p lt counted_active (counted-IsSound e p.sn) sn
              (counted-IsSound e sn))
      | inr none_left ↦ rw (e, none_left) (counted-IsSound e sn)
    ]
    | inr e ↦ rw e (same_sessions sn)
  ]
