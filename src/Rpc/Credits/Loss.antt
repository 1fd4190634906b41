-- ===== src/Rpc/Credits/Loss.antt =====
-- Retransmission and the queue of stalled slots keep the invariant.
use rdma_yuxi.Prelude.{
  ℕ, ◌+◌, ◌-◌, ◌%◌, ◌^◌, ◌<◌, ◌≡◌, inl, inr, ltb, ◌==◌, arith, refl, ap, ◌∙◌, sym, Bool-cases, List,
  [], ◌∷◌, All,
}
use rdma_yuxi.Wire.Header.{session_req_window}
use rdma_yuxi.Rpc.State.{SSlot, Session, Ref, Rpc, Env, slot_of, session_of}
use rdma_yuxi.Rpc.Tx.{drain_tx_batch_and_dma_queue}
use rdma_yuxi.Rpc.Tx.Frame.{SameButTs, drain-SameButTs}
use rdma_yuxi.Rpc.Kick.{kick_req_st, kick_rfr_st, kick_st, req_pkts_pending}
use rdma_yuxi.Rpc.Kick.Sends.{
  Sends, SameButTs-Sends, kick_req_st-Sends, kick_rfr_st-Sends, req_quota, rfr_quota,
}
use rdma_yuxi.Rpc.Loss.{
  rolled_slot, rolled_session, roll_back, pkt_loss_retransmit_st, scan_one, scan_loop,
  pkt_loss_scan_st,
}
use rdma_yuxi.Rpc.Credits.{is_null, IsActive, AllSound, SameActive}
use rdma_yuxi.Rpc.Credits.Kicks.{kick_st-IsSound, Sends-IsSound}
use rdma_yuxi.Rpc.Credits.Change.{change-IsSound, same-FreeIsSound, set_session-IsSound}

Sends-SameActive : (r q : Rpc) (p : Ref) (n : ℕ) → Sends r q p n → SameActive r q
Sends-SameActive r q p n h a = ap (λ z. is_null z.tx_msgbuf) (h a.sn a.slot).1

pub kick_st-SameActive : (env : Env) (r : Rpc) (p : Ref) → SameActive r (kick_st env r p)
unfolding kick_st
kick_st-SameActive env r p a = elim (Bool-cases (req_pkts_pending (slot_of r p))) [
  | inl e ↦
      rw e
        (Sends-SameActive r (kick_req_st env r p) p (req_quota r p) (kick_req_st-Sends env r p) a)
  | inr e ↦
      rw e
        (Sends-SameActive r (kick_rfr_st env r p) p (rfr_quota r p) (kick_rfr_st-Sends env r p) a)
]

-- A session that differs in timestamps is as sound.
pub SameButTs-IsSound : (r q : Rpc) → SameButTs r q → AllSound r → AllSound q
SameButTs-IsSound r q h v sn =
    Sends-IsSound r q p 0 (SameButTs-Sends r q p h) (omega arith) (omega arith) (inl refl) sn (v sn)
  where
    p : Ref
    p = record { sn = 0; slot = 0 }

drain-SameActive : (r : Rpc) → SameActive r (drain_tx_batch_and_dma_queue r)
drain-SameActive r a = ap (λ s. is_null (s.slots a.slot).tx_msgbuf) (drain-SameButTs r a.sn)

pub roll_back-SameActive : (r : Rpc) (p : Ref) → SameActive r (roll_back r p)
unfolding roll_back
roll_back-SameActive r p a = ground arith

pub roll_back-IsSound :
    (r : Rpc) (p : Ref) → p.slot < session_req_window → AllSound r → AllSound (roll_back r p)
unfolding roll_back
roll_back-IsSound r p lt all sn =
    set_session-IsSound r p.sn t
      (λ v.
        change-IsSound s t p.slot lt x (λ i. refl) (ground (arith, v.sound p.slot lt)) (omega arith)
          (same-FreeIsSound s t p.slot lt x (λ i. refl) refl refl refl v) v)
      sn (all sn)
  where
    s : Session
    s = session_of r p

    t : Session
    t = rolled_session r p

    x : SSlot
    x = rolled_slot r (s.slots p.slot)

pub slot-roll_back : (r : Rpc) (p : Ref) → slot_of (roll_back r p) p ≡ rolled_slot r (slot_of r p)
unfolding roll_back
slot-roll_back r p = ground arith

module _ (env : Env) where
  retransmit-SameActive : (r : Rpc) (p : Ref) → SameActive r (pkt_loss_retransmit_st env r p)
  unfolding pkt_loss_retransmit_st
  retransmit-SameActive r p a =
      ground (arith, kick_st-SameActive env (roll_back r p) p a, roll_back-SameActive r p a)

  -- A retransmission takes back the credits of the unanswered packets, and keeps the invariant.
  pub pkt_loss_retransmit_st-IsSound :
      (r : Rpc) (p : Ref) → IsActive r p → AllSound r → AllSound (pkt_loss_retransmit_st env r p)
  unfolding pkt_loss_retransmit_st
  pkt_loss_retransmit_st-IsSound r p (lt, act) all sn =
      elim (Bool-cases ((slot_of r p).client_info.num_tx - (slot_of r p).client_info.num_rx == 0)) [
        | inl e ↦ rw e (all sn)
        | inr e ↦ elim (Bool-cases (ltb 0 (slot_of r p).client_info.wheel_count)) [
          | inl f ↦ rw (e, f) (all sn)
          | inr f ↦
              rw (e, f)
                (kick_st-IsSound env (roll_back r p) p lt (roll_back-SameActive r p p ∙ act)
                  (ap (λ z. z.client_info.num_tx) (slot-roll_back r p)
                    ∙ sym (ap (λ z. z.client_info.num_rx) (slot-roll_back r p)))
                  (rolled p.sn) sn (rolled sn))
        ]
      ]
    where
      rolled : AllSound (roll_back r p)
      rolled = roll_back-IsSound r p lt all

  pub scan_one-SameActive : (r : Rpc) (p : Ref) → SameActive r (scan_one env r p)
  unfolding scan_one
  scan_one-SameActive r p a =
      ground
        (arith, retransmit-SameActive r p a, drain-SameActive (pkt_loss_retransmit_st env r p) a)

  pub scan_one-IsSound :
      (r : Rpc) (p : Ref) → IsActive r p → AllSound r → AllSound (scan_one env r p)
  unfolding scan_one
  scan_one-IsSound r p act all sn =
      elim (Bool-cases ((slot_of r p).client_info.num_tx == (slot_of r p).client_info.num_rx)) [
        | inl e ↦ rw e (all sn)
        | inr e ↦
            elim (Bool-cases (
              ltb env.rpc_rto_cycles
                ((r.ev_loop_tsc + 2 ^ 64 - (slot_of r p).client_info.progress_tsc) % 2 ^ 64))) [
                  | inl f ↦
                      rw (e, f)
                        (SameButTs-IsSound q (drain_tx_batch_and_dma_queue q) (drain-SameButTs q)
                          (pkt_loss_retransmit_st-IsSound r p act all) sn)
                  | inr f ↦ rw (e, f) (all sn)
                ]
      ]
    where
      q : Rpc
      q = pkt_loss_retransmit_st env r p

  All-SameActive :
      (r q : Rpc) (l : List Ref) → SameActive r q → All (IsActive r) l → All (IsActive q) l
  All-SameActive r q [] h a = tt
  All-SameActive r q (p ∷ l) h ((lt, act), a) = ((lt, h p ∙ act), All-SameActive r q l h a)

  scan_loop-IsSound :
      (l : List Ref) (r : Rpc) → All (IsActive r) l → AllSound r → AllSound (scan_loop env l r)
  unfolding scan_loop
  scan_loop-IsSound [] r a all = all
  scan_loop-IsSound (p ∷ l) r (act, a) all =
      scan_loop-IsSound l (scan_one env r p)
        (All-SameActive r (scan_one env r p) l (scan_one-SameActive r p) a)
        (scan_one-IsSound r p act all)

  -- A scan for lost packets keeps every client session sound, if the requests on the active list
  -- are active.
  pub pkt_loss_scan_st-IsSound :
      (r : Rpc) → All (IsActive r) r.active → AllSound r → AllSound (pkt_loss_scan_st env r)
  unfolding pkt_loss_scan_st
  pkt_loss_scan_st-IsSound r a all = scan_loop-IsSound r.active r a all
