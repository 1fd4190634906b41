-- ===== src/Rpc/Tx/Frame.antt =====
-- What transmission leaves alone: of the sessions it writes TX timestamps and nothing else.
use mathlib.Core.Path.{fun_ext}
use rdma_yuxi.Prelude.{
  ℕ, ◌%◌, Option, none, some, List, [], ◌∷◌, ◌≡◌, refl, ap, ◌∙◌, ◌==◌, inl, inr, Bool-cases, length,
  ltb, update_same,
}
use rdma_yuxi.Wire.Header.{PktHdr, session_credits}
use rdma_yuxi.Rpc.State.{
  MsgBuffer, ClientInfo, SSlot, Session, Ref, TxItem, Rpc, Env, set_slot, slot_of, with_slot,
}
use rdma_yuxi.Rpc.Tx.{
  stamp, stamp_all, do_tx_burst_st, enqueue_item, enqueue_pkt_tx_burst_st, enqueue_hdr_tx_burst_st,
  drain_tx_batch_and_dma_queue, enqueue_cr_st, enqueue_rfr_st, next_ctrl, ctrl_buf, cr_hdr, rfr_hdr,
}

-- A slot, and a session, with their TX timestamps forgotten.
abbrev pub clear_ts : SSlot → SSlot
clear_ts x = record x { client_info = record ci { tx_ts = λ _. 0 } }
  where
    ci : ClientInfo
    ci = x.client_info

abbrev pub forget_ts : Session → Session
forget_ts s = record s { slots = λ i. clear_ts (s.slots i) }

-- Two states whose sessions differ in TX timestamps only.
abbrev pub SameButTs : Rpc → Rpc → Type 0
SameButTs r q = (sn : ℕ) → forget_ts (q.sessions sn) ≡ forget_ts (r.sessions sn)

pub set_slot-SameButTs :
    (r : Rpc) (p : Ref) (x : SSlot)
    → clear_ts x ≡ clear_ts (slot_of r p)
    → SameButTs r (set_slot r p x)
set_slot-SameButTs r p x h =
    update_same forget_ts r.sessions p.sn (with_slot (r.sessions p.sn) p.slot x) (
      ap {B = Session} (λ f. record s { slots = f })
        (fun_ext (update_same clear_ts s.slots p.slot x h)))
  where
    s : Session
    s = r.sessions p.sn

SameButTs-trans : (r q t : Rpc) → SameButTs r q → SameButTs q t → SameButTs r t
SameButTs-trans r q t h k sn = k sn ∙ h sn

stamp-SameButTs : (tsc : ℕ) (o : Option (Ref × ℕ)) (r : Rpc) → SameButTs r (stamp tsc o r)
unfolding stamp
stamp-SameButTs tsc none r sn = refl
stamp-SameButTs tsc (some (p, i)) r sn = set_slot-SameButTs r p _ refl sn

stamp_all-SameButTs : (tsc : ℕ) (xs : List TxItem) (r : Rpc) → SameButTs r (stamp_all tsc xs r)
unfolding stamp_all
stamp_all-SameButTs tsc [] r sn = refl
stamp_all-SameButTs tsc (x ∷ xs) r sn =
    stamp_all-SameButTs tsc xs (stamp tsc x.tx_ts r) sn ∙ stamp-SameButTs tsc x.tx_ts r sn

pub do_tx_burst_st-SameButTs : (r : Rpc) → SameButTs r (do_tx_burst_st r)
unfolding do_tx_burst_st
do_tx_burst_st-SameButTs r = stamp_all-SameButTs r.now r.tx_batch r

enqueue_item-SameButTs : (env : Env) (r : Rpc) (x : TxItem) → SameButTs r (enqueue_item env r x)
unfolding enqueue_item
enqueue_item-SameButTs env r x sn = elim (Bool-cases (length (x ∷ r.tx_batch) == env.postlist)) [
  | inl e ↦ rw e (do_tx_burst_st-SameButTs (record r { tx_batch = x ∷ r.tx_batch }) sn)
  | inr e ↦ rw e refl
]

pub enqueue_pkt-SameButTs :
    (env : Env) (r : Rpc) (p : Ref) (i : ℕ) (ts : Option (Ref × ℕ))
    → SameButTs r (enqueue_pkt_tx_burst_st env r p i ts)
unfolding enqueue_pkt_tx_burst_st
enqueue_pkt-SameButTs env r p i ts = enqueue_item-SameButTs env r _

enqueue_hdr-SameButTs :
    (env : Env) (r : Rpc) (p : Ref) (m : MsgBuffer) (ts : Option (Ref × ℕ))
    → SameButTs r (enqueue_hdr_tx_burst_st env r p m ts)
unfolding enqueue_hdr_tx_burst_st
enqueue_hdr-SameButTs env r p m ts = enqueue_item-SameButTs env r _

pub drain-SameButTs : (r : Rpc) → SameButTs r (drain_tx_batch_and_dma_queue r)
unfolding drain_tx_batch_and_dma_queue
drain-SameButTs r sn = elim (Bool-cases (ltb 0 (length r.tx_batch))) [
  | inl e ↦ rw e (do_tx_burst_st-SameButTs r sn)
  | inr e ↦ rw e refl
]

pub enqueue_cr-SameButTs :
    (env : Env) (r : Rpc) (p : Ref) (h : PktHdr) → SameButTs r (enqueue_cr_st env r p h)
unfolding enqueue_cr_st
enqueue_cr-SameButTs env r p h =
    enqueue_hdr-SameButTs env (next_ctrl env r) p (ctrl_buf (cr_hdr r p h)) none

pub enqueue_rfr-SameButTs :
    (env : Env) (r : Rpc) (p : Ref) (h : PktHdr) → SameButTs r (enqueue_rfr_st env r p h)
unfolding enqueue_rfr_st
enqueue_rfr-SameButTs env r p h =
    enqueue_hdr-SameButTs env (next_ctrl env r) p (ctrl_buf (rfr_hdr r p h))
      (some (p, (rfr_hdr r p h).pkt_num % session_credits))
