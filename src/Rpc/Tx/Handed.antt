-- ===== src/Rpc/Tx/Handed.antt =====
-- The packets that the transport and the timing wheel are given.
use rdma_yuxi.Prelude.{
  ℕ, ◌%◌, ◌≡◌, inl, inr, refl, ap, ◌∙◌, ◌==◌, List, [], ◌∷◌, ◌++◌, Option, none, some, Bool-cases,
  length,
}
use rdma_yuxi.Wire.Header.{PktHdr, session_credits}
use rdma_yuxi.Rpc.State.{Ref, Event, burst, wheel_insert, Rpc, Env, TxItem, slot_of, tx_buf}
use rdma_yuxi.Rpc.Tx.{
  stamp, stamp_all, do_tx_burst_st, enqueue_item, enqueue_pkt_tx_burst_st, enqueue_hdr_tx_burst_st,
  enqueue_rfr_st, next_ctrl, ctrl_buf, rfr_hdr,
}

-- The items of the bursts, newest first.
abbrev pub bursts : List Event → List TxItem
bursts [] = []
bursts (burst l ∷ es) = l ++ bursts es
bursts (_ ∷ es) = bursts es

-- What the wheel got, newest first: a slot, the number of its packet, and the packet's size.
abbrev pub wheel_of : List Event → List (Ref × ℕ × ℕ)
wheel_of [] = []
wheel_of (wheel_insert p i size ∷ es) = (p, i, size) ∷ wheel_of es
wheel_of (_ ∷ es) = wheel_of es

-- All packets that were handed to the transport, newest first: those of the batch, which have not
-- left yet, and those of the bursts.
abbrev pub handed : Rpc → List TxItem
handed r = r.tx_batch ++ bursts r.events

events-stamp_all : (tsc : ℕ) (l : List TxItem) (r : Rpc) → (stamp_all tsc l r).events ≡ r.events
unfolding stamp_all stamp
events-stamp_all tsc [] r = refl
events-stamp_all tsc (x ∷ l) r = events-stamp_all tsc l (stamp tsc x.tx_ts r) ∙ one x.tx_ts
  where
    one : (o : Option (Ref × ℕ)) → (stamp tsc o r).events ≡ r.events
    one none = refl
    one (some a) = refl

enqueue_item-handed :
    (env : Env) (r : Rpc) (x : TxItem)
    → (handed (enqueue_item env r x) ≡ x ∷ handed r)
      × (wheel_of (enqueue_item env r x).events ≡ wheel_of r.events)
unfolding enqueue_item do_tx_burst_st
enqueue_item-handed env r x = elim (Bool-cases (length (x ∷ r.tx_batch) == env.postlist)) [
  | inl e ↦
      let q : Rpc = record r { tx_batch = x ∷ r.tx_batch } in
      rw e (
        ap (λ l. x ∷ (r.tx_batch ++ bursts l)) (events-stamp_all r.now q.tx_batch q),
        ap wheel_of (events-stamp_all r.now q.tx_batch q),
      )
  | inr e ↦ rw e (refl, refl)
]

pub enqueue_pkt-handed :
    (env : Env) (r : Rpc) (p : Ref) (i : ℕ) (ts : Option (Ref × ℕ))
    → let q : Rpc = enqueue_pkt_tx_burst_st env r p i ts in
      (handed q
        ≡ record { dest = p.sn; msg_buffer = tx_buf (slot_of r p); pkt_idx = i; tx_ts = ts }
          ∷ handed r)
      × (wheel_of q.events ≡ wheel_of r.events)
unfolding enqueue_pkt_tx_burst_st
enqueue_pkt-handed env r p i ts = enqueue_item-handed env r _

pub enqueue_rfr-handed :
    (env : Env) (r : Rpc) (p : Ref) (h : PktHdr)
    → let q : Rpc = enqueue_rfr_st env r p h in
      (handed q
        ≡ record {
          dest = p.sn;
          msg_buffer = ctrl_buf (rfr_hdr r p h);
          pkt_idx = 0;
          tx_ts = some (p, (rfr_hdr r p h).pkt_num % session_credits);
        }
          ∷ handed r)
      × (wheel_of q.events ≡ wheel_of r.events)
unfolding enqueue_rfr_st enqueue_hdr_tx_burst_st next_ctrl
enqueue_rfr-handed env r p h = enqueue_item-handed env (next_ctrl env r) _
