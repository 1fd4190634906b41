-- ===== src/Rpc/Tx/Counts.antt =====
-- Events counted, and that transmission logs only bursts and flushes.
use rdma_yuxi.Prelude.{
  ◌%◌, ℕ, arith, ◌+◌, ◌≡◌, inl, inr, refl, ◌∙◌, ltb, ◌==◌, List, [], ◌∷◌, Option, none, some,
  Bool-cases, length,
}
use rdma_yuxi.Wire.Header.{PktHdr, session_credits}
use rdma_yuxi.Rpc.State.{Ref, Event, burst, flush, Rpc, Env, TxItem}
use rdma_yuxi.Rpc.Tx.{
  stamp, stamp_all, do_tx_burst_st, enqueue_item, enqueue_pkt_tx_burst_st, enqueue_hdr_tx_burst_st,
  enqueue_cr_st, enqueue_rfr_st, next_ctrl, ctrl_buf, cr_hdr, rfr_hdr, drain_tx_batch_and_dma_queue,
}

-- The events, each counted by `f`.
abbrev pub total : (Event → ℕ) → List Event → ℕ
total f [] = 0
total f (e ∷ l) = f e + total f l

module _ (f : Event → ℕ) (bursts : (l : List TxItem) → f (burst l) ≡ 0)
    (flushes : f flush ≡ 0) where
  total-stamp :
      (tsc : ℕ) (l : List TxItem) (r : Rpc) → total f (stamp_all tsc l r).events ≡ total f r.events
  unfolding stamp_all stamp
  total-stamp tsc [] r = refl
  total-stamp tsc (x ∷ l) r = total-stamp tsc l (stamp tsc x.tx_ts r) ∙ total-one x.tx_ts
    where
      total-one : (o : Option (Ref × ℕ)) → total f (stamp tsc o r).events ≡ total f r.events
      total-one none = refl
      total-one (some a) = refl

  total-burst : (r : Rpc) → total f (do_tx_burst_st r).events ≡ total f r.events
  unfolding do_tx_burst_st
  total-burst r = omega (arith, total-stamp r.now r.tx_batch r, bursts r.tx_batch)

  total-enqueue :
      (env : Env) (r : Rpc) (x : TxItem) → total f (enqueue_item env r x).events ≡ total f r.events
  unfolding enqueue_item
  total-enqueue env r x = elim (Bool-cases (length (x ∷ r.tx_batch) == env.postlist)) [
    | inl e ↦ rw e (total-burst (record r { tx_batch = x ∷ r.tx_batch }))
    | inr e ↦ rw e refl
  ]

  pub total-drain : (r : Rpc) → total f (drain_tx_batch_and_dma_queue r).events ≡ total f r.events
  unfolding drain_tx_batch_and_dma_queue
  total-drain r = elim (Bool-cases (ltb 0 (length r.tx_batch))) [
    | inl e ↦ rw e (omega (arith, total-burst r, flushes))
    | inr e ↦ rw e (omega (arith, flushes))
  ]

  pub total-enqueue_pkt :
      (env : Env) (r : Rpc) (p : Ref) (i : ℕ) (ts : Option (Ref × ℕ))
      → total f (enqueue_pkt_tx_burst_st env r p i ts).events ≡ total f r.events
  unfolding enqueue_pkt_tx_burst_st
  total-enqueue_pkt env r p i ts = total-enqueue env r _

  pub total-enqueue_cr :
      (env : Env) (r : Rpc) (p : Ref) (h : PktHdr)
      → total f (enqueue_cr_st env r p h).events ≡ total f r.events
  unfolding enqueue_cr_st enqueue_hdr_tx_burst_st next_ctrl
  total-enqueue_cr env r p h =
      total-enqueue env (next_ctrl env r)
        (record { dest = p.sn; msg_buffer = ctrl_buf (cr_hdr r p h); pkt_idx = 0; tx_ts = none })

  pub total-enqueue_rfr :
      (env : Env) (r : Rpc) (p : Ref) (h : PktHdr)
      → total f (enqueue_rfr_st env r p h).events ≡ total f r.events
  unfolding enqueue_rfr_st enqueue_hdr_tx_burst_st next_ctrl
  total-enqueue_rfr env r p h = total-enqueue env (next_ctrl env r) (record {
    dest = p.sn;
    msg_buffer = ctrl_buf (rfr_hdr r p h);
    pkt_idx = 0;
    tx_ts = some (p, (rfr_hdr r p h).pkt_num % session_credits);
  })
