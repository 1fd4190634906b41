-- ===== src/Rpc/Tx/Lists.antt =====
-- Transmission leaves the lists of requests and of queued work alone.
use rdma_yuxi.Prelude.{
  ℕ, ◌%◌, ◌≡◌, inl, inr, refl, ◌∙◌, ltb, ◌==◌, List, [], ◌∷◌, Option, none, some, Bool-cases,
  length,
}
use rdma_yuxi.Wire.Header.{PktHdr, session_credits}
use rdma_yuxi.Rpc.State.{TxPtr, Ref, EnqReqArgs, Rpc, Env, TxItem}
use rdma_yuxi.Rpc.Tx.{
  stamp, stamp_all, do_tx_burst_st, enqueue_item, enqueue_pkt_tx_burst_st, enqueue_hdr_tx_burst_st,
  enqueue_rfr_st, enqueue_wheel_req_st, next_ctrl, ctrl_buf, rfr_hdr, drain_tx_batch_and_dma_queue,
}

-- The active requests, the stalled ones, and what background threads queued.
abbrev pub lists : Rpc → List Ref × List Ref × List EnqReqArgs × List (Ref × TxPtr)
lists r = (r.active, r.stallq, r.bg_enqueue_request, r.bg_enqueue_response)

lists-stamp_all : (tsc : ℕ) (l : List TxItem) (r : Rpc) → lists (stamp_all tsc l r) ≡ lists r
unfolding stamp_all stamp
lists-stamp_all tsc [] r = refl
lists-stamp_all tsc (x ∷ l) r = lists-stamp_all tsc l (stamp tsc x.tx_ts r) ∙ one x.tx_ts
  where
    one : (o : Option (Ref × ℕ)) → lists (stamp tsc o r) ≡ lists r
    one none = refl
    one (some a) = refl

pub lists-do_tx_burst_st : (r : Rpc) → lists (do_tx_burst_st r) ≡ lists r
unfolding do_tx_burst_st
lists-do_tx_burst_st r = lists-stamp_all r.now r.tx_batch r

lists-enqueue_item : (env : Env) (r : Rpc) (x : TxItem) → lists (enqueue_item env r x) ≡ lists r
unfolding enqueue_item
lists-enqueue_item env r x = elim (Bool-cases (length (x ∷ r.tx_batch) == env.postlist)) [
  | inl e ↦ rw e (lists-do_tx_burst_st (record r { tx_batch = x ∷ r.tx_batch }))
  | inr e ↦ rw e refl
]

pub lists-drain : (r : Rpc) → lists (drain_tx_batch_and_dma_queue r) ≡ lists r
unfolding drain_tx_batch_and_dma_queue
lists-drain r = elim (Bool-cases (ltb 0 (length r.tx_batch))) [
  | inl e ↦ rw e (lists-do_tx_burst_st r)
  | inr e ↦ rw e refl
]

pub lists-enqueue_pkt :
    (env : Env) (r : Rpc) (p : Ref) (i : ℕ) (ts : Option (Ref × ℕ))
    → lists (enqueue_pkt_tx_burst_st env r p i ts) ≡ lists r
unfolding enqueue_pkt_tx_burst_st
lists-enqueue_pkt env r p i ts = lists-enqueue_item env r _

pub lists-enqueue_rfr :
    (env : Env) (r : Rpc) (p : Ref) (h : PktHdr) → lists (enqueue_rfr_st env r p h) ≡ lists r
unfolding enqueue_rfr_st enqueue_hdr_tx_burst_st next_ctrl
lists-enqueue_rfr env r p h = lists-enqueue_item env (next_ctrl env r) (record {
  dest = p.sn;
  msg_buffer = ctrl_buf (rfr_hdr r p h);
  pkt_idx = 0;
  tx_ts = some (p, (rfr_hdr r p h).pkt_num % session_credits);
})

pub lists-enqueue_wheel :
    (env : Env) (r : Rpc) (p : Ref) (n : ℕ) → lists (enqueue_wheel_req_st env r p n) ≡ lists r
unfolding enqueue_wheel_req_st
lists-enqueue_wheel env r p n = refl
