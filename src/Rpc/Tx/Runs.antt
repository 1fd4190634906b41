-- ===== src/Rpc/Tx/Runs.antt =====
-- How often request handlers are invoked, and that transmission invokes none.
use rdma_yuxi.Prelude.{ℕ, ◌≡◌, refl, if◌then◌else◌, List, Option}
use rdma_yuxi.Wire.Header.{PktHdr}
use rdma_yuxi.Rpc.State.{
  Ref, Event, burst, flush, wheel_insert, run_req_func, run_cont, bg_req, bg_resp, freed, Rpc, Env,
}
use rdma_yuxi.Rpc.Client.{ref_eq}
use rdma_yuxi.Rpc.Tx.{enqueue_pkt_tx_burst_st, enqueue_cr_st, drain_tx_batch_and_dma_queue}
use rdma_yuxi.Rpc.Tx.Counts.{total, total-drain, total-enqueue_pkt, total-enqueue_cr}

-- Is the event a call of the slot's request handler, or the hand-over to a background thread?
abbrev pub is_run : Ref → Event → ℕ
is_run p (run_req_func q t n) = if ref_eq q p then 1 else 0
is_run p (bg_req k q) = if ref_eq q p then 1 else 0
is_run p (burst l) = 0
is_run p flush = 0
is_run p (wheel_insert q a b) = 0
is_run p (run_cont f t) = 0
is_run p (bg_resp k f t) = 0
is_run p (freed m) = 0

-- How often the handler was invoked for the slot `p`.
abbrev pub runs : Ref → List Event → ℕ
runs p = total (is_run p)

-- Transmission logs no handler.
module _ (p : Ref) (r : Rpc) where
  pub runs-drain : runs p (drain_tx_batch_and_dma_queue r).events ≡ runs p r.events
  runs-drain = total-drain (is_run p) (λ l. refl) refl r

module _ (env : Env) (p : Ref) (r : Rpc) where
  pub runs-enqueue_pkt :
      (i : ℕ) (ts : Option (Ref × ℕ))
      → runs p (enqueue_pkt_tx_burst_st env r p i ts).events ≡ runs p r.events
  runs-enqueue_pkt = total-enqueue_pkt (is_run p) (λ l. refl) refl env r p

  pub runs-enqueue_cr : (h : PktHdr) → runs p (enqueue_cr_st env r p h).events ≡ runs p r.events
  runs-enqueue_cr = total-enqueue_cr (is_run p) (λ l. refl) refl env r p
