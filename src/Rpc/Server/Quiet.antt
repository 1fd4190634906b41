-- ===== src/Rpc/Server/Quiet.antt =====
-- What invokes no handler at a server slot, and what one invocation is.
use rdma_yuxi.Prelude.{ℕ, ◌+◌, ◌≤◌, ◌≡◌, ap, arith, true, leb, if◌then◌else◌, none}
use rdma_yuxi.Wire.Header.{PktHdr}
use rdma_yuxi.Wire.Sizes.{data_size_to_num_pkts}
use rdma_yuxi.Rpc.State.{Pkt, SSlot, Ref, Rpc, Env, slot_of}
use rdma_yuxi.Rpc.Tx.{enqueue_pkt_tx_burst_st, enqueue_cr_st, drain_tx_batch_and_dma_queue}
use rdma_yuxi.Rpc.Tx.Runs.{runs, runs-enqueue_pkt, runs-enqueue_cr, runs-drain}
use rdma_yuxi.Rpc.Tx.Frame.{SameButTs, enqueue_pkt-SameButTs, enqueue_cr-SameButTs, drain-SameButTs}
use rdma_yuxi.Rpc.Buffers.{alloc_msg_buffer}
use rdma_yuxi.Rpc.Server.{
  bury_resp_msgbuf_server_st, invoke_req_func, submit_bg_req_st, small_req_msgbuf, resend_response,
  take_small_req,
}

-- Request numbers up to the slot's, the current one counted once it is all there.
abbrev pub progress : SSlot → ℕ
progress x =
    x.cur_req_num + (if leb x.server_info.req_msgbuf.num_pkts x.server_info.num_rx then 1 else 0)

-- What `progress` is of.
abbrev pub mark : SSlot → ℕ × ℕ × ℕ
mark x = (x.cur_req_num, x.server_info.num_rx, x.server_info.req_msgbuf.num_pkts)

-- No handler was invoked, and the slot's progress is the same.
abbrev pub IsQuiet : Rpc → Rpc → Ref → Type 0
IsQuiet r q p = (runs p q.events ≡ runs p r.events) × (mark (slot_of q p) ≡ mark (slot_of r p))

-- The progress made covers the handlers invoked.
abbrev pub IsOnce : Rpc → Rpc → Ref → Type 0
IsOnce r q p = runs p q.events + progress (slot_of r p) ≤ runs p r.events + progress (slot_of q p)

pub mark-SameButTs : (r q : Rpc) (p : Ref) → SameButTs r q → mark (slot_of q p) ≡ mark (slot_of r p)
mark-SameButTs r q p h = ap (λ s. mark (s.slots p.slot)) (h p.sn)

pub pkt-IsQuiet :
    (env : Env) (r : Rpc) (p : Ref) (i : ℕ) → IsQuiet r (enqueue_pkt_tx_burst_st env r p i none) p
pkt-IsQuiet env r p i = (
  runs-enqueue_pkt env p r i none,
  mark-SameButTs r (enqueue_pkt_tx_burst_st env r p i none) p
      (enqueue_pkt-SameButTs env r p i none),
)

pub cr-IsQuiet :
    (env : Env) (r : Rpc) (p : Ref) (h : PktHdr) → IsQuiet r (enqueue_cr_st env r p h) p
cr-IsQuiet env r p h = (
  runs-enqueue_cr env p r h,
  mark-SameButTs r (enqueue_cr_st env r p h) p (enqueue_cr-SameButTs env r p h),
)

pub drain-IsQuiet : (r : Rpc) (p : Ref) → IsQuiet r (drain_tx_batch_and_dma_queue r) p
drain-IsQuiet r p =
    (runs-drain p r, mark-SameButTs r (drain_tx_batch_and_dma_queue r) p (drain-SameButTs r))

pub bury_resp-IsQuiet : (r : Rpc) (p : Ref) → IsQuiet r (bury_resp_msgbuf_server_st r p) p
unfolding bury_resp_msgbuf_server_st
bury_resp-IsQuiet r p = (ground arith, ground arith)

pub resend-IsQuiet : (env : Env) (r : Rpc) (p : Ref) → IsQuiet r (resend_response env r p) p
unfolding resend_response
resend-IsQuiet env r p = (
  ground (arith, drain-IsQuiet (enqueue_pkt_tx_burst_st env r p 0 none) p, pkt-IsQuiet env r p 0),
  ground (arith, drain-IsQuiet (enqueue_pkt_tx_burst_st env r p 0 none) p, pkt-IsQuiet env r p 0),
)

-- An invocation is one, and no progress.
pub invoke :
    (env : Env) (r : Rpc) (p : Ref) (t : ℕ)
    → (runs p (invoke_req_func env r p t).events ≡ runs p r.events + 1)
      × (slot_of (invoke_req_func env r p t) p ≡ slot_of r p)
unfolding invoke_req_func submit_bg_req_st
invoke env r p t = (ground arith, ground arith)

pub invoke-runs :
    (env : Env) (r : Rpc) (p : Ref) (t : ℕ)
    → runs p (invoke_req_func env r p t).events ≡ runs p r.events + 1
invoke-runs env r p t = (invoke env r p t).0

pub runs-take_small :
    (env : Env) (r : Rpc) (p : Ref) (pkt : Pkt)
    → runs p (take_small_req env r p pkt).events ≡ runs p r.events
unfolding take_small_req
runs-take_small env r p pkt = ground (arith, bury_resp-IsQuiet r p)

pub num_pkts-small :
    (env : Env) (pkt : Pkt)
    → leb pkt.hdr.msg_size env.max_data_per_pkt ≡ true
    → (small_req_msgbuf env pkt).num_pkts ≡ 1
unfolding small_req_msgbuf alloc_msg_buffer data_size_to_num_pkts
num_pkts-small env pkt h = ground (arith, h)

-- The slot after it took up a small request.
pub take_small :
    (env : Env) (r : Rpc) (p : Ref) (pkt : Pkt)
    → leb pkt.hdr.msg_size env.max_data_per_pkt ≡ true
    → (runs p (take_small_req env r p pkt).events ≡ runs p r.events)
      × (progress (slot_of (take_small_req env r p pkt) p) ≡ pkt.hdr.req_num + 1)
unfolding take_small_req
take_small env r p pkt h = (runs-take_small env r p pkt, ground (arith, num_pkts-small env pkt h))
