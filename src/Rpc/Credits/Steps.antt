-- ===== src/Rpc/Credits/Steps.antt =====
-- Runs of the client's operations of the data path.
use rdma_yuxi.Rpc.Credits.Responses.Stored.{IsResponse}
use rdma_yuxi.Prelude.{ℕ, ◌<◌, ◌≤◌, ◌≡◌, ◌+◌, All, arith}
use rdma_yuxi.Wire.Header.{PktHdr, session_credits}
use rdma_yuxi.Rpc.State.{EnqReqArgs, Pkt, Ref, Rpc, Env, slot_of}
use rdma_yuxi.Rpc.Client.{enqueue_request_st, process_expl_cr_st}
use rdma_yuxi.Rpc.Response.{process_resp_one_st}
use rdma_yuxi.Rpc.Loss.{process_bg_queues_enqueue_request_st, pkt_loss_scan_st}
use rdma_yuxi.Rpc.Credits.{HasResp, IsActive, AllSound, in_flight}
use rdma_yuxi.Rpc.Credits.Receive.{process_expl_cr_st-IsSound}
use rdma_yuxi.Rpc.Credits.Requests.{
  enqueue_request_st-IsSound, process_bg_queues_enqueue_request_st-IsSound,
}
use rdma_yuxi.Rpc.Credits.Responses.Packets.{process_resp_one_st-IsSound}
use rdma_yuxi.Rpc.Credits.Loss.{pkt_loss_scan_st-IsSound}

-- A run from the state `init`, in any order: time passes, the user and background threads send
-- requests, the server's packets arrive, however often, for slots with an active request, and the
-- active list is scanned for lost packets.
pub data ClientSteps (env : Env) (init : Rpc) : Rpc → Type 0 where
  begin : ClientSteps env init init
  ticks :
      (r : Rpc) (tsc now : ℕ)
      → ClientSteps env init r
      → ClientSteps env init (record r { ev_loop_tsc = tsc; now = now })
  requests :
      (r : Rpc) (args : EnqReqArgs)
      → ClientSteps env init r
      → HasResp args
      → ClientSteps env init (enqueue_request_st env r args)
  bg_requests :
      (r : Rpc)
      → ClientSteps env init r
      → All HasResp r.bg_enqueue_request
      → ClientSteps env init (process_bg_queues_enqueue_request_st env r)
  credit_returns :
      (r : Rpc) (p : Ref) (h : PktHdr) (rx_tsc : ℕ)
      → ClientSteps env init r
      → IsActive r p
      → ClientSteps env init (process_expl_cr_st env r p h rx_tsc)
  responses :
      (r : Rpc) (p : Ref) (pkt : Pkt) (rx_tsc : ℕ)
      → ClientSteps env init r
      → IsActive r p
      → IsResponse env (slot_of r p) pkt.hdr
      → ClientSteps env init (process_resp_one_st env r p pkt rx_tsc)
  scans :
      (r : Rpc)
      → ClientSteps env init r
      → All (IsActive r) r.active
      → ClientSteps env init (pkt_loss_scan_st env r)

-- Every run from sound sessions, such as new ones, reaches sound sessions.
steps-AllSound :
    (env : Env) (init r : Rpc)
    → 0 < env.max_data_per_pkt
    → AllSound init
    → ClientSteps env init r
    → AllSound r
steps-AllSound env init r wide all begin sn = all sn
steps-AllSound env init r wide all (ticks q tsc now s) sn = steps-AllSound env init q wide all s sn
steps-AllSound env init r wide all (requests q args s sized) sn =
    enqueue_request_st-IsSound env q args sized (steps-AllSound env init q wide all s) sn
steps-AllSound env init r wide all (bg_requests q s sized) sn =
    process_bg_queues_enqueue_request_st-IsSound env q sized (steps-AllSound env init q wide all s)
      sn
steps-AllSound env init r wide all (credit_returns q p h rx_tsc s act) sn =
    process_expl_cr_st-IsSound env q p h rx_tsc act.0 act.1 (steps-AllSound env init q wide all s)
      sn
steps-AllSound env init r wide all (responses q p pkt rx_tsc s act resp) sn =
    process_resp_one_st-IsSound env wide q p pkt rx_tsc act.0 act.1
      (steps-AllSound env init q wide all s) resp sn
steps-AllSound env init r wide all (scans q s act) sn =
    pkt_loss_scan_st-IsSound env q act (steps-AllSound env init q wide all s) sn

-- In any run of the client from sound sessions, in any order and however often - requests, credit
-- returns and responses for slots with an active request, the responses numbered after the
-- request's packets, and scans where the requests on the active list are active - the credits of a
-- session and its packets under way make up the session's credits, so that never more than those
-- packets are under way. The transport's packets hold data.
pub ClientSteps-credits :
    (env : Env) (init r : Rpc) (sn : ℕ)
    → 0 < env.max_data_per_pkt
    → AllSound init
    → ClientSteps env init r
    → ((r.sessions sn).credits + in_flight (r.sessions sn) ≡ session_credits)
      × (in_flight (r.sessions sn) ≤ session_credits)
ClientSteps-credits env init r sn wide all s = (
  (steps-AllSound env init r wide all s sn).conserved,
  omega (arith, (steps-AllSound env init r wide all s sn).conserved),
)
