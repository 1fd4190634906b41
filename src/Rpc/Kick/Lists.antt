-- ===== src/Rpc/Kick/Lists.antt =====
-- A kick leaves the lists of requests and of queued work alone.
use rdma_yuxi.Prelude.{ℕ, zero, suc, ◌≡◌, inl, inr, refl, ◌∙◌, Bool, true, false, Bool-cases}
use rdma_yuxi.Rpc.State.{Ref, Rpc, Env, slot_of}
use rdma_yuxi.Rpc.Tx.Lists.{lists, lists-enqueue_pkt, lists-enqueue_rfr, lists-enqueue_wheel}
use rdma_yuxi.Rpc.Kick.{
  count_tx, kick_req_one, kick_req_loop, kick_req_st, kick_rfr_one, kick_rfr_loop, kick_rfr_st,
  kick_st, can_bypass_wheel, req_pkts_pending,
}
use rdma_yuxi.Rpc.Kick.Sends.{req_quota, rfr_quota}

lists-kick_req_one :
    (env : Env) (bypass : Bool) (p : Ref) (r : Rpc) → lists (kick_req_one env bypass p r) ≡ lists r
unfolding kick_req_one count_tx
lists-kick_req_one env true p r = lists-enqueue_pkt env r p _ _
lists-kick_req_one env false p r = lists-enqueue_wheel env r p _

lists-kick_req_loop :
    (env : Env) (bypass : Bool) (p : Ref) (n : ℕ) (r : Rpc)
    → lists (kick_req_loop env bypass p n r) ≡ lists r
unfolding kick_req_loop
lists-kick_req_loop env bypass p zero r = refl
lists-kick_req_loop env bypass p (suc n) r =
    lists-kick_req_loop env bypass p n (kick_req_one env bypass p r)
    ∙ lists-kick_req_one env bypass p r

pub lists-kick_req : (env : Env) (r : Rpc) (p : Ref) → lists (kick_req_st env r p) ≡ lists r
unfolding kick_req_st
lists-kick_req env r p = lists-kick_req_loop env (can_bypass_wheel env r p) p (req_quota r p) r

lists-kick_rfr_one : (env : Env) (p : Ref) (r : Rpc) → lists (kick_rfr_one env p r) ≡ lists r
unfolding kick_rfr_one count_tx
lists-kick_rfr_one env p r = lists-enqueue_rfr env r p _

lists-kick_rfr_loop :
    (env : Env) (p : Ref) (n : ℕ) (r : Rpc) → lists (kick_rfr_loop env p n r) ≡ lists r
unfolding kick_rfr_loop
lists-kick_rfr_loop env p zero r = refl
lists-kick_rfr_loop env p (suc n) r =
    lists-kick_rfr_loop env p n (kick_rfr_one env p r) ∙ lists-kick_rfr_one env p r

pub lists-kick_rfr : (env : Env) (r : Rpc) (p : Ref) → lists (kick_rfr_st env r p) ≡ lists r
unfolding kick_rfr_st
lists-kick_rfr env r p = lists-kick_rfr_loop env p (rfr_quota r p) r

pub lists-kick : (env : Env) (r : Rpc) (p : Ref) → lists (kick_st env r p) ≡ lists r
unfolding kick_st
lists-kick env r p = elim (Bool-cases (req_pkts_pending (slot_of r p))) [
  | inl e ↦ rw e (lists-kick_req env r p)
  | inr e ↦ rw e (lists-kick_rfr env r p)
]
