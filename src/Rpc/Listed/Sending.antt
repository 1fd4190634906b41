-- ===== src/Rpc/Listed/Sending.antt =====
-- What the event loop sends by itself: stalled requests, the wheel's packets, a burst, and what was
-- lost.
use rdma_yuxi.Prelude.{
  ◌+◌, ◌≤◌, ◌<◌, ◌≡◌, refl, ap, ◌∙◌, arith, inl, inr, false, ltb, List, [], ◌∷◌, ◌++◌, Bool-cases,
}
use rdma_yuxi.Wire.Header.{session_req_window}
use rdma_yuxi.Rpc.State.{Ref, Rpc, Env, slot_of, session_of}
use rdma_yuxi.Rpc.Kick.{kick_st, kick_req_st, kick_rfr_st, req_pkts_pending}
use rdma_yuxi.Rpc.Kick.Lists.{lists-kick, lists-kick_req, lists-kick_rfr}
use rdma_yuxi.Rpc.Kick.Sends.{req_quota, rfr_quota, kick_req_st-Sends, kick_rfr_st-Sends}
use rdma_yuxi.Rpc.Loss.{stall_loop, process_credit_stall_queue_st}
use rdma_yuxi.Rpc.Credits.{is_null, AllSound}
use rdma_yuxi.Rpc.Credits.Kicks.{kick_st-IsSound}
use rdma_yuxi.Rpc.Listed.{count_ref, IsListed, Sends-IsListed}
use rdma_yuxi.Rpc.Listed.Finish.{queues}
use rdma_yuxi.Rpc.Listed.Receive.{IsClient, same-IsClient}

pub kick_st-IsListed :
    (env : Env) (r : Rpc) (p : Ref) (st : List Ref)
    → count_ref p st ≡ 0
    → IsListed r st
    → IsListed (kick_st env r p) st
unfolding kick_st
kick_st-IsListed env r p st none_ v = elim (Bool-cases (req_pkts_pending (slot_of r p))) [
  | inl e ↦ rw e (
      Sends-IsListed r (kick_req_st env r p) p (req_quota r p) st
        (ap (λ l. l.0) (lists-kick_req env r p)) (kick_req_st-Sends env r p) none_ v)
  | inr e ↦ rw e (
      Sends-IsListed r (kick_rfr_st env r p) p (rfr_quota r p) st
        (ap (λ l. l.0) (lists-kick_rfr env r p)) (kick_rfr_st-Sends env r p) none_ v)
]

-- A list with the same slots, or fewer.
fewer-IsListed :
    (r : Rpc) (st less : List Ref)
    → ((a : Ref) → count_ref a less ≤ count_ref a st)
    → IsListed r st
    → IsListed r less
fewer-IsListed r st less le v = record {
  once = v.once;
  stalled = λ a. omega (arith, le a, v.stalled a);
}

count_ref-append : (a : Ref) (k l : List Ref) → count_ref a (k ++ l) ≡ count_ref a k + count_ref a l
count_ref-append a [] l = omega arith
count_ref-append a (q ∷ k) l = omega (arith, count_ref-append a k l)

module _ (env : Env) (p : Ref) (ps kept : List Ref) (r : Rpc) (all : AllSound r)
    (v : IsListed r (kept ++ (p ∷ ps))) where
  twice : count_ref p (kept ++ (p ∷ ps)) ≡ 1 + count_ref p (kept ++ ps)
  twice = ground (arith, count_ref-append p kept (p ∷ ps), count_ref-append p kept ps)

  gone : count_ref p (kept ++ ps) ≡ 0
  gone = ground (arith, twice, v.stalled p)

  stalled_slot :
      (p.slot < session_req_window)
      × (is_null (slot_of r p).tx_msgbuf ≡ false)
      × ((slot_of r p).client_info.num_tx ≡ 0)
  stalled_slot = (
    ground (arith, twice, v.stalled p),
    ground (arith, twice, v.stalled p),
    ground (arith, twice, v.stalled p),
  )

  -- A stalled slot that gets credits has sent nothing yet, and leaves the queue.
  unstalled-IsSound : AllSound (kick_st env r p)
  unstalled-IsSound sn =
      kick_st-IsSound env r p stalled_slot.0 stalled_slot.1
        (omega (arith, stalled_slot.2, ((all p.sn).sound p.slot stalled_slot.0).ordered)) (all p.sn)
        sn (all sn)

  unstalled-IsListed : IsListed (kick_st env r p) (kept ++ ps)
  unstalled-IsListed = kick_st-IsListed env r p (kept ++ ps) gone (
      fewer-IsListed r (kept ++ (p ∷ ps)) (kept ++ ps)
        (λ a. omega (arith, count_ref-append a kept (p ∷ ps), count_ref-append a kept ps)) v)

  passed-IsListed : IsListed r ((kept ++ (p ∷ [])) ++ ps)
  passed-IsListed =
      fewer-IsListed r (kept ++ (p ∷ ps)) ((kept ++ (p ∷ [])) ++ ps)
        (λ a. omega (
          arith,
          count_ref-append a kept (p ∷ ps),
          count_ref-append a (kept ++ (p ∷ [])) ps,
          count_ref-append a kept (p ∷ []),
        ))
        v

stall_loop-IsSound :
    (env : Env) (ps kept : List Ref) (r : Rpc)
    → AllSound r
    → IsListed r (kept ++ ps)
    → AllSound (stall_loop env ps kept r)
      × IsListed (stall_loop env ps kept r) (stall_loop env ps kept r).stallq
      × (queues (stall_loop env ps kept r) ≡ queues r)
unfolding stall_loop
stall_loop-IsSound env [] kept r all v = (
  all,
  record { once = v.once; stalled = λ a. omega (arith, v.stalled a, count_ref-append a kept []) },
  refl,
)
stall_loop-IsSound env (p ∷ ps) kept r all v = elim (Bool-cases (ltb 0 (session_of r p).credits)) [
  | inl e ↦
      let t =
        stall_loop-IsSound env ps kept (kick_st env r p) (unstalled-IsSound env p ps kept r all v)
          (unstalled-IsListed env p ps kept r all v) in
      rw e (t.0, t.1, t.2 ∙ ap (λ l. (l.2, l.3)) (lists-kick env r p))
  | inr e ↦
      rw e
        (stall_loop-IsSound env ps (kept ++ (p ∷ [])) r all (passed-IsListed env p ps kept r all v))
]

-- Serving the stall queue leaves a client a client: what is stalled has sent nothing.
pub process_credit_stall_queue_st-IsClient :
    (env : Env) (r : Rpc) → IsClient r → IsClient (process_credit_stall_queue_st env r)
unfolding process_credit_stall_queue_st
process_credit_stall_queue_st-IsClient env r c =
    let t = stall_loop-IsSound env r.stallq [] r c.sound c.listed in
    same-IsClient r (process_credit_stall_queue_st env r) t.2 t.0 t.1 c
