-- ===== src/Rpc/Listed/Finish.antt =====
-- A request that is over leaves the active list, and one of the backlog may follow it.
use rdma_yuxi.Prelude.{
  ℕ, ◌-◌, ◌<◌, ◌≡◌, refl, ap, ◌∙◌, subst, arith, inl, inr, false, ltb, leb, if◌then◌else◌, List, [],
  ◌∷◌, ◌++◌, Bool-cases, All,
}
use rdma_yuxi.Wire.Header.{session_req_window}
use rdma_yuxi.Rpc.State.{
  Session, Ref, EnqReqArgs, TxPtr, Rpc, Env, slot_of, session_of, set_session,
}
use rdma_yuxi.Rpc.Kick.Lists.{lists-kick_req}
use rdma_yuxi.Rpc.Client.{ref_eq, remove_ref, start_request, enqueue_request_st}
use rdma_yuxi.Rpc.Response.{free_slot, start_backlog, invoke_cont, complete}
use rdma_yuxi.Rpc.Credits.{is_null, HasResp, AllSound}
use rdma_yuxi.Rpc.Credits.Responses.{free_slot-IsSound}
use rdma_yuxi.Rpc.Listed.{count_ref, in_use, IsListed, ref_is, still-IsListed, sent-not_stalled}
use rdma_yuxi.Rpc.Listed.Requests.{enqueue_request_st-IsListed}

count_ref-remove :
    (a p : Ref) (l : List Ref)
    → count_ref a (remove_ref p l)
      ≡ count_ref a l - (if ref_eq p a then (if leb 1 (count_ref p l) then 1 else 0) else 0)
unfolding remove_ref
count_ref-remove a p [] = omega arith
count_ref-remove a p (q ∷ l) = ground (arith, count_ref-remove a p l)

-- What background threads queued.
abbrev pub queues : Rpc → List EnqReqArgs × List (Ref × TxPtr)
queues r = (r.bg_enqueue_request, r.bg_enqueue_response)

queues-start_request :
    (env : Env) (r : Rpc) (args : EnqReqArgs) (i : ℕ) (rest : List ℕ)
    → queues (start_request env r args i rest) ≡ queues r
unfolding start_request
queues-start_request env r args i rest =
    elim (Bool-cases (ltb 0 (r.sessions args.session_num).credits)) [
      | inl e ↦
          rw e (
            ap (λ l. (l.2, l.3))
              (lists-kick_req env _ (record { sn = args.session_num; slot = i })))
      | inr e ↦ rw e refl
    ]

pub queues-enqueue_request_st :
    (env : Env) (r : Rpc) (args : EnqReqArgs) → queues (enqueue_request_st env r args) ≡ queues r
unfolding enqueue_request_st
queues-enqueue_request_st env r args = by_free s.sslot_free_vec
  where
    s : Session
    s = r.sessions args.session_num

    waiting : Rpc
    waiting =
        set_session r args.session_num
          (record s { enq_req_backlog = s.enq_req_backlog ++ (args ∷ []) })

    by_free :
        (l : List ℕ)
        → queues
            (elim l as (λ _. Rpc) [ [] ↦ waiting | i ∷ rest ↦ start_request env r args i rest ])
          ≡ queues r
    by_free [] = refl
    by_free (i ∷ rest) = queues-start_request env r args i rest

module _ (r : Rpc) (p : Ref) (lt : p.slot < session_req_window)
    (act : is_null (slot_of r p).tx_msgbuf ≡ false) (sent : 0 < (slot_of r p).client_info.num_tx)
    (v : IsListed r r.stallq) where
  listed_once : count_ref p r.active ≡ 1
  listed_once = ground (arith, v.once p, lt, act)

  not_stalled : count_ref p r.stallq ≡ 0
  not_stalled = sent-not_stalled r p r.stallq sent v

  other : (a : Ref) → ref_eq p a ≡ false → slot_of (free_slot r p) a ≡ slot_of r a
  unfolding free_slot
  other a ne = ground (arith, ne)

  unused : in_use (free_slot r p) p ≡ false
  unfolding free_slot
  unused = ground arith

  lists_are : (free_slot r p).active ≡ remove_ref p r.active
  unfolding free_slot
  lists_are = refl

  freed-IsListed : IsListed (free_slot r p) r.stallq
  freed-IsListed = record {
    once = λ a. elim (Bool-cases (ref_eq p a)) [
      | inl e ↦
          subst
            (λ z. count_ref z (free_slot r p).active ≡ (if in_use (free_slot r p) z then 1 else 0))
            (ref_is p a e)
            (ap (count_ref p) lists_are
              ∙ count_ref-remove p p r.active
              ∙ ground (arith, listed_once, unused))
      | inr e ↦
          ap (count_ref a) lists_are
          ∙ count_ref-remove a p r.active
          ∙ ground (arith, e, v.once a, ap (λ x. is_null x.tx_msgbuf) (other a e))
    ];
    stalled = λ a. elim (Bool-cases (ref_eq p a)) [
      | inl e ↦ omega (arith, not_stalled, ap (λ z. count_ref z r.stallq) (ref_is p a e))
      | inr e ↦ ground (
        arith,
        v.stalled a,
        ap (λ x. is_null x.tx_msgbuf) (other a e),
        ap (λ x. x.client_info.num_tx) (other a e),
      )
    ];
  }

-- The freed slot's place in the backlog goes to the oldest request there.
start_backlog-IsListed :
    (env : Env) (r : Rpc) (sn : ℕ) (l : List EnqReqArgs)
    → All HasResp l
    → AllSound r
    → IsListed r r.stallq
    → IsListed (start_backlog env r sn l) (start_backlog env r sn l).stallq
unfolding start_backlog
start_backlog-IsListed env r sn [] h all v = v
start_backlog-IsListed env r sn (args ∷ rest) h all v =
    still-IsListed q (start_backlog env r sn (args ∷ rest)) q.stallq refl (λ a. ground arith)
      (λ a. ground arith) (enqueue_request_st-IsListed env r args h.0 all v)
  where
    q : Rpc
    q = enqueue_request_st env r args

queues-start_backlog :
    (env : Env) (r : Rpc) (sn : ℕ) (l : List EnqReqArgs)
    → queues (start_backlog env r sn l) ≡ queues r
unfolding start_backlog
queues-start_backlog env r sn [] = refl
queues-start_backlog env r sn (args ∷ rest) = queues-enqueue_request_st env r args

-- A request whose response is there leaves the lists.
pub complete-IsListed :
    (env : Env) (r : Rpc) (p : Ref)
    → p.slot < session_req_window
    → is_null (slot_of r p).tx_msgbuf ≡ false
    → 0 < (slot_of r p).client_info.num_tx
    → (slot_of r p).client_info.num_tx ≡ (slot_of r p).client_info.num_rx
    → AllSound r
    → IsListed r r.stallq
    → IsListed (complete env r p) (complete env r p).stallq
unfolding complete invoke_cont free_slot
complete-IsListed env r p lt act sent even all v =
    still-IsListed q (complete env r p) q.stallq refl (λ a. refl) (λ a. refl)
      (start_backlog-IsListed env (free_slot r p) p.sn (session_of r p).enq_req_backlog
        (all p.sn).backlog_sized (free_slot-IsSound r p lt act even all)
        (freed-IsListed r p lt act sent v))
  where
    q : Rpc
    q = start_backlog env (free_slot r p) p.sn (session_of r p).enq_req_backlog

pub queues-complete : (env : Env) (r : Rpc) (p : Ref) → queues (complete env r p) ≡ queues r
unfolding complete invoke_cont free_slot
queues-complete env r p =
    queues-start_backlog env (free_slot r p) p.sn (session_of r p).enq_req_backlog
