-- ===== src/Rpc/Listed/Retries.antt =====
-- The wheel's packets, a burst, the requests of background threads, and retransmission.
use rdma_yuxi.Prelude.{
  ℕ, ◌+◌, ◌-◌, ◌%◌, ◌^◌, ◌≡◌, refl, ap, sym, ◌∙◌, subst, arith, inl, inr, false, ltb, ◌==◌,
  if◌then◌else◌, List, [], ◌∷◌, some, Bool-cases, All, update,
}
use rdma_yuxi.Wire.Header.{session_credits}
use rdma_yuxi.Rpc.State.{ClientInfo, Ref, EnqReqArgs, Rpc, Env, slot_of, set_client, tx_buf}
use rdma_yuxi.Rpc.Tx.{
  do_tx_burst_st, drain_tx_batch_and_dma_queue, enqueue_pkt_tx_burst_st, enqueue_rfr_st,
}
use rdma_yuxi.Rpc.Tx.Lists.{
  lists, lists-do_tx_burst_st, lists-drain, lists-enqueue_pkt, lists-enqueue_rfr,
}
use rdma_yuxi.Rpc.Tx.Frame.{
  do_tx_burst_st-SameButTs, drain-SameButTs, enqueue_pkt-SameButTs, enqueue_rfr-SameButTs,
}
use rdma_yuxi.Rpc.Kick.{kick_st}
use rdma_yuxi.Rpc.Kick.Lists.{lists-kick}
use rdma_yuxi.Rpc.Kick.Sends.{Sends, SameButTs-Sends}
use rdma_yuxi.Rpc.Client.{enqueue_request_st}
use rdma_yuxi.Rpc.Loss.{
  roll_back, pkt_loss_retransmit_st, scan_one, scan_loop, pkt_loss_scan_st, process_ready,
  process_wheel_st, bg_request_loop, process_bg_queues_enqueue_request_st,
}
use rdma_yuxi.Rpc.Credits.{is_null, HasResp}
use rdma_yuxi.Rpc.Credits.Kicks.{Sends-IsSound}
use rdma_yuxi.Rpc.Credits.Loss.{roll_back-SameActive, pkt_loss_scan_st-IsSound}
use rdma_yuxi.Rpc.Credits.Requests.{enqueue_request_st-IsSound}
use rdma_yuxi.Rpc.Listed.{
  count_ref, IsListed, step-IsListed, still-IsListed, sent-not_stalled, all-IsActive,
}
use rdma_yuxi.Rpc.Listed.Requests.{enqueue_request_st-IsListed}
use rdma_yuxi.Rpc.Listed.Finish.{queues, queues-enqueue_request_st}
use rdma_yuxi.Rpc.Listed.Receive.{IsClient, same-IsClient}
use rdma_yuxi.Rpc.Listed.Sending.{kick_st-IsListed}

-- A step that sends no new packet and leaves the lists alone.
quiet-IsListed :
    (r q : Rpc) (p : Ref)
    → Sends r q p 0
    → lists q ≡ lists r
    → IsListed r r.stallq
    → IsListed q q.stallq
quiet-IsListed r q p sent same v = subst (IsListed q) (sym (ap (λ l. l.1) same)) (
    still-IsListed r q r.stallq (ap (λ l. l.0) same)
      (λ a. ap (λ z. is_null z.tx_msgbuf) (sent a.sn a.slot).1)
      (λ a. ground (arith, (sent a.sn a.slot).3)) v)

quiet-IsClient : (r q : Rpc) (p : Ref) → Sends r q p 0 → lists q ≡ lists r → IsClient r → IsClient q
quiet-IsClient r q p sent same c =
    same-IsClient r q (ap (λ l. (l.2, l.3)) same)
      (λ sn.
        Sends-IsSound r q (record { sn = 0; slot = 0 }) 0 (λ s i. ground (arith, sent s i))
          (omega arith) (omega arith) (inl refl) sn (c.sound sn))
      (quiet-IsListed r q p sent same c.listed) c

-- A burst leaves a client a client.
pub do_tx_burst_st-IsClient : (r : Rpc) → IsClient r → IsClient (do_tx_burst_st r)
do_tx_burst_st-IsClient r =
    quiet-IsClient r (do_tx_burst_st r) (record { sn = 0; slot = 0 })
      (SameButTs-Sends r (do_tx_burst_st r) _ (do_tx_burst_st-SameButTs r)) (lists-do_tx_burst_st r)

-- An entry's packet is out of the wheel.
abbrev unwheel : Ref → ℕ → Rpc → Rpc
unwheel p n q = set_client q p (record ci {
  wheel_count = ci.wheel_count - 1;
  in_wheel = update ci.in_wheel (n % session_credits) false;
})
  where
    ci : ClientInfo
    ci = (slot_of q p).client_info

unwheel-IsClient : (p : Ref) (n : ℕ) (q : Rpc) → IsClient q → IsClient (unwheel p n q)
unwheel-IsClient p n q =
    quiet-IsClient q (unwheel p n q) p
      (λ sn i. (ground arith, ground arith, ground arith, ground arith)) refl

-- The packet of an entry is a request packet or a request for response.
abbrev entry_sent : Env → Rpc → Ref → ℕ → Rpc
entry_sent env r p n =
    if ltb n (tx_buf (slot_of r p)).num_pkts
    then enqueue_pkt_tx_burst_st env r p n (some (p, n % session_credits))
    else enqueue_rfr_st env r p ((slot_of r p).client_info.resp_msgbuf.hdr 0)

entry_sent-IsClient :
    (env : Env) (r : Rpc) (p : Ref) (n : ℕ) → IsClient r → IsClient (entry_sent env r p n)
entry_sent-IsClient env r p n c = elim (Bool-cases (ltb n (tx_buf (slot_of r p)).num_pkts)) [
  | inl e ↦
      let ts = some (p, n % session_credits) in
      let q = enqueue_pkt_tx_burst_st env r p n ts in
      rw e (
        quiet-IsClient r q p (SameButTs-Sends r q p (enqueue_pkt-SameButTs env r p n ts))
          (lists-enqueue_pkt env r p n ts) c)
  | inr e ↦
      let h = (slot_of r p).client_info.resp_msgbuf.hdr 0 in
      let q = enqueue_rfr_st env r p h in
      rw e (
        quiet-IsClient r q p (SameButTs-Sends r q p (enqueue_rfr-SameButTs env r p h))
          (lists-enqueue_rfr env r p h) c)
]

process_ready-IsClient :
    (env : Env) (r : Rpc) (e : Ref × ℕ) → IsClient r → IsClient (process_ready env r e)
unfolding process_ready
process_ready-IsClient env r (p, n) c =
    unwheel-IsClient p n (entry_sent env r p n) (entry_sent-IsClient env r p n c)

-- The wheel's packets leave a client a client.
pub process_wheel_st-IsClient :
    (env : Env) (l : List (Ref × ℕ)) (r : Rpc) → IsClient r → IsClient (process_wheel_st env l r)
unfolding process_wheel_st
process_wheel_st-IsClient env [] r c = c
process_wheel_st-IsClient env (e ∷ l) r c =
    process_wheel_st-IsClient env l (process_ready env r e) (process_ready-IsClient env r e c)

-- A request of the dispatch thread.
pub enqueue_request_st-IsClient :
    (env : Env) (r : Rpc) (args : EnqReqArgs)
    → HasResp args
    → IsClient r
    → IsClient (enqueue_request_st env r args)
enqueue_request_st-IsClient env r args sized c =
    same-IsClient r (enqueue_request_st env r args) (queues-enqueue_request_st env r args)
      (enqueue_request_st-IsSound env r args sized c.sound)
      (enqueue_request_st-IsListed env r args sized c.sound c.listed) c

bg_request_loop-IsClient :
    (env : Env) (l : List EnqReqArgs) (r : Rpc)
    → All HasResp l
    → IsClient r
    → IsClient (bg_request_loop env l r)
unfolding bg_request_loop
bg_request_loop-IsClient env [] r h c = c
bg_request_loop-IsClient env (a ∷ l) r (sized, h) c =
    bg_request_loop-IsClient env l (enqueue_request_st env r a) h
      (enqueue_request_st-IsClient env r a sized c)

-- Those of the background threads.
pub process_bg_queues_enqueue_request_st-IsClient :
    (env : Env) (r : Rpc) → IsClient r → IsClient (process_bg_queues_enqueue_request_st env r)
unfolding process_bg_queues_enqueue_request_st
process_bg_queues_enqueue_request_st-IsClient env r c =
    bg_request_loop-IsClient env r.bg_enqueue_request (record r { bg_enqueue_request = [] })
      c.queued
      (record {
        sound = c.sound;
        listed = record { once = c.listed.once; stalled = c.listed.stalled };
        queued = tt;
        no_responses = c.no_responses;
      })

roll_back-IsListed :
    (r : Rpc) (p : Ref) (st : List Ref)
    → count_ref p st ≡ 0
    → IsListed r st
    → IsListed (roll_back r p) st
unfolding roll_back
roll_back-IsListed r p st =
    step-IsListed r (roll_back r p) p st refl (roll_back-SameActive r p)
      (λ a ne. ground (arith, ne))

-- Lists and queues are as they should be, the queues being those of `r`.
abbrev IsKept : Rpc → Rpc → Type 0
IsKept r q = IsListed q q.stallq × (queues q ≡ queues r)

module _ (env : Env) where
  retransmit-IsKept :
      (r : Rpc) (p : Ref) → IsListed r r.stallq → IsKept r (pkt_loss_retransmit_st env r p)
  unfolding pkt_loss_retransmit_st roll_back
  retransmit-IsKept r p v =
      elim (Bool-cases ((slot_of r p).client_info.num_tx - (slot_of r p).client_info.num_rx == 0)) [
        | inl e ↦ rw e (v, refl)
        | inr e ↦ elim (Bool-cases (ltb 0 (slot_of r p).client_info.wheel_count)) [
          | inl f ↦ rw (e, f) (record { once = v.once; stalled = v.stalled }, refl)
          | inr f ↦
              let q = roll_back r p in
              let none_ : count_ref p r.stallq ≡ 0 =
                sent-not_stalled r p r.stallq (ground (arith, e)) v in
              rw (e, f)
                (
                  subst (IsListed (kick_st env q p)) (sym (ap (λ l. l.1) (lists-kick env q p))) (
                      kick_st-IsListed env q p r.stallq none_
                        (roll_back-IsListed r p r.stallq none_ v)),
                  ap (λ l. (l.2, l.3)) (lists-kick env q p),
                )
        ]
      ]

  drain-IsKept : (r q : Rpc) → IsKept r q → IsKept r (drain_tx_batch_and_dma_queue q)
  drain-IsKept r q (v, same) = (
    quiet-IsListed q (drain_tx_batch_and_dma_queue q) (record { sn = 0; slot = 0 })
        (SameButTs-Sends q (drain_tx_batch_and_dma_queue q) (record { sn = 0; slot = 0 })
          (drain-SameButTs q))
        (lists-drain q) v,
    ap (λ l. (l.2, l.3)) (lists-drain q) ∙ same,
  )

  scan_one-IsKept : (r : Rpc) (p : Ref) → IsListed r r.stallq → IsKept r (scan_one env r p)
  unfolding scan_one
  scan_one-IsKept r p v =
      elim (Bool-cases ((slot_of r p).client_info.num_tx == (slot_of r p).client_info.num_rx)) [
        | inl e ↦ rw e (v, refl)
        | inr e ↦
            elim (Bool-cases (
              ltb env.rpc_rto_cycles
                ((r.ev_loop_tsc + 2 ^ 64 - (slot_of r p).client_info.progress_tsc) % 2 ^ 64))) [
                  | inl f ↦
                      rw (e, f)
                        (drain-IsKept r (pkt_loss_retransmit_st env r p) (retransmit-IsKept r p v))
                  | inr f ↦ rw (e, f) (v, refl)
                ]
      ]

  scan_loop-IsKept : (l : List Ref) (r : Rpc) → IsListed r r.stallq → IsKept r (scan_loop env l r)
  unfolding scan_loop
  scan_loop-IsKept [] r v = (v, refl)
  scan_loop-IsKept (p ∷ l) r v =
      let t = scan_one-IsKept r p v in
      let u = scan_loop-IsKept l (scan_one env r p) t.0 in (u.0, u.1 ∙ t.1)

  -- The scan for lost packets leaves a client a client: all of the active list is active.
  pub pkt_loss_scan_st-IsClient : (r : Rpc) → IsClient r → IsClient (pkt_loss_scan_st env r)
  unfolding pkt_loss_scan_st
  pkt_loss_scan_st-IsClient r c =
      let t = scan_loop-IsKept r.active r c.listed in
      same-IsClient r (pkt_loss_scan_st env r) t.1
        (pkt_loss_scan_st-IsSound env r
          (all-IsActive r r.active (λ a lt. ground (arith, lt, c.listed.once a))) c.sound)
        t.0 c
