-- ===== src/Rpc/Kick/Paced.antt =====
-- What a kick for a response leaves alone besides: the wheel's bookkeeping, and the continuations.
use rdma_yuxi.Prelude.{ℕ, zero, suc, ◌+◌, ◌-◌, ◌≡◌, refl, ap, ◌∙◌, arith, min, Bool, List}
use rdma_yuxi.Rpc.State.{
  Ref, Event, burst, flush, wheel_insert, run_req_func, run_cont, bg_req, bg_resp, freed, Rpc, Env,
  slot_of, session_of,
}
use rdma_yuxi.Rpc.Tx.{enqueue_rfr_st}
use rdma_yuxi.Rpc.Tx.Counts.{total, total-enqueue_rfr}
use rdma_yuxi.Rpc.Tx.Frame.{enqueue_rfr-SameButTs}
use rdma_yuxi.Rpc.Kick.{count_tx, kick_rfr_one, kick_rfr_loop, kick_rfr_st, slot_wire_pkts}
use rdma_yuxi.Rpc.Kick.Sends.{rfr_quota, kick_rfr_st-Sends}

-- Is the event a call of a continuation, or the hand-over of one to a background thread?
abbrev pub is_cont : Event → ℕ
is_cont (run_cont f t) = 1
is_cont (bg_resp k f t) = 1
is_cont (run_req_func q t n) = 0
is_cont (bg_req k q) = 0
is_cont (burst l) = 0
is_cont flush = 0
is_cont (wheel_insert q a b) = 0
is_cont (freed m) = 0

-- How many continuations were called.
abbrev pub conts : List Event → ℕ
conts = total is_cont

-- What paces the slot: the packets sent for it, which of them are in the wheel, the session's
-- credits, and how many continuations were called.
abbrev pub Pace : Type 0
Pace = ℕ × (ℕ → Bool) × ℕ × ℕ

abbrev pub pace : Rpc → Ref → Pace
pace r p = (
  (slot_of r p).client_info.num_tx,
  (slot_of r p).client_info.in_wheel,
  (session_of r p).credits,
  conts r.events,
)

module _ (env : Env) (p : Ref) where
  wheel-count :
      (r : Rpc)
      → (slot_of (count_tx r p) p).client_info.in_wheel ≡ (slot_of r p).client_info.in_wheel
  unfolding count_tx
  wheel-count r = ground arith

  events-count : (r : Rpc) → conts (count_tx r p).events ≡ conts r.events
  unfolding count_tx
  events-count r = refl

  kick_one-same :
      (r : Rpc)
      → ((slot_of (kick_rfr_one env p r) p).client_info.in_wheel
          ≡ (slot_of r p).client_info.in_wheel)
        × (conts (kick_rfr_one env p r).events ≡ conts r.events)
  unfolding kick_rfr_one
  kick_one-same r =
      let h = (slot_of r p).client_info.resp_msgbuf.hdr 0 in
      (
        wheel-count (enqueue_rfr_st env r p h)
            ∙ ap (λ s. (s.slots p.slot).client_info.in_wheel)
                (enqueue_rfr-SameButTs env r p h p.sn),
        events-count (enqueue_rfr_st env r p h)
            ∙ total-enqueue_rfr is_cont (λ l. refl) refl env r p h,
      )

  kick_loop-same :
      (n : ℕ) (r : Rpc)
      → ((slot_of (kick_rfr_loop env p n r) p).client_info.in_wheel
          ≡ (slot_of r p).client_info.in_wheel)
        × (conts (kick_rfr_loop env p n r).events ≡ conts r.events)
  unfolding kick_rfr_loop
  kick_loop-same zero r = (refl, refl)
  kick_loop-same (suc n) r =
      let (w, c) = kick_one-same r in
      let (w', c') = kick_loop-same n (kick_rfr_one env p r) in (w' ∙ w, c' ∙ c)

  -- As many packets more are counted as sent as credits and packets are left.
  pub pace-kick :
      (r : Rpc)
      → let v : Pace = pace r p in
        let w : Pace = pace (kick_rfr_st env r p) p in
        (w.0 ≡ v.0 + min v.2 (slot_wire_pkts (slot_of r p) - v.0)) × (w.1 ≡ v.1) × (w.3 ≡ v.3)
  unfolding kick_rfr_st
  pace-kick r =
      let (wheel, cont) = kick_loop-same (rfr_quota r p) r in
      (ground (arith, kick_rfr_st-Sends env r p p.sn p.slot), wheel, cont)
