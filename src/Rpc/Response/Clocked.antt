-- ===== src/Rpc/Response/Clocked.antt =====
-- The packets of a large response come one after the other, as each that arrives pays for the request
-- of the next.
use rdma_yuxi.Prelude.{
  ℕ, zero, suc, ◌+◌, ◌-◌, ◌%◌, ◌≤◌, ◌<◌, ◌≡◌, refl, ap, sym, ◌∙◌, subst, arith, min, Bool, true,
  false, leb, ◌==◌, if◌then◌else◌, List, [], ◌∷◌, inl, inr, Bool-cases,
}
use rdma_yuxi.Wire.Header.{PktHdr, invalid_bg_etid, session_credits}
use rdma_yuxi.Wire.Sizes.{wire_pkts}
use rdma_yuxi.Rpc.State.{ClientInfo, MsgBuffer, Pkt, Ref, Rpc, Env, slot_of, session_of, tx_buf}
use rdma_yuxi.Rpc.Kick.{slot_wire_pkts, slot_wire_pkts_lem}
use rdma_yuxi.Rpc.Kick.Paced.{Pace, pace, pace-kick, conts}
use rdma_yuxi.Rpc.Client.{in_order_client, count_rx}
use rdma_yuxi.Rpc.Response.{
  free_slot, start_backlog, invoke_cont, complete, set_resp, size_resp, request_rest,
  store_large_resp, finish_large_resp, process_resp_one_st,
}
use rdma_yuxi.Rpc.Response.Parts.{
  view, sized, taken, view-taken, stored, view-size, view-count, view-stored,
  process_resp_one_st-stored,
}
use rdma_yuxi.Rpc.Response.Delivery.{
  IsReply, IsSoFar, IsExpecting, deliver_resp, packet, pkt_num-packet, req_num-packet, large-packet,
  sized-pkts, count_is, taken-pkts, one-kept, expecting-IsSoFar, some_pkts,
}

-- Packets are sent up to the number `limit`, as far as there are credits.
IsPaced : Pace → Pace → ℕ → Type 0
IsPaced v w limit =
    (w.0 ≡ (if v.0 == limit then v.0 else v.0 + min v.2 (limit - v.0))) × (w.1 ≡ v.1) × (w.3 ≡ v.3)

module _ (env : Env) (p : Ref) (pkt : Pkt) where
  pace-count :
      (r : Rpc) (tsc : ℕ)
      → let v : Pace = pace r p in pace (count_rx r p pkt.hdr tsc) p ≡ (v.0, v.1, v.2 + 1, v.3)
  unfolding count_rx
  pace-count r tsc = ground arith

  pace-set : (r : Rpc) (m : MsgBuffer) → pace (set_resp r p m) p ≡ pace r p
  pace-set r m = ground arith

  pace-size : (r : Rpc) → pace (size_resp env r p pkt) p ≡ pace r p
  unfolding size_resp
  pace-size r = elim (Bool-cases (pkt.hdr.pkt_num == (tx_buf (slot_of r p)).num_pkts - 1)) [
    | inl e ↦ rw e (pace-set r _)
    | inr e ↦ rw e refl
  ]

  rest-IsPaced :
      (r : Rpc) → IsPaced (pace r p) (pace (request_rest env r p) p) (slot_wire_pkts (slot_of r p))
  unfolding request_rest IsPaced
  rest-IsPaced r =
      elim (Bool-cases ((slot_of r p).client_info.num_tx == slot_wire_pkts (slot_of r p))) [
        | inl e ↦ rw e (refl, refl, refl)
        | inr e ↦ rw e (pace-kick env p r)
      ]

  store-IsPaced :
      (r : Rpc)
      → IsPaced
          (pace r p)
          (pace (store_large_resp env r p pkt) p)
          (wire_pkts (view r p).3 (sized env.traits pkt (view r p)).num_pkts)
  unfolding store_large_resp
  store-IsPaced r =
      let q : Rpc = size_resp env r p pkt in
      let limit : slot_wire_pkts (slot_of q p)
          ≡ wire_pkts (view r p).3 (sized env.traits pkt (view r p)).num_pkts =
        slot_wire_pkts_lem (slot_of q p)
        ∙ ap (λ v. wire_pkts v.3 v.2.num_pkts) (view-size env p pkt r) in
      subst
        (λ w.
          IsPaced (pace r p) w (wire_pkts (view r p).3 (sized env.traits pkt (view r p)).num_pkts))
        (sym (pace-set (request_rest env q p) _))
        (subst (λ l. IsPaced (pace r p) (pace (request_rest env q p) p) l) limit
          (subst (λ v. IsPaced v (pace (request_rest env q p) p) (slot_wire_pkts (slot_of q p)))
            (pace-size r) (rest-IsPaced q)))

  conts-invoke : (q : Rpc) (ci : ClientInfo) → conts (invoke_cont q ci).events ≡ conts q.events + 1
  unfolding invoke_cont
  conts-invoke q ci = elim (Bool-cases (ci.cont_etid == invalid_bg_etid)) [
    | inl e ↦ rw e (omega arith)
    | inr e ↦ rw e (omega arith)
  ]

  -- The continuation is called with the last packet.
  conts-complete :
      (r : Rpc) → (view r p).4 ≡ [] → conts (complete env r p).events ≡ conts r.events + 1
  unfolding complete start_backlog free_slot
  conts-complete r none_waits =
      conts-invoke (start_backlog env (free_slot r p) p.sn (session_of r p).enq_req_backlog)
        (slot_of r p).client_info
      ∙ ap (λ l. conts (start_backlog env (free_slot r p) p.sn l).events + 1) none_waits

  finish-last :
      (r : Rpc)
      → (view r p).4 ≡ []
      → (view r p).1 ≡ wire_pkts (view r p).3 (view r p).2.num_pkts
      → conts (finish_large_resp env r p).events ≡ conts r.events + 1
  unfolding finish_large_resp
  finish-last r none_waits all =
      rw (test_is true (ground (arith, all))) (conts-complete r none_waits)
    where
      test_is :
          (b : Bool)
          → (view r p).1 == wire_pkts (view r p).3 (view r p).2.num_pkts ≡ b
          → (slot_of r p).client_info.num_rx == slot_wire_pkts (slot_of r p) ≡ b
      test_is b e =
          ap (λ k. (slot_of r p).client_info.num_rx == k) (slot_wire_pkts_lem (slot_of r p)) ∙ e

  finish-other :
      (r : Rpc)
      → (view r p).1 == wire_pkts (view r p).3 (view r p).2.num_pkts ≡ false
      → finish_large_resp env r p ≡ r
  unfolding finish_large_resp
  finish-other r more =
      rw (ap (λ k. (slot_of r p).client_info.num_rx == k) (slot_wire_pkts_lem (slot_of r p)) ∙ more)
        refl

module _ (env : Env) (b : MsgBuffer) (h : PktHdr) (ok : IsReply env.traits b h) (p : Ref) where
  abbrev pkt : ℕ → Pkt
  pkt i = packet env b h ok p i

  -- The first `k` packets are here, the next one is asked for, and none is in the wheel.
  record IsClocked (k : ℕ) (r : Rpc) : Type 0 where
    so_far : IsSoFar env b h ok p (view r p)
    here : (view r p).1 ≡ h.pkt_num + k
    ahead : h.pkt_num + k < (pace r p).0
    within : (pace r p).0 ≤ h.pkt_num + b.num_pkts
    no_wheel : (w : ℕ) → (pace r p).1 w ≡ false

  module _ (k : ℕ) (r : Rpc) (tsc : ℕ) (lt : k < b.num_pkts) (v : IsClocked k r) where
    in_order : (in_order_client r p (pkt k).hdr).0 ≡ true
    unfolding in_order_client
    in_order = ground (
      arith,
      req_num-packet env b h ok p k lt,
      pkt_num-packet env b h ok p k lt,
      v.so_far.0,
      v.here,
      v.ahead,
      v.no_wheel ((pkt k).hdr.pkt_num % session_credits),
    )

    abbrev t : Rpc
    t = process_resp_one_st env r p (pkt k) tsc

    abbrev q : Rpc
    q = stored env p (pkt k) tsc r

    large : leb (pkt k).hdr.msg_size env.max_data_per_pkt ≡ false
    large = large-packet env b h ok p k lt

    finished : t ≡ finish_large_resp env q p
    finished = process_resp_one_st-stored env p (pkt k) r tsc large in_order

    stored-view : view q p ≡ taken env.traits (pkt k) (view r p)
    stored-view = view-stored env p (pkt k) r tsc

    count-t : (view t p).1 ≡ h.pkt_num + (k + 1)
    count-t = (view-taken env p (pkt k) r tsc large in_order v.so_far.6).0.1 ∙ omega (arith, v.here)

    wire-q : wire_pkts (view q p).3 (view q p).2.num_pkts ≡ h.pkt_num + b.num_pkts
    unfolding wire_pkts
    wire-q =
        ap (λ w. wire_pkts w.3 w.2.num_pkts) stored-view
        ∙ omega (
          arith,
          taken-pkts env b h ok p k lt (view r p) v.so_far v.here,
          count_is env b h ok p k lt (view r p) v.so_far v.here,
        )

    limit :
        wire_pkts (view r p).3 (sized env.traits (pkt k) (view r p)).num_pkts
        ≡ h.pkt_num + b.num_pkts
    unfolding wire_pkts
    limit =
        let n_is = count_is env b h ok p k lt (view r p) v.so_far v.here in
        omega (arith, n_is, (sized-pkts env b h ok p k lt (view r p) n_is v.so_far.4 v.here).0)

    paced :
        IsPaced
          ((pace r p).0, (pace r p).1, (pace r p).2 + 1, (pace r p).3)
          (pace q p)
          (h.pkt_num + b.num_pkts)
    paced =
        let c : Rpc = count_rx r p (pkt k).hdr tsc in
        subst
          (λ l. IsPaced ((pace r p).0, (pace r p).1, (pace r p).2 + 1, (pace r p).3) (pace q p) l)
          (ap (λ w. wire_pkts w.3 (sized env.traits (pkt k) w).num_pkts)
              (view-count env p (pkt k) r tsc)
            ∙ limit)
          (subst
            (λ w.
              IsPaced w (pace q p)
                (wire_pkts (view c p).3 (sized env.traits (pkt k) (view c p)).num_pkts))
            (pace-count env p (pkt k) r tsc) (store-IsPaced env p (pkt k) c))

    -- The packet is not the last: the next one is asked for.
    next-IsClocked : k + 1 < b.num_pkts → IsClocked (k + 1) t × (conts t.events ≡ conts r.events)
    unfolding IsPaced
    next-IsClocked more =
        let same : t ≡ q =
          finished
          ∙ finish-other env p (pkt k) q
              (ground (arith, ap (λ w. w.1) stored-view, wire-q, v.here, more)) in
        (
          record {
            so_far = one-kept env b h ok p r k tsc lt v.so_far;
            here = count-t;
            ahead = ground (arith, ap (λ s. (pace s p).0) same, paced.0, v.ahead, v.within, more);
            within = ground (arith, ap (λ s. (pace s p).0) same, paced.0, v.ahead, v.within);
            no_wheel = λ w. ap (λ s. (pace s p).1 w) same ∙ ap (λ g. g w) paced.1 ∙ v.no_wheel w;
          },
          ap (λ s. conts s.events) same ∙ paced.2,
        )

    -- The last packet ends the request.
    last-ends :
        k + 1 ≡ b.num_pkts
        → ((view t p).1 ≡ h.pkt_num + b.num_pkts) × (conts t.events ≡ conts r.events + 1)
    unfolding IsPaced
    last-ends last = (
      count-t ∙ omega (arith, last),
      ap (λ s. conts s.events) finished
          ∙ finish-last env p (pkt k) q (ap (λ w. w.4) stored-view ∙ v.so_far.6)
              (ap (λ w. w.1) stored-view ∙ omega (arith, v.here, last, wire-q))
          ∙ ap (λ c. c + 1) paced.2,
    )

  -- `c` packets in order from the index `k` on, each at its time.
  abbrev pub in_turn : (ℕ → ℕ) → ℕ → ℕ → List (ℕ × ℕ)
  in_turn at k zero = []
  in_turn at k (suc c) = (k, at k) ∷ in_turn at (k + 1) c

  rest-ends :
      (at : ℕ → ℕ) (c k : ℕ) (r : Rpc)
      → k + suc c ≡ b.num_pkts
      → IsClocked k r
      → ((view (deliver_resp env b h ok p (in_turn at k (suc c)) r) p).1 ≡ h.pkt_num + b.num_pkts)
        × (conts (deliver_resp env b h ok p (in_turn at k (suc c)) r).events ≡ conts r.events + 1)
  rest-ends at zero k r e v = last-ends k r (at k) (omega (arith, e)) v (omega (arith, e))
  rest-ends at (suc c) k r e v =
      let (next, same) = next-IsClocked k r (at k) (omega (arith, e)) v (omega (arith, e)) in
      let (all, one) =
        rest-ends at c (k + 1) (process_resp_one_st env r p (pkt k) (at k)) (omega (arith, e))
          next in
      (all, one ∙ ap (λ n. n + 1) same)

  -- All packets are counted, and the continuation was called once more.
  abbrev IsEnded : (ℕ → ℕ) → Rpc → ℕ → Type 0
  IsEnded at r n =
      ((view (deliver_resp env b h ok p (in_turn at 0 n) r) p).1 ≡ h.pkt_num + b.num_pkts)
      × (conts (deliver_resp env b h ok p (in_turn at 0 n) r).events ≡ conts r.events + 1)

  -- The packets of a large response arrive in order, at whatever times, at the client's slot that
  -- waits for the first of them and has asked for it: each packet pays for the request of the next
  -- one, so that all are counted, and the continuation is called once. The message is cut as
  -- `enqueue_response` cuts it and fits the response buffer, no other request waits for the slot, none
  -- of the slot's packets is in the wheel, and it has asked for no more than the response's packets.
  pub deliver_resp-ends :
      (at : ℕ → ℕ) (r : Rpc)
      → IsExpecting env b h ok p (view r p)
      → h.pkt_num < (slot_of r p).client_info.num_tx
      → (slot_of r p).client_info.num_tx ≤ h.pkt_num + b.num_pkts
      → ((w : ℕ) → (slot_of r p).client_info.in_wheel w ≡ false)
      → ((slot_of (deliver_resp env b h ok p (in_turn at 0 b.num_pkts) r) p).client_info.num_rx
          ≡ h.pkt_num + b.num_pkts)
        × (conts (deliver_resp env b h ok p (in_turn at 0 b.num_pkts) r).events
            ≡ conts r.events + 1)
  deliver_resp-ends at r waits asked within no_wheel =
      let some_are : 1 ≤ b.num_pkts = some_pkts env b h ok p in
      subst (IsEnded at r)
        (let e : suc (b.num_pkts - 1) ≡ b.num_pkts = omega (arith, some_are) in e)
        (rest-ends at (b.num_pkts - 1) 0 r (omega (arith, some_are)) (record {
          so_far = expecting-IsSoFar env b h ok p (view r p) waits;
          here = omega (arith, waits.1);
          ahead = omega (arith, asked);
          within = within;
          no_wheel = no_wheel;
        }))
