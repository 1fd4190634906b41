-- ===== src/Rpc/Response/Parts.antt =====
-- What a packet of a large response changes at the client's slot.
use rdma_yuxi.Prelude.{
  ℕ, ◌+◌, ◌-◌, ◌≡◌, refl, ap, sym, ◌∙◌, subst, arith, true, false, leb, ◌==◌, if◌then◌else◌, List,
  [], update, inl, inr, Bool-cases,
}
use mathlib.Core.Bool.{true≢false}
use rdma_yuxi.Wire.Header.{PktHdr, Traits}
use rdma_yuxi.Wire.Sizes.{resp_ntoi, wire_pkts}
use rdma_yuxi.Rpc.State.{
  MsgBuffer, Pkt, SSlot, Ref, EnqReqArgs, Rpc, Env, slot_of, session_of, tx_buf, TxPtr, null, user,
  pre_resp, dyn_resp, buf_at,
}
use rdma_yuxi.Rpc.Buffers.{resize_msg_buffer, copy_data_to_msgbuf}
use rdma_yuxi.Rpc.Kick.{kick_rfr_st, slot_wire_pkts, slot_wire_pkts_lem}
use rdma_yuxi.Rpc.Kick.Sends.{still, kick_rfr_st-Sends}
use rdma_yuxi.Rpc.Client.{in_order_client, count_rx}
use rdma_yuxi.Rpc.Response.{
  free_slot, start_backlog, invoke_cont, complete, size_resp, request_rest, store_large_resp,
  finish_large_resp, take_resp, process_resp_one_st, set_resp,
}

-- What the client keeps of a response under way: the request's number, the packets received for it,
-- the response buffer, how many packets the request has, and the requests that wait for a slot.
abbrev pub View : Type 0
View = ℕ × ℕ × MsgBuffer × ℕ × List EnqReqArgs

abbrev pub view : Rpc → Ref → View
view r p = (
  (slot_of r p).cur_req_num,
  (slot_of r p).client_info.num_rx,
  (slot_of r p).client_info.resp_msgbuf,
  (tx_buf (slot_of r p)).num_pkts,
  (session_of r p).enq_req_backlog,
)

pub in_order_facts :
    (r : Rpc) (p : Ref) (h : PktHdr)
    → (in_order_client r p h).0 ≡ true
    → (h.req_num ≡ (slot_of r p).cur_req_num)
      × (h.pkt_num ≡ (slot_of r p).client_info.num_rx)
      × ((in_order_client r p h).1 ≡ r)
unfolding in_order_client
in_order_facts r p h e = ground (arith, e)

in_order_same : (r : Rpc) (p : Ref) (h : PktHdr) → (in_order_client r p h).1.sessions ≡ r.sessions
unfolding in_order_client
in_order_same r p h = ground arith

-- The view with the buffer, and with one more packet.
abbrev with_buf : View → MsgBuffer → View
with_buf (q, k, m, n, l) b = (q, k, b, n, l)

abbrev one_more : View → View
one_more (q, k, m, n, l) = (q, k + 1, m, n, l)

-- The buffer with its size, once the first packet is there, and with the packet's data.
abbrev pub sized : Traits → Pkt → View → MsgBuffer
sized tr pkt (q, k, m, n, l) =
    if pkt.hdr.pkt_num == n - 1
    then record (resize_msg_buffer tr m pkt.hdr.msg_size) { hdr = update m.hdr 0 pkt.hdr }
    else m

abbrev pub copied : Traits → Pkt → View → View
copied tr pkt (q, k, m, n, l) =
    (q, k, copy_data_to_msgbuf tr m (resp_ntoi pkt.hdr.pkt_num n) pkt, n, l)

-- A packet in order as it changes the view.
abbrev pub taken : Traits → Pkt → View → View
taken tr pkt v = copied tr pkt (with_buf (one_more v) (sized tr pkt v))

pkts-still :
    (x : SSlot) (t : TxPtr)
    → (buf_at (still x) x.pre_resp_msgbuf t).num_pkts ≡ (buf_at x x.pre_resp_msgbuf t).num_pkts
pkts-still x null = refl
pkts-still x (user m) = refl
pkts-still x pre_resp = refl
pkts-still x dyn_resp = refl

abbrev slot_view : SSlot → List EnqReqArgs → View
slot_view x l =
    (x.cur_req_num, x.client_info.num_rx, x.client_info.resp_msgbuf, (tx_buf x).num_pkts, l)

slot_view-still : (x : SSlot) (l : List EnqReqArgs) → slot_view (still x) l ≡ slot_view x l
slot_view-still x l =
    ap (λ n. (x.cur_req_num, x.client_info.num_rx, x.client_info.resp_msgbuf, n, l))
      (pkts-still x x.tx_msgbuf)

module _ (env : Env) (p : Ref) (pkt : Pkt) where
  pub view-count : (r : Rpc) (tsc : ℕ) → view (count_rx r p pkt.hdr tsc) p ≡ one_more (view r p)
  unfolding count_rx
  view-count r tsc = ground arith

  view-set : (r : Rpc) (m : MsgBuffer) → view (set_resp r p m) p ≡ with_buf (view r p) m
  view-set r m = ground arith

  pub view-size :
      (r : Rpc)
      → view (size_resp env r p pkt) p ≡ with_buf (view r p) (sized env.traits pkt (view r p))
  unfolding size_resp
  view-size r = elim (Bool-cases (pkt.hdr.pkt_num == (tx_buf (slot_of r p)).num_pkts - 1)) [
    | inl e ↦ rw e (view-set r _)
    | inr e ↦ rw e refl
  ]

  view-kick : (r : Rpc) → view (kick_rfr_st env r p) p ≡ view r p
  view-kick r =
      let (same, slot, _, _) = kick_rfr_st-Sends env r p p.sn p.slot in
      let q = kick_rfr_st env r p in
      sym (slot_view-still (slot_of q p) (session_of q p).enq_req_backlog)
      ∙ ap (λ x. slot_view x (session_of q p).enq_req_backlog) slot
      ∙ slot_view-still (slot_of r p) (session_of q p).enq_req_backlog
      ∙ ap (λ t. slot_view (slot_of r p) t.enq_req_backlog) same

  view-rest : (r : Rpc) → view (request_rest env r p) p ≡ view r p
  unfolding request_rest
  view-rest r =
      elim (Bool-cases ((slot_of r p).client_info.num_tx == slot_wire_pkts (slot_of r p))) [
        | inl e ↦ rw e refl
        | inr e ↦ rw e (view-kick r)
      ]

  view-store :
      (r : Rpc)
      → view (store_large_resp env r p pkt) p
        ≡ copied env.traits pkt (with_buf (view r p) (sized env.traits pkt (view r p)))
  unfolding store_large_resp
  view-store r =
      let q = request_rest env (size_resp env r p pkt) p in
      view-set q _ ∙ ap (copied env.traits pkt) (view-rest (size_resp env r p pkt) ∙ view-size r)

  -- The end of the request, with none waiting, leaves all but the request buffer.
  abbrev pub IsEnd : View → View → Type 0
  IsEnd v w = (w.0 ≡ v.0) × (w.1 ≡ v.1) × (w.2 ≡ v.2) × (w.4 ≡ v.4)

  ends :
      (r : Rpc)
      → IsEnd (view r p) (
          view
            (invoke_cont (start_backlog env (free_slot r p) p.sn []) (slot_of r p).client_info)
            p)
  unfolding start_backlog invoke_cont free_slot
  ends r = ground arith

  view-complete : (r : Rpc) → (view r p).4 ≡ [] → IsEnd (view r p) (view (complete env r p) p)
  unfolding complete
  view-complete r none_waits =
      subst
        (λ l. IsEnd (view r p) (
          view (invoke_cont (start_backlog env (free_slot r p) p.sn l) (slot_of r p).client_info)
            p))
        (sym none_waits) (ends r)

  -- What a packet leaves of the view, given what it has become before the last test: all of it, or
  -- all but the request buffer, once all packets are there.
  abbrev pub IsLeft : View → View → Type 0
  IsLeft v w = IsEnd v w × (v.1 == wire_pkts v.3 v.2.num_pkts ≡ false → w.3 ≡ v.3)

  view-finish :
      (r : Rpc) → (view r p).4 ≡ [] → IsLeft (view r p) (view (finish_large_resp env r p) p)
  unfolding finish_large_resp
  view-finish r none_waits =
      elim (Bool-cases ((slot_of r p).client_info.num_rx == slot_wire_pkts (slot_of r p))) [
        | inl e ↦ rw e (
          view-complete r none_waits,
          λ more. absurd (
              true≢false (
                sym e
                ∙ ap (λ k. (slot_of r p).client_info.num_rx == k) (slot_wire_pkts_lem (slot_of r p))
                ∙ more)),
        )
        | inr e ↦ rw e ((refl, refl, refl, refl), λ _. refl)
      ]

  abbrev pub stored : ℕ → Rpc → Rpc
  stored tsc r = store_large_resp env (count_rx r p pkt.hdr tsc) p pkt

  pub view-stored : (r : Rpc) (tsc : ℕ) → view (stored tsc r) p ≡ taken env.traits pkt (view r p)
  view-stored r tsc =
      view-store (count_rx r p pkt.hdr tsc)
      ∙ ap (λ w. copied env.traits pkt (with_buf w (sized env.traits pkt w))) (view-count r tsc)

  -- A packet of a large response in order is stored; any other packet changes nothing of the view.
  pub process_resp_one_st-stored :
      (r : Rpc) (tsc : ℕ)
      → leb pkt.hdr.msg_size env.max_data_per_pkt ≡ false
      → (in_order_client r p pkt.hdr).0 ≡ true
      → process_resp_one_st env r p pkt tsc ≡ finish_large_resp env (stored tsc r) p
  unfolding process_resp_one_st take_resp
  process_resp_one_st-stored r tsc large order =
      rw (order, large)
        (ap (λ q. finish_large_resp env (store_large_resp env (count_rx q p pkt.hdr tsc) p pkt) p)
          (in_order_facts r p pkt.hdr order).2)

  pub view-taken :
      (r : Rpc) (tsc : ℕ)
      → leb pkt.hdr.msg_size env.max_data_per_pkt ≡ false
      → (in_order_client r p pkt.hdr).0 ≡ true
      → (view r p).4 ≡ []
      → IsLeft (taken env.traits pkt (view r p)) (view (process_resp_one_st env r p pkt tsc) p)
  view-taken r tsc large order none_waits =
      subst (λ q. IsLeft (taken env.traits pkt (view r p)) (view q p))
        (sym (process_resp_one_st-stored r tsc large order))
        (subst (λ v. IsLeft v (view (finish_large_resp env (stored tsc r) p) p)) (view-stored r tsc)
          (view-finish (stored tsc r) (ap (λ v. v.4) (view-stored r tsc) ∙ none_waits)))

  pub view-other :
      (r : Rpc) (tsc : ℕ)
      → (in_order_client r p pkt.hdr).0 ≡ false
      → view (process_resp_one_st env r p pkt tsc) p ≡ view r p
  unfolding process_resp_one_st
  view-other r tsc order = rw order (
      ap (λ f. slot_view ((f p.sn).slots p.slot) (f p.sn).enq_req_backlog)
        (in_order_same r p pkt.hdr))
