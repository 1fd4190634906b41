-- ===== src/Rpc/Server/Delivery.antt =====
-- What becomes of a large request whose packets arrive in any order, and in order.
use rdma_yuxi.Rpc.Server.Message.{
  IsAwaiting, IsMessage, IsPrefix, deliver, first-IsPrefix, next-IsPrefix, packet, pkt_num-packet,
  req_num-packet, taken-packet,
}
use rdma_yuxi.Prelude.{
  ℕ, zero, suc, ◌+◌, ◌-◌, ◌*◌, ◌≤◌, ◌<◌, ◌≡◌, ◌⊎◌, inl, inr, refl, ap, sym, ◌∙◌, subst, arith, true,
  ◌==◌, if◌then◌else◌, List, [], ◌∷◌, Option, All, Bool-cases, range,
}
use rdma_yuxi.Wire.Header.{PktHdr}
use rdma_yuxi.Wire.Sizes.{data_size_to_num_pkts_bounds}
use rdma_yuxi.Rpc.State.{MsgBuffer, Pkt, SSlot, Ref, Rpc, Env, slot_of}
use rdma_yuxi.Rpc.Buffers.Layout.{alloc_size, alloc_size_ge}
use rdma_yuxi.Alloc.Huge.{HugeAlloc, alloc_buf, get_class, largest_class_size, min_class_size}
use rdma_yuxi.Alloc.Classes.{get_class-fits}
use rdma_yuxi.Alloc.Cover.{IsSized}
use rdma_yuxi.Alloc.Full.{HasMemory, alloc_buf-HasMemory}
use rdma_yuxi.Rpc.Tx.Runs.{runs}
use rdma_yuxi.Rpc.Server.{is_in_order_req, process_large_req_one_st}
use rdma_yuxi.Rpc.Server.Once.{process_large-runs}
use rdma_yuxi.Rpc.Server.Reassembly.{View, view, taken, view-taken, view-other}

module _ (env : Env) (b : MsgBuffer) (h : PktHdr) (ok : IsMessage env.traits b h) (p : Ref) where
  abbrev P : View → Type 0
  P v = IsAwaiting env.traits b h ok v ⊎ IsPrefix env.traits b h ok v

  abbrev pkt : ℕ → Pkt
  pkt i = packet env.traits b h ok i

  -- A packet in order is the first of the awaited request, or the next one.
  in_order_is :
      (x : SSlot) (i : ℕ)
      → i < b.num_pkts
      → is_in_order_req x (pkt i).hdr ≡ true
      → P (view x)
      → (i ≡ 0) ⊎ ((i ≡ x.server_info.num_rx) × IsPrefix env.traits b h ok (view x))
  unfolding is_in_order_req
  in_order_is x i lt e (inl waits) =
      inl (
        ground
          (arith, pkt_num-packet env.traits b h ok i lt, req_num-packet env.traits b h ok i lt))
  in_order_is x i lt e (inr pre) = inr (
    ground (
      arith,
      pkt_num-packet env.traits b h ok i lt,
      req_num-packet env.traits b h ok i lt,
      pre.0,
    ),
    pre,
  )

  one-kept :
      (r : Rpc) (i : ℕ)
      → i < b.num_pkts
      → P (view (slot_of r p))
      → P (view (slot_of (process_large_req_one_st env r p (pkt i)) p))
  one-kept r i lt v = elim (Bool-cases (is_in_order_req (slot_of r p) (pkt i).hdr)) [
    | inl e ↦ inr (
        subst (IsPrefix env.traits b h ok) (sym (view-taken env r p (pkt i) e))
          (elim (in_order_is (slot_of r p) i lt e v) [
            | inl zero_is ↦ first-IsPrefix env.traits b h ok i lt (view (slot_of r p)) zero_is
            | inr (same, pre) ↦ next-IsPrefix env.traits b h ok i lt (view (slot_of r p)) same pre
          ]))
    | inr e ↦ subst P (sym (view-other env r p (pkt i) e)) v
  ]

  delivered :
      (l : List ℕ) (r : Rpc)
      → All (λ i. i < b.num_pkts) l
      → P (view (slot_of r p))
      → P (view (slot_of (deliver env.traits b h ok env p l r) p))
  delivered [] r lt v = v
  delivered (i ∷ l) r (lt, lts) v =
      delivered l (process_large_req_one_st env r p (pkt i)) lts (one-kept r i lt v)

  -- Packets of a large request arrive, in whatever order and however often, at a slot that awaits the
  -- request: when all are counted, the request buffer holds the client's data. The message is cut as
  -- `enqueue_request` cuts it.
  pub deliver-bytes :
      (l : List ℕ) (r : Rpc) (j : ℕ)
      → All (λ i. i < b.num_pkts) l
      → IsAwaiting env.traits b h ok (view (slot_of r p))
      → (slot_of (deliver env.traits b h ok env p l r) p).cur_req_num ≡ h.req_num
      → (slot_of (deliver env.traits b h ok env p l r) p).server_info.num_rx ≡ b.num_pkts
      → j < b.data_size
      → (slot_of (deliver env.traits b h ok env p l r) p).server_info.req_msgbuf.bytes j ≡ b.bytes j
  deliver-bytes l r j lt waits num all inside = elim (delivered l r lt (inl waits)) [
    | inl still ↦ absurd (omega (arith, still, num))
    | inr (e, one, le, pkts, same) ↦ same j inside (
        omega (
          arith,
          (data_size_to_num_pkts_bounds env.traits b.data_size ok.wide).1,
          ap (λ t. t * env.max_data_per_pkt) (sym ok.pkts),
          ap (λ t. t * env.max_data_per_pkt) all,
        ))
  ]

  -- The slot has counted `k` packets.
  abbrev Counted : ℕ → Rpc → Type 0
  Counted k r =
      IsPrefix env.traits b h ok (view (slot_of r p)) × ((slot_of r p).server_info.num_rx ≡ k)

  in_order_next :
      (x : SSlot) (k : ℕ)
      → k < b.num_pkts
      → x.cur_req_num ≡ h.req_num
      → x.server_info.num_rx ≡ k
      → is_in_order_req x (pkt k).hdr ≡ true
  unfolding is_in_order_req
  in_order_next x k lt num same = ground (
    arith,
    pkt_num-packet env.traits b h ok k lt,
    req_num-packet env.traits b h ok k lt,
    num,
    same,
  )

  in_order_first :
      (x : SSlot)
      → IsAwaiting env.traits b h ok (view x)
      → 0 < b.num_pkts
      → is_in_order_req x (pkt 0).hdr ≡ true
  unfolding is_in_order_req
  in_order_first x waits lt =
      ground
        (arith, pkt_num-packet env.traits b h ok 0 lt, req_num-packet env.traits b h ok 0 lt, waits)

  -- One more packet in order.
  next-Counted :
      (k : ℕ) (r : Rpc)
      → k < b.num_pkts
      → Counted k r
      → Counted (k + 1) (process_large_req_one_st env r p (pkt k))
  next-Counted k r lt (pre, same) =
      let e : is_in_order_req (slot_of r p) (pkt k).hdr ≡ true =
        in_order_next (slot_of r p) k lt pre.0 same in
      let now : view (slot_of (process_large_req_one_st env r p (pkt k)) p)
          ≡ taken env.traits (pkt k) (view (slot_of r p)) =
        view-taken env r p (pkt k) e in
      (
        subst (IsPrefix env.traits b h ok) (sym now)
            (next-IsPrefix env.traits b h ok k lt (view (slot_of r p)) (sym same) pre),
        ap (λ v. v.1) (now ∙ taken-packet env.traits b h ok k lt (view (slot_of r p)))
            ∙ ground (arith, same),
      )

  -- The first packet.
  first-Counted :
      (r : Rpc)
      → 0 < b.num_pkts
      → IsAwaiting env.traits b h ok (view (slot_of r p))
      → Counted 1 (process_large_req_one_st env r p (pkt 0))
  first-Counted r lt waits =
      let e : is_in_order_req (slot_of r p) (pkt 0).hdr ≡ true =
        in_order_first (slot_of r p) waits lt in
      let now : view (slot_of (process_large_req_one_st env r p (pkt 0)) p)
          ≡ taken env.traits (pkt 0) (view (slot_of r p)) =
        view-taken env r p (pkt 0) e in
      (
        subst (IsPrefix env.traits b h ok) (sym now)
            (first-IsPrefix env.traits b h ok 0 lt (view (slot_of r p)) refl),
        ap (λ v. v.1) (now ∙ taken-packet env.traits b h ok 0 lt (view (slot_of r p))),
      )

  -- The rest of the packets in order: the handler runs once, with the last.
  rest-delivered :
      (c k : ℕ) (r : Rpc)
      → k + c ≡ b.num_pkts
      → Counted k r
      → Counted b.num_pkts (deliver env.traits b h ok env p (range k c) r)
        × (runs p (deliver env.traits b h ok env p (range k c) r).events
            ≡ runs p r.events + (if c == 0 then 0 else 1))
  rest-delivered zero k r e (pre, same) = ((pre, same ∙ omega (arith, e)), omega arith)
  rest-delivered (suc c) k r e counted =
      let q : Rpc = process_large_req_one_st env r p (pkt k) in
      let next : Counted (k + 1) q = next-Counted k r (omega (arith, e)) counted in
      let (full, run) = rest-delivered c (k + 1) q (omega (arith, e)) next in
      (
        full,
        ground (
          arith,
          e,
          run,
          next.1,
          next.0.3,
          process_large-runs env r p (pkt k)
              (in_order_next (slot_of r p) k (omega (arith, e)) counted.0.0 counted.1),
        ),
      )

  -- All of the first `m` packets are counted, and the handler ran once.
  abbrev IsAll : Rpc → ℕ → Type 0
  IsAll r m =
      ((slot_of (deliver env.traits b h ok env p (range 0 m) r) p).cur_req_num ≡ h.req_num)
      × ((slot_of (deliver env.traits b h ok env p (range 0 m) r) p).server_info.num_rx
          ≡ b.num_pkts)
      × (runs p (deliver env.traits b h ok env p (range 0 m) r).events ≡ runs p r.events + 1)

  in_order-IsAll :
      (c : ℕ) (r : Rpc)
      → suc c ≡ b.num_pkts
      → IsAwaiting env.traits b h ok (view (slot_of r p))
      → IsAll r (suc c)
  in_order-IsAll c r e waits =
      let q : Rpc = process_large_req_one_st env r p (pkt 0) in
      let first : Counted 1 q = first-Counted r (omega (arith, e)) waits in
      let (full, run) = rest-delivered c 1 q (omega (arith, e)) first in
      (
        full.0.0,
        full.1,
        ground (
          arith,
          e,
          run,
          first.1,
          first.0.3,
          process_large-runs env r p (pkt 0)
              (in_order_first (slot_of r p) waits (omega (arith, e))),
        ),
      )

  some_pkts : 1 ≤ b.num_pkts
  some_pkts =
      omega (arith, (data_size_to_num_pkts_bounds env.traits b.data_size ok.wide).0, ok.pkts)

  -- The request buffer's memory.
  request-fits :
      (undef : ℕ) (g : HugeAlloc) (region : Option (ℕ × ℕ))
      → IsSized g
      → alloc_size env.traits b.data_size ≤ largest_class_size
      → (alloc_size env.traits b.data_size ≤ min_class_size → undef ≡ 0)
      → HasMemory g (get_class undef (alloc_size env.traits b.data_size)) region
      → alloc_size env.traits b.data_size
        ≤ (alloc_buf undef g (alloc_size env.traits b.data_size) region).0.class_size
  request-fits undef g region v le defined memory =
      let (lt, fits) =
        get_class-fits undef (alloc_size env.traits b.data_size) alloc_size_pos le defined in
      omega (
        arith,
        fits,
        alloc_buf-HasMemory undef g (alloc_size env.traits b.data_size) region lt v memory,
      )
    where
      alloc_size_pos : 1 ≤ alloc_size env.traits b.data_size
      alloc_size_pos = omega (arith, alloc_size_ge env.traits b.data_size, ok.large)

  -- The packets of a large request arrive in order at a slot that awaits the request, and the server's
  -- allocator has memory for a buffer of the request's size: it gives a buffer that the request and
  -- its headers fit, all packets are counted, and the handler is invoked once. The message is cut as
  -- `enqueue_request` cuts it, and is not larger than the allocator's largest class.
  pub deliver-runs :
      (r : Rpc) (undef : ℕ) (g : HugeAlloc) (region : Option (ℕ × ℕ))
      → IsAwaiting env.traits b h ok (view (slot_of r p))
      → IsSized g
      → alloc_size env.traits b.data_size ≤ largest_class_size
      → (alloc_size env.traits b.data_size ≤ min_class_size → undef ≡ 0)
      → HasMemory g (get_class undef (alloc_size env.traits b.data_size)) region
      → (alloc_size env.traits b.data_size
          ≤ (alloc_buf undef g (alloc_size env.traits b.data_size) region).0.class_size)
        × ((slot_of (deliver env.traits b h ok env p (range 0 b.num_pkts) r) p).cur_req_num
            ≡ h.req_num)
        × ((slot_of (deliver env.traits b h ok env p (range 0 b.num_pkts) r) p).server_info.num_rx
            ≡ b.num_pkts)
        × (runs p (deliver env.traits b h ok env p (range 0 b.num_pkts) r).events
            ≡ runs p r.events + 1)
  deliver-runs r undef g region waits v le defined memory =
      let (num, all, run) =
        subst (IsAll r) (let e : suc (b.num_pkts - 1) ≡ b.num_pkts = omega (arith, some_pkts) in e)
          (in_order-IsAll (b.num_pkts - 1) r (omega (arith, some_pkts)) waits) in
      (request-fits undef g region v le defined memory, num, all, run)
