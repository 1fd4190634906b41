-- ===== src/Rpc/Response/Delivery.antt =====
-- What becomes of a large response whose packets arrive in any order.
use rdma_yuxi.Prelude.{
  ℕ, ◌+◌, ◌-◌, ◌*◌, ◌^◌, ◌≤◌, ◌<◌, ◌≡◌, refl, ap, sym, ◌∙◌, subst, arith, false, leb, ◌==◌, List,
  [], ◌∷◌, All, Bool-cases, inl, inr,
}
use rdma_yuxi.Wire.Header.{PktHdr, Traits, pkt_num_bits}
use rdma_yuxi.Wire.Sizes.{data_size_to_num_pkts, data_size_to_num_pkts_bounds, resp_ntoi, wire_pkts}
use rdma_yuxi.Rpc.State.{MsgBuffer, Pkt, Ref, Rpc, Env, slot_of}
use rdma_yuxi.Rpc.Buffers.{fill_hdrs, copy_data_to_msgbuf, resize_msg_buffer}
use rdma_yuxi.Rpc.Buffers.Cut.{packet_of, numbered, hdr-fill_hdrs, bytes-next_packet}
use rdma_yuxi.Rpc.Client.{in_order_client}
use rdma_yuxi.Rpc.Response.{process_resp_one_st}
use rdma_yuxi.Rpc.Response.Parts.{
  IsLeft, View, view, sized, taken, in_order_facts, view-taken, view-other,
}

-- A response as `enqueue_response` cuts it: header 0 has its size, the packets are as many as the
-- size needs, and their numbers follow those of the request, which are within the field's bits.
pub record IsReply (tr : Traits) (b : MsgBuffer) (h : PktHdr) : Type 0 where
  pub wide : 0 < tr.max_data_per_pkt
  pub large : tr.max_data_per_pkt < b.data_size
  pub size : h.msg_size ≡ b.data_size
  pub fits : b.data_size < 2 ^ 24
  pub pkts : b.num_pkts ≡ data_size_to_num_pkts tr b.data_size
  pub few : h.pkt_num + b.num_pkts ≤ 2 ^ pkt_num_bits

module _ (env : Env) (b : MsgBuffer) (h : PktHdr) (ok : IsReply env.traits b h) (p : Ref) where
  abbrev tr : Traits
  tr = env.traits

  -- The packets that the transport carries.
  abbrev pub packet : ℕ → Pkt
  packet i = packet_of tr (fill_hdrs b h) i

  -- All packets up to the number `k` are here, with their data in place; before the last of them the
  -- request is there, with one packet fewer than the response's first number, counted from 0.
  abbrev pub IsSoFar : View → Type 0
  IsSoFar (q, k, m, n, l) =
      (q ≡ h.req_num)
      × (h.pkt_num ≤ k)
      × (k ≤ h.pkt_num + b.num_pkts)
      × (k < h.pkt_num + b.num_pkts → n ≡ h.pkt_num + 1)
      × (h.pkt_num < k → m.num_pkts ≡ b.num_pkts)
      × ((j : ℕ)
          → j < b.data_size
          → j < (k - h.pkt_num) * env.max_data_per_pkt
          → m.bytes j ≡ b.bytes j)
      × (l ≡ [])

  module _ (i : ℕ) (lt : i < b.num_pkts) where
    hdr_is : (packet i).hdr ≡ numbered h i
    hdr_is = hdr-fill_hdrs b h i (omega (arith, ok.few)) lt

    pub pkt_num-packet : (packet i).hdr.pkt_num ≡ h.pkt_num + i
    pkt_num-packet = ap (λ g. g.pkt_num) hdr_is ∙ omega (arith, ok.few)

    pub req_num-packet : (packet i).hdr.req_num ≡ h.req_num
    req_num-packet = ap (λ g. g.req_num) hdr_is

    msg_size-packet : (packet i).hdr.msg_size ≡ b.data_size
    msg_size-packet = ap (λ g. g.msg_size) hdr_is ∙ ok.size

    pub large-packet : leb (packet i).hdr.msg_size env.max_data_per_pkt ≡ false
    large-packet = ground (arith, msg_size-packet, ok.large)

    -- The packet's index in the response.
    index : resp_ntoi (packet i).hdr.pkt_num (h.pkt_num + 1) ≡ i
    unfolding resp_ntoi
    index = omega (arith, pkt_num-packet, ok.few)

    pub sized-pkts :
        (v : View)
        → v.3 ≡ h.pkt_num + 1
        → (h.pkt_num < v.1 → v.2.num_pkts ≡ b.num_pkts)
        → v.1 ≡ h.pkt_num + i
        → ((sized tr (packet i) v).num_pkts ≡ b.num_pkts)
          × ((sized tr (packet i) v).bytes ≡ v.2.bytes)
    unfolding resize_msg_buffer
    sized-pkts v n_is before at = elim (Bool-cases ((packet i).hdr.pkt_num == v.3 - 1)) [
      | inl e ↦ rw e (ap (data_size_to_num_pkts tr) msg_size-packet ∙ sym ok.pkts, refl)
      | inr e ↦ rw e (before (ground (arith, e, n_is, pkt_num-packet, at)), refl)
    ]

    -- The data of the packet are put behind those that are there.
    bytes-packet :
        (m : MsgBuffer) (j : ℕ)
        → j < b.data_size
        → j < (i + 1) * env.max_data_per_pkt
        → (j < i * env.max_data_per_pkt → m.bytes j ≡ b.bytes j)
        → (copy_data_to_msgbuf tr m i (packet i)).bytes j ≡ b.bytes j
    bytes-packet m j inside =
        bytes-next_packet tr m b h i j ok.wide (omega (arith, ok.large)) ok.fits
          (omega (arith, ok.pkts, lt)) msg_size-packet inside

    num_pkts-copy :
        (m : MsgBuffer) (k : ℕ) → (copy_data_to_msgbuf tr m k (packet i)).num_pkts ≡ m.num_pkts
    unfolding copy_data_to_msgbuf
    num_pkts-copy m k = refl

    -- The next packet.
    module _ (v : View) (so_far : IsSoFar v) (at : v.1 ≡ h.pkt_num + i) where
      pub count_is : v.3 ≡ h.pkt_num + 1
      count_is = so_far.3 (omega (arith, at, lt))

      taken-buf :
          (taken tr (packet i) v).2 ≡ copy_data_to_msgbuf tr (sized tr (packet i) v) i (packet i)
      taken-buf =
          ap (λ k. copy_data_to_msgbuf tr (sized tr (packet i) v) k (packet i))
            (ap (resp_ntoi (packet i).hdr.pkt_num) count_is ∙ index)

      pub taken-pkts : (taken tr (packet i) v).2.num_pkts ≡ b.num_pkts
      taken-pkts =
          ap (λ m. m.num_pkts) taken-buf
          ∙ num_pkts-copy (sized tr (packet i) v) i
          ∙ (sized-pkts v count_is so_far.4 at).0

      taken-bytes :
          (j : ℕ)
          → j < b.data_size
          → j < (v.1 + 1 - h.pkt_num) * env.max_data_per_pkt
          → (taken tr (packet i) v).2.bytes j ≡ b.bytes j
      taken-bytes j inside below =
          ap (λ m. m.bytes j) taken-buf
          ∙ bytes-packet (sized tr (packet i) v) j inside
              (subst (λ t. j < t * env.max_data_per_pkt)
                (let e : v.1 + 1 - h.pkt_num ≡ i + 1 = omega (arith, at) in e) below)
              (λ front.
                ap (λ f. f j) (sized-pkts v count_is so_far.4 at).1
                ∙ so_far.5 j inside (
                    subst (λ t. j < t * env.max_data_per_pkt)
                      (let e : i ≡ v.1 - h.pkt_num = omega (arith, at) in e) front))

      -- What is left of the view after the packet.
      next-IsSoFar : (w : View) → IsLeft env p (packet i) (taken tr (packet i) v) w → IsSoFar w
      unfolding wire_pkts
      next-IsSoFar w ((q, k, m, l), n) = (
        q ∙ so_far.0,
        omega (arith, k, so_far.1),
        omega (arith, k, at, lt),
        λ more. n (ground (arith, k, more, taken-pkts, count_is)) ∙ count_is,
        λ _. ap (λ m. m.num_pkts) m ∙ taken-pkts,
        λ j inside below.
            ap (λ m. m.bytes j) m
            ∙ taken-bytes j inside
                (subst (λ t. j < (t - h.pkt_num) * env.max_data_per_pkt) k below),
        l ∙ so_far.6,
      )

  pub one-kept :
      (r : Rpc) (i tsc : ℕ)
      → i < b.num_pkts
      → IsSoFar (view r p)
      → IsSoFar (view (process_resp_one_st env r p (packet i) tsc) p)
  one-kept r i tsc lt v = elim (Bool-cases (in_order_client r p (packet i).hdr).0) [
    | inl e ↦
        next-IsSoFar i lt (view r p) v
          (sym (in_order_facts r p (packet i).hdr e).1 ∙ pkt_num-packet i lt)
          (view (process_resp_one_st env r p (packet i) tsc) p)
          (view-taken env p (packet i) r tsc (large-packet i lt) e v.6)
    | inr e ↦ subst IsSoFar (sym (view-other env p (packet i) r tsc e)) v
  ]

  -- Packets arrive at the slot, by their indices and at the times.
  abbrev pub deliver_resp : List (ℕ × ℕ) → Rpc → Rpc
  deliver_resp [] r = r
  deliver_resp ((i, tsc) ∷ l) r = deliver_resp l (process_resp_one_st env r p (packet i) tsc)

  delivered :
      (l : List (ℕ × ℕ)) (r : Rpc)
      → All (λ x. x.0 < b.num_pkts) l
      → IsSoFar (view r p)
      → IsSoFar (view (deliver_resp l r) p)
  delivered [] r lt v = v
  delivered ((i, tsc) ∷ l) r (lt, lts) v =
      delivered l (process_resp_one_st env r p (packet i) tsc) lts (one-kept r i tsc lt v)

  -- The server has all packets of the request, and the client waits for the first of the response,
  -- which fits its response buffer; no other request waits for the slot.
  abbrev pub IsExpecting : View → Type 0
  IsExpecting (q, k, m, n, l) =
      (q ≡ h.req_num)
      × (k ≡ h.pkt_num)
      × (n ≡ h.pkt_num + 1)
      × (l ≡ [])
      × (b.data_size ≤ m.max_data_size)

  pub expecting-IsSoFar : (v : View) → IsExpecting v → IsSoFar v
  expecting-IsSoFar v (q, k, n, l, room) = (
    q,
    omega (arith, k),
    omega (arith, k),
    λ _. n,
    λ more. absurd (omega (arith, more, k)),
    λ j inside below. absurd (
        omega (
          arith,
          (subst (λ t. j < t * env.max_data_per_pkt)
              (let e : v.1 - h.pkt_num ≡ 0 = omega (arith, k) in e) below),
        )),
    l,
  )

  pub some_pkts : 1 ≤ b.num_pkts
  some_pkts =
      omega
        (arith, (data_size_to_num_pkts_bounds tr b.data_size ok.wide).0, ok.pkts, ok.large, ok.wide)

  -- Packets of a large response arrive, in whatever order and however often, at the client's slot that
  -- waits for the first of them: when all are counted, the response buffer has the server's data, and
  -- the size in packets. The message is cut as `enqueue_response` cuts it and fits the response
  -- buffer, and no other request waits for the slot.
  pub deliver_resp-bytes :
      (l : List (ℕ × ℕ)) (r : Rpc) (j : ℕ)
      → All (λ x. x.0 < b.num_pkts) l
      → IsExpecting (view r p)
      → (slot_of (deliver_resp l r) p).client_info.num_rx ≡ h.pkt_num + b.num_pkts
      → j < b.data_size
      → ((slot_of (deliver_resp l r) p).client_info.resp_msgbuf.bytes j ≡ b.bytes j)
        × ((slot_of (deliver_resp l r) p).client_info.resp_msgbuf.num_pkts ≡ b.num_pkts)
  deliver_resp-bytes l r j lt waits all inside =
      let v : IsSoFar (view (deliver_resp l r) p) =
        delivered l r lt (expecting-IsSoFar (view r p) waits) in
      (
        v.5 j inside (
            subst (λ t. j < t * env.max_data_per_pkt)
              (let e : b.num_pkts ≡ (view (deliver_resp l r) p).1 - h.pkt_num =
                  omega (arith, all) in
                e)
              (omega (
                arith,
                inside,
                (data_size_to_num_pkts_bounds tr b.data_size ok.wide).1,
                ap (λ t. t * env.max_data_per_pkt) (sym ok.pkts),
              ))),
        v.4 (omega (arith, all, some_pkts)),
      )
