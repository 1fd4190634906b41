-- ===== src/Rpc/Kick/Packets.antt =====
-- Which packets a kick hands over: rpc_impl/rpc_kick.cc.
use rdma_yuxi.Prelude.{
  ℕ, zero, suc, ◌+◌, ◌%◌, ◌^◌, ◌<◌, ◌≤◌, ◌≡◌, refl, ap, sym, ◌∙◌, arith, Bool, true, false,
  if◌then◌else◌, List, ◌∷◌, some,
}
use rdma_yuxi.Wire.Header.{PktHdr, PktType, Traits, pkt_hdr_magic, session_credits}
use rdma_yuxi.Wire.Sizes.{get_pkt_size}
use rdma_yuxi.Rpc.State.{
  MsgBuffer, TxPtr, null, user, pre_resp, dyn_resp, SSlot, Ref, TxItem, Rpc, Env, slot_of,
  session_of, tx_buf, buf_at,
}
use rdma_yuxi.Rpc.Tx.{enqueue_wheel_req_st, ctrl_buf, rfr_hdr}
use rdma_yuxi.Rpc.Tx.Handed.{handed, wheel_of, enqueue_pkt-handed, enqueue_rfr-handed}
use rdma_yuxi.Rpc.Kick.{
  count_tx, kick_req_one, kick_req_loop, kick_req_st, kick_rfr_one, kick_rfr_loop, kick_rfr_st,
  slot_wire_pkts, can_bypass_wheel,
}
use rdma_yuxi.Rpc.Kick.Sends.{
  Sends, still, req_quota, rfr_quota, kick_req_one-Sends, kick_rfr_one-Sends, kick_req_st-Sends,
  kick_rfr_st-Sends,
}

-- `item` of the numbers from `t` on, `n` of them, the last in front of the list.
abbrev pub each : {A : Type 0} → (ℕ → A) → ℕ → ℕ → List A → List A
each item t zero l = l
each item t (suc n) l = each item (t + 1) n (item t ∷ l)

-- Packet `i` of the message in the buffer, as it is handed to the transport and to the wheel.
abbrev pub req_item : Ref → MsgBuffer → ℕ → TxItem
req_item p m i = record {
  dest = p.sn;
  msg_buffer = m;
  pkt_idx = i;
  tx_ts = some (p, i % session_credits);
}

abbrev pub wheel_item : Traits → Ref → MsgBuffer → ℕ → Ref × ℕ × ℕ
wheel_item tr p m i = (p, i, get_pkt_size tr m.data_size i)

-- The request for the response packet with the number `i`: a control packet without data, with the
-- type and the number of the request that the response's first header has.
abbrev pub rfr_item : ℕ → PktHdr → Ref → ℕ → TxItem
rfr_item remote h p i = record {
  dest = p.sn;
  msg_buffer = ctrl_buf (record {
    req_type = h.req_type;
    msg_size = 0;
    dest_session_num = remote;
    pkt_type = PktType.rfr;
    pkt_num = i % 2 ^ 14;
    req_num = h.req_num;
    magic = pkt_hdr_magic;
  });
  pkt_idx = 0;
  tx_ts = some (p, i % 2 ^ 14 % session_credits);
}

tx_buf-still : (x : SSlot) → tx_buf (still x) ≡ tx_buf x
tx_buf-still x = by_ptr x.tx_msgbuf
  where
    by_ptr : (t : TxPtr) → buf_at (still x) x.pre_resp_msgbuf t ≡ buf_at x x.pre_resp_msgbuf t
    by_ptr null = refl
    by_ptr (user m) = refl
    by_ptr pre_resp = refl
    by_ptr dyn_resp = refl

tx_buf-Sends :
    (r q : Rpc) (p : Ref) (n : ℕ) → Sends r q p n → tx_buf (slot_of q p) ≡ tx_buf (slot_of r p)
tx_buf-Sends r q p n h =
    sym (tx_buf-still (slot_of q p)) ∙ ap tx_buf (h p.sn p.slot).1 ∙ tx_buf-still (slot_of r p)

num_tx-Sends :
    (r q : Rpc) (p : Ref) (n : ℕ)
    → Sends r q p n
    → (slot_of q p).client_info.num_tx ≡ (slot_of r p).client_info.num_tx + n
num_tx-Sends r q p n h = ground (arith, (h p.sn p.slot).3)

-- What both lists are after `n` packets of the slot, from the number `t` on.
abbrev IsHanded : Env → Bool → Ref → MsgBuffer → ℕ → ℕ → Rpc → Rpc → Type 0
IsHanded env bypass p m t n r q =
    (handed q ≡ (if bypass then each (req_item p m) t n (handed r) else handed r))
    × (wheel_of q.events ≡ (
        if bypass
        then wheel_of r.events
        else each (wheel_item env.traits p m) t n (wheel_of r.events)))

kick_req_one-IsHanded :
    (env : Env) (bypass : Bool) (p : Ref) (r : Rpc)
    → IsHanded env bypass p
        (tx_buf (slot_of r p))
        (slot_of r p).client_info.num_tx
        1
        r
        (kick_req_one env bypass p r)
unfolding kick_req_one count_tx enqueue_wheel_req_st
kick_req_one-IsHanded env true p r = enqueue_pkt-handed env r p _ _
kick_req_one-IsHanded env false p r = (refl, refl)

kick_req_loop-IsHanded :
    (env : Env) (bypass : Bool) (p : Ref) (m : MsgBuffer) (n t : ℕ) (r : Rpc)
    → tx_buf (slot_of r p) ≡ m
    → (slot_of r p).client_info.num_tx ≡ t
    → IsHanded env bypass p m t n r (kick_req_loop env bypass p n r)
unfolding kick_req_loop
kick_req_loop-IsHanded env true p m zero t r buf num = (refl, refl)
kick_req_loop-IsHanded env false p m zero t r buf num = (refl, refl)
kick_req_loop-IsHanded env true p m (suc n) t r buf num =
    let q = kick_req_one env true p r in
    let s = kick_req_one-Sends env true p r in
    let one = kick_req_one-IsHanded env true p r in
    let rest =
      kick_req_loop-IsHanded env true p m n (t + 1) q (tx_buf-Sends r q p 1 s ∙ buf)
        (num_tx-Sends r q p 1 s ∙ ap (λ k. k + 1) num) in
    (
      rest.0
          ∙ ap (each (req_item p m) (t + 1) n) (
              one.0
              ∙ ap (λ b. req_item p b (slot_of r p).client_info.num_tx ∷ handed r) buf
              ∙ ap (λ k. req_item p m k ∷ handed r) num),
      rest.1 ∙ one.1,
    )
kick_req_loop-IsHanded env false p m (suc n) t r buf num =
    let q = kick_req_one env false p r in
    let s = kick_req_one-Sends env false p r in
    let one = kick_req_one-IsHanded env false p r in
    let rest =
      kick_req_loop-IsHanded env false p m n (t + 1) q (tx_buf-Sends r q p 1 s ∙ buf)
        (num_tx-Sends r q p 1 s ∙ ap (λ k. k + 1) num) in
    (
      rest.0 ∙ one.0,
      rest.1
          ∙ ap (each (wheel_item env.traits p m) (t + 1) n) (
              one.1
              ∙ ap
                  (λ b.
                    wheel_item env.traits p b (slot_of r p).client_info.num_tx ∷ wheel_of r.events)
                  buf
              ∙ ap (λ k. wheel_item env.traits p m k ∷ wheel_of r.events) num),
    )

-- With credits and packets left, `kick_req_st` sends as many packets of the request as both allow,
-- at least one: in the order of their numbers, from the first that was not sent, it hands each to the
-- transport, or, when the session is paced, to the timing wheel. It spends that many credits and
-- raises `num_tx` of the slot by as much. No other session, slot or field of a slot changes, TX
-- timestamps and the wheel's bookkeeping excepted.
pub kick_req_st-packets :
    (env : Env) (r : Rpc) (p : Ref)
    → 0 < (session_of r p).credits
    → (slot_of r p).client_info.num_tx < (tx_buf (slot_of r p)).num_pkts
    → let q : Rpc = kick_req_st env r p in
      let n : ℕ = req_quota r p in
      let t : ℕ = (slot_of r p).client_info.num_tx in
      let m : MsgBuffer = tx_buf (slot_of r p) in
      (0 < n)
      × (t + n ≤ m.num_pkts)
      × (handed q
          ≡ (if can_bypass_wheel env r p then each (req_item p m) t n (handed r) else handed r))
      × (wheel_of q.events ≡ (
          if can_bypass_wheel env r p
          then wheel_of r.events
          else each (wheel_item env.traits p m) t n (wheel_of r.events)))
      × Sends r q p n
unfolding kick_req_st
kick_req_st-packets env r p credit more =
    let (sent, waits) =
      kick_req_loop-IsHanded env (can_bypass_wheel env r p) p (tx_buf (slot_of r p)) (req_quota r p)
        (slot_of r p).client_info.num_tx r refl refl in
    (ground (arith, credit, more), ground (arith, more), sent, waits, kick_req_st-Sends env r p)

remote-Sends :
    (r q : Rpc) (p : Ref) (n : ℕ)
    → Sends r q p n
    → (session_of q p).remote_session_num ≡ (session_of r p).remote_session_num
remote-Sends r q p n h = ap (λ s. s.remote_session_num) (h p.sn p.slot).0

hdr-Sends :
    (r q : Rpc) (p : Ref) (n : ℕ)
    → Sends r q p n
    → (slot_of q p).client_info.resp_msgbuf.hdr 0 ≡ (slot_of r p).client_info.resp_msgbuf.hdr 0
hdr-Sends r q p n h = ap (λ x. x.client_info.resp_msgbuf.hdr 0) (h p.sn p.slot).1

kick_rfr_one-handed :
    (env : Env) (p : Ref) (r : Rpc)
    → (handed (kick_rfr_one env p r)
        ≡ rfr_item
            (session_of r p).remote_session_num
            ((slot_of r p).client_info.resp_msgbuf.hdr 0)
            p
            (slot_of r p).client_info.num_tx
          ∷ handed r)
      × (wheel_of (kick_rfr_one env p r).events ≡ wheel_of r.events)
unfolding kick_rfr_one count_tx rfr_hdr
kick_rfr_one-handed env p r = enqueue_rfr-handed env r p _

kick_rfr_loop-handed :
    (env : Env) (p : Ref) (remote : ℕ) (h : PktHdr) (n t : ℕ) (r : Rpc)
    → (session_of r p).remote_session_num ≡ remote
    → (slot_of r p).client_info.resp_msgbuf.hdr 0 ≡ h
    → (slot_of r p).client_info.num_tx ≡ t
    → (handed (kick_rfr_loop env p n r) ≡ each (rfr_item remote h p) t n (handed r))
      × (wheel_of (kick_rfr_loop env p n r).events ≡ wheel_of r.events)
unfolding kick_rfr_loop
kick_rfr_loop-handed env p remote h zero t r to first num = (refl, refl)
kick_rfr_loop-handed env p remote h (suc n) t r to first num =
    let q = kick_rfr_one env p r in
    let s = kick_rfr_one-Sends env p r in
    let one = kick_rfr_one-handed env p r in
    let rest =
      kick_rfr_loop-handed env p remote h n (t + 1) q (remote-Sends r q p 1 s ∙ to)
        (hdr-Sends r q p 1 s ∙ first) (num_tx-Sends r q p 1 s ∙ ap (λ k. k + 1) num) in
    let item : rfr_item (session_of r p).remote_session_num
          ((slot_of r p).client_info.resp_msgbuf.hdr 0) p (slot_of r p).client_info.num_tx
        ≡ rfr_item remote h p t =
      ap
        (λ k.
          rfr_item k ((slot_of r p).client_info.resp_msgbuf.hdr 0) p
            (slot_of r p).client_info.num_tx)
        to
      ∙ ap (λ g. rfr_item remote g p (slot_of r p).client_info.num_tx) first
      ∙ ap (rfr_item remote h p) num in
    (
      rest.0 ∙ ap (each (rfr_item remote h p) (t + 1) n) (one.0 ∙ ap (λ x. x ∷ handed r) item),
      rest.1 ∙ one.1,
    )

-- With credits and response packets left to ask for, `kick_rfr_st` does the same with the requests for
-- response, which all go to the transport: one for each of the next numbers.
pub kick_rfr_st-packets :
    (env : Env) (r : Rpc) (p : Ref)
    → 0 < (session_of r p).credits
    → (slot_of r p).client_info.num_tx < slot_wire_pkts (slot_of r p)
    → let q : Rpc = kick_rfr_st env r p in
      let n : ℕ = rfr_quota r p in
      let t : ℕ = (slot_of r p).client_info.num_tx in
      (0 < n)
      × (t + n ≤ slot_wire_pkts (slot_of r p))
      × (handed q
          ≡ each
              (rfr_item
                (session_of r p).remote_session_num
                ((slot_of r p).client_info.resp_msgbuf.hdr 0)
                p)
              t
              n
              (handed r))
      × (wheel_of q.events ≡ wheel_of r.events)
      × Sends r q p n
unfolding kick_rfr_st
kick_rfr_st-packets env r p credit more =
    let (sent, waits) =
      kick_rfr_loop-handed env p (session_of r p).remote_session_num
        ((slot_of r p).client_info.resp_msgbuf.hdr 0) (rfr_quota r p)
        (slot_of r p).client_info.num_tx r refl refl refl in
    (ground (arith, credit, more), ground (arith, more), sent, waits, kick_rfr_st-Sends env r p)
