-- ===== src/Rpc/Kick/Sends.antt =====
-- What a kick does to the sessions: it spends one credit for each packet that it counts as sent,
-- and leaves all else but timestamps and the wheel's bookkeeping alone.
use rdma_yuxi.Prelude.{
  ℕ, zero, suc, ◌+◌, ◌-◌, ◌%◌, subst, ◌≡◌, refl, ap, ◌∙◌, Bool, true, false, ◌&&◌, ◌==◌,
  if◌then◌else◌, some, arith, min,
}
use rdma_yuxi.Wire.Header.{session_credits}
use rdma_yuxi.Rpc.State.{ClientInfo, SSlot, Session, Ref, Rpc, Env, slot_of, session_of, tx_buf}
use rdma_yuxi.Rpc.Tx.{enqueue_pkt_tx_burst_st, enqueue_wheel_req_st, enqueue_rfr_st}
use rdma_yuxi.Rpc.Tx.Frame.{SameButTs, enqueue_pkt-SameButTs, enqueue_rfr-SameButTs}
use rdma_yuxi.Rpc.Kick.{
  count_tx, kick_req_one, kick_req_loop, kick_req_st, kick_rfr_one, kick_rfr_loop, kick_rfr_st,
  slot_wire_pkts, can_bypass_wheel,
}

-- A slot without what sending changes.
abbrev pub still : SSlot → SSlot
still x = record x {
  client_info = record ci { num_tx = 0; in_wheel = λ _. false; wheel_count = 0; tx_ts = λ _. 0 };
}
  where
    ci : ClientInfo
    ci = x.client_info

-- A session without its credits and slots.
abbrev pub still_session : Session → Session
still_session s = record s { credits = 0; slots = λ _. still (s.slots 0) }

-- `q` is `r` after `n` packets of the slot `p` were sent, as session `sn` and its slot `i` show.
abbrev pub Sends : Rpc → Rpc → Ref → ℕ → Type 0
Sends r q p n =
    (sn i : ℕ)
    → (still_session (q.sessions sn) ≡ still_session (r.sessions sn))
      × (still ((q.sessions sn).slots i) ≡ still ((r.sessions sn).slots i))
      × ((q.sessions sn).credits
          ≡ (if p.sn == sn then (r.sessions sn).credits - n else (r.sessions sn).credits))
      × (((q.sessions sn).slots i).client_info.num_tx ≡ (
          if p.sn == sn && p.slot == i
          then ((r.sessions sn).slots i).client_info.num_tx + n
          else ((r.sessions sn).slots i).client_info.num_tx))

pub SameButTs-Sends : (r q : Rpc) (p : Ref) → SameButTs r q → Sends r q p 0
SameButTs-Sends r q p h sn i = (
  ap still_session (h sn),
  ap (λ s. still (s.slots i)) (h sn),
  ground (arith, ap Session.credits (h sn)),
  ground (arith, ap (λ s. (s.slots i).client_info.num_tx) (h sn)),
)

count_tx-Sends : (r : Rpc) (p : Ref) → Sends r (count_tx r p) p 1
unfolding count_tx
count_tx-Sends r p sn i = (ground arith, ground arith, ground arith, ground arith)

Sends-trans :
    (r q t : Rpc) (p : Ref) (m n : ℕ) → Sends r q p m → Sends q t p n → Sends r t p (m + n)
Sends-trans r q t p m n h k sn i = (
  (k sn i).0 ∙ (h sn i).0,
  (k sn i).1 ∙ (h sn i).1,
  ground (arith, h sn i, k sn i),
  ground (arith, h sn i, k sn i),
)

enqueue_wheel-Sends :
    (env : Env) (r : Rpc) (p : Ref) (n : ℕ) → Sends r (enqueue_wheel_req_st env r p n) p 0
unfolding enqueue_wheel_req_st
enqueue_wheel-Sends env r p n sn i = (ground arith, ground arith, ground arith, ground arith)

pub kick_req_one-Sends :
    (env : Env) (bypass : Bool) (p : Ref) (r : Rpc) → Sends r (kick_req_one env bypass p r) p 1
unfolding kick_req_one
kick_req_one-Sends env true p r =
    let t : ℕ = (slot_of r p).client_info.num_tx in
    let q = enqueue_pkt_tx_burst_st env r p t (some (p, t % session_credits)) in
    Sends-trans r q (count_tx q p) p 0 1
      (SameButTs-Sends r q p (enqueue_pkt-SameButTs env r p t (some (p, t % session_credits))))
      (count_tx-Sends q p)
kick_req_one-Sends env false p r =
    let q = enqueue_wheel_req_st env r p (slot_of r p).client_info.num_tx in
    Sends-trans r q (count_tx q p) p 0 1 (enqueue_wheel-Sends env r p _) (count_tx-Sends q p)

-- One round, then `n` more.
Sends-suc : (r q t : Rpc) (p : Ref) (n : ℕ) → Sends r q p 1 → Sends q t p n → Sends r t p (suc n)
Sends-suc r q t p n h k =
    subst (Sends r t p) (let e : 1 + n ≡ suc n = omega arith in e) (Sends-trans r q t p 1 n h k)

Sends-zero : (r : Rpc) (p : Ref) → Sends r r p 0
Sends-zero r p sn i = (refl, refl, ground arith, ground arith)

kick_req_loop-Sends :
    (env : Env) (bypass : Bool) (p : Ref) (n : ℕ) (r : Rpc)
    → Sends r (kick_req_loop env bypass p n r) p n
unfolding kick_req_loop
kick_req_loop-Sends env bypass p zero r = Sends-zero r p
kick_req_loop-Sends env bypass p (suc n) r =
    let q = kick_req_one env bypass p r in
    Sends-suc r q (kick_req_loop env bypass p n q) p n (kick_req_one-Sends env bypass p r)
      (kick_req_loop-Sends env bypass p n q)

pub kick_rfr_one-Sends : (env : Env) (p : Ref) (r : Rpc) → Sends r (kick_rfr_one env p r) p 1
unfolding kick_rfr_one
kick_rfr_one-Sends env p r =
    let h = (slot_of r p).client_info.resp_msgbuf.hdr 0 in
    let q = enqueue_rfr_st env r p h in
    Sends-trans r q (count_tx q p) p 0 1 (SameButTs-Sends r q p (enqueue_rfr-SameButTs env r p h))
      (count_tx-Sends q p)

kick_rfr_loop-Sends :
    (env : Env) (p : Ref) (n : ℕ) (r : Rpc) → Sends r (kick_rfr_loop env p n r) p n
unfolding kick_rfr_loop
kick_rfr_loop-Sends env p zero r = Sends-zero r p
kick_rfr_loop-Sends env p (suc n) r =
    let q = kick_rfr_one env p r in
    Sends-suc r q (kick_rfr_loop env p n q) p n (kick_rfr_one-Sends env p r)
      (kick_rfr_loop-Sends env p n q)

-- How many request packets `kick_req_st` sends, and how many requests for response `kick_rfr_st`.
abbrev pub req_quota : Rpc → Ref → ℕ
req_quota r p =
    min (session_of r p).credits
      ((tx_buf (slot_of r p)).num_pkts - (slot_of r p).client_info.num_tx)

abbrev pub rfr_quota : Rpc → Ref → ℕ
rfr_quota r p =
    min (session_of r p).credits (slot_wire_pkts (slot_of r p) - (slot_of r p).client_info.num_tx)

-- `kick_req_st` sends as many packets of the request as credits and packets are left: it spends
-- that many credits of the session and raises `num_tx` of the slot by as much. No other session,
-- slot or field of a slot changes, TX timestamps and the wheel's bookkeeping excepted.
pub kick_req_st-Sends :
    (env : Env) (r : Rpc) (p : Ref) → Sends r (kick_req_st env r p) p (req_quota r p)
unfolding kick_req_st
kick_req_st-Sends env r p = kick_req_loop-Sends env (can_bypass_wheel env r p) p (req_quota r p) r

-- `kick_rfr_st` does the same with the requests for response that are left.
pub kick_rfr_st-Sends :
    (env : Env) (r : Rpc) (p : Ref) → Sends r (kick_rfr_st env r p) p (rfr_quota r p)
unfolding kick_rfr_st
kick_rfr_st-Sends env r p = kick_rfr_loop-Sends env p (rfr_quota r p) r

-- A kick with one packet left, and no wait in the wheel.
pub kick_req_st-one :
    (env : Env) (r : Rpc) (p : Ref)
    → req_quota r p ≡ 1
    → can_bypass_wheel env r p ≡ true
    → (slot_of r p).client_info.num_tx ≡ 0
    → kick_req_st env r p ≡ count_tx (enqueue_pkt_tx_burst_st env r p 0 (some (p, 0))) p
unfolding kick_req_st kick_req_loop kick_req_one
kick_req_st-one env r p one bypass first = rw (one, bypass, first) refl
