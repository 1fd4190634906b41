-- ===== src/Rpc/Server/Once.antt =====
-- How often a server slot's request handler is invoked.
use rdma_yuxi.Rpc.Reply.{bury_req, enqueue_response_st, set_response}
use rdma_yuxi.Prelude.{
  ℕ, ◌+◌, ◌≤◌, ◌≡◌, ◌≢◌, inl, inr, ap, arith, true, leb, ◌==◌, if◌then◌else◌, none, Bool-cases,
}
use rdma_yuxi.Wire.Header.{PktHdr}
use rdma_yuxi.Wire.Sizes.{resp_ntoi}
use rdma_yuxi.Rpc.State.{
  Pkt, TxPtr, null, user, pre_resp, dyn_resp, SSlot, Ref, Rpc, Env, slot_of, set_server, ServerInfo,
}
use rdma_yuxi.Rpc.Tx.{enqueue_pkt_tx_burst_st}
use rdma_yuxi.Rpc.Tx.Runs.{runs}
use rdma_yuxi.Rpc.Buffers.{copy_data_to_msgbuf, alloc_msg_buffer}
use rdma_yuxi.Rpc.Server.{
  bury_resp_msgbuf_server_st, bury_req_msgbuf_server_st, invoke_req_func, submit_bg_req_st,
  take_small_req, process_small_req_st, is_in_order_req, answer_again, count_large_req,
  return_credit, store_req_data, finish_large_req, process_large_req_one_st, process_rfr_st,
}
use rdma_yuxi.Rpc.Server.Quiet.{
  progress, mark, IsQuiet, IsOnce, pkt-IsQuiet, cr-IsQuiet, drain-IsQuiet, bury_resp-IsQuiet,
  resend-IsQuiet, invoke, take_small,
}

-- A request in one packet: its handler is invoked if its number is larger than the slot's, and then
-- the slot's number is the request's.
pub process_small_req_st-IsOnce :
    (env : Env) (r : Rpc) (p : Ref) (pkt : Pkt)
    → leb pkt.hdr.msg_size env.max_data_per_pkt ≡ true
    → IsOnce r (process_small_req_st env r p pkt) p
unfolding process_small_req_st
process_small_req_st-IsOnce env r p pkt h = ground (
  arith,
  resend-IsQuiet env r p,
  take_small env r p pkt h,
  invoke env (take_small_req env r p pkt) p pkt.hdr.req_type,
  ap progress (invoke env (take_small_req env r p pkt) p pkt.hdr.req_type).1,
)

-- A packet of a large request is counted: the slot after it.
count_large :
    (env : Env) (r : Rpc) (p : Ref) (pkt : Pkt)
    → runs p (count_large_req env r p pkt).events ≡ runs p r.events
unfolding count_large_req
count_large env r p pkt = ground (arith, bury_resp-IsQuiet r p)

-- Before its first request, a slot gets no packet under its initial number.
abbrev pub IsNumbered : SSlot → PktHdr → Type 0
IsNumbered x h = x.server_info.num_rx ≡ 0 → h.req_num ≢ x.cur_req_num

-- It takes the slot forward: the request's next packet, or a later request's first.
count_large_progress :
    (env : Env) (r : Rpc) (p : Ref) (pkt : Pkt)
    → IsNumbered (slot_of r p) pkt.hdr
    → is_in_order_req (slot_of r p) pkt.hdr ≡ true
    → progress (slot_of r p)
        + (if (slot_of (count_large_req env r p pkt) p).server_info.num_rx
              == (slot_of (count_large_req env r p pkt) p).server_info.req_msgbuf.num_pkts
            then 1
            else 0)
      ≤ progress (slot_of (count_large_req env r p pkt) p)
unfolding count_large_req is_in_order_req alloc_msg_buffer bury_resp_msgbuf_server_st
count_large_progress env r p pkt num h = ground arith

credit-IsQuiet :
    (env : Env) (r : Rpc) (p : Ref) (pkt : Pkt) → IsQuiet r (return_credit env r p pkt) p
unfolding return_credit
credit-IsQuiet env r p pkt =
    (ground (arith, cr-IsQuiet env r p pkt.hdr), ground (arith, cr-IsQuiet env r p pkt.hdr))

store-IsQuiet :
    (env : Env) (r : Rpc) (p : Ref) (pkt : Pkt) → IsQuiet r (store_req_data env r p pkt) p
unfolding store_req_data copy_data_to_msgbuf
store-IsQuiet env r p pkt = (ground arith, ground arith)

-- The last packet invokes the handler.
finish_large :
    (env : Env) (r : Rpc) (p : Ref) (pkt : Pkt)
    → (mark (slot_of (finish_large_req env r p pkt) p) ≡ mark (slot_of r p))
      × (runs p (finish_large_req env r p pkt).events
          ≡ runs p r.events
            + (if (slot_of r p).server_info.num_rx == (slot_of r p).server_info.req_msgbuf.num_pkts
                then 1
                else 0))
unfolding finish_large_req invoke_req_func submit_bg_req_st
finish_large env r p pkt = (ground arith, ground arith)

again : (env : Env) (r : Rpc) (p : Ref) (pkt : Pkt) → IsQuiet r (answer_again env r p pkt) p
unfolding answer_again
again env r p pkt = (
  ground (arith, cr-IsQuiet env r p pkt.hdr, resend-IsQuiet env r p),
  ground (arith, cr-IsQuiet env r p pkt.hdr, resend-IsQuiet env r p),
)

-- A packet of a larger request covers the handler it invokes.
pub process_large_req_one_st-IsOnce :
    (env : Env) (r : Rpc) (p : Ref) (pkt : Pkt)
    → IsNumbered (slot_of r p) pkt.hdr
    → IsOnce r (process_large_req_one_st env r p pkt) p
unfolding process_large_req_one_st
process_large_req_one_st-IsOnce env r p pkt num =
    elim (Bool-cases (is_in_order_req (slot_of r p) pkt.hdr)) [
      | inl e ↦ rw e (
          ground (
            arith,
            count_large env r p pkt,
            count_large_progress env r p pkt num e,
            credit-IsQuiet env counted p pkt,
            store-IsQuiet env credited p pkt,
            finish_large env stored p pkt,
          ))
      | inr e ↦ rw e (ground (arith, again env r p pkt))
    ]
  where
    counted : Rpc
    counted = count_large_req env r p pkt

    credited : Rpc
    credited = return_credit env counted p pkt

    stored : Rpc
    stored = store_req_data env credited p pkt

-- A packet in order invokes the handler if it is the last one of its request.
pub process_large-runs :
    (env : Env) (r : Rpc) (p : Ref) (pkt : Pkt)
    → is_in_order_req (slot_of r p) pkt.hdr ≡ true
    → let x : SSlot = slot_of (process_large_req_one_st env r p pkt) p in
      runs p (process_large_req_one_st env r p pkt).events
      ≡ runs p r.events
        + (if x.server_info.num_rx == x.server_info.req_msgbuf.num_pkts then 1 else 0)
unfolding process_large_req_one_st
process_large-runs env r p pkt e = rw e (
    ground (
      arith,
      count_large env r p pkt,
      credit-IsQuiet env (count_large_req env r p pkt) p pkt,
      store-IsQuiet env (return_credit env (count_large_req env r p pkt) p pkt) p pkt,
      finish_large env
          (store_req_data env (return_credit env (count_large_req env r p pkt) p pkt) p pkt) p pkt,
    ))

-- A request for response moves no request forward.
pub process_rfr_st-IsOnce :
    (env : Env) (r : Rpc) (p : Ref) (h : PktHdr) → IsOnce r (process_rfr_st env r p h) p
unfolding process_rfr_st
process_rfr_st-IsOnce env r p h = ground (
  arith,
  pkt-IsQuiet env r p i,
  drain-IsQuiet (enqueue_pkt_tx_burst_st env r p i none) p,
  pkt-IsQuiet env counted p i,
)
  where
    si : ServerInfo
    si = (slot_of r p).server_info

    i : ℕ
    i = resp_ntoi h.pkt_num si.sav_num_req_pkts

    counted : Rpc
    counted = set_server r p (record si { num_rx = si.num_rx + 1 })

bury_req-IsQuiet : (r : Rpc) (p : Ref) → IsQuiet r (bury_req r p) p
unfolding bury_req bury_req_msgbuf_server_st
bury_req-IsQuiet r p = (ground arith, ground arith)

set_response-IsQuiet : (r : Rpc) (p : Ref) (m : TxPtr) → IsQuiet r (set_response r p m) p
unfolding set_response
set_response-IsQuiet r p null = (ground arith, ground arith)
set_response-IsQuiet r p (user b) = (ground arith, ground arith)
set_response-IsQuiet r p pre_resp = (ground arith, ground arith)
set_response-IsQuiet r p dyn_resp = (ground arith, ground arith)

-- A response invokes no handler.
pub enqueue_response_st-IsOnce :
    (env : Env) (r : Rpc) (p : Ref) (m : TxPtr) → IsOnce r (enqueue_response_st env r p m) p
unfolding enqueue_response_st
enqueue_response_st-IsOnce env r p m = ground (
  arith,
  bury_req-IsQuiet r p,
  set_response-IsQuiet (bury_req r p) p m,
  pkt-IsQuiet env (set_response (bury_req r p) p m) p 0,
)

-- What the server does at a slot: it takes a request packet, by the size of its message, takes a
-- request for response, or responds.
pub data ServerStep (env : Env) (p : Ref) : Rpc → Rpc → Type 0 where
  small :
      (r : Rpc) (pkt : Pkt)
      → leb pkt.hdr.msg_size env.max_data_per_pkt ≡ true
      → ServerStep env p r (process_small_req_st env r p pkt)
  large :
      (r : Rpc) (pkt : Pkt)
      → IsNumbered (slot_of r p) pkt.hdr
      → ServerStep env p r (process_large_req_one_st env r p pkt)
  rfr : (r : Rpc) (h : PktHdr) → ServerStep env p r (process_rfr_st env r p h)
  respond : (r : Rpc) (m : TxPtr) → ServerStep env p r (enqueue_response_st env r p m)

pub data ServerSteps (env : Env) (p : Ref) : Rpc → Rpc → Type 0 where
  done : (r : Rpc) → ServerSteps env p r r
  step : (r q t : Rpc) → ServerStep env p r q → ServerSteps env p q t → ServerSteps env p r t

once : (env : Env) (p : Ref) (r q : Rpc) → ServerStep env p r q → IsOnce r q p
once env p _ _ (small r pkt h) = process_small_req_st-IsOnce env r p pkt h
once env p _ _ (large r pkt h) = process_large_req_one_st-IsOnce env r p pkt h
once env p _ _ (rfr r h) = process_rfr_st-IsOnce env r p h
once env p _ _ (respond r m) = enqueue_response_st-IsOnce env r p m

-- Whatever packets arrive, in whatever order and however often, a slot's handler is invoked at most
-- once for each request number that the slot moves up by, the current one included only when its
-- packets are all there. Before a slot has counted its first packet, no packet of a large request
-- comes under the slot's initial number, which no request has.
pub ServerSteps-IsOnce : (env : Env) (p : Ref) (r q : Rpc) → ServerSteps env p r q → IsOnce r q p
ServerSteps-IsOnce env p _ _ (done r) = omega arith
ServerSteps-IsOnce env p _ _ (step r q t h k) =
    omega (arith, once env p r q h, ServerSteps-IsOnce env p q t k)
