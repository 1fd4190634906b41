-- ===== src/Rpc/Server/Reassembly.antt =====
-- What a packet of a large request changes at the slot.
use rdma_yuxi.Prelude.{ℕ, ◌+◌, ◌≡◌, ap, ◌∙◌, arith, true, false, ◌==◌, if◌then◌else◌, none}
use rdma_yuxi.Wire.Header.{PktHdr, Traits}
use rdma_yuxi.Rpc.State.{MsgBuffer, Pkt, SSlot, Ref, Rpc, Env, slot_of}
use rdma_yuxi.Rpc.Tx.{enqueue_pkt_tx_burst_st, enqueue_cr_st, drain_tx_batch_and_dma_queue}
use rdma_yuxi.Rpc.Tx.Frame.{SameButTs, enqueue_pkt-SameButTs, enqueue_cr-SameButTs, drain-SameButTs}
use rdma_yuxi.Rpc.Buffers.{alloc_msg_buffer, copy_data_to_msgbuf}
use rdma_yuxi.Rpc.Server.{
  bury_resp_msgbuf_server_st, invoke_req_func, submit_bg_req_st, resend_response, is_in_order_req,
  answer_again, count_large_req, return_credit, store_req_data, finish_large_req,
  process_large_req_one_st,
}

-- What the server keeps of a request under way: its number, the packets counted, and the buffer.
abbrev pub View : Type 0
View = ℕ × ℕ × MsgBuffer

abbrev pub view : SSlot → View
view x = (x.cur_req_num, x.server_info.num_rx, x.server_info.req_msgbuf)

-- A packet in order as it changes this.
abbrev pub taken : Traits → Pkt → View → View
taken tr pkt (q, k, m) =
    if pkt.hdr.pkt_num == 0
    then (
      pkt.hdr.req_num,
      1,
      copy_data_to_msgbuf tr (alloc_msg_buffer tr pkt.hdr.msg_size) pkt.hdr.pkt_num pkt,
    )
    else (q, k + 1, copy_data_to_msgbuf tr m pkt.hdr.pkt_num pkt)

pub view-SameButTs : (r q : Rpc) (p : Ref) → SameButTs r q → view (slot_of q p) ≡ view (slot_of r p)
view-SameButTs r q p h = ap (λ s. view (s.slots p.slot)) (h p.sn)

pub view-drain :
    (r : Rpc) (p : Ref) → view (slot_of (drain_tx_batch_and_dma_queue r) p) ≡ view (slot_of r p)
view-drain r p = view-SameButTs r (drain_tx_batch_and_dma_queue r) p (drain-SameButTs r)

pub view-pkt :
    (env : Env) (r : Rpc) (p : Ref) (i : ℕ)
    → view (slot_of (enqueue_pkt_tx_burst_st env r p i none) p) ≡ view (slot_of r p)
view-pkt env r p i =
    view-SameButTs r (enqueue_pkt_tx_burst_st env r p i none) p
      (enqueue_pkt-SameButTs env r p i none)

pub view-cr :
    (env : Env) (r : Rpc) (p : Ref) (h : PktHdr)
    → view (slot_of (enqueue_cr_st env r p h) p) ≡ view (slot_of r p)
view-cr env r p h = view-SameButTs r (enqueue_cr_st env r p h) p (enqueue_cr-SameButTs env r p h)

pub view-resend :
    (env : Env) (r : Rpc) (p : Ref)
    → view (slot_of (resend_response env r p) p) ≡ view (slot_of r p)
unfolding resend_response
view-resend env r p =
    ground (arith, view-drain (enqueue_pkt_tx_burst_st env r p 0 none) p, view-pkt env r p 0)

pub view-again :
    (env : Env) (r : Rpc) (p : Ref) (pkt : Pkt)
    → view (slot_of (answer_again env r p pkt) p) ≡ view (slot_of r p)
unfolding answer_again
view-again env r p pkt = ground (arith, view-cr env r p pkt.hdr, view-resend env r p)

pub view-credit :
    (env : Env) (r : Rpc) (p : Ref) (pkt : Pkt)
    → view (slot_of (return_credit env r p pkt) p) ≡ view (slot_of r p)
unfolding return_credit
view-credit env r p pkt = ground (arith, view-cr env r p pkt.hdr)

pub view-finish :
    (env : Env) (r : Rpc) (p : Ref) (pkt : Pkt)
    → view (slot_of (finish_large_req env r p pkt) p) ≡ view (slot_of r p)
unfolding finish_large_req invoke_req_func submit_bg_req_st
view-finish env r p pkt = ground arith

pub view-store :
    (env : Env) (r : Rpc) (p : Ref) (pkt : Pkt)
    → let v : View = view (slot_of r p) in
      view (slot_of (store_req_data env r p pkt) p)
      ≡ (v.0, v.1, copy_data_to_msgbuf env.traits v.2 pkt.hdr.pkt_num pkt)
unfolding store_req_data
view-store env r p pkt = ground arith

pub view-count :
    (env : Env) (r : Rpc) (p : Ref) (pkt : Pkt)
    → view (slot_of (count_large_req env r p pkt) p) ≡ (
        if pkt.hdr.pkt_num == 0
        then (pkt.hdr.req_num, 1, alloc_msg_buffer env.traits pkt.hdr.msg_size)
        else (
          (slot_of r p).cur_req_num,
          (slot_of r p).server_info.num_rx + 1,
          (slot_of r p).server_info.req_msgbuf,
        ))
unfolding count_large_req bury_resp_msgbuf_server_st
view-count env r p pkt = ground arith

-- A packet in order is taken; any other changes nothing of this.
pub view-taken :
    (env : Env) (r : Rpc) (p : Ref) (pkt : Pkt)
    → is_in_order_req (slot_of r p) pkt.hdr ≡ true
    → view (slot_of (process_large_req_one_st env r p pkt) p)
      ≡ taken env.traits pkt (view (slot_of r p))
unfolding process_large_req_one_st
view-taken env r p pkt e = rw e (
    view-finish env stored p pkt
    ∙ view-store env credited p pkt
    ∙ ap copied (view-credit env counted p pkt ∙ view-count env r p pkt)
    ∙ ground arith)
  where
    counted : Rpc
    counted = count_large_req env r p pkt

    credited : Rpc
    credited = return_credit env counted p pkt

    stored : Rpc
    stored = store_req_data env credited p pkt

    copied : View → View
    copied v = (v.0, v.1, copy_data_to_msgbuf env.traits v.2 pkt.hdr.pkt_num pkt)

pub view-other :
    (env : Env) (r : Rpc) (p : Ref) (pkt : Pkt)
    → is_in_order_req (slot_of r p) pkt.hdr ≡ false
    → view (slot_of (process_large_req_one_st env r p pkt) p) ≡ view (slot_of r p)
unfolding process_large_req_one_st
view-other env r p pkt e = rw e (view-again env r p pkt)
