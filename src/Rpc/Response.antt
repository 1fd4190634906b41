-- ===== src/Rpc/Response.antt =====
-- Responses at the client: `process_resp_one_st` of rpc_impl/rpc_resp.cc, which also completes the
-- request.
pub mod Parts
pub mod Delivery
pub mod Clocked
mod Tests
use mathlib.Core.List.{tail}
use rdma_yuxi.Prelude.{ℕ, ◌-◌, ◌∷◌, leb, ◌==◌, if◌then◌else◌, List, [], update}
use rdma_yuxi.Wire.Header.{invalid_bg_etid}
use rdma_yuxi.Wire.Sizes.{resp_ntoi}
use rdma_yuxi.Rpc.State.{
  MsgBuffer, Pkt, ClientInfo, Session, Ref, EnqReqArgs, run_cont, bg_resp, Rpc, Env, slot_of,
  session_of, set_session, set_client, with_slot, tx_buf, log, null,
}
use rdma_yuxi.Rpc.Buffers.{resize_msg_buffer, copy_bytes, copy_data_to_msgbuf}
use rdma_yuxi.Rpc.Kick.{kick_rfr_st, slot_wire_pkts}
use rdma_yuxi.Rpc.Client.{remove_ref, enqueue_request_st, in_order_client, count_rx}

-- The slot is freed: the request buffer forgotten, the request taken off the active list, and the
-- slot pushed on the free slots.
unfoldable pub free_slot : Rpc → Ref → Rpc
free_slot r p =
    record (set_session r p.sn
      (record (with_slot s p.slot (record (slot_of r p) { tx_msgbuf = null })) {
        sslot_free_vec = p.slot ∷ s.sslot_free_vec;
      })) { active = remove_ref p r.active }
  where
    s : Session
    s = session_of r p

-- One request of the backlog is started in the freed slot, and then popped.
unfoldable pub start_backlog : Env → Rpc → ℕ → List EnqReqArgs → Rpc
start_backlog env r sn [] = r
start_backlog env r sn (args ∷ rest) =
    set_session q sn (record s { enq_req_backlog = tail s.enq_req_backlog })
  where
    q : Rpc
    q = enqueue_request_st env r args

    s : Session
    s = q.sessions sn

-- The continuation runs here, or is handed to the background thread that sent the request.
unfoldable pub invoke_cont : Rpc → ClientInfo → Rpc
invoke_cont r ci = log r (
    if ci.cont_etid == invalid_bg_etid
    then run_cont ci.cont_func ci.tag
    else bg_resp ci.cont_etid ci.cont_func ci.tag)

-- The end of `process_resp_one_st`, when the whole response is there.
unfoldable pub complete : Env → Rpc → Ref → Rpc
complete env r p =
    invoke_cont (start_backlog env (free_slot r p) p.sn (session_of r p).enq_req_backlog)
      (slot_of r p).client_info

abbrev pub set_resp : Rpc → Ref → MsgBuffer → Rpc
set_resp r p m = set_client r p (record ci { resp_msgbuf = m })
  where
    ci : ClientInfo
    ci = (slot_of r p).client_info

-- The response in one packet: its header and data are copied.
unfoldable pub store_small_resp : Env → Rpc → Ref → Pkt → Rpc
store_small_resp env r p pkt =
    set_resp r p (record (resize_msg_buffer env.traits m pkt.hdr.msg_size) {
      hdr = update m.hdr 0 pkt.hdr;
      bytes = copy_bytes m.bytes 0 pkt.payload pkt.hdr.msg_size;
    })
  where
    m : MsgBuffer
    m = (slot_of r p).client_info.resp_msgbuf

-- The first packet of a larger response sizes the buffer and gives it header 0.
unfoldable pub size_resp : Env → Rpc → Ref → Pkt → Rpc
size_resp env r p pkt =
    if pkt.hdr.pkt_num == (tx_buf (slot_of r p)).num_pkts - 1
    then set_resp r p
        (record (resize_msg_buffer env.traits m pkt.hdr.msg_size) { hdr = update m.hdr 0 pkt.hdr })
    else r
  where
    m : MsgBuffer
    m = (slot_of r p).client_info.resp_msgbuf

-- The remaining requests for response are sent before the data is copied.
unfoldable pub request_rest : Env → Rpc → Ref → Rpc
request_rest env r p =
    if (slot_of r p).client_info.num_tx == slot_wire_pkts (slot_of r p)
    then r
    else kick_rfr_st env r p

unfoldable pub store_large_resp : Env → Rpc → Ref → Pkt → Rpc
store_large_resp env r p pkt = set_resp q p (
    copy_data_to_msgbuf env.traits (slot_of q p).client_info.resp_msgbuf
      (resp_ntoi pkt.hdr.pkt_num (tx_buf (slot_of q p)).num_pkts) pkt)
  where
    q : Rpc
    q = request_rest env (size_resp env r p pkt) p

unfoldable pub finish_large_resp : Env → Rpc → Ref → Rpc
finish_large_resp env r p =
    if (slot_of r p).client_info.num_rx == slot_wire_pkts (slot_of r p) then complete env r p else r

-- What follows the bookkeeping of a packet in order.
unfoldable pub take_resp : Env → Rpc → Ref → Pkt → Rpc
take_resp env r p pkt =
    if leb pkt.hdr.msg_size env.max_data_per_pkt
    then complete env (store_small_resp env r p pkt) p
    else finish_large_resp env (store_large_resp env r p pkt) p

-- `process_resp_one_st`
unfoldable pub process_resp_one_st : Env → Rpc → Ref → Pkt → ℕ → Rpc
process_resp_one_st env r p pkt rx_tsc =
    if (in_order_client r p pkt.hdr).0
    then take_resp env (count_rx checked p pkt.hdr rx_tsc) p pkt
    else checked
  where
    checked : Rpc
    checked = (in_order_client r p pkt.hdr).1
