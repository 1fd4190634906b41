-- ===== src/Rpc/Server.antt =====
-- The server side of the data path: `process_small_req_st` and `process_large_req_one_st` of
-- rpc_impl/rpc_req.cc, `process_rfr_st` of rpc_rfr.cc and `submit_bg_req_st` of rpc_rx.cc.
pub mod Quiet
pub mod Once
pub mod Reassembly
pub mod Message
pub mod Delivery
mod Tests
use rdma_yuxi.Prelude.{
  ℕ, ◌+◌, ◌-◌, ◌*◌, ◌/◌, ◌%◌, ◌^◌, Bool, true, false, not, ◌&&◌, ◌||◌, ltb, leb, ◌==◌,
  if◌then◌else◌, List, [], ◌∷◌, ◌++◌, none,
}
use rdma_yuxi.Wire.Header.{
  PktHdr, PktType, session_req_window, invalid_req_type, msg_size_bits, pkt_num_bits,
}
use rdma_yuxi.Wire.Sizes.{data_size_to_num_pkts, resp_ntoi}
use rdma_yuxi.Rpc.State.{
  MsgBuffer, Pkt, ReqFuncType, foreground, background, TxPtr, null, user, pre_resp, dyn_resp,
  ServerInfo, SSlot, SessionState, connected, Ref, Rpc, Env, slot_of, session_of, set_slot,
  set_server, tx_buf, buf_at, log, run_req_func, bg_req, freed,
}
use rdma_yuxi.Rpc.Tx.{enqueue_pkt_tx_burst_st, enqueue_cr_st, drain_tx_batch_and_dma_queue}
use rdma_yuxi.Rpc.Buffers.{copy_bytes, copy_data_to_msgbuf, fill_hdrs, alloc_msg_buffer}

abbrev pub is_null_ptr : TxPtr → Bool
is_null_ptr null = true
is_null_ptr (user m) = false
is_null_ptr pre_resp = false
is_null_ptr dyn_resp = false

abbrev pub is_dyn_resp : TxPtr → Bool
is_dyn_resp dyn_resp = true
is_dyn_resp null = false
is_dyn_resp (user m) = false
is_dyn_resp pre_resp = false

-- `bury_resp_msgbuf_server_st`
unfoldable pub bury_resp_msgbuf_server_st : Rpc → Ref → Rpc
bury_resp_msgbuf_server_st r p = set_slot released p (record (slot_of r p) { tx_msgbuf = null })
  where
    released : Rpc
    released =
        if is_dyn_resp (slot_of r p).tx_msgbuf
        then log r (freed (slot_of r p).dyn_resp_msgbuf)
        else r

-- `bury_req_msgbuf_server_st`
unfoldable pub bury_req_msgbuf_server_st : Rpc → Ref → Rpc
bury_req_msgbuf_server_st r p =
    set_server (if m.dynamic then log r (freed m) else r) p
      (record si { req_msgbuf = record m { valid = false; dynamic = false } })
  where
    si : ServerInfo
    si = (slot_of r p).server_info

    m : MsgBuffer
    m = si.req_msgbuf

-- `FastRand::next_u32`, as the new seed and the number.
unfoldable pub next_u32 : ℕ → ℕ × ℕ
next_u32 seed = (s, s / 2 ^ 32)
  where
    s : ℕ
    s = (seed * 1103515245 + 12345) % 2 ^ 64

-- `submit_bg_req_st`
unfoldable pub submit_bg_req_st : Env → Rpc → Ref → Rpc
unfolding next_u32
submit_bg_req_st env r p =
    log (record r { rand_seed = (next_u32 r.rand_seed).0 })
      (bg_req ((next_u32 r.rand_seed).1 % env.num_bg_threads) p)

-- The handler of a request runs here, or is handed to a background thread.
unfoldable pub invoke_req_func : Env → Rpc → Ref → ℕ → Rpc
unfolding submit_bg_req_st
invoke_req_func env r p req_type = elim (env.req_func_type req_type) [
  | foreground ↦ log r (run_req_func p req_type (slot_of r p).cur_req_num)
  | background ↦ submit_bg_req_st env r p
]

-- `MsgBuffer(pkthdr, size)`: a static buffer over the received packet.
abbrev pub fake_msg_buffer : Pkt → MsgBuffer
fake_msg_buffer pkt = record {
  valid = true;
  dynamic = false;
  max_data_size = pkt.hdr.msg_size;
  data_size = pkt.hdr.msg_size;
  max_num_pkts = 1;
  num_pkts = 1;
  hdr = λ _. pkt.hdr;
  bytes = pkt.payload;
}

-- The request buffer of a small request, by the handler's mode.
unfoldable pub small_req_msgbuf : Env → Pkt → MsgBuffer
unfolding alloc_msg_buffer copy_bytes
small_req_msgbuf env pkt = elim (env.req_func_type pkt.hdr.req_type) [
  | foreground ↦ fake_msg_buffer pkt
  | background ↦ record m { bytes = copy_bytes m.bytes 0 pkt.payload pkt.hdr.msg_size }
]
  where
    m : MsgBuffer
    m = alloc_msg_buffer env.traits pkt.hdr.msg_size

-- The response, if there is one, is sent again from its first packet.
unfoldable pub resend_response : Env → Rpc → Ref → Rpc
resend_response env r p =
    if is_null_ptr (slot_of r p).tx_msgbuf
    then r
    else drain_tx_batch_and_dma_queue (enqueue_pkt_tx_burst_st env r p 0 none)

-- The slot takes up a new request; its request data say that a response is due.
unfoldable pub take_small_req : Env → Rpc → Ref → Pkt → Rpc
take_small_req env r p pkt = set_slot buried p (record (slot_of buried p) {
  cur_req_num = pkt.hdr.req_num;
  server_info = record si {
    num_rx = 1;
    req_type = pkt.hdr.req_type;
    req_func_type = env.req_func_type pkt.hdr.req_type;
    req_msgbuf = small_req_msgbuf env pkt;
  };
})
  where
    buried : Rpc
    buried = bury_resp_msgbuf_server_st r p

    si : ServerInfo
    si = (slot_of buried p).server_info

-- `process_small_req_st`. A larger number than the slot's is the next one of the slot, as the code
-- asserts.
unfoldable pub process_small_req_st : Env → Rpc → Ref → Pkt → Rpc
process_small_req_st env r p pkt =
    if leb pkt.hdr.req_num (slot_of r p).cur_req_num
    then if ltb pkt.hdr.req_num (slot_of r p).cur_req_num then r else resend_response env r p
    else invoke_req_func env (take_small_req env r p pkt) p pkt.hdr.req_type

-- Is it the next packet of the slot's request, or the first of the next request?
unfoldable pub is_in_order_req : SSlot → PktHdr → Bool
is_in_order_req x h =
    (h.req_num == x.cur_req_num && h.pkt_num == x.server_info.num_rx)
    || (h.req_num == x.cur_req_num + session_req_window && h.pkt_num == 0)

-- A large request's packet out of order: a packet that was already taken is answered again.
unfoldable pub answer_again : Env → Rpc → Ref → Pkt → Rpc
answer_again env r p pkt =
    if not (pkt.hdr.req_num == (slot_of r p).cur_req_num)
      || ltb (slot_of r p).server_info.num_rx pkt.hdr.pkt_num
    then r
    else if not (pkt.hdr.pkt_num == data_size_to_num_pkts env.traits pkt.hdr.msg_size - 1)
    then enqueue_cr_st env r p pkt.hdr
    else resend_response env r p

-- The first packet opens the request, a later one is counted.
unfoldable pub count_large_req : Env → Rpc → Ref → Pkt → Rpc
count_large_req env r p pkt =
    if pkt.hdr.pkt_num == 0
    then set_slot buried p (record (slot_of buried p) {
      cur_req_num = pkt.hdr.req_num;
      server_info = record bi {
        num_rx = 1;
        req_msgbuf = alloc_msg_buffer env.traits pkt.hdr.msg_size;
      };
    })
    else set_server r p (record si { num_rx = si.num_rx + 1 })
  where
    buried : Rpc
    buried = bury_resp_msgbuf_server_st r p

    bi : ServerInfo
    bi = (slot_of buried p).server_info

    si : ServerInfo
    si = (slot_of r p).server_info

-- Every packet but the last gets a credit return.
unfoldable pub return_credit : Env → Rpc → Ref → Pkt → Rpc
return_credit env r p pkt =
    if pkt.hdr.pkt_num == (slot_of r p).server_info.req_msgbuf.num_pkts - 1
    then r
    else enqueue_cr_st env r p pkt.hdr

-- The packet's data go to their place in the request buffer.
unfoldable pub store_req_data : Env → Rpc → Ref → Pkt → Rpc
store_req_data env r p pkt =
    set_server r p
      (record si { req_msgbuf = copy_data_to_msgbuf env.traits si.req_msgbuf pkt.hdr.pkt_num pkt })
  where
    si : ServerInfo
    si = (slot_of r p).server_info

-- With the last packet the handler is invoked.
unfoldable pub finish_large_req : Env → Rpc → Ref → Pkt → Rpc
finish_large_req env r p pkt =
    if si.num_rx == si.req_msgbuf.num_pkts
    then invoke_req_func env
        (set_server r p (record si {
          req_type = pkt.hdr.req_type;
          req_func_type = env.req_func_type pkt.hdr.req_type;
        }))
        p pkt.hdr.req_type
    else r
  where
    si : ServerInfo
    si = (slot_of r p).server_info

-- `process_large_req_one_st`, where the request buffer could be allocated, as the code asserts.
unfoldable pub process_large_req_one_st : Env → Rpc → Ref → Pkt → Rpc
process_large_req_one_st env r p pkt =
    if is_in_order_req (slot_of r p) pkt.hdr
    then finish_large_req env
        (store_req_data env (return_credit env (count_large_req env r p pkt) p pkt) p pkt) p pkt
    else answer_again env r p pkt

-- `process_rfr_st`
unfoldable pub process_rfr_st : Env → Rpc → Ref → PktHdr → Rpc
process_rfr_st env r p h =
    if h.req_num == (slot_of r p).cur_req_num && h.pkt_num == si.num_rx
    then enqueue_pkt_tx_burst_st env (set_server r p (record si { num_rx = si.num_rx + 1 })) p i
        none
    else if ltb h.req_num (slot_of r p).cur_req_num || ltb si.num_rx h.pkt_num
    then r
    else drain_tx_batch_and_dma_queue (enqueue_pkt_tx_burst_st env r p i none)
  where
    si : ServerInfo
    si = (slot_of r p).server_info

    i : ℕ
    i = resp_ntoi h.pkt_num si.sav_num_req_pkts
