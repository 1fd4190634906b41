-- ===== src/Rpc/Reply.antt =====
-- The server's responses: `enqueue_response` of rpc_impl/rpc_resp.cc and the response queue of
-- rpc_impl/rpc_queues.cc.
use rdma_yuxi.Prelude.{
  ℕ, ◌+◌, ◌-◌, ◌%◌, ◌^◌, Bool, true, false, ◌==◌, if◌then◌else◌, List, [], ◌∷◌, ◌++◌, none,
}
use rdma_yuxi.Wire.Header.{PktHdr, PktType, invalid_req_type, msg_size_bits, pkt_num_bits}
use rdma_yuxi.Rpc.State.{
  MsgBuffer, TxPtr, null, user, pre_resp, dyn_resp, ServerInfo, SSlot, SessionState, connected, Ref,
  Rpc, Env, slot_of, session_of, set_slot, set_server,
}
use rdma_yuxi.Rpc.Tx.{enqueue_pkt_tx_burst_st}
use rdma_yuxi.Rpc.Buffers.{fill_hdrs}
use rdma_yuxi.Rpc.Server.{bury_req_msgbuf_server_st}

abbrev pub is_connected : SessionState → Bool
is_connected connected = true
is_connected _ = false

-- The response's first header, in the slot's state with the request buried.
unfoldable pub resp_hdr : Rpc → Ref → MsgBuffer → PktHdr
resp_hdr r p m = record {
  req_type = (slot_of r p).server_info.req_type % 2 ^ 8;
  msg_size = m.data_size % 2 ^ msg_size_bits;
  dest_session_num = (session_of r p).remote_session_num;
  pkt_type = PktType.resp;
  pkt_num = ((slot_of r p).server_info.sav_num_req_pkts + 2 ^ pkt_num_bits - 1) % 2 ^ pkt_num_bits;
  req_num = (slot_of r p).cur_req_num;
  magic = (m.hdr 0).magic;
}

-- A write through the pointer to a response buffer.
abbrev pub write_buf : SSlot → TxPtr → (MsgBuffer → MsgBuffer) → SSlot
write_buf x null f = x
write_buf x (user m) f = record x { tx_msgbuf = user (f m) }
write_buf x pre_resp f = record x { tx_msgbuf = pre_resp; pre_resp_msgbuf = f x.pre_resp_msgbuf }
write_buf x dyn_resp f = record x { tx_msgbuf = dyn_resp; dyn_resp_msgbuf = f x.dyn_resp_msgbuf }

-- What `enqueue_response` keeps of the request before it is buried.
unfoldable pub bury_req : Rpc → Ref → Rpc
bury_req r p =
    bury_req_msgbuf_server_st
      (set_server r p (record si { sav_num_req_pkts = si.req_msgbuf.num_pkts })) p
  where
    si : ServerInfo
    si = (slot_of r p).server_info

-- The response is marked valid, with its headers filled in, and no longer due.
unfoldable pub set_response : Rpc → Ref → TxPtr → Rpc
unfolding fill_hdrs
set_response r p m = set_slot r p (record (write_buf x m (λ b. fill_hdrs b (resp_hdr r p b))) {
  server_info = record si { req_type = invalid_req_type };
})
  where
    x : SSlot
    x = slot_of r p

    si : ServerInfo
    si = x.server_info

-- `enqueue_response` in the dispatch thread; in a session under reset the response is only noted.
unfoldable pub enqueue_response_st : Env → Rpc → Ref → TxPtr → Rpc
enqueue_response_st env r p m =
    if is_connected (session_of r p).state
    then enqueue_pkt_tx_burst_st env (set_response (bury_req r p) p m) p 0 none
    else set_server (bury_req r p) p (record si { req_type = invalid_req_type })
  where
    si : ServerInfo
    si = (slot_of (bury_req r p) p).server_info

-- `enqueue_response` as the thread `etid` calls it.
unfoldable pub enqueue_response : Env → Rpc → ℕ → Ref → TxPtr → Rpc
enqueue_response env r etid p m =
    if etid == r.creator_etid
    then enqueue_response_st env r p m
    else record r { bg_enqueue_response = r.bg_enqueue_response ++ ((p, m) ∷ []) }

unfoldable pub bg_response_loop : Env → List (Ref × TxPtr) → Rpc → Rpc
bg_response_loop env [] r = r
bg_response_loop env ((p, m) ∷ l) r = bg_response_loop env l (enqueue_response_st env r p m)

-- `process_bg_queues_enqueue_response_st`
unfoldable pub process_bg_queues_enqueue_response_st : Env → Rpc → Rpc
process_bg_queues_enqueue_response_st env r =
    bg_response_loop env r.bg_enqueue_response (record r { bg_enqueue_response = [] })
