-- ===== src/Peer/Hello.antt =====
-- What the server's request handler sends.
use rdma_yuxi.Rpc.Reply.{
  bury_req, enqueue_response, enqueue_response_st, is_connected, resp_hdr, set_response,
}
use rdma_yuxi.Prelude.{
  ℕ, ◌+◌, ◌-◌, ◌%◌, ◌^◌, ◌≡◌, refl, ap, ◌∙◌, arith, true, List, [], ◌∷◌, Option, none, some,
  ==_self,
}
use rdma_yuxi.Wire.Header.{PktHdr, PktType}
use rdma_yuxi.Rpc.State.{
  MsgBuffer, pre_resp, SSlot, Ref, TxItem, Event, burst, Rpc, Env, slot_of, session_of, set_slot,
  tx_buf,
}
use rdma_yuxi.Rpc.Tx.{do_tx_burst_st, enqueue_pkt_tx_burst_st}
use rdma_yuxi.Rpc.Buffers.{resize_msg_buffer, fill_hdrs}
use rdma_yuxi.Rpc.Server.{bury_req_msgbuf_server_st}
use rdma_yuxi.Peer.Programs.{msg_size, hello_slot, req_handler}

-- The packet that was handed to the transport last: it is in the batch, or in the burst that the full
-- batch was sent as.
abbrev last_of_burst : List Event → Option TxItem
last_of_burst (burst (x ∷ l) ∷ es) = some x
last_of_burst _ = none

abbrev pub last_sent : Rpc → Option TxItem
last_sent r = elim r.tx_batch [ x ∷ l ↦ some x | [] ↦ last_of_burst r.events ]

-- Which is the one enqueued last.
pub last_sent-enqueue_pkt :
    (env : Env) (r : Rpc) (p : Ref) (i : ℕ) (ts : Option (Ref × ℕ))
    → last_sent (enqueue_pkt_tx_burst_st env r p i ts)
      ≡ some (record { dest = p.sn; msg_buffer = tx_buf (slot_of r p); pkt_idx = i; tx_ts = ts })
unfolding enqueue_pkt_tx_burst_st do_tx_burst_st
last_sent-enqueue_pkt env r p i ts = ground arith

-- The handler's response: the header that the slot's request gets, and the text.
abbrev pub response_hdr : Rpc → Ref → PktHdr
response_hdr r p = record {
  req_type = x.server_info.req_type % 2 ^ 8;
  msg_size = msg_size;
  dest_session_num = (session_of r p).remote_session_num;
  pkt_type = PktType.resp;
  pkt_num = (x.server_info.req_msgbuf.num_pkts + 2 ^ 14 - 1) % 2 ^ 14;
  req_num = x.cur_req_num;
  magic = (x.pre_resp_msgbuf.hdr 0).magic;
}
  where
    x : SSlot
    x = slot_of r p

abbrev pub response : Env → Rpc → Ref → MsgBuffer
response env r p = fill_hdrs (hello_slot env (slot_of r p)).pre_resp_msgbuf (response_hdr r p)

-- The handler's state before the response is enqueued.
abbrev written : Env → Rpc → Ref → Rpc
written env r p = set_slot r p (hello_slot env (slot_of r p))

responded :
    (env : Env) (r : Rpc) (p : Ref)
    → tx_buf (slot_of (set_response (bury_req (written env r p) p) p pre_resp) p) ≡ response env r p
unfolding set_response bury_req bury_req_msgbuf_server_st resp_hdr resize_msg_buffer
responded env r p = ground arith

enqueue_response-here :
    (env : Env) (r : Rpc) (p : Ref)
    → enqueue_response env r r.creator_etid p pre_resp ≡ enqueue_response_st env r p pre_resp
unfolding enqueue_response
enqueue_response-here env r p = rw (==_self r.creator_etid) refl

enqueue_response-connected :
    (env : Env) (r : Rpc) (p : Ref)
    → is_connected (session_of r p).state ≡ true
    → enqueue_response_st env r p pre_resp
      ≡ enqueue_pkt_tx_burst_st env (set_response (bury_req r p) p pre_resp) p 0 none
unfolding enqueue_response_st
enqueue_response-connected env r p conn = rw conn refl

-- The handler sends its response, in a session that is connected.
pub req_handler-sends :
    (env : Env) (r : Rpc) (p : Ref)
    → is_connected (session_of r p).state ≡ true
    → last_sent (req_handler env r p)
      ≡ some (record { dest = p.sn; msg_buffer = response env r p; pkt_idx = 0; tx_ts = none })
unfolding req_handler
req_handler-sends env r p conn =
    ap last_sent (
      enqueue_response-here env (written env r p) p
      ∙ enqueue_response-connected env (written env r p) p (ground (arith, conn)))
    ∙ last_sent-enqueue_pkt env (set_response (bury_req (written env r p) p) p pre_resp) p 0 none
    ∙ ap (λ m. some (record { dest = p.sn; msg_buffer = m; pkt_idx = 0; tx_ts = none }))
        (responded env r p)
