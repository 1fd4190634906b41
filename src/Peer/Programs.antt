-- ===== src/Peer/Programs.antt =====
-- The constants of peer/server/server.h and peer/client/client.h, the request handler of
-- peer/server/server.cc, and the request of peer/client/client.cc.
use rdma_yuxi.Rpc.Reply.{enqueue_response}
use rdma_yuxi.Prelude.{ℕ, [], ◌∷◌, get_elem?, none, some}
use rdma_yuxi.Wire.Header.{Traits, invalid_bg_etid}
use rdma_yuxi.Rpc.State.{MsgBuffer, pre_resp, SSlot, Ref, EnqReqArgs, Rpc, Env, slot_of, set_slot}
use rdma_yuxi.Rpc.Buffers.{resize_msg_buffer, copy_bytes, alloc_msg_buffer}
use rdma_yuxi.Rpc.Client.{enqueue_request}

-- `kReqType`, `kMsgSize`
abbrev pub req_type : ℕ
req_type = 2

abbrev pub msg_size : ℕ
msg_size = 16

-- The text `hello` with its terminator, as `sprintf` writes it, and its length.
abbrev pub hello : ℕ → ℕ
hello i = elim (get_elem? {A = ℕ} (b'h' ∷ b'e' ∷ b'l' ∷ b'l' ∷ b'o' ∷ []) i) [
  | none ↦ 0
  | some c ↦ c
]

abbrev pub hello_size : ℕ
hello_size = 6

-- The preallocated response of the slot, with the text; the buffer has room for it, as
-- `resize_msg_buffer` asserts.
abbrev pub hello_slot : Env → SSlot → SSlot
hello_slot env x = record x {
  pre_resp_msgbuf = record (resize_msg_buffer env.traits m msg_size) {
    bytes = copy_bytes m.bytes 0 hello hello_size;
  };
}
  where
    m : MsgBuffer
    m = x.pre_resp_msgbuf

-- `req_handler`, which runs in the thread that created the `Rpc`.
unfoldable pub req_handler : Env → Rpc → Ref → Rpc
req_handler env r p =
    enqueue_response env (set_slot r p (hello_slot env (slot_of r p))) r.creator_etid p pre_resp

-- The request that the client's `main` sends on its session; `cont_func` and the tag are its.
abbrev pub hello_args : Traits → ℕ → ℕ → ℕ → EnqReqArgs
hello_args tr session_num cont_func tag = record {
  session_num = session_num;
  req_type = req_type;
  req_msgbuf = alloc_msg_buffer tr msg_size;
  resp_msgbuf = alloc_msg_buffer tr msg_size;
  cont_func = cont_func;
  tag = tag;
  cont_etid = invalid_bg_etid;
}

unfoldable pub send_request : Env → Rpc → ℕ → ℕ → ℕ → Rpc
send_request env r session_num cont_func tag =
    enqueue_request env r r.creator_etid (hello_args env.traits session_num cont_func tag)
