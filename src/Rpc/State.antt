-- ===== src/Rpc/State.antt =====
-- The state of an `Rpc` object: message buffers (peer/erpc/msg_buffer.h), session slots
-- (peer/erpc/sslot.h), sessions (peer/erpc/session.h) and the members of class `Rpc`
-- (peer/erpc/rpc.h). A pointer to a slot is a session number with a slot index.
use rdma_yuxi.Prelude.{ℕ, Bool, Option, List, ◌∷◌, update}
use rdma_yuxi.Wire.Header.{PktHdr, Traits}

-- `MsgBuffer`. `valid` says that `buf_` is not null and `dynamic` that `buffer_.buf_` is not null;
-- `hdr n` is what `get_pkthdr_n(n)` points to, and `bytes` the data behind `buf_`.
pub record MsgBuffer : Type 0 where
  pub valid : Bool
  pub dynamic : Bool
  pub max_data_size : ℕ
  pub data_size : ℕ
  pub max_num_pkts : ℕ
  pub num_pkts : ℕ
  pub hdr : ℕ → PktHdr
  pub bytes : ℕ → ℕ

-- A received packet: its header and the bytes behind it.
pub record Pkt : Type 0 where
  pub hdr : PktHdr
  pub payload : ℕ → ℕ

pub data ReqFuncType : Type 0 where
  foreground background : ReqFuncType

-- `tx_msgbuf_`: null, the user's request buffer (client), or one of the two response buffers of
-- the slot (server).
pub data TxPtr : Type 0 where
  null : TxPtr
  user : MsgBuffer → TxPtr
  pre_resp : TxPtr
  dyn_resp : TxPtr

pub record ClientInfo : Type 0 where
  pub resp_msgbuf : MsgBuffer
  pub cont_func : ℕ
  pub tag : ℕ
  pub num_tx : ℕ
  pub num_rx : ℕ
  pub progress_tsc : ℕ
  pub cont_etid : ℕ
  pub in_wheel : ℕ → Bool
  pub wheel_count : ℕ
  pub tx_ts : ℕ → ℕ

pub record ServerInfo : Type 0 where
  pub req_msgbuf : MsgBuffer
  pub req_type : ℕ
  pub req_func_type : ReqFuncType
  pub num_rx : ℕ
  pub sav_num_req_pkts : ℕ

-- `SSlot`. The two members of the union stand side by side; each role uses its own.
pub record SSlot : Type 0 where
  pub pre_resp_msgbuf : MsgBuffer
  pub dyn_resp_msgbuf : MsgBuffer
  pub tx_msgbuf : TxPtr
  pub cur_req_num : ℕ
  pub client_info : ClientInfo
  pub server_info : ServerInfo

-- `enq_req_args_t`
pub record EnqReqArgs : Type 0 where
  pub session_num : ℕ
  pub req_type : ℕ
  pub req_msgbuf : MsgBuffer
  pub resp_msgbuf : MsgBuffer
  pub cont_func : ℕ
  pub tag : ℕ
  pub cont_etid : ℕ

pub data Role : Type 0 where
  server client : Role

pub data SessionState : Type 0 where
  connect_in_progress connected disconnect_in_progress reset_in_progress : SessionState

-- The data path's part of a `Session`. The free slots are a stack with the top first, the backlog
-- a queue with the front first. `samples` holds what `Timely::update_rate` was given, newest first.
pub record Session : Type 0 where
  pub role : Role
  pub state : SessionState
  pub local_session_num : ℕ
  pub remote_session_num : ℕ
  pub slots : ℕ → SSlot
  pub credits : ℕ
  pub sslot_free_vec : List ℕ
  pub enq_req_backlog : List EnqReqArgs
  pub num_re_tx : ℕ
  pub samples : List (ℕ × ℕ)

-- A pointer to a session slot.
pub record Ref : Type 0 where
  pub sn : ℕ
  pub slot : ℕ

-- `tx_burst_item_t`: the buffer, the packet's index in it, and the place of the TX timestamp.
pub record TxItem : Type 0 where
  pub dest : ℕ
  pub msg_buffer : MsgBuffer
  pub pkt_idx : ℕ
  pub tx_ts : Option (Ref × ℕ)

-- What leaves the data path: bursts for the transport (newest item first), DMA flushes, entries for
-- the timing wheel (with the packet's size), calls of request handlers and continuations, work for
-- background threads, and freed buffers.
pub data Event : Type 0 where
  burst : List TxItem → Event
  flush : Event
  wheel_insert : Ref → ℕ → ℕ → Event
  run_req_func : Ref → ℕ → ℕ → Event
  run_cont : ℕ → ℕ → Event
  bg_req : ℕ → Ref → Event
  bg_resp : ℕ → ℕ → ℕ → Event
  freed : MsgBuffer → Event

-- The members of `Rpc` that the data path uses. `sessions` are the session objects and `live n`
-- says that `session_vec_[n]` is not null; `now` is what `rdtsc()` returns next; `events` and
-- `tx_batch` have the newest entry first, `active` the oldest request first.
pub record Rpc : Type 0 where
  pub num_sessions : ℕ
  pub live : ℕ → Bool
  pub sessions : ℕ → Session
  pub stallq : List Ref
  pub active : List Ref
  pub ctrl_msgbuf_head : ℕ
  pub tx_batch : List TxItem
  pub ev_loop_tsc : ℕ
  pub pkt_loss_scan_tsc : ℕ
  pub now : ℕ
  pub num_re_tx : ℕ
  pub still_in_wheel_during_retx : ℕ
  pub rand_seed : ℕ
  pub creator_etid : ℕ
  pub bg_enqueue_request : List EnqReqArgs
  pub bg_enqueue_response : List (Ref × TxPtr)
  pub events : List Event

-- What the data path takes from its surroundings: the transport's numbers, the request functions'
-- modes, the number of background threads, and whether the congestion control, which computes with
-- floating-point numbers, leaves a session at full rate after a history of RTT samples.
pub record Env : Type 0 where
  pub traits : Traits
  pub open traits use *
  pub rpc_rto_cycles : ℕ
  pub rpc_pkt_loss_scan_cycles : ℕ
  pub num_bg_threads : ℕ
  pub req_func_type : ℕ → ReqFuncType
  pub is_uncongested : List (ℕ × ℕ) → Bool

module _ (r : Rpc) (p : Ref) where
  -- `*sslot`, and the session that it points to.
  abbrev pub slot_of : SSlot
  slot_of = (r.sessions p.sn).slots p.slot

  abbrev pub session_of : Session
  session_of = r.sessions p.sn

-- Writes through a pointer to a session or to a slot.
abbrev pub set_session : Rpc → ℕ → Session → Rpc
set_session r sn s = record r { sessions = update r.sessions sn s }

abbrev pub with_slot : Session → ℕ → SSlot → Session
with_slot s i x = record s { slots = update s.slots i x }

abbrev pub set_slot : Rpc → Ref → SSlot → Rpc
set_slot r p x = set_session r p.sn (with_slot (r.sessions p.sn) p.slot x)

abbrev pub set_client : Rpc → Ref → ClientInfo → Rpc
set_client r p c = set_slot r p (record (slot_of r p) { client_info = c })

abbrev pub set_server : Rpc → Ref → ServerInfo → Rpc
set_server r p c = set_slot r p (record (slot_of r p) { server_info = c })

-- `sslot->tx_msgbuf_` followed; the invalid buffer stands for a read through null.
abbrev pub buf_at : SSlot → MsgBuffer → TxPtr → MsgBuffer
buf_at x nowhere null = nowhere
buf_at x nowhere (user m) = m
buf_at x nowhere pre_resp = x.pre_resp_msgbuf
buf_at x nowhere dyn_resp = x.dyn_resp_msgbuf

abbrev pub tx_buf : SSlot → MsgBuffer
tx_buf x = buf_at x x.pre_resp_msgbuf x.tx_msgbuf

abbrev pub log : Rpc → Event → Rpc
log r e = record r { events = e ∷ r.events }
