-- ===== src/Peer/Call.antt =====
-- A whole call: the client's request, the server's answer and the client's continuation.
use rdma_yuxi.Rpc.Reply.{is_connected}
use rdma_yuxi.Prelude.{ℕ, ◌<◌, ◌≤◌, ◌≡◌, ap, ◌∙◌, arith, true, leb, List}
use rdma_yuxi.Rpc.State.{Pkt, foreground, Ref, Rpc, Env, slot_of, session_of}
use rdma_yuxi.Rpc.Server.{process_small_req_st}
use rdma_yuxi.Rpc.Response.{process_resp_one_st}
use rdma_yuxi.Peer.Programs.{req_type, msg_size, send_request}
use rdma_yuxi.Peer.RoundTrip.{IsWaiting, reply}
use rdma_yuxi.Peer.Send.{IsReady, request, number_is, type_is, waiting}

module _ (cenv : Env) (c : Rpc) (sn i : ℕ) (rest : List ℕ) (cont_func tag rx_tsc : ℕ) (env : Env)
    (r : Rpc) (p : Ref) (wide : leb msg_size env.max_data_per_pkt ≡ true)
    (same : cenv.traits ≡ env.traits) (ready : IsReady cenv c sn i rest)
    (level : (slot_of r p).cur_req_num ≡ ((c.sessions sn).slots i).cur_req_num)
    (mode : env.req_func_type req_type ≡ foreground)
    (open_session : is_connected (session_of r p).state ≡ true)
    (room : msg_size ≤ (slot_of r p).pre_resp_msgbuf.max_data_size) where
  pub wide_c : leb msg_size cenv.max_data_per_pkt ≡ true
  wide_c = ap (λ t. leb msg_size t.max_data_per_pkt) same ∙ wide

  abbrev pub waits : Rpc
  waits = send_request cenv c sn cont_func tag

  abbrev pub slot : Ref
  slot = record { sn = sn; slot = i }

  abbrev pub pkt : Pkt
  pkt = request cenv c sn i rest cont_func tag wide_c ready

  pub new_pkt : (slot_of r p).cur_req_num < pkt.hdr.req_num
  new_pkt = omega (arith, level, number_is cenv c sn i rest cont_func tag wide_c ready)

  pub mode_pkt : env.req_func_type pkt.hdr.req_type ≡ foreground
  mode_pkt = ap env.req_func_type (type_is cenv c sn i rest cont_func tag wide_c ready) ∙ mode

  pub is_waiting : IsWaiting waits slot pkt
  is_waiting = waiting cenv c sn i rest cont_func tag wide_c ready

  abbrev pub served : Rpc
  served = process_small_req_st env r p pkt

  abbrev pub back : Pkt
  back = reply env r p pkt cenv waits slot rx_tsc wide same new_pkt mode_pkt open_session is_waiting

  abbrev pub ended : Rpc
  ended = process_resp_one_st cenv waits slot back rx_tsc
