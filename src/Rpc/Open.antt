-- ===== src/Rpc/Open.antt =====
-- New sessions: the constructor of peer/erpc/session.h.
use rdma_yuxi.Prelude.{ℕ, zero, suc, ◌+◌, ◌-◌, ◌<◌, refl, arith, false, List, [], ◌∷◌}
use rdma_yuxi.Wire.Header.{PktType, session_credits, session_req_window, invalid_req_type}
use rdma_yuxi.Rpc.State.{
  MsgBuffer, foreground, null, SSlot, Role, connect_in_progress, Session, server, client,
}
use rdma_yuxi.Rpc.Credits.{IsSound, in_flight_zero, SlotIsSound}

-- A buffer whose memory is cleared.
unfoldable pub buried_msg_buffer : MsgBuffer
buried_msg_buffer = record {
  valid = false;
  dynamic = false;
  max_data_size = 0;
  data_size = 0;
  max_num_pkts = 0;
  num_pkts = 0;
  hdr = λ _. record {
    req_type = 0;
    msg_size = 0;
    dest_session_num = 0;
    pkt_type = PktType.req;
    pkt_num = 0;
    req_num = 0;
    magic = 0;
  };
  bytes = λ _. 0;
}

abbrev is_server : Role → ℕ
is_server server = invalid_req_type
is_server client = 0

-- Slot `i` of a new session: cleared, with `i` for its request number.
unfoldable pub new_slot : Role → ℕ → SSlot
unfolding buried_msg_buffer
new_slot role i = record {
  pre_resp_msgbuf = buried_msg_buffer;
  dyn_resp_msgbuf = buried_msg_buffer;
  tx_msgbuf = null;
  cur_req_num = i;
  client_info = record {
    resp_msgbuf = buried_msg_buffer;
    cont_func = 0;
    tag = 0;
    num_tx = 0;
    num_rx = 0;
    progress_tsc = 0;
    cont_etid = 0;
    in_wheel = λ _. false;
    wheel_count = 0;
    tx_ts = λ _. 0;
  };
  server_info = record {
    req_msgbuf = buried_msg_buffer;
    req_type = is_server role;
    req_func_type = foreground;
    num_rx = 0;
    sav_num_req_pkts = 0;
  };
}

-- The loop that pushes the slots, the last first, on the free slots; the top is the front.
push_slots : ℕ → ℕ → List ℕ → List ℕ
push_slots zero i l = l
push_slots (suc n) i l = push_slots n (i + 1) ((session_req_window - 1 - i) ∷ l)

-- A session of the given role, with all credits; its state and numbers are its creator's to set.
unfoldable pub new_session : Role → Session
unfolding push_slots new_slot
new_session role = record {
  role = role;
  state = connect_in_progress;
  local_session_num = 0;
  remote_session_num = 0;
  slots = new_slot role;
  credits = session_credits;
  sslot_free_vec = push_slots session_req_window 0 [];
  enq_req_backlog = [];
  num_re_tx = 0;
  samples = [];
}

new_slot-IsSound : (role : Role) (i : ℕ) → i < session_req_window → SlotIsSound i (new_slot role i)
unfolding new_slot
new_slot-IsSound role i lt = record {
  ordered = omega arith;
  limited = λ e. absurd (ground arith);
  sized = λ e. absurd (ground arith);
  idle = λ e. refl;
  numbered = omega arith;
}

-- A new session is sound: all credits are there, and all slots are free.
pub new_session-IsSound : (role : Role) → IsSound (new_session role)
unfolding new_session push_slots new_slot
new_session-IsSound role = record {
  conserved = omega (arith, in_flight_zero (new_session role) (λ j. refl));
  sound = λ i lt. new_slot-IsSound role i lt;
  free_iff = λ i lt. ground arith;
  free_lt = λ i e. ground arith;
  distinct = (refl, (refl, (refl, (refl, (refl, (refl, (refl, (refl, tt))))))));
  backlog_sized = tt;
}
