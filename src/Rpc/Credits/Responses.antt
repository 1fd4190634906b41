-- ===== src/Rpc/Credits/Responses.antt =====
-- Responses keep the invariant of client sessions: the slot gets its response, and is freed with the
-- last packet.
pub mod Stored
pub mod Packets
use mathlib.Core.List.{tail}
use rdma_yuxi.Prelude.{
  ℕ, ◌+◌, ◌-◌, ◌*◌, ◌%◌, ◌≤◌, ◌<◌, ◌≡◌, ◌≢◌, refl, ap, sym, subst, ◌∙◌, arith, inl, inr, Bool, true,
  false, ltb, leb, ◌==◌, if◌then◌else◌, List, [], ◌∷◌, ◌++◌, All, mem, IsDistinct, Bool-cases,
}
use native.Mathlib.Decide.{ℕ_discrete}
use rdma_yuxi.Wire.Header.{session_req_window}
use rdma_yuxi.Rpc.State.{
  MsgBuffer, Pkt, SSlot, ClientInfo, Session, Ref, EnqReqArgs, Rpc, Env, null, slot_of, session_of,
  set_session, with_slot, tx_buf,
}
use rdma_yuxi.Rpc.Client.{enqueue_request_st}
use rdma_yuxi.Rpc.Response.{free_slot, start_backlog, invoke_cont, complete, set_resp}
use rdma_yuxi.Rpc.Credits.{
  outstanding, in_flight_cong, is_null, tx_limit, HasResp, SlotIsSound, IsSound, AllSound,
}
use rdma_yuxi.Rpc.Credits.Change.{
  FreeIsSound, change-IsSound, same-FreeIsSound, set_session-IsSound,
}
use rdma_yuxi.Rpc.Credits.Requests.{enqueue_request_st-IsSound}

module _ (r : Rpc) (p : Ref) (lt : p.slot < session_req_window)
    (act : is_null (slot_of r p).tx_msgbuf ≡ false) where
  abbrev s : Session
  s = session_of r p

  -- The slot with the response buffer `b`.
  abbrev with_resp : MsgBuffer → SSlot
  with_resp b = record (slot_of r p) { client_info = record ci { resp_msgbuf = b } }
    where
      ci : ClientInfo
      ci = (slot_of r p).client_info

  pub set_resp-IsSound :
      (b : MsgBuffer)
      → 1 ≤ b.num_pkts
      → (slot_of r p).client_info.num_tx ≤ tx_limit (with_resp b)
      → AllSound r
      → AllSound (set_resp r p b)
  set_resp-IsSound b sized limit all sn =
      set_session-IsSound r p.sn (with_slot s p.slot (with_resp b))
        (λ v.
          change-IsSound s (with_slot s p.slot (with_resp b)) p.slot lt (with_resp b) (λ i. refl)
            (ground (arith, v.sound p.slot lt)) (omega arith)
            (same-FreeIsSound s (with_slot s p.slot (with_resp b)) p.slot lt (with_resp b)
              (λ i. refl) refl refl refl v)
            v)
        sn (all sn)

  abbrev freed_slot : SSlot
  freed_slot = record (slot_of r p) { tx_msgbuf = null }

  abbrev freed : Session
  freed = record (with_slot s p.slot freed_slot) { sslot_free_vec = p.slot ∷ s.sslot_free_vec }

  freed-FreeIsSound : IsSound s → FreeIsSound freed
  freed-FreeIsSound v = record {
    free_iff = λ j l. elim (ℕ_discrete j p.slot) [
      | yes e ↦ ground arith
      | no ne ↦ ground (arith, v.free_iff j l)
    ];
    free_lt = λ j e. ground (arith, v.free_lt j);
    distinct = (v.free_iff p.slot lt ∙ act, v.distinct);
    backlog_sized = v.backlog_sized;
  }

  pub free_slot-IsSound :
      (slot_of r p).client_info.num_tx ≡ (slot_of r p).client_info.num_rx
      → AllSound r
      → AllSound (free_slot r p)
  unfolding free_slot
  free_slot-IsSound even all sn =
      set_session-IsSound r p.sn freed
        (λ v.
          change-IsSound s freed p.slot lt freed_slot (λ i. refl)
            (ground (arith, v.sound p.slot lt)) (omega arith) (freed-FreeIsSound v) v)
        sn (all sn)

tail-All : (l : List EnqReqArgs) → All HasResp l → All HasResp (tail l)
tail-All [] h = tt
tail-All (a ∷ l) h = h.1

popped-IsSound :
    (s : Session) → IsSound s → IsSound (record s { enq_req_backlog = tail s.enq_req_backlog })
popped-IsSound s v = record {
  conserved = omega (
    arith,
    in_flight_cong s (record s { enq_req_backlog = tail s.enq_req_backlog }) (λ j. refl),
    v.conserved,
  );
  sound = v.sound;
  free_iff = v.free_iff;
  free_lt = v.free_lt;
  distinct = v.distinct;
  backlog_sized = tail-All s.enq_req_backlog v.backlog_sized;
}

-- The request that waited longest starts in the slot that is free now.
start_backlog-IsSound :
    (env : Env) (r : Rpc) (sn : ℕ) (l : List EnqReqArgs)
    → All HasResp l
    → AllSound r
    → AllSound (start_backlog env r sn l)
unfolding start_backlog
start_backlog-IsSound env r sn [] h all k = all k
start_backlog-IsSound env r sn (args ∷ rest) (sized, h) all k =
    set_session-IsSound q sn
      (record (q.sessions sn) { enq_req_backlog = tail (q.sessions sn).enq_req_backlog })
      (popped-IsSound (q.sessions sn)) k (started k)
  where
    q : Rpc
    q = enqueue_request_st env r args

    started : AllSound q
    started = enqueue_request_st-IsSound env r args sized all

-- A request with nothing outstanding is completed.
pub complete-IsSound :
    (env : Env) (r : Rpc) (p : Ref)
    → p.slot < session_req_window
    → is_null (slot_of r p).tx_msgbuf ≡ false
    → (slot_of r p).client_info.num_tx ≡ (slot_of r p).client_info.num_rx
    → AllSound r
    → AllSound (complete env r p)
unfolding complete invoke_cont
complete-IsSound env r p lt act even all =
    start_backlog-IsSound env (free_slot r p) p.sn (session_of r p).enq_req_backlog
      (all p.sn).backlog_sized (free_slot-IsSound r p lt act even all)
