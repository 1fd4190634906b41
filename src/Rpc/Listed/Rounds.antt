-- ===== src/Rpc/Listed/Rounds.antt =====
-- Rounds of a client's event loop.
use rdma_yuxi.Rpc.Credits.Responses.Stored.{IsResponse}
use rdma_yuxi.Rpc.Reply.{bg_response_loop, process_bg_queues_enqueue_response_st}
use rdma_yuxi.Prelude.{
  ℕ, ◌+◌, ◌-◌, ◌%◌, ◌^◌, ◌<◌, ◌≡◌, refl, arith, inl, inr, true, ltb, leb, ◌==◌, if◌then◌else◌, List,
  [], ◌∷◌, length, Bool-cases,
}
use rdma_yuxi.Wire.Header.{PktHdr, PktType, session_req_window}
use rdma_yuxi.Rpc.State.{Pkt, Ref, EnqReqArgs, Rpc, Env, slot_of}
use rdma_yuxi.Rpc.Tx.{do_tx_burst_st}
use rdma_yuxi.Rpc.Client.{in_order_client, enqueue_request, process_expl_cr_st}
use rdma_yuxi.Rpc.Response.{process_resp_one_st}
use rdma_yuxi.Rpc.Loss.{
  process_credit_stall_queue_st, process_wheel_st, process_bg_queues_enqueue_request_st,
}
use rdma_yuxi.Rpc.Server.{process_small_req_st, process_large_req_one_st, process_rfr_st}
use rdma_yuxi.Rpc.EvLoop.{
  sslot_of, dispatch, is_accepted, process_pkt, process_comps_st, scan_in_epoch,
  run_event_loop_do_one_st,
}
use rdma_yuxi.Rpc.Credits.{HasResp}
use rdma_yuxi.Rpc.Credits.Requests.{All-append}
use rdma_yuxi.Rpc.Listed.Receive.{IsClient, process_expl_cr_st-IsClient}
use rdma_yuxi.Rpc.Listed.Answers.{process_resp_one_st-IsClient}
use rdma_yuxi.Rpc.Listed.Sending.{process_credit_stall_queue_st-IsClient}
use rdma_yuxi.Rpc.Listed.Retries.{
  do_tx_burst_st-IsClient, process_wheel_st-IsClient, enqueue_request_st-IsClient,
  process_bg_queues_enqueue_request_st-IsClient, pkt_loss_scan_st-IsClient,
}

-- What a server sends: credit returns, and responses, of which those in order are numbered after
-- the request's packets.
unfoldable pub IsFromServer : PktType → Env → Rpc → Pkt → Type 0
IsFromServer PktType.req env r pkt = ⊥
IsFromServer PktType.rfr env r pkt = ⊥
IsFromServer PktType.expl_cr env r pkt = Unit
IsFromServer PktType.resp env r pkt =
    (in_order_client r (sslot_of pkt.hdr) pkt.hdr).0 ≡ true
    → IsResponse env (slot_of r (sslot_of pkt.hdr)) pkt.hdr

-- The packets of a burst, each in the state in which it is handled.
unfoldable pub AreFromServer : Env → Rpc → List Pkt → Type 0
unfolding IsFromServer
AreFromServer env r [] = Unit
AreFromServer env r (pkt ∷ l) =
    IsFromServer pkt.hdr.pkt_type env r pkt × AreFromServer env (process_pkt env r pkt) l

slot_below : (h : PktHdr) → (sslot_of h).slot < session_req_window
slot_below h = omega arith

module _ (env : Env) (wide : 0 < env.max_data_per_pkt) where
  dispatch-IsClient :
      (r : Rpc) (pkt : Pkt)
      → IsFromServer pkt.hdr.pkt_type env r pkt
      → IsClient r
      → IsClient (dispatch env r pkt)
  unfolding dispatch IsFromServer
  dispatch-IsClient r pkt from c = by_type pkt.hdr.pkt_type from
    where
      by_type :
          (t : PktType)
          → IsFromServer t env r pkt
          → IsClient (elim t as (λ _. Rpc) [
            | PktType.req ↦
                if leb pkt.hdr.msg_size env.max_data_per_pkt
                then process_small_req_st env r (sslot_of pkt.hdr) pkt
                else process_large_req_one_st env r (sslot_of pkt.hdr) pkt
            | PktType.resp ↦ process_resp_one_st env r (sslot_of pkt.hdr) pkt r.ev_loop_tsc
            | PktType.rfr ↦ process_rfr_st env r (sslot_of pkt.hdr) pkt.hdr
            | PktType.expl_cr ↦ process_expl_cr_st env r (sslot_of pkt.hdr) pkt.hdr r.ev_loop_tsc
          ])
      by_type PktType.req f = elim f [ ]
      by_type PktType.rfr f = elim f [ ]
      by_type PktType.expl_cr f =
          process_expl_cr_st-IsClient env r (sslot_of pkt.hdr) (slot_below pkt.hdr) c pkt.hdr
            r.ev_loop_tsc
      by_type PktType.resp f =
          process_resp_one_st-IsClient env wide r (sslot_of pkt.hdr) pkt r.ev_loop_tsc
            (slot_below pkt.hdr) c f

  process_pkt-IsClient :
      (r : Rpc) (pkt : Pkt)
      → IsFromServer pkt.hdr.pkt_type env r pkt
      → IsClient r
      → IsClient (process_pkt env r pkt)
  unfolding process_pkt
  process_pkt-IsClient r pkt from c = elim (Bool-cases (is_accepted r pkt.hdr)) [
    | inl e ↦ rw e (dispatch-IsClient r pkt from c)
    | inr e ↦ rw e c
  ]

  process_comps_st-IsClient :
      (l : List Pkt) (r : Rpc)
      → AreFromServer env r l
      → IsClient r
      → IsClient (process_comps_st env l r)
  unfolding process_comps_st AreFromServer
  process_comps_st-IsClient [] r from c = c
  process_comps_st-IsClient (pkt ∷ l) r from c =
      process_comps_st-IsClient l (process_pkt env r pkt) from.1
        (process_pkt-IsClient r pkt from.0 c)

  -- With no response queued, nothing is sent.
  bg_responses-IsClient :
      (r : Rpc) → IsClient r → IsClient (process_bg_queues_enqueue_response_st env r)
  unfolding process_bg_queues_enqueue_response_st bg_response_loop
  bg_responses-IsClient r c = rw c.no_responses (record {
    sound = c.sound;
    listed = record { once = c.listed.once; stalled = c.listed.stalled };
    queued = c.queued;
    no_responses = refl;
  })

  -- At another time, a client is a client.
  timed-IsClient :
      (r : Rpc) (tsc scan now : ℕ)
      → IsClient r
      → IsClient (record r { ev_loop_tsc = tsc; pkt_loss_scan_tsc = scan; now = now })
  timed-IsClient r tsc scan now c = record {
    sound = c.sound;
    listed = record { once = c.listed.once; stalled = c.listed.stalled };
    queued = c.queued;
    no_responses = c.no_responses;
  }

  scan_in_epoch-IsClient : (r : Rpc) → IsClient r → IsClient (scan_in_epoch env r)
  unfolding scan_in_epoch
  scan_in_epoch-IsClient r c =
      elim (Bool-cases (
        ltb env.rpc_pkt_loss_scan_cycles
          ((r.ev_loop_tsc + 2 ^ 64 - r.pkt_loss_scan_tsc) % 2 ^ 64))) [
            | inl e ↦ rw e (
                pkt_loss_scan_st-IsClient env (record r { pkt_loss_scan_tsc = r.ev_loop_tsc })
                  (timed-IsClient r r.ev_loop_tsc r.ev_loop_tsc r.now c))
            | inr e ↦ rw e c
          ]

  -- A round of the event loop leaves a client a client, whatever packets a server sends and whatever
  -- the wheel has ready.
  round-IsClient :
      (r : Rpc) (tsc : ℕ) (pkts : List Pkt) (ready : List (Ref × ℕ))
      → AreFromServer env (record r { ev_loop_tsc = tsc }) pkts
      → IsClient r
      → IsClient (run_event_loop_do_one_st env tsc pkts ready r)
  unfolding run_event_loop_do_one_st
  round-IsClient r tsc pkts ready from c = scan_in_epoch-IsClient _ worked-IsClient
    where
      paced : Rpc
      paced = process_wheel_st env ready (
          process_credit_stall_queue_st env
            (process_comps_st env pkts (record r { ev_loop_tsc = tsc })))

      paced-IsClient : IsClient paced
      paced-IsClient = process_wheel_st-IsClient env ready _ (
          process_credit_stall_queue_st-IsClient env _ (
            process_comps_st-IsClient pkts (record r { ev_loop_tsc = tsc }) from
              (timed-IsClient r tsc r.pkt_loss_scan_tsc r.now c)))

      sent : Rpc
      sent = if ltb 0 (length paced.tx_batch) then do_tx_burst_st paced else paced

      sent-IsClient : IsClient sent
      sent-IsClient = elim (Bool-cases (ltb 0 (length paced.tx_batch))) [
        | inl e ↦ rw e (do_tx_burst_st-IsClient paced paced-IsClient)
        | inr e ↦ rw e paced-IsClient
      ]

      worked-IsClient : IsClient (
          if ltb 0 env.num_bg_threads
          then process_bg_queues_enqueue_response_st env
              (process_bg_queues_enqueue_request_st env sent)
          else sent)
      worked-IsClient = elim (Bool-cases (ltb 0 env.num_bg_threads)) [
        | inl e ↦ rw e (
            bg_responses-IsClient _
              (process_bg_queues_enqueue_request_st-IsClient env sent sent-IsClient))
        | inr e ↦ rw e sent-IsClient
      ]

  -- A request by the dispatch thread is started, and one by another thread is queued.
  enqueue_request-IsClient :
      (r : Rpc) (etid : ℕ) (args : EnqReqArgs)
      → HasResp args
      → IsClient r
      → IsClient (enqueue_request env r etid args)
  unfolding enqueue_request
  enqueue_request-IsClient r etid args sized c = elim (Bool-cases (etid == r.creator_etid)) [
    | inl e ↦ rw e (enqueue_request_st-IsClient env r args sized c)
    | inr e ↦ rw e (record {
      sound = c.sound;
      listed = record { once = c.listed.once; stalled = c.listed.stalled };
      queued = All-append r.bg_enqueue_request (record args { cont_etid = etid }) c.queued sized;
      no_responses = c.no_responses;
    })
  ]

-- A client's run from the state `init`: rounds of the event loop with packets of servers, and
-- requests of any thread in between.
pub data ClientRounds (env : Env) (init : Rpc) : Rpc → Type 0 where
  begin : ClientRounds env init init
  rounds :
      (r : Rpc) (tsc now : ℕ) (pkts : List Pkt) (ready : List (Ref × ℕ))
      → ClientRounds env init r
      → AreFromServer env (record r { ev_loop_tsc = tsc; now = now }) pkts
      → ClientRounds env init (run_event_loop_do_one_st env tsc pkts ready (record r { now = now }))
  calls :
      (r : Rpc) (etid : ℕ) (args : EnqReqArgs)
      → ClientRounds env init r
      → HasResp args
      → ClientRounds env init (enqueue_request env r etid args)

-- In any run of a client's event loop - requests by any thread, and rounds with whatever packets
-- servers send, in any order and however often, and whatever the wheel has ready - the client's
-- sessions stay sound, the active list has every slot with an active request once and no other,
-- and the stall queue has only slots of active requests that have sent nothing, each once. Packets
-- may name any slot; responses in order are numbered after the request's packets, requests come with
-- response buffers, and the transport's packets hold data.
pub ClientRounds-IsClient :
    (env : Env) (init r : Rpc)
    → 0 < env.max_data_per_pkt
    → IsClient init
    → ClientRounds env init r
    → IsClient r
ClientRounds-IsClient env init r wide c begin = c
ClientRounds-IsClient env init r wide c (rounds q tsc now pkts ready s from) =
    round-IsClient env wide (record q { now = now }) tsc pkts ready from
      (timed-IsClient env wide q q.ev_loop_tsc q.pkt_loss_scan_tsc now
        (ClientRounds-IsClient env init q wide c s))
ClientRounds-IsClient env init r wide c (calls q etid args s sized) =
    enqueue_request-IsClient env wide q etid args sized (ClientRounds-IsClient env init q wide c s)
