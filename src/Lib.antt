-- ===== src/Lib.antt =====
-- A model of rdma-yuxi, a key-value transaction prototype over RDMA, and what holds of it.
--
-- The program has two parts. core/ is the compute side: a scheduler that switches between
-- coroutines while their RDMA requests are under way (core/scheduler), and the memory that the
-- requests use (core/allocator). peer/ is a client and a server (peer/client, peer/server) on the
-- RPC layer peer/erpc, a copy of the eRPC library kept in this tree: each endpoint is an object
-- of class Rpc, which opens sessions with others (session management over UDP) and sends requests
-- on them (the data path over an unreliable transport, with credits, slots and retransmission).
--
-- The files, and what they model:
--   Core/Scheduler: CoroutineScheduler of core/scheduler/corotine_scheduler.h and .cc. Coroutines
--     are indices of coro_array; whether a post succeeds and what the queue pairs complete are
--     arguments. Core/Poll: its account of pending requests. Core/Ring and its children: the ring of
--     coroutines that can run, as a list; runs of the scheduler, the rounds between two polls, and
--     polls that wake those whose requests have completed. Core/Verbs: the RDMA operations one by
--     one, each with what it hands to the queue pair.
--   Core/Memory: RDMARegionAllocator and RDMABufferAllocator of core/allocator. Its children: the
--     buffers of several threads, and the buffers of one region over time.
--   Wire/Header, Wire/Sizes: peer/erpc/pkthdr.h and the arithmetic of packets of peer/erpc/rpc.h.
--   Rpc/State: MsgBuffer, SSlot, Session and Rpc (peer/erpc/msg_buffer.h, sslot.h, session.h,
--     rpc.h). A pointer to a slot is a session number with a slot index; the two members of the
--     slot's union stand side by side; what leaves the data path is a log of events.
--   Rpc/Open: the constructor of Session. Rpc/Tx: do_tx_burst_st, enqueue_pkt_tx_burst_st,
--     enqueue_hdr_tx_burst_st, enqueue_cr_st, enqueue_rfr_st, enqueue_wheel_req_st. Rpc/Buffers:
--     the operations on message buffers. Rpc/Kick: rpc_impl/rpc_kick.cc; its child Packets
--     and Rpc/Tx/Handed: what is handed to the transport and to the timing wheel. Rpc/Client:
--     enqueue_request, in_order_client, process_expl_cr_st. Rpc/Response: process_resp_one_st.
--     Rpc/Loss: rpc_impl/rpc_pkt_loss.cc and rpc_queues.cc. Rpc/Server: process_small_req_st,
--     process_large_req_one_st, process_rfr_st. Rpc/Reply: enqueue_response. Rpc/EvLoop:
--     process_comps_st and a round of the event loop.
--   Rpc/Credits and its children: the invariant of client sessions, for an Rpc all of whose sessions
--     are client sessions, and runs of the client. Rpc/Server/Once: how often request handlers
--     are invoked. Rpc/Buffers/Cut, Rpc/Server/Reassembly, Rpc/Server/Message,
--     Rpc/Server/Delivery: the packets of a message, and how a server puts them together.
--     Rpc/Answer: a response in one packet at the client. Rpc/Response/Parts, Rpc/Response/Delivery
--     and Rpc/Response/Clocked: how a client asks for a larger response and puts it together.
--   Peer/Programs: the handler of peer/server/server.cc, the request of peer/client/client.cc and the
--     constants of server.h and client.h. Peer/Hello, Peer/Text, Peer/Send, Peer/RoundTrip, Peer/Call:
--     what the two send, and a whole call. Peer/Connect: the client's main up to the connected session,
--     over the packets that each round of its event loop finds.
--   Rpc/Listed and its children: the active list and the stall queue of a client, and runs of a
--     client's event loop.
--   Rpc/Buffers/Layout, Rpc/Buffers/Memory: where the headers and the data of a message buffer are
--     in the memory that the hugepage allocator gives.
--   Sm/Types, Sm/State, Sm/Api, Sm/Handlers: session management packets (peer/erpc/sm_types.h),
--     create_session_st and destroy_session_st, and the handlers of rpc_impl/rpc_sm_helpers.cc,
--     rpc_connect_handlers.cc and rpc_disconnect_handlers.cc. Sm/Entries: the ring entries, and
--     runs of session management. Sm/Again: copies of a connect request. Sm/Calls: what the
--     user's calls return. Sm/Linked and its children: a client and a server that exchange the
--     packets of a session, from its creation to its end.
--   Alloc/Huge: HugeAlloc of peer/erpc/util/huge_alloc.h and huge_alloc.cc. A free list is a list of
--     buffers with its back first; the region that the system gives, if any, is an argument.
--     Alloc/Classes: the size classes. Alloc/Cover: which addresses are free. Alloc/Full: when
--     an allocation succeeds. Alloc/Steps: runs of allocations and frees.
--   Prelude: tests, lists and maps on native numbers. The Tests modules apply the results to small
--     states.
--
-- Numbers are natural numbers. Bit fields and the 64-bit differences that can wrap keep their
-- modulus; counters of packets and of credits stay below it. Loops run over lists or up to a
-- number that the code computes beforehand. Two loops of the hugepage allocator run on fuel: the
-- search of a class has as many rounds as there are classes, which suffices for every size that is
-- allowed, and a number of 32 bits is halved 32 times.
--
-- What the code asserts, and aborts on, is not a branch of the definitions: where a theorem depends on
-- it, it is a hypothesis, as that a response fits its buffer or that memory is left.
--
-- Parameters, since they are not of this code: the transport's constants and routing information,
-- the outcome of posts and completions of the RDMA library, the time, random numbers, and the
-- verdict of the congestion control, which computes with floating-point numbers. Not modelled: the
-- transports, sockets, clocks, logging and statistics, which only do input and output; the other
-- parts of the copy of eRPC that is kept in this tree, which are its timing wheel, heartbeat manager,
-- Nexus, containers and session resets; and the destructors, which return memory. What is modelled
-- of that copy is what the client and the server run on.
pub mod Prelude
pub mod Wire
pub mod Rpc
pub mod Sm
pub mod Core
pub mod Alloc
pub mod Peer
