-- ===== src/Lib.antt =====
-- Verification of the core of my_cyber, the communication layer in IntelligentDriving/my_cyber (an
-- adaptation of Apollo Cyber RT): nodes write messages to channels, and other nodes read them.
--
-- How the parts work together. A transmitter serialises a message into a block of a shared-memory
-- segment, whose blocks are guarded by a lock each, and announces the block through the notifier;
-- a dispatcher in another process listens to the notifier, locks the block for reading and hands
-- the message on. The messages of a channel end in a ring per reader, from which the reader
-- fetches them by position; a component with several channels gets them fused. Readers that join
-- late are given what the transmitter's history keeps, and nodes in one process may use the
-- blocker instead of the rings. The two ends of a channel are hybrid: each time the other end of a
-- reader or a writer joins or leaves, its relation (same process, same host, another host) says by
-- which mode it is served, and the receiver adds or removes its listener in the dispatcher of that
-- mode. A dispatcher has a listener handler per channel, which runs its listeners through signals.
-- Service discovery keeps the roles of nodes, writers, readers, servers and clients in warehouses,
-- and who writes to whom in a graph, both of which the channel manager keeps up to date. Timers
-- run on a timing wheel. The work itself is done in coroutines, which a scheduler resumes on its
-- processors by priority, and which wait for messages until their notifiers wake them. Names of
-- channels and nodes become numbers in the registers of GlobalData.
--
-- The files, and the code that each is about (paths below IntelligentDriving/my_cyber):
--   Data.Cache              data/cache_buffer.h: CacheBuffer as a record over a list of slots; Fill is
--                           `fill`, and `store` its branch without a fusion callback
--   Data.Channel            data/channel_buffer.h: Fetch, Latest and FetchMulti are `fetch`, `latest`,
--                           `fetch_multi`; data/data_visitor.h: TryFetch of one channel
--   Data.Fusion             data/fusion/all_latest.h for two channels, and Dispatch of
--                           data/data_dispatcher.h
--   Shm.Conf                transport/shm/shm_conf.cc: the size classes; Update is `update`
--   Shm.Block               transport/shm/block.cc: each atomic access of the four lock functions is a
--                           case of `access`; `Step` and `Reach` interleave the threads
--   Shm.Memory, Shm.Segment transport/shm/state.h and posix_segment.cc: OpenOrCreate, OpenOnly, Reset,
--                           Remove, Remap
--   Shm.Segment.Access      transport/shm/segment.cc: acquiring and releasing blocks, Recreate, Destroy
--   Shm.Notifier            transport/shm/condition_notifier.cc: Notify by its three accesses, and the
--                           loop of Listen
--   Shm.Buffers             the sizes in a block (transport/shm/block.h) and the buffers of a segment
--   Shm.Transmitter         transport/transmitter/shm_transmitter.h
--   Shm.Dispatcher          transport/dispatcher/shm_dispatcher.cc and shm_dispatcher.h; `handle` is the
--                           round of ThreadFunc that is told of a block
--   Wire                    transport/shm/readable_info.cc, transport/message/message_info.cc and
--                           transport/common/identity.h as bytes
--   Timer.Wheel             timer/timing_wheel.cc, timer_bucket.h and timer_task.h: AddTask, Tick,
--                           Cascade, and TickFunc as rounds
--   Timer.Periodic          timer/timer.cc: Start and Stop, and the callback of a periodic timer; the
--                           nanoseconds at which a run starts and ends are its arguments
--   Blocker                 blocker/blocker.h
--   History                 transport/message/history.h
--   Dispatch                transport/dispatcher/dispatcher.h and dispatcher.cc
--   Dispatch.Handler        transport/message/listener_handler.h: Connect and Disconnect with two ids are
--                           `connect_to` and `disconnect_from`
--   Dispatch.Chain          ChannelChain of transport/dispatcher/intra_dispatcher.h
--   Dispatch.Intra          IntraDispatcher of the same file
--   Dispatch.Receivers      transport/receiver/shm_receiver.h (rtps_receiver.h is the same with another
--                           dispatcher), and OnMessage of shm_dispatcher.cc
--   Hybrid                  common/types.h, proto/transport_conf.proto, and GetRelation and ObtainConfig of
--                           the two hybrid ends
--   Hybrid.Transmitter      transport/transmitter/hybrid_transmitter.h
--   Hybrid.Receiver         transport/receiver/hybrid_receiver.h
--   Graph                   service_discovery/container/graph.cc
--   Role, Warehouse         service_discovery/role/role.cc, and the two warehouses of
--                           service_discovery/container
--   Topology                proto/topology_change.proto, and Convert of manager.cc of
--                           service_discovery/specific_manager
--   Topology.ChannelManager channel_manager.cc, and Join, Leave, OnRemoteChange and Publish of manager.cc
--                           as a channel manager runs them
--   Topology.Queries        the queries of channel_manager.cc
--   Base.Signal             base/signal.h: Signal, Slot and Connection
--   Base.HashMap            base/atomic_hash_map.h: Has, Get and Set; a call is one step
--   Base.BoundedQueue       base/bounded_queue.h: Enqueue and Dequeue, an atomic access each a case of
--                           `act`; `Reach` interleaves the threads
--   Base.RwLock             base/atomic_rw_lock.h: the four operations, an atomic access each a case of
--                           `access`
--   GlobalData              common/global_data.cc: the registers of names
--   Croutine                croutine/croutine.cc and croutine.h: the states of a coroutine
--   Scheduler               what the two schedulers share: heaps of coroutines, the scan of a queue,
--                           removal of a routine
--   Scheduler.Classic       scheduler/policy/scheduler_classic.cc and classic_context.cc
--   Scheduler.Choreography  scheduler/policy/scheduler_choreography.cc and choreography_context.cc
--   Scheduler.Wakeup        a routine of croutine/routine_factory.h that looks for a message and
--                           waits, against its notifiers, one access at a time; the registration of
--                           the callback by CreateTask of scheduler/scheduler.cc is a step, and
--                           Notify of data/data_notifier.h does nothing before it
--   Common                  lists, maps, words and tests on numbers that the parts share
--   Tests                   runs at concrete inputs
-- The modules below a part hold what is shown about it, and are named for that.
--
-- Conventions. A call that holds a mutex or a lock for its whole length is one step. Words wrap at
-- their width (`% 2 ^ w`), and the counters that are an int or an atomic int32_t, the
-- notifications of a scheduler's group and the locks, go from 2^31 - 1 to -2^31. A map is an
-- association list, and its order stands for the unspecified order of iteration. Strings are lists
-- of bytes. Out-parameters are results, and are never null. Following a null pointer and an access
-- outside a region are the outcome `undefined`. Log lines are left out.
--
-- Parameters. The calls of the operating system on shared memory are the record `Os`, with one
-- law: memory keeps what was written to it. The sizes and buffers in that memory are the record
-- `Buffers`, whose laws say, inside one mapping, that what was written is read and what lies
-- elsewhere stays; the length of the mapping at an address is a parameter too. The hash function
-- of identities is a function of bytes. Whether the object behind a weak pointer of the timing
-- wheel still exists is a function per round. A weak compare-exchange may fail without a reason,
-- which a flag of the access says. The hash of a name in the registers, the keys that the channel
-- manager's queries get from the registers, the clock of the scheduler and of Convert, and whether
-- the publisher's write succeeds are parameters. The bytes of a message, and which bytes the
-- parser of a message type takes, are parameters of the dispatcher of a process.
--
-- Fuel. `traverse` has two rounds more than the graph has edges; `next_writable` as many as there
-- are blocks; `listen_from` two more than the timeout has steps of 50 microseconds; FetchMulti one
-- more than the messages it takes. Running out is a value of its own in the first three. The
-- digits of a 64-bit number are 20 at most. A register tries as many numbers as its fuel says, and
-- one that is free among them is enough. The counters of BoundedQueue are of 64 bits, and no queue
-- sees 2^64 calls.
--
-- Not modelled: the threads and sleeping themselves, the System V variant of segments, multicast
-- and RTPS, the thread that receives history, the context switch of coroutines and the affinity of
-- threads, the managers of nodes and services and the start of discovery, nodes, services and
-- components, class loading, logging and files. The C++ arithmetic on doubles in AddTask is exact
-- below 2^53, and that of the timer below 2^50 nanoseconds; both are written on numbers. The
-- interleaving of several processes is modelled for the lock of a block and for the accesses of
-- Notify, not for whole calls of Segment.
pub mod Common
pub mod Base
pub mod GlobalData
pub mod Croutine
pub mod Data
pub mod Shm
pub mod Timer
pub mod Warehouse
pub mod Wire
pub mod Blocker
pub mod History
pub mod Graph
pub mod Role
pub mod Scheduler
pub mod Topology
pub mod Dispatch
pub mod Hybrid
pub mod Tests
