-- ===== src/Lib.antt =====
-- The Propagator early-warning system (Propagator_Solution): warnings go from a data source down
-- a tree of processes to the destinations.
--
-- The parts, and how they interact (the paths of C files are below Propagator_Solution/):
-- * nodes.csv is read by `node_load_all` (Common/node.c) into an array of
--   nodes with parents and children. Node.antt is its text, Node/Link.antt its loops, and
--   Node/Linked.antt what they leave; Node/Fields.antt and Node/RoundTrip.antt are about the text.
--   Node/Memory.antt has the early returns and the blocks that are allocated and freed, with
--   Node/Memory/Freed.antt and Node/Memory/Keys.antt for the proofs. A pointer to a node is an
--   index, the array a function.
-- * The source (DataSource/network_sender.c) sends each warning to the root
--   above its destination; a propagator (CentralPropagator/cp_dispatcher.c)
--   sends it to the child above the destination. Routing.antt has both and the helpers of
--   Common/utils.c, Routing/Paths.antt the routes, and Routing/Context.antt the map that
--   CentralPropagator/cp_context.c makes of a propagator's subtree, which Routing/Subtree.antt is
--   about. Routing/Memory.antt has the blocks of that context, Routing/Memory/Calls.antt and
--   Routing/Memory/Freed.antt the proofs.
-- * A warning (Common/Warning.h, Common/warning.c; Warning.antt) travels as the message of
--   README.md: Wire.antt packs it as `send_warning_to` in Common/propagator_client.c does, and
--   Wire/Receiver.antt reads it as CentralPropagator/cp_listener.c does; Wire/Bytes.antt has the
--   byte lists, Wire/Layout.antt and Wire/RoundTrip.antt the proofs, and Wire/Truncated.antt those
--   for a connection that ends within a message. Wire/Copy.antt is the reader of
--   DataDestination/data_destination.c, with the buffers that it allocates, and Wire/Copy/Same.antt
--   compares the two. Warning/Printing.antt has the texts for the log, with
--   Warning/Printing/Printed.antt for the proofs, and Warning/Blocks.antt the memory of a warning.
-- * Common/hashmap.c is HashMap.antt, its proofs are under HashMap/: Chain for one chain, Buckets
--   for the array, Valid and Resize for the rehash, Put, Success, Remove and Create for the
--   operations, Weight and Ownership for what a map owns, and Lives for all the calls on one map.
--   Text.antt has C strings and the hash and equality that node.c and cp_context.c give the maps.
-- * Common/queue.c is Queue.antt, on a heap of nodes; Queue/Segment.antt says when the heap holds
--   a queue, Queue/Fifo.antt has the operations, and Queue/Script.antt sequences of calls.
-- * CentralPropagator/cp_dispatcher.c runs its jobs on CentralPropagator/thread_pool.c:
--   ThreadPool.antt is that pool as a state machine, whose actions are what one thread does between
--   two points at which others may run, ThreadPool/Jobs.antt counts jobs, ThreadPool/Shutdown.antt
--   and ThreadPool/Drain.antt have the invariants, ThreadPool/Steps.antt and
--   ThreadPool/Progress.antt the end of the shutdown, and ThreadPool/Blocks.antt what the pool
--   acquires. Its queue is Common/tsqueue.c: TsQueue.antt,
--   with TsQueue/History.antt for the interleavings and TsQueue/Progress.antt for single turns.
-- * `send_warning_to` (Client.antt, with Client/Framing.antt for one call, Client/Session.antt for
--   all calls of a process and Client/Workers.antt for several threads) takes its socket from
--   Common/propagator_connections.c: Connections.antt, with Connections/Reuse.antt,
--   Connections/Outcomes.antt, Connections/Close.antt, Connections/Cleanup.antt,
--   Connections/Ledger.antt and Connections/Traffic.antt for the proofs. Client/Stream.antt has
--   the bytes in each socket, Client/Sockets.antt and Client/Safe.antt follow them from call to
--   call, and Client/Delivered.antt says what the peer makes of them.
-- * DataSource/data_generator.c makes the warnings and DataDestination/data_destination.c counts
--   them: Endpoints.antt, with the proofs in Endpoints/Generated.antt and Endpoints/Received.antt.
-- * Listeners.antt has the loops over `accept` of CentralPropagator/cp_listener.c and of
--   DataDestination/data_destination.c, Listeners/Clients.antt what they receive.
-- * System.antt puts these together, from the rows of nodes.csv to the destinations;
--   System/Contexts.antt is about the maps, System/Delivery.antt about the way of a warning. It
--   uses Node/Ids.antt, Node/Children.antt and Node/Forest.antt on what the loader leaves,
--   Routing/Search.antt on the search by id, and Routing/File.antt on the tree of a file.
-- * DataSource/cp_launcher.c starts the processes: Launcher.antt, on the counted handles of
--   Handles.antt; Launcher/Chosen.antt has the nodes that are meant, Launcher/Held.antt and
--   Launcher/Balance.antt the handles, Launcher/Report.antt what the caller is told.
-- * The process of the data source (DataSource/main.c): Source.antt has the signals and the
--   closing of windows, Source/Main.antt the main function; the proofs are in Source/Signals.antt,
--   Source/Closing.antt and Source/Safe.antt. Text/Format.antt has `snprintf` and `atoi` on
--   numbers.
-- * The starts and the ends of the other processes, by what they acquire and release
--   (Resources.antt): DataDestination/data_destination.c and DataDestination/main.c are
--   Destination.antt with Destination/Lifecycle.antt, CentralPropagator/main.c is Propagator.antt
--   with Propagator/Exit.antt. ExitEvent.antt has the handlers of the console and the wait for the
--   exit event, DebugLog.antt the memory reports of Common/utils.c, with DebugLog/Paths.antt for
--   the files and DebugLog/Reports.antt for the text.
-- * Dispatcher.antt is `cp_dispatcher_submit` interleaved with the pool, Dispatcher/Ownership.antt
--   says what becomes of the warnings.
-- * Prelude.antt has the shared names and lemmas; the files under Tests/ run the definitions.
--
-- Numbers: `size_t` and `uint32_t` arithmetic keeps its remainder where the code may wrap. A
-- `double` is its 64 bits. `resize_if_needed` compares floats; the model compares exactly, which is
-- the same below 2 ^ 23 entries, where the floats are exact and the quotient's rounding cannot
-- pass 0.75. Numbers in nodes.csv are those that `atoi` reads without overflow.
--
-- Parameters: the outcome of each `malloc`, `calloc` and `CreateThread`, also where the code does not
-- test it; when the sender finds the stop event set; whether a listener has stored its socket; Winsock's `recv`, which gives a
-- nonempty piece of what is to arrive, or its end; what the C library prints for a `double` and a
-- time, and which times it takes;
-- what `socket`, `connect`, `accept` and `send` do; the generator's random numbers and time; what
-- Windows does in the calls of the launcher and of the main functions, and `EnumWindows`, which is
-- taken as documented where a theorem needs it; `htonl` and `ntohl`, by the bytes that they give.
-- The host is little-endian.
--
-- Fuel: `recv_loop` has the bytes that are wanted, since each round receives one at least;
-- `read_rows` the length of the file, or the number of its lines; `serve_client` more than the
-- number of messages; `find_root` and `climb` more than the rank of the node in the tree, and
-- `collect_subtree` more than its depth; `decimal` the ten digits of a `%u`.
--
-- Not modelled: the two threads of the data source inside `main`, the calls that set up a
-- listening socket or the console, the settings of the debug heap, the file of a destination's
-- counter, and printing to the console. Waiting for a process or a thread is taken to return. The
-- allocations that the code does not test, of `realloc` and behind the map in `node_load_all`, of the
-- two blocks of a context in `cp_context_create` and in `await_cp_and_dd_propagation_objects`, are
-- taken to succeed, and so are the copies of ids that `_strdup` makes. The
-- blocks that a hash map has for itself are not followed, those of its keys and values are.
pub mod Prelude
pub mod Queue
pub mod HashMap
pub mod Text
pub mod Warning
pub mod DebugLog
pub mod Wire
pub mod Node
pub mod Routing
pub mod System
pub mod Handles
pub mod Launcher
pub mod Source
pub mod Endpoints
pub mod Listeners
pub mod ThreadPool
pub mod Dispatcher
pub mod TsQueue
pub mod Connections
pub mod Client
pub mod ExitEvent
pub mod Resources
pub mod Destination
pub mod Propagator
mod Tests
