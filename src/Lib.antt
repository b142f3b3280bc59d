-- ===== src/Lib.antt =====
-- The iroh bridge for React Native. JavaScript reaches the Rust crate iroh_mobile_bridge through a
-- host object, NativeIrohMobileBridge, that is written in C++ against JSI; the C++ lowers JavaScript
-- values to the C ABI of the crate, lifts what comes back, and hands Rust function pointers by which
-- Rust calls JavaScript. A second, small piece of C++ installs the host object in a runtime and gives
-- Rust the Android context.
--
-- The parts, and the file that models each:
--
-- - Platform, with Platform/Types and Platform/Laws: what the C++ is compiled against and does not
--   define: the JavaScript engine behind JSI, UniffiJsiTypes.h and the crate's extern "C" functions.
--   All of it is a record that the other files take as a parameter, over one state. Laws says what the
--   code relies on, among it which Rust allocations are live.
-- - World: that state together with the statics of react-native/cpp/generated/iroh_mobile_bridge.cpp.
--   A C++ function is a function of the world whose outcome is a value, a thrown JSError, or undefined
--   behaviour (Base/Effects).
-- - Buffer: Bridging<RustBuffer> (rustbuffer_alloc, rustbuffer_free, rustbuffer_from_bytes, fromJs,
--   toJs) and the host functions rustbuffer_alloc and rustbuffer_free, of the same file. Its proofs are
--   in Buffer/Handoff and Buffer/Allocate.
-- - Status: Bridging<RustCallStatus>; proofs in Status/Errors.
-- - Callback: the namespaces cb::rustfuturecontinuationcallback and cb::foreignfuturedroppedcallback,
--   which differ in their parameters alone, and the destructor of the host object. Callback/Dropped has
--   the second namespace by its own names, Callback/Lifecycle the step relation of runtimes that come
--   and go, Callback/Registration what registering does.
-- - Call and Methods: the generated methods cpp_uniffi_iroh_mobile_bridge_fn_func_* and
--   cpp_ffi_iroh_mobile_bridge_*. They come from two templates, rust_call and plain_call, and each
--   method is an instance; those of a Rust future, for each result type, are in Methods/SmallFutures,
--   Methods/WideFutures and Methods/OtherFutures. Methods/Declarations has the C declarations. Proofs
--   are in Call/Arguments and Call/Outcomes.
-- - HostObject, with HostObject/Table (each entry of the constructor, in its order) and HostObject/Map
--   (std::map): construction, get, set, getPropertyNames. HostObject/Names has the UniFFI naming
--   scheme, HostObject/Symbols the C name behind each property; proofs are in HostObject/Laws,
--   HostObject/Declared and HostObject/Arity.
-- - ForeignFuture: Bridging<UniffiForeignFutureResult*>, Bridging<UniffiForeignFutureComplete*> and
--   Bridging<UniffiForeignFutureDroppedCallbackStruct>; ForeignFuture/Instances has each result type.
--   A proof about dropped futures is in ForeignFuture/Completion.
-- - Reference: Bridging<ReferenceHolder<T>>.
-- - Registry: the namespace registry, which nothing in the repository puts a table in.
-- - Node: parts of the Rust crate itself, rust/iroh_mobile_bridge/src/lib.rs.
--   - Node/Frame: write_frame and read_frame over tokio's streams, a parameter (proofs in
--     Node/Frame/RoundTrip); Node/Frame/ReadAll: the loop of the reader task.
--   - Node/Inbox: the inbox of a stream; Node/Inbox/Order: every interleaving of its reader task and
--     next_message.
--   - Node/Send: send and the send queue over tokio's channel and semaphore, a parameter with the laws
--     of Node/Send/Laws (proofs in Node/Send/Queue).
--   - Node/Stream: both ends of a stream together (proofs in Node/Stream/Refinement).
--   - Node/Receive: next_message and enqueue_inbox_frame with their waiting on tokio's Notify, a
--     parameter (Node/Receive/Early: when next_message returns nothing). Node/Receive/Wakeups: every
--     order of the steps of both, of close and of the ends of the tasks (proofs in its modules Awake
--     and Deadlock).
--   - Node/Sessions: cache_session and the look-ups of a session (proofs in Node/Sessions/Newest,
--     Node/Sessions/Eviction and Node/Sessions/Reuse).
--   - Node/Dial: connect, connect_target and connect_endpoint_addr, and session of tcp_forward.rs, over
--     what iroh does to dial and to open a stream, a parameter (proofs in Node/Dial/Effect, Node/Dial/Reused
--     and Node/Dial/Repeated). Node/Dial/Peer has the laws of that parameter and the key of a session,
--     Node/Dial/Interleaved every order of the parts that hold the lock.
--   - Node/Lifecycle: start, stop, close, is_running, node_id, is_stream_open, and the two places where
--     connect_endpoint_addr changes the shared state, over iroh as a parameter (Node/Lifecycle/Running:
--     every order of events, Node/Lifecycle/StartStop: what one start or stop does).
--   - Node/Targets: the validation of node identifiers, address hints and typed targets, over the
--     parsers of iroh, std and serde_json, a parameter (proofs in Node/Targets/Requested and
--     Node/Targets/Typed).
-- - Node/TcpForward: rust/iroh_mobile_bridge/src/tcp_forward.rs. The file itself has the counters
--   (Node/TcpForward/Throughput and Node/TcpForward/Counters have their proofs), Node/TcpForward/Table
--   start_tcp_forwarder, stop_tcp_forwarder, tcp_forwarder_stats and stop_all_tcp_forwarders over the
--   node's state (proofs in Node/TcpForward/Table/Managed and Node/TcpForward/Table/Started). An Instant
--   is a number of nanoseconds, and an address of a forwarder is its number.
-- - Facade: react-native/src/index.js, over the generated runtime. Facade/Errors: errorCodeFor and
--   normalizeRustError. Facade/Stream: createStream without send (proofs in its module Pumped;
--   LastFrames has it over the streams of Node/Receive). Facade/Send: send of a stream (proofs in its
--   module Order; Native has it over Node/Send). Facade/Session: openLogicalSession (proofs in
--   Facade/Session/Shut). What runs between two awaits is one function, and an await a step.
-- - Install/Runtime: react-native/cpp/react-native-iroh.cpp and registerModule. Install/Android:
--   initAndroidContext of react-native/android/cpp-adapter.cpp, with
--   react_native_iroh_init_android_context of rust/iroh_mobile_bridge/src/lib.rs. Install/Exports: the
--   functions of cpp-adapter.cpp that Kotlin calls.
-- - Sample: a platform, a Java VM and streams that meet the laws, on which the tests run the code.
--
-- How the code is read. An address is a number, and 0 is nullptr; a scalar that crosses the bridge is
-- its bit pattern; the cast to int32_t is written out. Arguments of a call are lowered from left to
-- right. `args` is a list: a read past its end is undefined behaviour. An uninitialised RustCallStatus
-- is an argument, so that what is shown holds for all of its contents. No function of the bridge loops
-- over more than its arguments or the table, so that all of them are structural. The loop of
-- cache_session runs on fuel, as much as there are sessions: each turn removes one, and
-- cache_session-bound shows that the loop's condition is false at its end. The loop of the reader task
-- runs over a list of what ends each of its rounds, and read_all-Ended shows that it ends within one
-- more than there are bytes left.
--
-- Not modelled: the CallInvoker's threads (a job that is handed to it is an entry of a list), the mutex
-- of the registry, printing to the console, a write to a stream that fails part of the way, a poisoned
-- lock of the Rust node, dial_diagnostics, the copying of bytes between TCP and QUIC, what the
-- facade does with its options, a handler of the facade that calls back into its own stream while that
-- calls it, the generated TypeScript, and the Kotlin and Objective-C++ glue.
pub mod Base
pub mod Platform
pub mod World
pub mod Buffer
pub mod Status
pub mod Callback
pub mod Call
pub mod Methods
pub mod HostObject
pub mod ForeignFuture
pub mod Registry
pub mod Install
pub mod Sample
pub mod Node
pub mod Reference
pub mod Facade
