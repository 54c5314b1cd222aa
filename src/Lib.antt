-- ===== src/Lib.antt =====
-- lane_switchboards: an actor runtime in the style of OTP, with supervision, a registry and a monitor
-- of the actors of a process, and a TCP layer with a consistent-hash ring, a roster of remote nodes
-- and a service mesh. Paths are those of the repository.
--
-- The parts, and the files that model them:
--   Config      src/config.rs: tuning records and their defaults.
--   Registry    src/registry.rs: the process-wide index from an actor to its control channel and its
--               supervisor's channel.
--   Monitor     src/monitor.rs: the counters of each actor, as 64-bit words that wrap.
--   Actor       src/actor.rs. Types has the identifiers, messages and exit reasons. World is what the
--               actors share: registry, monitor, control queues, supervisors' queues, the exits told
--               to observers, and the counter of identifiers. Message is `handle_message`, Spawn is
--               `spawn_on_runtime`, Ref is `ActorRef`, and Run is `run_actor`: the loop, one input at
--               a time, and `finish_actor`. Ask is the macros of src/macros.rs.
--   Supervisor  src/supervisor.rs: the task of a supervisor over the events that wake it. Start is
--               `start_settled`, Children the registry and the slots that outlive a restart.
--   System      a supervisor with the actors that it spawns: `start_settled`, `spawn_child_spec` and
--               `run_actor` as tasks that take their turns in any order.
--   HashRing    src/hash_ring.rs: ring, nodes, look-ups; Address and Decimal are the texts
--               `host:port`, with `host_from_addr` of src/tls.rs.
--   Cluster     src/distributed.rs: the roster of remote members, with `RemoteActorRef`. Swap is
--               `Vec::swap_remove`, Send the operations that send.
--   Frames      src/distributed.rs: the wire, `write_frame` and `handle_conn`, over bytes. Writer is
--               `remote_write_loop`, the task behind a remote reference; Node is `Node` with its
--               dispatch table, the tasks of frames, the bridge, and `serve_actor_on_runtime`;
--               Server is the loop of `Node::bind_on_runtime`, its connections and the tasks that
--               hold permits of the in-flight semaphore, in any order.
--   Mesh        src/mesh.rs: the routes of `ServiceMesh`. Registry is the control plane
--               `MeshRegistry` with the handler of a connection, Server the tasks of
--               `MeshRegistryServer` in any order, Control the control frames over bytes,
--               Client `MeshRegistryClient`, Router `MeshRouter` and `join_mesh`, Service
--               `serve_microservice`, and Invoke the calls that pass to a roster. View is the mesh as
--               a map from a service and an identifier to the instance.
--   Tls         src/tls.rs: connecting, accepting, and the configurations made from PEM files.
--   Recoverable examples/recoverable_timer_calc.rs: the journal of operations, the calculator that
--               replays it when it starts, and its restarts.
--   Deadlock    examples/handle_timeout_calculator_timer.rs: the calculator that journals what a
--               timeout cuts off, run by `handle_message`.
--   Base        shared names: tests, lists and maps, words and durations.
--   Tests       concrete inputs, and the theorems applied to them.
-- The other files below a part hold what is proved of it.
--
-- How they interact. An actor's loop calls `handle_message`, which brackets each call of the handler
-- by the monitor's operations and tells the supervisor of a fatal one through the registry; its exits
-- go to linked peers through the registry, too. A supervisor reads the signals that its actors send
-- and calls the children's factories. A cluster asks its ring for the node of a key and its index for
-- the reference; a mesh holds a cluster to each service. A registry's turn answers the bytes that a
-- client wrote, and its list makes the mesh. What a reference's task writes on a connection is what
-- the node at the other end reads; the tasks of its frames, in any order, put the messages into the
-- channels of their targets, and a bridge takes them to an actor's mailbox.
--
-- How state is modelled. Shared state is passed explicitly. A hash map is a list of entries with one
-- entry to a key, and its order stands for the order of iteration; a `BTreeMap` is in the order of
-- the keys. A channel is its queue; a send that waits for room is one that arrives. A bounded word
-- wraps where the code's does. A call that may panic is a `Call`.
--
-- Panics and calls that do not end. A callback other than `handle` returns or unwinds its task, as
-- `Called` says, and a panic of `handle` is caught. That each call of a callback ends is assumed: one
-- that runs for ever is a turn that is never over, and nothing is said of what comes after it.
-- `trap_exit` is taken to return.
--
-- Parameters. What an actor's callbacks do, and when `tokio::time::timeout` fires, is the interface
-- `DynActor`; all that is assumed of the timeout is that it does not fire before its limit. What
-- the factories do is the interface `Spawner`. murmur3 and the `Hash` of a text are `Hashing`, of
-- which nothing is assumed. rustls with its PEM reader, the file system and the network below a TLS
-- stream are `Rustls`, of which nothing is assumed. serde_json is `Json` for frames and
-- `ControlJson` for control messages; where a theorem needs it, it is assumed that it reads what it
-- wrote. `f64` is `Floats`, of which nothing is assumed. What the network does is an argument: the
-- attempts to connect and the fates of writes for a reference's task, an `Exchange` for a client's
-- request. The clock is an argument; a supervisor's times are counted from the earliest `Instant`.
--
-- Loops are structural: over the inputs that arrive, the events, the virtual nodes, the members. Two
-- take fuel: the decimal digits of a number, 20 of them, which is enough below 2 ^ 64, where the
-- source writes only numbers of 32 and 16 bits; and `handle_conn`, for which more than the number of
-- bytes is enough, as each frame takes some.
--
-- Not modelled: sockets; inside a TLS stream, its handshake and the polls that pass a call on; the
-- builders of Tokio runtimes; `registry_child_spec`; the sorted list of a mesh's services; logging;
-- the capacities of channels, but for the panics of `mpsc::channel` at 0; of the two examples above, the
-- timers, the ledger and the scripted runs, and the other examples, which only use the library.
pub mod Base
pub mod Config
pub mod Actor
pub mod Registry
pub mod Monitor
pub mod Supervisor
pub mod System
pub mod HashRing
pub mod Cluster
pub mod Frames
pub mod Mesh
pub mod Tls
pub mod Recoverable
pub mod Deadlock
pub mod Tests
