-- ===== src/Lib.antt =====
-- A verification library for socrates, the runtime that spreads the layers of a language model over
-- the devices of a cluster. It models the parts that decide: who is in the cluster and who leads it,
-- which device runs which layers, how a generation runs through them, how tensors and calls cross the
-- wire, and how a plan is stored.
--
-- The parts and how they interact. The membership service (src/cluster/membership_service.cpp) keeps
-- the members and hands a snapshot to its callback after each change. The runtime
-- (src/runtime/edge_runtime.cpp) passes each snapshot to the election (src/cluster/bully_election.cpp),
-- which picks the leader and makes its fence. The leader's scheduler
-- (src/scheduler/memory_scheduler.cpp) turns the members and the shards of a model into a plan. The
-- pipeline (src/pipeline/inference_pipeline.cpp) admits requests against a plan, queues them, and
-- generates tokens by passes over the stages of the plan; a remote stage's tensors are frames of the
-- codec (src/transport/tensor_codec.cpp) in a unary call of the transport
-- (src/transport/grpc_transport.cpp), a local stage's session comes from a backend
-- (src/inference/backend_registry.cpp, src/runtime/backend_dispatch.cpp) and a lease of the model manager
-- (src/model/model_manager.cpp). The store of plans and of generated tokens is
-- src/persistence/sqlite_assignment_store.cpp. Peers are found by src/discovery, the catalog in
-- src/runtime/model_catalog.cpp says which models a cluster has room for, and bindings/c/socrates.cpp
-- hands the runtime to C.
--
-- The files.
--   Prelude: numbers, lists, texts, maps and sorting that all parts share.
--   Types: include/socrates/types.h and include/socrates/result.h. A class method that returns
--     Result<T> is a function into Result, with the code of the error and without its text.
--   Cluster: the data of membership and election. Cluster.Membership has one function per method of
--     MembershipServiceImpl and liveness_round for a turn of its thread; a call returns the new state
--     and the snapshots emitted. Membership.Evolution is about the states of members,
--     Membership.Invariant about revisions and ids. Cluster.Election and Election.Laws are
--     BullyElectionImpl, with writes of the term store and announcements as effects in order.
--     Cluster.Wiring is the callback that joins the two.
--   Scheduler: the data of include/socrates/scheduler/scheduler.h. Scheduler.Compatible is
--     find_compatible_backend and compute_time_estimate, Scheduler.Placement the loop of schedule_core
--     over the shards, Scheduler.Plan the rest of it with create_plan and refine_plan. The modules below
--     them are named for what they prove.
--   Pipeline: requests and events. Pipeline.Store is the state of InferencePipelineImpl, in which shared
--     requests are indices. Pipeline.Generation is the loops run_generation_*, Pipeline.Stages the
--     pass over the stages, Pipeline.Local the generation on a local model with llama.cpp as a
--     parameter and run_generation, the choice of the path, Pipeline.Queue a round of
--     dispatcher_loop, Pipeline.Control the other calls.
--   Runtime: the state of EdgeRuntimeImpl and its calls once it has started, over the models of membership,
--     election, scheduler and pipeline. Runtime.State is its states, Runtime.Start is start,
--     Runtime.Leave the wait of a graceful leave, Runtime.Profile run_profiler, and Runtime.Shards the
--     input that schedule_plan gives the scheduler. Runtime.Keeps and Runtime.Reachable follow the calls
--     of a runtime from its making on, Runtime.Idle its threads between calls, and Runtime.Alone is a
--     node that starts with nobody around.
--   Discovery: the interface of src/discovery/discovery_service.cpp and its laws. Discovery.Coordinator is
--     CoordinatedDiscovery over any adapters, Discovery.Bluetooth an adapter that fills the laws, and
--     Discovery.Udp UdpBroadcastDiscovery, with its wire format in Udp.RoundTrip.
--   Catalog: src/runtime/model_catalog.cpp, with the reading of the JSON in Catalog.Load and the laws of
--     the estimate in Catalog.Room.
--   Bindings: bindings/c/socrates.cpp over the model of the runtime, its JSON in Bindings.Json and what
--     holds across its calls in Bindings.Calls.
--   Security: IdentityProviderImpl, as the provider that membership takes as a parameter. Security.Pinned
--     puts the two together.
--   Manifest: Manifest.Parse is parse_manifest_json, field by field, over the calls of the JSON library,
--     with the names of Manifest.Names; Manifest.Index is publish and resolve.
--   Codec: TensorCodec::encode and decode. Codec.Frame and Codec.Decode are their laws, Codec.Bytes what
--     they share with the frames of the transport.
--   Transport: the state and the calls of GrpcTransport in a build without OpenSSL, and the dispatch of
--     handle_incoming in one with it. Transport.Delivery is about the frames that it dispatches.
--     Transport.Wire is crc32, encode_frame, recv_frame and the names before payloads, as what they do
--     with bytes; Wire.Frames and Wire.Names are their laws.
--   Persistence: Persistence.Json is plan_to_json and plan_from_json with the helpers they use;
--     Json.Numbers, Json.Fields, Json.Escape and Json.RoundTrip lead to what is read back.
--     Persistence.Store is SqliteAssignmentStore, with each SQL statement a field of the parameter Sqlite;
--     Store.Rows, Store.History and Store.Atomic state what SQLite documents of these statements and
--     what the store makes of it.
--   Backends: the registry, load_model_with_fallback and ModelManagerImpl::acquire.
--   Tests: runs on small inputs.
--
-- Conventions and bounds. A machine integer is a natural number, and an addition that can wrap is
-- written modulo its width. A double is its bit pattern, and what is done with it a parameter. A time
-- is a count of its unit. Clocks, random ids, SHA-256, std::sort (of which only the permutation is
-- assumed), SQLite, the JSON library, llama.cpp, the file system and the certificates are parameters, and to the
-- pipeline also the backends and the transport. Locks make a call one step; what other threads do
-- meanwhile is a parameter of the loops. Every loop is structural: over a list, over the tokens left, or
-- over the bits of a byte. The digits of a number are produced with fuel 20, which is enough for 64 bits.
-- The wait of a graceful leave has fuel for 302 rounds, which is enough for its 30 seconds where each of
-- its sleeps lasts its 100 milliseconds.
--
-- Not modelled: sockets and TLS (in src/transport/grpc_transport.cpp and src/discovery/udp_discovery.cpp),
-- Bonjour and Avahi (src/discovery/mdns_discovery.cpp), OpenSSL, queries of the operating system
-- (src/profiler), SQLite itself, llama.cpp and the adapters of other inference libraries (src/inference),
-- the validator of manifests (src/model/manifest_validator.cpp), and the command-line tools.
pub mod Prelude
pub mod Types
pub mod Cluster
pub mod Scheduler
pub mod Codec
pub mod Pipeline
pub mod Runtime
pub mod Tests
pub mod Backends
pub mod Bindings
pub mod Catalog
pub mod Discovery
pub mod Manifest
pub mod Persistence
pub mod Security
pub mod Transport
