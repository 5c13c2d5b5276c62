-- ===== src/Runtime/Start.antt =====
-- `start` of src/runtime/edge_runtime.cpp. What the components outside of the model answer is an
-- environment: the identity, discovery, the profiler, the registry of backends and the transport.
use socrates.Prelude.{
  ℕ, Bool, true, false, ◌||◌, Option, none, some, List, [], ◌++◌, Text, is_empty, map,
  if◌then◌else◌,
}
use socrates.Types.{Result, ok, err, ErrorCode, CapabilityProfile, failed_precondition, ◌>>=◌}
use socrates.Cluster.{PeerAdvertisement, MembershipSnapshot, leech, participant}
use socrates.Cluster.Membership
use socrates.Cluster.Membership.{
  MembershipService, IdentityProvider, Emits, observe, promote_joining_members, update_capability,
}
use socrates.Cluster.Election
use socrates.Pipeline.{BatchingConfig}
use socrates.Pipeline.Store.{Pipeline, make_inference_pipeline}
use socrates.Pipeline.Control.{set_local_node_id, set_production_mode, set_batching_config}
use socrates.Runtime.State.{stopped, starting, ready, is_stopped}
use socrates.Runtime.{EdgeRuntime, RuntimeSnapshot, no_leader, emit_snapshot}

pub record RuntimeConfig : Type 0 where
  pub cluster_id : Text
  pub production_mode : Bool
  pub batching : BatchingConfig
  pub start_as_leech : Bool

-- `discovery` is the code of the `RuntimeError` that discovery throws. A transport that is not built
-- in does not start.
pub record Environment : Type 0 where
  pub identity_provider : IdentityProvider
  pub public_key_fingerprint : Text
  pub discovery : Option ErrorCode
  pub profile : Result CapabilityProfile
  pub makes_registry : Bool
  pub transport_starts : Bool
  pub now : ℕ

abbrev pub default_profile : ℕ → CapabilityProfile
default_profile received_at = record {
  node_id = [];
  revision = 0;
  measured_at = 0;
  received_at = received_at;
  valid_for = 0;
  total_memory_bytes = 0;
  available_memory_bytes = 0;
  cpu_model = [];
  logical_cpu_count = 0;
  accelerators = [];
  backends = [];
  measured_benchmarks = [];
  network_to_leader = record {
    round_trip_latency = 0;
    available_bandwidth_bytes_per_second = 0;
    measured_at = 0;
  };
  extensions = [];
}

-- The members of a runtime that was just made.
unfoldable pub make_edge_runtime : ℕ → EdgeRuntime
make_edge_runtime received_at = record {
  state = stopped;
  production_mode = false;
  has_callback = false;
  local_node_id = [];
  local_profile = default_profile received_at;
  membership = none;
  election = none;
  pipeline = none;
  has_discovery = false;
  has_transport = false;
  has_backend_registry = false;
  current_plan = none;
  local_models = [];
  local_role = leech;
  heartbeat_active = false;
}

abbrev pub begin_start : RuntimeConfig → Bool → EdgeRuntime → EdgeRuntime
begin_start config has_callback r = record r {
  state = starting;
  production_mode = config.production_mode;
  has_callback = has_callback;
  local_role = if config.start_as_leech then leech else participant;
}

-- A membership that was just made accepts its start.
abbrev pub started_membership : IdentityProvider → MembershipService
started_membership provider = elim (Membership.start Membership.initial provider true) [
  | ok m ↦ m
  | err e ↦ Membership.initial
]

abbrev pub local_peer : Text → Text → PeerAdvertisement
local_peer id fingerprint = record {
  node_id = id;
  incarnation = 1;
  endpoints = [];
  public_key_fingerprint = fingerprint;
  metadata = [];
}

-- `try { ... } catch (...) { }` around a call of membership, behind the snapshots so far.
abbrev pub caught :
    MembershipService × List MembershipSnapshot
    → Result (MembershipService × List MembershipSnapshot)
    → MembershipService × List MembershipSnapshot
caught before (ok (m, out)) = (m, before.1 ++ out)
caught before (err e) = before

-- The profile of the last start stays when the profiler fails.
abbrev pub inspected : Result CapabilityProfile → Text → CapabilityProfile → CapabilityProfile
inspected (ok p) id old = if is_empty p.node_id then record p { node_id = id } else p
inspected (err e) id old = if is_empty old.node_id then record old { node_id = id } else old

-- The local node observes itself, is promoted and gets its profile.
unfoldable pub register_self :
    PeerAdvertisement
    → CapabilityProfile
    → ℕ
    → MembershipService
    → MembershipService × List MembershipSnapshot
register_self peer profile now m =
    let observed = caught (m, []) (observe m peer now) in
    let promoted = caught observed (promote_joining_members observed.0 now) in
    caught promoted (update_capability promoted.0 profile)

-- Before there is an election the callback hands on each snapshot with nobody as the leader.
abbrev pub handed_on : EdgeRuntime → MembershipSnapshot → RuntimeSnapshot
handed_on r snap = record {
  state = r.state;
  membership = snap;
  leadership = no_leader;
  active_plan = r.current_plan;
  local_models = r.local_models;
  local_role = r.local_role;
}

-- The term store in memory has term zero.
abbrev pub started_election : Text → Text → Election.BullyElection
started_election id cluster = elim (Election.start Election.initial id cluster (ok 0) true) [
  | ok e ↦ e
  | err e ↦ Election.initial
]

abbrev pub configured : RuntimeConfig → Text → Pipeline → Pipeline
configured config id p =
    set_batching_config config.batching
      (set_production_mode config.production_mode (set_local_node_id id p))

-- Behind discovery, which is the last that fails a start.
unfoldable pub finish_start :
    Environment
    → RuntimeConfig
    → Text
    → MembershipService
    → EdgeRuntime
    → EdgeRuntime × Result (List RuntimeSnapshot)
finish_start env config id m r =
    let profile = inspected env.profile id r.local_profile in
    let (m', out) = register_self (local_peer id env.public_key_fingerprint) profile env.now m in
    let has_registry = env.makes_registry || r.has_backend_registry in
    let r' : EdgeRuntime = record r {
      state = ready;
      local_profile = profile;
      membership = some m';
      election = some (started_election id config.cluster_id);
      pipeline =
          some (configured config id (make_inference_pipeline env.transport_starts has_registry));
      has_transport = env.transport_starts;
      has_backend_registry = has_registry;
      heartbeat_active = true;
    } in
    let early = if r.has_callback then map (handed_on r) out else [] in
    (r', emit_snapshot r' >>= λ last. ok (early ++ last))

abbrev pub discovered :
    Environment
    → RuntimeConfig
    → Text
    → MembershipService
    → EdgeRuntime
    → Option ErrorCode
    → EdgeRuntime × Result (List RuntimeSnapshot)
discovered env config id m r none = finish_start env config id m r
discovered env config id m r (some code) = (r, err code)

abbrev pub start_identified :
    Environment
    → RuntimeConfig
    → Result Text
    → EdgeRuntime
    → EdgeRuntime × Result (List RuntimeSnapshot)
start_identified env config (err code) r = (r, err code)
start_identified env config (ok id) r =
    let m = started_membership env.identity_provider in
    let r' : EdgeRuntime = record r {
      local_node_id = id;
      membership = some m;
      has_discovery = true;
    } in
    discovered env config id m r' env.discovery

-- With the state in the end also where an error is returned.
unfoldable pub start :
    Environment → RuntimeConfig → Bool → EdgeRuntime → EdgeRuntime × Result (List RuntimeSnapshot)
start env config has_callback r =
    if is_stopped r.state
    then start_identified env config env.identity_provider.local_identity
        (begin_start config has_callback r)
    else (r, err failed_precondition)
