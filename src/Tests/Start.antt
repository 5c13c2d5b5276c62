-- ===== src/Tests/Start.antt =====
-- A runtime that starts alone, and the C functions over it.
use socrates.Prelude.{
  ℕ, ◌+◌, ◌*◌, ◌^◌, ◌≤◌, ◌≡◌, refl, true, false, Option, none, some, List, [], ◌∷◌, Text, text,
  text_eq, find_key, set_key, map, arith,
}
use socrates.Types.{ok, err, ◌>>=◌, failed_precondition, unavailable}
use socrates.Cluster.{Member}
use socrates.Cluster.Membership
use socrates.Cluster.Membership.{
  MembershipService, find_member, update_member, observe, refresh, new_member, admits,
  promote_joining_members, promote, update_capability, set_capability, build_snapshot,
  liveness_round, age, age_revision, update_model_presence, set_models, update_local_role, set_role,
}
use socrates.Cluster.Election
use socrates.Cluster.Election.{
  BullyElection, current, update_membership, alive_ids, max_element, elect,
}
use socrates.Pipeline.{BatchingConfig, immediate}
use socrates.Pipeline.Store.{Pipeline, make_inference_pipeline}
use socrates.Pipeline.Control
use socrates.Pipeline.Control.{
  set_local_node_id, set_production_mode, set_batching_config, count_workers, count_emitting,
  active_generation_count, new_request, cancel_immediate,
}
use socrates.Runtime
use socrates.Runtime.{
  EdgeRuntime, snapshot, runtime_snapshot, emit_snapshot, do_stop, is_local_leader,
}
use socrates.Runtime.State.{starting}
use socrates.Runtime.Start
use socrates.Runtime.Start.{
  RuntimeConfig, Environment, make_edge_runtime, register_self, finish_start,
}
use socrates.Runtime.Alone.{plan_of, join_cluster-alone}
use socrates.Runtime.Shards.{scheduling_input}
use socrates.Scheduler.{PipelinePlan}
use socrates.Scheduler.Plan.{create_plan}
use socrates.Runtime.{RuntimeSnapshot, join_cluster, announce_models, simulated_models}
use socrates.Runtime.Idle.{Turn, liveness, heartbeat, waited}
use socrates.Cluster.{MembershipSnapshot, alive}
use socrates.Types.{LeadershipFence}
use socrates.Tests.Data.{member, host}
use socrates.Runtime.Reachable.{made, called, starts, snapshot-Reachable}
use socrates.Runtime.Leave.{drain, Drained, drain_terminates}
use socrates.Bindings.{Global, GenerateArguments, socrates_generate, socrates_shutdown}
use socrates.Bindings.Calls.{Silent, socrates_shutdown-Silent}
use socrates.Tests.Data.{node_a, profile, two_stages}

program : Unit {0}
unfolding text_eq find_key set_key Membership.start Membership.initial find_member update_member
    observe refresh new_member admits promote_joining_members promote update_capability
    set_capability build_snapshot Membership.snapshot Election.start Election.initial current
    make_inference_pipeline set_local_node_id set_production_mode set_batching_config register_self
    finish_start make_edge_runtime Start.start snapshot runtime_snapshot emit_snapshot do_stop
    is_local_leader
program = tt

abbrev batching : BatchingConfig
batching = record {
  mode = immediate;
  max_batch_size = 4;
  batch_timeout = 5;
  long_context_threshold = 4096;
}

abbrev config : RuntimeConfig
config = record {
  cluster_id = text "home";
  production_mode = false;
  batching = batching;
  start_as_leech = true;
}

abbrev env : Environment
env = record {
  identity_provider = record { local_identity = ok node_a; authenticate = λ p cert. ok p.node_id };
  public_key_fingerprint = node_a;
  discovery = none;
  profile = ok (profile node_a 1000);
  makes_registry = true;
  transport_starts = false;
  now = 7;
}

abbrev started : EdgeRuntime
started = (Start.start env config true (make_edge_runtime 0)).0

snapshot-Reachable_example :
    (m : MembershipService) × (e : BullyElection) × (p : Pipeline) × (started.pipeline ≡ some p)
    × (snapshot started
        ≡ ok (record {
          state = started.state;
          membership = build_snapshot m;
          leadership = e.state;
          active_plan = started.current_plan;
          local_models = started.local_models;
          local_role = started.local_role;
        }))
unfolding program
snapshot-Reachable_example =
    snapshot-Reachable started (called (made 0) (starts env config true)) refl

abbrev members_of : Option MembershipService → List Member
members_of none = []
members_of (some m) = m.members

-- The node is its only member, with its profile, and leads nothing yet.
started_alone :
    map {B = Text × ℕ} (λ m. (m.peer.node_id, m.last_seen)) (members_of started.membership)
    ≡ (node_a, 7) ∷ []
unfolding program
started_alone = refl

no_leader_yet : is_local_leader started ≡ ok false
unfolding program
no_leader_yet = refl

-- A discovery that throws leaves the runtime starting, and the next start is refused.
abbrev lost : EdgeRuntime
lost =
    (Start.start (record env { discovery = some unavailable }) config true (make_edge_runtime 0)).0

lost_state : lost.state ≡ starting
unfolding program
lost_state = refl

refused_start : (Start.start env config true lost).1 ≡ err failed_precondition
unfolding program
refused_start = refl

abbrev busy : Pipeline
busy = record (make_inference_pipeline false true) {
  active_requests = (text "r", 0) ∷ [];
  workers = (text "r", 0) ∷ [];
}

-- A generation that never ends: the wait is over after 301 sleeps.
drain_terminates_example :
    (n : ℕ) × (drain (λ i. busy) (λ i. 5 + i * 10 ^ 8) 5 302 0 ≡ some n)
    × (n ≤ 301)
    × Drained (λ i. busy) (λ i. 5 + i * 10 ^ 8) 5 n
drain_terminates_example =
    drain_terminates (λ i. busy) (λ i. 5 + i * 10 ^ 8) 5 (λ i. omega arith) (omega arith)

abbrev global : Global
global = record {
  runtime = some (record started { current_plan = some (two_stages 1) });
  config = none;
  handles = [];
  initialized = true;
}

abbrev after_shutdown : Global
after_shutdown = record global { runtime = none; handles = []; initialized = false }

shutdown_works : socrates_shutdown true global ≡ some (after_shutdown, 0)
unfolding program socrates_shutdown
shutdown_works = refl

socrates_shutdown-Silent_example : Silent after_shutdown
unfolding program
socrates_shutdown-Silent_example = socrates_shutdown-Silent global after_shutdown shutdown_works

abbrev arguments : GenerateArguments
arguments = record {
  request_id = some (text "r");
  model_id = none;
  prompt = some (text "hi");
  max_tokens = 3;
  temperature = 0;
  context_window = 100;
}

abbrev state_of : Option (Global × ℕ) → Global
state_of none = global
state_of (some (g, code)) = g

abbrev generating : Global
generating = state_of (socrates_generate arguments true global)

-- What the scheduler of the node sees when it has joined.
abbrev seen : MembershipSnapshot
seen = record {
  revision = 5;
  members = record (member node_a alive 1000) { models = simulated_models; last_seen = 7 } ∷ [];
}

abbrev first_fence : LeadershipFence
first_fence = record { term = 1; token = text "t"; membership_revision = 4 }

abbrev turns : List Turn
turns = liveness (7 + 10 ^ 9) ∷ heartbeat (text "b") (7 + 2 * 10 ^ 9) ∷ []

join_cluster-alone_example :
    (is_local_leader started ≡ ok false)
    × (r' : EdgeRuntime) × (saved : List PipelinePlan) × (out : List RuntimeSnapshot) × ((waited
            turns started
          >>= λ w. join_cluster host none (text "t") 9 w false)
        ≡ ok (r', saved, out))
    × (is_local_leader r' ≡ ok true)
    × (r'.current_plan ≡ plan_of (create_plan host (scheduling_input none seen first_fence)))
unfolding program
join_cluster-alone_example =
    join_cluster-alone node_a node_a (λ p cert. ok p.node_id) (profile node_a 1000) 7 refl refl refl
      true false true 0 config (text "t") 9 host none turns refl refl

-- After twelve seconds the node suspects itself, and nobody leads when it joins.
suspected :
    (waited (liveness (7 + 12 * 10 ^ 9) ∷ []) started >>= λ w.
    join_cluster host none (text "t") 9 w false >>= λ r. is_local_leader r.0)
    ≡ ok false
unfolding program waited join_cluster announce_models liveness_round age age_revision
    update_model_presence set_models update_local_role set_role update_membership alive_ids
    max_element elect
suspected = refl
