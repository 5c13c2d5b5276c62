-- ===== src/Tests/Runtime.antt =====
-- The runtime of the two laptops, without a manifest.
use socrates.Prelude.{
  Text, Option, ◌≡◌, refl, true, false, none, some, [], ◌∷◌, text_eq, stable_sort, map, sum_by,
  arith,
}
use socrates.Types.{LayerRange, ok, err, valid, LeadershipFence, failed_precondition}
use socrates.Cluster.{MembershipSnapshot, participant}
use socrates.Scheduler.{PipelinePlan, StageAssignment}
use socrates.Scheduler.Compatible.{accepts, find_compatible_backend, compute_time_estimate}
use socrates.Scheduler.Placement.{
  required_bytes, make_stage, try_slot, try_last, try_each, choose, claim_range, resort,
  place_shard, place_all,
}
use socrates.Scheduler.Plan.{
  build_node_slots, layer_ranges, walk_layers, check_layers, schedule_core, create_plan,
}
use socrates.Scheduler.Plan.Tiling.{runs_layer}
use socrates.Runtime.Shards.{auto_shards, assign_layers, scheduling_input, auto_input-runs_once}
use socrates.Runtime.State.{ready, stopped}
use socrates.Runtime.{
  EdgeRuntime, RuntimeSnapshot, runtime_snapshot, emit_snapshot, snapshot, do_stop, no_leader,
}
use socrates.Tests.Data.{profile, node_a, node_b, two_members, host, sort_laws}
use socrates.Tests.Scheduler.{plan}

program : Unit {0}
unfolding text_eq stable_sort accepts find_compatible_backend compute_time_estimate required_bytes
    make_stage try_slot try_last try_each choose claim_range resort place_shard place_all
    build_node_slots layer_ranges walk_layers check_layers schedule_core create_plan valid
    auto_shards assign_layers scheduling_input
program = tt

abbrev fence : LeadershipFence
fence = record { term = 1; token = []; membership_revision = 1 }

abbrev members : MembershipSnapshot
members = record { revision = 1; members = two_members }

abbrev auto_plan : PipelinePlan
unfolding program
auto_plan = elim (create_plan host (scheduling_input none members fence)) [
  | ok p ↦ p
  | err e ↦ plan
]

auto_planned : create_plan host (scheduling_input none members fence) ≡ ok auto_plan
unfolding program
auto_planned = refl

auto_nodes :
    map {B = Text × Option LayerRange}
      (λ (st : StageAssignment). (st.node_id, st.layers))
      auto_plan.stages
    ≡ (node_a, some (record { start = 0; end_exclusive = 16 }))
      ∷ (node_b, some (record { start = 16; end_exclusive = 32 }))
      ∷ []
unfolding program
auto_nodes = refl

auto_input-runs_once_example : sum_by (runs_layer 20) auto_plan.stages ≡ 1
unfolding program
auto_input-runs_once_example =
    auto_input-runs_once host sort_laws none members fence auto_plan 20 refl (omega arith)
      (omega arith) (omega arith) auto_planned

abbrev runtime : EdgeRuntime
runtime = record {
  state = ready;
  production_mode = false;
  has_callback = true;
  local_node_id = node_a;
  local_profile = profile node_a 1000;
  membership = none;
  election = none;
  pipeline = none;
  has_discovery = false;
  has_transport = false;
  has_backend_registry = true;
  current_plan = some auto_plan;
  local_models = [];
  local_role = participant;
  heartbeat_active = true;
}

abbrev halted : EdgeRuntime
halted = record runtime { state = stopped; heartbeat_active = false }

abbrev last_word : RuntimeSnapshot
last_word = record {
  state = stopped;
  membership = record { revision = 0; members = [] };
  leadership = no_leader;
  active_plan = some auto_plan;
  local_models = [];
  local_role = participant;
}

-- A runtime that has stopped keeps its plan, and says so last.
stopped_keeps_plan : do_stop runtime ≡ ok (halted, last_word ∷ [])
unfolding do_stop emit_snapshot runtime_snapshot
stopped_keeps_plan = refl

no_snapshot : snapshot halted ≡ err failed_precondition
unfolding snapshot
no_snapshot = refl
