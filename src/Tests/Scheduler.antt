-- ===== src/Tests/Scheduler.antt =====
-- The scheduler on the two laptops.
use socrates.Prelude.{
  ℕ, ◌≤◌, ◌≡◌, refl, List, [], ◌∷◌, Text, text, text_eq, stable_sort, map, Perm, sum_by, arith,
}
use socrates.Types.{ok, err, valid}
use socrates.Scheduler.{ShardOption, PipelinePlan, StageAssignment}
use socrates.Scheduler.Compatible.{accepts, find_compatible_backend, compute_time_estimate}
use socrates.Scheduler.Placement.{
  required_bytes, make_stage, try_slot, try_last, try_each, choose, claim_range, resort,
  place_shard, place_all,
}
use socrates.Scheduler.Placement.Memory.{free_bytes, used_bytes}
use socrates.Scheduler.Plan.{
  build_node_slots, layer_ranges, walk_layers, check_layers, schedule_core, create_plan,
}
use socrates.Scheduler.Plan.Coverage.{order_of_shard, order_of_stage, create_plan-covers}
use socrates.Scheduler.Plan.Budget.{create_plan-used-le}
use socrates.Scheduler.Plan.Suited.{WellPlaced, create_plan-WellPlaced}
use mathlib.Core.List.{Mem, mem-cons_self}
use socrates.Scheduler.Plan.Tiling.{runs_layer, create_plan-runs_once}
use socrates.Tests.Data.{node_a, node_b, two_shards, two_members, host, sort_laws, shard, stage}

program : Unit {0}
unfolding text_eq stable_sort accepts find_compatible_backend compute_time_estimate required_bytes
    make_stage try_slot try_last try_each choose claim_range resort place_shard place_all
    build_node_slots layer_ranges walk_layers check_layers schedule_core create_plan valid
program = tt

-- The more sensitive shard takes the richer node; the plan is in the order of the layers.
stage_nodes : List StageAssignment → List (Text × ℕ)
stage_nodes = map (λ st. (st.node_id, st.ordinal))

abbrev pub plan : PipelinePlan
unfolding program
plan = elim (create_plan host two_shards) [
  | ok p ↦ p
  | err e ↦ record {
    plan_id = [];
    model_id = [];
    manifest_revision = [];
    fence = two_shards.fence;
    stages = [];
    boundaries = [];
    issued_at_utc = 0;
    valid_for = 0;
  }
]

planned : create_plan host two_shards ≡ ok plan
unfolding program
planned = refl

plan_nodes : stage_nodes plan.stages ≡ (node_b, 1) ∷ (node_a, 0) ∷ []
unfolding program stage_nodes
plan_nodes = refl

create_plan-covers_example :
    Perm (map order_of_stage plan.stages) (map order_of_shard two_shards.shard_options)
create_plan-covers_example = create_plan-covers host sort_laws two_shards plan planned

create_plan-used-le_example :
    used_bytes node_a plan.stages ≤ free_bytes node_a (build_node_slots two_members)
create_plan-used-le_example = create_plan-used-le host sort_laws two_shards plan node_a planned

abbrev first_stage : List StageAssignment → StageAssignment
first_stage [] = stage (text "s0") node_a
first_stage (st ∷ sts) = st

first_in : Mem (first_stage plan.stages) plan.stages
unfolding program
first_in = mem-cons_self

create_plan-WellPlaced_example :
    WellPlaced two_members two_shards.shard_options (first_stage plan.stages)
create_plan-WellPlaced_example =
    create_plan-WellPlaced host sort_laws two_shards plan (first_stage plan.stages) planned first_in

create_plan-runs_once_example : sum_by (runs_layer 5) plan.stages ≡ 1
unfolding valid
create_plan-runs_once_example =
    create_plan-runs_once host sort_laws two_shards plan 5 planned refl refl (omega arith)

abbrev small_shard : ShardOption
small_shard = shard node_a (record { start = 0; end_exclusive = 4 }) 5
