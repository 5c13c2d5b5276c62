-- ===== src/Scheduler/Plan.antt =====
-- `build_node_slots`, `schedule_core` and `create_plan` of src/scheduler/memory_scheduler.cpp. The
-- random plan id and the clock are arguments.
pub mod Success
pub mod Coverage
pub mod Located
pub mod Suited
pub mod Budget
pub mod Tiling
use socrates.Prelude.{
  ℕ, ◌+◌, ◌*◌, ◌≡◌, Bool, true, false, not, Option, none, some, List, [], ◌∷◌, if◌then◌else◌, ◌==◌,
  Text, is_empty, stable_sort,
}
use socrates.Types.{
  DoubleOps, LayerRange, Result, ok, err, guard, invalid_argument, failed_precondition, ◌>>=◌, ◌>>◌,
}
use socrates.Cluster.{Member, is_alive}
use socrates.Scheduler.{ShardOption, StageAssignment, SchedulingInput, PipelinePlan}
use socrates.Scheduler.Placement.{NodeSlot, SortOps, Placer, Placing, place_all}

abbrev pub slot_of : Member → Option NodeSlot
slot_of m =
    if is_alive m.state
    then elim m.capability [
      | none ↦ none
      | some c ↦ some (record {
        node_id = m.peer.node_id;
        capability = c;
        remaining_memory_bytes = c.available_memory_bytes;
      })
    ]
    else none

abbrev pub prepend {ℓ} : {A : Type ℓ} → Option A → List A → List A
prepend none l = l
prepend (some a) l = a ∷ l

unfoldable pub build_node_slots : List Member → List NodeSlot
build_node_slots [] = []
build_node_slots (m ∷ rest) = prepend (slot_of m) (build_node_slots rest)

abbrev pub sensitivity_descending : DoubleOps → ShardOption → ShardOption → Bool
sensitivity_descending ops a b = ops.gtb a.sensitivity_score b.sensitivity_score

-- The ranges of the stages that have one.
unfoldable pub layer_ranges : List StageAssignment → List LayerRange
layer_ranges [] = []
layer_ranges (st ∷ rest) = prepend st.layers (layer_ranges rest)

-- The end of the last range, if each starts where the one before it ends.
unfoldable pub walk_layers : ℕ → List LayerRange → Result ℕ
walk_layers expected [] = ok expected
walk_layers expected (r ∷ rest) =
    let next = walk_layers r.end_exclusive rest in
    if r.start == expected then next else err invalid_argument

-- Only the ranges of the sorted pointers are read.
unfoldable pub check_layers : SortOps → ℕ → List LayerRange → Result (Unit {0})
check_layers sorts total ranges =
    if is_empty ranges
    then ok tt
    else (do end ← walk_layers 0 (sorts.by_start ranges); guard (end == total) invalid_argument)

-- What the system supplies: the floating-point unit, `std::sort`, the random id and the clock.
pub record Host : Type 0 where
  pub double_ops : DoubleOps
  pub sorts : SortOps
  pub plan_id : Text
  pub now : ℕ

abbrev pub placer : Host → SchedulingInput → Bool → Placer
placer host input sort_nodes = record {
  double_ops = host.double_ops;
  sorts = host.sorts;
  sort_nodes_before_each_shard = sort_nodes;
  use_network_affinity = not (is_empty input.network_links);
  per_device_reserve = input.per_device_memory_reserve_bytes;
}

abbrev pub first_round : List NodeSlot → Placing
first_round slots = record {
  node_slots = slots;
  ordinal = 0;
  last_node = none;
  assigned_layer_ranges = [];
  stages = [];
}

-- `valid_for` is five minutes in milliseconds.
abbrev pub plan_of : Host → SchedulingInput → List StageAssignment → PipelinePlan
plan_of host input stages = record {
  plan_id = host.plan_id;
  model_id = input.model_id;
  manifest_revision = input.manifest_revision;
  fence = input.fence;
  stages = host.sorts.by_layer_start stages;
  boundaries = input.boundaries;
  issued_at_utc = host.now;
  valid_for = 5 * 60 * 1000;
}

unfoldable pub schedule_core : Host → SchedulingInput → List NodeSlot → Bool → Result PipelinePlan
schedule_core host input slots sort_nodes = do
  guard (not (is_empty input.shard_options)) invalid_argument
  guard (not (is_empty slots)) failed_precondition
  let ordered_shards = stable_sort (sensitivity_descending host.double_ops) input.shard_options
  placed ← place_all (placer host input sort_nodes) ordered_shards (first_round slots)
  check_layers host.sorts input.total_layers (layer_ranges placed.stages)
  ok (plan_of host input placed.stages)

-- Both schedulers sort the nodes before each shard.
unfoldable pub create_plan : Host → SchedulingInput → Result PipelinePlan
create_plan host input = schedule_core host input (build_node_slots input.membership.members) true

unfoldable pub refine_plan : Host → SchedulingInput → PipelinePlan → Result PipelinePlan
refine_plan host input base = create_plan host input
