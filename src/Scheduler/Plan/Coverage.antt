-- ===== src/Scheduler/Plan/Coverage.antt =====
-- Which shards a plan of src/scheduler/memory_scheduler.cpp covers.
use mathlib.Core.List.Perm
use mathlib.Core.List.{append_assoc, append-nil, map-append}
use socrates.Prelude.{
  ℕ, ◌≡◌, ap, true, Option, List, [], ◌∷◌, ◌++◌, map, Perm, Text, stable_sort-perm,
}
use socrates.Types.{LayerRange, QuantizationKind, ok, ok-injective, >>=-eq-ok}
use socrates.Scheduler.{
  ShardOption, StageAssignment, StageKind, ArtifactDescriptor, SchedulingInput, PipelinePlan,
}
use socrates.Scheduler.Placement.{
  NodeSlot, SortLaws, Placer, Placing, make_stage, place_shard, place_all,
}
use socrates.Scheduler.Placement.Took.{Took, here, there, try_slot-Fits, place_shard-Round}
use socrates.Scheduler.Plan.{Host, create_plan}
use socrates.Scheduler.Plan.Success.{schedule_core-Success}

-- What a stage takes over from its shard.
pub record WorkOrder : Type 0 where
  pub shard_id : Text
  pub stage_ids : List Text
  pub input_boundary_ids : List Text
  pub output_boundary_ids : List Text
  pub stage_kind : StageKind
  pub layers : Option LayerRange
  pub quantization : QuantizationKind
  pub execution_profile_id : Text
  pub artifact : ArtifactDescriptor

abbrev pub order_of_shard : ShardOption → WorkOrder
order_of_shard s = record {
  shard_id = s.shard_id;
  stage_ids = s.stage_ids;
  input_boundary_ids = s.input_boundary_ids;
  output_boundary_ids = s.output_boundary_ids;
  stage_kind = s.stage_kind;
  layers = s.layers;
  quantization = s.quantization;
  execution_profile_id = s.execution_profile_id;
  artifact = s.artifact;
}

abbrev pub order_of_stage : StageAssignment → WorkOrder
order_of_stage s = record {
  shard_id = s.shard_id;
  stage_ids = s.stage_ids;
  input_boundary_ids = s.input_boundary_ids;
  output_boundary_ids = s.output_boundary_ids;
  stage_kind = s.stage_kind;
  layers = s.layers;
  quantization = s.quantization;
  execution_profile_id = s.execution_profile_id;
  artifact = s.artifact;
}

module _ (p : Placer) where
  Took-order :
      {shard : ShardOption} {ordinal : ℕ} {slots slots' : List NodeSlot} {st : StageAssignment}
      → Took p shard ordinal slots slots' st
      → order_of_stage st ≡ order_of_shard shard
  unfolding make_stage
  Took-order (here rest e) = let f = try_slot-Fits p _ _ _ _ _ e in rw f.made
  Took-order (there slot t) = Took-order t

  -- The loop appends one stage for each shard, in the order of the shards.
  pub place_all-orders :
      (shards : List ShardOption) (s t : Placing)
      → place_all p shards s ≡ ok t
      → map order_of_stage t.stages ≡ map order_of_stage s.stages ++ map order_of_shard shards
  unfolding place_all
  place_all-orders [] s t h = rw (ok-injective h, append-nil)
  place_all-orders (shard ∷ rest) s t h =
      let (m, e, k) = >>=-eq-ok (place_shard p shard s) _ h in
      let r = place_shard-Round p shard s m e in
      simp (
        place_all-orders rest m t k,
        ap (λ (q : Placing). q.stages) r.committed,
        map-append,
        Took-order r.took,
        append_assoc,
      )

module _ (host : Host) (laws : SortLaws host.sorts) (input : SchedulingInput) where
  -- A plan runs each shard of the input exactly once, unchanged.
  pub create_plan-covers :
      (plan : PipelinePlan)
      → create_plan host input ≡ ok plan
      → Perm (map order_of_stage plan.stages) (map order_of_shard input.shard_options)
  unfolding create_plan
  create_plan-covers plan h =
      let s = schedule_core-Success host input _ true plan h in
      rw s.built (
        Perm.trans (Perm.map order_of_stage (laws.by_layer_start-perm s.placed.stages)) (
          rw (place_all-orders _ _ _ _ s.ran)
            (Perm.map order_of_shard (stable_sort-perm _ input.shard_options))))
