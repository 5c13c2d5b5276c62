-- ===== src/Scheduler/Plan/Budget.antt =====
-- Which memory a plan of src/scheduler/memory_scheduler.cpp reserves on a node.
use socrates.Prelude.{true, ◌≤◌, ◌≡◌, Text, arith, sum_by-perm}
use socrates.Types.{ok}
use socrates.Scheduler.{SchedulingInput, PipelinePlan}
use socrates.Scheduler.Placement.{SortLaws}
use socrates.Scheduler.Placement.Memory.{free_bytes, used_bytes, stage_used, place_all-bytes}
use socrates.Scheduler.Plan.{Host, placer, build_node_slots, first_round, create_plan}
use socrates.Scheduler.Plan.Success.{schedule_core-Success}

module _ (host : Host) (laws : SortLaws host.sorts) (input : SchedulingInput) where
  -- On no node do the stages of a plan reserve more than its live members have available.
  pub create_plan-used-le :
      (plan : PipelinePlan) (n : Text)
      → create_plan host input ≡ ok plan
      → used_bytes n plan.stages ≤ free_bytes n (build_node_slots input.membership.members)
  unfolding create_plan
  create_plan-used-le plan n h =
      let slots = build_node_slots input.membership.members in
      let s = schedule_core-Success host input slots true plan h in
      rw s.built (
        omega (
          arith,
          sum_by-perm (stage_used n) (laws.by_layer_start-perm s.placed.stages),
          place_all-bytes (placer host input true) laws n _ (first_round slots) s.placed s.ran,
        ))
