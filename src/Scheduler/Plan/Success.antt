-- ===== src/Scheduler/Plan/Success.antt =====
-- What `schedule_core` of src/scheduler/memory_scheduler.cpp went through when it returns a plan.
use socrates.Prelude.{◌≡◌, sym, Bool, true, false, not, List, is_empty, stable_sort, refl}
use socrates.Types.{
  Result, ok, guard, invalid_argument, failed_precondition, ok-injective, >>=-eq-ok, ErrorCode,
}
use socrates.Scheduler.{SchedulingInput, PipelinePlan}
use socrates.Scheduler.Placement.{NodeSlot, Placing, place_all}
use socrates.Scheduler.Plan.{
  Host, placer, first_round, plan_of, sensitivity_descending, layer_ranges, check_layers,
  schedule_core,
}

pub record Success (host : Host) (input : SchedulingInput) (slots : List NodeSlot)
    (sort_nodes : Bool) (plan : PipelinePlan) : Type 0 where
  pub placed : Placing
  pub ran :
      place_all
        (placer host input sort_nodes)
        (stable_sort (sensitivity_descending host.double_ops) input.shard_options)
        (first_round slots)
      ≡ ok placed
  pub checked : check_layers host.sorts input.total_layers (layer_ranges placed.stages) ≡ ok tt
  pub built : plan ≡ plan_of host input placed.stages

guard-ok : (b : Bool) (e : ErrorCode) → guard b e ≡ ok tt → b ≡ true
guard-ok true e h = refl
guard-ok false e h = cc

check-ok : (r : Result (Unit {0})) (u : Unit {0}) → r ≡ ok u → r ≡ ok tt
check-ok r tt h = h

pub schedule_core-Success :
    (host : Host) (input : SchedulingInput) (slots : List NodeSlot) (sort_nodes : Bool)
    (plan : PipelinePlan)
    → schedule_core host input slots sort_nodes ≡ ok plan
    → Success host input slots sort_nodes plan
unfolding schedule_core
schedule_core-Success host input slots sort_nodes plan h =
    let (_, _, h₁) = >>=-eq-ok (guard (not (is_empty input.shard_options)) invalid_argument) _ h in
    let (_, _, h₂) = >>=-eq-ok (guard (not (is_empty slots)) failed_precondition) _ h₁ in
    let (placed, ran, h₃) =
      >>=-eq-ok
        (place_all (placer host input sort_nodes)
          (stable_sort (sensitivity_descending host.double_ops) input.shard_options)
          (first_round slots))
        _ h₂ in
    let (u, checked, h₄) =
      >>=-eq-ok (check_layers host.sorts input.total_layers (layer_ranges placed.stages)) _ h₃ in
    record {
      placed = placed;
      ran = ran;
      checked = check-ok _ u checked;
      built = sym (ok-injective h₄);
    }
