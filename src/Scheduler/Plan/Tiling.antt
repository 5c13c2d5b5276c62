-- ===== src/Scheduler/Plan/Tiling.antt =====
-- Which layers a plan of src/scheduler/memory_scheduler.cpp runs.
use mathlib.Core.List.Perm
use socrates.Prelude.{
  ℕ, ◌+◌, ◌<◌, ◌≤◌, ◌≡◌, refl, ◌≢◌, sym, ◌∙◌, ap, Bool, true, false, ◌&&◌, Option, none, some, List,
  [], ◌∷◌, Perm, ltb, leb, ◌==◌, if◌then◌else◌, sum_by, all_of, sum_by-perm, all_of-perm, arith,
  Bool-cases, Option-cases, is_some, not, map, all_of-map, inl, inr,
}
use socrates.Types.{LayerRange, ok, valid, >>=-eq-ok, ok-injective}
use socrates.Scheduler.{ShardOption, StageAssignment, SchedulingInput, PipelinePlan}
use socrates.Scheduler.Placement.{SortLaws, SortOps}
use socrates.Scheduler.Plan.{
  Host, layer_ranges, walk_layers, check_layers, build_node_slots, create_plan,
}
use socrates.Scheduler.Plan.Coverage.{WorkOrder, order_of_shard, order_of_stage, create_plan-covers}
use socrates.Scheduler.Plan.Success.{schedule_core-Success}

-- Each range starts where the one before it ends.
abbrev pub Tiles : ℕ → ℕ → List LayerRange → Type 0
Tiles a b [] = a ≡ b
Tiles a b (r ∷ rest) = (r.start ≡ a) × Tiles r.end_exclusive b rest

abbrev pub covers : ℕ → LayerRange → ℕ
covers l r = if leb r.start l && ltb l r.end_exclusive then 1 else 0

walk_layers-Tiles : (a b : ℕ) (rs : List LayerRange) → walk_layers a rs ≡ ok b → Tiles a b rs
unfolding walk_layers
walk_layers-Tiles a b [] h = ok-injective h
walk_layers-Tiles a b (r ∷ rest) h = elim (Bool-cases (r.start == a)) [
  | inl e ↦ (ground (arith, e), walk_layers-Tiles r.end_exclusive b rest (ground (arith, e)))
  | inr e ↦ absurd (ground (arith, e))
]

-- Valid tiles end at or behind their start.
Tiles-le : (a b : ℕ) (rs : List LayerRange) → all_of valid rs ≡ true → Tiles a b rs → a ≤ b
unfolding valid
Tiles-le a b [] v t = omega arith
Tiles-le a b (r ∷ rest) v t = ground (arith, Tiles-le r.end_exclusive b rest)

Tiles-below :
    (a b l : ℕ) (rs : List LayerRange)
    → all_of valid rs ≡ true
    → Tiles a b rs
    → l < a
    → sum_by (covers l) rs ≡ 0
unfolding valid
Tiles-below a b l [] v t h = refl
Tiles-below a b l (r ∷ rest) v t h = ground (arith, Tiles-below r.end_exclusive b l rest)

Tiles-once :
    (a b l : ℕ) (rs : List LayerRange)
    → all_of valid rs ≡ true
    → Tiles a b rs
    → a ≤ l
    → l < b
    → sum_by (covers l) rs ≡ 1
unfolding valid
Tiles-once a b l [] v t h k = absurd (omega arith)
Tiles-once a b l (r ∷ rest) v t h k =
    ground (arith, Tiles-below r.end_exclusive b l rest, Tiles-once r.end_exclusive b l rest)

check_layers-Tiles :
    (sorts : SortOps) (total : ℕ) (ranges : List LayerRange)
    → check_layers sorts total ranges ≡ ok tt
    → ranges ≢ []
    → Tiles 0 total (sorts.by_start ranges)
unfolding check_layers
check_layers-Tiles sorts total [] h ne = absurd (ne refl)
check_layers-Tiles sorts total (r ∷ rest) h ne =
    let (b, walked, g) = >>=-eq-ok (walk_layers 0 (sorts.by_start (r ∷ rest))) _ h in
    let e : b ≡ total = ground (arith, g) in walk_layers-Tiles 0 total _ (walked ∙ ap ok e)

abbrev pub covers_layers : ℕ → Option LayerRange → ℕ
covers_layers l none = 0
covers_layers l (some r) = covers l r

abbrev pub valid_layers : Option LayerRange → Bool
valid_layers none = true
valid_layers (some r) = valid r

-- Counts the stage if it runs the layer.
abbrev pub runs_layer : ℕ → StageAssignment → ℕ
runs_layer l st = covers_layers l st.layers

layer_ranges-runs :
    (l : ℕ) (sts : List StageAssignment)
    → sum_by (runs_layer l) sts ≡ sum_by (covers l) (layer_ranges sts)
unfolding layer_ranges
layer_ranges-runs l [] = refl
layer_ranges-runs l (st ∷ sts) = elim (Option-cases st.layers) [
  | inl e ↦ rw e (omega (arith, layer_ranges-runs l sts))
  | inr (r, e) ↦ rw e (ap (◌+◌ (covers l r)) (layer_ranges-runs l sts))
]

layer_ranges-valid :
    (sts : List StageAssignment)
    → all_of (λ st. valid_layers st.layers) sts ≡ all_of valid (layer_ranges sts)
unfolding layer_ranges
layer_ranges-valid [] = refl
layer_ranges-valid (st ∷ sts) = elim (Option-cases st.layers) [
  | inl e ↦ rw e (layer_ranges-valid sts)
  | inr (r, e) ↦ rw e (ap (◌&&◌ (valid r)) (layer_ranges-valid sts))
]

layer_ranges-ne :
    (sts : List StageAssignment)
    → all_of (λ st. not (is_some st.layers)) sts ≡ false
    → layer_ranges sts ≢ []
unfolding layer_ranges
layer_ranges-ne [] h = absurd (cc)
layer_ranges-ne (st ∷ sts) h = elim (Option-cases st.layers) [
  | inl e ↦ rw e (layer_ranges-ne sts (rw e at h))
  | inr (r, e) ↦ rw e (λ c. cc)
]

-- A test of layers holds of all stages exactly if it holds of all shards.
test_of_layers :
    (p : Option LayerRange → Bool) (sts : List StageAssignment) (shards : List ShardOption)
    → Perm (map order_of_stage sts) (map order_of_shard shards)
    → all_of (λ st. p st.layers) sts ≡ all_of (λ sh. p sh.layers) shards
test_of_layers p sts shards h =
    sym (all_of-map (λ (o : WorkOrder). p o.layers) order_of_stage sts)
    ∙ all_of-perm (λ (o : WorkOrder). p o.layers) h
    ∙ all_of-map (λ (o : WorkOrder). p o.layers) order_of_shard shards

module _ (host : Host) (laws : SortLaws host.sorts) (input : SchedulingInput) where
  -- If the shards have valid ranges of layers, one at least, then a plan that is made runs each
  -- layer of the model in exactly one stage.
  pub create_plan-runs_once :
      (plan : PipelinePlan) (l : ℕ)
      → create_plan host input ≡ ok plan
      → all_of (λ sh. not (is_some sh.layers)) input.shard_options ≡ false
      → all_of (λ sh. valid_layers sh.layers) input.shard_options ≡ true
      → l < input.total_layers
      → sum_by (runs_layer l) plan.stages ≡ 1
  unfolding create_plan
  create_plan-runs_once plan l h ne v lt =
      let s =
        schedule_core-Success host input (build_node_slots input.membership.members) true plan h in
      let sts = s.placed.stages in
      let final = laws.by_layer_start-perm sts in
      let ranges = laws.by_start-perm (layer_ranges sts) in
      let same = create_plan-covers host laws input plan h in
      let same_sts : Perm (map order_of_stage sts) (map order_of_shard input.shard_options) =
        Perm.trans (Perm.symm (Perm.map order_of_stage final)) (rw s.built at same) in
      let tiles = check_layers-Tiles host.sorts input.total_layers (layer_ranges sts) s.checked (
        layer_ranges-ne sts
          (test_of_layers (λ o. not (is_some o)) sts input.shard_options same_sts ∙ ne)) in
      let valid_ranges =
        all_of-perm valid ranges
        ∙ sym (layer_ranges-valid sts)
        ∙ test_of_layers valid_layers sts input.shard_options same_sts
        ∙ v in
      rw s.built (
        sum_by-perm (runs_layer l) final
        ∙ layer_ranges-runs l sts
        ∙ sym (sum_by-perm (covers l) ranges)
        ∙ Tiles-once 0 input.total_layers l _ valid_ranges tiles (omega arith) lt)
