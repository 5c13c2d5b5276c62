-- ===== src/Runtime/Shards.antt =====
-- The shards that `schedule_plan` of src/runtime/edge_runtime.cpp makes up when it finds no manifest,
-- and the plan that the scheduler makes of them.
use native.Mathlib.Nat.{le-div_iff_mul-le}
use socrates.Prelude.{
  ◌%◌, ◌^◌, ℕ, ◌+◌, ◌/◌, ◌<◌, ◌≤◌, ◌≡◌, refl, ap, true, false, not, Option, none, some, List, [],
  ◌∷◌, ◌++◌, length, max, ltb, Text, text, is_empty, all_of, sum_by, is_some, if◌then◌else◌, arith,
}
use socrates.Types.{
  Result, ok, err, valid, LeadershipFence, fp16, llama_cpp, cpu, CapabilityProfile,
}
use socrates.Cluster.{Member, MembershipSnapshot, is_alive}
use socrates.Manifest.{ManifestSummary}
use socrates.Scheduler.{
  ShardOption, SchedulingInput, PipelinePlan, transformer_layers, memory_based,
}
use socrates.Scheduler.Placement.{SortLaws}
use socrates.Scheduler.Plan.{Host, create_plan}
use socrates.Scheduler.Plan.Tiling.{runs_layer, valid_layers, create_plan-runs_once}

abbrev pub auto_shard : Text → CapabilityProfile → ShardOption
auto_shard id capability = record {
  shard_id = text "shard-" ++ id;
  stage_ids = (text "layer-" ++ id) ∷ [];
  input_boundary_ids = [];
  output_boundary_ids = [];
  stage_kind = transformer_layers;
  layers = none;
  quantization = fp16;
  artifact = record { uri = []; sha256_hex = []; format = []; format_version = []; file_bytes = 0 };
  execution_profile_id = [];
  peak_runtime_memory_bytes = capability.available_memory_bytes / 2;
  estimated_kv_bytes_per_token = 0;
  compatible_backends = llama_cpp ∷ [];
  required_compute_units = cpu ∷ [];
  required_operator_ids = [];
  estimated_prefill_microseconds = 0;
  estimated_decode_microseconds = 0x40E3880000000000;
  sensitivity_score = 0;
}

abbrev pub shards_of : Text → Option CapabilityProfile → List ShardOption
shards_of id none = []
shards_of id (some capability) = auto_shard id capability ∷ []

-- One for each live member with a profile.
unfoldable pub auto_shards : List Member → List ShardOption
auto_shards [] = []
auto_shards (m ∷ ms) =
    let rest = auto_shards ms in
    if is_alive m.state then shards_of m.peer.node_id m.capability ++ rest else rest

-- The same number of layers for each shard, and what is left over for the last one.
unfoldable pub assign_layers : ℕ → ℕ → ℕ → List ShardOption → List ShardOption
assign_layers total per offset [] = []
assign_layers total per offset (opt ∷ []) =
    let end = if ltb (offset + per) total then total else offset + per in
    record opt { layers = some (record { start = offset; end_exclusive = end }) } ∷ []
assign_layers total per offset (opt ∷ next ∷ opts) =
    record opt { layers = some (record { start = offset; end_exclusive = offset + per }) }
    ∷ assign_layers total per (offset + per) (next ∷ opts)

abbrev pub auto_layers : ℕ
auto_layers = 32

abbrev pub layers_per : List ShardOption → ℕ
layers_per opts = auto_layers / max (length opts % 2 ^ 32) 1

abbrev pub empty_input : MembershipSnapshot → LeadershipFence → SchedulingInput
empty_input snap fence = record {
  model_id = [];
  manifest_revision = [];
  total_layers = 0;
  shard_options = [];
  boundaries = [];
  membership = snap;
  network_links = [];
  fence = fence;
  policy = memory_based;
  maximum_context_tokens = 0;
  maximum_generation_tokens = 0;
  per_device_memory_reserve_bytes = 0;
  maximum_quality_loss_score = 0;
  compute_balance_weight = 0x3FF0000000000000;
  transfer_latency_weight = 0x3FF0000000000000;
  use_calibrated_costs = false;
}

abbrev pub manifest_input : Option (Result ManifestSummary) → SchedulingInput → SchedulingInput
manifest_input none input = input
manifest_input (some (err e)) input = input
manifest_input (some (ok summary)) input = record input {
  model_id = summary.model_id;
  manifest_revision = summary.revision;
  total_layers = summary.total_layers;
  shard_options = summary.shard_options;
  boundaries = summary.boundaries;
}

-- Made-up shards in place of none.
abbrev pub auto_input : SchedulingInput → SchedulingInput
auto_input input =
    let opts = auto_shards input.membership.members in
    record input {
      model_id = text "auto-generated";
      manifest_revision = text "v1";
      total_layers = auto_layers;
      shard_options = assign_layers auto_layers (layers_per opts) 0 opts;
    }

unfoldable pub scheduling_input :
    Option (Result ManifestSummary) → MembershipSnapshot → LeadershipFence → SchedulingInput
scheduling_input published snap fence =
    let input = manifest_input published (empty_input snap fence) in
    if is_empty input.shard_options then auto_input input else input

assign_layers-valid :
    (total per offset : ℕ) (opts : List ShardOption)
    → 1 ≤ per
    → all_of (λ sh. valid_layers sh.layers) (assign_layers total per offset opts) ≡ true
unfolding assign_layers valid
assign_layers-valid total per offset [] h = refl
assign_layers-valid total per offset (opt ∷ []) h = ground arith
assign_layers-valid total per offset (opt ∷ next ∷ opts) h =
    ground (arith, assign_layers-valid total per (offset + per) (next ∷ opts) h)

assign_layers-some :
    (total per offset : ℕ) (opts : List ShardOption)
    → 1 ≤ length opts
    → all_of (λ sh. not (is_some sh.layers)) (assign_layers total per offset opts) ≡ false
unfolding assign_layers
assign_layers-some total per offset [] h = absurd (omega arith)
assign_layers-some total per offset (opt ∷ []) h = refl
assign_layers-some total per offset (opt ∷ next ∷ opts) h = refl

one_each : (n : ℕ) → 1 ≤ n → n ≤ 32 → 1 ≤ 32 / max (n % 2 ^ 32) 1
one_each n h k = (le-div_iff_mul-le (omega arith)).1 (omega arith)

manifest_input-membership :
    (published : Option (Result ManifestSummary)) (input : SchedulingInput)
    → (manifest_input published input).membership ≡ input.membership
manifest_input-membership none input = refl
manifest_input-membership (some (err e)) input = refl
manifest_input-membership (some (ok summary)) input = refl

module _ (host : Host) (laws : SortLaws host.sorts) where
  -- Where no manifest gives shards and between one and 32 live members have a profile, a plan that the
  -- scheduler makes of the shards made up for them runs each of the 32 layers in exactly one stage.
  pub auto_input-runs_once :
      (published : Option (Result ManifestSummary)) (snap : MembershipSnapshot)
      (fence : LeadershipFence) (plan : PipelinePlan) (l : ℕ)
      → is_empty (manifest_input published (empty_input snap fence)).shard_options ≡ true
      → 1 ≤ length (auto_shards snap.members)
      → length (auto_shards snap.members) ≤ auto_layers
      → l < auto_layers
      → create_plan host (scheduling_input published snap fence) ≡ ok plan
      → sum_by (runs_layer l) plan.stages ≡ 1
  unfolding scheduling_input
  auto_input-runs_once published snap fence plan l none_given some_live few lt made =
      let input = manifest_input published (empty_input snap fence) in
      let opts = auto_shards input.membership.members in
      let same : opts ≡ auto_shards snap.members =
        ap (λ m. auto_shards m.members)
          (manifest_input-membership published (empty_input snap fence)) in
      let some_opts : 1 ≤ length opts = rw same some_live in
      let per = one_each (length opts) some_opts (rw same few) in
      let planned : create_plan host (auto_input input) ≡ ok plan =
        rw (none_given, scheduling_input) at made in
      create_plan-runs_once host laws (auto_input input) plan l planned
        (assign_layers-some auto_layers (layers_per opts) 0 opts some_opts)
        (assign_layers-valid auto_layers (layers_per opts) 0 opts per) lt
