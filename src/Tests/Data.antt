-- ===== src/Tests/Data.antt =====
-- A cluster of two laptops and a model of two shards.
use socrates.Prelude.{
  ℕ, Bool, true, false, none, some, List, [], ◌∷◌, ltb, is_some, Text, text, stable_sort,
  stable_sort-perm, ◌/◌,
}
use socrates.Types.{
  DoubleOps, BackendCapability, llama_cpp, cpu, CapabilityProfile, LayerRange, int4,
  LeadershipFence,
}
use socrates.Cluster.{PeerAdvertisement, MemberState, alive, participant, Member}
use socrates.Scheduler.{
  PipelinePlan, StageAssignment, ShardOption, transformer_layers, SchedulingInput, memory_based,
}
use socrates.Scheduler.Placement.{SortOps, SortLaws}
use socrates.Scheduler.Plan.{Host}

abbrev pub node_a : Text
node_a = text "a"

abbrev pub node_b : Text
node_b = text "b"

abbrev pub llama : BackendCapability
llama = record {
  kind = llama_cpp;
  version = text "1.0";
  quantizations = [];
  compute_units = cpu ∷ [];
  allows_cpu_fallback = true;
}

abbrev pub profile : Text → ℕ → CapabilityProfile
profile id bytes = record {
  node_id = id;
  revision = 1;
  measured_at = 0;
  received_at = 0;
  valid_for = 0;
  total_memory_bytes = bytes;
  available_memory_bytes = bytes;
  cpu_model = [];
  logical_cpu_count = 8;
  accelerators = [];
  backends = llama ∷ [];
  measured_benchmarks = [];
  network_to_leader = record {
    round_trip_latency = 0;
    available_bandwidth_bytes_per_second = 0;
    measured_at = 0;
  };
  extensions = [];
}

abbrev pub peer : Text → PeerAdvertisement
peer id = record {
  node_id = id;
  incarnation = 1;
  endpoints = [];
  public_key_fingerprint = id;
  metadata = [];
}

abbrev pub member : Text → MemberState → ℕ → Member
member id state bytes = record {
  peer = peer id;
  state = state;
  role = participant;
  capability = some (profile id bytes);
  models = [];
  last_seen = 0;
}

abbrev pub two_members : List Member
two_members = member node_a alive 1000 ∷ member node_b alive 800 ∷ []

abbrev pub shard : Text → LayerRange → ℕ → ShardOption
shard id range bytes = record {
  shard_id = id;
  stage_ids = id ∷ [];
  input_boundary_ids = [];
  output_boundary_ids = [];
  stage_kind = transformer_layers;
  layers = some range;
  quantization = int4;
  artifact = record {
    uri = text "file:./m";
    sha256_hex = [];
    format = [];
    format_version = [];
    file_bytes = bytes;
  };
  execution_profile_id = [];
  peak_runtime_memory_bytes = bytes;
  estimated_kv_bytes_per_token = 0;
  compatible_backends = llama_cpp ∷ [];
  required_compute_units = cpu ∷ [];
  required_operator_ids = [];
  estimated_prefill_microseconds = 0;
  estimated_decode_microseconds = 0;
  sensitivity_score = bytes;
}

abbrev pub no_fence : LeadershipFence
no_fence = record { term = 1; token = text "fence-1"; membership_revision = 2 }

-- The second half of the layers has the higher sensitivity.
abbrev pub two_shards : SchedulingInput
two_shards = record {
  model_id = text "qwen3-4b";
  manifest_revision = text "1.0";
  total_layers = 8;
  shard_options =
      shard (text "s0") (record { start = 0; end_exclusive = 4 }) 500
      ∷ shard (text "s1") (record { start = 4; end_exclusive = 8 }) 600
      ∷ [];
  boundaries = [];
  membership = record { revision = 2; members = two_members };
  network_links = [];
  fence = no_fence;
  policy = memory_based;
  maximum_context_tokens = 2048;
  maximum_generation_tokens = 64;
  per_device_memory_reserve_bytes = 100;
  maximum_quality_loss_score = 0;
  compute_balance_weight = 0;
  transfer_latency_weight = 0;
  use_calibrated_costs = false;
}

-- Bit patterns of doubles that are not negative are ordered as numbers are.
abbrev pub double_ops : DoubleOps
double_ops = record { gtb = λ a b. ltb b a; div = λ a b. a / b; of_int = λ n. n }

abbrev by_layer_start_before : StageAssignment → StageAssignment → Bool
by_layer_start_before a b = elim a.layers [
  | none ↦ is_some b.layers
  | some r ↦ elim b.layers [ none ↦ false | some q ↦ ltb r.start q.start ]
]

abbrev pub sorts : SortOps
sorts = record {
  by_remaining_memory = stable_sort (λ a b. ltb b.remaining_memory_bytes a.remaining_memory_bytes);
  by_start = stable_sort (λ a b. ltb a.start b.start);
  by_layer_start = stable_sort by_layer_start_before;
}

pub sort_laws : SortLaws sorts
sort_laws = record {
  by_remaining_memory-perm = stable_sort-perm _;
  by_start-perm = stable_sort-perm _;
  by_layer_start-perm = stable_sort-perm _;
}

abbrev pub host : Host
host = record { double_ops = double_ops; sorts = sorts; plan_id = text "plan-1"; now = 7 }

abbrev pub stage : Text → Text → StageAssignment
stage id node = record {
  ordinal = 0;
  node_id = node;
  shard_id = id;
  stage_ids = id ∷ [];
  input_boundary_ids = [];
  output_boundary_ids = [];
  stage_kind = transformer_layers;
  layers = none;
  quantization = int4;
  backend = llama_cpp;
  execution_profile_id = [];
  artifact = record {
    uri = text "file:./m";
    sha256_hex = [];
    format = [];
    format_version = [];
    file_bytes = 9;
  };
  reserved_memory_bytes = 9;
  estimated_stage_microseconds = 0;
}

-- A plan with a stage on each laptop, under a term.
abbrev pub two_stages : ℕ → PipelinePlan
two_stages term = record {
  plan_id = text "plan";
  model_id = text "qwen3-4b";
  manifest_revision = text "1.0";
  fence = record { term = term; token = text "fence"; membership_revision = 2 };
  stages = stage (text "s0") node_a ∷ stage (text "s1") node_b ∷ [];
  boundaries = [];
  issued_at_utc = 0;
  valid_for = 0;
}
