-- ===== src/Runtime/Profile.antt =====
-- `run_profiler`, `model_download_progress` and `available_models` of src/runtime/edge_runtime.cpp. The
-- profile is made up, as the source says; a rate in it is the bit pattern of a double.
use socrates.Prelude.{
  ℕ, ◌*◌, Bool, true, not, Option, none, some, List, [], ◌∷◌, ◌++◌, if◌then◌else◌, length, Text,
  text,
}
use socrates.Types.{Result, ok, guard, cancelled, Double, BackendKind, llama_cpp, ◌>>=◌, ◌>>◌}
use socrates.Cluster.{Member, ModelPresence, is_alive}
use socrates.Cluster.Membership
use socrates.Cluster.Membership.{MembershipService}
use socrates.Catalog
use socrates.Catalog.{Floats, ModelCatalogEntry}
use socrates.Runtime.{EdgeRuntime}

pub record StageProfile : Type 0 where
  pub stage_id : Text
  pub node_id : Text
  pub backend : BackendKind
  pub gpu_miss_rate : Double
  pub npu_miss_rate : Double
  pub cpu_fallback_rate : Double
  pub avg_latency : ℕ
  pub p99_latency : ℕ
  pub kv_cache_hit_count : ℕ
  pub kv_cache_miss_count : ℕ
  pub network_transfer_bytes : ℕ
  pub peak_memory_bytes : ℕ

pub record ClusterProfile : Type 0 where
  pub cluster_config_name : Text
  pub profiler_model_id : Text
  pub stages : List StageProfile
  pub total_tokens_per_second : Double
  pub end_to_end_latency : ℕ
  pub all_stages_healthy : Bool

abbrev pub stage_profile : Text → StageProfile
stage_profile node = record {
  stage_id = text "stage-" ++ node;
  node_id = node;
  backend = llama_cpp;
  gpu_miss_rate = 0x3FA999999999999A;
  npu_miss_rate = 0;
  cpu_fallback_rate = 0x3F947AE147AE147B;
  avg_latency = 12000;
  p99_latency = 35000;
  kv_cache_hit_count = 150;
  kv_cache_miss_count = 10;
  network_transfer_bytes = 16384;
  peak_memory_bytes = 512 * (1024 * 1024);
}

unfoldable pub stage_profiles : List Member → List StageProfile
stage_profiles [] = []
stage_profiles (m ∷ ms) =
    let rest = stage_profiles ms in
    if is_alive m.state then stage_profile m.peer.node_id ∷ rest else rest

abbrev pub profile_of : List StageProfile → Double → ℕ → ClusterProfile
profile_of stages speed latency = record {
  cluster_config_name = text "current";
  profiler_model_id = text "socrates-debug-profiler";
  stages = stages;
  total_tokens_per_second = speed;
  end_to_end_latency = latency;
  all_stages_healthy = true;
}

-- 100.0 / (n * 0.012)
abbrev pub tokens_per_second : Floats → ℕ → Double
tokens_per_second fp n = fp.div 0x4059000000000000 (fp.mul (fp.of_int n) 0x3F889374BC6A7EFA)

abbrev pub profile_members : Floats → Option MembershipService → Result ClusterProfile
profile_members fp none = ok (profile_of [] 0 0)
profile_members fp (some m) = do
  snap ← Membership.snapshot m
  let stages = stage_profiles snap.members
  ok (profile_of stages (tokens_per_second fp (length stages)) (12000 * length stages))

unfoldable pub run_profiler : Floats → Bool → EdgeRuntime → Result ClusterProfile
run_profiler fp stop_requested r = do
  guard (not stop_requested) cancelled
  profile_members fp r.membership

unfoldable pub model_download_progress : EdgeRuntime → List ModelPresence
model_download_progress r = r.local_models

abbrev pub available_to :
    Floats → List ModelCatalogEntry → Option MembershipService → Result (List ModelCatalogEntry)
available_to fp all none = ok []
available_to fp all (some m) = do
  snap ← Membership.snapshot m
  ok (Catalog.available_models fp all snap)

-- `all` is what `model_catalog_all` returns.
unfoldable pub available_models :
    Floats → List ModelCatalogEntry → EdgeRuntime → Result (List ModelCatalogEntry)
available_models fp all r = available_to fp all r.membership
