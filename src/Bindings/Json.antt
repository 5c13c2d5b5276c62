-- ===== src/Bindings/Json.antt =====
-- The functions of bindings/c/socrates.cpp that return JSON text. Texts are put between quotes as they
-- are. How a stream writes a double is a parameter, and so is the catalog that is found. An exception
-- that reaches C is none.
use socrates.Prelude.{
  ℕ, suc, ◌/◌, ◌*◌, Bool, true, false, Option, none, some, List, [], ◌∷◌, ◌++◌, map, if◌then◌else◌,
  ltb, Text, text, text_eq,
}
use socrates.Types.{Result, ok, err, Double, CapabilityProfile, LayerRange, backend_code}
use socrates.Cluster.{
  ModelPresence, MembershipSnapshot, Member, MemberState, joining, alive, suspect, left, removed,
  NodeRole, leech, participant, LeadershipState,
}
use socrates.Scheduler.{PipelinePlan, StageAssignment}
use socrates.Pipeline.{to_string, BatchingConfig, immediate, adaptive}
use socrates.Catalog.{
  Floats, ModelCatalogEntry, ModelTier, comfortable, fair, medium, tight, debug,
  ContextWindowEstimate, estimate_context_window,
}
use socrates.Runtime
use socrates.Runtime.{EdgeRuntime, RuntimeSnapshot}
use socrates.Runtime.State.{
  RuntimeState, starting, discovering, electing, ready, replanning, degraded, stopping, stopped,
}
use socrates.Runtime.Profile
use socrates.Runtime.Profile.{StageProfile, ClusterProfile, run_profiler, model_download_progress}
use socrates.Bindings.{Global, text_or}

abbrev pub quote : Text
quote = 34 ∷ []

abbrev pub quoted : Text → Text
quoted s = quote ++ (s ++ quote)

-- A key and its colon.
abbrev pub key : Text → Text
key k = quoted k ++ text ":"

abbrev pub bool_text : Bool → Text
bool_text true = text "true"
bool_text false = text "false"

unfoldable pub joined : List Text → Text
joined [] = []
joined (s ∷ []) = s
joined (s ∷ t ∷ rest) = s ++ (text "," ++ joined (t ∷ rest))

abbrev pub object : List Text → Text
object fields = text "{" ++ (joined fields ++ text "}")

abbrev pub array : List Text → Text
array elements = text "[" ++ (joined elements ++ text "]")

abbrev pub text_field : Text → Text → Text
text_field k v = key k ++ quoted v

abbrev pub number_field : Text → ℕ → Text
number_field k n = key k ++ to_string n

abbrev pub bool_field : Text → Bool → Text
bool_field k b = key k ++ bool_text b

-- `if (!state || !state->runtime) return strdup_c(empty);`
abbrev pub for_runtime :
    Bool → Text → Option EdgeRuntime → (EdgeRuntime → Option Text) → Option Text
for_runtime false empty o reply = some empty
for_runtime true empty none reply = some empty
for_runtime true empty (some r) reply = reply r

-- What a throw out of the runtime makes of a reply, and what a result without a value.
abbrev pub uncaught {ℓ} : {A : Type ℓ} → Result A → (A → Text) → Option Text
uncaught (ok a) print = some (print a)
uncaught (err e) print = none

abbrev pub presence_json : ModelPresence → Text
presence_json m = object (
    text_field (text "model_id") m.model_id
    ∷ bool_field (text "ready") m.ready
    ∷ number_field (text "downloaded") m.downloaded_bytes
    ∷ number_field (text "total") m.total_bytes
    ∷ [])

unfoldable pub socrates_model_progress_json : Bool → Global → Option Text
socrates_model_progress_json given g =
    for_runtime given (text "[]") g.runtime
      (λ r. some (array (map presence_json (model_download_progress r))))

abbrev pub tier_number : ModelTier → ℕ
tier_number comfortable = 0
tier_number fair = 1
tier_number medium = 2
tier_number tight = 3
tier_number debug = 4

-- `unset` is what stands in a tier that nothing has set.
abbrev pub tier_or : ℕ → Option ModelTier → ℕ
tier_or unset none = unset
tier_or unset (some t) = tier_number t

abbrev pub entry_json : (Double → Text) → ℕ → ModelCatalogEntry → Text
entry_json show unset e = object (
    text_field (text "model_id") e.model_id
    ∷ text_field (text "display_name") e.display_name
    ∷ text_field (text "family") e.family
    ∷ text_field (text "params") e.total_params
    ∷ (key (text "size_gb") ++ show e.size_gb_int4)
    ∷ number_field (text "context_max") e.context_window_max
    ∷ number_field (text "default_context") e.default_context
    ∷ number_field (text "tier") (tier_or unset e.tier)
    ∷ bool_field (text "is_profiler") e.is_profiler
    ∷ [])

unfoldable pub socrates_available_models_json :
    Floats → (Double → Text) → ℕ → List ModelCatalogEntry → Bool → Global → Option Text
socrates_available_models_json fp show unset all given g =
    for_runtime given (text "[]") g.runtime (λ r.
      uncaught (Profile.available_models fp all r)
        (λ models. array (map (entry_json show unset) models)))

abbrev pub state_number : RuntimeState → ℕ
state_number starting = 0
state_number discovering = 1
state_number RuntimeState.joining = 2
state_number electing = 3
state_number ready = 4
state_number replanning = 5
state_number degraded = 6
state_number stopping = 7
state_number stopped = 8

abbrev pub member_number : MemberState → ℕ
member_number joining = 0
member_number alive = 1
member_number suspect = 2
member_number left = 3
member_number removed = 4

abbrev pub role_number : NodeRole → ℕ
role_number leech = 0
role_number participant = 1

abbrev pub mebibytes : ℕ → ℕ
mebibytes n = n / (1024 * 1024)

abbrev pub capability_fields : Option CapabilityProfile → List Text
capability_fields none = []
capability_fields (some c) =
    number_field (text "ram_mb") (mebibytes c.total_memory_bytes)
    ∷ text_field (text "cpu") c.cpu_model
    ∷ number_field (text "cores") c.logical_cpu_count
    ∷ []

abbrev pub count_ready : List ModelPresence → ℕ
count_ready [] = 0
count_ready (m ∷ ms) = let rest = count_ready ms in if m.ready then suc rest else rest

abbrev pub device_json : Member → Text
device_json m = object (
    (text_field (text "node_id") m.peer.node_id
      ∷ number_field (text "state") (member_number m.state)
      ∷ number_field (text "role") (role_number m.role)
      ∷ [])
    ++ (capability_fields m.capability
        ++ (number_field (text "models_ready") (count_ready m.models) ∷ [])))

abbrev pub layer_start : Option LayerRange → ℕ
layer_start none = 0
layer_start (some r) = r.start

abbrev pub layer_end : Option LayerRange → ℕ
layer_end none = 0
layer_end (some r) = r.end_exclusive

abbrev pub stage_json : StageAssignment → Text
stage_json s = object (
    number_field (text "ordinal") s.ordinal
    ∷ text_field (text "node_id") s.node_id
    ∷ number_field (text "backend") (backend_code s.backend)
    ∷ (key (text "layers")
        ++ array (to_string (layer_start s.layers) ∷ to_string (layer_end s.layers) ∷ []))
    ∷ [])

abbrev pub leader_fields : LeadershipState → Option Text → List Text
leader_fields ls none = []
leader_fields ls (some id) =
    text_field (text "leader_id") id ∷ number_field (text "term") ls.fence.term ∷ []

abbrev pub plan_fields : Option PipelinePlan → List Text
plan_fields none = []
plan_fields (some plan) = (key (text "stages") ++ array (map stage_json plan.stages)) ∷ []

abbrev pub snapshot_json : RuntimeSnapshot → Text
snapshot_json snap = object (
    (text_field (text "revision") (to_string snap.membership.revision)
      ∷ number_field (text "state") (state_number snap.state)
      ∷ number_field (text "local_role") (role_number snap.local_role)
      ∷ [])
    ++ (leader_fields snap.leadership snap.leadership.leader_id
        ++ ((key (text "devices") ++ array (map device_json snap.membership.members))
            ∷ plan_fields snap.active_plan)))

abbrev pub printed {ℓ} : {A : Type ℓ} → (A → Text) → Result A → Text
printed print (ok a) = print a
printed print (err e) = text "{}"

-- A runtime that has stopped has no snapshot; what a service throws is not told apart from that here.
unfoldable pub socrates_cluster_snapshot_json : Bool → Global → Option Text
socrates_cluster_snapshot_json given g =
    for_runtime given (text "{}") g.runtime (λ r. some (printed snapshot_json (Runtime.snapshot r)))

abbrev pub stage_profile_json : (Double → Text) → StageProfile → Text
stage_profile_json show s = object (
    text_field (text "stage") s.stage_id
    ∷ text_field (text "node") s.node_id
    ∷ (key (text "gpu_miss") ++ show s.gpu_miss_rate)
    ∷ (key (text "npu_miss") ++ show s.npu_miss_rate)
    ∷ (key (text "cpu_fallback") ++ show s.cpu_fallback_rate)
    ∷ number_field (text "avg_latency_us") s.avg_latency
    ∷ number_field (text "p99_latency_us") s.p99_latency
    ∷ number_field (text "mem_mb") (mebibytes s.peak_memory_bytes)
    ∷ number_field (text "kv_hits") s.kv_cache_hit_count
    ∷ number_field (text "kv_misses") s.kv_cache_miss_count
    ∷ number_field (text "network_bytes") s.network_transfer_bytes
    ∷ [])

abbrev pub profile_json : (Double → Text) → ClusterProfile → Text
profile_json show p = object (
    bool_field (text "healthy") p.all_stages_healthy
    ∷ (key (text "tokens_per_sec") ++ show p.total_tokens_per_second)
    ∷ number_field (text "latency_us") p.end_to_end_latency
    ∷ (key (text "stages") ++ array (map (stage_profile_json show) p.stages))
    ∷ [])

unfoldable pub socrates_run_profiler_json : Floats → (Double → Text) → Bool → Global → Option Text
socrates_run_profiler_json fp show given g =
    for_runtime given (text "{}") g.runtime
      (λ r. some (printed (profile_json show) (run_profiler fp false r)))

unfoldable pub find_model : Text → List ModelCatalogEntry → Option ModelCatalogEntry
find_model id [] = none
find_model id (e ∷ es) =
    let rest = find_model id es in if text_eq e.model_id id then some e else rest

abbrev pub batching_of : ℕ → BatchingConfig
batching_of batch_size = record {
  mode = if ltb 1 batch_size then adaptive else immediate;
  max_batch_size = if ltb 0 batch_size then batch_size else 1;
  batch_timeout = 5;
  long_context_threshold = 4096;
}

-- `detail` is the text that the estimate has for the user.
abbrev pub estimate_json : Text → Text → ℕ → ContextWindowEstimate → Text
estimate_json detail id batch_size est = object (
    number_field (text "max_tokens") est.max_tokens
    ∷ number_field (text "recommended") est.recommended_tokens
    ∷ text_field (text "limiting_factor") est.limiting_factor
    ∷ text_field (text "detail") detail
    ∷ text_field (text "model") id
    ∷ number_field (text "batch") batch_size
    ∷ [])

abbrev pub estimate_found :
    Floats → Text → Text → ℕ → MembershipSnapshot → Option ModelCatalogEntry → Text
estimate_found fp detail id batch_size snap none =
    object (text_field (text "error") (text "model not found") ∷ [])
estimate_found fp detail id batch_size snap (some model) =
    estimate_json detail id batch_size
      (estimate_context_window fp snap model (batching_of batch_size))

unfoldable pub socrates_estimate_context_json :
    Floats → Text → List ModelCatalogEntry → Option Text → ℕ → Bool → Global → Option Text
socrates_estimate_context_json fp detail all id batch_size given g =
    for_runtime given (text "{}") g.runtime (λ r.
      let model = text_or id [] in
      some (
        printed
          (λ (snap : RuntimeSnapshot).
            estimate_found fp detail model batch_size snap.membership (find_model model all))
          (Runtime.snapshot r)))
