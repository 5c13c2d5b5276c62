-- ===== src/Bindings.antt =====
-- bindings/c/socrates.cpp: the global state behind the C functions and the codes that they return. The
-- one runtime that a pointer can mean is the global one, so an argument says whether it is given. Where
-- the source has no defined behaviour, or the process ends, the result is none.
pub mod Calls
pub mod Json
use socrates.Prelude.{
  ℕ, Bool, true, false, not, ◌&&◌, Option, none, some, List, [], ◌∷◌, ◌++◌, if◌then◌else◌, ltb,
  ◌==◌, map, is_empty, Text, text, text_eq, find_key, set_key,
}
use socrates.Types.{
  Result, ok, err, ErrorCode, cancelled, invalid_argument, not_found, already_exists,
  permission_denied, resource_exhausted, failed_precondition, unavailable, deadline_exceeded,
  data_loss, unauthenticated, internal,
}
use socrates.Manifest.{ManifestSummary}
use socrates.Scheduler.{PipelinePlan}
use socrates.Scheduler.Plan.{Host}
use socrates.Pipeline.{
  InferenceRequest, GenerationOptions, BatchingConfig, BatchingMode, immediate, serial, adaptive,
}
use socrates.Pipeline.Store.{Pipeline}
use socrates.Pipeline.Control.{cancel_immediate, cancel_queued}
use socrates.Runtime
use socrates.Runtime.{EdgeRuntime, RuntimeSnapshot, do_stop}
use socrates.Runtime.Start
use socrates.Runtime.Start.{RuntimeConfig, Environment, make_edge_runtime}

-- The underlying number of an `ErrorCode`; zero is none.
abbrev pub error_number : ErrorCode → ℕ
error_number cancelled = 1
error_number invalid_argument = 2
error_number not_found = 3
error_number already_exists = 4
error_number permission_denied = 5
error_number resource_exhausted = 6
error_number failed_precondition = 7
error_number unavailable = 8
error_number deadline_exceeded = 9
error_number data_loss = 10
error_number unauthenticated = 11
error_number internal = 12

pub data TrustMode : Type 0 where
  ephemeral_local_cluster pinned_allowlist private_certificate_authority : TrustMode

-- A null text is none. The number of the batching mode is one of the three.
pub record SocratesConfig : Type 0 where
  pub version : ℕ
  pub state_directory : Option Text
  pub model_root : Option Text
  pub cluster_id : Option Text
  pub trust_mode : ℕ
  pub recovery_token_retention : ℕ
  pub tracing_enabled : Bool
  pub start_as_leech : Bool
  pub production_mode : Bool
  pub batching : BatchingConfig
  pub skip_discovery : Bool

-- `RuntimeConfig` with the fields that `start` does not read.
pub record Settings : Type 0 where
  pub state_directory : Text
  pub model_root : Text
  pub local_node : Text
  pub trust_mode : TrustMode
  pub recovery_token_retention : ℕ
  pub tracing_enabled : Bool
  pub skip_discovery : Bool
  pub runtime : RuntimeConfig

-- A handle is the index of its request, and of the class that removes a request from the queue or not.
-- An orphan is one whose pipeline is gone.
pub record GenerationHandle : Type 0 where
  pub state : ℕ
  pub queued : Bool
  pub orphan : Bool

pub record Global : Type 0 where
  pub runtime : Option EdgeRuntime
  pub config : Option Settings
  pub handles : List (Text × GenerationHandle)
  pub initialized : Bool

abbrev pub or_default : Option Text → Text → Text
or_default none default = default
or_default (some s) default = if is_empty s then default else s

abbrev pub node_name : Option Text → Text
node_name none = text "default-node"
node_name (some cluster) = cluster ++ text "-node"

abbrev pub trust_mode_of : ℕ → TrustMode
trust_mode_of n =
    if n == 1
    then pinned_allowlist
    else if n == 2
    then private_certificate_authority
    else ephemeral_local_cluster

unfoldable pub settings : SocratesConfig → Settings
settings c = record {
  state_directory = or_default c.state_directory (text "/tmp/socrates-state");
  model_root = or_default c.model_root (text "/tmp/socrates-models");
  local_node = node_name c.cluster_id;
  trust_mode = trust_mode_of c.trust_mode;
  recovery_token_retention = c.recovery_token_retention;
  tracing_enabled = c.tracing_enabled;
  skip_discovery = c.skip_discovery;
  runtime = record {
    cluster_id = or_default c.cluster_id (text "default-cluster");
    production_mode = c.production_mode;
    batching = c.batching;
    start_as_leech = c.start_as_leech;
  };
}

abbrev pub Reply : Type 0
Reply = Option (Global × ℕ)

-- An initialised state is written to the pointer before the pointer is tested.
unfoldable pub socrates_init : SocratesConfig → Bool → ℕ → Global → Reply
socrates_init c has_out received_at g =
    if g.initialized
    then (if has_out then some (g, 0) else none)
    else if not has_out
    then some (g, 1)
    else if ltb c.version 1
    then some (g, 2)
    else some (
      record g {
        runtime = some (make_edge_runtime received_at);
        config = some (settings c);
        initialized = true;
      },
      0,
    )

-- `if (!state || !state->runtime) return make_error(9, ...)`.
abbrev pub on_runtime : Bool → Global → Option EdgeRuntime → (EdgeRuntime → Reply) → Reply
on_runtime false g o call = some (g, 9)
on_runtime true g none call = some (g, 9)
on_runtime true g (some r) call = call r

abbrev pub code_of {ℓ} : {A : Type ℓ} → Result A → ℕ
code_of (ok a) = 0
code_of (err e) = error_number e

-- A runtime is made together with its configuration.
abbrev pub config_or : Option Settings → BatchingConfig → RuntimeConfig
config_or (some s) batching = s.runtime
config_or none batching = record {
  cluster_id = [];
  production_mode = false;
  batching = batching;
  start_as_leech = true;
}

abbrev pub default_batching : BatchingConfig
default_batching = record {
  mode = immediate;
  max_batch_size = 4;
  batch_timeout = 5;
  long_context_threshold = 4096;
}

unfoldable pub socrates_start : Environment → Bool → Global → Reply
socrates_start env given g = on_runtime given g g.runtime (λ r.
    let (r', result) = Start.start env (config_or g.config default_batching) true r in
    some (record g { runtime = some r' }, code_of result))

abbrev pub text_or : Option Text → Text → Text
text_or none default = default
text_or (some s) default = s

-- The arguments of `socrates_generate` but the callback.
pub record GenerateArguments : Type 0 where
  pub request_id : Option Text
  pub model_id : Option Text
  pub prompt : Option Text
  pub max_tokens : ℕ
  pub temperature : ℕ
  pub context_window : ℕ

abbrev pub request_of : GenerateArguments → InferenceRequest
request_of a = record {
  request_id = text_or a.request_id (text "req");
  session_id = text "session-1";
  model_id = text_or a.model_id (text "default-model");
  prompt = text_or a.prompt [];
  generation = record {
    maximum_new_tokens = a.max_tokens;
    context_window = a.context_window;
    temperature = a.temperature;
    top_p = 0;
    seed = none;
  };
  deadline = 0;
}

abbrev pub waits_in_queue : Option Pipeline → Bool
waits_in_queue none = false
waits_in_queue (some p) = elim p.batching_config.mode [
  | immediate ↦ false
  | serial ↦ true
  | adaptive ↦ true
]

abbrev pub handle_of : ℕ → Option Pipeline → GenerationHandle
handle_of i p = record { state = i; queued = waits_in_queue p; orphan = false }

abbrev pub process_ended : Option Pipeline → Bool
process_ended none = false
process_ended (some p) = p.terminated

abbrev pub remember : Global → Text → Result (EdgeRuntime × ℕ) → Reply
remember g key (err e) = some (g, error_number e)
remember g key (ok (r, i)) =
    let kept : Reply = some (
      record g { runtime = some r; handles = set_key key (handle_of i r.pipeline) g.handles },
      0,
    ) in
    if process_ended r.pipeline then none else kept

-- The handler that wraps the callback is there also where the callback is null.
unfoldable pub socrates_generate : GenerateArguments → Bool → Global → Reply
socrates_generate a given g =
    on_runtime given g g.runtime
      (λ r. remember g (request_of a).request_id (Runtime.generate r (request_of a) true false))

-- A queued handle reaches for the pipeline that made it; any other only for its request, which nothing
-- else sees once the pipeline is gone.
abbrev pub cancel_in : GenerationHandle → Pipeline → Pipeline
cancel_in h p = if h.queued then cancel_queued h.state p else cancel_immediate h.state p

unfoldable pub cancel_handle : GenerationHandle → Option Pipeline → Option (Option Pipeline)
cancel_handle h none = if h.queued then none else some none
cancel_handle h (some p) =
    if h.orphan then (if h.queued then none else some (some p)) else some (some (cancel_in h p))

abbrev pub with_pipeline : Option Pipeline → Option EdgeRuntime → Option EdgeRuntime
with_pipeline p none = none
with_pipeline p (some r) = some (record r { pipeline = p })

abbrev pub pipeline_of : Option EdgeRuntime → Option Pipeline
pipeline_of none = none
pipeline_of (some r) = r.pipeline

-- The pointer to a handle is the id that the map keeps it under; one that the map lost is dangling.
unfoldable pub socrates_cancel : Option Text → Global → Reply
socrates_cancel none g = some (g, 2)
socrates_cancel (some key) g = elim (find_key key g.handles) [
  | none ↦ none
  | some h ↦ elim (cancel_handle h (pipeline_of g.runtime)) [
    | none ↦ none
    | some p ↦ some (record g { runtime = with_pipeline p g.runtime }, 0)
  ]
]

-- `handles.erase`; the map has an id once.
unfoldable pub erase_key : Text → List (Text × GenerationHandle) → List (Text × GenerationHandle)
erase_key key [] = []
erase_key key ((k, h) ∷ m) =
    let rest = erase_key key m in if text_eq k key then rest else (k, h) ∷ rest

abbrev pub cancel_found : Global → Text → Option GenerationHandle → Reply
cancel_found g id none = some (g, 3)
cancel_found g id (some h) = elim (cancel_handle h (pipeline_of g.runtime)) [
  | none ↦ none
  | some p ↦
      some (record g { runtime = with_pipeline p g.runtime; handles = erase_key id g.handles }, 0)
]

unfoldable pub socrates_cancel_by_id : Option Text → Bool → Global → Reply
socrates_cancel_by_id id given g =
    let key = text_or id [] in
    if given then cancel_found g key (find_key key g.handles) else some (g, 9)

-- An exception in the noexcept `stop` ends the process.
abbrev pub halted : Global → Result (EdgeRuntime × List RuntimeSnapshot) → Reply
halted g (ok (r, out)) = some (
  record g {
    runtime = some r;
    handles =
        map {B = Text × GenerationHandle} (λ (k, h). (k, record h { orphan = true })) g.handles;
  },
  0,
)
halted g (err e) = none

unfoldable pub socrates_stop : Bool → Global → Reply
socrates_stop given g = on_runtime given g g.runtime (λ r. halted g (do_stop r))

abbrev pub shut_down : Global → Result (EdgeRuntime × List RuntimeSnapshot) → Reply
shut_down g (ok (r, out)) = some (record g { runtime = none; handles = []; initialized = false }, 0)
shut_down g (err e) = none

unfoldable pub socrates_shutdown : Bool → Global → Reply
socrates_shutdown given g = on_runtime given g g.runtime (λ r. shut_down g (do_stop r))

abbrev pub joined : Global → Result (EdgeRuntime × List PipelinePlan × List RuntimeSnapshot) → Reply
joined g (ok (r, saved, out)) = some (record g { runtime = some r }, 0)
joined g (err e) = some (g, error_number e)

unfoldable pub socrates_join_cluster :
    Host → Option (Result ManifestSummary) → Text → ℕ → Bool → Global → Reply
socrates_join_cluster host published token now given g =
    on_runtime given g g.runtime
      (λ r. joined g (Runtime.join_cluster host published token now r false))
