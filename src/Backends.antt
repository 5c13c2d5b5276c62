-- ===== src/Backends.antt =====
-- src/inference/backend_registry.cpp, src/runtime/backend_dispatch.cpp and src/model/model_manager.cpp:
-- the registry of backends, the load that falls back along a chain of backends, and the leases of shards.
-- The backends and the file system are parameters.
pub mod Fallback
pub mod Leases
use socrates.Prelude.{
  ℕ, zero, suc, ◌+◌, ◌≡◌, Bool, true, false, not, ◌&&◌, Option, none, some, List, [], ◌∷◌, ◌++◌,
  if◌then◌else◌, ◌==◌, drop, length, is_some, Text, text, text_eq, take,
}
use socrates.Types.{
  BackendKind, backend_eq, llama_cpp, executorch_qnn, executorch_cpu, mlx, lite_rt,
  BackendCapability, Result, ok, err, ErrorCode, ◌>>=◌, ◌>>◌, guard, not_found, unavailable,
  cancelled, invalid_argument, already_exists, internal,
}
use socrates.Scheduler.{StageAssignment}

-- The map from kinds to adapters; an adapter is known by a number.
unfoldable pub register_backend : BackendKind → ℕ → List (BackendKind × ℕ) → List (BackendKind × ℕ)
register_backend kind backend [] = (kind, backend) ∷ []
register_backend kind backend ((k, b) ∷ m) =
    let rest = (k, b) ∷ register_backend kind backend m in
    if backend_eq k kind then (k, backend) ∷ m else rest

unfoldable pub resolve : List (BackendKind × ℕ) → BackendKind → Result ℕ
resolve [] kind = err not_found
resolve ((k, b) ∷ m) kind = let rest = resolve m kind in if backend_eq k kind then ok b else rest

pub record FallbackRequest : Type 0 where
  pub requested : BackendKind
  pub artifact_format : Text
  pub quantization_id : Text
  pub requested_profile_id : Text
  pub cpu_fallback_profile_id : Option Text
  pub artifact_compatible_backends : List BackendKind
  pub allow_cpu_fallback : Bool

abbrev pub cpu_after : BackendKind → List BackendKind
cpu_after executorch_qnn = executorch_cpu ∷ []
cpu_after mlx = executorch_cpu ∷ []
cpu_after lite_rt = executorch_cpu ∷ []
cpu_after llama_cpp = executorch_cpu ∷ []
cpu_after executorch_cpu = []

unfoldable pub fallback_chain : FallbackRequest → Result (List BackendKind)
fallback_chain r =
    if not r.allow_cpu_fallback
    then ok (r.requested ∷ [])
    else ok (r.requested ∷ cpu_after r.requested)

-- An adapter of the chain: its capability, and what a load of the shard gives.
pub record Adapter : Type 0 where
  pub capability : Result BackendCapability
  pub load_model : Result ℕ

abbrev pub is_ok {ℓ} : {A : Type ℓ} → Result A → Bool
is_ok (ok a) = true
is_ok (err e) = false

unfoldable pub load_model_with_fallback : List Adapter → Result ℕ
load_model_with_fallback [] = err unavailable
load_model_with_fallback (a ∷ chain) =
    let rest = load_model_with_fallback chain in
    if is_ok a.capability && is_ok a.load_model then a.load_model else rest

-- Where a text begins in another, as `std::string::find` counts.
unfoldable pub find_text : Text → Text → Option ℕ
find_text needle [] = if text_eq needle [] then some 0 else none
find_text needle (c ∷ cs) =
    let rest = find_text needle cs in
    if text_eq (take (length needle) (c ∷ cs)) needle
    then some 0
    else elim rest [ none ↦ none | some i ↦ some (suc i) ]

abbrev pub at_start : Option ℕ → Bool
at_start none = false
at_start (some i) = i == 0

-- The file system, and the model root joined to a relative path.
pub record Files : Type 0 where
  pub resolve_path : Text → Text
  pub file_exists : Text → Bool
  pub file_size : Text → Option ℕ

pub record ShardLease : Type 0 where
  pub shard_id : Text
  pub path : Text
  pub size_bytes : ℕ

abbrev pub relative : Text → Text
relative uri = elim (find_text (text "./") uri) [ none ↦ uri | some i ↦ drop (i + 2) uri ]

unfoldable pub leased : Text → List (Text × Text) → Bool
leased shard [] = false
leased shard ((k, path) ∷ m) = let rest = leased shard m in if text_eq k shard then true else rest

abbrev pub size_or : Option ℕ → Result ℕ
size_or none = err internal
size_or (some n) = ok n

-- The lease and the map of leases after it. No call removes a lease from the map.
unfoldable pub acquire :
    Files → List (Text × Text) → StageAssignment → Bool → Result (ShardLease × List (Text × Text))
acquire files leases assignment stopped = do
  let uri = assignment.artifact.uri
  let full = files.resolve_path (relative uri)
  guard (not stopped) cancelled
  guard
      (not (
        not (at_start (find_text (text "file:./") uri)) && at_start (find_text (text "file:") uri)))
      invalid_argument
  guard (not (leased assignment.shard_id leases)) already_exists
  guard (files.file_exists full) not_found
  size ← size_or (files.file_size full)
  ok (
    record { shard_id = assignment.shard_id; path = full; size_bytes = size },
    (assignment.shard_id, full) ∷ leases,
  )
