-- ===== src/Scheduler/Compatible.antt =====
-- `find_compatible_backend` and `compute_time_estimate` of src/scheduler/memory_scheduler.cpp.
use socrates.Prelude.{
  sym, false, Option-cases, ◌≡◌, refl, Bool, true, ◌&&◌, ◌||◌, Option, none, some, List, [], ◌∷◌,
  any_of, is_empty, if◌then◌else◌, ltb, arith, is_some, Bool-cases, ◌⊎◌, inl, inr,
}
use socrates.Types.{
  Double, DoubleOps, BackendKind, BackendCapability, BackendBenchmark, CapabilityProfile,
  ComputeUnit, backend_eq, unit_eq, quantization_eq, backend_eq_refl,
}
use socrates.Scheduler.{ShardOption}

-- An empty list of the shard accepts anything.
abbrev pub accepts_kind : ShardOption → BackendKind → Bool
accepts_kind shard kind =
    is_empty shard.compatible_backends
    || any_of (λ be. backend_eq kind be) shard.compatible_backends

abbrev pub accepts_units : ShardOption → List ComputeUnit → Bool
accepts_units shard units =
    is_empty shard.required_compute_units
    || any_of (λ req. any_of (λ cu. unit_eq cu req) units) shard.required_compute_units

unfoldable pub accepts : ShardOption → BackendCapability → Bool
accepts shard be = accepts_kind shard be.kind && accepts_units shard be.compute_units

-- The loop over `cap.backends`.
scan_backends : ShardOption → List BackendCapability → Option BackendKind
scan_backends shard [] = none
scan_backends shard (be ∷ rest) =
    let next = scan_backends shard rest in if accepts shard be then some be.kind else next

unfoldable pub find_compatible_backend : ShardOption → CapabilityProfile → Option BackendKind
unfolding scan_backends
find_compatible_backend shard cap = scan_backends shard cap.backends

-- A measured rate or latency of the backend, or the shard's own estimate.
scan_benchmarks : DoubleOps → ShardOption → BackendKind → List BackendBenchmark → Double
scan_benchmarks ops shard backend [] = shard.estimated_decode_microseconds
scan_benchmarks ops shard backend (bm ∷ rest) =
    let next = scan_benchmarks ops shard backend rest in
    if backend_eq bm.backend backend && quantization_eq bm.quantization.kind shard.quantization
    then (if ops.gtb bm.decode_tokens_per_second (ops.of_int 0)
        then ops.div (ops.of_int 1_000_000) bm.decode_tokens_per_second
        else if ltb 0 bm.first_token_latency
        then ops.of_int bm.first_token_latency
        else next)
    else next

unfoldable pub compute_time_estimate :
    DoubleOps → ShardOption → CapabilityProfile → BackendKind → Double
unfolding scan_benchmarks
compute_time_estimate ops shard cap backend =
    scan_benchmarks ops shard backend cap.measured_benchmarks

-- The declarative reading: some backend of the node, of this kind, is accepted by the shard.
abbrev pub runs_on : ShardOption → CapabilityProfile → BackendKind → Bool
runs_on shard cap kind = any_of (λ be. backend_eq be.kind kind && accepts shard be) cap.backends

scan_backends-accepts :
    (shard : ShardOption) (l : List BackendCapability)
    → is_some (scan_backends shard l) ≡ any_of (accepts shard) l
unfolding scan_backends
scan_backends-accepts shard [] = refl
scan_backends-accepts shard (be ∷ l) = elim (Bool-cases (accepts shard be)) [
  | inl e ↦ ground (arith, e)
  | inr e ↦ ground (arith, e, scan_backends-accepts shard l)
]

scan_backends-kind :
    (shard : ShardOption) (l : List BackendCapability) (k : BackendKind)
    → scan_backends shard l ≡ some k
    → any_of (λ be. backend_eq be.kind k && accepts shard be) l ≡ true
unfolding scan_backends
scan_backends-kind shard [] k h = ground arith
scan_backends-kind shard (be ∷ l) k h =
    ground (arith, scan_backends-kind shard l k, backend_eq_refl be.kind)

-- The node is refused exactly when it has no backend that the shard accepts.
find_compatible_backend-is_some :
    (shard : ShardOption) (cap : CapabilityProfile)
    → is_some (find_compatible_backend shard cap) ≡ any_of (accepts shard) cap.backends
unfolding find_compatible_backend
find_compatible_backend-is_some shard cap = scan_backends-accepts shard cap.backends

-- A kind that is chosen is one that the node offers and the shard accepts.
pub find_compatible_backend-runs_on :
    (shard : ShardOption) (cap : CapabilityProfile) (k : BackendKind)
    → find_compatible_backend shard cap ≡ some k
    → runs_on shard cap k ≡ true
unfolding find_compatible_backend
find_compatible_backend-runs_on shard cap k h = scan_backends-kind shard cap.backends k h

-- Either a backend is chosen that the node offers and the shard accepts, or none is, and the shard
-- accepts no backend of the node.
find_compatible_backend_lem :
    (shard : ShardOption) (cap : CapabilityProfile)
    → ((k : BackendKind) × (find_compatible_backend shard cap ≡ some k)
        × (runs_on shard cap k ≡ true))
      ⊎ ((find_compatible_backend shard cap ≡ none) × (any_of (accepts shard) cap.backends ≡ false))
find_compatible_backend_lem shard cap =
    let found = find_compatible_backend-is_some shard cap in
    elim (Option-cases (find_compatible_backend shard cap)) [
      | inl e ↦ inr (e, sym (rw e at found))
      | inr (k, e) ↦ inl (k, e, find_compatible_backend-runs_on shard cap k e)
    ]
