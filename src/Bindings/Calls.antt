-- ===== src/Bindings/Calls.antt =====
-- What a caller of the C functions of bindings/c/socrates.cpp can rely on across calls.
use socrates.Prelude.{
  ℕ, ◌≡◌, refl, ap, subst, Bool, true, false, not, ◌&&◌, Option, none, some, List, [], ◌∷◌, ◌++◌,
  length, Text, text, find_key, eq_of_some, arith,
}
use socrates.Types.{Double, Result, ok, err}
use socrates.Catalog.{Floats, ModelCatalogEntry}
use socrates.Manifest.{ManifestSummary}
use socrates.Scheduler.Plan.{Host}
use socrates.Pipeline.{ActiveRequest}
use socrates.Pipeline.Store.{Pipeline, get_state}
use socrates.Runtime
use socrates.Runtime.{EdgeRuntime, RuntimeSnapshot, do_stop}
use socrates.Runtime.Start.{Environment}
use socrates.Bindings.{
  Global, GenerateArguments, on_runtime, socrates_cancel, shut_down, pipeline_of, socrates_start,
  socrates_generate, socrates_cancel_by_id, socrates_stop, socrates_shutdown, socrates_join_cluster,
}
use socrates.Bindings.Json.{
  socrates_model_progress_json, socrates_available_models_json, socrates_cluster_snapshot_json,
  socrates_run_profiler_json, socrates_estimate_context_json,
}

-- A state without a runtime and without handles refuses all calls on it but `socrates_init`. The text
-- functions have nothing to tell, and no handle is left that `socrates_cancel` could be given.
pub record Silent (g : Global) : Type 1 where
  pub start : (env : Environment) → socrates_start env true g ≡ some (g, 9)
  pub generate : (a : GenerateArguments) → socrates_generate a true g ≡ some (g, 9)
  pub cancel_by_id : (id : Option Text) → socrates_cancel_by_id id true g ≡ some (g, 3)
  pub stop : socrates_stop true g ≡ some (g, 9)
  pub shutdown : socrates_shutdown true g ≡ some (g, 9)
  pub join_cluster :
      (host : Host) (published : Option (Result ManifestSummary)) (token : Text) (now : ℕ)
      → socrates_join_cluster host published token now true g ≡ some (g, 9)
  pub model_progress : socrates_model_progress_json true g ≡ some (text "[]")
  pub available_models :
      (fp : Floats) (show : Double → Text) (unset : ℕ) (all : List ModelCatalogEntry)
      → socrates_available_models_json fp show unset all true g ≡ some (text "[]")
  pub cluster_snapshot : socrates_cluster_snapshot_json true g ≡ some (text "{}")
  pub profiler :
      (fp : Floats) (show : Double → Text)
      → socrates_run_profiler_json fp show true g ≡ some (text "{}")
  pub context :
      (fp : Floats) (detail : Text) (all : List ModelCatalogEntry) (id : Option Text) (batch : ℕ)
      → socrates_estimate_context_json fp detail all id batch true g ≡ some (text "{}")
  pub cancel_null : socrates_cancel none g ≡ some (g, 2)
  pub no_handle : (id : Text) → find_key id g.handles ≡ none
  pub may_init : g.initialized ≡ false

abbrev blank : Global → Global
blank g = record g { runtime = none; handles = []; initialized = false }

blank-Silent : (g : Global) → Silent (blank g)
unfolding socrates_start socrates_generate socrates_cancel_by_id socrates_stop socrates_shutdown
    socrates_join_cluster socrates_model_progress_json socrates_available_models_json
    socrates_cluster_snapshot_json socrates_run_profiler_json socrates_estimate_context_json
    socrates_cancel find_key
blank-Silent g = record {
  start = λ env. refl;
  generate = λ a. refl;
  cancel_by_id = λ id. refl;
  stop = refl;
  shutdown = refl;
  join_cluster = λ host published token now. refl;
  model_progress = refl;
  available_models = λ fp show unset all. refl;
  cluster_snapshot = refl;
  profiler = λ fp show. refl;
  context = λ fp detail all id batch. refl;
  cancel_null = refl;
  no_handle = λ id. refl;
  may_init = refl;
}

shut_down-Silent :
    (g g' : Global) (o : Result (EdgeRuntime × List RuntimeSnapshot))
    → shut_down g o ≡ some (g', 0)
    → Silent g'
shut_down-Silent g g' (ok (r, out)) h = subst (λ x. Silent x.0) (eq_of_some h) (blank-Silent g)
shut_down-Silent g g' (err e) h = absurd (cc)

on_runtime-Silent :
    (g g' : Global) (o : Option EdgeRuntime)
    → on_runtime true g o (λ r. shut_down g (do_stop r)) ≡ some (g', 0)
    → Silent g'
on_runtime-Silent g g' none h = absurd (omega (arith, ap (λ x. x.1) (eq_of_some h)))
on_runtime-Silent g g' (some r) h = shut_down-Silent g g' (do_stop r) h

-- After a shutdown that returned success, no call on the runtime but socrates_init is served: a
-- cancellation by an id is refused with the code for an unknown id, and starting, generating, stopping,
-- joining and another shutdown with the code for a runtime that was not initialised, and they change
-- nothing; the functions that return JSON return an empty list or object. No handle is left for
-- socrates_cancel, which refuses a null one, and socrates_init may make a runtime again.
pub socrates_shutdown-Silent : (g g' : Global) → socrates_shutdown true g ≡ some (g', 0) → Silent g'
unfolding socrates_shutdown
socrates_shutdown-Silent g g' h = on_runtime-Silent g g' g.runtime h

-- Neither going on nor waiting to.
abbrev pub is_cancelled : Option ActiveRequest → Bool
is_cancelled none = false
is_cancelled (some s) = not s.active && s.stop_requested

-- What a generation that the runtime accepts makes of it.
record Made (r r' : EdgeRuntime) (i : ℕ) : Type 0 where
  before : Pipeline
  after : Pipeline
  request : ActiveRequest
  was : r.pipeline ≡ some before
  is : r' ≡ record r { pipeline = some after }
  fresh : i ≡ length before.states
  states : after.states ≡ before.states ++ (request ∷ [])

-- What cancelling by the id of a generation does.
pub record Cancels (g g' : Global) (id : Text) : Type 0 where
  pub pipeline : Pipeline
  pub cancelled : Pipeline
  pub after : Global
  pub was : pipeline_of g.runtime ≡ some pipeline
  pub once : socrates_cancel_by_id (some id) true g' ≡ some (after, 0)
  pub is : pipeline_of after.runtime ≡ some cancelled
  pub request : is_cancelled (get_state cancelled.states (length pipeline.states)) ≡ true
  pub twice : socrates_cancel_by_id (some id) true after ≡ some (after, 3)
