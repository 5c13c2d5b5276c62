-- ===== src/Pipeline/Control/Admission.antt =====
-- What `generate` of src/pipeline/inference_pipeline.cpp does with a request that it admits.
use socrates.Prelude.{
  subst, sym, Option-cases, ◌⊎◌, inl, inr, ℕ, ◌≡◌, refl, ap, ◌∙◌, inl, inr, Bool, true, false, not,
  ◌&&◌, Option, none, some, List, [], ◌∷◌, ◌++◌, length, is_empty, Text, text_eq, text_eq_refl,
  Bool-cases, if◌then◌else◌, is_some, ◌||◌,
}
use socrates.Types.{
  Result, ErrorCode, ok, err, guard, ◌>>◌, cancelled, invalid_argument, unavailable,
}
use socrates.Scheduler.{PipelinePlan}
use socrates.Pipeline.{
  ActiveRequest, InferenceRequest, BatchingMode, immediate, serial, adaptive, StreamEventKind,
  started, queued, event, emit_queued, emit_started,
}
use socrates.Pipeline.Store.{
  Pipeline, QueuedRequest, get_state, update_state, assign, find, request_id, name_of, on_state,
}
use socrates.Pipeline.Queue.{launch_worker}
use socrates.Pipeline.Control.{new_request, generate, admitted, enqueue}

-- The first event of a request, by the mode of batching.
abbrev first_kind : BatchingMode → StreamEventKind
first_kind immediate = started
first_kind serial = queued
first_kind adaptive = queued

abbrev queue_after : BatchingMode → ℕ → ℕ → List QueuedRequest → List QueuedRequest
queue_after immediate i window queue = queue
queue_after serial i window queue = queue ++ (record { state = i; context_window = window } ∷ [])
queue_after adaptive i window queue = queue ++ (record { state = i; context_window = window } ∷ [])

abbrev workers_after : BatchingMode → Text → ℕ → List (Text × ℕ) → List (Text × ℕ)
workers_after immediate id i workers = assign id i workers
workers_after serial id i workers = workers
workers_after adaptive id i workers = workers

-- Whether the process ends: a worker that starts at once takes the place of one with the same id.
abbrev ends_process : BatchingMode → Text → Pipeline → Bool
ends_process immediate id p = p.terminated || is_some (find id p.workers)
ends_process serial id p = p.terminated
ends_process adaptive id p = p.terminated

-- The pipeline `p` admitted a request under the index `i` and became `p'`.
pub record Admitted (mode : BatchingMode) (p : Pipeline) (request : InferenceRequest)
    (plan : PipelinePlan) (p' : Pipeline) (i : ℕ) : Type 0 where
  pub fresh : i ≡ length p.states
  pub states :
      p'.states
      ≡ p.states
        ++ (record (new_request request plan true) {
          events = event (first_kind mode) request.request_id 0 ∷ [];
        }
            ∷ [])
  pub known : find request.request_id p'.active_requests ≡ some i
  pub queue :
      p'.pending_queue ≡ queue_after mode i request.generation.context_window p.pending_queue
  pub workers : p'.workers ≡ workers_after mode request.request_id i p.workers
  pub terminated : p'.terminated ≡ ends_process mode request.request_id p

find-assign : (key : Text) (v : ℕ) (m : List (Text × ℕ)) → find key (assign key v m) ≡ some v
unfolding find assign
find-assign key v [] = rw (text_eq_refl key)
find-assign key v ((k, w) ∷ m) = elim (Bool-cases (text_eq k key)) [
  | inl e ↦ rw (e, e)
  | inr e ↦ rw (e, e) (find-assign key v m)
]

update_state-last :
    (states : List ActiveRequest) (s : ActiveRequest) (f : ActiveRequest → ActiveRequest)
    → update_state (length states) f (states ++ (s ∷ [])) ≡ states ++ (f s ∷ [])
unfolding update_state
update_state-last [] s f = refl
update_state-last (x ∷ states) s f = ap (◌∷◌ x) (update_state-last states s f)

get_state-last :
    (states : List ActiveRequest) (s : ActiveRequest)
    → get_state (states ++ (s ∷ [])) (length states) ≡ some s
unfolding get_state
get_state-last [] s = refl
get_state-last (x ∷ states) s = get_state-last states s

abbrev outcome : BatchingMode → Pipeline → InferenceRequest → PipelinePlan → Pipeline
outcome mode p request plan =
    let i = length p.states in
    let p' = admitted request plan true p in
    let at_once = launch_worker i (on_state i emit_started p') in
    let waiting = enqueue i request.generation.context_window (on_state i emit_queued p') in
    elim mode [ immediate ↦ at_once | serial ↦ waiting | adaptive ↦ waiting ]

outcome-Admitted :
    (mode : BatchingMode) (p : Pipeline) (request : InferenceRequest) (plan : PipelinePlan)
    → Admitted mode p request plan (outcome mode p request plan) (length p.states)
unfolding emit_queued emit_started launch_worker new_request
outcome-Admitted immediate p request plan = record {
  fresh = refl;
  states = update_state-last p.states (new_request request plan true) emit_started;
  known = find-assign request.request_id (length p.states) p.active_requests;
  queue = refl;
  workers =
      ap (λ id. assign id (length p.states) p.workers)
        (ap (λ ss. request_id ss (length p.states))
            (update_state-last p.states (new_request request plan true) emit_started)
          ∙ ap name_of (get_state-last p.states (emit_started (new_request request plan true))));
  terminated =
      ap (λ id. p.terminated || is_some (find id p.workers))
        (ap (λ ss. request_id ss (length p.states))
            (update_state-last p.states (new_request request plan true) emit_started)
          ∙ ap name_of (get_state-last p.states (emit_started (new_request request plan true))));
}
outcome-Admitted serial p request plan = record {
  fresh = refl;
  states = update_state-last p.states (new_request request plan true) emit_queued;
  known = find-assign request.request_id (length p.states) p.active_requests;
  queue = refl;
  workers = refl;
  terminated = refl;
}
outcome-Admitted adaptive p request plan = record {
  fresh = refl;
  states = update_state-last p.states (new_request request plan true) emit_queued;
  known = find-assign request.request_id (length p.states) p.active_requests;
  queue = refl;
  workers = refl;
  terminated = refl;
}

-- A request with a callback that is not cancelled, with a plan that has stages, on a node that may
-- run it, is admitted under a new index, with one event. It has a worker at once, or waits at the
-- end of the queue.
generate-Admitted :
    (p : Pipeline) (request : InferenceRequest) (plan : PipelinePlan)
    → is_empty plan.stages ≡ false
    → (p.production_mode && not p.distributed_capability) ≡ false
    → (p' : Pipeline) × (generate p request plan true false ≡ ok (p', length p.states))
      × Admitted p.batching_config.mode p request plan p' (length p.states)
unfolding generate
generate-Admitted p request plan has_stages allowed =
    let mode = p.batching_config.mode in
    (outcome mode p request plan, rw (has_stages, allowed), outcome-Admitted mode p request plan)

abbrev pub refusal : Bool → Bool → Bool → Option ErrorCode
refusal stopped no_stages barred =
    if stopped
    then some cancelled
    else if no_stages
    then some invalid_argument
    else if barred
    then some unavailable
    else none

abbrev code_of {ℓ} : {A : Type ℓ} → Option ErrorCode → Result A
code_of none = err cancelled
code_of (some e) = err e

refused :
    {A : Type 0} (stopped no_stages barred : Bool) (e : ErrorCode) (r : Result A)
    → refusal stopped no_stages barred ≡ some e
    → (guard (not stopped) cancelled
        >> (guard (not no_stages) invalid_argument >> (guard (not barred) unavailable >> r)))
      ≡ err e
refused true no_stages barred e r h = ap code_of h
refused false true barred e r h = ap code_of h
refused false false true e r h = ap code_of h
refused false false false e r h = absurd (cc)

-- A refusal has the code of the first of its reasons: cancellation, a plan without stages, a node in
-- production mode that lacks the transport or the backends.
generate-refusal :
    (p : Pipeline) (request : InferenceRequest) (plan : PipelinePlan) (has_callback stopped : Bool)
    (e : ErrorCode)
    → refusal stopped (is_empty plan.stages) (p.production_mode && not p.distributed_capability)
      ≡ some e
    → generate p request plan has_callback stopped ≡ err e
unfolding generate
generate-refusal p request plan has_callback stopped e h =
    refused stopped (is_empty plan.stages) (p.production_mode && not p.distributed_capability) e _ h

unrefused :
    (stopped no_stages barred : Bool)
    → refusal stopped no_stages barred ≡ none
    → (stopped ≡ false) × (no_stages ≡ false) × (barred ≡ false)
unrefused true no_stages barred h = absurd (cc)
unrefused false true barred h = absurd (cc)
unrefused false false true h = absurd (cc)
unrefused false false false h = (refl, refl, refl)

-- Either a request with a callback is refused, with the code of the first of the reasons: cancellation,
-- a plan without stages, a node in production mode that lacks the transport or the backends; or none
-- of these holds, and it is entered under a new index, with one event, and has a worker at once or
-- waits at the end of the queue. A worker at once ends the process exactly if there is still one under
-- the same id; otherwise the request is admitted.
pub generate_lem :
    (p : Pipeline) (request : InferenceRequest) (plan : PipelinePlan) (stopped : Bool)
    → ((e : ErrorCode) × (refusal stopped
            (is_empty plan.stages)
            (p.production_mode && not p.distributed_capability)
          ≡ some e)
        × (generate p request plan true stopped ≡ err e))
      ⊎ ((p' : Pipeline) × (refusal stopped
              (is_empty plan.stages)
              (p.production_mode && not p.distributed_capability)
            ≡ none)
          × (generate p request plan true stopped ≡ ok (p', length p.states))
          × Admitted p.batching_config.mode p request plan p' (length p.states))
generate_lem p request plan stopped =
    let barred = p.production_mode && not p.distributed_capability in
    elim (Option-cases (refusal stopped (is_empty plan.stages) barred)) [
      | inl none_of_them ↦
          let (go, stages, free) = unrefused stopped (is_empty plan.stages) barred none_of_them in
          let (p', made, admitted) = generate-Admitted p request plan stages free in
          inr (
            p',
            none_of_them,
            subst (λ b. generate p request plan true b ≡ ok (p', length p.states)) (sym go) made,
            admitted,
          )
      | inr (e, reason) ↦ inl (e, reason, generate-refusal p request plan true stopped e reason)
    ]
