-- ===== src/Pipeline/Control.antt =====
-- The calls of the pipeline in src/pipeline/inference_pipeline.cpp: admission, replanning,
-- cancellation, the loss of a node, counts and shutdown. The locks make each call one step.
pub mod Admission
pub mod Replan
pub mod NodeLoss
use socrates.Prelude.{
  ℕ, zero, suc, ◌+◌, ◌≡◌, Bool, true, false, not, ◌&&◌, Option, none, some, List, [], ◌∷◌, ◌++◌,
  if◌then◌else◌, ltb, length, is_empty, any_of, is_some, Text, text, text_eq,
}
use socrates.Types.{
  Result, ok, err, ErrorCode, ◌>>=◌, ◌>>◌, guard, cancelled, invalid_argument, unavailable,
  not_found, failed_precondition,
}
use socrates.Scheduler.{PipelinePlan}
use socrates.Pipeline.{
  ActiveRequest, InferenceRequest, BatchingConfig, immediate, serial, adaptive, StreamEvent, event,
  replanning, completed, token_event, failed_event, notify, emit_queued, emit_started, cancel,
  to_string, TokenRecord,
}
use socrates.Pipeline.Store.{
  Pipeline, QueuedRequest, get_state, update_state, on_state, assign, find, erase, request_id,
}
use socrates.Pipeline.Queue.{launch_worker}
use socrates.Pipeline.Generation.{Others}

unfoldable pub set_production_mode : Bool → Pipeline → Pipeline
set_production_mode enabled p = record p { production_mode = enabled }

unfoldable pub set_batching_config : BatchingConfig → Pipeline → Pipeline
set_batching_config config p = record p { batching_config = config }

unfoldable pub set_local_node_id : Text → Pipeline → Pipeline
set_local_node_id id p = record p { local_node_id = id }

unfoldable pub new_request : InferenceRequest → PipelinePlan → Bool → ActiveRequest
new_request request plan has_callback = record {
  request = request;
  plan = plan;
  has_callback = has_callback;
  active = true;
  stop_requested = false;
  tokens_emitted = 0;
  next_expected_position = 0;
  token_history = [];
  events = [];
}

-- The request under its index, and in the map of active requests.
abbrev pub admitted : InferenceRequest → PipelinePlan → Bool → Pipeline → Pipeline
admitted request plan has_callback p = record p {
  states = p.states ++ (new_request request plan has_callback ∷ []);
  active_requests = assign request.request_id (length p.states) p.active_requests;
}

abbrev pub enqueue : ℕ → ℕ → Pipeline → Pipeline
enqueue i window p = record p {
  pending_queue = p.pending_queue ++ (record { state = i; context_window = window } ∷ []);
}

-- The handle that `generate` returns is known by the request's index.
unfoldable pub generate :
    Pipeline → InferenceRequest → PipelinePlan → Bool → Bool → Result (Pipeline × ℕ)
generate p request plan has_callback stopped = do
  guard (not stopped) cancelled
  guard (not (is_empty plan.stages)) invalid_argument
  guard (not (p.production_mode && not p.distributed_capability)) unavailable
  let i = length p.states
  let p' = admitted request plan has_callback p
  let at_once = launch_worker i (on_state i emit_started p')
  let waiting = enqueue i request.generation.context_window (on_state i emit_queued p')
  ok (
    elim p.batching_config.mode [ immediate ↦ at_once | serial ↦ waiting | adaptive ↦ waiting ],
    i,
  )

abbrev pub replay_event : Text → ℕ → TokenRecord → StreamEvent
replay_event id i r = token_event id i r.token_id (text "replay:" ++ to_string i)

-- The loop over the history from a position on, which ends when the request is no longer active.
-- `others` is what other threads do before each test of the flag; none of them adds to the history.
unfoldable pub replay_loop : Others → Text → ℕ → List TokenRecord → ActiveRequest → ActiveRequest
replay_loop others id i [] s = others i s
replay_loop others id i (r ∷ rs) s =
    let s' = others i s in
    let rest = replay_loop others id (i + 1) rs (notify (replay_event id i r) s') in
    if s'.active then rest else s'

-- The request's part of `replan`.
unfoldable pub replan_request : Others → Text → PipelinePlan → ActiveRequest → ActiveRequest
replan_request others id replacement s =
    let paused = record s { active = false } in
    let ev = record (event replanning id s.tokens_emitted) {
      metadata = (text "replacement_plan_id", replacement.plan_id) ∷ [];
    } in
    let told = notify ev paused in
    let resumed = record told { plan = replacement; active = true } in
    let replayed = replay_loop others id 0 resumed.token_history resumed in
    notify (event completed id replayed.tokens_emitted) replayed

abbrev pub or_err {ℓ} : {A : Type ℓ} → Option A → ErrorCode → Result A
or_err none e = err e
or_err (some a) e = ok a

unfoldable pub replan : Others → Pipeline → Text → PipelinePlan → Result Pipeline
replan others p id replacement = do
  i ← or_err (find id p.active_requests) not_found
  s ← or_err (get_state p.states i) not_found
  guard (ltb s.plan.fence.term replacement.fence.term) failed_precondition
  ok (on_state i (replan_request others id replacement) p)

-- The first entry of the queue for a request id, which is told and removed.
unfoldable pub removed_queued : List ActiveRequest → Text → List QueuedRequest → Option ℕ
removed_queued states id [] = none
removed_queued states id (q ∷ qs) =
    let rest = removed_queued states id qs in
    if text_eq (request_id states q.state) id then some q.state else rest

unfoldable pub without_queued : List ActiveRequest → Text → List QueuedRequest → List QueuedRequest
without_queued states id [] = []
without_queued states id (q ∷ qs) =
    let rest = q ∷ without_queued states id qs in
    if text_eq (request_id states q.state) id then qs else rest

abbrev pub cancelled_while_queued : ActiveRequest → ActiveRequest
cancelled_while_queued s = notify (failed_event s.request.request_id 0 cancelled) s

unfoldable pub remove_queued : Text → Pipeline → Pipeline
remove_queued id p = elim (removed_queued p.states id p.pending_queue) [
  | none ↦ p
  | some i ↦
      on_state i cancelled_while_queued
        (record p { pending_queue = without_queued p.states id p.pending_queue })
]

-- `GenerationHandleImpl::cancel` and `QueuedGenerationHandle::cancel`.
unfoldable pub cancel_immediate : ℕ → Pipeline → Pipeline
cancel_immediate i p = on_state i cancel p

unfoldable pub cancel_queued : ℕ → Pipeline → Pipeline
cancel_queued i p = let p' = on_state i cancel p in remove_queued (request_id p'.states i) p'

abbrev pub uses : Text → ActiveRequest → Bool
uses node s = any_of (λ stage. text_eq stage.node_id node) s.plan.stages

-- The request's part of `detect_node_loss`.
unfoldable pub lose_node : Text → ActiveRequest → ActiveRequest
lose_node node s =
    let ev = record (event replanning s.request.request_id 0) {
      metadata = (text "lost_node", node) ∷ [];
    } in
    let told = notify ev s in if uses node s then record told { active = false } else s

unfoldable pub lose_node_each : Text → List (Text × ℕ) → Pipeline → Pipeline
lose_node_each node [] p = p
lose_node_each node ((id, i) ∷ m) p = lose_node_each node m (on_state i (lose_node node) p)

unfoldable pub detect_node_loss : Text → Pipeline → Pipeline
detect_node_loss node p = lose_node_each node p.active_requests p

abbrev pub emitting : Option ActiveRequest → Bool
emitting none = false
emitting (some s) = s.active && ltb 0 s.tokens_emitted

unfoldable pub count_emitting : List ActiveRequest → List (Text × ℕ) → ℕ
count_emitting states [] = 0
count_emitting states ((id, i) ∷ m) =
    let rest = count_emitting states m in if emitting (get_state states i) then suc rest else rest

unfoldable pub count_workers : List (Text × ℕ) → List (Text × ℕ) → ℕ
count_workers requests [] = 0
count_workers requests ((id, i) ∷ m) =
    let rest = count_workers requests m in if is_some (find id requests) then suc rest else rest

unfoldable pub active_generation_count : Pipeline → ℕ
active_generation_count p =
    count_emitting p.states p.active_requests + count_workers p.active_requests p.workers

unfoldable pub queued_request_count : Pipeline → ℕ
queued_request_count p = length p.pending_queue

-- The destructor: no request has a callback or is active, and nothing waits.
abbrev pub release : ActiveRequest → ActiveRequest
release s = record s { has_callback = false; active = false }

unfoldable pub release_each : List (Text × ℕ) → Pipeline → Pipeline
release_each [] p = p
release_each ((id, i) ∷ m) p = release_each m (on_state i release p)

unfoldable pub release_queued : List QueuedRequest → Pipeline → Pipeline
release_queued [] p = p
release_queued (q ∷ qs) p = release_queued qs (on_state q.state release p)

unfoldable pub shut_down : Pipeline → Pipeline
shut_down p =
    let quiet = release_queued p.pending_queue (release_each p.active_requests p) in
    record quiet { dispatcher_running = false; pending_queue = []; workers = [] }

-- What a worker does after its generation: it leaves the map of workers.
unfoldable pub finish_worker : Text → (ActiveRequest → ActiveRequest) → ℕ → Pipeline → Pipeline
finish_worker id generation i p =
    let ran = on_state i generation p in record ran { workers = erase id ran.workers }
