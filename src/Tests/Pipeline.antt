-- ===== src/Tests/Pipeline.antt =====
-- A generation on two laptops, its queue, and its calls.
use socrates.Prelude.{
  ◌⊎◌, ℕ, ◌==◌, ◌≡◌, refl, true, false, not, ◌&&◌, ◌||◌, none, some, List, [], ◌∷◌, length, map,
  Text, text, text_eq, arith,
}
use socrates.Types.{ErrorCode, ok, err, llama_cpp}
use socrates.Codec.{Tensor, rebuilt}
use socrates.Pipeline.{
  ActiveRequest, InferenceRequest, BatchingConfig, immediate, adaptive, StreamEventKind, token,
  completed, failed, replanning, emit_queued, emit_started, emit_token, emit_terminal, cancel,
  digits, to_string,
}
use socrates.Pipeline.Store.{
  Pipeline, is_long_context, get_state, update_state, assign, find, erase,
}
use socrates.Pipeline.Stages.{
  Services, Sessions, RunResult, cached, load_session, ensure_session_loaded, execute_local_stage,
  execute_remote_stage, execute_stage, run_stages, execute_pipeline_pass,
}
use socrates.Pipeline.Stages.Chain.{Chain, last, next, execute_pipeline_pass-Chain}
use socrates.Pipeline.Generation.{
  Others, Pass, token_record, add_token, simulated_loop, run_generation_simulated, fail_pass,
  distributed_loop, run_generation_distributed,
}
use socrates.Pipeline.Local.{run_generation}
use socrates.Pipeline.Local.Ending.{LocalEnds}
use socrates.Pipeline.Generation.Stream.{flags, Quiet, Ends}
use socrates.Pipeline.Generation.Ending.{
  nobody, run_generation-Ends, run_generation_simulated-completes,
}
use socrates.Pipeline.Queue.{
  launch_worker, dispatch_solo, dispatch_batch, collect, fill_and_dispatch, adaptive_round,
  dispatcher_round,
}
use socrates.Pipeline.Queue.Batches.{Dispatches, adaptive_round-Dispatches}
use socrates.Pipeline.Control.{
  uses, new_request, generate, replay_loop, replan_request, replan, removed_queued, without_queued,
  remove_queued, cancel_queued, lose_node, lose_node_each, detect_node_loss, count_emitting,
  count_workers, active_generation_count,
}
use socrates.Pipeline.Control.Admission.{Admitted, refusal, generate_lem}
use socrates.Pipeline.Control.NodeLoss.{detect_node_loss-clears}
use socrates.Pipeline.Control.Replan.{Replanned, replan-Replanned}
use socrates.Tests.Data.{node_a, node_b, stage, two_stages}

program : Unit {0}
unfolding text_eq emit_queued emit_started emit_token emit_terminal cancel digits to_string
    is_long_context get_state update_state assign find erase cached load_session
    ensure_session_loaded execute_local_stage execute_remote_stage execute_stage run_stages
    execute_pipeline_pass add_token simulated_loop run_generation_simulated fail_pass
    distributed_loop run_generation_distributed run_generation launch_worker dispatch_solo
    dispatch_batch collect fill_and_dispatch adaptive_round dispatcher_round new_request generate
    replay_loop replan_request replan removed_queued without_queued remove_queued cancel_queued
    lose_node lose_node_each detect_node_loss count_emitting count_workers active_generation_count
program = tt

abbrev request : Text → ℕ → InferenceRequest
request id window = record {
  request_id = id;
  session_id = text "session";
  model_id = text "qwen3-4b";
  prompt = text "hi";
  generation = record {
    maximum_new_tokens = 3;
    context_window = window;
    temperature = 0;
    top_p = 0;
    seed = none;
  };
  deadline = 0;
}

abbrev pub state : ActiveRequest
state = record {
  request = request (text "r") 50;
  plan = two_stages 1;
  has_callback = true;
  active = true;
  stop_requested = false;
  tokens_emitted = 0;
  next_expected_position = 0;
  token_history = [];
  events = [];
}

abbrev tensor : Tensor
tensor = rebuilt 6 (1 ∷ []) (4 ∷ [])

-- The first laptop runs a stage itself and sends the other one to its peer.
abbrev services : Services
services = record {
  resolve = some (λ kind. ok 1);
  acquire = some (λ assignment. ok 2);
  load_model = λ backend lease options. ok 7;
  run_layers = λ session req. ok (record { outputs = []; token_id = some 42; elapsed = 1 });
  send_unary = some (λ target req. ok (record { payload = []; elapsed = 3 }));
  encode = λ t. ok [];
  decode = λ bytes. ok tensor;
  local_node_id = node_a;
}

abbrev sessions : Sessions
sessions = record { stage_id = text "s0"; backend = llama_cpp; session = some 7 } ∷ []

-- The outputs of the last stage are lost.
abbrev result : RunResult
result = record { outputs = []; token_id = none; elapsed = 3 }

passed : execute_pipeline_pass services (λ n. false) [] state 0 [] ≡ (ok result, sessions)
unfolding program
passed = refl

execute_pipeline_pass-Chain_example :
    Chain services state.request 0 state.plan.stages [] [] result sessions
execute_pipeline_pass-Chain_example =
    execute_pipeline_pass-Chain services (λ n. false) [] state 0 [] result sessions passed

chain : Chain services state.request 0 state.plan.stages [] [] result sessions
unfolding program
chain =
    next {sessions' = sessions} {result = record { outputs = []; token_id = some 42; elapsed = 1 }}
      refl (last refl)

loaded : ensure_session_loaded services [] (stage (text "s0") node_a) ≡ ok (some 7, sessions)
unfolding program
loaded = refl

-- Services that load nothing.
abbrev no_services : Services
no_services = record services { resolve = none; acquire = none }

-- Another thread cancels the generation before its third token.
abbrev pub cancels : Others
cancels i s = flags (s.active && not (i == 2)) (s.stop_requested || (i == 2)) s

pub quiet : Quiet cancels
quiet i s = (s.active && not (i == 2), s.stop_requested || (i == 2), refl)

abbrev pass : Pass
pass loaded s i inputs = execute_pipeline_pass services (λ n. false) loaded s i inputs

abbrev kinds : ActiveRequest → List StreamEventKind
kinds s = map (λ ev. ev.kind) s.events

-- In a build without llama.cpp.
abbrev generated : ActiveRequest
generated = (run_generation {M = ℕ} {C = ℕ} none none true pass cancels [] state).0

cancelled_kinds : kinds generated ≡ token ∷ token ∷ failed ∷ []
unfolding program
cancelled_kinds = refl

run_generation-Ends_example :
    ((false ≡ false) × Ends state 0 3 generated) ⊎ ((false ≡ true) × LocalEnds state generated)
run_generation-Ends_example =
    run_generation-Ends {M = ℕ} {C = ℕ} none none true pass cancels [] state quiet refl refl
      (omega arith)

run_generation_simulated-completes_example :
    (e : Ends state 0 3 (run_generation_simulated nobody state)) × (length e.token_ids ≡ 3)
    × (e.last.kind ≡ completed)
run_generation_simulated-completes_example =
    run_generation_simulated-completes state refl refl (omega arith) refl refl

abbrev config : BatchingConfig
config = record {
  mode = adaptive;
  max_batch_size = 2;
  batch_timeout = 5;
  long_context_threshold = 100;
}

abbrev pipeline : Pipeline
pipeline = record {
  states = record state { active = false } ∷ state ∷ state ∷ state ∷ [];
  active_requests = (text "r", 1) ∷ [];
  workers = [];
  pending_queue =
      record { state = 0; context_window = 50 }
      ∷ record { state = 1; context_window = 50 }
      ∷ record { state = 2; context_window = 500 }
      ∷ [];
  batching_config = config;
  production_mode = false;
  distributed_capability = true;
  local_node_id = node_a;
  dispatcher_running = true;
  terminated = false;
}

-- The first request of the queue is not active and the last one is long.
first_batch : collect config pipeline.states 2 pipeline.pending_queue ≡ (
  record { state = 1; context_window = 50 } ∷ [],
  record { state = 2; context_window = 500 } ∷ [],
)
unfolding program
first_batch = refl

-- A queue is never served once the mode is immediate.
stuck :
    (let p = record pipeline { batching_config = record config { mode = immediate } } in
      dispatcher_round (λ q. q) p ≡ p)
unfolding program
stuck = refl

adaptive_round-Dispatches_example : Dispatches (λ p. p) pipeline (adaptive_round (λ p. p) pipeline)
adaptive_round-Dispatches_example = adaptive_round-Dispatches (λ p. p) pipeline

-- A request starts at once under an id that still has a worker.
abbrev repeating : Pipeline
repeating = record pipeline {
  batching_config = record config { mode = immediate };
  workers = (text "q", 1) ∷ [];
}

generate_lem_example :
    ((e : ErrorCode) × (refusal false false false ≡ some e)
      × (generate repeating (request (text "q") 9) (two_stages 1) true false ≡ err e))
    ⊎ ((p' : Pipeline) × (refusal false false false ≡ none)
        × (generate repeating (request (text "q") 9) (two_stages 1) true false ≡ ok (p', 4))
        × Admitted immediate repeating (request (text "q") 9) (two_stages 1) p' 4)
generate_lem_example = generate_lem repeating (request (text "q") 9) (two_stages 1) false

known : find (text "r") pipeline.active_requests ≡ some 1
unfolding program
known = refl

-- A request with four tokens; another thread cancels it before the third one is replayed.
abbrev four_tokens : ActiveRequest
four_tokens = record state {
  token_history = map (λ n. token_record state n n) (0 ∷ 1 ∷ 2 ∷ 3 ∷ []);
}

abbrev underway : Pipeline
underway = record pipeline { states = state ∷ four_tokens ∷ state ∷ state ∷ [] }

held : get_state underway.states 1 ≡ some four_tokens
unfolding program
held = refl

replan-Replanned_example :
    (p' : Pipeline) × (s' : ActiveRequest) × (replan cancels underway (text "r") (two_stages 2)
      ≡ ok p')
    × (get_state p'.states 1 ≡ some s')
    × Replanned cancels (text "r") (two_stages 2) four_tokens s'
replan-Replanned_example =
    replan-Replanned cancels underway (text "r") (two_stages 2) 1 four_tokens quiet known held refl
      (omega arith)

cut_replay :
    kinds (replan_request cancels (text "r") (two_stages 2) four_tokens)
    ≡ replanning ∷ token ∷ token ∷ completed ∷ []
unfolding program
cut_replay = refl

-- A second worker under the same id ends the process.
second_worker :
    (launch_worker 2 (record pipeline { workers = (text "r", 1) ∷ [] })).terminated ≡ true
unfolding program
second_worker = refl

-- A queued request that is cancelled leaves the queue and is told once.
cancelled_queue :
    (cancel_queued 2 (record pipeline {
      pending_queue = record { state = 2; context_window = 50 } ∷ [];
    })).pending_queue
    ≡ []
unfolding program
cancelled_queue = refl

-- A request that needs the first laptop only, beside one that needs both.
abbrev solo : ActiveRequest
solo = record state { plan = record (two_stages 1) { stages = stage (text "s0") node_a ∷ [] } }

abbrev pair : Pipeline
pair = record pipeline {
  states = state ∷ solo ∷ [];
  active_requests = (text "q", 0) ∷ (text "r", 1) ∷ [];
}

pair_known : find (text "r") pair.active_requests ≡ some 1
unfolding program
pair_known = refl

pair_kept : get_state (detect_node_loss node_b pair).states 1 ≡ some solo
unfolding program
pair_kept = refl

-- The other request is no longer active.
pair_lost : map (λ s. s.active) (detect_node_loss node_b pair).states ≡ false ∷ true ∷ []
unfolding program
pair_lost = refl

detect_node_loss-clears_example : uses node_b solo ≡ false
detect_node_loss-clears_example =
    detect_node_loss-clears node_b pair (text "r") 1 solo pair_known pair_kept refl
