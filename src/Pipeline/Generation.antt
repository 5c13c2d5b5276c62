-- ===== src/Pipeline/Generation.antt =====
-- The loops `run_generation_simulated` and `run_generation_distributed` of
-- src/pipeline/inference_pipeline.cpp. What other threads do to the request before each test of its
-- flags is a parameter: a function of the position and of the request.
pub mod Stream
pub mod Ending
use socrates.Prelude.{
  ℕ, zero, suc, ◌+◌, ◌-◌, ◌%◌, ◌^◌, Bool, true, false, not, ◌&&◌, Option, none, some, List, [], ◌∷◌,
  ◌++◌, if◌then◌else◌, Text, text,
}
use socrates.Types.{ErrorCode, Result, ok, err}
use socrates.Scheduler.{PipelinePlan}
use socrates.Pipeline.{
  ActiveRequest, TokenRecord, emit_token, emit_terminal, notify, failed_event, to_string,
}
use socrates.Pipeline.Stages.{NamedTensor, RunResult, Sessions, Ran}

abbrev pub Others : Type 0
Others = ℕ → ActiveRequest → ActiveRequest

abbrev pub runs : ActiveRequest → Bool
runs s = s.active && not s.stop_requested

abbrev pub token_record : ActiveRequest → ℕ → ℕ → TokenRecord
token_record s position token_id = record {
  request_id = s.request.request_id;
  session_id = s.request.session_id;
  position = position;
  token_id = token_id;
}

-- A token joins the history and is delivered.
unfoldable pub add_token : ActiveRequest → ℕ → ℕ → ActiveRequest
add_token s i token_id =
    let recorded = record s {
      token_history = s.token_history ++ (token_record s i token_id ∷ []);
      next_expected_position = (i + 1) % 2 ^ 64;
    } in
    let sent = emit_token recorded i token_id (text "tok:" ++ to_string i) in
    record sent { tokens_emitted = (sent.tokens_emitted + 1) % 2 ^ 64 }

-- The simulated token at a position has the position as its id.
unfoldable pub simulated_loop : Others → ℕ → ℕ → ActiveRequest → ActiveRequest
simulated_loop others zero i s = others i s
simulated_loop others (suc left) i s =
    let s' = others i s in
    let rest = simulated_loop others left (i + 1) (add_token s' i (i % 2 ^ 32)) in
    if runs s' then rest else s'

unfoldable pub run_generation_simulated : Others → ActiveRequest → ActiveRequest
run_generation_simulated others s =
    let s' = simulated_loop others s.request.generation.maximum_new_tokens 0 s in
    emit_terminal s' s'.active

-- A pass over the stages: its result and the sessions loaded, from those loaded before, the request,
-- the position and the inputs.
abbrev pub Pass : Type 0
Pass = Sessions → ActiveRequest → ℕ → List NamedTensor → Ran

unfoldable pub fail_pass : ActiveRequest → ErrorCode → ActiveRequest
fail_pass s code =
    let s' = notify (failed_event s.request.request_id s.tokens_emitted code) s in
    record s' { active = false }

abbrev pub value_or : Option ℕ → ℕ → ℕ
value_or none d = d
value_or (some v) d = v

-- The request at the end of the loop, and whether the stream is still to be ended.
pub record Looped : Type 0 where
  pub request : ActiveRequest
  pub ended : Bool
  pub sessions : Sessions

abbrev pub looped : ActiveRequest → Bool → Sessions → Looped
looped s ended sessions = record { request = s; ended = ended; sessions = sessions }

unfoldable pub distributed_loop :
    Pass → Others → ℕ → ℕ → List NamedTensor → Sessions → ActiveRequest → Looped
distributed_loop pass others zero i inputs sessions s = looped (others i s) false sessions
distributed_loop pass others (suc left) i inputs sessions s =
    let s' = others i s in
    let ran = pass sessions s' i inputs in
    let next : Looped = elim ran.0 [
      | err code ↦ looped (fail_pass s' code) true ran.1
      | ok result ↦
          distributed_loop pass others left (i + 1) result.outputs ran.1
            (add_token s' i (value_or result.token_id (i % 2 ^ 32)))
    ] in
    if runs s' then next else looped s' false sessions

abbrev pub finish : Looped → ActiveRequest
finish r = if r.ended then r.request else emit_terminal r.request r.request.active

unfoldable pub run_generation_distributed :
    Pass → Others → Sessions → ActiveRequest → ActiveRequest × Sessions
run_generation_distributed pass others sessions s =
    let n = s.request.generation.maximum_new_tokens in
    let r = distributed_loop pass others n 0 [] sessions s in (finish r, r.sessions)
