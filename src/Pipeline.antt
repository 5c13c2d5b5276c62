-- ===== src/Pipeline.antt =====
-- The data of src/pipeline/inference_pipeline.cpp and its header, and its events. A request holds the
-- events that its callback received, the oldest first, and the flag of its cancellation token.
pub mod Store
pub mod Generation
pub mod Queue
pub mod Local
pub mod Control
pub mod Stages
use socrates.Prelude.{
  ℕ, zero, suc, ◌+◌, ◌/◌, ◌%◌, ◌^◌, Bool, true, false, not, ◌&&◌, Option, none, some, List, [], ◌∷◌,
  ◌++◌, if◌then◌else◌, ltb, Text, text,
}
use socrates.Types.{ErrorCode, cancelled}
use socrates.Scheduler.{PipelinePlan}

-- `temperature` and `top_p` are the bit patterns of floats.
pub record GenerationOptions : Type 0 where
  pub maximum_new_tokens : ℕ
  pub context_window : ℕ
  pub temperature : ℕ
  pub top_p : ℕ
  pub seed : Option ℕ

pub record InferenceRequest : Type 0 where
  pub request_id : Text
  pub session_id : Text
  pub model_id : Text
  pub prompt : Text
  pub generation : GenerationOptions
  pub deadline : ℕ

pub data BatchingMode : Type 0 where
  immediate serial adaptive : BatchingMode

pub record BatchingConfig : Type 0 where
  pub mode : BatchingMode
  pub max_batch_size : ℕ
  pub batch_timeout : ℕ
  pub long_context_threshold : ℕ

pub data StreamEventKind : Type 0 where
  started token replanning completed failed queued : StreamEventKind

pub record StreamEvent : Type 0 where
  pub kind : StreamEventKind
  pub request_id : Text
  pub sequence : ℕ
  pub text_delta : Text
  pub token_id : Option ℕ
  pub error : Option ErrorCode
  pub metadata : List (Text × Text)

pub record TokenRecord : Type 0 where
  pub request_id : Text
  pub session_id : Text
  pub position : ℕ
  pub token_id : ℕ

pub record ActiveRequest : Type 0 where
  pub request : InferenceRequest
  pub plan : PipelinePlan
  pub has_callback : Bool
  pub active : Bool
  pub stop_requested : Bool
  pub tokens_emitted : ℕ
  pub next_expected_position : ℕ
  pub token_history : List TokenRecord
  pub events : List StreamEvent

abbrev pub event : StreamEventKind → Text → ℕ → StreamEvent
event kind id sequence = record {
  kind = kind;
  request_id = id;
  sequence = sequence;
  text_delta = [];
  token_id = none;
  error = none;
  metadata = [];
}

-- `if (state->callback) state->callback(ev)`.
abbrev pub notify : StreamEvent → ActiveRequest → ActiveRequest
notify ev s = record s { events = if s.has_callback then s.events ++ (ev ∷ []) else s.events }

unfoldable pub emit_queued : ActiveRequest → ActiveRequest
emit_queued s = notify (event queued s.request.request_id 0) s

unfoldable pub emit_started : ActiveRequest → ActiveRequest
emit_started s = notify (event started s.request.request_id 0) s

abbrev pub token_event : Text → ℕ → ℕ → Text → StreamEvent
token_event id sequence token_id delta = record {
  kind = token;
  request_id = id;
  sequence = sequence;
  text_delta = delta;
  token_id = some token_id;
  error = none;
  metadata = [];
}

unfoldable pub emit_token : ActiveRequest → ℕ → ℕ → Text → ActiveRequest
emit_token s sequence token_id delta =
    notify (token_event s.request.request_id sequence token_id delta) s

abbrev pub terminal_kind : Bool → StreamEventKind
terminal_kind success = if success then completed else failed

unfoldable pub emit_terminal : ActiveRequest → Bool → ActiveRequest
emit_terminal s success =
    notify (event (terminal_kind success) s.request.request_id s.tokens_emitted) s

-- The failed event with the code of an error, as each place writes it out.
abbrev pub failed_event : Text → ℕ → ErrorCode → StreamEvent
failed_event id sequence code = record (event failed id sequence) { error = some code }

-- `GenerationHandleImpl::cancel`, also the first part of the queued handle's.
unfoldable pub cancel : ActiveRequest → ActiveRequest
cancel s = record s { stop_requested = true; active = false }

-- `std::to_string`: twenty digits hold every `std::uint64_t`.
unfoldable pub digits : ℕ → ℕ → Text
digits zero n = []
digits (suc fuel) n =
    let rest = digits fuel (n / 10) in
    if ltb n 10 then (48 + n) ∷ [] else rest ++ ((48 + n % 10) ∷ [])

unfoldable pub to_string : ℕ → Text
to_string n = digits 20 n
