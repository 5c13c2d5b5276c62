-- ===== src/Pipeline/Stages.antt =====
-- How src/pipeline/inference_pipeline.cpp runs the stages of a plan: the cache of sessions, the local
-- and the remote stage, and the pass over all stages. The backends, the model manager and the transport
-- are parameters; a session is known by a number.
pub mod Chain
use socrates.Prelude.{
  ℕ, ◌+◌, ◌≡◌, Bool, true, false, not, ◌&&◌, Option, none, some, List, [], ◌∷◌, ◌++◌, if◌then◌else◌,
  Text, text, text_eq,
}
use socrates.Types.{
  ErrorCode, cancelled, internal, unavailable, data_loss, Result, ok, err, ◌>>=◌, ◌>>◌, guard,
  BackendKind, backend_eq, LayerRange, QuantizationKind,
}
use socrates.Scheduler.{StageAssignment}
use socrates.Codec.{Tensor}
use socrates.Transport.{UnaryRequest, UnaryResponse}
use socrates.Pipeline.{InferenceRequest, ActiveRequest}

pub record NamedTensor : Type 0 where
  pub tensor_id : Text
  pub value : Tensor

pub record RunRequest : Type 0 where
  pub request_id : Text
  pub session_id : Text
  pub stage_id : Text
  pub inputs : List NamedTensor
  pub layers : Option LayerRange
  pub token_position : ℕ
  pub deadline : ℕ

pub record RunResult : Type 0 where
  pub outputs : List NamedTensor
  pub token_id : Option ℕ
  pub elapsed : ℕ

pub record LoadOptions : Type 0 where
  pub quantization : QuantizationKind
  pub stage_ids : List Text
  pub layers : Option LayerRange
  pub execution_profile_id : Text
  pub memory_budget_bytes : ℕ

-- `backends` and `models` are none for a null pointer. What a service reads of the cancellation token
-- is its own affair. `load_model` has the resolved backend and the
-- lease; a codec failure and an overrun of the codec are one code here.
pub record Services : Type 0 where
  pub resolve : Option (BackendKind → Result ℕ)
  pub acquire : Option (StageAssignment → Result ℕ)
  pub load_model : ℕ → ℕ → LoadOptions → Result ℕ
  pub run_layers : ℕ → RunRequest → Result RunResult
  pub send_unary : Option (Text → UnaryRequest → Result UnaryResponse)
  pub encode : Tensor → Result (List ℕ)
  pub decode : List ℕ → Result Tensor
  pub local_node_id : Text

-- The session is none when there is no model manager: the load is simulated.
pub record LoadedStage : Type 0 where
  pub stage_id : Text
  pub backend : BackendKind
  pub session : Option ℕ

-- `stage_ids[0]`, of an empty list undefined in the source: no plan of the scheduler has one.
abbrev pub first_id : List Text → Text
first_id [] = []
first_id (id ∷ ids) = id

unfoldable pub cached : List LoadedStage → StageAssignment → Option (Option ℕ)
cached [] stage = none
cached (l ∷ ls) stage =
    let rest = cached ls stage in
    if text_eq l.stage_id (first_id stage.stage_ids) && backend_eq l.backend stage.backend
    then some l.session
    else rest

abbrev pub load_options : StageAssignment → LoadOptions
load_options stage = record {
  quantization = stage.quantization;
  stage_ids = stage.stage_ids;
  layers = stage.layers;
  execution_profile_id = stage.execution_profile_id;
  memory_budget_bytes = stage.reserved_memory_bytes;
}

abbrev pub resolved : Option (BackendKind → Result ℕ) → BackendKind → Result ℕ
resolved none kind = err unavailable
resolved (some resolve) kind = resolve kind

unfoldable pub load_session : Services → StageAssignment → ℕ → Result (Option ℕ)
load_session services stage backend = elim services.acquire [
  | none ↦ ok none
  | some acquire ↦ acquire stage >>= λ lease.
      services.load_model backend lease (load_options stage) >>= λ session. ok (some session)
]

abbrev pub Sessions : Type 0
Sessions = List LoadedStage

unfoldable pub ensure_session_loaded :
    Services → Sessions → StageAssignment → Result (Option ℕ × Sessions)
ensure_session_loaded services sessions stage = elim (cached sessions stage) [
  | some session ↦ ok (session, sessions)
  | none ↦ resolved services.resolve stage.backend >>= λ backend.
      load_session services stage backend >>= λ session. ok (
        session,
        sessions
            ++ (record {
              stage_id = first_id stage.stage_ids;
              backend = stage.backend;
              session = session;
            }
                ∷ []),
      )
]

-- A result, and the cache: a session that was loaded stays when its run fails.
abbrev pub Ran : Type 0
Ran = Result RunResult × Sessions

abbrev pub run_session : Services → Option ℕ → RunRequest → Result RunResult
run_session services none req = ok (record { outputs = []; token_id = none; elapsed = 500 })
run_session services (some session) req = services.run_layers session req

unfoldable pub execute_local_stage : Services → Sessions → StageAssignment → RunRequest → Ran
execute_local_stage services sessions stage req =
    elim (ensure_session_loaded services sessions stage) [
      | err e ↦ (err e, sessions)
      | ok (session, sessions') ↦ (run_session services session req, sessions')
    ]

-- The first input crosses the wire; without inputs the payload is empty.
abbrev pub payload_of : Services → List NamedTensor → Result (List ℕ)
payload_of services [] = ok []
payload_of services (t ∷ ts) = services.encode t.value

abbrev pub unary : StageAssignment → RunRequest → List ℕ → UnaryRequest
unary stage req payload = record {
  method = text "RunLayers";
  payload = payload;
  target_node_id = stage.node_id;
  deadline = req.deadline;
  sequence_number = 0;
}

unfoldable pub execute_remote_stage : Services → StageAssignment → RunRequest → Result RunResult
execute_remote_stage services stage req = elim services.send_unary [
  | none ↦ err unavailable
  | some send ↦ payload_of services req.inputs >>= λ payload.
      send (stage.node_id ++ text ":9876") (unary stage req payload) >>= λ resp.
      services.decode resp.payload >>= λ decoded. ok (record {
        outputs = record { tensor_id = text "hidden_states"; value = decoded } ∷ [];
        token_id = none;
        elapsed = resp.elapsed;
      })
]

abbrev pub is_local_stage : Services → StageAssignment → Bool
is_local_stage services stage = text_eq stage.node_id services.local_node_id

unfoldable pub execute_stage : Services → Sessions → StageAssignment → RunRequest → Ran
execute_stage services sessions stage req =
    if is_local_stage services stage
    then execute_local_stage services sessions stage req
    else (execute_remote_stage services stage req, sessions)

-- The reads of the flags before each stage.
abbrev pub Cancelled : Type 0
Cancelled = ℕ → Bool

abbrev pub run_request : InferenceRequest → StageAssignment → ℕ → List NamedTensor → RunRequest
run_request request stage position inputs = record {
  request_id = request.request_id;
  session_id = request.session_id;
  stage_id = first_id stage.stage_ids;
  inputs = inputs;
  layers = stage.layers;
  token_position = position;
  deadline = request.deadline;
}

-- The outputs of every stage are moved out of its result, of the last one too.
abbrev pub moved_from : RunResult → RunResult
moved_from result = record result { outputs = [] }

-- The stages from the n-th on. The last stage's result, without its outputs, is the result of the pass.
unfoldable pub run_stages :
    Services
    → Cancelled
    → InferenceRequest
    → ℕ
    → ℕ
    → List StageAssignment
    → List NamedTensor
    → Sessions
    → Ran
run_stages services stops request position n [] inputs sessions = (err internal, sessions)
run_stages services stops request position n (stage ∷ stages) inputs sessions =
    let ran = execute_stage services sessions stage (run_request request stage position inputs) in
    let next : Ran = elim ran.0 [
      | err e ↦ ran
      | ok result ↦ elim stages as (λ _. Ran) [
        | [] ↦ (ok (moved_from result), ran.1)
        | s ∷ ss ↦ run_stages services stops request position (n + 1) stages result.outputs ran.1
      ]
    ] in
    if stops n then (err cancelled, sessions) else next

unfoldable pub execute_pipeline_pass :
    Services → Cancelled → Sessions → ActiveRequest → ℕ → List NamedTensor → Ran
execute_pipeline_pass services stops sessions s position inputs =
    run_stages services stops s.request position 0 s.plan.stages inputs sessions
