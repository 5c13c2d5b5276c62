-- ===== src/Pipeline/Store.antt =====
-- The state of `InferencePipelineImpl` in src/pipeline/inference_pipeline.cpp. A shared pointer to an
-- `ActiveRequest` is an index into the list of all requests made, so that the map, the queue and the
-- workers may share one.
use socrates.Prelude.{
  ℕ, zero, suc, Bool, true, false, ◌&&◌, Option, none, some, List, [], ◌∷◌, if◌then◌else◌, Text,
  text_eq, ltb,
}
use socrates.Pipeline.{ActiveRequest, BatchingConfig, immediate}

-- `state` is the index; the handle that an entry keeps is never used.
pub record QueuedRequest : Type 0 where
  pub state : ℕ
  pub context_window : ℕ

unfoldable pub is_long_context : BatchingConfig → QueuedRequest → Bool
is_long_context cfg q = ltb cfg.long_context_threshold q.context_window

-- An entry of the workers is a thread that can be joined. `terminated` says that the process has been
-- ended by `std::terminate`; what a pipeline does from there on means nothing.
pub record Pipeline : Type 0 where
  pub states : List ActiveRequest
  pub active_requests : List (Text × ℕ)
  pub workers : List (Text × ℕ)
  pub pending_queue : List QueuedRequest
  pub batching_config : BatchingConfig
  pub production_mode : Bool
  pub distributed_capability : Bool
  pub local_node_id : Text
  pub dispatcher_running : Bool
  pub terminated : Bool

-- What the constructor makes; the transport and the backends are there or not.
unfoldable pub make_inference_pipeline : Bool → Bool → Pipeline
make_inference_pipeline has_transport has_backends = record {
  states = [];
  active_requests = [];
  workers = [];
  pending_queue = [];
  batching_config = record {
    mode = immediate;
    max_batch_size = 4;
    batch_timeout = 5;
    long_context_threshold = 4096;
  };
  production_mode = false;
  distributed_capability = has_transport && has_backends;
  local_node_id = [];
  dispatcher_running = true;
  terminated = false;
}

unfoldable pub get_state : List ActiveRequest → ℕ → Option ActiveRequest
get_state [] i = none
get_state (s ∷ ss) zero = some s
get_state (s ∷ ss) (suc i) = get_state ss i

unfoldable pub update_state :
    ℕ → (ActiveRequest → ActiveRequest) → List ActiveRequest → List ActiveRequest
update_state i f [] = []
update_state zero f (s ∷ ss) = f s ∷ ss
update_state (suc i) f (s ∷ ss) = s ∷ update_state i f ss

abbrev pub on_state : ℕ → (ActiveRequest → ActiveRequest) → Pipeline → Pipeline
on_state i f p = record p { states = update_state i f p.states }

-- `map[key] = value`, `map.find(key)` and `map.erase(key)`.
unfoldable pub assign : Text → ℕ → List (Text × ℕ) → List (Text × ℕ)
assign key v [] = (key, v) ∷ []
assign key v ((k, w) ∷ m) =
    let rest = (k, w) ∷ assign key v m in if text_eq k key then (k, v) ∷ m else rest

unfoldable pub find : Text → List (Text × ℕ) → Option ℕ
find key [] = none
find key ((k, v) ∷ m) = let rest = find key m in if text_eq k key then some v else rest

unfoldable pub erase : Text → List (Text × ℕ) → List (Text × ℕ)
erase key [] = []
erase key ((k, v) ∷ m) = let rest = (k, v) ∷ erase key m in if text_eq k key then m else rest

-- The flag `active` of a request; each index in use has a request.
abbrev pub flag : Option ActiveRequest → Bool
flag none = false
flag (some s) = s.active

abbrev pub is_active : List ActiveRequest → ℕ → Bool
is_active states i = flag (get_state states i)

abbrev pub name_of : Option ActiveRequest → Text
name_of none = []
name_of (some s) = s.request.request_id

abbrev pub request_id : List ActiveRequest → ℕ → Text
request_id states i = name_of (get_state states i)
