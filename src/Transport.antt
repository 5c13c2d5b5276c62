-- ===== src/Transport.antt =====
-- The state of `GrpcTransport` in src/transport/grpc_transport.cpp and its calls, in a build without
-- OpenSSL, where messages go to the handlers of the process itself; and the dispatch of a received frame,
-- of a build with it. Calls of stream handlers are the deliveries returned.
pub mod Wire
pub mod Delivery
use socrates.Prelude.{
  find_key, set_key, ℕ, zero, suc, ◌+◌, ◌%◌, ◌^◌, Bool, true, false, not, ◌&&◌, Option, none, some,
  List, [], ◌∷◌, ◌++◌, if◌then◌else◌, ltb, leb, ◌==◌, length, take, drop, Text, text, text_eq,
}
use socrates.Types.{
  Result, ok, err, ErrorCode, guard, ◌>>=◌, ◌>>◌, failed_precondition, unavailable,
  deadline_exceeded,
}
use socrates.Codec
use socrates.Codec.{Outcome, le_value}
use socrates.Transport.Wire.{wire_magic, frame_header_size, split_payload}

pub record UnaryRequest : Type 0 where
  pub method : Text
  pub payload : List ℕ
  pub target_node_id : Text
  pub deadline : ℕ
  pub sequence_number : ℕ

pub record UnaryResponse : Type 0 where
  pub payload : List ℕ
  pub elapsed : ℕ

pub record StreamFrame : Type 0 where
  pub stream_id : Text
  pub sequence_number : ℕ
  pub payload : List ℕ
  pub is_last : Bool

abbrev pub UnaryHandler : Type 0
UnaryHandler = UnaryRequest → Result UnaryResponse

-- The handler of a stream is known by a number.
pub record StreamContext : Type 0 where
  pub handler : Option ℕ
  pub last_received_seq : ℕ

pub record GrpcTransport : Type 0 where
  pub running : Bool
  pub unary_handlers : List (Text × UnaryHandler)
  pub stream_handlers : List (Text × ℕ)
  pub active_streams : List (Text × StreamContext)

abbrev pub Delivery : Type 0
Delivery = ℕ × StreamFrame

unfoldable pub start : GrpcTransport → Result GrpcTransport
start t = do guard (not t.running) failed_precondition; ok (record t { running = true })

unfoldable pub register_unary_handler : GrpcTransport → Text → UnaryHandler → Result GrpcTransport
register_unary_handler t method handler = do
  guard (not t.running) failed_precondition
  ok (record t { unary_handlers = set_key method handler t.unary_handlers })

unfoldable pub register_stream_handler : GrpcTransport → Text → ℕ → Result GrpcTransport
register_stream_handler t stream_id handler = do
  guard (not t.running) failed_precondition
  ok (record t { stream_handlers = set_key stream_id handler t.stream_handlers })

-- Without a handler for the method, the answer is empty.
abbrev pub answer : Option UnaryHandler → UnaryRequest → Result UnaryResponse
answer none request = ok (record { payload = []; elapsed = 200 })
answer (some handler) request = handler request

unfoldable pub send_unary : GrpcTransport → ℕ → Text → UnaryRequest → Result UnaryResponse
send_unary t now target_address request = do
  guard t.running unavailable
  guard (ltb now request.deadline) deadline_exceeded
  answer (find_key request.method t.unary_handlers) request

abbrev pub stream_key : Text → Text → Text
stream_key target_address stream_id = target_address ++ (text "/" ++ stream_id)

-- The writer that `open_stream` returns is `write_stream` with the stream's handler.
unfoldable pub open_stream : GrpcTransport → Text → Text → Option ℕ → Result GrpcTransport
open_stream t target_address stream_id handler = do
  guard t.running unavailable
  let ctx : StreamContext = record { handler = handler; last_received_seq = 0 }
  ok (record t {
    active_streams = set_key (stream_key target_address stream_id) ctx t.active_streams;
  })

abbrev pub hand_over : Option ℕ → StreamFrame → List Delivery
hand_over none frame = []
hand_over (some handler) frame = (handler, frame) ∷ []

unfoldable pub write_stream : Option ℕ → StreamFrame → List Delivery
write_stream handler frame = hand_over handler frame

-- The answers of the members that answer; the time is read again for each.
unfoldable pub broadcast :
    GrpcTransport → (Text → ℕ) → List Text → UnaryRequest → List UnaryResponse
broadcast t now [] request = []
broadcast t now (address ∷ rest) request =
    let answers = broadcast t now rest request in
    elim (send_unary t (now address) address request) [
      | ok response ↦ response ∷ answers
      | err e ↦ answers
    ]

unfoldable pub stop : GrpcTransport → GrpcTransport
stop t = record t { running = false; active_streams = [] }

-- The frame of a stream is dropped unless its number is greater than the last one.
abbrev pub receive : StreamContext → StreamFrame → StreamContext × List Delivery
receive ctx frame =
    if leb frame.sequence_number ctx.last_received_seq
    then (ctx, [])
    else (record ctx { last_received_seq = frame.sequence_number }, hand_over ctx.handler frame)

unfoldable pub inject_incoming_frame :
    GrpcTransport → Text → Text → StreamFrame → GrpcTransport × List Delivery
inject_incoming_frame t target_address stream_id frame =
    let key = stream_key target_address stream_id in
    elim (find_key key t.active_streams) [
      | none ↦ (t, [])
      | some ctx ↦ (
        record t { active_streams = set_key key (receive ctx frame).0 t.active_streams },
        (receive ctx frame).1,
      )
    ]

-- What a received frame leads to.
pub data Incoming : Type 0 where
  ignored : Incoming
  answered : ℕ → Result UnaryResponse → Incoming
  delivered : Delivery → Incoming
  heartbeat : Incoming

abbrev pub answer_incoming : GrpcTransport → ℕ → ℕ → Option (Text × List ℕ) → Incoming
answer_incoming t seq deadline none = ignored
answer_incoming t seq deadline (some (method, payload)) = elim (find_key method t.unary_handlers) [
  | none ↦ ignored
  | some handler ↦ answered seq (
      handler (record {
        method = method;
        payload = payload;
        target_node_id = [];
        deadline = deadline;
        sequence_number = seq;
      }))
]

abbrev pub deliver_incoming : GrpcTransport → ℕ → Option (Text × List ℕ) → Incoming
deliver_incoming t seq none = ignored
deliver_incoming t seq (some (stream_id, payload)) = elim (find_key stream_id t.stream_handlers) [
  | none ↦ ignored
  | some handler ↦ delivered (
    handler,
    record { stream_id = stream_id; sequence_number = seq; payload = payload; is_last = false },
  )
]

-- The loop body of `handle_incoming` on a frame that `recv_frame` returned; `deadline` is the time
-- read plus the default deadline. The length that such a frame states is its own.
unfoldable pub handle_frame : GrpcTransport → ℕ → List ℕ → Outcome Incoming
handle_frame t deadline frame =
    let type = le_value (take 4 (drop 8 frame)) in
    let seq = le_value (take 8 (drop 12 frame)) in
    let payload = drop frame_header_size frame in
    let request : Outcome Incoming =
      Codec.◌>>=◌ (split_payload payload) (λ p. Codec.ok (answer_incoming t seq deadline p)) in
    let stream : Outcome Incoming =
      Codec.◌>>=◌ (split_payload payload) (λ p. Codec.ok (deliver_incoming t seq p)) in
    if ltb (length frame) frame_header_size
    then Codec.ok ignored
    else if not (le_value (take 4 frame) == wire_magic)
    then Codec.ok ignored
    else if type == 0
    then request
    else if type == 2
    then stream
    else if type == 4
    then Codec.ok heartbeat
    else Codec.ok ignored
