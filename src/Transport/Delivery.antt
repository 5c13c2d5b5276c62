-- ===== src/Transport/Delivery.antt =====
-- What `handle_incoming` of src/transport/grpc_transport.cpp hands to the handlers of the frames that
-- it receives.
use socrates.Prelude.{ℕ, List, ◌++◌, Text}
use socrates.Codec.{Outcome, ◌>>=◌}
use socrates.Transport.{GrpcTransport, Incoming, handle_frame}
use socrates.Transport.Wire.{WireMessageType, prefix_payload}
use socrates.Transport.Wire.Frames.{header_of}

-- A frame as `recv_frame` returns it: the header and the payload.
abbrev pub received : WireMessageType → ℕ → ℕ → List ℕ → List ℕ
received type seq sent_deadline body = header_of type seq sent_deadline body ++ body

-- What a node does with a frame whose body is a payload with a name put before it.
unfoldable pub dispatched :
    GrpcTransport → ℕ → WireMessageType → ℕ → ℕ → Text → List ℕ → Outcome Incoming
dispatched t deadline type seq sent_deadline name payload = prefix_payload name payload >>= λ body.
    handle_frame t deadline (received type seq sent_deadline body)
