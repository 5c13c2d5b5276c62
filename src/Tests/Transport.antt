-- ===== src/Tests/Transport.antt =====
-- Frames, named payloads and a stream of the transport.
use socrates.Prelude.{
  find_key, set_key, ℕ, ◌+◌, ◌-◌, ◌^◌, ◌<◌, ◌≤◌, ◌≡◌, refl, true, false, none, some, List, [], ◌∷◌,
  ◌++◌, length, take, arith, text, text_eq,
}
use socrates.Codec
use socrates.Codec.{overrun, ◌>>=◌, le_value}
use socrates.Types.{ok}
use socrates.Transport.{StreamFrame, GrpcTransport, inject_incoming_frame}
use socrates.Transport.Wire.{
  unary_request, stream_frame, frame_header_size, max_frame_size, crc32, fill_frame, encode_frame,
  recv_frame, prefix_payload, split_payload,
}
use socrates.Transport.Wire.Frames.{
  header, header_of, wire_frame, if_checked, crc32-lt, encode_frame-overrun, recv_frame-wire_frame,
}
use socrates.Transport.Wire.Names.{split_payload-prefix_payload}

-- The value that the standard gives for the checksum of "123456789".
crc32_check : crc32 (text "123456789") ≡ 0xCBF43926
unfolding crc32
crc32_check = refl

abbrev payload : List ℕ
payload = 1 ∷ 2 ∷ 3 ∷ []

encode_frame-overrun_example :
    (fill_frame unary_request 7 9 payload
      ≡ Codec.ok (header_of unary_request 7 9 payload ++ payload))
    × (encode_frame unary_request 7 9 payload ≡ overrun)
encode_frame-overrun_example = encode_frame-overrun unary_request 7 9 payload

small_enough : frame_header_size + length payload ≤ max_frame_size
small_enough = omega arith

recv_frame-wire_frame_example :
    recv_frame true (wire_frame stream_frame 7 0 payload (crc32 payload) ++ (5 ∷ []))
    ≡ if_checked (crc32 payload) (header_of stream_frame 7 0 payload ++ payload) (5 ∷ [])
recv_frame-wire_frame_example =
    recv_frame-wire_frame stream_frame 7 0 payload (5 ∷ []) (crc32 payload) small_enough
      (crc32-lt payload)

-- The checksum of the payload alone, as the comment on the format has it, is refused.
documented_refused :
    if_checked (crc32 payload) (header_of stream_frame 7 0 payload ++ payload) (5 ∷ []) ≡ none
unfolding crc32 header
documented_refused = refl

short_name : 4 + length (text "infer") < 2 ^ 32
short_name = omega arith

split_payload-prefix_payload_example :
    (prefix_payload (text "infer") payload >>= split_payload)
    ≡ Codec.ok (some (text "infer", payload))
split_payload-prefix_payload_example =
    split_payload-prefix_payload (text "infer") payload short_name

-- A length of 2 to the 32 less four.
abbrev hostile : List ℕ
hostile = 252 ∷ 255 ∷ 255 ∷ 255 ∷ 1 ∷ []

hostile_word : le_value (take 4 hostile) ≡ 2 ^ 32 - 4
unfolding le_value
hostile_word = refl

-- A node with a handler of each kind under one name.
abbrev transport : GrpcTransport
transport = record {
  running = true;
  unary_handlers = (text "infer", λ q. ok (record { payload = q.payload; elapsed = 1 })) ∷ [];
  stream_handlers = (text "infer", 4) ∷ [];
  active_streams = [];
}

abbrev chunk : ℕ → StreamFrame
chunk n = record { stream_id = text "s"; sequence_number = n; payload = payload; is_last = false }

abbrev listening : GrpcTransport
listening = record transport {
  active_streams = (text "n/s", record { handler = some 1; last_received_seq = 2 }) ∷ [];
}

-- A frame that is injected for a test, with the number before the last one, is not handed over.
late_frame : (inject_incoming_frame listening (text "n") (text "s") (chunk 1)).1 ≡ []
unfolding inject_incoming_frame find_key set_key text_eq
late_frame = refl
