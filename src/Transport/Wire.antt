-- ===== src/Transport/Wire.antt =====
-- The frames of src/transport/grpc_transport.cpp: their checksum, what a peer writes, what it reads, and the
-- name before a payload. A write or read outside a buffer, which is undefined in the source, is the
-- outcome `overrun`.
pub mod Frames
pub mod Names
use Prim.Native.Nat.{bit_and, bit_xor}
use socrates.Prelude.{
  ℕ, zero, suc, ◌+◌, ◌-◌, ◌*◌, ◌/◌, ◌%◌, ◌^◌, ◌≡◌, refl, Bool, true, false, not, ◌&&◌, Option, none,
  some, List, [], ◌∷◌, ◌++◌, if◌then◌else◌, ltb, ◌==◌, length, take, drop, replicate, is_empty,
  Text,
}
use socrates.Codec.{Outcome, ok, err, overrun, ◌>>=◌, le_bytes, le_value, write_at}

pub data WireMessageType : Type 0 where
  unary_request unary_response stream_frame stream_ack heartbeat : WireMessageType

abbrev pub message_code : WireMessageType → ℕ
message_code unary_request = 0
message_code unary_response = 1
message_code stream_frame = 2
message_code stream_ack = 3
message_code heartbeat = 4

abbrev pub wire_magic : ℕ
wire_magic = 0x534F4352

abbrev pub frame_header_size : ℕ
frame_header_size = 28

abbrev pub max_frame_size : ℕ
max_frame_size = 64 * 1024 * 1024

-- `0xEDB88320 & -(crc & 1)`, the negation that of a `uint32_t`.
crc_bit : ℕ → ℕ
crc_bit crc = bit_xor (crc / 2) (bit_and 0xEDB88320 ((2 ^ 32 - crc % 2) % 2 ^ 32))

crc_bits : ℕ → ℕ → ℕ
crc_bits zero crc = crc
crc_bits (suc n) crc = crc_bits n (crc_bit crc)

crc_loop : ℕ → List ℕ → ℕ
crc_loop crc [] = crc
crc_loop crc (b ∷ bs) = crc_loop (crc_bits 8 (bit_xor crc b)) bs

-- `~crc` of a `uint32_t`.
unfoldable pub crc32 : List ℕ → ℕ
unfolding crc_bit crc_bits crc_loop
crc32 bytes = 2 ^ 32 - 1 - crc_loop 0xFFFFFFFF bytes

unfoldable pub write_frame_header : WireMessageType → ℕ → ℕ → ℕ → List ℕ → Outcome (List ℕ)
write_frame_header type seq deadline total w = do
  w₁ ← write_at 0 (le_bytes 4 wire_magic) w
  w₂ ← write_at 4 (le_bytes 4 total) w₁
  w₃ ← write_at 8 (le_bytes 4 (message_code type)) w₂
  w₄ ← write_at 12 (le_bytes 8 seq) w₃
  write_at 20 (le_bytes 8 deadline) w₄

-- `encode_frame` up to the checksum: the header and the payload in a buffer of their size.
unfoldable pub fill_frame : WireMessageType → ℕ → ℕ → List ℕ → Outcome (List ℕ)
fill_frame type seq deadline payload = do
  let total = frame_header_size + length payload
  w ← write_frame_header type seq deadline total (replicate total 0)
  if is_empty payload then ok w else write_at frame_header_size payload w

-- The checksum is written behind the header and the payload.
unfoldable pub encode_frame : WireMessageType → ℕ → ℕ → List ℕ → Outcome (List ℕ)
encode_frame type seq deadline payload = do
  w ← fill_frame type seq deadline payload
  write_at (frame_header_size + length payload) (le_bytes 4 (crc32 w)) w

-- A loop of `SSL_read` calls until a number of bytes is there: the bytes, and what is still to be
-- read. It fails when the connection ends before. How the bytes are cut into calls changes nothing.
unfoldable pub read_exactly : ℕ → List ℕ → Option (List ℕ × List ℕ)
read_exactly n stream = if ltb (length stream) n then none else some (take n stream, drop n stream)

-- The rest of `recv_frame` behind the tests of the header.
unfoldable pub recv_body : List ℕ → ℕ → List ℕ → Option (List ℕ × List ℕ)
recv_body hdr frame_len stream = elim (read_exactly (frame_len - frame_header_size) stream) [
  | none ↦ none
  | some (body, s) ↦ elim (read_exactly 4 s) [
    | none ↦ none
    | some (csum, rest) ↦
        if le_value csum == crc32 (hdr ++ body) then some (hdr ++ body, rest) else none
  ]
]

abbrev pub stated_length : List ℕ → ℕ
stated_length hdr = le_value (take 4 (drop 4 hdr))

abbrev pub good_header : List ℕ → Bool
good_header hdr =
    le_value (take 4 hdr) == wire_magic
    && not (ltb (stated_length hdr) frame_header_size)
    && not (ltb max_frame_size (stated_length hdr))

-- A frame without its checksum, and what follows it in the stream.
unfoldable pub recv_frame : Bool → List ℕ → Option (List ℕ × List ℕ)
recv_frame connected stream =
    if not connected then none else elim (read_exactly frame_header_size stream) [
      | none ↦ none
      | some (hdr, s) ↦ if good_header hdr then recv_body hdr (stated_length hdr) s else none
    ]

-- `4 + len`, a sum of two `uint32_t`.
abbrev pub prefix_end : ℕ → ℕ
prefix_end len = (4 + len) % 2 ^ 32

-- `send_unary` and the stream writer put a name and its length before a payload.
unfoldable pub prefix_payload : Text → List ℕ → Outcome (List ℕ)
prefix_payload name payload = do
  let len = length name % 2 ^ 32
  w₁ ← write_at 0 (le_bytes 4 len) (replicate (prefix_end len + length payload) 0)
  w₂ ← write_at 4 (take len name) w₁
  if is_empty payload then ok w₂ else write_at (prefix_end len) payload w₂

abbrev pub slice_at : ℕ → ℕ → List ℕ → Outcome (List ℕ)
slice_at off n bytes =
    if ltb (length bytes) (off + n) then overrun else ok (take n (drop off bytes))

-- `handle_incoming` takes the name off again; a payload that is too short for it is dropped.
unfoldable pub split_payload : List ℕ → Outcome (Option (Text × List ℕ))
split_payload payload =
    let len = le_value (take 4 payload) in
    let split : Outcome (Option (Text × List ℕ)) = slice_at 4 len payload >>= λ name.
    slice_at (prefix_end len) (length payload - prefix_end len) payload >>= λ rest.
    ok (some (name, rest)) in
    if ltb (length payload) 4
    then ok none
    else if ltb (length payload) (prefix_end len)
    then ok none
    else split
