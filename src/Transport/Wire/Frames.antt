-- ===== src/Transport/Wire/Frames.antt =====
-- What src/transport/grpc_transport.cpp makes of its documented frame format: the writer never gets the
-- checksum into its buffer, and the reader wants a checksum of the header and
-- the payload.
use mathlib.Core.List.{append_assoc}
use socrates.Prelude.{
  ℕ, ◌+◌, ◌-◌, ◌^◌, ◌<◌, ◌≤◌, ◌≡◌, refl, sym, ap, ◌∙◌, true, false, not, ◌&&◌, Option, none, some,
  List, ◌++◌, if◌then◌else◌, ltb, ◌==◌, length, length-append, take, drop, replicate, arith,
}
use socrates.Codec.{ok, overrun, le_bytes, le_value, write_at}
use socrates.Codec.Bytes.{
  fill_end, write_at_past, replicate-append, le_value-le_bytes, length-le_bytes, take_all,
  drop_past,
}
use socrates.Transport.Wire.{
  WireMessageType, message_code, wire_magic, frame_header_size, max_frame_size, crc32,
  write_frame_header, fill_frame, encode_frame, read_exactly, recv_body, stated_length, good_header,
  recv_frame,
}

-- The header of the documented format, in 28 bytes.
unfoldable pub header : WireMessageType → ℕ → ℕ → ℕ → List ℕ
header type seq deadline total =
    le_bytes 4 wire_magic
    ++ (le_bytes 4 total
        ++ (le_bytes 4 (message_code type) ++ (le_bytes 8 seq ++ le_bytes 8 deadline)))

abbrev pub header_of : WireMessageType → ℕ → ℕ → List ℕ → List ℕ
header_of type seq deadline payload = header type seq deadline (frame_header_size + length payload)

write_frame_header_lem :
    (type : WireMessageType) (seq deadline total : ℕ) (tail : List ℕ)
    → write_frame_header type seq deadline total (replicate 28 0 ++ tail)
      ≡ ok (header type seq deadline total ++ tail)
unfolding write_frame_header write_at header
write_frame_header_lem type seq deadline total tail = refl

length-header :
    (type : WireMessageType) (seq deadline total : ℕ) → 28 ≡ length (header type seq deadline total)
unfolding header
length-header type seq deadline total = refl

fill_frame_lem :
    (type : WireMessageType) (seq deadline : ℕ) (payload : List ℕ)
    → fill_frame type seq deadline payload ≡ ok (header_of type seq deadline payload ++ payload)
unfolding fill_frame
fill_frame_lem type seq deadline payload =
    let n = length payload in
    let total = 28 + n in
    let body =
      fill_end 28 payload (header type seq deadline total)
        (length-header type seq deadline total) in
    rw (replicate-append 28 n, write_frame_header_lem type seq deadline total (replicate n 0)) body

-- The buffer of a frame has room for the header and the payload alone: the two are written as
-- documented, and the checksum is then written past the buffer's end, for every frame.
pub encode_frame-overrun :
    (type : WireMessageType) (seq deadline : ℕ) (payload : List ℕ)
    → (fill_frame type seq deadline payload ≡ ok (header_of type seq deadline payload ++ payload))
      × (encode_frame type seq deadline payload ≡ overrun)
unfolding encode_frame
encode_frame-overrun type seq deadline payload =
    let h = header_of type seq deadline payload in
    let w = h ++ payload in
    let filled = fill_frame_lem type seq deadline payload in
    let size : length w ≤ 28 + length payload =
      omega
        (arith, length-append h payload, length-header type seq deadline (28 + length payload)) in
    (filled, rw filled (write_at_past (28 + length payload) _ _ w size))

-- The documented header, the payload, and a checksum behind them.
abbrev pub wire_frame : WireMessageType → ℕ → ℕ → List ℕ → ℕ → List ℕ
wire_frame type seq deadline payload csum =
    (header_of type seq deadline payload ++ payload) ++ le_bytes 4 csum

pub crc32-lt : (bytes : List ℕ) → crc32 bytes < 2 ^ 32
unfolding crc32
crc32-lt bytes = omega arith

not_short : (n : ℕ) (a b : List ℕ) → n ≡ length a → ltb (length (a ++ b)) n ≡ false
not_short n a b h = ground (arith, length-append a b)

read_exactly-append : (n : ℕ) (a b : List ℕ) → n ≡ length a → read_exactly n (a ++ b) ≡ some (a, b)
unfolding read_exactly
read_exactly-append n a b h =
    let enough : ltb (length (a ++ b)) n ≡ false = not_short n a b h in
    let tail : drop n (a ++ b) ≡ b =
      ap (λ k. drop k (a ++ b)) (omega arith) ∙ drop_past a b n 0 h in
    rw enough (rw (take_all n a b h, tail))

header_test :
    (m l : ℕ)
    → m ≡ wire_magic
    → frame_header_size ≤ l
    → l ≤ max_frame_size
    → (m == wire_magic && not (ltb l frame_header_size) && not (ltb max_frame_size l)) ≡ true
header_test m l e lo hi = ground arith

good_header_lem :
    (type : WireMessageType) (seq deadline total : ℕ)
    → 28 ≤ total
    → total ≤ max_frame_size
    → (good_header (header type seq deadline total) ≡ true)
      × (stated_length (header type seq deadline total) ≡ total)
unfolding header
good_header_lem type seq deadline total lo hi =
    let h = header type seq deadline total in
    let magic : le_value (take 4 h) ≡ wire_magic = le_value-le_bytes 4 wire_magic (omega arith) in
    let stated : stated_length h ≡ total = le_value-le_bytes 4 total (omega arith) in
    (header_test _ _ magic (omega (arith, stated)) (omega (arith, stated)), stated)

-- What a frame and the rest of the stream are, if the checksum is the one that was computed.
abbrev pub if_checked : ℕ → List ℕ → List ℕ → Option (List ℕ × List ℕ)
if_checked csum frame rest = if csum == crc32 frame then some (frame, rest) else none

recv_body_lem :
    (h payload rest : List ℕ) (total csum : ℕ)
    → total ≡ 28 + length payload
    → csum < 2 ^ 32
    → recv_body h total (payload ++ (le_bytes 4 csum ++ rest)) ≡ if_checked csum (h ++ payload) rest
unfolding recv_body
recv_body_lem h payload rest total csum size word_size =
    let word = le_bytes 4 csum in
    let body = read_exactly-append (total - 28) payload (word ++ rest) (omega (arith, size)) in
    let trailer = read_exactly-append 4 word rest (sym (length-le_bytes 4 csum)) in
    rw (body, trailer, le_value-le_bytes 4 csum word_size, recv_body) refl

-- A frame with the documented header, no larger than a frame may be, and with any 32-bit word as its
-- checksum is accepted from an open connection exactly if that word is the checksum of the header
-- and the payload together; then what follows it is left in the stream. So a frame with the checksum
-- of its payload alone is refused, unless the two checksums are the same.
pub recv_frame-wire_frame :
    (type : WireMessageType) (seq deadline : ℕ) (payload rest : List ℕ) (csum : ℕ)
    → frame_header_size + length payload ≤ max_frame_size
    → csum < 2 ^ 32
    → recv_frame true (wire_frame type seq deadline payload csum ++ rest)
      ≡ if_checked csum (header_of type seq deadline payload ++ payload) rest
unfolding recv_frame
recv_frame-wire_frame type seq deadline payload rest csum fits word_size =
    let h = header_of type seq deadline payload in
    let total = 28 + length payload in
    let word = le_bytes 4 csum in
    let regrouped : wire_frame type seq deadline payload csum ++ rest
        ≡ h ++ (payload ++ (word ++ rest)) =
      append_assoc (h ++ payload) word rest ∙ append_assoc h payload (word ++ rest) in
    let head =
      read_exactly-append 28 h (payload ++ (word ++ rest))
        (length-header type seq deadline total) in
    let (good, stated) = good_header_lem type seq deadline total (omega arith) fits in
    rw (regrouped, head)
      (rw good (recv_body_lem h payload rest (stated_length h) csum stated word_size))
