-- ===== src/Tests/Codec.antt =====
-- Frames of a small tensor, under two digests.
use socrates.Prelude.{
  ℕ, ◌+◌, ◌^◌, ◌<◌, ◌≡◌, ◌≢◌, refl, inl, List, [], ◌∷◌, ◌++◌, length, drop, replicate, text_eq,
  arith,
}
use socrates.Types.{data_loss}
use socrates.Codec.{
  Tensor, ok, err, le_bytes, le_value, write_at, write_dims, write_header, write_body, encode,
  read_dims, rebuilt, decode, pseudo_hash,
}
use socrates.Codec.Frame.{preamble, encode-frame}
use socrates.Codec.Decode.{Accepted, decode-Accepted, decode-encode_lost}

program : Unit {0}
unfolding text_eq le_value write_at write_dims write_header write_body encode read_dims decode
    preamble
program = tt

abbrev tensor : Tensor
tensor = rebuilt 6 (3 ∷ []) (7 ∷ 8 ∷ 9 ∷ [])

abbrev ones : List ℕ → List ℕ
ones bytes = replicate 32 1

-- A digest whose last word is the body's size.
abbrev sized : List ℕ → List ℕ
sized bytes = replicate 24 1 ++ le_bytes 8 3

not_empty : tensor.content ≢ []
not_empty h = absurd (cc)

abbrev frame : List ℕ
unfolding program
frame = preamble 6 (3 ∷ []) ++ (ones tensor.content ++ tensor.content)

abbrev sized_frame : List ℕ
unfolding program
sized_frame = preamble 6 (3 ∷ []) ++ (sized tensor.content ++ tensor.content)

encoded : encode ones tensor ≡ ok frame
unfolding program
encoded = refl

decoded : decode sized sized_frame ≡ ok tensor
unfolding program
decoded = refl

hashed : pseudo_hash (1 ∷ 2 ∷ []) ≡ 1 ∷ 33 ∷ replicate 30 0
unfolding pseudo_hash
hashed = refl

encode-frame_example :
    encode ones tensor ≡ ok (preamble 6 (3 ∷ []) ++ (ones tensor.content ++ tensor.content))
encode-frame_example = encode-frame ones tensor refl (omega arith) not_empty (inl refl)

decode-Accepted_example : Accepted sized sized_frame tensor
decode-Accepted_example = decode-Accepted sized sized_frame tensor decoded

large : length tensor.content < le_value (drop 24 (ones tensor.content))
unfolding program
large = omega arith

small : 64 + le_value (drop 24 (ones tensor.content)) < 2 ^ 64
unfolding program
small = omega arith

decode-encode_lost_example : decode ones frame ≡ err data_loss
decode-encode_lost_example =
    decode-encode_lost ones tensor frame refl (omega arith) not_empty (inl refl) encoded large small
