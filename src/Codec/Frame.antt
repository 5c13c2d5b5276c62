-- ===== src/Codec/Frame.antt =====
-- The layout of the frames of src/transport/tensor_codec.cpp, and what the decoder makes of them.
use socrates.Prelude.{
  ℕ, ◌+◌, ◌≤◌, ◌≡◌, refl, ◌≢◌, sym, ap, ◌∙◌, true, not, ◌&&◌, List, [], ◌∷◌, ◌++◌, ltb, length,
  length-append, length-replicate, replicate, is_empty, arith, ◌⊎◌,
}
use mathlib.Core.List.{append-nil, append_assoc}
use socrates.Codec.Bytes.{write_at-append, replicate-append}
use socrates.Codec.{
  Tensor, ok, header_magic, le_bytes, write_at, write_dims, write_header, write_body, encode,
}

abbrev padded : List ℕ → List ℕ
padded [] = replicate 16 0
padded (d ∷ []) = le_bytes 8 d ++ replicate 8 0
padded (d ∷ e ∷ rest) = le_bytes 8 d ++ le_bytes 8 e

-- The 32 bytes before the digest, which leave room for two dimensions.
unfoldable pub preamble : ℕ → List ℕ → List ℕ
preamble element_type dims =
    le_bytes 4 header_magic
    ++ (le_bytes 4 element_type ++ (le_bytes 8 (length dims) ++ padded dims))

write_header_lem :
    (element_type : ℕ) (dims : List ℕ) (size : ℕ) (tail : List ℕ)
    → length dims ≤ 2
    → write_header element_type dims size (replicate 64 0 ++ tail)
      ≡ ok (preamble element_type dims ++ ((replicate 24 0 ++ le_bytes 8 size) ++ tail))
unfolding write_header write_at write_dims preamble
write_header_lem ty [] size tail h = refl
write_header_lem ty (d ∷ []) size tail h = refl
write_header_lem ty (d ∷ e ∷ []) size tail h = refl
write_header_lem ty (d ∷ e ∷ f ∷ rest) size tail h = absurd (omega arith)

pub preamble-length : (ty : ℕ) (dims : List ℕ) → 32 ≡ length (preamble ty dims)
unfolding preamble
preamble-length ty [] = refl
preamble-length ty (d ∷ []) = refl
preamble-length ty (d ∷ e ∷ rest) = refl

module _ (sha256 : List ℕ → List ℕ) (content : List ℕ) (digest : length (sha256 content) ≡ 32) where
  write_body_lem :
      (p z : List ℕ)
      → 32 ≡ length p
      → 32 ≡ length z
      → write_body sha256 content (p ++ (z ++ replicate (length content) 0))
        ≡ ok (p ++ (sha256 content ++ content))
  unfolding write_body
  write_body_lem p z hp hz =
      let blank = replicate {A = ℕ} (length content) 0 in
      let split = sym (append_assoc p z blank) ∙ ap (◌++◌ (p ++ z)) (sym (append-nil blank)) in
      let joined = ap (◌++◌ (p ++ z)) (append-nil content) ∙ append_assoc p z content in
      let body : write_at 64 content (p ++ (z ++ blank)) ≡ ok (p ++ (z ++ content)) =
        ap (write_at 64 content) split
        ∙ write_at-append 64 (p ++ z) blank [] content (omega (arith, length-append p z, hp, hz))
            (sym (length-replicate (length content) 0))
        ∙ ap ok joined in
      rw (body, write_at-append 32 p z content (sha256 content) hp (digest ∙ hz))

is_empty_of_ne : (l : List ℕ) → l ≢ [] → not (is_empty l) ≡ true
is_empty_of_ne [] h = absurd (h refl)
is_empty_of_ne (x ∷ xs) h = refl

-- The frame of a tensor with at most two dimensions that fits its limit. The digest stands where the
-- size of the body was written.
pub encode-frame :
    (sha256 : List ℕ → List ℕ) (t : Tensor)
    → length (sha256 t.content) ≡ 32
    → length t.spec.shape.dims ≤ 2
    → t.content ≢ []
    → (t.spec.maximum_encoded_bytes ≡ 0) ⊎ (64 + length t.content ≤ t.spec.maximum_encoded_bytes)
    → encode sha256 t
      ≡ ok (preamble t.spec.element_type t.spec.shape.dims ++ (sha256 t.content ++ t.content))
unfolding encode
encode-frame sha256 t digest rank ne fits =
    let ty = t.spec.element_type in
    let dims = t.spec.shape.dims in
    let n = length t.content in
    let limit = t.spec.maximum_encoded_bytes in
    let within : not (ltb 0 limit && ltb limit (64 + n)) ≡ true = ground arith in
    let z = replicate 24 0 ++ le_bytes 8 n in
    let headed : write_header ty dims n (replicate (64 + n) 0)
        ≡ ok (preamble ty dims ++ (z ++ replicate n 0)) =
      ap (write_header ty dims n) (replicate-append 64 n)
      ∙ write_header_lem ty dims n (replicate n 0) rank in
    rw (is_empty_of_ne t.content ne, within, headed)
      (write_body_lem sha256 t.content digest (preamble ty dims) z (preamble-length ty dims) refl)
