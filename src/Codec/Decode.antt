-- ===== src/Codec/Decode.antt =====
-- What the decoder of src/transport/tensor_codec.cpp accepts, and what it makes of encoded frames.
use socrates.Prelude.{
  ℕ, zero, suc, ◌+◌, ◌%◌, ◌^◌, ◌<◌, ◌≤◌, ◌≡◌, refl, ◌≢◌, sym, ap, ◌∙◌, Bool, true, false, not, List,
  [], ◌∷◌, ◌++◌, ltb, ◌==◌, length, take, drop, text_eq, text_eq→eq, arith, Bool-cases, ◌⊎◌, inl,
  inr, subst, length-append,
}
use socrates.Types.{ErrorCode, data_loss}
use socrates.Codec.{
  Tensor, Outcome, ok, err, overrun, ◌>>=◌, >>=-eq-ok, guard, header_magic, header_size, le_value,
  encode, read_dims, rebuilt, slice, decode, prefix,
}
use socrates.Codec.Bytes.{length-drop, drop-append, drop_past, take_all}
use socrates.Codec.Frame.{preamble, preamble-length, encode-frame}

unwrap : List ℕ → Outcome (List ℕ) → List ℕ
unwrap d (ok a) = a
unwrap d (err e) = d
unwrap d overrun = d

ok-injective : {a b : List ℕ} → ok a ≡ ok b → a ≡ b
unfolding unwrap
ok-injective {a} h = ap (unwrap a) h

guard-ok : (b : Bool) (e : ErrorCode) {u : Unit {0}} → guard b e ≡ ok u → b ≡ true
guard-ok true e h = refl
guard-ok false e h = absurd (cc)

holds-le : (a b : ℕ) → not (ltb a b) ≡ true → b ≤ a
holds-le a b h = ground arith

holds-eq : (a b : ℕ) → (a == b) ≡ true → a ≡ b
holds-eq a b h = ground arith

slice-short :
    (size : ℕ) (body : List ℕ) {r : List ℕ} → ltb (length body) size ≡ true → slice size body ≢ ok r
slice-short size body e h = let h' : overrun ≡ ok _ = rw e at h in absurd (cc)

slice-long :
    (size : ℕ) (body : List ℕ) {r : List ℕ}
    → ltb (length body) size ≡ false
    → slice size body ≡ ok r
    → r ≡ take size body
slice-long size body e h = sym (ok-injective (rw e at h))

slice-ok :
    (size : ℕ) (body : List ℕ) {r : List ℕ}
    → slice size body ≡ ok r
    → (size ≤ length body) × (r ≡ take size body)
slice-ok size body h = elim (Bool-cases (ltb (length body) size)) [
  | inl e ↦ absurd (slice-short size body e h)
  | inr e ↦ (ground (arith, e), slice-long size body e h)
]

-- The size of the body that a frame states.
abbrev pub stated_size : List ℕ → ℕ
stated_size w = le_value (take 8 (drop 56 w))

-- What every accepted frame satisfies.
pub record Accepted (sha256 : List ℕ → List ℕ) (w : List ℕ) (t : Tensor) : Type 0 where
  pub header : header_size ≤ length w
  pub magic : le_value (take 4 w) ≡ header_magic
  pub complete : header_size + stated_size w ≤ length w
  pub content : t.content ≡ take (stated_size w) (drop header_size w)
  pub digest : sha256 t.content ≡ take 32 (drop 32 w)
  pub rank : length t.spec.shape.dims ≡ le_value (take 8 (drop 8 w))

prefix-ok :
    (x : ℕ) (m : Outcome (List ℕ)) {r : List ℕ}
    → prefix x m ≡ ok r
    → (rest : List ℕ) × (m ≡ ok rest) × (r ≡ x ∷ rest)
prefix-ok x (ok w) h = (w, refl, sym (ok-injective h))
prefix-ok x (err e) h = absurd (cc)
prefix-ok x overrun h = absurd (cc)

read_dims-length : (rank : ℕ) (w dims : List ℕ) → read_dims rank w ≡ ok dims → length dims ≡ rank
unfolding read_dims
read_dims-length zero w dims h = ap length (sym (ok-injective h))
read_dims-length (suc rank) w dims h = elim (Bool-cases (ltb (length w) 8)) [
  | inl e ↦ let h' : overrun ≡ ok dims = rw e at h in absurd (cc)
  | inr e ↦
      let (rest, r, d) = prefix-ok (le_value (take 8 w)) (read_dims rank (drop 8 w)) (rw e at h) in
      ap length d ∙ ap suc (read_dims-length rank (drop 8 w) rest r)
]

tensor_of : Tensor → Outcome Tensor → Tensor
tensor_of d (ok t) = t
tensor_of d (err e) = d
tensor_of d overrun = d

-- A property of the rebuilt tensor is one of the tensor that the decoder returns.
returned : (P : Tensor → Type 0) (t₀ : Tensor) {t : Tensor} → ok t₀ ≡ ok t → P t₀ → P t
unfolding tensor_of
returned P t₀ h p = subst (λ r. P (tensor_of t₀ r)) h p

-- A frame that is accepted has its header and its whole body, under the magic number, and its body
-- has the digest in the header.
pub decode-Accepted :
    (sha256 : List ℕ → List ℕ) (w : List ℕ) (t : Tensor)
    → decode sha256 w ≡ ok t
    → Accepted sha256 w t
unfolding decode
decode-Accepted sha256 w t h =
    let (_, g₁, h₁) = >>=-eq-ok (guard (not (ltb (length w) header_size)) data_loss) _ h in
    let (_, g₂, h₂) = >>=-eq-ok (guard (le_value (take 4 w) == header_magic) data_loss) _ h₁ in
    let (_, g₃, h₃) =
      >>=-eq-ok (guard (not (ltb (length w) ((header_size + stated_size w) % 2 ^ 64))) data_loss) _
        h₂ in
    let (content, s, h₄) = >>=-eq-ok (slice (stated_size w) (drop header_size w)) _ h₃ in
    let (_, g₄, h₅) =
      >>=-eq-ok (guard (text_eq (take 32 (drop 32 w)) (sha256 content)) data_loss) _ h₄ in
    let (dims, r, h₆) = >>=-eq-ok (read_dims (le_value (take 8 (drop 8 w))) (drop 16 w)) _ h₅ in
    let (whole, taken) = slice-ok (stated_size w) (drop header_size w) s in
    let long : 64 ≤ length w = holds-le _ _ (guard-ok _ _ g₁) in
    returned (Accepted sha256 w) (rebuilt (le_value (take 4 (drop 4 w)) % 256) dims content) h₆
      (record {
        header = long;
        magic = holds-eq _ _ (guard-ok _ _ g₂);
        complete = omega (arith, whole, length-drop 64 w long);
        content = taken;
        digest = sym (text_eq→eq _ _ (guard-ok _ _ g₄));
        rank = read_dims-length (le_value (take 8 (drop 8 w))) (drop 16 w) dims r;
      })

third_fails :
    (b₁ b₂ b₃ : Bool) (k : Unit {0} → Outcome Tensor)
    → b₃ ≡ false
    → (guard b₁ data_loss >>= λ _. guard b₂ data_loss >>= λ _. guard b₃ data_loss >>= k)
      ≡ err data_loss
third_fails true true true k h = absurd (cc)
third_fails true false true k h = absurd (cc)
third_fails true true false k h = refl
third_fails true false false k h = refl
third_fails false b₂ b₃ k h = refl

-- The size that a frame of `encode` states is the last word of its digest.
stated_size-frame :
    (p digest content : List ℕ)
    → 32 ≡ length p
    → length digest ≡ 32
    → stated_size (p ++ (digest ++ content)) ≡ le_value (drop 24 digest)
stated_size-frame p digest content hp hd =
    let skipped = drop_past p (digest ++ content) 32 24 hp in
    let split = drop-append 24 digest content (omega (arith, hd)) in
    let eight : 8 ≡ length (drop 24 digest) =
      omega (arith, hd, length-drop 24 digest (omega (arith, hd))) in
    ap (λ d. le_value (take 8 d)) (skipped ∙ split)
    ∙ ap le_value (take_all 8 (drop 24 digest) content eight)

-- The decoder refuses a frame that the encoder made, of a tensor with at most two dimensions, if
-- the last word of the digest is greater than the body's size (and no more than a size can be):
-- the digest overwrites the size of the body.
pub decode-encode_lost :
    (sha256 : List ℕ → List ℕ) (t : Tensor) (w : List ℕ)
    → length (sha256 t.content) ≡ 32
    → length t.spec.shape.dims ≤ 2
    → t.content ≢ []
    → (t.spec.maximum_encoded_bytes ≡ 0) ⊎ (64 + length t.content ≤ t.spec.maximum_encoded_bytes)
    → encode sha256 t ≡ ok w
    → length t.content < le_value (drop 24 (sha256 t.content))
    → 64 + le_value (drop 24 (sha256 t.content)) < 2 ^ 64
    → decode sha256 w ≡ err data_loss
unfolding decode
decode-encode_lost sha256 t w digest rank ne fits h more bound =
    let d = sha256 t.content in
    let p = preamble t.spec.element_type t.spec.shape.dims in
    let before = preamble-length t.spec.element_type t.spec.shape.dims in
    let frame : w ≡ p ++ (d ++ t.content) =
      ok-injective (sym h ∙ encode-frame sha256 t digest rank ne fits) in
    let stated : stated_size w ≡ le_value (drop 24 d) =
      ap stated_size frame ∙ stated_size-frame p d t.content before digest in
    let size : length w ≡ 64 + length t.content =
      ap length frame
      ∙ omega
          (arith, length-append p (d ++ t.content), length-append d t.content, before, digest) in
    let total : (64 + stated_size w) % 2 ^ 64 ≡ 64 + le_value (drop 24 d) =
      rw stated (omega (arith, bound)) in
    third_fails (not (ltb (length w) header_size)) (le_value (take 4 w) == header_magic)
      (not (ltb (length w) ((64 + stated_size w) % 2 ^ 64))) _
      (rw total (ground (arith, size, more)))
