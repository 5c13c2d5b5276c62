-- ===== src/Codec.antt =====
-- src/transport/tensor_codec.cpp: tensors as frames of bytes. SHA-256 is a parameter, computed by
-- OpenSSL; the pseudo-hash for builds without it is modelled. An access past the end of a buffer, which
-- is undefined in the source, is the outcome `overrun`.
pub mod Bytes
pub mod Frame
pub mod Decode
use socrates.Prelude.{
  ℕ, zero, suc, ◌+◌, ◌*◌, ◌/◌, ◌%◌, ◌^◌, ◌≡◌, refl, Bool, true, false, not, ◌&&◌, Option, none,
  some, List, [], ◌∷◌, ◌++◌, if◌then◌else◌, ltb, ◌==◌, length, take, drop, replicate, is_empty,
  text_eq,
}
use socrates.Types.{ErrorCode, invalid_argument, resource_exhausted, data_loss}

pub data TensorLayout : Type 0 where
  row_major column_major : TensorLayout

-- A dimension is the bit pattern of its `std::int64_t`.
pub record TensorShape : Type 0 where
  pub dims : List ℕ
  pub dynamic_min : Option ℕ
  pub dynamic_max : Option ℕ
  pub alignment : ℕ

-- `element_type` is the enumerator's number: the decoder casts any byte to the enumeration.
pub record TensorSpec : Type 0 where
  pub element_type : ℕ
  pub layout : TensorLayout
  pub shape : TensorShape
  pub maximum_encoded_bytes : ℕ

pub record Tensor : Type 0 where
  pub spec : TensorSpec
  pub content : List ℕ

pub data Outcome {ℓ} (A : Type ℓ) : Type ℓ where
  ok : A → Outcome A
  err : ErrorCode → Outcome A
  overrun : Outcome A

abbrev pub guard : (test : Bool) → (code : ErrorCode) → Outcome (Unit {0})
guard false code = err code
guard true code = ok tt

infixl 5 ◌>>=◌ ◌>>◌
abbrev pub ◌>>=◌ {ℓ κ} :
    {A : Type ℓ} {B : Type κ} → (call : Outcome A) → (next : A → Outcome B) → Outcome B
overrun >>= next = overrun
err code >>= next = err code
ok value >>= next = next value

abbrev pub ◌>>◌ {ℓ} : {B : Type ℓ} → (check : Outcome (Unit {0})) → (next : Outcome B) → Outcome B
check >> next = check >>= λ _. next

-- A chain that returns has returned at each of its calls.
pub >>=-eq-ok {ℓ κ} :
    {A : Type ℓ} {B : Type κ} (call : Outcome A) (next : A → Outcome B) {result : B}
    → (call >>= next) ≡ ok result
    → (value : A) × (call ≡ ok value) × (next value ≡ ok result)
>>=-eq-ok (err code) next returned = absurd (cc)
>>=-eq-ok overrun next returned = absurd (cc)
>>=-eq-ok (ok value) next returned = (value, refl, returned)

abbrev pub header_magic : ℕ
header_magic = 0x45414954

abbrev pub header_size : ℕ
header_size = 64

-- `write_uint32` and `write_uint64`: the bytes of a number, the lowest first.
abbrev pub le_bytes : ℕ → ℕ → List ℕ
le_bytes zero v = []
le_bytes (suc n) v = v % 256 ∷ le_bytes n (v / 256)

-- `read_uint32` and `read_uint64`.
unfoldable pub le_value : List ℕ → ℕ
le_value [] = 0
le_value (b ∷ bs) = b + 256 * le_value bs

abbrev pub prefix : ℕ → Outcome (List ℕ) → Outcome (List ℕ)
prefix x (ok w) = ok (x ∷ w)
prefix x (err e) = err e
prefix x overrun = overrun

-- Bytes copied into a buffer at an offset.
unfoldable pub write_at : ℕ → List ℕ → List ℕ → Outcome (List ℕ)
write_at zero [] w = ok w
write_at zero (b ∷ bs) [] = overrun
write_at zero (b ∷ bs) (x ∷ w) = prefix b (write_at zero bs w)
write_at (suc off) bs [] = overrun
write_at (suc off) bs (x ∷ w) = prefix x (write_at off bs w)

unfoldable pub write_dims : ℕ → List ℕ → List ℕ → Outcome (List ℕ)
write_dims off [] w = ok w
write_dims off (dim ∷ dims) w = do
  w' ← write_at off (le_bytes 8 dim) w
  write_dims (off + 8) dims w'

unfoldable pub write_header : ℕ → List ℕ → ℕ → List ℕ → Outcome (List ℕ)
write_header element_type dims size w = do
  w₁ ← write_at 0 (le_bytes 4 header_magic) w
  w₂ ← write_at 4 (le_bytes 4 element_type) w₁
  w₃ ← write_at 8 (le_bytes 8 (length dims)) w₂
  w₄ ← write_dims 16 dims w₃
  write_at 56 (le_bytes 8 size) w₄

-- The body, and then its digest into the header.
unfoldable pub write_body : (List ℕ → List ℕ) → List ℕ → List ℕ → Outcome (List ℕ)
write_body sha256 content w = do
  w' ← write_at header_size content w
  write_at 32 (sha256 content) w'

unfoldable pub encode : (List ℕ → List ℕ) → Tensor → Outcome (List ℕ)
encode sha256 t = do
  guard (not (is_empty t.content)) invalid_argument
  let total = header_size + length t.content
  let limit = t.spec.maximum_encoded_bytes
  guard (not (ltb 0 limit && ltb limit total)) resource_exhausted
  w ← write_header t.spec.element_type t.spec.shape.dims (length t.content) (replicate total 0)
  write_body sha256 t.content w

-- One word for each dimension, as many as the frame says.
unfoldable pub read_dims : ℕ → List ℕ → Outcome (List ℕ)
read_dims zero w = ok []
read_dims (suc rank) w =
    let rest = read_dims rank (drop 8 w) in
    if ltb (length w) 8 then overrun else prefix (le_value (take 8 w)) rest

abbrev pub rebuilt : ℕ → List ℕ → List ℕ → Tensor
rebuilt element_type dims content = record {
  spec = record {
    element_type = element_type;
    layout = row_major;
    shape = record { dims = dims; dynamic_min = none; dynamic_max = none; alignment = 0 };
    maximum_encoded_bytes = 0;
  };
  content = content;
}

-- Reads of `size` bytes of a buffer that may be shorter.
abbrev pub slice : ℕ → List ℕ → Outcome (List ℕ)
slice size body = if ltb (length body) size then overrun else ok (take size body)

-- The sum of the sizes is that of two `std::uint64_t`.
unfoldable pub decode : (List ℕ → List ℕ) → List ℕ → Outcome Tensor
decode sha256 w = do
  guard (not (ltb (length w) header_size)) data_loss
  guard (le_value (take 4 w) == header_magic) data_loss
  let data_size = le_value (take 8 (drop 56 w))
  guard (not (ltb (length w) ((header_size + data_size) % 2 ^ 64))) data_loss
  content ← slice data_size (drop header_size w)
  guard (text_eq (take 32 (drop 32 w)) (sha256 content)) data_loss
  dims ← read_dims (le_value (take 8 (drop 8 w))) (drop 16 w)
  ok (rebuilt (le_value (take 4 (drop 4 w)) % 256) dims content)

-- The pseudo-hash: `d[i % 32]` takes the low byte of a running 32-bit hash.
set : List ℕ → ℕ → ℕ → List ℕ
set [] i v = []
set (x ∷ xs) zero v = v ∷ xs
set (x ∷ xs) (suc i) v = x ∷ set xs i v

hash_loop : List ℕ → ℕ → ℕ → List ℕ → List ℕ
hash_loop [] i h d = d
hash_loop (b ∷ bs) i h d =
    let h' = (h * 31 + b) % 2 ^ 32 in hash_loop bs (i + 1) h' (set d (i % 32) (h' % 256))

unfoldable pub pseudo_hash : List ℕ → List ℕ
unfolding set hash_loop
pseudo_hash bytes = hash_loop bytes 0 0 (replicate 32 0)
