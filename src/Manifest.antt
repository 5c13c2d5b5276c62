-- ===== src/Manifest.antt =====
-- src/model/manifest_repository.cpp: a manifest read from JSON, and the index of the manifests published.
-- The JSON library is a parameter: `J` is its value type, and a field of `Json` a call that the source
-- makes. An exception of that library is `threw`.
pub mod Names
pub mod Parse
pub mod Index
use socrates.Prelude.{ℕ, Bool, List, [], ◌∷◌, if◌then◌else◌, ◌&&◌, Text}
use socrates.Scheduler.{ShardOption, BoundaryContract}

pub record ManifestSummary : Type 0 where
  pub model_id : Text
  pub revision : Text
  pub total_layers : ℕ
  pub shard_options : List ShardOption
  pub boundaries : List BoundaryContract

pub data Attempt {ℓ} (A : Type ℓ) : Type ℓ where
  threw : Attempt A
  done : A → Attempt A

infixl 5 ◌>>=◌
abbrev pub ◌>>=◌ {ℓ κ} :
    {A : Type ℓ} {B : Type κ} → (call : Attempt A) → (next : A → Attempt B) → Attempt B
threw >>= next = threw
done value >>= next = next value

pub record Json (J : Type 0) : Type 0 where
  pub contains : J → Text → Bool
  pub at : J → Text → J
  pub is_string : J → Bool
  pub is_array : J → Bool
  pub is_object : J → Bool
  pub is_number : J → Bool
  pub is_number_unsigned : J → Bool
  pub is_boolean : J → Bool
  pub elements : J → List J
  pub get_string : J → Attempt Text
  pub get_unsigned : J → Attempt ℕ
  pub get_signed : J → Attempt ℕ
  pub get_double : J → Attempt ℕ
  pub get_bool : J → Attempt Bool

-- The elements of an array, read one after the other.
unfoldable pub each {ℓ κ} : {A : Type ℓ} {B : Type κ} → (A → Attempt B) → List A → Attempt (List B)
each read [] = done []
each read (x ∷ xs) = read x >>= λ y. each read xs >>= λ ys. done (y ∷ ys)

module _ {J : Type 0} (json : Json J) where
  abbrev pub has : J → Text → (J → Bool) → Bool
  has j key test = json.contains j key && test (json.at j key)

  -- A field of the right type, or the default.
  abbrev pub field_or {ℓ} : {A : Type ℓ} → J → Text → (J → Bool) → A → (J → Attempt A) → Attempt A
  field_or j key test default read = if has j key test then read (json.at j key) else done default
