-- ===== src/Prelude/Maps.antt =====
-- A map with text keys as an association list: the first entry of a key counts.
use mathlib.Core.Option.{Option, none, some}
use mathlib.Core.List.{List, [], ◌∷◌}
use mathlib.Core.Path.{◌≡◌, refl, ap}
use mathlib.Core.Logic.{inl, inr}
use mathlib.Core.Bool.{false}
use socrates.Prelude.Tests.{if◌then◌else◌, Bool-cases}
use socrates.Prelude.Strings.{Text, text_eq, text_eq_refl, text_eq→eq}

module _ {ℓ} {V : Type ℓ} where
  unfoldable pub find_key : Text → List (Text × V) → Option V
  find_key key [] = none
  find_key key ((k, v) ∷ m) = let rest = find_key key m in if text_eq k key then some v else rest

  unfoldable pub set_key : Text → V → List (Text × V) → List (Text × V)
  set_key key v [] = (key, v) ∷ []
  set_key key v ((k, w) ∷ m) =
      let rest = (k, w) ∷ set_key key v m in if text_eq k key then (k, v) ∷ m else rest

pub find_key-set_key {ℓ} :
    {V : Type ℓ} (key : Text) (v : V) (m : List (Text × V))
    → find_key key (set_key key v m) ≡ some v
unfolding find_key set_key
find_key-set_key key v [] = rw (text_eq_refl key)
find_key-set_key key v ((k, w) ∷ m) = elim (Bool-cases (text_eq k key)) [
  | inl e ↦ rw (e, e)
  | inr e ↦ rw (e, e) (find_key-set_key key v m)
]

pub find_key-set_key_other {ℓ} :
    {V : Type ℓ} (key k : Text) (v : V) (m : List (Text × V))
    → text_eq k key ≡ false
    → find_key key (set_key k v m) ≡ find_key key m
unfolding find_key set_key
find_key-set_key_other key k v [] h = rw h refl
find_key-set_key_other key k v ((j, w) ∷ m) h = elim (Bool-cases (text_eq j k)) [
  | inl e ↦
      let same = text_eq→eq j k e in
      let other : text_eq j key ≡ false = rw same h in rw (e, other, find_key) refl
  | inr e ↦
      rw (e, find_key, set_key)
        (ap (λ r. if text_eq j key then some w else r) (find_key-set_key_other key k v m h))
]
