-- ===== src/Prelude/Sorting.antt =====
-- `std::stable_sort` with a comparison `before`: an element passes those that must stand before it,
-- and stops at its equals.
use mathlib.Core.List.Perm
use mathlib.Core.List.{List, [], ◌∷◌, Perm}
use mathlib.Core.Bool.{Bool}
use mathlib.Core.Logic.{inl, inr}
use socrates.Prelude.Tests.{if◌then◌else◌, Bool-cases}

module _ {ℓ} {A : Type ℓ} where
  pub insert_stable : (A → A → Bool) → A → List A → List A
  insert_stable before x [] = x ∷ []
  insert_stable before x (y ∷ ys) =
      let rest = y ∷ insert_stable before x ys in if before y x then rest else x ∷ y ∷ ys

  unfoldable pub stable_sort : (A → A → Bool) → List A → List A
  unfolding insert_stable
  stable_sort before [] = []
  stable_sort before (x ∷ xs) = insert_stable before x (stable_sort before xs)

  insert_stable-perm :
      (before : A → A → Bool) (x : A) (ys : List A) → Perm (insert_stable before x ys) (x ∷ ys)
  unfolding insert_stable
  insert_stable-perm before x [] = Perm.refl (x ∷ [])
  insert_stable-perm before x (y ∷ ys) = elim (Bool-cases (before y x)) [
    | inl e ↦ rw e (Perm.trans (Perm.cons y (insert_stable-perm before x ys)) (Perm.swap x y ys))
    | inr e ↦ rw e (Perm.refl (x ∷ y ∷ ys))
  ]

  pub stable_sort-perm : (before : A → A → Bool) (xs : List A) → Perm (stable_sort before xs) xs
  unfolding stable_sort
  stable_sort-perm before [] = Perm.refl []
  stable_sort-perm before (x ∷ xs) =
      Perm.trans (insert_stable-perm before x (stable_sort before xs))
        (Perm.cons x (stable_sort-perm before xs))
