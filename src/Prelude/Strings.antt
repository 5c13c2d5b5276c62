-- ===== src/Prelude/Strings.antt =====
-- `std::string` as the list of its bytes: equality, and the lexicographic `<` of its operator.
use Prim.Native.Nat.{ℕ}
use mathlib.Core.Bool.{Bool, true, false, ◌&&◌, ◌||◌}
use mathlib.Core.List.{List, [], ◌∷◌}
use mathlib.Core.Path.{◌≡◌, refl}
use native.Mathlib.Omega.{arith}
use Prim.Native.Char.{code}
use Prim.Native.String.{String}
use socrates.Prelude.Tests.{ltb, ◌==◌}

abbrev pub Text : Type 0
Text = List ℕ

-- The bytes of an ASCII literal.
abbrev pub text : String → Text
text String.[] = []
text (String.◌∷◌ c s) = code c ∷ text s

unfoldable pub text_eq : Text → Text → Bool
text_eq [] [] = true
text_eq [] (b ∷ bs) = false
text_eq (a ∷ as') [] = false
text_eq (a ∷ as') (b ∷ bs) = a == b && text_eq as' bs

-- `operator<` of `std::string`.
unfoldable pub text_ltb : Text → Text → Bool
text_ltb [] [] = false
text_ltb [] (b ∷ bs) = true
text_ltb (a ∷ as') [] = false
text_ltb (a ∷ as') (b ∷ bs) = ltb a b || a == b && text_ltb as' bs

pub text_eq→eq : (a b : Text) → text_eq a b ≡ true → a ≡ b
unfolding text_eq
text_eq→eq [] [] h = refl
text_eq→eq [] (b ∷ bs) h = ground arith
text_eq→eq (a ∷ as') [] h = ground arith
text_eq→eq (a ∷ as') (b ∷ bs) h = ground (arith, text_eq→eq as' bs)

pub text_eq_refl : (a : Text) → text_eq a a ≡ true
unfolding text_eq
text_eq_refl [] = refl
text_eq_refl (a ∷ as') = ground (arith, text_eq_refl as')

pub text_eq_symm : (a b : Text) → text_eq a b ≡ text_eq b a
unfolding text_eq
text_eq_symm [] [] = refl
text_eq_symm [] (b ∷ bs) = refl
text_eq_symm (a ∷ as') [] = refl
text_eq_symm (a ∷ as') (b ∷ bs) = ground (arith, text_eq_symm as' bs)

pub text_ltb_irrefl : (a : Text) → text_ltb a a ≡ false
unfolding text_ltb
text_ltb_irrefl [] = refl
text_ltb_irrefl (a ∷ as') = ground (arith, text_ltb_irrefl as')

pub text_ltb_trans :
    (a b c : Text) → text_ltb a b ≡ true → text_ltb b c ≡ true → text_ltb a c ≡ true
unfolding text_ltb
text_ltb_trans [] [] c p q = ground arith
text_ltb_trans [] (b ∷ bs) [] p q = ground arith
text_ltb_trans [] (b ∷ bs) (c ∷ cs) p q = refl
text_ltb_trans (a ∷ as') [] c p q = ground arith
text_ltb_trans (a ∷ as') (b ∷ bs) [] p q = ground arith
text_ltb_trans (a ∷ as') (b ∷ bs) (c ∷ cs) p q = ground (arith, text_ltb_trans as' bs cs)

pub text_total : (a b : Text) → text_ltb a b ≡ false → text_ltb b a ≡ false → a ≡ b
unfolding text_ltb
text_total [] [] p q = refl
text_total [] (b ∷ bs) p q = ground arith
text_total (a ∷ as') [] p q = ground arith
text_total (a ∷ as') (b ∷ bs) p q = ground (arith, text_total as' bs)
