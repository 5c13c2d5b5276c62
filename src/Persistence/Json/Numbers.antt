-- ===== src/Persistence/Json/Numbers.antt =====
-- The numbers of src/persistence/sqlite_assignment_store.cpp, printed and read back.
use native.Mathlib.Numerals.{unary_clauses}
use socrates.Prelude.{
  ℕ, zero, suc, ◌+◌, ◌-◌, ◌*◌, ◌/◌, ◌%◌, ◌^◌, ◌<◌, Bool, true, false, ◌≡◌, refl, ap, ◌∙◌, some, [],
  ◌∷◌, ◌++◌, ltb, min, Text, arith, Bool-cases, inl, inr,
}
use mathlib.Core.List.{append_assoc}
use socrates.Pipeline.{digits, to_string}
use socrates.Persistence.Json.{is_digit, scan_digits, skip, strtoll, read_int}

abbrev pub starts : Text → Bool
starts [] = false
starts (c ∷ s) = is_digit c

starts-append : (s t : Text) → starts s ≡ true → starts (s ++ t) ≡ true
starts-append [] t h = ground arith
starts-append (c ∷ s) t h = h

pub digits_small : (fuel n : ℕ) → ltb n 10 ≡ true → digits (suc fuel) n ≡ (48 + n) ∷ []
unfolding digits
digits_small fuel n h = rw (h, digits) refl

pub digits_large :
    (fuel n : ℕ)
    → ltb n 10 ≡ false
    → digits (suc fuel) n ≡ digits fuel (n / 10) ++ ((48 + n % 10) ∷ [])
unfolding digits
digits_large fuel n h = rw (h, digits) refl

pub starts-digits : (fuel n : ℕ) → starts (digits (suc fuel) n) ≡ true
unfolding digits
starts-digits zero n = elim (Bool-cases (ltb n 10)) [
  | inl h ↦ rw (digits_small zero n h) (ground arith)
  | inr h ↦ rw (digits_large zero n h) (ground arith)
]
starts-digits (suc fuel) n =
    let rest =
      starts-append (digits (suc fuel) (n / 10)) ((48 + n % 10) ∷ [])
        (starts-digits fuel (n / 10)) in
    elim (Bool-cases (ltb n 10)) [
      | inl h ↦ rw (digits_small (suc fuel) n h) (ground arith)
      | inr h ↦ rw (digits_large (suc fuel) n h) rest
    ]

pub scan_stop : (n : ℕ) (r : Text) → starts r ≡ false → scan_digits n r ≡ n
unfolding scan_digits
scan_stop n [] h = refl
scan_stop n (c ∷ r) h = ground arith

scan_step :
    (a d : ℕ) (r : Text) → d < 10 → scan_digits a ((48 + d) ∷ r) ≡ scan_digits (a * 10 + d) r
unfolding scan_digits
scan_step a d r h =
    let e : 48 + d - 48 ≡ d = omega arith in
    let digit : is_digit (48 + d) ≡ true = ground arith in rw (e, digit, scan_digits) refl

pub scan-digits :
    (fuel n : ℕ) (r : Text) → n < 10 ^ fuel → scan_digits 0 (digits fuel n ++ r) ≡ scan_digits n r
unfolding digits scan_digits
scan-digits zero n r h = ap (λ x. scan_digits x r) (omega arith)
scan-digits (suc fuel) n r h =
    let larger : 10 ^ suc fuel ≡ 10 * 10 ^ fuel = simp unary_clauses (omega arith) in
    let rest = scan-digits fuel (n / 10) ((48 + n % 10) ∷ r) (omega (arith, larger)) in
    elim (Bool-cases (ltb n 10)) [
      | inl e ↦
          rw (digits_small fuel n e)
            (scan_step 0 n r (ground (arith, e)) ∙ ap (λ x. scan_digits x r) (omega arith))
      | inr e ↦ rw (digits_large fuel n e) (
          rw (append_assoc (digits fuel (n / 10)) ((48 + n % 10) ∷ []) r) (
            rest
            ∙ scan_step (n / 10) (n % 10) r (omega arith)
            ∙ ap (λ x. scan_digits x r) (omega arith)))
    ]

read_digits :
    (s : Text) → starts s ≡ true → read_int (some s) ≡ some (min (scan_digits 0 s) (2 ^ 63 - 1))
unfolding strtoll skip
read_digits [] h = ground arith
read_digits (c ∷ s) h = ground arith

-- A number below 2^63 in front of a character that is no digit is read back.
pub read_int-to_string :
    (n : ℕ) (r : Text) → n < 2 ^ 63 → starts r ≡ false → read_int (some (to_string n ++ r)) ≡ some n
unfolding to_string
read_int-to_string n r h stop =
    let digit =
      read_digits (digits 20 n ++ r) (starts-append (digits 20 n) r (starts-digits 19 n)) in
    let value = scan-digits 20 n r (omega arith) ∙ scan_stop n r stop in
    digit ∙ ap some (omega (arith, value))
