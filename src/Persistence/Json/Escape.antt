-- ===== src/Persistence/Json/Escape.antt =====
-- The escapes of src/persistence/sqlite_assignment_store.cpp.
use socrates.Prelude.{
  ℕ, false, ◌≡◌, refl, ap, ◌∙◌, [], ◌∷◌, ◌++◌, if◌then◌else◌, ◌==◌, Bool-cases, inl, inr, Text, map,
  arith,
}
use socrates.Persistence.Json.{escape_char, json_escape, unescape}

-- A newline comes back as the letter `n`.
abbrev pub restored : ℕ → ℕ
restored c = if c == 10 then 110 else c

unescape_plain_char : (c : ℕ) (t : Text) → (c == 92) ≡ false → unescape (c ∷ t) ≡ c ∷ unescape t
unfolding unescape
unescape_plain_char c [] h = refl
unescape_plain_char c (d ∷ t) h = rw (h, unescape) refl

unescape_char : (c : ℕ) (t : Text) → unescape (escape_char c ++ t) ≡ restored c ∷ unescape t
unfolding unescape
unescape_char c t = elim (Bool-cases (c == 34)) [
  | inl q ↦ rw (q, escape_char) (ap (λ x. x ∷ unescape t) (ground arith))
  | inr q ↦ elim (Bool-cases (c == 92)) [
    | inl b ↦ rw (q, b, escape_char) (ap (λ x. x ∷ unescape t) (ground arith))
    | inr b ↦ elim (Bool-cases (c == 10)) [
      | inl n ↦ rw (q, b, n, escape_char) refl
      | inr n ↦ rw (q, b, n, escape_char) (unescape_plain_char c t b)
    ]
  ]
]

-- Undoing the escapes gives the text back, except that each newline has become the letter `n`.
unescape-json_escape : (s : Text) → unescape (json_escape s) ≡ map restored s
unfolding json_escape unescape
unescape-json_escape [] = refl
unescape-json_escape (c ∷ s) =
    unescape_char c (json_escape s) ∙ ap (◌∷◌ (restored c)) (unescape-json_escape s)
