-- ===== src/Persistence/Store/Rows.antt =====
-- Rows of tokens in the order of their positions, which are the bits of an `std::int64_t`: what the
-- statements of src/persistence/sqlite_assignment_store.cpp make of rows without a gap.
use socrates.Prelude.{
  ℕ, suc, ◌+◌, ◌%◌, ◌^◌, ◌<◌, ◌≤◌, ◌≡◌, refl, sym, ap, subst, ◌∙◌, true, false, Option, none, some,
  List, [], ◌∷◌, length, take, if◌then◌else◌, ltb, ◌==◌, arith, Bool-cases, inl, inr,
}
use socrates.Persistence.Store.{follows}

-- The order of `std::int64_t` on bits.
abbrev signed : ℕ → ℕ
signed v = (v + 2 ^ 63) % 2 ^ 64

-- `INSERT OR IGNORE` into rows in the order of their position, which is their key.
unfoldable pub insert_row : ℕ → ℕ → List (ℕ × ℕ) → List (ℕ × ℕ)
insert_row p t [] = (p, t) ∷ []
insert_row p t ((q, u) ∷ found) =
    let rest = (q, u) ∷ insert_row p t found in
    if q == p
    then (q, u) ∷ found
    else if ltb (signed p) (signed q)
    then (p, t) ∷ (q, u) ∷ found
    else rest

unfoldable pub last_position : List (ℕ × ℕ) → Option ℕ
last_position [] = none
last_position ((q, u) ∷ []) = some q
last_position (r ∷ s ∷ found) = last_position (s ∷ found)

unfoldable pub rows_from : ℕ → List (ℕ × ℕ) → List (ℕ × ℕ)
rows_from start [] = []
rows_from start ((q, u) ∷ found) =
    let rest = rows_from start found in
    if ltb (signed q) (signed start) then rest else (q, u) ∷ rest

-- A negative `LIMIT` is none.
abbrev pub limit {ℓ} : {A : Type ℓ} → ℕ → List A → List A
limit count found = if ltb count (2 ^ 31) then take count found else found

-- Positions without a gap.
abbrev pub IsRun : ℕ → List (ℕ × ℕ) → Type 0
IsRun n [] = Unit
IsRun n ((q, u) ∷ found) = (q ≡ n) × (n < 2 ^ 63) × IsRun (suc n) found

last_position-IsRun :
    (n : ℕ) (r : ℕ × ℕ) (found : List (ℕ × ℕ))
    → IsRun n (r ∷ found)
    → last_position (r ∷ found) ≡ some (n + length found)
unfolding last_position
last_position-IsRun n (q, u) [] run = ap some (omega (arith, run.0))
last_position-IsRun n (q, u) (s ∷ found) run =
    last_position-IsRun (suc n) s found run.2 ∙ ap some (omega arith)

IsRun-lt :
    (n : ℕ) (r : ℕ × ℕ) (found : List (ℕ × ℕ)) → IsRun n (r ∷ found) → n + length found < 2 ^ 63
IsRun-lt n r [] run = omega (arith, run.1)
IsRun-lt n r (s ∷ found) run = omega (arith, IsRun-lt (suc n) s found run.2)

IsRun-insert_row :
    (n p t : ℕ) (found : List (ℕ × ℕ))
    → IsRun n found
    → p ≡ n + length found
    → p < 2 ^ 63
    → IsRun n (insert_row p t found)
unfolding insert_row
IsRun-insert_row n p t [] run e small = (omega (arith, e), omega (arith, e), tt)
IsRun-insert_row n p t ((q, u) ∷ found) run e small =
    let rest = IsRun-insert_row (suc n) p t found run.2 (omega (arith, e)) small in
    let other : (q == p) ≡ false = ground (arith, e, run.0) in
    let later : ltb (signed p) (signed q) ≡ false = ground (arith, e, run.0) in
    rw (other, later, insert_row) (run.0, run.1, rest)

abbrev pub Contiguous : List (ℕ × ℕ) → Type 0
Contiguous found = (n : ℕ) × IsRun n found

follows-next : (m p : ℕ) → m < 2 ^ 63 → follows (some m ∷ []) p ≡ true → p ≡ m + 1
follows-next m p small h = ground arith

pub append-Contiguous :
    (p t : ℕ) (found : List (ℕ × ℕ))
    → Contiguous found
    → p < 2 ^ 63
    → follows (last_position found ∷ []) p ≡ true
    → Contiguous (insert_row p t found)
unfolding last_position insert_row
append-Contiguous p t [] run small next = (p, (refl, small, tt))
append-Contiguous p t (r ∷ found) (n, run) small next =
    let top = last_position-IsRun n r found run in
    let p_next : p ≡ n + length (r ∷ found) =
      follows-next (n + length found) p (IsRun-lt n r found run)
        (subst (λ x. follows (x ∷ []) p ≡ true) top next)
      ∙ omega arith in
    (n, IsRun-insert_row n p t (r ∷ found) run p_next small)

rows_from_all :
    (start n : ℕ) (found : List (ℕ × ℕ)) → start ≤ n → IsRun n found → rows_from start found ≡ found
unfolding rows_from
rows_from_all start n [] le run = refl
rows_from_all start n ((q, u) ∷ found) le run =
    let kept : ltb (signed q) (signed start) ≡ false = ground (arith, run.0, run.1) in
    rw (kept, rows_from) (ap (◌∷◌ (q, u)) (rows_from_all start (suc n) found (omega arith) run.2))

pub rows_from-IsRun :
    (start n : ℕ) (found : List (ℕ × ℕ))
    → start < 2 ^ 63
    → IsRun n found
    → (m : ℕ) × (start ≤ m) × IsRun m (rows_from start found)
unfolding rows_from
rows_from-IsRun start n [] small run = (start, omega arith, tt)
rows_from-IsRun start n ((q, u) ∷ found) small run =
    elim (Bool-cases (ltb (signed q) (signed start))) [
      | inl before ↦ rw (before, rows_from) (rows_from-IsRun start (suc n) found small run.2)
      | inr after ↦
          let le : start ≤ n = ground (arith, run.0, run.1) in
          let rest =
            subst (IsRun (suc n)) (sym (rows_from_all start (suc n) found (omega arith) run.2))
              run.2 in
          rw (after, rows_from) (n, le, (run.0, run.1, rest))
    ]
