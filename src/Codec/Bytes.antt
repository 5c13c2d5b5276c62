-- ===== src/Codec/Bytes.antt =====
-- Slices of lists of bytes, and the words of src/transport read back.
use native.Mathlib.Numerals.{unary_clauses}
use mathlib.Core.List.{append-nil}
use socrates.Prelude.{
  ℕ, zero, suc, ◌+◌, ◌*◌, ◌/◌, ◌^◌, ◌<◌, ◌≤◌, ◌≡◌, refl, sym, ap, ◌∙◌, List, [], ◌∷◌, ◌++◌, length,
  take, drop, replicate, arith, true, false, if◌then◌else◌, is_empty, ltb, length-replicate,
}
use socrates.Codec.{ok, overrun, le_bytes, le_value, write_at}

pub length-drop : (n : ℕ) (w : List ℕ) → n ≤ length w → length (drop n w) + n ≡ length w
length-drop zero w h = omega arith
length-drop (suc n) [] h = absurd (omega arith)
length-drop (suc n) (x ∷ w) h = omega (arith, length-drop n w)

pub drop-append : (n : ℕ) (xs ys : List ℕ) → n ≤ length xs → drop n (xs ++ ys) ≡ drop n xs ++ ys
drop-append zero xs ys h = refl
drop-append (suc n) [] ys h = absurd (omega arith)
drop-append (suc n) (x ∷ xs) ys h = drop-append n xs ys (omega arith)

pub drop_past : (p rest : List ℕ) (k n : ℕ) → k ≡ length p → drop (k + n) (p ++ rest) ≡ drop n rest
drop_past [] rest zero n h = ap (λ k. drop k rest) (omega arith)
drop_past [] rest (suc k) n h = absurd (omega arith)
drop_past (x ∷ p) rest zero n h = absurd (omega arith)
drop_past (x ∷ p) rest (suc k) n h =
    let e : suc k + n ≡ suc (k + n) = omega arith in rw e (drop_past p rest k n (omega arith))

pub take_all : (n : ℕ) (xs ys : List ℕ) → n ≡ length xs → take n (xs ++ ys) ≡ xs
take_all zero [] ys h = refl
take_all zero (x ∷ xs) ys h = absurd (omega arith)
take_all (suc n) [] ys h = absurd (omega arith)
take_all (suc n) (x ∷ xs) ys h = ap (◌∷◌ x) (take_all n xs ys (omega arith))

-- A word that fits its bytes is read back from them.
pub le_value-le_bytes : (n v : ℕ) → v < 256 ^ n → le_value (le_bytes n v) ≡ v
unfolding le_value
le_value-le_bytes zero v h = omega arith
le_value-le_bytes (suc n) v h =
    let larger : 256 ^ suc n ≡ 256 * 256 ^ n = simp unary_clauses (omega arith) in
    let rest = le_value-le_bytes n (v / 256) (omega (arith, larger)) in omega (arith, rest)

pub length-le_bytes : (n v : ℕ) → length (le_bytes n v) ≡ n
length-le_bytes zero v = refl
length-le_bytes (suc n) v = ap suc (length-le_bytes n (v / 256))

-- A write past the end.
pub write_at_past :
    (off : ℕ) (b : ℕ) (bs w : List ℕ) → length w ≤ off → write_at off (b ∷ bs) w ≡ overrun
unfolding write_at
write_at_past zero b bs [] h = refl
write_at_past zero b bs (x ∷ w) h = absurd (omega arith)
write_at_past (suc off) b bs [] h = refl
write_at_past (suc off) b bs (x ∷ w) h = rw (write_at_past off b bs w (omega arith))

pub write_at-append :
    (off : ℕ) (a c d bs : List ℕ)
    → off ≡ length a
    → length bs ≡ length c
    → write_at off bs (a ++ (c ++ d)) ≡ ok (a ++ (bs ++ d))
unfolding write_at
write_at-append (suc off) (x ∷ a) c d bs o h = rw (write_at-append off a c d bs (omega arith) h)
write_at-append zero (x ∷ a) c d bs o h = absurd (omega arith)
write_at-append (suc off) [] c d bs o h = absurd (omega arith)
write_at-append zero [] [] d [] o h = refl
write_at-append zero [] [] d (b ∷ bs) o h = absurd (omega arith)
write_at-append zero [] (y ∷ c) d [] o h = absurd (omega arith)
write_at-append zero [] (y ∷ c) d (b ∷ bs) o h =
    rw (write_at-append zero [] c d bs refl (omega arith))

pub replicate-append : (m n : ℕ) → replicate {A = ℕ} (m + n) 0 ≡ replicate m 0 ++ replicate n 0
replicate-append zero n = ap (λ k. replicate k 0) (omega arith)
replicate-append (suc m) n =
    let e : suc m + n ≡ suc (m + n) = omega arith in rw (e, replicate-append m n)

-- A write that fills the end of a buffer.
pub write_at_end :
    (off : ℕ) (a c bs : List ℕ)
    → off ≡ length a
    → length bs ≡ length c
    → write_at off bs (a ++ c) ≡ ok (a ++ bs)
write_at_end off a c bs o h =
    ap (λ z. write_at off bs (a ++ z)) (sym (append-nil c))
    ∙ write_at-append off a c [] bs o h
    ∙ ap (λ z. ok (a ++ z)) (append-nil bs)

-- A copy into a zeroed end, which is made only if there is something to copy.
pub fill_end :
    (off : ℕ) (payload h : List ℕ)
    → off ≡ length h
    → (if is_empty payload
        then ok (h ++ replicate (length payload) 0)
        else write_at off payload (h ++ replicate (length payload) 0))
      ≡ ok (h ++ payload)
fill_end off [] h e = refl
fill_end off (x ∷ xs) h e =
    let n = suc (length xs) in
    write_at_end off h (replicate n 0) (x ∷ xs) e (sym (length-replicate n 0))

-- The tests of sizes, as equations.
pub ltb-of_lt : (a b : ℕ) → a < b → ltb a b ≡ true
ltb-of_lt a b h = ground arith

pub ltb-of_le : (a b : ℕ) → b ≤ a → ltb a b ≡ false
ltb-of_le a b h = ground arith
