-- ===== src/Persistence/Json/Fields.antt =====
-- The search of src/persistence/sqlite_assignment_store.cpp for a key in JSON it has written itself.
use socrates.Prelude.{
  ℕ, zero, suc, Bool, true, false, not, ◌&&◌, ◌≡◌, refl, ap, ◌∙◌, none, some, List, [], ◌∷◌, ◌++◌,
  ◌+◌, ◌/◌, ◌%◌, if◌then◌else◌, ◌==◌, Text, all_of, arith,
}
use socrates.Pipeline.{digits, to_string}
use socrates.Persistence.Json.{
  json_escape, strip, after, until_quote, unescape, read_string, read_int, json_extract_string,
  json_extract_int,
}

-- Neither a quote, nor what the writer escapes.
unfoldable pub quote_free : Text → Bool
quote_free [] = true
quote_free (c ∷ s) = not (c == 34) && quote_free s

unfoldable pub is_plain : Text → Bool
is_plain [] = true
is_plain (c ∷ s) = not (c == 34) && (not (c == 92) && (not (c == 10) && is_plain s))

-- Two texts that differ before either ends.
unfoldable pub clash : Text → Text → Bool
clash [] s = false
clash (n ∷ ns) [] = false
clash (n ∷ ns) (c ∷ cs) = if n == c then clash ns cs else true

pub plain-free : (s : Text) → is_plain s ≡ true → quote_free s ≡ true
unfolding is_plain quote_free
plain-free [] h = refl
plain-free (c ∷ s) h = ground (arith, plain-free s)

pub json_escape_plain : (s : Text) → is_plain s ≡ true → json_escape s ≡ s
unfolding is_plain json_escape
json_escape_plain [] h = refl
json_escape_plain (c ∷ s) h = ground (arith, json_escape_plain s)

pub unescape_plain : (s : Text) → is_plain s ≡ true → unescape s ≡ s
unfolding is_plain unescape
unescape_plain [] h = refl
unescape_plain (c ∷ []) h = refl
unescape_plain (c ∷ d ∷ s) h = ground (arith, unescape_plain (d ∷ s))

pub until_quote-free : (s t : Text) → quote_free s ≡ true → until_quote (s ++ (34 ∷ t)) ≡ some s
unfolding quote_free until_quote
until_quote-free [] t h = refl
until_quote-free (c ∷ s) t h = ground (arith, until_quote-free s t)

pub strip-clash : (n m s t : Text) → clash n s ≡ true → strip (n ++ m) (s ++ t) ≡ none
unfolding clash strip
strip-clash [] m s t h = ground arith
strip-clash (a ∷ n) m [] t h = ground arith
strip-clash (a ∷ n) m (c ∷ s) t h = ground (arith, strip-clash n m s t)

strip-append : (n m s : Text) → strip (n ++ m) (n ++ s) ≡ strip m s
unfolding strip
strip-append [] m s = refl
strip-append (a ∷ n) m s = ground (arith, strip-append n m s)

-- A quote-free value is followed by a quote and no colon, so a key does not begin in front of it.
strip_value :
    (k v m t : Text)
    → quote_free k ≡ true
    → quote_free v ≡ true
    → strip (k ++ (34 ∷ 58 ∷ m)) (v ++ (34 ∷ 44 ∷ t)) ≡ none
unfolding strip quote_free
strip_value [] [] m t p q = refl
strip_value [] (c ∷ v) m t p q = ground arith
strip_value (a ∷ k) [] m t p q = ground arith
strip_value (a ∷ k) (c ∷ v) m t p q = ground (arith, strip_value k v m t)

after_free : (n s t : Text) → quote_free s ≡ true → after (34 ∷ n) (s ++ t) ≡ after (34 ∷ n) t
unfolding after strip quote_free
after_free n [] t h = refl
after_free n (c ∷ s) t h =
    let e : (34 == c) ≡ false = ground arith in rw (e, after) (after_free n s t (ground arith))

after-none : (n s : Text) → strip n s ≡ none → after (34 ∷ n) (34 ∷ s) ≡ after (34 ∷ n) s
unfolding after strip
after-none n s h = rw h refl

after_hit :
    (n m s rest : Text) → strip m s ≡ some rest → after (34 ∷ (n ++ m)) (34 ∷ (n ++ s)) ≡ some rest
unfolding after strip
after_hit n m s rest h = rw (strip-append n m s ∙ h, after, strip) refl

pub data Field : Type 0 where
  str : (key value : Text) → is_plain value ≡ true → Field
  num : (key : Text) → ℕ → Field

abbrev pub key_of : Field → Text
key_of (str k v p) = k
key_of (num k n) = k

-- The needle that finds a field, without its first quote and its key.
abbrev pub mark_of : Field → Text
mark_of (str k v p) = 34 ∷ 58 ∷ 34 ∷ []
mark_of (num k n) = 34 ∷ 58 ∷ []

abbrev pub value_of : Field → Text → Text
value_of (str k v p) rest = json_escape v ++ (34 ∷ rest)
value_of (num k n) rest = to_string n ++ rest

abbrev pub text_of : ℕ → List Field → Text
text_of c [] = 125 ∷ []
text_of c (f ∷ fs) = c ∷ 34 ∷ (key_of f ++ (mark_of f ++ value_of f (text_of 44 fs)))

abbrev pub body_of : List Field → Text
body_of [] = []
body_of (f ∷ fs) = 34 ∷ (key_of f ++ (mark_of f ++ value_of f (text_of 44 fs)))

abbrev pub is_key : Text → Bool
is_key k = quote_free k && (clash k (58 ∷ []) && clash k (44 ∷ []))

abbrev pub misses : Text → Field → Bool
misses k f = clash k (key_of f) && quote_free (key_of f)

quote_free-append :
    (s t : Text) → quote_free s ≡ true → quote_free t ≡ true → quote_free (s ++ t) ≡ true
unfolding quote_free
quote_free-append [] t p q = q
quote_free-append (c ∷ s) t p q = ground (arith, quote_free-append s t)

digits-free : (fuel n : ℕ) → quote_free (digits fuel n) ≡ true
unfolding digits quote_free
digits-free zero n = refl
digits-free (suc fuel) n =
    let rest =
      quote_free-append (digits fuel (n / 10)) ((48 + n % 10) ∷ []) (digits-free fuel (n / 10)) in
    let last : quote_free ((48 + n % 10) ∷ []) ≡ true = ground arith in
    let single : quote_free ((48 + n) ∷ []) ≡ true = ground arith in ground (arith, rest)

to_string-free : (n : ℕ) → quote_free (to_string n) ≡ true
unfolding to_string
to_string-free n = digits-free 20 n

module _ (k m : Text) (key : is_key k ≡ true) where
  abbrev needle : Text
  needle = 34 ∷ (k ++ (34 ∷ 58 ∷ m))

  after_stop :
      (c : ℕ) (s : Text)
      → clash k (c ∷ []) ≡ true
      → quote_free (c ∷ []) ≡ true
      → after needle (34 ∷ c ∷ s) ≡ after needle s
  after_stop c s h q =
      let none_here =
        after-none (k ++ (34 ∷ 58 ∷ m)) (c ∷ s) (strip-clash k (34 ∷ 58 ∷ m) (c ∷ []) s h) in
      none_here ∙ after_free (k ++ (34 ∷ 58 ∷ m)) (c ∷ []) s q

  after_colon : (s : Text) → after needle (34 ∷ 58 ∷ s) ≡ after needle s
  unfolding quote_free
  after_colon s = after_stop 58 s (ground arith) refl

  after_comma : (s : Text) → after needle (34 ∷ 44 ∷ s) ≡ after needle s
  unfolding quote_free
  after_comma s = after_stop 44 s (ground arith) refl

  after_name :
      (n s : Text)
      → clash k n ≡ true
      → quote_free n ≡ true
      → after needle (34 ∷ (n ++ s)) ≡ after needle s
  after_name n s h q =
      let none_here =
        after-none (k ++ (34 ∷ 58 ∷ m)) (n ++ s) (strip-clash k (34 ∷ 58 ∷ m) n s h) in
      none_here ∙ after_free (k ++ (34 ∷ 58 ∷ m)) n s q

  after_value :
      (v s : Text) → quote_free v ≡ true → after needle (34 ∷ (v ++ (34 ∷ 44 ∷ s))) ≡ after needle s
  after_value v s q =
      let none_here =
        after-none (k ++ (34 ∷ 58 ∷ m)) (v ++ (34 ∷ 44 ∷ s))
          (strip_value k v m s (ground arith) q) in
      none_here ∙ after_free (k ++ (34 ∷ 58 ∷ m)) v (34 ∷ 44 ∷ s) q ∙ after_comma s

  after_field :
      (f : Field) (s : Text)
      → misses k f ≡ true
      → after needle (34 ∷ (key_of f ++ (mark_of f ++ value_of f (44 ∷ s)))) ≡ after needle s
  unfolding quote_free
  after_field (str n v p) s h = rw (json_escape_plain v p) (
      after_name n (34 ∷ 58 ∷ 34 ∷ (v ++ (34 ∷ 44 ∷ s))) (ground arith) (ground arith)
      ∙ after_colon (34 ∷ (v ++ (34 ∷ 44 ∷ s)))
      ∙ after_value v s (plain-free v p))
  after_field (num n x) s h =
      after_name n (34 ∷ 58 ∷ (to_string x ++ (44 ∷ s))) (ground arith) (ground arith)
      ∙ after_colon (to_string x ++ (44 ∷ s))
      ∙ after_free (k ++ (34 ∷ 58 ∷ m)) (to_string x) (44 ∷ s) (to_string-free x)
      ∙ after_free (k ++ (34 ∷ 58 ∷ m)) (44 ∷ []) s refl

  after_fields :
      (pre : List Field) (f : Field) (post : List Field)
      → all_of (misses k) pre ≡ true
      → after needle (body_of (pre ++ (f ∷ post))) ≡ after needle (body_of (f ∷ post))
  after_fields [] f post h = refl
  after_fields (g ∷ []) f post h = after_field g (body_of (f ∷ post)) (ground arith)
  after_fields (g ∷ x ∷ gs) f post h =
      after_field g (body_of (x ∷ (gs ++ (f ∷ post)))) (ground arith)
      ∙ after_fields (x ∷ gs) f post (ground arith)

  -- The search for a key stops at the first field that has it, whatever the values in front are.
  pub after_find :
      (c : ℕ) (pre : List Field) (f : Field) (post : List Field)
      → quote_free (c ∷ []) ≡ true
      → all_of (misses k) pre ≡ true
      → after needle (text_of c (pre ++ (f ∷ post))) ≡ after needle (body_of (f ∷ post))
  after_find c [] f post q h = after_free (k ++ (34 ∷ 58 ∷ m)) (c ∷ []) (body_of (f ∷ post)) q
  after_find c (g ∷ gs) f post q h =
      after_free (k ++ (34 ∷ 58 ∷ m)) (c ∷ []) (body_of (g ∷ (gs ++ (f ∷ post)))) q
      ∙ after_fields (g ∷ gs) f post h

-- A text the writer leaves as it is, found again.
pub find_string :
    (c : ℕ) (k v : Text) (p : is_plain v ≡ true) (pre post : List Field)
    → is_key k ≡ true
    → quote_free (c ∷ []) ≡ true
    → all_of (misses k) pre ≡ true
    → json_extract_string (text_of c (pre ++ (str k v p ∷ post))) k ≡ some v
unfolding json_extract_string strip
find_string c k v p pre post key q h =
    let there = after_find k (34 ∷ []) key c pre (str k v p) post q h in
    let here =
      after_hit k (34 ∷ 58 ∷ 34 ∷ []) (34 ∷ 58 ∷ 34 ∷ (json_escape v ++ (34 ∷ text_of 44 post)))
        (json_escape v ++ (34 ∷ text_of 44 post)) refl in
    let whole : read_string (some (json_escape v ++ (34 ∷ text_of 44 post))) ≡ some v =
      rw (json_escape_plain v p) (
        rw (until_quote-free v (text_of 44 post) (plain-free v p), read_string)
          (ap some (unescape_plain v p))) in
    ap read_string (there ∙ here) ∙ whole

pub find_int :
    (c n : ℕ) (k : Text) (pre post : List Field)
    → is_key k ≡ true
    → quote_free (c ∷ []) ≡ true
    → all_of (misses k) pre ≡ true
    → json_extract_int (text_of c (pre ++ (num k n ∷ post))) k
      ≡ read_int (some (to_string n ++ text_of 44 post))
unfolding json_extract_int strip
find_int c n k pre post key q h =
    let there = after_find k [] key c pre (num k n) post q h in
    let here =
      after_hit k (34 ∷ 58 ∷ []) (34 ∷ 58 ∷ (to_string n ++ text_of 44 post))
        (to_string n ++ text_of 44 post) refl in
    ap read_int (there ∙ here)
