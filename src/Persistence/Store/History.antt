-- ===== src/Persistence/Store/History.antt =====
-- The tokens that src/persistence/sqlite_assignment_store.cpp keeps for a request, with what SQLite
-- documents of the statements on their table.
use socrates.Prelude.{
  ℕ, zero, suc, ◌^◌, ◌<◌, ◌≤◌, ◌≡◌, ◌≢◌, refl, sym, ap, subst, ◌∙◌, Bool, true, Option, none, some,
  List, [], ◌∷◌, map, length, take, if◌then◌else◌, ltb, Text, text_eq, text_eq→eq, all_of, arith,
  Bool-cases, Option-cases, ◌⊎◌, inl, inr,
}
use socrates.Types.{ok, ok-injective}
use socrates.Pipeline.{TokenRecord}
use socrates.Persistence.Store.{
  Query, refused, rows, Sqlite, append_token, load_token_history, erase_token_history, token_of,
  read_tokens, follows,
}
use socrates.Persistence.Store.Rows.{
  insert_row, last_position, rows_from, limit, IsRun, Contiguous, append-Contiguous,
  rows_from-IsRun,
}

-- The rows of a request by position, and what the statements make of them.
pub record TokenTable {Db : Type 0} (sql : Sqlite Db) (tokens : Db → Text → List (ℕ × ℕ))
    : Type 0 where
  pub greatest :
      (db : Db) (r : Text) (m : Option ℕ) (more : List (Option ℕ))
      → sql.max_position db r ≡ rows (m ∷ more)
      → m ≡ last_position (tokens db r)
  pub inserted :
      (db after : Db) (t : TokenRecord) (r : Text)
      → sql.insert_token db t ≡ some after
      → tokens after r ≡ (
          if text_eq t.request_id r
          then insert_row t.position t.token_id (tokens db r)
          else tokens db r)
  pub selected :
      (db : Db) (r : Text) (start count : ℕ) (found : List (ℕ × ℕ))
      → sql.select_tokens db r start count ≡ rows found
      → found ≡ limit count (rows_from start (tokens db r))
  pub deleted :
      (db after : Db) (id r : Text)
      → sql.delete_tokens db id ≡ some after
      → tokens after r ≡ (if text_eq id r then [] else tokens db r)

-- No step of the query for the greatest position fails. One that does gives no row, as no other query
-- for a maximum does.
abbrev pub StepsMax : {Db : Type 0} → Sqlite Db → Type 0
StepsMax {Db} sql = (db : Db) (r : Text) → sql.max_position db r ≢ rows []

follows_first :
    (m : Option ℕ) (more : List (Option ℕ)) (p : ℕ)
    → follows (m ∷ more) p ≡ true
    → follows (m ∷ []) p ≡ true
follows_first none more p h = refl
follows_first (some n) more p h = h

follows_last :
    (found : List (Option ℕ)) (top : Option ℕ) (p : ℕ)
    → found ≢ []
    → ((m : Option ℕ) (more : List (Option ℕ)) → found ≡ m ∷ more → m ≡ top)
    → follows found p ≡ true
    → follows (top ∷ []) p ≡ true
follows_last [] top p given law h = absurd (given refl)
follows_last (m ∷ more) top p given law h =
    subst (λ x. follows (x ∷ []) p ≡ true) (law m more refl) (follows_first m more p h)

query-cases : {A : Type 0} (q : Query A) → (q ≡ refused) ⊎ ((l : List A) × (q ≡ rows l))
query-cases refused = inl refl
query-cases (rows l) = inr (l, refl)

pub data Call : Type 0 where
  append : TokenRecord → Call
  erase : Text → Call

abbrev pub in_range : Call → Bool
in_range (append t) = ltb t.position (2 ^ 63)
in_range (erase id) = true

-- The tokens of a request at consecutive positions.
abbrev pub From : Text → ℕ → List TokenRecord → Type 0
From r n [] = Unit
From r n (t ∷ found) = (t.request_id ≡ r) × (t.position ≡ n) × From r (suc n) found

pub record Consecutive (r : Text) (start count : ℕ) (found : List TokenRecord) : Type 0 where
  pub positions : (n : ℕ) × (start ≤ n) × From r n found
  pub bounded : length found ≤ count

take-From :
    (r : Text) (n count : ℕ) (found : List (ℕ × ℕ))
    → IsRun n found
    → From r n (map (token_of r) (take count found))
      × (length (map (token_of r) (take count found)) ≤ count)
take-From r n zero found run = (tt, omega arith)
take-From r n (suc count) [] run = (tt, omega arith)
take-From r n (suc count) ((q, u) ∷ found) run =
    let rest = take-From r (suc n) count found run.2 in
    ((refl, run.0, rest.0), omega (arith, rest.1))

read-Consecutive :
    (r : Text) (start count : ℕ) (table : List (ℕ × ℕ))
    → Contiguous table
    → start < 2 ^ 63
    → count < 2 ^ 31
    → (q : Query (ℕ × ℕ))
    → ((l : List (ℕ × ℕ)) → q ≡ rows l → l ≡ limit count (rows_from start table))
    → (found : List TokenRecord) → read_tokens r q ≡ ok found
    → Consecutive r start count found
read-Consecutive r start count table (n, run) s c refused law found e = absurd (cc)
read-Consecutive r start count table (n, run) s c (rows l) law found e =
    let (m, le, part) = rows_from-IsRun start n table s run in
    let few : ltb count (2 ^ 31) ≡ true = ground arith in
    let whole : l ≡ take count (rows_from start table) = rw few at (law l refl) in
    let end = take-From r m count (rows_from start table) part in
    subst (Consecutive r start count) (ap (map (token_of r)) (sym whole) ∙ ok-injective e)
      (record { positions = (m, le, end.0); bounded = end.1 })

module _ {Db : Type 0} (sql : Sqlite Db) where
  abbrev run_call : Call → Option Db → Option Db
  run_call (append t) store = (append_token sql t store).1
  run_call (erase id) store = (erase_token_history sql id store).1

  unfoldable pub run_calls : List Call → Option Db → Option Db
  run_calls [] store = store
  run_calls (call ∷ calls) store = run_calls calls (run_call call store)

module _ {Db : Type 0} (sql : Sqlite Db) (tokens : Db → Text → List (ℕ × ℕ))
    (laws : TokenTable sql tokens) (steps : StepsMax sql) where
  abbrev pub Kept : Option Db → Type 0
  Kept none = Unit
  Kept (some db) = (r : Text) → Contiguous (tokens db r)

  insert-Kept :
      (t : TokenRecord) (db after : Db)
      → t.position < 2 ^ 63
      → Kept (some db)
      → follows (last_position (tokens db t.request_id) ∷ []) t.position ≡ true
      → sql.insert_token db t ≡ some after
      → Kept (some after)
  insert-Kept t db after small kept next e r = elim (Bool-cases (text_eq t.request_id r)) [
    | inl same ↦
        let row = rw same at (laws.inserted db after t r e) in
        let here =
          subst (λ x. follows (last_position (tokens db x) ∷ []) t.position ≡ true)
            (text_eq→eq t.request_id r same) next in
        subst Contiguous (sym row)
          (append-Contiguous t.position t.token_id (tokens db r) (kept r) small here)
    | inr other ↦
        let row = rw other at (laws.inserted db after t r e) in subst Contiguous (sym row) (kept r)
  ]

  append-Kept :
      (t : TokenRecord) (store : Option Db)
      → t.position < 2 ^ 63
      → Kept store
      → Kept (append_token sql t store).1
  unfolding append_token
  append-Kept t none small kept = tt
  append-Kept t (some db) small kept = elim (query-cases (sql.max_position db t.request_id)) [
    | inl e ↦ rw (e, append_token) kept
    | inr (found, e) ↦ elim (Bool-cases (follows found t.position)) [
      | inl next ↦
          let top =
            follows_last found (last_position (tokens db t.request_id)) t.position
              (λ h. steps db t.request_id (e ∙ ap rows h))
              (λ m more h. laws.greatest db t.request_id m more (e ∙ ap rows h)) next in
          elim (Option-cases (sql.insert_token db t)) [
            | inl i ↦ rw (e, next, i, append_token) kept
            | inr (after, i) ↦
                rw (e, next, i, append_token) (insert-Kept t db after small kept top i)
          ]
      | inr gap ↦ rw (e, gap, append_token) kept
    ]
  ]

  delete-Contiguous :
      (id : Text) (db after : Db)
      → Kept (some db)
      → sql.delete_tokens db id ≡ some after
      → Kept (some after)
  delete-Contiguous id db after kept e r = elim (Bool-cases (text_eq id r)) [
    | inl same ↦
        let row = rw same at (laws.deleted db after id r e) in subst Contiguous (sym row) (0, tt)
    | inr other ↦
        let row = rw other at (laws.deleted db after id r e) in subst Contiguous (sym row) (kept r)
  ]

  erase-Kept :
      (id : Text) (store : Option Db) → Kept store → Kept (erase_token_history sql id store).1
  unfolding erase_token_history
  erase-Kept id none kept = tt
  erase-Kept id (some db) kept = elim (Option-cases (sql.delete_tokens db id)) [
    | inl e ↦ rw (e, erase_token_history) kept
    | inr (after, e) ↦ rw (e, erase_token_history) (λ r. delete-Contiguous id db after kept e r)
  ]

  run_calls-Kept :
      (calls : List Call) (store : Option Db)
      → all_of in_range calls ≡ true
      → Kept store
      → Kept (run_calls sql calls store)
  unfolding run_calls
  run_calls-Kept [] store fits kept = kept
  run_calls-Kept (append t ∷ calls) store fits kept =
      run_calls-Kept calls (append_token sql t store).1 (ground (arith))
        (append-Kept t store (ground arith) kept)
  run_calls-Kept (erase id ∷ calls) store fits kept =
      run_calls-Kept calls (erase_token_history sql id store).1 (ground (arith))
        (erase-Kept id store kept)

  load-Consecutive :
      (store : Option Db) (r : Text) (start count : ℕ) (found : List TokenRecord)
      → Kept store
      → start < 2 ^ 63
      → count < 2 ^ 31
      → load_token_history sql r start count store ≡ ok found
      → Consecutive r start count found
  unfolding load_token_history
  load-Consecutive none r start count found kept s c e =
      subst (Consecutive r start count) (ok-injective e)
        (record { positions = (start, omega arith, tt); bounded = omega arith })
  load-Consecutive (some db) r start count found kept s c e =
      read-Consecutive r start count (tokens db r) (kept r) s c (sql.select_tokens db r start count)
        (laws.selected db r start count) found e

  -- As long as no step of the query for the greatest position fails: after any appends of tokens at
  -- positions below 2^63 and any erasures, on a database whose rows had no gap before, a history that is loaded has the tokens of its request at consecutive positions, none
  -- before the one asked for, and no more of them than asked for.
  pub load_token_history-Consecutive :
      (calls : List Call) (store : Option Db) (r : Text) (start count : ℕ)
      (found : List TokenRecord)
      → all_of in_range calls ≡ true
      → Kept store
      → start < 2 ^ 63
      → count < 2 ^ 31
      → load_token_history sql r start count (run_calls sql calls store) ≡ ok found
      → Consecutive r start count found
  load_token_history-Consecutive calls store r start count found fits kept =
      load-Consecutive (run_calls sql calls store) r start count found
        (run_calls-Kept calls store fits kept)
