-- ===== src/Tests/Store.antt =====
-- The store of plans and tokens over a database in memory.
use socrates.Prelude.{
  ℕ, ◌≡◌, refl, sym, ap, subst, Bool, Option, none, some, List, [], ◌∷◌, if◌then◌else◌, is_empty,
  Text, text, text_eq, arith, Bool-cases, inl, inr,
}
use socrates.Types.{Result, ok, err, internal, int8, llama_cpp}
use socrates.Scheduler.{PipelinePlan, StageAssignment}
use socrates.Pipeline.{TokenRecord}
use socrates.Persistence.Store.{
  Sqlite, rows, StageRow, stage_of, insert_stages, append_token, load_token_history,
  erase_token_history, save_plan,
}
use socrates.Persistence.Store.Rows.{insert_row, last_position, rows_from, limit}
use socrates.Persistence.Store.History.{
  TokenTable, Call, append, run_calls, Consecutive, load_token_history-Consecutive,
}
use socrates.Persistence.Store.Atomic.{
  Content, put_plan, drop_stages, add_stages, Transactions, with_plan, AllOrNothing,
  save_plan-AllOrNothing,
}
use socrates.Tests.Persistence.{plan}

record Memory : Type 0 where
  content : Content
  saved : Option Content
  tokens : Text → List (ℕ × ℕ)

abbrev undo : Memory → Option Content → Option Memory
undo d none = none
undo d (some c) = some (record d { content = c; saved = none })

-- A stage without a node is refused.
abbrev sqlite : Sqlite Memory
sqlite = record {
  begin_transaction = λ d. some (record d { saved = some d.content });
  commit = λ d. some (record d { saved = none });
  rollback = λ d. undo d d.saved;
  insert_plan = λ d row. some (record d { content = put_plan row d.content });
  delete_stages = λ d id. some (record d { content = drop_stages id d.content });
  insert_stage = λ d row.
      if is_empty row.node_id
      then none
      else some (record d { content = add_stages (row ∷ []) d.content });
  select_plan_json = λ d m r. rows [];
  select_stages = λ d id. rows d.content.stages;
  select_assignment = λ d n m r. rows [];
  max_position = λ d r. rows (last_position (d.tokens r) ∷ []);
  insert_token = λ d t. some (record d {
    tokens = λ r.
        if text_eq t.request_id r
        then insert_row t.position t.token_id (d.tokens r)
        else d.tokens r;
  });
  select_tokens = λ d r start count. rows (limit count (rows_from start (d.tokens r)));
  delete_tokens = λ d id. some (record d { tokens = λ r. if text_eq id r then [] else d.tokens r });
}

some-injective {ℓ} : {A : Type ℓ} {a b : A} → some a ≡ some b → a ≡ b
some-injective h = cc

rows-injective {ℓ} : {A : Type ℓ} {a b : List A} → rows a ≡ rows b → a ≡ b
rows-injective h = cc

first_row {ℓ} : {A : Type ℓ} {a b : A} {as' bs : List A} → a ∷ as' ≡ b ∷ bs → a ≡ b
first_row h = cc

table : TokenTable sqlite (λ d. d.tokens)
table = record {
  greatest = λ d r m more e. sym (first_row (rows-injective e));
  inserted = λ d after t r e. sym (ap (λ m. m.tokens r) (some-injective e));
  selected = λ d r start count found e. sym (rows-injective e);
  deleted = λ d after id r e. sym (ap (λ m. m.tokens r) (some-injective e));
}

abbrev Open : Memory → Content → Type 0
Open d before = d.saved ≡ some before

added :
    (d after : Memory) (before : Content) (row : StageRow)
    → Open d before
    → sqlite.insert_stage d row ≡ some after
    → Open after before × (after.content ≡ add_stages (row ∷ []) d.content)
added d after before row o e = elim (Bool-cases (is_empty row.node_id)) [
  | inl h ↦ let x = rw h at e in absurd (cc)
  | inr h ↦
      let same = some-injective (rw h at e) in
      subst (λ m. Open m before × (m.content ≡ add_stages (row ∷ []) d.content)) same (o, refl)
]

transactions : Transactions sqlite (λ d. d.content) Open
transactions = record {
  begun = λ db d e.
      subst (λ m. Open m db.content × (m.content ≡ db.content)) (some-injective e) (refl, refl);
  put = λ d after before row o e.
      subst (λ m. Open m before × (m.content ≡ put_plan row d.content)) (some-injective e)
        (o, refl);
  dropped = λ d after before id o e.
      subst (λ m. Open m before × (m.content ≡ drop_stages id d.content)) (some-injective e)
        (o, refl);
  added = added;
  committed = λ d after before o e. subst (λ m. m.content ≡ d.content) (some-injective e) refl;
  undone = λ d before o. (record d { content = before; saved = none }, rw o refl, refl);
}

abbrev memory : Memory
memory = record { content = record { plans = []; stages = [] }; saved = none; tokens = λ r. [] }

abbrev token : ℕ → ℕ → TokenRecord
token n id = record { request_id = text "r"; session_id = text "s"; position = n; token_id = id }

abbrev calls : List Call
calls = append (token 4 40) ∷ append (token 5 50) ∷ append (token 9 90) ∷ append (token 6 60) ∷ []

abbrev loaded : List TokenRecord
loaded = record (token 5 50) { session_id = [] } ∷ record (token 6 60) { session_id = [] } ∷ []

-- The token that leaves a gap is refused, and the next one is not.
history :
    load_token_history sqlite (text "r") 5 10 (run_calls sqlite calls (some memory)) ≡ ok loaded
unfolding load_token_history run_calls append_token erase_token_history last_position insert_row
    rows_from text_eq
history = refl

load_token_history-Consecutive_example : Consecutive (text "r") 5 10 loaded
load_token_history-Consecutive_example =
    load_token_history-Consecutive sqlite (λ d. d.tokens) table (λ d r h. cc) calls (some memory)
      (text "r") 5 10 loaded refl (λ r. (0, tt)) (omega arith) (omega arith) history

abbrev stage : Text → StageAssignment
stage node = stage_of (record {
  plan_id = [];
  model_id = [];
  ordinal = 0;
  node_id = node;
  shard_id = text "s";
  backend_kind = llama_cpp;
  quantization_kind = int8;
  reserved_memory_bytes = 1;
  estimated_stage_microseconds = 0;
})

abbrev staged : PipelinePlan
staged = record plan { stages = stage (text "n") ∷ stage [] ∷ [] }

-- The second stage is refused, so nothing is saved.
save_plan-AllOrNothing_example :
    (after : Memory) × (result : Result Bool) × (save_plan sqlite 1000 staged (some memory)
      ≡ (result, some after))
    × AllOrNothing sqlite
        (λ d. d.content)
        Open
        transactions
        (with_plan 1000 staged memory.content)
        memory.content
        (result, after)
save_plan-AllOrNothing_example =
    save_plan-AllOrNothing sqlite (λ d. d.content) Open transactions 1000 staged memory

not_saved : save_plan sqlite 1000 staged (some memory) ≡ (err internal, some memory)
unfolding save_plan insert_stages
not_saved = refl
