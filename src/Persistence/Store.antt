-- ===== src/Persistence/Store.antt =====
-- `SqliteAssignmentStore` of src/persistence/sqlite_assignment_store.cpp over the statements that it runs.
-- SQLite is a parameter: `Db` is the database behind the handle, and each statement of the source is a
-- field. An integer column holds the bits of an `std::int64_t`, a kind its code.
pub mod Rows
pub mod History
pub mod Atomic
use socrates.Prelude.{
  ℕ, ◌+◌, ◌/◌, ◌%◌, ◌^◌, Bool, true, Option, none, some, List, [], ◌∷◌, ◌++◌, map, if◌then◌else◌,
  ◌==◌, Text,
}
use socrates.Types.{Result, ok, err, data_loss, internal, QuantizationKind, BackendKind, Double}
use socrates.Scheduler.{PipelinePlan, StageAssignment, transformer_layers}
use socrates.Pipeline.{TokenRecord}
use socrates.Persistence.Json.{plan_to_json, plan_from_json}

-- A query that SQLite does not prepare, or the rows that its steps give.
pub data Query {ℓ} (A : Type ℓ) : Type ℓ where
  refused : Query A
  rows : List A → Query A

pub record PlanRow : Type 0 where
  pub plan_id : Text
  pub model_id : Text
  pub manifest_revision : Text
  pub fence_term : ℕ
  pub fence_token : Text
  pub fence_membership_revision : ℕ
  pub issued_at_epoch_ms : ℕ
  pub valid_for_ms : ℕ
  pub plan_json : Text

pub record StageRow : Type 0 where
  pub plan_id : Text
  pub model_id : Text
  pub ordinal : ℕ
  pub node_id : Text
  pub shard_id : Text
  pub backend_kind : BackendKind
  pub quantization_kind : QuantizationKind
  pub reserved_memory_bytes : ℕ
  pub estimated_stage_microseconds : Double

pub record SavedAssignment : Type 0 where
  pub node_id : Text
  pub model_id : Text
  pub shard_id : Text
  pub manifest_revision : Text
  pub quantization : QuantizationKind
  pub backend : BackendKind

-- A write gives none if it is not prepared, or its step is not done.
pub record Sqlite (Db : Type 0) : Type 0 where
  pub begin_transaction : Db → Option Db
  pub commit : Db → Option Db
  pub rollback : Db → Option Db
  pub insert_plan : Db → PlanRow → Option Db
  pub delete_stages : Db → Text → Option Db
  pub insert_stage : Db → StageRow → Option Db
  pub select_plan_json : Db → Text → Text → Query Text
  pub select_stages : Db → Text → Query StageRow
  pub select_assignment : Db → Text → Text → Text → Query SavedAssignment
  pub max_position : Db → Text → Query (Option ℕ)
  pub insert_token : Db → TokenRecord → Option Db
  pub select_tokens : Db → Text → ℕ → ℕ → Query (ℕ × ℕ)
  pub delete_tokens : Db → Text → Option Db

-- A database that is not open.
abbrev pub when_open {ℓ} : {Db : Type 0} {A : Type ℓ} → A → (Db → A) → Option Db → A
when_open closed opened none = closed
when_open closed opened (some db) = opened db

abbrev pub plan_row : ℕ → PipelinePlan → PlanRow
plan_row ticks plan = record {
  plan_id = plan.plan_id;
  model_id = plan.model_id;
  manifest_revision = plan.manifest_revision;
  fence_term = plan.fence.term;
  fence_token = plan.fence.token;
  fence_membership_revision = plan.fence.membership_revision;
  issued_at_epoch_ms = plan.issued_at_utc / ticks;
  valid_for_ms = plan.valid_for;
  plan_json = plan_to_json ticks plan;
}

abbrev pub stage_row : PipelinePlan → StageAssignment → StageRow
stage_row plan s = record {
  plan_id = plan.plan_id;
  model_id = plan.model_id;
  ordinal = s.ordinal;
  node_id = s.node_id;
  shard_id = s.shard_id;
  backend_kind = s.backend;
  quantization_kind = s.quantization;
  reserved_memory_bytes = s.reserved_memory_bytes;
  estimated_stage_microseconds = s.estimated_stage_microseconds;
}

-- What a stage's row does not have keeps its default.
abbrev pub stage_of : StageRow → StageAssignment
stage_of row = record {
  ordinal = row.ordinal;
  node_id = row.node_id;
  shard_id = row.shard_id;
  stage_ids = [];
  input_boundary_ids = [];
  output_boundary_ids = [];
  stage_kind = transformer_layers;
  layers = none;
  quantization = row.quantization_kind;
  backend = row.backend_kind;
  execution_profile_id = [];
  artifact = record { uri = []; sha256_hex = []; format = []; format_version = []; file_bytes = 0 };
  reserved_memory_bytes = row.reserved_memory_bytes;
  estimated_stage_microseconds = row.estimated_stage_microseconds;
}

abbrev pub load_stages : PipelinePlan → Query StageRow → Result (Option PipelinePlan)
load_stages plan refused = err internal
load_stages plan (rows stages) =
    ok (some (record plan { stages = plan.stages ++ map stage_of stages }))

-- A token may be the first one, or the next; the sum is of two `std::uint64_t`.
abbrev pub follows : List (Option ℕ) → ℕ → Bool
follows [] position = true
follows (none ∷ more) position = true
follows (some max_pos ∷ more) position = (max_pos + 1) % 2 ^ 64 == position

abbrev pub token_of : Text → ℕ × ℕ → TokenRecord
token_of request_id (position, token_id) = record {
  request_id = request_id;
  session_id = [];
  position = position;
  token_id = token_id;
}

abbrev pub read_tokens : Text → Query (ℕ × ℕ) → Result (List TokenRecord)
read_tokens request_id refused = err internal
read_tokens request_id (rows found) = ok (map (token_of request_id) found)

abbrev pub first_assignment : Query SavedAssignment → Result (Option SavedAssignment)
first_assignment refused = err internal
first_assignment (rows []) = ok none
first_assignment (rows (a ∷ more)) = ok (some a)

module _ {Db : Type 0} (sql : Sqlite Db) where
  abbrev pub Outcome : Type 0
  Outcome = Result Bool × Db

  -- The last statement of a call.
  abbrev pub finish : Db → Option Db → Outcome
  finish db none = (err internal, db)
  finish db (some after) = (ok true, after)

  -- A failing `ROLLBACK` is ignored.
  abbrev pub rolled_back : Db → Db
  rolled_back db = elim (sql.rollback db) [ none ↦ db | some before ↦ before ]

  -- `if (!…) { rollback(); return errmsg(); }`
  abbrev pub or_roll_back : Db → Option Db → (Db → Outcome) → Outcome
  or_roll_back db none next = (err internal, rolled_back db)
  or_roll_back db (some after) next = next after

  unfoldable pub insert_stages : PipelinePlan → List StageAssignment → Db → Outcome
  insert_stages plan [] db = or_roll_back db (sql.commit db) (λ done. (ok true, done))
  insert_stages plan (s ∷ stages) db =
      or_roll_back db (sql.insert_stage db (stage_row plan s)) (insert_stages plan stages)

  abbrev pub save_open : ℕ → PipelinePlan → Db → Outcome
  save_open ticks plan db = elim (sql.begin_transaction db) [
    | none ↦ (err internal, db)
    | some d₁ ↦
        or_roll_back d₁ (sql.insert_plan d₁ (plan_row ticks plan)) (λ d₂.
          or_roll_back d₂ (sql.delete_stages d₂ plan.plan_id) (insert_stages plan plan.stages))
  ]

  abbrev pub keep : Outcome → Result Bool × Option Db
  keep (result, db) = (result, some db)

  unfoldable pub save_plan : ℕ → PipelinePlan → Option Db → Result Bool × Option Db
  save_plan ticks plan = when_open (err internal, none) (λ db. keep (save_open ticks plan db))

  abbrev pub load_json : ℕ → Db → Query Text → Result (Option PipelinePlan)
  load_json ticks db refused = err internal
  load_json ticks db (rows []) = ok none
  load_json ticks db (rows (json ∷ more)) =
      load_stages (plan_from_json ticks json)
        (sql.select_stages db (plan_from_json ticks json).plan_id)

  unfoldable pub load_plan : ℕ → Text → Text → Option Db → Result (Option PipelinePlan)
  load_plan ticks model_id manifest_revision =
      when_open (ok none)
        (λ db. load_json ticks db (sql.select_plan_json db model_id manifest_revision))

  abbrev pub append_checked : Db → TokenRecord → Query (Option ℕ) → Outcome
  append_checked db token refused = (err internal, db)
  append_checked db token (rows found) =
      if follows found token.position
      then finish db (sql.insert_token db token)
      else (err data_loss, db)

  unfoldable pub append_token : TokenRecord → Option Db → Result Bool × Option Db
  append_token token =
      when_open (err internal, none)
        (λ db. keep (append_checked db token (sql.max_position db token.request_id)))

  unfoldable pub load_token_history : Text → ℕ → ℕ → Option Db → Result (List TokenRecord)
  load_token_history request_id start_position maximum_count =
      when_open (ok []) (λ db.
        read_tokens request_id (sql.select_tokens db request_id start_position maximum_count))

  unfoldable pub erase_token_history : Text → Option Db → Result Bool × Option Db
  erase_token_history request_id =
      when_open (err internal, none) (λ db. keep (finish db (sql.delete_tokens db request_id)))

  unfoldable pub find : Text → Text → Text → Option Db → Result (Option SavedAssignment)
  find node_id model_id manifest_revision =
      when_open (ok none)
        (λ db. first_assignment (sql.select_assignment db node_id model_id manifest_revision))
