-- ===== src/Persistence/Store/Atomic.antt =====
-- Saving a plan in src/persistence/sqlite_assignment_store.cpp, with what SQLite documents of
-- transactions and of the statements on plans and stages.
use socrates.Prelude.{
  ℕ, ◌≡◌, refl, sym, ap, subst, ◌∙◌, Bool, true, not, Option, none, some, List, [], ◌∷◌, ◌++◌, map,
  Text, text_eq, if◌then◌else◌, ◌⊎◌, inl, inr, Option-cases,
}
use mathlib.Core.List.{append-nil, append_assoc}
use socrates.Types.{Result, ok, err, internal}
use socrates.Scheduler.{PipelinePlan, StageAssignment}
use socrates.Persistence.Store.{
  PlanRow, StageRow, Sqlite, Outcome, rolled_back, or_roll_back, plan_row, stage_row, insert_stages,
  save_open, save_plan,
}

-- The tables of plans and stages.
pub record Content : Type 0 where
  pub plans : List PlanRow
  pub stages : List StageRow

abbrev pub keep_if {ℓ} : {A : Type ℓ} → (A → Bool) → List A → List A
keep_if p [] = []
keep_if p (x ∷ xs) = let rest = keep_if p xs in if p x then x ∷ rest else rest

-- `INSERT OR REPLACE`: the plan's id is the key.
abbrev pub put_plan : PlanRow → Content → Content
put_plan row c = record c {
  plans = keep_if (λ p. not (text_eq p.plan_id row.plan_id)) c.plans ++ (row ∷ []);
}

abbrev pub drop_stages : Text → Content → Content
drop_stages id c = record c { stages = keep_if (λ s. not (text_eq s.plan_id id)) c.stages }

abbrev pub add_stages : List StageRow → Content → Content
add_stages found c = record c { stages = c.stages ++ found }

-- `Open d before`: in `d` a transaction is open that began at `before`.
pub record Transactions {Db : Type 0} (sql : Sqlite Db) (content : Db → Content)
    (Open : Db → Content → Type 0) : Type 0 where
  pub begun :
      (db d : Db)
      → sql.begin_transaction db ≡ some d
      → Open d (content db) × (content d ≡ content db)
  pub put :
      (d after : Db) (before : Content) (row : PlanRow)
      → Open d before
      → sql.insert_plan d row ≡ some after
      → Open after before × (content after ≡ put_plan row (content d))
  pub dropped :
      (d after : Db) (before : Content) (id : Text)
      → Open d before
      → sql.delete_stages d id ≡ some after
      → Open after before × (content after ≡ drop_stages id (content d))
  pub added :
      (d after : Db) (before : Content) (row : StageRow)
      → Open d before
      → sql.insert_stage d row ≡ some after
      → Open after before × (content after ≡ add_stages (row ∷ []) (content d))
  pub committed :
      (d after : Db) (before : Content)
      → Open d before
      → sql.commit d ≡ some after
      → content after ≡ content d
  pub undone :
      (d : Db) (before : Content)
      → Open d before
      → (after : Db) × (sql.rollback d ≡ some after) × (content after ≡ before)

-- The tables with a plan in place of the one of its id.
abbrev pub with_plan : ℕ → PipelinePlan → Content → Content
with_plan ticks plan c =
    add_stages (map (stage_row plan) plan.stages)
      (drop_stages plan.plan_id (put_plan (plan_row ticks plan) c))

module _ {Db : Type 0} (sql : Sqlite Db) (content : Db → Content) (Open : Db → Content → Type 0)
    (laws : Transactions sql content Open) where
  -- All of a change, or nothing of it.
  abbrev pub AllOrNothing : Content → Content → Result Bool × Db → Type 0
  AllOrNothing all before (result, db) =
      ((result ≡ ok true) × (content db ≡ all)) ⊎ ((result ≡ err internal) × (content db ≡ before))

  rolled_back-content :
      (d : Db) (before : Content) → Open d before → content (rolled_back sql d) ≡ before
  rolled_back-content d before o =
      let (after, e, same) = laws.undone d before o in rw (e, rolled_back) same

  or_roll_back-AllOrNothing :
      (all before : Content) (d : Db)
      → Open d before
      → (step : Option Db) (next : Db → Outcome sql)
      → ((after : Db) → step ≡ some after → AllOrNothing all before (next after))
      → AllOrNothing all before (or_roll_back sql d step next)
  or_roll_back-AllOrNothing all before d o none next goes_on =
      inr (refl, rolled_back-content d before o)
  or_roll_back-AllOrNothing all before d o (some after) next goes_on = goes_on after refl

  insert_stages-AllOrNothing :
      (plan : PipelinePlan) (stages : List StageAssignment) (before : Content) (d : Db)
      → Open d before
      → AllOrNothing
          (add_stages (map (stage_row plan) stages) (content d))
          before
          (insert_stages sql plan stages d)
  unfolding insert_stages
  insert_stages-AllOrNothing plan [] before d o =
      or_roll_back-AllOrNothing (add_stages [] (content d)) before d o (sql.commit d)
        (λ done. (ok true, done))
        (λ after e. inl (
          refl,
          laws.committed d after before o e
              ∙ ap (λ l. record (content d) { stages = l }) (sym (append-nil (content d).stages)),
        ))
  insert_stages-AllOrNothing plan (s ∷ stages) before d o =
      let all = add_stages (map (stage_row plan) (s ∷ stages)) (content d) in
      or_roll_back-AllOrNothing all before d o (sql.insert_stage d (stage_row plan s))
        (insert_stages sql plan stages)
        (λ after e.
          let (still, row) = laws.added d after before (stage_row plan s) o e in
          let same : add_stages (map (stage_row plan) stages) (content after) ≡ all =
            ap (add_stages (map (stage_row plan) stages)) row
            ∙ ap (λ l. record (content d) { stages = l })
                (append_assoc (content d).stages (stage_row plan s ∷ [])
                  (map (stage_row plan) stages)) in
          subst (λ c. AllOrNothing c before (insert_stages sql plan stages after)) same
            (insert_stages-AllOrNothing plan stages before after still))

  abbrev in_transaction : ℕ → PipelinePlan → Db → Outcome sql
  in_transaction ticks plan d₁ =
      or_roll_back sql d₁ (sql.insert_plan d₁ (plan_row ticks plan)) (λ d₂.
        or_roll_back sql d₂ (sql.delete_stages d₂ plan.plan_id)
          (insert_stages sql plan plan.stages))

  begun-AllOrNothing :
      (ticks : ℕ) (plan : PipelinePlan) (before : Content) (d : Db)
      → Open d before
      → AllOrNothing (with_plan ticks plan (content d)) before (in_transaction ticks plan d)
  begun-AllOrNothing ticks plan before d o =
      let all = with_plan ticks plan (content d) in
      let id = plan.plan_id in
      let found = map (stage_row plan) plan.stages in
      or_roll_back-AllOrNothing all before d o (sql.insert_plan d (plan_row ticks plan))
        (λ d₂. or_roll_back sql d₂ (sql.delete_stages d₂ id) (insert_stages sql plan plan.stages))
        (λ d₂ e₂.
          let (o₂, c₂) = laws.put d d₂ before (plan_row ticks plan) o e₂ in
          or_roll_back-AllOrNothing all before d₂ o₂ (sql.delete_stages d₂ id)
            (insert_stages sql plan plan.stages)
            (λ d₃ e₃.
              let (o₃, c₃) = laws.dropped d₂ d₃ before id o₂ e₃ in
              let same : add_stages found (content d₃) ≡ all =
                ap (add_stages found) (c₃ ∙ ap (drop_stages id) c₂) in
              subst (λ c. AllOrNothing c before (insert_stages sql plan plan.stages d₃)) same
                (insert_stages-AllOrNothing plan plan.stages before d₃ o₃)))

  save_open-AllOrNothing :
      (ticks : ℕ) (plan : PipelinePlan) (db : Db)
      → AllOrNothing (with_plan ticks plan (content db)) (content db) (save_open sql ticks plan db)
  save_open-AllOrNothing ticks plan db = elim (Option-cases (sql.begin_transaction db)) [
    | inl e ↦ rw (e, save_open) (inr (refl, refl))
    | inr (d, e) ↦
        let (o, same) = laws.begun db d e in
        let body = begun-AllOrNothing ticks plan (content db) d o in
        rw (e, save_open)
          (subst
            (λ c. AllOrNothing (with_plan ticks plan c) (content db) (in_transaction ticks plan d))
            same body)
  ]

  -- Saving a plan into an open database changes the tables as a whole or not at all: either the call
  -- succeeds, and they have the plan and its stages in place of what they had under its id, or it fails
  -- with an internal error, and they are as before.
  pub save_plan-AllOrNothing :
      (ticks : ℕ) (plan : PipelinePlan) (db : Db)
      → (after : Db) × (result : Result Bool) × (save_plan sql ticks plan (some db)
          ≡ (result, some after))
        × AllOrNothing (with_plan ticks plan (content db)) (content db) (result, after)
  unfolding save_plan
  save_plan-AllOrNothing ticks plan db =
      let out = save_open sql ticks plan db in
      (out.1, out.0, refl, save_open-AllOrNothing ticks plan db)
