-- ===== src/Persistence/Json/RoundTrip.antt =====
-- What src/persistence/sqlite_assignment_store.cpp reads of the JSON it writes for a plan.
use socrates.Prelude.{
  ℕ, ◌*◌, ◌/◌, ◌^◌, ◌<◌, true, ◌≡◌, refl, ◌∙◌, some, List, [], ◌∷◌, text, take, drop,
}
use socrates.Scheduler.{PipelinePlan}
use socrates.Persistence.Json.{json_extract_string, json_extract_int, plan_to_json, plan_from_json}
use socrates.Persistence.Json.Numbers.{read_int-to_string}
use socrates.Persistence.Json.Fields.{
  quote_free, is_plain, clash, Field, str, num, text_of, find_string, find_int,
}

module _ (ticks : ℕ) (p : PipelinePlan) (plan : is_plain p.plan_id ≡ true)
    (model : is_plain p.model_id ≡ true) (manifest : is_plain p.manifest_revision ≡ true)
    (token : is_plain p.fence.token ≡ true) where
  abbrev fields : List Field
  fields =
      str (text "plan_id") p.plan_id plan
      ∷ str (text "model_id") p.model_id model
      ∷ str (text "manifest_revision") p.manifest_revision manifest
      ∷ num (text "fence_term") p.fence.term
      ∷ str (text "fence_token") p.fence.token token
      ∷ num (text "fence_membership_revision") p.fence.membership_revision
      ∷ num (text "issued_at_epoch_ms") (p.issued_at_utc / ticks)
      ∷ num (text "valid_for_ms") p.valid_for
      ∷ []

  plan_to_json_lem : plan_to_json ticks p ≡ text_of 123 fields
  unfolding plan_to_json
  plan_to_json_lem = refl

  read_plan_id : json_extract_string (text_of 123 fields) (text "plan_id") ≡ some p.plan_id
  unfolding quote_free clash
  read_plan_id =
      find_string 123 (text "plan_id") p.plan_id plan (take 0 fields) (drop 1 fields) refl refl refl

  read_model_id : json_extract_string (text_of 123 fields) (text "model_id") ≡ some p.model_id
  unfolding quote_free clash
  read_model_id =
      find_string 123 (text "model_id") p.model_id model (take 1 fields) (drop 2 fields) refl refl
        refl

  read_manifest_revision :
      json_extract_string (text_of 123 fields) (text "manifest_revision") ≡ some p.manifest_revision
  unfolding quote_free clash
  read_manifest_revision =
      find_string 123 (text "manifest_revision") p.manifest_revision manifest (take 2 fields)
        (drop 3 fields) refl refl refl

  read_token : json_extract_string (text_of 123 fields) (text "fence_token") ≡ some p.fence.token
  unfolding quote_free clash
  read_token =
      find_string 123 (text "fence_token") p.fence.token token (take 4 fields) (drop 5 fields) refl
        refl refl

  read_term :
      p.fence.term < 2 ^ 63
      → json_extract_int (text_of 123 fields) (text "fence_term") ≡ some p.fence.term
  unfolding quote_free clash
  read_term h =
      find_int 123 p.fence.term (text "fence_term") (take 3 fields) (drop 4 fields) refl refl refl
      ∙ read_int-to_string p.fence.term (text_of 44 (drop 4 fields)) h refl

  read_membership_revision :
      p.fence.membership_revision < 2 ^ 63
      → json_extract_int (text_of 123 fields) (text "fence_membership_revision")
        ≡ some p.fence.membership_revision
  unfolding quote_free clash
  read_membership_revision h =
      find_int 123 p.fence.membership_revision (text "fence_membership_revision") (take 5 fields)
        (drop 6 fields) refl refl refl
      ∙ read_int-to_string p.fence.membership_revision (text_of 44 (drop 6 fields)) h refl

  read_issued_at :
      p.issued_at_utc / ticks < 2 ^ 63
      → json_extract_int (text_of 123 fields) (text "issued_at_epoch_ms")
        ≡ some (p.issued_at_utc / ticks)
  unfolding quote_free clash
  read_issued_at h =
      find_int 123 (p.issued_at_utc / ticks) (text "issued_at_epoch_ms") (take 6 fields)
        (drop 7 fields) refl refl refl
      ∙ read_int-to_string (p.issued_at_utc / ticks) (text_of 44 (drop 7 fields)) h refl

  read_valid_for :
      p.valid_for < 2 ^ 63
      → json_extract_int (text_of 123 fields) (text "valid_for_ms") ≡ some p.valid_for
  unfolding quote_free clash
  read_valid_for h =
      find_int 123 p.valid_for (text "valid_for_ms") (take 7 fields) (drop 8 fields) refl refl refl
      ∙ read_int-to_string p.valid_for (text_of 44 (drop 8 fields)) h refl

  -- A plan whose texts have no quote, backslash or newline and whose numbers are below 2^63 is read
  -- back from its JSON, without its stages and boundaries and with the time it was issued at rounded
  -- down to a whole millisecond.
  pub plan_from_json-plan_to_json :
      p.fence.term < 2 ^ 63
      → p.fence.membership_revision < 2 ^ 63
      → p.issued_at_utc / ticks < 2 ^ 63
      → p.valid_for < 2 ^ 63
      → plan_from_json ticks (plan_to_json ticks p)
        ≡ record p { stages = []; boundaries = []; issued_at_utc = p.issued_at_utc / ticks * ticks }
  unfolding plan_from_json
  plan_from_json-plan_to_json t r i v =
      rw
        (
          plan_to_json_lem,
          read_plan_id,
          read_model_id,
          read_manifest_revision,
          read_token,
          read_term t,
          read_membership_revision r,
          read_issued_at i,
          read_valid_for v,
          plan_from_json,
        )
        refl
