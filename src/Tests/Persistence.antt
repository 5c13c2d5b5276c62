-- ===== src/Tests/Persistence.antt =====
-- The JSON of a plan.
use socrates.Prelude.{◌≡◌, refl, some, [], text, arith}
use socrates.Scheduler.{PipelinePlan}
use socrates.Pipeline.{digits, to_string}
use socrates.Persistence.Json.{
  json_escape, strip, after, until_quote, unescape, json_extract_string, plan_to_json,
  plan_from_json,
}
use socrates.Persistence.Json.Fields.{is_plain}
use socrates.Persistence.Json.RoundTrip.{plan_from_json-plan_to_json}

abbrev pub plan : PipelinePlan
plan = record {
  plan_id = text "plan-1";
  model_id = text "llama";
  manifest_revision = text "r2";
  fence = record { term = 3; token = text "t"; membership_revision = 12 };
  stages = [];
  boundaries = [];
  issued_at_utc = 1700000000123;
  valid_for = 60000;
}

-- Its JSON, with a clock of one thousand ticks in a millisecond.
plan_json :
    plan_to_json 1000 plan
    ≡ text
        "{\"plan_id\":\"plan-1\",\"model_id\":\"llama\",\"manifest_revision\":\"r2\",\"fence_term\":3,\"fence_token\":\"t\",\"fence_membership_revision\":12,\"issued_at_epoch_ms\":1700000000,\"valid_for_ms\":60000}"
unfolding plan_to_json json_escape digits to_string
plan_json = refl

plan_from_json-plan_to_json_example :
    plan_from_json 1000 (plan_to_json 1000 plan) ≡ record plan { issued_at_utc = 1700000000000 }
unfolding is_plain
plan_from_json-plan_to_json_example =
    plan_from_json-plan_to_json 1000 plan refl refl refl refl (omega arith) (omega arith)
      (omega arith) (omega arith)

-- A quote in a text ends it when it is read: the plan `a"b` comes back as `a\`.
quote_lost :
    json_extract_string (plan_to_json 1000 (record plan { plan_id = text "a\"b" })) (text "plan_id")
    ≡ some (text "a\\")
unfolding json_extract_string plan_to_json json_escape strip after until_quote unescape
quote_lost = refl
