-- ===== src/Tests/Manifest.antt =====
-- Manifests of a JSON in which an object is a manifest that only its id tells apart.
use socrates.Prelude.{
  ℕ, ◌≡◌, refl, Bool, true, false, Option, none, some, List, [], ◌∷◌, Text, text, text_eq, find_key,
  set_key, is_some,
}
use socrates.Types.{ok, err, already_exists}
use socrates.Manifest.{ManifestSummary, Attempt, threw, done, Json, each}
use socrates.Manifest.Parse.{
  read_quantization, read_layers, read_artifact, read_shard_fields, read_shard, read_tensor,
  read_boundary, read_body, parse_manifest_json,
}
use socrates.Manifest.Index.{Index, make_key, resolve, publish, publish_all, resolve-published}

-- The values that occur.
data Value : Type 0 where
  null : Value
  string : Text → Value
  number : ℕ → Value
  array : Value
  manifest : Text → Value

abbrev member : Value → Text → Option Value
member (manifest id) key = find_key key (
    (text "modelId", string id)
    ∷ (text "version", string (text "1"))
    ∷ (text "totalTransformerLayers", number 32)
    ∷ (text "shards", array)
    ∷ [])
member null key = none
member (string s) key = none
member (number n) key = none
member array key = none

abbrev or_null : Option Value → Value
or_null none = null
or_null (some v) = v

abbrev is_text : Value → Bool
is_text (string s) = true
is_text null = false
is_text (number n) = false
is_text array = false
is_text (manifest id) = false

abbrev is_count : Value → Bool
is_count (number n) = true
is_count (string s) = false
is_count null = false
is_count array = false
is_count (manifest id) = false

abbrev is_list : Value → Bool
is_list array = true
is_list (number n) = false
is_list (string s) = false
is_list null = false
is_list (manifest id) = false

abbrev text_of : Value → Attempt Text
text_of (string s) = done s
text_of null = threw
text_of (number n) = threw
text_of array = threw
text_of (manifest id) = threw

abbrev count_of : Value → Attempt ℕ
count_of (number n) = done n
count_of (string s) = threw
count_of null = threw
count_of array = threw
count_of (manifest id) = threw

abbrev json : Json Value
json = record {
  contains = λ v key. is_some (member v key);
  at = λ v key. or_null (member v key);
  is_string = is_text;
  is_array = is_list;
  is_object = λ v. false;
  is_number = is_count;
  is_number_unsigned = is_count;
  is_boolean = λ v. false;
  elements = λ v. [];
  get_string = text_of;
  get_unsigned = count_of;
  get_signed = count_of;
  get_double = count_of;
  get_bool = λ v. threw;
}

program : Unit {0}
unfolding text_eq find_key set_key each read_quantization read_layers read_artifact
    read_shard_fields read_shard read_tensor read_boundary read_body parse_manifest_json resolve
    publish publish_all
program = tt

abbrev summary : Text → ManifestSummary
summary id = record {
  model_id = id;
  revision = text "1";
  total_layers = 32;
  shard_options = [];
  boundaries = [];
}

abbrev one : Index
one = (text "m/1", summary (text "m")) ∷ []

published :
    publish json [] (some (some (manifest (text "m")))) ≡ done (ok (summary (text "m")), one)
unfolding program
published = refl

there : resolve one (text "m") (text "1") ≡ ok (summary (text "m"))
unfolding program
there = refl

abbrev later : List (Option (Option Value))
later = some (some (manifest (text "n"))) ∷ none ∷ some none ∷ some (some null) ∷ []

-- Two ids with one key: the second manifest is refused.
refused_key :
    publish json
      ((make_key (text "m") (text "1"), summary []) ∷ [])
      (some (some (manifest (text "m"))))
    ≡ done (err already_exists, (make_key (text "m") (text "1"), summary []) ∷ [])
unfolding program
refused_key = refl

resolve-published_example :
    resolve (publish_all json later one) (text "m") (text "1") ≡ ok (summary (text "m"))
resolve-published_example =
    resolve-published json [] (some (some (manifest (text "m")))) (summary (text "m")) one later
      published
