-- ===== src/Persistence/Json.antt =====
-- The JSON of a plan in src/persistence/sqlite_assignment_store.cpp, written and read by hand. A signed
-- 64-bit number that is read is its bit pattern; the times of a plan that is written are not negative.
pub mod Numbers
pub mod Fields
pub mod Escape
pub mod RoundTrip
use socrates.Prelude.{
  ℕ, zero, suc, ◌+◌, ◌-◌, ◌*◌, ◌/◌, ◌%◌, ◌^◌, Bool, true, false, not, ◌&&◌, ◌||◌, Option, none,
  some, List, [], ◌∷◌, ◌++◌, if◌then◌else◌, ltb, leb, ◌==◌, min, Text, text, is_empty,
}
use socrates.Types.{LeadershipFence}
use socrates.Scheduler.{PipelinePlan}
use socrates.Pipeline.{to_string}

abbrev pub quote : ℕ
quote = 34

abbrev pub backslash : ℕ
backslash = 92

abbrev pub escape_char : ℕ → Text
escape_char c =
    if c == quote
    then backslash ∷ quote ∷ []
    else if c == backslash
    then backslash ∷ backslash ∷ []
    else if c == 10
    then backslash ∷ 110 ∷ []
    else c ∷ []

unfoldable pub json_escape : Text → Text
json_escape [] = []
json_escape (c ∷ s) = escape_char c ++ json_escape s

-- What follows a text, if it begins with another one.
unfoldable pub strip : Text → Text → Option Text
strip [] s = some s
strip (n ∷ ns) [] = none
strip (n ∷ ns) (c ∷ cs) = let rest = strip ns cs in if n == c then rest else none

-- What follows the first occurrence.
unfoldable pub after : Text → Text → Option Text
after needle [] = strip needle []
after needle (c ∷ cs) =
    let later = after needle cs in
    elim (strip needle (c ∷ cs)) [ none ↦ later | some rest ↦ some rest ]

-- What stands before the next quote.
unfoldable pub until_quote : Text → Option Text
until_quote [] = none
until_quote (c ∷ cs) =
    let rest : Option Text = elim (until_quote cs) [ none ↦ none | some s ↦ some (c ∷ s) ] in
    if c == quote then some [] else rest

-- A backslash hides the character behind it, whatever it is.
unfoldable pub unescape : Text → Text
unescape [] = []
unescape (c ∷ []) = c ∷ []
unescape (c ∷ d ∷ s) =
    let hidden = d ∷ unescape s in
    let plain = c ∷ unescape (d ∷ s) in if c == backslash then hidden else plain

abbrev pub string_needle : Text → Text
string_needle key = quote ∷ (key ++ (quote ∷ 58 ∷ quote ∷ []))

abbrev pub int_needle : Text → Text
int_needle key = quote ∷ (key ++ (quote ∷ 58 ∷ []))

abbrev pub read_string : Option Text → Option Text
read_string none = none
read_string (some rest) = elim (until_quote rest) [ none ↦ none | some s ↦ some (unescape s) ]

unfoldable pub json_extract_string : Text → Text → Option Text
json_extract_string json key = read_string (after (string_needle key) json)

abbrev pub is_digit : ℕ → Bool
is_digit c = leb 48 c && leb c 57

unfoldable pub scan_digits : ℕ → Text → ℕ
scan_digits acc [] = acc
scan_digits acc (c ∷ cs) =
    let rest = scan_digits (acc * 10 + (c - 48)) cs in if is_digit c then rest else acc

abbrev pub unsigned : Text → Option ℕ
unsigned [] = none
unsigned (c ∷ cs) = if is_digit c then some (scan_digits 0 (c ∷ cs)) else none

abbrev pub clamp_negative : Option ℕ → Option ℕ
clamp_negative none = none
clamp_negative (some n) = some ((2 ^ 64 - min n (2 ^ 63)) % 2 ^ 64)

abbrev pub clamp_positive : Option ℕ → Option ℕ
clamp_positive none = none
clamp_positive (some n) = some (min n (2 ^ 63 - 1))

abbrev pub signed : Text → Option ℕ
signed [] = none
signed (c ∷ cs) =
    if c == 45
    then clamp_negative (unsigned cs)
    else if c == 43
    then clamp_positive (unsigned cs)
    else clamp_positive (unsigned (c ∷ cs))

unfoldable pub skip : (ℕ → Bool) → Text → Text
skip p [] = []
skip p (c ∷ cs) = let rest = skip p cs in if p c then rest else c ∷ cs

abbrev pub is_space : ℕ → Bool
is_space c = c == 32 || leb 9 c && leb c 13

abbrev pub is_blank : ℕ → Bool
is_blank c = c == 32 || c == 9

-- `std::strtoll` in base ten, none if it reads nothing.
unfoldable pub strtoll : Text → Option ℕ
strtoll s = signed (skip is_space s)

abbrev pub read_int : Option Text → Option ℕ
read_int none = none
read_int (some rest) = if is_empty (skip is_blank rest) then none else strtoll (skip is_blank rest)

unfoldable pub json_extract_int : Text → Text → Option ℕ
json_extract_int json key = read_int (after (int_needle key) json)

-- `ticks` is the number of ticks of the system's clock in a millisecond.
unfoldable pub plan_to_json : ℕ → PipelinePlan → Text
plan_to_json ticks plan =
    text "{\"plan_id\":\""
    ++ (json_escape plan.plan_id
        ++ (text "\",\"model_id\":\""
            ++ (json_escape plan.model_id
                ++ (text "\",\"manifest_revision\":\""
                    ++ (json_escape plan.manifest_revision
                        ++ (text "\",\"fence_term\":"
                            ++ (to_string plan.fence.term
                                ++ (text ",\"fence_token\":\""
                                    ++ (json_escape plan.fence.token
                                        ++ (text "\",\"fence_membership_revision\":"
                                            ++ (to_string plan.fence.membership_revision
                                                ++ (text ",\"issued_at_epoch_ms\":"
                                                    ++ (to_string (plan.issued_at_utc / ticks)
                                                        ++ (text ",\"valid_for_ms\":"
                                                            ++ (to_string plan.valid_for
                                                            ++ text "}")))))))))))))))

abbrev pub or_empty : Option Text → Text
or_empty none = []
or_empty (some v) = v

abbrev pub or_zero : Option ℕ → ℕ
or_zero none = 0
or_zero (some v) = v

-- What a field does not give keeps its default. The stages are stored elsewhere, the boundaries nowhere.
unfoldable pub plan_from_json : ℕ → Text → PipelinePlan
plan_from_json ticks json = record {
  plan_id = or_empty (json_extract_string json (text "plan_id"));
  model_id = or_empty (json_extract_string json (text "model_id"));
  manifest_revision = or_empty (json_extract_string json (text "manifest_revision"));
  fence = record {
    term = or_zero (json_extract_int json (text "fence_term"));
    token = or_empty (json_extract_string json (text "fence_token"));
    membership_revision = or_zero (json_extract_int json (text "fence_membership_revision"));
  };
  stages = [];
  boundaries = [];
  issued_at_utc = or_zero (json_extract_int json (text "issued_at_epoch_ms")) * ticks;
  valid_for = or_zero (json_extract_int json (text "valid_for_ms"));
}
