-- ===== src/Tests/Local.antt =====
-- A llama that writes the same letter until its context is full, and a directory of models.
use socrates.Prelude.{
  ℕ, ◌+◌, ◌≡◌, refl, Bool, true, false, Option, none, some, List, [], ◌∷◌, map, length, ltb, ◌==◌,
  if◌then◌else◌, Text, text, text_eq,
}
use socrates.Pipeline.{StreamEventKind, failed, emit_token, emit_terminal}
use socrates.Pipeline.Local.{
  Llama, fits, minus_infinity, at_positions, prompt_tokens, eval_prompt, greedy, local_loop,
  run_generation_local,
}
use socrates.Pipeline.Local.Files.{File, matches, scan_files, scan_dirs, find_model_file}
use socrates.Persistence.Json.{strip, after}
use socrates.Pipeline.Local.Ending.{LocalEnds, run_generation_local-LocalEnds}
use socrates.Tests.Pipeline.{state, cancels, quiet}

abbrev if_room : Bool → ℕ → Option ℕ
if_room true ctx = some ctx
if_room false ctx = none

-- No number is below that of minus infinity.
abbrev better : ℕ → ℕ → Bool
better a b = if b == minus_infinity then true else ltb b a

-- A context is the number of tokens that it has; it is full at four.
abbrev letters : Llama ℕ ℕ
letters = record {
  load_model = λ path. some 0;
  init_context = λ model window. some 0;
  tokenize = λ model prompt room. fits (7 ∷ 8 ∷ []);
  decode = λ ctx batch. if_room (ltb (ctx + length batch) 5) (ctx + length batch);
  logits = λ ctx. some (1 ∷ 3 ∷ 2 ∷ []);
  greater = λ a b. better a b;
  is_eog = λ model t. false;
  piece = λ model t. some (text "x");
}

program : Unit {0}
unfolding text_eq emit_token emit_terminal at_positions prompt_tokens eval_prompt greedy local_loop
    run_generation_local strip after matches scan_files scan_dirs find_model_file
program = tt

abbrev path : Option Text
path = some (text "m.gguf")

run_generation_local-LocalEnds_example :
    LocalEnds state (run_generation_local letters cancels path state)
run_generation_local-LocalEnds_example =
    run_generation_local-LocalEnds letters cancels path state quiet refl

kinds_without_file :
    map {B = StreamEventKind}
      (λ ev. ev.kind)
      (run_generation_local letters cancels none state).events
    ≡ failed ∷ []
unfolding program
kinds_without_file = refl

abbrev file : Text → ℕ → File
file name size = record { name = name; extension = text ".gguf"; size = some size }

abbrev models : Option (List File)
models = some (
    file (text "stub.gguf") 100
    ∷ file (text "Qwen-7B.gguf") 9000000
    ∷ file (text "qwen-3b.gguf") 4000000
    ∷ [])

matched :
    find_model_file none models (text "qwen3-6b")
    ≡ some (text "/tmp/socrates-worker/models/Qwen-7B.gguf")
unfolding program
matched = refl

-- Without an id it is the first file, not the smallest.
first_not_smallest :
    find_model_file none models [] ≡ some (text "/tmp/socrates-worker/models/Qwen-7B.gguf")
unfolding program
first_not_smallest = refl

-- With an id that matches nothing there is none.
no_fallback : find_model_file none models (text "phi") ≡ none
unfolding program
no_fallback = refl
