-- ===== src/Pipeline/Local.antt =====
-- `run_generation_local` of src/pipeline/inference_pipeline.cpp, in a build with llama.cpp: the choice of
-- a model file, the evaluation of the prompt in batches, and greedy generation. The calls of llama.cpp
-- and the directories are parameters; a float is its bit pattern.
pub mod Files
pub mod Ending
use socrates.Prelude.{
  ℕ, zero, suc, ◌+◌, Bool, true, false, Option, none, some, List, [], ◌∷◌, if◌then◌else◌, ◌&&◌, ltb,
  ◌==◌, is_empty, length, replicate, take, drop, Text,
}
use socrates.Pipeline.{ActiveRequest, InferenceRequest, emit_token, emit_terminal}
use socrates.Pipeline.Stages.{Sessions}
use socrates.Pipeline.Generation.{
  Others, Pass, runs, run_generation_distributed, run_generation_simulated,
}

-- The tokens that fit a buffer, or the size that they need.
pub data Tokenized : Type 0 where
  fits : List ℕ → Tokenized
  needs : ℕ → Tokenized

-- What the source calls, for models `M` and contexts `C`. `decode` takes tokens with their positions and
-- asks for the logits of the last one; `piece` is none where no characters are written.
pub record Llama (M C : Type 0) : Type 0 where
  pub load_model : Text → Option M
  pub init_context : M → ℕ → Option C
  pub tokenize : M → Text → ℕ → Tokenized
  pub decode : C → List (ℕ × ℕ) → Option C
  pub logits : C → Option (List ℕ)
  pub greater : ℕ → ℕ → Bool
  pub is_eog : M → ℕ → Bool
  pub piece : M → ℕ → Option Text

-- A buffer that is too small a second time is taken as it is, all zeros.
abbrev pub or_zeros : Tokenized → List ℕ
or_zeros (fits tokens) = tokens
or_zeros (needs n) = replicate n 0

abbrev pub n_batch : ℕ
n_batch = 512

-- The pattern of minus infinity.
abbrev pub minus_infinity : ℕ
minus_infinity = 0xFF800000

-- Tokens at the positions from one on.
unfoldable pub at_positions : ℕ → List ℕ → List (ℕ × ℕ)
at_positions pos [] = []
at_positions pos (t ∷ ts) = (t, pos) ∷ at_positions (pos + 1) ts

abbrev pub deliver : ActiveRequest → ℕ → ℕ → Option Text → ActiveRequest
deliver s i token none = s
deliver s i token (some piece) = emit_token s i token piece

abbrev pub give_up : ActiveRequest → ActiveRequest
give_up s = emit_terminal s false

abbrev pub decoded :
    {C : Type 0} → (C → ActiveRequest → ActiveRequest) → ActiveRequest → Option C → ActiveRequest
decoded continue s none = s
decoded continue s (some ctx) = continue ctx s

module _ {M C : Type 0} (llama : Llama M C) where
  abbrev pub retried : M → Text → Tokenized → List ℕ
  retried model prompt (fits tokens) = tokens
  retried model prompt (needs n) = or_zeros (llama.tokenize model prompt n)

  unfoldable pub prompt_tokens : M → Text → List ℕ
  prompt_tokens model prompt =
      retried model prompt (llama.tokenize model prompt (length prompt + 4))

  -- A batch for each 512 tokens; the tokens are fuel enough.
  unfoldable pub eval_prompt : ℕ → ℕ → List ℕ → C → Option C
  eval_prompt zero pos tokens ctx = some ctx
  eval_prompt (suc fuel) pos [] ctx = some ctx
  eval_prompt (suc fuel) pos (t ∷ ts) ctx =
      let batch = take n_batch (t ∷ ts) in
      elim (llama.decode ctx (at_positions pos batch)) [
        | none ↦ none
        | some ctx' ↦ eval_prompt fuel (pos + length batch) (drop n_batch (t ∷ ts)) ctx'
      ]

  -- The first of the tokens with the greatest logit, from a token on.
  unfoldable pub greedy : ℕ → List ℕ → ℕ → ℕ → ℕ
  greedy v [] best max_logit = best
  greedy v (l ∷ ls) best max_logit =
      let next = greedy (v + 1) ls v l in
      let rest = greedy (v + 1) ls best max_logit in
      if llama.greater l max_logit then next else rest

  abbrev pub next_token : List ℕ → ℕ
  next_token logits = greedy 0 logits 0 minus_infinity

  -- The token is delivered, but neither counted nor kept in the history.
  abbrev pub sampled :
      M
      → ℕ
      → ℕ
      → C
      → (C → ActiveRequest → ActiveRequest)
      → ActiveRequest
      → Option (List ℕ)
      → ActiveRequest
  sampled model i pos ctx continue s none = s
  sampled model i pos ctx continue s (some logits) =
      let token = next_token logits in
      let s' = deliver s i token (llama.piece model token) in
      let rest = decoded continue s' (llama.decode ctx ((token, pos) ∷ [])) in
      if llama.is_eog model token then s else rest

  unfoldable pub local_loop : M → Others → ℕ → ℕ → ℕ → C → ActiveRequest → ActiveRequest
  local_loop model others zero i pos ctx s = others i s
  local_loop model others (suc left) i pos ctx s =
      let s' = others i s in
      let next =
        sampled model i pos ctx (local_loop model others left (i + 1) (pos + 1)) s'
          (llama.logits ctx) in
      if runs s' then next else s'

  abbrev pub generate_from : M → Others → ℕ → Option C → ActiveRequest → ActiveRequest
  generate_from model others pos none s = give_up s
  generate_from model others pos (some ctx) s =
      let s' = local_loop model others s.request.generation.maximum_new_tokens 0 pos ctx s in
      emit_terminal s' s'.active

  abbrev pub with_tokens : M → Others → List ℕ → C → ActiveRequest → ActiveRequest
  with_tokens model others tokens ctx s =
      let evaluated = eval_prompt (length tokens) 0 tokens ctx in
      if is_empty tokens then give_up s else generate_from model others (length tokens) evaluated s

  abbrev pub with_context : M → Others → Option C → ActiveRequest → ActiveRequest
  with_context model others none s = give_up s
  with_context model others (some ctx) s =
      with_tokens model others (prompt_tokens model s.request.prompt) ctx s

  abbrev pub with_model : Others → Option M → ActiveRequest → ActiveRequest
  with_model others none s = give_up s
  with_model others (some model) s =
      with_context model others (llama.init_context model s.request.generation.context_window) s

  -- `path` is the file that is found, if there is one.
  unfoldable pub run_generation_local : Others → Option Text → ActiveRequest → ActiveRequest
  run_generation_local others none s = give_up s
  run_generation_local others (some path) s = with_model others (llama.load_model path) s

-- The choice of the path. Without a llama the build has none.
unfoldable pub run_generation :
    {M C : Type 0}
    → Option (Llama M C)
    → Option Text
    → Bool
    → Pass
    → Others
    → Sessions
    → ActiveRequest
    → ActiveRequest × Sessions
run_generation llama path distributed_capability pass others sessions s =
    let stages = length s.plan.stages in
    let simulated : ActiveRequest × Sessions = (run_generation_simulated others s, sessions) in
    let otherwise : ActiveRequest × Sessions = elim llama [
      | none ↦ simulated
      | some l ↦ if stages == 1 then (run_generation_local l others path s, sessions) else simulated
    ] in
    if distributed_capability && ltb 1 stages
    then run_generation_distributed pass others sessions s
    else otherwise
