-- ===== src/Pipeline/Generation/Stream.antt =====
-- The stream of events of a generation in src/pipeline/inference_pipeline.cpp, while other threads
-- change only the flags of the request.
use mathlib.Core.List.{append_assoc, append-nil}
use socrates.Prelude.{
  ℕ, zero, suc, ◌+◌, ◌%◌, ◌^◌, ◌<◌, ◌≤◌, ◌≡◌, refl, sym, ap, ◌∙◌, Bool, true, false, not, ◌&&◌,
  List, [], ◌∷◌, ◌++◌, length, text, arith, subst, if◌then◌else◌,
}
use socrates.Types.{ErrorCode, ok, err}
use socrates.Pipeline.{
  ActiveRequest, StreamEvent, TokenRecord, event, failed_event, token_event, terminal_kind,
  to_string, emit_token, emit_terminal,
}
use socrates.Pipeline.Stages.{NamedTensor, RunResult, Sessions, Ran}
use socrates.Pipeline.Generation.{
  Others, Pass, runs, token_record, add_token, fail_pass, value_or, Looped, looped,
  distributed_loop, finish,
}

abbrev pub flags : Bool → Bool → ActiveRequest → ActiveRequest
flags a b s = record s { active = a; stop_requested = b }

-- Other threads change the flags only: they cancel, or stop the token.
abbrev pub Quiet : Others → Type 0
Quiet others = (i : ℕ) (s : ActiveRequest) → (a : Bool) × (b : Bool) × (others i s ≡ flags a b s)

-- Token events in sequence from a position.
abbrev pub token_events : ActiveRequest → ℕ → List ℕ → List StreamEvent
token_events s i [] = []
token_events s i (t ∷ ts) =
    token_event s.request.request_id i t (text "tok:" ++ to_string i) ∷ token_events s (i + 1) ts

abbrev pub token_records : ActiveRequest → ℕ → List ℕ → List TokenRecord
token_records s i [] = []
token_records s i (t ∷ ts) = token_record s i t ∷ token_records s (i + 1) ts

-- From `s`, whose next position is `i`, the stream ended in `s'`, with at most `left` more tokens.
pub record Ends (s : ActiveRequest) (i left : ℕ) (s' : ActiveRequest) : Type 0 where
  pub token_ids : List ℕ
  pub last : StreamEvent
  pub few : length token_ids ≤ left
  pub events : s'.events ≡ s.events ++ (token_events s i token_ids ++ (last ∷ []))
  pub terminal : last.kind ≡ terminal_kind s'.active
  pub sequence : last.sequence ≡ i + length token_ids
  pub history : s'.token_history ≡ s.token_history ++ token_records s i token_ids
  pub emitted : s'.tokens_emitted ≡ i + length token_ids
  pub whole : s'.active ≡ true → s'.stop_requested ≡ false → length token_ids ≡ left

module _ (s : ActiveRequest) (i : ℕ) (callback : s.has_callback ≡ true)
    (at : s.tokens_emitted ≡ i) where
  stop-Ends :
      (left : ℕ) (a b : Bool)
      → (a ≡ true → b ≡ false → 0 ≡ left)
      → Ends s i left (emit_terminal (flags a b s) a)
  unfolding emit_terminal
  stop-Ends left a b whole = record {
    token_ids = [];
    last = event (terminal_kind a) s.request.request_id s.tokens_emitted;
    few = omega arith;
    events = rw callback;
    terminal = refl;
    sequence = omega (arith, at);
    history = sym (append-nil s.token_history);
    emitted = omega (arith, at);
    whole = whole;
  }

  fail-Ends :
      (left : ℕ) (a b : Bool) (code : ErrorCode) → Ends s i left (fail_pass (flags a b s) code)
  unfolding fail_pass
  fail-Ends left a b code = record {
    token_ids = [];
    last = failed_event s.request.request_id s.tokens_emitted code;
    few = omega arith;
    events = rw callback;
    terminal = refl;
    sequence = omega (arith, at);
    history = sym (append-nil s.token_history);
    emitted = omega (arith, at);
    whole = λ h. absurd (cc);
  }

  added-events :
      (t : ℕ) (a b : Bool)
      → (add_token (flags a b s) i t).events
        ≡ s.events ++ (token_event s.request.request_id i t (text "tok:" ++ to_string i) ∷ [])
  unfolding add_token emit_token
  added-events t a b = rw callback

  token-Ends :
      (left t : ℕ) (a b : Bool) (s' : ActiveRequest)
      → Ends (add_token (flags a b s) i t) (i + 1) left s'
      → Ends s i (suc left) s'
  unfolding add_token emit_token
  token-Ends left t a b s' e = record {
    token_ids = t ∷ e.token_ids;
    last = e.last;
    few = omega (arith, e.few);
    events =
        e.events
        ∙ ap (λ es. es ++ (token_events s (i + 1) e.token_ids ++ (e.last ∷ [])))
            (added-events t a b)
        ∙ append_assoc s.events _ _;
    terminal = e.terminal;
    sequence = omega (arith, e.sequence);
    history = e.history ∙ append_assoc s.token_history (token_record s i t ∷ []) _;
    emitted = omega (arith, e.emitted);
    whole = λ h k. omega (arith, e.whole h k);
  }

branch :
    {s : ActiveRequest} {i left : ℕ} (t : Bool) (x y : Looped)
    → (t ≡ true → Ends s i left (finish x))
    → (t ≡ false → Ends s i left (finish y))
    → Ends s i left (finish (if t then x else y))
branch true x y f g = f refl
branch false x y f g = g refl

abbrev resulted : Ran → (ErrorCode → Looped) → (RunResult → Looped) → Looped
resulted ran g f = elim ran.0 [ err code ↦ g code | ok result ↦ f result ]

by_result :
    {s : ActiveRequest} {i left : ℕ} (ran : Ran) (g : ErrorCode → Looped) (f : RunResult → Looped)
    → ((code : ErrorCode) → Ends s i left (finish (g code)))
    → ((result : RunResult) → Ends s i left (finish (f result)))
    → Ends s i left (finish (resulted ran g f))
by_result (err code, sessions) g f p q = p code
by_result (ok result, sessions) g f p q = q result

stops : (a b : Bool) (n : ℕ) → (a && not b) ≡ false → a ≡ true → b ≡ false → 0 ≡ n
stops true true n h p q = absurd (cc)
stops true false n h p q = absurd (cc)
stops false b n h p q = absurd (cc)

abbrev id_of : ℕ → RunResult → ℕ
id_of i result = value_or result.token_id (i % 2 ^ 32)

-- One round, from the request as its tests read it.
abbrev round : Pass → Others → ℕ → ℕ → List NamedTensor → Sessions → ActiveRequest → Looped
round pass others left i inputs sessions s' =
    if runs s'
    then resulted (pass sessions s' i inputs)
        (λ code. looped (fail_pass s' code) true (pass sessions s' i inputs).1)
        (λ result.
          distributed_loop pass others left (i + 1) result.outputs (pass sessions s' i inputs).1
            (add_token s' i (id_of i result)))
    else looped s' false sessions

loop-round :
    (pass : Pass) (others : Others) (left i : ℕ) (inputs : List NamedTensor) (sessions : Sessions)
    (s : ActiveRequest)
    → distributed_loop pass others (suc left) i inputs sessions s
      ≡ round pass others left i inputs sessions (others i s)
unfolding distributed_loop
loop-round pass others left i inputs sessions s = refl

loop-zero :
    (pass : Pass) (others : Others) (i : ℕ) (inputs : List NamedTensor) (sessions : Sessions)
    (s : ActiveRequest)
    → distributed_loop pass others zero i inputs sessions s ≡ looped (others i s) false sessions
unfolding distributed_loop
loop-zero pass others i inputs sessions s = refl

added-callback : (s : ActiveRequest) (i t : ℕ) → (add_token s i t).has_callback ≡ s.has_callback
unfolding add_token emit_token
added-callback s i t = refl

added-emitted :
    (s : ActiveRequest) (i t : ℕ)
    → s.tokens_emitted ≡ i
    → i + 1 < 2 ^ 64
    → (add_token s i t).tokens_emitted ≡ i + 1
unfolding add_token emit_token
added-emitted s i t at small = rw at (omega arith)

pub distributed_loop-Ends :
    (pass : Pass) (others : Others)
    → Quiet others
    → (left i : ℕ) (inputs : List NamedTensor) (sessions : Sessions) (s : ActiveRequest)
    → s.has_callback ≡ true
    → s.tokens_emitted ≡ i
    → i + left < 2 ^ 64
    → Ends s i left (finish (distributed_loop pass others left i inputs sessions s))
distributed_loop-Ends pass others quiet zero i inputs sessions s cb at small =
    let (a, b, e) = quiet i s in
    subst (λ r. Ends s i 0 (finish r)) (sym (loop-zero pass others i inputs sessions s))
      (subst (λ s'. Ends s i 0 (emit_terminal s' s'.active)) (sym e)
        (stop-Ends s i cb at 0 a b (λ _ _. refl)))
distributed_loop-Ends pass others quiet (suc left) i inputs sessions s cb at small =
    let (a, b, e) = quiet i s in
    let s' = flags a b s in
    let ran = pass sessions s' i inputs in
    let next : RunResult → Looped = λ result.
      distributed_loop pass others left (i + 1) result.outputs ran.1
        (add_token s' i (id_of i result)) in
    let more : (result : RunResult) → Ends s i (suc left) (finish (next result)) = λ result.
      token-Ends s i cb at left (id_of i result) a b (finish (next result)) (
        distributed_loop-Ends pass others quiet left (i + 1) result.outputs ran.1
          (add_token s' i (id_of i result)) (added-callback s' i (id_of i result) ∙ cb)
          (added-emitted s' i (id_of i result) at (omega arith)) (omega arith)) in
    let failed : ErrorCode → Looped = λ code. looped (fail_pass s' code) true ran.1 in
    let fails : (code : ErrorCode) → Ends s i (suc left) (finish (failed code)) =
      λ code. fail-Ends s i cb at (suc left) a b code in
    subst (λ r. Ends s i (suc left) (finish r))
      (sym (loop-round pass others left i inputs sessions s))
      (subst (λ s'. Ends s i (suc left) (finish (round pass others left i inputs sessions s')))
        (sym e)
        (branch (a && not b) (resulted ran failed next) (looped s' false sessions)
          (λ _. by_result ran failed next fails more)
          (λ h. stop-Ends s i cb at (suc left) a b (stops a b (suc left) h))))
