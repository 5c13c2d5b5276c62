-- ===== src/Pipeline/Local/Ending.antt =====
-- The stream of events of `run_generation_local` in src/pipeline/inference_pipeline.cpp.
use mathlib.Core.List.{append_assoc, append-nil}
use socrates.Prelude.{
  ℕ, zero, suc, ◌+◌, ◌<◌, ◌≤◌, ◌≡◌, refl, sym, ap, ◌∙◌, Bool, true, false, Option, none, some, List,
  [], ◌∷◌, ◌++◌, if◌then◌else◌, Text, arith, is_empty, length, subst, Bool-cases, inl, inr,
}
use socrates.Pipeline.{
  ActiveRequest, StreamEvent, event, token, token_event, terminal_kind, emit_token, emit_terminal,
}
use socrates.Pipeline.Generation.{Others, runs}
use socrates.Pipeline.Generation.Stream.{Quiet, flags}
use socrates.Pipeline.Local.{
  Llama, deliver, next_token, local_loop, sampled, decoded, give_up, generate_from, with_context,
  with_model, prompt_tokens, run_generation_local,
}

-- Token events whose sequence numbers rise, from a bound on and below another one.
pub Rising : ℕ → ℕ → List StreamEvent → Type 0
Rising lo hi [] = Unit {0}
Rising lo hi (e ∷ es) =
    (e.kind ≡ token) × (lo ≤ e.sequence) × (e.sequence < hi) × Rising (suc e.sequence) hi es

Rising-weaken :
    (lo lo' hi : ℕ) (es : List StreamEvent) → lo' ≤ lo → Rising lo hi es → Rising lo' hi es
unfolding Rising
Rising-weaken lo lo' hi [] h r = tt
Rising-weaken lo lo' hi (e ∷ es) h r = (r.0, omega (arith, h, r.1), r.2, r.3)

-- From `s` a loop delivered tokens and led to `s'`.
record Went (lo hi : ℕ) (s s' : ActiveRequest) : Type 0 where
  tokens : List StreamEvent
  events : s'.events ≡ s.events ++ tokens
  rising : Rising lo hi tokens
  history : s'.token_history ≡ s.token_history
  emitted : s'.tokens_emitted ≡ s.tokens_emitted
  callback : s'.has_callback ≡ true

Went-none :
    (lo hi : ℕ) (s : ActiveRequest) (a b : Bool)
    → s.has_callback ≡ true
    → Went lo hi s (flags a b s)
unfolding Rising
Went-none lo hi s a b h = record {
  tokens = [];
  events = sym (append-nil s.events);
  rising = tt;
  history = refl;
  emitted = refl;
  callback = h;
}

Went-deliver :
    (lo hi : ℕ) (s s' : ActiveRequest) (a b : Bool) (t : ℕ) (piece : Option Text)
    → s.has_callback ≡ true
    → lo < hi
    → Went (lo + 1) hi (deliver (flags a b s) lo t piece) s'
    → Went lo hi s s'
unfolding Rising emit_token
Went-deliver lo hi s s' a b t none h below w = record {
  tokens = w.tokens;
  events = w.events;
  rising = Rising-weaken (lo + 1) lo hi w.tokens (omega arith) w.rising;
  history = w.history;
  emitted = w.emitted;
  callback = w.callback;
}
Went-deliver lo hi s s' a b t (some piece) h below w =
    let ev = token_event s.request.request_id lo t piece in
    record {
      tokens = ev ∷ w.tokens;
      events = w.events ∙ rw h (append_assoc s.events (ev ∷ []) w.tokens);
      rising = (
        refl,
        omega arith,
        below,
        Rising-weaken (lo + 1) (suc lo) hi w.tokens (omega arith) w.rising,
      );
      history = w.history;
      emitted = w.emitted;
      callback = w.callback;
    }

deliver_keeps :
    (s : ActiveRequest) (i t : ℕ) (piece : Option Text)
    → (deliver s i t piece).has_callback ≡ s.has_callback
unfolding emit_token
deliver_keeps s i t none = refl
deliver_keeps s i t (some piece) = refl

Went-if :
    (test : Bool) (lo hi : ℕ) (s x y : ActiveRequest)
    → Went lo hi s x
    → Went lo hi s y
    → Went lo hi s (if test then x else y)
Went-if true lo hi s x y p q = p
Went-if false lo hi s x y p q = q

Went-stop : (lo hi : ℕ) (s : ActiveRequest) → s.has_callback ≡ true → Went lo hi s s
Went-stop lo hi s h = Went-none lo hi s s.active s.stop_requested h

module _ {M C : Type 0} (llama : Llama M C) (model : M) where
  module _ (lo hi pos : ℕ) (ctx : C) (continue : C → ActiveRequest → ActiveRequest)
      (below : lo < hi)
      (goes_on : (ctx' : C) (s : ActiveRequest)
        → s.has_callback ≡ true
        → Went (lo + 1) hi s (continue ctx' s)) where
    decoded-Went :
        (s : ActiveRequest) (o : Option C)
        → s.has_callback ≡ true
        → Went (lo + 1) hi s (decoded continue s o)
    decoded-Went s none h = Went-stop (lo + 1) hi s h
    decoded-Went s (some ctx') h = goes_on ctx' s h

    sampled-Went :
        (s : ActiveRequest) (a b : Bool) (o : Option (List ℕ))
        → s.has_callback ≡ true
        → Went lo hi s (sampled llama model lo pos ctx continue (flags a b s) o)
    sampled-Went s a b none h = Went-none lo hi s a b h
    sampled-Went s a b (some logits) h =
        let t = next_token llama logits in
        let s' = deliver (flags a b s) lo t (llama.piece model t) in
        let rest =
          decoded-Went s' (llama.decode ctx ((t, pos) ∷ []))
            (deliver_keeps (flags a b s) lo t (llama.piece model t) ∙ h) in
        Went-if (llama.is_eog model t) lo hi s _ _ (Went-none lo hi s a b h)
          (Went-deliver lo hi s _ a b t (llama.piece model t) h below rest)

  local_loop-Went :
      (others : Others)
      → Quiet others
      → (left i pos : ℕ) (ctx : C) (s : ActiveRequest) → s.has_callback ≡ true
      → Went i (i + left) s (local_loop llama model others left i pos ctx s)
  unfolding local_loop
  local_loop-Went others quiet zero i pos ctx s h =
      let (a, b, q) = quiet i s in
      subst (Went i (i + zero) s) (sym q) (Went-none i (i + zero) s a b h)
  local_loop-Went others quiet (suc left) i pos ctx s h =
      let (a, b, q) = quiet i s in
      let continue = local_loop llama model others left (i + 1) (pos + 1) in
      let later : (ctx' : C) (x : ActiveRequest)
          → x.has_callback ≡ true
          → Went (i + 1) (i + suc left) x (continue ctx' x) =
        λ ctx' x h'.
          subst (λ hi. Went (i + 1) hi x (continue ctx' x)) (omega arith)
            (local_loop-Went others quiet left (i + 1) (pos + 1) ctx' x h') in
      let went =
        sampled-Went i (i + suc left) pos ctx continue (omega arith) later s a b (llama.logits ctx)
          h in
      subst
        (λ x.
          Went i (i + suc left) s
            (if runs x then sampled llama model i pos ctx continue x (llama.logits ctx) else x))
        (sym q)
        (Went-if (runs (flags a b s)) i (i + suc left) s _ _ went
          (Went-none i (i + suc left) s a b h))

-- The stream of a local generation.
pub record LocalEnds (s s' : ActiveRequest) : Type 0 where
  pub tokens : List StreamEvent
  pub last : StreamEvent
  pub events : s'.events ≡ s.events ++ (tokens ++ (last ∷ []))
  pub rising : Rising 0 s.request.generation.maximum_new_tokens tokens
  pub terminal :
      (success : Bool) × (last.kind ≡ terminal_kind success) × (success ≡ true → s'.active ≡ true)
  pub sequence : last.sequence ≡ s.tokens_emitted
  pub history : s'.token_history ≡ s.token_history
  pub uncounted : s'.tokens_emitted ≡ s.tokens_emitted

emit_terminal-LocalEnds :
    (s x : ActiveRequest) (success : Bool)
    → Went 0 s.request.generation.maximum_new_tokens s x
    → (success ≡ true → x.active ≡ true)
    → LocalEnds s (emit_terminal x success)
unfolding emit_terminal
emit_terminal-LocalEnds s x success w goes = record {
  tokens = w.tokens;
  last = event (terminal_kind success) x.request.request_id x.tokens_emitted;
  events = rw w.callback (
      ap (λ evs. evs ++ (event (terminal_kind success) x.request.request_id x.tokens_emitted ∷ []))
        w.events
      ∙ append_assoc s.events w.tokens _);
  rising = w.rising;
  terminal = (success, refl, goes);
  sequence = w.emitted;
  history = w.history;
  uncounted = w.emitted;
}

give_up-LocalEnds : (s : ActiveRequest) → s.has_callback ≡ true → LocalEnds s (give_up s)
give_up-LocalEnds s h = emit_terminal-LocalEnds s s false (Went-stop 0 _ s h) (λ e. absurd (cc))

module _ {M C : Type 0} (llama : Llama M C) (others : Others) (quiet : Quiet others)
    (s : ActiveRequest) (h : s.has_callback ≡ true) where
  generate_from-LocalEnds :
      (model : M) (pos : ℕ) (o : Option C) → LocalEnds s (generate_from llama model others pos o s)
  generate_from-LocalEnds model pos none = give_up-LocalEnds s h
  generate_from-LocalEnds model pos (some ctx) =
      let n = s.request.generation.maximum_new_tokens in
      let s' = local_loop llama model others n 0 pos ctx s in
      let went : Went 0 n s s' =
        subst (λ hi. Went 0 hi s s') (omega arith)
          (local_loop-Went llama model others quiet n 0 pos ctx s h) in
      emit_terminal-LocalEnds s s' s'.active went (λ e. e)

  with_context-LocalEnds :
      (model : M) (o : Option C) → LocalEnds s (with_context llama model others o s)
  with_context-LocalEnds model none = give_up-LocalEnds s h
  with_context-LocalEnds model (some ctx) =
      let tokens = prompt_tokens llama model s.request.prompt in
      elim (Bool-cases (is_empty tokens)) [
        | inl e ↦ rw e (give_up-LocalEnds s h)
        | inr e ↦ rw e (generate_from-LocalEnds model (length tokens) _)
      ]

  with_model-LocalEnds : (o : Option M) → LocalEnds s (with_model llama others o s)
  with_model-LocalEnds none = give_up-LocalEnds s h
  with_model-LocalEnds (some model) = with_context-LocalEnds model _

-- A local generation of a request with a callback, however the file, the model or the prompt fail and
-- however often other threads set the flags of the request, delivers token events whose numbers rise
-- and stay below the number allowed, and then exactly one terminal event; completed only if the
-- request is active. It counts no token and keeps none in the history, so the terminal event has the
-- number that the request began with.
pub run_generation_local-LocalEnds :
    {M C : Type 0} (llama : Llama M C) (others : Others) (path : Option Text) (s : ActiveRequest)
    → Quiet others
    → s.has_callback ≡ true
    → LocalEnds s (run_generation_local llama others path s)
unfolding run_generation_local
run_generation_local-LocalEnds llama others none s quiet h = give_up-LocalEnds s h
run_generation_local-LocalEnds llama others (some path) s quiet h =
    with_model-LocalEnds llama others quiet s h (llama.load_model path)
