-- ===== src/Pipeline/Generation/Ending.antt =====
-- How `run_generation` of src/pipeline/inference_pipeline.cpp ends, on each of its paths.
use socrates.Prelude.{
  ℕ, zero, suc, ◌+◌, ◌%◌, ◌^◌, ◌<◌, ◌≡◌, refl, ap, ◌∙◌, Bool, true, false, ◌&&◌, [], Bool-cases,
  inl, inr, ◌⊎◌, subst, Option, none, some, ltb, ◌==◌, length, arith, if◌then◌else◌, Text,
}
use socrates.Types.{ok}
use socrates.Pipeline.{ActiveRequest, emit_terminal, emit_token, completed, terminal_kind}
use socrates.Pipeline.Stages.{Sessions}
use socrates.Pipeline.Generation.{
  Others, Pass, runs, add_token, simulated_loop, run_generation_simulated, Looped, looped,
  distributed_loop, finish, run_generation_distributed,
}
use socrates.Pipeline.Generation.Stream.{Quiet, Ends, distributed_loop-Ends}
use socrates.Pipeline.Local.{Llama, run_generation}
use socrates.Pipeline.Local.Ending.{LocalEnds, run_generation_local-LocalEnds}

-- A pass that leaves each position its own number.
abbrev silent_pass : Pass
silent_pass sessions s i inputs =
    (ok (record { outputs = []; token_id = none; elapsed = 0 }), sessions)

looped_if :
    (t : Bool) (x : Looped) (s a : ActiveRequest) (sessions : Sessions)
    → x ≡ looped a false sessions
    → (if t then x else looped s false sessions) ≡ looped (if t then a else s) false sessions
looped_if true x s a sessions h = h
looped_if false x s a sessions h = refl

-- The simulated loop is the distributed one over a pass that never fails.
simulated_is_distributed :
    (others : Others) (left i : ℕ) (sessions : Sessions) (s : ActiveRequest)
    → distributed_loop silent_pass others left i [] sessions s
      ≡ looped (simulated_loop others left i s) false sessions
unfolding distributed_loop simulated_loop
simulated_is_distributed others zero i sessions s = refl
simulated_is_distributed others (suc left) i sessions s =
    let s' = others i s in
    looped_if (runs s') _ s' _ sessions
      (simulated_is_distributed others left (i + 1) sessions (add_token s' i (i % 2 ^ 32)))

module _ (others : Others) (quiet : Quiet others) (s : ActiveRequest)
    (callback : s.has_callback ≡ true) (fresh : s.tokens_emitted ≡ 0)
    (small : s.request.generation.maximum_new_tokens < 2 ^ 32) where
  simulated-Ends :
      Ends s 0 s.request.generation.maximum_new_tokens (run_generation_simulated others s)
  unfolding run_generation_simulated
  simulated-Ends =
      let n = s.request.generation.maximum_new_tokens in
      subst (λ r. Ends s 0 n (finish r)) (simulated_is_distributed others n 0 [] s)
        (distributed_loop-Ends silent_pass others quiet n 0 [] [] s callback fresh
          (omega (arith, small)))

  distributed-Ends :
      (pass : Pass) (sessions : Sessions)
      → Ends s 0 s.request.generation.maximum_new_tokens
          (run_generation_distributed pass others sessions s).0
  unfolding run_generation_distributed
  distributed-Ends pass sessions =
      let n = s.request.generation.maximum_new_tokens in
      distributed_loop-Ends pass others quiet n 0 [] sessions s callback fresh
        (omega (arith, small))

-- Whether a generation runs on the local model: in a build with a llama, a plan with one stage does.
abbrev pub runs_locally : {M C : Type 0} → Option (Llama M C) → ActiveRequest → Bool
runs_locally none s = false
runs_locally (some l) s = length s.plan.stages == 1

one_stage : (cap : Bool) (n : ℕ) → (n == 1) ≡ true → (cap && ltb 1 n) ≡ false
one_stage cap n h = ground arith

-- A generation of a new request with a callback, on one of two ways. Where it does not run on a local
-- model, it delivers token events numbered from 0, at most as many as the request allows, and
-- then one terminal event, which says whether the request is still active. The history has the same
-- tokens at the same positions. The tokens are as many as allowed if the request is active and not
-- stopped in the end. Where the build has llama.cpp and the plan one stage, it delivers token events
-- with rising numbers and then one terminal event, and counts and keeps no token. This holds for
-- all results of the passes and of llama.cpp, while other threads change only the flags of the
-- request.
pub run_generation-Ends :
    {M C : Type 0} (llama : Option (Llama M C)) (path : Option Text) (distributed_capability : Bool)
    (pass : Pass) (others : Others) (sessions : Sessions) (s : ActiveRequest)
    → Quiet others
    → s.has_callback ≡ true
    → s.tokens_emitted ≡ 0
    → s.request.generation.maximum_new_tokens < 2 ^ 32
    → ((runs_locally llama s ≡ false)
        × Ends s 0 s.request.generation.maximum_new_tokens
            (run_generation llama path distributed_capability pass others sessions s).0)
      ⊎ ((runs_locally llama s ≡ true)
          × LocalEnds s (run_generation llama path distributed_capability pass others sessions s).0)
unfolding run_generation
run_generation-Ends none path cap pass others sessions s quiet callback fresh small = inl (
  refl,
  elim (Bool-cases (cap && ltb 1 (length s.plan.stages))) [
    | inl e ↦ rw e (distributed-Ends others quiet s callback fresh small pass sessions)
    | inr e ↦ rw e (simulated-Ends others quiet s callback fresh small)
  ],
)
run_generation-Ends (some l) path cap pass others sessions s quiet callback fresh small =
    elim (Bool-cases (length s.plan.stages == 1)) [
      | inl one ↦ inr (
        one,
        rw (one_stage cap (length s.plan.stages) one, one)
            (run_generation_local-LocalEnds l others path s quiet callback),
      )
      | inr more ↦ inl (
        more,
        elim (Bool-cases (cap && ltb 1 (length s.plan.stages))) [
          | inl e ↦ rw e (distributed-Ends others quiet s callback fresh small pass sessions)
          | inr e ↦ rw (e, more) (simulated-Ends others quiet s callback fresh small)
        ],
      )
    ]

abbrev pub nobody : Others
nobody i s = s

abbrev Going : ActiveRequest → Type 0
Going s = (s.active ≡ true) × (s.stop_requested ≡ false)

keep-Going : (t : Bool) (x s : ActiveRequest) → Going x → Going s → Going (if t then x else s)
keep-Going true x s p q = p
keep-Going false x s p q = q

undisturbed :
    (left i : ℕ) (s : ActiveRequest)
    → s.active ≡ true
    → s.stop_requested ≡ false
    → Going (simulated_loop nobody left i s)
unfolding simulated_loop add_token emit_token
undisturbed zero i s a b = (a, b)
undisturbed (suc left) i s a b =
    let rest = undisturbed left (i + 1) (add_token s i (i % 2 ^ 32)) a b in
    keep-Going (runs s) _ s rest (a, b)

-- Without other threads, a simulated generation of a new and active request with a callback
-- delivers all the tokens that the request allows, and then the completed event.
pub run_generation_simulated-completes :
    (s : ActiveRequest)
    → s.has_callback ≡ true
    → s.tokens_emitted ≡ 0
    → s.request.generation.maximum_new_tokens < 2 ^ 32
    → s.active ≡ true
    → s.stop_requested ≡ false
    → (e : Ends s 0 s.request.generation.maximum_new_tokens (run_generation_simulated nobody s))
      × (length e.token_ids ≡ s.request.generation.maximum_new_tokens)
      × (e.last.kind ≡ completed)
unfolding run_generation_simulated emit_terminal
run_generation_simulated-completes s callback fresh small a b =
    let quiet : Quiet nobody = λ i s. (s.active, s.stop_requested, refl) in
    let e = simulated-Ends nobody quiet s callback fresh small in
    let (a', b') = undisturbed s.request.generation.maximum_new_tokens 0 s a b in
    (e, e.whole a' b', e.terminal ∙ ap terminal_kind a')
