-- ===== src/Pipeline/Stages/Chain.antt =====
-- What a pass of src/pipeline/inference_pipeline.cpp over the stages computes, and its cache of
-- sessions.
use socrates.Prelude.{
  ℕ, ◌+◌, ◌≡◌, refl, sym, ap, ◌∙◌, Bool, true, false, ◌&&◌, Bool-cases, inl, inr, Option, none,
  some, List, [], ◌∷◌, ◌++◌, text_eq, text_eq_refl, if◌then◌else◌, subst, Option-cases,
}
use socrates.Types.{cancelled, ok, err, backend_eq, backend_eq_refl, ◌>>=◌, >>=-eq-ok, ok-injective}
use socrates.Scheduler.{StageAssignment}
use socrates.Pipeline.{InferenceRequest, ActiveRequest}
use socrates.Pipeline.Stages.{
  NamedTensor, RunResult, Services, Sessions, Ran, Cancelled, first_id, cached, resolved,
  load_session, ensure_session_loaded, execute_stage, run_request, moved_from, run_stages,
  execute_pipeline_pass,
}

-- Each stage runs in the plan's order on the outputs of the stage before it. The result is the last
-- stage's, its outputs taken out.
pub data Chain (services : Services) (request : InferenceRequest) (position : ℕ)
    : List StageAssignment → List NamedTensor → Sessions → RunResult → Sessions → Type 0 where
  last :
      {stage : StageAssignment} {inputs : List NamedTensor} {sessions sessions' : Sessions}
      {result : RunResult}
      → execute_stage services sessions stage (run_request request stage position inputs)
        ≡ (ok result, sessions')
      → Chain services request position (stage ∷ []) inputs sessions (moved_from result) sessions'
  next :
      {stage : StageAssignment} {more : StageAssignment} {stages : List StageAssignment}
      {inputs : List NamedTensor} {sessions sessions' sessions'' : Sessions}
      {result result' : RunResult}
      → execute_stage services sessions stage (run_request request stage position inputs)
        ≡ (ok result, sessions')
      → Chain services request position (more ∷ stages) result.outputs sessions' result' sessions''
      → Chain services request position (stage ∷ more ∷ stages) inputs sessions result' sessions''

not_stopped :
    (t : Bool) (sessions : Sessions) (x : Ran) {result : RunResult} {sessions' : Sessions}
    → (if t then (err cancelled, sessions) else x) ≡ (ok result, sessions')
    → x ≡ (ok result, sessions')
not_stopped true sessions x h = absurd (cc)
not_stopped false sessions x h = h

runs_on :
    (t : Bool) (sessions : Sessions) (x : Ran)
    → t ≡ false
    → (if t then (err cancelled, sessions) else x) ≡ x
runs_on true sessions x h = absurd (cc)
runs_on false sessions x h = refl

-- What follows a stage that ran.
abbrev follow : Ran → (RunResult → Sessions → Ran) → Ran
follow ran f = elim ran.0 [ err e ↦ ran | ok result ↦ f result ran.1 ]

follow-ok :
    (ran : Ran) (f : RunResult → Sessions → Ran) {result' : RunResult} {sessions'' : Sessions}
    → follow ran f ≡ (ok result', sessions'')
    → (result : RunResult) × (sessions' : Sessions) × (ran ≡ (ok result, sessions'))
      × (f result sessions' ≡ (ok result', sessions''))
follow-ok (err e, sessions) f h = absurd (cc)
follow-ok (ok result, sessions) f h = (result, sessions, refl, h)

abbrev end : RunResult → Sessions → Ran
end result sessions = (ok (moved_from result), sessions)

module _ (services : Services) (stops : Cancelled) (request : InferenceRequest) (position : ℕ) where
  last_stage :
      (n : ℕ) (stage : StageAssignment) (inputs : List NamedTensor) (sessions : Sessions)
      {result result' : RunResult} {sessions' sessions'' : Sessions}
      → execute_stage services sessions stage (run_request request stage position inputs)
        ≡ (ok result, sessions')
      → end result sessions' ≡ (ok result', sessions'')
      → Chain services request position (stage ∷ []) inputs sessions result' sessions''
  last_stage n stage inputs sessions {result = result} {sessions'' = sessions''} e k =
      subst (λ r. Chain services request position (stage ∷ []) inputs sessions r sessions'')
        (ok-injective (ap (λ p. p.0) k))
        (last {result = result} (e ∙ ap (λ s. (ok result, s)) (ap (λ p. p.1) k)))

  run_stages-Chain :
      (n : ℕ) (stages : List StageAssignment) (inputs : List NamedTensor) (sessions : Sessions)
      {result : RunResult} {sessions' : Sessions}
      → run_stages services stops request position n stages inputs sessions ≡ (ok result, sessions')
      → Chain services request position stages inputs sessions result sessions'
  unfolding run_stages
  run_stages-Chain n [] inputs sessions h = absurd (cc)
  run_stages-Chain n (stage ∷ []) inputs sessions h =
      let ran = execute_stage services sessions stage (run_request request stage position inputs) in
      let (result, sessions', e, k) =
        follow-ok ran end (not_stopped (stops n) sessions (follow ran end) h) in
      last_stage n stage inputs sessions e k
  run_stages-Chain n (stage ∷ more ∷ stages) inputs sessions h =
      let ran = execute_stage services sessions stage (run_request request stage position inputs) in
      let rest : RunResult → Sessions → Ran = λ result sessions'.
        run_stages services stops request position (n + 1) (more ∷ stages) result.outputs
          sessions' in
      let (result, sessions', e, k) =
        follow-ok ran rest (not_stopped (stops n) sessions (follow ran rest) h) in
      next e (run_stages-Chain (n + 1) (more ∷ stages) result.outputs sessions' k)

  Chain-run_stages :
      ((n : ℕ) → stops n ≡ false)
      → (n : ℕ) {stages : List StageAssignment} {inputs : List NamedTensor} {sessions : Sessions}
        {result : RunResult} {sessions' : Sessions}
      → Chain services request position stages inputs sessions result sessions'
      → run_stages services stops request position n stages inputs sessions ≡ (ok result, sessions')
  unfolding run_stages
  Chain-run_stages free n {sessions = sessions} (last {stage} {inputs} e) =
      let ran = execute_stage services sessions stage (run_request request stage position inputs) in
      runs_on (stops n) sessions (follow ran end) (free n) ∙ ap (λ r. follow r end) e
  Chain-run_stages free n {sessions = sessions} (next {stage} {more} {stages} {inputs} e c) =
      let ran = execute_stage services sessions stage (run_request request stage position inputs) in
      let rest : RunResult → Sessions → Ran = λ result sessions'.
        run_stages services stops request position (n + 1) (more ∷ stages) result.outputs
          sessions' in
      runs_on (stops n) sessions (follow ran rest) (free n)
      ∙ ap (λ r. follow r rest) e
      ∙ Chain-run_stages free (n + 1) c

-- A pass that succeeds ran every stage once, in the plan's order, each on the outputs of the stage
-- before, and returns the last stage's result, its outputs taken out.
pub execute_pipeline_pass-Chain :
    (services : Services) (stops : Cancelled) (sessions : Sessions) (s : ActiveRequest)
    (position : ℕ) (inputs : List NamedTensor) (result : RunResult) (sessions' : Sessions)
    → execute_pipeline_pass services stops sessions s position inputs ≡ (ok result, sessions')
    → Chain services s.request position s.plan.stages inputs sessions result sessions'
unfolding execute_pipeline_pass
execute_pipeline_pass-Chain services stops sessions s position inputs result sessions' h =
    run_stages-Chain services stops s.request position 0 s.plan.stages inputs sessions h

-- A pass that is not cancelled and whose stages all run succeeds with the last stage's result.
execute_pipeline_pass-of_Chain :
    (services : Services) (stops : Cancelled) (sessions : Sessions) (s : ActiveRequest)
    (position : ℕ) (inputs : List NamedTensor) (result : RunResult) (sessions' : Sessions)
    → ((n : ℕ) → stops n ≡ false)
    → Chain services s.request position s.plan.stages inputs sessions result sessions'
    → execute_pipeline_pass services stops sessions s position inputs ≡ (ok result, sessions')
unfolding execute_pipeline_pass
execute_pipeline_pass-of_Chain services stops sessions s position inputs result sessions' free c =
    Chain-run_stages services stops s.request position free 0 c

cached-last :
    (sessions : Sessions) (stage : StageAssignment) (session : Option ℕ)
    → cached sessions stage ≡ none
    → cached
        (sessions
          ++ (record {
            stage_id = first_id stage.stage_ids;
            backend = stage.backend;
            session = session;
          }
              ∷ []))
        stage
      ≡ some session
unfolding cached
cached-last [] stage session h =
    rw (text_eq_refl (first_id stage.stage_ids), backend_eq_refl stage.backend)
cached-last (l ∷ sessions) stage session h =
    elim (Bool-cases
      (text_eq l.stage_id (first_id stage.stage_ids) && backend_eq l.backend stage.backend)) [
        | inl e ↦ let h' : some l.session ≡ none = rw e at h in absurd (cc)
        | inr e ↦ rw e (cached-last sessions stage session (rw e at h))
      ]

cache_hit :
    (services : Services) (sessions : Sessions) (stage : StageAssignment) (session : Option ℕ)
    → cached sessions stage ≡ some session
    → ensure_session_loaded services sessions stage ≡ ok (session, sessions)
unfolding ensure_session_loaded
cache_hit services sessions stage session e = rw (e, ensure_session_loaded)

abbrev loaded : Sessions → StageAssignment → Option ℕ → Sessions
loaded sessions stage session =
    sessions
    ++ (record { stage_id = first_id stage.stage_ids; backend = stage.backend; session = session }
        ∷ [])

cache_miss :
    (services : Services) (sessions : Sessions) (stage : StageAssignment)
    → cached sessions stage ≡ none
    → ensure_session_loaded services sessions stage ≡ (
        resolved services.resolve stage.backend >>= λ backend.
        load_session services stage backend >>= λ session.
        ok (session, loaded sessions stage session))
unfolding ensure_session_loaded
cache_miss services sessions stage e = rw (e, ensure_session_loaded)

abbrev InCache : StageAssignment → Option ℕ × Sessions → Type 0
InCache stage (session, sessions) = cached sessions stage ≡ some session

loaded-cached :
    (services : Services) (sessions : Sessions) (stage : StageAssignment) (r : Option ℕ × Sessions)
    → ensure_session_loaded services sessions stage ≡ ok r
    → InCache stage r
loaded-cached services sessions stage r h = elim (Option-cases (cached sessions stage)) [
  | inl e ↦
      let (backend, _, h₁) =
        >>=-eq-ok (resolved services.resolve stage.backend) _
          (sym (cache_miss services sessions stage e) ∙ h) in
      let (session, _, h₂) = >>=-eq-ok (load_session services stage backend) _ h₁ in
      subst (InCache stage) (ok-injective h₂) (cached-last sessions stage session e)
  | inr (x, e) ↦
      subst (InCache stage) (ok-injective (sym (cache_hit services sessions stage x e) ∙ h)) e
]

-- A session that was loaded is in the cache: the next call for the stage returns it and loads nothing.
ensure_session_loaded-cached :
    (services : Services) (sessions : Sessions) (stage : StageAssignment) (session : Option ℕ)
    (sessions' : Sessions) (later : Services)
    → ensure_session_loaded services sessions stage ≡ ok (session, sessions')
    → ensure_session_loaded later sessions' stage ≡ ok (session, sessions')
ensure_session_loaded-cached services sessions stage session sessions' later h =
    cache_hit later sessions' stage session
      (loaded-cached services sessions stage (session, sessions') h)
