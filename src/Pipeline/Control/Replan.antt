-- ===== src/Pipeline/Control/Replan.antt =====
-- What `replan` of src/pipeline/inference_pipeline.cpp does to a request.
use mathlib.Core.List.{append_assoc, append-nil}
use socrates.Prelude.{
  ℕ, zero, suc, ◌+◌, ◌<◌, ◌≤◌, ◌≡◌, refl, sym, ap, ◌∙◌, Bool, true, false, Option, none, some, List,
  [], ◌∷◌, ◌++◌, ltb, length, take, if◌then◌else◌, Text, text, arith, subst,
}
use socrates.Types.{ok}
use socrates.Scheduler.{PipelinePlan}
use socrates.Pipeline.{
  ActiveRequest, TokenRecord, StreamEvent, event, replanning, completed, notify,
}
use socrates.Pipeline.Store.{Pipeline, get_state, update_state, on_state, find}
use socrates.Pipeline.Generation.{Others}
use socrates.Pipeline.Generation.Stream.{flags, Quiet}
use socrates.Pipeline.Control.{replay_event, replay_loop, replan_request, replan}

abbrev on_some : (ActiveRequest → ActiveRequest) → Option ActiveRequest → Option ActiveRequest
on_some f none = none
on_some f (some s) = some (f s)

pub get_state-update_state :
    (states : List ActiveRequest) (i : ℕ) (f : ActiveRequest → ActiveRequest) (s : ActiveRequest)
    → get_state states i ≡ some s
    → get_state (update_state i f states) i ≡ some (f s)
unfolding get_state update_state
get_state-update_state [] i f s h = absurd (cc)
get_state-update_state (x ∷ states) zero f s h = ap (on_some f) h
get_state-update_state (x ∷ states) (suc i) f s h = get_state-update_state states i f s h

-- The event that a replacement is on its way.
abbrev replanning_event : Text → PipelinePlan → ActiveRequest → StreamEvent
replanning_event id replacement s = record (event replanning id s.tokens_emitted) {
  metadata = (text "replacement_plan_id", replacement.plan_id) ∷ [];
}

-- The events that replay the history, from a position on.
abbrev pub replay : Text → ℕ → List TokenRecord → List StreamEvent
replay id i [] = []
replay id i (r ∷ rs) = replay_event id i r ∷ replay id (i + 1) rs

-- A request after it was replanned: its events end with the replanning event, the history from
-- position 0, which is cut off only if the request is no longer active, and the completed event.
pub record Replanned (others : Others) (id : Text) (replacement : PipelinePlan)
    (s s' : ActiveRequest) : Type 0 where
  pub replayed : ℕ
  pub within : replayed ≤ length s.token_history
  pub whole : s'.active ≡ true → replayed ≡ length s.token_history
  pub going : ((i : ℕ) (x : ActiveRequest) → (others i x).active ≡ x.active) → s'.active ≡ true
  pub plan : s'.plan ≡ replacement
  pub history : s'.token_history ≡ s.token_history
  pub emitted : s'.tokens_emitted ≡ s.tokens_emitted
  pub events :
      s'.events
      ≡ s.events
        ++ (replanning_event id replacement s
            ∷ (take replayed (replay id 0 s.token_history)
                ++ (event completed id s.tokens_emitted ∷ [])))

notify-events :
    (ev : StreamEvent) (s : ActiveRequest)
    → s.has_callback ≡ true
    → (notify ev s).events ≡ s.events ++ (ev ∷ [])
notify-events ev s h = rw h

abbrev left_as : Bool → Bool → List StreamEvent → ActiveRequest → ActiveRequest
left_as a b events s = record s { active = a; stop_requested = b; events = events }

-- A replay over some of the history, from a position on.
record Played (others : Others) (id : Text) (i : ℕ) (rs : List TokenRecord) (s s' : ActiveRequest)
    : Type 0 where
  replayed : ℕ
  active : Bool
  stopped : Bool
  within : replayed ≤ length rs
  whole : active ≡ true → replayed ≡ length rs
  going : ((i : ℕ) (x : ActiveRequest) → (others i x).active ≡ x.active) → active ≡ s.active
  is : s' ≡ left_as active stopped (s.events ++ take replayed (replay id i rs)) s

module _ (others : Others) (id : Text) where
  -- A round on a state that other threads left.
  abbrev played_round : ℕ → TokenRecord → List TokenRecord → ActiveRequest → ActiveRequest
  played_round i r rs x =
      if x.active then replay_loop others id (i + 1) rs (notify (replay_event id i r) x) else x

  round-Played :
      (i : ℕ) (r : TokenRecord) (rs : List TokenRecord) (s : ActiveRequest) (a b : Bool)
      → s.has_callback ≡ true
      → others i s ≡ flags a b s
      → Played others id
          (i + 1)
          rs
          (notify (replay_event id i r) (flags true b s))
          (replay_loop others id (i + 1) rs (notify (replay_event id i r) (flags true b s)))
      → Played others id i (r ∷ rs) s (played_round i r rs (flags a b s))
  round-Played i r rs s false b callback e rest = record {
    replayed = 0;
    active = false;
    stopped = b;
    within = omega arith;
    whole = λ h. absurd (cc);
    going = λ h. ap (λ x. x.active) (sym e) ∙ h i s;
    is = ap (λ es. left_as false b es s) (sym (append-nil s.events));
  }
  round-Played i r rs s true b callback e rest =
      let ev = replay_event id i r in
      let more = take rest.replayed (replay id (i + 1) rs) in
      record {
        replayed = suc rest.replayed;
        active = rest.active;
        stopped = rest.stopped;
        within = omega (arith, rest.within);
        whole = λ h. omega (arith, rest.whole h);
        going = λ h. rest.going h ∙ (ap (λ x. x.active) (sym e) ∙ h i s);
        is =
            rest.is
            ∙ ap (λ es. left_as rest.active rest.stopped (es ++ more) s)
                (notify-events ev (flags true b s) callback)
            ∙ ap (λ es. left_as rest.active rest.stopped es s)
                (append_assoc s.events (ev ∷ []) more);
      }

  replay_loop-Played :
      Quiet others
      → (i : ℕ) (rs : List TokenRecord) (s : ActiveRequest) → s.has_callback ≡ true
      → Played others id i rs s (replay_loop others id i rs s)
  unfolding replay_loop
  replay_loop-Played quiet i [] s callback =
      let (a, b, e) = quiet i s in
      record {
        replayed = 0;
        active = a;
        stopped = b;
        within = omega arith;
        whole = λ h. refl;
        going = λ h. ap (λ x. x.active) (sym e) ∙ h i s;
        is = e ∙ ap (λ es. left_as a b es s) (sym (append-nil s.events));
      }
  replay_loop-Played quiet i (r ∷ rs) s callback =
      let (a, b, e) = quiet i s in
      subst (λ x. Played others id i (r ∷ rs) s (played_round i r rs x)) (sym e)
        (round-Played i r rs s a b callback e (
          replay_loop-Played quiet (i + 1) rs (notify (replay_event id i r) (flags true b s))
            callback))

  -- The request when the replay begins.
  abbrev resumed : PipelinePlan → List StreamEvent → ActiveRequest → ActiveRequest
  resumed replacement events s = record s { plan = replacement; active = true; events = events }

  abbrev ended : ActiveRequest → ActiveRequest
  ended x = notify (event completed id x.tokens_emitted) x

  finished-Replanned :
      (replacement : PipelinePlan) (s x : ActiveRequest)
      → s.has_callback ≡ true
      → Played others id 0 s.token_history
          (resumed replacement (s.events ++ (replanning_event id replacement s ∷ [])) s)
          x
      → Replanned others id replacement s (ended x)
  finished-Replanned replacement s x callback p =
      let start = s.events ++ (replanning_event id replacement s ∷ []) in
      let some_of = take p.replayed (replay id 0 s.token_history) in
      let s' = left_as p.active p.stopped (start ++ some_of) (resumed replacement start s) in
      let done = event completed id s.tokens_emitted in
      subst (λ y. Replanned others id replacement s (ended y)) (sym p.is)
        (record {
          replayed = p.replayed;
          within = p.within;
          whole = p.whole;
          going = p.going;
          plan = refl;
          history = refl;
          emitted = refl;
          events =
              notify-events done s' callback
              ∙ append_assoc start some_of (done ∷ [])
              ∙ append_assoc s.events (replanning_event id replacement s ∷ [])
                  (some_of ++ (done ∷ []));
        })

  replan_request-Replanned :
      Quiet others
      → (replacement : PipelinePlan) (s : ActiveRequest) → s.has_callback ≡ true
      → Replanned others id replacement s (replan_request others id replacement s)
  unfolding replan_request
  replan_request-Replanned quiet replacement s callback =
      let ev = replanning_event id replacement s in
      let replay_from = λ (es : List StreamEvent).
        replay_loop others id 0 s.token_history (resumed replacement es s) in
      subst (λ es. Replanned others id replacement s (ended (replay_from es)))
        (sym (notify-events ev s callback))
        (finished-Replanned replacement s (replay_from (s.events ++ (ev ∷ []))) callback (
          replay_loop-Played quiet 0 s.token_history (resumed replacement (s.events ++ (ev ∷ [])) s)
            callback))

newer_test : (a b : ℕ) → a < b → ltb a b ≡ true
newer_test a b h = ground arith

-- A replacement with a newer fence than the plan of a known request with a callback is accepted:
-- the request goes on with it, keeps its history and count, and its callback has received the
-- replanning event, the history from position 0, and the completed event. The whole history is
-- replayed if the request is active in the end, which it is unless another thread clears its flag
-- during the replay; otherwise a front part of it is, and the completed event follows all the same.
-- This holds while other threads change only the flags of the request.
pub replan-Replanned :
    (others : Others) (p : Pipeline) (id : Text) (replacement : PipelinePlan) (i : ℕ)
    (s : ActiveRequest)
    → Quiet others
    → find id p.active_requests ≡ some i
    → get_state p.states i ≡ some s
    → s.has_callback ≡ true
    → s.plan.fence.term < replacement.fence.term
    → (p' : Pipeline) × (s' : ActiveRequest) × (replan others p id replacement ≡ ok p')
      × (get_state p'.states i ≡ some s')
      × Replanned others id replacement s s'
unfolding replan update_state
replan-Replanned others p id replacement i s quiet found got callback newer =
    let f = replan_request others id replacement in
    let accepted : replan others p id replacement ≡ ok (on_state i f p) =
      rw (found, got, newer_test s.plan.fence.term replacement.fence.term newer, replan) in
    (
      on_state i f p,
      f s,
      accepted,
      get_state-update_state p.states i f s got,
      replan_request-Replanned others id quiet replacement s callback,
    )
