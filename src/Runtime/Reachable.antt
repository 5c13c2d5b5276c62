-- ===== src/Runtime/Reachable.antt =====
-- What holds of every runtime that the calls of src/runtime/edge_runtime.cpp can lead to.
use socrates.Prelude.{
  ℕ, ◌≡◌, refl, sym, subst, ◌∙◌, Bool, true, false, not, ◌||◌, Option, none, some, List, Text,
  eq_of_some, arith, Bool-cases, Option-cases, inl, inr,
}
use socrates.Types.{Result, ok, err, ErrorCode, >>=-eq-ok, ok-injective}
use socrates.Cluster.Membership
use socrates.Cluster.Membership.{
  Call, observes, updates_capability, updates_model_presence, promotes, updates_local_role,
  MembershipService, Emits, observe, update_capability, update_model_presence, update_local_role,
  promote_joining_members, find_member,
}
use socrates.Cluster.Election
use socrates.Cluster.Election.{BullyElection, update_membership, Effect, current}
use socrates.Manifest.{ManifestSummary}
use socrates.Scheduler.{PipelinePlan}
use socrates.Scheduler.Plan.{Host}
use socrates.Pipeline.{InferenceRequest}
use socrates.Pipeline.Store.{Pipeline}
use socrates.Runtime.State.{RuntimeState, serves, is_stopped, is_stopping}
use socrates.Runtime.Keeps.{
  Keeps, members_run, election_runs, has_parts, register_self_runs, heartbeat_turn-Keeps,
  generate-Keeps, join_cluster-Keeps,
}
use socrates.Runtime.Start.{
  begin_start, start_identified, discovered, RuntimeConfig, Environment, make_edge_runtime, start,
  finish_start, started_membership,
}
use socrates.Runtime.{
  EdgeRuntime, RuntimeSnapshot, snapshot, runtime_snapshot, generate, join_cluster, heartbeat_turn,
  do_stop, halted, membership_or_empty, leadership_or_none, emit_snapshot,
}

-- The calls that return to their caller; a start also where it fails, since it leaves its traces.
pub data Step : EdgeRuntime → EdgeRuntime → Type 0 where
  starts :
      {r : EdgeRuntime} (env : Environment) (config : RuntimeConfig) (has_callback : Bool)
      → Step r (start env config has_callback r).0
  generates :
      {r r' : EdgeRuntime} (request : InferenceRequest) (has_callback stop_requested : Bool)
      (handle : ℕ)
      → generate r request has_callback stop_requested ≡ ok (r', handle)
      → Step r r'
  joins :
      {r r' : EdgeRuntime} (host : Host) (published : Option (Result ManifestSummary))
      (token : Text) (now : ℕ) (stop_requested : Bool) (saved : List PipelinePlan)
      (out : List RuntimeSnapshot)
      → join_cluster host published token now r stop_requested ≡ ok (r', saved, out)
      → Step r r'
  beats :
      {r r' : EdgeRuntime} (token : Text) (now : ℕ) → heartbeat_turn token now r ≡ ok r' → Step r r'
  stops : {r r' : EdgeRuntime} (out : List RuntimeSnapshot) → do_stop r ≡ ok (r', out) → Step r r'

pub data Reachable : EdgeRuntime → Type 0 where
  made : (received_at : ℕ) → Reachable (make_edge_runtime received_at)
  called : {r r' : EdgeRuntime} → Reachable r → Step r r' → Reachable r'

-- What there is runs, and a runtime that serves has all of it.
pub record Sound (r : EdgeRuntime) : Type 0 where
  pub members : members_run r.membership ≡ true
  pub election : election_runs r.election ≡ true
  pub complete : not (serves r.state) || has_parts r ≡ true

Sound-Keeps : {r r' : EdgeRuntime} → Keeps r r' → Sound r → Sound r'
Sound-Keeps k i = record {
  members = k.members ∙ i.members;
  election = k.election ∙ i.election;
  complete = ground (arith, k.complete, k.state, i.complete);
}

finish_start-Sound :
    (env : Environment) (config : RuntimeConfig) (id : Text) (m : MembershipService)
    (r : EdgeRuntime)
    → m.running ≡ true
    → Sound (finish_start env config id m r).0
unfolding finish_start Election.start Election.initial
finish_start-Sound env config id m r h = record {
  members = register_self_runs _ _ env.now m ∙ h;
  election = refl;
  complete = refl;
}

discovered-Sound :
    (env : Environment) (config : RuntimeConfig) (id : Text) (m : MembershipService)
    (r : EdgeRuntime) (o : Option ErrorCode)
    → m.running ≡ true
    → Sound r
    → Sound (discovered env config id m r o).0
discovered-Sound env config id m r none h i = finish_start-Sound env config id m r h
discovered-Sound env config id m r (some code) h i = i

start_identified-Sound :
    (env : Environment) (config : RuntimeConfig) (o : Result Text) (r : EdgeRuntime)
    → serves r.state ≡ false
    → Sound r
    → Sound (start_identified env config o r).0
unfolding Membership.start Membership.initial
start_identified-Sound env config (err code) r h i = i
start_identified-Sound env config (ok id) r h i =
    discovered-Sound env config id (started_membership env.identity_provider) _ env.discovery refl
      (record { members = refl; election = i.election; complete = ground (arith, h) })

start-Sound :
    (env : Environment) (config : RuntimeConfig) (has_callback : Bool) (r : EdgeRuntime)
    → Sound r
    → Sound (start env config has_callback r).0
unfolding start
start-Sound env config has_callback r i = elim (Bool-cases (is_stopped r.state)) [
  | inl e ↦ rw e (
      start_identified-Sound env config _ (begin_start config has_callback r) refl
        (record { members = i.members; election = i.election; complete = refl }))
  | inr e ↦ rw e i
]

do_stop-Sound :
    (r r' : EdgeRuntime) (out : List RuntimeSnapshot)
    → do_stop r ≡ ok (r', out)
    → Sound r
    → Sound r'
unfolding do_stop
do_stop-Sound r r' out h i = elim (Bool-cases (is_stopped r.state)) [
  | inl e ↦ subst (λ x. Sound x.0) (ok-injective (rw e at h)) i
  | inr e ↦ elim (Bool-cases (is_stopping r.state)) [
    | inl f ↦ subst (λ x. Sound x.0) (ok-injective (rw (e, f) at h)) i
    | inr f ↦
        let (last, _, h') = >>=-eq-ok (emit_snapshot (halted r)) _ (rw (e, f) at h) in
        subst (λ x. Sound x.0) (ok-injective h')
          (record { members = refl; election = refl; complete = refl })
  ]
]

step-Sound : {r r' : EdgeRuntime} → Step r r' → Sound r → Sound r'
step-Sound (starts env config has_callback) i = start-Sound env config has_callback _ i
step-Sound (generates request has_callback stop_requested handle h) i =
    Sound-Keeps (generate-Keeps _ _ request has_callback stop_requested handle h) i
step-Sound (joins host published token now stop_requested saved out h) i =
    Sound-Keeps (join_cluster-Keeps host published token now _ _ stop_requested saved out h) i
step-Sound (beats token now h) i = Sound-Keeps (heartbeat_turn-Keeps token now _ _ h) i
step-Sound (stops out h) i = do_stop-Sound _ _ out h i

Reachable-Sound : {r : EdgeRuntime} → Reachable r → Sound r
unfolding make_edge_runtime
Reachable-Sound (made received_at) = record { members = refl; election = refl; complete = refl }
Reachable-Sound (called before step) = step-Sound step (Reachable-Sound before)

parts :
    (r : EdgeRuntime)
    → has_parts r ≡ true
    → (m : MembershipService) × (e : BullyElection) × (p : Pipeline) × (r.membership ≡ some m)
      × (r.election ≡ some e)
      × (r.pipeline ≡ some p)
parts r h = elim (Option-cases r.membership) [
  | inl q ↦ absurd (ground (arith, q, h))
  | inr (m, q) ↦ elim (Option-cases r.election) [
    | inl q' ↦ absurd (ground (arith, q', h))
    | inr (e, q') ↦ elim (Option-cases r.pipeline) [
      | inl q'' ↦ absurd (ground (arith, q'', h))
      | inr (p, q'') ↦ (m, e, p, q, q', q'')
    ]
  ]
]

not_stopped : (s : RuntimeState) → serves s ≡ true → is_stopped s ≡ false
not_stopped s h = ground arith

members_seen :
    (o : Option MembershipService) (m : MembershipService)
    → o ≡ some m
    → members_run o ≡ true
    → membership_or_empty o ≡ ok (Membership.build_snapshot m)
unfolding Membership.snapshot
members_seen none m q h = absurd (cc)
members_seen (some m') m q h = rw (sym (eq_of_some q), h) refl

leader_seen :
    (o : Option BullyElection) (e : BullyElection)
    → o ≡ some e
    → election_runs o ≡ true
    → leadership_or_none o ≡ ok e.state
unfolding current
leader_seen none e q h = absurd (cc)
leader_seen (some e') e q h = rw (sym (eq_of_some q), h) refl

-- Whatever calls were made since a runtime was made, starts that failed and stops among them: while
-- its state is ready or degraded it has a pipeline, so that generate never reaches for one that is
-- not there, and membership and election run, so that its snapshot is returned and does not throw.
pub snapshot-Reachable :
    (r : EdgeRuntime)
    → Reachable r
    → serves r.state ≡ true
    → (m : MembershipService) × (e : BullyElection) × (p : Pipeline) × (r.pipeline ≡ some p)
      × (snapshot r
          ≡ ok (record {
            state = r.state;
            membership = Membership.build_snapshot m;
            leadership = e.state;
            active_plan = r.current_plan;
            local_models = r.local_models;
            local_role = r.local_role;
          }))
unfolding snapshot runtime_snapshot
snapshot-Reachable r reached h =
    let i = Reachable-Sound reached in
    let (m, e, p, q, q', q'') = parts r (ground (arith, i.complete, h)) in
    let running = not_stopped r.state h in
    (
      m,
      e,
      p,
      q'',
      rw (running, members_seen r.membership m q i.members, leader_seen r.election e q' i.election)
          refl,
    )
