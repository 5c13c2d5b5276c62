-- ===== src/Runtime/Keeps.antt =====
-- What the calls of a started runtime in src/runtime/edge_runtime.cpp leave as it is: the parts that
-- are there and that they run.
use socrates.Prelude.{
  ℕ, ◌≡◌, refl, sym, subst, ap, ◌∙◌, Bool, true, false, not, ◌&&◌, Option, none, some, List, [],
  ◌∷◌, Text, is_some, if◌then◌else◌, arith, Bool-cases, inl, inr,
}
use socrates.Types.{
  CapabilityProfile, Result, ok, err, guard, >>=-eq-ok, ok-injective, cancelled, unavailable,
  failed_precondition,
}
use socrates.Cluster.{PeerAdvertisement, MembershipSnapshot, ModelPresence, participant}
use socrates.Cluster.Membership
use socrates.Cluster.Membership.Evolution
use socrates.Cluster.Membership.Evolution.{silent, adds, changes, aged, step-Effect}
use socrates.Cluster.Election.Laws.{update_membership_runs}
use socrates.Cluster.Membership.{
  Call, observes, updates_capability, updates_model_presence, promotes, updates_local_role,
  MembershipService, Emits, observe, update_capability, update_model_presence, update_local_role,
  promote_joining_members, find_member,
}
use socrates.Cluster.Election.{BullyElection, update_membership, Effect, current}
use socrates.Manifest.{ManifestSummary}
use socrates.Scheduler.{PipelinePlan}
use socrates.Scheduler.Plan.{Host}
use socrates.Pipeline.{InferenceRequest}
use socrates.Runtime.State.{serves}
use socrates.Runtime.Start.{register_self, caught}
use socrates.Runtime.{
  EdgeRuntime, RuntimeSnapshot, generate, join_cluster, heartbeat_turn, tell, told, heard, adopt,
  announce_models, announce_to, promote_members, promote_in, schedule_on, is_local_leader, is_idle,
  or_err, generate_on, simulated_models, emit_snapshot, schedule_plan,
}

abbrev pub members_run : Option MembershipService → Bool
members_run none = true
members_run (some m) = m.running

abbrev pub election_runs : Option BullyElection → Bool
election_runs none = true
election_runs (some e) = e.running

abbrev pub has_parts : EdgeRuntime → Bool
has_parts r = is_some r.membership && is_some r.election && is_some r.pipeline

Effect-runs :
    (s : MembershipService) (r : MembershipService × List MembershipSnapshot)
    → Evolution.Effect s r
    → r.0.running ≡ s.running
Effect-runs s r silent = refl
Effect-runs s r (adds peer now a b c) = refl
Effect-runs s r (changes ms k) = refl
Effect-runs s r (aged now) = refl

step_runs :
    (s : MembershipService) (c : Call) (r : MembershipService × List MembershipSnapshot)
    → Membership.step s c ≡ ok r
    → r.0.running ≡ s.running
step_runs s c r h = Effect-runs s r (step-Effect s c r h)

caught_runs :
    (before : MembershipService × List MembershipSnapshot) (c : Call)
    (o : Result (MembershipService × List MembershipSnapshot))
    → Membership.step before.0 c ≡ o
    → (caught before o).0.running ≡ before.0.running
caught_runs before c (ok (m, out)) h = step_runs before.0 c (m, out) h
caught_runs before c (err e) h = refl

pub register_self_runs :
    (peer : PeerAdvertisement) (profile : CapabilityProfile) (now : ℕ) (m : MembershipService)
    → (register_self peer profile now m).0.running ≡ m.running
unfolding register_self Membership.step
register_self_runs peer profile now m =
    let observed = caught (m, []) (observe m peer now) in
    let promoted = caught observed (promote_joining_members observed.0 now) in
    caught_runs promoted (updates_capability profile) _ refl
    ∙ caught_runs observed (promotes now) _ refl
    ∙ caught_runs (m, []) (observes peer now) _ refl

heard_runs :
    (token : Text) (now : ℕ) (s : MembershipSnapshot) (e : BullyElection)
    (o : Result (BullyElection × List Effect))
    → update_membership e s token now ≡ o
    → (heard e o).running ≡ e.running
heard_runs token now s e (ok r) h = update_membership_runs e s token now r h
heard_runs token now s e (err code) h = refl

told_runs :
    (token : Text) (now : ℕ) (out : List MembershipSnapshot) (e : BullyElection)
    → (told token now out e).running ≡ e.running
told_runs token now [] e = refl
told_runs token now (s ∷ rest) e =
    told_runs token now rest (heard e (update_membership e s token now))
    ∙ heard_runs token now s e _ refl

-- Telling the election keeps it there and running.
tell_runs :
    (token : Text) (now : ℕ) (out : List MembershipSnapshot) (o : Option BullyElection)
    → (election_runs (tell token now out o) ≡ election_runs o)
      × (is_some (tell token now out o) ≡ is_some o)
tell_runs token now out none = (refl, refl)
tell_runs token now out (some e) = (told_runs token now out e, refl)

-- A change of the parts that keeps what there is.
pub record Keeps (r r' : EdgeRuntime) : Type 0 where
  pub members : members_run r'.membership ≡ members_run r.membership
  pub election : election_runs r'.election ≡ election_runs r.election
  pub complete : has_parts r ≡ true → has_parts r' ≡ true
  pub state : r'.state ≡ r.state

pub Keeps-refl : (r : EdgeRuntime) → Keeps r r
Keeps-refl r = record { members = refl; election = refl; complete = λ h. h; state = refl }

Keeps-trans : {a b c : EdgeRuntime} → Keeps a b → Keeps b c → Keeps a c
Keeps-trans k l = record {
  members = l.members ∙ k.members;
  election = l.election ∙ k.election;
  complete = λ h. l.complete (k.complete h);
  state = l.state ∙ k.state;
}

-- Membership after a call of it, and the election that was told.
Keeps-step :
    (token : Text) (now : ℕ) (r : EdgeRuntime) (m : MembershipService) (c : Call)
    (m' : MembershipService) (out : List MembershipSnapshot)
    → r.membership ≡ some m
    → Membership.step m c ≡ ok (m', out)
    → Keeps r (record r { membership = some m'; election = tell token now out r.election })
Keeps-step token now r m c m' out e h = record {
  members = step_runs m c (m', out) h ∙ sym (ap members_run e);
  election = (tell_runs token now out r.election).0;
  complete = λ q. ground (arith, q, (tell_runs token now out r.election).1);
  state = refl;
}

announce_to-Keeps :
    (token : Text) (now : ℕ) (models : List ModelPresence) (r r' : EdgeRuntime)
    (o : Option MembershipService)
    → r.membership ≡ o
    → announce_to token now models r o ≡ ok r'
    → Keeps r r'
unfolding Membership.step
announce_to-Keeps token now models r r' none e h = subst (Keeps r) (ok-injective h) (Keeps-refl r)
announce_to-Keeps token now models r r' (some m) e h =
    let ((m₁, out₁), first, h₁) = >>=-eq-ok (update_model_presence m models) _ h in
    let ((m₂, out₂), second, h₂) = >>=-eq-ok (update_local_role m₁ participant) _ h₁ in
    let k₁ = Keeps-step token now r m (updates_model_presence models) m₁ out₁ e first in
    let r₁ : EdgeRuntime = record r {
      membership = some m₁;
      election = tell token now out₁ r.election;
    } in
    let k₂ = Keeps-step token now r₁ m₁ (updates_local_role participant) m₂ out₂ refl second in
    subst (Keeps r) (ok-injective h₂) (Keeps-trans k₁ k₂)

announce_models-Keeps :
    (token : Text) (now : ℕ) (models : List ModelPresence) (r r' : EdgeRuntime)
    → announce_models token now models r ≡ ok r'
    → Keeps r r'
unfolding announce_models
announce_models-Keeps token now models r r' h =
    announce_to-Keeps token now models r r' r.membership refl h

promote_in-Keeps :
    (token : Text) (now : ℕ) (r r' : EdgeRuntime) (o : Option MembershipService)
    → r.membership ≡ o
    → promote_in token now r o ≡ ok r'
    → Keeps r r'
unfolding Membership.step
promote_in-Keeps token now r r' none e h = subst (Keeps r) (ok-injective h) (Keeps-refl r)
promote_in-Keeps token now r r' (some m) e h =
    let ((m', out), first, h') = >>=-eq-ok (promote_joining_members m now) _ h in
    subst (Keeps r) (ok-injective h') (Keeps-step token now r m (promotes now) m' out e first)

promote_members-Keeps :
    (token : Text) (now : ℕ) (r r' : EdgeRuntime) → promote_members token now r ≡ ok r' → Keeps r r'
unfolding promote_members
promote_members-Keeps token now r r' h = promote_in-Keeps token now r r' r.membership refl h

adopt-Keeps : (r : EdgeRuntime) (plan : Result PipelinePlan) → Keeps r (adopt r plan).0
adopt-Keeps r (ok plan) = record {
  members = refl;
  election = refl;
  complete = λ h. h;
  state = refl;
}
adopt-Keeps r (err e) = Keeps-refl r

schedule_on-Keeps :
    (host : Host) (published : Option (Result ManifestSummary)) (r : EdgeRuntime)
    (m : Option MembershipService) (e : Option BullyElection)
    (result : EdgeRuntime × List PipelinePlan)
    → schedule_on host published r m e ≡ ok result
    → Keeps r result.0
schedule_on-Keeps host published r none e result h =
    subst (λ x. Keeps r x.0) (ok-injective h) (Keeps-refl r)
schedule_on-Keeps host published r (some m) none result h =
    subst (λ x. Keeps r x.0) (ok-injective h) (Keeps-refl r)
schedule_on-Keeps host published r (some m) (some e) result h =
    let (snap, _, h₁) = >>=-eq-ok (Membership.snapshot m) _ h in
    let (ls, _, h₂) = >>=-eq-ok (current e) _ h₁ in
    subst (λ x. Keeps r x.0) (ok-injective h₂) (adopt-Keeps r _)

planned-Keeps :
    (host : Host) (published : Option (Result ManifestSummary)) (r : EdgeRuntime) (leader : Bool)
    (result : EdgeRuntime × List PipelinePlan)
    → (if leader then schedule_plan host published r else ok (r, [])) ≡ ok result
    → Keeps r result.0
unfolding schedule_plan
planned-Keeps host published r true result h =
    schedule_on-Keeps host published r r.membership r.election result h
planned-Keeps host published r false result h =
    subst (λ x. Keeps r x.0) (ok-injective h) (Keeps-refl r)

pub heartbeat_turn-Keeps :
    (token : Text) (now : ℕ) (r r' : EdgeRuntime) → heartbeat_turn token now r ≡ ok r' → Keeps r r'
unfolding heartbeat_turn
heartbeat_turn-Keeps token now r r' h =
    let (leader, first, h₁) = >>=-eq-ok (is_local_leader r) _ h in
    elim (Bool-cases (leader && is_idle r.pipeline)) [
      | inl e ↦ promote_members-Keeps token now r r' (rw e at h₁)
      | inr e ↦ subst (Keeps r) (ok-injective (rw e at h₁)) (Keeps-refl r)
    ]

pub generate-Keeps :
    (r r' : EdgeRuntime) (request : InferenceRequest) (has_callback stop_requested : Bool)
    (handle : ℕ)
    → generate r request has_callback stop_requested ≡ ok (r', handle)
    → Keeps r r'
unfolding generate
generate-Keeps r r' request has_callback stop_requested handle h =
    let (_, _, h₁) = >>=-eq-ok (guard (serves r.state) failed_precondition) _ h in
    let (plan, _, h₂) = >>=-eq-ok (or_err r.current_plan) _ h₁ in
    let ((p, handle'), _, h₃) =
      >>=-eq-ok (generate_on r.pipeline request plan has_callback stop_requested) _ h₂ in
    subst (Keeps r) (ap (λ x. x.0) (ok-injective h₃))
      (record { members = refl; election = refl; complete = λ q. ground (arith, q); state = refl })

pub join_cluster-Keeps :
    (host : Host) (published : Option (Result ManifestSummary)) (token : Text) (now : ℕ)
    (r r' : EdgeRuntime) (stop_requested : Bool) (saved : List PipelinePlan)
    (out : List RuntimeSnapshot)
    → join_cluster host published token now r stop_requested ≡ ok (r', saved, out)
    → Keeps r r'
unfolding join_cluster
join_cluster-Keeps host published token now r r' stop_requested saved out h =
    let (_, _, h₁) = >>=-eq-ok (guard (not stop_requested) cancelled) _ h in
    let (_, _, h₂) =
      >>=-eq-ok (guard (not (r.production_mode && not r.has_transport)) unavailable) _ h₁ in
    let (_, _, h₃) =
      >>=-eq-ok (guard (not (r.production_mode && not r.has_backend_registry)) unavailable) _ h₂ in
    let (r₁, announced, h₄) = >>=-eq-ok (announce_models token now simulated_models r) _ h₃ in
    let r₂ : EdgeRuntime = record r₁ {
      local_models = simulated_models;
      local_role = participant;
    } in
    let (leader, _, h₅) = >>=-eq-ok (is_local_leader r₂) _ h₄ in
    let ((r₃, saved'), scheduled, h₆) =
      >>=-eq-ok (if leader then schedule_plan host published r₂ else ok (r₂, [])) _ h₅ in
    let (out', _, h₇) = >>=-eq-ok (emit_snapshot r₃) _ h₆ in
    let same : Keeps r₁ r₂ = record {
      members = refl;
      election = refl;
      complete = λ q. q;
      state = refl;
    } in
    let planned = planned-Keeps host published r₂ leader (r₃, saved') scheduled in
    let before = announce_models-Keeps token now simulated_models r r₁ announced in
    subst (λ x. Keeps r x.0) (ok-injective h₇) (Keeps-trans before (Keeps-trans same planned))
