-- ===== src/Runtime.antt =====
-- src/runtime/edge_runtime.cpp: the state of `EdgeRuntimeImpl` and its calls once it has started. A
-- component that is not there is none. A `RuntimeError` that a call lets through is the err of its
-- code. What membership hands to the callback of the caller is left out.
pub mod State
pub mod Shards
pub mod Start
pub mod Keeps
pub mod Reachable
pub mod Alone
pub mod Idle
pub mod Leave
pub mod Profile
use socrates.Prelude.{
  ℕ, Bool, true, false, not, ◌&&◌, Option, none, some, List, [], ◌∷◌, Text, text, text_eq, is_empty,
  if◌then◌else◌, ◌==◌,
}
use socrates.Types.{
  Result, ok, err, guard, CapabilityProfile, ◌>>=◌, ◌>>◌, failed_precondition, cancelled,
  unavailable, internal,
}
use socrates.Cluster.{ModelPresence, NodeRole, participant, MembershipSnapshot, LeadershipState}
use socrates.Cluster.Membership
use socrates.Cluster.Membership.{
  MembershipService, update_model_presence, update_local_role, promote_joining_members,
}
use socrates.Cluster.Election.{BullyElection, Effect, update_membership, current, is_some_text}
use socrates.Scheduler.{PipelinePlan}
use socrates.Scheduler.Plan.{Host, create_plan}
use socrates.Pipeline.{InferenceRequest}
use socrates.Pipeline.Store.{Pipeline}
use socrates.Pipeline.Control
use socrates.Pipeline.Control.{active_generation_count}
use socrates.Runtime.State.{RuntimeState, stopped, is_stopped, is_stopping, serves}
use socrates.Manifest.{ManifestSummary}
use socrates.Runtime.Shards.{scheduling_input}

pub record RuntimeSnapshot : Type 0 where
  pub state : RuntimeState
  pub membership : MembershipSnapshot
  pub leadership : LeadershipState
  pub active_plan : Option PipelinePlan
  pub local_models : List ModelPresence
  pub local_role : NodeRole

pub record EdgeRuntime : Type 0 where
  pub state : RuntimeState
  pub production_mode : Bool
  pub has_callback : Bool
  pub local_node_id : Text
  pub local_profile : CapabilityProfile
  pub membership : Option MembershipService
  pub election : Option BullyElection
  pub pipeline : Option Pipeline
  pub has_discovery : Bool
  pub has_transport : Bool
  pub has_backend_registry : Bool
  pub current_plan : Option PipelinePlan
  pub local_models : List ModelPresence
  pub local_role : NodeRole
  pub heartbeat_active : Bool

abbrev pub membership_or_empty : Option MembershipService → Result MembershipSnapshot
membership_or_empty none = ok (record { revision = 0; members = [] })
membership_or_empty (some m) = Membership.snapshot m

abbrev pub no_leader : LeadershipState
no_leader = record {
  leader_id = none;
  fence = record { term = 0; token = []; membership_revision = 0 };
  locally_valid_until = 0;
}

abbrev pub leadership_or_none : Option BullyElection → Result LeadershipState
leadership_or_none none = ok no_leader
leadership_or_none (some e) = current e

unfoldable pub runtime_snapshot : EdgeRuntime → Result RuntimeSnapshot
runtime_snapshot r = do
  membership ← membership_or_empty r.membership
  leadership ← leadership_or_none r.election
  ok (record {
    state = r.state;
    membership = membership;
    leadership = leadership;
    active_plan = r.current_plan;
    local_models = r.local_models;
    local_role = r.local_role;
  })

unfoldable pub snapshot : EdgeRuntime → Result RuntimeSnapshot
snapshot r = do guard (not (is_stopped r.state)) failed_precondition; runtime_snapshot r

unfoldable pub emit_snapshot : EdgeRuntime → Result (List RuntimeSnapshot)
emit_snapshot r = if r.has_callback then (runtime_snapshot r >>= λ s. ok (s ∷ [])) else ok []

unfoldable pub is_local_leader : EdgeRuntime → Result Bool
is_local_leader r = elim r.election [
  | none ↦ ok false
  | some e ↦ current e >>= λ ls. ok (is_some_text ls.leader_id r.local_node_id)
]

abbrev pub or_err {ℓ} : {A : Type ℓ} → Option A → Result A
or_err none = err failed_precondition
or_err (some a) = ok a

-- A pipeline that is not there, which the source dereferences, is an internal error.
abbrev pub generate_on :
    Option Pipeline → InferenceRequest → PipelinePlan → Bool → Bool → Result (Pipeline × ℕ)
generate_on none request plan has_callback stop_requested = err internal
generate_on (some p) request plan has_callback stop_requested =
    Control.generate p request plan has_callback stop_requested

unfoldable pub generate : EdgeRuntime → InferenceRequest → Bool → Bool → Result (EdgeRuntime × ℕ)
generate r request has_callback stop_requested = do
  guard (serves r.state) failed_precondition
  plan ← or_err r.current_plan
  (p, handle) ← generate_on r.pipeline request plan has_callback stop_requested
  ok (record r { pipeline = some p }, handle)

-- A plan that is made is taken over, and saved unless its shards are made up.
abbrev pub adopt : EdgeRuntime → Result PipelinePlan → EdgeRuntime × List PipelinePlan
adopt r (err e) = (r, [])
adopt r (ok plan) = (
  record r { current_plan = some plan },
  if text_eq plan.model_id (text "auto-generated") then [] else plan ∷ [],
)

abbrev pub schedule_on :
    Host
    → Option (Result ManifestSummary)
    → EdgeRuntime
    → Option MembershipService
    → Option BullyElection
    → Result (EdgeRuntime × List PipelinePlan)
schedule_on host published r none e = ok (r, [])
schedule_on host published r (some m) none = ok (r, [])
schedule_on host published r (some m) (some e) = do
  snap ← Membership.snapshot m
  ls ← current e
  ok (adopt r (create_plan host (scheduling_input published snap ls.fence)))

-- `published` is what the repository makes of the manifest, if there is one. The plans are those
-- handed to the store.
unfoldable pub schedule_plan :
    Host → Option (Result ManifestSummary) → EdgeRuntime → Result (EdgeRuntime × List PipelinePlan)
schedule_plan host published r = schedule_on host published r r.membership r.election

-- The callback of membership; what the election throws is caught.
abbrev pub heard : BullyElection → Result (BullyElection × List Effect) → BullyElection
heard e (ok (e', effects)) = e'
heard e (err code) = e

abbrev pub told : Text → ℕ → List MembershipSnapshot → BullyElection → BullyElection
told token now [] e = e
told token now (s ∷ rest) e = told token now rest (heard e (update_membership e s token now))

abbrev pub tell : Text → ℕ → List MembershipSnapshot → Option BullyElection → Option BullyElection
tell token now out none = none
tell token now out (some e) = some (told token now out e)

abbrev pub announce_to :
    Text → ℕ → List ModelPresence → EdgeRuntime → Option MembershipService → Result EdgeRuntime
announce_to token now models r none = ok r
announce_to token now models r (some m) = do
  (m₁, out₁) ← update_model_presence m models
  (m₂, out₂) ← update_local_role m₁ participant
  ok (record r {
    membership = some m₂;
    election = tell token now out₂ (tell token now out₁ r.election);
  })

unfoldable pub announce_models : Text → ℕ → List ModelPresence → EdgeRuntime → Result EdgeRuntime
announce_models token now models r = announce_to token now models r r.membership

abbrev pub model_presence : Text → ℕ → ModelPresence
model_presence id bytes = record {
  model_id = id;
  manifest_revision = text "1.0";
  quantization = text "int4";
  downloaded_bytes = bytes;
  total_bytes = bytes;
  ready = true;
}

-- The shards of these models are not downloaded: the source says that it simulates it.
abbrev pub simulated_models : List ModelPresence
simulated_models =
    model_presence (text "qwen3-1.8b") 1500000000 ∷ model_presence (text "qwen3-4b") 2800000000 ∷ []

unfoldable pub join_cluster :
    Host
    → Option (Result ManifestSummary)
    → Text
    → ℕ
    → EdgeRuntime
    → Bool
    → Result (EdgeRuntime × List PipelinePlan × List RuntimeSnapshot)
join_cluster host published token now r stop_requested = do
  guard (not stop_requested) cancelled
  guard (not (r.production_mode && not r.has_transport)) unavailable
  guard (not (r.production_mode && not r.has_backend_registry)) unavailable
  r₁ ← announce_models token now simulated_models r
  let r₂ = record r₁ { local_models = simulated_models; local_role = participant }
  leader ← is_local_leader r₂
  (r₃, saved) ← if leader then schedule_plan host published r₂ else ok (r₂, [])
  out ← emit_snapshot r₃
  ok (r₃, saved, out)

abbrev pub is_idle : Option Pipeline → Bool
is_idle none = false
is_idle (some p) = active_generation_count p == 0

abbrev pub promote_in : Text → ℕ → EdgeRuntime → Option MembershipService → Result EdgeRuntime
promote_in token now r none = ok r
promote_in token now r (some m) = do
  (m', out) ← promote_joining_members m now
  ok (record r { membership = some m'; election = tell token now out r.election })

unfoldable pub promote_members : Text → ℕ → EdgeRuntime → Result EdgeRuntime
promote_members token now r = promote_in token now r r.membership

-- A turn of the heartbeat, whose warnings are left out. `is_local_leader` is outside its `try` blocks,
-- so an err here ends the process.
unfoldable pub heartbeat_turn : Text → ℕ → EdgeRuntime → Result EdgeRuntime
heartbeat_turn token now r = do
  leader ← is_local_leader r
  if leader && is_idle r.pipeline then promote_members token now r else ok r

-- What is left of a runtime that stops.
abbrev pub halted : EdgeRuntime → EdgeRuntime
halted r = record r {
  state = stopped;
  membership = none;
  election = none;
  pipeline = none;
  has_discovery = false;
  has_transport = false;
  heartbeat_active = false;
}

-- `stop` and `leave`. Leaving first waits for the generations, and stops membership and election
-- before it does; what is left in the end is the same.
unfoldable pub do_stop : EdgeRuntime → Result (EdgeRuntime × List RuntimeSnapshot)
do_stop r =
    let last : Result (EdgeRuntime × List RuntimeSnapshot) =
      emit_snapshot (halted r) >>= λ out. ok (halted r, out) in
    if is_stopped r.state then ok (r, []) else if is_stopping r.state then ok (r, []) else last
