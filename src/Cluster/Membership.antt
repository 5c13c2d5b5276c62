-- ===== src/Cluster/Membership.antt =====
-- src/cluster/membership_service.cpp: the members that a node knows, and the snapshots that it hands
-- to its callback. A method returns the new state and the snapshots emitted, or the code of the
-- exception that it throws. A time is in nanoseconds; the lock makes each method one step.
pub mod Evolution
pub mod Invariant
use socrates.Prelude.{
  ℕ, ◌+◌, ◌-◌, ◌/◌, ◌%◌, ◌^◌, ◌≡◌, Bool, true, false, not, ◌&&◌, Option, none, some, List, [], ◌∷◌,
  ◌++◌, if◌then◌else◌, ltb, Text, text_eq, is_empty, any_of, map,
}
use socrates.Types.{
  CapabilityProfile, Result, ok, err, guard, failed_precondition, not_found, ◌>>=◌, ◌>>◌,
}
use socrates.Cluster.{
  PeerAdvertisement, MemberState, joining, alive, suspect, left, removed, NodeRole, leech,
  participant, ModelPresence, Member, MembershipSnapshot, is_alive,
}

-- `security::IdentityProvider`, of which membership reads the node id and the verdict.
pub record IdentityProvider : Type 0 where
  pub local_identity : Result Text
  pub authenticate : PeerAdvertisement → Text → Result Text

pub record MembershipService : Type 0 where
  pub identity_provider : Option IdentityProvider
  pub has_callback : Bool
  pub running : Bool
  pub members : List Member
  pub snapshot_revision : ℕ
  pub local_node_id : Text
  pub liveness_active : Bool

abbrev pub Emits : Type 0 → Type 0
Emits S = Result (S × List MembershipSnapshot)

unfoldable pub initial : MembershipService
initial = record {
  identity_provider = none;
  has_callback = false;
  running = false;
  members = [];
  snapshot_revision = 0;
  local_node_id = [];
  liveness_active = true;
}

abbrev pub id_of : Member → Text
id_of m = m.peer.node_id

unfoldable pub find_member : Text → List Member → Option Member
find_member id [] = none
find_member id (m ∷ ms) =
    let rest = find_member id ms in if text_eq (id_of m) id then some m else rest

-- A write through the iterator that `find_member` returns.
unfoldable pub update_member : Text → (Member → Member) → List Member → List Member
update_member id f [] = []
update_member id f (m ∷ ms) =
    let rest = m ∷ update_member id f ms in if text_eq (id_of m) id then f m ∷ ms else rest

unfoldable pub build_snapshot : MembershipService → MembershipSnapshot
build_snapshot s = record { revision = s.snapshot_revision; members = s.members }

abbrev pub emit_snapshot : MembershipService → List MembershipSnapshot
emit_snapshot s = if s.has_callback then build_snapshot s ∷ [] else []

-- `snapshot_revision_++` of a `std::uint64_t`.
abbrev pub next_revision : ℕ → ℕ
next_revision r = (r + 1) % 2 ^ 64

-- The new members under the next revision, handed to the callback.
abbrev pub publish : MembershipService → List Member → MembershipService × List MembershipSnapshot
publish s members =
    let s' = record s {
      members = members;
      snapshot_revision = next_revision s.snapshot_revision;
    } in
    (s', emit_snapshot s')

abbrev pub identity_or : Result Text → Text → Text
identity_or (ok id) old = id
identity_or (err e) old = old

unfoldable pub start : MembershipService → IdentityProvider → Bool → Result MembershipService
start s provider has_callback = do
  guard (not s.running) failed_precondition
  ok (record s {
    identity_provider = some provider;
    has_callback = has_callback;
    local_node_id = identity_or provider.local_identity s.local_node_id;
    running = true;
  })

-- A new node starts as a joining leech.
unfoldable pub new_member : PeerAdvertisement → ℕ → Member
new_member peer now = record {
  peer = peer;
  state = joining;
  role = leech;
  capability = none;
  models = [];
  last_seen = now;
}

abbrev pub revive : MemberState → MemberState
revive suspect = alive
revive joining = joining
revive alive = alive
revive left = left
revive removed = removed

unfoldable pub refresh : PeerAdvertisement → ℕ → Member → Member
refresh peer now m = record m { peer = peer; last_seen = now; state = revive m.state }

abbrev pub is_ok {ℓ} : {A : Type ℓ} → Result A → Bool
is_ok (ok a) = true
is_ok (err e) = false

unfoldable pub admits : Option IdentityProvider → PeerAdvertisement → Bool
admits none peer = false
admits (some p) peer = is_ok (p.authenticate peer peer.public_key_fingerprint)

-- The body of `observe` behind its guards.
abbrev pub observed :
    MembershipService
    → PeerAdvertisement
    → ℕ
    → Option Member
    → MembershipService × List MembershipSnapshot
observed s peer now none =
    if admits s.identity_provider peer
    then publish s (s.members ++ (new_member peer now ∷ []))
    else (s, [])
observed s peer now (some m) = publish s (update_member peer.node_id (refresh peer now) s.members)

unfoldable pub observe : MembershipService → PeerAdvertisement → ℕ → Emits MembershipService
observe s peer now = do
  guard s.running failed_precondition
  ok (
      if is_empty peer.node_id
      then (s, [])
      else observed s peer now (find_member peer.node_id s.members))

unfoldable pub set_capability : CapabilityProfile → Member → Member
set_capability profile m = record m { capability = some profile }

unfoldable pub update_capability : MembershipService → CapabilityProfile → Emits MembershipService
update_capability s profile = elim (find_member profile.node_id s.members) [
  | none ↦ err not_found
  | some m ↦ ok (publish s (update_member profile.node_id (set_capability profile) s.members))
]

unfoldable pub set_models : List ModelPresence → Member → Member
set_models models m = record m { models = models }

-- The models go to every member.
unfoldable pub update_model_presence :
    MembershipService → List ModelPresence → Emits MembershipService
update_model_presence s models = ok (publish s (map (set_models models) s.members))

unfoldable pub snapshot : MembershipService → Result MembershipSnapshot
snapshot s = do guard s.running failed_precondition; ok (build_snapshot s)

unfoldable pub stop : MembershipService → MembershipService
stop s = record s { liveness_active = false; running = false }

abbrev pub is_joining : MemberState → Bool
is_joining joining = true
is_joining alive = false
is_joining suspect = false
is_joining left = false
is_joining removed = false

unfoldable pub promote : ℕ → Member → Member
promote now m = if is_joining m.state then record m { state = alive; last_seen = now } else m

unfoldable pub promote_joining_members : MembershipService → ℕ → Emits MembershipService
promote_joining_members s now = ok (
    if any_of (λ m. is_joining m.state) s.members
    then publish s (map (promote now) s.members)
    else (s, []))

abbrev pub role_eq : NodeRole → NodeRole → Bool
role_eq leech leech = true
role_eq leech participant = false
role_eq participant leech = false
role_eq participant participant = true

unfoldable pub set_role : NodeRole → Member → Member
set_role role m = record m { role = role }

unfoldable pub update_local_role : MembershipService → NodeRole → Emits MembershipService
update_local_role s role = elim (find_member s.local_node_id s.members) [
  | none ↦ ok (s, [])
  | some m ↦ ok (
      if not (role_eq m.role role)
      then publish s (update_member s.local_node_id (set_role role) s.members)
      else (s, []))
]

-- More than ten whole seconds since the member was seen.
abbrev pub is_stale : ℕ → Member → Bool
is_stale now m = is_alive m.state && ltb 10 ((now - m.last_seen) / 10 ^ 9)

unfoldable pub age : ℕ → Member → Member
age now m = if is_stale now m then record m { state = suspect } else m

-- One increment for each member that turns suspect.
unfoldable pub age_revision : ℕ → List Member → ℕ → ℕ
age_revision now [] r = r
age_revision now (m ∷ ms) r = age_revision now ms (if is_stale now m then next_revision r else r)

-- A round of `liveness_loop` behind its sleep. It emits nothing.
unfoldable pub liveness_round : MembershipService → ℕ → MembershipService
liveness_round s now =
    if s.liveness_active && s.running
    then record s {
      members = map (age now) s.members;
      snapshot_revision = age_revision now s.members s.snapshot_revision;
    }
    else s

-- The calls that change members.
pub data Call : Type 0 where
  observes : PeerAdvertisement → ℕ → Call
  updates_capability : CapabilityProfile → Call
  updates_model_presence : List ModelPresence → Call
  promotes : ℕ → Call
  updates_local_role : NodeRole → Call
  ages : ℕ → Call

unfoldable pub step : MembershipService → Call → Emits MembershipService
step s (observes peer now) = observe s peer now
step s (updates_capability profile) = update_capability s profile
step s (updates_model_presence models) = update_model_presence s models
step s (promotes now) = promote_joining_members s now
step s (updates_local_role role) = update_local_role s role
step s (ages now) = ok (liveness_round s now, [])
