-- ===== src/Cluster/Membership/Evolution.antt =====
-- How a call on src/cluster/membership_service.cpp changes the members, one by one.
use socrates.Prelude.{
  ℕ, ◌≡◌, refl, sym, Bool, true, false, not, Option, none, some, List, [], ◌∷◌, ◌++◌, map,
  if◌then◌else◌, Text, text_eq, text_eq→eq, is_empty, any_of, arith, subst, Bool-cases,
  Option-cases, inl, inr, ◌&&◌,
}
use socrates.Types.{ok, ok-injective, guard, failed_precondition, >>=-eq-ok, CapabilityProfile}
use socrates.Cluster.{
  PeerAdvertisement, MemberState, joining, alive, suspect, left, removed, leech, NodeRole, Member,
  MembershipSnapshot, is_alive,
}
use socrates.Cluster.Membership.{
  MembershipService, id_of, find_member, update_member, publish, new_member, revive, refresh,
  admits, observed, observe, set_capability, update_capability, set_models, update_model_presence,
  is_joining, promote, promote_joining_members, set_role, update_local_role, is_stale, age,
  age_revision, liveness_round, Call, observes, updates_capability, updates_model_presence,
  promotes, updates_local_role, ages, step, role_eq,
}

-- The state machine of a member.
pub data Edge : MemberState → MemberState → Type 0 where
  stays : (a : MemberState) → Edge a a
  joins : Edge joining alive
  lapses : Edge alive suspect
  returns : Edge suspect alive

-- A member keeps its node id and moves along at most one edge.
pub record Moves (m m' : Member) : Type 0 where
  pub same_id : id_of m' ≡ id_of m
  pub edge : Edge m.state m'.state

-- The same members in the same places, each moved along at most one edge.
abbrev pub Keeps : List Member → List Member → Type 0
Keeps [] [] = Unit
Keeps [] (n ∷ rest) = ⊥
Keeps (m ∷ ms) [] = ⊥
Keeps (m ∷ ms) (m' ∷ ms') = Moves m m' × Keeps ms ms'

-- Nobody leaves the list or changes place; at most one joining leech is added at the end.
abbrev pub Evolves : List Member → List Member → Type 0
Evolves [] [] = Unit
Evolves [] (n ∷ []) = (n.state ≡ joining) × (n.role ≡ leech)
Evolves [] (n ∷ o ∷ rest) = ⊥
Evolves (m ∷ ms) [] = ⊥
Evolves (m ∷ ms) (m' ∷ ms') = Moves m m' × Evolves ms ms'

-- What a call does: nothing, one new member, a change in place, or a round of ageing.
pub data Effect (s : MembershipService) : MembershipService × List MembershipSnapshot → Type 0 where
  silent : Effect s (s, [])
  adds :
      (peer : PeerAdvertisement) (now : ℕ)
      → find_member peer.node_id s.members ≡ none
      → admits s.identity_provider peer ≡ true
      → is_empty peer.node_id ≡ false
      → Effect s (publish s (s.members ++ (new_member peer now ∷ [])))
  changes : (ms : List Member) → Keeps s.members ms → Effect s (publish s ms)
  aged :
      (now : ℕ)
      → Effect s (
        record s {
          members = map (age now) s.members;
          snapshot_revision = age_revision now s.members s.snapshot_revision;
        },
        [],
      )

Moves-refl : (m : Member) → Moves m m
Moves-refl m = record { same_id = refl; edge = stays m.state }

Keeps-refl : (ms : List Member) → Keeps ms ms
Keeps-refl [] = tt
Keeps-refl (m ∷ ms) = (Moves-refl m, Keeps-refl ms)

Keeps-map :
    (f : Member → Member) (ms : List Member) → ((m : Member) → Moves m (f m)) → Keeps ms (map f ms)
Keeps-map f [] h = tt
Keeps-map f (m ∷ ms) h = (h m, Keeps-map f ms h)

Keeps-update :
    (id : Text) (f : Member → Member) (ms : List Member)
    → ((m : Member) → id_of m ≡ id → Moves m (f m))
    → Keeps ms (update_member id f ms)
unfolding update_member
Keeps-update id f [] h = tt
Keeps-update id f (m ∷ ms) h = elim (Bool-cases (text_eq (id_of m) id)) [
  | inl e ↦ rw e (h m (text_eq→eq (id_of m) id e), Keeps-refl ms)
  | inr e ↦ rw e (Moves-refl m, Keeps-update id f ms h)
]

Edge-revive : (a : MemberState) → Edge a (revive a)
Edge-revive joining = stays joining
Edge-revive alive = stays alive
Edge-revive suspect = returns
Edge-revive left = stays left
Edge-revive removed = stays removed

Moves-refresh :
    (peer : PeerAdvertisement) (now : ℕ) (m : Member)
    → id_of m ≡ peer.node_id
    → Moves m (refresh peer now m)
unfolding refresh
Moves-refresh peer now m e = record { same_id = sym e; edge = Edge-revive m.state }

joining_of : (a : MemberState) → is_joining a ≡ true → a ≡ joining
joining_of joining h = refl
joining_of _ h = absurd (cc)

alive_of : (a : MemberState) → is_alive a ≡ true → a ≡ alive
alive_of alive h = refl
alive_of _ h = absurd (cc)

Moves-promote : (now : ℕ) (m : Member) → Moves m (promote now m)
unfolding promote
Moves-promote now m = elim (Bool-cases (is_joining m.state)) [
  | inl e ↦ rw e (record { same_id = refl; edge = rw (joining_of m.state e) joins })
  | inr e ↦ rw e (Moves-refl m)
]

Moves-age : (now : ℕ) (m : Member) → Moves m (age now m)
unfolding age
Moves-age now m = elim (Bool-cases (is_stale now m)) [
  | inl e ↦
      rw e (record { same_id = refl; edge = rw (alive_of m.state (ground (arith, e))) lapses })
  | inr e ↦ rw e (Moves-refl m)
]

from-ok :
    (s : MembershipService) (r x : MembershipService × List MembershipSnapshot)
    → ok r ≡ ok x
    → Effect s r
    → Effect s x
from-ok s r x h a = subst (Effect s) (ok-injective h) a

observed-Effect :
    (s : MembershipService) (peer : PeerAdvertisement) (now : ℕ) (o : Option Member)
    → find_member peer.node_id s.members ≡ o
    → is_empty peer.node_id ≡ false
    → Effect s (observed s peer now o)
observed-Effect s peer now none e ne = elim (Bool-cases (admits s.identity_provider peer)) [
  | inl a ↦ rw a (adds peer now e a ne)
  | inr a ↦ rw a silent
]
observed-Effect s peer now (some m) e ne =
    changes _
      (Keeps-update peer.node_id (refresh peer now) s.members (λ m e. Moves-refresh peer now m e))

if-Effect :
    (s : MembershipService) (b : Bool) (x y : MembershipService × List MembershipSnapshot)
    → (b ≡ true → Effect s x)
    → (b ≡ false → Effect s y)
    → Effect s (if b then x else y)
if-Effect s true x y hx hy = hx refl
if-Effect s false x y hx hy = hy refl

observe-Effect :
    (s : MembershipService) (peer : PeerAdvertisement) (now : ℕ)
    (r : MembershipService × List MembershipSnapshot)
    → observe s peer now ≡ ok r
    → Effect s r
unfolding observe
observe-Effect s peer now r h =
    let (_, _, k) = >>=-eq-ok (guard s.running failed_precondition) _ h in
    from-ok s _ r k (
      if-Effect s (is_empty peer.node_id) _ _ (λ _. silent)
        (observed-Effect s peer now (find_member peer.node_id s.members) refl))

update_capability-Effect :
    (s : MembershipService) (profile : CapabilityProfile)
    (r : MembershipService × List MembershipSnapshot)
    → update_capability s profile ≡ ok r
    → Effect s r
unfolding update_capability set_capability
update_capability-Effect s profile r h =
    elim (Option-cases (find_member profile.node_id s.members)) [
      | inl e ↦ absurd (ground (arith, e))
      | inr (m, e) ↦ from-ok s _ r (rw (e, update_capability) at h) (
          changes _ (
            Keeps-update profile.node_id (set_capability profile) s.members
              (λ m _. record { same_id = refl; edge = stays m.state })))
    ]

update_local_role-Effect :
    (s : MembershipService) (role : NodeRole) (r : MembershipService × List MembershipSnapshot)
    → update_local_role s role ≡ ok r
    → Effect s r
unfolding update_local_role set_role
update_local_role-Effect s role r h = elim (Option-cases (find_member s.local_node_id s.members)) [
  | inl e ↦ from-ok s _ r (rw (e, update_local_role) at h) silent
  | inr (m, e) ↦ from-ok s _ r (rw (e, update_local_role) at h) (
      if-Effect s (not (role_eq m.role role)) _ _
        (λ _. changes _ (
          Keeps-update s.local_node_id (set_role role) s.members
            (λ m _. record { same_id = refl; edge = stays m.state })))
        (λ _. silent))
]

pub step-Effect :
    (s : MembershipService) (c : Call) (r : MembershipService × List MembershipSnapshot)
    → step s c ≡ ok r
    → Effect s r
unfolding step update_model_presence set_models promote_joining_members liveness_round
step-Effect s (observes peer now) r h = observe-Effect s peer now r h
step-Effect s (updates_capability profile) r h = update_capability-Effect s profile r h
step-Effect s (updates_model_presence models) r h = from-ok s _ r h (
    changes _ (
      Keeps-map (set_models models) s.members
        (λ m. record { same_id = refl; edge = stays m.state })))
step-Effect s (promotes now) r h = from-ok s _ r h (
    if-Effect s (any_of (λ m. is_joining m.state) s.members) _ _
      (λ _. changes _ (Keeps-map (promote now) s.members (Moves-promote now))) (λ _. silent))
step-Effect s (updates_local_role role) r h = update_local_role-Effect s role r h
step-Effect s (ages now) r h = from-ok s _ r h (elim (Bool-cases (s.liveness_active && s.running)) [
  | inl e ↦ rw e (aged now)
  | inr e ↦ rw e silent
])

Evolves-kept : (ms ms' : List Member) → Keeps ms ms' → Evolves ms ms'
Evolves-kept [] [] k = tt
Evolves-kept [] (n ∷ rest) k = elim k [ ]
Evolves-kept (m ∷ ms) [] k = elim k [ ]
Evolves-kept (m ∷ ms) (m' ∷ ms') k = (k.0, Evolves-kept ms ms' k.1)

Evolves-add :
    (ms : List Member) (peer : PeerAdvertisement) (now : ℕ)
    → Evolves ms (ms ++ (new_member peer now ∷ []))
unfolding new_member
Evolves-add [] peer now = (refl, refl)
Evolves-add (m ∷ ms) peer now = (Moves-refl m, Evolves-add ms peer now)

Effect-Evolves :
    (s : MembershipService) {r : MembershipService × List MembershipSnapshot}
    → Effect s r
    → Evolves s.members r.0.members
Effect-Evolves s silent = Evolves-kept s.members s.members (Keeps-refl s.members)
Effect-Evolves s (adds peer now e a ne) = Evolves-add s.members peer now
Effect-Evolves s (changes ms k) = Evolves-kept s.members ms k
Effect-Evolves s (aged now) =
    Evolves-kept s.members _ (Keeps-map (age now) s.members (Moves-age now))

-- Every call that returns moves each member along at most one edge of the state machine, and
-- removes, reorders or adds nobody but one joining leech.
pub step-Evolves :
    (s t : MembershipService) (c : Call) (out : List MembershipSnapshot)
    → step s c ≡ ok (t, out)
    → Evolves s.members t.members
step-Evolves s t c out h = Effect-Evolves s (step-Effect s c (t, out) h)

pub Keeps-age : (now : ℕ) (ms : List Member) → Keeps ms (map (age now) ms)
Keeps-age now ms = Keeps-map (age now) ms (Moves-age now)
