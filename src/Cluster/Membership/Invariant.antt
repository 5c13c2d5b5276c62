-- ===== src/Cluster/Membership/Invariant.antt =====
-- Invariants of src/cluster/membership_service.cpp: distinct node ids, and a revision that grows
-- with every change.
use socrates.Prelude.{
  ℕ, ◌+◌, ◌^◌, ◌≤◌, ◌<◌, ◌≡◌, refl, ap, ◌∙◌, Bool, true, not, none, List, [], ◌∷◌, ◌++◌, map, Text,
  text_eq, text_eq_symm, all_of, arith, Bool-cases, ◌⊎◌, inl, inr, length, all_of-append,
}
use socrates.Types.{ok}
use socrates.Cluster.{Member, MembershipSnapshot}
use socrates.Cluster.Membership.{
  MembershipService, id_of, find_member, publish, new_member, next_revision, emit_snapshot,
  is_stale, age, age_revision, build_snapshot, Call, step,
}
use socrates.Cluster.Membership.Evolution.{
  Keeps, Effect, silent, adds, changes, aged, step-Effect, Keeps-age,
}

abbrev unlike : Text → Member → Bool
unlike id m = not (text_eq (id_of m) id)

-- No two members have one node id.
abbrev pub Distinct : List Member → Type 0
Distinct [] = Unit
Distinct (m ∷ ms) = (all_of (unlike (id_of m)) ms ≡ true) × Distinct ms

unlike-kept :
    (id : Text) (ms ms' : List Member)
    → Keeps ms ms'
    → all_of (unlike id) ms' ≡ all_of (unlike id) ms
unlike-kept id [] [] k = refl
unlike-kept id [] (n ∷ rest) k = elim k [ ]
unlike-kept id (m ∷ ms) [] k = elim k [ ]
unlike-kept id (m ∷ ms) (m' ∷ ms') k = rw (k.0.same_id, unlike-kept id ms ms' k.1)

Distinct-kept : (ms ms' : List Member) → Keeps ms ms' → Distinct ms → Distinct ms'
Distinct-kept [] [] k d = tt
Distinct-kept [] (n ∷ rest) k d = elim k [ ]
Distinct-kept (m ∷ ms) [] k d = elim k [ ]
Distinct-kept (m ∷ ms) (m' ∷ ms') k d =
    (rw k.0.same_id (unlike-kept (id_of m) ms ms' k.1 ∙ d.0), Distinct-kept ms ms' k.1 d.1)

Distinct-add :
    (ms : List Member) (n : Member)
    → find_member (id_of n) ms ≡ none
    → Distinct ms
    → Distinct (ms ++ (n ∷ []))
unfolding find_member
Distinct-add [] n e d = (refl, tt)
Distinct-add (m ∷ ms) n e d = elim (Bool-cases (text_eq (id_of m) (id_of n))) [
  | inl q ↦ absurd (ground (arith, q))
  | inr q ↦ (
    ground (
      arith,
      q,
      d.0,
      all_of-append (unlike (id_of m)) ms (n ∷ []),
      text_eq_symm (id_of m) (id_of n),
    ),
    Distinct-add ms n (ground (arith, q)) d.1,
  )
]

Effect-Distinct :
    (s : MembershipService) {r : MembershipService × List MembershipSnapshot}
    → Effect s r
    → Distinct s.members
    → Distinct r.0.members
unfolding new_member
Effect-Distinct s silent d = d
Effect-Distinct s (adds peer now e a ne) d = Distinct-add s.members (new_member peer now) e d
Effect-Distinct s (changes ms k) d = Distinct-kept s.members ms k d
Effect-Distinct s (aged now) d = Distinct-kept s.members _ (Keeps-age now s.members) d

step-Distinct :
    (s t : MembershipService) (c : Call) (out : List MembershipSnapshot)
    → Distinct s.members
    → step s c ≡ ok (t, out)
    → Distinct t.members
step-Distinct s t c out d h = Effect-Distinct s (step-Effect s c (t, out) h) d

-- Ageing that leaves the revision alone leaves the members alone.
age-revision :
    (now : ℕ) (ms : List Member) (r : ℕ)
    → r + length ms < 2 ^ 64
    → (r ≤ age_revision now ms r)
      × (age_revision now ms r ≤ r + length ms)
      × (age_revision now ms r ≡ r → map (age now) ms ≡ ms)
unfolding age_revision age
age-revision now [] r h = (omega arith, omega arith, λ _. refl)
age-revision now (m ∷ ms) r h = elim (Bool-cases (is_stale now m)) [
  | inl e ↦
      let (low, high, _) = age-revision now ms (next_revision r) (omega arith) in
      rw e (omega (arith, low), omega (arith, high), λ q. absurd (omega (arith, low, q)))
  | inr e ↦
      let (low, high, same) = age-revision now ms r (omega arith) in
      rw e (low, omega (arith, high), λ q. ap (◌∷◌ m) (same q))
]

-- A revision that did not overflow grows with every change, and each snapshot that is emitted is
-- the state after the call.
pub record Counted (s t : MembershipService) (out : List MembershipSnapshot) : Type 0 where
  pub grows : s.snapshot_revision ≤ t.snapshot_revision
  pub unchanged : t.snapshot_revision ≡ s.snapshot_revision → t.members ≡ s.members
  pub emitted : (out ≡ []) ⊎ (out ≡ build_snapshot t ∷ [])

emits : (t : MembershipService) → (emit_snapshot t ≡ []) ⊎ (emit_snapshot t ≡ build_snapshot t ∷ [])
emits t = elim (Bool-cases t.has_callback) [ inl e ↦ inr (rw e) | inr e ↦ inl (rw e) ]

publish-Counted :
    (s : MembershipService) (ms : List Member)
    → s.snapshot_revision + 1 < 2 ^ 64
    → Counted s (publish s ms).0 (publish s ms).1
publish-Counted s ms h = record {
  grows = omega arith;
  unchanged = λ q. absurd (omega (arith, q));
  emitted = emits (publish s ms).0;
}

Effect-Counted :
    (s : MembershipService) {r : MembershipService × List MembershipSnapshot}
    → Effect s r
    → s.snapshot_revision + length s.members + 1 < 2 ^ 64
    → Counted s r.0 r.1
Effect-Counted s silent h = record {
  grows = omega arith;
  unchanged = λ _. refl;
  emitted = inl refl;
}
Effect-Counted s (adds peer now e a ne) h = publish-Counted s _ (omega arith)
Effect-Counted s (changes ms k) h = publish-Counted s ms (omega arith)
Effect-Counted s (aged now) h =
    let (low, _, same) = age-revision now s.members s.snapshot_revision (omega arith) in
    record { grows = low; unchanged = same; emitted = inl refl }

pub step-Counted :
    (s t : MembershipService) (c : Call) (out : List MembershipSnapshot)
    → s.snapshot_revision + length s.members + 1 < 2 ^ 64
    → step s c ≡ ok (t, out)
    → Counted s t out
step-Counted s t c out b h = Effect-Counted s (step-Effect s c (t, out) h) b

-- What a call keeps.
pub record Advances (s t : MembershipService) (out : List MembershipSnapshot) : Type 0 where
  pub distinct : Distinct t.members
  pub counted : Counted s t out

-- If no two members have one node id and the revision cannot wrap, then after a call that returns no two
-- members have one id; the call never lowers the revision, changes no member without raising it, and
-- emits nothing or one snapshot, that of the new state.
pub step-Advances :
    (s t : MembershipService) (c : Call) (out : List MembershipSnapshot)
    → Distinct s.members
    → s.snapshot_revision + length s.members + 1 < 2 ^ 64
    → step s c ≡ ok (t, out)
    → Advances s t out
step-Advances s t c out d b h = record {
  distinct = step-Distinct s t c out d h;
  counted = step-Counted s t c out b h;
}
