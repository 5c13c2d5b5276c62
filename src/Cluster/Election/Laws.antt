-- ===== src/Cluster/Election/Laws.antt =====
-- Who leads after a round of src/cluster/bully_election.cpp, under which term, and what is stored
-- before it is announced.
use socrates.Prelude.{
  ℕ, ◌+◌, ◌^◌, ◌<◌, ◌≤◌, ◌≡◌, refl, sym, ap, subst, ◌∙◌, true, false, not, Option, none, some, List,
  [], ◌∷◌, if◌then◌else◌, ltb, Text, text_eq, text_eq→eq, text_eq_refl, text_ltb, text_ltb_irrefl,
  text_ltb_trans, any_of, all_of, arith, Bool-cases, inl, inr, ◌↔◌,
}
use socrates.Types.{ok, err, guard, data_loss, ok-injective, ◌>>◌}
use socrates.Cluster.{MembershipSnapshot}
use socrates.Cluster.Election.{
  BullyElection, Effect, stores, announces, alive_ids, max_element, need_election, elect, run_round,
  update_membership,
}

-- The greatest of the ids, or nobody.
abbrev pub IsHighest : List Text → Option Text → Type 0
IsHighest [] o = o ≡ none
IsHighest (x ∷ xs) o =
    (l : Text) × (o ≡ some l)
    × (any_of (text_eq l) (x ∷ xs) ≡ true)
    × (all_of (λ y. not (text_ltb l y)) (x ∷ xs) ≡ true)

max_element_step :
    (x y : Text) (ys : List Text)
    → max_element x (y ∷ ys) ≡ max_element (if text_ltb x y then y else x) ys
unfolding max_element
max_element_step x y ys = refl

max_element_lt :
    (x y : Text) (ys : List Text) → text_ltb x y ≡ true → max_element x (y ∷ ys) ≡ max_element y ys
max_element_lt x y ys e = rw (max_element_step x y ys, e)

max_element_ge :
    (x y : Text) (ys : List Text) → text_ltb x y ≡ false → max_element x (y ∷ ys) ≡ max_element x ys
max_element_ge x y ys e = rw (max_element_step x y ys, e)

max_element_last : (x : Text) → max_element x [] ≡ x
unfolding max_element
max_element_last x = refl

max_element-mem : (x : Text) (xs : List Text) → any_of (text_eq (max_element x xs)) (x ∷ xs) ≡ true
max_element-mem x [] = rw (max_element_last x, text_eq_refl x)
max_element-mem x (y ∷ ys) = elim (Bool-cases (text_ltb x y)) [
  | inl e ↦
      subst (λ l. any_of (text_eq l) (x ∷ y ∷ ys) ≡ true) (sym (max_element_lt x y ys e))
        (ground (arith, max_element-mem y ys))
  | inr e ↦
      subst (λ l. any_of (text_eq l) (x ∷ y ∷ ys) ≡ true) (sym (max_element_ge x y ys e))
        (ground (arith, max_element-mem x ys))
]

-- Whatever the first element is not below, the greatest is not below.
max_element-above :
    (x z : Text) (xs : List Text) → text_ltb x z ≡ false → text_ltb (max_element x xs) z ≡ false
max_element-above x z [] h = rw (max_element_last x) h
max_element-above x z (y ∷ ys) h = elim (Bool-cases (text_ltb x y)) [
  | inl e ↦
      rw (max_element_lt x y ys e) (max_element-above y z ys (ground (arith, text_ltb_trans x y z)))
  | inr e ↦ rw (max_element_ge x y ys e) (max_element-above x z ys h)
]

text_ltb_asymm : (x y : Text) → text_ltb x y ≡ true → text_ltb y x ≡ false
text_ltb_asymm x y h = ground (arith, text_ltb_trans x y x, text_ltb_irrefl x)

max_element-max :
    (x : Text) (xs : List Text) → all_of (λ y. not (text_ltb (max_element x xs) y)) (x ∷ xs) ≡ true
max_element-max x [] = rw (max_element_last x, text_ltb_irrefl x)
max_element-max x (y ∷ ys) = elim (Bool-cases (text_ltb x y)) [
  | inl e ↦
      subst (λ l. all_of (λ z. not (text_ltb l z)) (x ∷ y ∷ ys) ≡ true)
        (sym (max_element_lt x y ys e))
        (ground (arith, max_element-max y ys, max_element-above y x ys (text_ltb_asymm x y e)))
  | inr e ↦
      subst (λ l. all_of (λ z. not (text_ltb l z)) (x ∷ y ∷ ys) ≡ true)
        (sym (max_element_ge x y ys e))
        (ground (arith, max_element-max x ys, max_element-above x y ys e))
]

need_election-false : (o : Option Text) (h : Text) → need_election o h ≡ false → o ≡ some h
need_election-false none h e = absurd (cc)
need_election-false (some l) h e =
    let q : text_eq l h ≡ true = ground arith in ap some (text_eq→eq l h q)

module _ (e : BullyElection) (revision : ℕ) (token : Text) (now : ℕ) where
  run_round-IsHighest :
      (ids : List Text) → IsHighest ids (run_round e ids revision token now).0.state.leader_id
  unfolding elect
  run_round-IsHighest [] = refl
  run_round-IsHighest (x ∷ xs) =
      let highest = max_element x xs in
      elim (Bool-cases (need_election e.state.leader_id highest)) [
        | inl q ↦ rw q (highest, refl, max_element-mem x xs, max_element-max x xs)
        | inr q ↦
            rw q
              (highest, need_election-false _ highest q, max_element-mem x xs, max_element-max x xs)
      ]

-- What a running election returns: the snapshot's revision was not older, and a round was run.
update_membership-ran :
    (e : BullyElection) (s : MembershipSnapshot) (token : Text) (now : ℕ)
    (r : BullyElection × List Effect)
    → e.running ≡ true
    → update_membership e s token now ≡ ok r
    → (ltb s.revision e.last_snapshot_revision ≡ false)
      × (r
          ≡ run_round
              (record e { last_snapshot_revision = s.revision })
              (alive_ids s.members)
              s.revision
              token
              now)
unfolding update_membership
update_membership-ran e s token now r running h =
    let round =
      run_round (record e { last_snapshot_revision = s.revision }) (alive_ids s.members) s.revision
        token now in
    let h' =
      subst
        (λ b.
          (if not b
            then ok (e, [])
            else (guard (not (ltb s.revision e.last_snapshot_revision)) data_loss >> ok round))
          ≡ ok r)
        running h in
    elim (Bool-cases (ltb s.revision e.last_snapshot_revision)) [
      | inl q ↦ absurd (ground (arith, q))
      | inr q ↦ (q, sym (ok-injective (rw q at h')))
    ]

-- After an update that a running election accepts, the leader is the greatest id among the live
-- members, and nobody if none lives.
pub update_membership-IsHighest :
    (e e' : BullyElection) (s : MembershipSnapshot) (token : Text) (now : ℕ) (out : List Effect)
    → e.running ≡ true
    → update_membership e s token now ≡ ok (e', out)
    → IsHighest (alive_ids s.members) e'.state.leader_id
update_membership-IsHighest e e' s token now out running h =
    let (_, ran) = update_membership-ran e s token now (e', out) running h in
    subst (λ (r : BullyElection × List Effect). IsHighest (alive_ids s.members) r.0.state.leader_id)
      (sym ran) (run_round-IsHighest _ s.revision token now (alive_ids s.members))

-- What a round does to terms: it keeps the fence, or raises the term and stores it first.
pub data Fenced (e e' : BullyElection) (out : List Effect) : Type 0 where
  kept :
      e'.current_term ≡ e.current_term
      → e'.state.fence ≡ e.state.fence
      → out ≡ announces e'.state ∷ []
      → Fenced e e' out
  raised :
      e'.current_term ≡ e.current_term + 1
      → e'.state.fence.term ≡ e'.current_term
      → out ≡ stores e.cluster_id e'.current_term ∷ announces e'.state ∷ []
      → Fenced e e' out

run_round-Fenced :
    (e : BullyElection) (seen : ℕ) (ids : List Text) (revision : ℕ) (token : Text) (now : ℕ)
    → e.has_term_store ≡ true
    → e.has_callback ≡ true
    → e.current_term + 1 < 2 ^ 64
    → let r = run_round (record e { last_snapshot_revision = seen }) ids revision token now in
      Fenced e r.0 r.1
unfolding elect
run_round-Fenced e seen [] revision token now st cb bound = kept refl refl (ground arith)
run_round-Fenced e seen (x ∷ xs) revision token now st cb bound =
    elim (Bool-cases (need_election e.state.leader_id (max_element x xs))) [
      | inl q ↦ rw q (raised (omega arith) refl (ground arith))
      | inr q ↦ rw q (kept refl refl (ground arith))
    ]

-- In a running election with a term store and a callback, whose term cannot wrap, an accepted
-- update never lowers the term; the fence changes only with a term one higher, which is stored
-- before the new state is announced.
pub update_membership-Fenced :
    (e e' : BullyElection) (s : MembershipSnapshot) (token : Text) (now : ℕ) (out : List Effect)
    → e.running ≡ true
    → e.has_term_store ≡ true
    → e.has_callback ≡ true
    → e.current_term + 1 < 2 ^ 64
    → update_membership e s token now ≡ ok (e', out)
    → Fenced e e' out
update_membership-Fenced e e' s token now out running st cb bound h =
    let (_, ran) = update_membership-ran e s token now (e', out) running h in
    subst (λ (r : BullyElection × List Effect). Fenced e r.0 r.1) (sym ran)
      (run_round-Fenced e s.revision (alive_ids s.members) s.revision token now st cb bound)

-- A running election refuses a snapshot that is older than the last one, and no other.
update_membership-rollback :
    (e : BullyElection) (s : MembershipSnapshot) (token : Text) (now : ℕ)
    → e.running ≡ true
    → (update_membership e s token now ≡ err data_loss) ↔ (s.revision < e.last_snapshot_revision)
unfolding update_membership
update_membership-rollback e s token now running = (λ h. ground arith, λ h. ground arith)

run_round_keeps :
    (e : BullyElection) (ids : List Text) (revision : ℕ) (token : Text) (now : ℕ)
    → let e' = (run_round e ids revision token now).0 in
      (e'.running ≡ e.running) × (e'.last_snapshot_revision ≡ e.last_snapshot_revision)
unfolding elect
run_round_keeps e [] revision token now = (refl, refl)
run_round_keeps e (x ∷ xs) revision token now =
    elim (Bool-cases (need_election e.state.leader_id (max_element x xs))) [
      | inl q ↦ rw q (refl, refl)
      | inr q ↦ rw q (refl, refl)
    ]

pub update_membership_runs :
    (e : BullyElection) (s : MembershipSnapshot) (token : Text) (now : ℕ)
    (r : BullyElection × List Effect)
    → update_membership e s token now ≡ ok r
    → r.0.running ≡ e.running
unfolding update_membership
update_membership_runs e s token now r h = elim (Bool-cases e.running) [
  | inl q ↦
      let (_, ran) = update_membership-ran e s token now r q h in
      rw ran (
        (run_round_keeps (record e { last_snapshot_revision = s.revision }) (alive_ids s.members)
          s.revision token now).0)
  | inr q ↦ ap (λ x. x.0.running) (sym (ok-injective (rw q at h))) ∙ sym q
]

-- A running election takes a snapshot that is not older, and remembers its revision.
pub update_membership_accepts :
    (e : BullyElection) (s : MembershipSnapshot) (token : Text) (now : ℕ)
    → e.running ≡ true
    → e.last_snapshot_revision ≤ s.revision
    → (e' : BullyElection) × (out : List Effect) × (update_membership e s token now ≡ ok (e', out))
      × (e'.running ≡ true)
      × (e'.last_snapshot_revision ≡ s.revision)
unfolding update_membership
update_membership_accepts e s token now running h =
    let e₁ = record e { last_snapshot_revision = s.revision } in
    let r = run_round e₁ (alive_ids s.members) s.revision token now in
    let keeps = run_round_keeps e₁ (alive_ids s.members) s.revision token now in
    (r.0, r.1, ground arith, keeps.0 ∙ running, keeps.1)
