-- ===== src/Scheduler/Plan/Suited.antt =====
-- What the place of a stage of src/scheduler/memory_scheduler.cpp offers to its shard, written out.
use mathlib.Core.List.{Mem, mem-cons, mem-cons_self, mem-cons_of_mem, not-mem-nil}
use mathlib.Core.Logic.Or
use socrates.Prelude.{
  ◌≡◌, refl, sym, ap, ◌∙◌, Bool, true, false, ◌&&◌, Option, none, some, List, [], ◌∷◌, subst,
  Bool_set, Bool-cases, text_eq, text_eq→eq, any_of, all_of, is_empty, arith, ◌⊎◌, inl, inr,
}
use socrates.Types.{
  CapabilityProfile, BackendCapability, BackendKind, ComputeUnit, backend_eq, unit_eq, ok,
}
use socrates.Cluster.{Member, MemberState, alive, joining, suspect, left, removed, is_alive}
use socrates.Scheduler.{ShardOption, StageAssignment, SchedulingInput, PipelinePlan}
use socrates.Scheduler.Compatible.{accepts, accepts_kind, accepts_units, runs_on}
use socrates.Scheduler.Placement.{SortLaws}
use socrates.Scheduler.Plan.{Host, create_plan}
use socrates.Scheduler.Plan.Located.{hosts, well_placed, create_plan-well_placed}

-- A backend is one of the kinds that the shard names, or the shard names none; it has a compute
-- unit of those that the shard names, or the shard names none.
pub record Suits (shard : ShardOption) (be : BackendCapability) : Type 0 where
  pub kind : (shard.compatible_backends ≡ []) ⊎ Mem be.kind shard.compatible_backends
  pub unit :
      (shard.required_compute_units ≡ [])
      ⊎ ((cu : ComputeUnit) × Mem cu shard.required_compute_units × Mem cu be.compute_units)

-- The shard of a stage, the live member that runs it, and the backend that it runs on there.
pub record WellPlaced (members : List Member) (shards : List ShardOption) (st : StageAssignment)
    : Type 0 where
  pub shard : ShardOption
  pub shard_in : Mem shard shards
  pub shard_is : shard.shard_id ≡ st.shard_id
  pub member : Member
  pub member_in : Mem member members
  pub live : member.state ≡ alive
  pub node_is : member.peer.node_id ≡ st.node_id
  pub profile : CapabilityProfile
  pub has_profile : member.capability ≡ some profile
  pub backend : BackendCapability
  pub backend_in : Mem backend profile.backends
  pub backend_is : backend.kind ≡ st.backend
  pub suits : Suits shard backend

both : (a b : Bool) → (a && b) ≡ true → (a ≡ true) × (b ≡ true)
both a b h = (ground arith, ground arith)

module _ {ℓ} {A : Type ℓ} where
  some_of : (p : A → Bool) (xs : List A) → any_of p xs ≡ true → (x : A) × Mem x xs × (p x ≡ true)
  some_of p [] h = absurd (cc)
  some_of p (x ∷ xs) h = elim (Bool-cases (p x)) [
    | inl e ↦ (x, mem-cons_self, e)
    | inr e ↦ let (y, m, k) = some_of p xs (rw e at h) in (y, mem-cons_of_mem x m, k)
  ]

  each_of : (p : A → Bool) (x : A) (xs : List A) → all_of p xs ≡ true → Mem x xs → p x ≡ true
  each_of p x [] h m = absurd (not-mem-nil m)
  each_of p x (y ∷ ys) h m =
      let (here, later) = both (p y) (all_of p ys) h in
      Or.elim (Bool_set _ _) (mem-cons.0 m) (λ e. ap p e ∙ here) (λ k. each_of p x ys later k)

  nothing_in : (xs : List A) → is_empty xs ≡ true → xs ≡ []
  nothing_in [] h = refl
  nothing_in (x ∷ xs) h = absurd (cc)

backend_eq→eq : (a b : BackendKind) → backend_eq a b ≡ true → a ≡ b
backend_eq→eq a b h = ground arith

unit_eq→eq : (a b : ComputeUnit) → unit_eq a b ≡ true → a ≡ b
unit_eq→eq a b h = ground arith

is_alive→eq : (s : MemberState) → is_alive s ≡ true → s ≡ alive
is_alive→eq alive h = refl
is_alive→eq joining h = absurd (cc)
is_alive→eq suspect h = absurd (cc)
is_alive→eq left h = absurd (cc)
is_alive→eq removed h = absurd (cc)

accepts-Suits :
    (shard : ShardOption) (be : BackendCapability) → accepts shard be ≡ true → Suits shard be
unfolding accepts
accepts-Suits shard be h =
    let (kind, units) =
      both (accepts_kind shard be.kind) (accepts_units shard be.compute_units) h in
    record {
      kind = elim (Bool-cases (is_empty shard.compatible_backends)) [
        | inl e ↦ inl (nothing_in shard.compatible_backends e)
        | inr e ↦
            let (k, m, same) =
              some_of (backend_eq be.kind) shard.compatible_backends (rw e at kind) in
            inr
              (subst (λ x. Mem x shard.compatible_backends) (sym (backend_eq→eq be.kind k same)) m)
      ];
      unit = elim (Bool-cases (is_empty shard.required_compute_units)) [
        | inl e ↦ inl (nothing_in shard.required_compute_units e)
        | inr e ↦
            let (req, m, has) = some_of _ shard.required_compute_units (rw e at units) in
            let (cu, n, same) = some_of (λ cu. unit_eq cu req) be.compute_units has in
            inr (req, m, subst (λ x. Mem x be.compute_units) (unit_eq→eq cu req same) n)
      ];
    }

-- A capability that passes a test.
profiled :
    (t : CapabilityProfile → Bool) (o : Option CapabilityProfile)
    → elim o [ none ↦ false | some c ↦ t c ] ≡ true
    → (c : CapabilityProfile) × (o ≡ some c) × (t c ≡ true)
profiled t none h = absurd (cc)
profiled t (some c) h = (c, refl, h)

well_placed-WellPlaced :
    (members : List Member) (shards : List ShardOption) (st : StageAssignment)
    → well_placed members shards st ≡ true
    → WellPlaced members shards st
well_placed-WellPlaced members shards st h =
    let (sh, sh_in, k) = some_of _ shards h in
    let (same_id, hosted) =
      both (text_eq sh.shard_id st.shard_id)
        (any_of (hosts (λ c. runs_on sh c st.backend) st.node_id) members) k in
    let (m, m_in, on) = some_of _ members hosted in
    let (lives, rest) = both (is_alive m.state) _ on in
    let (same_node, offers) = both (text_eq m.peer.node_id st.node_id) _ rest in
    let (c, has, ran) = profiled (λ c. runs_on sh c st.backend) m.capability offers in
    let (be, be_in, good) = some_of _ c.backends ran in
    let (same_kind, accepted) = both (backend_eq be.kind st.backend) (accepts sh be) good in
    record {
      shard = sh;
      shard_in = sh_in;
      shard_is = text_eq→eq sh.shard_id st.shard_id same_id;
      member = m;
      member_in = m_in;
      live = is_alive→eq m.state lives;
      node_is = text_eq→eq m.peer.node_id st.node_id same_node;
      profile = c;
      has_profile = has;
      backend = be;
      backend_in = be_in;
      backend_is = backend_eq→eq be.kind st.backend same_kind;
      suits = accepts-Suits sh be accepted;
    }

module _ (host : Host) (laws : SortLaws host.sorts) (input : SchedulingInput) where
  -- Each stage of a plan is for a shard of the input and runs on a live member with a profile, on a
  -- backend of that profile which is one of the kinds that the shard names, if it names any, and has at
  -- least one of the compute units that the shard names, if it names any.
  pub create_plan-WellPlaced :
      (plan : PipelinePlan) (st : StageAssignment)
      → create_plan host input ≡ ok plan
      → Mem st plan.stages
      → WellPlaced input.membership.members input.shard_options st
  create_plan-WellPlaced plan st h m =
      let members = input.membership.members in
      let all = create_plan-well_placed host laws input plan h in
      well_placed-WellPlaced members input.shard_options st
        (each_of (well_placed members input.shard_options) st plan.stages all m)
