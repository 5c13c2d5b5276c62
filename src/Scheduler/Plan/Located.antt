-- ===== src/Scheduler/Plan/Located.antt =====
-- Where the stages of a plan of src/scheduler/memory_scheduler.cpp run.
use mathlib.Core.List.Perm
use mathlib.Core.List.{Mem, mem-cons, mem-cons_self, mem-cons_of_mem, not-mem-nil}
use mathlib.Core.Logic.Or
use socrates.Prelude.{
  ℕ, ◌≡◌, refl, ap, sym, ◌∙◌, Bool, true, false, ◌&&◌, none, some, List, [], ◌∷◌, Text, subst,
  stable_sort-perm, Bool_set, and_intro, eq_of_some, text_eq, text_eq_refl, any_of, all_of,
  all_of-append, all_of-perm, Bool-cases, Option-cases, inl, inr, arith,
}
use socrates.Types.{CapabilityProfile, ok, ok-injective, >>=-eq-ok}
use socrates.Cluster.{Member, is_alive}
use socrates.Scheduler.{ShardOption, StageAssignment, SchedulingInput, PipelinePlan}
use socrates.Scheduler.Compatible.{runs_on, find_compatible_backend-runs_on}
use socrates.Scheduler.Placement.{
  NodeSlot, SortLaws, Placer, Placing, make_stage, resort, place_shard, place_all,
}
use socrates.Scheduler.Placement.Took.{Took, here, there, try_slot-Fits, place_shard-Round}
use socrates.Scheduler.Plan.{Host, placer, slot_of, build_node_slots, first_round, create_plan}
use socrates.Scheduler.Plan.Success.{schedule_core-Success}

-- A slot's node is a live member, and its capability passes the test there.
abbrev pub hosts : (CapabilityProfile → Bool) → Text → Member → Bool
hosts ok_cap n m =
    is_alive m.state
    && (text_eq m.peer.node_id n && elim m.capability [ none ↦ false | some c ↦ ok_cap c ])

-- Some live member with the stage's node id offers the stage's backend, and that suits a shard
-- with the stage's shard id.
abbrev pub well_placed : List Member → List ShardOption → StageAssignment → Bool
well_placed members shards st =
    any_of
      (λ sh.
        text_eq sh.shard_id st.shard_id
        && any_of (hosts (λ c. runs_on sh c st.backend) st.node_id) members)
      shards

-- Every test that a slot passes, some live member passes.
abbrev Backed : List Member → NodeSlot → Type 0
Backed members slot =
    (t : CapabilityProfile → Bool)
    → t slot.capability ≡ true
    → any_of (hosts t slot.node_id) members ≡ true

abbrev AllBacked : List Member → List NodeSlot → Type 0
AllBacked members slots = (slot : NodeSlot) → Mem slot slots → Backed members slot

Backed-cons :
    (m : Member) (members : List Member) (slot : NodeSlot)
    → Backed members slot
    → Backed (m ∷ members) slot
Backed-cons m members slot b t h = ground (arith, b t h)

AllBacked-cons :
    (members : List Member) (x : NodeSlot) (xs : List NodeSlot)
    → Backed members x
    → AllBacked members xs
    → AllBacked members (x ∷ xs)
AllBacked-cons members x xs bx b slot m t h =
    Or.elim (Bool_set _ _) (mem-cons.0 m) (λ e. bx' e) (λ k. b slot k t h)
  where
    bx' : slot ≡ x → any_of (hosts t slot.node_id) members ≡ true
    bx' e = subst (Backed members) (sym e) bx t h

abbrev fresh_slot : Member → CapabilityProfile → NodeSlot
fresh_slot m c = record {
  node_id = m.peer.node_id;
  capability = c;
  remaining_memory_bytes = c.available_memory_bytes;
}

slot_of-Backed :
    (m : Member) (members : List Member) (slot : NodeSlot)
    → slot_of m ≡ some slot
    → Backed (m ∷ members) slot
slot_of-Backed m members slot e = elim (Bool-cases (is_alive m.state)) [
  | inr a ↦ absurd (ground (arith, a))
  | inl a ↦ elim (Option-cases m.capability) [
    | inl ec ↦ absurd (ground (arith, a, ec))
    | inr (c, ec) ↦
        let e' : some (fresh_slot m c) ≡ some slot = rw (a, ec) at e in
        subst (Backed (m ∷ members)) (eq_of_some e')
          (λ t h. rw (a, ec, text_eq_refl m.peer.node_id, h))
  ]
]

build_node_slots-AllBacked : (members : List Member) → AllBacked members (build_node_slots members)
unfolding build_node_slots
build_node_slots-AllBacked [] = λ slot m. absurd (not-mem-nil m)
build_node_slots-AllBacked (m ∷ members) = elim (Option-cases (slot_of m)) [
  | inl e ↦ rw e (λ slot k. Backed-cons m members slot (build_node_slots-AllBacked members slot k))
  | inr (x, e) ↦ rw e (
      AllBacked-cons (m ∷ members) x (build_node_slots members) (slot_of-Backed m members x e)
        (λ slot k. Backed-cons m members slot (build_node_slots-AllBacked members slot k)))
]

any_of-mem :
    (p : ShardOption → Bool) (x : ShardOption) (xs : List ShardOption)
    → Mem x xs
    → p x ≡ true
    → any_of p xs ≡ true
any_of-mem p x [] m h = absurd (not-mem-nil m)
any_of-mem p x (y ∷ ys) m h =
    Or.elim (Bool_set _ _) (mem-cons.0 m) (λ e. ground (arith, ap p e))
      (λ k. ground (arith, any_of-mem p x ys k h))

module _ (p : Placer) (members : List Member) where
  Took-AllBacked :
      {shard : ShardOption} {ordinal : ℕ} {slots slots' : List NodeSlot} {st : StageAssignment}
      → Took p shard ordinal slots slots' st
      → AllBacked members slots
      → AllBacked members slots'
  Took-AllBacked (here {slot} {slot'} rest e) b =
      let f = try_slot-Fits p _ _ _ _ _ e in
      AllBacked-cons members slot' rest (rw f.taken (b slot mem-cons_self))
        (λ x k. b x (mem-cons_of_mem slot k))
  Took-AllBacked (there {rest} {rest'} slot t) b =
      AllBacked-cons members slot rest' (b slot mem-cons_self)
        (Took-AllBacked t (λ x k. b x (mem-cons_of_mem slot k)))

  Took-located :
      {shard : ShardOption} {ordinal : ℕ} {slots slots' : List NodeSlot} {st : StageAssignment}
      → Took p shard ordinal slots slots' st
      → AllBacked members slots
      → (text_eq shard.shard_id st.shard_id
          && any_of (hosts (λ c. runs_on shard c st.backend) st.node_id) members)
        ≡ true
  unfolding make_stage
  Took-located {shard} (here {slot} rest e) b =
      let f = try_slot-Fits p _ _ _ _ _ e in
      rw f.made (
        and_intro _ _ (text_eq_refl shard.shard_id) (
          b slot mem-cons_self (λ c. runs_on shard c f.backend)
            (find_compatible_backend-runs_on shard slot.capability f.backend f.compatible)))
  Took-located (there slot t) b = Took-located t (λ x k. b x (mem-cons_of_mem slot k))

  module _ (laws : SortLaws p.sorts) where
    resort-AllBacked :
        (slots : List NodeSlot) → AllBacked members slots → AllBacked members (resort p slots)
    unfolding resort
    resort-AllBacked slots b = elim (Bool-cases p.sort_nodes_before_each_shard) [
      | inl e ↦ rw e (λ x k. b x ((Perm.mem_iff (laws.by_remaining_memory-perm slots)).0 k))
      | inr e ↦ rw e b
    ]

    place_all-located :
        (all shards : List ShardOption) (s t : Placing)
        → ((sh : ShardOption) → Mem sh shards → Mem sh all)
        → place_all p shards s ≡ ok t
        → AllBacked members s.node_slots
        → all_of (well_placed members all) s.stages ≡ true
        → all_of (well_placed members all) t.stages ≡ true
    unfolding place_all
    place_all-located all [] s t sub h b w = rw (← ok-injective h) w
    place_all-located all (shard ∷ rest) s t sub h b w =
        let (m, e, k) = >>=-eq-ok (place_shard p shard s) _ h in
        let r = place_shard-Round p shard s m e in
        let b' = resort-AllBacked s.node_slots b in
        let here_ok : well_placed members all r.stage ≡ true =
          any_of-mem _ shard all (sub shard mem-cons_self) (Took-located r.took b') in
        place_all-located all rest m t (λ sh q. sub sh (mem-cons_of_mem shard q)) k
          (rw r.committed (Took-AllBacked r.took b'))
          (rw r.committed (
            all_of-append _ s.stages (r.stage ∷ []) ∙ and_intro _ _ w (and_intro _ _ here_ok refl)))

module _ (host : Host) (laws : SortLaws host.sorts) (input : SchedulingInput) where
  pub create_plan-well_placed :
      (plan : PipelinePlan)
      → create_plan host input ≡ ok plan
      → all_of (well_placed input.membership.members input.shard_options) plan.stages ≡ true
  unfolding create_plan
  create_plan-well_placed plan h =
      let members = input.membership.members in
      let s = schedule_core-Success host input (build_node_slots members) true plan h in
      rw s.built (
        all_of-perm _ (laws.by_layer_start-perm s.placed.stages)
        ∙ place_all-located (placer host input true) members laws input.shard_options _
            (first_round (build_node_slots members)) s.placed
            (λ sh k. (Perm.mem_iff (stable_sort-perm _ input.shard_options)).0 k) s.ran
            (build_node_slots-AllBacked members) refl)
