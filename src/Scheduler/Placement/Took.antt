-- ===== src/Scheduler/Placement/Took.antt =====
-- The attempts of `schedule_core` as a relation: one slot gives up memory, the others stay.
use socrates.Prelude.{
  ℕ, ◌+◌, ◌-◌, ◌≤◌, ◌≡◌, refl, Bool, true, false, inl, inr, Option, none, some, List, [], ◌∷◌,
  arith, Option-cases, subst, ◌++◌, ◌%◌, ◌^◌, sym, Text, if◌then◌else◌,
}
use socrates.Types.{BackendKind, LayerRange, ok, >>=-eq-ok, ok-injective}
use socrates.Scheduler.{ShardOption, StageAssignment}
use socrates.Scheduler.Compatible.{find_compatible_backend}
use socrates.Scheduler.Placement.{
  NodeSlot, Placer, required_bytes, make_stage, try_slot, Attempt, keep, settle, is_node, try_last,
  try_each, Placing, claim_range, place_shard, commit, resort, choose, or_else, preferred,
}

pub data Took (p : Placer) (shard : ShardOption) (ordinal : ℕ)
    : List NodeSlot → List NodeSlot → StageAssignment → Type 0 where
  here :
      {slot slot' : NodeSlot} {st : StageAssignment} (rest : List NodeSlot)
      → try_slot p shard ordinal slot ≡ some (slot', st)
      → Took p shard ordinal (slot ∷ rest) (slot' ∷ rest) st
  there :
      {rest rest' : List NodeSlot} {st : StageAssignment} (slot : NodeSlot)
      → Took p shard ordinal rest rest' st
      → Took p shard ordinal (slot ∷ rest) (slot ∷ rest') st

-- What an attempt that succeeds says of its slot.
pub record Fits (p : Placer) (shard : ShardOption) (ordinal : ℕ) (slot slot' : NodeSlot)
    (st : StageAssignment) : Type 0 where
  pub backend : BackendKind
  pub enough : required_bytes p shard ≤ slot.remaining_memory_bytes
  pub compatible : find_compatible_backend shard slot.capability ≡ some backend
  pub taken : slot' ≡ record slot {
    remaining_memory_bytes = slot.remaining_memory_bytes - required_bytes p shard;
  }
  pub made : st ≡ make_stage p shard ordinal slot backend

abbrev Takes : (List NodeSlot → StageAssignment → Type 0) → Attempt → Type 0
Takes P none = Unit
Takes P (some (slots, st)) = P slots st

module _ (p : Placer) (shard : ShardOption) (ordinal : ℕ) where
  pub try_slot-Fits :
      (slot slot' : NodeSlot) (st : StageAssignment)
      → try_slot p shard ordinal slot ≡ some (slot', st)
      → Fits p shard ordinal slot slot' st
  unfolding try_slot
  try_slot-Fits slot slot' st h =
      elim (Option-cases (find_compatible_backend shard slot.capability)) [
        | inl e ↦ absurd (ground (arith, e))
        | inr (b, e) ↦ record {
          backend = b;
          enough = ground (arith, e);
          compatible = e;
          taken = ground (arith, e);
          made = ground (arith, e);
        }
      ]

  settle-Takes :
      (slot : NodeSlot) (rest : List NodeSlot) (later : Attempt)
      → Takes (Took p shard ordinal (slot ∷ rest)) later
      → Takes
          (Took p shard ordinal (slot ∷ rest))
          (settle rest (try_slot p shard ordinal slot) later)
  settle-Takes slot rest later h = elim (Option-cases (try_slot p shard ordinal slot)) [
    | inl e ↦ rw e h
    | inr ((s, t), e) ↦ rw e (here rest e)
  ]

  keep-Takes :
      (slot : NodeSlot) (rest : List NodeSlot) (later : Attempt)
      → Takes (Took p shard ordinal rest) later
      → Takes (Took p shard ordinal (slot ∷ rest)) (keep slot later)
  keep-Takes slot rest none h = tt
  keep-Takes slot rest (some (r, t)) h = there slot h

  if-Takes :
      (P : List NodeSlot → StageAssignment → Type 0) (b : Bool) (x y : Attempt)
      → Takes P x
      → Takes P y
      → Takes P (if b then x else y)
  if-Takes P true x y hx hy = hx
  if-Takes P false x y hx hy = hy

  or_else-Takes :
      (P : List NodeSlot → StageAssignment → Type 0) (x y : Attempt)
      → Takes P x
      → Takes P y
      → Takes P (or_else x y)
  or_else-Takes P none y hx hy = hy
  or_else-Takes P (some a) y hx hy = hx

  try_last-Takes :
      (last : Option Text) (slots : List NodeSlot)
      → Takes (Took p shard ordinal slots) (try_last p shard ordinal last slots)
  unfolding try_last
  try_last-Takes last [] = tt
  try_last-Takes last (slot ∷ rest) =
      if-Takes _ (is_node last slot) _ _ (settle-Takes slot rest none tt)
        (keep-Takes slot rest _ (try_last-Takes last rest))

  try_each-Takes :
      (skip : Option Text) (slots : List NodeSlot)
      → Takes (Took p shard ordinal slots) (try_each p shard ordinal skip slots)
  unfolding try_each
  try_each-Takes skip [] = tt
  try_each-Takes skip (slot ∷ rest) =
      let later = keep-Takes slot rest _ (try_each-Takes skip rest) in
      if-Takes _ (is_node skip slot) _ _ later (settle-Takes slot rest _ later)

  -- Whichever path chose, one slot gave up the memory of the new stage.
  pub choose-Took :
      (last : Option Text) (slots slots' : List NodeSlot) (st : StageAssignment)
      → choose p shard ordinal last slots ≡ some (slots', st)
      → Took p shard ordinal slots slots' st
  unfolding choose
  choose-Took last slots slots' st h = subst (Takes (Took p shard ordinal slots)) h (
      or_else-Takes (Took p shard ordinal slots) (try_last p shard ordinal (preferred p last) slots)
        (try_each p shard ordinal (preferred p last) slots)
        (try_last-Takes (preferred p last) slots) (try_each-Takes (preferred p last) slots))

-- One round of the loop that succeeds.
pub record Round (p : Placer) (shard : ShardOption) (s t : Placing) : Type 0 where
  pub seen : List LayerRange
  pub slots : List NodeSlot
  pub stage : StageAssignment
  pub claimed : claim_range shard.layers s.assigned_layer_ranges ≡ ok seen
  pub took : Took p shard s.ordinal (resort p s.node_slots) slots stage
  pub committed : t ≡ record {
    node_slots = slots;
    ordinal = (s.ordinal + 1) % 2 ^ 32;
    last_node = some stage.node_id;
    assigned_layer_ranges = seen;
    stages = s.stages ++ (stage ∷ []);
  }

commit-Round :
    (p : Placer) (shard : ShardOption) (s t : Placing) (seen : List LayerRange) (a : Attempt)
    → claim_range shard.layers s.assigned_layer_ranges ≡ ok seen
    → choose p shard s.ordinal s.last_node (resort p s.node_slots) ≡ a
    → commit s seen a ≡ ok t
    → Round p shard s t
commit-Round p shard s t seen none c e h = absurd (cc)
commit-Round p shard s t seen (some (slots, st)) c e h = record {
  seen = seen;
  slots = slots;
  stage = st;
  claimed = c;
  took = choose-Took p shard s.ordinal s.last_node (resort p s.node_slots) slots st e;
  committed = sym (ok-injective h);
}

pub place_shard-Round :
    (p : Placer) (shard : ShardOption) (s t : Placing)
    → place_shard p shard s ≡ ok t
    → Round p shard s t
unfolding place_shard
place_shard-Round p shard s t h =
    let (seen, e, k) = >>=-eq-ok (claim_range shard.layers s.assigned_layer_ranges) _ h in
    commit-Round p shard s t seen _ e refl k
