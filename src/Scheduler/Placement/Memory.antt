-- ===== src/Scheduler/Placement/Memory.antt =====
-- Memory of a node through the placement loop of src/scheduler/memory_scheduler.cpp.
use socrates.Prelude.{
  ℕ, ◌+◌, ◌≡◌, ◌∙◌, List, [], ◌∷◌, arith, Bool-cases, Text, text_eq, if◌then◌else◌, sum_by,
  sum_by-append, sum_by-perm, inl, inr,
}
use socrates.Types.{ok, >>=-eq-ok, ok-injective}
use socrates.Scheduler.{ShardOption, StageAssignment}
use socrates.Scheduler.Placement.{
  NodeSlot, Placer, Placing, SortLaws, make_stage, resort, place_shard, place_all,
}
use socrates.Scheduler.Placement.Took.{Took, here, there, Fits, try_slot-Fits, place_shard-Round}

-- What a node has left, and what the stages placed on it reserve.
abbrev pub slot_free : Text → NodeSlot → ℕ
slot_free n slot = if text_eq slot.node_id n then slot.remaining_memory_bytes else 0

abbrev pub stage_used : Text → StageAssignment → ℕ
stage_used n st = if text_eq st.node_id n then st.reserved_memory_bytes else 0

abbrev pub free_bytes : Text → List NodeSlot → ℕ
free_bytes n = sum_by (slot_free n)

abbrev pub used_bytes : Text → List StageAssignment → ℕ
used_bytes n = sum_by (stage_used n)

module _ (p : Placer) (shard : ShardOption) (ordinal : ℕ) (n : Text) where
  Fits-bytes :
      (slot slot' : NodeSlot) (st : StageAssignment)
      → Fits p shard ordinal slot slot' st
      → slot_free n slot' + stage_used n st ≡ slot_free n slot
  unfolding make_stage
  Fits-bytes slot slot' st f =
      let h = f.enough in
      rw (f.taken, f.made)
        (elim (Bool-cases (text_eq slot.node_id n)) [
          | inl e ↦ rw e (omega arith)
          | inr e ↦ rw e (omega arith)
        ])

  Took-bytes :
      {slots slots' : List NodeSlot} {st : StageAssignment}
      → Took p shard ordinal slots slots' st
      → free_bytes n slots' + stage_used n st ≡ free_bytes n slots
  Took-bytes (here rest e) = omega (arith, Fits-bytes _ _ _ (try_slot-Fits p shard ordinal _ _ _ e))
  Took-bytes (there slot t) = omega (arith, Took-bytes t)

module _ (p : Placer) (laws : SortLaws p.sorts) (n : Text) where
  resort-bytes : (slots : List NodeSlot) → free_bytes n (resort p slots) ≡ free_bytes n slots
  unfolding resort
  resort-bytes slots = elim (Bool-cases p.sort_nodes_before_each_shard) [
    | inl e ↦ rw e (sum_by-perm (slot_free n) (laws.by_remaining_memory-perm slots))
    | inr e ↦ rw e
  ]

  place_shard-bytes :
      (shard : ShardOption) (s t : Placing)
      → place_shard p shard s ≡ ok t
      → free_bytes n t.node_slots + used_bytes n t.stages
        ≡ free_bytes n s.node_slots + used_bytes n s.stages
  place_shard-bytes shard s t h =
      let r = place_shard-Round p shard s t h in
      rw r.committed (
        omega (
          arith,
          sum_by-append (stage_used n) s.stages (r.stage ∷ []),
          Took-bytes p shard s.ordinal n r.took,
          resort-bytes s.node_slots,
        ))

  -- The placement loop moves bytes from the slots of a node to its stages and loses none.
  pub place_all-bytes :
      (shards : List ShardOption) (s t : Placing)
      → place_all p shards s ≡ ok t
      → free_bytes n t.node_slots + used_bytes n t.stages
        ≡ free_bytes n s.node_slots + used_bytes n s.stages
  unfolding place_all
  place_all-bytes [] s t h = rw (ok-injective h)
  place_all-bytes (shard ∷ rest) s t h =
      let (m, e, k) = >>=-eq-ok (place_shard p shard s) _ h in
      place_all-bytes rest m t k ∙ place_shard-bytes shard s m e
