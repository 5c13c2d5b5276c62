-- ===== src/Scheduler/Placement.antt =====
-- The placement loop of `schedule_core` in src/scheduler/memory_scheduler.cpp. A node slot holds a
-- copy of the capability that the source points to; the tie order of `std::sort` is a parameter.
pub mod Took
pub mod Memory
use socrates.Prelude.{
  ℕ, ◌+◌, ◌-◌, ◌%◌, ◌^◌, ◌≡◌, Bool, true, false, ◌&&◌, ◌||◌, not, Option, none, some, List, [], ◌∷◌,
  ◌++◌, any_of, if◌then◌else◌, ltb, ◌==◌, Text, text_eq, Perm, is_some,
}
use socrates.Types.{
  Double, DoubleOps, BackendKind, CapabilityProfile, LayerRange, ErrorCode, Result, ok, err, guard,
  invalid_argument, resource_exhausted, ◌>>=◌, ◌>>◌,
}
use socrates.Scheduler.{ShardOption, StageAssignment}
use socrates.Scheduler.Compatible.{find_compatible_backend, compute_time_estimate}

pub record NodeSlot : Type 0 where
  pub node_id : Text
  pub capability : CapabilityProfile
  pub remaining_memory_bytes : ℕ

-- The three calls of `std::sort`: which permutation it returns among equal keys is not fixed.
pub record SortOps : Type 0 where
  pub by_remaining_memory : List NodeSlot → List NodeSlot
  pub by_start : List LayerRange → List LayerRange
  pub by_layer_start : List StageAssignment → List StageAssignment

-- `std::sort` permutes its range.
pub record SortLaws (s : SortOps) : Type 0 where
  pub by_remaining_memory-perm : (l : List NodeSlot) → Perm (s.by_remaining_memory l) l
  pub by_start-perm : (l : List LayerRange) → Perm (s.by_start l) l
  pub by_layer_start-perm : (l : List StageAssignment) → Perm (s.by_layer_start l) l

-- What `schedule_core` fixes before its loop.
pub record Placer : Type 0 where
  pub double_ops : DoubleOps
  pub sorts : SortOps
  pub sort_nodes_before_each_shard : Bool
  pub use_network_affinity : Bool
  pub per_device_reserve : ℕ

-- The variables of the loop.
pub record Placing : Type 0 where
  pub node_slots : List NodeSlot
  pub ordinal : ℕ
  pub last_node : Option Text
  pub assigned_layer_ranges : List LayerRange
  pub stages : List StageAssignment

-- The sum of two `std::uint64_t`.
unfoldable pub required_bytes : Placer → ShardOption → ℕ
required_bytes p shard = (shard.peak_runtime_memory_bytes + p.per_device_reserve) % 2 ^ 64

unfoldable pub make_stage : Placer → ShardOption → ℕ → NodeSlot → BackendKind → StageAssignment
make_stage p shard ordinal slot backend = record {
  ordinal = ordinal;
  node_id = slot.node_id;
  shard_id = shard.shard_id;
  stage_ids = shard.stage_ids;
  input_boundary_ids = shard.input_boundary_ids;
  output_boundary_ids = shard.output_boundary_ids;
  stage_kind = shard.stage_kind;
  layers = shard.layers;
  quantization = shard.quantization;
  backend = backend;
  execution_profile_id = shard.execution_profile_id;
  artifact = shard.artifact;
  reserved_memory_bytes = required_bytes p shard;
  estimated_stage_microseconds = compute_time_estimate p.double_ops shard slot.capability backend;
}

-- The slot with the memory taken, and the stage that it will run.
unfoldable pub try_slot : Placer → ShardOption → ℕ → NodeSlot → Option (NodeSlot × StageAssignment)
try_slot p shard ordinal slot =
    if ltb slot.remaining_memory_bytes (required_bytes p shard)
    then none
    else elim (find_compatible_backend shard slot.capability) [
      | none ↦ none
      | some backend ↦ some (
        record slot {
          remaining_memory_bytes = slot.remaining_memory_bytes - required_bytes p shard;
        },
        make_stage p shard ordinal slot backend,
      )
    ]

abbrev pub Attempt : Type 0
Attempt = Option (List NodeSlot × StageAssignment)

abbrev pub keep : NodeSlot → Attempt → Attempt
keep slot none = none
keep slot (some (slots, st)) = some (slot ∷ slots, st)

abbrev pub settle : List NodeSlot → Option (NodeSlot × StageAssignment) → Attempt → Attempt
settle rest none otherwise = otherwise
settle rest (some (slot, st)) otherwise = some (slot ∷ rest, st)

abbrev pub is_node : Option Text → NodeSlot → Bool
is_node none slot = false
is_node (some n) slot = text_eq slot.node_id n

-- The network-affinity fast path: only the first slot of the last node is tried.
unfoldable pub try_last : Placer → ShardOption → ℕ → Option Text → List NodeSlot → Attempt
try_last p shard ordinal last [] = none
try_last p shard ordinal last (slot ∷ rest) =
    let found = settle rest (try_slot p shard ordinal slot) none in
    let later = keep slot (try_last p shard ordinal last rest) in
    if is_node last slot then found else later

-- The scan of every node; with affinity the last node is passed over.
unfoldable pub try_each : Placer → ShardOption → ℕ → Option Text → List NodeSlot → Attempt
try_each p shard ordinal skip [] = none
try_each p shard ordinal skip (slot ∷ rest) =
    let later = keep slot (try_each p shard ordinal skip rest) in
    if is_node skip slot then later else settle rest (try_slot p shard ordinal slot) later

abbrev pub or_else : Attempt → Attempt → Attempt
or_else none b = b
or_else (some a) b = some a

-- Without affinity nothing is the last node.
abbrev pub preferred : Placer → Option Text → Option Text
preferred p last = if p.use_network_affinity then last else none

unfoldable pub choose : Placer → ShardOption → ℕ → Option Text → List NodeSlot → Attempt
choose p shard ordinal last slots =
    let near = preferred p last in
    or_else (try_last p shard ordinal near slots) (try_each p shard ordinal near slots)

abbrev pub range_eq : LayerRange → LayerRange → Bool
range_eq a b = a.start == b.start && a.end_exclusive == b.end_exclusive

-- The key "start-end" of the set determines the range.
unfoldable pub claim_range : Option LayerRange → List LayerRange → Result (List LayerRange)
claim_range none seen = ok seen
claim_range (some r) seen = if any_of (range_eq r) seen then err invalid_argument else ok (r ∷ seen)

unfoldable pub resort : Placer → List NodeSlot → List NodeSlot
resort p slots = if p.sort_nodes_before_each_shard then p.sorts.by_remaining_memory slots else slots

abbrev pub commit : Placing → List LayerRange → Attempt → Result Placing
commit s seen none = err resource_exhausted
commit s seen (some (slots, st)) = ok (record {
  node_slots = slots;
  ordinal = (s.ordinal + 1) % 2 ^ 32;
  last_node = some st.node_id;
  assigned_layer_ranges = seen;
  stages = s.stages ++ (st ∷ []);
})

unfoldable pub place_shard : Placer → ShardOption → Placing → Result Placing
place_shard p shard s = do
  seen ← claim_range shard.layers s.assigned_layer_ranges
  commit s seen (choose p shard s.ordinal s.last_node (resort p s.node_slots))

unfoldable pub place_all : Placer → List ShardOption → Placing → Result Placing
place_all p [] s = ok s
place_all p (shard ∷ rest) s = place_shard p shard s >>= place_all p rest
