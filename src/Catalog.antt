-- ===== src/Catalog.antt =====
-- src/runtime/model_catalog.cpp and its header: the catalog of models, which of them a cluster can run,
-- and how long a context it has room for. A double is its bit pattern; the text of the detail is left
-- out.
pub mod Load
pub mod Room
use socrates.Prelude.{
  ℕ, ◌+◌, ◌/◌, ◌%◌, ◌^◌, Bool, true, false, not, ◌&&◌, Option, none, some, List, [], ◌∷◌, ◌++◌,
  if◌then◌else◌, ltb, leb, min, max, Text, text, any_of,
}
use socrates.Types.{Double}
use socrates.Cluster.{Member, MembershipSnapshot, NodeRole, participant, leech, is_alive}
use socrates.Cluster.Membership.{role_eq}
use socrates.Types.{CapabilityProfile}
use socrates.Pipeline.{BatchingConfig, BatchingMode, immediate, serial, adaptive}

pub data ModelTier : Type 0 where
  comfortable fair medium tight debug : ModelTier

pub record PipelineOption : Type 0 where
  pub name : Text
  pub description : Text
  pub min_devices : ℕ
  pub min_total_ram_gb : ℕ
  pub stage_layers : List ℕ

-- A tier that nothing sets is none.
pub record ModelCatalogEntry : Type 0 where
  pub model_id : Text
  pub family : Text
  pub display_name : Text
  pub total_params : Text
  pub total_layers : ℕ
  pub size_gb_int4 : Double
  pub size_gb_fp16 : Double
  pub context_window_max : ℕ
  pub default_context : ℕ
  pub tier : Option ModelTier
  pub is_profiler : Bool
  pub compatible_backends : List Text
  pub pipelines : List PipelineOption
  pub supported_cluster_configs : List Text

pub record ContextWindowEstimate : Type 0 where
  pub max_tokens : ℕ
  pub recommended_tokens : ℕ
  pub limiting_factor : Text

-- The operations on doubles that the source uses. `to_word` is the conversion to `std::uint32_t`, of
-- which nothing is known where the value does not fit.
pub record Floats : Type 0 where
  pub add : Double → Double → Double
  pub sub : Double → Double → Double
  pub mul : Double → Double → Double
  pub div : Double → Double → Double
  pub ge : Double → Double → Bool
  pub lt : Double → Double → Bool
  pub of_int : ℕ → Double
  pub to_word : Double → ℕ

abbrev pub bytes_per_gb : Double
bytes_per_gb = 0x41D0000000000000

abbrev pub kibi : Double
kibi = 0x4090000000000000

abbrev pub usable_share : Double
usable_share = 0x3FE6666666666666

abbrev pub kv_bytes_per_token_per_layer : Double
kv_bytes_per_token_per_layer = 0x40B0000000000000

abbrev pub is_participant : Member → Bool
is_participant m = is_alive m.state && role_eq m.role participant

unfoldable pub count_participants : ℕ → List Member → ℕ
count_participants count [] = count
count_participants count (m ∷ ms) =
    count_participants (if is_participant m then (count + 1) % 2 ^ 32 else count) ms

unfoldable pub participant_count : MembershipSnapshot → ℕ
participant_count snap = count_participants 0 snap.members

abbrev pub better : PipelineOption → Option PipelineOption → Bool
better po none = true
better po (some best) = ltb best.min_total_ram_gb po.min_total_ram_gb

abbrev pub batch_multiplier : BatchingConfig → ℕ
batch_multiplier batching = elim batching.mode [
  | immediate ↦ 1
  | serial ↦ 1
  | adaptive ↦ batching.max_batch_size
]

abbrev pub insufficient : Text
insufficient = text "insufficient_resources"

abbrev pub estimate_from : ℕ → ModelCatalogEntry → ContextWindowEstimate
estimate_from room model =
    let max_ctx = if ltb model.context_window_max room then model.context_window_max else room in
    record {
      max_tokens = max_ctx;
      recommended_tokens = min max_ctx model.default_context;
      limiting_factor =
          if leb model.context_window_max max_ctx then text "model_max" else text "vram";
    }

module _ (fp : Floats) where
  abbrev pub add_ram : Double → Option CapabilityProfile → Double
  add_ram ram none = ram
  add_ram ram (some c) = fp.add ram (fp.div (fp.of_int c.total_memory_bytes) bytes_per_gb)

  unfoldable pub sum_ram : Double → List Member → Double
  sum_ram ram [] = ram
  sum_ram ram (m ∷ ms) = sum_ram (if is_participant m then add_ram ram m.capability else ram) ms

  unfoldable pub total_ram_gb : MembershipSnapshot → Double
  total_ram_gb snap = sum_ram 0 snap.members

  -- The test of both loops over the pipelines.
  unfoldable pub fits : Double → ℕ → PipelineOption → Bool
  fits ram devices po = fp.ge ram (fp.of_int po.min_total_ram_gb) && leb po.min_devices devices

  unfoldable pub runnable : Double → ℕ → List ModelCatalogEntry → List ModelCatalogEntry
  runnable ram devices [] = []
  runnable ram devices (e ∷ es) =
      let rest = runnable ram devices es in
      if any_of (fits ram devices) e.pipelines then e ∷ rest else rest

  -- `all` is what `model_catalog_all` returns.
  unfoldable pub available_models :
      List ModelCatalogEntry → MembershipSnapshot → List ModelCatalogEntry
  available_models all membership =
      runnable (total_ram_gb membership) (participant_count membership) all

  unfoldable pub best_pipeline :
      Double → ℕ → List PipelineOption → Option PipelineOption → Option PipelineOption
  best_pipeline ram devices [] best = best
  best_pipeline ram devices (po ∷ pos) best =
      best_pipeline ram devices pos
        (if fits ram devices po && better po best then some po else best)

  -- The memory that a device has for the cache of keys and values, in gigabytes.
  unfoldable pub kv_ram_per_device : Double → Double → ModelCatalogEntry → Double
  kv_ram_per_device total_ram devices model =
      let weight = fp.div model.size_gb_int4 devices in
      let usable = fp.mul (fp.div total_ram devices) usable_share in
      let left = fp.sub usable weight in if fp.lt left 0 then 0 else left

  unfoldable pub cached_tokens : Double → Double → ModelCatalogEntry → ℕ
  cached_tokens total_ram devices model =
      let layers = fp.div (fp.of_int model.total_layers) devices in
      let per_token = fp.mul kv_bytes_per_token_per_layer layers in
      let ram = kv_ram_per_device total_ram devices model in
      let bytes = fp.mul (fp.mul (fp.mul ram kibi) kibi) kibi in fp.to_word (fp.div bytes per_token)

  abbrev pub estimate_on :
      Double
      → ℕ
      → ModelCatalogEntry
      → BatchingConfig
      → Option PipelineOption
      → ContextWindowEstimate
  estimate_on ram devices model batching none = record {
    max_tokens = 0;
    recommended_tokens = 0;
    limiting_factor = insufficient;
  }
  estimate_on ram devices model batching (some po) =
      estimate_from
        (cached_tokens ram (fp.of_int devices) model / max 1 (batch_multiplier batching)) model

  unfoldable pub estimate_context_window :
      MembershipSnapshot → ModelCatalogEntry → BatchingConfig → ContextWindowEstimate
  estimate_context_window membership model batching =
      let ram = total_ram_gb membership in
      let devices = participant_count membership in
      estimate_on ram devices model batching (best_pipeline ram devices model.pipelines none)
