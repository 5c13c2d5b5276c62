-- ===== src/Catalog/Load.antt =====
-- `load_model_catalog` and `model_catalog_all` of src/runtime/model_catalog.cpp. The calls of the JSON
-- library are a parameter; what it throws, which the source does not catch behind the parsing, is
-- `threw`, and so is the use of a field that a constant value does not have.
use socrates.Prelude.{
  ℕ, ◌+◌, ◌-◌, ◌%◌, ◌^◌, Bool, false, not, ◌&&◌, Option, none, some, List, [], ◌∷◌, ◌++◌,
  if◌then◌else◌, leb, any_of, is_empty, Text, text, text_eq,
}
use socrates.Types.{Double}
use socrates.Manifest.{Attempt, done, ◌>>=◌, each}
use socrates.Catalog.{
  ModelTier, comfortable, fair, medium, tight, debug, PipelineOption, ModelCatalogEntry, Floats,
}

-- `value_text v key default` is `v.value(key, default)`, and so on; `field` and `index` are the two
-- `operator[]` of a constant value, `mutable_field` the one that makes a missing field null. A value that is not iterated over has no elements.
pub record CatalogJson (J : Type 0) : Type 0 where
  pub contains : J → Text → Bool
  pub field : J → Text → Attempt J
  pub mutable_field : J → Text → Attempt J
  pub index : J → ℕ → Attempt J
  pub elements : J → List J
  pub items : J → List (Text × J)
  pub is_empty_value : J → Bool
  pub size : J → ℕ
  pub get_string : J → Attempt Text
  pub get_unsigned : J → Attempt ℕ
  pub value_text : J → Text → Text → Attempt Text
  pub value_word : J → Text → ℕ → Attempt ℕ
  pub value_double : J → Text → Double → Attempt Double
  pub value_bool : J → Text → Bool → Attempt Bool

unfoldable pub tier_of : Text → Option ModelTier
tier_of tier =
    if text_eq tier (text "comfortable")
    then some comfortable
    else if text_eq tier (text "fair")
    then some fair
    else if text_eq tier (text "medium")
    then some medium
    else if text_eq tier (text "tight")
    then some tight
    else if text_eq tier (text "debug")
    then some debug
    else none

-- 2048.
abbrev pub default_window : ℕ
default_window = 2048

module _ {J : Type 0} (json : CatalogJson J) where
  -- The difference of two words.
  unfoldable pub read_stage : J → Attempt ℕ
  read_stage sj = json.field sj (text "layers") >>= λ layers. json.index layers 1 >>= λ last.
      json.get_unsigned last >>= λ end_exclusive. json.index layers 0 >>= λ first.
      json.get_unsigned first >>= λ begin.
      done ((end_exclusive % 2 ^ 32 + 2 ^ 32 - begin % 2 ^ 32) % 2 ^ 32)

  unfoldable pub read_pipeline : Text × J → Attempt PipelineOption
  read_pipeline (name, pj) = json.value_text pj (text "description") [] >>= λ description.
      json.value_word pj (text "min_devices") 1 >>= λ min_devices.
      json.value_word pj (text "min_total_ram_gb") 4 >>= λ min_total_ram_gb.
      json.field pj (text "stages") >>= λ stages.
      each read_stage (json.elements stages) >>= λ stage_layers. done (record {
        name = name;
        description = description;
        min_devices = min_devices;
        min_total_ram_gb = min_total_ram_gb;
        stage_layers = stage_layers;
      })

  abbrev pub profiles : J → Attempt Bool
  profiles mj =
      let enabled : Attempt Bool =
        json.field mj (text "profiling") >>= λ p. json.value_bool p (text "enabled") false in
      if json.contains mj (text "profiling") then enabled else done false

  -- The backends of the first shard.
  abbrev pub first_backends : J → Attempt (List Text)
  first_backends mj = json.field mj (text "shards") >>= λ shards.
      let read : Attempt (List Text) = json.index shards 0 >>= λ shard.
      json.field shard (text "compatible_backends") >>= λ backends.
      each json.get_string (json.elements backends) in
      if json.is_empty_value shards then done [] else read

  module _ (fp : Floats) where
    unfoldable pub can_run : Double → ℕ → PipelineOption → Bool
    can_run ram devices po = fp.ge ram (fp.of_int po.min_total_ram_gb) && leb po.min_devices devices

    -- The name of a cluster that one of the pipelines fits.
    unfoldable pub supported_config : List PipelineOption → J → Attempt (List Text)
    supported_config pipelines cc = json.value_double cc (text "total_ram_gb") 0 >>= λ ram.
        json.field cc (text "devices") >>= λ devices.
        let named : Attempt (List Text) =
          json.field cc (text "name") >>= λ v. json.get_string v >>= λ name. done (name ∷ []) in
        if any_of (can_run ram (json.size devices % 2 ^ 32)) pipelines then named else done []

    abbrev pub joined : List (List Text) → List Text
    joined [] = []
    joined (x ∷ xs) = x ++ joined xs

    abbrev pub supported_configs : J → List PipelineOption → Attempt (List Text)
    supported_configs j pipelines =
        let read : Attempt (List Text) =
          json.mutable_field j (text "cluster_configs") >>= λ configs.
          each (supported_config pipelines) (json.elements configs) >>= λ names.
          done (joined names) in
        if json.contains j (text "cluster_configs") then read else done []

    unfoldable pub read_entry : J → J → Attempt ModelCatalogEntry
    read_entry j mj = json.field mj (text "model_id") >>= λ id. json.get_string id >>= λ model_id.
        json.value_text mj (text "family") [] >>= λ family.
        json.value_text mj (text "display_name") [] >>= λ display_name.
        json.value_text mj (text "total_params") [] >>= λ total_params.
        json.value_word mj (text "total_layers") 0 >>= λ total_layers.
        json.value_double mj (text "size_gb_int4") 0 >>= λ size_gb_int4.
        json.value_double mj (text "size_gb_fp16") 0 >>= λ size_gb_fp16.
        json.value_word mj (text "context_window_max") default_window >>= λ context_window_max.
        json.value_word mj (text "default_context") default_window >>= λ default_context.
        json.value_text mj (text "tier") [] >>= λ tier. profiles mj >>= λ is_profiler.
        first_backends mj >>= λ compatible_backends. json.field mj (text "pipelines") >>= λ options.
        each read_pipeline (json.items options) >>= λ pipelines.
        supported_configs j pipelines >>= λ supported. done (record {
          model_id = model_id;
          family = family;
          display_name = display_name;
          total_params = total_params;
          total_layers = total_layers;
          size_gb_int4 = size_gb_int4;
          size_gb_fp16 = size_gb_fp16;
          context_window_max = context_window_max;
          default_context = default_context;
          tier = tier_of tier;
          is_profiler = is_profiler;
          compatible_backends = compatible_backends;
          pipelines = pipelines;
          supported_cluster_configs = supported;
        })

    -- A file that does not open is none, and so is one that does not parse.
    unfoldable pub load_model_catalog : Option J → Attempt (List ModelCatalogEntry)
    load_model_catalog none = done []
    load_model_catalog (some j) = json.mutable_field j (text "models") >>= λ models.
        each (read_entry j) (json.elements models)

    -- The manifests of the repository, of the bundle and of the demo, in this order.
    unfoldable pub model_catalog_all :
        Option J → Option J → Option J → Attempt (List ModelCatalogEntry)
    model_catalog_all here bundle demo = load_model_catalog here >>= λ entries.
        if not (is_empty entries)
        then done entries
        else load_model_catalog bundle >>= λ others.
            if not (is_empty others) then done others else load_model_catalog demo
