-- ===== src/Tests/Catalog.antt =====
-- A model with two pipelines on two laptops. The doubles of the runs are numbers of gigabytes.
use socrates.Prelude.{
  ℕ, ◌+◌, ◌-◌, ◌≡◌, refl, false, not, some, [], ◌∷◌, Text, text, text_eq, ltb, leb,
}
use socrates.Cluster.{MembershipSnapshot}
use socrates.Pipeline.{BatchingConfig, adaptive}
use socrates.Catalog.{
  PipelineOption, ModelCatalogEntry, fair, Floats, count_participants, participant_count, sum_ram,
  total_ram_gb, fits, best_pipeline, runnable, available_models, kv_ram_per_device, cached_tokens,
  estimate_context_window,
}
use socrates.Catalog.Room.{
  keep_if, refuses, Bounded, estimate_context_window-Bounded, available_models-estimate,
}
use socrates.Tests.Data.{two_members}

abbrev floats : Floats
floats = record {
  add = λ a b. a + b;
  sub = λ a b. a - b;
  mul = λ a b. a;
  div = λ a b. a;
  ge = λ a b. leb b a;
  lt = λ a b. ltb a b;
  of_int = λ n. n;
  to_word = λ a. a;
}

abbrev option : ℕ → ℕ → PipelineOption
option devices ram = record {
  name = [];
  description = [];
  min_devices = devices;
  min_total_ram_gb = ram;
  stage_layers = [];
}

abbrev model : Text → ℕ → ModelCatalogEntry
model id ram = record {
  model_id = id;
  family = [];
  display_name = [];
  total_params = [];
  total_layers = 8;
  size_gb_int4 = 100;
  size_gb_fp16 = 400;
  context_window_max = 2048;
  default_context = 1024;
  tier = some fair;
  is_profiler = false;
  compatible_backends = [];
  pipelines = option 1 500 ∷ option 2 ram ∷ option 3 100 ∷ [];
  supported_cluster_configs = [];
}

abbrev snap : MembershipSnapshot
snap = record { revision = 1; members = two_members }

abbrev batching : BatchingConfig
batching = record {
  mode = adaptive;
  max_batch_size = 4;
  batch_timeout = 5;
  long_context_threshold = 4096;
}

program : Unit {0}
unfolding text_eq count_participants participant_count sum_ram total_ram_gb fits best_pipeline
    runnable available_models kv_ram_per_device cached_tokens estimate_context_window
program = tt

-- 1700 less the weight of 100, by a batch of four.
room_left : (estimate_context_window floats snap (model (text "m") 900) batching).max_tokens ≡ 425
unfolding program
room_left = refl

estimate_context_window-Bounded_example :
    Bounded
      (estimate_context_window floats snap (model (text "m") 900) batching)
      (model (text "m") 900)
estimate_context_window-Bounded_example =
    estimate_context_window-Bounded floats snap (model (text "m") 900) batching

available_models-estimate_example :
    available_models floats (model (text "m") 900 ∷ []) snap
    ≡ keep_if
        (λ e. not (refuses (estimate_context_window floats snap e batching)))
        (model (text "m") 900 ∷ [])
available_models-estimate_example =
    available_models-estimate floats snap batching (model (text "m") 900 ∷ [])
