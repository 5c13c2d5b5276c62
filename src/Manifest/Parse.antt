-- ===== src/Manifest/Parse.antt =====
-- `parse_manifest_json` of src/model/manifest_repository.cpp.
use socrates.Prelude.{
  ℕ, ◌%◌, ◌^◌, Bool, true, false, ◌&&◌, Option, none, some, List, [], ◌∷◌, ◌++◌, if◌then◌else◌,
  Text, text, find_key,
}
use socrates.Types.{Result, ok, err, invalid_argument, LayerRange, QuantizationKind, fp16, f32}
use socrates.Scheduler.{
  transformer_layers, ArtifactDescriptor, BoundaryTensorContract, BoundaryContract, ShardOption,
}
use socrates.Manifest.Names.{
  resolve_quantization_kind, resolve_stage_kind, resolve_backend_kind, resolve_compute_unit,
  resolve_element_type,
}
use socrates.Manifest.{ManifestSummary, Attempt, done, ◌>>=◌, Json, each, has, field_or}

abbrev pub present : {A : Type 0} → List (Option A) → List A
present [] = []
present (none ∷ xs) = present xs
present (some x ∷ xs) = x ∷ present xs

-- The kinds by id; a later entry of an id stands in front of an earlier one.
abbrev pub latest_first : List (Option (Text × QuantizationKind)) → List (Text × QuantizationKind)
latest_first [] = []
latest_first (none ∷ xs) = latest_first xs
latest_first (some x ∷ xs) = latest_first xs ++ (x ∷ [])

module _ {J : Type 0} (json : Json J) where
  -- A field that is read as a text whatever it is, or the empty text.
  abbrev pub any_text : J → Text → Attempt Text
  any_text j key = if json.contains j key then json.get_string (json.at j key) else done []

  abbrev pub text_field : J → Text → Attempt Text
  text_field j key = field_or json j key json.is_string [] json.get_string

  abbrev pub unsigned_field : J → Text → Attempt ℕ
  unsigned_field j key = field_or json j key json.is_number_unsigned 0 json.get_unsigned

  abbrev pub double_field : J → Text → Attempt ℕ
  double_field j key = field_or json j key json.is_number 0 json.get_double

  abbrev pub list_field {ℓ} : {A : Type ℓ} → J → Text → (J → Attempt A) → Attempt (List A)
  list_field j key read = field_or json j key json.is_array [] (λ v. each read (json.elements v))

  abbrev pub resolved {ℓ} : {A : Type ℓ} → (Text → A) → J → Attempt A
  resolved resolve v = json.get_string v >>= λ s. done (resolve s)

  -- `get<std::uint32_t>`
  abbrev pub get_word : J → Attempt ℕ
  get_word v = json.get_unsigned v >>= λ n. done (n % 2 ^ 32)

  unfoldable pub read_quantization : J → Attempt (Option (Text × QuantizationKind))
  read_quantization q =
      let entry : Attempt (Option (Text × QuantizationKind)) =
        json.get_string (json.at q (text "id")) >>= λ id.
        json.get_string (json.at q (text "kind")) >>= λ kind.
        done (some (id, resolve_quantization_kind kind)) in
      if json.contains q (text "id") && json.contains q (text "kind") then entry else done none

  unfoldable pub read_layers : J → Attempt (Option LayerRange)
  read_layers l =
      let range : Attempt (Option LayerRange) = get_word (json.at l (text "start")) >>= λ start.
      get_word (json.at l (text "endExclusive")) >>= λ end_exclusive.
      done (some (record { start = start; end_exclusive = end_exclusive })) in
      if has json l (text "start") json.is_number_unsigned
        && has json l (text "endExclusive") json.is_number_unsigned
      then range
      else done none

  abbrev pub no_artifact : ArtifactDescriptor
  no_artifact = record {
    uri = [];
    sha256_hex = [];
    format = [];
    format_version = [];
    file_bytes = 0;
  }

  unfoldable pub read_artifact : J → Attempt ArtifactDescriptor
  read_artifact a = any_text a (text "uri") >>= λ uri. any_text a (text "sha256") >>= λ sha256_hex.
      any_text a (text "format") >>= λ format.
      any_text a (text "formatVersion") >>= λ format_version.
      (if json.contains a (text "fileBytes")
        then json.get_unsigned (json.at a (text "fileBytes"))
        else done 0)
      >>= λ file_bytes. done (record {
        uri = uri;
        sha256_hex = sha256_hex;
        format = format;
        format_version = format_version;
        file_bytes = file_bytes;
      })

  abbrev pub kind_or : Option QuantizationKind → QuantizationKind
  kind_or none = fp16
  kind_or (some kind) = kind

  unfoldable pub read_shard_fields : List (Text × QuantizationKind) → Text → J → Attempt ShardOption
  read_shard_fields quant_map shard_id s =
      list_field s (text "stageIds") json.get_string >>= λ stage_ids.
      field_or json s (text "stageKind") json.is_string transformer_layers
        (resolved resolve_stage_kind)
      >>= λ stage_kind.
          field_or json s (text "layers") json.is_object none read_layers >>= λ layers.
          field_or json s (text "quantizationId") json.is_string fp16
            (resolved (λ id. kind_or (find_key id quant_map)))
          >>= λ quantization.
              field_or json s (text "artifact") json.is_object no_artifact read_artifact
              >>= λ artifact. text_field s (text "executionProfileId") >>= λ execution_profile_id.
                  unsigned_field s (text "peakRuntimeMemoryBytes") >>= λ peak.
                  unsigned_field s (text "estimatedKvBytesPerToken") >>= λ kv_bytes.
                  list_field s (text "compatibleBackends") (resolved resolve_backend_kind)
                  >>= λ backends.
                      list_field s (text "requiredComputeUnits") (resolved resolve_compute_unit)
                      >>= λ units.
                          list_field s (text "requiredOperatorIds") json.get_string >>= λ operators.
                          double_field s (text "estimatedPrefillMicroseconds") >>= λ prefill.
                          double_field s (text "estimatedDecodeMicroseconds") >>= λ decode.
                          double_field s (text "sensitivityScore") >>= λ sensitivity. done (record {
                            shard_id = shard_id;
                            stage_ids = stage_ids;
                            input_boundary_ids = [];
                            output_boundary_ids = [];
                            stage_kind = stage_kind;
                            layers = layers;
                            quantization = quantization;
                            artifact = artifact;
                            execution_profile_id = execution_profile_id;
                            peak_runtime_memory_bytes = peak;
                            estimated_kv_bytes_per_token = kv_bytes;
                            compatible_backends = backends;
                            required_compute_units = units;
                            required_operator_ids = operators;
                            estimated_prefill_microseconds = prefill;
                            estimated_decode_microseconds = decode;
                            sensitivity_score = sensitivity;
                          })

  -- A shard without an id is passed over.
  unfoldable pub read_shard : List (Text × QuantizationKind) → J → Attempt (Option ShardOption)
  read_shard quant_map s =
      let read : Attempt (Option ShardOption) =
        json.get_string (json.at s (text "shardId")) >>= λ shard_id.
        read_shard_fields quant_map shard_id s >>= λ opt. done (some opt) in
      if has json s (text "shardId") json.is_string then read else done none

  unfoldable pub read_tensor : J → Attempt BoundaryTensorContract
  read_tensor t = text_field t (text "tensorId") >>= λ tensor_id.
      field_or json t (text "elementType") json.is_string f32 (resolved resolve_element_type)
      >>= λ element_type. list_field t (text "maximumShape") json.get_signed >>= λ maximum_shape.
          text_field t (text "layout") >>= λ layout.
          unsigned_field t (text "maximumEncodedBytes") >>= λ maximum_encoded_bytes. done (record {
            tensor_id = tensor_id;
            element_type = element_type;
            maximum_shape = maximum_shape;
            layout = layout;
            maximum_encoded_bytes = maximum_encoded_bytes;
          })

  unfoldable pub read_boundary : J → Attempt BoundaryContract
  read_boundary b = text_field b (text "boundaryId") >>= λ boundary_id.
      text_field b (text "producerStageId") >>= λ producer.
      text_field b (text "consumerStageId") >>= λ consumer.
      list_field b (text "tensors") read_tensor >>= λ tensors.
      field_or json b (text "transferable") json.is_boolean false json.get_bool >>= λ transferable.
      field_or json b (text "reliableOrderedRequired") json.is_boolean true json.get_bool
      >>= λ reliable. done (record {
        boundary_id = boundary_id;
        producer_stage_id = producer;
        consumer_stage_id = consumer;
        tensors = tensors;
        transferable = transferable;
        reliable_ordered_required = reliable;
      })

  -- What stands behind the three identity fields.
  unfoldable pub read_body : J → Text → Text → ℕ → Attempt (Result ManifestSummary)
  read_body j model_id revision total_layers =
      list_field j (text "quantizations") read_quantization >>= λ quantizations.
      let summary : Attempt (Result ManifestSummary) =
        each (read_shard (latest_first quantizations)) (json.elements (json.at j (text "shards")))
        >>= λ shards. list_field j (text "boundaries") read_boundary >>= λ boundaries. done (
            ok (record {
              model_id = model_id;
              revision = revision;
              total_layers = total_layers;
              shard_options = present shards;
              boundaries = boundaries;
            })) in
      if has json j (text "shards") json.is_array then summary else done (err invalid_argument)

  abbrev pub require :
      J → Text → (J → Bool) → Attempt (Result ManifestSummary) → Attempt (Result ManifestSummary)
  require j key test next = if has json j key test then next else done (err invalid_argument)

  unfoldable pub parse_manifest_json : J → Attempt (Result ManifestSummary)
  parse_manifest_json j = require j (text "modelId") json.is_string (
      json.get_string (json.at j (text "modelId")) >>= λ model_id.
      require j (text "version") json.is_string (
        json.get_string (json.at j (text "version")) >>= λ revision.
        require j (text "totalTransformerLayers") json.is_number_unsigned (
          get_word (json.at j (text "totalTransformerLayers")) >>= λ total_layers.
          read_body j model_id revision total_layers)))
