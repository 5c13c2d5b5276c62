-- ===== src/Manifest/Names.antt =====
-- The names of kinds in a manifest, as src/model/manifest_repository.cpp resolves them.
use socrates.Prelude.{if◌then◌else◌, Text, text, text_eq}
use socrates.Types.{
  QuantizationKind, fp16, int8, int4, int2, ternary, BackendKind, llama_cpp, executorch_qnn,
  executorch_cpu, mlx, lite_rt, ComputeUnit, cpu, gpu, npu, ElementType, i8, i16, i32, i64, f16,
  bf16, f32, f64,
}
use socrates.Scheduler.{
  StageKind, token_embedding, transformer_layers, output_normalization, lm_head,
}

abbrev pub resolve_quantization_kind : Text → QuantizationKind
resolve_quantization_kind s =
    if text_eq s (text "fp16")
    then fp16
    else if text_eq s (text "int4")
    then int4
    else if text_eq s (text "int8")
    then int8
    else if text_eq s (text "int2")
    then int2
    else if text_eq s (text "ternary")
    then ternary
    else fp16

abbrev pub resolve_stage_kind : Text → StageKind
resolve_stage_kind s =
    if text_eq s (text "tokenEmbedding")
    then token_embedding
    else if text_eq s (text "transformerLayers")
    then transformer_layers
    else if text_eq s (text "outputNormalization")
    then output_normalization
    else if text_eq s (text "lmHead")
    then lm_head
    else transformer_layers

abbrev pub resolve_backend_kind : Text → BackendKind
resolve_backend_kind s =
    if text_eq s (text "llamaCpp")
    then llama_cpp
    else if text_eq s (text "execuTorchCpu")
    then executorch_cpu
    else if text_eq s (text "execuTorchQnn")
    then executorch_qnn
    else if text_eq s (text "mlx")
    then mlx
    else if text_eq s (text "liteRt")
    then lite_rt
    else llama_cpp

abbrev pub resolve_compute_unit : Text → ComputeUnit
resolve_compute_unit s =
    if text_eq s (text "cpu")
    then cpu
    else if text_eq s (text "gpu")
    then gpu
    else if text_eq s (text "npu")
    then npu
    else cpu

abbrev pub resolve_element_type : Text → ElementType
resolve_element_type s =
    if text_eq s (text "float16")
    then f16
    else if text_eq s (text "float32")
    then f32
    else if text_eq s (text "bf16")
    then bf16
    else if text_eq s (text "float64")
    then f64
    else if text_eq s (text "int8")
    then i8
    else if text_eq s (text "int16")
    then i16
    else if text_eq s (text "int32")
    then i32
    else if text_eq s (text "int64")
    then i64
    else f32
