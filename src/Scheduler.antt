-- ===== src/Scheduler.antt =====
-- include/socrates/scheduler/scheduler.h: the scheduler's input and its plan. The children model
-- src/scheduler/memory_scheduler.cpp.
pub mod Compatible
pub mod Placement
pub mod Plan
use socrates.Prelude.{ℕ, Bool, Option, List, Text}
use socrates.Cluster.{MembershipSnapshot}
use socrates.Types.{
  Double, LayerRange, QuantizationKind, BackendKind, ComputeUnit, LeadershipFence, ElementType,
}

pub data StageKind : Type 0 where
  token_embedding transformer_layers output_normalization lm_head : StageKind

pub record ArtifactDescriptor : Type 0 where
  pub uri : Text
  pub sha256_hex : Text
  pub format : Text
  pub format_version : Text
  pub file_bytes : ℕ

-- An element of `maximum_shape` is the bit pattern of an `int64_t`.
pub record BoundaryTensorContract : Type 0 where
  pub tensor_id : Text
  pub element_type : ElementType
  pub maximum_shape : List ℕ
  pub layout : Text
  pub maximum_encoded_bytes : ℕ

pub record BoundaryContract : Type 0 where
  pub boundary_id : Text
  pub producer_stage_id : Text
  pub consumer_stage_id : Text
  pub tensors : List BoundaryTensorContract
  pub transferable : Bool
  pub reliable_ordered_required : Bool

pub record ShardOption : Type 0 where
  pub shard_id : Text
  pub stage_ids : List Text
  pub input_boundary_ids : List Text
  pub output_boundary_ids : List Text
  pub stage_kind : StageKind
  pub layers : Option LayerRange
  pub quantization : QuantizationKind
  pub artifact : ArtifactDescriptor
  pub execution_profile_id : Text
  pub peak_runtime_memory_bytes : ℕ
  pub estimated_kv_bytes_per_token : ℕ
  pub compatible_backends : List BackendKind
  pub required_compute_units : List ComputeUnit
  pub required_operator_ids : List Text
  pub estimated_prefill_microseconds : Double
  pub estimated_decode_microseconds : Double
  pub sensitivity_score : Double

pub record NetworkLink : Type 0 where
  pub source : Text
  pub destination : Text
  pub latency : ℕ
  pub available_bandwidth_bytes_per_second : ℕ

pub data SchedulingPolicy : Type 0 where
  memory_based sensitivity_aware : SchedulingPolicy

pub record SchedulingInput : Type 0 where
  pub model_id : Text
  pub manifest_revision : Text
  pub total_layers : ℕ
  pub shard_options : List ShardOption
  pub boundaries : List BoundaryContract
  pub membership : MembershipSnapshot
  pub network_links : List NetworkLink
  pub fence : LeadershipFence
  pub policy : SchedulingPolicy
  pub maximum_context_tokens : ℕ
  pub maximum_generation_tokens : ℕ
  pub per_device_memory_reserve_bytes : ℕ
  pub maximum_quality_loss_score : Double
  pub compute_balance_weight : Double
  pub transfer_latency_weight : Double
  pub use_calibrated_costs : Bool

pub record StageAssignment : Type 0 where
  pub ordinal : ℕ
  pub node_id : Text
  pub shard_id : Text
  pub stage_ids : List Text
  pub input_boundary_ids : List Text
  pub output_boundary_ids : List Text
  pub stage_kind : StageKind
  pub layers : Option LayerRange
  pub quantization : QuantizationKind
  pub backend : BackendKind
  pub execution_profile_id : Text
  pub artifact : ArtifactDescriptor
  pub reserved_memory_bytes : ℕ
  pub estimated_stage_microseconds : Double

pub record PipelinePlan : Type 0 where
  pub plan_id : Text
  pub model_id : Text
  pub manifest_revision : Text
  pub fence : LeadershipFence
  pub stages : List StageAssignment
  pub boundaries : List BoundaryContract
  pub issued_at_utc : ℕ
  pub valid_for : ℕ
