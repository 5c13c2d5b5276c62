-- ===== src/Types.antt =====
-- include/socrates/types.h and include/socrates/result.h: ids, enumerations, capability profiles,
-- fences, and results with error codes. A time is a count of its unit; the text of an error is left out.
use socrates.Prelude.{
  ℕ, ◌≡◌, refl, Bool, true, false, ◌&&◌, not, List, ◌==◌, ltb, Text, text_eq, arith, ◌-◌, ◌+◌, ◌%◌,
  ◌^◌, ◌⊎◌, inl, inr,
}

pub data ErrorCode : Type 0 where
  cancelled invalid_argument not_found already_exists permission_denied : ErrorCode
  resource_exhausted failed_precondition unavailable deadline_exceeded : ErrorCode
  data_loss unauthenticated internal : ErrorCode

pub data Result {ℓ} (A : Type ℓ) : Type ℓ where
  ok : A → Result A
  err : ErrorCode → Result A

-- `if (!test) return Err(code);`
abbrev pub guard : (test : Bool) → (code : ErrorCode) → Result (Unit {0})
guard false code = err code
guard true code = ok tt

infixl 5 ◌>>=◌ ◌>>◌
-- The early return of a failed call.
abbrev pub ◌>>=◌ {ℓ κ} :
    {A : Type ℓ} {B : Type κ} → (call : Result A) → (next : A → Result B) → Result B
err code >>= next = err code
ok value >>= next = next value

abbrev pub ◌>>◌ {ℓ} : {B : Type ℓ} → (check : Result (Unit {0})) → (next : Result B) → Result B
check >> next = check >>= λ _. next

-- A chain that returns has returned at each of its calls.
pub >>=-eq-ok {ℓ κ} :
    {A : Type ℓ} {B : Type κ} (call : Result A) (next : A → Result B) {result : B}
    → (call >>= next) ≡ ok result
    → (value : A) × (call ≡ ok value) × (next value ≡ ok result)
>>=-eq-ok (err code) next returned = absurd (cc)
>>=-eq-ok (ok value) next returned = (value, refl, returned)

pub Result-cases {ℓ} :
    {A : Type ℓ} (r : Result A) → ((code : ErrorCode) × (r ≡ err code)) ⊎ ((a : A) × (r ≡ ok a))
Result-cases (err code) = inl (code, refl)
Result-cases (ok a) = inr (a, refl)

pub ok-injective {ℓ} : {A : Type ℓ} {a b : A} → ok a ≡ ok b → a ≡ b
ok-injective h = cc

-- A `double` is its bit pattern; the operations of the floating-point unit are a parameter.
abbrev pub Double : Type 0
Double = ℕ

pub record DoubleOps : Type 0 where
  pub gtb : Double → Double → Bool
  pub div : Double → Double → Double
  pub of_int : ℕ → Double

-- `llama_cpp` and the like stand for `BackendKind::kLlamaCpp`.
pub data QuantizationKind : Type 0 where
  fp16 int8 int4 int2 ternary : QuantizationKind

pub data BackendKind : Type 0 where
  llama_cpp executorch_qnn executorch_cpu mlx lite_rt : BackendKind

pub data ComputeUnit : Type 0 where
  cpu gpu npu : ComputeUnit

-- `f16`, `bf16`, `f32` and `f64` are the floating-point element types.
pub data ElementType : Type 0 where
  i8 i16 i32 i64 f16 bf16 f32 f64 : ElementType

-- The underlying `std::uint8_t`.
abbrev pub element_code : ElementType → ℕ
element_code i8 = 0
element_code i16 = 1
element_code i32 = 2
element_code i64 = 3
element_code f16 = 4
element_code bf16 = 5
element_code f32 = 6
element_code f64 = 7

abbrev pub quantization_code : QuantizationKind → ℕ
quantization_code fp16 = 0
quantization_code int8 = 1
quantization_code int4 = 2
quantization_code int2 = 3
quantization_code ternary = 4

abbrev pub backend_code : BackendKind → ℕ
backend_code llama_cpp = 0
backend_code executorch_qnn = 1
backend_code executorch_cpu = 2
backend_code mlx = 3
backend_code lite_rt = 4

abbrev pub unit_code : ComputeUnit → ℕ
unit_code cpu = 0
unit_code gpu = 1
unit_code npu = 2

abbrev pub quantization_eq : QuantizationKind → QuantizationKind → Bool
quantization_eq a b = quantization_code a == quantization_code b

abbrev pub backend_eq : BackendKind → BackendKind → Bool
backend_eq a b = backend_code a == backend_code b

abbrev pub unit_eq : ComputeUnit → ComputeUnit → Bool
unit_eq a b = unit_code a == unit_code b

pub backend_eq_refl : (a : BackendKind) → backend_eq a a ≡ true
backend_eq_refl a = ground arith

pub record LayerRange : Type 0 where
  pub start : ℕ
  pub end_exclusive : ℕ

unfoldable pub valid : LayerRange → Bool
valid r = ltb r.start r.end_exclusive

-- `std::uint32_t` subtraction.
unfoldable pub count : LayerRange → ℕ
count r = (r.end_exclusive + 2 ^ 32 - r.start) % 2 ^ 32

pub data QuantizationScheme : Type 0 where
  per_tensor per_channel per_group : QuantizationScheme

pub data QuantizationActivation : Type 0 where
  fp8 fp16 int16 int32 : QuantizationActivation

pub record QuantizationIdentity : Type 0 where
  pub kind : QuantizationKind
  pub scheme : QuantizationScheme
  pub activation : QuantizationActivation
  pub group_size : ℕ
  pub has_act_order : Bool
  pub has_gptq : Bool

pub record NetworkMetrics : Type 0 where
  pub round_trip_latency : ℕ
  pub available_bandwidth_bytes_per_second : ℕ
  pub measured_at : ℕ

pub record BackendCapability : Type 0 where
  pub kind : BackendKind
  pub version : Text
  pub quantizations : List QuantizationIdentity
  pub compute_units : List ComputeUnit
  pub allows_cpu_fallback : Bool

pub record BackendBenchmark : Type 0 where
  pub backend : BackendKind
  pub quantization : QuantizationIdentity
  pub sequence_length : ℕ
  pub prefill_tokens_per_second : Double
  pub decode_tokens_per_second : Double
  pub first_token_latency : ℕ
  pub peak_memory_bytes : ℕ

pub record CapabilityProfile : Type 0 where
  pub node_id : Text
  pub revision : ℕ
  pub measured_at : ℕ
  pub received_at : ℕ
  pub valid_for : ℕ
  pub total_memory_bytes : ℕ
  pub available_memory_bytes : ℕ
  pub cpu_model : Text
  pub logical_cpu_count : ℕ
  pub accelerators : List Text
  pub backends : List BackendCapability
  pub measured_benchmarks : List BackendBenchmark
  pub network_to_leader : NetworkMetrics
  pub extensions : List (Text × Text)

-- `now` is the reading of the steady clock.
unfoldable pub expired : CapabilityProfile → ℕ → Bool
expired p now = not (ltb now (p.received_at + p.valid_for))

pub record LeadershipFence : Type 0 where
  pub term : ℕ
  pub token : Text
  pub membership_revision : ℕ

unfoldable pub newer_than : LeadershipFence → LeadershipFence → Bool
newer_than f other = ltb other.term f.term

unfoldable pub fence_eq : LeadershipFence → LeadershipFence → Bool
fence_eq f o =
    f.term == o.term && text_eq f.token o.token && f.membership_revision == o.membership_revision
