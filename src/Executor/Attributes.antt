-- ===== src/Executor/Attributes.antt =====
-- What `CudaExecutor` reads from an invocation's attributes (`src/executor.rs`).
use magnetar_provider_cuda.Base.{
  ℕ, String, Bool, if◌then◌else◌, Option, none, some, ⊤, Result, ok, err, lookup,
}
use magnetar_provider_cuda.Base.Eq.{string_eq}
use magnetar_provider_cuda.Error.{
  KernelError, kernel_attribute_unsupported, kernel_dtype_unsupported,
}
use magnetar_provider_cuda.Kernels.State.{CudaHalfDType}
use magnetar_provider_cuda.Kernels.Rope.{CudaRopePairing, pairing_from_attribute}
use magnetar_provider_cuda.Executor.State.{
  Attributes, DType, Resource, float, integer, boolean, text, dtype, pos,
}

unfoldable pub attribute_float : Attributes → String → ℕ → ℕ
attribute_float attributes key default = elim (lookup key attributes) [
  | some (float value) ↦ value
  | _ ↦ default
]

unfoldable pub attribute_integer : Attributes → String → Option ℕ
attribute_integer attributes key = elim (lookup key attributes) [
  | some (integer (pos n)) ↦ some n
  | _ ↦ none
]

unfoldable pub attribute_bool : Attributes → String → Bool → Bool
attribute_bool attributes key default = elim (lookup key attributes) [
  | some (boolean value) ↦ value
  | _ ↦ default
]

unfoldable pub require_f32_accumulation : Attributes → Result KernelError ⊤
require_f32_accumulation attributes = elim (lookup "accumulation_dtype" attributes) [
  | some (dtype DType.float32) ↦ ok tt
  | some (dtype _) ↦ err kernel_dtype_unsupported
  | _ ↦ ok tt
]

unfoldable pub half_dtype_from_descriptor : Resource → Result KernelError CudaHalfDType
half_dtype_from_descriptor resource = elim resource.dtype [
  | DType.float16 ↦ ok CudaHalfDType.float16
  | DType.brain_float16 ↦ ok CudaHalfDType.brain_float16
  | _ ↦ err kernel_dtype_unsupported
]

-- The `position_mode` that `rope` checks.
unfoldable pub check_position_mode : Attributes → Result KernelError ⊤
check_position_mode attributes = elim (lookup "position_mode" attributes) [
  | some (text mode) ↦
      if string_eq.beq mode "sequential" then ok tt else err kernel_attribute_unsupported
  | _ ↦ ok tt
]

unfoldable pub position_offset_of : Attributes → Result KernelError ℕ
position_offset_of attributes = elim (lookup "position_offset" attributes) [
  | none ↦ ok 0
  | some (integer (pos n)) ↦ ok n
  | some _ ↦ err kernel_attribute_unsupported
]

unfoldable pub rotation_pairing_of : Attributes → Result KernelError CudaRopePairing
rotation_pairing_of attributes = elim (lookup "rotation_pairing" attributes) [
  | none ↦ ok CudaRopePairing.interleaved
  | some (text value) ↦ elim (pairing_from_attribute value) [
    | some pairing ↦ ok pairing
    | none ↦ err kernel_attribute_unsupported
  ]
  | some _ ↦ err kernel_attribute_unsupported
]

-- The `attention_mask_kind`, which must agree with `causal`.
unfoldable pub check_mask_kind : Attributes → Bool → Result KernelError ⊤
check_mask_kind attributes causal = elim (lookup "attention_mask_kind" attributes) [
  | some (text mask_kind) ↦
      if string_eq.beq mask_kind "causal"
      then (if causal then ok tt else err kernel_attribute_unsupported)
      else if string_eq.beq mask_kind "bidirectional"
      then (if causal then err kernel_attribute_unsupported else ok tt)
      else err kernel_attribute_unsupported
  | _ ↦ ok tt
]
