-- ===== src/Executor/Dispatch.antt =====
-- The dispatch of one invocation to its Kernel in `CudaExecutor` (`src/executor.rs`): the `match` on
-- the Kernel's name in `run_invocation_with_offer`.
pub mod Arms
pub mod Laws
pub mod Frame
pub mod Fits
use magnetar_provider_cuda.Base.{
  ℕ, ◌≡◌, String, Bool, true, false, if◌then◌else◌, Option, none, some, List, [], ◌∷◌, Map, Result,
  ok, err, ⊤, Action, pure, fail, ◌>>=◌, ◌>>◌, gets, modify, lift, map_err, ok_or, lookup, insert,
  get_elem?,
}
use magnetar_provider_cuda.Base.Eq.{Eq, string_eq}
use magnetar_provider_cuda.Error.{
  KernelError, CudaError, kernel_execution_failed, kernel_attribute_unsupported, kernel_not_found,
}
use magnetar_provider_cuda.Platform.{Platform}
use magnetar_provider_cuda.Kernels.State.{Kernels, KernelsAction, CudaDeviceBuffer}
use magnetar_provider_cuda.Kernels.Transfer.{upload, download, upload_half, download_half}
use magnetar_provider_cuda.Kernels.Elementwise.{
  HalfOp, half_elementwise, add, mul, residual_add, concat, silu, silu_mul,
}
use magnetar_provider_cuda.Kernels.Lookup.{embedding_lookup, softmax_rows, rmsnorm}
use magnetar_provider_cuda.Kernels.Rope.{BandedScaling, rope_with_frequency_scaling}
use magnetar_provider_cuda.Kernels.Matmul.{matmul, matmul_bias, matmul_residual, gated_matmul}
use magnetar_provider_cuda.Kernels.Attention.{attention_bounded}
use magnetar_provider_cuda.Executor.State.{
  Executor, ExecutorAction, on_kernels, kernel_call, store, Attributes, KernelInvocation,
  KernelResult, Resource, success,
}
use magnetar_provider_cuda.Executor.Names.{Kernel, kernel_names, with_output}
use magnetar_provider_cuda.Executor.Attributes.{
  attribute_float, attribute_integer, attribute_bool, require_f32_accumulation,
  half_dtype_from_descriptor, check_position_mode, position_offset_of, rotation_pairing_of,
  check_mask_kind,
}

-- `RopeBandedFrequencyScaling::from_attributes` of the Runtime: `none` for an error.
abbrev pub FrequencyScaling : Type 0
FrequencyScaling = Attributes → Option (Option BandedScaling)

module _ {Dev : Type 0} where
  unfoldable pub input_resource_id : KernelInvocation → ℕ → ExecutorAction KernelError Dev String
  input_resource_id invocation index e = elim (get_elem? invocation.inputs index) [
    | some resource ↦ (ok resource.id, e)
    | none ↦ (err kernel_execution_failed, e)
  ]

  -- The buffer of an input, the source's `get`.
  unfoldable pub input_buffer :
      KernelInvocation → ℕ → ExecutorAction KernelError Dev CudaDeviceBuffer
  unfolding input_resource_id
  input_buffer invocation index = do
    id ← input_resource_id invocation index
    found ← gets (λ e. lookup id e.storage)
    ok_or found kernel_execution_failed

  unfoldable pub store_output :
      KernelInvocation → ℕ → CudaDeviceBuffer → ExecutorAction KernelError Dev Resource
  store_output invocation index buffer e = elim (get_elem? invocation.outputs index) [
    | some resource ↦ (ok resource, store resource.id buffer e)
    | none ↦ (err kernel_execution_failed, e)
  ]

  -- `ok_or_else(|| KernelAttributeUnsupported { .. })`
  abbrev required : Option ℕ → ExecutorAction KernelError Dev ℕ
  required value = ok_or value kernel_attribute_unsupported

module _ {Dev : Type 0} (platform : Platform Dev) (scaling : FrequencyScaling) where
  abbrev transposes :
      KernelInvocation
      → (Bool → Bool → ExecutorAction KernelError Dev CudaDeviceBuffer)
      → ExecutorAction KernelError Dev CudaDeviceBuffer
  transposes invocation run = do
    lift (require_f32_accumulation invocation.attributes)
    run (attribute_bool invocation.attributes "transpose_a" false)
        (attribute_bool invocation.attributes "transpose_b" false)

  abbrev unary :
      KernelInvocation
      → (CudaDeviceBuffer → KernelsAction Dev CudaDeviceBuffer)
      → ExecutorAction KernelError Dev CudaDeviceBuffer
  unary invocation f = do a ← input_buffer invocation 0; kernel_call (f a)

  abbrev binary :
      KernelInvocation
      → (CudaDeviceBuffer → CudaDeviceBuffer → KernelsAction Dev CudaDeviceBuffer)
      → ExecutorAction KernelError Dev CudaDeviceBuffer
  binary invocation f = do
    a ← input_buffer invocation 0
    b ← input_buffer invocation 1
    kernel_call (f a b)

  -- The arm of `matmul-bias` and of `matmul-residual`.
  abbrev with_addend :
      KernelInvocation
      → (CudaDeviceBuffer
          → CudaDeviceBuffer
          → CudaDeviceBuffer
          → Bool
          → Bool
          → KernelsAction Dev CudaDeviceBuffer)
      → ExecutorAction KernelError Dev CudaDeviceBuffer
  with_addend invocation f = do
    a ← input_buffer invocation 0
    b ← input_buffer invocation 1
    addend ← input_buffer invocation 2
    transposes invocation (λ ta tb. kernel_call (f a b addend ta tb))

  unfoldable pub run_rope : KernelInvocation → ExecutorAction KernelError Dev CudaDeviceBuffer
  run_rope invocation = do
    input ← input_buffer invocation 0
    let attributes = invocation.attributes
    let base = attribute_float attributes "base" 0x461C4000
    let scale = attribute_float attributes "scale" 0x3F800000
    dimension ← required (attribute_integer attributes "dimension")
    lift (check_position_mode attributes)
    offset ← lift (position_offset_of attributes)
    let head_count : ℕ = elim (attribute_integer attributes "head_count") [ some n ↦ n | none ↦ 1 ]
    pairing ← lift (rotation_pairing_of attributes)
    frequency_scaling ← ok_or (scaling attributes) kernel_attribute_unsupported
    kernel_call (
        rope_with_frequency_scaling platform input base scale dimension offset head_count pairing
          frequency_scaling)

  unfoldable pub run_attention : KernelInvocation → ExecutorAction KernelError Dev CudaDeviceBuffer
  run_attention invocation = do
    q ← input_buffer invocation 0
    k ← input_buffer invocation 1
    v ← input_buffer invocation 2
    let attributes = invocation.attributes
    head_count ← required (attribute_integer attributes "head_count")
    head_dimension ← required (attribute_integer attributes "head_dimension")
    let causal = attribute_bool attributes "causal" false
    lift (check_mask_kind attributes causal)
    kernel_call (
        attention_bounded platform q k v head_count head_dimension
          (attribute_integer attributes "kv_head_count")
          (attribute_integer attributes "window_size") causal
          (attribute_integer attributes "key_count"))

  -- Through the host on both sides: the resources stay `f32`.
  unfoldable pub run_half :
      HalfOp → KernelInvocation → ExecutorAction KernelError Dev CudaDeviceBuffer
  run_half op invocation = do
    a ← input_buffer invocation 0
    b ← input_buffer invocation 1
    first ← ok_or (get_elem? invocation.inputs 0) kernel_execution_failed
    dtype ← lift (half_dtype_from_descriptor first)
    a_host ← kernel_call (download platform a)
    b_host ← kernel_call (download platform b)
    a_half ← kernel_call (upload_half platform a_host dtype)
    b_half ← kernel_call (upload_half platform b_host dtype)
    result_half ← kernel_call (half_elementwise platform op a_half b_half)
    result_host ← kernel_call (download_half platform result_half)
    kernel_call (upload platform result_host)

  -- The arm of a Kernel.
  unfoldable pub run_kernel :
      Kernel → KernelInvocation → ExecutorAction KernelError Dev CudaDeviceBuffer
  run_kernel Kernel.matmul invocation = do
    a ← input_buffer invocation 0
    b ← input_buffer invocation 1
    transposes invocation (λ ta tb. kernel_call (matmul platform a b ta tb))
  run_kernel Kernel.matmul_bias invocation = with_addend invocation (matmul_bias platform)
  run_kernel Kernel.matmul_residual invocation = with_addend invocation (matmul_residual platform)
  run_kernel Kernel.gated_matmul invocation = transposes invocation (λ ta tb. do
    a ← input_buffer invocation 0
    gate ← input_buffer invocation 1
    up ← input_buffer invocation 2
    kernel_call (gated_matmul platform a gate up ta tb))
  run_kernel Kernel.silu_mul invocation = binary invocation (silu_mul platform)
  run_kernel Kernel.embedding invocation = binary invocation (embedding_lookup platform)
  run_kernel Kernel.rmsnorm invocation = binary invocation (λ input weight.
      rmsnorm platform input weight (attribute_float invocation.attributes "epsilon" 0x358637BD))
  run_kernel Kernel.rope invocation = run_rope invocation
  run_kernel Kernel.attention invocation = run_attention invocation
  run_kernel Kernel.softmax invocation = unary invocation (softmax_rows platform)
  run_kernel Kernel.silu invocation = unary invocation (silu platform)
  run_kernel Kernel.add invocation = binary invocation (add platform)
  run_kernel Kernel.mul invocation = binary invocation (mul platform)
  run_kernel Kernel.concat invocation = binary invocation (concat platform)
  run_kernel Kernel.residual_add invocation = binary invocation (residual_add platform)
  run_kernel Kernel.add_half invocation = run_half HalfOp.add_op invocation
  run_kernel Kernel.mul_half invocation = run_half HalfOp.mul_op invocation

  unfoldable pub run_invocation_with_offer :
      KernelInvocation → ExecutorAction KernelError Dev KernelResult
  unfolding store_output
  run_invocation_with_offer invocation = do
    kernel ← ok_or (lookup invocation.kernel_name kernel_names) kernel_not_found
    output ← run_kernel kernel invocation
    descriptor ← store_output invocation 0 output
    pure (with_output invocation descriptor)
