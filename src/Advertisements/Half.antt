-- ===== src/Advertisements/Half.antt =====
-- The operands of the half-precision Kernels: what `src/advertisements.rs` advertises against what
-- `src/executor.rs` dispatches.
use magnetar_provider_cuda.Base.{
  ◌⊎◌, ◌≡◌, ap, refl, arith, ℕ, String, Bool, true, false, any, if◌then◌else◌, Option, none, some,
  List, [], ◌∷◌, ◌>>=◌, err, pure, lookup, inl, inr, Result-cases, is_some, Option-cases,
}
use magnetar_provider_cuda.Base.Eq.{string_eq}
use magnetar_provider_cuda.Error.{KernelError, kernel_dtype_unsupported}
use magnetar_provider_cuda.Platform.{Platform}
use magnetar_provider_cuda.Kernels.State.{KernelsAction, CudaDeviceBuffer, CudaHalfDType}
use magnetar_provider_cuda.Kernels.Transfer.{upload, download, upload_half, download_half}
use magnetar_provider_cuda.Kernels.Elementwise.{HalfOp, half_elementwise}
use magnetar_provider_cuda.Executor.State.{
  DType, float32, float16, brain_float16, other_dtype, Resource, KernelInvocation, KernelResult,
  Executor, ExecutorAction, kernel_call,
}
use magnetar_provider_cuda.Executor.Attributes.{half_dtype_from_descriptor}
use magnetar_provider_cuda.Executor.Names.{Kernel, kernel_names, with_output}
use magnetar_provider_cuda.Executor.Dispatch.{
  FrequencyScaling, input_resource_id, input_buffer, store_output, run_half, run_kernel,
  run_invocation_with_offer,
}
use magnetar_provider_cuda.Advertisements.{KernelAdvertisement, cuda_kernel_advertisements}

abbrev pub half_name : HalfOp → String
half_name HalfOp.add_op = "add-half"
half_name HalfOp.mul_op = "mul-half"

-- The operand types that a Kernel's name is advertised with.
abbrev pub advertised_dtypes : String → List KernelAdvertisement → List DType
advertised_dtypes name [] = []
advertised_dtypes name (a ∷ as') =
    if string_eq.beq a.id.name name then a.input_dtypes else advertised_dtypes name as'

abbrev pub dtype_beq : DType → DType → Bool
dtype_beq float32 float32 = true
dtype_beq float16 float16 = true
dtype_beq brain_float16 brain_float16 = true
dtype_beq other_dtype other_dtype = true
dtype_beq _ _ = false

-- The half format that a type names.
abbrev pub half_format : DType → Option CudaHalfDType
half_format float16 = some CudaHalfDType.float16
half_format brain_float16 = some CudaHalfDType.brain_float16
half_format _ = none

module _ {Dev : Type 0} (platform : Platform Dev) where
  -- The specification: both operands through the host into a format, the operation there, and its
  -- result through the host back.
  abbrev pub in_format :
      HalfOp
      → CudaHalfDType
      → CudaDeviceBuffer
      → CudaDeviceBuffer
      → KernelsAction Dev CudaDeviceBuffer
  in_format op format x y = do
    x_host ← download platform x
    y_host ← download platform y
    x_half ← upload_half platform x_host format
    y_half ← upload_half platform y_host format
    result_half ← half_elementwise platform op x_half y_half
    result ← download_half platform result_half
    upload platform result

  abbrev pub stored_in_format :
      HalfOp
      → CudaHalfDType
      → CudaDeviceBuffer
      → CudaDeviceBuffer
      → KernelInvocation
      → ExecutorAction KernelError Dev KernelResult
  stored_in_format op format x y invocation = do
    result ← kernel_call (in_format op format x y)
    output ← store_output invocation 0 result
    pure (with_output invocation output)

  -- Errors are mapped once, or step by step.
  kernel_call->>= :
      {A B : Type 0} (m : KernelsAction Dev A) (f : A → KernelsAction Dev B) (e : Executor Dev)
      → kernel_call (m >>= f) e ≡ (kernel_call m >>= λ a. kernel_call (f a)) e
  kernel_call->>= m f e = ground (arith, Result-cases (m e.kernels).0)

module _ {Dev : Type 0} (platform : Platform Dev) (scaling : FrequencyScaling) where
  run_half-half_format :
      (op : HalfOp) (invocation : KernelInvocation) (first second : Resource)
      (x y : CudaDeviceBuffer) (e : Executor Dev)
      → invocation.inputs ≡ first ∷ second ∷ []
      → lookup first.id e.storage ≡ some x
      → lookup second.id e.storage ≡ some y
      → run_half platform scaling op invocation e ≡ elim (half_format first.dtype) [
        | none ↦ (err kernel_dtype_unsupported, e)
        | some format ↦ kernel_call (in_format platform op format x y) e
      ]
  unfolding half_dtype_from_descriptor input_buffer input_resource_id run_half
  run_half-half_format op invocation first second x y e operands hx hy =
      ground (arith, operands, hx, hy)

  run_invocation_with_offer-half :
      (op : HalfOp) (invocation : KernelInvocation) (e : Executor Dev)
      → invocation.kernel_name ≡ half_name op
      → run_invocation_with_offer platform scaling invocation e
        ≡ (run_half platform scaling op invocation >>= λ result.
              store_output invocation 0 result >>= λ output. pure (with_output invocation output))
            e
  unfolding run_invocation_with_offer run_kernel
  run_invocation_with_offer-half HalfOp.add_op invocation e named =
      let found : lookup invocation.kernel_name kernel_names ≡ some Kernel.add_half =
        ap (λ name. lookup name kernel_names) named in
      rw found refl
  run_invocation_with_offer-half HalfOp.mul_op invocation e named =
      let found : lookup invocation.kernel_name kernel_names ≡ some Kernel.mul_half =
        ap (λ name. lookup name kernel_names) named in
      rw found refl

half_format-advertised :
    (banded_feature : String) (default_rank : Option ℕ) (device_id provider_name : String)
    (op : HalfOp) (dtype : DType)
    → any (dtype_beq dtype) (
        advertised_dtypes
          (half_name op)
          (cuda_kernel_advertisements banded_feature default_rank device_id provider_name))
      ≡ is_some (half_format dtype)
unfolding cuda_kernel_advertisements
half_format-advertised banded_feature default_rank device_id provider_name HalfOp.add_op dtype =
    ground arith
half_format-advertised banded_feature default_rank device_id provider_name HalfOp.mul_op dtype =
    ground arith

module _ {Dev : Type 0} (platform : Platform Dev) (scaling : FrequencyScaling)
    (banded_feature : String) (default_rank : Option ℕ) (device_id provider_name : String) where
  -- The dispatch of `add-half` and `mul-half`, of resident operands, takes just the types that they
  -- are advertised with, read from the first operand: any other type is refused and nothing changes,
  -- and one of those decides the format that both operands are computed in.
  pub run_invocation_with_offer-advertised :
      (op : HalfOp) (invocation : KernelInvocation) (first second : Resource)
      (x y : CudaDeviceBuffer) (e : Executor Dev)
      → invocation.kernel_name ≡ half_name op
      → invocation.inputs ≡ first ∷ second ∷ []
      → lookup first.id e.storage ≡ some x
      → lookup second.id e.storage ≡ some y
      → let outcome = run_invocation_with_offer platform scaling invocation e in
        let advertised = any (dtype_beq first.dtype) (
          advertised_dtypes
            (half_name op)
            (cuda_kernel_advertisements banded_feature default_rank device_id provider_name)) in
        ((advertised ≡ false) × (outcome ≡ (err kernel_dtype_unsupported, e)))
        ⊎ ((advertised ≡ true)
            × ((format : CudaHalfDType) × (half_format first.dtype ≡ some format)
                × (outcome ≡ stored_in_format platform op format x y invocation e)))
  unfolding cuda_kernel_advertisements half_dtype_from_descriptor input_buffer input_resource_id
      run_half run_kernel run_invocation_with_offer
  run_invocation_with_offer-advertised op invocation first second x y e named operands hx hy =
      let half =
        run_half-half_format platform scaling op invocation first second x y e operands hx hy in
      let dispatched = run_invocation_with_offer-half platform scaling op invocation e named in
      let known =
        half_format-advertised banded_feature default_rank device_id provider_name op first.dtype in
      elim (Option-cases (half_format first.dtype)) [
        | inl unknown ↦ inl (ground (arith, known), ground (arith, dispatched, half))
        | inr (format, is_half) ↦
            inr (ground (arith, known), (format, is_half, ground (arith, dispatched, half)))
      ]
