-- ===== src/Advertisements/Tests.antt =====
-- A test of the half-precision Kernels' operands (`src/executor.rs`), on the simulated device.
use magnetar_provider_cuda.Base.{◌⊎◌, ◌≡◌, refl, true, false, any, none, some, [], ◌∷◌, err}
use magnetar_provider_cuda.Error.{kernel_dtype_unsupported}
use magnetar_provider_cuda.Platform.Simulated.{Device, simulated}
use magnetar_provider_cuda.Kernels.State.{CudaDeviceBuffer, CudaHalfDType}
use magnetar_provider_cuda.Kernels.Transfer.{f32_buffer}
use magnetar_provider_cuda.Kernels.Elementwise.{HalfOp}
use magnetar_provider_cuda.Executor.State.{DType, Resource, KernelInvocation, Executor}
use magnetar_provider_cuda.Executor.Dispatch.{run_invocation_with_offer}
use magnetar_provider_cuda.Executor.Tests.{executor0, invocation0, no_scaling}
use magnetar_provider_cuda.Advertisements.{cuda_kernel_advertisements}
use magnetar_provider_cuda.Advertisements.Half.{
  advertised_dtypes, dtype_beq, half_format, stored_in_format, run_invocation_with_offer-advertised,
}

abbrev half : DType → Resource
half dtype = record { id = "x"; dtype = dtype; byte_size = some 4 }

abbrev squared : KernelInvocation
squared = record invocation0 {
  kernel_name = "mul-half";
  inputs = half DType.brain_float16 ∷ half DType.brain_float16 ∷ [];
}

abbrev operand : CudaDeviceBuffer
operand = f32_buffer (record { address = 50; len = 2 }) (2 ∷ [])

abbrev resident : Executor Device
resident = record executor0 { storage = ("x", operand) ∷ [] }

run_invocation_with_offer-advertised_example :
    let outcome = run_invocation_with_offer simulated no_scaling squared resident in
    let advertised =
      any
        (dtype_beq DType.brain_float16)
        (advertised_dtypes "mul-half" (cuda_kernel_advertisements "banded" none "cuda:0" "cuda")) in
    ((advertised ≡ false) × (outcome ≡ (err kernel_dtype_unsupported, resident)))
    ⊎ ((advertised ≡ true)
        × ((format : CudaHalfDType) × (half_format DType.brain_float16 ≡ some format)
            × (outcome
                ≡ stored_in_format simulated HalfOp.mul_op format operand operand squared
                    resident)))
run_invocation_with_offer-advertised_example =
    run_invocation_with_offer-advertised simulated no_scaling "banded" none "cuda:0" "cuda"
      HalfOp.mul_op squared (half DType.brain_float16) (half DType.brain_float16) operand operand
      resident refl refl refl refl
