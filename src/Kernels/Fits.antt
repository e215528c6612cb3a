-- ===== src/Kernels/Fits.antt =====
-- Which buffers a wrapper of `CudaKernels` (`src/kernels.rs`) may give back: rules for steps that keep
-- what is offered for the output, and that give a value with a property when they succeed.
pub mod Rules
pub mod Elementwise
pub mod Lookup
pub mod Matmul
pub mod Attention
pub mod Transfer
pub mod Capture
use magnetar_provider_cuda.Base.{
  ◌≡◌, ℕ, ◌*◌, ◌<◌, arith, Bool, false, none, some, Option, List, [], ◌∷◌, product,
}
use magnetar_provider_cuda.Platform.{Slice}
use magnetar_provider_cuda.Platform.Allocation.{HasSize}
use magnetar_provider_cuda.Kernels.State.{
  Kernels, KernelsAction, CudaDeviceBuffer, buffer_len, is_compact,
}
use magnetar_provider_cuda.Kernels.Shapes.{IsWellShaped}
use magnetar_provider_cuda.Kernels.Transfer.{f32_buffer}

-- A buffer that a launch may read or write by its shape: it holds as many elements as the shape says,
-- and has a size that the device can have.
abbrev pub Fits : CudaDeviceBuffer → Type 0
Fits b = IsWellShaped b × HasSize (buffer_len b)

-- Nothing is offered but what was offered, if it was.
abbrev pub Offers : {Dev : Type 0} → Option Slice → Kernels Dev → Type 0
Offers offered k = (s : Slice) → k.offered_output ≡ some s → offered ≡ some s
