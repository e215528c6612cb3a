-- ===== src/Kernels/Elementwise.antt =====
-- The elementwise Kernels and `concat` of `CudaKernels` (`src/kernels.rs`).
use magnetar_provider_cuda.Base.{
  ◌+◌, ◌%◌, String, Bool, true, false, ◌==◌, ◌||◌, not, if◌then◌else◌, List, [], ◌∷◌, ⊤, pure, fail,
  ◌>>=◌, ◌>>◌, fail_if, ok_or, last,
}
use magnetar_provider_cuda.Base.Bits.{u32, u64}
use magnetar_provider_cuda.Error.{shape_unsupported}
use magnetar_provider_cuda.Platform.{Slice, Platform, Arg}
use magnetar_provider_cuda.Kernels.State.{
  KernelsAction, CudaDeviceBuffer, CudaHalfBuffer, CudaHalfDType, float16, brain_float16, call,
  require_f32, same_shape_buf, shape_eq, alloc_output, run, forbid_in_capture,
}
use magnetar_provider_cuda.Kernels.Transfer.{f32_buffer}

-- `half_kernel_name`, for the two operators that it knows.
pub data HalfOp : Type 0 where
  add_op mul_op : HalfOp

unfoldable pub half_kernel_name : HalfOp → CudaHalfDType → String
half_kernel_name add_op float16 = "add_f16_kernel"
half_kernel_name add_op brain_float16 = "add_bf16_kernel"
half_kernel_name mul_op float16 = "mul_f16_kernel"
half_kernel_name mul_op brain_float16 = "mul_bf16_kernel"

abbrev pub same_dtype : CudaHalfDType → CudaHalfDType → Bool
same_dtype float16 float16 = true
same_dtype brain_float16 brain_float16 = true
same_dtype _ _ = false

module _ {Dev : Type 0} where
  unfoldable pub same_shape_half : CudaHalfBuffer → CudaHalfBuffer → KernelsAction Dev ⊤
  same_shape_half a b = do
    fail_if (not (shape_eq a.shape b.shape)) shape_unsupported
    fail_if (not (same_dtype a.dtype b.dtype)) shape_unsupported

module _ {Dev : Type 0} (platform : Platform Dev) where
  -- An output like `a`, from a Kernel over its elements.
  abbrev elementwise :
      String → CudaDeviceBuffer → (Slice → List Arg) → KernelsAction Dev CudaDeviceBuffer
  elementwise name a args = do
    out ← alloc_output platform a.slice.len
    run platform name (args out) (platform.for_num_elems (u32 a.slice.len))
    pure (f32_buffer out a.shape)

  unfoldable pub add : CudaDeviceBuffer → CudaDeviceBuffer → KernelsAction Dev CudaDeviceBuffer
  unfolding alloc_output
  add a b =
      require_f32 (a ∷ b ∷ [])
      >> (if shape_eq a.shape b.shape
          then (elementwise "add_kernel" a λ out.
              Arg.slice a.slice ∷ Arg.slice b.slice ∷ Arg.slice out ∷ Arg.word a.slice.len ∷ [])
          else (do
            cols ← ok_or (last a.shape) shape_unsupported
            fail_if (not (shape_eq b.shape (cols ∷ []) || shape_eq b.shape (1 ∷ cols ∷ [])))
                shape_unsupported
            fail_if (not (a.slice.len % cols == 0)) shape_unsupported
            elementwise "bias_add_kernel" a λ out.
                Arg.slice a.slice
                ∷ Arg.slice b.slice
                ∷ Arg.slice out
                ∷ Arg.word cols
                ∷ Arg.word a.slice.len
                ∷ []))

  unfoldable pub mul : CudaDeviceBuffer → CudaDeviceBuffer → KernelsAction Dev CudaDeviceBuffer
  unfolding alloc_output
  mul a b = do
    require_f32 (a ∷ b ∷ [])
    same_shape_buf a b
    elementwise "mul_kernel" a
        λ out. Arg.slice a.slice ∷ Arg.slice b.slice ∷ Arg.slice out ∷ Arg.word a.slice.len ∷ []

  unfoldable pub residual_add :
      CudaDeviceBuffer → CudaDeviceBuffer → KernelsAction Dev CudaDeviceBuffer
  unfolding add
  residual_add input residual = do require_f32 (input ∷ residual ∷ []); add input residual

  unfoldable pub concat : CudaDeviceBuffer → CudaDeviceBuffer → KernelsAction Dev CudaDeviceBuffer
  unfolding alloc_output
  concat a b = require_f32 (a ∷ b ∷ []) >> elim a.shape [
    | [] ↦ fail shape_unsupported
    | a_rows ∷ a_rest ↦ elim b.shape [
      | [] ↦ fail shape_unsupported
      | b_rows ∷ b_rest ↦ (do
        fail_if (not (shape_eq a_rest b_rest)) shape_unsupported
        out ← alloc_output platform (a.slice.len + b.slice.len)
        call (platform.memcpy_dtod a.slice out 0)
        call (platform.memcpy_dtod b.slice out a.slice.len)
        pure (f32_buffer out (u64 (a_rows + b_rows) ∷ a_rest)))
    ]
  ]

  unfoldable pub silu : CudaDeviceBuffer → KernelsAction Dev CudaDeviceBuffer
  unfolding alloc_output
  silu input = do
    require_f32 (input ∷ [])
    elementwise "silu_kernel" input
        λ out. Arg.slice input.slice ∷ Arg.slice out ∷ Arg.word input.slice.len ∷ []

  unfoldable pub silu_mul : CudaDeviceBuffer → CudaDeviceBuffer → KernelsAction Dev CudaDeviceBuffer
  unfolding alloc_output
  silu_mul gate up = do
    require_f32 (gate ∷ up ∷ [])
    fail_if (not (shape_eq gate.shape up.shape)) shape_unsupported
    elementwise "silu_mul_kernel" gate λ out.
        Arg.slice gate.slice ∷ Arg.slice up.slice ∷ Arg.slice out ∷ Arg.word gate.slice.len ∷ []

  -- `add_half` and `mul_half`
  unfoldable pub half_elementwise :
      HalfOp → CudaHalfBuffer → CudaHalfBuffer → KernelsAction Dev CudaHalfBuffer
  unfolding same_shape_half forbid_in_capture half_kernel_name
  half_elementwise op a b = do
    same_shape_half a b
    forbid_in_capture "a half-precision Kernel"
    out ← call (platform.alloc_zeros a.slice.len)
    run platform (half_kernel_name op a.dtype)
        (Arg.slice a.slice ∷ Arg.slice b.slice ∷ Arg.slice out ∷ Arg.word a.slice.len ∷ [])
        (platform.for_num_elems (u32 a.slice.len))
    pure (record { slice = out; shape = a.shape; dtype = a.dtype })
