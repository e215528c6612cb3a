-- ===== src/Kernels/Matmul/Terms.antt =====
-- The split of `f32` operands into two half-precision terms for the Tensor Cores (`src/kernels.rs`).
use magnetar_provider_cuda.Base.{
  ℕ, ◌+◌, ◌*◌, ◌^◌, min, max, String, Bool, false, not, ltb, if◌then◌else◌, Option, none, some,
  List, [], ◌∷◌, pure, ◌>>=◌, ◌>>◌, modify, ok,
}
use magnetar_provider_cuda.Base.Bits.{u32, u64}
use magnetar_provider_cuda.Platform.{Slice, Platform, Arg, Launch}
use magnetar_provider_cuda.Kernels.State.{
  KernelsAction, CudaDeviceBuffer, call, forbid_in_capture, has_tensor_function,
}
use magnetar_provider_cuda.Kernels.Matmul.Grids.{div_ceil, sum_lens}

module _ {Dev : Type 0} (platform : Platform Dev) where
  -- The scratch buffer of `split_bf16_all`, grown when it is too short.
  unfoldable pub split_buffer : ℕ → KernelsAction Dev Slice
  unfolding forbid_in_capture
  split_buffer total k =
      let grow : KernelsAction Dev Slice = (do
        forbid_in_capture "growing the Tensor Core split buffer"
        grown ← call (platform.alloc (max total (2 ^ 20)))
        modify (λ k'. record k' {
          split_scratch = elim k'.split_scratch.0 [
            | some outgrown ↦ (some grown, outgrown ∷ k'.split_scratch.1)
            | none ↦ (some grown, k'.split_scratch.1)
          ];
        })
        pure grown) in
      elim k.split_scratch.0 [
        | some slice ↦ if ltb slice.len total then grow k else (ok slice, k)
        | none ↦ grow k
      ]

  abbrev pub split_launch : CudaDeviceBuffer → ℕ → ℕ → ℕ → Launch
  split_launch input hi lo len = record {
    function = "tc_split_kernel";
    args = Arg.slice input.slice ∷ Arg.word hi ∷ Arg.word lo ∷ Arg.word len ∷ [];
    config = record {
      grid_dim = (u32 (min (max (div_ceil len 256) 1) 4096), 1, 1);
      block_dim = (256, 1, 1);
      shared_mem_bytes = 0;
    };
  }

  -- One launch per input; each input's hi and lo terms follow one another.
  unfoldable pub split_inputs : ℕ → List (CudaDeviceBuffer × ℕ) → KernelsAction Dev (List (ℕ × ℕ))
  split_inputs next [] = pure []
  split_inputs next ((input, len) ∷ inputs) =
      let hi = next in
      let lo = hi + len * 2 in
      let rest = split_inputs (lo + len * 2) inputs in
      (do
        call (platform.launch (split_launch input hi lo len))
        terms ← rest
        pure ((hi, lo) ∷ terms))

  -- `split_bf16_all`, and `split_bf16` as its case of one input. `none` without Tensor Cores.
  unfoldable pub split_bf16_all :
      List (CudaDeviceBuffer × ℕ) → KernelsAction Dev (Option (List (ℕ × ℕ)))
  unfolding split_buffer split_inputs
  split_bf16_all inputs = do
    found ← has_tensor_function platform "tc_split_kernel"
    (if not found then pure none else (do
      buffer ← split_buffer (u64 (sum_lens inputs * 2))
      terms ← split_inputs buffer.address inputs
      pure (some terms)))

  -- The last conditions of the pipelined Tensor Core path: the Kernel, then the split of `a`.
  abbrev pub tcp_terms :
      Bool → String → CudaDeviceBuffer → ℕ → KernelsAction Dev (Option (List (ℕ × ℕ)))
  tcp_terms eligible name a len = if not eligible then pure none else (do
    found ← has_tensor_function platform name
    (if found then split_bf16_all ((a, len) ∷ []) else pure none))

  abbrev pub tc_found : Bool → String → KernelsAction Dev Bool
  tc_found eligible name = if eligible then has_tensor_function platform name else pure false
