-- ===== src/Kernels/Rope.antt =====
-- `rope` of `CudaKernels` (`src/kernels.rs`).
pub mod Laws
use magnetar_provider_cuda.Base.{
  ℕ, ◌+◌, ◌-◌, ◌*◌, ◌/◌, ◌%◌, ◌^◌, min, max, String, Bool, true, false, ◌==◌, ◌||◌, not, leb, ltb,
  if◌then◌else◌, Option, none, some, is_some, List, [], ◌∷◌, ⊤, pure, fail, ◌>>=◌, ◌>>◌, fail_if,
  ok_or, Result, ok, err, lift,
}
use magnetar_provider_cuda.Base.Bits.{u32, u64}
use magnetar_provider_cuda.Base.Eq.{string_eq}
use magnetar_provider_cuda.Error.{CudaError, shape_unsupported}
use magnetar_provider_cuda.Platform.{Slice, Platform, Arg, LaunchConfig}
use magnetar_provider_cuda.Kernels.State.{
  Kernels, KernelsAction, CudaDeviceBuffer, call, require_f32, alloc_output, run, forbid_in_capture,
  rows_cols_buf, advancing_offset, u64_max,
}
use magnetar_provider_cuda.Kernels.Transfer.{f32_buffer}
use magnetar_provider_cuda.Kernels.Floats.{le_zero, is_finite}

pub data CudaRopePairing : Type 0 where
  interleaved half_split : CudaRopePairing

-- `CudaRopePairing::from_attribute`
unfoldable pub pairing_from_attribute : String → Option CudaRopePairing
pairing_from_attribute value =
    if string_eq.beq value "interleaved"
    then some interleaved
    else if string_eq.beq value "half_split"
    then some half_split
    else none

-- `RopeBandedFrequencyScaling` of the Runtime: its fields as `f32` patterns, and whether its own
-- `validate` accepts it.
pub record BandedScaling : Type 0 where
  pub factor : ℕ
  pub low_freq_factor : ℕ
  pub high_freq_factor : ℕ
  pub original_context_length : ℕ
  pub is_valid : Bool

-- `u64::checked_mul`
abbrev pub checked_mul : ℕ → ℕ → Option ℕ
checked_mul a b = if ltb u64_max (a * b) then none else some (a * b)

unfoldable pub rope_launch_work_items : ℕ → ℕ → ℕ → Result CudaError ℕ
rope_launch_work_items rows head_count half = elim (checked_mul rows head_count) [
  | none ↦ err shape_unsupported
  | some value ↦ elim (checked_mul value half) [
    | none ↦ err shape_unsupported
    | some work_items ↦ if ltb (2 ^ 32 - 1) work_items then err shape_unsupported else ok work_items
  ]
]

abbrev pub half_split_flag : CudaRopePairing → ℕ
half_split_flag interleaved = 0
half_split_flag half_split = 1

-- What the Kernel is told of the scaling: four zeros disable it.
abbrev pub scaling_words : Option BandedScaling → List Arg
scaling_words none = Arg.word 0 ∷ Arg.word 0 ∷ Arg.word 0 ∷ Arg.word 0 ∷ []
scaling_words (some s) =
    Arg.word s.factor
    ∷ Arg.word s.low_freq_factor
    ∷ Arg.word s.high_freq_factor
    ∷ Arg.word s.original_context_length
    ∷ []

abbrev pub is_rejected : Option BandedScaling → Bool
is_rejected none = false
is_rejected (some s) = not s.is_valid

module _ {Dev : Type 0} (platform : Platform Dev) where
  -- A copy of the input, unless the rotation covers the whole head.
  unfoldable pub rope_output : CudaDeviceBuffer → ℕ → ℕ → KernelsAction Dev Slice
  unfolding alloc_output forbid_in_capture
  rope_output input dimension head_width =
      if dimension == head_width
      then alloc_output platform input.slice.len
      else (do forbid_in_capture "a buffer copy"; call (platform.clone_dtod input.slice))

  unfoldable pub rope_with_frequency_scaling :
      CudaDeviceBuffer
      → ℕ
      → ℕ
      → ℕ
      → ℕ
      → ℕ
      → CudaRopePairing
      → Option BandedScaling
      → KernelsAction Dev CudaDeviceBuffer
  unfolding rope_output rows_cols_buf advancing_offset rope_launch_work_items
  rope_with_frequency_scaling input base scale dimension position_offset head_count pairing
        scaling =
      do
        require_f32 (input ∷ [])
        fail_if (is_rejected scaling) shape_unsupported
        (rows, cols) ← rows_cols_buf input
        fail_if (head_count == 0 || not (cols % head_count == 0)) shape_unsupported
        let head_width = cols / head_count
        fail_if (dimension == 0 || not (dimension % 2 == 0) || ltb head_width dimension)
            shape_unsupported
        fail_if (not (is_finite base) || le_zero base) shape_unsupported
        fail_if (not (is_finite scale) || le_zero scale) shape_unsupported
        let half = dimension / 2
        work_items ← lift (rope_launch_work_items rows head_count half)
        out ← rope_output input dimension head_width
        step_offset ← advancing_offset "position_offset" u64_max
        run platform "rope_kernel"
            (Arg.slice input.slice
              ∷ Arg.slice out
              ∷ Arg.word rows
              ∷ Arg.word cols
              ∷ Arg.word half
              ∷ Arg.word base
              ∷ Arg.word scale
              ∷ Arg.word dimension
              ∷ Arg.word position_offset
              ∷ Arg.word head_count
              ∷ Arg.word (half_split_flag pairing)
              ∷ Arg.word step_offset
              ∷ scaling_words scaling)
            (platform.for_num_elems work_items)
        pure (f32_buffer out input.shape)

  -- Unscaled, with a pairing.
  unfoldable pub rope_with_pairing :
      CudaDeviceBuffer → ℕ → ℕ → ℕ → ℕ → ℕ → CudaRopePairing → KernelsAction Dev CudaDeviceBuffer
  rope_with_pairing input base scale dimension position_offset head_count pairing =
      rope_with_frequency_scaling input base scale dimension position_offset head_count pairing none

  unfoldable pub rope : CudaDeviceBuffer → ℕ → ℕ → ℕ → ℕ → ℕ → KernelsAction Dev CudaDeviceBuffer
  unfolding rope_with_pairing
  rope input base scale dimension position_offset head_count =
      rope_with_pairing input base scale dimension position_offset head_count interleaved
