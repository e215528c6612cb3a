-- ===== src/Kernels/Lookup.antt =====
-- Kernels of `CudaKernels` that read a flag or an answer back (`src/kernels.rs`): the embedding
-- lookup, softmax and greedy selection; and RMSNorm.
use magnetar_provider_cuda.Base.{
  ℕ, ◌+◌, ◌-◌, ◌*◌, ◌/◌, ◌%◌, ◌^◌, min, max, true, ◌==◌, ◌||◌, not, leb, ltb, if◌then◌else◌, Option,
  none, some, List, [], ◌∷◌, pure, fail, ◌>>=◌, ◌>>◌, fail_if, ok_or, modify, gets, lift, last,
  length, ok,
}
use magnetar_provider_cuda.Base.Bits.{u32, u64}
use magnetar_provider_cuda.Error.{shape_unsupported, execution_failed}
use magnetar_provider_cuda.Platform.{Slice, Platform, Arg}
use magnetar_provider_cuda.Kernels.State.{
  KernelsAction, CudaDeviceBuffer, call, attempt, require_f32, shape_eq, alloc_output, run,
  function, forbid_in_capture, rows_cols_buf, bf16_address, is_capturing, add_download,
}
use magnetar_provider_cuda.Kernels.Transfer.{f32_buffer}
use magnetar_provider_cuda.Kernels.Capture.{check_embedding_flag, is_raised}
use magnetar_provider_cuda.Kernels.Floats.{le_zero}

module _ {Dev : Type 0} (platform : Platform Dev) where
  -- `flag_slot.take()`, or a fresh flag.
  unfoldable pub take_flag : KernelsAction Dev Slice
  unfolding forbid_in_capture
  take_flag k = elim k.embedding_flag [
    | some flag ↦ (ok flag, record k { embedding_flag = none })
    | none ↦ (do forbid_in_capture "a device allocation"; call (platform.alloc_zeros 1)) k
  ]

  -- What follows the launch: a captured lookup only marks its capture.
  unfoldable pub finish_lookup : CudaDeviceBuffer → KernelsAction Dev CudaDeviceBuffer
  unfolding check_embedding_flag
  finish_lookup out k = elim k.capture [
    | some capture ↦ (ok out, record k { capture = some (record capture { has_embedding = true }) })
    | none ↦ (do check_embedding_flag platform; pure out) k
  ]

  unfoldable pub embedding_lookup :
      CudaDeviceBuffer → CudaDeviceBuffer → KernelsAction Dev CudaDeviceBuffer
  unfolding take_flag finish_lookup rows_cols_buf alloc_output
  embedding_lookup table ids = do
    (vocab, dim) ← rows_cols_buf table
    require_f32 (ids ∷ [])
    let num_ids = ids.slice.len
    out ← alloc_output platform (u64 (num_ids * dim))
    flag ← take_flag
    capturing ← gets is_capturing
    (if capturing then pure tt else call (platform.memset_zeros flag))
    function platform "embedding_lookup_kernel"
    launched ← attempt (
        platform.launch (record {
          function = "embedding_lookup_kernel";
          args =
              Arg.slice table.slice
              ∷ Arg.slice ids.slice
              ∷ Arg.slice out
              ∷ Arg.word dim
              ∷ Arg.word num_ids
              ∷ Arg.word vocab
              ∷ Arg.slice flag
              ∷ Arg.word (bf16_address table)
              ∷ [];
          config = platform.for_num_elems (u32 num_ids);
        }))
    modify (λ k. record k { embedding_flag = some flag })
    lift launched
    finish_lookup (f32_buffer out (num_ids ∷ dim ∷ []))

  unfoldable pub softmax_rows : CudaDeviceBuffer → KernelsAction Dev CudaDeviceBuffer
  unfolding rows_cols_buf forbid_in_capture
  softmax_rows input = do
    require_f32 (input ∷ [])
    (rows, cols) ← rows_cols_buf input
    forbid_in_capture "softmax"
    out ← call (platform.alloc_zeros input.slice.len)
    flag ← call (platform.alloc_zeros 1)
    run platform "softmax_rows_kernel"
        (Arg.slice input.slice
          ∷ Arg.slice out
          ∷ Arg.word rows
          ∷ Arg.word cols
          ∷ Arg.slice flag
          ∷ [])
        (platform.for_num_elems (u32 rows))
    values ← call (platform.clone_dtoh flag 0 1)
    call platform.synchronize
    fail_if (is_raised values) execution_failed
    pure (f32_buffer out input.shape)

  -- `RMSNORM_THREADS`
  abbrev pub rmsnorm_threads : ℕ
  rmsnorm_threads = 256

  unfoldable pub rmsnorm :
      CudaDeviceBuffer → CudaDeviceBuffer → ℕ → KernelsAction Dev CudaDeviceBuffer
  unfolding alloc_output
  rmsnorm input weight epsilon = do
    require_f32 (input ∷ weight ∷ [])
    cols ← ok_or (last input.shape) shape_unsupported
    fail_if (cols == 0 || not (input.slice.len % cols == 0)) shape_unsupported
    let rows = input.slice.len / cols
    weight_row_stride ←
        (if shape_eq weight.shape (cols ∷ []) || shape_eq weight.shape (1 ∷ cols ∷ [])
          then pure 0
          else if shape_eq weight.shape input.shape || shape_eq weight.shape (rows ∷ cols ∷ [])
          then pure cols
          else fail shape_unsupported)
    fail_if (le_zero epsilon) shape_unsupported
    out ← alloc_output platform input.slice.len
    run platform "rmsnorm_kernel"
        (Arg.slice input.slice
          ∷ Arg.slice weight.slice
          ∷ Arg.slice out
          ∷ Arg.word rows
          ∷ Arg.word cols
          ∷ Arg.word weight_row_stride
          ∷ Arg.word epsilon
          ∷ [])
        (record { grid_dim = (u32 rows, 1, 1); block_dim = (256, 1, 1); shared_mem_bytes = 0 })
    pure (f32_buffer out input.shape)

  -- The answer of the reduction: the complement of the low word, if any column was eligible.
  abbrev pub greedy_column : List ℕ → Option ℕ
  greedy_column [] = none
  greedy_column (key ∷ _) = if key == 0 then none else some (0xFFFF_FFFF - key % 2 ^ 32)

  abbrev range_words : List (ℕ × ℕ) → List ℕ
  range_words [] = []
  range_words ((start, end) ∷ ranges) = start ∷ end ∷ range_words ranges

  -- A device buffer cannot be empty: one unused pair stands in.
  abbrev range_buffer : List (ℕ × ℕ) → List ℕ
  range_buffer [] = 0 ∷ 0 ∷ []
  range_buffer (r ∷ ranges) = range_words (r ∷ ranges)

  unfoldable pub greedy_select :
      CudaDeviceBuffer → ℕ → List (ℕ × ℕ) → ℕ → KernelsAction Dev (Option ℕ)
  greedy_select logits row excluded temperature = do
    require_f32 (logits ∷ [])
    cols ← ok_or (last logits.shape) shape_unsupported
    let rows = logits.slice.len / max cols 1
    fail_if (cols == 0 || leb rows row || ltb (2 ^ 32 - 1) cols) shape_unsupported
    ranges ← call (platform.clone_htod (range_buffer excluded))
    best ← call (platform.alloc_zeros 1)
    run platform "greedy_select_kernel"
        (Arg.slice (record { address = logits.slice.address + 4 * (row * cols); len = cols })
          ∷ Arg.word cols
          ∷ Arg.slice ranges
          ∷ Arg.word (u32 (length excluded))
          ∷ Arg.word temperature
          ∷ Arg.slice best
          ∷ [])
        (record {
          grid_dim = (u32 (min ((cols + 255) / 256) 256), 1, 1);
          block_dim = (256, 1, 1);
          shared_mem_bytes = 0;
        })
    key ← call (platform.clone_dtoh best 0 1)
    modify add_download
    pure (greedy_column key)
