-- ===== src/Kernels/Attention.antt =====
-- Attention in `CudaKernels` (`src/kernels.rs`): the checks of `attention_bounded`, its choice among
-- the Kernels, and the split decode attention.
mod Checks
mod Split
mod Tiles
pub mod Laws
unfoldable pub use Checks.*
unfoldable pub use Split.*
unfoldable pub use Tiles.*
use magnetar_provider_cuda.Base.{
  ℕ, ◌+◌, ◌-◌, ◌*◌, ◌/◌, ◌%◌, ◌^◌, String, Bool, true, false, ◌==◌, ◌&&◌, not, leb, ltb,
  if◌then◌else◌, Option, none, some, is_some, List, [], ◌∷◌, ◌++◌, ⊤, pure, fail, ◌>>=◌, ◌>>◌,
  fail_if, gets,
}
use magnetar_provider_cuda.Base.Bits.{u32, u64}
use magnetar_provider_cuda.Error.{shape_unsupported}
use magnetar_provider_cuda.Platform.{Slice, Platform, Arg}
use magnetar_provider_cuda.Kernels.State.{
  Kernels, KernelsAction, CudaDeviceBuffer, call, alloc_output, run, forbid_in_capture,
  advancing_offset, has_tensor_function, is_capturing,
}
use magnetar_provider_cuda.Kernels.Transfer.{f32_buffer}
use magnetar_provider_cuda.Kernels.Matmul.{
  div_ceil, tc_threads, tcp_align, split_bf16_all, term_words,
}

module _ {Dev : Type 0} (platform : Platform Dev) where
  -- A decode step has one query row: its keys are split. Several rows use the Tensor Cores, else
  -- the tiled Kernel of the head dimension, else a block or a thread for each head and query.
  unfoldable pub attention_bounded :
      CudaDeviceBuffer
      → CudaDeviceBuffer
      → CudaDeviceBuffer
      → ℕ
      → ℕ
      → Option ℕ
      → Option ℕ
      → Bool
      → Option ℕ
      → KernelsAction Dev CudaDeviceBuffer
  unfolding check_attention attention_split prefill_terms launch_prefill launch_tiled_or_block
      tiled_kernel
  attention_bounded q k v head_count head_dimension kv_head_count window_size causal key_count = do
    d ← check_attention q k v head_count head_dimension kv_head_count window_size causal key_count
    (if d.seq_len == 1
        then (do
          step_offset ←
              (if is_some key_count
                then advancing_offset "key_count" (d.kv_rows - d.kv_seq_len)
                else pure 0)
          attention_split platform q k v d step_offset)
        else (do
          prefill ← prefill_terms platform k v d
          elim prefill [
            | some (name, shared_bytes, terms) ↦ launch_prefill platform q d name shared_bytes terms
            | none ↦ (do
              capturing ← gets is_capturing
              let tiled : Option String =
                  if ltb 1 d.seq_len && not capturing then tiled_kernel d.head_dimension else none
              launch_tiled_or_block platform q k v d (is_some key_count) tiled)
          ]))

  unfoldable pub attention :
      CudaDeviceBuffer
      → CudaDeviceBuffer
      → CudaDeviceBuffer
      → ℕ
      → ℕ
      → Option ℕ
      → Option ℕ
      → Bool
      → KernelsAction Dev CudaDeviceBuffer
  attention q k v head_count head_dimension kv_head_count window_size causal =
      attention_bounded q k v head_count head_dimension kv_head_count window_size causal none
