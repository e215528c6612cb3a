-- ===== src/Kernels/Attention/Tiles.antt =====
-- Attention of several query rows (`src/kernels.rs`): the Tensor Core Kernels, the tiled ones and the
-- block ones.
use magnetar_provider_cuda.Base.{
  ℕ, ◌+◌, ◌-◌, ◌*◌, ◌%◌, ◌^◌, String, Bool, ◌==◌, ◌&&◌, not, leb, ltb, if◌then◌else◌, Option, none,
  some, List, [], ◌∷◌, ◌++◌, pure, ◌>>=◌, ◌>>◌, fail_if, gets,
}
use magnetar_provider_cuda.Base.Bits.{u32, u64}
use magnetar_provider_cuda.Error.{shape_unsupported}
use magnetar_provider_cuda.Platform.{Slice, Platform, Arg}
use magnetar_provider_cuda.Kernels.State.{
  KernelsAction, CudaDeviceBuffer, call, alloc_output, function, launch, run, forbid_in_capture,
  advancing_offset, has_tensor_function, is_capturing,
}
use magnetar_provider_cuda.Kernels.Transfer.{f32_buffer}
use magnetar_provider_cuda.Kernels.Matmul.{
  div_ceil, tc_threads, tcp_align, split_bf16_all, term_words,
}
use magnetar_provider_cuda.Kernels.Attention.Checks.{AttentionDims}

-- `TCAP_KEYS`, `TCA_QUERIES`, `ATTENTION_THREADS`, `ATTENTION_TILE_QUERIES` and
-- `ATTENTION_MAX_SHARED_BYTES`.
abbrev pub tcap_keys : ℕ
tcap_keys = 32

abbrev pub tca_queries : ℕ
tca_queries = 64

abbrev pub attention_threads : ℕ
attention_threads = 128

abbrev pub attention_tile_queries : ℕ
attention_tile_queries = 64

abbrev pub attention_max_shared_bytes : ℕ
attention_max_shared_bytes = 48 * 1024

-- The Tensor Core prefill attention for a head dimension: its Kernel and dynamic shared memory.
unfoldable pub tensor_core_prefill_attention : ℕ → Option (String × ℕ)
tensor_core_prefill_attention head_dimension =
    let bytes = 4 * 2 * tcap_keys * (head_dimension + 8) * 2 in
    if head_dimension == 64
    then some ("attention_tcp_kernel", bytes)
    else if head_dimension == 128
    then some ("attention_tcp128_kernel", bytes)
    else none

-- The tiled Kernel compiled for a head dimension.
unfoldable pub tiled_kernel : ℕ → Option String
tiled_kernel d =
    if d == 4
    then some "attention_tiled_1_kernel"
    else if d == 8
    then some "attention_tiled_2_kernel"
    else if d == 16
    then some "attention_tiled_4_kernel"
    else if d == 32
    then some "attention_tiled_8_kernel"
    else if d == 64
    then some "attention_tiled_16_kernel"
    else if d == 96
    then some "attention_tiled_24_kernel"
    else if d == 128
    then some "attention_tiled_32_kernel"
    else none

abbrev pub u32_max : ℕ
u32_max = 2 ^ 32 - 1

-- Bytes of shared memory of `attention_block_kernel`.
abbrev pub block_shared_bytes : ℕ → ℕ → ℕ
block_shared_bytes head_dimension score_rows =
    u64 (u64 (head_dimension + attention_threads + score_rows) * 4)

module _ {Dev : Type 0} (platform : Platform Dev) where
  -- Arguments that all the Kernels of several query rows end in.
  abbrev tail_words : AttentionDims → List Arg
  tail_words d =
      Arg.word d.q_model_dim
      ∷ Arg.word d.kv_model_dim
      ∷ Arg.word d.causal_flag
      ∷ Arg.word d.window_arg
      ∷ Arg.word d.query_position_offset
      ∷ []

  abbrev head_words : AttentionDims → List Arg
  head_words d =
      Arg.word d.seq_len
      ∷ Arg.word d.kv_seq_len
      ∷ Arg.word d.head_count
      ∷ Arg.word d.kv_head_count
      ∷ []

  abbrev operand_slices : CudaDeviceBuffer → CudaDeviceBuffer → CudaDeviceBuffer → Slice → List Arg
  operand_slices q k v out =
      Arg.slice q.slice ∷ Arg.slice k.slice ∷ Arg.slice v.slice ∷ Arg.slice out ∷ []

  -- Whether a Tensor Core Kernel is there, and the driver grants its shared memory.
  unfoldable pub grant_prefill :
      CudaDeviceBuffer
      → CudaDeviceBuffer
      → ℕ
      → Option (String × ℕ)
      → KernelsAction Dev (Option (String × ℕ × List (ℕ × ℕ)))
  unfolding split_bf16_all
  grant_prefill k v kv_len none = pure none
  grant_prefill k v kv_len (some (name, shared_bytes)) = do
    found ← has_tensor_function platform name
    (if not found then pure none else (do
      granted ← gets (λ s. platform.set_max_shared name shared_bytes s.dev)
      (if not granted then pure none else (do
        split ← split_bf16_all platform ((k, kv_len) ∷ (v, kv_len) ∷ [])
        elim split [ none ↦ pure none | some terms ↦ pure (some (name, shared_bytes, terms)) ]))))

  -- Whether the Tensor Core prefill serves the call: its shared memory and split terms if so. The
  -- shared memory is asked of the driver before the split.
  unfoldable pub prefill_terms :
      CudaDeviceBuffer
      → CudaDeviceBuffer
      → AttentionDims
      → KernelsAction Dev (Option (String × ℕ × List (ℕ × ℕ)))
  unfolding tensor_core_prefill_attention grant_prefill
  prefill_terms k v d = do
    let kv_len = u64 (d.kv_seq_len * d.kv_model_dim)
    capturing ← gets is_capturing
    (if leb 16 d.seq_len && d.kv_model_dim % tcp_align == 0 && ltb 0 kv_len && not capturing
        then grant_prefill k v kv_len (tensor_core_prefill_attention d.head_dimension)
        else pure none)

  unfoldable pub launch_prefill :
      CudaDeviceBuffer
      → AttentionDims
      → String
      → ℕ
      → List (ℕ × ℕ)
      → KernelsAction Dev CudaDeviceBuffer
  unfolding alloc_output
  launch_prefill q d name shared_bytes terms = do
    out ← alloc_output platform q.slice.len
    fail_if (ltb u32_max (div_ceil d.seq_len tca_queries)) shape_unsupported
    fail_if (ltb u32_max d.head_count) shape_unsupported
    call (
        platform.launch (record {
          function = name;
          args =
              Arg.slice q.slice
              ∷ (term_words terms ++ (Arg.slice out ∷ (head_words d ++ tail_words d)));
          config = record {
            grid_dim = (div_ceil d.seq_len tca_queries, d.head_count, 1);
            block_dim = (tc_threads, 1, 1);
            shared_mem_bytes = shared_bytes;
          };
        }))
    pure (f32_buffer out q.shape)

  unfoldable pub launch_tiled :
      CudaDeviceBuffer
      → CudaDeviceBuffer
      → CudaDeviceBuffer
      → AttentionDims
      → String
      → KernelsAction Dev CudaDeviceBuffer
  unfolding alloc_output
  launch_tiled q k v d tiled = do
    let key_tile : ℕ = if leb d.head_dimension 64 then 64 else 32
    out ← alloc_output platform q.slice.len
    function platform tiled
    fail_if (ltb u32_max (div_ceil d.seq_len attention_tile_queries)) shape_unsupported
    fail_if (ltb u32_max d.head_count) shape_unsupported
    fail_if (ltb u32_max (2 * key_tile * d.head_dimension * 4)) shape_unsupported
    launch platform tiled
        (operand_slices q k v out ++ (head_words d ++ (tail_words d ++ Arg.word key_tile ∷ [])))
        (record {
          grid_dim = (div_ceil d.seq_len attention_tile_queries, d.head_count, 1);
          block_dim = (4 * attention_tile_queries, 1, 1);
          shared_mem_bytes = 2 * key_tile * d.head_dimension * 4;
        })
    pure (f32_buffer out q.shape)

  -- One block per (head, query), while its scores fit in shared memory; else one thread.
  unfoldable pub launch_block :
      CudaDeviceBuffer
      → CudaDeviceBuffer
      → CudaDeviceBuffer
      → AttentionDims
      → Bool
      → KernelsAction Dev CudaDeviceBuffer
  unfolding alloc_output advancing_offset forbid_in_capture
  launch_block q k v d bounded = do
    step_offset ←
        (if bounded then advancing_offset "key_count" (d.kv_rows - d.kv_seq_len) else pure 0)
    let score_rows = if not (step_offset == 0) then d.kv_rows else d.kv_seq_len
    let shared = block_shared_bytes d.head_dimension score_rows
    let blocks = u64 (d.head_count * d.seq_len)
    (if leb shared attention_max_shared_bytes
        then (do
          fail_if (ltb u32_max blocks) shape_unsupported
          out ← alloc_output platform q.slice.len
          run platform "attention_block_kernel"
              (operand_slices q k v out
                ++ (head_words d
                    ++ (Arg.word d.head_dimension ∷ (tail_words d ++ Arg.word step_offset ∷ []))))
              (record {
                grid_dim = (blocks, 1, 1);
                block_dim = (attention_threads, 1, 1);
                shared_mem_bytes = shared;
              })
          pure (f32_buffer out q.shape))
        else (do
          capturing ← gets is_capturing
          (if capturing then forbid_in_capture "attention over a history this long" else pure tt)
          out ← call (platform.alloc_zeros q.slice.len)
          run platform "attention_kernel"
              (operand_slices q k v out
                ++ (head_words d ++ (Arg.word d.head_dimension ∷ tail_words d)))
              (platform.for_num_elems (u32 blocks))
          pure (f32_buffer out q.shape)))

  unfoldable pub launch_tiled_or_block :
      CudaDeviceBuffer
      → CudaDeviceBuffer
      → CudaDeviceBuffer
      → AttentionDims
      → Bool
      → Option String
      → KernelsAction Dev CudaDeviceBuffer
  unfolding launch_tiled launch_block
  launch_tiled_or_block q k v d bounded (some name) = launch_tiled q k v d name
  launch_tiled_or_block q k v d bounded none = launch_block q k v d bounded
