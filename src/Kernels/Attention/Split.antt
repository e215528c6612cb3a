-- ===== src/Kernels/Attention/Split.antt =====
-- `attention_split` (`src/kernels.rs`): one query row, its keys in chunks that are merged in order.
use magnetar_provider_cuda.Base.{
  ℕ, ◌+◌, ◌-◌, ◌*◌, ◌/◌, ◌%◌, ◌^◌, min, max, String, ◌==◌, ◌&&◌, ◌||◌, leb, ltb, if◌then◌else◌,
  Option, none, some, [], ◌∷◌, ⊤, pure, ok, ◌>>=◌, ◌>>◌, fail_if, modify,
}
use magnetar_provider_cuda.Base.Bits.{u64}
use magnetar_provider_cuda.Error.{shape_unsupported}
use magnetar_provider_cuda.Platform.{Slice, Platform, Arg}
use magnetar_provider_cuda.Kernels.State.{
  KernelsAction, CudaDeviceBuffer, call, alloc_output, function, launch, forbid_in_capture,
}
use magnetar_provider_cuda.Kernels.Transfer.{f32_buffer}
use magnetar_provider_cuda.Kernels.Matmul.{div_ceil}
use magnetar_provider_cuda.Kernels.Attention.Checks.{AttentionDims}

-- `ATTENTION_CHUNK_KEYS`, `ATTENTION_SPLIT_THREADS`, `ATTENTION_GQA_MAX_GROUP`,
-- `ATTENTION_GQA_THREADS` and `ATTENTION_COMBINE_MAX_DYNAMIC_SHARED`.
abbrev pub attention_chunk_keys : ℕ
attention_chunk_keys = 128

abbrev pub attention_split_threads : ℕ
attention_split_threads = 128

abbrev pub attention_gqa_max_group : ℕ
attention_gqa_max_group = 8

abbrev pub attention_gqa_threads : ℕ
attention_gqa_threads = 128

abbrev pub attention_combine_max_dynamic_shared : ℕ
attention_combine_max_dynamic_shared = 44 * 1024

-- The grouped split decode attention for a head dimension: its Kernel and keys per chunk.
unfoldable pub grouped_decode_kernel : ℕ → Option (String × ℕ)
grouped_decode_kernel head_dimension =
    if head_dimension == 64
    then some ("attention_split_gqa_kernel", 64)
    else if head_dimension == 128
    then some ("attention_split_gqa128_kernel", 32)
    else none

unfoldable pub grouped_kernel : ℕ → ℕ → ℕ → Option (String × ℕ)
unfolding grouped_decode_kernel
grouped_kernel head_count kv_head_count head_dimension =
    if ltb 0 kv_head_count
      && head_count % kv_head_count == 0
      && leb (head_count / kv_head_count) attention_gqa_max_group
    then grouped_decode_kernel head_dimension
    else none

abbrev pub chunk_keys : Option (String × ℕ) → ℕ
chunk_keys none = attention_chunk_keys
chunk_keys (some (_, keys)) = keys

-- Threads of the combining block: lanes of chunks per output dimension.
unfoldable pub combine_threads : ℕ → ℕ
combine_threads head_dimension =
    if ltb 1024 head_dimension then 1024 else head_dimension * min (max (256 / head_dimension) 1) 8

module _ {Dev : Type 0} (platform : Platform Dev) where
  -- The scratch for the chunks' partials, grown when it is too short.
  unfoldable pub partial_buffer : ℕ → KernelsAction Dev Slice
  unfolding forbid_in_capture
  partial_buffer len k =
      let grow : KernelsAction Dev Slice = (do
        forbid_in_capture "growing the attention scratch buffer"
        grown ← call (platform.alloc (max len (2 ^ 16)))
        modify (λ k'. record k' {
          attention_scratch = elim k'.attention_scratch.0 [
            | some outgrown ↦ (some grown, outgrown ∷ k'.attention_scratch.1)
            | none ↦ (some grown, k'.attention_scratch.1)
          ];
        })
        pure grown) in
      elim k.attention_scratch.0 [
        | some slice ↦ if ltb slice.len len then grow k else (ok slice, k)
        | none ↦ grow k
      ]

  -- The launch that scores the chunks.
  unfoldable pub score_chunks :
      CudaDeviceBuffer
      → CudaDeviceBuffer
      → CudaDeviceBuffer
      → AttentionDims
      → ℕ
      → Slice
      → ℕ
      → Option (String × ℕ)
      → KernelsAction Dev ⊤
  score_chunks q k v d step_offset partial chunks (some (name, _)) = do
    function platform name
    fail_if (ltb (2 ^ 32 - 1) chunks || ltb (2 ^ 32 - 1) d.kv_head_count) shape_unsupported
    launch platform name
        (Arg.slice q.slice
          ∷ Arg.slice k.slice
          ∷ Arg.slice v.slice
          ∷ Arg.slice partial
          ∷ Arg.word d.kv_seq_len
          ∷ Arg.word d.head_count
          ∷ Arg.word d.kv_head_count
          ∷ Arg.word d.kv_model_dim
          ∷ Arg.word d.causal_flag
          ∷ Arg.word d.window_arg
          ∷ Arg.word d.query_position_offset
          ∷ Arg.word chunks
          ∷ Arg.word step_offset
          ∷ [])
        (record {
          grid_dim = (chunks, d.kv_head_count, 1);
          block_dim = (attention_gqa_threads, 1, 1);
          shared_mem_bytes = 0;
        })
  score_chunks q k v d step_offset partial chunks none = do
    function platform "attention_split_kernel"
    fail_if (ltb (2 ^ 32 - 1) chunks || ltb (2 ^ 32 - 1) d.head_count) shape_unsupported
    fail_if (ltb (2 ^ 32 - 1) (u64 (d.head_dimension * 4))) shape_unsupported
    launch platform "attention_split_kernel"
        (Arg.slice q.slice
          ∷ Arg.slice k.slice
          ∷ Arg.slice v.slice
          ∷ Arg.slice partial
          ∷ Arg.word d.kv_seq_len
          ∷ Arg.word d.head_count
          ∷ Arg.word d.kv_head_count
          ∷ Arg.word d.head_dimension
          ∷ Arg.word d.q_model_dim
          ∷ Arg.word d.kv_model_dim
          ∷ Arg.word d.causal_flag
          ∷ Arg.word d.window_arg
          ∷ Arg.word d.query_position_offset
          ∷ Arg.word chunks
          ∷ Arg.word step_offset
          ∷ [])
        (record {
          grid_dim = (chunks, d.head_count, 1);
          block_dim = (attention_split_threads, 1, 1);
          shared_mem_bytes = u64 (d.head_dimension * 4);
        })

  -- The launch that merges the chunks' partials.
  unfoldable pub combine_chunks : AttentionDims → Slice → ℕ → Slice → KernelsAction Dev ⊤
  unfolding combine_threads
  combine_chunks d partial chunks out = do
    function platform "attention_combine_kernel"
    let weight_bytes = min (u64 (chunks * 4)) (2 ^ 32 - 1)
    let cached = leb weight_bytes attention_combine_max_dynamic_shared
    fail_if (ltb (2 ^ 32 - 1) d.head_count) shape_unsupported
    launch platform "attention_combine_kernel"
        (Arg.slice partial
          ∷ Arg.slice out
          ∷ Arg.word d.head_count
          ∷ Arg.word d.head_dimension
          ∷ Arg.word chunks
          ∷ Arg.word (if cached then 1 else 0)
          ∷ [])
        (record {
          grid_dim = (d.head_count, 1, 1);
          block_dim = (combine_threads d.head_dimension, 1, 1);
          shared_mem_bytes = if cached then weight_bytes else 0;
        })

  unfoldable pub attention_split :
      CudaDeviceBuffer
      → CudaDeviceBuffer
      → CudaDeviceBuffer
      → AttentionDims
      → ℕ
      → KernelsAction Dev CudaDeviceBuffer
  unfolding grouped_kernel partial_buffer score_chunks combine_chunks alloc_output
  attention_split q k v d step_offset = do
    let grouped = grouped_kernel d.head_count d.kv_head_count d.head_dimension
    let chunks = max (div_ceil d.kv_rows (chunk_keys grouped)) 1
    partial ← partial_buffer (u64 (d.head_count * chunks * (d.head_dimension + 2)))
    out ← alloc_output platform q.slice.len
    score_chunks q k v d step_offset partial chunks grouped
    combine_chunks d partial chunks out
    pure (f32_buffer out q.shape)
