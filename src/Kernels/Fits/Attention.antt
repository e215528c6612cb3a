-- ===== src/Kernels/Fits/Attention.antt =====
-- Attention (`src/kernels.rs`) gives back a buffer that fits the shape of the queries.
use magnetar_provider_cuda.Base.{◌≡◌, arith, ℕ, String, Bool, Option, none, some, List, ◌>>=◌}
use magnetar_provider_cuda.Platform.{Slice, Platform}
use magnetar_provider_cuda.Platform.Allocation.{Allocation, Capacity, HasSize}
use magnetar_provider_cuda.Kernels.State.{KernelsAction, CudaDeviceBuffer, forbid_in_capture}
use magnetar_provider_cuda.Kernels.Attention.{
  AttentionDims, check_attention, grant_prefill, prefill_terms, launch_prefill, launch_tiled,
  launch_block, launch_tiled_or_block, attention_split, partial_buffer, score_chunks,
  combine_chunks, attention_bounded,
}
use magnetar_provider_cuda.Kernels.Fits.{Fits}
use magnetar_provider_cuda.Kernels.Fits.Rules.{
  Makes, Runs, runs, then_option, then_output, then_zeros, Makes->>=,
}
use magnetar_provider_cuda.Kernels.Fits.Elementwise.{first_f32, like-Fits}
use magnetar_provider_cuda.Kernels.Fits.Matmul.{Runs-split_bf16_all}

module _ {Dev : Type 0} (platform : Platform Dev) {offered : Option Slice} where
  check_attention-f32 :
      (q k v : CudaDeviceBuffer) (heads dimension : ℕ) (kv_heads window : Option ℕ) (causal : Bool)
      (keys : Option ℕ)
      → Makes {Dev = Dev} offered
          (λ _. q.bf16 ≡ none)
          (check_attention q k v heads dimension kv_heads window causal keys)
  unfolding check_attention
  check_attention-f32 q k v heads dimension kv_heads window causal keys =
      search (runs, first_f32) depth 25

  Runs-partial_buffer : (len : ℕ) → Runs offered (partial_buffer platform len)
  unfolding partial_buffer forbid_in_capture
  Runs-partial_buffer len = record { keeps = λ k h s e. ground (arith, h s); gives = λ k a h e. tt }

  Runs-score_chunks :
      (q k v : CudaDeviceBuffer) (d : AttentionDims) (offset : ℕ) (partial : Slice) (chunks : ℕ)
      (grouped : Option (String × ℕ))
      → Runs offered (score_chunks platform q k v d offset partial chunks grouped)
  unfolding score_chunks
  Runs-score_chunks q k v d offset partial chunks (some (name, keys)) = search runs depth 10
  Runs-score_chunks q k v d offset partial chunks none = search runs depth 10

  Runs-combine_chunks :
      (d : AttentionDims) (partial : Slice) (chunks : ℕ) (out : Slice)
      → Runs offered (combine_chunks platform d partial chunks out)
  unfolding combine_chunks
  Runs-combine_chunks d partial chunks out = search runs depth 10

  Runs-grant_prefill :
      (k v : CudaDeviceBuffer) (len : ℕ) (o : Option (String × ℕ))
      → Runs offered (grant_prefill platform k v len o)
  unfolding grant_prefill
  Runs-grant_prefill k v len none = search runs
  Runs-grant_prefill k v len (some (name, shared)) =
      search (then_option, runs, Runs-split_bf16_all) depth 20

  Runs-prefill_terms :
      (k v : CudaDeviceBuffer) (d : AttentionDims) → Runs offered (prefill_terms platform k v d)
  unfolding prefill_terms
  Runs-prefill_terms k v d = search (runs, Runs-grant_prefill) depth 20

module _ {Dev : Type 0} (platform : Platform Dev) (allocation : Allocation platform)
    (capacity : Capacity platform) {offered : Option Slice}
    (size : (s : Slice) → offered ≡ some s → HasSize s.len) where
  module _ (q k v : CudaDeviceBuffer) (d : AttentionDims) (fits : Fits q)
      (f32 : q.bf16 ≡ none) where
    attention_split-Fits :
        (offset : ℕ) → Makes offered Fits (attention_split platform q k v d offset)
    unfolding attention_split
    attention_split-Fits offset =
        search
          (
            runs,
            Runs-partial_buffer platform,
            Runs-score_chunks platform,
            Runs-combine_chunks platform,
            then_output platform allocation capacity size,
            like-Fits q,
          )
          depth 20

    launch_prefill-Fits :
        (name : String) (shared : ℕ) (terms : List (ℕ × ℕ))
        → Makes offered Fits (launch_prefill platform q d name shared terms)
    unfolding launch_prefill
    launch_prefill-Fits name shared terms =
        search (runs, then_output platform allocation capacity size, like-Fits q) depth 20

    launch_tiled-Fits : (name : String) → Makes offered Fits (launch_tiled platform q k v d name)
    unfolding launch_tiled
    launch_tiled-Fits name =
        search (runs, then_output platform allocation capacity size, like-Fits q) depth 20

    launch_block-Fits :
        (bounded : Bool) → Makes offered Fits (launch_block platform q k v d bounded)
    unfolding launch_block
    launch_block-Fits bounded =
        search
          (
            runs,
            then_output platform allocation capacity size,
            then_zeros platform allocation capacity,
            like-Fits q,
          )
          depth 20

    launch_tiled_or_block-Fits :
        (bounded : Bool) (tiled : Option String)
        → Makes offered Fits (launch_tiled_or_block platform q k v d bounded tiled)
    unfolding launch_tiled_or_block
    launch_tiled_or_block-Fits bounded (some name) = launch_tiled-Fits name
    launch_tiled_or_block-Fits bounded none = launch_block-Fits bounded

  then_checked :
      (q k v : CudaDeviceBuffer) (heads dimension : ℕ) (kv_heads window : Option ℕ) (causal : Bool)
      (keys : Option ℕ) (f : AttentionDims → KernelsAction Dev CudaDeviceBuffer)
      → ((d : AttentionDims) → q.bf16 ≡ none → Makes offered Fits (f d))
      → Makes offered Fits (check_attention q k v heads dimension kv_heads window causal keys >>= f)
  then_checked q k v heads dimension kv_heads window causal keys f =
      Makes->>= (check_attention q k v heads dimension kv_heads window causal keys) f
        (check_attention-f32 platform q k v heads dimension kv_heads window causal keys)

  pub attention_bounded-Fits :
      (q k v : CudaDeviceBuffer) (heads dimension : ℕ) (kv_heads window : Option ℕ) (causal : Bool)
      (keys : Option ℕ)
      → Fits q
      → Makes offered Fits
          (attention_bounded platform q k v heads dimension kv_heads window causal keys)
  unfolding attention_bounded
  attention_bounded-Fits q k v heads dimension kv_heads window causal keys fits =
      search
        (
          then_checked,
          then_option,
          runs,
          Runs-prefill_terms platform,
          attention_split-Fits,
          launch_prefill-Fits,
          launch_tiled_or_block-Fits,
        )
        depth 25
