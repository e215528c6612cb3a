-- ===== src/Kernels/Attention/Checks.antt =====
-- What `attention_bounded` requires of its arguments (`src/kernels.rs`), and what it derives.
use magnetar_provider_cuda.Base.{
  ℕ, ◌-◌, ◌*◌, ◌%◌, ◌^◌, Bool, false, ◌==◌, ◌||◌, ◌&&◌, not, ltb, if◌then◌else◌, Option, none, some,
  is_some, [], ◌∷◌, pure, ◌>>=◌, ◌>>◌, fail_if,
}
use magnetar_provider_cuda.Base.Bits.{u64}
use magnetar_provider_cuda.Error.{shape_unsupported}
use magnetar_provider_cuda.Kernels.State.{
  KernelsAction, CudaDeviceBuffer, require_f32, same_shape_buf, rows_cols_buf,
}

-- The numbers that the launches take. `window_arg` is an `i64`, by its 64 bits.
pub record AttentionDims : Type 0 where
  pub seq_len : ℕ
  pub kv_seq_len : ℕ
  pub kv_rows : ℕ
  pub head_count : ℕ
  pub kv_head_count : ℕ
  pub head_dimension : ℕ
  pub q_model_dim : ℕ
  pub kv_model_dim : ℕ
  pub query_position_offset : ℕ
  pub causal_flag : ℕ
  pub window_arg : ℕ

-- `Option::unwrap_or`
abbrev pub unwrap_or : Option ℕ → ℕ → ℕ
unwrap_or none d = d
unwrap_or (some x) d = x

abbrev pub is_zero_window : Option ℕ → Bool
is_zero_window none = false
is_zero_window (some w) = w == 0

module _ {Dev : Type 0} where
  unfoldable pub check_attention :
      CudaDeviceBuffer
      → CudaDeviceBuffer
      → CudaDeviceBuffer
      → ℕ
      → ℕ
      → Option ℕ
      → Option ℕ
      → Bool
      → Option ℕ
      → KernelsAction Dev AttentionDims
  unfolding rows_cols_buf
  check_attention q k v head_count head_dimension kv_heads window_size causal key_count = do
    require_f32 (q ∷ k ∷ v ∷ [])
    same_shape_buf k v
    let kv_head_count = unwrap_or kv_heads head_count
    fail_if (head_count == 0 || head_dimension == 0 || kv_head_count == 0) shape_unsupported
    fail_if (not (head_count % kv_head_count == 0)) shape_unsupported
    fail_if (is_zero_window window_size) shape_unsupported
    fail_if (is_some window_size && not causal) shape_unsupported
    (seq_len, q_model_dim) ← rows_cols_buf q
    (kv_rows, kv_model_dim) ← rows_cols_buf k
    let kv_seq_len = unwrap_or key_count kv_rows
    fail_if (ltb kv_rows kv_seq_len) shape_unsupported
    fail_if (ltb kv_seq_len seq_len) shape_unsupported
    fail_if (not (u64 (head_count * head_dimension) == q_model_dim)) shape_unsupported
    fail_if (not (u64 (kv_head_count * head_dimension) == kv_model_dim)) shape_unsupported
    pure (record {
      seq_len = seq_len;
      kv_seq_len = kv_seq_len;
      kv_rows = kv_rows;
      head_count = head_count;
      kv_head_count = kv_head_count;
      head_dimension = head_dimension;
      q_model_dim = q_model_dim;
      kv_model_dim = kv_model_dim;
      query_position_offset = kv_seq_len - seq_len;
      causal_flag = if causal then 1 else 0;
      window_arg = unwrap_or window_size (2 ^ 64 - 1);
    })
