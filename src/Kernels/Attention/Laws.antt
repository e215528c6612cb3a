-- ===== src/Kernels/Attention/Laws.antt =====
-- What the checks of attention guarantee to the Kernels (`src/kernels.rs`).
use magnetar_provider_cuda.Base.{
  ℕ, ◌+◌, ◌*◌, ◌/◌, ◌%◌, ◌≤◌, ◌<◌, ◌≡◌, refl, arith, Bool, Option, ok, inl, inr, ◌⊎◌, zero, suc,
}
use native.Mathlib.Nat.{div-add-mod, div-lt_iff_lt-mul, mul-zero}
use magnetar_provider_cuda.Kernels.State.{Kernels, CudaDeviceBuffer, rows_cols_buf}
use magnetar_provider_cuda.Kernels.Attention.Checks.{check_attention, AttentionDims}

Nat-cases : (n : ℕ) → (n ≡ 0) ⊎ (0 < n)
Nat-cases zero = inl refl
Nat-cases (suc n) = inr (omega arith)

-- When `m` divides `n`, the groups of `n / m` that `0 … n - 1` fall into are `m`.
group-lt : (n m h : ℕ) → 0 < m → n % m ≡ 0 → h < n → h / (n / m) < m
group-lt n m h pos divides lt =
    let whole : m * (n / m) ≡ n = omega (arith, div-add-mod n m) in
    let grouped : 0 < n / m = elim (Nat-cases (n / m)) [
      | inl zero_group ↦ absurd (ground (arith, whole, mul-zero m))
      | inr positive ↦ positive
    ] in
    (div-lt_iff_lt-mul grouped).1 (rw whole lt)

module _ {Dev : Type 0} where
  -- The positions of accepted operands: each query's position lies among the keys that are read, and
  -- these among the rows that the history has.
  pub check_attention-positions :
      (q k v : CudaDeviceBuffer) (head_count head_dimension : ℕ) (kv_heads window_size : Option ℕ)
      (causal : Bool) (key_count : Option ℕ) (s : Kernels Dev) (d : AttentionDims) (i : ℕ)
      → (check_attention q k v head_count head_dimension kv_heads window_size causal key_count s).0
        ≡ ok d
      → i < d.seq_len
      → (d.query_position_offset + i < d.kv_seq_len) × (d.kv_seq_len ≤ d.kv_rows)
  unfolding check_attention rows_cols_buf
  check_attention-positions q k v head_count head_dimension kv_heads window_size causal key_count s
        d i h lt =
      ground arith

  check_attention-counts :
      (q k v : CudaDeviceBuffer) (head_count head_dimension : ℕ) (kv_heads window_size : Option ℕ)
      (causal : Bool) (key_count : Option ℕ) (s : Kernels Dev) (d : AttentionDims)
      → (check_attention q k v head_count head_dimension kv_heads window_size causal key_count s).0
        ≡ ok d
      → (0 < d.head_count) × (0 < d.kv_head_count) × (d.head_count % d.kv_head_count ≡ 0)
  unfolding check_attention rows_cols_buf
  check_attention-counts q k v head_count head_dimension kv_heads window_size causal key_count s d
        h =
      ground arith

  -- The key and value head that each query head of accepted operands reads is one of them.
  pub check_attention-kv_head :
      (q k v : CudaDeviceBuffer) (head_count head_dimension : ℕ) (kv_heads window_size : Option ℕ)
      (causal : Bool) (key_count : Option ℕ) (s : Kernels Dev) (d : AttentionDims) (head : ℕ)
      → (check_attention q k v head_count head_dimension kv_heads window_size causal key_count s).0
        ≡ ok d
      → head < d.head_count
      → head / (d.head_count / d.kv_head_count) < d.kv_head_count
  check_attention-kv_head q k v head_count head_dimension kv_heads window_size causal key_count s d
        head h lt =
      let (_, positive, divides) =
        check_attention-counts q k v head_count head_dimension kv_heads window_size causal key_count
          s d h in
      group-lt d.head_count d.kv_head_count head positive divides lt
