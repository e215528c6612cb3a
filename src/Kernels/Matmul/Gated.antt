-- ===== src/Kernels/Matmul/Gated.antt =====
-- `gated_matmul` of `CudaKernels` (`src/kernels.rs`).
use magnetar_provider_cuda.Base.{
  ℕ, ◌*◌, ◌%◌, Bool, ◌==◌, ◌||◌, ◌&&◌, not, leb, ltb, if◌then◌else◌, none, some, [], ◌∷◌, pure,
  ◌>>=◌, ◌>>◌, fail_if, ◌++◌,
}
use magnetar_provider_cuda.Base.Bits.{u64}
use magnetar_provider_cuda.Error.{shape_unsupported}
use magnetar_provider_cuda.Platform.{Slice, Platform, Arg}
use magnetar_provider_cuda.Kernels.State.{
  KernelsAction, CudaDeviceBuffer, call, require_f32, alloc_output, run, rows_cols_buf,
  bf16_address, shape_eq,
}
use magnetar_provider_cuda.Kernels.Transfer.{f32_buffer}
use magnetar_provider_cuda.Kernels.Elementwise.{silu_mul}
use magnetar_provider_cuda.Kernels.Matmul.Grids.{
  tc_block_m, tc_block_n, tc_threads, tcp_block_m, tcp_block_n, tcp_threads, tcp_align,
  matmul_split_k, matmul_split_k_max_rows, matmul_tile_min_rows, split_k_rows, gated_matmul_name,
  grid, a_strides, oriented, term_words,
}
use magnetar_provider_cuda.Kernels.Matmul.Terms.{split_bf16_all, tcp_terms, tc_found}
use magnetar_provider_cuda.Kernels.Matmul.Product.{matmul}

module _ {Dev : Type 0} (platform : Platform Dev) where
  -- The launch of `gated_matmul` when both weights are read in one pass.
  unfoldable pub launch_gated :
      CudaDeviceBuffer
      → CudaDeviceBuffer
      → CudaDeviceBuffer
      → Bool
      → ℕ
      → ℕ
      → ℕ
      → ℕ
      → Slice
      → KernelsAction Dev CudaDeviceBuffer
  unfolding split_bf16_all split_k_rows
  launch_gated a gate up transpose_a a_cols m k n out =
      let (a_row_stride, a_inner_stride) = a_strides transpose_a a_cols in
      let gate16 = bf16_address gate in
      let up16 = bf16_address up in
      let product = f32_buffer out (m ∷ n ∷ []) in
      let long_compact = leb matmul_tile_min_rows m && not (gate16 == 0) && not (up16 == 0) in
      let aligned = k % tcp_align == 0 && n % tcp_align == 0 in
      let split_k : KernelsAction Dev CudaDeviceBuffer =
        (let (kernel, grid_dim) = split_k_rows m n in
          do
            run platform (gated_matmul_name kernel)
                (Arg.slice a.slice
                  ∷ Arg.slice gate.slice
                  ∷ Arg.word gate16
                  ∷ Arg.slice up.slice
                  ∷ Arg.word up16
                  ∷ Arg.slice out
                  ∷ Arg.word m
                  ∷ Arg.word k
                  ∷ Arg.word n
                  ∷ Arg.word a_row_stride
                  ∷ Arg.word a_inner_stride
                  ∷ Arg.word n
                  ∷ [])
                (record {
                  grid_dim = grid_dim;
                  block_dim = (32, matmul_split_k, 1);
                  shared_mem_bytes = 0;
                })
            pure product) in
      do
        tcp ←
            tcp_terms platform (long_compact && not transpose_a && aligned)
              "gated_matmul_tcp_kernel" a (u64 (m * k))
        elim tcp [
          | some terms ↦ (do
            call (
                platform.launch (record {
                  function = "gated_matmul_tcp_kernel";
                  args =
                      term_words terms
                      ++ (Arg.word gate16
                          ∷ Arg.word up16
                          ∷ Arg.slice out
                          ∷ Arg.word m
                          ∷ Arg.word k
                          ∷ Arg.word n
                          ∷ []);
                  config = grid m n tcp_block_m tcp_block_n tcp_threads 0;
                }))
            pure product)
          | none ↦ (do
            found ← tc_found platform (long_compact && a_inner_stride == 1) "gated_matmul_tc_kernel"
            (if found
                then (do
                  call (
                      platform.launch (record {
                        function = "gated_matmul_tc_kernel";
                        args =
                            Arg.slice a.slice
                            ∷ Arg.word gate16
                            ∷ Arg.word up16
                            ∷ Arg.slice out
                            ∷ Arg.word m
                            ∷ Arg.word k
                            ∷ Arg.word n
                            ∷ Arg.word a_row_stride
                            ∷ [];
                        config = grid m n tc_block_m tc_block_n tc_threads 0;
                      }))
                  pure product)
                else split_k))
        ]

  unfoldable pub gated_matmul :
      CudaDeviceBuffer
      → CudaDeviceBuffer
      → CudaDeviceBuffer
      → Bool
      → Bool
      → KernelsAction Dev CudaDeviceBuffer
  unfolding rows_cols_buf alloc_output
  gated_matmul a gate up transpose_a transpose_b = do
    fail_if (not (shape_eq gate.shape up.shape)) shape_unsupported
    (a_rows, a_cols) ← rows_cols_buf a
    (b_rows, b_cols) ← rows_cols_buf gate
    let (m, k) = oriented transpose_a (a_rows, a_cols)
    (if transpose_b || ltb matmul_split_k_max_rows m || not (k == b_rows)
        then (do
          gate_out ← matmul platform a gate transpose_a transpose_b
          up_out ← matmul platform a up transpose_a transpose_b
          silu_mul platform gate_out up_out)
        else (do
          require_f32 (a ∷ [])
          out ← alloc_output platform (u64 (m * b_cols))
          launch_gated a gate up transpose_a a_cols m k b_cols out))
