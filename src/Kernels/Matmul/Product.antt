-- ===== src/Kernels/Matmul/Product.antt =====
-- `matmul` with its addends in `CudaKernels` (`src/kernels.rs`).
use magnetar_provider_cuda.Base.{
  ℕ, ◌*◌, ◌%◌, Bool, ◌==◌, ◌&&◌, not, leb, if◌then◌else◌, Option, none, some, [], ◌∷◌, pure, ◌>>=◌,
  ◌>>◌, fail_if, ◌++◌,
}
use magnetar_provider_cuda.Base.Bits.{u32, u64}
use magnetar_provider_cuda.Error.{shape_unsupported}
use magnetar_provider_cuda.Platform.{Slice, Platform, Arg}
use magnetar_provider_cuda.Kernels.State.{
  KernelsAction, CudaDeviceBuffer, call, require_f32, alloc_output, run, rows_cols_buf,
  bf16_address,
}
use magnetar_provider_cuda.Kernels.Transfer.{f32_buffer}
use magnetar_provider_cuda.Kernels.Elementwise.{add}
use magnetar_provider_cuda.Kernels.Matmul.Grids.{
  tc_block_m, tc_block_n, tc_threads, tcp_block_m, tcp_block_n, tcp_threads, tcp_align,
  matmul_split_k, matmul_split_k_max_rows, matmul_tile_min_rows, split_k_rows, matmul_name,
  MatmulAddend, grid, a_strides, oriented, rejects_addend, addend_buffers, addend_args, term_words,
  row, full,
}
use magnetar_provider_cuda.Kernels.Matmul.Terms.{split_bf16_all, tcp_terms, tc_found}

module _ {Dev : Type 0} (platform : Platform Dev) where
  -- The launch of a product whose shapes fit: which Kernel, and with which grid and arguments.
  unfoldable pub launch_product :
      CudaDeviceBuffer
      → CudaDeviceBuffer
      → Option MatmulAddend
      → Bool
      → Bool
      → ℕ
      → ℕ
      → ℕ
      → ℕ
      → ℕ
      → Slice
      → KernelsAction Dev CudaDeviceBuffer
  unfolding split_bf16_all split_k_rows add
  launch_product a b addend transpose_a transpose_b a_cols b_cols m k n out =
      let (a_row_stride, a_inner_stride) = a_strides transpose_a a_cols in
      let (b_inner_stride, b_col_stride) = a_strides transpose_b b_cols in
      let b16 = bf16_address b in
      let product = f32_buffer out (m ∷ n ∷ []) in
      let long_compact = leb matmul_tile_min_rows m && not (b16 == 0) in
      let aligned = k % tcp_align == 0 && n % tcp_align == 0 in
      let split_k : KernelsAction Dev CudaDeviceBuffer =
        (let (kernel, grid_dim) = split_k_rows m n in
          do
            run platform (matmul_name kernel)
                (Arg.slice a.slice
                  ∷ Arg.slice b.slice
                  ∷ Arg.slice out
                  ∷ Arg.word m
                  ∷ Arg.word k
                  ∷ Arg.word n
                  ∷ Arg.word a_row_stride
                  ∷ Arg.word a_inner_stride
                  ∷ Arg.word b_inner_stride
                  ∷ (addend_args addend b ++ Arg.word b16 ∷ []))
                (record {
                  grid_dim = grid_dim;
                  block_dim = (32, matmul_split_k, 1);
                  shared_mem_bytes = 0;
                })
            pure product) in
      let plain : KernelsAction Dev CudaDeviceBuffer = (do
        run platform "matmul_kernel"
            (Arg.slice a.slice
              ∷ Arg.slice b.slice
              ∷ Arg.slice out
              ∷ Arg.word m
              ∷ Arg.word k
              ∷ Arg.word n
              ∷ Arg.word a_row_stride
              ∷ Arg.word a_inner_stride
              ∷ Arg.word b_inner_stride
              ∷ Arg.word b_col_stride
              ∷ Arg.word b16
              ∷ [])
            (platform.for_num_elems (u32 (u64 (m * n))))
        elim addend [
          | none ↦ pure product
          | some (row bias) ↦ add platform product bias
          | some (full residual) ↦ add platform product residual
        ]) in
      do
        tcp ←
            tcp_terms platform (long_compact && not transpose_a && not transpose_b && aligned)
              "matmul_tcp_kernel" a (u64 (m * k))
        elim tcp [
          | some terms ↦ (do
            call (
                platform.launch (record {
                  function = "matmul_tcp_kernel";
                  args =
                      term_words terms
                      ++ (Arg.word b16
                          ∷ Arg.slice out
                          ∷ Arg.word m
                          ∷ Arg.word k
                          ∷ Arg.word n
                          ∷ addend_args addend a);
                  config = grid m n tcp_block_m tcp_block_n tcp_threads 0;
                }))
            pure product)
          | none ↦ (do
            found ←
                tc_found platform
                  (long_compact && a_inner_stride == 1 && b_col_stride == 1 && b_inner_stride == n)
                  "matmul_tc_kernel"
            (if found
                then (do
                  call (
                      platform.launch (record {
                        function = "matmul_tc_kernel";
                        args =
                            Arg.slice a.slice
                            ∷ Arg.word b16
                            ∷ Arg.slice out
                            ∷ Arg.word m
                            ∷ Arg.word k
                            ∷ Arg.word n
                            ∷ Arg.word a_row_stride
                            ∷ addend_args addend a;
                        config = grid m n tc_block_m tc_block_n tc_threads 0;
                      }))
                  pure product)
                else if b_col_stride == 1 && leb m matmul_split_k_max_rows
                then split_k
                else plain))
        ]

  unfoldable pub matmul_with_addend :
      CudaDeviceBuffer
      → CudaDeviceBuffer
      → Option MatmulAddend
      → Bool
      → Bool
      → KernelsAction Dev CudaDeviceBuffer
  unfolding rows_cols_buf alloc_output
  matmul_with_addend a b addend transpose_a transpose_b = do
    (a_rows, a_cols) ← rows_cols_buf a
    (b_rows, b_cols) ← rows_cols_buf b
    let (m, k) = oriented transpose_a (a_rows, a_cols)
    let (k2, n) = oriented transpose_b (b_rows, b_cols)
    fail_if (not (k == k2)) shape_unsupported
    fail_if (rejects_addend addend m n) shape_unsupported
    require_f32 (a ∷ [])
    require_f32 (addend_buffers addend)
    out ← alloc_output platform (u64 (m * n))
    launch_product a b addend transpose_a transpose_b a_cols b_cols m k n out

  unfoldable pub matmul :
      CudaDeviceBuffer → CudaDeviceBuffer → Bool → Bool → KernelsAction Dev CudaDeviceBuffer
  matmul a b transpose_a transpose_b = matmul_with_addend a b none transpose_a transpose_b

  unfoldable pub matmul_bias :
      CudaDeviceBuffer
      → CudaDeviceBuffer
      → CudaDeviceBuffer
      → Bool
      → Bool
      → KernelsAction Dev CudaDeviceBuffer
  matmul_bias a b bias transpose_a transpose_b =
      matmul_with_addend a b (some (row bias)) transpose_a transpose_b

  unfoldable pub matmul_residual :
      CudaDeviceBuffer
      → CudaDeviceBuffer
      → CudaDeviceBuffer
      → Bool
      → Bool
      → KernelsAction Dev CudaDeviceBuffer
  matmul_residual a b residual transpose_a transpose_b =
      matmul_with_addend a b (some (full residual)) transpose_a transpose_b
