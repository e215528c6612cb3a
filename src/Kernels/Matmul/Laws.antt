-- ===== src/Kernels/Matmul/Laws.antt =====
-- What the grids of the split-K products cover (`src/kernels.rs`).
use magnetar_provider_cuda.Base.{ℕ, ◌+◌, ◌*◌, ◌≤◌, ◌<◌, ◌^◌, ◌≡◌, arith}
use magnetar_provider_cuda.Kernels.Matmul.{SplitK, single, tile, split_k_rows}

-- The columns and the rows that one block of a Kernel serves.
abbrev pub block_columns : SplitK → ℕ
block_columns tile = 128
block_columns _ = 32

abbrev pub block_rows : SplitK → ℕ
block_rows single = 1
block_rows _ = 8

-- The split-K grid covers the product: every row and every column lies in a block, and no block lies
-- wholly outside, for any product whose dimensions fit in 32 bits.
pub split_k_rows_lem :
    (m n : ℕ)
    → m < 2 ^ 32
    → n < 2 ^ 32
    → let (kernel, (columns, rows, depth)) = split_k_rows m n in
      (n ≤ columns * block_columns kernel)
      × (columns * block_columns kernel < n + block_columns kernel)
      × (m ≤ rows * block_rows kernel)
      × (rows * block_rows kernel < m + block_rows kernel)
      × (depth ≡ 1)
unfolding split_k_rows
split_k_rows_lem m n hm hn = ground arith
