-- ===== src/Kernels/Matmul/Grids.antt =====
-- Sizes, grids and operands of the matmul family (`src/kernels.rs`).
use magnetar_provider_cuda.Base.{
  ℕ, ◌+◌, ◌-◌, ◌/◌, String, Bool, false, ◌&&◌, not, leb, ltb, if◌then◌else◌, Option, none, some,
  List, [], ◌∷◌,
}
use magnetar_provider_cuda.Base.Bits.{u32}
use magnetar_provider_cuda.Platform.{Arg, LaunchConfig}
use magnetar_provider_cuda.Kernels.State.{CudaDeviceBuffer, shape_eq}

-- `u64::div_ceil`
abbrev pub div_ceil : ℕ → ℕ → ℕ
div_ceil n d = (n + (d - 1)) / d

abbrev pub tc_block_m : ℕ
tc_block_m = 64

abbrev pub tc_block_n : ℕ
tc_block_n = 64

abbrev pub tc_threads : ℕ
tc_threads = 128

abbrev pub tcp_block_m : ℕ
tcp_block_m = 128

abbrev pub tcp_block_n : ℕ
tcp_block_n = 64

abbrev pub tcp_threads : ℕ
tcp_threads = 256

abbrev pub tcp_align : ℕ
tcp_align = 8

abbrev pub matmul_split_k : ℕ
matmul_split_k = 16

abbrev pub matmul_split_k_max_rows : ℕ
matmul_split_k_max_rows = 65535

abbrev pub matmul_rows : ℕ
matmul_rows = 8

abbrev pub matmul_tile_min_rows : ℕ
matmul_tile_min_rows = 64

abbrev pub matmul_tile_block_columns : ℕ
matmul_tile_block_columns = 128

-- The three Kernels of a split-K launch, by how many rows a block serves.
pub data SplitK : Type 0 where
  single multi tile : SplitK

-- The Kernel and grid for `m` rows of `n` columns.
unfoldable pub split_k_rows : ℕ → ℕ → SplitK × (ℕ × ℕ × ℕ)
split_k_rows m n =
    if leb matmul_tile_min_rows m
    then (tile, (u32 (div_ceil n matmul_tile_block_columns), u32 (div_ceil m matmul_rows), 1))
    else if ltb 1 m
    then (multi, (u32 (div_ceil n 32), u32 (div_ceil m matmul_rows), 1))
    else (single, (u32 (div_ceil n 32), u32 m, 1))

abbrev pub matmul_name : SplitK → String
matmul_name single = "matmul_split_k_kernel"
matmul_name multi = "matmul_split_k_rows_kernel"
matmul_name tile = "matmul_split_k_tile_kernel"

abbrev pub gated_matmul_name : SplitK → String
gated_matmul_name single = "gated_matmul_split_k_kernel"
gated_matmul_name multi = "gated_matmul_split_k_rows_kernel"
gated_matmul_name tile = "gated_matmul_split_k_tile_kernel"

-- `MatmulAddend`
pub data MatmulAddend : Type 0 where
  row full : CudaDeviceBuffer → MatmulAddend

abbrev pub sum_lens : List (CudaDeviceBuffer × ℕ) → ℕ
sum_lens [] = 0
sum_lens ((_, len) ∷ inputs) = len + sum_lens inputs

abbrev pub grid : ℕ → ℕ → ℕ → ℕ → ℕ → ℕ → LaunchConfig
grid m n block_m block_n threads shared = record {
  grid_dim = (u32 (div_ceil n block_n), u32 (div_ceil m block_m), 1);
  block_dim = (threads, 1, 1);
  shared_mem_bytes = shared;
}

-- The strides of an operand: of its first dimension in the product, and of its second.
abbrev pub a_strides : Bool → ℕ → ℕ × ℕ
a_strides transpose_a a_cols = if transpose_a then (1, a_cols) else (a_cols, 1)

-- The shape of a possibly transposed operand.
abbrev pub oriented : Bool → ℕ × ℕ → ℕ × ℕ
oriented transpose (rows, cols) = if transpose then (cols, rows) else (rows, cols)

abbrev pub rejects_addend : Option MatmulAddend → ℕ → ℕ → Bool
rejects_addend none m n = false
rejects_addend (some (row bias)) m n =
    not (shape_eq bias.shape (n ∷ [])) && not (shape_eq bias.shape (1 ∷ n ∷ []))
rejects_addend (some (full residual)) m n = not (shape_eq residual.shape (m ∷ n ∷ []))

abbrev pub addend_buffers : Option MatmulAddend → List CudaDeviceBuffer
addend_buffers none = []
addend_buffers (some (row b)) = b ∷ []
addend_buffers (some (full b)) = b ∷ []

-- The buffer and mode that a Kernel is given; without an addend any buffer will do.
abbrev pub addend_args : Option MatmulAddend → CudaDeviceBuffer → List Arg
addend_args none any = Arg.slice any.slice ∷ Arg.word 0 ∷ []
addend_args (some (row b)) any = Arg.slice b.slice ∷ Arg.word 1 ∷ []
addend_args (some (full b)) any = Arg.slice b.slice ∷ Arg.word 2 ∷ []

abbrev pub term_words : List (ℕ × ℕ) → List Arg
term_words [] = []
term_words ((hi, lo) ∷ terms) = Arg.word hi ∷ Arg.word lo ∷ term_words terms
