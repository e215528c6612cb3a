-- ===== src/Kernels/Tests.antt =====
-- Tests of `src/kernels.rs` on the simulated device.
use magnetar_provider_cuda.Base.{
  ⊤, map, Result, length-take, length-append, ◌++◌, ◌↔◌, ℕ, ◌+◌, ◌-◌, ◌*◌, ◌≤◌, ◌<◌, ◌^◌, ◌≡◌, ◌⊎◌,
  refl, arith, true, false, none, some, [], ◌∷◌, ok, err, replicate, length-replicate,
}
use magnetar_provider_cuda.Kernels.Transfer.{upload_chunks}
use magnetar_provider_cuda.Kernels.Transfer.Chunks.{upper_half, Overwrites, upload_chunks-contents}
use magnetar_provider_cuda.Error.{CudaError, shape_unsupported}
use magnetar_provider_cuda.Half.{bf16_to_f32}
use magnetar_provider_cuda.Platform.{Slice, HostTensor}
use magnetar_provider_cuda.Platform.Allocation.{Allocation, Capacity}
use magnetar_provider_cuda.Platform.Simulated.{Device, simulated, fresh_device, contents, put}
use magnetar_provider_cuda.Kernels.State.{
  Kernels, KernelCapture, CudaDeviceBuffer, CudaHalfBuffer, CudaHalfDType, forbid_in_capture,
  advancing_offset, rows_cols_buf, function,
}
use magnetar_provider_cuda.Kernels.Transfer.{
  exact_bf16_bits, upload, zeros, upload_weight, kv_write, download, expand, download_rows,
  clone_buffer, upload_half, download_half, f32_buffer, upload_compact, upload_chunks,
}
use magnetar_provider_cuda.Kernels.Transfer.Laws.{
  IsForbidden, transfers-IsForbidden, kv_write-in_bounds,
}
use magnetar_provider_cuda.Kernels.Transfer.Weights.{
  exact_bf16_bits-bf16_to_f32, Allocates, upload_weight-contents,
}
use magnetar_provider_cuda.Kernels.Matmul.{split_k_rows}
use magnetar_provider_cuda.Kernels.Matmul.Laws.{block_columns, block_rows, split_k_rows_lem}
use magnetar_provider_cuda.Kernels.Rope.{rope_launch_work_items}
use magnetar_provider_cuda.Kernels.Rope.Laws.{rope_launch_work_items_lem}
use magnetar_provider_cuda.Kernels.Attention.{check_attention, AttentionDims}
use magnetar_provider_cuda.Kernels.Attention.Laws.{check_attention-positions}

abbrev pub kernels0 : Kernels Device
kernels0 = record {
  dev = fresh_device;
  tensor_cores = false;
  upload_count = 0;
  download_count = 0;
  functions = [];
  offered_output = none;
  capture = none;
  embedding_flag = none;
  attention_scratch = (none, []);
  split_scratch = (none, []);
}

abbrev pub capture0 : KernelCapture
capture0 = record {
  advancing = "row_offset" ∷ [];
  offset = record { address = 900; len = 1 };
  max_offset = 100;
  failure = none;
  has_embedding = false;
}

abbrev pub capturing0 : Kernels Device
capturing0 = record kernels0 { capture = some capture0 }

abbrev tensor0 : HostTensor
tensor0 = record { shape = 2 ∷ []; values = 1 ∷ 2 ∷ [] }

-- Eight rows of two, and three.
abbrev pub history : CudaDeviceBuffer
history = f32_buffer (record { address = 100; len = 16 }) (8 ∷ 2 ∷ [])

abbrev pub new_rows : CudaDeviceBuffer
new_rows = f32_buffer (record { address = 200; len = 6 }) (3 ∷ 2 ∷ [])

abbrev half0 : CudaHalfBuffer
half0 = record {
  slice = record { address = 300; len = 2 };
  shape = 2 ∷ [];
  dtype = CudaHalfDType.float16;
}

pub simulated-Allocation : Allocation simulated
simulated-Allocation = record {
  alloc-len = λ n d s h. ground (arith, length-replicate {A = ℕ} n 0);
  alloc_zeros-len = λ n d s h. ground (arith, length-replicate {A = ℕ} n 0);
  clone_htod-len = λ values d s h. ground arith;
}

pub simulated-Capacity : Capacity simulated
simulated-Capacity = record {
  alloc-size = λ n d s h. ground (arith, length-replicate {A = ℕ} n 0);
  alloc_zeros-size = λ n d s h. ground (arith, length-replicate {A = ℕ} n 0);
  clone_htod-size = λ values d s h. ground arith;
  clone_dtod-len = λ from d s h. ground (
    arith,
    length-take {A = ℕ} from.len (contents from d ++ replicate from.len 0),
    length-append {A = ℕ} (contents from d) (replicate from.len 0),
    length-replicate {A = ℕ} from.len 0,
  );
  new_tensor-IsValid = λ shape values t h. (ground arith, ground arith);
}

exact_bf16_bits-bf16_to_f32_example :
    (exact_bf16_bits 0x3F80_0000 ≡ some 0x3F80) ↔ (bf16_to_f32 0x3F80 ≡ 0x3F80_0000)
exact_bf16_bits-bf16_to_f32_example =
    exact_bf16_bits-bf16_to_f32 0x3F80_0000 0x3F80 (omega arith) (omega arith)

transfers-IsForbidden_example :
    IsForbidden simulated capturing0 (upload simulated tensor0 capturing0)
    × IsForbidden simulated capturing0 (upload_weight simulated tensor0 capturing0)
    × IsForbidden simulated capturing0 (zeros simulated (2 ∷ []) capturing0)
    × IsForbidden simulated capturing0 (download simulated history capturing0)
    × IsForbidden simulated capturing0 (expand simulated history capturing0)
    × IsForbidden simulated capturing0 (download_rows simulated history 1 2 capturing0)
    × IsForbidden simulated capturing0 (clone_buffer simulated history capturing0)
    × IsForbidden simulated capturing0
        (upload_half simulated tensor0 CudaHalfDType.float16 capturing0)
    × IsForbidden simulated capturing0 (download_half simulated half0 capturing0)
transfers-IsForbidden_example =
    transfers-IsForbidden simulated tensor0 (2 ∷ []) history half0 CudaHalfDType.float16 1 2
      capturing0 refl

kv_write-in_bounds_example :
    (c' : KernelCapture) × ((kv_write simulated history new_rows 4 capturing0).1.capture ≡ some c')
    × (c'.max_offset ≤ 100)
    × ((offset : ℕ) → offset ≤ c'.max_offset → 4 + offset + 3 ≤ 8)
unfolding kv_write rows_cols_buf advancing_offset function
kv_write-in_bounds_example =
    kv_write-in_bounds simulated history new_rows 4 8 2 3 2 capturing0 capture0 refl refl refl refl
      refl

split_k_rows_lem_example :
    let (kernel, (columns, rows, depth)) = split_k_rows 70 1000 in
    (1000 ≤ columns * block_columns kernel)
    × (columns * block_columns kernel < 1000 + block_columns kernel)
    × (70 ≤ rows * block_rows kernel)
    × (rows * block_rows kernel < 70 + block_rows kernel)
    × (depth ≡ 1)
split_k_rows_lem_example = split_k_rows_lem 70 1000 (omega arith) (omega arith)

rope_launch_work_items_lem_example :
    ((5 * 4 * 32 < 2 ^ 32) × (rope_launch_work_items 5 4 32 ≡ ok (5 * 4 * 32)))
    ⊎ ((2 ^ 32 ≤ 5 * 4 * 32) × (rope_launch_work_items 5 4 32 ≡ err shape_unsupported))
rope_launch_work_items_lem_example = rope_launch_work_items_lem 5 4 32 (omega arith)

-- Two query rows against five of the eight rows of a history, two heads of dimension one on one.
abbrev queries : CudaDeviceBuffer
queries = f32_buffer (record { address = 400; len = 4 }) (2 ∷ 2 ∷ [])

abbrev keys : CudaDeviceBuffer
keys = f32_buffer (record { address = 500; len = 8 }) (8 ∷ 1 ∷ [])

abbrev dims : AttentionDims
dims = record {
  seq_len = 2;
  kv_seq_len = 5;
  kv_rows = 8;
  head_count = 2;
  kv_head_count = 1;
  head_dimension = 1;
  q_model_dim = 2;
  kv_model_dim = 1;
  query_position_offset = 3;
  causal_flag = 1;
  window_arg = 2 ^ 64 - 1;
}

accepted : (check_attention queries keys keys 2 1 (some 1) none true (some 5) kernels0).0 ≡ ok dims
unfolding check_attention rows_cols_buf
accepted = refl

check_attention-positions_example : (3 + 1 < 5) × (5 ≤ 8)
check_attention-positions_example =
    check_attention-positions queries keys keys 2 1 (some 1) none true (some 5) kernels0 dims 1
      accepted (omega arith)

abbrev allocated : Slice
allocated = record { address = 1; len = 2 }

abbrev offering : Kernels Device
offering = record kernels0 { offered_output = some allocated }

-- A weight of 65536 ones, the smallest that is stored compact.
abbrev weight : HostTensor
weight = record { shape = 256 ∷ 256 ∷ []; values = replicate 65536 0x3F80_0000 }

abbrev large : Kernels Device
large = record kernels0 { dev = record fresh_device { available = 100000 } }

abbrev compact_weight : CudaDeviceBuffer
compact_weight = record {
  slice = record { address = 65538; len = 1 };
  shape = 256 ∷ 256 ∷ [];
  bf16 = some (record { address = 1; len = 65536 });
}

simulated-Overwrites : Overwrites simulated
simulated-Overwrites = record {
  contents = contents;
  memcpy_htod-contents = λ values s start d fits copied. ground arith;
}

simulated-Allocates : Allocates simulated simulated-Overwrites
unfolding simulated-Overwrites
simulated-Allocates = record {
  IsLive = λ s d. s.address < d.next;
  alloc-IsLive = λ n s d h. (ground arith, ground (arith, length-replicate {A = ℕ} n 0));
  memcpy_htod-IsLive = λ values s t start d h. h;
  alloc_zeros-contents = λ n s d h. ground arith;
}

upload_weight-contents_example :
    (s : Slice) × (compact_weight.bf16 ≡ some s)
    × (map bf16_to_f32 (contents s (upload_weight simulated weight large).1.dev) ≡ weight.values)
unfolding upload_weight upload_compact upload_chunks forbid_in_capture exact_bf16_bits
    simulated-Overwrites
upload_weight-contents_example =
    upload_weight-contents simulated simulated-Overwrites simulated-Allocates weight large
      compact_weight refl refl refl

-- A buffer of two elements is allocated.
abbrev with_buffer : Kernels Device
with_buffer = record kernels0 { dev = put allocated (0 ∷ 0 ∷ []) fresh_device }

abbrev two_chunks : Result CudaError ⊤ × Kernels Device
two_chunks = upload_chunks simulated 1 2 0 allocated (0x3F80_0000 ∷ 0x4000_0000 ∷ []) with_buffer

upload_chunks-contents_example :
    contents allocated two_chunks.1.dev ≡ map upper_half (0x3F80_0000 ∷ 0x4000_0000 ∷ [])
unfolding upload_chunks simulated-Overwrites
upload_chunks-contents_example =
    upload_chunks-contents simulated simulated-Overwrites 1 2 0 allocated
      (0x3F80_0000 ∷ 0x4000_0000 ∷ []) with_buffer (omega arith) (omega arith) refl refl
