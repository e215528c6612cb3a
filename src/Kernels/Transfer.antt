-- ===== src/Kernels/Transfer.antt =====
-- Buffers of `CudaKernels` (`src/kernels.rs`): uploads, downloads, copies and in-place writes.
pub mod Weights
pub mod Laws
pub mod Chunks
use Prim.Native.Nat.{◌^◌, bit_and}
use magnetar_provider_cuda.Base.{
  ℕ, zero, suc, ◌+◌, ◌-◌, ◌*◌, ◌/◌, min, String, Bool, true, false, ◌==◌, ◌||◌, not, ltb, leb,
  if◌then◌else◌, Option, none, some, is_some, List, [], ◌∷◌, Result, ok, err, ⊤, Action, pure, fail,
  ◌>>=◌, ◌>>◌, fail_if, gets, modify, ok_or, lift, length, map, all, take, drop,
}
use magnetar_provider_cuda.Base.Bits.{◌<<<◌, ◌>>>◌, u16, u32, u64}
use magnetar_provider_cuda.Half.{f16_to_f32, f32_to_f16, f32_to_bf16, bf16_to_f32}
use magnetar_provider_cuda.Error.{shape_unsupported}
use magnetar_provider_cuda.Platform.{Slice, HostTensor, Platform, Arg}
use magnetar_provider_cuda.Kernels.State.{
  Kernels, KernelsAction, CudaDeviceBuffer, CudaHalfBuffer, CudaHalfDType, float16, brain_float16,
  call, attempt, u64_max, forbid_in_capture, add_upload, add_download, require_f32, rows_cols_buf,
  advancing_offset, function, launch, is_compact,
}

-- `COMPACT_WEIGHT_MIN_ELEMENTS`
abbrev pub compact_weight_min_elements : ℕ
compact_weight_min_elements = 2 ^ 16

-- `CHUNK`
abbrev pub chunk_elements : ℕ
chunk_elements = 2 ^ 20

unfoldable pub exact_bf16_bits : ℕ → Option ℕ
exact_bf16_bits bits = if bit_and bits 0xFFFF == 0 then some (u16 (bits >>> 16)) else none

-- The length that `zeros` computes with `checked_mul`; a `usize` has 64 bits.
unfoldable pub checked_product : ℕ → List ℕ → Option ℕ
checked_product len [] = some len
checked_product len (d ∷ shape) =
    if ltb u64_max (len * d) then none else checked_product (len * d) shape

abbrev pub f32_buffer : Slice → List ℕ → CudaDeviceBuffer
f32_buffer slice shape = record { slice = slice; shape = shape; bf16 = none }

-- `HostTensor::new(..).map_err(host_error)?`
abbrev pub host_tensor :
    {Dev : Type 0} → Platform Dev → List ℕ → List ℕ → KernelsAction Dev HostTensor
host_tensor platform shape values = ok_or (platform.new_tensor shape values) shape_unsupported

module _ {Dev : Type 0} (platform : Platform Dev) where
  unfoldable pub upload : HostTensor → KernelsAction Dev CudaDeviceBuffer
  unfolding forbid_in_capture
  upload tensor = do
    forbid_in_capture "a host-to-device upload"
    slice ← call (platform.clone_htod tensor.values)
    modify add_upload
    pure (f32_buffer slice tensor.shape)

  unfoldable pub zeros : List ℕ → KernelsAction Dev CudaDeviceBuffer
  unfolding forbid_in_capture
  zeros shape = do
    forbid_in_capture "a device allocation"
    len ← ok_or (checked_product 1 shape) shape_unsupported
    slice ← call (platform.alloc_zeros len)
    pure (f32_buffer slice shape)

  unfoldable pub download : CudaDeviceBuffer → KernelsAction Dev HostTensor
  unfolding forbid_in_capture
  download buffer = do
    forbid_in_capture "a device-to-host download"
    values ← elim buffer.bf16 [
      | some bf16 ↦ (do
        bits ← call (platform.clone_dtoh bf16 0 bf16.len)
        pure (map (λ b. b <<< 16) bits))
      | none ↦ call (platform.clone_dtoh buffer.slice 0 buffer.slice.len)
    ]
    call platform.synchronize
    modify add_download
    host_tensor platform buffer.shape values

  unfoldable pub expand : CudaDeviceBuffer → KernelsAction Dev CudaDeviceBuffer
  expand buffer = do tensor ← download buffer; upload tensor

  -- `none` for a compact buffer, another rank, or rows past the end.
  unfoldable pub download_rows : CudaDeviceBuffer → ℕ → ℕ → KernelsAction Dev (Option HostTensor)
  unfolding forbid_in_capture
  download_rows buffer first_row rows = forbid_in_capture "a device-to-host download" >>= λ _.
      elim buffer.shape [
        | total_rows ∷ (columns ∷ []) ↦
            if is_compact buffer || ltb total_rows (min (first_row + rows) u64_max)
            then pure none
            else (do
              let start = u64 (first_row * columns)
              let end = u64 ((first_row + rows) * columns)
              values ← call (platform.clone_dtoh buffer.slice start (end - start))
              call platform.synchronize
              modify add_download
              tensor ← host_tensor platform (rows ∷ columns ∷ []) values
              pure (some tensor))
        | _ ↦ pure none
      ]

  -- `rows` over the store's rows from `row_offset` on; a captured write lands `row_offset` plus the
  -- replay offset rows down.
  unfoldable pub kv_write : CudaDeviceBuffer → CudaDeviceBuffer → ℕ → KernelsAction Dev ⊤
  kv_write store rows row_offset = do
    require_f32 (store ∷ rows ∷ [])
    (capacity, width) ← rows_cols_buf store
    (count, row_width) ← rows_cols_buf rows
    fail_if (not (row_width == width)) shape_unsupported
    fail_if (ltb u64_max (row_offset + count) || ltb capacity (row_offset + count))
        shape_unsupported
    step_offset ← advancing_offset "row_offset" (capacity - (row_offset + count))
    let n = rows.slice.len
    (if n == 0 then pure tt else (do
      function platform "kv_write_kernel"
      launch platform "kv_write_kernel"
          (Arg.slice rows.slice
            ∷ Arg.slice store.slice
            ∷ Arg.word n
            ∷ Arg.word width
            ∷ Arg.word row_offset
            ∷ Arg.word step_offset
            ∷ [])
          (platform.for_num_elems (u32 n))))

  unfoldable pub clone_buffer : CudaDeviceBuffer → KernelsAction Dev CudaDeviceBuffer
  unfolding forbid_in_capture
  clone_buffer buffer = do
    forbid_in_capture "a buffer copy"
    slice ← call (platform.clone_dtod buffer.slice)
    bf16 ← elim buffer.bf16 [
      | some bf16 ↦ (do copy ← call (platform.clone_dtod bf16); pure (some copy))
      | none ↦ pure none
    ]
    pure (record { slice = slice; shape = buffer.shape; bf16 = bf16 })

  -- Writes into the buffer's own allocation.
  unfoldable pub write_into : CudaDeviceBuffer → List ℕ → KernelsAction Dev ⊤
  write_into buffer values = do
    require_f32 (buffer ∷ [])
    fail_if (not (length values == buffer.slice.len)) shape_unsupported
    call (platform.memcpy_htod values buffer.slice 0)
    modify add_upload

  unfoldable pub upload_half : HostTensor → CudaHalfDType → KernelsAction Dev CudaHalfBuffer
  unfolding forbid_in_capture
  upload_half tensor dtype = do
    forbid_in_capture "a host-to-device upload"
    let bits : List ℕ = elim dtype [
      | float16 ↦ map f32_to_f16 tensor.values
      | brain_float16 ↦ map f32_to_bf16 tensor.values
    ]
    slice ← call (platform.clone_htod bits)
    modify add_upload
    pure (record { slice = slice; shape = tensor.shape; dtype = dtype })

  unfoldable pub download_half : CudaHalfBuffer → KernelsAction Dev HostTensor
  unfolding forbid_in_capture
  download_half buffer = do
    forbid_in_capture "a device-to-host download"
    bits ← call (platform.clone_dtoh buffer.slice 0 buffer.slice.len)
    call platform.synchronize
    modify add_download
    let values : List ℕ = elim buffer.dtype [
      | float16 ↦ map f16_to_f32 bits
      | brain_float16 ↦ map bf16_to_f32 bits
    ]
    host_tensor platform buffer.shape values

  -- Converts and uploads chunks of a size one by one, with as much fuel as there are values.
  unfoldable pub upload_chunks : ℕ → ℕ → ℕ → Slice → List ℕ → KernelsAction Dev ⊤
  upload_chunks size fuel start bf16 [] = pure tt
  upload_chunks size zero start bf16 (v ∷ values) = pure tt
  upload_chunks size (suc fuel) start bf16 (v ∷ values) =
      let chunk = take size (v ∷ values) in
      let rest = upload_chunks size fuel (start + size) bf16 (drop size (v ∷ values)) in
      call (platform.memcpy_htod (map (λ x. u16 (x >>> 16)) chunk) bf16 start) >>= λ _. rest

  unfoldable pub upload_compact : HostTensor → KernelsAction Dev CudaDeviceBuffer
  unfolding forbid_in_capture upload_chunks
  upload_compact tensor = do
    forbid_in_capture "a host-to-device upload"
    bf16 ← call (platform.alloc (length tensor.values))
    upload_chunks chunk_elements (length tensor.values) 0 bf16 tensor.values
    slice ← call (platform.alloc_zeros 1)
    modify add_upload
    pure (record { slice = slice; shape = tensor.shape; bf16 = some bf16 })

  unfoldable pub upload_weight : HostTensor → KernelsAction Dev CudaDeviceBuffer
  upload_weight tensor =
      if not (length tensor.shape == 2)
        || ltb (length tensor.values) compact_weight_min_elements
        || not (all (λ v. is_some (exact_bf16_bits v)) tensor.values)
      then upload tensor
      else upload_compact tensor
