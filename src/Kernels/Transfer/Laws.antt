-- ===== src/Kernels/Transfer/Laws.antt =====
-- Transfers of `CudaKernels` (`src/kernels.rs`) under a capture, and in the bounds of their buffers.
use magnetar_provider_cuda.Base.{
  ℕ, min, ◌+◌, ◌-◌, ◌≤◌, ◌≡◌, arith, true, false, none, some, is_some, List, [], ◌∷◌, Result, err,
  is_ok,
}
use magnetar_provider_cuda.Error.{CudaError, capture_unsupported}
use magnetar_provider_cuda.Platform.{Platform, HostTensor}
use magnetar_provider_cuda.Kernels.State.{
  Kernels, KernelCapture, CudaDeviceBuffer, CudaHalfBuffer, CudaHalfDType, is_capturing, mem_string,
  advancing_offset, rows_cols_buf, function,
}
use magnetar_provider_cuda.Kernels.Transfer.{
  upload, zeros, download, expand, download_rows, kv_write, clone_buffer, upload_half,
  download_half, upload_weight, upload_compact,
}

module _ {Dev : Type 0} (platform : Platform Dev) where
  -- The outcome of a call that a capture in progress forbids: it fails, does nothing on the device,
  -- and the capture stays in progress, marked as failed.
  abbrev pub IsForbidden : {A : Type 0} → Kernels Dev → Result CudaError A × Kernels Dev → Type 0
  IsForbidden k (r, k') =
      (r ≡ err capture_unsupported)
      × (k'.dev ≡ k.dev)
      × (elim k'.capture [ some c ↦ is_some c.failure | none ↦ false ] ≡ true)

  -- While a capture is in progress, the guarded transfers reach no device and mark the capture as
  -- failed: upload, upload of a weight, in full or compact, zeros, download, expansion, download of
  -- rows, copy of a buffer, and upload and download of half-precision buffers.
  pub transfers-IsForbidden :
      (tensor : HostTensor) (shape : List ℕ) (buffer : CudaDeviceBuffer) (half : CudaHalfBuffer)
      (dtype : CudaHalfDType) (row rows : ℕ) (k : Kernels Dev)
      → is_capturing k ≡ true
      → IsForbidden k (upload platform tensor k)
        × IsForbidden k (upload_weight platform tensor k)
        × IsForbidden k (zeros platform shape k)
        × IsForbidden k (download platform buffer k)
        × IsForbidden k (expand platform buffer k)
        × IsForbidden k (download_rows platform buffer row rows k)
        × IsForbidden k (clone_buffer platform buffer k)
        × IsForbidden k (upload_half platform tensor dtype k)
        × IsForbidden k (download_half platform half k)
  unfolding upload upload_weight upload_compact zeros download expand download_rows clone_buffer
      upload_half download_half
  transfers-IsForbidden tensor shape buffer half dtype row rows k h = ground arith

  -- A `kv-write` that succeeds in a capture whose `row_offset` advances lowers the largest replay
  -- offset, so that every replay that the capture still allows writes inside the store.
  pub kv_write-in_bounds :
      (store rows : CudaDeviceBuffer) (row_offset capacity width count row_width : ℕ)
      (k : Kernels Dev) (c : KernelCapture)
      → store.shape ≡ capacity ∷ width ∷ []
      → rows.shape ≡ count ∷ row_width ∷ []
      → k.capture ≡ some c
      → mem_string "row_offset" c.advancing ≡ true
      → is_ok (kv_write platform store rows row_offset k).0 ≡ true
      → (c' : KernelCapture) × ((kv_write platform store rows row_offset k).1.capture ≡ some c')
        × (c'.max_offset ≤ c.max_offset)
        × ((offset : ℕ) → offset ≤ c'.max_offset → row_offset + offset + count ≤ capacity)
  unfolding kv_write rows_cols_buf advancing_offset function
  kv_write-in_bounds store rows row_offset capacity width count row_width k c hs hr hc adv
        succeeds =
      (
        record c { max_offset = min c.max_offset (capacity - (row_offset + count)) },
        ground arith,
        omega arith,
        λ offset le. let fits : row_offset + count ≤ capacity = ground arith in omega arith,
      )
