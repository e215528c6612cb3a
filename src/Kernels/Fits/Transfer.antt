-- ===== src/Kernels/Fits/Transfer.antt =====
-- Transfers (`src/kernels.rs`): what they put on the device fits its shape, what they bring back is valid.
use magnetar_provider_cuda.Base.{
  ◌≡◌, refl, ◌∙◌, arith, ℕ, zero, suc, ◌+◌, Option, none, some, List, [], ◌∷◌, product, length,
  take, drop, map, pure, ◌>>=◌,
}
use magnetar_provider_cuda.Base.Bits.{u16, ◌>>>◌}
use magnetar_provider_cuda.Platform.{Slice, Platform, HostTensor}
use magnetar_provider_cuda.Platform.Allocation.{Allocation, Capacity, HasSize}
use magnetar_provider_cuda.Kernels.State.{
  call, KernelsAction, CudaDeviceBuffer, CudaHalfBuffer, CudaHalfDType,
}
use magnetar_provider_cuda.Kernels.Transfer.{
  f32_buffer, host_tensor, checked_product, upload, zeros, download, expand, clone_buffer,
  upload_half, download_half, upload_chunks, upload_compact, upload_weight, kv_write,
}
use magnetar_provider_cuda.Kernels.Elementwise.{HalfOp, half_elementwise, same_shape_half}
use magnetar_provider_cuda.Kernels.Shapes.{checked_product_lem}
use magnetar_provider_cuda.Kernels.Fits.{Fits}
use magnetar_provider_cuda.Kernels.Fits.Rules.{
  Makes, Runs, Runs-call, Runs-fail_if, runs, then_run, then_upload, then_alloc, then_zeros,
  then_copy, then_value, Makes-pure, Makes->>=,
}

-- `HostTensor::new` made it: as many values as the shape says.
abbrev pub IsValid : HostTensor → Type 0
IsValid t = length t.values ≡ product t.shape

uploaded-Fits :
    (t : HostTensor) (s : Slice)
    → IsValid t
    → (s.len ≡ length t.values) × HasSize (length t.values)
    → Fits (f32_buffer s t.shape)
uploaded-Fits t s valid made = (made.0 ∙ valid, omega arith)

zeroed-Fits :
    (shape : List ℕ) (s : Slice) (n : ℕ)
    → checked_product 1 shape ≡ some n
    → (s.len ≡ n) × HasSize n
    → Fits (f32_buffer s shape)
zeroed-Fits shape s n fits made =
    let (exact, _) = checked_product_lem 1 shape n fits (omega arith) in
    (made.0 ∙ exact ∙ omega arith, omega arith)

cloned-Fits :
    (b : CudaDeviceBuffer) (s : Slice)
    → Fits b
    → b.bf16 ≡ none
    → s.len ≡ b.slice.len
    → Fits (f32_buffer s b.shape)
cloned-Fits b s fits f32 len = ground arith

cloned_compact-Fits :
    (b : CudaDeviceBuffer) (s bf16 copy : Slice)
    → Fits b
    → b.bf16 ≡ some bf16
    → copy.len ≡ bf16.len
    → Fits (record { slice = s; shape = b.shape; bf16 = some copy })
cloned_compact-Fits b s bf16 copy fits compact len = ground arith

compact-Fits :
    (t : HostTensor) (s bf16 : Slice)
    → IsValid t
    → (bf16.len ≡ length t.values) × HasSize (length t.values)
    → Fits (record { slice = s; shape = t.shape; bf16 = some bf16 })
compact-Fits t s bf16 valid made = (made.0 ∙ valid, omega arith)

module _ {Dev : Type 0} (platform : Platform Dev) (allocation : Allocation platform)
    (capacity : Capacity platform) {offered : Option Slice} where
  pub upload-Fits : (t : HostTensor) → IsValid t → Makes offered Fits (upload platform t)
  unfolding upload
  upload-Fits t valid =
      search (runs, then_upload platform allocation capacity, uploaded-Fits t) depth 12

  host_tensor-IsValid :
      (shape values : List ℕ) → Makes offered IsValid (host_tensor platform shape values)
  host_tensor-IsValid shape values = record {
    keeps = λ k h s e. ground (arith, h s);
    gives = λ k t h e. (capacity.new_tensor-IsValid shape values t (ground arith)).1;
  }

  download_at :
      (b : CudaDeviceBuffer) (o : Option Slice)
      → b.bf16 ≡ o
      → Makes offered IsValid (download platform b)
  unfolding download
  download_at b none e = rw e (search (runs, host_tensor-IsValid) depth 12)
  download_at b (some bf16) e = rw e (search (runs, host_tensor-IsValid) depth 12)

  pub expand-Fits : (b : CudaDeviceBuffer) → Makes offered Fits (expand platform b)
  unfolding expand
  expand-Fits b =
      Makes->>= (download platform b) (λ t. upload platform t) (download_at b b.bf16 refl)
        upload-Fits

  pub zeros-Fits : (shape : List ℕ) → Makes offered Fits (zeros platform shape)
  unfolding zeros
  zeros-Fits shape =
      search (runs, then_zeros platform allocation capacity, zeroed-Fits shape) depth 12

  then_copied :
      {P : CudaDeviceBuffer → Type 0} (from : Slice)
      (f : Option Slice → KernelsAction Dev CudaDeviceBuffer)
      → ((c : Slice) → c.len ≡ from.len → Makes offered P (f (some c)))
      → Makes offered P ((call (platform.clone_dtod from) >>= λ copy. pure (some copy)) >>= f)
  then_copied from f hf =
      Makes->>= {Q = λ (o : Option Slice). (c : Slice) × (c.len ≡ from.len) × (o ≡ some c)}
        (call (platform.clone_dtod from) >>= λ copy. pure (some copy)) f
        (then_copy platform allocation capacity from _
          (λ c len. Makes-pure (some c) (c, len, refl)))
        (λ o made. rw made.2 (hf made.0 made.1))

  clone_at :
      (b : CudaDeviceBuffer) (o : Option Slice)
      → b.bf16 ≡ o
      → Fits b
      → Makes offered Fits (clone_buffer platform b)
  unfolding clone_buffer
  clone_at b none e fits =
      rw e
        (search (then_value, then_copy platform allocation capacity, runs, cloned-Fits b) depth 12)
  clone_at b (some bf16) e fits = rw e (search (then_copied, runs, cloned_compact-Fits b) depth 12)

  pub clone_buffer-Fits :
      (b : CudaDeviceBuffer) → Fits b → Makes offered Fits (clone_buffer platform b)
  clone_buffer-Fits b fits = clone_at b b.bf16 refl fits

  Runs-upload_chunks :
      (size fuel start : ℕ) (bf16 : Slice) (values : List ℕ)
      → Runs offered (upload_chunks platform size fuel start bf16 values)
  unfolding upload_chunks
  Runs-upload_chunks size fuel start bf16 [] = search runs
  Runs-upload_chunks size zero start bf16 (v ∷ values) = search runs
  Runs-upload_chunks size (suc fuel) start bf16 (v ∷ values) =
      let rest = Runs-upload_chunks size fuel (start + size) bf16 (drop size (v ∷ values)) in
      let bits = map (λ (x : ℕ). u16 (x >>> 16)) (take size (v ∷ values)) in
      then_run (call (platform.memcpy_htod bits bf16 start))
        (λ _. upload_chunks platform size fuel (start + size) bf16 (drop size (v ∷ values)))
        (Runs-call _) (λ _. rest)

  upload_compact-Fits :
      (t : HostTensor) → IsValid t → Makes offered Fits (upload_compact platform t)
  unfolding upload_compact
  upload_compact-Fits t valid =
      search (then_alloc platform allocation capacity, runs, Runs-upload_chunks, compact-Fits t)
        depth 14

  pub upload_weight-Fits :
      (t : HostTensor) → IsValid t → Makes offered Fits (upload_weight platform t)
  unfolding upload_weight
  upload_weight-Fits t valid = search (runs, upload-Fits, upload_compact-Fits)

  pub Runs-kv_write :
      (store rows : CudaDeviceBuffer) (offset : ℕ)
      → Runs offered (kv_write platform store rows offset)
  unfolding kv_write
  Runs-kv_write store rows offset = search runs depth 20

  pub Runs-upload_half :
      (t : HostTensor) (dtype : CudaHalfDType) → Runs offered (upload_half platform t dtype)
  unfolding upload_half
  Runs-upload_half t dtype = search runs depth 10

  Runs-same_shape_half : (a b : CudaHalfBuffer) → Runs {Dev = Dev} offered (same_shape_half a b)
  unfolding same_shape_half
  Runs-same_shape_half a b = search (runs, Runs-fail_if) depth 8

  pub Runs-half_elementwise :
      (op : HalfOp) (a b : CudaHalfBuffer) → Runs offered (half_elementwise platform op a b)
  unfolding half_elementwise
  Runs-half_elementwise op a b = search (runs, Runs-same_shape_half) depth 20

  pub download-IsValid : (b : CudaDeviceBuffer) → Makes offered IsValid (download platform b)
  download-IsValid b = download_at b b.bf16 refl

  pub download_half-IsValid :
      (b : CudaHalfBuffer) → Makes offered IsValid (download_half platform b)
  unfolding download_half
  download_half-IsValid b = search (runs, host_tensor-IsValid) depth 12
