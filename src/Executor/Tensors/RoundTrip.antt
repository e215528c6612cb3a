-- ===== src/Executor/Tensors/RoundTrip.antt =====
-- Reading back what was written (`src/executor.rs`, `src/kernels.rs`).
use magnetar_provider_cuda.Base.{
  ◌≡◌, refl, ap, ◌∙◌, arith, ℕ, String, some, List, [], ◌∷◌, length, take, drop, ok, lookup-insert,
  Result-cases, inl, inr,
}
use magnetar_provider_cuda.Base.Eq.{string_eq}
use magnetar_provider_cuda.Platform.{Slice, Platform, HostTensor}
use magnetar_provider_cuda.Platform.Allocation.{Allocation}
use magnetar_provider_cuda.Kernels.State.{Kernels, CudaDeviceBuffer, forbid_in_capture}
use magnetar_provider_cuda.Kernels.Transfer.{f32_buffer, upload, download}
use magnetar_provider_cuda.Executor.State.{Executor}
use magnetar_provider_cuda.Executor.Tensors.{write_tensor, read_tensor}

-- A device in working order: an upload leaves the values in the buffer, and a download, which succeeds,
-- brings back the range that is asked for.
pub record Remembers {Dev : Type 0} (platform : Platform Dev) : Type 0 where
  pub contents : Slice → Dev → List ℕ
  pub clone_htod-contents :
      (values : List ℕ) (d : Dev) (s : Slice)
      → (platform.clone_htod values d).0 ≡ ok s
      → contents s (platform.clone_htod values d).1 ≡ values
  pub clone_dtoh-contents :
      (s : Slice) (start len : ℕ) (d : Dev)
      → (platform.clone_dtoh s start len d).0 ≡ ok (take len (drop start (contents s d)))
  pub synchronize-ok : (d : Dev) → (platform.synchronize d).0 ≡ ok tt

take-length : {A : Type 0} (xs : List A) → take (length xs) xs ≡ xs
take-length [] = refl
take-length (x ∷ xs) = ap (λ t. x ∷ t) (take-length xs)

module _ {Dev : Type 0} (platform : Platform Dev) (allocation : Allocation platform)
    (memory : Remembers platform) where
  download-upload :
      (tensor : HostTensor) (k : Kernels Dev) (b : CudaDeviceBuffer)
      → platform.new_tensor tensor.shape tensor.values ≡ some tensor
      → (upload platform tensor k).0 ≡ ok b
      → (download platform b (upload platform tensor k).1).0 ≡ ok tensor
  unfolding upload download forbid_in_capture
  download-upload tensor k b valid written =
      elim (Result-cases (platform.clone_htod tensor.values k.dev).0) [
        | inr (error, failed) ↦ absurd (ground arith)
        | inl (s, made) ↦
            let d = (platform.clone_htod tensor.values k.dev).1 in
            let is : b ≡ f32_buffer s tensor.shape = ground arith in
            let len = allocation.clone_htod-len tensor.values k.dev s made in
            let kept = memory.clone_htod-contents tensor.values k.dev s made in
            let back : (platform.clone_dtoh s 0 s.len d).0 ≡ ok tensor.values =
              memory.clone_dtoh-contents s 0 s.len d
              ∙ ap ok (
                  ap (λ c. take s.len c) kept
                  ∙ ap (λ n. take n tensor.values) len
                  ∙ take-length tensor.values) in
            let ready = memory.synchronize-ok (platform.clone_dtoh s 0 s.len d).1 in
            ground (arith, is, back, ready, valid)
      ]

  -- A tensor that `HostTensor::new` made and that `write_tensor` put on the device is what `read_tensor`
  -- brings back, shape and values, on a device in working order.
  pub read_tensor-write_tensor :
      (id : String) (tensor : HostTensor) (e : Executor Dev)
      → platform.new_tensor tensor.shape tensor.values ≡ some tensor
      → (write_tensor platform id tensor e).0 ≡ ok tt
      → (read_tensor platform id (write_tensor platform id tensor e).1).0 ≡ some tensor
  unfolding write_tensor read_tensor
  read_tensor-write_tensor id tensor e valid written =
      elim (Result-cases (upload platform tensor e.kernels).0) [
        | inr (error, failed) ↦ absurd (ground arith)
        | inl (b, made) ↦ ground (
          arith,
          made,
          download-upload tensor e.kernels b valid made,
          lookup-insert id id b e.storage,
          string_eq.beq_iff id id,
        )
      ]
