-- ===== src/Executor/Tensors/Laws.antt =====
-- What writing and releasing tensors promise (`src/executor.rs`).
use magnetar_provider_cuda.Base.{
  ◌⊎◌, if◌then◌else◌, ℕ, ◌≡◌, arith, String, Bool, true, false, none, some, is_some, List, ok,
  is_ok, lookup-insert, lookup-remove, Result-cases, inl, inr,
}
use magnetar_provider_cuda.Base.Eq.{string_eq}
use magnetar_provider_cuda.Platform.{Platform, HostTensor}
use magnetar_provider_cuda.Kernels.State.{Kernels, CudaDeviceBuffer, forbid_in_capture}
use magnetar_provider_cuda.Kernels.Transfer.{upload, upload_weight, upload_compact}
use magnetar_provider_cuda.Executor.State.{Executor}
use magnetar_provider_cuda.Executor.Tensors.{
  write_tensor, write_weight_tensor, release_tensor, resident_shape, read_tensor_value,
}

module _ {Dev : Type 0} (platform : Platform Dev) where
  -- The outcomes of a write under `id`: the resource has the shape, and others keep their buffers; or
  -- nothing in the storage changes.
  abbrev pub IsWrite : Bool → String → List ℕ → Executor Dev → Executor Dev → Type 0
  IsWrite succeeded id shape e e' =
      ((succeeded ≡ true)
        × ((j : String)
            → resident_shape j e'
              ≡ (if string_eq.beq id j then some shape else resident_shape j e)))
      ⊎ ((succeeded ≡ false) × (e'.storage ≡ e.storage))

  pub upload_weight-shape :
      (tensor : HostTensor) (k : Kernels Dev) (b : CudaDeviceBuffer)
      → (upload_weight platform tensor k).0 ≡ ok b
      → b.shape ≡ tensor.shape
  unfolding upload_weight upload upload_compact forbid_in_capture
  upload_weight-shape tensor k b h = ground arith

  pub upload-shape :
      (tensor : HostTensor) (k : Kernels Dev) (b : CudaDeviceBuffer)
      → (upload platform tensor k).0 ≡ ok b
      → b.shape ≡ tensor.shape
  unfolding upload forbid_in_capture
  upload-shape tensor k b h = ground arith

  -- A write of a tensor, in full or as a weight, gives the resource the tensor's shape in place of
  -- whatever it had and leaves the others alone; a write that fails changes nothing in the storage.
  -- A release then removes exactly that resource.
  pub writes-IsWrite :
      (id : String) (tensor : HostTensor) (e : Executor Dev)
      → let (r, e') = write_tensor platform id tensor e in
        let (r', e'') = write_weight_tensor platform id tensor e in
        IsWrite (is_ok r) id tensor.shape e e'
        × IsWrite (is_ok r') id tensor.shape e e''
        × (resident_shape id (release_tensor id e').1 ≡ none)
        × ((release_tensor id e').0 ≡ is_some (read_tensor_value id e'))
  unfolding write_tensor write_weight_tensor resident_shape release_tensor read_tensor_value
  writes-IsWrite id tensor e = (
    elim (Result-cases (upload platform tensor e.kernels).0) [
      | inl (b, made) ↦
          let shape = upload-shape tensor e.kernels b made in
          inl (ground arith, λ j. ground (arith, lookup-insert id j b e.storage))
      | inr (error, failed) ↦ inr (ground arith, ground arith)
    ],
    elim (Result-cases (upload_weight platform tensor e.kernels).0) [
      | inl (b, made) ↦
          let shape = upload_weight-shape tensor e.kernels b made in
          inl (ground arith, λ j. ground (arith, lookup-insert id j b e.storage))
      | inr (error, failed) ↦ inr (ground arith, ground arith)
    ],
    (let e' = (write_tensor platform id tensor e).1 in
        ground (arith, lookup-remove id id e'.storage, string_eq.beq_iff id id)),
    ground arith,
  )
