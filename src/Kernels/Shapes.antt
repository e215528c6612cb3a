-- ===== src/Kernels/Shapes.antt =====
-- Buffers that hold as many elements as their shape says: the invariant that the launches of
-- `src/kernels.rs` rest on, since a Kernel is given the shape's numbers and the buffer's address.
use magnetar_provider_cuda.Base.{
  ◌⊎◌, ◌==◌, Bool-cases, ℕ, ◌*◌, ◌<◌, ◌^◌, ◌≡◌, ◌∙◌, ap, arith, none, some, List, [], ◌∷◌, ok,
  product, length, Result-cases, Option-cases, inl, inr,
}
use native.Mathlib.Nat.{mul_assoc}
use magnetar_provider_cuda.Platform.{Platform, Slice, HostTensor}
use magnetar_provider_cuda.Platform.Allocation.{Allocation}
use magnetar_provider_cuda.Kernels.State.{
  Kernels, CudaDeviceBuffer, buffer_len, alloc_output, forbid_in_capture,
}
use magnetar_provider_cuda.Kernels.Transfer.{upload, zeros, checked_product, f32_buffer}

abbrev pub IsWellShaped : CudaDeviceBuffer → Type 0
IsWellShaped b = buffer_len b ≡ product b.shape

-- `checked_mul` over a shape gives its product, which fits in a `usize`.
pub checked_product_lem :
    (len : ℕ) (shape : List ℕ) (n : ℕ)
    → checked_product len shape ≡ some n
    → len < 2 ^ 64
    → (n ≡ len * product shape) × (n < 2 ^ 64)
unfolding checked_product
checked_product_lem len [] n h small = (ground arith, ground arith)
checked_product_lem len (d ∷ shape) n h small =
    let fits : len * d < 2 ^ 64 = ground arith in
    let (n≡, bounded) = checked_product_lem (len * d) shape n (ground arith) fits in
    (n≡ ∙ mul_assoc len d (product shape), bounded)

module _ {Dev : Type 0} (platform : Platform Dev) (allocation : Allocation platform) where
  -- An output allocation has the length that was asked for. It is the offered buffer, which is then
  -- no longer offered, without a call of the device, or a fresh allocation, and the offer stays.
  pub alloc_output-len :
      (n : ℕ) (k : Kernels Dev) (s : Slice)
      → (alloc_output platform n k).0 ≡ ok s
      → (s.len ≡ n)
        × (((k.offered_output ≡ some s)
              × ((alloc_output platform n k).1.dev ≡ k.dev)
              × ((alloc_output platform n k).1.offered_output ≡ none))
            ⊎ (((platform.alloc n k.dev).0 ≡ ok s)
                × ((alloc_output platform n k).1.offered_output ≡ k.offered_output)))
  unfolding alloc_output forbid_in_capture
  alloc_output-len n k s h = (
    ground (arith, allocation.alloc-len n k.dev s),
    elim (Option-cases k.offered_output) [
      | inl nothing ↦ inr (ground arith, ground arith)
      | inr (offered, given) ↦ elim (Bool-cases (offered.len == n)) [
        | inl fits ↦ inl (ground arith, ground arith, ground arith)
        | inr other ↦ inr (ground arith, ground arith)
      ]
    ],
  )

  -- An upload of a valid tensor makes a buffer with the tensor's shape that holds as many elements
  -- as the shape says.
  pub upload-IsWellShaped :
      (tensor : HostTensor) (k : Kernels Dev) (b : CudaDeviceBuffer)
      → length tensor.values ≡ product tensor.shape
      → (upload platform tensor k).0 ≡ ok b
      → (b.shape ≡ tensor.shape) × IsWellShaped b
  unfolding upload forbid_in_capture
  upload-IsWellShaped tensor k b valid h =
      elim (Result-cases (platform.clone_htod tensor.values k.dev).0) [
        | inl (s, made) ↦
            let same : b ≡ f32_buffer s tensor.shape = ground arith in
            (
              ap (λ x. x.shape) same,
              rw same (allocation.clone_htod-len tensor.values k.dev s made ∙ valid),
            )
        | inr (error, failed) ↦ absurd (ground arith)
      ]

  -- So does a zeroed allocation: the length it asked for is the product of the shape, and fits in a
  -- `usize`, or the call failed.
  pub zeros-IsWellShaped :
      (shape : List ℕ) (k : Kernels Dev) (b : CudaDeviceBuffer)
      → (zeros platform shape k).0 ≡ ok b
      → (b.shape ≡ shape) × IsWellShaped b
  unfolding zeros forbid_in_capture
  zeros-IsWellShaped shape k b h = elim (Option-cases (checked_product 1 shape)) [
    | inl overflow ↦ absurd (ground arith)
    | inr (n, fits) ↦ elim (Result-cases (platform.alloc_zeros n k.dev).0) [
      | inl (s, made) ↦
          let same : b ≡ f32_buffer s shape = ground arith in
          let (n≡, _) = checked_product_lem 1 shape n fits (omega arith) in
          (
            ap (λ x. x.shape) same,
            rw same (allocation.alloc_zeros-len n k.dev s made ∙ n≡ ∙ omega arith),
          )
      | inr (error, failed) ↦ absurd (ground arith)
    ]
  ]
