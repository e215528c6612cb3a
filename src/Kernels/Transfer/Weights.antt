-- ===== src/Kernels/Transfer/Weights.antt =====
-- The compact form of weights (`src/kernels.rs`) loses nothing.
use magnetar_provider_cuda.Base.{
  ◌↔◌, ℕ, ◌/◌, ◌<◌, ◌^◌, ◌≡◌, refl, arith, true, ◌==◌, some, is_some, List, [], ◌∷◌, ok, all,
  Bool-cases, inl, inr, sym, ◌∙◌, not, ◌||◌, ltb, Option-cases, map, ap, Result-cases, zero, suc,
  take, drop, ◌+◌, length,
}
use magnetar_provider_cuda.Base.Bits.{and_mask}
use magnetar_provider_cuda.Half.{bf16_to_f32}
use magnetar_provider_cuda.Platform.{Platform, HostTensor, Slice}
use magnetar_provider_cuda.Kernels.Transfer.Chunks.{upper_half, Overwrites, upload_chunks-contents}
use magnetar_provider_cuda.Kernels.State.{
  Kernels, CudaDeviceBuffer, is_compact, forbid_in_capture, call,
}
use magnetar_provider_cuda.Kernels.Transfer.{
  exact_bf16_bits, upload, upload_weight, upload_chunks, upload_compact, chunk_elements,
  compact_weight_min_elements,
}

-- `exact_bf16_bits` gives the bfloat16 pattern of an `f32` pattern exactly when that pattern widens
-- back to it: no other value has a compact form, and every bfloat16 value has its own.
pub exact_bf16_bits-bf16_to_f32 :
    (bits half : ℕ)
    → bits < 2 ^ 32
    → half < 2 ^ 16
    → (exact_bf16_bits bits ≡ some half) ↔ (bf16_to_f32 half ≡ bits)
unfolding exact_bf16_bits bf16_to_f32
exact_bf16_bits-bf16_to_f32 bits half small small' =
    (λ h. ground (arith, and_mask 16 bits), λ h. ground (arith, and_mask 16 bits))

-- The upper halves of exact values widen back to them.
map-upper_half-exact :
    (values : List ℕ)
    → all (λ v. is_some (exact_bf16_bits v)) values ≡ true
    → all (λ v. v / 2 ^ 32 == 0) values ≡ true
    → map bf16_to_f32 (map upper_half values) ≡ values
unfolding exact_bf16_bits bf16_to_f32
map-upper_half-exact [] h w = refl
map-upper_half-exact (v ∷ values) h w =
    let here : bf16_to_f32 (upper_half v) ≡ v = ground (arith, and_mask 16 v) in
    rw here (ap (λ t. v ∷ t) (map-upper_half-exact values (ground arith) (ground arith)))

-- What an allocation is, beside copies that overwrite: it has the length that was asked for, and
-- keeps its contents while others are made.
pub record Allocates {Dev : Type 0} (platform : Platform Dev) (memory : Overwrites platform)
    : Type 1 where
  pub IsLive : Slice → Dev → Type 0
  pub alloc-IsLive :
      (n : ℕ) (s : Slice) (d : Dev)
      → (platform.alloc n d).0 ≡ ok s
      → IsLive s (platform.alloc n d).1 × (length (memory.contents s (platform.alloc n d).1) ≡ n)
  pub memcpy_htod-IsLive :
      (values : List ℕ) (s t : Slice) (start : ℕ) (d : Dev)
      → IsLive s d
      → IsLive s (platform.memcpy_htod values t start d).1
  pub alloc_zeros-contents :
      (n : ℕ) (s : Slice) (d : Dev)
      → IsLive s d
      → memory.contents s (platform.alloc_zeros n d).1 ≡ memory.contents s d

module _ {Dev : Type 0} (platform : Platform Dev) (memory : Overwrites platform)
    (allocates : Allocates platform memory) where
  upload_chunks-IsLive :
      (size fuel start : ℕ) (s bf16 : Slice) (values : List ℕ) (k : Kernels Dev)
      → allocates.IsLive s k.dev
      → allocates.IsLive s (upload_chunks platform size fuel start bf16 values k).1.dev
  unfolding upload_chunks
  upload_chunks-IsLive size fuel start s bf16 [] k live = live
  upload_chunks-IsLive size zero start s bf16 (v ∷ values) k live = live
  upload_chunks-IsLive size (suc fuel) start s bf16 (v ∷ values) k live =
      let chunk : List ℕ = map upper_half (take size (v ∷ values)) in
      let k' = (call (platform.memcpy_htod chunk bf16 start) k).1 in
      let copied = allocates.memcpy_htod-IsLive chunk s bf16 start k.dev live in
      let later = drop size (v ∷ values) in
      elim (Result-cases (platform.memcpy_htod chunk bf16 start k.dev).0) [
        | inr (error, failed) ↦ rw failed copied
        | inl (_, done) ↦
            rw done (upload_chunks-IsLive size fuel (start + size) s bf16 later k' copied)
      ]

  upload_compact-contents :
      (tensor : HostTensor) (k : Kernels Dev) (b : CudaDeviceBuffer)
      → (upload_compact platform tensor k).0 ≡ ok b
      → (s : Slice) × (b.bf16 ≡ some s)
        × (memory.contents s (upload_compact platform tensor k).1.dev
            ≡ map upper_half tensor.values)
  unfolding upload_compact forbid_in_capture
  upload_compact-contents tensor k b h =
      let n = length tensor.values in
      let k1 = (call (platform.alloc n) k).1 in
      elim (Option-cases k.capture) [
        | inr (capture, capturing) ↦ absurd (ground arith)
        | inl idle ↦ elim (Result-cases (platform.alloc n k.dev).0) [
          | inr (error, failed) ↦ absurd (ground arith)
          | inl (s, allocated) ↦
              let (live, len) = allocates.alloc-IsLive n s k.dev allocated in
              let (r, k2) = upload_chunks platform chunk_elements n 0 s tensor.values k1 in
              elim (Result-cases r) [
                | inr (error, failed) ↦ absurd (ground arith)
                | inl (_, written) ↦
                    let filled =
                      upload_chunks-contents platform memory chunk_elements n 0 s tensor.values k1
                        (omega arith) (omega arith) (omega (arith, len)) written in
                    let kept =
                      allocates.alloc_zeros-contents 1 s k2.dev
                        (upload_chunks-IsLive chunk_elements n 0 s s tensor.values k1 live) in
                    (s, ground arith, ground (arith, filled, kept))
              ]
        ]
      ]

  -- A weight of `f32` patterns that is stored compact has, on the device, a buffer whose bfloat16
  -- contents widen to exactly the tensor's values, in order: the compact form loses nothing.
  pub upload_weight-contents :
      (tensor : HostTensor) (k : Kernels Dev) (b : CudaDeviceBuffer)
      → all (λ v. v / 2 ^ 32 == 0) tensor.values ≡ true
      → (upload_weight platform tensor k).0 ≡ ok b
      → is_compact b ≡ true
      → (s : Slice) × (b.bf16 ≡ some s)
        × (map bf16_to_f32 (memory.contents s (upload_weight platform tensor k).1.dev)
            ≡ tensor.values)
  unfolding upload_weight upload forbid_in_capture
  upload_weight-contents tensor k b words h compact =
      elim (Bool-cases (all (λ v. is_some (exact_bf16_bits v)) tensor.values)) [
        | inr inexact ↦ absurd (ground arith)
        | inl exact ↦
            elim (Bool-cases (
              not (length tensor.shape == 2)
              || ltb (length tensor.values) compact_weight_min_elements)) [
                | inl plain ↦ absurd (ground arith)
                | inr large ↦
                    let same : upload_weight platform tensor k ≡ upload_compact platform tensor k =
                      ground arith in
                    let (s, here, filled) =
                      upload_compact-contents tensor k b (ap (λ x. x.0) (sym same) ∙ h) in
                    (
                      s,
                      here,
                      ap (λ x. map bf16_to_f32 (memory.contents s x.1.dev)) same
                          ∙ ap (map bf16_to_f32) filled
                          ∙ map-upper_half-exact tensor.values exact words,
                    )
              ]
      ]
