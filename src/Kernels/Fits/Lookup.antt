-- ===== src/Kernels/Fits/Lookup.antt =====
-- The embedding lookup, softmax, RMSNorm and rope (`src/kernels.rs`) give back buffers that fit.
use native.Mathlib.Nat.{mul_comm, mul-le-mul}
use magnetar_provider_cuda.Base.{
  ◌≡◌, subst, ◌==◌, ◌>>=◌, ◌>>◌, ap, ◌∙◌, arith, ℕ, ◌*◌, ◌<◌, ◌≤◌, ◌^◌, false, any, Option, none,
  some, [], ◌∷◌, product,
}
use magnetar_provider_cuda.Base.Bits.{u64}
use magnetar_provider_cuda.Platform.{Slice, Platform}
use magnetar_provider_cuda.Platform.Allocation.{Allocation, Capacity, HasSize}
use magnetar_provider_cuda.Kernels.State.{
  call, alloc_output, KernelsAction, CudaDeviceBuffer, is_compact, forbid_in_capture, buffer_len,
}
use magnetar_provider_cuda.Kernels.Transfer.{f32_buffer}
use magnetar_provider_cuda.Kernels.Capture.{check_embedding_flag}
use magnetar_provider_cuda.Kernels.Lookup.{
  take_flag, finish_lookup, embedding_lookup, softmax_rows, rmsnorm,
}
use magnetar_provider_cuda.Kernels.Rope.{
  BandedScaling, CudaRopePairing, rope_output, rope_with_frequency_scaling,
}
use magnetar_provider_cuda.Kernels.Fits.{Fits}
use magnetar_provider_cuda.Kernels.Fits.Rules.{
  Makes, Makes->>=, Makes-if, Makes-alloc_output, Makes-clone_dtod, Runs-forbid_in_capture, weaken,
  Runs, runs, then_run, then_output, then_zeros,
}
use magnetar_provider_cuda.Kernels.Fits.Elementwise.{like-Fits, first_f32, factor-le}

-- Numbers of 32 bits have a product of 64.
pub mul_small : (a b : ℕ) → a < 2 ^ 32 → b < 2 ^ 32 → a * b < 2 ^ 64
mul_small a b ha hb =
    let largest : a * b ≤ 0xFFFF_FFFF * 0xFFFF_FFFF =
      mul-le-mul {n₂ = 0xFFFF_FFFF} {m₂ = 0xFFFF_FFFF} (omega arith) (omega arith) in
    omega arith

module _ {Dev : Type 0} (platform : Platform Dev) (allocation : Allocation platform)
    (capacity : Capacity platform) {offered : Option Slice}
    (size : (s : Slice) → offered ≡ some s → HasSize s.len) where
  pub softmax_rows-Fits :
      (input : CudaDeviceBuffer) → Fits input → Makes offered Fits (softmax_rows platform input)
  unfolding softmax_rows
  softmax_rows-Fits input fits =
      search (runs, then_zeros platform allocation capacity, like-Fits, first_f32) depth 25

  pub rmsnorm-Fits :
      (input weight : CudaDeviceBuffer) (epsilon : ℕ)
      → Fits input
      → Makes offered Fits (rmsnorm platform input weight epsilon)
  unfolding rmsnorm
  rmsnorm-Fits input weight epsilon fits =
      search (runs, then_output platform allocation capacity size, like-Fits, first_f32) depth 25

  Runs-take_flag : Runs offered (take_flag platform)
  unfolding take_flag forbid_in_capture
  Runs-take_flag = record { keeps = λ k h s e. ground (arith, h s); gives = λ k a h e. tt }

  finish_lookup-Fits :
      (out : CudaDeviceBuffer) → Fits out → Makes offered Fits (finish_lookup platform out)
  unfolding finish_lookup check_embedding_flag
  finish_lookup-Fits out fits = record {
    keeps = λ k h s e. ground (arith, h s);
    gives = λ k a h e. let same : out ≡ a = ground arith in subst Fits same fits;
  }

  lookup-Fits :
      (table ids : CudaDeviceBuffer) (out : Slice) (vocab dim : ℕ)
      → Fits table
      → Fits ids
      → table.shape ≡ vocab ∷ dim ∷ []
      → any is_compact (ids ∷ []) ≡ false
      → (out.len ≡ u64 (ids.slice.len * dim)) × HasSize (u64 (ids.slice.len * dim))
      → Fits (f32_buffer out (ids.slice.len ∷ dim ∷ []))
  lookup-Fits table ids out vocab dim ft fi st f32 made =
      let table_len : buffer_len table ≡ vocab * (dim * 1) = ft.0 ∙ ap product st in
      let wide : dim ≤ buffer_len table =
        factor-le dim vocab
          (table_len ∙ ground (arith, mul_comm vocab (dim * 1), mul_comm dim vocab))
          (omega arith) in
      let ids_len : ids.slice.len < 2 ^ 32 = ground (arith, first_f32 ids [] f32) in
      let small = mul_small ids.slice.len dim ids_len (omega arith) in
      let exact : u64 (ids.slice.len * dim) ≡ ids.slice.len * dim = omega arith in
      let one : dim ≡ dim * 1 = omega arith in
      (made.0 ∙ exact ∙ ap (λ (d : ℕ). ids.slice.len * d) one, omega arith)

  pub embedding_lookup-Fits :
      (table ids : CudaDeviceBuffer)
      → Fits table
      → Fits ids
      → Makes offered Fits (embedding_lookup platform table ids)
  unfolding embedding_lookup
  embedding_lookup-Fits table ids ft fi =
      search
        (
          runs,
          Runs-take_flag,
          finish_lookup-Fits,
          lookup-Fits table ids,
          then_output platform allocation capacity size,
        )
        depth 25

  then_rope_output :
      {B : Type 0} {P : B → Type 0} (input : CudaDeviceBuffer) (dimension width : ℕ)
      (f : Slice → KernelsAction Dev B)
      → ((s : Slice) → s.len ≡ input.slice.len → Makes offered P (f s))
      → Makes offered P (rope_output platform input dimension width >>= f)
  unfolding rope_output
  then_rope_output input dimension width f hf =
      Makes->>= (rope_output platform input dimension width) f
        (Makes-if (dimension == width) (alloc_output platform input.slice.len)
          (forbid_in_capture "a buffer copy" >> call (platform.clone_dtod input.slice))
          (weaken (λ s h. h.0)
            (Makes-alloc_output platform allocation capacity size input.slice.len))
          (then_run (forbid_in_capture "a buffer copy") _ (Runs-forbid_in_capture _)
            (λ _. Makes-clone_dtod platform allocation capacity input.slice)))
        hf

  copied-Fits :
      (a : CudaDeviceBuffer) (out : Slice)
      → Fits a
      → a.bf16 ≡ none
      → out.len ≡ a.slice.len
      → Fits (f32_buffer out a.shape)
  copied-Fits a out fits f32 len = ground arith

  pub rope-Fits :
      (input : CudaDeviceBuffer) (base scale dimension position_offset head_count : ℕ)
      (pairing : CudaRopePairing) (scaling : Option BandedScaling)
      → Fits input
      → Makes offered Fits (
          rope_with_frequency_scaling platform input base scale dimension position_offset head_count
            pairing scaling)
  unfolding rope_with_frequency_scaling
  rope-Fits input base scale dimension position_offset head_count pairing scaling fits =
      search (runs, then_rope_output, like-Fits input, copied-Fits, first_f32) depth 25
