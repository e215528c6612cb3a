-- ===== src/Kernels/Fits/Elementwise.antt =====
-- The elementwise Kernels and `concat` (`src/kernels.rs`) give back buffers that fit their shape.
use native.Mathlib.Nat.{mul-suc, add-mul}
use magnetar_provider_cuda.Base.{
  ◌≡◌, refl, sym, ◌∙◌, arith, ℕ, zero, suc, ap, ◌+◌, ◌*◌, ◌<◌, ◌≤◌, not, true, false, any, Option,
  none, some, List, [], ◌∷◌, product,
}
use magnetar_provider_cuda.Platform.{Slice, Platform}
use magnetar_provider_cuda.Platform.Allocation.{Allocation, Capacity, HasSize}
use magnetar_provider_cuda.Base.Bits.{u64}
use magnetar_provider_cuda.Kernels.State.{shape_eq, CudaDeviceBuffer, is_compact}
use magnetar_provider_cuda.Kernels.Transfer.{f32_buffer}
use magnetar_provider_cuda.Kernels.Elementwise.{add, mul, residual_add, concat, silu, silu_mul}
use magnetar_provider_cuda.Kernels.Fits.{Fits}
use magnetar_provider_cuda.Kernels.Fits.Rules.{Makes, runs, then_output}

-- An output like an operand that is `f32`.
pub like-Fits :
    (a : CudaDeviceBuffer) (out : Slice)
    → Fits a
    → a.bf16 ≡ none
    → (out.len ≡ a.slice.len) × HasSize a.slice.len
    → Fits (f32_buffer out a.shape)
like-Fits a out fits f32 made = ground arith

pub first_f32 :
    (a : CudaDeviceBuffer) (rest : List CudaDeviceBuffer)
    → any is_compact (a ∷ rest) ≡ false
    → a.bf16 ≡ none
first_f32 a rest h = ground arith

pub second_f32 :
    (a b : CudaDeviceBuffer) (rest : List CudaDeviceBuffer)
    → any is_compact (a ∷ b ∷ rest) ≡ false
    → b.bf16 ≡ none
second_f32 a b rest h = ground arith

shape_eq→≡ : (s t : List ℕ) → shape_eq s t ≡ true → s ≡ t
shape_eq→≡ [] [] h = refl
shape_eq→≡ [] (b ∷ t) h = absurd (ground arith)
shape_eq→≡ (a ∷ s) [] h = absurd (ground arith)
shape_eq→≡ (a ∷ s) (b ∷ t) h = ground (arith, shape_eq→≡ s t)

-- A factor of a positive product is at most the product.
pub factor-le : (r p : ℕ) {n : ℕ} → n ≡ r * p → 0 < n → r ≤ n
factor-le r zero h pos = absurd (omega arith)
factor-le r (suc p) h pos = ground (arith, mul-suc r p)

-- Rows below rows.
concat-like :
    (a b : CudaDeviceBuffer) (out : Slice) (a_rows b_rows : ℕ) (a_rest b_rest : List ℕ)
    → Fits a
    → Fits b
    → a.shape ≡ a_rows ∷ a_rest
    → b.shape ≡ b_rows ∷ b_rest
    → any is_compact (a ∷ b ∷ []) ≡ false
    → not (shape_eq a_rest b_rest) ≡ false
    → (out.len ≡ a.slice.len + b.slice.len) × HasSize (a.slice.len + b.slice.len)
    → Fits (f32_buffer out (u64 (a_rows + b_rows) ∷ a_rest))
concat-like a b out a_rows b_rows a_rest b_rest fa fb sa sb f32 same made =
    let rest : a_rest ≡ b_rest = shape_eq→≡ a_rest b_rest (ground arith) in
    let la : a.slice.len ≡ a_rows * product a_rest =
      ground (arith, ap product sa, first_f32 a (b ∷ []) f32) in
    let lb : b.slice.len ≡ b_rows * product a_rest =
      ground (arith, ap product sb, ap product rest, second_f32 a b [] f32) in
    let few : a_rows ≤ a.slice.len = factor-le a_rows (product a_rest) la (ground arith) in
    let few' : b_rows ≤ b.slice.len = factor-le b_rows (product a_rest) lb (ground arith) in
    let rows : u64 (a_rows + b_rows) ≡ a_rows + b_rows = omega arith in
    let whole : out.len ≡ u64 (a_rows + b_rows) * product a_rest =
      made.0
      ∙ omega (arith, la, lb)
      ∙ sym (add-mul a_rows b_rows (product a_rest))
      ∙ ap (λ (t : ℕ). t * product a_rest) (sym rows) in
    (whole, rw made.0 made.1)

module _ {Dev : Type 0} (platform : Platform Dev) (allocation : Allocation platform)
    (capacity : Capacity platform) {offered : Option Slice}
    (size : (s : Slice) → offered ≡ some s → HasSize s.len) where
  pub silu-Fits : (input : CudaDeviceBuffer) → Fits input → Makes offered Fits (silu platform input)
  unfolding silu
  silu-Fits input fits =
      search (runs, then_output platform allocation capacity size, like-Fits, first_f32) depth 20

  pub mul-Fits : (a b : CudaDeviceBuffer) → Fits a → Fits b → Makes offered Fits (mul platform a b)
  unfolding mul
  mul-Fits a b fa fb =
      search (runs, then_output platform allocation capacity size, like-Fits, first_f32) depth 20

  pub add-Fits : (a b : CudaDeviceBuffer) → Fits a → Fits b → Makes offered Fits (add platform a b)
  unfolding add
  add-Fits a b fa fb =
      search (runs, then_output platform allocation capacity size, like-Fits, first_f32) depth 20

  pub residual_add-Fits :
      (a b : CudaDeviceBuffer) → Fits a → Fits b → Makes offered Fits (residual_add platform a b)
  unfolding residual_add
  residual_add-Fits a b fa fb = search (runs, add-Fits)

  pub silu_mul-Fits :
      (a b : CudaDeviceBuffer) → Fits a → Fits b → Makes offered Fits (silu_mul platform a b)
  unfolding silu_mul
  silu_mul-Fits a b fa fb =
      search (runs, then_output platform allocation capacity size, like-Fits, first_f32) depth 20

  concat_at :
      (a b : CudaDeviceBuffer) (a_shape b_shape : List ℕ)
      → a.shape ≡ a_shape
      → b.shape ≡ b_shape
      → Fits a
      → Fits b
      → Makes offered Fits (concat platform a b)
  unfolding concat
  concat_at a b [] b_shape sa sb fa fb = rw sa (search runs)
  concat_at a b (a_rows ∷ a_rest) [] sa sb fa fb = rw (sa, sb) (search runs)
  concat_at a b (a_rows ∷ a_rest) (b_rows ∷ b_rest) sa sb fa fb =
      rw (sa, sb)
        (search (runs, then_output platform allocation capacity size, concat-like a b) depth 20)

  pub concat-Fits :
      (a b : CudaDeviceBuffer) → Fits a → Fits b → Makes offered Fits (concat platform a b)
  concat-Fits a b = concat_at a b a.shape b.shape refl refl
