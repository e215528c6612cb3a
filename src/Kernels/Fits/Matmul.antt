-- ===== src/Kernels/Fits/Matmul.antt =====
-- The matmul family (`src/kernels.rs`) gives back buffers that fit their shape.
use native.Mathlib.Nat.{mul_comm}
use magnetar_provider_cuda.Base.{
  ◌≡◌, ap, ◌∙◌, arith, ℕ, ◌+◌, ◌*◌, ◌≤◌, String, Bool, false, Option, none, some, List, [], ◌∷◌,
  product, ⊤,
}
use magnetar_provider_cuda.Base.Bits.{u64}
use magnetar_provider_cuda.Platform.{Slice, Platform}
use magnetar_provider_cuda.Platform.Allocation.{Allocation, Capacity, HasSize}
use magnetar_provider_cuda.Kernels.State.{CudaDeviceBuffer, forbid_in_capture, buffer_len}
use magnetar_provider_cuda.Kernels.Transfer.{f32_buffer}
use magnetar_provider_cuda.Kernels.Matmul.{
  split_launch, split_buffer, split_inputs, split_bf16_all, tcp_terms, tc_found, MatmulAddend, row,
  full, launch_product, matmul_with_addend, matmul, matmul_bias, matmul_residual, launch_gated,
  gated_matmul, oriented,
}
use magnetar_provider_cuda.Kernels.Fits.{Fits}
use magnetar_provider_cuda.Kernels.Fits.Rules.{
  Makes, Runs, runs, then_buffer, then_option, then_output,
}
use magnetar_provider_cuda.Kernels.Fits.Elementwise.{factor-le, add-Fits, silu_mul-Fits}
use magnetar_provider_cuda.Kernels.Fits.Lookup.{mul_small}

module _ {Dev : Type 0} (platform : Platform Dev) {offered : Option Slice} where
  Runs-split_buffer : (total : ℕ) → Runs offered (split_buffer platform total)
  unfolding split_buffer forbid_in_capture
  Runs-split_buffer total = record { keeps = λ k h s e. ground (arith, h s); gives = λ k a h e. tt }

  Runs-split_inputs :
      (next : ℕ) (inputs : List (CudaDeviceBuffer × ℕ))
      → Runs offered (split_inputs platform next inputs)
  unfolding split_inputs
  Runs-split_inputs next [] = search runs
  Runs-split_inputs next ((input, len) ∷ inputs) =
      let lo = next + len * 2 in
      let rest = Runs-split_inputs (lo + len * 2) inputs in
      record {
        keeps = λ k h s e.
            let k' = record k {
              dev = (platform.launch (split_launch platform input next lo len) k.dev).1;
            } in
            ground (arith, h s, rest.keeps k' h s);
        gives = λ k a h e. tt;
      }

  pub Runs-split_bf16_all :
      (inputs : List (CudaDeviceBuffer × ℕ)) → Runs offered (split_bf16_all platform inputs)
  unfolding split_bf16_all
  Runs-split_bf16_all inputs = search (runs, Runs-split_buffer, Runs-split_inputs) depth 10

  Runs-tcp_terms :
      (eligible : Bool) (name : String) (a : CudaDeviceBuffer) (len : ℕ)
      → Runs offered (tcp_terms platform eligible name a len)
  Runs-tcp_terms eligible name a len = search (runs, Runs-split_bf16_all) depth 10

  Runs-tc_found : (eligible : Bool) (name : String) → Runs offered (tc_found platform eligible name)
  Runs-tc_found eligible name = search runs depth 10

module _ {Dev : Type 0} (platform : Platform Dev) (allocation : Allocation platform)
    (capacity : Capacity platform) {offered : Option Slice}
    (size : (s : Slice) → offered ≡ some s → HasSize s.len) where
  abbrev AddendFits : Option MatmulAddend → Type 0
  AddendFits none = ⊤
  AddendFits (some (row bias)) = Fits bias
  AddendFits (some (full residual)) = Fits residual

  launch_product-Fits :
      (a b : CudaDeviceBuffer) (addend : Option MatmulAddend) (ta tb : Bool)
      (a_cols b_cols m k n : ℕ) (out : Slice)
      → Fits (f32_buffer out (m ∷ n ∷ []))
      → AddendFits addend
      → Makes offered Fits (launch_product platform a b addend ta tb a_cols b_cols m k n out)
  unfolding launch_product
  launch_product-Fits a b none ta tb a_cols b_cols m k n out fits fa =
      search (runs, then_option, Runs-tcp_terms platform, Runs-tc_found platform) depth 25
  launch_product-Fits a b (some (row bias)) ta tb a_cols b_cols m k n out fits fa =
      search
        (
          runs,
          then_option,
          Runs-tcp_terms platform,
          Runs-tc_found platform,
          add-Fits platform allocation capacity size,
        )
        depth 25
  launch_product-Fits a b (some (full residual)) ta tb a_cols b_cols m k n out fits fa =
      search
        (
          runs,
          then_option,
          Runs-tcp_terms platform,
          Runs-tc_found platform,
          add-Fits platform allocation capacity size,
        )
        depth 25

  launch_gated-Fits :
      (a gate up : CudaDeviceBuffer) (ta : Bool) (a_cols m k n : ℕ) (out : Slice)
      → Fits (f32_buffer out (m ∷ n ∷ []))
      → Makes offered Fits (launch_gated platform a gate up ta a_cols m k n out)
  unfolding launch_gated
  launch_gated-Fits a gate up ta a_cols m k n out fits =
      search (runs, then_option, Runs-tcp_terms platform, Runs-tc_found platform) depth 25

  -- The dimensions of a product of two operands that fit have few digits.
  product-Fits :
      (a b : CudaDeviceBuffer) (out : Slice) (m n : ℕ)
      → m ≤ buffer_len a
      → n ≤ buffer_len b
      → Fits a
      → Fits b
      → (out.len ≡ u64 (m * n)) × HasSize (u64 (m * n))
      → Fits (f32_buffer out (m ∷ n ∷ []))
  product-Fits a b out m n hm hn fa fb made =
      let small = mul_small m n (omega arith) (omega arith) in
      let exact : u64 (m * n) ≡ m * n = omega arith in
      let one : n ≡ n * 1 = omega arith in (made.0 ∙ exact ∙ ap (λ (d : ℕ). m * d) one, omega arith)

  -- Both dimensions of a matrix are at most its length, whichever way it is read.
  oriented-le :
      (a : CudaDeviceBuffer) (rows cols : ℕ) (t : Bool)
      → Fits a
      → a.shape ≡ rows ∷ cols ∷ []
      → ((oriented t (rows, cols)).0 ≤ buffer_len a) × ((oriented t (rows, cols)).1 ≤ buffer_len a)
  oriented-le a rows cols t fits shape =
      let len : buffer_len a ≡ rows * (cols * 1) = fits.0 ∙ ap product shape in
      let few = factor-le rows (cols * 1) len fits.1.0 in
      let flipped : buffer_len a ≡ (cols * 1) * rows = len ∙ mul_comm rows (cols * 1) in
      let few' = factor-le (cols * 1) rows flipped fits.1.0 in ground arith

  matmul_output-Fits :
      (a b : CudaDeviceBuffer) (out : Slice) (ta tb : Bool) (ra rb : ℕ × ℕ)
      → Fits a
      → Fits b
      → a.shape ≡ ra.0 ∷ ra.1 ∷ []
      → b.shape ≡ rb.0 ∷ rb.1 ∷ []
      → (out.len ≡ u64 ((oriented ta (ra.0, ra.1)).0 * (oriented tb (rb.0, rb.1)).1))
        × HasSize (u64 ((oriented ta (ra.0, ra.1)).0 * (oriented tb (rb.0, rb.1)).1))
      → Fits (f32_buffer out ((oriented ta (ra.0, ra.1)).0 ∷ (oriented tb (rb.0, rb.1)).1 ∷ []))
  matmul_output-Fits a b out ta tb ra rb fa fb sa sb made =
      product-Fits a b out (oriented ta (ra.0, ra.1)).0 (oriented tb (rb.0, rb.1)).1
        (oriented-le a ra.0 ra.1 ta fa sa).0 (oriented-le b rb.0 rb.1 tb fb sb).1 fa fb made

  gated_output-Fits :
      (a gate : CudaDeviceBuffer) (out : Slice) (ta : Bool) (ra rb : ℕ × ℕ)
      → Fits a
      → Fits gate
      → a.shape ≡ ra.0 ∷ ra.1 ∷ []
      → gate.shape ≡ rb.0 ∷ rb.1 ∷ []
      → (out.len ≡ u64 ((oriented ta (ra.0, ra.1)).0 * rb.1))
        × HasSize (u64 ((oriented ta (ra.0, ra.1)).0 * rb.1))
      → Fits (f32_buffer out ((oriented ta (ra.0, ra.1)).0 ∷ rb.1 ∷ []))
  gated_output-Fits a gate out ta ra rb fa fg sa sg made =
      product-Fits a gate out (oriented ta (ra.0, ra.1)).0 rb.1 (oriented-le a ra.0 ra.1 ta fa sa).0
        (oriented-le gate rb.0 rb.1 false fg sg).1 fa fg made

  matmul_with_addend-Fits :
      (a b : CudaDeviceBuffer) (addend : Option MatmulAddend) (ta tb : Bool)
      → Fits a
      → Fits b
      → AddendFits addend
      → Makes offered Fits (matmul_with_addend platform a b addend ta tb)
  unfolding matmul_with_addend
  matmul_with_addend-Fits a b addend ta tb fa fb fadd =
      search
        (
          runs,
          launch_product-Fits,
          matmul_output-Fits a b,
          then_output platform allocation capacity size,
        )
        depth 25

  pub matmul-Fits :
      (a b : CudaDeviceBuffer) (ta tb : Bool)
      → Fits a
      → Fits b
      → Makes offered Fits (matmul platform a b ta tb)
  unfolding matmul
  matmul-Fits a b ta tb fa fb = matmul_with_addend-Fits a b none ta tb fa fb tt

  pub matmul_bias-Fits :
      (a b bias : CudaDeviceBuffer) (ta tb : Bool)
      → Fits a
      → Fits b
      → Fits bias
      → Makes offered Fits (matmul_bias platform a b bias ta tb)
  unfolding matmul_bias
  matmul_bias-Fits a b bias ta tb fa fb f =
      matmul_with_addend-Fits a b (some (row bias)) ta tb fa fb f

  pub matmul_residual-Fits :
      (a b residual : CudaDeviceBuffer) (ta tb : Bool)
      → Fits a
      → Fits b
      → Fits residual
      → Makes offered Fits (matmul_residual platform a b residual ta tb)
  unfolding matmul_residual
  matmul_residual-Fits a b residual ta tb fa fb f =
      matmul_with_addend-Fits a b (some (full residual)) ta tb fa fb f

  pub gated_matmul-Fits :
      (a gate up : CudaDeviceBuffer) (ta tb : Bool)
      → Fits a
      → Fits gate
      → Fits up
      → Makes offered Fits (gated_matmul platform a gate up ta tb)
  unfolding gated_matmul
  gated_matmul-Fits a gate up ta tb fa fg fu =
      search
        (
          then_buffer,
          runs,
          matmul-Fits,
          silu_mul-Fits platform allocation capacity size,
          launch_gated-Fits,
          gated_output-Fits a gate,
          then_output platform allocation capacity size,
        )
        depth 25
