-- ===== src/Half/Termination.antt =====
-- That the loop of `f16_to_f32` (`src/half_precision.rs`) ends by its own test.
use magnetar_provider_cuda.Base.{
  ℕ, zero, suc, ◌+◌, ◌*◌, ◌/◌, ◌^◌, ◌<◌, ◌≤◌, ◌≡◌, ap, sym, ◌∙◌, arith, inl, inr, ◌⊎◌,
}
use magnetar_provider_cuda.Base.Bits.{◌<<<◌, u32, and_bit}
use native.Mathlib.Nat.{pow-succ', mul_assoc}
use magnetar_provider_cuda.Half.{normalize}

leading_or_below : (m : ℕ) → (2 ^ 10 ≤ m) ⊎ (m < 2 ^ 10)
leading_or_below m = ground arith

normalize-leading :
    (fuel mantissa shift : ℕ)
    → mantissa < 2 ^ 11
    → 2 ^ 10 ≤ mantissa * 2 ^ fuel
    → (normalize fuel mantissa shift).0 / 2 ^ 10 ≡ 1
unfolding normalize
normalize-leading zero mantissa shift small reaches = omega arith
normalize-leading (suc fuel) mantissa shift small reaches =
    let doubled : mantissa * 2 ^ suc fuel ≡ mantissa * 2 * 2 ^ fuel =
      ap (λ (t : ℕ). mantissa * t) (pow-succ' 2 fuel) ∙ sym (mul_assoc mantissa 2 (2 ^ fuel)) in
    elim (leading_or_below mantissa) [
      | inl leading ↦ ground (arith, and_bit 10 mantissa)
      | inr below ↦
          let next : u32 (mantissa <<< 1) ≡ mantissa * 2 = omega arith in
          let rest =
            normalize-leading fuel (u32 (mantissa <<< 1)) (shift + 1) (omega arith)
              (rw next (omega (arith, doubled))) in
          ground (arith, and_bit 10 mantissa, rest)
    ]

-- Ten steps of fuel are enough for every subnormal mantissa: the loop ends because the leading bit
-- is set, not because the fuel is gone.
pub normalize-ends :
    (mantissa : ℕ) → 0 < mantissa → mantissa < 2 ^ 10 → (normalize 10 mantissa 0).0 / 2 ^ 10 ≡ 1
normalize-ends mantissa positive small = normalize-leading 10 mantissa 0 (omega arith) (omega arith)
