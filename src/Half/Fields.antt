-- ===== src/Half/Fields.antt =====
-- The conversions of `src/half_precision.rs` in terms of the fields of a pattern: its sign `s`,
-- exponent `e` and mantissa `m`.
use magnetar_provider_cuda.Base.{
  ℕ, zero, suc, ◌+◌, ◌*◌, ◌%◌, ◌^◌, ◌<◌, ◌≡◌, arith, bit_and, bit_or, Bool, true, ◌&&◌, ◌==◌, ltb,
  if◌then◌else◌,
}
use magnetar_provider_cuda.Base.Bits.{and_mask, and_bit, ◌<<<◌, ◌>>>◌}
use magnetar_provider_cuda.Half.{
  f16_magnitude, f16_to_f32, f16_special, f16_subnormal, f16_normal, f32_to_f16,
}

-- A number below `n` satisfies what a run over all of them has tested.
abbrev pub below : ℕ → (ℕ → Bool) → Bool
below zero p = true
below (suc n) p = p n && below n p

pub below_lem : (n : ℕ) (p : ℕ → Bool) (x : ℕ) → below n p ≡ true → x < n → p x ≡ true
below_lem zero p x h lt = absurd (omega arith)
below_lem (suc n) p x h lt = ground (arith, below_lem n p x)

-- The decoder splits a pattern into its fields, and keeps the sign.
pub f16_to_f32_fields :
    (s e m : ℕ)
    → e < 32
    → m < 1024
    → f16_to_f32 (s * 2 ^ 15 + e * 2 ^ 10 + m) ≡ bit_or (s * 2 ^ 31) (f16_magnitude e m)
unfolding f16_to_f32
f16_to_f32_fields s e m he hm =
    let x = s * 2 ^ 15 + e * 2 ^ 10 + m in
    let sign : x >>> 15 <<< 31 ≡ s * 2 ^ 31 = omega arith in
    let exponent : bit_and (x >>> 10) 0x1F ≡ e = omega (arith, and_mask 5 (x >>> 10)) in
    let mantissa : bit_and x 0x3FF ≡ m = omega (arith, and_mask 10 x) in
    rw (sign, exponent, mantissa)

-- The encoder's dispatch on the exponent, at the fields of a pattern.
abbrev pub f16_of_fields : ℕ → ℕ → ℕ → ℕ
f16_of_fields s e m =
    if e == 0xFF
    then f16_special (s * 2 ^ 15) m
    else if ltb 142 e
    then bit_or (s * 2 ^ 15) 0x7C00
    else if ltb e 113
    then f16_subnormal (s * 2 ^ 15) e m
    else f16_normal (s * 2 ^ 15) e m

pub f32_to_f16_fields :
    (s e m : ℕ)
    → s < 2
    → e < 256
    → m < 2 ^ 23
    → f32_to_f16 (s * 2 ^ 31 + e * 2 ^ 23 + m) ≡ f16_of_fields s e m
f32_to_f16_fields s e m hs he hm =
    let x = s * 2 ^ 31 + e * 2 ^ 23 + m in
    let sign : bit_and (x >>> 16) 0x8000 % 2 ^ 16 ≡ s * 2 ^ 15 =
      omega (arith, and_bit 15 (x >>> 16)) in
    let exponent : bit_and (x >>> 23) 0xFF ≡ e = omega (arith, and_mask 8 (x >>> 23)) in
    let mantissa : bit_and x 0x007F_FFFF ≡ m = omega (arith, and_mask 23 x) in
    unfold f32_to_f16 in rw (sign, exponent, mantissa)
