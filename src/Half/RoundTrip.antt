-- ===== src/Half/RoundTrip.antt =====
-- Decoding a half-precision pattern of `src/half_precision.rs` and encoding it again.
use magnetar_provider_cuda.Base.{
  ℕ, zero, suc, ◌+◌, ◌-◌, ◌*◌, ◌/◌, ◌%◌, ◌^◌, ◌<◌, ◌≡◌, refl, sym, ◌∙◌, ap, arith, bit_or, Bool,
  true, not, ◌&&◌, ◌||◌, ◌==◌, ltb, leb, ==_iff, Bool-cases, inl, inr,
}
use magnetar_provider_cuda.Base.Bits.{
  or_fields, and_mask, and_bit, bit_or-zero, zero-bit_or, u16, ◌<<<◌, ◌>>>◌,
}
use magnetar_provider_cuda.Half.{
  subnormal_magnitude, f16_magnitude, f16_to_f32, f32_significand, round_shift, f16_special,
  f16_subnormal, f16_normal, f32_to_f16, f32_to_bf16, bf16_to_f32,
}
use magnetar_provider_cuda.Half.Fields.{
  below, below_lem, f16_of_fields, f16_to_f32_fields, f32_to_f16_fields,
}

-- The subnormal encoder keeps the sign apart.
f16_subnormal_sign : (s e m : ℕ) → f16_subnormal s e m ≡ bit_or s (f16_subnormal 0 e m)
unfolding f16_subnormal
f16_subnormal_sign s e m = elim (Bool-cases (f32_significand e m == 0)) [
  | inl z ↦ rw z (sym (bit_or-zero s))
  | inr nz ↦ elim (Bool-cases (leb 32 (126 - e))) [
    | inl far ↦ rw (nz, far) (sym (bit_or-zero s))
    | inr near ↦ rw (nz, near, zero-bit_or)
  ]
]

-- Every subnormal mantissa comes back.
abbrev returns? : ℕ → Bool
returns? m =
    let x = subnormal_magnitude m in
    m == 0
    || (ltb x (2 ^ 31)
        && ltb (x / 2 ^ 23) 113
        && not (x / 2 ^ 23 == 0)
        && f16_subnormal 0 (x / 2 ^ 23) (x % 2 ^ 23) == m)

subnormals_return : below 1024 returns? ≡ true
unfolding subnormal_magnitude f16_subnormal f32_significand round_shift
subnormals_return = refl

-- The encoder gives a magnitude back, whatever the sign.
abbrev MagnitudeReturns : ℕ → ℕ → Type 0
MagnitudeReturns e m =
    (s : ℕ)
    → s < 2
    → f32_to_f16 (bit_or (s * 2 ^ 31) (f16_magnitude e m)) ≡ s * 2 ^ 15 + e * 2 ^ 10 + m

returns :
    (e m e' m' : ℕ)
    → f16_magnitude e m ≡ e' * 2 ^ 23 + m'
    → e' < 256
    → m' < 2 ^ 23
    → ((s : ℕ) → s < 2 → f16_of_fields s e' m' ≡ s * 2 ^ 15 + e * 2 ^ 10 + m)
    → MagnitudeReturns e m
returns e m e' m' magnitude he hm back s hs =
    let joined : bit_or (s * 2 ^ 31) (f16_magnitude e m) ≡ s * 2 ^ 31 + e' * 2 ^ 23 + m' =
      rw (magnitude, or_fields 31 s (e' * 2 ^ 23 + m') (omega arith)) (omega arith) in
    ap f32_to_f16 joined ∙ f32_to_f16_fields s e' m' hs he hm ∙ back s hs

zero_returns : MagnitudeReturns 0 0
unfolding f16_magnitude f16_subnormal f32_significand
zero_returns = returns 0 0 0 0 refl (omega arith) (omega arith) (λ s hs. ground arith)

subnormal_returns : (m : ℕ) → 0 < m → m < 1024 → MagnitudeReturns 0 m
subnormal_returns m pos hm =
    let x = subnormal_magnitude m in
    let magnitude : f16_magnitude 0 m ≡ x / 2 ^ 23 * 2 ^ 23 + x % 2 ^ 23 =
      unfold f16_magnitude in ground arith in
    let tested = below_lem 1024 returns? m subnormals_return hm in
    returns 0 m (x / 2 ^ 23) (x % 2 ^ 23) magnitude (ground (arith, tested)) (omega arith) (λ s hs.
      ground (
        arith,
        tested,
        f16_subnormal_sign (s * 2 ^ 15) (x / 2 ^ 23) (x % 2 ^ 23),
        or_fields 15 s m,
      ))

-- A NaN keeps its payload, an infinity has none.
special_returns : (m : ℕ) → m < 1024 → MagnitudeReturns 31 m
special_returns m hm =
    let magnitude : f16_magnitude 31 m ≡ 255 * 2 ^ 23 + m * 2 ^ 13 =
      unfold f16_magnitude in ground (arith, or_fields 23 255 (m * 2 ^ 13)) in
    returns 31 m 255 (m * 2 ^ 13) magnitude (omega arith) (omega arith) λ s hs.
      unfold f16_special in ground (arith, or_fields 15 s 0x7C00, or_fields 10 (s * 32 + 31) m)

round_shift_exact : (m : ℕ) → round_shift (m * 2 ^ 13) 13 ≡ m
unfolding round_shift
round_shift_exact m = ground (arith, and_mask 13 (m * 2 ^ 13))

normal_returns : (e m : ℕ) → 0 < e → e < 31 → m < 1024 → MagnitudeReturns e m
normal_returns e m pos he hm =
    let magnitude : f16_magnitude e m ≡ (e + 112) * 2 ^ 23 + m * 2 ^ 13 =
      unfold f16_magnitude in ground (arith, or_fields 23 (e + 112) (m * 2 ^ 13)) in
    returns e m (e + 112) (m * 2 ^ 13) magnitude (omega arith) (omega arith) λ s hs.
      unfold f16_normal in
      ground (arith, round_shift_exact m, or_fields 15 s (e * 2 ^ 10), or_fields 10 (s * 32 + e) m)

magnitude_returns : (e m : ℕ) → e < 32 → m < 1024 → MagnitudeReturns e m
magnitude_returns zero zero he hm = zero_returns
magnitude_returns zero (suc m) he hm = subnormal_returns (suc m) (omega arith) hm
magnitude_returns (suc e) m he hm = elim (Bool-cases (suc e == 31)) [
  | inl top ↦ rw ((==_iff (suc e) 31).0 top) (special_returns m hm)
  | inr low ↦ normal_returns (suc e) m (omega arith) (ground arith) hm
]

-- Decoding any of the 65536 binary16 patterns and encoding the result gives the pattern back,
-- the payload of a NaN included.
pub f32_to_f16-f16_to_f32 : (bits : ℕ) → bits < 2 ^ 16 → f32_to_f16 (f16_to_f32 bits) ≡ bits
f32_to_f16-f16_to_f32 bits h =
    let s = bits / 2 ^ 15 in
    let e = bits / 2 ^ 10 % 32 in
    let m = bits % 2 ^ 10 in
    let split : s * 2 ^ 15 + e * 2 ^ 10 + m ≡ bits = omega arith in
    let decoded : f16_to_f32 bits ≡ bit_or (s * 2 ^ 31) (f16_magnitude e m) =
      ap f16_to_f32 (sym split) ∙ f16_to_f32_fields s e m (omega arith) (omega arith) in
    ap f32_to_f16 decoded
    ∙ magnitude_returns e m (omega arith) (omega arith) s (omega arith)
    ∙ split

-- Decoding any bfloat16 pattern and encoding the result gives the pattern back.
pub f32_to_bf16-bf16_to_f32 : (bits : ℕ) → bits < 2 ^ 16 → f32_to_bf16 (bf16_to_f32 bits) ≡ bits
unfolding f32_to_bf16 bf16_to_f32
f32_to_bf16-bf16_to_f32 bits h =
    let high : bits <<< 16 >>> 16 ≡ bits = omega arith in
    rw high (
      ground (
        arith,
        and_bit 15 bits,
        and_mask 7 (u16 bits),
        and_mask 1 bits,
        or_fields 15 (bits / 2 ^ 15) 0x7F80,
        or_fields 7 (bits / 2 ^ 15 * 256 + 255) (bits % 128),
      ))
