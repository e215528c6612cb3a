-- ===== src/Half.antt =====
-- `src/half_precision.rs`: conversions between binary16, bfloat16 and binary32 on bit patterns.
-- A float is its pattern, so `f32::from_bits` and `to_bits` are the identity here. A `u32` is a
-- number below 2 ^ 32 and a `u16` one below 2 ^ 16; the casts that cut bits off are written out.
pub mod Fields
pub mod RoundTrip
pub mod Rounding
pub mod Termination
mod Tests
use magnetar_provider_cuda.Base.{
  ℕ, zero, suc, ◌+◌, ◌-◌, ◌*◌, ◌/◌, ◌%◌, ◌^◌, bit_and, bit_or, Bool, ◌&&◌, ◌||◌, ltb, leb, ◌==◌,
  if◌then◌else◌, Option, none, some,
}
use magnetar_provider_cuda.Base.Bits.{◌<<<◌, ◌>>>◌, u16, u32}

-- `f32::is_nan` on the pattern: an exponent of ones over a mantissa that is not zero.
abbrev pub is_nan : ℕ → Bool
is_nan bits = ltb 0x7F80_0000 (bits % 2 ^ 31)

-- `while mantissa & 0x400 == 0 { mantissa <<= 1; shift += 1; }`
pub normalize : ℕ → ℕ → ℕ → ℕ × ℕ
normalize zero mantissa shift = (mantissa, shift)
normalize (suc fuel) mantissa shift =
    let rest = normalize fuel (u32 (mantissa <<< 1)) (shift + 1) in
    if bit_and mantissa 0x400 == 0 then rest else (mantissa, shift)

-- The pattern of a subnormal binary16 value with a mantissa that is not zero.
pub subnormal_magnitude : ℕ → ℕ
unfolding normalize
subnormal_magnitude mantissa =
    let (mantissa', shift) = normalize 10 mantissa 0 in
    bit_or ((127 - 15 - shift + 1) <<< 23) (bit_and mantissa' 0x3FF <<< 13)

pub f16_magnitude : ℕ → ℕ → ℕ
f16_magnitude exponent mantissa =
    if exponent == 0
    then (if mantissa == 0 then 0 else subnormal_magnitude mantissa)
    else if exponent == 0x1F
    then bit_or (0xFF <<< 23) (mantissa <<< 13)
    else bit_or ((exponent + 127 - 15) <<< 23) (mantissa <<< 13)

unfoldable pub f16_to_f32 : ℕ → ℕ
unfolding f16_magnitude subnormal_magnitude
f16_to_f32 bits =
    let sign = bits >>> 15 <<< 31 in
    let exponent = bit_and (bits >>> 10) 0x1F in
    let mantissa = bit_and bits 0x3FF in bit_or sign (f16_magnitude exponent mantissa)

unfoldable pub bf16_to_f32 : ℕ → ℕ
bf16_to_f32 bits = bits <<< 16

-- `truncated`, or one more when `remainder` is above `half`, or at `half` over an odd number.
pub round_even : ℕ → ℕ → ℕ → ℕ
round_even truncated remainder half =
    if ltb half remainder || remainder == half && bit_and truncated 1 == 1
    then truncated + 1
    else truncated

-- An exponent of ones: infinity, or a NaN whose payload stays different from zero.
pub f16_special : ℕ → ℕ → ℕ
f16_special sign mantissa =
    if mantissa == 0
    then bit_or sign 0x7C00
    else let payload = u16 (mantissa >>> 13) in
      let payload' = if payload == 0 then 1 else payload in bit_or (bit_or sign 0x7C00) payload'

-- `exp_f32 == 0` marks a subnormal f32; any other has a leading one.
pub f32_significand : ℕ → ℕ → ℕ
f32_significand exp mantissa = if exp == 0 then mantissa else bit_or mantissa 0x0080_0000

-- `significand >> shift`, rounded to nearest with ties to even.
pub round_shift : ℕ → ℕ → ℕ
unfolding round_even
round_shift significand shift =
    let half = 1 <<< (shift - 1) in
    let mask = (1 <<< shift) - 1 in
    let truncated = significand >>> shift in
    let remainder = bit_and significand mask in round_even truncated remainder half

-- `unbiased < -14`: the result is subnormal or zero. `-(unbiased + 1)` is `126 - exp`.
pub f16_subnormal : ℕ → ℕ → ℕ → ℕ
f16_subnormal sign exp mantissa =
    let significand = f32_significand exp mantissa in
    let shift = 126 - exp in
    if significand == 0
    then sign
    else if leb 32 shift
    then sign
    else bit_or sign (u16 (round_shift significand shift))

-- `-14 <= unbiased <= 15`. `unbiased + 15` is `exp + 15 - 127`.
pub f16_normal : ℕ → ℕ → ℕ → ℕ
f16_normal sign exp mantissa =
    let mantissa10 = round_shift mantissa 13 in
    let exp16 = exp + 15 - 127 in
    if mantissa10 == 0x400
    then (let new_exp = exp16 + 1 in
        if leb 0x1F new_exp then bit_or sign 0x7C00 else bit_or sign (u16 (u16 new_exp <<< 10)))
    else bit_or (bit_or sign (u16 (u16 exp16 <<< 10))) (u16 mantissa10)

unfoldable pub f32_to_f16 : ℕ → ℕ
unfolding f16_special f16_subnormal f16_normal f32_significand round_shift
f32_to_f16 bits =
    let sign = u16 (bit_and (bits >>> 16) 0x8000) in
    let mantissa = bit_and bits 0x007F_FFFF in
    let exp = bit_and (bits >>> 23) 0xFF in
    if exp == 0xFF
    then f16_special sign mantissa
    else if ltb (15 + 127) exp
    then bit_or sign 0x7C00
    else if ltb exp (127 - 14)
    then f16_subnormal sign exp mantissa
    else f16_normal sign exp mantissa

unfoldable pub f32_to_bf16 : ℕ → ℕ
f32_to_bf16 bits =
    if is_nan bits
    then (let sign = u16 (bit_and (bits >>> 16) 0x8000) in
        let mantissa7 = bit_and (u16 (bits >>> 16)) 0x7F in
        let mantissa7' = if mantissa7 == 0 then 0x40 else mantissa7 in
        bit_or (bit_or sign 0x7F80) mantissa7')
    else let rounding_bias = 0x0000_7FFF + bit_and (bits >>> 16) 1 in
      let rounded = u32 (bits + rounding_bias) in u16 (rounded >>> 16)
