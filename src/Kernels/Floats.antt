-- ===== src/Kernels/Floats.antt =====
-- The tests on `f32` arguments that `src/kernels.rs` makes, on the bit pattern.
use magnetar_provider_cuda.Base.{
  ℕ, Bool, ◌&&◌, ◌||◌, not, ◌-◌, ◌*◌, ◌+◌, ◌^◌, ◌/◌, ◌%◌, min, ltb, leb, ◌==◌, Option, some, none,
  if◌then◌else◌,
}
use magnetar_provider_cuda.Half.{is_nan}

-- `x <= 0.0`: negative, or a zero of either sign; never a NaN.
abbrev pub le_zero : ℕ → Bool
le_zero x = not (is_nan x) && (leb (2 ^ 31) x || x == 0)

-- `x.is_finite()`
abbrev pub is_finite : ℕ → Bool
is_finite x = not (x / 2 ^ 23 % 256 == 255)

-- The number that a pattern is when it is a whole number that is not negative, as `as u64` gives it,
-- which is the largest `u64` from there on (and for infinity).
unfoldable pub integer_value : ℕ → Option ℕ
integer_value bits =
    let magnitude = bits % 2 ^ 31 in
    let exponent = magnitude / 2 ^ 23 in
    let mantissa = magnitude % 2 ^ 23 in
    let significand = 2 ^ 23 + mantissa in
    if magnitude == 0
    then some 0
    else if leb (2 ^ 31) bits
    then none
    else if exponent == 255
    then (if mantissa == 0 then some (2 ^ 64 - 1) else none)
    else if ltb exponent 127
    then none
    else if leb 150 exponent
    then some (min (significand * 2 ^ (exponent - 150)) (2 ^ 64 - 1))
    else if significand % 2 ^ (150 - exponent) == 0
    then some (significand / 2 ^ (150 - exponent))
    else none
