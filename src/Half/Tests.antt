-- ===== src/Half/Tests.antt =====
-- Tests of `src/half_precision.rs`.
use magnetar_provider_cuda.Base.{ℕ, ◌+◌, ◌-◌, ◌*◌, ◌/◌, ◌^◌, ◌≤◌, ◌≡◌, refl, arith}
use magnetar_provider_cuda.Half.{normalize, f16_to_f32, f32_to_f16, f32_to_bf16, f32_significand}
use magnetar_provider_cuda.Half.RoundTrip.{f32_to_f16-f16_to_f32}
use magnetar_provider_cuda.Half.Termination.{normalize-ends}
use magnetar_provider_cuda.Half.Rounding.{
  IsNearestEven, f32_to_bf16-IsNearestEven, f32_to_f16-subnormal, f32_to_f16-normal,
}

one : f16_to_f32 0x3C00 ≡ 0x3F80_0000
unfolding f16_to_f32
one = refl

smallest : f16_to_f32 0x8001 ≡ 0xB380_0000
unfolding f16_to_f32
smallest = refl

smallest_back : f32_to_f16 0xB380_0000 ≡ 0x8001
unfolding f32_to_f16
smallest_back = refl

overflow : f32_to_f16 0x477F_F000 ≡ 0x7C00
unfolding f32_to_f16
overflow = refl

tie : f32_to_bf16 0x3F81_8000 ≡ 0x3F82
unfolding f32_to_bf16
tie = refl

f32_to_f16-f16_to_f32_example : f32_to_f16 (f16_to_f32 0x7C01) ≡ 0x7C01
f32_to_f16-f16_to_f32_example = f32_to_f16-f16_to_f32 0x7C01 (omega arith)

f32_to_bf16-IsNearestEven_example : IsNearestEven (f32_to_bf16 0x3F81_8000) 0x3F81_8000 (2 ^ 15)
f32_to_bf16-IsNearestEven_example = f32_to_bf16-IsNearestEven 0x3F81_8000 (omega arith) refl

-- A third of the smallest positive binary16 value.
f32_to_f16-subnormal_example :
    (r : ℕ) × (f32_to_f16 (1 * 2 ^ 31 + 101 * 2 ^ 23 + 2796203) ≡ 1 * 2 ^ 15 + r)
    × (r ≤ 2 ^ 10)
    × IsNearestEven r (f32_significand 101 2796203) (2 ^ (125 - 101))
f32_to_f16-subnormal_example =
    f32_to_f16-subnormal 1 101 2796203 (omega arith) (omega arith) (omega arith)

f32_to_f16-normal_example :
    (r : ℕ) × (f32_to_f16 (0 * 2 ^ 31 + 142 * 2 ^ 23 + 0x7FF000) ≡ 0 * 2 ^ 15 + r)
    × (r ≤ 0x7C00)
    × IsNearestEven r ((142 - 112) * 2 ^ 23 + 0x7FF000) (2 ^ 12)
f32_to_f16-normal_example =
    f32_to_f16-normal 0 142 0x7FF000 (omega arith) (omega arith) (omega arith) (omega arith)

normalize-ends_example : (normalize 10 3 0).0 / 2 ^ 10 ≡ 1
normalize-ends_example = normalize-ends 3 (omega arith) (omega arith)
