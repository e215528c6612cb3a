-- ===== src/Half/Rounding.antt =====
-- Encoding to half precision (`src/half_precision.rs`) rounds to the nearest pattern, ties to even.
use magnetar_provider_cuda.Base.{
  by_cases, ℕ, suc, ◌+◌, ◌-◌, ◌*◌, ◌/◌, ◌%◌, ◌^◌, ◌<◌, ◌≤◌, ◌≡◌, refl, sym, ◌∙◌, ap, subst, arith,
  true, false, ◌==◌, leb, Bool-cases, inl, inr, ◌⊎◌,
}
use native.Mathlib.Nat.{
  div-add-mod', mod-lt, pow-succ', pow-le-pow_right, one-le-pow, mul-le-mul_right,
}
use magnetar_provider_cuda.Base.Bits.{or_fields, or_fields_flip, and_mask, ◌>>>◌}
use magnetar_provider_cuda.Half.{
  f32_significand, round_shift, round_even, f16_special, f16_subnormal, f16_normal, f32_to_f16,
  f32_to_bf16, is_nan,
}
use magnetar_provider_cuda.Half.Fields.{f16_of_fields, f32_to_f16_fields}

-- `r` is a nearest number to `x / (2 * half)`, and the even one of two that are equally near.
abbrev pub IsNearestEven : ℕ → ℕ → ℕ → Type 0
IsNearestEven r x half =
    (x ≤ r * (2 * half) + half)
    × (r * (2 * half) ≤ x + half)
    × ((x ≡ r * (2 * half) + half) → r % 2 ≡ 0)
    × ((r * (2 * half) ≡ x + half) → r % 2 ≡ 0)

round_even-cases :
    (t rem half : ℕ)
    → ((round_even t rem half ≡ t + 1) × (half ≤ rem) × (rem ≡ half → t % 2 ≡ 1))
      ⊎ ((round_even t rem half ≡ t) × (rem ≤ half) × (rem ≡ half → t % 2 ≡ 0))
unfolding round_even
round_even-cases t rem half = ground (arith, and_mask 1 t)

round_even-IsNearestEven :
    (t rem half : ℕ)
    → 0 < half
    → rem < 2 * half
    → IsNearestEven (round_even t rem half) (t * (2 * half) + rem) half
round_even-IsNearestEven t rem half pos h = elim (round_even-cases t rem half) [
  | inl (e, ge, tie) ↦
      rw e
        (omega arith, omega arith, λ q. absurd (omega arith), λ q. omega (arith, tie (omega arith)))
  | inr (e, le, tie) ↦
      rw e (omega arith, omega arith, λ q. tie (omega arith), λ q. absurd (omega arith))
]

round_shift-suc :
    (x k : ℕ) → round_shift x (suc k) ≡ round_even (x / 2 ^ suc k) (x % 2 ^ suc k) (2 ^ k)
unfolding round_shift
round_shift-suc x k =
    let less : suc k - 1 ≡ k = omega arith in
    let half : 1 * 2 ^ k ≡ 2 ^ k = omega arith in
    let whole : 1 * 2 ^ suc k ≡ 2 ^ suc k = omega arith in
    rw (less, half, whole, and_mask (suc k) x)

-- A shift by `k + 1` bits drops `2 * 2 ^ k`.
pub round_shift-IsNearestEven : (x k : ℕ) → IsNearestEven (round_shift x (suc k)) x (2 ^ k)
round_shift-IsNearestEven x k =
    let width : 2 ^ suc k ≡ 2 * 2 ^ k = pow-succ' 2 k in
    let t = x / 2 ^ suc k in
    let rem = x % 2 ^ suc k in
    let whole : x ≡ t * (2 * 2 ^ k) + rem =
      sym (div-add-mod' x (2 ^ suc k)) ∙ ap (λ (w : ℕ). t * w + rem) width in
    let pos : 0 < 2 ^ k = one-le-pow k 2 (omega arith) in
    let near : IsNearestEven (round_even t rem (2 ^ k)) (t * (2 * 2 ^ k) + rem) (2 ^ k) =
      round_even-IsNearestEven t rem (2 ^ k) pos
        (rw (← width) (mod-lt x (one-le-pow (suc k) 2 (omega arith)))) in
    rw (round_shift-suc x k)
      (subst (λ (y : ℕ). IsNearestEven (round_even t rem (2 ^ k)) y (2 ^ k)) (sym whole) near)

-- A number that is not NaN becomes the nearest bfloat16 pattern, ties to even.
pub f32_to_bf16-IsNearestEven :
    (bits : ℕ)
    → bits < 2 ^ 32
    → is_nan bits ≡ false
    → IsNearestEven (f32_to_bf16 bits) bits (2 ^ 15)
unfolding f32_to_bf16
f32_to_bf16-IsNearestEven bits h n = ground (arith, and_mask 1 (bits >>> 16))

significand-lt : (e m : ℕ) → m < 2 ^ 23 → f32_significand e m < 2 ^ 24
unfolding f32_significand
significand-lt e m h = ground (arith, or_fields_flip 23 1 m)

-- The rounded quotient of a significand by 2 ^ 14 or more fits the eleven low bits.
nearest-le : (r x half : ℕ) → x < 2 ^ 24 → 2 ^ 13 ≤ half → IsNearestEven r x half → r ≤ 1024
nearest-le r x half hx hh near = elim (Bool-cases (leb r 1024)) [
  | inl le ↦ ground arith
  | inr gt ↦
      let large : 1025 * (2 * half) ≤ r * (2 * half) = mul-le-mul_right (2 * half) (ground arith) in
      absurd (omega (arith, near.1))
]

zero-IsNearestEven : (x half : ℕ) → 0 < half → x ≤ half → IsNearestEven 0 x half
zero-IsNearestEven x half pos le = (omega arith, omega arith, λ q. refl, λ q. refl)

far_half : (e : ℕ) → 32 ≤ 126 - e → 2 ^ 31 ≤ 2 ^ (125 - e)
far_half e h = pow-le-pow_right (omega arith) {i = 31} {j = 125 - e} (omega arith)

close_half : (e : ℕ) → e < 113 → 2 ^ 13 ≤ 2 ^ (125 - e)
close_half e h = pow-le-pow_right (omega arith) {i = 13} {j = 125 - e} (omega arith)

subnormal_fields : (s e m : ℕ) → e < 113 → f16_of_fields s e m ≡ f16_subnormal (s * 2 ^ 15) e m
subnormal_fields s e m h = ground arith

-- Below the normal range of binary16: the sign, and the significand in units of the smallest
-- positive binary16 value, rounded to nearest with ties to even.
pub f32_to_f16-subnormal :
    (s e m : ℕ)
    → s < 2
    → e < 113
    → m < 2 ^ 23
    → (r : ℕ) × (f32_to_f16 (s * 2 ^ 31 + e * 2 ^ 23 + m) ≡ s * 2 ^ 15 + r)
      × (r ≤ 2 ^ 10)
      × IsNearestEven r (f32_significand e m) (2 ^ (125 - e))
f32_to_f16-subnormal s e m hs he hm =
    let x = f32_significand e m in
    let half = 2 ^ (125 - e) in
    let pos : 0 < half = one-le-pow (125 - e) 2 (omega arith) in
    let fits = significand-lt e m hm in
    let fields = f32_to_f16_fields s e m hs (omega arith) hm ∙ subnormal_fields s e m he in
    elim (Bool-cases (x == 0)) [
      | inl z ↦ (
        0,
        fields ∙ (unfold f16_subnormal in rw z (omega arith)),
        omega arith,
        zero-IsNearestEven x half pos (ground arith),
      )
      | inr nz ↦ elim (Bool-cases (leb 32 (126 - e))) [
        | inl far ↦ (
          0,
          fields ∙ (unfold f16_subnormal in rw (nz, far) (omega arith)),
          omega arith,
          zero-IsNearestEven x half pos (omega (arith, fits, far_half e (ground arith))),
        )
        | inr close ↦
            let shift : suc (125 - e) ≡ 126 - e = omega arith in
            let near : IsNearestEven (round_shift x (126 - e)) x half =
              rw (← shift) (round_shift-IsNearestEven x (125 - e)) in
            let small : round_shift x (126 - e) ≤ 1024 =
              nearest-le (round_shift x (126 - e)) x half fits (close_half e he) near in
            (
              round_shift x (126 - e),
              fields
                  ∙ (unfold f16_subnormal in
                      rw (nz, close) (ground (arith, or_fields 15 s (round_shift x (126 - e))))),
              small,
              near,
            )
      ]
    ]

f16_normal_fields :
    (s e m : ℕ)
    → s < 2
    → 113 ≤ e
    → e ≤ 142
    → m < 2 ^ 23
    → f16_normal (s * 2 ^ 15) e m ≡ s * 2 ^ 15 + ((e - 112) * 2 ^ 10 + round_shift m 13)
unfolding f16_normal
f16_normal_fields s e m hs lo hi hm = ground (
  arith,
  round_shift-IsNearestEven m 12,
  or_fields 15 s 0x7C00,
  or_fields 15 s ((e - 111) * 2 ^ 10),
  or_fields 15 s ((e - 112) * 2 ^ 10),
  or_fields 10 (s * 32 + (e - 112)) (round_shift m 13),
)

-- In the normal range: exponent and mantissa together are rounded to nearest, ties to even, with
-- a carry into the exponent; what rounds past the largest finite value becomes infinity.
pub f32_to_f16-normal :
    (s e m : ℕ)
    → s < 2
    → 113 ≤ e
    → e ≤ 142
    → m < 2 ^ 23
    → (r : ℕ) × (f32_to_f16 (s * 2 ^ 31 + e * 2 ^ 23 + m) ≡ s * 2 ^ 15 + r)
      × (r ≤ 0x7C00)
      × IsNearestEven r ((e - 112) * 2 ^ 23 + m) (2 ^ 12)
f32_to_f16-normal s e m hs lo hi hm =
    let near = round_shift-IsNearestEven m 12 in
    (
      (e - 112) * 2 ^ 10 + round_shift m 13,
      f32_to_f16_fields s e m hs (omega arith) (omega arith) ∙ dispatch,
      ground (arith, near),
      (
        omega arith,
        omega arith,
        (λ q. omega (arith, near.2 (omega arith))),
        λ q. omega (arith, near.3 (omega arith)),
      ),
    )
  where
    dispatch : f16_of_fields s e m ≡ s * 2 ^ 15 + ((e - 112) * 2 ^ 10 + round_shift m 13)
    dispatch = ground (arith, f16_normal_fields s e m hs lo hi hm)

-- Above the normal range: an infinity and every larger finite value become infinity, and a NaN
-- stays a NaN of the same sign.
pub f32_to_f16-large :
    (s e m : ℕ)
    → s < 2
    → 142 < e
    → e < 256
    → m < 2 ^ 23
    → ((is_nan (s * 2 ^ 31 + e * 2 ^ 23 + m) ≡ true)
        × ((s * 2 ^ 15 + 0x7C00 < f32_to_f16 (s * 2 ^ 31 + e * 2 ^ 23 + m))
            × (f32_to_f16 (s * 2 ^ 31 + e * 2 ^ 23 + m) < s * 2 ^ 15 + 2 ^ 15)))
      ⊎ ((is_nan (s * 2 ^ 31 + e * 2 ^ 23 + m) ≡ false)
          × (f32_to_f16 (s * 2 ^ 31 + e * 2 ^ 23 + m) ≡ s * 2 ^ 15 + 0x7C00))
unfolding f16_special
f32_to_f16-large s e m hs lo hi hm =
    let fields = f32_to_f16_fields s e m hs hi hm in
    let infinity = or_fields 15 s 0x7C00 in
    let payload = or_fields 10 (s * 32 + 31) (m / 2 ^ 13) in
    let one = or_fields 10 (s * 32 + 31) 1 in
    by_cases (is_nan (s * 2 ^ 31 + e * 2 ^ 23 + m))
      (λ n. (
        ground (arith, fields, infinity, payload, one),
        ground (arith, fields, infinity, payload, one),
      ))
      (λ n. ground (arith, fields, infinity))
