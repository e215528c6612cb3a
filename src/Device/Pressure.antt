-- ===== src/Device/Pressure.antt =====
-- The pressure estimate of a device (`pressure_from_free_ratio` of `src/device.rs`).
use magnetar_provider_cuda.Base.{ℕ, ◌*◌, ◌^◌, ◌↔◌, ◌≤◌, ◌<◌, ltb, ◌≡◌, arith, Bool, if◌then◌else◌}

pub data ProviderPressureLevel : Type 0 where
  low moderate high saturated unknown : ProviderPressureLevel

-- The operations on `f64` that the estimate uses, and its three literals.
pub record Float64 (F : Type 0) : Type 0 where
  pub of_usize : ℕ → F
  pub div : F → F → F
  pub gt : F → F → Bool
  pub half : F
  pub fifth : F
  pub twentieth : F

module _ {F : Type 0} (float : Float64 F) where
  unfoldable pub pressure_from_free_ratio : ℕ → ℕ → ProviderPressureLevel
  pressure_from_free_ratio free total =
      let free_ratio = float.div (float.of_usize free) (float.of_usize total) in
      if float.gt free_ratio float.half
      then low
      else if float.gt free_ratio float.fifth
      then moderate
      else if float.gt free_ratio float.twentieth
      then high
      else saturated

-- What IEEE 754 says of them. A quotient and a decimal literal are both the nearest `f64` of a
-- rational, so each literal is the quotient of its fraction; and the quotients of integers below
-- 2^47, one with a denominator of at most 32, have the order of the rationals: where these differ,
-- they differ by more than the spacing of `f64` there.
pub record IsRounded {F : Type 0} (float : Float64 F) : Type 0 where
  pub half_literal : float.half ≡ float.div (float.of_usize 1) (float.of_usize 2)
  pub fifth_literal : float.fifth ≡ float.div (float.of_usize 1) (float.of_usize 5)
  pub twentieth_literal : float.twentieth ≡ float.div (float.of_usize 1) (float.of_usize 20)
  pub gt-div :
      (m n a b : ℕ)
      → m < 2 ^ 47
      → 0 < n
      → n < 2 ^ 47
      → a ≤ b
      → 0 < b
      → b ≤ 32
      → float.gt
          (float.div (float.of_usize m) (float.of_usize n))
          (float.div (float.of_usize a) (float.of_usize b))
        ≡ ltb (a * n) (m * b)

module _ {F : Type 0} (float : Float64 F) (rounded : IsRounded float) where
  -- On a device of less than 2^47 bytes the level is decided exactly, also at the bounds, where the
  -- code compares rounded numbers: low above a half free, moderate above a fifth and up to a half,
  -- high above a twentieth and up to a fifth, saturated up to a twentieth.
  pub pressure_from_free_ratio-bands :
      (free total : ℕ)
      → 0 < total
      → free ≤ total
      → total < 2 ^ 47
      → let level = pressure_from_free_ratio float free total in
        ((level ≡ low) ↔ (total < free * 2))
        × ((level ≡ moderate) ↔ ((free * 2 ≤ total) × (total < free * 5)))
        × ((level ≡ high) ↔ ((free * 5 ≤ total) × (total < free * 20)))
        × ((level ≡ saturated) ↔ (free * 20 ≤ total))
  unfolding pressure_from_free_ratio
  pressure_from_free_ratio-bands free total positive le small =
      let at_half =
        rounded.gt-div free total 1 2 (omega arith) positive small (omega arith) (omega arith)
          (omega arith) in
      let at_fifth =
        rounded.gt-div free total 1 5 (omega arith) positive small (omega arith) (omega arith)
          (omega arith) in
      let at_twentieth =
        rounded.gt-div free total 1 20 (omega arith) positive small (omega arith) (omega arith)
          (omega arith) in
      rw
        (
          rounded.half_literal, rounded.fifth_literal, rounded.twentieth_literal, at_half, at_fifth,
          at_twentieth,
        )
        (
          (λ h. ground arith, λ h. ground arith),
          (λ h. ground arith, λ h. ground arith),
          (λ h. ground arith, λ h. ground arith),
          (λ h. ground arith, λ h. ground arith),
        )
