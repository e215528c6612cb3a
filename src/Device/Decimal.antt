-- ===== src/Device/Decimal.antt =====
-- A number in a `format!` (`src/device.rs`): its decimal digits, and that they are read back.
use Prim.Native.Char.{Char, char, code}
use Prim.Native.String.{String}
use native.Mathlib.Nat.{pow-succ'}
use magnetar_provider_cuda.Base.{
  ℕ, zero, suc, ◌+◌, ◌-◌, ◌*◌, ◌/◌, ◌%◌, ◌^◌, ◌<◌, ◌≡◌, refl, arith, ltb, if◌then◌else◌, Bool-cases,
  inl, inr, ◌∙◌, ap, false,
}

digit : ℕ → Char
digit zero = char 48 tt
digit (suc zero) = char 49 tt
digit (suc (suc zero)) = char 50 tt
digit (suc (suc (suc zero))) = char 51 tt
digit (suc (suc (suc (suc zero)))) = char 52 tt
digit (suc (suc (suc (suc (suc zero))))) = char 53 tt
digit (suc (suc (suc (suc (suc (suc zero)))))) = char 54 tt
digit (suc (suc (suc (suc (suc (suc (suc zero))))))) = char 55 tt
digit (suc (suc (suc (suc (suc (suc (suc (suc zero)))))))) = char 56 tt
digit _ = char 57 tt

-- The digits in front of a text; a `usize` has at most 20.
digits : ℕ → ℕ → String → String
digits zero n rest = rest
digits (suc fuel) n rest =
    let more = digits fuel (n / 10) (String.◌∷◌ (digit (n % 10)) rest) in
    if ltb n 10 then String.◌∷◌ (digit n) rest else more

unfoldable pub show : ℕ → String
unfolding digits digit
show n = digits 20 n String.[]

-- The number that a text of digits stands for, after those of `n`.
pub parse : ℕ → String → ℕ
parse n String.[] = n
parse n (String.◌∷◌ c s) = parse (n * 10 + (code c - 48)) s

digit-code : (d : ℕ) → d < 10 → code (digit d) - 48 ≡ d
unfolding digit
digit-code zero h = refl
digit-code (suc zero) h = refl
digit-code (suc (suc zero)) h = refl
digit-code (suc (suc (suc zero))) h = refl
digit-code (suc (suc (suc (suc zero)))) h = refl
digit-code (suc (suc (suc (suc (suc zero))))) h = refl
digit-code (suc (suc (suc (suc (suc (suc zero)))))) h = refl
digit-code (suc (suc (suc (suc (suc (suc (suc zero))))))) h = refl
digit-code (suc (suc (suc (suc (suc (suc (suc (suc zero)))))))) h = refl
digit-code (suc (suc (suc (suc (suc (suc (suc (suc (suc zero))))))))) h = refl
digit-code (suc (suc (suc (suc (suc (suc (suc (suc (suc (suc d)))))))))) h = absurd (omega arith)

fuel_pos : (fuel n : ℕ) → n < 10 ^ suc fuel → ltb n 10 ≡ false → 0 < fuel
fuel_pos zero n h more = absurd (ground arith)
fuel_pos (suc fuel) n h more = omega arith

parse-digits :
    (fuel n : ℕ) (rest : String)
    → n < 10 ^ fuel
    → 0 < fuel
    → parse 0 (digits fuel n rest) ≡ parse n rest
unfolding digits parse
parse-digits zero n rest h p = absurd (omega arith)
parse-digits (suc fuel) n rest h p = elim (Bool-cases (ltb n 10)) [
  | inl one ↦ rw one (ap (λ m. parse m rest) (omega (arith, digit-code n (ground arith))))
  | inr more ↦ rw more (
      parse-digits fuel (n / 10) (String.◌∷◌ (digit (n % 10)) rest)
        (omega (arith, pow-succ' 10 fuel)) (fuel_pos fuel n h more)
      ∙ ap (λ m. parse m rest) (omega (arith, digit-code (n % 10) (omega arith))))
]

-- What is shown is read back, for every `usize`.
pub parse-show : (n : ℕ) → n < 2 ^ 64 → parse 0 (show n) ≡ n
unfolding show parse
parse-show n h = parse-digits 20 n String.[] (omega arith) (omega arith)
