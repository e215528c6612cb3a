-- ===== src/Base/Results.antt =====
-- Fallible calls on a state: Rust's `Result`, and methods that change `self` and may fail.
use mathlib.Core.Path.{◌≡◌, refl}
use mathlib.Core.Bool.{Bool, true, false}
use mathlib.Core.Option.{Option, none, some}
use mathlib.Core.Logic.{◌⊎◌, inl, inr}

abbrev pub ⊤ : Type 0
⊤ = Unit

pub data Result (E A : Type 0) : Type 0 where
  ok : A → Result E A
  err : E → Result E A

-- A call that may fail and may change the state `S`, in either case.
abbrev pub Action : Type 0 → Type 0 → Type 0 → Type 0
Action E S A = S → Result E A × S

abbrev pub pure : {E S A : Type 0} → A → Action E S A
pure a s = (ok a, s)

abbrev pub fail : {E S A : Type 0} → E → Action E S A
fail e s = (err e, s)

infixl 5 ◌>>=◌ ◌>>◌
abbrev pub ◌>>=◌ : {E S A B : Type 0} → Action E S A → (A → Action E S B) → Action E S B
◌>>=◌ m f s = let (r, s') = m s in elim r [ ok a ↦ f a s' | err e ↦ (err e, s') ]

abbrev pub ◌>>◌ : {E S A B : Type 0} → Action E S A → Action E S B → Action E S B
m >> k = m >>= λ _. k

-- `if c { return Err(e) }`
abbrev pub fail_if : {E S : Type 0} → Bool → E → Action E S ⊤
fail_if true e s = (err e, s)
fail_if false e s = (ok tt, s)

abbrev pub gets : {E S A : Type 0} → (S → A) → Action E S A
gets f s = (ok (f s), s)

abbrev pub modify : {E S : Type 0} → (S → S) → Action E S ⊤
modify f s = (ok tt, f s)

abbrev pub ok_or : {E S A : Type 0} → Option A → E → Action E S A
ok_or none e = fail e
ok_or (some a) e = pure a

-- `Result::ok`
abbrev pub to_option : {E A : Type 0} → Result E A → Option A
to_option (ok a) = some a
to_option (err _) = none

abbrev pub is_ok : {E A : Type 0} → Result E A → Bool
is_ok (ok _) = true
is_ok (err _) = false

-- A `Result` that was kept, followed by `?`.
abbrev pub lift : {E S A : Type 0} → Result E A → Action E S A
lift (ok a) = pure a
lift (err e) = fail e

-- `Result::map_err`
abbrev pub map_err : {E F S A : Type 0} → (E → F) → Action E S A → Action F S A
map_err f m s = let (r, s') = m s in elim r [ ok a ↦ (ok a, s') | err e ↦ (err (f e), s') ]

pub Result-cases :
    {E A : Type 0} (r : Result E A) → ((a : A) × (r ≡ ok a)) ⊎ ((e : E) × (r ≡ err e))
Result-cases (ok a) = inl (a, refl)
Result-cases (err e) = inr (e, refl)
