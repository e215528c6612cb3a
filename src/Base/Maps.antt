-- ===== src/Base/Maps.antt =====
-- A `BTreeMap` as an association list: the calls that the code makes of it, and their laws.
use mathlib.Core.Path.{◌≡◌, refl, sym, ◌∙◌, subst}
use mathlib.Core.Logic.{◌≢◌, inl, inr}
use mathlib.Core.Bool.{Bool, true, true≢false}
use mathlib.Core.List.{List, [], ◌∷◌}
use mathlib.Core.Option.{Option, none, some}
use native.Mathlib.Omega.{arith}
use magnetar_provider_cuda.Base.Tests.{if◌then◌else◌, is_some, Bool-cases}
use magnetar_provider_cuda.Base.Eq.{Eq}

abbrev pub Map : Type 0 → Type 0 → Type 0
Map K V = List (K × V)

pub beq_refl : {K : Type 0} ⦃e : Eq K⦄ (k : K) → e.beq k k ≡ true
beq_refl ⦃e⦄ k = (e.beq_iff k k).1 refl

module _ {K V : Type 0} ⦃e : Eq K⦄ where
  abbrev pub lookup : K → Map K V → Option V
  lookup k [] = none
  lookup k ((j, v) ∷ m) = if e.beq j k then some v else lookup k m

  abbrev pub contains_key : K → Map K V → Bool
  contains_key k m = is_some (lookup k m)

  abbrev pub insert : K → V → Map K V → Map K V
  insert k v [] = (k, v) ∷ []
  insert k v ((j, w) ∷ m) = if e.beq j k then (k, v) ∷ m else (j, w) ∷ insert k v m

  abbrev pub remove : K → Map K V → Map K V
  remove k [] = []
  remove k ((j, w) ∷ m) = if e.beq j k then remove k m else (j, w) ∷ remove k m

  pub lookup-insert_self : (k : K) (v : V) (m : Map K V) → lookup k (insert k v m) ≡ some v
  lookup-insert_self k v [] = ground (arith, beq_refl k)
  lookup-insert_self k v ((j, w) ∷ m) = ground (arith, beq_refl k, lookup-insert_self k v m)

  pub lookup-insert_ne :
      (k j : K) (v : V) (m : Map K V) → k ≢ j → lookup j (insert k v m) ≡ lookup j m
  lookup-insert_ne k j v [] ne = ground (arith, e.beq_iff k j)
  lookup-insert_ne k j v ((i, w) ∷ m) ne =
      ground (arith, e.beq_iff k j, e.beq_iff i k, e.beq_iff i j, lookup-insert_ne k j v m ne)

  pub lookup-remove_self : (k : K) (m : Map K V) → lookup k (remove k m) ≡ none
  lookup-remove_self k [] = refl
  lookup-remove_self k ((j, w) ∷ m) = ground (arith, lookup-remove_self k m)

  pub lookup-remove_ne : (k j : K) (m : Map K V) → k ≢ j → lookup j (remove k m) ≡ lookup j m
  lookup-remove_ne k j [] ne = refl
  lookup-remove_ne k j ((i, w) ∷ m) ne =
      ground (arith, e.beq_iff i k, e.beq_iff i j, lookup-remove_ne k j m ne)

  pub lookup-insert :
      (k j : K) (v : V) (m : Map K V)
      → lookup j (insert k v m) ≡ (if e.beq k j then some v else lookup j m)
  lookup-insert k j v m = elim (Bool-cases (e.beq k j)) [
    | inl same ↦
        let k≡j = (e.beq_iff k j).0 same in
        rw same (subst (λ i. lookup i (insert k v m) ≡ some v) k≡j (lookup-insert_self k v m))
    | inr other ↦
        rw other
          (lookup-insert_ne k j v m (λ k≡j. true≢false (sym ((e.beq_iff k j).1 k≡j) ∙ other)))
  ]

  pub lookup-remove :
      (k j : K) (m : Map K V) → lookup j (remove k m) ≡ (if e.beq k j then none else lookup j m)
  lookup-remove k j m = elim (Bool-cases (e.beq k j)) [
    | inl same ↦
        let k≡j = (e.beq_iff k j).0 same in
        rw same (subst (λ i. lookup i (remove k m) ≡ none) k≡j (lookup-remove_self k m))
    | inr other ↦
        rw other (lookup-remove_ne k j m (λ k≡j. true≢false (sym ((e.beq_iff k j).1 k≡j) ∙ other)))
  ]
