-- ===== src/Executor/Observations/Laws.antt =====
-- What the observation log promises (`src/executor.rs`).
use magnetar_provider_cuda.Base.{
  ◌<◌, ℕ, ◌+◌, ◌-◌, ◌*◌, ◌≤◌, ◌≡◌, refl, sym, ◌∙◌, subst, ap, arith, leb, leb→le, if◌then◌else◌,
  List, [], ◌∷◌, ◌++◌, length, drop, length-append, length-drop, drop-append, drop-drop, Bool-cases,
  ◌⊎◌, inl, inr,
}
use mathlib.Core.List.{append-nil, append_assoc}
use magnetar_provider_cuda.Executor.State.{Executor, KernelObservation}
use magnetar_provider_cuda.Executor.Observations.{
  observe, observations, kernel_observation_log_capacity,
}

-- The last `n` entries.
abbrev pub latest : {A : Type 0} → ℕ → List A → List A
latest n xs = drop (length xs - n) xs

latest-drop :
    {A : Type 0} (n d : ℕ) (xs : List A) → n + d ≤ length xs → latest n (drop d xs) ≡ latest n xs
latest-drop n d xs h =
    drop-drop (length (drop d xs) - n) d xs
    ∙ ap (λ (k : ℕ). drop k xs) (omega (arith, length-drop d xs))

-- What is left of a history after its `d` first entries were dropped, never fewer than `n` entries
-- once any is dropped, and never more than twice as many.
abbrev pub IsLogOf : {A : Type 0} → ℕ → List A → List A → Type 0
IsLogOf n history log =
    (d : ℕ) × (log ≡ drop d history) × ((d ≡ 0) ⊎ (d + n ≤ length history)) × (length log ≤ 2 * n)

append-IsLogOf :
    {A : Type 0} (n d : ℕ) (history log : List A) (x : A)
    → log ≡ drop d history
    → (d ≡ 0) ⊎ (d + n ≤ length history)
    → length log < 2 * n
    → IsLogOf n (history ++ x ∷ []) (log ++ x ∷ [])
append-IsLogOf n d history log x e (inl zero_d) bounded = (
  d,
  (ap (λ l. l ++ x ∷ []) e ∙ sym (drop-append d history (x ∷ []) (omega (arith, zero_d)))),
  inl zero_d,
  omega (arith, length-append log (x ∷ []), bounded),
)
append-IsLogOf n d history log x e (inr le) bounded = (
  d,
  (ap (λ l. l ++ x ∷ []) e ∙ sym (drop-append d history (x ∷ []) (omega arith))),
  inr (omega (arith, length-append history (x ∷ []))),
  omega (arith, length-append log (x ∷ []), bounded),
)

-- Dropping the `n` oldest entries of a full log.
halve-IsLogOf :
    {A : Type 0} (n d : ℕ) (history log : List A)
    → log ≡ drop d history
    → 0 < n
    → length log ≡ 2 * n
    → (drop n log ≡ drop (d + n) history)
      × (d + n + n ≤ length history)
      × (length (drop n log) < 2 * n)
halve-IsLogOf n d history log e pos full =
    let e1 : length log ≡ length history - d = ap length e ∙ length-drop d history in
    (ap (drop n) e ∙ drop-drop n d history, omega arith, omega (arith, length-drop n log))

push-IsLogOf :
    {A : Type 0} (n : ℕ) (history log : List A) (x : A)
    → 0 < n
    → IsLogOf n history log
    → IsLogOf n
        (history ++ x ∷ [])
        ((if leb (2 * n) (length log) then drop n log else log) ++ x ∷ [])
push-IsLogOf n history log x pos (d, e, dropped, bounded) =
    elim (Bool-cases (leb (2 * n) (length log))) [
      | inl full ↦
          let (e', le, small) =
            halve-IsLogOf n d history log e pos (omega (arith, leb→le (2 * n) (length log) full)) in
          rw full (append-IsLogOf n (d + n) history (drop n log) x e' (inr le) small)
      | inr free ↦
          let small : length log < 2 * n = ground arith in
          rw free (append-IsLogOf n d history log x e dropped small)
    ]

latest-IsLogOf :
    {A : Type 0} (n : ℕ) (history log : List A)
    → IsLogOf n history log
    → latest n log ≡ latest n history
latest-IsLogOf n history log (d, e, inl zero_d, _) =
    ap (latest n) (e ∙ ap (λ (k : ℕ). drop k history) zero_d)
latest-IsLogOf n history log (d, e, inr le, _) =
    ap (latest n) e ∙ latest-drop n d history (omega arith)

module _ {Dev : Type 0} where
  -- The events in their order.
  abbrev pub observe_all : List KernelObservation → Executor Dev → Executor Dev
  observe_all [] e = e
  observe_all (o ∷ os) e = observe_all os (observe o e)

  observe_all-IsLogOf :
      (history os : List KernelObservation) (e : Executor Dev)
      → IsLogOf kernel_observation_log_capacity history e.observations
      → IsLogOf kernel_observation_log_capacity (history ++ os) (observe_all os e).observations
  unfolding observe
  observe_all-IsLogOf history [] e log =
      subst (λ h. IsLogOf kernel_observation_log_capacity h e.observations)
        (sym (append-nil history)) log
  observe_all-IsLogOf history (o ∷ os) e log =
      subst (λ h. IsLogOf kernel_observation_log_capacity h (observe_all (o ∷ os) e).observations)
        (append_assoc history (o ∷ []) os)
        (observe_all-IsLogOf (history ++ o ∷ []) os (observe o e)
          (push-IsLogOf kernel_observation_log_capacity history e.observations o (omega arith) log))

  -- The log shows exactly the latest 4096 of all observations since the executor was made, oldest
  -- first, and never stores more than 8192.
  pub observations-observe_all :
      (os : List KernelObservation) (e : Executor Dev)
      → e.observations ≡ []
      → (observations (observe_all os e) ≡ latest kernel_observation_log_capacity os)
        × (length (observe_all os e).observations ≤ 2 * kernel_observation_log_capacity)
  unfolding observations
  observations-observe_all os e empty =
      let log = observe_all-IsLogOf [] os e (0, empty, inl refl, rw empty (omega arith)) in
      (latest-IsLogOf kernel_observation_log_capacity os (observe_all os e).observations log, log.3)
