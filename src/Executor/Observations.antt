-- ===== src/Executor/Observations.antt =====
-- The bounded observation log of `src/executor.rs`.
pub mod Laws
use magnetar_provider_cuda.Base.{
  ℕ, zero, suc, ◌+◌, ◌-◌, ◌*◌, ◌≤◌, ◌<◌, ◌≡◌, refl, sym, ◌∙◌, ap, arith, leb, if◌then◌else◌, List,
  [], ◌∷◌, ◌++◌, length, drop, length-append, length-drop, drop-append, drop-drop, Bool-cases, inl,
  inr,
}
use magnetar_provider_cuda.Executor.State.{Executor, KernelObservation}

abbrev pub kernel_observation_log_capacity : ℕ
kernel_observation_log_capacity = 4096

module _ {Dev : Type 0} where
  -- At twice the capacity the oldest half is dropped first.
  unfoldable pub observe : KernelObservation → Executor Dev → Executor Dev
  observe o e =
      let kept =
        if leb (2 * kernel_observation_log_capacity) (length e.observations)
        then drop kernel_observation_log_capacity e.observations
        else e.observations in
      record e { observations = kept ++ o ∷ [] }

  unfoldable pub observations : Executor Dev → List KernelObservation
  observations e = drop (length e.observations - kernel_observation_log_capacity) e.observations
