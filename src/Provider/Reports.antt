-- ===== src/Provider/Reports.antt =====
-- What a Provider reports to the Runtime (`src/provider.rs`): its health, devices and Kernels agree.
use magnetar_provider_cuda.Base.{
  ℕ, ◌≡◌, ◌↔◌, ◌≤◌, ◌<◌, ◌^◌, ◌≢◌, sym, ap, ◌∙◌, arith, String, true, false, Option, some, is_some,
  [], ◌∷◌, ok, err, Result-cases, Bool-cases, ◌⊎◌, inl, inr,
}
use magnetar_provider_cuda.Base.Eq.{string_eq}
use magnetar_provider_cuda.Kernels.State.{mem_string}
use magnetar_provider_cuda.Error.{DriverError}
use magnetar_provider_cuda.Driver.{Driver, Fault}
use magnetar_provider_cuda.Device.{DeviceMetadata, cuda_device_id}
use magnetar_provider_cuda.Device.Laws.{cuda_device_id-injective}
use magnetar_provider_cuda.Device.Pressure.{Float64}
use magnetar_provider_cuda.Executor.State.{Executor, new_executor, ℤ}
use magnetar_provider_cuda.Advertisements.{cuda_kernel_advertisements}
use magnetar_provider_cuda.Advertisements.Laws.{All, All-map, advertisements-IsBound}
use magnetar_provider_cuda.Provider.{
  CudaProvider, available, unavailable, count_of, discover_device,
  discover_device_catching_missing_library_panic, for_device, health, devices, execution_api,
  kernel_advertisements, is_available,
}
use magnetar_provider_cuda.Provider.Laws.{IsCoherent, discover_device-provider}

module _ {Ctx Dev : Type 0} (banded_feature : String) (default_rank : Option ℕ)
    (provider_name : String) (p : CudaProvider Ctx Dev)
    (coherent : IsCoherent provider_name p) where
  -- A Provider is available exactly when it can execute; and it is unavailable exactly when it has no
  -- context, lists no device, and advertises no Kernel.
  pub health-reports :
      ((health p ≡ available) ↔ (is_some (execution_api p) ≡ true))
      × ((health p ≡ unavailable) ↔ (is_available p ≡ false))
      × ((health p ≡ unavailable) ↔ (devices p ≡ []))
      × ((health p ≡ unavailable) ↔ (kernel_advertisements banded_feature default_rank p ≡ []))
  unfolding health devices execution_api kernel_advertisements cuda_kernel_advertisements
  health-reports = (
    ground (arith, coherent.executes_on_device),
    ground (arith, coherent.found_together),
    ground arith,
    ground arith,
  )

  -- Every Kernel is advertised for the one device, and under the one name, that the executor has.
  pub kernel_advertisements-executor :
      (e : Executor Dev)
      → p.executor ≡ some e
      → All
          (λ a. (a.id.provider ≡ e.provider_name) × (a.devices ≡ e.device_id ∷ []))
          (kernel_advertisements banded_feature default_rank p)
  unfolding kernel_advertisements new_executor
  kernel_advertisements-executor e has =
      let (d, kernels, is_d, new, _) = coherent.bound_executor e has in
      let under : e.provider_name ≡ p.metadata.name = ground (arith, coherent.named) in
      let on : e.device_id ≡ d.id = ground arith in
      rw (under, on, is_d)
        (All-map _ (λ a bound. (bound.0, bound.1))
          (advertisements-IsBound banded_feature default_rank d.id p.metadata.name))

mem_string-single : (s t : String) → s ≢ t → mem_string t (s ∷ []) ≡ false
mem_string-single s t other = elim (Bool-cases (string_eq.beq s t)) [
  | inl same ↦ absurd (other ((string_eq.beq_iff s t).0 same))
  | inr differ ↦ ground (arith, differ)
]

-- No advertisement of a Provider lists a device that is not its own.
kernel_advertisements-device :
    {Ctx Dev : Type 0} (banded_feature : String) (default_rank : Option ℕ)
    (p : CudaProvider Ctx Dev) (d : DeviceMetadata) (id : String)
    → p.device ≡ some d
    → d.id ≢ id
    → All
        (λ a. mem_string id a.devices ≡ false)
        (kernel_advertisements banded_feature default_rank p)
unfolding kernel_advertisements
kernel_advertisements-device banded_feature default_rank p d id has other =
    let bound =
      All-map {Q = λ a. mem_string id a.devices ≡ false} _
        (λ a bound. ap (mem_string id) bound.1 ∙ mem_string-single d.id id other)
        (advertisements-IsBound banded_feature default_rank d.id p.metadata.name) in
    rw has bound

module _ {F Sys Ctx Ptx Module Dev : Type 0} (float : Float64 F)
    (driver : Driver Sys Ctx Ptx Module Dev) where
  -- Without a driver, or without a device at the ordinal, the Provider is unavailable, and no context
  -- was made.
  pub for_device-unavailable :
      (ordinal : ℕ) (provider_name : String) (s : Sys)
      → ((fault : Fault DriverError) × ((driver.device_count s).0 ≡ err fault))
        ⊎ ((n : ℤ) × ((driver.device_count s).0 ≡ ok n) × (count_of n ≤ ordinal))
      → (health (for_device float driver ordinal provider_name s).0 ≡ unavailable)
        × ((for_device float driver ordinal provider_name s).1 ≡ (driver.device_count s).1)
  unfolding for_device health discover_device_catching_missing_library_panic discover_device
  for_device-unavailable ordinal provider_name s (inl (fault, failed)) = ground arith
  for_device-unavailable ordinal provider_name s (inr (n, counted, few)) = ground arith

  -- `cudarc`: the context of an ordinal has that ordinal.
  abbrev pub IsNumbered : Type 0
  IsNumbered =
      (n : ℕ) (s : Sys) (ctx : Ctx) → (driver.new_context n s).0 ≡ ok ctx → driver.ordinal ctx ≡ n

  for_device-id :
      (ordinal : ℕ) (provider_name : String) (s : Sys) (d : DeviceMetadata)
      → IsNumbered
      → (for_device float driver ordinal provider_name s).0.device ≡ some d
      → d.id ≡ cuda_device_id ordinal
  unfolding for_device
  for_device-id ordinal provider_name s d numbered h =
      let s1 = (driver.device_count s).1 in
      elim (Result-cases
        (discover_device_catching_missing_library_panic float driver ordinal provider_name s).0) [
          | inr (e, failed) ↦ absurd (ground arith)
          | inl ((ctx, d'), found) ↦
              let same : d' ≡ d = ground arith in
              let (_, id≡, made) =
                discover_device-provider float driver ordinal provider_name s ctx d' found in
              ap (λ x. x.id) (sym same) ∙ id≡ ∙ ap cuda_device_id (numbered ordinal s1 ctx made)
        ]

  -- Two Providers that were built for different ordinals, and both found a device, have devices of
  -- different ids, and none of the advertisements of one lists the other's device.
  pub for_device-distinct :
      (banded_feature : String) (default_rank : Option ℕ) (m n : ℕ) (name other_name : String)
      (s t : Sys) (d e : DeviceMetadata)
      → IsNumbered
      → m < 2 ^ 64
      → n < 2 ^ 64
      → m ≢ n
      → (for_device float driver m name s).0.device ≡ some d
      → (for_device float driver n other_name t).0.device ≡ some e
      → (d.id ≢ e.id)
        × All
            (λ a. mem_string e.id a.devices ≡ false)
            (kernel_advertisements banded_feature default_rank (for_device float driver m name s).0)
        × All
            (λ a. mem_string d.id a.devices ≡ false)
            (kernel_advertisements banded_feature default_rank
              (for_device float driver n other_name t).0)
  for_device-distinct banded_feature default_rank m n name other_name s t d e numbered hm hn differ
        found found' =
      let apart : d.id ≢ e.id = λ same. differ (
        cuda_device_id-injective m n hm hn (
          sym (for_device-id m name s d numbered found)
          ∙ same
          ∙ for_device-id n other_name t e numbered found')) in
      (
        apart,
        kernel_advertisements-device banded_feature default_rank
            (for_device float driver m name s).0 d e.id found apart,
        kernel_advertisements-device banded_feature default_rank
            (for_device float driver n other_name t).0 e d.id found' (λ same. apart (sym same)),
      )
