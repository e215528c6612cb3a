-- ===== src/Provider/Laws.antt =====
-- What `src/provider.rs` promises: a Provider reports only what it found, and building one never fails.
use magnetar_provider_cuda.Base.{
  ℕ, Bool, ◌≡◌, refl, subst, arith, Action, pure, ◌>>=◌, String, none, some, is_some, ok,
  Result-cases, Option-cases, inl, inr,
}
use magnetar_provider_cuda.Driver.{Driver}
use magnetar_provider_cuda.Device.{DeviceMetadata, cuda_device_descriptor, cuda_device_id}
use magnetar_provider_cuda.Device.Pressure.{Float64}
use magnetar_provider_cuda.Kernels.State.{Kernels}
use magnetar_provider_cuda.Kernels.Load.{new_kernels, compile_and_load}
use magnetar_provider_cuda.Executor.State.{Executor, new_executor}
use magnetar_provider_cuda.Provider.{
  CudaProvider, discover_device, discover_device_catching_missing_library_panic,
  compile_kernels_catching_missing_library_panic, cuda_provider_metadata_for, for_device,
}

-- What a built Provider's parts have to do with each other, for the name it registers under.
pub record IsCoherent {Ctx Dev : Type 0} (provider_name : String) (p : CudaProvider Ctx Dev)
    : Type 0 where
  pub named : p.metadata.name ≡ provider_name
  -- A context and a device are found together, and without a device there is no executor.
  pub found_together : is_some p.context ≡ is_some p.device
  pub executes_on_device : p.device ≡ none → p.executor ≡ none
  -- The device belongs to the Provider.
  pub owns_device : (d : DeviceMetadata) → p.device ≡ some d → d.provider ≡ provider_name
  -- The executor is new, on that device and under that name, with nothing offered for an output.
  pub bound_executor :
      (e : Executor Dev)
      → p.executor ≡ some e
      → (d : DeviceMetadata) × (kernels : Kernels Dev) × (p.device ≡ some d)
        × (e ≡ new_executor kernels d.id provider_name)
        × (kernels.offered_output ≡ none)

-- Whatever a step yields when it succeeds has a property.
abbrev Yields : {E S A : Type 0} → (A → Type 0) → Action E S A → Type 0
Yields {S} {A} P m = (s : S) (a : A) → (m s).0 ≡ ok a → P a

Yields-new_kernels :
    {E S Dev : Type 0} (dev : Dev) (tensor_cores : Bool)
    → Yields {E = E} {S = S} (λ k. k.offered_output ≡ none) (pure (new_kernels dev tensor_cores))
Yields-new_kernels dev tensor_cores s k done =
    let is : new_kernels dev tensor_cores ≡ k = ground arith in
    subst (λ k. k.offered_output ≡ none) is refl

Yields->>= :
    {E S A B : Type 0} {P : B → Type 0} (m : Action E S A) (f : A → Action E S B)
    → ((a : A) → Yields P (f a))
    → Yields P (m >>= f)
Yields->>= m f hf s b done = elim (Result-cases (m s).0) [
  | inl (a, ran) ↦ hf a (m s).1 b (ground arith)
  | inr (e, failed) ↦ absurd (ground arith)
]

module _ {F Sys Ctx Ptx Module Dev : Type 0} (float : Float64 F)
    (driver : Driver Sys Ctx Ptx Module Dev) where
  cuda_device_descriptor-provider :
      (ctx : Ctx) (provider_name : String) (s : Sys) (d : DeviceMetadata)
      → (cuda_device_descriptor float driver ctx provider_name s).0 ≡ ok d
      → (d.provider ≡ provider_name) × (d.id ≡ cuda_device_id (driver.ordinal ctx))
  unfolding cuda_device_descriptor
  cuda_device_descriptor-provider ctx provider_name s d h = ground arith

  pub discover_device-provider :
      (ordinal : ℕ) (provider_name : String) (s : Sys) (ctx : Ctx) (d : DeviceMetadata)
      → (discover_device_catching_missing_library_panic float driver ordinal provider_name s).0
        ≡ ok (ctx, d)
      → (d.provider ≡ provider_name)
        × (d.id ≡ cuda_device_id (driver.ordinal ctx))
        × ((driver.new_context ordinal (driver.device_count s).1).0 ≡ ok ctx)
  unfolding discover_device_catching_missing_library_panic discover_device
  discover_device-provider ordinal provider_name s ctx d h =
      let s1 = (driver.device_count s).1 in
      let s2 = (driver.new_context ordinal s1).1 in
      ground (arith, cuda_device_descriptor-provider ctx provider_name s2 d)

  compile_and_load-Yields :
      (ctx : Ctx) → Yields (λ k. k.offered_output ≡ none) (compile_and_load driver ctx)
  unfolding compile_and_load
  compile_and_load-Yields ctx = search (Yields->>=, Yields-new_kernels) depth 12

  compiled-offered :
      (ctx : Ctx) (s : Sys) (kernels : Kernels Dev)
      → (compile_kernels_catching_missing_library_panic float driver ctx s).0 ≡ some kernels
      → kernels.offered_output ≡ none
  unfolding compile_kernels_catching_missing_library_panic
  compiled-offered ctx s kernels h = elim (Result-cases (compile_and_load driver ctx s).0) [
    | inl (k, loaded) ↦
        let is : k ≡ kernels = ground arith in
        subst (λ k. k.offered_output ≡ none) is (compile_and_load-Yields ctx s k loaded)
    | inr (e, failed) ↦ absurd (ground arith)
  ]

  -- Whatever the driver and the compiler answer, panics included, `for_device` builds a Provider, and
  -- its parts fit together.
  pub for_device-IsCoherent :
      (ordinal : ℕ) (provider_name : String) (s : Sys)
      → IsCoherent provider_name (for_device float driver ordinal provider_name s).0
  unfolding for_device cuda_provider_metadata_for
  for_device-IsCoherent ordinal provider_name s =
      let (found, s1) =
        discover_device_catching_missing_library_panic float driver ordinal provider_name s in
      elim (Result-cases found) [
        | inr (e, failed) ↦ record {
          named = ground arith;
          found_together = ground arith;
          executes_on_device = ground arith;
          owns_device = λ d eq. ground arith;
          bound_executor = λ e' eq. absurd (ground arith);
        }
        | inl ((ctx, d), ok≡) ↦ record {
          named = ground arith;
          found_together = ground arith;
          executes_on_device = ground arith;
          owns_device =
              λ d' eq. ground (arith, discover_device-provider ordinal provider_name s ctx d ok≡);
          bound_executor = λ e eq.
              elim (Option-cases
                (compile_kernels_catching_missing_library_panic float driver ctx s1).0) [
                  | inl nothing ↦ absurd (ground arith)
                  | inr (kernels, compiled) ↦ (
                    d,
                    kernels,
                    ground arith,
                    ground arith,
                    compiled-offered ctx s1 kernels compiled,
                  )
                ];
        }
      ]
