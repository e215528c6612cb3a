-- ===== src/Provider.antt =====
-- The Provider object (`src/provider.rs`): what it finds when it is built, and what it reports.
pub mod Laws
pub mod Reports
pub mod Calls
pub mod Tests
use magnetar_provider_cuda.Base.{
  ℕ, ◌≡◌, String, Bool, true, false, leb, if◌then◌else◌, Option, none, some, is_some, List, [], ◌∷◌,
  Result, ok, err, ⊤, Action, pure, fail, ◌>>=◌, ◌>>◌, to_option,
}
use magnetar_provider_cuda.Error.{DriverError, CudaError, no_device, compilation_failed}
use magnetar_provider_cuda.Driver.{Driver, Unwinding, raised, catch_unwind}
use magnetar_provider_cuda.Device.{DeviceMetadata, cuda_device_descriptor}
use magnetar_provider_cuda.Device.Pressure.{Float64}
use magnetar_provider_cuda.Kernels.State.{Kernels}
use magnetar_provider_cuda.Kernels.Load.{compile_and_load}
use magnetar_provider_cuda.Executor.State.{Executor, new_executor, ℤ, pos, negsuc}
use magnetar_provider_cuda.Advertisements.{KernelAdvertisement, cuda_kernel_advertisements}

abbrev pub cuda_provider_name : String
cuda_provider_name = "magnetar:provider/cuda"

abbrev pub cuda_provider_version : String
cuda_provider_version = "0.1.0"

abbrev pub cuda_provider_vendor : String
cuda_provider_vendor = "magnetar"

pub record ProviderMetadata : Type 0 where
  pub name : String
  pub version : String
  pub vendor : String
  pub description : String

unfoldable pub cuda_provider_metadata_for : String → ProviderMetadata
cuda_provider_metadata_for provider_name = record {
  name = provider_name;
  version = cuda_provider_version;
  vendor = cuda_provider_vendor;
  description = "Optimized, GPU-executing Provider built on the CUDA driver API";
}

pub data ProviderHealth : Type 0 where
  available degraded unavailable : ProviderHealth

pub record CudaProvider (Ctx Dev : Type 0) : Type 0 where
  pub metadata : ProviderMetadata
  pub context : Option Ctx
  pub device : Option DeviceMetadata
  pub executor : Option (Executor Dev)

-- `device_count.max(0) as usize`
abbrev pub count_of : ℤ → ℕ
count_of (pos n) = n
count_of (negsuc _) = 0

module _ {F Sys Ctx Ptx Module Dev : Type 0} (float : Float64 F)
    (driver : Driver Sys Ctx Ptx Module Dev) where
  unfoldable pub discover_device : ℕ → String → Unwinding DriverError Sys (Ctx × DeviceMetadata)
  discover_device ordinal provider_name = do
    device_count ← driver.device_count
    if leb (count_of device_count) ordinal then fail (raised no_device) else (do
      context ← driver.new_context ordinal
      device ← cuda_device_descriptor float driver context provider_name
      pure (context, device))

  unfoldable pub discover_device_catching_missing_library_panic :
      ℕ → String → Action DriverError Sys (Ctx × DeviceMetadata)
  discover_device_catching_missing_library_panic ordinal provider_name =
      catch_unwind no_device (discover_device ordinal provider_name)

  -- `.ok().and_then(Result::ok)`: a panic and an error are both `None`.
  unfoldable pub compile_kernels_catching_missing_library_panic :
      Ctx → Sys → Option (Kernels Dev) × Sys
  compile_kernels_catching_missing_library_panic context s =
      let (r, s') = compile_and_load driver context s in (to_option r, s')

  unfoldable pub for_device : ℕ → String → Sys → CudaProvider Ctx Dev × Sys
  unfolding cuda_provider_metadata_for
  for_device ordinal provider_name s =
      let (discovered, s1) =
        discover_device_catching_missing_library_panic ordinal provider_name s in
      elim discovered [
        | ok (context, device) ↦
            let (kernels, s2) = compile_kernels_catching_missing_library_panic context s1 in
            (
              record {
                metadata = cuda_provider_metadata_for provider_name;
                context = some context;
                device = some device;
                executor = elim kernels [
                  | some k ↦ some (new_executor k device.id provider_name)
                  | none ↦ none
                ];
              },
              s2,
            )
        | err _ ↦ (
          record {
            metadata = cuda_provider_metadata_for provider_name;
            context = none;
            device = none;
            executor = none;
          },
          s1,
        )
      ]

  -- `CudaProvider::new`
  unfoldable pub new_provider : Sys → CudaProvider Ctx Dev × Sys
  new_provider = for_device 0 cuda_provider_name

module _ {Ctx Dev : Type 0} where
  abbrev pub is_available : CudaProvider Ctx Dev → Bool
  is_available p = is_some p.context

  unfoldable pub health : CudaProvider Ctx Dev → ProviderHealth
  health p =
      if is_some p.device then (if is_some p.executor then available else degraded) else unavailable

  unfoldable pub devices : CudaProvider Ctx Dev → List DeviceMetadata
  devices p = elim p.device [ some device ↦ device ∷ [] | none ↦ [] ]

  unfoldable pub execution_api : CudaProvider Ctx Dev → Option (Executor Dev)
  execution_api p = p.executor

  unfoldable pub kernel_advertisements :
      String → Option ℕ → CudaProvider Ctx Dev → List KernelAdvertisement
  kernel_advertisements banded_feature default_rank p = elim p.device [
    | some device ↦ cuda_kernel_advertisements banded_feature default_rank device.id p.metadata.name
    | none ↦ []
  ]

  -- `with_device_but_no_executor_for_test`
  abbrev pub with_device_but_no_executor : Ctx → DeviceMetadata → CudaProvider Ctx Dev
  with_device_but_no_executor context device = record {
    metadata = cuda_provider_metadata_for cuda_provider_name;
    context = some context;
    device = some device;
    executor = none;
  }
