-- ===== src/Device.antt =====
-- The metadata of a discovered CUDA device (`src/device.rs`).
pub mod Decimal
pub mod Pressure
pub mod Laws
use Prim.Native.String.{◌++◌}
use magnetar_provider_cuda.Base.{
  ℕ, suc, ◌≡◌, String, Bool, true, false, ltb, if◌then◌else◌, List, [], ◌∷◌, Result, ok, err, ⊤,
  Action, pure, fail, ◌>>=◌, ◌>>◌,
}
use magnetar_provider_cuda.Error.{DriverError}
use magnetar_provider_cuda.Driver.{Driver, Unwinding, kept}
use magnetar_provider_cuda.Executor.State.{ℤ, pos, negsuc, DType, float32}
use magnetar_provider_cuda.Advertisements.{TensorLayoutKind, contiguous, KernelMemoryClass}
use magnetar_provider_cuda.Device.Decimal.{show}
use magnetar_provider_cuda.Device.Pressure.{
  Float64, ProviderPressureLevel, unknown, pressure_from_free_ratio,
}

pub data DeviceType : Type 0 where
  gpu : DeviceType

-- `DeviceMetadata` of the Runtime, which is all that a `DeviceDescriptor` has; `execution_limits` is
-- always the default.
pub record DeviceMetadata : Type 0 where
  pub id : String
  pub name : String
  pub device_type : DeviceType
  pub provider : String
  pub vendor : String
  pub architecture : String
  pub memory_capacity : ℕ
  pub compute_units : ℕ
  pub dtype_support : List DType
  pub layout_support : List TensorLayoutKind
  pub memory_class_support : List KernelMemoryClass
  pub pressure : ProviderPressureLevel

unfoldable pub cuda_device_id : ℕ → String
cuda_device_id ordinal = "cuda:" ++ show ordinal

-- An `i32` in a `format!`.
abbrev show_signed : ℤ → String
show_signed (pos n) = show n
show_signed (negsuc n) = "-" ++ show (suc n)

-- `.unwrap_or(0).max(0) as u32`
abbrev pub count_or_zero : Result DriverError ℤ → ℕ
count_or_zero (ok (pos n)) = n
count_or_zero (ok (negsuc _)) = 0
count_or_zero (err _) = 0

module _ {F : Type 0} (float : Float64 F) where
  abbrev pub pressure_of : Result DriverError (ℕ × ℕ) → ProviderPressureLevel
  pressure_of (ok (free, total)) =
      if ltb 0 total then pressure_from_free_ratio float free total else unknown
  pressure_of (err _) = unknown

  module _ {Sys Ctx Ptx Module Dev : Type 0} (driver : Driver Sys Ctx Ptx Module Dev) where
    unfoldable pub cuda_device_descriptor : Ctx → String → Unwinding DriverError Sys DeviceMetadata
    cuda_device_descriptor ctx provider_name = do
      name ← driver.name ctx
      capability ← driver.compute_capability ctx
      total_mem ← driver.total_mem ctx
      count ← kept (driver.multiprocessor_count ctx)
      info ← kept (driver.mem_get_info ctx)
      pure (record {
        id = cuda_device_id (driver.ordinal ctx);
        name = name;
        device_type = gpu;
        provider = provider_name;
        vendor = "NVIDIA";
        architecture = "sm_" ++ (show_signed capability.0 ++ show_signed capability.1);
        memory_capacity = total_mem;
        compute_units = count_or_zero count;
        dtype_support = float32 ∷ [];
        layout_support = contiguous ∷ [];
        memory_class_support = KernelMemoryClass.device ∷ [];
        pressure = pressure_of info;
      })
