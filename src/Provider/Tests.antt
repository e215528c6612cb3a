-- ===== src/Provider/Tests.antt =====
-- Tests of `src/provider.rs`, `src/device.rs`, `src/advertisements.rs` and `src/peer.rs`, on a driver
-- with two devices.
pub mod Calls
use magnetar_provider_cuda.Base.{
  ℕ, zero, suc, ◌+◌, ◌*◌, ◌/◌, ◌≤◌, ◌<◌, ◌≡◌, ◌≢◌, ◌↔◌, refl, arith, String, true, false, ltb, none,
  some, is_some, [], ◌∷◌, ok, err, ⊤, inr,
}
use native.Mathlib.Nat.{le-div_iff_mul-le, div-mul-le_self, zero-div, mul-div_right}
use magnetar_provider_cuda.Kernels.State.{mem_string}
use magnetar_provider_cuda.Kernels.Load.{compile_and_load}
use magnetar_provider_cuda.Device.{cuda_device_descriptor}
use magnetar_provider_cuda.Error.{DriverError}
use magnetar_provider_cuda.Driver.{Driver, raised, panicked}
use magnetar_provider_cuda.Device.{DeviceMetadata, gpu, cuda_device_id}
use magnetar_provider_cuda.Device.Decimal.{show}
use magnetar_provider_cuda.Device.Pressure.{
  Float64, IsRounded, low, moderate, saturated, pressure_from_free_ratio,
  pressure_from_free_ratio-bands, high,
}
use magnetar_provider_cuda.Platform.Simulated.{Device, fresh_device}
use magnetar_provider_cuda.Kernels.Load.{new_kernels}
use magnetar_provider_cuda.Executor.State.{pos, new_executor, float32}
use magnetar_provider_cuda.Advertisements.{
  cuda_kernel_advertisements, contiguous, KernelMemoryClass,
}
use magnetar_provider_cuda.Advertisements.Laws.{
  All, is_executable, names_of, are_distinct, advertisements-is_executable,
}
use magnetar_provider_cuda.Provider.{
  discover_device_catching_missing_library_panic, discover_device,
  compile_kernels_catching_missing_library_panic, CudaProvider, available, degraded, unavailable,
  for_device, health, devices, execution_api, kernel_advertisements, is_available,
}
use magnetar_provider_cuda.Provider.Laws.{IsCoherent, for_device-IsCoherent}
use magnetar_provider_cuda.Provider.Reports.{
  health-reports, kernel_advertisements-executor, for_device-unavailable, for_device-distinct,
}

-- Fixed-point numbers in place of `f64`: a quotient counts millionths.
abbrev pub fixed_point : Float64 ℕ
fixed_point = record {
  of_usize = λ n. n;
  div = λ a b. a * 1000000 / b;
  gt = λ a b. ltb b a;
  half = 500000;
  fifth = 200000;
  twentieth = 50000;
}

-- Two devices; the state counts the contexts that were made.
abbrev pub two_devices : Driver ℕ ℕ ⊤ ⊤ Device
two_devices = record {
  device_count = λ s. (ok (pos 2), s);
  new_context = λ n s. (ok n, s + 1);
  ordinal = λ n. n;
  name = λ n s. (ok "GPU", s);
  compute_capability = λ n s. (ok (pos 8, pos 9), s);
  total_mem = λ n s. (ok 1000, s);
  multiprocessor_count = λ n s. (err (raised (DriverError.other 1)), s);
  mem_get_info = λ n s. (ok (300, 1000), s);
  disable_event_tracking = λ n s. s;
  compile_ptx = λ file s. (ok tt, s);
  compile_ptx_for = λ file arch s. (ok tt, s);
  load_module = λ n ptx s. (ok tt, s);
  new_stream = λ n m t s. (ok fresh_device, s);
  tensor_cores_env = none;
  can_access_peer = λ n m s. (ok (pos 1), s);
  bind_to_thread = λ n s. (ok tt, s);
  enable_peer_access = λ n s. (err (raised (DriverError.other 704)), s);
}

-- No compiler library: NVRTC panics.
abbrev without_nvrtc : Driver ℕ ℕ ⊤ ⊤ Device
without_nvrtc = record two_devices { compile_ptx = λ file s. (err panicked, s) }

abbrev without_driver : Driver ℕ ℕ ⊤ ⊤ Device
without_driver = record two_devices { device_count = λ s. (err panicked, s) }

abbrev built : CudaProvider ℕ Device
unfolding for_device
built = (for_device fixed_point two_devices 1 "second" 0).0

healthy : health built ≡ available
unfolding health for_device discover_device_catching_missing_library_panic discover_device
    cuda_device_descriptor compile_kernels_catching_missing_library_panic compile_and_load
healthy = refl

-- A device without a compiler is there, and cannot execute.
compiler_missing : health (for_device fixed_point without_nvrtc 0 "first" 0).0 ≡ degraded
unfolding health for_device discover_device_catching_missing_library_panic discover_device
    cuda_device_descriptor compile_kernels_catching_missing_library_panic compile_and_load
compiler_missing = refl

driver_missing : health (for_device fixed_point without_driver 0 "first" 0).0 ≡ unavailable
unfolding health for_device discover_device_catching_missing_library_panic discover_device
    cuda_device_descriptor compile_kernels_catching_missing_library_panic compile_and_load
driver_missing = refl

named_device : cuda_device_id 12 ≡ "cuda:12"
unfolding cuda_device_id show
named_device = refl

one_third_free : pressure_from_free_ratio fixed_point 300 1000 ≡ moderate
unfolding pressure_from_free_ratio
one_third_free = refl

-- Exact fractions in place of `f64`.
abbrev exact : Float64 (ℕ × ℕ)
exact = record {
  of_usize = λ n. (n, 1);
  div = λ x y. (x.0 * y.1, x.1 * y.0);
  gt = λ x y. ltb (y.0 * x.1) (x.0 * y.1);
  half = (1, 2);
  fifth = (1, 5);
  twentieth = (1, 20);
}

exact-IsRounded : IsRounded exact
exact-IsRounded = record {
  half_literal = refl;
  fifth_literal = refl;
  twentieth_literal = refl;
  gt-div = λ m n a b _ _ _ _ _ _. ground arith;
}

pressure_from_free_ratio-bands_example :
    let level = pressure_from_free_ratio exact 600 1000 in
    ((level ≡ low) ↔ (1000 < 600 * 2))
    × ((level ≡ moderate) ↔ ((600 * 2 ≤ 1000) × (1000 < 600 * 5)))
    × ((level ≡ high) ↔ ((600 * 5 ≤ 1000) × (1000 < 600 * 20)))
    × ((level ≡ saturated) ↔ (600 * 20 ≤ 1000))
pressure_from_free_ratio-bands_example =
    pressure_from_free_ratio-bands exact exact-IsRounded 600 1000 (omega arith) (omega arith)
      (omega arith)

advertisements-is_executable_example :
    (are_distinct (names_of (cuda_kernel_advertisements "banded" none "cuda:0" "cuda")) ≡ true)
    × ((name : String)
        → (mem_string name (names_of (cuda_kernel_advertisements "banded" none "cuda:0" "cuda"))
            ≡ true)
          ↔ (is_executable name ≡ true))
advertisements-is_executable_example = advertisements-is_executable "banded" none "cuda:0" "cuda"

for_device-IsCoherent_example : IsCoherent "second" built
unfolding for_device
for_device-IsCoherent_example = for_device-IsCoherent fixed_point two_devices 1 "second" 0

health-reports_example :
    ((health built ≡ available) ↔ (is_some (execution_api built) ≡ true))
    × ((health built ≡ unavailable) ↔ (is_available built ≡ false))
    × ((health built ≡ unavailable) ↔ (devices built ≡ []))
    × ((health built ≡ unavailable) ↔ (kernel_advertisements "banded" none built ≡ []))
health-reports_example = health-reports "banded" none "second" built for_device-IsCoherent_example

kernel_advertisements-executor_example :
    All
      (λ a. (a.id.provider ≡ "second") × (a.devices ≡ "cuda:1" ∷ []))
      (kernel_advertisements "banded" none built)
unfolding for_device discover_device_catching_missing_library_panic discover_device
    cuda_device_descriptor compile_kernels_catching_missing_library_panic compile_and_load
    cuda_device_id show new_executor
kernel_advertisements-executor_example =
    kernel_advertisements-executor "banded" none "second" built
      (for_device-IsCoherent fixed_point two_devices 1 "second" 0)
      (new_executor (new_kernels fresh_device true) "cuda:1" "second") refl

for_device-unavailable_example :
    (health (for_device fixed_point two_devices 2 "third" 0).0 ≡ unavailable)
    × ((for_device fixed_point two_devices 2 "third" 0).1 ≡ 0)
for_device-unavailable_example =
    for_device-unavailable fixed_point two_devices 2 "third" 0 (inr (pos 2, refl, omega arith))

abbrev device_at : ℕ → DeviceMetadata
device_at n = record {
  id = cuda_device_id n;
  name = "GPU";
  device_type = gpu;
  provider = "magnetar";
  vendor = "NVIDIA";
  architecture = "sm_89";
  memory_capacity = 1000;
  compute_units = 0;
  dtype_support = float32 ∷ [];
  layout_support = contiguous ∷ [];
  memory_class_support = KernelMemoryClass.device ∷ [];
  pressure = moderate;
}

found :
    (n : ℕ)
    → ltb n 2 ≡ true
    → (for_device fixed_point two_devices n "magnetar" 0).0.device ≡ some (device_at n)
unfolding for_device discover_device_catching_missing_library_panic discover_device
    cuda_device_descriptor compile_kernels_catching_missing_library_panic compile_and_load show
    pressure_from_free_ratio
found zero h = refl
found (suc zero) h = refl
found (suc (suc n)) h = absurd (ground arith)

for_device-distinct_example :
    ((device_at 0).id ≢ (device_at 1).id)
    × All
        (λ a. mem_string (device_at 1).id a.devices ≡ false)
        (kernel_advertisements "banded" none (for_device fixed_point two_devices 0 "magnetar" 0).0)
    × All
        (λ a. mem_string (device_at 0).id a.devices ≡ false)
        (kernel_advertisements "banded" none (for_device fixed_point two_devices 1 "magnetar" 0).0)
for_device-distinct_example =
    for_device-distinct fixed_point two_devices "banded" none 0 1 "magnetar" "magnetar" 0 0
      (device_at 0) (device_at 1) (λ n s ctx h. ground arith) (omega arith) (omega arith)
      (omega arith) (found 0 refl) (found 1 refl)
