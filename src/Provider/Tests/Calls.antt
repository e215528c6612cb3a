-- ===== src/Provider/Tests/Calls.antt =====
-- Tests of the calls that are made to a Provider's executor (`src/provider.rs`, `src/executor.rs`).
use magnetar_provider_cuda.Base.{refl, true, none, some, List, [], ◌∷◌, Result, ok, ⊤}
use magnetar_provider_cuda.Error.{KernelError}
use magnetar_provider_cuda.Platform.{HostTensor}
use magnetar_provider_cuda.Platform.Simulated.{Device, fresh_device, simulated}
use magnetar_provider_cuda.Kernels.Load.{new_kernels, compile_and_load}
use magnetar_provider_cuda.Kernels.Tests.{simulated-Allocation, simulated-Capacity}
use magnetar_provider_cuda.Device.{cuda_device_descriptor, cuda_device_id}
use magnetar_provider_cuda.Device.Decimal.{show}
use magnetar_provider_cuda.Executor.State.{Executor, new_executor, KernelInvocation}
use magnetar_provider_cuda.Executor.Tests.{resource}
use magnetar_provider_cuda.Executor.Tests.Memory.{test_manager}
use magnetar_provider_cuda.Executor.Dispatch.{FrequencyScaling}
use magnetar_provider_cuda.Executor.Dispatch.Fits.{IsReady}
use magnetar_provider_cuda.Executor.Calls.{
  Call, perform_all, write, write_admitted, read, execute, copy_admitted, begin_step, abort_step,
  free,
}
use magnetar_provider_cuda.Provider.{
  for_device, discover_device_catching_missing_library_panic, discover_device,
  compile_kernels_catching_missing_library_panic,
}
use magnetar_provider_cuda.Provider.Calls.{for_device-perform_all}
use magnetar_provider_cuda.Provider.Tests.{fixed_point, two_devices}

abbrev row : HostTensor
row = record { shape = 2 ∷ []; values = 1 ∷ 2 ∷ [] }

abbrev add_rows : KernelInvocation
add_rows = record {
  id = "sum";
  kernel_name = "add";
  inputs = resource "x" ∷ resource "w" ∷ [];
  outputs = resource "y" ∷ [];
  attributes = [];
  deadline_millis = none;
}

abbrev calls : List (Call Device)
calls =
    write "x" row
    ∷ write_admitted "w" row 0 0
    ∷ execute add_rows
    ∷ copy_admitted "y" "z" 0 0
    ∷ begin_step []
    ∷ execute add_rows
    ∷ abort_step
    ∷ read "z"
    ∷ free "x"
    ∷ []

abbrev no_scaling : FrequencyScaling
no_scaling attributes = some none

abbrev accept : KernelInvocation → Result KernelError ⊤
accept invocation = ok tt

-- The executor of the second device.
abbrev on_second : Executor Device
on_second = new_executor (new_kernels fresh_device true) "cuda:1" "second"

for_device-perform_all_example :
    IsReady none (perform_all simulated no_scaling test_manager accept calls (on_second, [])).0
unfolding for_device discover_device_catching_missing_library_panic discover_device
    cuda_device_descriptor compile_kernels_catching_missing_library_panic compile_and_load
    cuda_device_id show
for_device-perform_all_example =
    for_device-perform_all fixed_point two_devices simulated no_scaling simulated-Allocation
      simulated-Capacity test_manager accept 1 "second" 0 on_second refl calls
      (refl, (refl, (tt, (tt, (tt, (tt, (tt, (tt, (tt, tt))))))))) []
