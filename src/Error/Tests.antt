-- ===== src/Error/Tests.antt =====
-- Tests of `src/error.rs`.
use magnetar_provider_cuda.Base.{◌≡◌, refl}
use magnetar_provider_cuda.Error.{
  of_driver_error, to_kernel_error, DriverError, kernel_out_of_device_memory,
  kernel_execution_failed,
}

exhausted :
    to_kernel_error (of_driver_error DriverError.out_of_memory) ≡ kernel_out_of_device_memory
unfolding to_kernel_error of_driver_error
exhausted = refl

launch_failed : to_kernel_error (of_driver_error (DriverError.other 700)) ≡ kernel_execution_failed
unfolding to_kernel_error of_driver_error
launch_failed = refl
