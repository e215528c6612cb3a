-- ===== src/Error.antt =====
-- `src/error.rs`: the Provider's error categories and their conversions. An error is its category:
-- the diagnostic text that comes with it is not modelled.
mod Tests
use magnetar_provider_cuda.Base.{ℕ}

pub data CudaError : Type 0 where
  shape_unsupported : CudaError
  dtype_unsupported : CudaError
  layout_unsupported : CudaError
  execution_failed : CudaError
  out_of_device_memory : CudaError
  compilation_failed : CudaError
  driver_failed : CudaError
  device_unavailable : CudaError
  capture_unsupported : CudaError

-- A `CUresult` other than success, `other` with its number.
pub data DriverError : Type 0 where
  out_of_memory no_device invalid_device : DriverError
  other : ℕ → DriverError

-- `KernelError` of the Runtime: the variants that the Provider makes, and `invalid` for those that
-- only the Runtime's own validation makes.
pub data KernelError : Type 0 where
  kernel_dtype_unsupported : KernelError
  kernel_layout_unsupported : KernelError
  kernel_shape_unsupported : KernelError
  kernel_device_unsupported : KernelError
  kernel_out_of_device_memory : KernelError
  kernel_execution_failed : KernelError
  kernel_attribute_unsupported : KernelError
  kernel_not_found : KernelError
  kernel_timeout : KernelError
  invalid : ℕ → KernelError

-- `From<DriverError> for CudaError`
unfoldable pub of_driver_error : DriverError → CudaError
of_driver_error out_of_memory = out_of_device_memory
of_driver_error no_device = device_unavailable
of_driver_error invalid_device = device_unavailable
of_driver_error (other _) = driver_failed

-- `From<CudaError> for KernelError`
unfoldable pub to_kernel_error : CudaError → KernelError
to_kernel_error dtype_unsupported = kernel_dtype_unsupported
to_kernel_error layout_unsupported = kernel_layout_unsupported
to_kernel_error shape_unsupported = kernel_shape_unsupported
to_kernel_error device_unavailable = kernel_device_unsupported
to_kernel_error out_of_device_memory = kernel_out_of_device_memory
to_kernel_error execution_failed = kernel_execution_failed
to_kernel_error compilation_failed = kernel_execution_failed
to_kernel_error driver_failed = kernel_execution_failed
to_kernel_error capture_unsupported = kernel_execution_failed
