-- ===== src/Kernels/Load.antt =====
-- `CudaKernels::compile_and_load` (`src/kernels.rs`).
use magnetar_provider_cuda.Base.{
  String, Bool, true, false, not, leb, ◌&&◌, if◌then◌else◌, Option, none, some, is_some, [], ok,
  err, pure, ◌>>=◌, ◌>>◌, modify, to_option,
}
use magnetar_provider_cuda.Base.Eq.{string_eq}
use magnetar_provider_cuda.Error.{CudaError, of_driver_error, compilation_failed}
use magnetar_provider_cuda.Driver.{Driver, Unwinding, kept, convert_err}
use magnetar_provider_cuda.Executor.State.{ℤ, pos, negsuc}
use magnetar_provider_cuda.Kernels.State.{Kernels}

-- `major >= 8`, on an `i32`.
abbrev has_tensor_cores : ℤ → Bool
has_tensor_cores (pos major) = leb 8 major
has_tensor_cores (negsuc _) = false

-- `std::env::var(TENSOR_CORES_ENV).as_deref() != Ok("0")`
abbrev tensor_cores_allowed : Option String → Bool
tensor_cores_allowed (some value) = not (string_eq.beq value "0")
tensor_cores_allowed none = true

-- The state that the constructor fills in.
abbrev pub new_kernels : {Dev : Type 0} → Dev → Bool → Kernels Dev
new_kernels dev tensor_cores = record {
  dev = dev;
  tensor_cores = tensor_cores;
  upload_count = 0;
  download_count = 0;
  functions = [];
  offered_output = none;
  capture = none;
  embedding_flag = none;
  attention_scratch = (none, []);
  split_scratch = (none, []);
}

module _ {Sys Ctx Ptx Module Dev : Type 0} (driver : Driver Sys Ctx Ptx Module Dev) where
  -- `.ok().and_then(|ptx| context.load_module(ptx).ok())` of the tensor-core source.
  pub load_tensor_module : Ctx → Unwinding CudaError Sys (Option Module)
  load_tensor_module context = do
    compiled ←
        convert_err (λ _. compilation_failed)
          (kept (driver.compile_ptx_for "tensor_kernels.cu" "compute_80"))
    elim compiled [
      | err _ ↦ pure none
      | ok ptx ↦ (do
        loaded ← convert_err of_driver_error (kept (driver.load_module context ptx))
        pure (to_option loaded))
    ]

  -- The tensor-core Kernels are optional: without them, for whatever reason, loading goes on.
  pub tensor_module_of : Ctx → Unwinding CudaError Sys (Option Module)
  unfolding load_tensor_module
  tensor_module_of context = do
    capability ← convert_err of_driver_error (kept (driver.compute_capability context))
    elim capability [
      | err _ ↦ pure none
      | ok version ↦
          if has_tensor_cores version.0 && tensor_cores_allowed driver.tensor_cores_env
          then load_tensor_module context
          else pure none
    ]

  unfoldable pub compile_and_load : Ctx → Unwinding CudaError Sys (Kernels Dev)
  unfolding tensor_module_of
  compile_and_load context = do
    modify (driver.disable_event_tracking context)
    ptx ← convert_err (λ _. compilation_failed) (driver.compile_ptx "kernels.cu")
    loaded ← convert_err of_driver_error (driver.load_module context ptx)
    tensor_module ← tensor_module_of context
    dev ← convert_err of_driver_error (driver.new_stream context loaded tensor_module)
    pure (new_kernels dev (is_some tensor_module))
