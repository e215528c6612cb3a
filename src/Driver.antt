-- ===== src/Driver.antt =====
-- What `src/provider.rs`, `src/device.rs`, `src/peer.rs` and `compile_and_load` of `src/kernels.rs`
-- call of `cudarc` before there is a stream: the CUDA driver, NVRTC, contexts and modules. The
-- process that these calls change is a state `Sys` of the parameter's own type. A call may panic,
-- which is how `cudarc` says that there is no library to load.
use magnetar_provider_cuda.Base.{ℕ, String, Option, Result, ok, err, ⊤, Action}
use magnetar_provider_cuda.Error.{DriverError}
use magnetar_provider_cuda.Executor.State.{ℤ}

-- An error that comes back, or a panic that unwinds.
pub data Fault (E : Type 0) : Type 0 where
  raised : E → Fault E
  panicked : Fault E

abbrev pub Unwinding : Type 0 → Type 0 → Type 0 → Type 0
Unwinding E Sys A = Action (Fault E) Sys A

-- `catch_unwind`, with the error that a panic becomes.
abbrev pub catch_unwind : {E Sys A : Type 0} → E → Unwinding E Sys A → Action E Sys A
catch_unwind on_panic m s =
    let (r, s') = m s in
    (elim r [ ok a ↦ ok a | err (raised e) ↦ err e | err panicked ↦ err on_panic ], s')

-- A call whose `Result` is kept.
abbrev pub kept : {E Sys A : Type 0} → Unwinding E Sys A → Unwinding E Sys (Result E A)
kept m s =
    let (r, s') = m s in
    (elim r [ ok a ↦ ok (ok a) | err (raised e) ↦ ok (err e) | err panicked ↦ err panicked ], s')

-- `map_err` of the error that a call returns, the source's `?` at another error type.
abbrev pub convert_err : {E F Sys A : Type 0} → (E → F) → Unwinding E Sys A → Unwinding F Sys A
convert_err f m s =
    let (r, s') = m s in
    (elim r [ ok a ↦ ok a | err (raised e) ↦ err (raised (f e)) | err panicked ↦ err panicked ], s')

-- `Ctx` is `Arc<CudaContext>`, `Ptx` a compiled source, `Module` a loaded one, and `Dev` the device
-- with the stream and the modules that the Kernels use.
pub record Driver (Sys Ctx Ptx Module Dev : Type 0) : Type 0 where
  pub device_count : Unwinding DriverError Sys ℤ
  pub new_context : ℕ → Unwinding DriverError Sys Ctx
  pub ordinal : Ctx → ℕ
  pub name : Ctx → Unwinding DriverError Sys String
  pub compute_capability : Ctx → Unwinding DriverError Sys (ℤ × ℤ)
  pub total_mem : Ctx → Unwinding DriverError Sys ℕ
  pub multiprocessor_count : Ctx → Unwinding DriverError Sys ℤ
  pub mem_get_info : Ctx → Unwinding DriverError Sys (ℕ × ℕ)
  pub disable_event_tracking : Ctx → Sys → Sys
  -- `compile_ptx`, and `compile_ptx_with_opts` for an architecture, by the source's file.
  pub compile_ptx : String → Unwinding ⊤ Sys Ptx
  pub compile_ptx_for : String → String → Unwinding ⊤ Sys Ptx
  pub load_module : Ctx → Ptx → Unwinding DriverError Sys Module
  pub new_stream : Ctx → Module → Option Module → Unwinding DriverError Sys Dev
  -- The value of the environment variable `TENSOR_CORES_ENV`.
  pub tensor_cores_env : Option String
  -- `cuDeviceCanAccessPeer` with its result, `bind_to_thread`, and `cuCtxEnablePeerAccess` with the
  -- `CUresult`: `ok` for `CUDA_SUCCESS`.
  pub can_access_peer : Ctx → Ctx → Unwinding DriverError Sys ℤ
  pub bind_to_thread : Ctx → Unwinding DriverError Sys ⊤
  pub enable_peer_access : Ctx → Unwinding DriverError Sys ⊤
