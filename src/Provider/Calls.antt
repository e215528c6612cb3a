-- ===== src/Provider/Calls.antt =====
-- Calls of the executor that a Provider makes (`src/provider.rs`, `src/executor.rs`).
use magnetar_provider_cuda.Base.{◌≡◌, sym, subst, arith, ℕ, String, none, some, List, Result, ⊤}
use magnetar_provider_cuda.Error.{KernelError}
use magnetar_provider_cuda.Driver.{Driver}
use magnetar_provider_cuda.Device.Pressure.{Float64}
use magnetar_provider_cuda.Platform.{Platform}
use magnetar_provider_cuda.Platform.Allocation.{Allocation, Capacity}
use magnetar_provider_cuda.Executor.State.{Executor, new_executor, KernelInvocation, MemoryManager}
use magnetar_provider_cuda.Executor.Dispatch.{FrequencyScaling}
use magnetar_provider_cuda.Executor.Dispatch.Fits.{IsReady}
use magnetar_provider_cuda.Executor.Calls.{Call, perform_all}
use magnetar_provider_cuda.Executor.Calls.Laws.{AreSound, perform_all-IsReady}
use magnetar_provider_cuda.Provider.{for_device}
use magnetar_provider_cuda.Provider.Laws.{for_device-IsCoherent}

module _ {F Sys Ctx Ptx Module Dev Mem : Type 0} (float : Float64 F)
    (driver : Driver Sys Ctx Ptx Module Dev) (platform : Platform Dev) (scaling : FrequencyScaling)
    (allocation : Allocation platform) (capacity : Capacity platform) (manager : MemoryManager Mem)
    (validate : KernelInvocation → Result KernelError ⊤) where
  -- After any calls of the executor that `for_device` makes, whatever each returns, every stored buffer
  -- holds as many elements as its shape says and has a size from 1 to 2^32 - 1, and nothing is offered
  -- for an output. The host tensors that are written must be as long as their shapes say, the peers
  -- that are copied from must hold such buffers, and the device must give buffers of the length that
  -- is asked for, of such a size, and copies as long as what they copy.
  pub for_device-perform_all :
      (ordinal : ℕ) (provider_name : String) (s : Sys) (e : Executor Dev)
      → (for_device float driver ordinal provider_name s).0.executor ≡ some e
      → (calls : List (Call Dev)) → AreSound calls
      → (memory : Mem)
      → IsReady none (perform_all platform scaling manager validate calls (e, memory)).0
  unfolding new_executor
  for_device-perform_all ordinal provider_name s e made calls sound memory =
      let (d, kernels, is_d, new, offered) =
        (for_device-IsCoherent float driver ordinal provider_name s).bound_executor e made in
      perform_all-IsReady platform scaling allocation capacity manager validate calls sound e memory
        (subst (IsReady none) (sym new)
          (λ id b found. absurd (ground arith), λ slice given. absurd (ground arith)))
