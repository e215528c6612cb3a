-- ===== src/Peer.antt =====
-- Access of one device to another's memory (`src/peer.rs`).
use magnetar_provider_cuda.Base.{
  Bool, true, false, ◌==◌, not, if◌then◌else◌, ok, err, ⊤, pure, fail, ◌>>=◌, ◌>>◌,
}
use magnetar_provider_cuda.Error.{DriverError}
use magnetar_provider_cuda.Driver.{Driver, Unwinding, raised, kept}
use magnetar_provider_cuda.Executor.State.{ℤ, pos, negsuc}

-- `CUDA_ERROR_PEER_ACCESS_ALREADY_ENABLED`
abbrev pub peer_access_already_enabled : DriverError
peer_access_already_enabled = DriverError.other 704

-- `i32 != 0`
abbrev is_nonzero : ℤ → Bool
is_nonzero (pos n) = not (n == 0)
is_nonzero (negsuc _) = true

abbrev is_already_enabled : DriverError → Bool
is_already_enabled (DriverError.other n) = n == 704
is_already_enabled _ = false

module _ {Sys Ctx Ptx Module Dev : Type 0} (driver : Driver Sys Ctx Ptx Module Dev) where
  unfoldable pub device_can_access_peer : Ctx → Ctx → Unwinding DriverError Sys Bool
  device_can_access_peer from to = do
    can_access ← driver.can_access_peer from to
    pure (is_nonzero can_access)

  unfoldable pub enable_peer_access : Ctx → Ctx → Unwinding DriverError Sys ⊤
  enable_peer_access from to = do
    driver.bind_to_thread from
    result ← kept (driver.enable_peer_access to)
    elim result [
      | ok _ ↦ pure tt
      | err e ↦ if is_already_enabled e then pure tt else fail (raised e)
    ]
