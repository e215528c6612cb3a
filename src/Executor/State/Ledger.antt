-- ===== src/Executor/State/Ledger.antt =====
-- What `src/executor.rs` relies on in the Runtime's memory manager: an allocation is live from
-- `allocate` to `release`, `allocate` gives one that was not live, and a call that fails and a
-- residency record change no allocation.
use magnetar_provider_cuda.Base.{ℕ, ◌≡◌, ◌==◌, ◌&&◌, ◌||◌, not, Bool, false, String, ok, err}
use magnetar_provider_cuda.Executor.State.Runtime.{MemoryManager, AllocationRequest, MemoryError}

pub record Ledger {Mem : Type 0} (manager : MemoryManager Mem) : Type 0 where
  pub live : ℕ → Mem → Bool
  pub allocate-fresh :
      (request : AllocationRequest) (memory : Mem) (a : ℕ)
      → (manager.allocate request memory).0 ≡ ok a
      → live a memory ≡ false
  pub allocate-ok :
      (request : AllocationRequest) (memory : Mem) (a b : ℕ)
      → (manager.allocate request memory).0 ≡ ok a
      → live b (manager.allocate request memory).1 ≡ ((a == b) || live b memory)
  pub allocate-err :
      (request : AllocationRequest) (memory : Mem) (error : MemoryError) (b : ℕ)
      → (manager.allocate request memory).0 ≡ err error
      → live b (manager.allocate request memory).1 ≡ live b memory
  pub release-live :
      (a b : ℕ) (memory : Mem) → live b (manager.release a memory) ≡ (not (a == b) && live b memory)
  pub record_residency-live :
      (id : String) (a b : ℕ) (memory : Mem)
      → live b (manager.record_residency id a memory) ≡ live b memory
