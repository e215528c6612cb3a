-- ===== src/Executor/Admission/Outcomes.antt =====
-- The outcomes of an admitted write on tracking, storage and ledger (`src/executor.rs`).
use magnetar_provider_cuda.Base.{
  ℕ, ◌≡◌, refl, sym, subst, arith, String, Bool, true, false, not, ◌&&◌, ◌||◌, ◌==◌, ==_iff,
  if◌then◌else◌, Option, none, some, Result, ok, is_ok, lookup, contains_key, lookup-insert,
  lookup-insert_self, ◌⊎◌,
}
use magnetar_provider_cuda.Base.Eq.{string_eq}
use magnetar_provider_cuda.Platform.{Platform}
use magnetar_provider_cuda.Kernels.State.{CudaDeviceBuffer}
use magnetar_provider_cuda.Executor.State.{Executor, MemoryManager, AllocationRequest}
use magnetar_provider_cuda.Executor.State.Ledger.{Ledger}
use magnetar_provider_cuda.Executor.Admission.{replace, release_previous}

abbrev pub is_allocation : Option ℕ → ℕ → Bool
is_allocation none b = false
is_allocation (some a) b = a == b

module _ {Dev Mem : Type 0} (platform : Platform Dev) (manager : MemoryManager Mem)
    (ledger : Ledger manager) where
  -- The state after a write under `id` that was given the allocation `a`: the resource now tracks
  -- `a`, which was not live, and the ledger gains `a` and loses what the resource tracked before.
  abbrev pub IsReplaced : String → ℕ → Executor Dev × Mem → Executor Dev × Mem → Type 0
  IsReplaced id a (e, memory) (e', memory') =
      ((id' : String)
        → lookup id' e'.resource_allocations
          ≡ (if string_eq.beq id id' then some a else lookup id' e.resource_allocations))
      × (ledger.live a memory ≡ false)
      × ((b : ℕ)
          → ledger.live b memory' ≡ (
              ((a == b) || ledger.live b memory)
              && not (is_allocation (lookup id e.resource_allocations) b)))
      × (contains_key id e'.storage ≡ true)

  -- Tracking, storage and ledger are as before.
  abbrev pub IsUntouched : Executor Dev × Mem → Executor Dev × Mem → Type 0
  IsUntouched (e, memory) (e', memory') =
      (e'.resource_allocations ≡ e.resource_allocations)
      × (e'.storage ≡ e.storage)
      × ((b : ℕ) → ledger.live b memory' ≡ ledger.live b memory)

  -- The two outcomes of an admitted write under `id`.
  abbrev pub IsAdmission : Bool → String → Executor Dev × Mem → Executor Dev × Mem → Type 0
  IsAdmission succeeded id s s' =
      ((succeeded ≡ true) × ((a : ℕ) × IsReplaced id a s s'))
      ⊎ ((succeeded ≡ false) × IsUntouched s s')

  pub release_previous-live :
      (previous : Option ℕ) (b : ℕ) (memory : Mem)
      → ledger.live b (release_previous manager previous memory)
        ≡ (ledger.live b memory && not (is_allocation previous b))
  release_previous-live none b memory = ground arith
  release_previous-live (some a) b memory = ground (arith, ledger.release-live a b memory)

  -- Storing a buffer under an allocation that was just made.
  pub replace-IsReplaced :
      (id : String) (request : AllocationRequest) (a : ℕ) (buffer : CudaDeviceBuffer)
      (e e' : Executor Dev) (memory : Mem)
      → (manager.allocate request memory).0 ≡ ok a
      → e'.resource_allocations ≡ e.resource_allocations
      → IsReplaced id a
          (e, memory)
          (replace platform manager id a buffer (e', (manager.allocate request memory).1))
  unfolding replace
  replace-IsReplaced id request a buffer e e' memory allocated same = (
    λ id'. rw same (lookup-insert id id' a e.resource_allocations),
    ledger.allocate-fresh request memory a allocated,
    λ b.
        rw
          (
            same,
            release_previous-live (lookup id e.resource_allocations) b
                (manager.allocate request memory).1,
            ledger.allocate-ok request memory a b allocated,
          )
          refl,
    rw (lookup-insert_self id buffer e'.storage),
  )

  -- Releasing an allocation that was just made leaves the ledger as it was.
  pub release-allocate :
      (request : AllocationRequest) (a b : ℕ) (memory : Mem)
      → (manager.allocate request memory).0 ≡ ok a
      → ledger.live b (manager.release a (manager.allocate request memory).1) ≡ ledger.live b memory
  release-allocate request a b memory allocated = ground (
    arith,
    ledger.release-live a b (manager.allocate request memory).1,
    ledger.allocate-ok request memory a b allocated,
    ledger.allocate-fresh request memory a allocated,
    ==_iff a b,
  )

  pub transport-IsAdmission :
      {E A : Type 0} {x y : Result E A × (Executor Dev × Mem)} (id : String)
      (s : Executor Dev × Mem)
      → x ≡ y
      → IsAdmission (is_ok y.0) id s y.1
      → IsAdmission (is_ok x.0) id s x.1
  transport-IsAdmission id s same h = subst (λ x. IsAdmission (is_ok x.0) id s x.1) (sym same) h
