-- ===== src/Executor/Tests/Memory.antt =====
-- A memory manager that runs, for the tests of `src/executor.rs`: its state says of each allocation
-- it ever made whether it is live, and a request above 1000 bytes is denied.
use magnetar_provider_cuda.Base.{
  ℕ, zero, suc, ◌≡◌, refl, arith, Bool, true, false, not, ◌&&◌, ◌||◌, ◌==◌, ltb, if◌then◌else◌,
  none, List, [], ◌∷◌, ◌++◌, length, Result, ok, err,
}
use magnetar_provider_cuda.Executor.State.{MemoryManager, MemoryError, AllocationRequest}
use magnetar_provider_cuda.Executor.State.Ledger.{Ledger}

abbrev pub live : ℕ → List Bool → Bool
live b [] = false
live zero (x ∷ memory) = x
live (suc b) (x ∷ memory) = live b memory

abbrev pub free : ℕ → List Bool → List Bool
free a [] = []
free zero (x ∷ memory) = false ∷ memory
free (suc a) (x ∷ memory) = x ∷ free a memory

abbrev pub allocate : AllocationRequest → List Bool → Result MemoryError ℕ × List Bool
allocate request memory =
    if ltb 1000 request.byte_size
    then (err MemoryError.allocation_denied, memory)
    else (ok (length memory), memory ++ true ∷ [])

abbrev pub test_manager : MemoryManager (List Bool)
test_manager = record {
  allocate = allocate;
  release = free;
  residency = λ id memory. none;
  record_residency = λ id a memory. memory;
}

pub live-length : (memory : List Bool) → live (length memory) memory ≡ false
live-length [] = refl
live-length (x ∷ memory) = live-length memory

pub live-append :
    (b : ℕ) (memory : List Bool)
    → live b (memory ++ true ∷ []) ≡ (length memory == b || live b memory)
live-append zero [] = refl
live-append (suc b) [] = ground arith
live-append zero (x ∷ memory) = ground arith
live-append (suc b) (x ∷ memory) = ground (arith, live-append b memory)

pub live-free :
    (a b : ℕ) (memory : List Bool) → live b (free a memory) ≡ (not (a == b) && live b memory)
live-free a b [] = ground arith
live-free zero zero (x ∷ memory) = refl
live-free zero (suc b) (x ∷ memory) = ground arith
live-free (suc a) zero (x ∷ memory) = ground arith
live-free (suc a) (suc b) (x ∷ memory) = ground (arith, live-free a b memory)

unfoldable pub test_ledger : Ledger test_manager
test_ledger = record {
  live = live;
  allocate-fresh = λ request memory a h. ground (arith, live-length memory);
  allocate-ok = λ request memory a b h. ground (arith, live-append b memory);
  allocate-err = λ request memory error b h. ground arith;
  release-live = live-free;
  record_residency-live = λ id a b memory. refl;
}
