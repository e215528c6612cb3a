-- ===== src/Executor/Admitted/Laws.antt =====
-- What execution with admission promises of the ledger (`src/executor.rs`).
use magnetar_provider_cuda.Base.{
  ℕ, ◌≡◌, sym, subst, arith, String, Bool, true, false, not, ◌&&◌, ◌||◌, ◌==◌, Option, none, some,
  is_some, List, [], ◌∷◌, ◌++◌, Map, Result, ok, err, ⊤, lookup, remove, Option-cases, Result-cases,
  Bool-cases, inl, inr,
}
use magnetar_provider_cuda.Base.Eq.{string_eq}
use magnetar_provider_cuda.Error.{KernelError, kernel_execution_failed}
use magnetar_provider_cuda.Platform.{Platform}
use magnetar_provider_cuda.Executor.State.{
  Executor, KernelInvocation, Resource, memory_infeasible, MemoryManager, AllocationRequest,
}
use magnetar_provider_cuda.Executor.State.Ledger.{Ledger}
use magnetar_provider_cuda.Executor.Admission.{release_previous}
use magnetar_provider_cuda.Executor.Observations.{observe}
use magnetar_provider_cuda.Executor.Dispatch.{FrequencyScaling}
use magnetar_provider_cuda.Executor.Invocation.{execute_invocation, observation}
use magnetar_provider_cuda.Executor.Admitted.{
  Admissions, admit_output, admit_outputs, is_preadmitted, release_all, tensor_class,
  provider_owner, execute_invocation_with_memory_manager,
}

-- Whether an allocation is among the admitted ones.
abbrev pub holds : Map String ℕ → ℕ → Bool
holds [] b = false
holds ((_, a) ∷ admitted) b = a == b || holds admitted b

holds-append :
    (admitted : Map String ℕ) (id : String) (a b : ℕ)
    → holds (admitted ++ (id, a) ∷ []) b ≡ (holds admitted b || a == b)
holds-append [] id a b = ground arith
holds-append ((i, c) ∷ admitted) id a b = ground (arith, holds-append admitted id a b)

module _ {Mem : Type 0} (manager : MemoryManager Mem) (ledger : Ledger manager) where
  release_previous-live_before :
      (previous : Option ℕ) (b : ℕ) (memory : Mem)
      → ledger.live b (release_previous manager previous memory) ≡ true
      → ledger.live b memory ≡ true
  release_previous-live_before none b memory h = h
  release_previous-live_before (some a) b memory h = ground (arith, ledger.release-live a b memory)

  -- Nothing that is released is live, and nothing else changes.
  release_all-live :
      (admitted : Map String ℕ) (b : ℕ) (memory : Mem)
      → ledger.live b (release_all manager admitted memory)
        ≡ (ledger.live b memory && not (holds admitted b))
  release_all-live [] b memory = ground arith
  release_all-live ((id, a) ∷ admitted) b memory = ground (
    arith,
    release_all-live admitted b (manager.release a memory),
    ledger.release-live a b memory,
  )

  -- What is live was live at the start, or was admitted since.
  abbrev Accounted : Mem → Admissions → Mem → Type 0
  Accounted start done memory =
      (b : ℕ) → ledger.live b memory ≡ true → (ledger.live b start || holds done.admitted b) ≡ true

  abbrev NoLeak : Mem → Mem → Type 0
  NoLeak start memory = (b : ℕ) → ledger.live b memory ≡ true → ledger.live b start ≡ true

  -- Giving up releases what was admitted.
  release_all-NoLeak :
      (start memory : Mem) (done : Admissions)
      → Accounted start done memory
      → NoLeak start (release_all manager done.admitted memory)
  release_all-NoLeak start memory done h b live =
      ground (arith, release_all-live done.admitted b memory, h b)

module _ {Dev Mem : Type 0} (manager : MemoryManager Mem) (ledger : Ledger manager) where
  -- Outputs admitted, or the admission given up.
  abbrev IsAccounted : Mem → Result KernelError Admissions × (Executor Dev × Mem) → Type 0
  IsAccounted start (ok done, (e, memory)) = Accounted manager ledger start done memory
  IsAccounted start (err _, (e, memory)) = NoLeak manager ledger start memory

  admit_output-IsAccounted :
      (start : Mem) (invocation : KernelInvocation) (resource : Resource) (done : Admissions)
      (e : Executor Dev) (memory : Mem)
      → Accounted manager ledger start done memory
      → IsAccounted start (admit_output manager invocation resource done (e, memory))
  unfolding admit_output
  admit_output-IsAccounted start invocation resource done e memory h =
      let outcome = admit_output manager invocation resource done (e, memory) in
      let tracked = lookup resource.id e.resource_allocations in
      elim (Bool-cases (is_preadmitted manager resource (e, memory))) [
        | inl preadmitted ↦
            let done' : Admissions = record done { preadmitted = resource.id ∷ done.preadmitted } in
            let e' : Executor Dev = record e {
              resource_allocations = remove resource.id e.resource_allocations;
            } in
            let same : outcome ≡ (ok done', (e', release_previous manager tracked memory)) =
              ground arith in
            subst (IsAccounted start) (sym same)
              (λ b live. h b (release_previous-live_before manager ledger tracked b memory live))
        | inr own ↦ elim (Option-cases resource.byte_size) [
          | inl unsized ↦
              let same : outcome
                  ≡ (err kernel_execution_failed, (e, release_all manager done.admitted memory)) =
                ground arith in
              subst (IsAccounted start) (sym same)
                (release_all-NoLeak manager ledger start memory done h)
          | inr (byte_size, sized) ↦
              let request : AllocationRequest = record {
                class = tensor_class;
                byte_size = byte_size;
                owner = provider_owner;
              } in
              let memory' = (manager.allocate request memory).1 in
              elim (Result-cases (manager.allocate request memory).0) [
                | inl (a, allocated) ↦
                    let done' : Admissions = record done {
                      admitted = done.admitted ++ (resource.id, a) ∷ [];
                    } in
                    let same : outcome ≡ (ok done', (e, memory')) = ground arith in
                    subst (IsAccounted start) (sym same) (λ b live. ground (
                      arith,
                      ledger.allocate-ok request memory a b allocated,
                      holds-append done.admitted resource.id a b,
                      h b,
                    ))
                | inr (error, denied) ↦
                    let e' = observe (observation memory_infeasible invocation) e in
                    let same : outcome ≡ (
                      err kernel_execution_failed,
                      (e', release_all manager done.admitted memory'),
                    ) =
                      ground arith in
                    subst (IsAccounted start) (sym same) (
                      release_all-NoLeak manager ledger start memory' done (λ b live.
                        ground (arith, ledger.allocate-err request memory error b denied, h b)))
              ]
        ]
      ]

  admit_outputs-IsAccounted :
      (start : Mem) (invocation : KernelInvocation) (resources : List Resource) (done : Admissions)
      (e : Executor Dev) (memory : Mem)
      → Accounted manager ledger start done memory
      → IsAccounted start (admit_outputs manager invocation resources done (e, memory))
  unfolding admit_outputs
  admit_outputs-IsAccounted start invocation [] done e memory h = h
  admit_outputs-IsAccounted start invocation (resource ∷ resources) done e memory h =
      let (r, (e', memory')) = admit_output manager invocation resource done (e, memory) in
      let first = admit_output-IsAccounted start invocation resource done e memory h in
      elim (Result-cases r) [
        | inl (done', admitted) ↦
            let same : admit_outputs manager invocation (resource ∷ resources) done (e, memory)
                ≡ admit_outputs manager invocation resources done' (e', memory') =
              ground arith in
            let here = subst (λ x. IsAccounted start (x, (e', memory'))) admitted first in
            subst (IsAccounted start) (sym same)
              (admit_outputs-IsAccounted start invocation resources done' e' memory' here)
        | inr (error, refused) ↦
            let same : admit_outputs manager invocation (resource ∷ resources) done (e, memory)
                ≡ (err error, (e', memory')) =
              ground arith in
            subst (IsAccounted start) (sym same)
              (subst (λ x. IsAccounted start (x, (e', memory'))) refused first)
      ]

module _ {Dev Mem : Type 0} (platform : Platform Dev) (scaling : FrequencyScaling)
    (manager : MemoryManager Mem) (ledger : Ledger manager) where
  -- An invocation that fails leaks nothing: whether an output could not be admitted, the invocation
  -- was not valid or its Kernel failed, every allocation that is live afterwards was live before.
  pub execute_invocation_with_memory_manager-NoLeak :
      (validate : KernelInvocation → Result KernelError ⊤) (invocation : KernelInvocation)
      (e : Executor Dev) (memory : Mem) (b : ℕ)
      → let (result, (_, memory')) =
          execute_invocation_with_memory_manager platform scaling manager validate invocation
            (e, memory) in
        is_some result.error ≡ true → ledger.live b memory' ≡ true → ledger.live b memory ≡ true
  unfolding execute_invocation_with_memory_manager
  execute_invocation_with_memory_manager-NoLeak validate invocation e memory b failed live =
      let start : Admissions = record { admitted = []; preadmitted = [] } in
      let (r, (e', memory')) =
        admit_outputs manager invocation invocation.outputs start (e, memory) in
      let accounted =
        admit_outputs-IsAccounted manager ledger memory invocation invocation.outputs start e memory
          (λ b live. ground arith) in
      elim (Result-cases r) [
        | inr (error, refused) ↦
            let same : (execute_invocation_with_memory_manager platform scaling manager validate
                  invocation (e, memory)).1.1
                ≡ memory' =
              ground arith in
            subst (λ x. IsAccounted manager ledger memory (x, (e', memory'))) refused accounted b
              (ground arith)
        | inl (done, admitted) ↦
            let here =
              subst (λ x. IsAccounted manager ledger memory (x, (e', memory'))) admitted
                accounted in
            let result = (execute_invocation platform scaling validate invocation e').0 in
            elim (Option-cases result.error) [
              | inl clean ↦ absurd (ground arith)
              | inr (error, bad) ↦
                  ground (arith, release_all-NoLeak manager ledger memory memory' done here b)
            ]
      ]
