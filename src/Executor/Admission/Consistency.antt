-- ===== src/Executor/Admission/Consistency.antt =====
-- That the executor's table of allocations stays in step with the memory manager's ledger
-- (`src/executor.rs`).
use magnetar_provider_cuda.Base.{
  ℕ, ◌≡◌, arith, String, Bool, true, some, is_ok, lookup, lookup-remove, Option-cases, inl, inr,
}
use magnetar_provider_cuda.Base.Eq.{string_eq}
use magnetar_provider_cuda.Platform.{Platform, HostTensor}
use magnetar_provider_cuda.Executor.State.{Executor, MemoryManager}
use magnetar_provider_cuda.Executor.State.Ledger.{Ledger}
use magnetar_provider_cuda.Executor.Admission.{
  write_tensor_admitted, copy_tensor_admitted, copy_tensor_from_peer_admitted,
  release_admitted_tensor,
}
use magnetar_provider_cuda.Executor.Admission.Outcomes.{
  IsAdmission, IsReplaced, release_previous-live,
}
use magnetar_provider_cuda.Executor.Admission.Laws.{
  write_tensor_admitted-IsAdmission, copies-IsAdmission,
}

module _ {Dev Mem : Type 0} (platform : Platform Dev) (manager : MemoryManager Mem)
    (ledger : Ledger manager) where
  -- Every tracked allocation is live, and no two resources track the same one.
  abbrev pub IsConsistent : Executor Dev × Mem → Type 0
  IsConsistent s =
      ((id : String) (a : ℕ)
        → lookup id s.0.resource_allocations ≡ some a
        → ledger.live a s.1 ≡ true)
      × ((i j : String) (a : ℕ)
          → lookup i s.0.resource_allocations ≡ some a
          → lookup j s.0.resource_allocations ≡ some a
          → i ≡ j)

  IsReplaced-IsConsistent :
      (id : String) (a : ℕ) (e e' : Executor Dev) (memory memory' : Mem)
      → IsReplaced platform manager ledger id a (e, memory) (e', memory')
      → IsConsistent (e, memory)
      → IsConsistent (e', memory')
  IsReplaced-IsConsistent id a e e' memory memory' (tracked, fresh, live, _) (sound, injective) = (
    λ i b h. ground (
      arith,
      tracked i,
      live b,
      fresh,
      sound id b,
      sound i b,
      injective id i b,
      string_eq.beq_iff id i,
      Option-cases (lookup id e.resource_allocations),
    ),
    λ i j b h h'. ground (
      arith,
      tracked i,
      tracked j,
      fresh,
      sound i b,
      sound j b,
      injective i j b,
      string_eq.beq_iff id i,
      string_eq.beq_iff id j,
    ),
  )

  IsAdmission-IsConsistent :
      (succeeded : Bool) (id : String) (e e' : Executor Dev) (memory memory' : Mem)
      → IsAdmission platform manager ledger succeeded id (e, memory) (e', memory')
      → IsConsistent (e, memory)
      → IsConsistent (e', memory')
  IsAdmission-IsConsistent succeeded id e e' memory memory' (inl (_, (a, replaced))) consistent =
      IsReplaced-IsConsistent id a e e' memory memory' replaced consistent
  IsAdmission-IsConsistent succeeded id e e' memory memory' (inr (_, (same, _, live)))
        (sound, injective) =
      (
        λ i b h. ground (arith, same, live b, sound i b),
        λ i j b h h'. ground (arith, same, injective i j b),
      )

  release_admitted_tensor-IsConsistent :
      (id : String) (e : Executor Dev) (memory : Mem)
      → IsConsistent (e, memory)
      → IsConsistent (release_admitted_tensor platform manager id (e, memory)).1
  unfolding release_admitted_tensor
  release_admitted_tensor-IsConsistent id e memory (sound, injective) = (
    λ i b h. ground (
      arith,
      lookup-remove id i e.resource_allocations,
      release_previous-live platform manager ledger (lookup id e.resource_allocations) b memory,
      sound i b,
      injective id i b,
      string_eq.beq_iff id i,
      Option-cases (lookup id e.resource_allocations),
    ),
    λ i j b h h'. ground (
      arith,
      lookup-remove id i e.resource_allocations,
      lookup-remove id j e.resource_allocations,
      injective i j b,
    ),
  )

  -- The calls that write, copy and release under the memory manager, whatever their outcome.
  pub data AdmittedStep : Executor Dev × Mem → Executor Dev × Mem → Type 0 where
    write :
        (id : String) (tensor : HostTensor) (class owner : ℕ) (e : Executor Dev) (memory : Mem)
        → AdmittedStep
            (e, memory)
            (write_tensor_admitted platform manager id tensor class owner (e, memory)).1
    copy :
        (from to : String) (class owner : ℕ) (e : Executor Dev) (memory : Mem)
        → AdmittedStep
            (e, memory)
            (copy_tensor_admitted platform manager from to class owner (e, memory)).1
    copy_from_peer :
        (peer : Executor Dev) (from to : String) (class owner : ℕ) (e : Executor Dev) (memory : Mem)
        → AdmittedStep
            (e, memory)
            (copy_tensor_from_peer_admitted platform manager peer from to class owner (e, memory)).1
    release :
        (id : String) (e : Executor Dev) (memory : Mem)
        → AdmittedStep (e, memory) (release_admitted_tensor platform manager id (e, memory)).1

  pub data AdmittedSteps : Executor Dev × Mem → Executor Dev × Mem → Type 0 where
    done : (s : Executor Dev × Mem) → AdmittedSteps s s
    step :
        (s s' s'' : Executor Dev × Mem)
        → AdmittedStep s s'
        → AdmittedSteps s' s''
        → AdmittedSteps s s''

  AdmittedStep-IsConsistent :
      (s s' : Executor Dev × Mem) → AdmittedStep s s' → IsConsistent s → IsConsistent s'
  AdmittedStep-IsConsistent _ _ (write id tensor class owner e memory) h =
      let s = write_tensor_admitted platform manager id tensor class owner (e, memory) in
      IsAdmission-IsConsistent (is_ok s.0) id e s.1.0 memory s.1.1
        (write_tensor_admitted-IsAdmission platform manager ledger id tensor class owner e memory) h
  AdmittedStep-IsConsistent _ _ (copy from to class owner e memory) h =
      let s = copy_tensor_admitted platform manager from to class owner (e, memory) in
      IsAdmission-IsConsistent (is_ok s.0) to e s.1.0 memory s.1.1
        (copies-IsAdmission platform manager ledger e from to class owner e memory).0 h
  AdmittedStep-IsConsistent _ _ (copy_from_peer peer from to class owner e memory) h =
      let s =
        copy_tensor_from_peer_admitted platform manager peer from to class owner (e, memory) in
      IsAdmission-IsConsistent (is_ok s.0) to e s.1.0 memory s.1.1
        (copies-IsAdmission platform manager ledger peer from to class owner e memory).2 h
  AdmittedStep-IsConsistent _ _ (release id e memory) h =
      release_admitted_tensor-IsConsistent id e memory h

  -- Through any sequence of admitted writes, copies, copies from a peer and releases, failed ones
  -- included, every allocation that the executor tracks stays live in the ledger, and no two
  -- resources come to track the same one.
  pub AdmittedSteps-IsConsistent :
      (s s' : Executor Dev × Mem) → AdmittedSteps s s' → IsConsistent s → IsConsistent s'
  AdmittedSteps-IsConsistent _ _ (done s) h = h
  AdmittedSteps-IsConsistent _ _ (step s s' s'' first rest) h =
      AdmittedSteps-IsConsistent s' s'' rest (AdmittedStep-IsConsistent s s' first h)
