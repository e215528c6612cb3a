-- ===== src/Executor/Tests/Admission.antt =====
-- Tests of `src/executor.rs`: writes and copies under a memory manager.
use magnetar_provider_cuda.Base.{
  ◌≡◌, refl, arith, lookup, Bool, true, none, some, List, [], ◌∷◌, Result, err, is_ok,
}
use magnetar_provider_cuda.Base.Eq.{string_eq}
use magnetar_provider_cuda.Error.{KernelError, invalid}
use magnetar_provider_cuda.Platform.{HostTensor}
use magnetar_provider_cuda.Platform.Simulated.{Device, simulated}
use magnetar_provider_cuda.Executor.State.{Executor, KernelInvocation}
use magnetar_provider_cuda.Executor.Observations.{observe}
use magnetar_provider_cuda.Executor.Admission.{
  write_tensor_admitted, copy_tensor_admitted, copy_tensor_from_peer_admitted,
  release_admitted_tensor,
}
use magnetar_provider_cuda.Executor.Admission.Outcomes.{IsAdmission}
use magnetar_provider_cuda.Executor.Admission.Laws.{
  IsCopy, write_tensor_admitted-IsAdmission, copies-IsAdmission,
}
use magnetar_provider_cuda.Executor.Admission.Consistency.{
  IsConsistent, AdmittedSteps, done, step, write, copy, release, AdmittedSteps-IsConsistent,
}
use magnetar_provider_cuda.Executor.Dispatch.{FrequencyScaling}
use magnetar_provider_cuda.Executor.Invocation.{execute_invocation}
use magnetar_provider_cuda.Executor.Admitted.{
  admit_output, admit_outputs, is_preadmitted, execute_invocation_with_memory_manager,
}
use magnetar_provider_cuda.Executor.Admitted.Laws.{execute_invocation_with_memory_manager-NoLeak}
use magnetar_provider_cuda.Executor.Tests.{executor0, invocation0}
use magnetar_provider_cuda.Executor.Tests.Memory.{test_manager, test_ledger, live}

abbrev tensor0 : HostTensor
tensor0 = record { shape = 2 ∷ []; values = 1 ∷ 2 ∷ [] }

write_tensor_admitted-IsAdmission_example :
    let (r, s) = write_tensor_admitted simulated test_manager "x" tensor0 0 0 (executor0, []) in
    IsAdmission simulated test_manager test_ledger (is_ok r) "x" (executor0, []) s
write_tensor_admitted-IsAdmission_example =
    write_tensor_admitted-IsAdmission simulated test_manager test_ledger "x" tensor0 0 0 executor0
      []

abbrev written : Executor Device × List Bool
written = (write_tensor_admitted simulated test_manager "x" tensor0 0 0 (executor0, [])).1

abbrev copied : Executor Device × List Bool
copied = (copy_tensor_admitted simulated test_manager "x" "y" 0 0 written).1

abbrev released : Executor Device × List Bool
released = (release_admitted_tensor simulated test_manager "x" copied).1

copies-IsAdmission_example :
    let (r, s) = copy_tensor_admitted simulated test_manager "x" "y" 0 0 written in
    let (r', s') =
      copy_tensor_from_peer_admitted simulated test_manager written.0 "x" "y" 0 0 written in
    IsAdmission simulated test_manager test_ledger (is_ok r) "y" written s
    × IsCopy simulated test_manager test_ledger
        (is_ok r)
        (lookup "x" written.0.storage)
        "y"
        written.0
        s.0
    × IsAdmission simulated test_manager test_ledger (is_ok r') "y" written s'
    × IsCopy simulated test_manager test_ledger
        (is_ok r')
        (lookup "x" written.0.storage)
        "y"
        written.0
        s'.0
copies-IsAdmission_example =
    copies-IsAdmission simulated test_manager test_ledger written.0 "x" "y" 0 0 written.0 written.1

consistent0 : IsConsistent simulated test_manager test_ledger (executor0, [])
consistent0 = (λ id a h. absurd (ground arith), λ i j a h h'. absurd (ground arith))

steps : AdmittedSteps simulated test_manager test_ledger (executor0, []) released
steps =
    step (executor0, []) written released (write "x" tensor0 0 0 executor0 [])
      (step written copied released (copy "x" "y" 0 0 written.0 written.1)
        (step copied released released (release "x" copied.0 copied.1) (done released)))

AdmittedSteps-IsConsistent_example : IsConsistent simulated test_manager test_ledger released
AdmittedSteps-IsConsistent_example =
    AdmittedSteps-IsConsistent simulated test_manager test_ledger (executor0, []) released steps
      consistent0

-- The invocation is not valid: its output's allocation is made, and released again.
abbrev no_scaling : FrequencyScaling
no_scaling attributes = some none

abbrev refuse : KernelInvocation → Result KernelError Unit
refuse invocation = err (invalid 0)

execute_invocation_with_memory_manager-NoLeak_example : live 0 (true ∷ []) ≡ true
unfolding test_ledger execute_invocation_with_memory_manager execute_invocation admit_outputs
    admit_output is_preadmitted observe
execute_invocation_with_memory_manager-NoLeak_example =
    execute_invocation_with_memory_manager-NoLeak simulated no_scaling test_manager test_ledger
      refuse invocation0 executor0 (true ∷ []) 0 refl refl
