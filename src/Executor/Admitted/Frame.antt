-- ===== src/Executor/Admitted/Frame.antt =====
-- What an execution leaves alone (`src/executor.rs`): the ordinal and the results of submissions.
use magnetar_provider_cuda.Base.{
  ◌≡◌, refl, arith, ℕ, suc, String, List, [], ◌∷◌, Result, ⊤, ◌||◌, not, Option-cases, Result-cases,
  Bool-cases, inl, inr, lookup,
}
use magnetar_provider_cuda.Base.Eq.{string_eq}
use magnetar_provider_cuda.Error.{KernelError}
use magnetar_provider_cuda.Platform.{Platform}
use magnetar_provider_cuda.Kernels.State.{is_compact}
use magnetar_provider_cuda.Kernels.Transfer.{expand}
use magnetar_provider_cuda.Executor.State.{
  Executor, KernelInvocation, Resource, MemoryManager, store, dispatch_started,
}
use magnetar_provider_cuda.Executor.Observations.{observe}
use magnetar_provider_cuda.Executor.StepCapture.{record_captured_resources}
use magnetar_provider_cuda.Executor.Dispatch.{FrequencyScaling, input_resource_id}
use magnetar_provider_cuda.Executor.Dispatch.Frame.{run_invocation_with_offer-IsDispatch}
use magnetar_provider_cuda.Executor.Invocation.{
  expand_inputs, expand_unsupported_compact_inputs, reads_compact, take_store, write_rows,
  run_kv_write, take_previous_output, offer_previous, restore_offer, run_with_previous_output,
  run_invocation_uncaptured, run_invocation, execute_invocation, observation,
}
use magnetar_provider_cuda.Executor.Invocation.Laws.{take_previous_output-cases}
use magnetar_provider_cuda.Executor.Admitted.{
  Admissions, admit_output, admit_outputs, record_output, record_outputs,
  execute_invocation_with_memory_manager,
}

module _ {Dev : Type 0} where
  -- The next ordinal and the results that are kept for handles are the same.
  abbrev pub KeepsSubmissions : Executor Dev → Executor Dev → Type 0
  KeepsSubmissions e e' =
      (e'.next_execution_ordinal ≡ e.next_execution_ordinal)
      × (e'.kernel_executions ≡ e.kernel_executions)

module _ {Dev : Type 0} (platform : Platform Dev) (scaling : FrequencyScaling) where
  expand_inputs-KeepsSubmissions :
      (name : String) (index : ℕ) (inputs : List Resource) (e : Executor Dev)
      → KeepsSubmissions e (expand_inputs platform name index inputs e).1
  unfolding expand_inputs
  expand_inputs-KeepsSubmissions name index [] e = (refl, refl)
  expand_inputs-KeepsSubmissions name index (input ∷ inputs) e =
      elim (Option-cases (lookup input.id e.storage)) [
        | inl absent ↦ ground (arith, expand_inputs-KeepsSubmissions name (suc index) inputs e)
        | inr (buffer, present) ↦
            elim (Bool-cases (reads_compact name index || not (is_compact buffer))) [
              | inl read ↦ ground (arith, expand_inputs-KeepsSubmissions name (suc index) inputs e)
              | inr expanded ↦
                  let (r, k) = expand platform buffer e.kernels in
                  let e1 : Executor Dev = record e { kernels = k } in
                  elim (Result-cases r) [
                    | inr (error, failed) ↦ ground arith
                    | inl (full, made) ↦
                        let e2 : Executor Dev = store input.id full e1 in
                        ground (arith, expand_inputs-KeepsSubmissions name (suc index) inputs e2)
                  ]
            ]
      ]

  run_kv_write-KeepsSubmissions :
      (invocation : KernelInvocation) (e : Executor Dev)
      → KeepsSubmissions e (run_kv_write platform invocation e).1
  unfolding run_kv_write input_resource_id take_store write_rows
  run_kv_write-KeepsSubmissions invocation e = ground arith

  run_with_previous_output-KeepsSubmissions :
      (invocation : KernelInvocation) (e : Executor Dev)
      → KeepsSubmissions e (run_with_previous_output platform scaling invocation e).1
  unfolding run_with_previous_output restore_offer offer_previous
  run_with_previous_output-KeepsSubmissions invocation e =
      let (taken, e1) = take_previous_output invocation e in
      let start = offer_previous taken e1 in
      let dispatch = run_invocation_with_offer-IsDispatch platform scaling invocation start in
      elim (take_previous_output-cases invocation e) [
        | inl nothing ↦ elim dispatch [
          | inl (_, frame) ↦ ground (arith, frame)
          | inr (_, _, _, _, frame) ↦ ground (arith, frame)
        ]
        | inr (output, buffer, _, took, _, _) ↦ elim dispatch [
          | inl (_, frame) ↦ ground (arith, frame)
          | inr (_, _, _, _, frame) ↦ ground (arith, frame)
        ]
      ]

  run_invocation-KeepsSubmissions :
      (invocation : KernelInvocation) (e : Executor Dev)
      → KeepsSubmissions e (run_invocation platform scaling invocation e).1
  unfolding run_invocation run_invocation_uncaptured expand_unsupported_compact_inputs
      record_captured_resources
  run_invocation-KeepsSubmissions invocation e =
      let expanded = (expand_inputs platform invocation.kernel_name 0 invocation.inputs e).1 in
      ground (
        arith,
        expand_inputs-KeepsSubmissions invocation.kernel_name 0 invocation.inputs e,
        run_kv_write-KeepsSubmissions invocation expanded,
        run_with_previous_output-KeepsSubmissions invocation expanded,
      )

  execute_invocation-KeepsSubmissions :
      (validate : KernelInvocation → Result KernelError ⊤) (invocation : KernelInvocation)
      (e : Executor Dev)
      → KeepsSubmissions e (execute_invocation platform scaling validate invocation e).1
  unfolding execute_invocation observe
  execute_invocation-KeepsSubmissions validate invocation e =
      let started = observe (observation dispatch_started invocation) e in
      ground (arith, run_invocation-KeepsSubmissions invocation started)

module _ {Dev Mem : Type 0} (manager : MemoryManager Mem) where
  admit_output-KeepsSubmissions :
      (invocation : KernelInvocation) (resource : Resource) (done : Admissions)
      (s : Executor Dev × Mem)
      → KeepsSubmissions s.0 (admit_output manager invocation resource done s).1.0
  unfolding admit_output observe
  admit_output-KeepsSubmissions invocation resource done s = ground arith

  admit_outputs-KeepsSubmissions :
      (invocation : KernelInvocation) (resources : List Resource) (done : Admissions)
      (s : Executor Dev × Mem)
      → KeepsSubmissions s.0 (admit_outputs manager invocation resources done s).1.0
  unfolding admit_outputs
  admit_outputs-KeepsSubmissions invocation [] done s = (refl, refl)
  admit_outputs-KeepsSubmissions invocation (resource ∷ resources) done s =
      let (r, s') = admit_output manager invocation resource done s in
      let here = admit_output-KeepsSubmissions invocation resource done s in
      elim (Result-cases r) [
        | inl (done', admitted) ↦
            ground (arith, here, admit_outputs-KeepsSubmissions invocation resources done' s')
        | inr (error, refused) ↦ ground (arith, here)
      ]

  record_outputs-KeepsSubmissions :
      (done : Admissions) (resources : List Resource) (s : Executor Dev × Mem)
      → KeepsSubmissions s.0 (record_outputs manager done resources s).0
  unfolding record_outputs record_output
  record_outputs-KeepsSubmissions done [] s = (refl, refl)
  record_outputs-KeepsSubmissions done (resource ∷ resources) s =
      let s' = record_output manager done resource s in
      let here : KeepsSubmissions s.0 s'.0 = ground arith in
      ground (arith, here, record_outputs-KeepsSubmissions done resources s')

module _ {Dev Mem : Type 0} (platform : Platform Dev) (scaling : FrequencyScaling)
    (manager : MemoryManager Mem) (validate : KernelInvocation → Result KernelError ⊤) where
  -- An execution with admission, whatever its outcome, takes no ordinal and no result of a handle.
  pub execute_invocation_with_memory_manager-KeepsSubmissions :
      (invocation : KernelInvocation) (s : Executor Dev × Mem)
      → KeepsSubmissions s.0
          (execute_invocation_with_memory_manager platform scaling manager validate invocation
            s).1.0
  unfolding execute_invocation_with_memory_manager
  execute_invocation_with_memory_manager-KeepsSubmissions invocation s =
      let start : Admissions = record { admitted = []; preadmitted = [] } in
      let (r, (e, memory)) = admit_outputs manager invocation invocation.outputs start s in
      let before = admit_outputs-KeepsSubmissions manager invocation invocation.outputs start s in
      let (result, e') = execute_invocation platform scaling validate invocation e in
      let ran = execute_invocation-KeepsSubmissions platform scaling validate invocation e in
      elim (Result-cases r) [
        | inr (error, refused) ↦ ground (arith, before)
        | inl (done, admitted) ↦
            let after =
              record_outputs-KeepsSubmissions manager done result.updated_resources (e', memory) in
            ground (arith, before, ran, after)
      ]
