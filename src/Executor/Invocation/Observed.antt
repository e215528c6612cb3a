-- ===== src/Executor/Invocation/Observed.antt =====
-- What `execute_invocation` records in the observation log (`src/executor.rs`).
use magnetar_provider_cuda.Base.{
  ◌⊎◌, by_cases, Bool, false, ◌==◌, ℕ, suc, ◌≡◌, refl, ap, arith, String, Bool, true, not, none,
  some, is_some, List, [], ◌∷◌, Result, ok, err, ⊤, lookup, Option-cases, Result-cases, inl, inr,
}
use magnetar_provider_cuda.Base.Eq.{string_eq}
use magnetar_provider_cuda.Error.{KernelError, kernel_timeout}
use magnetar_provider_cuda.Platform.{Platform}
use magnetar_provider_cuda.Kernels.Transfer.{expand}
use magnetar_provider_cuda.Executor.State.{
  Executor, store, KernelInvocation, KernelResult, Resource, failure, KernelObservation,
  ObservationKind, dispatch_started, dispatch_completed, dispatch_failed, timed_out,
}
use magnetar_provider_cuda.Executor.Observations.{observe}
use magnetar_provider_cuda.Executor.StepCapture.{record_captured_resources}
use magnetar_provider_cuda.Executor.Dispatch.{FrequencyScaling, input_resource_id}
use magnetar_provider_cuda.Executor.Dispatch.Frame.{run_invocation_with_offer-IsDispatch}
use magnetar_provider_cuda.Executor.Invocation.{
  take_previous_output, offer_previous, restore_offer, take_store, write_rows, run_kv_write,
  run_with_previous_output, expand_inputs, expand_unsupported_compact_inputs,
  run_invocation_uncaptured, run_invocation, execute_invocation, observation,
}

-- Whether the deadline has passed before the start.
abbrev pub has_no_time : KernelInvocation → Bool
has_no_time invocation = elim invocation.deadline_millis [ some n ↦ n == 0 | none ↦ false ]

-- How an invocation with a result is observed to have ended.
abbrev pub outcome_kind : KernelResult → ObservationKind
outcome_kind result = elim result.error [
  | none ↦ dispatch_completed
  | some error ↦ dispatch_failed error
]

module _ {Dev : Type 0} (platform : Platform Dev) (scaling : FrequencyScaling) where
  expand_inputs-observations :
      (name : String) (index : ℕ) (inputs : List Resource) (e : Executor Dev)
      → (expand_inputs platform name index inputs e).1.observations ≡ e.observations
  unfolding expand_inputs
  expand_inputs-observations name index [] e = refl
  expand_inputs-observations name index (input ∷ inputs) e =
      elim (Option-cases (lookup input.id e.storage)) [
        | inl absent ↦ ground (arith, expand_inputs-observations name (suc index) inputs e)
        | inr (buffer, present) ↦
            let (r, kernels) = expand platform buffer e.kernels in
            let e' : Executor Dev = record e { kernels = kernels } in
            elim (Result-cases r) [
              | inl (expanded, done) ↦ ground (
                arith,
                expand_inputs-observations name (suc index) inputs e,
                expand_inputs-observations name (suc index) inputs (store input.id expanded e'),
              )
              | inr (error, failed) ↦
                  ground (arith, expand_inputs-observations name (suc index) inputs e)
            ]
      ]

  run_kv_write-observations :
      (invocation : KernelInvocation) (e : Executor Dev)
      → (run_kv_write platform invocation e).1.observations ≡ e.observations
  unfolding run_kv_write input_resource_id take_store write_rows
  run_kv_write-observations invocation e = ground arith

  take_previous_output-observations :
      (invocation : KernelInvocation) (e : Executor Dev)
      → (take_previous_output invocation e).1.observations ≡ e.observations
  unfolding take_previous_output
  take_previous_output-observations invocation e = ground arith

  run_with_previous_output-observations :
      (invocation : KernelInvocation) (e : Executor Dev)
      → (run_with_previous_output platform scaling invocation e).1.observations ≡ e.observations
  unfolding run_with_previous_output restore_offer offer_previous
  run_with_previous_output-observations invocation e =
      let (taken, e1) = take_previous_output invocation e in
      let start = offer_previous taken e1 in
      let same = take_previous_output-observations invocation e in
      elim (run_invocation_with_offer-IsDispatch platform scaling invocation start) [
        | inl (failed, frame) ↦ ground (arith, ap (λ x. x.observations) frame, same)
        | inr (stored, buffer, named, succeeded, frame) ↦
            ground (arith, ap (λ x. x.observations) frame, same)
      ]

  run_invocation-observations :
      (invocation : KernelInvocation) (e : Executor Dev)
      → (run_invocation platform scaling invocation e).1.observations ≡ e.observations
  unfolding run_invocation run_invocation_uncaptured expand_unsupported_compact_inputs
      record_captured_resources
  run_invocation-observations invocation e =
      let expanded = (expand_inputs platform invocation.kernel_name 0 invocation.inputs e).1 in
      ground (
        arith,
        expand_inputs-observations invocation.kernel_name 0 invocation.inputs e,
        run_kv_write-observations invocation expanded,
        run_with_previous_output-observations invocation expanded,
      )

  -- The result that `run_invocation` gives never has an error of its own.
  abbrev is_clean : Result KernelError KernelResult → Bool
  is_clean (ok result) = not (is_some result.error)
  is_clean (err _) = true

  run_kv_write-is_clean :
      (invocation : KernelInvocation) (e : Executor Dev)
      → is_clean (run_kv_write platform invocation e).0 ≡ true
  unfolding run_kv_write input_resource_id take_store write_rows
  run_kv_write-is_clean invocation e = ground arith

  run_with_previous_output-is_clean :
      (invocation : KernelInvocation) (e : Executor Dev)
      → is_clean (run_with_previous_output platform scaling invocation e).0 ≡ true
  unfolding run_with_previous_output
  run_with_previous_output-is_clean invocation e =
      let (taken, e1) = take_previous_output invocation e in
      let start = offer_previous taken e1 in
      elim (run_invocation_with_offer-IsDispatch platform scaling invocation start) [
        | inl (failed, frame) ↦ ground arith
        | inr (stored, buffer, named, succeeded, frame) ↦ ground arith
      ]

  run_invocation-is_clean :
      (invocation : KernelInvocation) (e : Executor Dev)
      → is_clean (run_invocation platform scaling invocation e).0 ≡ true
  unfolding run_invocation run_invocation_uncaptured expand_unsupported_compact_inputs
  run_invocation-is_clean invocation e =
      let expanded = (expand_inputs platform invocation.kernel_name 0 invocation.inputs e).1 in
      ground (
        arith,
        run_kv_write-is_clean invocation expanded,
        run_with_previous_output-is_clean invocation expanded,
      )

  -- What is observed next depends on the log alone.
  observe-log :
      (o : KernelObservation) (e e' : Executor Dev)
      → e.observations ≡ e'.observations
      → (observe o e).observations ≡ (observe o e').observations
  unfolding observe
  observe-log o e e' same = rw same

  -- Each invocation is observed twice: that it started, then how it ended. One that has no time left
  -- is observed as timed out, and runs nothing; else what is observed last is whether the result has
  -- an error, and which.
  pub execute_invocation-observations :
      (validate : KernelInvocation → Result KernelError ⊤) (invocation : KernelInvocation)
      (e : Executor Dev)
      → let (result, e') = execute_invocation platform scaling validate invocation e in
        let started = observe (observation dispatch_started invocation) e in
        ((has_no_time invocation ≡ true)
          × ((result ≡ failure invocation.id kernel_timeout)
              × (e' ≡ observe (observation timed_out invocation) started)))
        ⊎ ((has_no_time invocation ≡ false)
            × (e'.observations
                ≡ (observe (observation (outcome_kind result) invocation) started).observations))
  unfolding execute_invocation
  execute_invocation-observations validate invocation e =
      let started = observe (observation dispatch_started invocation) e in
      let ran = run_invocation platform scaling invocation started in
      let log = run_invocation-observations invocation started in
      let clean = run_invocation-is_clean invocation started in
      by_cases (has_no_time invocation) (λ no_time. (ground arith, ground arith))
        (λ time. elim (Result-cases (validate invocation)) [
          | inr (error, invalid) ↦ ground arith
          | inl (_, valid) ↦ elim (Result-cases ran.0) [
            | inl (result, succeeded) ↦ ground (
              arith,
              log,
              clean,
              observe-log (observation dispatch_completed invocation) ran.1 started log,
            )
            | inr (error, failed) ↦ ground (
              arith,
              log,
              observe-log (observation (dispatch_failed error) invocation) ran.1 started log,
            )
          ]
        ])
