-- ===== src/Executor/Invocation.antt =====
-- One invocation in `CudaExecutor` (`src/executor.rs`), from its validation to its result.
pub mod Laws
pub mod Observed
pub mod Found
pub mod Fits
pub mod Stored
use magnetar_provider_cuda.Base.{
  ℕ, suc, ◌+◌, ◌≡◌, String, Bool, true, false, ◌||◌, ◌==◌, not, any, if◌then◌else◌, Option, none,
  some, is_some, List, [], ◌∷◌, Map, Result, ok, err, is_ok, ⊤, Action, pure, fail, ◌>>=◌, ◌>>◌,
  gets, modify, lift, ok_or, lookup, insert, remove, get_elem?,
}
use magnetar_provider_cuda.Base.Eq.{Eq, string_eq}
use magnetar_provider_cuda.Error.{
  KernelError, CudaError, kernel_execution_failed, kernel_attribute_unsupported, kernel_timeout,
  to_kernel_error,
}
use magnetar_provider_cuda.Platform.{Platform, Slice}
use magnetar_provider_cuda.Kernels.State.{
  Kernels, CudaDeviceBuffer, is_compact, offer_output, reclaim,
}
use magnetar_provider_cuda.Kernels.Transfer.{expand, kv_write, clone_buffer, f32_buffer}
use magnetar_provider_cuda.Executor.State.{
  Executor, ExecutorAction, on_kernels, kernel_call, store, KernelInvocation, KernelResult,
  Resource, failure, KernelObservation, ObservationKind, dispatch_started, dispatch_completed,
  timed_out, dispatch_failed,
}
use magnetar_provider_cuda.Executor.Observations.{observe}
use magnetar_provider_cuda.Executor.StepCapture.{record_captured_resources}
use magnetar_provider_cuda.Executor.Attributes.{attribute_integer}
use magnetar_provider_cuda.Executor.Names.{with_output}
use magnetar_provider_cuda.Executor.Dispatch.{
  FrequencyScaling, input_resource_id, run_invocation_with_offer,
}

-- The inputs that a Kernel reads in compact form.
unfoldable pub reads_compact : String → ℕ → Bool
reads_compact name index =
    if string_eq.beq name "matmul"
      || string_eq.beq name "matmul-bias"
      || string_eq.beq name "matmul-residual"
    then index == 1
    else if string_eq.beq name "gated-matmul"
    then index == 1 || index == 2
    else if string_eq.beq name "embedding"
    then index == 0
    else false

abbrev pub has_id : String → List Resource → Bool
has_id id = any (λ resource. string_eq.beq resource.id id)

abbrev pub observation : ObservationKind → KernelInvocation → KernelObservation
observation kind invocation = record {
  kind = kind;
  kernel_name = invocation.kernel_name;
  invocation = invocation.id;
}

module _ {Dev : Type 0} where
  -- The output's previous buffer, taken from the storage: none when an input reads the same
  -- resource, or when it is compact.
  unfoldable pub take_previous_output :
      KernelInvocation → Executor Dev → Option (String × CudaDeviceBuffer) × Executor Dev
  take_previous_output invocation e = elim (get_elem? invocation.outputs 0) [
    | none ↦ (none, e)
    | some output ↦
        if has_id output.id invocation.inputs
        then (none, e)
        else elim (lookup output.id e.storage) [
          | none ↦ (none, e)
          | some buffer ↦
              if is_compact buffer
              then (none, e)
              else (some (output.id, buffer), record e { storage = remove output.id e.storage })
        ]
  ]

  -- Offers the buffer that was taken to the Kernel.
  unfoldable pub offer_previous : Option (String × CudaDeviceBuffer) → Executor Dev → Executor Dev
  offer_previous taken e =
      let slice : Option Slice = elim taken [
        | some (_, buffer) ↦ some buffer.slice
        | none ↦ none
      ] in
      record e { kernels = offer_output slice e.kernels }

  -- After the dispatch nothing stays offered; when it failed, a buffer that no Kernel took goes back.
  unfoldable pub restore_offer :
      Option (String × CudaDeviceBuffer) → Bool → Executor Dev → Executor Dev
  restore_offer taken succeeded e =
      let (left, kernels) = reclaim e.kernels in
      let e' : Executor Dev = record e { kernels = kernels } in
      if succeeded then e' else elim taken [
        | some (id, buffer) ↦ elim left [
          | some slice ↦ store id (f32_buffer slice buffer.shape) e'
          | none ↦ e'
        ]
        | none ↦ e'
      ]

module _ {Dev : Type 0} (platform : Platform Dev) where
  -- The loop of `expand_unsupported_compact_inputs`, at an index.
  unfoldable pub expand_inputs : String → ℕ → List Resource → ExecutorAction KernelError Dev ⊤
  expand_inputs name index [] e = (ok tt, e)
  expand_inputs name index (input ∷ inputs) e =
      let rest = expand_inputs name (suc index) inputs in
      elim (lookup input.id e.storage) [
        | none ↦ rest e
        | some buffer ↦
            if reads_compact name index || not (is_compact buffer)
            then rest e
            else (do
              expanded ← kernel_call (expand platform buffer)
              modify (store input.id expanded)
              rest)
                e
      ]

  unfoldable pub expand_unsupported_compact_inputs :
      KernelInvocation → ExecutorAction KernelError Dev ⊤
  expand_unsupported_compact_inputs invocation =
      expand_inputs invocation.kernel_name 0 invocation.inputs

  -- The store itself, out of the storage, when the output is the store; else a copy of it.
  unfoldable pub take_store : String → String → ExecutorAction KernelError Dev CudaDeviceBuffer
  take_store store_id output_id e = elim (lookup store_id e.storage) [
    | none ↦ (err kernel_execution_failed, e)
    | some buffer ↦
        if string_eq.beq output_id store_id
        then (ok buffer, record e { storage = remove store_id e.storage })
        else kernel_call (clone_buffer platform buffer) e
  ]

  -- The rows' write, whose outcome is kept.
  unfoldable pub write_rows :
      CudaDeviceBuffer → String → ℕ → Executor Dev → Result KernelError ⊤ × Executor Dev
  write_rows store rows_id row_offset e = elim (lookup rows_id e.storage) [
    | some rows ↦ kernel_call (kv_write platform store rows row_offset) e
    | none ↦ (err kernel_execution_failed, e)
  ]

  unfoldable pub run_kv_write : KernelInvocation → ExecutorAction KernelError Dev KernelResult
  unfolding input_resource_id take_store write_rows
  run_kv_write invocation = do
    row_offset ←
        ok_or (attribute_integer invocation.attributes "row_offset") kernel_attribute_unsupported
    store_id ← input_resource_id invocation 0
    rows_id ← input_resource_id invocation 1
    output ← ok_or (get_elem? invocation.outputs 0) kernel_execution_failed
    buffer ← take_store store_id output.id
    written ← (λ e. let (r, e') = write_rows buffer rows_id row_offset e in (ok r, e'))
    modify (store output.id buffer)
    lift written
    pure (with_output invocation output)

module _ {Dev : Type 0} (platform : Platform Dev) (scaling : FrequencyScaling) where
  -- The dispatch with the previous output offered.
  unfoldable pub run_with_previous_output :
      KernelInvocation → ExecutorAction KernelError Dev KernelResult
  run_with_previous_output invocation e =
      let (taken, e1) = take_previous_output invocation e in
      let (result, e2) =
        run_invocation_with_offer platform scaling invocation (offer_previous taken e1) in
      (result, restore_offer taken (is_ok result) e2)

  unfoldable pub run_invocation_uncaptured :
      KernelInvocation → ExecutorAction KernelError Dev KernelResult
  unfolding expand_unsupported_compact_inputs
  run_invocation_uncaptured invocation =
      expand_unsupported_compact_inputs platform invocation
      >> (if string_eq.beq invocation.kernel_name "kv-write"
          then run_kv_write platform invocation
          else run_with_previous_output invocation)

  unfoldable pub run_invocation : KernelInvocation → ExecutorAction KernelError Dev KernelResult
  run_invocation invocation e =
      let (result, e') = run_invocation_uncaptured invocation e in
      (result, if is_ok result then record_captured_resources invocation e' else e')

  -- `validate` is the Runtime's `validate_invocation` for the advertisement and the operator.
  unfoldable pub execute_invocation :
      (KernelInvocation → Result KernelError ⊤)
      → KernelInvocation
      → Executor Dev
      → KernelResult × Executor Dev
  unfolding run_invocation
  execute_invocation validate invocation e =
      let started = observe (observation dispatch_started invocation) e in
      if (elim invocation.deadline_millis [ some n ↦ n == 0 | none ↦ false ])
      then (
        failure invocation.id kernel_timeout,
        observe (observation timed_out invocation) started,
      )
      else let (outcome, e') = (lift (validate invocation) >> run_invocation invocation) started in
        elim outcome [
          | ok result ↦ (result, observe (observation dispatch_completed invocation) e')
          | err error ↦ (
            failure invocation.id error,
            observe (observation (dispatch_failed error) invocation) e',
          )
        ]
