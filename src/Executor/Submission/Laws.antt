-- ===== src/Executor/Submission/Laws.antt =====
-- What submission promises (`src/executor.rs`): the handles of `submit`, and of `submit_kernel`.
use magnetar_provider_cuda.Base.{
  sym, Map, insert, Bool-cases, inl, inr, ℕ, ◌+◌, ◌≡◌, refl, ◌∙◌, ap, arith, ◌<◌, ◌^◌, ◌≢◌, Bool,
  true, false, if◌then◌else◌, some, List, [], ◌∷◌, Result, ok, is_ok, ⊤, lookup, contains_key,
  lookup-insert, lookup-remove, lookup-insert_self, lookup-remove_self, Option-cases,
}
use magnetar_provider_cuda.Executor.State.{
  Executor, ExecutionId, made, numbered, execution_eq, execution_beq, ProviderExecutionRequest,
  ProviderExecutionHandle, KernelInvocation, KernelResult, MemoryManager,
}
use magnetar_provider_cuda.Executor.Submission.{
  submit, status, complete, release, submit_kernel_invocation, complete_kernel_invocation,
  next_provider_execution_id,
}
use magnetar_provider_cuda.Error.{KernelError}
use magnetar_provider_cuda.Platform.{Platform}
use magnetar_provider_cuda.Executor.Dispatch.{FrequencyScaling}
use magnetar_provider_cuda.Executor.Admitted.{execute_invocation_with_memory_manager}
use magnetar_provider_cuda.Executor.Admitted.Frame.{
  execute_invocation_with_memory_manager-KeepsSubmissions,
}

-- What a caller does with handles.
pub data Event : Type 0 where
  submitted : ProviderExecutionRequest → Event
  completed : ProviderExecutionHandle → Event
  released : ProviderExecutionHandle → Event

-- Whether the handle with an id is open after one more event.
abbrev pub is_open_after : Event → ExecutionId → Bool → Bool
is_open_after (submitted request) id was =
    if execution_beq (made request.handle_id) id then true else was
is_open_after (completed handle) id was = if execution_beq handle.id id then false else was
is_open_after (released handle) id was = if execution_beq handle.id id then false else was

-- The specification: the handle's state after events, from its state before.
abbrev pub is_open : List Event → ExecutionId → Bool → Bool
is_open [] id was = was
is_open (event ∷ events) id was = is_open events id (is_open_after event id was)

abbrev ordinal : ExecutionId → ℕ
ordinal (made _) = 0
ordinal (numbered _ _ n) = n

execution_beq_ne : (id id' : ExecutionId) → id ≢ id' → execution_beq id id' ≡ false
execution_beq_ne id id' other = elim (Bool-cases (execution_beq id id')) [
  | inl same ↦ absurd (other ((execution_eq.beq_iff id id').0 same))
  | inr differ ↦ differ
]

-- A result is still there after one under another id.
lookup-later :
    (id id' : ExecutionId) (result result' : KernelResult)
    (results results' : Map ExecutionId KernelResult)
    → id' ≢ id
    → results' ≡ insert id result results
    → lookup id (insert id' result' results') ≡ some result
lookup-later id id' result result' results results' other kept = ground (
  arith,
  kept,
  execution_beq_ne id' id other,
  lookup-insert id' id result' results',
  lookup-insert_self id result results,
)

module _ {Dev : Type 0} where
  abbrev pub run_event : Event → Executor Dev → Executor Dev
  run_event (submitted request) e = (submit request e).1
  run_event (completed handle) e = (complete handle e).1
  run_event (released handle) e = (release handle e).1

  abbrev pub run_events : List Event → Executor Dev → Executor Dev
  run_events [] e = e
  run_events (event ∷ events) e = run_events events (run_event event e)

  contains_key-run_event :
      (event : Event) (id : ExecutionId) (e : Executor Dev)
      → contains_key id (run_event event e).submitted
        ≡ is_open_after event id (contains_key id e.submitted)
  unfolding submit complete release
  contains_key-run_event (submitted request) id e =
      ground (arith, lookup-insert (made request.handle_id) id request e.submitted)
  contains_key-run_event (completed handle) id e =
      ground
        (arith, lookup-remove handle.id id e.submitted, Option-cases (lookup handle.id e.submitted))
  contains_key-run_event (released handle) id e =
      ground (arith, lookup-remove handle.id id e.submitted)

  contains_key-run_events :
      (events : List Event) (id : ExecutionId) (e : Executor Dev)
      → contains_key id (run_events events e).submitted
        ≡ is_open events id (contains_key id e.submitted)
  contains_key-run_events [] id e = refl
  contains_key-run_events (event ∷ events) id e =
      contains_key-run_events events id (run_event event e)
      ∙ ap (is_open events id) (contains_key-run_event event id e)

  -- The submissions are a set of open handles: after any sequence of submissions, completions and
  -- releases, `status` and `complete` succeed exactly on the handles that were submitted and not
  -- completed or released since. `complete` closes its handle, and `status` changes nothing.
  pub status-run_events :
      (events : List Event) (handle : ProviderExecutionHandle) (e : Executor Dev)
      → let e' = run_events events e in
        let open_handle = is_open events handle.id (contains_key handle.id e.submitted) in
        (is_ok (status handle e').0 ≡ open_handle)
        × ((status handle e').1 ≡ e')
        × (is_ok (complete handle e').0 ≡ open_handle)
        × (is_ok (complete handle (complete handle e').1).0 ≡ false)
  unfolding status complete
  status-run_events events handle e =
      let e' = run_events events e in
      let now = contains_key-run_events events handle.id e in
      (
        ground (arith, now),
        ground arith,
        ground (arith, now),
        ground (
          arith,
          lookup-remove_self handle.id e'.submitted,
          Option-cases (lookup handle.id e'.submitted),
        ),
      )

  -- Two results are handed out once each, under their own handles.
  complete_kernel_invocation-both :
      (handle handle' : ProviderExecutionHandle) (result result' : KernelResult) (e : Executor Dev)
      → handle'.id ≢ handle.id
      → lookup handle.id e.kernel_executions ≡ some result
      → lookup handle'.id e.kernel_executions ≡ some result'
      → let (first, e') = complete_kernel_invocation handle e in
        (first ≡ ok result)
        × (is_ok (complete_kernel_invocation handle e').0 ≡ false)
        × ((complete_kernel_invocation handle' e').0 ≡ ok result')
  unfolding complete_kernel_invocation
  complete_kernel_invocation-both handle handle' result result' e other h h' =
      let apart = execution_beq_ne handle.id handle'.id (λ same. other (sym same)) in
      ground (
        arith,
        apart,
        lookup-remove_self handle.id e.kernel_executions,
        lookup-remove handle.id handle'.id e.kernel_executions,
      )

module _ {Dev Mem : Type 0} (platform : Platform Dev) (scaling : FrequencyScaling)
    (manager : MemoryManager Mem) (validate : KernelInvocation → Result KernelError ⊤) where
  -- The result of a Kernel submission is the result of its execution, and is handed out once, also
  -- when another Kernel is submitted before: as long as the ordinal does not wrap, the second
  -- submission gets a handle of another id, after both `complete_kernel` of the first handle gives
  -- the first execution's result and that of the second handle the second's, and once completed the
  -- first handle gives nothing any more.
  pub complete_kernel_invocation-submit_kernel_invocation :
      (invocation next : KernelInvocation) (e : Executor Dev) (memory : Mem)
      → e.next_execution_ordinal + 1 < 2 ^ 64
      → let execute = execute_invocation_with_memory_manager platform scaling manager validate in
        let submit_kernel = submit_kernel_invocation platform scaling manager validate in
        let ran = (execute invocation ((next_provider_execution_id invocation.id e).1, memory)).0 in
        let (handle, (e1, memory1)) = submit_kernel invocation (e, memory) in
        let ran' = (execute next ((next_provider_execution_id next.id e1).1, memory1)).0 in
        let (handle', (e2, _)) = submit_kernel next (e1, memory1) in
        let (first, e3) = complete_kernel_invocation handle e2 in
        (handle'.id ≢ handle.id)
        × (first ≡ ok ran)
        × (is_ok (complete_kernel_invocation handle e3).0 ≡ false)
        × ((complete_kernel_invocation handle' e3).0 ≡ ok ran')
  unfolding submit_kernel_invocation next_provider_execution_id
  complete_kernel_invocation-submit_kernel_invocation invocation next e memory small =
      let execute = execute_invocation_with_memory_manager platform scaling manager validate in
      let kept =
        execute_invocation_with_memory_manager-KeepsSubmissions platform scaling manager validate in
      let (id, e0) = next_provider_execution_id invocation.id e in
      let (ran, (e0', memory0)) = execute invocation (e0, memory) in
      let (handle, (e1, memory1)) =
        submit_kernel_invocation platform scaling manager validate invocation (e, memory) in
      let (id', e1') = next_provider_execution_id next.id e1 in
      let (ran', (e1'', _)) = execute next (e1', memory1) in
      let (handle', (e2, _)) =
        submit_kernel_invocation platform scaling manager validate next (e1, memory1) in
      let other : id' ≢ id =
        λ same. let n = ap ordinal same in absurd (ground (arith, kept invocation (e0, memory))) in
      let first =
        lookup-later id id' ran ran' e0'.kernel_executions e1''.kernel_executions other
          (kept next (e1', memory1)).1 in
      let second = lookup-insert_self id' ran' e1''.kernel_executions in
      let (handed, gone, left) =
        complete_kernel_invocation-both handle handle' ran ran' e2 other first second in
      (other, handed, gone, left)
