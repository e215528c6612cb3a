-- ===== src/Executor/Invocation/Stored.antt =====
-- A whole invocation (`src/executor.rs`), `kv-write` and failures included, keeps every stored buffer fitting.
use magnetar_provider_cuda.Base.{
  ◌≡◌, sym, subst, arith, inl, inr, ℕ, String, Bool, true, false, if◌then◌else◌, Option, none,
  Result, ok, is_ok, ⊤, ◌>>=◌, pure, Result-cases, Option-cases, Bool-cases, lookup,
}
use magnetar_provider_cuda.Base.Eq.{string_eq}
use magnetar_provider_cuda.Error.{KernelError}
use magnetar_provider_cuda.Platform.{Slice, Platform}
use magnetar_provider_cuda.Platform.Allocation.{Allocation, Capacity}
use magnetar_provider_cuda.Kernels.State.{CudaDeviceBuffer}
use magnetar_provider_cuda.Kernels.Fits.{Fits}
use magnetar_provider_cuda.Kernels.Fits.Transfer.{clone_buffer-Fits, Runs-kv_write}
use magnetar_provider_cuda.Executor.State.{
  Executor, ExecutorAction, KernelInvocation, KernelResult, dispatch_started,
}
use magnetar_provider_cuda.Executor.StepCapture.{record_captured_resources}
use magnetar_provider_cuda.Executor.Observations.{observe}
use magnetar_provider_cuda.Executor.Dispatch.{FrequencyScaling, input_resource_id}
use magnetar_provider_cuda.Executor.Dispatch.Fits.{
  IsReady, IsReady-same, Gives, Gives->>=, Gives-kernel_call, next_lift, next_some,
}
use magnetar_provider_cuda.Executor.Invocation.{
  take_store, write_rows, run_kv_write, run_with_previous_output, expand_unsupported_compact_inputs,
  run_invocation_uncaptured, run_invocation, execute_invocation, observation,
}
use magnetar_provider_cuda.Executor.Invocation.Observed.{has_no_time}
use magnetar_provider_cuda.Executor.Invocation.Fits.{
  remove-AllFit, then_store, expand_inputs-Gives, run_with_previous_output-IsReady,
}

module _ {Dev : Type 0} {offered : Option Slice} where
  next_resource_id :
      {A : Type 0} {P : A → Type 0} (invocation : KernelInvocation) (index : ℕ)
      (f : String → ExecutorAction KernelError Dev A)
      → ((id : String) → Gives offered P (f id))
      → Gives offered P (input_resource_id invocation index >>= f)
  unfolding input_resource_id
  next_resource_id invocation index f hf =
      Gives->>= {Q = λ _. ⊤} (input_resource_id invocation index) f
        (record {
          keeps = λ e ready.
              let same : (input_resource_id invocation index e).1 ≡ e = ground arith in
              subst (IsReady offered) (sym same) ready;
          gives = λ e id ready done. tt;
        })
        (λ id _. hf id)

  pub next_buffer :
      {A : Type 0} {P : A → Type 0} (m : ExecutorAction KernelError Dev CudaDeviceBuffer)
      (f : CudaDeviceBuffer → ExecutorAction KernelError Dev A)
      → Gives offered Fits m
      → ((b : CudaDeviceBuffer) → Fits b → Gives offered P (f b))
      → Gives offered P (m >>= f)
  next_buffer = Gives->>=

  pub next_ran :
      {E A B : Type 0} {P : B → Type 0} (m : ExecutorAction E Dev A)
      (f : A → ExecutorAction E Dev B)
      → Gives offered (λ _. ⊤) m
      → ((a : A) → Gives offered P (f a))
      → Gives offered P (m >>= f)
  next_ran m f hm hf = Gives->>= m f hm (λ a _. hf a)

  Gives-result : (r : KernelResult) → Gives {E = KernelError} {Dev = Dev} offered (λ _. ⊤) (pure r)
  Gives-result r = record { keeps = λ e ready. ready; gives = λ e a ready done. tt }

module _ {Dev : Type 0} (platform : Platform Dev) (allocation : Allocation platform)
    (capacity : Capacity platform) {offered : Option Slice} where
  take_store-Gives :
      (store_id output_id : String) → Gives offered Fits (take_store platform store_id output_id)
  unfolding take_store
  take_store-Gives store_id output_id = record {
    keeps = λ e ready. elim (Option-cases (lookup store_id e.storage)) [
      | inl absent ↦ rw (take_store, absent) ready
      | inr (buffer, present) ↦
          rw (take_store, present)
            (elim (Bool-cases (string_eq.beq output_id store_id)) [
              | inl same ↦ rw (take_store, same) (remove-AllFit store_id e.storage ready.0, ready.1)
              | inr other ↦
                  rw (take_store, other)
                    ((Gives-kernel_call _ (
                        clone_buffer-Fits platform allocation capacity buffer
                          (ready.0 store_id buffer present))).keeps
                      e ready)
            ])
    ];
    gives = λ e a ready done. elim (Option-cases (lookup store_id e.storage)) [
      | inl absent ↦ absurd (ground arith)
      | inr (buffer, present) ↦ elim (Bool-cases (string_eq.beq output_id store_id)) [
        | inl same ↦
            let is : buffer ≡ a = ground arith in subst Fits is (ready.0 store_id buffer present)
        | inr other ↦
            (Gives-kernel_call _ (
                clone_buffer-Fits platform allocation capacity buffer
                  (ready.0 store_id buffer present))).gives
              e a ready (ground arith)
      ]
    ];
  }

  write_rows-Gives :
      (buffer : CudaDeviceBuffer) (rows_id : String) (offset : ℕ)
      → Gives {E = KernelError} offered
          (λ _. ⊤)
          (λ e. let (r, e') = write_rows platform buffer rows_id offset e in (ok r, e'))
  unfolding write_rows
  write_rows-Gives buffer rows_id offset = record {
    keeps = λ e ready. elim (Option-cases (lookup rows_id e.storage)) [
      | inl absent ↦ rw (write_rows, absent) ready
      | inr (rows, present) ↦
          rw (write_rows, present)
            ((Gives-kernel_call _
                (Runs-kv_write platform allocation capacity buffer rows offset)).keeps
              e ready)
    ];
    gives = λ e a ready done. tt;
  }

  run_kv_write-Gives :
      (invocation : KernelInvocation) → Gives offered (λ _. ⊤) (run_kv_write platform invocation)
  unfolding run_kv_write
  run_kv_write-Gives invocation =
      search
        (
          next_some, next_resource_id, next_lift, next_buffer, next_ran, take_store-Gives,
          write_rows-Gives, then_store, Gives-result,
        )
        depth 20

module _ {Dev : Type 0} (platform : Platform Dev) (scaling : FrequencyScaling)
    (allocation : Allocation platform) (capacity : Capacity platform) where
  uncaptured-Gives :
      (invocation : KernelInvocation)
      → Gives none (λ _. ⊤) (run_invocation_uncaptured platform scaling invocation)
  unfolding run_invocation_uncaptured expand_unsupported_compact_inputs
  uncaptured-Gives invocation =
      next_ran _ _
        (expand_inputs-Gives platform allocation capacity invocation.kernel_name 0
          invocation.inputs)
        (λ _. which (string_eq.beq invocation.kernel_name "kv-write"))
    where
      which :
          (b : Bool)
          → Gives none
              (λ _. ⊤)
              (if b
                then run_kv_write platform invocation
                else run_with_previous_output platform scaling invocation)
      which true = run_kv_write-Gives platform allocation capacity invocation
      which false = record {
        keeps = λ e ready.
            run_with_previous_output-IsReady platform scaling allocation capacity invocation e
              ready;
        gives = λ e a ready done. tt;
      }

  record_captured_resources-IsReady :
      (invocation : KernelInvocation) (e : Executor Dev)
      → IsReady none e
      → IsReady none (record_captured_resources invocation e)
  unfolding record_captured_resources
  record_captured_resources-IsReady invocation e ready =
      elim (Option-cases e.step_capture.recording) [
        | inl idle ↦ rw (record_captured_resources, idle) ready
        | inr (recording, active) ↦ rw (record_captured_resources, active) ready
      ]

  pub run_invocation-IsReady :
      (invocation : KernelInvocation) (e : Executor Dev)
      → IsReady none e
      → IsReady none (run_invocation platform scaling invocation e).1
  unfolding run_invocation
  run_invocation-IsReady invocation e ready =
      let (result, e1) = run_invocation_uncaptured platform scaling invocation e in
      let ready1 = (uncaptured-Gives invocation).keeps e ready in
      elim (Bool-cases (is_ok result)) [
        | inl done ↦
            let same : (run_invocation platform scaling invocation e).1
                ≡ record_captured_resources invocation e1 =
              ground (arith, done) in
            subst (IsReady none) (sym same) (record_captured_resources-IsReady invocation e1 ready1)
        | inr failed ↦
            let same : (run_invocation platform scaling invocation e).1 ≡ e1 =
              ground (arith, failed) in
            subst (IsReady none) (sym same) ready1
      ]

  -- Whatever an invocation is and however it ends, timed out, refused, failed or completed: when every
  -- stored buffer holds as many elements as its shape says and has a size that the device can have, and
  -- nothing is offered for an output, then the same holds after `execute_invocation`. A device of
  -- which every buffer has such a size is assumed.
  pub execute_invocation-IsReady :
      (validate : KernelInvocation → Result KernelError ⊤) (invocation : KernelInvocation)
      (e : Executor Dev)
      → IsReady none e
      → IsReady none (execute_invocation platform scaling validate invocation e).1
  unfolding execute_invocation observe
  execute_invocation-IsReady validate invocation e ready =
      let started = observe (observation dispatch_started invocation) e in
      let started_ready : IsReady none started = ready in
      let after = execute_invocation platform scaling validate invocation e in
      let ran = run_invocation platform scaling invocation started in
      let ran_ready = run_invocation-IsReady invocation started started_ready in
      elim (Bool-cases (has_no_time invocation)) [
        | inl late ↦ IsReady-same e after.1 (ground arith) (ground arith) ready
        | inr timely ↦ elim (Result-cases (validate invocation)) [
          | inr (error, refused) ↦ IsReady-same e after.1 (ground arith) (ground arith) ready
          | inl (_, accepted) ↦ elim (Result-cases ran.0) [
            | inl (result, done) ↦
                IsReady-same ran.1 after.1 (ground arith) (ground arith) ran_ready
            | inr (error, failed) ↦
                IsReady-same ran.1 after.1 (ground arith) (ground arith) ran_ready
          ]
        ]
      ]
