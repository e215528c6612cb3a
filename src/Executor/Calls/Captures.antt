-- ===== src/Executor/Calls/Captures.antt =====
-- The calls of a step's capture and replay (`src/executor.rs`) keep every stored buffer fitting.
use magnetar_provider_cuda.Base.{
  if◌then◌else◌, inl, inr, ℕ, String, Bool, true, false, Option, List, [], ◌∷◌, ⊤, gets, modify,
  fail_if, map_err, pure, Result-cases,
}
use magnetar_provider_cuda.Error.{CudaError}
use magnetar_provider_cuda.Platform.{Slice, Platform, HostTensor}
use magnetar_provider_cuda.Kernels.State.{KernelsAction}
use magnetar_provider_cuda.Kernels.Fits.Rules.{Runs}
use magnetar_provider_cuda.Kernels.Fits.Capture.{
  Runs-begin_capture, Runs-end_capture, abort_capture-Offers, Runs-launch_captured,
  Runs-check_embedding_flag, Runs-write_into,
}
use magnetar_provider_cuda.Executor.State.{
  Executor, ExecutorAction, on_kernels, CaptureRecording, CapturedExecutorStep,
}
use magnetar_provider_cuda.Executor.StepCapture.{
  with_recording, release_step_capture, begin_step_capture, add_capture, end_step_capture,
  abort_step_capture, write_inputs, replay_step,
}
use magnetar_provider_cuda.Executor.Dispatch.Fits.{IsReady, Gives, Gives-lift, next_lift, next_some}
use magnetar_provider_cuda.Executor.Invocation.Stored.{next_ran}

module _ {Dev : Type 0} {offered : Option Slice} where
  pub Gives-on_kernels :
      {E A : Type 0} (f : CudaError → E) (m : KernelsAction Dev A)
      → Runs offered m
      → Gives offered (λ _. ⊤) (map_err f (on_kernels m))
  Gives-on_kernels f m h = record {
    keeps = λ e ready. elim (Result-cases (m e.kernels).0) [
      | inl (a, done) ↦ rw (map_err, done) (ready.0, h.keeps e.kernels ready.1)
      | inr (c, failed) ↦ rw (map_err, failed) (ready.0, h.keeps e.kernels ready.1)
    ];
    gives = λ e a ready done. tt;
  }

  Gives-gets : {E A : Type 0} (f : Executor Dev → A) → Gives {E = E} offered (λ _. ⊤) (gets f)
  Gives-gets f = record { keeps = λ e ready. ready; gives = λ e a ready done. tt }

  Gives-fail_if : {E : Type 0} (b : Bool) (c : E) → Gives {Dev = Dev} offered (λ _. ⊤) (fail_if b c)
  Gives-fail_if true c = record { keeps = λ e ready. ready; gives = λ e a ready done. tt }
  Gives-fail_if false c = record { keeps = λ e ready. ready; gives = λ e a ready done. tt }

  Gives-pure : {E A : Type 0} (a : A) → Gives {E = E} {Dev = Dev} offered (λ _. ⊤) (pure a)
  Gives-pure a = record { keeps = λ e ready. ready; gives = λ e a ready done. tt }

  Gives-if :
      {E A : Type 0} (b : Bool) (m n : ExecutorAction E Dev A)
      → Gives offered (λ _. ⊤) m
      → Gives offered (λ _. ⊤) n
      → Gives offered (λ _. ⊤) (if b then m else n)
  Gives-if true m n hm hn = hm
  Gives-if false m n hm hn = hn

  Gives-with_recording :
      {E : Type 0} (recording : Option CaptureRecording)
      → Gives {E = E} {Dev = Dev} offered (λ _. ⊤) (modify (with_recording recording))
  Gives-with_recording recording = record { keeps = λ e ready. ready; gives = λ e a ready done. tt }

ruleset captures = (
  next_ran, next_lift, next_some, Gives-on_kernels, Gives-gets, Gives-fail_if, Gives-pure, Gives-if,
  Gives-with_recording, Gives-lift,
)

module _ {Dev : Type 0} (platform : Platform Dev) {offered : Option Slice} where
  pub begin_step_capture-Gives :
      (advancing : List String) → Gives offered (λ _. ⊤) (begin_step_capture platform advancing)
  unfolding begin_step_capture
  begin_step_capture-Gives advancing = search (captures, Runs-begin_capture) depth 20

  Gives-add_capture :
      (captured : CapturedExecutorStep) → Gives offered (λ _. ⊤) (add_capture platform captured)
  unfolding add_capture
  Gives-add_capture captured = record { keeps = λ e ready. ready; gives = λ e a ready done. tt }

  pub end_step_capture-Gives : Gives offered (λ _. ⊤) (end_step_capture platform)
  unfolding end_step_capture
  end_step_capture-Gives =
      search
        (
          captures, Gives-add_capture, Runs-end_capture, Runs-launch_captured,
          Runs-check_embedding_flag,
        )
        depth 20

  pub abort_step_capture-IsReady :
      (e : Executor Dev) → IsReady offered e → IsReady offered (abort_step_capture platform e)
  unfolding abort_step_capture
  abort_step_capture-IsReady e ready = (ready.0, abort_capture-Offers platform e.kernels ready.1)

  write_inputs-Gives :
      (inputs : List (String × HostTensor)) → Gives offered (λ _. ⊤) (write_inputs platform inputs)
  unfolding write_inputs
  write_inputs-Gives [] = search captures
  write_inputs-Gives ((id, tensor) ∷ inputs) =
      let rest = write_inputs-Gives inputs in search (captures, Runs-write_into) depth 12

  pub replay_step-Gives :
      (id offset : ℕ) (inputs : List (String × HostTensor))
      → Gives offered (λ _. ⊤) (replay_step platform id offset inputs)
  unfolding replay_step
  replay_step-Gives id offset inputs =
      search (captures, write_inputs-Gives, Runs-launch_captured) depth 20

  pub release_step_capture-IsReady :
      (id : ℕ) (e : Executor Dev) → IsReady offered e → IsReady offered (release_step_capture id e)
  unfolding release_step_capture
  release_step_capture-IsReady id e ready = ready
