-- ===== src/Kernels/Capture/Laws.antt =====
-- What the calls of a step capture promise (`src/kernels.rs`).
use magnetar_provider_cuda.Base.{
  by_cases, ◌⊎◌, ◌≡◌, arith, ℕ, String, Bool, true, false, Option, none, some, is_some, List, [],
  ◌∷◌, err, is_ok,
}
use magnetar_provider_cuda.Error.{capture_unsupported}
use magnetar_provider_cuda.Platform.{Slice, Platform, LaunchConfig, Arg}
use magnetar_provider_cuda.Kernels.State.{
  Kernels, CudaDeviceBuffer, forbid_in_capture, advancing_offset, function, launch, alloc_output,
  offer_output, reclaim, is_capturing,
}
use magnetar_provider_cuda.Kernels.Lookup.{take_flag, finish_lookup}
use magnetar_provider_cuda.Kernels.Capture.{begin_capture, end_capture, abort_capture}

-- What the Kernels' methods do to the state while a capture is in progress, one helper at a time.
pub data CaptureStep : Type 0 where
  forbidden : String → CaptureStep
  advanced : String → ℕ → CaptureStep
  looked_up : String → CaptureStep
  launched : String → List Arg → LaunchConfig → CaptureStep
  made_output : ℕ → CaptureStep
  offered : Option Slice → CaptureStep
  reclaimed : CaptureStep
  took_flag : CaptureStep
  finished_lookup : CudaDeviceBuffer → CaptureStep

-- Whether a capture is in progress, and whether something has been forbidden in it.
abbrev mark : {Dev : Type 0} → Kernels Dev → Option Bool
mark k = elim k.capture [ some capture ↦ some (is_some capture.failure) | none ↦ none ]

module _ {Dev : Type 0} (platform : Platform Dev) where
  -- What a step leaves of the state, whether it succeeds or fails.
  abbrev pub run_step : CaptureStep → Kernels Dev → Kernels Dev
  run_step (forbidden what) k = (forbid_in_capture what k).1
  run_step (advanced attribute bound) k = (advancing_offset attribute bound k).1
  run_step (looked_up name) k = (function platform name k).1
  run_step (launched name args config) k = (launch platform name args config k).1
  run_step (made_output len) k = (alloc_output platform len k).1
  run_step (offered slice) k = offer_output slice k
  run_step reclaimed k = (reclaim k).1
  run_step took_flag k = (take_flag platform k).1
  run_step (finished_lookup out) k = (finish_lookup platform out k).1

  abbrev pub run_steps : List CaptureStep → Kernels Dev → Kernels Dev
  run_steps [] k = k
  run_steps (step ∷ steps) k = run_steps steps (run_step step k)

  -- `begin_capture` leaves a capture in progress exactly when it succeeds, if none was before; and
  -- while one is in progress it fails and changes nothing.
  pub begin_capture-is_capturing :
      (advancing : List String) (k : Kernels Dev)
      → let (r, k') = begin_capture platform advancing k in
        ((is_capturing k ≡ true) × ((r ≡ err capture_unsupported) × (k' ≡ k)))
        ⊎ ((is_capturing k ≡ false) × (is_capturing k' ≡ is_ok r))
  unfolding begin_capture
  begin_capture-is_capturing advancing k =
      by_cases (is_capturing k) (λ busy. (ground arith, ground arith)) (λ idle. ground arith)

  -- After `end_capture`, and after `abort_capture`, no capture is in progress.
  pub end_capture-is_capturing :
      (k : Kernels Dev)
      → (is_capturing (end_capture platform k).1 ≡ false)
        × (is_capturing (abort_capture platform k) ≡ false)
  unfolding end_capture abort_capture
  end_capture-is_capturing k = ground arith
