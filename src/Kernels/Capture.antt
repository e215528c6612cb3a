-- ===== src/Kernels/Capture.antt =====
-- Step capture in `CudaKernels` (`src/kernels.rs`): the calls that begin, end, abort and launch one.
pub mod Laws
use magnetar_provider_cuda.Base.{
  ℕ, String, Bool, true, false, ◌==◌, not, if◌then◌else◌, Option, none, some, is_some, List, [],
  ◌∷◌, Result, ok, err, ⊤, Action, pure, fail, ◌>>=◌, ◌>>◌, fail_if, gets, modify, ok_or, lift,
}
use magnetar_provider_cuda.Error.{capture_unsupported, shape_unsupported}
use magnetar_provider_cuda.Platform.{Slice, Platform}
use magnetar_provider_cuda.Kernels.State.{
  Kernels, KernelCapture, CapturedStep, KernelsAction, call, attempt, u64_max,
}

-- `flag[0] != 0`
abbrev pub is_raised : List ℕ → Bool
is_raised [] = false
is_raised (x ∷ _) = not (x == 0)

module _ {Dev : Type 0} where
  -- `capture.take()`
  abbrev pub take_capture : KernelsAction Dev (Option KernelCapture)
  take_capture k = (ok k.capture, record k { capture = none })

module _ {Dev : Type 0} (platform : Platform Dev) where
  -- The embedding flag's slot, filled when it is empty.
  unfoldable pub embedding_flag_slot : KernelsAction Dev Slice
  embedding_flag_slot k = elim k.embedding_flag [
    | some flag ↦ (ok flag, k)
    | none ↦
        (do
          flag ← call (platform.alloc_zeros 1)
          modify (λ k'. record k' { embedding_flag = some flag })
          pure flag)
          k
  ]

  -- `memset_zeros` of the flag; when it fails the stream's capture is ended and dropped.
  unfoldable pub reset_captured_flag : Slice → KernelsAction Dev ⊤
  reset_captured_flag flag = do
    reset ← attempt (platform.memset_zeros flag)
    elim reset [ ok _ ↦ pure tt | err error ↦ (do attempt platform.end_capture; fail error) ]

  unfoldable pub begin_capture : List String → KernelsAction Dev ⊤
  unfolding embedding_flag_slot reset_captured_flag
  begin_capture advancing = do
    in_progress ← gets (λ k. is_some k.capture)
    fail_if in_progress capture_unsupported
    offset ← call (platform.alloc_zeros 1)
    flag ← embedding_flag_slot
    call platform.begin_capture
    reset_captured_flag flag
    modify (λ k. record k {
      capture = some (record {
        advancing = advancing;
        offset = offset;
        max_offset = u64_max;
        failure = none;
        has_embedding = false;
      });
    })

  unfoldable pub end_capture : KernelsAction Dev CapturedStep
  end_capture = do
    taken ← take_capture
    capture ← ok_or taken capture_unsupported
    ended ← attempt platform.end_capture
    fail_if (is_some capture.failure) capture_unsupported
    recorded ← lift ended
    graph ← ok_or recorded capture_unsupported
    pure (record {
      graph = graph;
      offset = capture.offset;
      max_offset = capture.max_offset;
      has_embedding = capture.has_embedding;
    })

  unfoldable pub abort_capture : Kernels Dev → Kernels Dev
  abort_capture k = elim k.capture [
    | some _ ↦ let (_, dev) = platform.end_capture k.dev in record k { dev = dev; capture = none }
    | none ↦ k
  ]

  unfoldable pub launch_captured : CapturedStep → ℕ → KernelsAction Dev ⊤
  launch_captured step offset = do
    call (platform.memcpy_htod (offset ∷ []) step.offset 0)
    call (platform.launch_graph step.graph)

  -- Fails when the last embedding lookup met an invalid id.
  unfoldable pub check_embedding_flag : KernelsAction Dev ⊤
  check_embedding_flag k = elim k.embedding_flag [
    | none ↦ (ok tt, k)
    | some flag ↦
        (do
          values ← call (platform.clone_dtoh flag 0 1)
          call platform.synchronize
          fail_if (is_raised values) shape_unsupported)
          k
  ]
