-- ===== src/Executor/StepCapture/Replay.antt =====
-- What a replay is allowed to be and to do (`src/executor.rs`), and the checks and the writes of the
-- inputs against it.
use magnetar_provider_cuda.Base.{
  ℕ, ◌≡◌, refl, subst, arith, String, Bool, true, false, ltb, not, ◌&&◌, any, all, none, some, List,
  [], ◌∷◌, Map, Result, err, is_ok, lookup, contains_key, ◌>>◌, if◌then◌else◌, Bool-cases,
  Option-cases, inl, inr,
}
use magnetar_provider_cuda.Base.Eq.{string_eq, nat_eq}
use magnetar_provider_cuda.Platform.{Platform, HostTensor}
use magnetar_provider_cuda.Kernels.State.{Kernels, CudaDeviceBuffer}
use magnetar_provider_cuda.Kernels.Capture.{launch_captured}
use magnetar_provider_cuda.Kernels.Transfer.{write_into}
use magnetar_provider_cuda.Executor.State.{
  Executor, CaptureRecording, CapturedExecutorStep, StepReplayError,
}
use magnetar_provider_cuda.Executor.StepCapture.{
  resources_unchanged, check_inputs, is_valid_id, write_inputs, replay_call,
}

-- Whether a captured step accepts an input: it read the resource, and ids of an embedding lookup
-- are valid.
abbrev pub accepts : CaptureRecording → String × HostTensor → Bool
accepts recording (id, tensor) =
    contains_key id recording.resources && (elim (lookup id recording.embedding_ids) [
      | some vocab ↦ not (any (λ value. not (is_valid_id vocab value)) tensor.values)
      | none ↦ true
    ])

-- The specification: when a captured step may be replayed.
abbrev pub may_replay :
    CapturedExecutorStep → ℕ → List (String × HostTensor) → Map String CudaDeviceBuffer → Bool
may_replay captured offset inputs storage =
    not (ltb captured.step.max_offset offset)
    && resources_unchanged captured.recording.resources storage
    && all (accepts captured.recording) inputs

abbrev pub is_invalidated : {A : Type 0} → Result StepReplayError A → Bool
is_invalidated (err StepReplayError.invalidated) = true
is_invalidated _ = false

pub check_inputs-is_ok :
    (recording : CaptureRecording) (inputs : List (String × HostTensor))
    → is_ok (check_inputs recording inputs) ≡ all (accepts recording) inputs
unfolding check_inputs
check_inputs-is_ok recording [] = refl
check_inputs-is_ok recording ((id, tensor) ∷ inputs) =
    ground (arith, check_inputs-is_ok recording inputs)

-- A recorded resource whose buffer is unchanged is in the storage.
contains_key-resources_unchanged :
    (id : String) (resources : Map String (ℕ × ℕ)) (storage : Map String CudaDeviceBuffer)
    → resources_unchanged resources storage ≡ true
    → contains_key id resources ≡ true
    → contains_key id storage ≡ true
unfolding resources_unchanged
contains_key-resources_unchanged id [] storage h c = absurd (ground arith)
contains_key-resources_unchanged id ((i, (address, len)) ∷ resources) storage h c =
    elim (Bool-cases (string_eq.beq i id)) [
      | inl same ↦
          subst (λ j. contains_key j storage ≡ true) ((string_eq.beq_iff i id).0 same)
            (ground (arith, Option-cases (lookup i storage)))
      | inr other ↦
          contains_key-resources_unchanged id resources storage (ground arith) (ground arith)
    ]

pub all-contains_key :
    (recording : CaptureRecording) (inputs : List (String × HostTensor))
    (storage : Map String CudaDeviceBuffer)
    → resources_unchanged recording.resources storage ≡ true
    → all (accepts recording) inputs ≡ true
    → all (λ input. contains_key input.0 storage) inputs ≡ true
all-contains_key recording [] storage h a = refl
all-contains_key recording ((id, tensor) ∷ inputs) storage h a =
    let here = contains_key-resources_unchanged id recording.resources storage h (ground arith) in
    ground (arith, here, all-contains_key recording inputs storage h (ground arith))

module _ {Dev : Type 0} (platform : Platform Dev) where
  -- Writing inputs keeps the storage and the captures, and never reports a missing resource when the
  -- storage has each.
  pub write_inputs-storage :
      (inputs : List (String × HostTensor)) (e : Executor Dev)
      → all (λ input. contains_key input.0 e.storage) inputs ≡ true
      → let (r, e') = write_inputs platform inputs e in
        (e'.storage ≡ e.storage) × (is_invalidated r ≡ false)
  unfolding write_inputs
  write_inputs-storage [] e h = (refl, refl)
  write_inputs-storage ((id, tensor) ∷ inputs) e h = elim (Option-cases (lookup id e.storage)) [
    | inl missing ↦ absurd (ground arith)
    | inr (buffer, found) ↦
        let e' : Executor Dev = record e {
          kernels = (write_into platform buffer tensor.values e.kernels).1;
        } in
        ground (arith, write_inputs-storage inputs e' (ground arith))
  ]

  -- The specification: the offset is copied to the captured cell and the captured graph is launched,
  -- and both must succeed.
  abbrev pub launches : CapturedExecutorStep → ℕ → Kernels Dev → Bool × Kernels Dev
  launches captured offset k =
      let (sent, dev) = platform.memcpy_htod (offset ∷ []) captured.step.offset 0 k.dev in
      let (launched, dev') = platform.launch_graph captured.step.graph dev in
      if is_ok sent
      then (is_ok launched, record k { dev = dev' })
      else (false, record k { dev = dev })

  -- The specification of an allowed replay: each input is written into its buffer, in order, up to
  -- the first write that fails, and after the last one the step is launched.
  abbrev pub replays :
      CapturedExecutorStep
      → ℕ
      → List (String × HostTensor)
      → Map String CudaDeviceBuffer
      → Kernels Dev
      → Bool × Kernels Dev
  replays captured offset [] storage k = launches captured offset k
  replays captured offset ((id, tensor) ∷ inputs) storage k = elim (lookup id storage) [
    | none ↦ (false, k)
    | some buffer ↦
        let (written, k') = write_into platform buffer tensor.values k in
        let rest = replays captured offset inputs storage k' in
        if is_ok written then rest else (false, k')
  ]

  pub write_inputs-replays :
      (captured : CapturedExecutorStep) (offset : ℕ) (inputs : List (String × HostTensor))
      (e : Executor Dev)
      → let (r, e') =
          (write_inputs platform inputs
              >> replay_call platform (launch_captured platform captured.step offset))
            e in
        let (succeeded, k) = replays captured offset inputs e.storage e.kernels in
        (is_ok r ≡ succeeded) × (e' ≡ record e { kernels = k })
  unfolding write_inputs launch_captured
  write_inputs-replays captured offset [] e = ground arith
  write_inputs-replays captured offset ((id, tensor) ∷ inputs) e =
      elim (Option-cases (lookup id e.storage)) [
        | inl missing ↦ ground arith
        | inr (buffer, found) ↦
            let (written, k) = write_into platform buffer tensor.values e.kernels in
            let e' : Executor Dev = record e { kernels = k } in
            ground (arith, write_inputs-replays captured offset inputs e')
      ]
