-- ===== src/Executor/Invocation/Found.antt =====
-- Which invocations fail because there is no such Kernel (`src/executor.rs`), against what
-- `src/advertisements.rs` advertises.
use mathlib.Core.Bool.{true≢false}
use magnetar_provider_cuda.Base.{
  ◌≡◌, refl, sym, ap, ◌∙◌, ◌||◌, if◌then◌else◌, Action, ◌>>◌, arith, ℕ, suc, String, Bool, true,
  false, not, some, Option, List, [], ◌∷◌, Result, ok, err, is_ok, lookup, contains_key,
  Option-cases, Result-cases, Bool-cases, inl, inr, get_elem?,
}
use magnetar_provider_cuda.Base.Eq.{string_eq}
use magnetar_provider_cuda.Error.{KernelError, to_kernel_error}
use magnetar_provider_cuda.Platform.{Platform}
use magnetar_provider_cuda.Kernels.State.{mem_string}
use magnetar_provider_cuda.Kernels.Transfer.{expand}
use magnetar_provider_cuda.Advertisements.{cuda_kernel_advertisements}
use magnetar_provider_cuda.Advertisements.Laws.{
  is_executable, names_of, advertisements-is_executable,
}
use magnetar_provider_cuda.Executor.State.{Executor, store, KernelInvocation, Resource}
use magnetar_provider_cuda.Executor.Names.{Kernel, kernel_names}
use magnetar_provider_cuda.Executor.Dispatch.{
  FrequencyScaling, input_resource_id, run_kernel, store_output, run_invocation_with_offer,
}
use magnetar_provider_cuda.Executor.Dispatch.Arms.{is_not_found, to_kernel_error-found}
use magnetar_provider_cuda.Executor.Dispatch.Laws.{run_kernel-IsStep}
use magnetar_provider_cuda.Executor.Invocation.{
  take_previous_output, offer_previous, take_store, write_rows, run_kv_write,
  run_with_previous_output, expand_inputs, expand_unsupported_compact_inputs,
  run_invocation_uncaptured, run_invocation,
}

or_true : (a b : Bool) → (a || b) ≡ true → a ≡ false → b ≡ true
or_true a b h other = ground arith

or_false : (a b : Bool) → (a || b) ≡ false → (a ≡ false) × (b ≡ false)
or_false a b h = ground arith

module _ {S A B : Type 0} (m : Action KernelError S A) (n : Action KernelError S B) (s : S) where
  >>-found :
      is_not_found (m s).0 ≡ false
      → is_not_found (n (m s).1).0 ≡ false
      → is_not_found ((m >> n) s).0 ≡ false
  >>-found hm hn = ground arith

  >>-is_ok : is_ok (n (m s).1).0 ≡ false → is_ok ((m >> n) s).0 ≡ false
  >>-is_ok hn = ground arith

module _ {Dev : Type 0} (platform : Platform Dev) (scaling : FrequencyScaling) where
  arm-found :
      (kernel : Kernel) (invocation : KernelInvocation) (e : Executor Dev)
      → lookup invocation.kernel_name kernel_names ≡ some kernel
      → is_not_found (run_invocation_with_offer platform scaling invocation e).0 ≡ false
  unfolding run_invocation_with_offer store_output
  arm-found kernel invocation e known =
      let (r, e1) = run_kernel platform scaling kernel invocation e in
      elim (Result-cases r) [
        | inr (error, failed) ↦
            ground (arith, (run_kernel-IsStep platform scaling kernel invocation).has_arm e)
        | inl (buffer, ran) ↦ elim (Option-cases (get_elem? invocation.outputs 0)) [
          | inl missing ↦ ground arith
          | inr (output, first) ↦ ground arith
        ]
      ]

  -- The dispatch says that there is no Kernel exactly when no arm has the name, and then it changes
  -- nothing.
  pub run_invocation_with_offer-not_found :
      (invocation : KernelInvocation) (e : Executor Dev)
      → let outcome = run_invocation_with_offer platform scaling invocation e in
        (is_not_found outcome.0 ≡ not (contains_key invocation.kernel_name kernel_names))
        × (is_not_found outcome.0 ≡ true → outcome.1 ≡ e)
  unfolding run_invocation_with_offer store_output
  run_invocation_with_offer-not_found invocation e =
      elim (Option-cases (lookup invocation.kernel_name kernel_names)) [
        | inl unknown ↦ (ground arith, λ _. ground arith)
        | inr (kernel, known) ↦
            let found = arm-found kernel invocation e known in
            (ground (arith, found), λ missing. absurd (ground (arith, found)))
      ]

  expand_inputs-found :
      (name : String) (index : ℕ) (inputs : List Resource) (e : Executor Dev)
      → is_not_found (expand_inputs platform name index inputs e).0 ≡ false
  unfolding expand_inputs
  expand_inputs-found name index [] e = refl
  expand_inputs-found name index (input ∷ inputs) e =
      elim (Option-cases (lookup input.id e.storage)) [
        | inl absent ↦ ground (arith, expand_inputs-found name (suc index) inputs e)
        | inr (buffer, present) ↦
            let (r, kernels) = expand platform buffer e.kernels in
            let e' : Executor Dev = record e { kernels = kernels } in
            elim (Result-cases r) [
              | inl (expanded, done) ↦ ground (
                arith,
                expand_inputs-found name (suc index) inputs e,
                expand_inputs-found name (suc index) inputs (store input.id expanded e'),
              )
              | inr (error, failed) ↦ ground (
                arith,
                expand_inputs-found name (suc index) inputs e,
                to_kernel_error-found error,
              )
            ]
      ]

  run_kv_write-found :
      (invocation : KernelInvocation) (e : Executor Dev)
      → is_not_found (run_kv_write platform invocation e).0 ≡ false
  unfolding run_kv_write input_resource_id take_store write_rows to_kernel_error
  run_kv_write-found invocation e = ground arith

  run_with_previous_output-found :
      (invocation : KernelInvocation) (e : Executor Dev)
      → let outcome = (run_with_previous_output platform scaling invocation e).0 in
        is_not_found outcome ≡ not (contains_key invocation.kernel_name kernel_names)
  unfolding run_with_previous_output
  run_with_previous_output-found invocation e =
      let (taken, e1) = take_previous_output invocation e in
      (run_invocation_with_offer-not_found invocation (offer_previous taken e1)).0

  not_found-is_ok :
      {A : Type 0} (r : Result KernelError A) → is_not_found r ≡ true → is_ok r ≡ false
  not_found-is_ok (ok a) h = ground arith
  not_found-is_ok (err c) h = refl

  run_invocation-executable :
      (invocation : KernelInvocation) (e : Executor Dev)
      → let outcome = (run_invocation platform scaling invocation e).0 in
        (is_executable invocation.kernel_name ≡ true → is_not_found outcome ≡ false)
        × (is_executable invocation.kernel_name ≡ false → is_ok outcome ≡ false)
  unfolding run_invocation run_invocation_uncaptured expand_unsupported_compact_inputs
  run_invocation-executable invocation e =
      let name = invocation.kernel_name in
      let expands = expand_inputs platform name 0 invocation.inputs in
      let e1 = (expands e).1 in
      let runs = (λ (b : Bool).
        if b
        then run_kv_write platform invocation
        else run_with_previous_output platform scaling invocation) in
      let expanded = expand_inputs-found name 0 invocation.inputs e in
      let ran = run_with_previous_output-found invocation e1 in
      let writes = string_eq.beq name "kv-write" in
      let has_arm = contains_key name kernel_names in
      (
        λ executable. >>-found expands (runs writes) e expanded (elim (Bool-cases writes) [
          | inl yes' ↦ rw yes' (run_kv_write-found invocation e1)
          | inr other ↦ rw other (ran ∙ ap not (or_true writes has_arm executable other))
        ]),
        λ unknown.
            let (other, no_arm) = or_false writes has_arm unknown in
            >>-is_ok expands (runs writes) e (rw other (not_found-is_ok _ (ran ∙ ap not no_arm))),
      )

  -- No invocation of an advertised Kernel fails for want of the Kernel; and an invocation of any other
  -- name fails, for want of the Kernel or because an input could not be expanded.
  pub run_invocation-found :
      (banded_feature : String) (default_rank : Option ℕ) (device_id provider_name : String)
      (invocation : KernelInvocation) (e : Executor Dev)
      → let advertised = mem_string invocation.kernel_name (
          names_of
            (cuda_kernel_advertisements banded_feature default_rank device_id provider_name)) in
        let outcome = (run_invocation platform scaling invocation e).0 in
        (advertised ≡ true → is_not_found outcome ≡ false)
        × (advertised ≡ false → is_ok outcome ≡ false)
  run_invocation-found banded_feature default_rank device_id provider_name invocation e =
      let (_, iff) =
        advertisements-is_executable banded_feature default_rank device_id provider_name in
      let (found, fails) = run_invocation-executable invocation e in
      (
        λ advertised. found ((iff invocation.kernel_name).0 advertised),
        λ unknown. elim (Bool-cases (is_executable invocation.kernel_name)) [
          | inl known ↦ absurd (true≢false (sym ((iff invocation.kernel_name).1 known) ∙ unknown))
          | inr not_known ↦ fails not_known
        ],
      )
