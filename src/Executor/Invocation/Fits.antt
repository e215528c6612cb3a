-- ===== src/Executor/Invocation/Fits.antt =====
-- Every buffer that an invocation leaves in the storage (`src/executor.rs`) fits its shape.
use magnetar_provider_cuda.Base.{
  ◌≡◌, refl, sym, subst, arith, inl, inr, ℕ, suc, String, Bool, true, false, Option, none, some,
  List, [], ◌∷◌, Map, is_ok, ⊤, ◌||◌, not, ◌>>=◌, ◌>>◌, modify, Result-cases, Option-cases,
  Bool-cases, get_elem?, lookup, insert, remove, lookup-insert, lookup-remove,
}
use magnetar_provider_cuda.Base.Eq.{string_eq}
use magnetar_provider_cuda.Error.{KernelError}
use magnetar_provider_cuda.Platform.{Slice, Platform}
use magnetar_provider_cuda.Platform.Allocation.{Allocation, Capacity, HasSize}
use magnetar_provider_cuda.Kernels.State.{CudaDeviceBuffer, is_compact, buffer_len}
use magnetar_provider_cuda.Kernels.Transfer.{f32_buffer, expand}
use magnetar_provider_cuda.Kernels.Fits.{Fits}
use magnetar_provider_cuda.Kernels.Fits.Transfer.{expand-Fits}
use magnetar_provider_cuda.Executor.State.{
  Executor, ExecutorAction, kernel_call, store, KernelInvocation, Resource,
}
use magnetar_provider_cuda.Executor.Names.{kernel_names}
use magnetar_provider_cuda.Executor.Dispatch.{
  FrequencyScaling, run_kernel, store_output, run_invocation_with_offer,
}
use magnetar_provider_cuda.Executor.Dispatch.Fits.{
  AllFit, IsReady, Gives, Gives->>=, Gives-kernel_call, run_kernel-Fits,
}
use magnetar_provider_cuda.Executor.Invocation.{
  reads_compact, offer_previous, restore_offer, run_with_previous_output, expand_inputs,
}
use magnetar_provider_cuda.Executor.Invocation.Laws.{take_previous_output-cases}

pub insert-AllFit :
    (id : String) (b : CudaDeviceBuffer) (m : Map String CudaDeviceBuffer)
    → Fits b
    → AllFit m
    → AllFit (insert id b m)
insert-AllFit id b m fits all j c found = elim (Bool-cases (string_eq.beq id j)) [
  | inl same ↦ let is : b ≡ c = ground (arith, lookup-insert id j b m) in subst Fits is fits
  | inr other ↦ all j c (ground (arith, lookup-insert id j b m))
]

pub remove-AllFit :
    (id : String) (m : Map String CudaDeviceBuffer) → AllFit m → AllFit (remove id m)
remove-AllFit id m all j c found = all j c (ground (arith, lookup-remove id j m))

abbrev slice_of : Option (String × CudaDeviceBuffer) → Option Slice
slice_of (some (_, buffer)) = some buffer.slice
slice_of none = none

-- A buffer that was taken to be offered: `f32`, and fitting.
abbrev TakenFits : Option (String × CudaDeviceBuffer) → Type 0
TakenFits (some (_, buffer)) = (buffer ≡ f32_buffer buffer.slice buffer.shape) × Fits buffer
TakenFits none = ⊤

offered_size :
    (buffer : CudaDeviceBuffer) (s : Slice)
    → buffer ≡ f32_buffer buffer.slice buffer.shape
    → Fits buffer
    → some buffer.slice ≡ some s
    → HasSize s.len
offered_size buffer s plain fits given =
    let sized : HasSize (buffer_len (f32_buffer buffer.slice buffer.shape)) =
      subst (λ b. HasSize (buffer_len b)) plain fits.1 in
    ground (arith, sized)

module _ {Dev : Type 0} where
  nothing_offered :
      (e : Executor Dev)
      → AllFit e.storage
      → IsReady none (record e { kernels = record e.kernels { offered_output = none } })
  nothing_offered e all = (all, λ s given. absurd (ground arith))

  restore_offer-IsReady :
      (taken : Option (String × CudaDeviceBuffer)) (succeeded : Bool) (e : Executor Dev)
      → TakenFits taken
      → IsReady (slice_of taken) e
      → IsReady none (restore_offer taken succeeded e)
  unfolding restore_offer
  restore_offer-IsReady taken true e fits ready = nothing_offered e ready.0
  restore_offer-IsReady none false e fits ready = nothing_offered e ready.0
  restore_offer-IsReady (some (id, buffer)) false e fits ready =
      elim (Option-cases e.kernels.offered_output) [
        | inl used ↦
            let same : restore_offer (some (id, buffer)) false e
                ≡ record e { kernels = record e.kernels { offered_output = none } } =
              rw (restore_offer, used) refl in
            subst (IsReady none) (sym same) (nothing_offered e ready.0)
        | inr (slice, left) ↦
            let same : restore_offer (some (id, buffer)) false e
                ≡ store id (f32_buffer slice buffer.shape)
                    (record e { kernels = record e.kernels { offered_output = none } }) =
              rw (restore_offer, left) refl in
            let is : buffer ≡ f32_buffer slice buffer.shape =
              ground (arith, fits.0, ready.1 slice left) in
            subst (IsReady none) (sym same) (
              insert-AllFit id (f32_buffer slice buffer.shape) e.storage (subst Fits is fits.1)
                  ready.0,
              λ s given. absurd (ground arith),
            )
      ]

module _ {Dev : Type 0} (platform : Platform Dev) (scaling : FrequencyScaling)
    (allocation : Allocation platform) (capacity : Capacity platform) where
  run_invocation_with_offer-IsReady :
      (offered : Option Slice)
      → ((s : Slice) → offered ≡ some s → HasSize s.len)
      → (invocation : KernelInvocation) (e : Executor Dev) → IsReady offered e
      → IsReady offered (run_invocation_with_offer platform scaling invocation e).1
  unfolding run_invocation_with_offer store_output
  run_invocation_with_offer-IsReady offered size invocation e ready =
      elim (Option-cases (lookup invocation.kernel_name kernel_names)) [
        | inl unknown ↦
            let same : (run_invocation_with_offer platform scaling invocation e).1 ≡ e =
              ground arith in
            subst (IsReady offered) (sym same) ready
        | inr (kernel, known) ↦
            let (r, e1) = run_kernel platform scaling kernel invocation e in
            let arm = run_kernel-Fits platform scaling allocation capacity size kernel invocation in
            let ready1 = arm.keeps e ready in
            elim (Result-cases r) [
              | inr (error, failed) ↦
                  let same : (run_invocation_with_offer platform scaling invocation e).1 ≡ e1 =
                    ground arith in
                  subst (IsReady offered) (sym same) ready1
              | inl (buffer, ran) ↦ elim (Option-cases (get_elem? invocation.outputs 0)) [
                | inl missing ↦
                    let same : (run_invocation_with_offer platform scaling invocation e).1 ≡ e1 =
                      ground arith in
                    subst (IsReady offered) (sym same) ready1
                | inr (output, first) ↦
                    let same : (run_invocation_with_offer platform scaling invocation e).1
                        ≡ store output.id buffer e1 =
                      ground arith in
                    subst (IsReady offered) (sym same) (
                      insert-AllFit output.id buffer e1.storage (arm.gives e buffer ready ran)
                          ready1.0,
                      ready1.1,
                    )
              ]
            ]
      ]

  -- The rest of a dispatch, from what was taken to be offered.
  abbrev dispatch_from :
      KernelInvocation → Option (String × CudaDeviceBuffer) × Executor Dev → Executor Dev
  dispatch_from invocation t =
      let (result, e) =
        run_invocation_with_offer platform scaling invocation (offer_previous t.0 t.1) in
      restore_offer t.0 (is_ok result) e

  dispatch_from-IsReady :
      (invocation : KernelInvocation) (taken : Option (String × CudaDeviceBuffer))
      (e : Executor Dev)
      → TakenFits taken
      → AllFit e.storage
      → IsReady none (dispatch_from invocation (taken, e))
  unfolding offer_previous
  dispatch_from-IsReady invocation none e fits all =
      let (result, e2) =
        run_invocation_with_offer platform scaling invocation (offer_previous none e) in
      restore_offer-IsReady none (is_ok result) e2 tt (
        run_invocation_with_offer-IsReady none (λ s given. absurd (ground arith)) invocation
          (offer_previous none e) (all, λ s given. given))
  dispatch_from-IsReady invocation (some (id, buffer)) e fits all =
      let start = offer_previous (some (id, buffer)) e in
      let (result, e2) = run_invocation_with_offer platform scaling invocation start in
      let has_size = (λ (s : Slice) (given : some buffer.slice ≡ some s).
        let (plain, fit) = fits in offered_size buffer s plain fit given) in
      restore_offer-IsReady (some (id, buffer)) (is_ok result) e2 fits (
        run_invocation_with_offer-IsReady (some buffer.slice) has_size invocation start
          (all, λ s given. given))

  pub run_with_previous_output-IsReady :
      (invocation : KernelInvocation) (e : Executor Dev)
      → IsReady none e
      → IsReady none (run_with_previous_output platform scaling invocation e).1
  unfolding run_with_previous_output
  run_with_previous_output-IsReady invocation e ready =
      elim (take_previous_output-cases invocation e) [
        | inl nothing ↦
            subst (λ t. IsReady none (dispatch_from invocation t)) (sym nothing)
              (dispatch_from-IsReady invocation none e tt ready.0)
        | inr (output, buffer, first, took, present, plain) ↦
            subst (λ t. IsReady none (dispatch_from invocation t)) (sym took)
              (dispatch_from-IsReady invocation (some (output.id, buffer))
                (record e { storage = remove output.id e.storage })
                (plain, ready.0 output.id buffer present)
                (remove-AllFit output.id e.storage ready.0))
      ]

module _ {Dev : Type 0} {offered : Option Slice} where
  pub then_store :
      {A : Type 0} {P : A → Type 0} (id : String) (b : CudaDeviceBuffer)
      (m : ExecutorAction KernelError Dev A)
      → Fits b
      → Gives offered P m
      → Gives offered P (modify (store id b) >> m)
  then_store id b m fits h = record {
    keeps = λ e ready. h.keeps (store id b e) (insert-AllFit id b e.storage fits ready.0, ready.1);
    gives = λ e a ready done.
        h.gives (store id b e) a (insert-AllFit id b e.storage fits ready.0, ready.1) done;
  }

module _ {Dev : Type 0} (platform : Platform Dev) (allocation : Allocation platform)
    (capacity : Capacity platform) {offered : Option Slice} where
  pub expand_inputs-Gives :
      (name : String) (index : ℕ) (inputs : List Resource)
      → Gives offered (λ _. ⊤) (expand_inputs platform name index inputs)
  unfolding expand_inputs
  expand_inputs-Gives name index [] = record {
    keeps = λ e ready. ready;
    gives = λ e a ready done. tt;
  }
  expand_inputs-Gives name index (input ∷ inputs) =
      let rest = expand_inputs platform name (suc index) inputs in
      let later = expand_inputs-Gives name (suc index) inputs in
      record {
        gives = λ e a ready done. tt;
        keeps = λ e ready. elim (Option-cases (lookup input.id e.storage)) [
          | inl absent ↦
              let same : (expand_inputs platform name index (input ∷ inputs) e).1 ≡ (rest e).1 =
                ground arith in
              subst (IsReady offered) (sym same) (later.keeps e ready)
          | inr (buffer, present) ↦
              elim (Bool-cases (reads_compact name index || not (is_compact buffer))) [
                | inl kept ↦
                    let same : (expand_inputs platform name index (input ∷ inputs) e).1
                        ≡ (rest e).1 =
                      ground arith in
                    subst (IsReady offered) (sym same) (later.keeps e ready)
                | inr expanded ↦
                    let store_next : CudaDeviceBuffer → ExecutorAction KernelError Dev ⊤ =
                      λ b. modify (store input.id b) >> rest in
                    let step =
                      Gives->>= (kernel_call (expand platform buffer)) store_next
                        (Gives-kernel_call (expand platform buffer)
                          (expand-Fits platform allocation capacity buffer))
                        (λ b fits. then_store input.id b rest fits later) in
                    let same : (expand_inputs platform name index (input ∷ inputs) e).1
                        ≡ ((kernel_call (expand platform buffer) >>= store_next) e).1 =
                      ground arith in
                    subst (IsReady offered) (sym same) (step.keeps e ready)
              ]
        ];
      }
