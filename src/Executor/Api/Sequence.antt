-- ===== src/Executor/Api/Sequence.antt =====
-- A client of a tensor store (the tensors of `src/executor.rs`): the calls it makes, against a map from
-- names to shapes.
use magnetar_provider_cuda.Base.{
  ◌≡◌, ◌∙◌, refl, arith, if◌then◌else◌, ℕ, String, Bool, true, false, Option, none, some, List, [],
  ◌∷◌, Result, is_ok, ⊤,
}
use magnetar_provider_cuda.Base.Eq.{string_eq}
use magnetar_provider_cuda.Error.{KernelError}
use magnetar_provider_cuda.Platform.{Platform, HostTensor}
use magnetar_provider_cuda.Executor.State.{Executor, KernelInvocation, MemoryManager}
use magnetar_provider_cuda.Executor.Tensors.{resident_shape}
use magnetar_provider_cuda.Executor.Dispatch.{FrequencyScaling}
use magnetar_provider_cuda.Executor.Api.{ProviderExecutionApi, cuda_execution_api}
use magnetar_provider_cuda.Executor.Api.Laws.{IsTensorStore, cuda_execution_api-IsTensorStore}

pub data StoreCall : Type 0 where
  write write_weight : String → HostTensor → StoreCall
  write_zeroed : String → List ℕ → StoreCall
  free : String → StoreCall

-- The shapes by name.
abbrev pub Shapes : Type 0
Shapes = String → Option (List ℕ)

-- What a call that succeeds makes of the shapes.
abbrev pub with_call : StoreCall → Shapes → Shapes
with_call (write id tensor) shapes j = if string_eq.beq id j then some tensor.shape else shapes j
with_call (write_weight id tensor) shapes j =
    if string_eq.beq id j then some tensor.shape else shapes j
with_call (write_zeroed id shape) shapes j = if string_eq.beq id j then some shape else shapes j
with_call (free id) shapes j = if string_eq.beq id j then none else shapes j

-- The calls that succeeded, in their order.
abbrev pub with_calls : List (StoreCall × Bool) → Shapes → Shapes
with_calls [] shapes = shapes
with_calls ((call, succeeded) ∷ calls) shapes =
    with_calls calls (if succeeded then with_call call shapes else shapes)

module _ {S : Type 0} (api : ProviderExecutionApi S) where
  abbrev pub make_call : StoreCall → S → Bool × S
  make_call (write id tensor) s = let (r, s') = api.write id tensor s in (is_ok r, s')
  make_call (write_weight id tensor) s = let (r, s') = api.write_weight id tensor s in (is_ok r, s')
  make_call (write_zeroed id shape) s = let (r, s') = api.write_zeroed id shape s in (is_ok r, s')
  make_call (free id) s = let (r, s') = api.free id s in (true, s')

  -- Each call with whether it succeeded, and the state that is left.
  abbrev pub make_calls : List StoreCall → S → List (StoreCall × Bool) × S
  make_calls [] s = ([], s)
  make_calls (call ∷ calls) s =
      let (succeeded, s') = make_call call s in
      let (made, s'') = make_calls calls s' in ((call, succeeded) ∷ made, s'')

with_call-same :
    (call : StoreCall) (f g : Shapes)
    → ((j : String) → f j ≡ g j)
    → (j : String) → with_call call f j ≡ with_call call g j
with_call-same (write id tensor) f g same j = ground (arith, same j)
with_call-same (write_weight id tensor) f g same j = ground (arith, same j)
with_call-same (write_zeroed id shape) f g same j = ground (arith, same j)
with_call-same (free id) f g same j = ground (arith, same j)

with_calls-same :
    (calls : List (StoreCall × Bool)) (f g : Shapes)
    → ((j : String) → f j ≡ g j)
    → (j : String) → with_calls calls f j ≡ with_calls calls g j
with_calls-same [] f g same j = same j
with_calls-same ((call, true) ∷ calls) f g same j =
    with_calls-same calls _ _ (with_call-same call f g same) j
with_calls-same ((call, false) ∷ calls) f g same j = with_calls-same calls f g same j

module _ {S : Type 0} (api : ProviderExecutionApi S) (store : IsTensorStore api) where
  make_call-shapes :
      (call : StoreCall) (s : S) (j : String)
      → let (succeeded, s') = make_call api call s in
        api.shape_of j s'
        ≡ (if succeeded then with_call call (λ i. api.shape_of i s) else (λ i. api.shape_of i s)) j
  make_call-shapes (write id tensor) s j = ground (arith, store.writes id tensor s j)
  make_call-shapes (write_weight id tensor) s j = ground (arith, store.writes_weight id tensor s j)
  make_call-shapes (write_zeroed id shape) s j = ground (arith, store.writes_zeroed id shape s j)
  make_call-shapes (free id) s j = ground (arith, (store.frees id s).1 j)

  make_calls-shapes :
      (calls : List StoreCall) (s : S) (j : String)
      → let (made, s') = make_calls api calls s in
        api.shape_of j s' ≡ with_calls made (λ i. api.shape_of i s) j
  make_calls-shapes [] s j = refl
  make_calls-shapes (call ∷ calls) s j =
      let (succeeded, s') = make_call api call s in
      let (made, s'') = make_calls api calls s' in
      make_calls-shapes calls s' j
      ∙ with_calls-same made (λ i. api.shape_of i s') _ (make_call-shapes call s) j

module _ {Dev Mem : Type 0} (platform : Platform Dev) (scaling : FrequencyScaling)
    (manager : MemoryManager Mem) (validate : KernelInvocation → Result KernelError ⊤) where
  -- After any writes, in full, as weights or zeroed, and releases through the interface, each resource of
  -- the executor has the shape that a plain map has after the calls that succeeded, in their order.
  pub cuda_execution_api-make_calls :
      (calls : List StoreCall) (e : Executor Dev) (memory : Mem) (j : String)
      → let (made, (e', memory')) =
          make_calls (cuda_execution_api platform scaling manager validate) calls (e, memory) in
        resident_shape j e' ≡ with_calls made (λ i. resident_shape i e) j
  unfolding cuda_execution_api
  cuda_execution_api-make_calls calls e memory j =
      make_calls-shapes (cuda_execution_api platform scaling manager validate)
        (cuda_execution_api-IsTensorStore platform scaling manager validate) calls (e, memory) j
