-- ===== src/Executor/Tests/Invocation.antt =====
-- Tests of `src/executor.rs`: dispatch and its effect on the storage.
use magnetar_provider_cuda.Platform.Simulated.{contents}
use magnetar_provider_cuda.Kernels.Tests.{simulated-Allocation}
use magnetar_provider_cuda.Kernels.State.{forbid_in_capture}
use magnetar_provider_cuda.Kernels.Transfer.{upload}
use magnetar_provider_cuda.Executor.Tensors.{write_tensor, read_tensor}
use magnetar_provider_cuda.Executor.Tensors.RoundTrip.{Remembers, read_tensor-write_tensor}
use magnetar_provider_cuda.Base.{List, is_ok, arith}
use magnetar_provider_cuda.Platform.{HostTensor}
use magnetar_provider_cuda.Kernels.State.{mem_string}
use magnetar_provider_cuda.Advertisements.{cuda_kernel_advertisements}
use magnetar_provider_cuda.Advertisements.Laws.{names_of}
use magnetar_provider_cuda.Executor.Tensors.{resident_shape}
use magnetar_provider_cuda.Executor.Tests.Memory.{test_manager}
use magnetar_provider_cuda.Executor.Api.{cuda_execution_api}
use magnetar_provider_cuda.Executor.Api.Sequence.{
  StoreCall, write, write_weight, write_zeroed, free, make_calls, with_calls,
  cuda_execution_api-make_calls,
}
use magnetar_provider_cuda.Executor.Dispatch.Arms.{is_not_found}
use magnetar_provider_cuda.Executor.Invocation.Found.{run_invocation-found}
use mathlib.Core.Bool.{false≢true}
use magnetar_provider_cuda.Base.{
  false, true, ◌⊎◌, ◌≡◌, ◌≢◌, refl, String, none, some, [], ◌∷◌, Result, ok, lookup,
}
use magnetar_provider_cuda.Base.Eq.{string_eq}
use magnetar_provider_cuda.Error.{KernelError, kernel_timeout}
use magnetar_provider_cuda.Platform.Simulated.{Device, simulated}
use magnetar_provider_cuda.Kernels.Tests.{history, new_rows}
use magnetar_provider_cuda.Executor.State.{
  Executor, KernelInvocation, integer, pos, failure, dispatch_started, timed_out,
}
use magnetar_provider_cuda.Executor.Observations.{observe}
use magnetar_provider_cuda.Executor.Dispatch.{FrequencyScaling, run_invocation_with_offer}
use magnetar_provider_cuda.Executor.Dispatch.Frame.{
  IsDispatch, run_invocation_with_offer-IsDispatch,
}
use magnetar_provider_cuda.Executor.Invocation.{
  take_previous_output, offer_previous, run_kv_write, run_with_previous_output, run_invocation,
  execute_invocation, observation,
}
use magnetar_provider_cuda.Executor.Invocation.Laws.{
  run_kv_write-storage, run_with_previous_output-restores, run_with_previous_output-others,
}
use magnetar_provider_cuda.Executor.Invocation.Observed.{
  execute_invocation-observations, outcome_kind, has_no_time,
}
use magnetar_provider_cuda.Executor.Tests.{executor0, invocation0, resource}

abbrev no_scaling : FrequencyScaling
no_scaling attributes = some none

-- A history `kv`, new rows `x` and an output `y` that exists.
abbrev loaded : Executor Device
loaded = record executor0 { storage = ("kv", history) ∷ ("x", new_rows) ∷ ("y", new_rows) ∷ [] }

abbrev kv_invocation : KernelInvocation
kv_invocation = record {
  id = "append";
  kernel_name = "kv-write";
  inputs = resource "kv" ∷ resource "x" ∷ [];
  outputs = resource "kv" ∷ [];
  attributes = ("row_offset", integer (pos 4)) ∷ [];
  deadline_millis = none;
}

abbrev add_invocation : KernelInvocation
add_invocation = record invocation0 {
  kernel_name = "add";
  inputs = resource "x" ∷ resource "x" ∷ [];
}

run_kv_write-storage_example :
    lookup "kv" (run_kv_write simulated kv_invocation loaded).1.storage ≡ lookup "kv" loaded.storage
run_kv_write-storage_example =
    run_kv_write-storage simulated kv_invocation (resource "kv") (resource "kv") loaded refl refl
      refl "kv"

run_invocation_with_offer-IsDispatch_example :
    IsDispatch simulated no_scaling add_invocation loaded
      (run_invocation_with_offer simulated no_scaling add_invocation loaded)
run_invocation_with_offer-IsDispatch_example =
    run_invocation_with_offer-IsDispatch simulated no_scaling add_invocation loaded

run_with_previous_output-restores_example :
    lookup "y" (run_with_previous_output simulated no_scaling invocation0 loaded).1.storage
    ≡ lookup "y" loaded.storage
unfolding take_previous_output offer_previous run_invocation_with_offer
run_with_previous_output-restores_example =
    run_with_previous_output-restores simulated no_scaling invocation0 loaded "y" refl refl

abbrev y : String
y = "y"

y≢x : y ≢ "x"
y≢x same = false≢true ((string_eq.beq_iff "y" "x").1 same)

run_with_previous_output-others_example :
    lookup "x" (run_with_previous_output simulated no_scaling add_invocation loaded).1.storage
    ≡ lookup "x" loaded.storage
run_with_previous_output-others_example =
    run_with_previous_output-others simulated no_scaling add_invocation (resource "y") loaded "x"
      refl y≢x

abbrev accept : KernelInvocation → Result KernelError Unit
accept invocation = ok tt

execute_invocation-observations_example :
    let (result, e') = execute_invocation simulated no_scaling accept add_invocation loaded in
    let started = observe (observation dispatch_started add_invocation) loaded in
    ((has_no_time add_invocation ≡ true)
      × ((result ≡ failure add_invocation.id kernel_timeout)
          × (e' ≡ observe (observation timed_out add_invocation) started)))
    ⊎ ((has_no_time add_invocation ≡ false)
        × (e'.observations
            ≡ (observe (observation (outcome_kind result) add_invocation) started).observations))
execute_invocation-observations_example =
    execute_invocation-observations simulated no_scaling accept add_invocation loaded

run_invocation-found_example :
    let advertised =
      mem_string "add" (names_of (cuda_kernel_advertisements "banded" none "cuda:0" "cuda")) in
    let outcome = (run_invocation simulated no_scaling add_invocation loaded).0 in
    (advertised ≡ true → is_not_found outcome ≡ false)
    × (advertised ≡ false → is_ok outcome ≡ false)
run_invocation-found_example =
    run_invocation-found simulated no_scaling "banded" none "cuda:0" "cuda" add_invocation loaded

abbrev row : HostTensor
row = record { shape = 2 ∷ []; values = 1 ∷ 2 ∷ [] }

abbrev store_calls : List StoreCall
store_calls = write "x" row ∷ write_zeroed "y" (3 ∷ []) ∷ free "x" ∷ write_weight "w" row ∷ []

cuda_execution_api-make_calls_example :
    let (made, (e', memory')) =
      make_calls
        (cuda_execution_api simulated no_scaling test_manager accept)
        store_calls
        (loaded, []) in
    resident_shape "y" e' ≡ with_calls made (λ i. resident_shape i loaded) "y"
cuda_execution_api-make_calls_example =
    cuda_execution_api-make_calls simulated no_scaling test_manager accept store_calls loaded [] "y"

simulated-Remembers : Remembers simulated
simulated-Remembers = record {
  contents = contents;
  clone_htod-contents = λ values d s h. ground arith;
  clone_dtoh-contents = λ s start len d. refl;
  synchronize-ok = λ d. refl;
}

read_tensor-write_tensor_example :
    (read_tensor simulated "x" (write_tensor simulated "x" row loaded).1).0 ≡ some row
unfolding write_tensor upload forbid_in_capture
read_tensor-write_tensor_example =
    read_tensor-write_tensor simulated simulated-Allocation simulated-Remembers "x" row loaded refl
      refl
