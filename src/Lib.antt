-- ===== src/Lib.antt =====
-- The CUDA Provider of Magnetar: a model of `src/` of the repository and its theorems.
--
-- The Provider runs the Runtime's Kernel invocations on one CUDA device. Its parts, from the bottom:
--   * `src/half_precision.rs` converts between `f32` and the two half-precision formats.
--   * `src/error.rs` has the errors, and what they become for the Runtime.
--   * `src/kernels.rs` has `CudaKernels`: device buffers, their transfers, step capture as a CUDA
--     graph, and one wrapper per Kernel, which checks shapes and attributes, allocates the output and
--     launches.
--   * `src/executor.rs` has `CudaExecutor`: the table of device buffers by resource, the allocations
--     that the Runtime's memory manager admitted, submissions, the observation log, the dispatch of
--     an invocation to a wrapper of `CudaKernels`, and the capture and replay of decode steps. The
--     Runtime calls it as a `ProviderExecutionApi`.
--   * `src/device.rs` describes the device at an ordinal, `src/advertisements.rs` the Kernels that
--     it can run, and `src/peer.rs` enables access between two devices.
--   * `src/provider.rs` has `CudaProvider`: it looks for the device, compiles and loads the Kernels,
--     makes the executor, and reports its health, devices, Kernels and execution interface.
--
-- Files:
--   * `Base` and its children: names shared by all modules, Boolean tests, lists, results and state
--     (`Action`), maps, bit operations, equality.
--   * `Half`: `half_precision.rs` (`f16_to_f32`, `bf16_to_f32`, `f32_to_f16`, `f32_to_bf16`), a value
--     as its bit pattern. `Half/Fields`, `Half/RoundTrip`, `Half/Rounding`, `Half/Termination` prove.
--   * `Error`: `error.rs`.
--   * `Platform`: the CUDA driver (`cudarc`) and `HostTensor`, which the repository does not contain:
--     a record of calls on a device state of any type. `Platform/Allocation` is what is relied on of
--     allocation and of the device's capacity, `Platform/Simulated` a device that runs, for the tests.
--   * `Driver`: the calls by which a device is found and its Kernels compiled, which return, fail or
--     panic for want of a library, on a system state of any type.
--   * `Device` with `Device/Decimal` (numbers in identifiers) and `Device/Pressure`, `Advertisements`,
--     `Peer`, `Provider`: the files of the same names. `Device/Laws`, `Advertisements/Laws`,
--     `Advertisements/Half`, `Provider/Laws`, `Provider/Reports` and `Provider/Calls` prove.
--   * `Kernels/State`, `Capture`, `Transfer`, `Elementwise`, `Lookup`, `Rope`, `Matmul`, `Attention`
--     (with `Attention/Checks`, `Attention/Split` and `Attention/Tiles`): the methods of
--     `CudaKernels`. A method is a function of the state record `Kernels`, in the order of the
--     source's driver calls, with its `Result` and the new state. `Kernels/Load` has `compile_and_load`. `Laws` beneath each,
--     `Kernels/Shapes`, `Transfer/Weights`, `Transfer/Chunks` and `Kernels/Fits` with its children
--     prove: `Fits/Rules` has a rule for each way to build a step, which the others search.
--   * `Executor/State` with `State/Runtime` (the Runtime's values) and `State/Ledger` (what is relied
--     on of the memory manager), `Observations`, `Tensors`, `Admission`, `Submission`, `StepCapture`,
--     `Attributes`, `Names`, `Dispatch`, `Invocation`, `Admitted`: the methods of `CudaExecutor`, which
--     are functions of the record `Executor`, or of it and the memory manager. `Executor/Api` is the
--     interface that they implement, `Executor/Calls` any sequence of them. `Laws`, `Consistency`,
--     `Outcomes`, `Replay`, `RoundTrip`, `Frame`, `Arms`, `Fits`, `Found`, `Stored`, `Observed` and
--     `Sequence` beneath them prove.
--   * `Tests` modules evaluate definitions and apply theorems at concrete inputs.
--
-- Conventions: an `f32` is its bit pattern, a number is native with the source's wrap-around written
-- out (`u32`, `u64`), a `BTreeMap` is an association list, an error is its category. Methods run one
-- at a time, since each takes its mutexes and gives them back before it returns. A panic that the
-- source's `expect` would make is an error value where the code can reach it in the model. An `f64`
-- is of any type with the operations and the facts of rounding that the pressure relies on.
--
-- Fuel: the normalisation of a binary16 subnormal shifts at most 10 times, since the mantissa has
-- ten bits, and has that fuel; the chunks of a compact upload have as much fuel as there are values;
-- a number in an identifier has fuel for 20 digits, as many as a `usize` can have.
--
-- Not modelled: the CUDA sources (`src/kernels.cu`, `src/tensor_kernels.cu`), which are compiled at run
-- time and run on the device, so a launch is a call whose effect is the platform's; diagnostic texts;
-- the getters of counters and of the stream; the freeing of a dropped buffer; and the tests.
pub mod Base
pub mod Half
pub mod Error
pub mod Platform
pub mod Advertisements
pub mod Driver
pub mod Device
pub mod Peer
pub mod Provider
pub mod Kernels
pub mod Executor
