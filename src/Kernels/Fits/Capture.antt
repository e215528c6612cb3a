-- ===== src/Kernels/Fits/Capture.antt =====
-- Captures, writes and reads (`src/kernels.rs`) keep what is offered for the output.
use magnetar_provider_cuda.Base.{◌≡◌, refl, arith, ℕ, Option, List, [], ◌∷◌, modify}
use magnetar_provider_cuda.Platform.{Slice, Platform}
use magnetar_provider_cuda.Kernels.State.{Kernels, KernelCapture, CapturedStep, CudaDeviceBuffer}
use magnetar_provider_cuda.Kernels.Transfer.{write_into, download_rows}
use magnetar_provider_cuda.Kernels.Lookup.{greedy_select}
use magnetar_provider_cuda.Kernels.Capture.{
  take_capture, embedding_flag_slot, reset_captured_flag, begin_capture, end_capture, abort_capture,
  launch_captured, check_embedding_flag,
}
use magnetar_provider_cuda.Kernels.Fits.{Offers}
use magnetar_provider_cuda.Kernels.Fits.Rules.{Runs, Runs-modify, Runs-fail_if, runs}

module _ {Dev : Type 0} (platform : Platform Dev) {offered : Option Slice} where
  Runs-embedding_flag_slot : Runs offered (embedding_flag_slot platform)
  unfolding embedding_flag_slot
  Runs-embedding_flag_slot = record {
    keeps = λ k h s e. ground (arith, h s);
    gives = λ k a h e. tt;
  }

  Runs-reset_captured_flag : (flag : Slice) → Runs offered (reset_captured_flag platform flag)
  unfolding reset_captured_flag
  Runs-reset_captured_flag flag = record {
    keeps = λ k h s e. ground (arith, h s);
    gives = λ k a h e. tt;
  }

  Runs-take_capture : Runs {Dev = Dev} offered take_capture
  Runs-take_capture = record { keeps = λ k h. h; gives = λ k a h e. tt }

  Runs-set_capture :
      (c : Option KernelCapture) → Runs {Dev = Dev} offered (modify (λ k. record k { capture = c }))
  Runs-set_capture c = Runs-modify (λ k. record k { capture = c }) (λ k. refl)

  pub Runs-begin_capture : (advancing : List _) → Runs offered (begin_capture platform advancing)
  unfolding begin_capture
  Runs-begin_capture advancing =
      search
        (runs, Runs-fail_if, Runs-embedding_flag_slot, Runs-reset_captured_flag, Runs-set_capture)
        depth 20

  pub Runs-end_capture : Runs offered (end_capture platform)
  unfolding end_capture
  Runs-end_capture = search (runs, Runs-fail_if, Runs-take_capture) depth 20

  pub abort_capture-Offers :
      (k : Kernels Dev) → Offers offered k → Offers offered (abort_capture platform k)
  unfolding abort_capture
  abort_capture-Offers k h s e = ground (arith, h s)

  pub Runs-launch_captured :
      (step : CapturedStep) (offset : ℕ) → Runs offered (launch_captured platform step offset)
  unfolding launch_captured
  Runs-launch_captured step offset = search runs depth 10

  pub Runs-check_embedding_flag : Runs offered (check_embedding_flag platform)
  unfolding check_embedding_flag
  Runs-check_embedding_flag = record {
    keeps = λ k h s e. ground (arith, h s);
    gives = λ k a h e. tt;
  }

  pub Runs-write_into :
      (buffer : CudaDeviceBuffer) (values : List ℕ)
      → Runs offered (write_into platform buffer values)
  unfolding write_into
  Runs-write_into buffer values = search runs depth 12

  pub Runs-greedy_select :
      (logits : CudaDeviceBuffer) (row : ℕ) (excluded : List (ℕ × ℕ)) (temperature : ℕ)
      → Runs offered (greedy_select platform logits row excluded temperature)
  unfolding greedy_select
  Runs-greedy_select logits row excluded temperature = search runs depth 20

  rows-Runs :
      (shape : List ℕ) (buffer : CudaDeviceBuffer)
      → buffer.shape ≡ shape
      → (first_row rows : ℕ) → Runs offered (download_rows platform buffer first_row rows)
  unfolding download_rows
  rows-Runs [] buffer is first_row rows = rw is (search runs depth 12)
  rows-Runs (a ∷ []) buffer is first_row rows = rw is (search runs depth 12)
  rows-Runs (a ∷ b ∷ []) buffer is first_row rows = rw is (search runs depth 16)
  rows-Runs (a ∷ b ∷ c ∷ shape) buffer is first_row rows = rw is (search runs depth 12)

  pub Runs-download_rows :
      (buffer : CudaDeviceBuffer) (first_row rows : ℕ)
      → Runs offered (download_rows platform buffer first_row rows)
  Runs-download_rows buffer = rows-Runs buffer.shape buffer refl
