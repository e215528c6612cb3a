-- ===== src/Platform/Simulated.antt =====
-- A platform that runs: a device with a bump allocator, a limit on its memory and no empty buffers,
-- for tests and examples. A launch records itself and changes no contents; a capture records no contents either.
use magnetar_provider_cuda.Base.{
  ℕ, ◌+◌, ◌-◌, ◌/◌, ◌^◌, Bool, true, false, ltb, leb, ◌||◌, ◌==◌, if◌then◌else◌, none, some, List,
  [], ◌∷◌, ◌++◌, length, take, drop, product, replicate, ok, err, ⊤,
}
use magnetar_provider_cuda.Error.{DriverError}
use magnetar_provider_cuda.Platform.{Slice, Launch, Call, Platform}

pub record Device : Type 0 where
  pub next : ℕ
  pub available : ℕ
  pub cells : List (ℕ × List ℕ)
  pub launches : List Launch
  pub capturing : Bool

abbrev pub read_cell : ℕ → List (ℕ × List ℕ) → List ℕ
read_cell a [] = []
read_cell a ((b, v) ∷ cells) = if b == a then v else read_cell a cells

abbrev pub write_cell : ℕ → List ℕ → List (ℕ × List ℕ) → List (ℕ × List ℕ)
write_cell a v cells = (a, v) ∷ cells

abbrev pub new_cell : List ℕ → Call Device Slice
new_cell values d =
    let n = length values in
    if ltb d.available n || n == 0 || leb (2 ^ 32) n then (err DriverError.out_of_memory, d) else (
      ok (record { address = d.next; len = n }),
      record d {
        next = d.next + n + 1;
        available = d.available - n;
        cells = write_cell d.next values d.cells;
      },
    )

abbrev pub done : (Device → Device) → Call Device ⊤
done f d = (ok tt, f d)

abbrev pub contents : Slice → Device → List ℕ
contents s d = read_cell s.address d.cells

abbrev pub splice : List ℕ → ℕ → List ℕ → List ℕ
splice values start old = take start old ++ (values ++ drop (start + length values) old)

abbrev pub put : Slice → List ℕ → Device → Device
put s values d = record d { cells = write_cell s.address values d.cells }

abbrev pub simulated : Platform Device
simulated = record {
  alloc = λ n. new_cell (replicate n 0);
  alloc_zeros = λ n. new_cell (replicate n 0);
  clone_htod = new_cell;
  memcpy_htod = λ values s start d. (ok tt, put s (splice values start (contents s d)) d);
  clone_dtoh = λ s start len d. (ok (take len (drop start (contents s d))), d);
  clone_dtod = λ s d. new_cell (take s.len (contents s d ++ replicate s.len 0)) d;
  memcpy_dtod =
      λ from to start d. (ok tt, put to (splice (contents from d) start (contents to d)) d);
  memset_zeros = λ s d. (ok tt, put s (replicate s.len 0) d);
  synchronize = λ d. (ok tt, d);
  load_function = λ name d. (ok tt, d);
  load_tensor_function = λ name d. (ok tt, d);
  set_max_shared = λ name bytes d. true;
  launch = λ l d. (ok tt, record d { launches = l ∷ d.launches });
  begin_capture = λ d. (ok tt, record d { capturing = true });
  end_capture = λ d. (ok (some 0), record d { capturing = false });
  launch_graph = λ g d. (ok tt, d);
  for_num_elems = λ n. record {
    grid_dim = ((n + 1023) / 1024, 1, 1);
    block_dim = (1024, 1, 1);
    shared_mem_bytes = 0;
  };
  new_tensor = λ shape values.
      if product shape == length values
      then some (record { shape = shape; values = values })
      else none;
}

abbrev pub fresh_device : Device
fresh_device = record { next = 1; available = 1000; cells = []; launches = []; capturing = false }
