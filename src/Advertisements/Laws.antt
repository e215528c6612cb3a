-- ===== src/Advertisements/Laws.antt =====
-- The advertised Kernels (`src/advertisements.rs`) against those that `src/executor.rs` executes.
use magnetar_provider_cuda.Base.{
  ℕ, String, Bool, true, ◌||◌, ◌&&◌, not, ◌≡◌, ◌↔◌, refl, arith, Option, List, [], ◌∷◌, map, all,
  contains_key,
}
use magnetar_provider_cuda.Base.Eq.{string_eq}
use magnetar_provider_cuda.Kernels.State.{mem_string}
use magnetar_provider_cuda.Executor.Names.{kernel_names}
use magnetar_provider_cuda.Advertisements.{KernelAdvertisement, cuda_kernel_advertisements}

-- The names that `run_invocation_uncaptured` has code for: `kv-write`, or an arm of the dispatch.
abbrev pub is_executable : String → Bool
is_executable name = string_eq.beq name "kv-write" || contains_key name kernel_names

abbrev pub names_of : List KernelAdvertisement → List String
names_of = map (λ a. a.id.name)

abbrev pub are_distinct : List String → Bool
are_distinct [] = true
are_distinct (s ∷ names) = not (mem_string s names) && are_distinct names

abbrev pub All : (KernelAdvertisement → Type 0) → List KernelAdvertisement → Type 0
All P [] = Unit {0}
All P (a ∷ as') = P a × All P as'

pub All-map :
    {P Q : KernelAdvertisement → Type 0} (as' : List KernelAdvertisement)
    → ((a : KernelAdvertisement) → P a → Q a)
    → All P as'
    → All Q as'
All-map [] f h = tt
All-map (a ∷ as') f h = (f a h.0, All-map as' f h.1)

all-mem :
    (p : String → Bool) (names : List String) (name : String)
    → all p names ≡ true
    → mem_string name names ≡ true
    → p name ≡ true
all-mem p [] name h m = ground arith
all-mem p (s ∷ names) name h m = ground (arith, string_eq.beq_iff s name, all-mem p names name)

contains_key-mem :
    {V : Type 0} (m : List (String × V)) (name : String)
    → contains_key name m ≡ mem_string name (map (λ entry. entry.0) m)
contains_key-mem [] name = refl
contains_key-mem ((s, v) ∷ m) name = ground (arith, contains_key-mem m name)

mem-executable :
    {V : Type 0} (m : List (String × V)) (name : String)
    → (string_eq.beq name "kv-write" || contains_key name m) ≡ true
    → mem_string name ("kv-write" ∷ map (λ entry. entry.0) m) ≡ true
mem-executable m name h = ground (
  arith,
  contains_key-mem m name,
  string_eq.beq_iff name "kv-write",
  string_eq.beq_iff "kv-write" name,
)

module _ (banded_feature : String) (default_rank : Option ℕ)
    (device_id provider_name : String) where
  abbrev advertisements : List KernelAdvertisement
  unfolding cuda_kernel_advertisements
  advertisements = cuda_kernel_advertisements banded_feature default_rank device_id provider_name

  -- A Kernel is advertised exactly when the executor has code for its name, and no name is
  -- advertised twice.
  pub advertisements-is_executable :
      (are_distinct (
          names_of (cuda_kernel_advertisements banded_feature default_rank device_id provider_name))
        ≡ true)
      × ((name : String)
          → (mem_string name (
                names_of
                  (cuda_kernel_advertisements banded_feature default_rank device_id provider_name))
              ≡ true)
            ↔ (is_executable name ≡ true))
  unfolding cuda_kernel_advertisements
  advertisements-is_executable = (
    refl,
    λ name. (
      (λ m. all-mem is_executable (names_of advertisements) name refl m),
      (λ h.
          all-mem (λ n. mem_string n (names_of advertisements))
            ("kv-write" ∷ map (λ entry. entry.0) kernel_names) name refl
            (mem-executable kernel_names name h)),
    ),
  )

  pub advertisements-IsBound :
      All
        (λ a. (a.id.provider ≡ provider_name) × (a.devices ≡ device_id ∷ []))
        (cuda_kernel_advertisements banded_feature default_rank device_id provider_name)
  unfolding cuda_kernel_advertisements
  advertisements-IsBound = ground arith
