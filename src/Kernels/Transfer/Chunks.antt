-- ===== src/Kernels/Transfer/Chunks.antt =====
-- The chunk loop of `upload_weight` (`src/kernels.rs`).
use magnetar_provider_cuda.Base.{
  ◌≡◌, refl, sym, ap, ◌∙◌, arith, ℕ, zero, suc, min, ◌+◌, ◌-◌, ◌≤◌, ◌<◌, List, [], ◌∷◌, ◌++◌,
  length, length-drop, length-take, length-append, drop, take, map, ok, Result-cases, Bool-cases,
  ltb, inl, inr,
}
use magnetar_provider_cuda.Base.Bits.{u16, ◌>>>◌}
use magnetar_provider_cuda.Platform.{Slice, Platform}
use magnetar_provider_cuda.Kernels.State.{Kernels, call}
use magnetar_provider_cuda.Kernels.Transfer.{upload_chunks}

-- The upper half of an `f32` pattern.
abbrev pub upper_half : ℕ → ℕ
upper_half x = u16 (x >>> 16)

-- A copy to the device that is reported done overwrites exactly its range of the buffer.
pub record Overwrites {Dev : Type 0} (platform : Platform Dev) : Type 0 where
  pub contents : Slice → Dev → List ℕ
  pub memcpy_htod-contents :
      (values : List ℕ) (s : Slice) (start : ℕ) (d : Dev)
      → start + length values ≤ length (contents s d)
      → (platform.memcpy_htod values s start d).0 ≡ ok tt
      → contents s (platform.memcpy_htod values s start d).1
        ≡ take start (contents s d) ++ (values ++ drop (start + length values) (contents s d))

module _ {A : Type 0} where
  take-length_append : (n : ℕ) (xs ys : List A) → n ≡ length xs → take n (xs ++ ys) ≡ xs
  take-length_append zero [] ys h = refl
  take-length_append zero (x ∷ xs) ys h = absurd (omega arith)
  take-length_append (suc n) [] ys h = absurd (omega arith)
  take-length_append (suc n) (x ∷ xs) ys h =
      ap (λ t. x ∷ t) (take-length_append n xs ys (omega arith))

  take-all : (n : ℕ) (xs : List A) → length xs ≤ n → take n xs ≡ xs
  take-all zero [] h = refl
  take-all zero (x ∷ xs) h = absurd (omega arith)
  take-all (suc n) [] h = refl
  take-all (suc n) (x ∷ xs) h = ap (λ t. x ∷ t) (take-all n xs (omega arith))

  drop-all : (n : ℕ) (xs : List A) → length xs ≤ n → drop n xs ≡ []
  drop-all zero [] h = refl
  drop-all zero (x ∷ xs) h = absurd (omega arith)
  drop-all (suc n) [] h = refl
  drop-all (suc n) (x ∷ xs) h = drop-all n xs (omega arith)

  append_nil : (xs : List A) → xs ++ [] ≡ xs
  append_nil [] = refl
  append_nil (x ∷ xs) = ap (λ t. x ∷ t) (append_nil xs)

  append_assoc : (xs ys zs : List A) → (xs ++ ys) ++ zs ≡ xs ++ (ys ++ zs)
  append_assoc [] ys zs = refl
  append_assoc (x ∷ xs) ys zs = ap (λ t. x ∷ t) (append_assoc xs ys zs)

map-take-drop :
    {A B : Type 0} (f : A → B) (n : ℕ) (xs : List A)
    → map f (take n xs) ++ map f (drop n xs) ≡ map f xs
map-take-drop f zero xs = refl
map-take-drop f (suc n) [] = refl
map-take-drop f (suc n) (x ∷ xs) = ap (λ t. f x ∷ t) (map-take-drop f n xs)

length-map : {A B : Type 0} (f : A → B) (xs : List A) → length (map f xs) ≡ length xs
length-map f [] = refl
length-map f (x ∷ xs) = omega (arith, length-map f xs)

module _ {Dev : Type 0} (platform : Platform Dev) where
  -- As much fuel as there are values is enough for the chunk loop: with any two such amounts the loop has
  -- the same outcome and leaves the same state, so it ends because no values are left or a copy failed.
  pub upload_chunks-fuel :
      (size fuel fuel' start : ℕ) (bf16 : Slice) (values : List ℕ) (k : Kernels Dev)
      → 0 < size
      → length values ≤ fuel
      → length values ≤ fuel'
      → upload_chunks platform size fuel start bf16 values k
        ≡ upload_chunks platform size fuel' start bf16 values k
  unfolding upload_chunks
  upload_chunks-fuel size fuel fuel' start bf16 [] k some_size h h' = refl
  upload_chunks-fuel size zero fuel' start bf16 (v ∷ values) k some_size h h' = absurd (omega arith)
  upload_chunks-fuel size (suc fuel) zero start bf16 (v ∷ values) k some_size h h' =
      absurd (omega arith)
  upload_chunks-fuel size (suc fuel) (suc fuel') start bf16 (v ∷ values) k some_size h h' =
      let later = drop size (v ∷ values) in
      let shorter : length later ≡ length (v ∷ values) - size = length-drop size (v ∷ values) in
      let written =
        call (platform.memcpy_htod (map upper_half (take size (v ∷ values))) bf16 start) k in
      elim (Result-cases written.0) [
        | inl (done, copied) ↦
            let same =
              upload_chunks-fuel size fuel fuel' (start + size) bf16 later written.1 some_size
                (omega arith) (omega arith) in
            ground (arith, copied, same)
        | inr (error, failed) ↦ ground (arith, failed)
      ]

module _ {Dev : Type 0} (platform : Platform Dev) (memory : Overwrites platform) where
  -- One copy, at the start of what is not written yet.
  copied-contents :
      (chunk : List ℕ) (start rest : ℕ) (bf16 : Slice) (d : Dev)
      → length (memory.contents bf16 d) ≡ start + (length chunk + rest)
      → (platform.memcpy_htod chunk bf16 start d).0 ≡ ok tt
      → let new = memory.contents bf16 (platform.memcpy_htod chunk bf16 start d).1 in
        (length new ≡ start + (length chunk + rest))
        × (take (start + length chunk) new ≡ take start (memory.contents bf16 d) ++ chunk)
  copied-contents chunk start rest bf16 d whole copied =
      let old = memory.contents bf16 d in
      let new = memory.contents bf16 (platform.memcpy_htod chunk bf16 start d).1 in
      let suffix = drop (start + length chunk) old in
      let split : new ≡ (take start old ++ chunk) ++ suffix =
        memory.memcpy_htod-contents chunk bf16 start d (omega arith) copied
        ∙ sym (append_assoc (take start old) chunk suffix) in
      let written_len : length (take start old ++ chunk) ≡ start + length chunk =
        length-append (take start old) chunk ∙ omega (arith, length-take start old) in
      (
        ap (λ c. length c) split
            ∙ length-append (take start old ++ chunk) suffix
            ∙ omega (arith, written_len, length-drop (start + length chunk) old),
        ap (λ c. take (start + length chunk) c) split
            ∙ take-length_append (start + length chunk) (take start old ++ chunk) suffix
                (sym written_len),
      )

  nothing_left :
      (size fuel start : ℕ) (bf16 : Slice) (values : List ℕ) (k : Kernels Dev)
      → values ≡ []
      → memory.contents bf16 (upload_chunks platform size fuel start bf16 values k).1.dev
        ≡ memory.contents bf16 k.dev
  unfolding upload_chunks
  nothing_left size fuel start bf16 values k h =
      ap (λ l. memory.contents bf16 (upload_chunks platform size fuel start bf16 l k).1.dev) h

  -- A chunk loop that reports success has written the upper half of every value, in order, behind what
  -- was in the buffer before its start.
  pub upload_chunks-contents :
      (size fuel start : ℕ) (bf16 : Slice) (values : List ℕ) (k : Kernels Dev)
      → 0 < size
      → length values ≤ fuel
      → length (memory.contents bf16 k.dev) ≡ start + length values
      → let (r, k') = upload_chunks platform size fuel start bf16 values k in
        r ≡ ok tt
        → memory.contents bf16 k'.dev
          ≡ take start (memory.contents bf16 k.dev) ++ map upper_half values
  unfolding upload_chunks
  upload_chunks-contents size fuel start bf16 [] k some_size enough whole done = sym (
      append_nil (take start (memory.contents bf16 k.dev))
      ∙ take-all start (memory.contents bf16 k.dev) (omega arith))
  upload_chunks-contents size zero start bf16 (v ∷ values) k some_size enough whole done =
      absurd (omega arith)
  upload_chunks-contents size (suc fuel) start bf16 (v ∷ values) k some_size enough whole done =
      let old = memory.contents bf16 k.dev in
      let now = take size (v ∷ values) in
      let later = drop size (v ∷ values) in
      let chunk = map upper_half now in
      let k1 = (call (platform.memcpy_htod chunk bf16 start) k).1 in
      let chunk_len : length chunk ≡ min size (suc (length values)) =
        length-map upper_half now ∙ length-take size (v ∷ values) in
      let later_len : length later ≡ suc (length values) - size = length-drop size (v ∷ values) in
      elim (Result-cases (platform.memcpy_htod chunk bf16 start k.dev).0) [
        | inr (error, failed) ↦ absurd (ground (arith, failed))
        | inl (_, copied) ↦
            let (len, prefix) =
              copied-contents chunk start (length later) bf16 k.dev
                (omega (arith, chunk_len, later_len)) copied in
            let final = upload_chunks platform size fuel (start + size) bf16 later k1 in
            let all : List ℕ = map upper_half (v ∷ values) in
            let stepped : upload_chunks platform size (suc fuel) start bf16 (v ∷ values) k ≡ final =
              ground (arith, copied) in
            let tail : memory.contents bf16 final.1.dev
                ≡ (take start old ++ chunk) ++ map upper_half later =
              elim (Bool-cases (ltb size (suc (length values)))) [
                | inl more ↦
                    let full : start + size ≡ start + length chunk = ground (arith, chunk_len) in
                    upload_chunks-contents size fuel (start + size) bf16 later k1 some_size
                      (omega (arith, later_len)) (ground (arith, len, full))
                      (ap (λ o. o.0) (sym stepped) ∙ done)
                    ∙ ap (λ t. t ++ map upper_half later)
                        (ap (λ n. take n (memory.contents bf16 k1.dev)) full ∙ prefix)
                | inr last ↦
                    let none_left : later ≡ [] = drop-all size (v ∷ values) (ground arith) in
                    let c1 = memory.contents bf16 k1.dev in
                    nothing_left size fuel (start + size) bf16 later k1 none_left
                    ∙ sym (
                        take-all (start + length chunk) c1
                          (omega (arith, len, ap (λ l. length l) none_left)))
                    ∙ prefix
                    ∙ sym (
                        ap (λ l. (take start old ++ chunk) ++ map upper_half l) none_left
                        ∙ append_nil (take start old ++ chunk))
              ] in
            ap (λ o. memory.contents bf16 o.1.dev) stepped
            ∙ tail
            ∙ append_assoc (take start old) chunk (map upper_half later)
            ∙ ap (λ t. take start old ++ t) (map-take-drop upper_half size (v ∷ values))
      ]
