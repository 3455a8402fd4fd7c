-- ===== src/Host/Memory.antt =====
-- `HostMemory` of mini-ics/src/host_client.cpp. Each operation holds the mutex and is one step.
use qemu_pcie_vip.Base.{
  ℕ, zero, suc, ◌+◌, ◌*◌, ◌/◌, ◌%◌, ◌^◌, ◌<◌, ◌≤◌, ◌≡◌, ◌⊎◌, ◌↔◌, inl, inr, refl, sym, ap, ◌∙◌,
  arith, List, [], ◌∷◌, ◌++◌, Bool, true, false, ◌==◌, ltb, leb, Option, none, some, length, take,
  drop, if◌then◌else◌, take-append, drop_all, take-append-drop, length-append, length-take,
  length-drop, Bool-cases,
}

pub record HostMemory : Type 0 where
  pub bytes : List ℕ

unfoldable pub pattern_from : ℕ → ℕ → List ℕ
pattern_from i zero = []
pattern_from i (suc n) = (i * 2654435761 % 2 ^ 64 / 2 ^ 24 % 256) ∷ pattern_from (i + 1) n

unfoldable pub init_deterministic_pattern : HostMemory → HostMemory
unfolding pattern_from
init_deterministic_pattern mem = record { bytes = pattern_from 0 (length mem.bytes) }

-- The sum is one of 64-bit words.
unfoldable pub in_bounds : HostMemory → ℕ → ℕ → Bool
in_bounds mem addr len =
    if len == 0
    then true
    else if leb (length mem.bytes) addr
    then false
    else let end = (addr + len) % 2 ^ 64 in
      if ltb end addr then false else leb end (length mem.bytes)

-- memcpy to an offset.
unfoldable pub overwrite : ℕ → List ℕ → List ℕ → List ℕ
overwrite addr src bytes = take addr bytes ++ (src ++ drop (length src) (drop addr bytes))

unfoldable pub write : ℕ → List ℕ → HostMemory → Bool × HostMemory
unfolding in_bounds overwrite
write addr src mem =
    if in_bounds mem addr (length src)
    then (true, record { bytes = overwrite addr src mem.bytes })
    else (false, mem)

unfoldable pub read : ℕ → ℕ → HostMemory → Option (List ℕ)
unfolding in_bounds
read addr len mem = if in_bounds mem addr len then some (take len (drop addr mem.bytes)) else none

-- The test with its guard against wrap-around is the one on numbers: nothing is accessed, or all of
-- the range lies inside.
pub in_bounds_iff :
    (mem : HostMemory) (addr len : ℕ)
    → addr < 2 ^ 64
    → len < 2 ^ 64
    → length mem.bytes < 2 ^ 64
    → (in_bounds mem addr len ≡ true) ↔ ((len ≡ 0) ⊎ (addr + len ≤ length mem.bytes))
unfolding in_bounds
in_bounds_iff mem addr len a l s = grind arith

overwrite_front :
    (a : ℕ) (src bytes : List ℕ)
    → length src ≤ a
    → drop a (src ++ drop (length src) bytes) ≡ drop a bytes
overwrite_front a [] bytes h = refl
overwrite_front zero (x ∷ src) bytes h = absurd (omega arith)
overwrite_front (suc a) (x ∷ src) [] h =
    drop_all a (src ++ []) (omega (arith, length-append src []))
overwrite_front (suc a) (x ∷ src) (y ∷ bytes) h = overwrite_front a src bytes (omega arith)

-- A range that does not meet the one written is read as before.
overwrite_apart :
    (addr a n : ℕ) (src bytes : List ℕ)
    → addr + length src ≤ length bytes
    → (a + n ≤ addr) ⊎ (addr + length src ≤ a)
    → take n (drop a (overwrite addr src bytes)) ≡ take n (drop a bytes)
unfolding overwrite
overwrite_apart zero a zero src bytes f h = refl
overwrite_apart zero a (suc n) src bytes f (inl below) = absurd (omega arith)
overwrite_apart zero a (suc n) src bytes f (inr above) =
    ap (take (suc n)) (overwrite_front a src bytes (omega arith))
overwrite_apart (suc addr) a n src [] f h = absurd (omega arith)
overwrite_apart (suc addr) zero zero src (x ∷ bytes) f h = refl
overwrite_apart (suc addr) zero (suc n) src (x ∷ bytes) f (inl below) =
    ap (◌∷◌ x) (overwrite_apart addr zero n src bytes (omega arith) (inl (omega arith)))
overwrite_apart (suc addr) zero (suc n) src (x ∷ bytes) f (inr above) = absurd (omega arith)
overwrite_apart (suc addr) (suc a) n src (x ∷ bytes) f (inl below) =
    overwrite_apart addr a n src bytes (omega arith) (inl (omega arith))
overwrite_apart (suc addr) (suc a) n src (x ∷ bytes) f (inr above) =
    overwrite_apart addr a n src bytes (omega arith) (inr (omega arith))

overwrite_there :
    (addr : ℕ) (src bytes : List ℕ)
    → addr ≤ length bytes
    → take (length src) (drop addr (overwrite addr src bytes)) ≡ src
unfolding overwrite
overwrite_there zero src bytes h = take-append src _
overwrite_there (suc addr) src [] h = absurd (omega arith)
overwrite_there (suc addr) src (x ∷ bytes) h = overwrite_there addr src bytes (omega arith)

length-overwrite :
    (addr : ℕ) (src bytes : List ℕ)
    → addr + length src ≤ length bytes
    → length (overwrite addr src bytes) ≡ length bytes
unfolding overwrite
length-overwrite addr src bytes h = omega (
  arith,
  length-append (take addr bytes) (src ++ drop (length src) (drop addr bytes)),
  length-append src (drop (length src) (drop addr bytes)),
  length-take addr bytes,
  length-drop (length src) (drop addr bytes),
  length-drop addr bytes,
)

overwrite_lem :
    (addr : ℕ) (src bytes : List ℕ)
    → (length src ≡ 0) ⊎ (addr + length src ≤ length bytes)
    → (length (overwrite addr src bytes) ≡ length bytes)
      × (take (length src) (drop addr (overwrite addr src bytes)) ≡ src)
      × ((a n : ℕ)
          → (a + n ≤ addr) ⊎ (addr + length src ≤ a)
          → take n (drop a (overwrite addr src bytes)) ≡ take n (drop a bytes))
overwrite_lem addr src bytes (inr inside) = (
  length-overwrite addr src bytes inside,
  overwrite_there addr src bytes (omega arith),
  λ a n apart. overwrite_apart addr a n src bytes inside apart,
)
overwrite_lem addr (x ∷ src) bytes (inl empty) = absurd (omega arith)
overwrite_lem addr [] bytes (inl empty) =
    let same : overwrite addr [] bytes ≡ bytes =
      unfold overwrite in (take-append-drop addr bytes) in
    (ap length same, refl, λ a n apart. ap (λ x. take n (drop a x)) same)

-- Reading sees the size and the bytes of the range.
read_same :
    (mem mem' : HostMemory) (addr len : ℕ)
    → length mem'.bytes ≡ length mem.bytes
    → read addr len mem'
      ≡ (if in_bounds mem addr len then some (take len (drop addr mem'.bytes)) else none)
unfolding read
read_same mem mem' addr len same = rw same refl

-- A write that succeeds reads back, leaves every range that does not meet it as it was and keeps the
-- size of the memory; one that fails changes nothing, and then the range does not lie in the memory.
pub write_lem :
    (addr : ℕ) (src : List ℕ) (mem : HostMemory)
    → addr < 2 ^ 64
    → length src < 2 ^ 64
    → length mem.bytes < 2 ^ 64
    → let (done, mem') = write addr src mem in
      ((done ≡ true)
        × (length mem'.bytes ≡ length mem.bytes)
        × (read addr (length src) mem' ≡ some src)
        × ((a n : ℕ) → (a + n ≤ addr) ⊎ (addr + length src ≤ a) → read a n mem' ≡ read a n mem))
      ⊎ (done ≡ false) × (mem' ≡ mem) × (length mem.bytes < addr + length src)
unfolding write
write_lem addr src mem a l s = elim (Bool-cases (in_bounds mem addr (length src))) [
  | inr out ↦ inr (
    rw (out, write) refl,
    rw (out, write) refl,
    ground (arith, in_bounds_iff mem addr (length src) a l s),
  )
  | inl fits ↦
      let (size, there, apart) =
        overwrite_lem addr src mem.bytes ((in_bounds_iff mem addr (length src) a l s).0 fits) in
      let mem' : HostMemory = record { bytes = overwrite addr src mem.bytes } in
      let back : read addr (length src) mem' ≡ some src =
        read_same mem mem' addr (length src) size ∙ rw fits (ap some there) in
      let others : (a n : ℕ)
          → (a + n ≤ addr) ⊎ (addr + length src ≤ a)
          → read a n mem' ≡ read a n mem =
        λ a n h.
          read_same mem mem' a n size
          ∙ ap (λ x. if in_bounds mem a n then some x else none) (apart a n h)
          ∙ sym (read_same mem mem a n refl) in
      inl (rw (fits, write) (refl, size, back, others))
]
