-- ===== src/Driver/Composed.antt =====
-- The driver of guest/pcie-vip/driver/pcie_vip.c and the harness of rtl/alex/verilator_qemu_main.cpp
-- read what the other writes.
use qemu_pcie_vip.Base.{
  ◌⊎◌, inl, inr, leb, length, if◌then◌else◌, ℕ, zero, suc, ◌+◌, ◌^◌, ◌≤◌, ◌<◌, ◌≡◌, ◌↔◌, ◌∙◌, refl,
  sym, ap, arith, List, [], ◌∷◌, ◌++◌, true, ◌&&◌, ◌==◌, All, All-set, All-replicate, All-take,
  All-drop, get_or, set, take, drop,
}
use qemu_pcie_vip.Protocol.Types.{IsByte}
use qemu_pcie_vip.Endpoint.Defs.{value_bytes}
use qemu_pcie_vip.Harness.Words.{store_le, store_loop}
use qemu_pcie_vip.Harness.Words.Decode.{decode-le_value}
use qemu_pcie_vip.Harness.Ring.{
  Descriptor, parse_descriptor, is_runnable, Outcome, completion_entry,
}
use qemu_pcie_vip.Driver.Layout.{zeros, patch, put_field, field, descriptors, completions_good}

value_bytes-IsByte : (n i v : ℕ) → All IsByte (value_bytes n i v)
unfolding value_bytes
value_bytes-IsByte zero i v = tt
value_bytes-IsByte (suc n) i v = (omega arith, value_bytes-IsByte n (i + 1) v)

patch-IsByte :
    (m : List ℕ) (off : ℕ) (bs : List ℕ)
    → All IsByte m
    → All IsByte bs
    → All IsByte (patch m off bs)
patch-IsByte m off [] a b = a
patch-IsByte m off (x ∷ bs) a b =
    patch-IsByte (set m off x) (off + 1) bs (All-set IsByte m off x b.0 a) b.1

put_field-IsByte : (m : List ℕ) (off n v : ℕ) → All IsByte m → All IsByte (put_field m off n v)
put_field-IsByte m off n v a = patch-IsByte m off (value_bytes n 0 v) a (value_bytes-IsByte n 0 v)

descriptors-IsByte : (src dst len : ℕ) → All IsByte (descriptors src dst len)
unfolding descriptors
descriptors-IsByte src dst len =
    let m₀ = zeros 64 in
    let a₀ : All IsByte m₀ = All-replicate IsByte 64 0 (omega arith) in
    let m₁ = put_field m₀ 0 8 src in
    let a₁ = put_field-IsByte m₀ 0 8 src a₀ in
    let m₂ = put_field m₁ 8 4 0 in
    let a₂ = put_field-IsByte m₁ 8 4 0 a₁ in
    let m₃ = put_field m₂ 12 2 len in
    let a₃ = put_field-IsByte m₂ 12 2 len a₂ in
    let m₄ = set m₃ 14 0 in
    let a₄ = All-set IsByte m₃ 14 0 (omega arith) a₃ in
    let m₅ = put_field m₄ 16 4 0x100 in
    let a₅ = put_field-IsByte m₄ 16 4 0x100 a₄ in
    let m₆ = put_field m₅ 32 8 dst in
    let a₆ = put_field-IsByte m₅ 32 8 dst a₅ in
    let m₇ = put_field m₆ 40 4 0 in
    let a₇ = put_field-IsByte m₆ 40 4 0 a₆ in
    let m₈ = put_field m₇ 44 2 len in
    let a₈ = put_field-IsByte m₇ 44 2 len a₇ in
    let m₉ = set m₈ 46 1 in
    let a₉ = All-set IsByte m₈ 46 1 (omega arith) a₈ in
    let m₁₀ = set m₉ 47 1 in
    let a₁₀ = All-set IsByte m₉ 47 1 (omega arith) a₉ in put_field-IsByte m₁₀ 48 4 0x101 a₁₀

fields_of_first :
    (src dst len : ℕ)
    → src < 2 ^ 64
    → len < 2 ^ 16
    → let m = take 32 (descriptors src dst len) in
      (field m 0 8 ≡ src)
      × (field m 8 4 ≡ 0)
      × (field m 12 2 ≡ len)
      × (field m 16 4 ≡ 0x100)
      × (get_or m 14 0 ≡ 0)
      × (get_or m 15 0 ≡ 0)
unfolding descriptors value_bytes
fields_of_first src dst len hs hl = (omega arith, omega arith, omega arith, omega arith, refl, refl)

fields_of_second :
    (src dst len : ℕ)
    → dst < 2 ^ 64
    → len < 2 ^ 16
    → let m = take 32 (drop 32 (descriptors src dst len)) in
      (field m 0 8 ≡ dst)
      × (field m 8 4 ≡ 0)
      × (field m 12 2 ≡ len)
      × (field m 16 4 ≡ 0x101)
      × (get_or m 14 0 ≡ 1)
      × (get_or m 15 0 ≡ 1)
unfolding descriptors value_bytes
fields_of_second src dst len hs hl =
    (omega arith, omega arith, omega arith, omega arith, refl, refl)

-- The harness reads each field as the driver's compiler lays it out.
parse_fields :
    (p : List ℕ)
    → All IsByte p
    → leb 14 (length p) ≡ true
    → parse_descriptor p ≡ record {
      host_addr = field p 0 8;
      ram_addr = field p 8 4;
      length = field p 12 2;
      opcode = get_or p 14 0;
      flags = get_or p 15 0;
      tag = field p 16 4;
    }
unfolding parse_descriptor
parse_fields p a room =
    let (_, _, host, _) = decode-le_value p 0 a in
    let (_, ram, _, _) = decode-le_value p 8 a in
    let (_, _, _, len) = decode-le_value p 12 a in
    let (_, tag, _, _) = decode-le_value p 16 a in
    let len' = len ∙ ap (λ b. if b then field p 12 2 else 0) room in
    λ j. record {
      host_addr = host j;
      ram_addr = ram j;
      length = len' j;
      opcode = get_or p 14 0;
      flags = get_or p 15 0;
      tag = tag j;
    }

sized₁ : (src dst len : ℕ) → leb 14 (length (take 32 (descriptors src dst len))) ≡ true
unfolding descriptors value_bytes
sized₁ src dst len = refl

sized₂ : (src dst len : ℕ) → leb 14 (length (take 32 (drop 32 (descriptors src dst len)))) ≡ true
unfolding descriptors value_bytes
sized₂ src dst len = refl

abbrev pub transfer_of : ℕ → ℕ → ℕ → ℕ → ℕ → Descriptor
transfer_of host len opcode flags tag = record {
  host_addr = host;
  ram_addr = 0;
  length = len;
  opcode = opcode;
  flags = flags;
  tag = tag;
}

described :
    (p : List ℕ) (host len opcode flags tag : ℕ)
    → field p 0 8 ≡ host
    → field p 8 4 ≡ 0
    → field p 12 2 ≡ len
    → field p 16 4 ≡ tag
    → get_or p 14 0 ≡ opcode
    → get_or p 15 0 ≡ flags
    → ◌≡◌ {A = Descriptor}
        (record {
          host_addr = field p 0 8;
          ram_addr = field p 8 4;
          length = field p 12 2;
          opcode = get_or p 14 0;
          flags = get_or p 15 0;
          tag = field p 16 4;
        })
        (transfer_of host len opcode flags tag)
described p host len opcode flags tag h r l t o f = λ j. record {
  host_addr = h j;
  ram_addr = r j;
  length = l j;
  opcode = o j;
  flags = f j;
  tag = t j;
}

runnable :
    (host len opcode flags tag : ℕ)
    → (opcode ≡ 0) ⊎ (opcode ≡ 1)
    → 0 < len
    → len ≤ 4096
    → is_runnable (transfer_of host len opcode flags tag) ≡ true
unfolding is_runnable
runnable host len opcode flags tag (inl e) pos top = ground arith
runnable host len opcode flags tag (inr e) pos top = ground arith

-- For buffers at 64-bit addresses and a length between 1 and 4096: the harness reads the two
-- descriptors that the driver writes as a read from the source buffer and a write to the destination
-- buffer, of that length, at address 0 of the device's memory, with the driver's tags, the interrupt
-- asked for by the second only; and it runs both.
pub descriptors-parse_descriptor :
    (src dst len : ℕ)
    → src < 2 ^ 64
    → dst < 2 ^ 64
    → 0 < len
    → len ≤ 4096
    → let first = parse_descriptor (take 32 (descriptors src dst len)) in
      let second = parse_descriptor (take 32 (drop 32 (descriptors src dst len))) in
      (first ≡ transfer_of src len 0 0 0x100)
      × (second ≡ transfer_of dst len 1 1 0x101)
      × (is_runnable first ≡ true)
      × (is_runnable second ≡ true)
descriptors-parse_descriptor src dst len hs hd pos top =
    let all = descriptors-IsByte src dst len in
    let m₁ = take 32 (descriptors src dst len) in
    let m₂ = take 32 (drop 32 (descriptors src dst len)) in
    let (h₁, r₁, l₁, t₁, o₁, f₁) = fields_of_first src dst len hs (omega arith) in
    let (h₂, r₂, l₂, t₂, o₂, f₂) = fields_of_second src dst len hd (omega arith) in
    let first =
      parse_fields m₁ (All-take IsByte 32 _ all) (sized₁ src dst len)
      ∙ described m₁ src len 0 0 0x100 h₁ r₁ l₁ t₁ o₁ f₁ in
    let second =
      parse_fields m₂ (All-take IsByte 32 _ (All-drop IsByte 32 _ all)) (sized₂ src dst len)
      ∙ described m₂ dst len 1 1 0x101 h₂ r₂ l₂ t₂ o₂ f₂ in
    (
      first,
      second,
      ap is_runnable first ∙ runnable src len 0 0 0x100 (inl refl) pos top,
      ap is_runnable second ∙ runnable dst len 1 1 0x101 (inr refl) pos top,
    )

-- The two completions of the harness, one behind the other.
abbrev pub reported : Outcome → ℕ → Outcome → ℕ → List ℕ
reported o₁ i₁ o₂ i₂ = completion_entry o₁ i₁ ++ completion_entry o₂ i₂

pub record FitsEntry (o : Outcome) : Type 0 where
  pub tag_u32 : o.tag < 2 ^ 32
  pub status_u16 : o.status < 2 ^ 16
  pub bytes_u32 : o.bytes < 2 ^ 32

fields_of_reported :
    (o₁ o₂ : Outcome) (i₁ i₂ : ℕ)
    → FitsEntry o₁
    → FitsEntry o₂
    → let m = reported o₁ i₁ o₂ i₂ in
      (field m 0 4 ≡ o₁.tag)
      × (field m 4 2 ≡ o₁.status)
      × (field m 8 4 ≡ o₁.bytes)
      × (field m 16 4 ≡ o₂.tag)
      × (field m 20 2 ≡ o₂.status)
      × (field m 24 4 ≡ o₂.bytes)
unfolding completion_entry store_le store_loop
fields_of_reported o₁ o₂ i₁ i₂ f₁ f₂ =
    (omega arith, omega arith, omega arith, omega arith, omega arith, omega arith)

six_tests :
    (t₁ s₁ b₁ t₂ s₂ b₂ len : ℕ)
    → ((t₁ == 0x100 && s₁ == 0 && b₁ == len && t₂ == 0x101 && s₂ == 0 && b₂ == len) ≡ true)
      ↔ ((t₁ ≡ 0x100) × (s₁ ≡ 0) × (b₁ ≡ len) × (t₂ ≡ 0x101) × (s₂ ≡ 0) × (b₂ ≡ len))
six_tests t₁ s₁ b₁ t₂ s₂ b₂ len = ground arith

-- For outcomes whose fields fit the entry: the driver accepts what the harness reports for its two
-- descriptors exactly when both have the driver's tags, status 0 and the full length, whatever the
-- indices.
pub completion_entry-completions_good :
    (o₁ o₂ : Outcome) (i₁ i₂ len : ℕ)
    → FitsEntry o₁
    → FitsEntry o₂
    → (completions_good (reported o₁ i₁ o₂ i₂) len ≡ true) ↔ (
        (o₁.tag ≡ 0x100)
        × (o₁.status ≡ 0)
        × (o₁.bytes ≡ len)
        × (o₂.tag ≡ 0x101)
        × (o₂.status ≡ 0)
        × (o₂.bytes ≡ len))
unfolding completions_good
completion_entry-completions_good o₁ o₂ i₁ i₂ len f₁ f₂ =
    let (t₁, s₁, b₁, t₂, s₂, b₂) = fields_of_reported o₁ o₂ i₁ i₂ f₁ f₂ in
    let m = reported o₁ i₁ o₂ i₂ in
    let test : completions_good m len ≡ (
        o₁.tag == 0x100
        && o₁.status == 0
        && o₁.bytes == len
        && o₂.tag == 0x101
        && o₂.status == 0
        && o₂.bytes == len) =
      λ j. t₁ j == 0x100 && s₁ j == 0 && b₁ j == len && t₂ j == 0x101 && s₂ j == 0 && b₂ j == len in
    let tests = six_tests o₁.tag o₁.status o₁.bytes o₂.tag o₂.status o₂.bytes len in
    (λ g. tests.0 (sym test ∙ g), λ h. test ∙ tests.1 h)
