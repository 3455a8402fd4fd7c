-- ===== src/Harness/Headers.antt =====
-- The headers of the completions of rtl/alex/verilator_qemu_main.cpp, as a receiver reads them.
use qemu_pcie_vip.Base.{
  ℕ, ◌+◌, ◌*◌, ◌/◌, ◌%◌, ◌^◌, ◌≤◌, ◌<◌, ◌≡◌, ◌≢◌, ◌∙◌, inl, inr, refl, ap, arith, min, List, [],
  ◌∷◌, ◌++◌, false, ◌==◌, Bool-cases, eq_cases, if◌then◌else◌, length, get_or, bit_and, bit_or,
}
use qemu_pcie_vip.Base.Bits.{shifted_or, bit_and_127, bit_and_4095}
use qemu_pcie_vip.Harness.Ports.{CplPorts}
use qemu_pcie_vip.Harness.Words.{unpack}
use qemu_pcie_vip.Harness.Dma.{header_high, header_low}

-- The fields of a completion header: its tag, its lower address and the bytes that are still to come,
-- 0 for 4096.
abbrev pub tag_of : CplPorts → ℕ
tag_of c = c.hdr_lo / 2 ^ 40 % 256

abbrev pub remaining : CplPorts → ℕ
remaining c = if c.hdr_hi % 4096 == 0 then 4096 else c.hdr_hi % 4096

abbrev pub data_words : CplPorts → List ℕ
data_words c = c.data0 ∷ c.data1 ∷ c.data2 ∷ c.data3 ∷ []

-- The bytes that the beats carry, as many in each as are still to come, 32 at most.
abbrev pub received : List CplPorts → List ℕ
received [] = []
received (c ∷ cs) = unpack (min 32 (remaining c)) (data_words c) ++ received cs

pub header_high_lem :
    (byte_count len : ℕ) → len ≤ 32 → header_high byte_count len false % 4096 ≡ byte_count % 4096
unfolding header_high
header_high_lem byte_count len h =
    let count = bit_and_4095 byte_count in
    let small : len / 4 * 2 ^ 32 % 2 ^ 64 ≡ len / 4 * 2 ^ 32 = omega arith in
    let top : bit_or (0x4a * 2 ^ 56) (len / 4 * 2 ^ 32 % 2 ^ 64)
        ≡ (len / 4 + 0x4a * 2 ^ 24) * 2 ^ 20 * 2 ^ 12 =
      shifted_or 56 (len / 4 * 2 ^ 32 % 2 ^ 64) 0x4a (omega arith) ∙ omega arith in
    ap (λ x. bit_or x (bit_and byte_count 0xfff) % 4096) top
    ∙ ap (λ x. x % 4096)
        (shifted_or 12 (bit_and byte_count 0xfff) ((len / 4 + 0x4a * 2 ^ 24) * 2 ^ 20)
          (omega arith))
    ∙ omega arith

pub header_low_lem : (tag lower_addr : ℕ) → header_low tag lower_addr / 2 ^ 40 ≡ tag
unfolding header_low
header_low_lem tag lower_addr =
    let low = bit_and_127 lower_addr in
    ap (λ x. x / 2 ^ 40) (shifted_or 40 (bit_and lower_addr 0x7f * 2 ^ 32) tag (omega arith))
    ∙ omega arith

pub words_of_four :
    (ws : List ℕ)
    → length ws ≡ 4
    → get_or ws 0 0 ∷ get_or ws 1 0 ∷ get_or ws 2 0 ∷ get_or ws 3 0 ∷ [] ≡ ws
words_of_four (a ∷ b ∷ c ∷ d ∷ []) h = refl
words_of_four [] h = absurd (omega arith)
words_of_four (a ∷ []) h = absurd (omega arith)
words_of_four (a ∷ b ∷ []) h = absurd (omega arith)
words_of_four (a ∷ b ∷ c ∷ []) h = absurd (omega arith)
words_of_four (a ∷ b ∷ c ∷ d ∷ e ∷ r) h = absurd (omega arith)

other_count : (n : ℕ) → 0 < n → n ≤ 4096 → n % 4096 ≢ 0 → n < 4096
other_count n pos top z = elim (eq_cases n 4096) [
  | inl e ↦ absurd (z (ap (λ k. k % 4096) e))
  | inr ne ↦ omega arith
]

pub remaining_of :
    (c : CplPorts) (n : ℕ) → 0 < n → n ≤ 4096 → c.hdr_hi % 4096 ≡ n % 4096 → remaining c ≡ n
remaining_of c n pos top e = elim (Bool-cases (c.hdr_hi % 4096 == 0)) [
  | inl zero_count ↦
      let z : c.hdr_hi % 4096 ≡ 0 = ground arith in
      ap (λ b. if b then 4096 else c.hdr_hi % 4096) zero_count ∙ omega arith
  | inr other ↦
      let z : c.hdr_hi % 4096 ≢ 0 = λ q. ground arith in
      ap (λ b. if b then 4096 else c.hdr_hi % 4096) other
      ∙ e
      ∙ omega (arith, other_count n pos top (λ q. z (e ∙ q)))
]
