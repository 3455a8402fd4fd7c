-- ===== src/Driver/Programmed.antt =====
-- The registers that guest/pcie-vip/driver/pcie_vip.c programs, as the main loop of
-- rtl/alex/verilator_qemu_main.cpp latches them.
use qemu_pcie_vip.Base.{
  ℕ, ◌+◌, ◌-◌, ◌*◌, ◌/◌, ◌%◌, ◌^◌, ◌<◌, ◌≡◌, ◌≢◌, ◌∙◌, refl, ap, arith, List, [], ◌∷◌, false, ◌==◌,
  Option, none, some, All, bit_and, bit_or,
}
use qemu_pcie_vip.Base.Bits.{bit_and_u32, bit_and-high, shifted_or, or_shifted}
use qemu_pcie_vip.Protocol.Types.{Message, mmio_write_req, code}
use qemu_pcie_vip.Endpoint.Defs.{Link, value_bytes}
use qemu_pcie_vip.Harness.Ports.{Dut}
use qemu_pcie_vip.Harness.Words.{decode_le}
use qemu_pcie_vip.Harness.Words.Decode.{decode-le_value}
use qemu_pcie_vip.Harness.Device.{
  DmaRegisters, low_half, high_half, latch, Device, accept_write, after_write, handle_inbound,
}
use qemu_pcie_vip.Driver.Run.{Machine, Buffers, program}

-- A word written in two halves, the low one first.
halves : (base v : ℕ) → v < 2 ^ 64 → high_half (low_half base (v % 2 ^ 32)) (v / 2 ^ 32) ≡ v
halves base v h =
    let (hi, e) = bit_and-high 32 base (2 ^ 32 - 1) in
    let low : low_half base (v % 2 ^ 32) ≡ v % 2 ^ 32 + hi * 2 ^ 32 =
      ap (λ x. bit_or x (v % 2 ^ 32)) e ∙ shifted_or 32 (v % 2 ^ 32) hi (omega arith) in
    let kept : bit_and (low_half base (v % 2 ^ 32)) 0xffffffff ≡ v % 2 ^ 32 =
      ap (λ x. bit_and x 0xffffffff) low ∙ bit_and_u32 (v % 2 ^ 32 + hi * 2 ^ 32) ∙ omega arith in
    let fits : v / 2 ^ 32 * 2 ^ 32 % 2 ^ 64 ≡ v / 2 ^ 32 * 2 ^ 32 = omega arith in
    ap (λ x. bit_or x (v / 2 ^ 32 * 2 ^ 32 % 2 ^ 64)) kept
    ∙ ap (λ x. bit_or (v % 2 ^ 32) x) fits
    ∙ or_shifted 32 (v % 2 ^ 32) (v / 2 ^ 32) (omega arith)
    ∙ omega arith

decode-value_bytes : (v : ℕ) → v < 2 ^ 32 → decode_le (value_bytes 4 0 v) ≡ v
unfolding value_bytes
decode-value_bytes v h =
    (decode-le_value (value_bytes 4 0 v) 0
      (omega arith, (omega arith, (omega arith, (omega arith, tt))))).0
    ∙ omega arith

-- The 32-bit write of `v` to a register, as a message.
pub record IsPost (write : ℕ × ℕ) (m : Message) : Type 0 where
  pub typed : m.header.msg_type ≡ code mmio_write_req
  pub at : m.header.address ≡ write.0
  pub carries : m.payload ≡ value_bytes 4 0 write.1

-- The writes of a run before its loop, in order.
abbrev pub program_writes : Buffers → List (ℕ × ℕ)
program_writes b =
    (0x1040, b.desc % 2 ^ 32)
    ∷ (0x1044, b.desc / 2 ^ 32)
    ∷ (0x1048, b.cpl % 2 ^ 32)
    ∷ (0x104c, b.cpl / 2 ^ 32)
    ∷ (0x1050, 2)
    ∷ (0x105c, 1)
    ∷ []

abbrev pub write_all : (mc : Machine) → List (ℕ × ℕ) → mc.State → mc.State
write_all mc [] s = s
write_all mc (w ∷ ws) s = write_all mc ws (mc.write_reg w.0 w.1 s)

module _ (d : Dut) (l : Link) where
  after_write_quiet :
      (m : Message) (e : Device d l)
      → (m.header.address == 0x1054) ≡ false
      → (m.header.address == 0x1000) ≡ false
      → after_write d l m e ≡ some e
  unfolding after_write
  after_write_quiet m e tail bell = rw (tail, bell, after_write) refl

  dispatched :
      (m : Message) (e : Device d l)
      → m.header.msg_type ≡ code mmio_write_req
      → handle_inbound d l m e ≡ after_write d l m (accept_write d l m e)
  unfolding handle_inbound
  dispatched m e t =
      let not_reset = ap (λ (x : ℕ). x == 12) t in
      let not_read = ap (λ (x : ℕ). x == 3) t in
      let writes = ap (λ (x : ℕ). x == 5) t in rw (not_reset, not_read, writes, handle_inbound) refl

  handle_post :
      (reg v : ℕ) (m : Message) (e : Device d l)
      → IsPost (reg, v) m
      → v < 2 ^ 32
      → reg ≢ 0x1054
      → reg ≢ 0x1000
      → (e' : Device d l) × (handle_inbound d l m e ≡ some e') × (e'.regs ≡ latch reg v e.regs)
  unfolding accept_write
  handle_post reg v m e p fits tail bell =
      let not_tail : (m.header.address == 0x1054) ≡ false = ground arith in
      let not_bell : (m.header.address == 0x1000) ≡ false = ground arith in
      (
        accept_write d l m e,
        dispatched m e p.typed ∙ after_write_quiet m (accept_write d l m e) not_tail not_bell,
        ap (λ (x : ℕ). latch x (decode_le m.payload) e.regs) p.at
            ∙ ap (λ (x : ℕ). latch reg x e.regs)
                (ap decode_le p.carries ∙ decode-value_bytes v fits),
      )

  abbrev pub handle_all : List Message → Device d l → Option (Device d l)
  handle_all [] e = some e
  handle_all (m ∷ ms) e = elim (handle_inbound d l m e) [ none ↦ none | some e₁ ↦ handle_all ms e₁ ]

  abbrev pub latch_all : List (ℕ × ℕ) → DmaRegisters → DmaRegisters
  latch_all [] r = r
  latch_all (w ∷ ws) r = latch_all ws (latch w.0 w.1 r)

  -- The messages are the writes, one by one.
  abbrev pub ArePosts : List (ℕ × ℕ) → List Message → Type 0
  ArePosts [] [] = Unit {0}
  ArePosts [] (m ∷ ms) = ⊥
  ArePosts (w ∷ ws) [] = ⊥
  ArePosts (w ∷ ws) (m ∷ ms) = IsPost w m × ArePosts ws ms

  abbrev IsQuiet : ℕ × ℕ → Type 0
  IsQuiet w = (w.1 < 2 ^ 32) × (w.0 ≢ 0x1054) × (w.0 ≢ 0x1000)

  handle_posts :
      (ws : List (ℕ × ℕ)) (ms : List Message) (e : Device d l)
      → ArePosts ws ms
      → All IsQuiet ws
      → (e' : Device d l) × (handle_all ms e ≡ some e') × (e'.regs ≡ latch_all ws e.regs)
  handle_posts [] [] e p q = (e, refl, refl)
  handle_posts (w ∷ ws) (m ∷ ms) e p q =
      let ((small, tail, bell), quiet) = q in
      let (e₁, run, regs) = handle_post w.0 w.1 m e p.0 small tail bell in
      let (e₂, rest, end) = handle_posts ws ms e₁ p.1 quiet in
      (e₂, rw (handle_all, run) rest, end ∙ ap (latch_all ws) regs)
  handle_posts [] (m ∷ ms) e p q = absurd p
  handle_posts (w ∷ ws) [] e p q = absurd p

  -- The driver's program for a run, with its buffers at 64-bit addresses, is a list of six register
  -- writes. When they reach the main loop of the harness as MMIO writes in this order, it handles all
  -- of them, whatever its registers held before and whatever the model answers, and then holds exactly
  -- the addresses of the descriptors and of the completions, a count of 2 and the enable bit, with its
  -- other registers as they were.
  pub program-handle_all :
      (mc : Machine) (b : Buffers) (s : mc.State) (ms : List Message) (e : Device d l)
      → b.desc < 2 ^ 64
      → b.cpl < 2 ^ 64
      → ArePosts (program_writes b) ms
      → (program mc b s ≡ write_all mc (program_writes b) s)
        × ((e' : Device d l) × (handle_all ms e ≡ some e')
            × (e'.regs ≡ record e.regs {
              desc_base = b.desc;
              cpl_base = b.cpl;
              desc_count = 2;
              dma_control = 1;
            }))
  unfolding program latch
  program-handle_all mc b s ms e hd hc posts =
      let quiet : All IsQuiet (program_writes b) = (
        (omega arith, λ e. omega arith, λ e. omega arith),
        (
          (omega arith, λ e. omega arith, λ e. omega arith),
          (
            (omega arith, λ e. omega arith, λ e. omega arith),
            (
              (omega arith, λ e. omega arith, λ e. omega arith),
              (
                (omega arith, λ e. omega arith, λ e. omega arith),
                ((omega arith, λ e. omega arith, λ e. omega arith), tt),
              ),
            ),
          ),
        ),
      ) in
      let (e', run, regs) = handle_posts (program_writes b) ms e posts quiet in
      let desc = halves e.regs.desc_base b.desc hd in
      let cpl = halves e.regs.cpl_base b.cpl hc in
      (
        refl,
        (
          e',
          run,
          regs ∙ (λ j. record e.regs {
            desc_base = desc j;
            cpl_base = cpl j;
            desc_count = 2;
            dma_control = 1;
          }),
        ),
      )
