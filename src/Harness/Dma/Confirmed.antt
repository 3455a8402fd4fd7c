-- ===== src/Harness/Dma/Confirmed.antt =====
-- When `DmaRead` and `DmaWrite` of rtl/alex/verilator_qemu_main.cpp report success.
use qemu_pcie_vip.Base.{
  ℕ, zero, suc, ◌≡◌, inl, inr, arith, Bool, true, false, Option, some, Ensures, Bool-cases,
  Option-cases,
}
use qemu_pcie_vip.Endpoint.Defs.{Link}
use qemu_pcie_vip.Harness.Ports.{Dut, Harness, out, clock_tick}
use qemu_pcie_vip.Harness.Dma.{
  poll_read, read_rounds, dma_read, poll_write, write_rounds, dma_write,
}

module _ (d : Dut) (l : Link) where
  -- The model says that its read is done, without an error; and its write.
  abbrev pub ReadDone : Harness d → Type 0
  ReadDone h = ((out d h).read_status_valid ≡ true) × ((out d h).read_status_error ≡ 0)

  abbrev pub WriteDone : Harness d → Type 0
  WriteDone h = ((out d h).write_status_valid ≡ true) × ((out d h).write_status_error ≡ 0)

  -- A result of true means that `Done` holds of the harness behind it.
  abbrev pub Confirms : (Harness d → Type 0) → Bool × Harness d × l.State → Type 0
  Confirms Done a = a.0 ≡ true → Done a.1

  read_rounds-Confirms :
      (rounds tag now : ℕ) (h : Harness d) (s : l.State)
      → Ensures (Confirms ReadDone) (read_rounds d l rounds tag now h s)
  unfolding read_rounds
  read_rounds-Confirms zero tag now h s = λ e. absurd (ground arith)
  read_rounds-Confirms (suc rounds) tag now h s =
      elim (Option-cases (poll_read d l tag now (clock_tick d h) s)) [
        | inl fault ↦ rw (fault, read_rounds) tt
        | inr ((h₁, s₁), e) ↦ elim (Bool-cases (out d h₁).read_status_valid) [
          | inl ended ↦ rw (e, ended, read_rounds) (λ good. (ended, ground arith))
          | inr goes_on ↦ rw (e, goes_on, read_rounds) (read_rounds-Confirms rounds tag now h₁ s₁)
        ]
      ]

  pub dma_read-Confirms :
      (address ram_addr len tag now : ℕ) (h : Harness d) (s : l.State)
      → Ensures (Confirms ReadDone) (dma_read d l address ram_addr len tag now h s)
  unfolding dma_read
  dma_read-Confirms address ram_addr len tag now h s = started _ _
    where
      started :
          (accepted : Bool) (h₂ : Harness d)
          → Ensures
              (Confirms ReadDone)
              (elim accepted as (λ x. Option (Bool × Harness d × l.State)) [
                | false ↦ some (false, h₂, s)
                | true ↦ read_rounds d l 2000 tag now h₂ s
              ])
      started false h₂ = λ e. absurd (ground arith)
      started true h₂ = read_rounds-Confirms 2000 tag now h₂ s

  write_rounds-Confirms :
      (rounds now : ℕ) (h : Harness d) (s : l.State)
      → Confirms WriteDone (write_rounds d l rounds now h s)
  unfolding write_rounds
  write_rounds-Confirms zero now h s = λ e. absurd (ground arith)
  write_rounds-Confirms (suc rounds) now h s =
      let s₁ = (poll_write d l now (clock_tick d h) s).1 in
      elim (Bool-cases (poll_write d l now (clock_tick d h) s).0) [
        | inr failed ↦ rw (failed, write_rounds) (λ e. absurd (ground arith))
        | inl good ↦ elim (Bool-cases (out d (clock_tick d h)).write_status_valid) [
          | inl ended ↦ rw (good, ended, write_rounds) (λ good. (ended, ground arith))
          | inr goes_on ↦
              rw (good, goes_on, write_rounds)
                (write_rounds-Confirms rounds now (clock_tick d h) s₁)
        ]
      ]

  pub dma_write-Confirms :
      (address ram_addr len tag now : ℕ) (h : Harness d) (s : l.State)
      → Confirms WriteDone (dma_write d l address ram_addr len tag now h s)
  unfolding dma_write
  dma_write-Confirms address ram_addr len tag now h s = started _ _
    where
      started :
          (accepted : Bool) (h₂ : Harness d)
          → Confirms WriteDone (elim accepted as (λ x. Bool × Harness d × l.State) [
            | false ↦ (false, h₂, s)
            | true ↦ write_rounds d l 2000 now h₂ s
          ])
      started false h₂ = λ e. absurd (ground arith)
      started true h₂ = write_rounds-Confirms 2000 now h₂ s
