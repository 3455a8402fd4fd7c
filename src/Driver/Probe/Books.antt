-- ===== src/Driver/Probe/Books.antt =====
-- What the calls of guest/pcie-vip/driver/pcie_vip.c to the kernel in probe and remove take and give
-- back.
use qemu_pcie_vip.Base.{ℕ, ◌≡◌, List, [], ◌∷◌, Bool, true, false, ◌==◌, if◌then◌else◌}
use qemu_pcie_vip.Driver.Balance.{taken}
use qemu_pcie_vip.Driver.Probe.{Bus, Vip}

-- What the driver holds: the interrupt vectors, the interrupt, the device file and the buffers, by size
-- and address, the latest first.
pub record Held : Type 0 where
  pub vectors : Bool
  pub irq : Bool
  pub file : Bool
  pub live : List (ℕ × ℕ)

abbrev pub nothing : Held
nothing = record { vectors = false; irq = false; file = false; live = [] }

abbrev pub everything : Vip → Held
everything v = record {
  vectors = true;
  irq = true;
  file = true;
  live = (16, v.completion_dma) ∷ (64, v.cmd_dma) ∷ [];
}

-- What the kernel's calls do to it; a call that fails takes nothing.
pub record Books (bus : Bus) : Type 0 where
  pub held : bus.State → Held
  pub of_kzalloc : (s : bus.State) → held (bus.kzalloc s).1 ≡ held s
  pub of_enable : (s : bus.State) → held (bus.enable_device s).1 ≡ held s
  pub of_iomap : (s : bus.State) → held (bus.iomap_regions s).1 ≡ held s
  pub of_master : (s : bus.State) → held (bus.set_master s) ≡ held s
  pub of_mask : (n : ℕ) (s : bus.State) → held (bus.set_mask n s).1 ≡ held s
  pub of_vectors :
      (s : bus.State)
      → held (bus.alloc_vectors s).1
        ≡ (if (bus.alloc_vectors s).0 == 0 then record (held s) { vectors = true } else held s)
  pub of_request :
      (s : bus.State)
      → held (bus.request_irq s).1
        ≡ (if (bus.request_irq s).0 == 0 then record (held s) { irq = true } else held s)
  pub of_register :
      (s : bus.State)
      → held (bus.misc_register s).1
        ≡ (if (bus.misc_register s).0 == 0 then record (held s) { file = true } else held s)
  pub of_alloc :
      (size : ℕ) (s : bus.State)
      → held (bus.dma_alloc size s).1
        ≡ record (held s) { live = taken size (bus.dma_alloc size s).0 (held s).live }
  pub of_free :
      (size a : ℕ) (rest : List (ℕ × ℕ)) (s : bus.State)
      → (held s).live ≡ (size, a) ∷ rest
      → held (bus.dma_free size a s) ≡ record (held s) { live = rest }
  pub of_free_vectors :
      (s : bus.State) → held (bus.free_vectors s) ≡ record (held s) { vectors = false }
  pub of_free_irq : (s : bus.State) → held (bus.free_irq s) ≡ record (held s) { irq = false }
  pub of_deregister :
      (s : bus.State) → held (bus.misc_deregister s) ≡ record (held s) { file = false }
