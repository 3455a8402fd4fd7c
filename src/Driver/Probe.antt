-- ===== src/Driver/Probe.antt =====
-- `pcie_vip_probe` and `pcie_vip_remove` of guest/pcie-vip/driver/pcie_vip.c, over the calls of the
-- Linux kernel that they make. A result is the number of the error, 0 for success, also where the kernel
-- answers with the number of vectors.
pub mod Books
pub mod Release
use qemu_pcie_vip.Base.{ℕ, Bool, true, false, ◌==◌, Option, none, some}
use qemu_pcie_vip.Driver.Run.{enomem}

abbrev pub enodev : ℕ
enodev = 19

pub record Bus : Type 1 where
  pub State : Type 0
  pub kzalloc : State → Bool × State
  pub enable_device : State → ℕ × State
  pub iomap_regions : State → ℕ × State
  -- Whether BAR 0 is mapped.
  pub has_bar0 : State → Bool
  pub set_master : State → State
  pub set_mask : ℕ → State → ℕ × State
  pub alloc_vectors : State → ℕ × State
  pub request_irq : State → ℕ × State
  pub dma_alloc : ℕ → State → Option ℕ × State
  pub dma_free : ℕ → ℕ → State → State
  pub misc_register : State → ℕ × State
  pub free_vectors : State → State
  pub free_irq : State → State
  pub misc_deregister : State → State

-- The buffers of a device that is bound.
pub record Vip : Type 0 where
  pub cmd_dma : ℕ
  pub completion_dma : ℕ

module _ (bus : Bus) where
  abbrev pub Probed : Type 0
  Probed = ℕ × Option Vip × bus.State

  unfoldable pub release_if : ℕ → Option ℕ → bus.State → bus.State
  release_if size none s = s
  release_if size (some a) s = bus.dma_free size a s

  unfoldable pub err_vectors : ℕ → bus.State → Probed
  err_vectors ret s = (ret, none, bus.free_vectors s)

  unfoldable pub err_dma : ℕ → Option ℕ → Option ℕ → bus.State → Probed
  unfolding err_vectors release_if
  err_dma ret cmd completion s = err_vectors ret (release_if 64 cmd (release_if 16 completion s))

  -- The test of the two buffers, and the registration of the device file.
  unfoldable pub with_buffers : Option ℕ → Option ℕ → bus.State → Probed
  unfolding err_dma
  with_buffers none completion s = err_dma enomem none completion s
  with_buffers (some cmd) none s = err_dma enomem (some cmd) none s
  with_buffers (some cmd) (some completion) s =
      let (ret, s₁) = bus.misc_register s in
      elim (ret == 0) [
        | true ↦ (0, some (record { cmd_dma = cmd; completion_dma = completion }), s₁)
        | false ↦ err_dma ret (some cmd) (some completion) s₁
      ]

  -- From the vectors on.
  unfoldable pub with_vectors : bus.State → Probed
  unfolding err_vectors with_buffers
  with_vectors s =
      let (ret, s₁) = bus.request_irq s in
      elim (ret == 0) [
        | false ↦ err_vectors ret s₁
        | true ↦
            let (cmd, s₂) = bus.dma_alloc 64 s₁ in
            let (completion, s₃) = bus.dma_alloc 16 s₂ in with_buffers cmd completion s₃
      ]

  unfoldable pub with_mask : ℕ × bus.State → Probed
  unfolding with_vectors
  with_mask (ret, s) = elim (ret == 0) [
    | false ↦ (ret, none, s)
    | true ↦
        let (ret₁, s₁) = bus.alloc_vectors s in
        elim (ret₁ == 0) [ false ↦ (ret₁, none, s₁) | true ↦ with_vectors s₁ ]
  ]

  -- The 64-bit mask, or else the 32-bit mask.
  unfoldable pub choose_mask : bus.State → ℕ × bus.State
  choose_mask s =
      let (ret, s₁) = bus.set_mask 64 s in
      elim (ret == 0) [ true ↦ (ret, s₁) | false ↦ bus.set_mask 32 s₁ ]

  unfoldable pub with_regions : bus.State → Probed
  unfolding choose_mask with_mask
  with_regions s = elim (bus.has_bar0 s) [
    | false ↦ (enodev, none, s)
    | true ↦ with_mask (choose_mask (bus.set_master s))
  ]

  unfoldable pub with_device : bus.State → Probed
  unfolding with_regions
  with_device s =
      let (ret, s₁) = bus.iomap_regions s in
      elim (ret == 0) [ false ↦ (ret, none, s₁) | true ↦ with_regions s₁ ]

  unfoldable pub with_memory : bus.State → Probed
  unfolding with_device
  with_memory s =
      let (ret, s₁) = bus.enable_device s in
      elim (ret == 0) [ false ↦ (ret, none, s₁) | true ↦ with_device s₁ ]

  unfoldable pub probe : bus.State → Probed
  unfolding with_memory
  probe s =
      let (got, s₁) = bus.kzalloc s in
      elim got [ false ↦ (enomem, none, s₁) | true ↦ with_memory s₁ ]

  unfoldable pub remove : Vip → bus.State → bus.State
  remove v s = bus.free_vectors (
      bus.dma_free 64 v.cmd_dma
        (bus.dma_free 16 v.completion_dma (bus.free_irq (bus.misc_deregister s))))
