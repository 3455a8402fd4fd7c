-- ===== src/Host/Outcome.antt =====
-- `RunDemo`: what a success says of guest memory.
use qemu_pcie_vip.Base.{ℕ, ◌≡◌, refl, sym, ap, ◌∙◌, Bool, true, false, Option, none, some}
use qemu_pcie_vip.Socket.Kernel.{Kernel}
use qemu_pcie_vip.Endpoint.Defs.{completion}
use qemu_pcie_vip.Host.Memory.{HostMemory, write}
use qemu_pcie_vip.Host.Client.{HostClient, tick, service_rtl_initiated_transactions}
use qemu_pcie_vip.Host.Service.{service_verified}
use qemu_pcie_vip.Host.Demo.{
  mock_command_guest_addr, mock_bytes, and_then, write_mock_nvme_command, ring_doorbell,
  send_shutdown, run_demo,
}
use qemu_pcie_vip.Host.Unwritten.{
  Unwritten, connect-Unwritten, configure_admin_queues-Unwritten, send_shutdown-Unwritten,
  do_hello-Unwritten, do_reset-Unwritten, enable-Unwritten, ring_doorbell-Unwritten,
}

module _ (k : Kernel) where
  -- A step that went on.
  and_then-true :
      (o : Option (Bool × HostClient k)) (next : HostClient k → Option (Bool × HostClient k))
      (c' : HostClient k)
      → and_then o next ≡ some (true, c')
      → (c : HostClient k) × (o ≡ some (true, c)) × (next c ≡ some (true, c'))
  and_then-true none next c' e = absurd (cc)
  and_then-true (some (false, c)) next c' e = absurd (cc)
  and_then-true (some (true, c)) next c' e = (c, refl, e)

  unwritten_lem :
      (m : HostMemory) (o : Option (Bool × HostClient k)) (c : HostClient k)
      → Unwritten k m o
      → o ≡ some (true, c)
      → c.memory ≡ m
  unfolding Unwritten
  unwritten_lem m o c h e = rw e at h

  -- A step that leaves memory alone, and went on.
  and_then_kept :
      (m : HostMemory) (o : Option (Bool × HostClient k))
      (next : HostClient k → Option (Bool × HostClient k)) (c' : HostClient k)
      → Unwritten k m o
      → and_then o next ≡ some (true, c')
      → (c : HostClient k) × (c.memory ≡ m) × (next c ≡ some (true, c'))
  and_then_kept m o next c' h e =
      let (c, went, rest) = and_then-true o next c' e in (c, unwritten_lem m o c h went, rest)

  -- The demo up to the mock command, and from there on.
  abbrev ending : ℕ → HostClient k → Option (Bool × HostClient k)
  ending fuel c = and_then (ring_doorbell k fuel c) (λ c₇.
      and_then (service_rtl_initiated_transactions k fuel c₇)
        (λ c₈. send_shutdown k fuel (tick k c₈)))

  run_demo_start :
      (retries fuel : ℕ) (c c' : HostClient k)
      → run_demo k retries fuel c ≡ some (true, c')
      → (c₅ : HostClient k) × (c₅.memory ≡ c.memory)
        × (and_then (write_mock_nvme_command k c₅) (λ x. ending fuel x) ≡ some (true, c'))
  unfolding run_demo
  run_demo_start retries fuel c c' e =
      let (c₁, k₁, e₁) = and_then_kept c.memory _ _ c' (connect-Unwritten k retries fuel c) e in
      let (c₂, k₂, e₂) = and_then_kept c₁.memory _ _ c' (do_hello-Unwritten k fuel c₁) e₁ in
      let (c₃, k₃, e₃) = and_then_kept c₂.memory _ _ c' (do_reset-Unwritten k fuel c₂) e₂ in
      let (c₄, k₄, e₄) =
        and_then_kept c₃.memory _ _ c' (configure_admin_queues-Unwritten k fuel c₃) e₃ in
      let (c₅, k₅, e₅) = and_then_kept c₄.memory _ _ c' (enable-Unwritten k fuel c₄) e₄ in
      (c₅, k₅ ∙ k₄ ∙ k₃ ∙ k₂ ∙ k₁, e₅)

  run_demo_end :
      (fuel : ℕ) (c c' : HostClient k)
      → ending fuel c ≡ some (true, c')
      → (addr : ℕ) × (write addr completion c.memory ≡ (true, c'.memory))
  run_demo_end fuel c c' e =
      let (c₇, k₇, e₇) = and_then_kept c.memory _ _ c' (ring_doorbell-Unwritten k fuel c) e in
      let (c₈, serviced, e₈) =
        and_then-true (service_rtl_initiated_transactions k fuel c₇) _ c' e₇ in
      let after : c'.memory ≡ c₈.memory =
        unwritten_lem c₈.memory _ c' (send_shutdown-Unwritten k fuel (tick k c₈)) e₈ in
      moved c₇.memory c.memory c₈.memory c'.memory k₇ after (service_verified k fuel c₇ c₈ serviced)
    where
      moved :
          (m₁ m₂ n₁ n₂ : HostMemory)
          → m₁ ≡ m₂
          → n₂ ≡ n₁
          → ((addr : ℕ) × (write addr completion m₁ ≡ (true, n₁)))
          → (addr : ℕ) × (write addr completion m₂ ≡ (true, n₂))
      moved m₁ m₂ n₁ n₂ p q (addr, h) =
          (addr, ap (write addr completion) (sym p) ∙ h ∙ ap (λ x. (true, x)) (sym q))

  stored :
      (c c' : HostClient k)
      → write_mock_nvme_command k c ≡ some (true, c')
      → write mock_command_guest_addr (mock_bytes 64 0) c.memory ≡ (true, c'.memory)
  unfolding write_mock_nvme_command
  stored c c' e = ap seen e
    where
      seen : Option (Bool × HostClient k) → Bool × HostMemory
      seen none = (false, c.memory)
      seen (some (done, x)) = (done, x.memory)

  -- When RunDemo returns true, guest memory has changed by two writes, and by nothing else: first the
  -- 64 bytes of the mock command at 0x200000, then one DMA write of the endpoint's 16-byte completion.
  pub run_demo_memory :
      (retries fuel : ℕ) (c c' : HostClient k)
      → run_demo k retries fuel c ≡ some (true, c')
      → (m : HostMemory) × (addr : ℕ) × (write mock_command_guest_addr (mock_bytes 64 0) c.memory
          ≡ (true, m))
        × (write addr completion m ≡ (true, c'.memory))
  run_demo_memory retries fuel c c' e =
      let (c₅, before, e₅) = run_demo_start retries fuel c c' e in
      let (c₆, wrote, e₆) = and_then-true (write_mock_nvme_command k c₅) _ c' e₅ in
      joined c.memory c₅.memory c₆.memory c'.memory before (stored c₅ c₆ wrote)
        (run_demo_end fuel c₆ c' e₆)
    where
      joined :
          (m₁ m₂ m₃ m₄ : HostMemory)
          → m₂ ≡ m₁
          → write mock_command_guest_addr (mock_bytes 64 0) m₂ ≡ (true, m₃)
          → ((addr : ℕ) × (write addr completion m₃ ≡ (true, m₄)))
          → (m : HostMemory) × (addr : ℕ) × (write mock_command_guest_addr (mock_bytes 64 0) m₁
              ≡ (true, m))
            × (write addr completion m ≡ (true, m₄))
      joined m₁ m₂ m₃ m₄ p h (addr, g) =
          (m₃, addr, ap (write mock_command_guest_addr (mock_bytes 64 0)) (sym p) ∙ h, g)
