-- ===== src/Host/Unwritten.antt =====
-- The steps of `RunDemo` other than the mock command and the service of DMA, and guest memory.
use qemu_pcie_vip.Base.{
  ℕ, zero, suc, ◌≡◌, inl, inr, refl, subst, arith, List, [], Bool, true, false, ◌==◌, Option, none,
  some, Option-cases, Ensures, bit_and,
}
use qemu_pcie_vip.Protocol.Types.{
  Message, MessageType, hello, reset_req, mmio_write_req, mmio_read_req,
}
use qemu_pcie_vip.Socket.Kernel.{Kernel}
use qemu_pcie_vip.Socket.Transfer.{is_ok, send_all}
use qemu_pcie_vip.Socket.Framing.{message, io_failed, malformed, read_message}
use qemu_pcie_vip.Socket.Connection.{connect_unix_socket}
use qemu_pcie_vip.Endpoint.Defs.{value_bytes, csts_reg}
use qemu_pcie_vip.Host.Memory.{HostMemory}
use qemu_pcie_vip.Host.Client.{HostClient, tick, read_incoming}
use qemu_pcie_vip.Host.Demo.{
  and_then, connect_once, connect, send_request_and_wait, request_step, do_hello, do_reset, written,
  mmio_write32, mmio_write64, mmio_read32, configure_admin_queues, wait_ready,
  enable_controller_and_wait_ready, ring_doorbell, send_shutdown,
}

module _ (k : Kernel) where
  -- If it comes back, guest memory is as in `c`.
  unfoldable pub Unwritten : {A : Type 0} → HostMemory → Option (A × HostClient k) → Type 0
  Unwritten {A} m o = Ensures (λ (r : A × HostClient k). r.1.memory ≡ m) o

  -- A call that is made with what another returned.
  after-Unwritten :
      {A B : Type 0} (m : HostMemory) (o : Option (A × HostClient k))
      (f : A × HostClient k → Option (B × HostClient k))
      → Unwritten m o
      → ((a : A) (c : HostClient k) → c.memory ≡ m → Unwritten m (f (a, c)))
      → Unwritten m (elim o [ none ↦ none | some r ↦ f r ])
  unfolding Unwritten
  after-Unwritten m none f h next = tt
  after-Unwritten m (some (a, c)) f h next = next a c h

  -- The same behind a call that does not hold the client.
  behind-Unwritten :
      {A B : Type 0} (m : HostMemory) (o : Option A) (f : A → Option (B × HostClient k))
      → ((a : A) → Unwritten m (f a))
      → Unwritten m (elim o [ none ↦ none | some r ↦ f r ])
  unfolding Unwritten
  behind-Unwritten m none f next = tt
  behind-Unwritten m (some a) f next = next a

  choice-Unwritten :
      {A : Type 0} (m : HostMemory) (b : Bool) (x y : Option (A × HostClient k))
      → Unwritten m x
      → Unwritten m y
      → Unwritten m (elim b [ false ↦ x | true ↦ y ])
  choice-Unwritten m false x y h g = h
  choice-Unwritten m true x y h g = g

  connect_once-Unwritten :
      (fuel : ℕ) (c : HostClient k) → Unwritten c.memory (connect_once k fuel c)
  unfolding Unwritten connect_once
  connect_once-Unwritten fuel c =
      behind-Unwritten c.memory (connect_unix_socket k fuel c.socket_path 200 c.world) _
        (λ r. choice-Unwritten c.memory (is_ok r.0) _ _ refl refl)

  pub connect-Unwritten :
      (retries fuel : ℕ) (c : HostClient k) → Unwritten c.memory (connect k retries fuel c)
  unfolding Unwritten connect
  connect-Unwritten zero fuel c =
      after-Unwritten c.memory (connect_once k fuel c) _ (connect_once-Unwritten fuel c)
        (λ up c₁ h. h)
  connect-Unwritten (suc retries) fuel c =
      after-Unwritten c.memory (connect_once k fuel c) _ (connect_once-Unwritten fuel c) (λ up c₁ h.
        choice-Unwritten c.memory up _ _
          (subst (λ m. Unwritten m (connect k retries fuel c₁)) h
            (connect-Unwritten retries fuel c₁))
          h)

  read_incoming-Unwritten :
      (fuel : ℕ) (c : HostClient k) → Unwritten c.memory (read_incoming k fuel c)
  unfolding Unwritten read_incoming
  read_incoming-Unwritten fuel c =
      elim (Option-cases (read_message k fuel c.socket c.timeout_ms c.world)) [
        | inl stuck ↦ rw (stuck, read_incoming) tt
        | inr ((message m, w), got) ↦ rw (got, read_incoming) refl
        | inr ((io_failed st, w), got) ↦ rw (got, read_incoming) refl
        | inr ((malformed er, w), got) ↦ rw (got, read_incoming) refl
      ]

  send_request_and_wait-Unwritten :
      (fuel : ℕ) (type : MessageType) (address byte_enable : ℕ) (payload : List ℕ)
      (c : HostClient k)
      → Unwritten c.memory (send_request_and_wait k fuel type address byte_enable payload c)
  unfolding Unwritten send_request_and_wait
  send_request_and_wait-Unwritten fuel type address byte_enable payload c =
      behind-Unwritten c.memory (send_all k fuel c.socket _ c.timeout_ms c.world) _
        (λ r. choice-Unwritten c.memory (is_ok r.0) _ _ refl (read_incoming-Unwritten fuel _))

  request_step-Unwritten :
      (m : HostMemory) (test : Option Message → Bool) (o : Option (Option Message × HostClient k))
      → Unwritten m o
      → Unwritten m (request_step k test o)
  unfolding Unwritten request_step
  request_step-Unwritten m test none h = tt
  request_step-Unwritten m test (some (rsp, c)) h = h

  written-Unwritten :
      (m : HostMemory) (o : Option (Option Message × HostClient k))
      → Unwritten m o
      → Unwritten m (written k o)
  unfolding Unwritten written
  written-Unwritten m none h = tt
  written-Unwritten m (some (rsp, c)) h = ground arith

  and_then-Unwritten :
      (m : HostMemory) (o : Option (Bool × HostClient k))
      (next : HostClient k → Option (Bool × HostClient k))
      → Unwritten m o
      → ((c : HostClient k) → Unwritten c.memory (next c))
      → Unwritten m (and_then o next)
  unfolding Unwritten
  and_then-Unwritten m none next h g = tt
  and_then-Unwritten m (some (false, c)) next h g = h
  and_then-Unwritten m (some (true, c)) next h g = subst (λ m. Unwritten m (next c)) h (g c)

  mmio_write32-Unwritten :
      (fuel addr value : ℕ) (c : HostClient k)
      → Unwritten c.memory (mmio_write32 k fuel addr value c)
  unfolding mmio_write32
  mmio_write32-Unwritten fuel addr value c =
      written-Unwritten c.memory _
        (send_request_and_wait-Unwritten fuel mmio_write_req addr 0xf (value_bytes 4 0 value) c)

  mmio_write64-Unwritten :
      (fuel addr value : ℕ) (c : HostClient k)
      → Unwritten c.memory (mmio_write64 k fuel addr value c)
  unfolding mmio_write64
  mmio_write64-Unwritten fuel addr value c =
      written-Unwritten c.memory _
        (send_request_and_wait-Unwritten fuel mmio_write_req addr 0xff (value_bytes 8 0 value) c)

  pub configure_admin_queues-Unwritten :
      (fuel : ℕ) (c : HostClient k) → Unwritten c.memory (configure_admin_queues k fuel c)
  unfolding configure_admin_queues
  configure_admin_queues-Unwritten fuel c =
      and_then-Unwritten c.memory _ _ (mmio_write64-Unwritten fuel _ _ c) (λ c₁.
        and_then-Unwritten c₁.memory _ _ (mmio_write64-Unwritten fuel _ _ c₁)
          (λ c₂. mmio_write32-Unwritten fuel _ _ c₂))

  mmio_read32-Unwritten :
      (fuel addr : ℕ) (c : HostClient k) → Unwritten c.memory (mmio_read32 k fuel addr c)
  unfolding Unwritten mmio_read32
  mmio_read32-Unwritten fuel addr c =
      after-Unwritten c.memory (send_request_and_wait k fuel mmio_read_req addr 0xf [] c) _
        (send_request_and_wait-Unwritten fuel mmio_read_req addr 0xf [] c) (λ rsp c₁ h. h)

  status-Unwritten :
      (m : HostMemory) (value : Option ℕ) (c : HostClient k) (next : Option (Bool × HostClient k))
      → c.memory ≡ m
      → Unwritten m next
      → Unwritten m (elim value [
        | none ↦ some (false, c)
        | some csts ↦ elim (bit_and csts 1 == 0) [ false ↦ some (true, tick k c) | true ↦ next ]
      ])
  unfolding Unwritten
  status-Unwritten m none c next h g = h
  status-Unwritten m (some csts) c next h g = choice-Unwritten m (bit_and csts 1 == 0) _ _ h g

  wait_ready-Unwritten :
      (attempts fuel : ℕ) (c : HostClient k) → Unwritten c.memory (wait_ready k attempts fuel c)
  unfolding Unwritten wait_ready
  wait_ready-Unwritten zero fuel c = refl
  wait_ready-Unwritten (suc attempts) fuel c =
      after-Unwritten c.memory (mmio_read32 k fuel csts_reg c) _
        (mmio_read32-Unwritten fuel csts_reg c)
        (λ v c₁ h. status-Unwritten c.memory v c₁ _ h (
          subst (λ m. Unwritten m (wait_ready k attempts fuel c₁)) h
            (wait_ready-Unwritten attempts fuel c₁)))

  pub send_shutdown-Unwritten :
      (fuel : ℕ) (c : HostClient k) → Unwritten c.memory (send_shutdown k fuel c)
  unfolding Unwritten send_shutdown
  send_shutdown-Unwritten fuel c =
      behind-Unwritten c.memory (send_all k fuel c.socket _ c.timeout_ms c.world) _ (λ r. refl)

  pub do_hello-Unwritten : (fuel : ℕ) (c : HostClient k) → Unwritten c.memory (do_hello k fuel c)
  unfolding do_hello
  do_hello-Unwritten fuel c =
      request_step-Unwritten c.memory _ _ (send_request_and_wait-Unwritten fuel hello 0 0 [] c)

  pub do_reset-Unwritten : (fuel : ℕ) (c : HostClient k) → Unwritten c.memory (do_reset k fuel c)
  unfolding do_reset
  do_reset-Unwritten fuel c =
      request_step-Unwritten c.memory _ _ (send_request_and_wait-Unwritten fuel reset_req 0 0 [] c)

  pub enable-Unwritten :
      (fuel : ℕ) (c : HostClient k) → Unwritten c.memory (enable_controller_and_wait_ready k fuel c)
  unfolding enable_controller_and_wait_ready
  enable-Unwritten fuel c =
      and_then-Unwritten c.memory _ _ (mmio_write32-Unwritten fuel _ _ c)
        (λ c₁. wait_ready-Unwritten 50 fuel c₁)

  pub ring_doorbell-Unwritten :
      (fuel : ℕ) (c : HostClient k) → Unwritten c.memory (ring_doorbell k fuel c)
  unfolding ring_doorbell
  ring_doorbell-Unwritten fuel c = mmio_write32-Unwritten fuel _ _ c
