-- ===== src/Server/Invariant/Steps.antt =====
-- The invariant through the rounds of the I/O thread.
use qemu_pcie_vip.Base.{
  ℕ, zero, suc, ◌≡◌, ◌≢◌, ◌⊎◌, inl, inr, arith, false, not, ◌&&◌, none, some, Option-cases,
  Bool-cases, Ensures,
}
use qemu_pcie_vip.Socket.Kernel.{Kernel, Fd, pollin}
use qemu_pcie_vip.Socket.Transfer.{ok, timeout, disconnected, error, poll_for}
use qemu_pcie_vip.Socket.Framing.{Received, read_message}
use qemu_pcie_vip.Socket.Connection.{UnixListener, accept_on, move_assign}
use qemu_pcie_vip.Server.Defs.{Server, handshake, accept_client, io_step, io_run}
use qemu_pcie_vip.Transaction.Ids.{TransactionIdGenerator}
use qemu_pcie_vip.Transaction.Pending.{Table}
use qemu_pcie_vip.Server.Invariant.{
  WellFormed, Survives, handshake-WellFormed, serve_client-WellFormed,
}

module _ (k : Kernel) where
  -- Accept hands out a socket exactly when it returns kOk.
  accept_on_ok :
      (fuel : ℕ) (l : UnixListener) (t : ℕ) (w w' : k.World) (fd : Fd)
      → accept_on k fuel l t w ≡ some (ok, fd, w')
      → fd ≢ none
  unfolding accept_on
  accept_on_ok fuel l t w w' fd e = elim (Option-cases (poll_for k fuel l.fd pollin t w)) [
    | inl p ↦ absurd (ground arith)
    | inr ((ok, w₁), p) ↦ ground arith
    | inr ((timeout, w₁), p) ↦ absurd (ground arith)
    | inr ((disconnected, w₁), p) ↦ absurd (ground arith)
    | inr ((error, w₁), p) ↦ absurd (ground arith)
  ]

module _ (k : Kernel) (P : TransactionIdGenerator → Table → Type 0) (survives : Survives P) where
  accept_client-WellFormed :
      (fuel : ℕ) (s : Server k)
      → s.has_client ≡ false
      → WellFormed k P s
      → Ensures (WellFormed k P) (accept_client k fuel s)
  unfolding accept_client
  accept_client-WellFormed fuel s n v =
      elim (Option-cases (accept_on k fuel s.listener s.io_timeout_ms s.world)) [
        | inl e ↦ rw (e, accept_client) tt
        | inr ((timeout, fd, w), e) ↦
            rw (e, accept_client) (record { connected = v.connected; filed = v.filed })
        | inr ((disconnected, fd, w), e) ↦
            rw (e, accept_client) (record { connected = v.connected; filed = v.filed })
        | inr ((error, fd, w), e) ↦
            rw (e, accept_client) (record { connected = v.connected; filed = v.filed })
        | inr ((ok, fd, w), e) ↦
            rw (e, accept_client)
              (greeted (move_assign k s.client_socket fd w).0 (move_assign k s.client_socket fd w).1
                (unfold move_assign in
                  accept_on_ok k fuel s.listener s.io_timeout_ms s.world w fd e)
                (Option-cases _))
      ]
    where
      greeted :
          (client : Fd) (w₁ : k.World)
          → client ≢ none
          → ((read_message k fuel client s.io_timeout_ms w₁ ≡ none)
              ⊎ ((r : Received × k.World) × (read_message k fuel client s.io_timeout_ms w₁
                    ≡ some r)))
          → Ensures (WellFormed k P) (elim (read_message k fuel client s.io_timeout_ms w₁) [
            | none ↦ none
            | some (r, w₂) ↦ handshake k fuel r (record s { client_socket = client; world = w₂ })
          ])
      greeted client w₁ open_ (inl e) = rw e tt
      greeted client w₁ open_ (inr ((r, w₂), e)) = rw e (
          handshake-WellFormed k P survives fuel r (record s { client_socket = client; world = w₂ })
            open_ n v.filed)

  pub io_step-WellFormed :
      (fuel : ℕ) (s : Server k) → WellFormed k P s → Ensures (WellFormed k P) (io_step k fuel s)
  unfolding io_step
  io_step-WellFormed fuel s v = elim (Bool-cases (s.running && not s.stop_requested)) [
    | inr halt ↦ rw (halt, io_step) v
    | inl go ↦
        rw (go, io_step)
          (elim (Bool-cases s.has_client) [
            | inl client ↦ rw client (serve_client-WellFormed k P survives fuel s v)
            | inr none_yet ↦ rw none_yet (accept_client-WellFormed fuel s none_yet v)
          ])
  ]

  -- However many rounds the I/O thread makes, and whatever arrives: a client past the handshake has
  -- an open socket, and what survives the filing of a response still holds of the pending requests.
  pub io_run-WellFormed :
      (rounds fuel : ℕ) (s : Server k)
      → WellFormed k P s
      → Ensures (WellFormed k P) (io_run k rounds fuel s)
  unfolding io_run
  io_run-WellFormed zero fuel s v = v
  io_run-WellFormed (suc rounds) fuel s v = elim (Option-cases (io_step k fuel s)) [
    | inl e ↦ rw (e, io_run) tt
    | inr (s₁, e) ↦
        rw (e, io_run) (io_run-WellFormed rounds fuel s₁ (rw e at (io_step-WellFormed fuel s v)))
  ]
