-- ===== src/Socket/Connection.antt =====
-- `UnixSocket::Close` and its moves, `UnixListener` and `ConnectUnixSocket` of
-- mini-ics/src/socket.cpp. A path is the list of its bytes.
use qemu_pcie_vip.Base.{
  ℕ, List, [], Bool, true, false, leb, Option, none, some, length, if◌then◌else◌,
}
use qemu_pcie_vip.Socket.Kernel.{Kernel, Fd, Errno, einprogress, pollin, pollout}
use qemu_pcie_vip.Socket.Transfer.{IoStatus, ok, error, is_ok, poll_for}

pub record UnixListener : Type 0 where
  pub fd : Fd
  pub path : List ℕ

abbrev pub closed_listener : UnixListener
closed_listener = record { fd = none; path = [] }

abbrev is_einprogress : Errno → Bool
is_einprogress einprogress = true
is_einprogress _ = false

module _ (k : Kernel) where
  -- The world after `UnixSocket::Close`; the descriptor is -1 after it.
  unfoldable pub close_fd : Fd → k.World → k.World
  close_fd none w = w
  close_fd (some fd) w = k.close fd w

  -- `socket = std::move(other)` of another socket: what was open is closed.
  unfoldable pub move_assign : Fd → Fd → k.World → Fd × k.World
  unfolding close_fd
  move_assign socket other w = (other, close_fd socket w)

  unfoldable pub close_listener : UnixListener → k.World → UnixListener × k.World
  close_listener l w = elim l.fd [
    | none ↦ (l, w)
    | some fd ↦
        let w₁ = k.close fd w in
        elim l.path [ [] ↦ (closed_listener, w₁) | _ ↦ (closed_listener, k.unlink l.path w₁) ]
  ]

  -- The new listener, or nothing and the descriptor closed again.
  unfoldable pub listen_on : List ℕ → ℕ → k.World → Option UnixListener × k.World
  listen_on path backlog w = elim (k.socket w).0 [
    | none ↦ (none, (k.socket w).1)
    | some fd ↦
        let w₁ = (k.socket w).1 in
        if leb k.sun_path_size (length path)
        then (none, k.close fd w₁)
        else let (bound, w₂) = k.bind fd path (k.unlink path w₁) in
          elim bound [
            | false ↦ (none, k.close fd w₂)
            | true ↦
                let (listening, w₃) = k.listen fd backlog w₂ in
                if listening
                then (some (record { fd = some fd; path = path }), w₃)
                else (none, k.close fd w₃)
          ]
  ]

  unfoldable pub accept_on : ℕ → UnixListener → ℕ → k.World → Option (IoStatus × Fd × k.World)
  accept_on fuel l timeout_ms w = elim (poll_for k fuel l.fd pollin timeout_ms w) [
    | none ↦ none
    | some (wait, w₁) ↦ elim (is_ok wait) [
      | false ↦ some (wait, none, w₁)
      | true ↦ elim (k.accept l.fd w₁).0 [
        | none ↦ some (error, none, (k.accept l.fd w₁).1)
        | some fd ↦ some (ok, some fd, (k.accept l.fd w₁).1)
      ]
    ]
  ]

  -- The tail of ConnectUnixSocket, once connect() is under way.
  finish_connect : ℕ → ℕ → ℕ → k.World → Option (IoStatus × Fd × k.World)
  finish_connect fuel fd timeout_ms w = elim (poll_for k fuel (some fd) pollout timeout_ms w) [
    | none ↦ none
    | some (wait, w₁) ↦ elim (is_ok wait) [
      | false ↦ some (wait, none, k.close fd w₁)
      | true ↦
          let (fine, w₂) = k.so_error fd w₁ in
          elim fine [
            | false ↦ some (error, none, k.close fd w₂)
            | true ↦ some (ok, some fd, k.set_nonblocking fd false w₂)
          ]
    ]
  ]

  unfoldable pub connect_unix_socket : ℕ → List ℕ → ℕ → k.World → Option (IoStatus × Fd × k.World)
  unfolding finish_connect
  connect_unix_socket fuel path timeout_ms w = elim (k.socket w).0 [
    | none ↦ some (error, none, (k.socket w).1)
    | some fd ↦
        let w₁ = k.set_nonblocking fd true (k.socket w).1 in
        if leb k.sun_path_size (length path)
        then some (error, none, k.close fd w₁)
        else let (rc, w₂) = k.connect fd path w₁ in
          elim rc [
            | none ↦ some (ok, some fd, k.set_nonblocking fd false w₂)
            | some e ↦ elim (is_einprogress e) [
              | false ↦ some (error, none, k.close fd w₂)
              | true ↦ finish_connect fuel fd timeout_ms w₂
            ]
          ]
  ]
