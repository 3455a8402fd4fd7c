-- ===== src/Socket/Transfer.antt =====
-- `PollFor`, `SendAll`, `RecvAll` and `WaitReadable` of mini-ics/src/socket.cpp over any kernel.
use qemu_pcie_vip.Base.{
  ℕ, zero, suc, ◌-◌, List, [], ◌∷◌, ◌++◌, Bool, true, false, not, ◌&&◌, ◌||◌, ◌==◌, Option, none,
  some, length, drop, if◌then◌else◌,
}
use qemu_pcie_vip.Socket.Kernel.{
  Kernel, Fd, Event, pollin, pollout, Revents, Errno, ready, timed_out, poll_failed, SendAnswer,
  sent, send_failed, RecvAnswer, received, recv_failed, eintr, eagain, ewouldblock, epipe,
  econnreset,
}

pub data IoStatus : Type 0 where
  ok timeout disconnected error : IoStatus

abbrev pub is_ok : IoStatus → Bool
is_ok ok = true
is_ok timeout = false
is_ok disconnected = false
is_ok error = false

-- The branch on a positive answer of poll().
unfoldable pub status_of_revents : Revents → IoStatus
status_of_revents r =
    if r.pollerr || r.pollnval
    then error
    else if r.pollhup && not r.requested
    then disconnected
    else ok

abbrev pub is_eintr : Errno → Bool
is_eintr eintr = true
is_eintr _ = false

-- `errno == EINTR || errno == EAGAIN || errno == EWOULDBLOCK`
abbrev pub is_retry : Errno → Bool
is_retry eintr = true
is_retry eagain = true
is_retry ewouldblock = true
is_retry _ = false

abbrev pub is_hangup : Errno → Bool
is_hangup epipe = true
is_hangup econnreset = true
is_hangup _ = false

-- `none` is no answer of the source: the fuel ran out. The laws of the kernel bound the fuel that
-- is needed (Socket/Termination).
module _ (k : Kernel) where
  unfoldable pub poll_for : ℕ → Fd → Event → ℕ → k.World → Option (IoStatus × k.World)
  unfolding status_of_revents
  poll_for zero fd events timeout_ms w = none
  poll_for (suc fuel) fd events timeout_ms w =
      let (rc, w') = k.poll fd events timeout_ms w in
      elim rc [
        | ready r ↦ some (status_of_revents r, w')
        | timed_out ↦ some (timeout, w')
        | poll_failed e ↦ elim (is_eintr e) [
          | true ↦ poll_for fuel fd events timeout_ms w'
          | false ↦ some (error, w')
        ]
      ]

  -- A round of SendAll after `wait != kOk` and after send(): `retry` is the next round with nothing
  -- sent, `more n` the one after `sent += n`.
  unfoldable pub after_send :
      (k.World → Option (IoStatus × k.World))
      → (ℕ → k.World → Option (IoStatus × k.World))
      → SendAnswer
      → k.World
      → Option (IoStatus × k.World)
  after_send retry more (send_failed e) w = elim (is_retry e) [
    | true ↦ retry w
    | false ↦ some ((if is_hangup e then disconnected else error), w)
  ]
  after_send retry more (sent n) w = elim (n == 0) [
    | true ↦ some (disconnected, w)
    | false ↦ more n w
  ]

  -- The loop of SendAll: the list is `data` from `sent` on. `polls` is the fuel of each PollFor.
  unfoldable pub send_loop : ℕ → ℕ → Fd → ℕ → List ℕ → k.World → Option (IoStatus × k.World)
  unfolding poll_for after_send
  send_loop fuel polls fd timeout_ms [] w = some (ok, w)
  send_loop zero polls fd timeout_ms (b ∷ bs) w = none
  send_loop (suc fuel) polls fd timeout_ms (b ∷ bs) w =
      elim (poll_for polls fd pollout timeout_ms w) [
        | none ↦ none
        | some (wait, w₁) ↦ elim (is_ok wait) [
          | false ↦ some (wait, w₁)
          | true ↦
              after_send (λ w₂. send_loop fuel polls fd timeout_ms (b ∷ bs) w₂)
                (λ n w₂. send_loop fuel polls fd timeout_ms (drop n (b ∷ bs)) w₂)
                (k.send fd (b ∷ bs) w₁).0 (k.send fd (b ∷ bs) w₁).1
        ]
      ]

  unfoldable pub send_all : ℕ → Fd → List ℕ → ℕ → k.World → Option (IoStatus × k.World)
  send_all fuel fd bytes timeout_ms w = send_loop fuel fuel fd timeout_ms bytes w

  -- A round of RecvAll after recv(), in the same way; `got` are the bytes filled so far.
  unfoldable pub after_recv :
      List ℕ
      → (k.World → Option (IoStatus × List ℕ × k.World))
      → (List ℕ → k.World → Option (IoStatus × List ℕ × k.World))
      → RecvAnswer
      → k.World
      → Option (IoStatus × List ℕ × k.World)
  after_recv got retry more (recv_failed e) w = elim (is_retry e) [
    | true ↦ retry w
    | false ↦ some (error, got, w)
  ]
  after_recv got retry more (received []) w = some (disconnected, got, w)
  after_recv got retry more (received (b ∷ bs)) w = more (b ∷ bs) w

  -- The loop of RecvAll with `need` bytes of `out` left to fill.
  unfoldable pub recv_loop :
      ℕ → ℕ → Fd → ℕ → ℕ → List ℕ → k.World → Option (IoStatus × List ℕ × k.World)
  unfolding poll_for after_recv
  recv_loop fuel polls fd timeout_ms zero got w = some (ok, got, w)
  recv_loop zero polls fd timeout_ms (suc need) got w = none
  recv_loop (suc fuel) polls fd timeout_ms (suc need) got w =
      elim (poll_for polls fd pollin timeout_ms w) [
        | none ↦ none
        | some (wait, w₁) ↦ elim (is_ok wait) [
          | false ↦ some (wait, got, w₁)
          | true ↦
              after_recv got (λ w₂. recv_loop fuel polls fd timeout_ms (suc need) got w₂)
                (λ bs w₂. recv_loop fuel polls fd timeout_ms (suc need - length bs) (got ++ bs) w₂)
                (k.recv fd (suc need) w₁).0 (k.recv fd (suc need) w₁).1
        ]
      ]

  -- The bytes that were read into `out`, which has `size` bytes; the others are not touched.
  unfoldable pub recv_all : ℕ → Fd → ℕ → ℕ → k.World → Option (IoStatus × List ℕ × k.World)
  recv_all fuel fd size timeout_ms w = recv_loop fuel fuel fd timeout_ms size [] w

  unfoldable pub wait_readable : ℕ → Fd → ℕ → k.World → Option (IoStatus × k.World)
  wait_readable fuel fd timeout_ms w = poll_for fuel fd pollin timeout_ms w
