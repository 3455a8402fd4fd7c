-- ===== src/Socket/Termination.antt =====
-- The fuel that the transfers need, by the laws of the kernel.
use qemu_pcie_vip.Base.{
  ℕ, zero, suc, ◌+◌, ◌-◌, ◌≤◌, ◌<◌, ◌≡◌, refl, ap, ◌∙◌, arith, List, [], ◌∷◌, ◌++◌, true, ◌≢◌,
  Option, none, length, drop, length-drop, Bool-cases, Option-cases, inl, inr,
}
use qemu_pcie_vip.Socket.Kernel.{
  Kernel, StreamLaws, Fd, Event, pollin, pollout, Errno, PollAnswer, ready, timed_out, poll_failed,
  SendAnswer, sent, eintr, eagain, ewouldblock, epipe, econnreset, einprogress, other_errno,
  send_failed, RecvAnswer, received, recv_failed, IsRetryErrno,
}
use qemu_pcie_vip.Socket.Transfer.{
  IoStatus, ok, timeout, disconnected, error, is_eintr, is_retry, after_send, after_recv, poll_for,
  send_loop, send_all, recv_loop, recv_all,
}
use qemu_pcie_vip.Socket.Exact.{poll_for_keeps}

is_retry-IsRetryErrno : (e : Errno) → is_retry e ≡ true → IsRetryErrno e
is_retry-IsRetryErrno eintr h = tt
is_retry-IsRetryErrno eagain h = tt
is_retry-IsRetryErrno ewouldblock h = tt
is_retry-IsRetryErrno epipe h = cc
is_retry-IsRetryErrno econnreset h = cc
is_retry-IsRetryErrno einprogress h = cc
is_retry-IsRetryErrno other_errno h = cc

is_eintr-eq : (e : Errno) → is_eintr e ≡ true → e ≡ eintr
is_eintr-eq eintr h = refl
is_eintr-eq _ h = cc

module _ (k : Kernel) (laws : StreamLaws k) where
  open laws use {patience}

  poll_for_round :
      (fd : Fd) (e : Event) (t : ℕ) (w : k.World) (ans : PollAnswer) (fuel : ℕ)
      → (k.poll fd e t w).0 ≡ ans
      → patience w < suc fuel
      → ((w' : k.World) → patience w' < fuel → poll_for k fuel fd e t w' ≢ none)
      → poll_for k (suc fuel) fd e t w ≢ none
  unfolding poll_for
  poll_for_round fd e t w (ready r) fuel a h ih = ground arith
  poll_for_round fd e t w timed_out fuel a h ih = ground arith
  poll_for_round fd e t w (poll_failed errno) fuel a h ih = elim (Bool-cases (is_eintr errno)) [
    | inl again ↦
        let fewer = laws.poll_retry fd e t w (a ∙ ap poll_failed (is_eintr-eq errno again)) in
        let rest = ih (k.poll fd e t w).1 (omega arith) in ground arith
    | inr stop ↦ ground arith
  ]

  -- PollFor retries only interrupted polls, so more rounds than interruptions are enough.
  pub poll_for_returns :
      (fuel : ℕ) (fd : Fd) (e : Event) (t : ℕ) (w : k.World)
      → patience w < fuel
      → poll_for k fuel fd e t w ≢ none
  poll_for_returns zero fd e t w h = absurd (omega arith)
  poll_for_returns (suc fuel) fd e t w h =
      poll_for_round fd e t w _ fuel refl h (λ w' p. poll_for_returns fuel fd e t w' p)

  after_send_returns :
      (fd : Fd) (b : ℕ) (bs : List ℕ) (fuel : ℕ) (retry : k.World → Option (IoStatus × k.World))
      (more : ℕ → k.World → Option (IoStatus × k.World)) (w : k.World) (ans : SendAnswer)
      → (k.send fd (b ∷ bs) w).0 ≡ ans
      → patience w + length (b ∷ bs) ≤ fuel
      → ((w₂ : k.World)
          → patience w₂ + length (b ∷ bs) < fuel
          → patience w₂ ≤ patience w
          → retry w₂ ≢ none)
      → ((n : ℕ) (w₂ : k.World)
          → patience w₂ + length (drop n (b ∷ bs)) < fuel
          → patience w₂ ≤ patience w
          → more n w₂ ≢ none)
      → after_send k retry more ans (k.send fd (b ∷ bs) w).1 ≢ none
  unfolding after_send
  after_send_returns fd b bs fuel retry more w (send_failed e) a h hr hm =
      elim (Bool-cases (is_retry e)) [
        | inl again ↦
            let fewer = laws.send_retry fd (b ∷ bs) w e a (is_retry-IsRetryErrno e again) in
            let rest = hr (k.send fd (b ∷ bs) w).1 (omega arith) (omega arith) in ground arith
        | inr stop ↦ ground arith
      ]
  after_send_returns fd b bs fuel retry more w (sent zero) a h hr hm = ground arith
  after_send_returns fd b bs fuel retry more w (sent (suc n)) a h hr hm =
      let kept = laws.send_patience fd (b ∷ bs) w in
      let rest =
        hm (suc n) (k.send fd (b ∷ bs) w).1 (omega (arith, length-drop (suc n) (b ∷ bs))) kept in
      ground arith

  send_loop_returns :
      (fuel polls : ℕ) (fd : Fd) (t : ℕ) (bs : List ℕ) (w : k.World)
      → patience w < polls
      → patience w + length bs ≤ fuel
      → send_loop k fuel polls fd t bs w ≢ none
  unfolding send_loop
  send_loop_returns fuel polls fd t [] w p h = ground arith
  send_loop_returns zero polls fd t (b ∷ bs) w p h = absurd (omega arith)
  send_loop_returns (suc fuel) polls fd t (b ∷ bs) w p h =
      elim (Option-cases (poll_for k polls fd pollout t w)) [
        | inl e ↦ absurd (poll_for_returns polls fd pollout t w p e)
        | inr ((ok, w₁), e) ↦
            let (_, _, kept) = poll_for_keeps k laws polls fd pollout t w w₁ ok e in
            rw (e, send_loop)
              (after_send_returns fd b bs (suc fuel) _ _ w₁ _ refl (omega arith)
                (λ w₂ m q.
                  send_loop_returns fuel polls fd t (b ∷ bs) w₂ (omega arith) (omega arith))
                (λ n w₂ m q.
                  send_loop_returns fuel polls fd t (drop n (b ∷ bs)) w₂ (omega arith)
                    (omega arith)))
        | inr ((timeout, w₁), e) ↦ rw (e, send_loop) (λ x. cc)
        | inr ((disconnected, w₁), e) ↦ rw (e, send_loop) (λ x. cc)
        | inr ((error, w₁), e) ↦ rw (e, send_loop) (λ x. cc)
      ]

  after_recv_returns :
      (fd : Fd) (need : ℕ) (fuel : ℕ) (got : List ℕ)
      (retry : k.World → Option (IoStatus × List ℕ × k.World))
      (more : List ℕ → k.World → Option (IoStatus × List ℕ × k.World)) (w : k.World)
      (ans : RecvAnswer)
      → (k.recv fd (suc need) w).0 ≡ ans
      → patience w + suc need ≤ fuel
      → ((w₂ : k.World)
          → patience w₂ + suc need < fuel
          → patience w₂ ≤ patience w
          → retry w₂ ≢ none)
      → ((bs : List ℕ) (w₂ : k.World)
          → patience w₂ + (suc need - length bs) < fuel
          → patience w₂ ≤ patience w
          → more bs w₂ ≢ none)
      → after_recv k got retry more ans (k.recv fd (suc need) w).1 ≢ none
  unfolding after_recv
  after_recv_returns fd need fuel got retry more w (recv_failed e) a h hr hm =
      elim (Bool-cases (is_retry e)) [
        | inl again ↦
            let fewer = laws.recv_retry fd (suc need) w e a (is_retry-IsRetryErrno e again) in
            let rest = hr (k.recv fd (suc need) w).1 (omega arith) (omega arith) in ground arith
        | inr stop ↦ ground arith
      ]
  after_recv_returns fd need fuel got retry more w (received []) a h hr hm = λ x. cc
  after_recv_returns fd need fuel got retry more w (received (b ∷ bs)) a h hr hm =
      let kept = laws.recv_patience fd (suc need) w in
      hm (b ∷ bs) (k.recv fd (suc need) w).1 (omega arith) kept

  recv_loop_returns :
      (fuel polls : ℕ) (fd : Fd) (t need : ℕ) (got : List ℕ) (w : k.World)
      → patience w < polls
      → patience w + need ≤ fuel
      → recv_loop k fuel polls fd t need got w ≢ none
  unfolding recv_loop
  recv_loop_returns fuel polls fd t zero got w p h = ground arith
  recv_loop_returns zero polls fd t (suc need) got w p h = absurd (omega arith)
  recv_loop_returns (suc fuel) polls fd t (suc need) got w p h =
      elim (Option-cases (poll_for k polls fd pollin t w)) [
        | inl e ↦ absurd (poll_for_returns polls fd pollin t w p e)
        | inr ((ok, w₁), e) ↦
            let (_, _, kept) = poll_for_keeps k laws polls fd pollin t w w₁ ok e in
            rw (e, recv_loop)
              (after_recv_returns fd need (suc fuel) got _ _ w₁ _ refl (omega arith)
                (λ w₂ m q.
                  recv_loop_returns fuel polls fd t (suc need) got w₂ (omega arith) (omega arith))
                (λ bs w₂ m q.
                  recv_loop_returns fuel polls fd t (suc need - length bs) (got ++ bs) w₂
                    (omega arith) (omega arith)))
        | inr ((timeout, w₁), e) ↦ rw (e, recv_loop) (λ x. cc)
        | inr ((disconnected, w₁), e) ↦ rw (e, recv_loop) (λ x. cc)
        | inr ((error, w₁), e) ↦ rw (e, recv_loop) (λ x. cc)
      ]

  -- SendAll and RecvAll come back: with more fuel than the interruptions still to come and the bytes
  -- to move, neither loop runs out of it, whatever else the kernel answers.
  pub transfers_return :
      (fuel : ℕ) (fd : Fd) (t : ℕ) (w : k.World) (bs : List ℕ) (size : ℕ)
      → patience w + length bs < fuel
      → patience w + size < fuel
      → (send_all k fuel fd bs t w ≢ none) × (recv_all k fuel fd size t w ≢ none)
  unfolding send_all recv_all
  transfers_return fuel fd t w bs size h g = (
    send_loop_returns fuel fuel fd t bs w (omega arith) (omega arith),
    recv_loop_returns fuel fuel fd t size [] w (omega arith) (omega arith),
  )
