-- ===== src/Socket/Exact.antt =====
-- What the transfers move, over any kernel that has the laws of a stream.
use qemu_pcie_vip.Base.{
  ℕ, zero, suc, ◌-◌, ◌≤◌, ◌≡◌, refl, sym, ap, ◌∙◌, arith, List, [], ◌∷◌, ◌++◌, Option, some, length,
  drop, take, length-append, append_assoc, append-nil, take-append-drop, Bool-cases, Option-cases,
  inl, inr,
}
use qemu_pcie_vip.Socket.Kernel.{
  Kernel, StreamLaws, Fd, Event, pollin, pollout, SendAnswer, sent, send_failed, RecvAnswer,
  received, recv_failed,
}
use qemu_pcie_vip.Socket.Transfer.{
  IoStatus, ok, timeout, disconnected, error, is_retry, after_send, after_recv, poll_for, send_loop,
  send_all, recv_loop, recv_all,
}

module _ (k : Kernel) (laws : StreamLaws k) where
  open laws use {incoming, outgoing, patience}

  -- A wait moves no bytes.
  pub poll_for_keeps :
      (fuel : ℕ) (fd : Fd) (e : Event) (t : ℕ) (w w' : k.World) (st : IoStatus)
      → poll_for k fuel fd e t w ≡ some (st, w')
      → (incoming fd w' ≡ incoming fd w)
        × (outgoing fd w' ≡ outgoing fd w)
        × (patience w' ≤ patience w)
  unfolding poll_for
  poll_for_keeps zero fd e t w w' st h = cc
  poll_for_keeps (suc fuel) fd e t w w' st h = ground (
    arith,
    laws.poll_incoming fd e t w,
    laws.poll_outgoing fd e t w,
    laws.poll_patience fd e t w,
    poll_for_keeps fuel fd e t (k.poll fd e t w).1 w' st,
  )

  after_send_ok :
      (fd : Fd) (bs : List ℕ) (retry : k.World → Option (IoStatus × k.World))
      (more : ℕ → k.World → Option (IoStatus × k.World)) (w w' : k.World) (ans : SendAnswer)
      → (k.send fd bs w).0 ≡ ans
      → ((w₂ : k.World)
          → retry w₂ ≡ some (ok, w')
          → (outgoing fd w' ≡ outgoing fd w₂ ++ bs) × (incoming fd w' ≡ incoming fd w₂))
      → ((n : ℕ) (w₂ : k.World)
          → more n w₂ ≡ some (ok, w')
          → (outgoing fd w' ≡ outgoing fd w₂ ++ drop n bs) × (incoming fd w' ≡ incoming fd w₂))
      → after_send k retry more ans (k.send fd bs w).1 ≡ some (ok, w')
      → (outgoing fd w' ≡ outgoing fd w ++ bs) × (incoming fd w' ≡ incoming fd w)
  unfolding after_send
  after_send_ok fd bs retry more w w' (send_failed e) a hr hm h =
      ground (arith, hr (k.send fd bs w).1, laws.send_error fd bs w e a, laws.send_incoming fd bs w)
  after_send_ok fd bs retry more w w' (sent n) a hr hm h = ground (
    arith,
    hm n (k.send fd bs w).1,
    laws.send_sent fd bs w n a,
    laws.send_incoming fd bs w,
    append_assoc (outgoing fd w) (take n bs) (drop n bs),
    take-append-drop n bs,
  )

  -- The loop of SendAll hands over all that it is given, and touches nothing that comes in.
  send_loop_ok :
      (fuel polls : ℕ) (fd : Fd) (t : ℕ) (bs : List ℕ) (w w' : k.World)
      → send_loop k fuel polls fd t bs w ≡ some (ok, w')
      → (outgoing fd w' ≡ outgoing fd w ++ bs) × (incoming fd w' ≡ incoming fd w)
  unfolding send_loop
  send_loop_ok fuel polls fd t [] w w' h = ground (arith, append-nil (outgoing fd w))
  send_loop_ok zero polls fd t (b ∷ bs) w w' h = cc
  send_loop_ok (suc fuel) polls fd t (b ∷ bs) w w' h =
      elim (Option-cases (poll_for k polls fd pollout t w)) [
        | inl e ↦ cc (rw (e, send_loop) at h)
        | inr ((ok, w₁), e) ↦
            let p = poll_for_keeps polls fd pollout t w w₁ ok e in
            let (o, i) =
              after_send_ok fd (b ∷ bs) _ _ w₁ w' _ refl
                (λ w₂ r. send_loop_ok fuel polls fd t (b ∷ bs) w₂ w' r)
                (λ n w₂ r. send_loop_ok fuel polls fd t (drop n (b ∷ bs)) w₂ w' r)
                (rw (e, send_loop) at h) in
            (o ∙ ap (λ x. x ++ (b ∷ bs)) p.1, i ∙ p.0)
        | inr ((timeout, w₁), e) ↦ cc (rw (e, send_loop) at h)
        | inr ((disconnected, w₁), e) ↦ cc (rw (e, send_loop) at h)
        | inr ((error, w₁), e) ↦ cc (rw (e, send_loop) at h)
      ]

  -- `got` grows by exactly the next `need` bytes of the stream.
  abbrev Took : Fd → ℕ → List ℕ → List ℕ → k.World → k.World → Type 0
  Took fd need got out w w' =
      (bs : List ℕ) × (out ≡ got ++ bs)
      × (length bs ≡ need)
      × (incoming fd w ≡ bs ++ incoming fd w')
      × (outgoing fd w' ≡ outgoing fd w)
      × (patience w' ≤ patience w)

  after_recv_ok :
      (fd : Fd) (need : ℕ) (got out : List ℕ)
      (retry : k.World → Option (IoStatus × List ℕ × k.World))
      (more : List ℕ → k.World → Option (IoStatus × List ℕ × k.World)) (w w' : k.World)
      (ans : RecvAnswer)
      → (k.recv fd need w).0 ≡ ans
      → ((w₂ : k.World) → retry w₂ ≡ some (ok, out, w') → Took fd need got out w₂ w')
      → ((bs : List ℕ) (w₂ : k.World)
          → more bs w₂ ≡ some (ok, out, w')
          → Took fd (need - length bs) (got ++ bs) out w₂ w')
      → after_recv k got retry more ans (k.recv fd need w).1 ≡ some (ok, out, w')
      → Took fd need got out w w'
  unfolding after_recv
  after_recv_ok fd need got out retry more w w' (recv_failed e) a hr hm h =
      elim (Bool-cases (is_retry e)) [
        | inl again ↦
            let (bs, o, l, i, u, q) = hr (k.recv fd need w).1 (rw (again, after_recv) at h) in
            (
              bs,
              o,
              l,
              sym (laws.recv_error fd need w e a) ∙ i,
              u ∙ laws.recv_outgoing fd need w,
              omega (arith, q, laws.recv_patience fd need w),
            )
        | inr stop ↦ cc (rw (stop, after_recv) at h)
      ]
  after_recv_ok fd need got out retry more w w' (received []) a hr hm h = cc
  after_recv_ok fd need got out retry more w w' (received (b ∷ bs)) a hr hm h =
      let (rest, o, l, i, u, q) = hm (b ∷ bs) (k.recv fd need w).1 h in
      let (le, j) = laws.recv_received fd need w (b ∷ bs) a in
      (
        (b ∷ bs) ++ rest,
        o ∙ append_assoc got (b ∷ bs) rest,
        length-append (b ∷ bs) rest ∙ omega (arith, le, l),
        j ∙ ap (◌++◌ (b ∷ bs)) i ∙ sym (append_assoc (b ∷ bs) rest (incoming fd w')),
        u ∙ laws.recv_outgoing fd need w,
        omega (arith, q, laws.recv_patience fd need w),
      )

  recv_loop_ok :
      (fuel polls : ℕ) (fd : Fd) (t need : ℕ) (got out : List ℕ) (w w' : k.World)
      → recv_loop k fuel polls fd t need got w ≡ some (ok, out, w')
      → Took fd need got out w w'
  unfolding recv_loop
  recv_loop_ok fuel polls fd t zero got out w w' h =
      ([], ground (arith, append-nil got), refl, ground arith, ground arith, ground arith)
  recv_loop_ok zero polls fd t (suc need) got out w w' h = cc
  recv_loop_ok (suc fuel) polls fd t (suc need) got out w w' h =
      elim (Option-cases (poll_for k polls fd pollin t w)) [
        | inl e ↦ cc (rw (e, recv_loop) at h)
        | inr ((ok, w₁), e) ↦
            let p = poll_for_keeps polls fd pollin t w w₁ ok e in
            let (bs, o, l, i, u, q) =
              after_recv_ok fd (suc need) got out _ _ w₁ w' _ refl
                (λ w₂ r. recv_loop_ok fuel polls fd t (suc need) got out w₂ w' r)
                (λ bs w₂ r.
                  recv_loop_ok fuel polls fd t (suc need - length bs) (got ++ bs) out w₂ w' r)
                (rw (e, recv_loop) at h) in
            (bs, o, l, sym p.0 ∙ i, u ∙ p.1, omega (arith, q, p.2))
        | inr ((timeout, w₁), e) ↦ cc (rw (e, recv_loop) at h)
        | inr ((disconnected, w₁), e) ↦ cc (rw (e, recv_loop) at h)
        | inr ((error, w₁), e) ↦ cc (rw (e, recv_loop) at h)
      ]

  -- When SendAll returns kOk, the kernel has taken exactly the bytes of the buffer, once and in
  -- order, behind what it had before, and nothing of what comes in was consumed.
  pub send_all_exact :
      (fuel : ℕ) (fd : Fd) (bs : List ℕ) (t : ℕ) (w w' : k.World)
      → send_all k fuel fd bs t w ≡ some (ok, w')
      → (outgoing fd w' ≡ outgoing fd w ++ bs) × (incoming fd w' ≡ incoming fd w)
  unfolding send_all
  send_all_exact fuel fd bs t w w' h = send_loop_ok fuel fuel fd t bs w w' h

  -- When RecvAll returns kOk, the buffer of `size` bytes holds exactly the next `size` bytes of the
  -- stream, and the stream goes on behind them; what
  -- was sent is not touched, and no interruption comes back.
  pub recv_all_exact :
      (fuel : ℕ) (fd : Fd) (size t : ℕ) (out : List ℕ) (w w' : k.World)
      → recv_all k fuel fd size t w ≡ some (ok, out, w')
      → (length out ≡ size)
        × (incoming fd w ≡ out ++ incoming fd w')
        × (outgoing fd w' ≡ outgoing fd w)
        × (patience w' ≤ patience w)
  unfolding recv_all
  recv_all_exact fuel fd size t out w w' h =
      let (bs, o, l, i, u, q) = recv_loop_ok fuel fuel fd t size [] out w w' h in
      (ap length o ∙ l, i ∙ ap (λ x. x ++ incoming fd w') (sym o), u, q)
