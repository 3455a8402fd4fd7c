-- ===== src/Endpoint/Readiness.antt =====
-- CC.EN and CSTS.RDY through the loop of `SoftwareEndpointModel::Run`.
use qemu_pcie_vip.Base.{
  ℕ, zero, suc, ◌+◌, ◌≡◌, inl, inr, refl, sym, subst, Bool, ◌||◌, ltb, Option, none, some,
  Bool-cases,
}
use qemu_pcie_vip.Protocol.Types.{
  Message, mmio_read_req, mmio_write_req, reset_req, shutdown, has_type,
}
use qemu_pcie_vip.Endpoint.Defs.{
  Link, Endpoint, advance, write_register, succeeded, dma_read_request, dma_write_request,
}
use qemu_pcie_vip.Endpoint.Registers.{IsReady, write_register-IsReady}
use qemu_pcie_vip.Endpoint.Handlers.{
  handle_reset, write_completion, run_dma_sequence, handle_mmio_write, handle_mmio_read, handle,
  after_poll, run,
}

module _ (l : Link) where
  write_completion-regs : (e : Endpoint l) → (write_completion l e).regs ≡ e.regs
  unfolding write_completion
  write_completion-regs e =
      let write = dma_write_request e.regs.acq (advance e.sim_time_ns 45) in
      elim (Bool-cases (succeeded (l.send_request_to_host write e.server).0)) [
        | inl good ↦ rw (good, write_completion) refl
        | inr bad ↦ rw (bad, write_completion) refl
      ]

  run_dma_sequence-regs : (e : Endpoint l) → (run_dma_sequence l e).regs ≡ e.regs
  unfolding run_dma_sequence
  run_dma_sequence-regs e =
      let read = dma_read_request e.regs.asq (advance e.sim_time_ns 60) in
      elim (Bool-cases (succeeded (l.send_request_to_host read e.server).0)) [
        | inl good ↦ rw (good, run_dma_sequence) (write_completion-regs _)
        | inr bad ↦ rw (bad, run_dma_sequence) refl
      ]

  handle_mmio_write-IsReady :
      (msg : Message) (e : Endpoint l) → IsReady e.regs → IsReady (handle_mmio_write l msg e).regs
  unfolding handle_mmio_write
  handle_mmio_write-IsReady msg e h =
      let kept = write_register-IsReady msg.header.address msg.payload e.regs h in
      elim (Bool-cases
        (e.doorbell_rung || (write_register msg.header.address msg.payload e.regs).2)) [
          | inl rang ↦
              rw (rang, handle_mmio_write) (subst IsReady (sym (run_dma_sequence-regs _)) kept)
          | inr silent ↦ rw (silent, handle_mmio_write) kept
        ]

  pub handle-IsReady :
      (msg : Message) (e : Endpoint l) → IsReady e.regs → IsReady (handle l msg e).regs
  unfolding handle handle_reset handle_mmio_read
  handle-IsReady msg e h = elim (Bool-cases (has_type msg.header reset_req)) [
    | inl r ↦ rw (r, handle) refl
    | inr nr ↦ elim (Bool-cases (has_type msg.header mmio_write_req)) [
      | inl w ↦ rw (nr, w, handle) (handle_mmio_write-IsReady msg e h)
      | inr nw ↦ elim (Bool-cases (has_type msg.header mmio_read_req)) [
        | inl y ↦ rw (nr, nw, y, handle) h
        | inr n ↦ rw (nr, nw, n, handle) h
      ]
    ]
  ]

  after_poll-IsReady :
      (next : ℕ → Endpoint l → Endpoint l) (idle : ℕ) (msg : Option Message) (e : Endpoint l)
      → ((i : ℕ) (x : Endpoint l) → IsReady x.regs → IsReady (next i x).regs)
      → IsReady e.regs
      → IsReady (after_poll l next idle msg e).regs
  unfolding after_poll
  after_poll-IsReady next idle none e keep h = keep (idle + 1) e h
  after_poll-IsReady next idle (some msg) e keep h =
      elim (Bool-cases (has_type msg.header shutdown)) [
        | inl halt ↦ rw (halt, after_poll) h
        | inr go ↦
            rw (go, after_poll)
              (keep 0 (handle l msg (record e { sim_time_ns = advance e.sim_time_ns 15 }))
                (handle-IsReady msg (record e { sim_time_ns = advance e.sim_time_ns 15 }) h))
      ]

  -- Whatever messages arrive and whatever the host answers, after any number of rounds CSTS is 1
  -- exactly when the enable bit of CC is set and 0 otherwise.
  pub run-IsReady :
      (rounds idle : ℕ) (persistent : Bool) (e : Endpoint l)
      → IsReady e.regs
      → IsReady (run l rounds persistent idle e).regs
  unfolding run
  run-IsReady zero idle persistent e h = h
  run-IsReady (suc rounds) idle persistent e h = elim (Bool-cases (persistent || ltb idle 200)) [
    | inr over ↦ rw (over, run) h
    | inl on ↦
        rw (on, run)
          (after_poll-IsReady (λ i x. run l rounds persistent i x) idle (l.poll_inbound e.server).0
            (record e { server = (l.poll_inbound e.server).1 })
            (λ i x g. run-IsReady rounds i persistent x g) h)
  ]
