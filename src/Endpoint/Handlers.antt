-- ===== src/Endpoint/Handlers.antt =====
-- The handlers and the loop of `SoftwareEndpointModel`.
use qemu_pcie_vip.Base.{
  ℕ, zero, suc, ◌+◌, List, [], Bool, true, false, ◌||◌, ltb, Option, none, some, length,
  if◌then◌else◌,
}
use qemu_pcie_vip.Protocol.Types.{
  Header, Message, mmio_read_req, mmio_read_rsp, mmio_write_req, mmio_write_rsp, reset_req,
  reset_rsp, shutdown, success, code, status_code, has_type, flag_is_response,
}
use qemu_pcie_vip.Protocol.Codec.{make_header}
use qemu_pcie_vip.Endpoint.Defs.{
  Link, zeroed, Endpoint, advance, write_register, read_result, succeeded, dma_read_request,
  dma_write_request, msi_x_request,
}

module _ (l : Link) where
  -- One response out, whose result the handlers ignore.
  unfoldable pub respond : Header → List ℕ → Endpoint l → Endpoint l
  respond h payload e = record e { server = (l.send_response h payload e.server).1 }

  unfoldable pub handle_reset : Message → Endpoint l → Endpoint l
  unfolding respond
  handle_reset msg e =
      respond
        (make_header (code reset_rsp) msg.header.txn_id 0 0 (status_code success) e.sim_time_ns 0
          flag_is_response 0)
        [] (record e { regs = zeroed })

  -- The last part of RunDmaSequence, after the completion was written.
  unfoldable pub raise_msi_x : Endpoint l → Endpoint l
  raise_msi_x e =
      let now = advance e.sim_time_ns 30 in
      record e {
        sim_time_ns = now;
        server = (l.send_request_to_host (msi_x_request now) e.server).1;
      }

  unfoldable pub write_completion : Endpoint l → Endpoint l
  unfolding raise_msi_x
  write_completion e =
      let now = advance e.sim_time_ns 45 in
      let (rsp, server) = l.send_request_to_host (dma_write_request e.regs.acq now) e.server in
      let e₁ = record e { sim_time_ns = now; server = server } in
      if succeeded rsp then raise_msi_x e₁ else e₁

  unfoldable pub run_dma_sequence : Endpoint l → Endpoint l
  unfolding write_completion
  run_dma_sequence e =
      let now = advance e.sim_time_ns 60 in
      let (rsp, server) = l.send_request_to_host (dma_read_request e.regs.asq now) e.server in
      let e₁ = record e { sim_time_ns = now; server = server } in
      if succeeded rsp then write_completion e₁ else e₁

  unfoldable pub handle_mmio_write : Message → Endpoint l → Endpoint l
  unfolding respond run_dma_sequence
  handle_mmio_write msg e =
      let (status, regs, rang) = write_register msg.header.address msg.payload e.regs in
      let e₁ =
        respond
          (make_header (code mmio_write_rsp) msg.header.txn_id msg.header.address 0
            (status_code status) e.sim_time_ns 0 flag_is_response 0)
          [] (record e { regs = regs; doorbell_rung = e.doorbell_rung || rang }) in
      if e₁.doorbell_rung then run_dma_sequence (record e₁ { doorbell_rung = false }) else e₁

  unfoldable pub handle_mmio_read : Message → Endpoint l → Endpoint l
  unfolding respond
  handle_mmio_read msg e =
      let (status, payload) = read_result msg.header e.regs in
      respond
        (make_header (code mmio_read_rsp) msg.header.txn_id msg.header.address 0
          (status_code status) e.sim_time_ns (length payload) flag_is_response 0)
        payload e

  unfoldable pub handle : Message → Endpoint l → Endpoint l
  unfolding handle_reset handle_mmio_write handle_mmio_read
  handle msg e =
      if has_type msg.header reset_req
      then handle_reset msg e
      else if has_type msg.header mmio_write_req
      then handle_mmio_write msg e
      else if has_type msg.header mmio_read_req
      then handle_mmio_read msg e
      else e

  -- A round of `Run` after the poll; `next` is the rest of the loop with its count of empty polls.
  unfoldable pub after_poll :
      (ℕ → Endpoint l → Endpoint l) → ℕ → Option Message → Endpoint l → Endpoint l
  unfolding handle
  after_poll next idle_polls none e = next (idle_polls + 1) e
  after_poll next idle_polls (some msg) e =
      let e₁ = record e { sim_time_ns = advance e.sim_time_ns 15 } in
      elim (has_type msg.header shutdown) [ true ↦ e₁ | false ↦ next 0 (handle msg e₁) ]

  -- `Run` for `rounds` rounds: the loop goes on while it is persistent or fewer than 200 polls in
  -- sequence came back empty, and stops at SHUTDOWN.
  unfoldable pub run : ℕ → Bool → ℕ → Endpoint l → Endpoint l
  unfolding after_poll
  run zero persistent idle_polls e = e
  run (suc rounds) persistent idle_polls e = elim (persistent || ltb idle_polls 200) [
    | false ↦ e
    | true ↦
        let (msg, server) = l.poll_inbound e.server in
        after_poll (λ idle e₁. run rounds persistent idle e₁) idle_polls msg
          (record e { server = server })
  ]
