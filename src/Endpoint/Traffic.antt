-- ===== src/Endpoint/Traffic.antt =====
-- What the endpoint sends once the doorbell rings: the DMA sequence, in its order.
use qemu_pcie_vip.Base.{
  ℕ, ◌≡◌, ◌⊎◌, inl, inr, refl, ap, ◌∙◌, List, [], ◌∷◌, ◌++◌, append_assoc, true, false, Bool-cases,
}
use qemu_pcie_vip.Protocol.Types.{Header}
use qemu_pcie_vip.Server.Requests.{Request}
use qemu_pcie_vip.Endpoint.Defs.{
  Link, Endpoint, advance, succeeded, dma_read_request, dma_write_request, msi_x_request,
}
use qemu_pcie_vip.Endpoint.Handlers.{write_completion, run_dma_sequence}

-- What goes out over a link.
pub data Sent : Type 0 where
  response : Header → List ℕ → Sent
  request : Request → Sent

-- A link that records what it is asked to send, in order.
pub record Recording (l : Link) : Type 0 where
  pub log : l.State → List Sent
  pub log_response :
      (h : Header) (payload : List ℕ) (s : l.State)
      → log (l.send_response h payload s).1 ≡ log s ++ (response h payload ∷ [])
  pub log_request :
      (q : Request) (s : l.State) → log (l.send_request_to_host q s).1 ≡ log s ++ (request q ∷ [])
  pub log_poll : (s : l.State) → log (l.poll_inbound s).1 ≡ log s

-- Two stretches of a log, one behind the other.
behind : (a b c xs ys : List Sent) → b ≡ a ++ xs → c ≡ b ++ ys → c ≡ a ++ (xs ++ ys)
behind a b c xs ys p q = q ∙ ap (λ x. x ++ ys) p ∙ append_assoc a xs ys

module _ (l : Link) (rec : Recording l) where
  abbrev pub sent : Endpoint l → List Sent
  sent e = rec.log e.server

  write_completion_order :
      (e : Endpoint l)
      → let t = advance e.sim_time_ns 45 in
        let write = dma_write_request e.regs.acq t in
        let ack = (l.send_request_to_host write e.server).0 in
        let e' = write_completion l e in
        (e'.regs ≡ e.regs)
        × (((succeeded ack ≡ false) × (sent e' ≡ sent e ++ (request write ∷ [])))
            ⊎ (succeeded ack ≡ true)
              × (sent e' ≡ sent e ++ (request write ∷ request (msi_x_request (advance t 30)) ∷ [])))
  unfolding write_completion
  write_completion_order e =
      let write = dma_write_request e.regs.acq (advance e.sim_time_ns 45) in
      let s₁ = (l.send_request_to_host write e.server).1 in
      let first = rec.log_request write e.server in
      let second = rec.log_request (msi_x_request (advance (advance e.sim_time_ns 45) 30)) s₁ in
      elim (Bool-cases (succeeded (l.send_request_to_host write e.server).0)) [
        | inr bad ↦ (rw (bad, write_completion) refl, inl (bad, rw (bad, write_completion) first))
        | inl good ↦ (
          rw (good, write_completion) refl,
          inr (
            good,
            rw (good, write_completion)
                (behind (sent e) _ _ (request write ∷ [])
                  (request (msi_x_request (advance (advance e.sim_time_ns 45) 30)) ∷ []) first
                  second),
          ),
        )
      ]

  -- The DMA sequence sends a read of 64 bytes at ASQ; if that succeeds, a write of the completion at
  -- ACQ; if that succeeds too, MSI-X vector 0; and nothing else. It stops at the first failure, so an
  -- interrupt is sent only behind a completion that was written.
  pub run_dma_sequence_order :
      (e : Endpoint l)
      → let t₁ = advance e.sim_time_ns 60 in
        let t₂ = advance t₁ 45 in
        let read = dma_read_request e.regs.asq t₁ in
        let write = dma_write_request e.regs.acq t₂ in
        let (data_in, s₁) = l.send_request_to_host read e.server in
        let (ack, s₂) = l.send_request_to_host write s₁ in
        let e' = run_dma_sequence l e in
        (e'.regs ≡ e.regs)
        × (((succeeded data_in ≡ false) × (sent e' ≡ sent e ++ (request read ∷ [])))
            ⊎ (succeeded data_in ≡ true)
              × (((succeeded ack ≡ false)
                    × (sent e' ≡ sent e ++ (request read ∷ request write ∷ [])))
                  ⊎ (succeeded ack ≡ true)
                    × (sent e'
                        ≡ sent e
                          ++ (request read
                              ∷ request write
                              ∷ request (msi_x_request (advance t₂ 30))
                              ∷ []))))
  unfolding run_dma_sequence
  run_dma_sequence_order e =
      let t₁ = advance e.sim_time_ns 60 in
      let read = dma_read_request e.regs.asq t₁ in
      let write = dma_write_request e.regs.acq (advance t₁ 45) in
      let first = rec.log_request read e.server in
      let s₁ = (l.send_request_to_host read e.server).1 in
      let e₁ : Endpoint l = record e { sim_time_ns = t₁; server = s₁ } in
      elim (Bool-cases (succeeded (l.send_request_to_host read e.server).0)) [
        | inr bad ↦ (rw (bad, run_dma_sequence) refl, inl (bad, rw (bad, run_dma_sequence) first))
        | inl good ↦
            let (kept, rest) = write_completion_order e₁ in
            (
              rw (good, run_dma_sequence) kept,
              inr (
                good,
                elim rest [
                  | inl (bad, log) ↦ inl (
                    bad,
                    rw (good, run_dma_sequence)
                        (behind (sent e) _ _ (request read ∷ []) (request write ∷ []) first log),
                  )
                  | inr (ok, log) ↦ inr (
                    ok,
                    rw (good, run_dma_sequence)
                        (behind (sent e) _ _ (request read ∷ [])
                          (request write
                            ∷ request (msi_x_request (advance (advance t₁ 45) 30))
                            ∷ [])
                          first log),
                  )
                ],
              ),
            )
      ]
