-- ===== src/Tests/Endpoints.antt =====
-- The endpoint over a link that logs what is sent, answers each request with success, and delivers
-- messages from a list.
use qemu_pcie_vip.Base.{
  ℕ, ◌≡◌, ◌⊎◌, ◌↔◌, inl, refl, arith, List, [], ◌∷◌, ◌++◌, true, false, Option, none, some,
}
use qemu_pcie_vip.Protocol.Types.{
  Header, Message, success, mmio_read_req, mmio_write_req, mmio_write_rsp, dma_read_rsp, code,
}
use qemu_pcie_vip.Protocol.Codec.{make_header}
use qemu_pcie_vip.Endpoint.Defs.{
  Link, Registers, zeroed, Endpoint, write_register, read_result, read_length, value_bytes,
  addr_valid, dma_read_request, dma_write_request, msi_x_request, cc_reg, sq0_doorbell,
}
use qemu_pcie_vip.Endpoint.Registers.{IsReady, write-read_u32, write_register_refused}
use qemu_pcie_vip.Endpoint.Handlers.{
  respond, raise_msi_x, write_completion, run_dma_sequence, handle_mmio_write, handle, run,
}
use qemu_pcie_vip.Endpoint.Traffic.{
  Sent, response, request, Recording, sent, run_dma_sequence_order,
}
use qemu_pcie_vip.Endpoint.Answers.{Answered, expected, handle_answers}
use qemu_pcie_vip.Endpoint.Readiness.{run-IsReady}

pub record Board : Type 0 where
  pub arriving : List Message
  pub log : List Sent

abbrev next_message : List Message → Board → Option Message × Board
next_message [] b = (none, b)
next_message (m ∷ ms) b = (some m, record b { arriving = ms })

abbrev good_answer : Message
unfolding make_header
good_answer = record { header = make_header (code dma_read_rsp) 1 0 0 0 9 0 1 0; payload = [] }

abbrev board : Link
board = record {
  State = Board;
  send_response = λ h payload b. (true, record b { log = b.log ++ (response h payload ∷ []) });
  send_request_to_host = λ q b. (some good_answer, record b { log = b.log ++ (request q ∷ []) });
  poll_inbound = λ b. next_message b.arriving b;
}

next_message-log : (ms : List Message) (b : Board) → (next_message ms b).1.log ≡ b.log
next_message-log [] b = refl
next_message-log (m ∷ ms) b = refl

recording : Recording board
recording = record {
  log = λ b. b.log;
  log_response = λ h payload b. refl;
  log_request = λ q b. refl;
  log_poll = λ b. next_message-log b.arriving b;
}

-- Enabled, with both queues set up.
abbrev enabled : Registers
enabled = record { cc = 1; csts = 1; asq = 0x2000; acq = 0x3000; aqa = 0 }

abbrev at_rest : Endpoint board
at_rest = record {
  regs = enabled;
  sim_time_ns = 100;
  doorbell_rung = false;
  server = record { arriving = []; log = [] };
}

abbrev doorbell : Message
unfolding make_header
doorbell = record {
  header = make_header (code mmio_write_req) 7 sq0_doorbell 15 0 0 4 0 0;
  payload = 1 ∷ 0 ∷ 0 ∷ 0 ∷ [];
}

abbrev read_cc : Header
unfolding make_header
read_cc = make_header (code mmio_read_req) 8 cc_reg 15 0 0 0 0 4

-- The response to the write, then the DMA read, the completion and MSI-X.
doorbell_log :
    (handle board doorbell at_rest).server.log
    ≡ response (make_header (code mmio_write_rsp) 7 sq0_doorbell 0 0 100 0 1 0) []
      ∷ request (dma_read_request 0x2000 160)
      ∷ request (dma_write_request 0x3000 205)
      ∷ request (msi_x_request 235)
      ∷ []
unfolding handle handle_mmio_write write_register addr_valid respond run_dma_sequence
    write_completion raise_msi_x make_header
doorbell_log = refl

handle_answers_example :
    ((rsp : ℕ) × (expected doorbell ≡ some rsp)
      × Answered board recording doorbell rsp at_rest (handle board doorbell at_rest))
    ⊎ ((expected doorbell ≡ none) × (handle board doorbell at_rest ≡ at_rest))
handle_answers_example = handle_answers board recording doorbell at_rest refl

run_dma_sequence_order_example :
    ((run_dma_sequence board at_rest).regs ≡ enabled)
    × (((true ≡ false)
          × (sent board recording (run_dma_sequence board at_rest)
              ≡ request (dma_read_request 0x2000 160) ∷ []))
        ⊎ (true ≡ true)
          × (((true ≡ false)
                × (sent board recording (run_dma_sequence board at_rest)
                    ≡ request (dma_read_request 0x2000 160)
                      ∷ request (dma_write_request 0x3000 205)
                      ∷ []))
              ⊎ (true ≡ true)
                × (sent board recording (run_dma_sequence board at_rest)
                    ≡ request (dma_read_request 0x2000 160)
                      ∷ request (dma_write_request 0x3000 205)
                      ∷ request (msi_x_request 235)
                      ∷ [])))
unfolding good_answer recording make_header
run_dma_sequence_order_example = run_dma_sequence_order board recording at_rest

write-read_u32_example :
    let (status, r', rang) = write_register cc_reg (value_bytes 4 0 0x460001) zeroed in
    (status ≡ success)
    × (rang ≡ false)
    × (read_result read_cc r' ≡ (success, value_bytes 4 0 0x460001))
unfolding read_length make_header
write-read_u32_example =
    write-read_u32 cc_reg 0x460001 read_cc zeroed (omega arith) (inl refl) refl refl

run-IsReady_example :
    IsReady
      (run board 5 false 0
        (record at_rest { server = record { arriving = doorbell ∷ doorbell ∷ []; log = [] } })).regs
run-IsReady_example =
    run-IsReady board 5 0 false
      (record at_rest { server = record { arriving = doorbell ∷ doorbell ∷ []; log = [] } }) refl

write_register_refused_example :
    let (status, r', rang) = write_register 0x4000 (1 ∷ 2 ∷ 3 ∷ []) enabled in
    ((status ≡ success) ⊎ ((r' ≡ enabled) × (rang ≡ false)))
    × ((rang ≡ true) ↔ ((status ≡ success) × (0x4000 ≡ sq0_doorbell)))
write_register_refused_example = write_register_refused 0x4000 (1 ∷ 2 ∷ 3 ∷ []) enabled
