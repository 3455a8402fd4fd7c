-- ===== src/Harness/Faults/Answered.antt =====
-- `RunGenericDma` of rtl/alex/verilator_qemu_main.cpp for a host that answers in full.
use qemu_pcie_vip.Base.{
  ℕ, zero, suc, ◌+◌, ◌-◌, ◌%◌, ◌^◌, ◌≤◌, ◌≡◌, inl, inr, refl, [], Bool, true, false, ◌&&◌, ◌==◌,
  Option, none, some, Bool-cases, length,
}
use qemu_pcie_vip.Protocol.Types.{Message, dma_read_req, code}
use qemu_pcie_vip.Server.Requests.{Request}
use qemu_pcie_vip.Endpoint.Defs.{Link, succeeded}
use qemu_pcie_vip.Harness.Ports.{Dut, Harness, out, clock_tick}
use qemu_pcie_vip.Harness.Dma.{poll_read, read_rounds, dma_read, memory_request, payload_of}
use qemu_pcie_vip.Harness.Ring.{
  Ring, Descriptor, transfer, perform, report, serve_descriptor, ring_loop, ring_refused,
  run_generic_dma, is_runnable, parse_descriptor, fetch_request, desc_bytes,
}
use qemu_pcie_vip.Harness.Faults.{Returns, serve_read-Returns}

module _ (d : Dut) (l : Link) where
  -- A host that answers every read in full.
  abbrev pub AnswersReads : Type 0
  AnswersReads =
      (q : Request) (s : l.State)
      → q.type ≡ code dma_read_req
      → let rsp = (l.send_request_to_host q s).0 in
        (succeeded rsp ≡ true) × (q.transfer_len ≤ length (payload_of rsp))

  module _ (answers : AnswersReads) where
    poll_read-Returns :
        (tag now : ℕ) (h : Harness d) (s : l.State) → Returns (poll_read d l tag now h s)
    unfolding poll_read
    poll_read-Returns tag now h s = elim (Bool-cases (out d h).rd_req_valid) [
      | inr silent ↦ rw (silent, poll_read) (_, refl)
      | inl asks ↦
          let (good, room) =
            answers
              (memory_request (code dma_read_req) (out d h).rd_req_addr [] (out d h).rd_req_len now)
              s refl in
          rw (asks, poll_read) (serve_read-Returns d l tag now h s good room)
    ]

    read_rounds-Returns :
        (rounds tag now : ℕ) (h : Harness d) (s : l.State)
        → Returns (read_rounds d l rounds tag now h s)
    unfolding read_rounds
    read_rounds-Returns zero tag now h s = (_, refl)
    read_rounds-Returns (suc rounds) tag now h s =
        let ((h₁, s₁), e) = poll_read-Returns tag now (clock_tick d h) s in
        elim (Bool-cases (out d h₁).read_status_valid) [
          | inl ended ↦ rw (e, ended, read_rounds) (_, refl)
          | inr goes_on ↦ rw (e, goes_on, read_rounds) (read_rounds-Returns rounds tag now h₁ s₁)
        ]

    dma_read-Returns :
        (address ram_addr len tag now : ℕ) (h : Harness d) (s : l.State)
        → Returns (dma_read d l address ram_addr len tag now h s)
    unfolding dma_read
    dma_read-Returns address ram_addr len tag now h s = started _ _
      where
        started :
            (accepted : Bool) (h₂ : Harness d)
            → Returns (elim accepted as (λ x. Option (Bool × Harness d × l.State)) [
              | false ↦ some (false, h₂, s)
              | true ↦ read_rounds d l 2000 tag now h₂ s
            ])
        started false h₂ = (_, refl)
        started true h₂ = read_rounds-Returns 2000 tag now h₂ s

    transfer-Returns :
        (r : Ring) (t : Descriptor) (h : Harness d) (s : l.State) → Returns (transfer d l r t h s)
    unfolding transfer
    transfer-Returns r t h s = elim (Bool-cases (t.opcode == 0)) [
      | inr writes ↦ rw (writes, transfer) (_, refl)
      | inl reads ↦
          let (a, e) =
            dma_read-Returns t.host_addr (t.ram_addr % 2 ^ 16) t.length (t.tag % 2 ^ 8) r.sim_time h
              s in
          rw (reads, transfer, e) (_, refl)
    ]

    perform-Returns :
        (r : Ring) (rsp : Option Message) (h : Harness d) (s : l.State)
        → Returns (perform d l r rsp h s)
    unfolding perform transfer
    perform-Returns r none h s = (_, refl)
    perform-Returns r (some m) h s =
        elim (Bool-cases (succeeded (some m) && length m.payload == desc_bytes)) [
          | inr unreadable ↦ rw (unreadable, perform) (_, refl)
          | inl whole ↦ elim (Bool-cases (is_runnable (parse_descriptor m.payload))) [
            | inr bad ↦ rw (whole, bad, perform) (_, refl)
            | inl fine ↦
                rw (whole, fine, perform) (transfer-Returns r (parse_descriptor m.payload) h s)
          ]
        ]

    ring_loop-Returns :
        (r : Ring) (n index : ℕ) (h : Harness d) (s : l.State)
        → Returns (ring_loop d l r n index h s)
    unfolding ring_loop serve_descriptor
    ring_loop-Returns r zero index h s = (_, refl)
    ring_loop-Returns r (suc n) index h s =
        let (desc_rsp, s₁) = l.send_request_to_host (fetch_request r index) s in
        let ((o, h₁, s₂), e) = perform-Returns r desc_rsp h s₁ in
        elim (Bool-cases (report d l r index o s₂).0) [
          | inr stop ↦ rw (ring_loop, serve_descriptor, e, stop) (_, refl)
          | inl goes ↦
              rw (ring_loop, serve_descriptor, e, goes)
                (ring_loop-Returns r n (index + 1) h₁ (report d l r index o s₂).1)
        ]

    -- When the host answers every read in full, RunGenericDma comes back, without a read out of
    -- bounds, whatever the descriptors say and whatever the model does.
    pub run_generic_dma-Returns :
        (r : Ring) (tail head : ℕ) (h : Harness d) (s : l.State)
        → Returns (run_generic_dma d l r tail head h s)
    unfolding run_generic_dma
    run_generic_dma-Returns r tail head h s = elim (Bool-cases (ring_refused r tail head)) [
      | inl refused ↦ rw (refused, run_generic_dma) (_, refl)
      | inr fits ↦
          let (a, e) = ring_loop-Returns r (tail - head) head h s in
          rw (fits, e, run_generic_dma) (_, refl)
    ]
