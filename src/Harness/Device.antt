-- ===== src/Harness/Device.antt =====
-- The main loop of rtl/alex/verilator_qemu_main.cpp: the registers that it keeps, the messages of the
-- host, the descriptor ring and the mock DMA sequence, over a Link. `none` is what is undefined in the
-- source.
use qemu_pcie_vip.Base.{
  ℕ, zero, suc, ◌*◌, ◌%◌, ◌^◌, [], Bool, true, false, not, ◌&&◌, ◌==◌, Option, none, some, length,
  bit_and, bit_or, if◌then◌else◌,
}
use qemu_pcie_vip.Protocol.Types.{
  Message, mmio_read_req, mmio_read_rsp, mmio_write_req, mmio_write_rsp, reset_req, reset_rsp,
  dma_read_req, dma_write_req, shutdown, success, error_generic, code, status_code, has_type,
  flag_is_response,
}
use qemu_pcie_vip.Protocol.Codec.{make_header}
use qemu_pcie_vip.Endpoint.Defs.{Link, completion, msi_x_request}
use qemu_pcie_vip.Harness.Ports.{Inputs, Dut, Harness, clock_tick, mmio, reset, init_dma_ports}
use qemu_pcie_vip.Harness.Words.{decode_le, encode_le}
use qemu_pcie_vip.Harness.Dma.{memory_request}
use qemu_pcie_vip.Harness.Ring.{Ring, run_generic_dma}

-- The registers that the loop keeps beside the model.
pub record DmaRegisters : Type 0 where
  pub asq : ℕ
  pub acq : ℕ
  pub desc_base : ℕ
  pub cpl_base : ℕ
  pub desc_count : ℕ
  pub desc_head : ℕ
  pub dma_control : ℕ
  pub dma_status : ℕ

abbrev pub power_on : DmaRegisters
power_on = record {
  asq = 0;
  acq = 0;
  desc_base = 0;
  cpl_base = 0;
  desc_count = 0;
  desc_head = 0;
  dma_control = 0;
  dma_status = 0;
}

abbrev pub low_half : ℕ → ℕ → ℕ
low_half base v = bit_or (bit_and base 0xffffffff00000000) v

abbrev pub high_half : ℕ → ℕ → ℕ
high_half base v = bit_or (bit_and base 0xffffffff) (v * 2 ^ 32 % 2 ^ 64)

-- The tests of a write on its address, which differ.
unfoldable pub latch : ℕ → ℕ → DmaRegisters → DmaRegisters
latch address v r =
    if address == 0x28
    then record r { asq = v }
    else if address == 0x30
    then record r { acq = v }
    else if address == 0x1040
    then record r { desc_base = low_half r.desc_base v }
    else if address == 0x1044
    then record r { desc_base = high_half r.desc_base v }
    else if address == 0x1048
    then record r { cpl_base = low_half r.cpl_base v }
    else if address == 0x104c
    then record r { cpl_base = high_half r.cpl_base v }
    else if address == 0x1050
    then record r { desc_count = v % 2 ^ 32 }
    else if address == 0x105c
    then record r {
      dma_control = v % 2 ^ 32;
      dma_status = (if bit_and (v % 2 ^ 32) 2 == 0 then r.dma_status else 0);
    }
    else r

abbrev pub access_length : Message → ℕ
access_length msg =
    if msg.header.transfer_len == 0 then length msg.payload % 2 ^ 32 else msg.header.transfer_len

-- The result and status of an access, 5 where the model does not answer.
abbrev pub access_result : Option (ℕ × ℕ) → ℕ × ℕ
access_result none = (0, 5)
access_result (some r) = r

abbrev pub status_of : ℕ → ℕ
status_of status = if status == 0 then status_code success else status_code error_generic

pub record Device (d : Dut) (l : Link) : Type 0 where
  pub harness : Harness d
  pub server : l.State
  pub regs : DmaRegisters

module _ (d : Dut) (l : Link) where
  -- The `Harness` of the loop as it starts, over a model with the ports `p`.
  unfoldable pub new_harness : Inputs → d.State → Harness d
  unfolding init_dma_ports reset
  new_harness p top = reset d (
      init_dma_ports d (record {
        ports = record p { mmio_req_valid = false; rst = true };
        top = top;
        sim_time = 0;
        doorbell_seen = false;
      }))

  unfoldable pub handle_reset_req : Message → Device d l → Device d l
  unfolding reset
  handle_reset_req msg e =
      let h = reset d e.harness in
      let rsp =
        make_header (code reset_rsp) msg.header.txn_id 0 0 (status_code success) h.sim_time 0
          flag_is_response 0 in
      record e { harness = h; server = (l.send_response rsp [] e.server).1 }

  -- The answer to a read: of the model, or DMA_STATUS.
  unfoldable pub read_access : Message → Device d l → Option (ℕ × ℕ) × Harness d
  unfolding mmio
  read_access msg e = elim (msg.header.address == 0x1058) [
    | true ↦ (some (e.regs.dma_status, 0), e.harness)
    | false ↦ mmio d false msg.header.address (access_length msg) (decode_le msg.payload) e.harness
  ]

  unfoldable pub handle_read : Message → Device d l → Option (Device d l)
  unfolding read_access encode_le
  handle_read msg e =
      let (answer, h) = read_access msg e in
      let (result, status) = access_result answer in
      elim (if status == 0 then encode_le result (access_length msg) else some []) [
        | none ↦ none
        | some payload ↦
            let len = length payload % 2 ^ 32 in
            let rsp =
              make_header (code mmio_read_rsp) msg.header.txn_id msg.header.address 0
                (status_of status) h.sim_time len flag_is_response len in
            some (record e { harness = h; server = (l.send_response rsp payload e.server).1 })
      ]

  -- A write up to its response.
  unfoldable pub accept_write : Message → Device d l → Device d l
  unfolding mmio latch
  accept_write msg e =
      let v = decode_le msg.payload in
      let (answer, h) = mmio d true msg.header.address (access_length msg) v e.harness in
      let rsp =
        make_header (code mmio_write_rsp) msg.header.txn_id msg.header.address 0
          (status_of (access_result answer).1) h.sim_time 0 flag_is_response 0 in
      record {
        harness = h;
        server = (l.send_response rsp [] e.server).1;
        regs = latch msg.header.address v e.regs;
      }

  abbrev pub starts_ring : Message → Device d l → Bool
  starts_ring msg e =
      msg.header.address == 0x1054
      && not (bit_and e.regs.dma_control 1 == 0)
      && not (e.regs.desc_count == 0)

  unfoldable pub run_ring : Message → Device d l → Option (Device d l)
  unfolding run_generic_dma
  run_ring msg e =
      let ring : Ring = record {
        desc_base = e.regs.desc_base;
        cpl_base = e.regs.cpl_base;
        count = e.regs.desc_count;
        sim_time = e.harness.sim_time;
      } in
      elim (run_generic_dma d l ring (decode_le msg.payload % 2 ^ 32) e.regs.desc_head e.harness
        e.server) [
          | none ↦ none
          | some (good, head, h, s) ↦ some (record {
            harness = h;
            server = s;
            regs = record e.regs { desc_head = head; dma_status = (if good then 0 else 1) };
          })
        ]

  -- The mock sequence behind the doorbell; a response of any status lets it go on.
  unfoldable pub run_doorbell : Device d l → Device d l
  run_doorbell e =
      let h = record e.harness { doorbell_seen = false } in
      let now = h.sim_time in
      let (read, s₁) =
        l.send_request_to_host (memory_request (code dma_read_req) e.regs.asq [] 64 now) e.server in
      elim read [
        | none ↦ record e { harness = h; server = s₁ }
        | some _ ↦
            let s₂ =
              (l.send_request_to_host
                (memory_request (code dma_write_req) e.regs.acq completion 16 now) s₁).1 in
            record e { harness = h; server = (l.send_request_to_host (msi_x_request now) s₂).1 }
      ]

  abbrev pub rings_doorbell : Message → Device d l → Bool
  rings_doorbell msg e = msg.header.address == 0x1000 && e.harness.doorbell_seen

  -- What follows the response to a write; the two addresses differ.
  unfoldable pub after_write : Message → Device d l → Option (Device d l)
  unfolding run_ring run_doorbell
  after_write msg e = elim (starts_ring msg e) [
    | true ↦ run_ring msg e
    | false ↦ some (elim (rings_doorbell msg e) [ true ↦ run_doorbell e | false ↦ e ])
  ]

  unfoldable pub handle_inbound : Message → Device d l → Option (Device d l)
  unfolding handle_reset_req handle_read accept_write after_write
  handle_inbound msg e = elim (has_type msg.header reset_req) [
    | true ↦ some (handle_reset_req msg e)
    | false ↦ elim (has_type msg.header mmio_read_req) [
      | true ↦ handle_read msg e
      | false ↦ elim (has_type msg.header mmio_write_req) [
        | true ↦ after_write msg (accept_write msg e)
        | false ↦ some e
      ]
    ]
  ]

  -- The loop for `rounds` rounds, and whether it has stopped.
  unfoldable pub main_loop : ℕ → Device d l → Option (Bool × Device d l)
  unfolding clock_tick handle_inbound
  main_loop zero e = some (false, e)
  main_loop (suc rounds) e = elim (d.got_finish e.harness.top) [
    | true ↦ some (true, e)
    | false ↦
        let (inbound, s) = l.poll_inbound e.server in
        let e₁ : Device d l = record e { server = s } in
        elim inbound [
          | none ↦ main_loop rounds (record e₁ { harness = clock_tick d e.harness })
          | some msg ↦ elim (has_type msg.header shutdown) [
            | true ↦ some (true, e₁)
            | false ↦ elim (handle_inbound msg e₁) [ none ↦ none | some e₂ ↦ main_loop rounds e₂ ]
          ]
        ]
  ]
