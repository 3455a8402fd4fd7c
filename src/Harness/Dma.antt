-- ===== src/Harness/Dma.antt =====
-- `SendCompletion`, `DmaRead` and `DmaWrite` of rtl/alex/verilator_qemu_main.cpp, over the calls that
-- they make of the server, a Link. `none` is a read out of bounds, which is undefined in the source.
pub mod Traffic
pub mod Confirmed
use qemu_pcie_vip.Base.{
  ℕ, zero, suc, ◌+◌, ◌-◌, ◌*◌, ◌/◌, ◌%◌, ◌^◌, List, [], Bool, true, false, ◌==◌, ltb, Option, none,
  some, min, get_or, bit_and, bit_or, ◌∷◌, if◌then◌else◌,
}
use qemu_pcie_vip.Protocol.Types.{Message, dma_read_req, dma_write_req, code}
use qemu_pcie_vip.Server.Requests.{Request}
use qemu_pcie_vip.Endpoint.Defs.{Link, succeeded}
use qemu_pcie_vip.Harness.Ports.{
  DescPorts, CplPorts, Outputs, Dut, Harness, out, clock_tick, tick_accept,
}
use qemu_pcie_vip.Harness.Words.{pack, unpack}

-- `hdr_hi` and `hdr_lo` of a completion.
unfoldable pub header_high : ℕ → ℕ → Bool → ℕ
header_high byte_count length error =
    let hdr =
      bit_or (bit_or (0x4a * 2 ^ 56) (length / 4 * 2 ^ 32 % 2 ^ 64)) (bit_and byte_count 0xfff) in
    if error then bit_or hdr (1 * 2 ^ 13) else hdr

unfoldable pub header_low : ℕ → ℕ → ℕ
header_low tag lower_addr = bit_or (tag * 2 ^ 40) (bit_and lower_addr 0x7f * 2 ^ 32)

abbrev pub cpl_beat : ℕ → ℕ → ℕ → ℕ → Bool → List ℕ → CplPorts
cpl_beat tag byte_count lower_addr length error words = record {
  valid = true;
  sop = true;
  eop = true;
  error = 0;
  hdr_lo = header_low tag lower_addr;
  hdr_hi = header_high byte_count length error;
  data0 = get_or words 0 0;
  data1 = get_or words 1 0;
  data2 = get_or words 2 0;
  data3 = get_or words 3 0;
}

abbrev pub memory_request : ℕ → ℕ → List ℕ → ℕ → ℕ → Request
memory_request type address payload transfer_len now = record {
  type = type;
  address = address;
  byte_enable = 0;
  payload = payload;
  transfer_len = transfer_len;
  sim_timestamp = now;
  expect_response = true;
}

-- The payload of a response, empty where there is none.
abbrev pub payload_of : Option Message → List ℕ
payload_of none = []
payload_of (some m) = m.payload

module _ (d : Dut) where
  abbrev pub set_cpl : CplPorts → Harness d → Harness d
  set_cpl c h = record h { ports = record h.ports { rx_cpl = c } }

  abbrev pub end_cpl : Harness d → Harness d
  end_cpl h = set_cpl (record h.ports.rx_cpl { valid = false; sop = false; eop = false }) h

  -- The port `dma_rx_cpl_error` keeps what it has.
  unfoldable pub send_completion :
      ℕ → ℕ → ℕ → List ℕ → ℕ → ℕ → Bool → Harness d → Option (Harness d)
  unfolding clock_tick
  send_completion tag byte_count lower_addr bytes offset length error h =
      elim (pack bytes offset length) [
        | none ↦ none
        | some words ↦
            let beat = record (cpl_beat tag byte_count lower_addr length error words) {
              error = h.ports.rx_cpl.error;
            } in
            some (end_cpl (clock_tick d (set_cpl beat h)))
      ]

  -- The loop over the chunks of a response: every chunk has a byte at least, so `req_len` rounds are
  -- enough. The request address is read off the ports in every round.
  unfoldable pub send_chunks : ℕ → ℕ → ℕ → List ℕ → ℕ → Harness d → Option (Harness d)
  unfolding send_completion
  send_chunks zero tag req_len payload sent h = some h
  send_chunks (suc rounds) tag req_len payload sent h = elim (ltb sent req_len) [
    | false ↦ some h
    | true ↦
        let chunk = min 32 (req_len - sent) in
        let lower_addr = bit_and ((out d h).rd_req_addr + sent) 0x7f in
        elim (send_completion tag (req_len - sent) lower_addr payload sent chunk false h) [
          | none ↦ none
          | some h₁ ↦ send_chunks rounds tag req_len payload (sent + chunk) h₁
        ]
  ]

  module _ (l : Link) where
    -- A request of the model for host memory, answered with completions.
    unfoldable pub serve_read : ℕ → ℕ → Harness d → l.State → Option (Harness d × l.State)
    unfolding send_chunks send_completion
    serve_read tag sim_time h s =
        let req_len = (out d h).rd_req_len in
        let (rsp, s₁) =
          l.send_request_to_host
            (memory_request (code dma_read_req) (out d h).rd_req_addr [] req_len sim_time) s in
        let h₁ =
          (if succeeded rsp
            then send_chunks req_len tag req_len (payload_of rsp) 0 h
            else send_completion tag 0 0 [] 0 4 true h) in
        elim h₁ [ none ↦ none | some h₂ ↦ some (h₂, s₁) ]

    -- What a round of the second loop does between its Tick and its test of the status.
    unfoldable pub poll_read : ℕ → ℕ → Harness d → l.State → Option (Harness d × l.State)
    unfolding serve_read
    poll_read tag sim_time h s = elim (out d h).rd_req_valid [
      | true ↦ serve_read tag sim_time h s
      | false ↦ some (h, s)
    ]

    unfoldable pub read_rounds :
        ℕ → ℕ → ℕ → Harness d → l.State → Option (Bool × Harness d × l.State)
    unfolding poll_read
    read_rounds zero tag sim_time h s = some (false, h, s)
    read_rounds (suc rounds) tag sim_time h s = elim (poll_read tag sim_time (clock_tick d h) s) [
      | none ↦ none
      | some (h₁, s₁) ↦ elim (out d h₁).read_status_valid [
        | true ↦ some ((out d h₁).read_status_error == 0, h₁, s₁)
        | false ↦ read_rounds rounds tag sim_time h₁ s₁
      ]
    ]

    abbrev pub set_read_desc : DescPorts → Harness d → Harness d
    set_read_desc p h = record h { ports = record h.ports { read_desc = p } }

    unfoldable pub dma_read :
        ℕ → ℕ → ℕ → ℕ → ℕ → Harness d → l.State → Option (Bool × Harness d × l.State)
    unfolding read_rounds
    dma_read address ram_addr length tag sim_time h s =
        let desc : DescPorts = record {
          valid = true;
          pcie_addr = address;
          ram_addr = ram_addr;
          len = length;
          tag = tag;
        } in
        let (accepted, h₁) = tick_accept d (λ o. o.read_desc_ready) 1000 (set_read_desc desc h) in
        let h₂ = set_read_desc (record h₁.ports.read_desc { valid = false }) h₁ in
        elim accepted [ false ↦ some (false, h₂, s) | true ↦ read_rounds 2000 tag sim_time h₂ s ]

    -- A write request of the model, which goes to the host: whether it succeeded.
    unfoldable pub serve_write : ℕ → Harness d → l.State → Bool × l.State
    serve_write sim_time h s =
        let o = out d h in
        let words = o.wr_req_data0 ∷ o.wr_req_data1 ∷ o.wr_req_data2 ∷ o.wr_req_data3 ∷ [] in
        let (rsp, s₁) =
          l.send_request_to_host
            (memory_request (code dma_write_req) o.wr_req_addr (unpack o.wr_req_len words)
              o.wr_req_len sim_time)
            s in
        (succeeded rsp, s₁)

    unfoldable pub poll_write : ℕ → Harness d → l.State → Bool × l.State
    unfolding serve_write
    poll_write sim_time h s = elim (out d h).wr_req_valid [
      | true ↦ serve_write sim_time h s
      | false ↦ (true, s)
    ]

    unfoldable pub write_rounds : ℕ → ℕ → Harness d → l.State → Bool × Harness d × l.State
    unfolding poll_write
    write_rounds zero sim_time h s = (false, h, s)
    write_rounds (suc rounds) sim_time h₀ s₀ =
        let h = clock_tick d h₀ in
        let (good, s₁) = poll_write sim_time h s₀ in
        elim good [
          | false ↦ (false, h, s₁)
          | true ↦ elim (out d h).write_status_valid [
            | true ↦ ((out d h).write_status_error == 0, h, s₁)
            | false ↦ write_rounds rounds sim_time h s₁
          ]
        ]

    abbrev pub set_write_desc : DescPorts → Harness d → Harness d
    set_write_desc p h = record h { ports = record h.ports { write_desc = p } }

    unfoldable pub dma_write : ℕ → ℕ → ℕ → ℕ → ℕ → Harness d → l.State → Bool × Harness d × l.State
    unfolding write_rounds
    dma_write address ram_addr length tag sim_time h s =
        let desc : DescPorts = record {
          valid = true;
          pcie_addr = address;
          ram_addr = ram_addr;
          len = length;
          tag = tag;
        } in
        let (accepted, h₁) = tick_accept d (λ o. o.write_desc_ready) 1000 (set_write_desc desc h) in
        let h₂ = set_write_desc (record h₁.ports.write_desc { valid = false }) h₁ in
        elim accepted [ false ↦ (false, h₂, s) | true ↦ write_rounds 2000 sim_time h₂ s ]
