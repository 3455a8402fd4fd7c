-- ===== src/Harness/Ports.antt =====
-- `Harness` of rtl/alex/verilator_qemu_main.cpp: the ports of the Verilator model, its clock, MMIO
-- accesses and reset. The model itself, `Valex_qemu_verilator_top`, is generated from the RTL: it is
-- a `Dut`, whose ports have the widths of rtl/alex/alex_qemu_verilator_top.sv. The TLP log and the
-- waveform dump are left out.
use qemu_pcie_vip.Base.{ℕ, zero, suc, ◌+◌, ◌%◌, ◌^◌, Bool, true, false, ◌||◌, Option, none, some}

-- The `dma_read_desc_*` or the `dma_write_desc_*` inputs.
pub record DescPorts : Type 0 where
  pub valid : Bool
  pub pcie_addr : ℕ
  pub ram_addr : ℕ
  pub len : ℕ
  pub tag : ℕ

-- The `dma_rx_cpl_*` inputs.
pub record CplPorts : Type 0 where
  pub valid : Bool
  pub sop : Bool
  pub eop : Bool
  pub error : ℕ
  pub hdr_lo : ℕ
  pub hdr_hi : ℕ
  pub data0 : ℕ
  pub data1 : ℕ
  pub data2 : ℕ
  pub data3 : ℕ

pub record Inputs : Type 0 where
  pub clk : Bool
  pub rst : Bool
  pub mmio_req_valid : Bool
  pub mmio_req_write : Bool
  pub mmio_req_addr : ℕ
  pub mmio_req_len : ℕ
  pub mmio_req_data : ℕ
  pub read_desc : DescPorts
  pub write_desc : DescPorts
  pub rd_req_ready : Bool
  pub wr_req_ready : Bool
  pub rx_cpl : CplPorts

pub record Outputs : Type 0 where
  pub mmio_req_ready : Bool
  pub mmio_rsp_valid : Bool
  pub mmio_rsp_data : ℕ
  pub mmio_rsp_status : ℕ
  pub read_desc_ready : Bool
  pub read_status_valid : Bool
  pub read_status_error : ℕ
  pub write_desc_ready : Bool
  pub write_status_valid : Bool
  pub write_status_error : ℕ
  pub rd_req_valid : Bool
  pub rd_req_addr : ℕ
  pub rd_req_len : ℕ
  pub wr_req_valid : Bool
  pub wr_req_addr : ℕ
  pub wr_req_len : ℕ
  pub wr_req_data0 : ℕ
  pub wr_req_data1 : ℕ
  pub wr_req_data2 : ℕ
  pub wr_req_data3 : ℕ
  pub doorbell_pulse : Bool

-- What the harness uses of the generated model: `eval()` under given inputs, the outputs then, and
-- `Verilated::gotFinish()`.
pub record Dut : Type 1 where
  pub State : Type 0
  pub eval : Inputs → State → State
  pub outputs : State → Outputs
  pub got_finish : State → Bool

pub record Harness (d : Dut) : Type 0 where
  pub ports : Inputs
  pub top : d.State
  pub sim_time : ℕ
  pub doorbell_seen : Bool

abbrev pub idle_desc : DescPorts
idle_desc = record { valid = false; pcie_addr = 0; ram_addr = 0; len = 0; tag = 0 }

abbrev pub idle_cpl : CplPorts
idle_cpl = record {
  valid = false;
  sop = false;
  eop = false;
  error = 0;
  hdr_lo = 0;
  hdr_hi = 0;
  data0 = 0;
  data1 = 0;
  data2 = 0;
  data3 = 0;
}

module _ (d : Dut) where
  abbrev pub out : Harness d → Outputs
  out h = d.outputs h.top

  unfoldable pub clock_tick : Harness d → Harness d
  clock_tick h =
      let low = record h.ports { clk = false } in
      let high = record h.ports { clk = true } in
      let top = d.eval low (d.eval high (d.eval low h.top)) in
      record h {
        ports = low;
        top = top;
        sim_time = (h.sim_time + 1) % 2 ^ 64;
        doorbell_seen = h.doorbell_seen || (d.outputs top).doorbell_pulse;
      }

  -- `for (int i = 0; i < n && !ready; ++i) Tick();`
  unfoldable pub tick_until : (Outputs → Bool) → ℕ → Harness d → Harness d
  unfolding clock_tick
  tick_until ready zero h = h
  tick_until ready (suc n) h = elim (ready (out h)) [
    | true ↦ h
    | false ↦ tick_until ready n (clock_tick h)
  ]

  -- `for (int i = 0; i < n; ++i) { Tick(); if (ready) { accepted = true; break; } }`
  unfoldable pub tick_accept : (Outputs → Bool) → ℕ → Harness d → Bool × Harness d
  unfolding clock_tick
  tick_accept ready zero h = (false, h)
  tick_accept ready (suc n) h = elim (ready (out (clock_tick h))) [
    | true ↦ (true, clock_tick h)
    | false ↦ tick_accept ready n (clock_tick h)
  ]

  unfoldable pub ticks : ℕ → Harness d → Harness d
  unfolding clock_tick
  ticks zero h = h
  ticks (suc n) h = ticks n (clock_tick h)

  abbrev pub set_valid : Bool → Harness d → Harness d
  set_valid v h = record h { ports = record h.ports { mmio_req_valid = v } }

  -- The second half of `Mmio`, once the model is ready: data and status, if a response comes.
  unfoldable pub mmio_transfer : Harness d → Option (ℕ × ℕ) × Harness d
  unfolding tick_until clock_tick
  mmio_transfer h =
      let h =
        tick_until (λ o. o.mmio_rsp_valid) 200 (set_valid false (clock_tick (set_valid true h))) in
      elim (out h).mmio_rsp_valid [
        | false ↦ (none, h)
        | true ↦ (some ((out h).mmio_rsp_data, (out h).mmio_rsp_status), clock_tick h)
      ]

  -- `mmio_req_len` is a byte.
  unfoldable pub mmio : Bool → ℕ → ℕ → ℕ → Harness d → Option (ℕ × ℕ) × Harness d
  unfolding tick_until mmio_transfer
  mmio write address length value h =
      let h = record h {
        ports = record h.ports {
          mmio_req_write = write;
          mmio_req_addr = address;
          mmio_req_len = length % 2 ^ 8;
          mmio_req_data = value;
          mmio_req_valid = false;
        };
      } in
      let h = tick_until (λ o. o.mmio_req_ready) 100 h in
      elim (out h).mmio_req_ready [ false ↦ (none, h) | true ↦ mmio_transfer h ]

  abbrev pub set_rst : Bool → Harness d → Harness d
  set_rst v h = record h { ports = record h.ports { rst = v } }

  unfoldable pub reset : Harness d → Harness d
  unfolding ticks
  reset h = set_rst false (ticks 4 (set_rst true h))

  unfoldable pub init_dma_ports : Harness d → Harness d
  init_dma_ports h = record h {
    ports = record h.ports {
      read_desc = idle_desc;
      write_desc = idle_desc;
      rd_req_ready = true;
      wr_req_ready = true;
      rx_cpl = idle_cpl;
    };
  }
