-- ===== src/Tests/Boards.antt =====
-- A model of the device and a host to run the Verilator harness on. The device accepts a descriptor at
-- once, asks for its data in the next cycle and sends back the data of the last completion; the host
-- answers reads from its memory, in full, and keeps a log.
use qemu_pcie_vip.Base.{
  ℕ, zero, suc, ◌+◌, ◌-◌, ◌%◌, ◌≡◌, refl, ap, arith, List, [], ◌∷◌, ◌++◌, Bool, true, false, ◌==◌,
  ltb, none, some, All, length, get_or, if◌then◌else◌,
}
use qemu_pcie_vip.Protocol.Types.{
  Message, IsByte, dma_read_req, dma_read_rsp, code, flag_is_response,
}
use qemu_pcie_vip.Protocol.Codec.{make_header}
use qemu_pcie_vip.Server.Requests.{Request}
use qemu_pcie_vip.Endpoint.Defs.{Link}
use qemu_pcie_vip.Endpoint.Traffic.{Sent, response, request, Recording}
use qemu_pcie_vip.Harness.Ports.{CplPorts, Inputs, Outputs, Dut, Harness, idle_cpl, idle_desc}
use qemu_pcie_vip.Harness.Completions.{Receiver}
use qemu_pcie_vip.Driver.Layout.{descriptors}

pub record Model : Type 0 where
  pub heard : List CplPorts
  pub asking : Bool
  pub done : Bool
  pub asked_addr : ℕ
  pub asked_len : ℕ
  pub write_phase : ℕ
  pub write_addr : ℕ
  pub write_len : ℕ

abbrev pub last_beat : List CplPorts → CplPorts
last_beat [] = idle_cpl
last_beat (c ∷ []) = c
last_beat (c ∷ e ∷ r) = last_beat (e ∷ r)

abbrev pub rising : Inputs → Model → Model
rising i s = record {
  heard = (if i.rx_cpl.valid then s.heard ++ (i.rx_cpl ∷ []) else s.heard);
  asking = (if i.read_desc.valid then true else if i.rx_cpl.valid then false else s.asking);
  done = (if i.read_desc.valid then false else if i.rx_cpl.valid then true else s.done);
  asked_addr = (if i.read_desc.valid then i.read_desc.pcie_addr else s.asked_addr);
  asked_len = (if i.read_desc.valid then i.read_desc.len else s.asked_len);
  write_phase = (if i.write_desc.valid then 2 else s.write_phase - 1);
  write_addr = (if i.write_desc.valid then i.write_desc.pcie_addr else s.write_addr);
  write_len = (if i.write_desc.valid then i.write_desc.len else s.write_len);
}

abbrev pub model_outputs : Model → Outputs
model_outputs s = record {
  mmio_req_ready = true;
  mmio_rsp_valid = true;
  mmio_rsp_data = 0;
  mmio_rsp_status = 0;
  read_desc_ready = true;
  read_status_valid = s.done;
  read_status_error = 0;
  write_desc_ready = true;
  write_status_valid = s.write_phase == 0;
  write_status_error = 0;
  rd_req_valid = s.asking;
  rd_req_addr = s.asked_addr;
  rd_req_len = s.asked_len;
  wr_req_valid = s.write_phase == 1;
  wr_req_addr = s.write_addr;
  wr_req_len = s.write_len;
  wr_req_data0 = (last_beat s.heard).data0;
  wr_req_data1 = (last_beat s.heard).data1;
  wr_req_data2 = (last_beat s.heard).data2;
  wr_req_data3 = (last_beat s.heard).data3;
  doorbell_pulse = false;
}

abbrev pub model : Dut
model = record {
  State = Model;
  eval = λ i s. if i.clk then rising i s else s;
  outputs = model_outputs;
  got_finish = λ s. false;
}

pub receiver : Receiver model
receiver = record {
  heard = λ s. s.heard;
  heard_high = λ i s e. ap (λ b. (if b then rising i s else s).heard) e;
  heard_low = λ i s e. ap (λ b. (if b then rising i s else s).heard) e;
}

abbrev pub idle_inputs : Inputs
idle_inputs = record {
  clk = false;
  rst = false;
  mmio_req_valid = false;
  mmio_req_write = false;
  mmio_req_addr = 0;
  mmio_req_len = 0;
  mmio_req_data = 0;
  read_desc = idle_desc;
  write_desc = idle_desc;
  rd_req_ready = true;
  wr_req_ready = true;
  rx_cpl = idle_cpl;
}

-- At rest, or in the middle of a read of `n` bytes at 0x2000.
abbrev pub bench : Bool → ℕ → Harness model
bench asking n = record {
  ports = idle_inputs;
  top = record {
    heard = [];
    asking = asking;
    done = false;
    asked_addr = 0x2000;
    asked_len = n;
    write_phase = 0;
    write_addr = 0;
    write_len = 0;
  };
  sim_time = 10;
  doorbell_seen = false;
}

-- Two descriptors of 8 bytes at 0x1000, and a pattern from 0x2000 on.
unfoldable pub memory_at : ℕ → ℕ
unfolding descriptors
memory_at a =
    (if ltb a 0x2000 then get_or (descriptors 0x2000 0x3000 8) (a - 0x1000) 0 else 0xa0 + a % 64)
    % 256

abbrev pub slice : ℕ → ℕ → List ℕ
slice zero a = []
slice (suc n) a = memory_at a ∷ slice n (a + 1)

pub slice-IsByte : (n a : ℕ) → All IsByte (slice n a)
unfolding memory_at
slice-IsByte zero a = tt
slice-IsByte (suc n) a = (omega arith, slice-IsByte n (a + 1))

pub length-slice : (n a : ℕ) → length (slice n a) ≡ n
length-slice zero a = refl
length-slice (suc n) a = ap suc (length-slice n (a + 1))

unfoldable pub host_answer : Request → Message
unfolding make_header
host_answer q = record {
  header = make_header (code dma_read_rsp) 1 0 0 0 0 0 flag_is_response 0;
  payload = (if q.type == code dma_read_req then slice q.transfer_len q.address else []);
}

abbrev pub host : Link
host = record {
  State = List Sent;
  send_response = λ h payload log. (true, log ++ (response h payload ∷ []));
  send_request_to_host = λ q log. (some (host_answer q), log ++ (request q ∷ []));
  poll_inbound = λ log. (none, log);
}

pub host_log : Recording host
host_log = record {
  log = λ s. s;
  log_response = λ h payload s. refl;
  log_request = λ q s. refl;
  log_poll = λ s. refl;
}
