-- ===== src/Endpoint/Defs.antt =====
-- `SoftwareEndpointModel` of mini-ics/src/server.cpp over any server: the NVMe-like registers, the
-- MMIO and reset handlers and the DMA sequence.
use qemu_pcie_vip.Base.{
  ℕ, zero, suc, ◌+◌, ◌*◌, ◌/◌, ◌%◌, ◌^◌, List, [], ◌∷◌, Bool, true, false, not, ◌&&◌, ◌||◌, ◌==◌,
  leb, Option, none, some, length, bit_and, bit_or, if◌then◌else◌,
}
use qemu_pcie_vip.Protocol.Types.{
  Header, Message, StatusCode, dma_read_req, dma_write_req, msi_x, success, error_bad_length,
  error_invalid_address, code, status_code, has_status,
}
use qemu_pcie_vip.Protocol.Bytes.{get_u32, get_u64}
use qemu_pcie_vip.Protocol.Codec.{popcountll}
use qemu_pcie_vip.Server.Requests.{Request}

-- What the endpoint uses of `MiniIcsServer`.
pub record Link : Type 1 where
  pub State : Type 0
  pub send_response : Header → List ℕ → State → Bool × State
  pub send_request_to_host : Request → State → Option Message × State
  pub poll_inbound : State → Option Message × State

pub record Registers : Type 0 where
  pub cc : ℕ
  pub csts : ℕ
  pub asq : ℕ
  pub acq : ℕ
  pub aqa : ℕ

abbrev pub zeroed : Registers
zeroed = record { cc = 0; csts = 0; asq = 0; acq = 0; aqa = 0 }

abbrev pub capabilities : ℕ
capabilities = 1

abbrev pub cap_reg : ℕ
cap_reg = 0x0000

abbrev pub cc_reg : ℕ
cc_reg = 0x0014

abbrev pub csts_reg : ℕ
csts_reg = 0x001c

abbrev pub aqa_reg : ℕ
aqa_reg = 0x0024

abbrev pub asq_reg_low : ℕ
asq_reg_low = 0x0028

abbrev pub acq_reg_low : ℕ
acq_reg_low = 0x0030

abbrev pub sq0_doorbell : ℕ
sq0_doorbell = 0x1000

abbrev pub mmio_space_size : ℕ
mmio_space_size = 64 * 1024

-- The sum is one of 64-bit words, and wraps around.
unfoldable pub addr_valid : ℕ → ℕ → Bool
addr_valid addr len = leb ((addr + len) % 2 ^ 64) mmio_space_size

-- `csts_ |= 0x1` and `csts_ &= ~0x1u`.
unfoldable pub ready_bit : ℕ → ℕ → ℕ
ready_bit cc csts = if bit_and cc 1 == 0 then bit_and csts 0xfffffffe else bit_or csts 1

-- The register writes of HandleMmioWrite, in the order of its tests: the status, the registers and
-- whether the doorbell rang.
unfoldable pub write_register : ℕ → List ℕ → Registers → StatusCode × Registers × Bool
unfolding addr_valid ready_bit
write_register addr payload r =
    let len = length payload % 2 ^ 32 in
    if not (addr_valid addr len)
    then (error_invalid_address, r, false)
    else if addr == cc_reg && len == 4
    then (
      success,
      record r { cc = get_u32 payload 0; csts = ready_bit (get_u32 payload 0) r.csts },
      false,
    )
    else if addr == asq_reg_low && len == 8
    then (success, record r { asq = get_u64 payload 0 }, false)
    else if addr == acq_reg_low && len == 8
    then (success, record r { acq = get_u64 payload 0 }, false)
    else if addr == aqa_reg && len == 4
    then (success, record r { aqa = get_u32 payload 0 }, false)
    else if addr == sq0_doorbell && len == 4
    then (success, r, true)
    else if not (len == 4) && not (len == 8)
    then (error_bad_length, r, false)
    else (error_invalid_address, r, false)

-- The length that a read asks for.
unfoldable pub read_length : Header → ℕ
read_length h = if h.transfer_len == 0 then popcountll h.byte_enable else h.transfer_len

abbrev pub is_access_length : ℕ → Bool
is_access_length len = len == 1 || len == 2 || len == 4 || len == 8

-- The address tests of HandleMmioRead, which change `status` only on failure.
unfoldable pub read_register : ℕ → ℕ → StatusCode → Registers → StatusCode × ℕ
unfolding addr_valid
read_register addr len status r =
    if not (addr_valid addr len)
    then (error_invalid_address, 0)
    else if addr == csts_reg
    then (status, r.csts)
    else if addr == cc_reg
    then (status, r.cc)
    else if addr == aqa_reg
    then (status, r.aqa)
    else if addr == cap_reg
    then (status, capabilities)
    else (error_invalid_address, 0)

-- `payload[i] = wide_value >> (8 * i)` for `n` more bytes from `i` on.
unfoldable pub value_bytes : ℕ → ℕ → ℕ → List ℕ
value_bytes zero i value = []
value_bytes (suc n) i value = (value / 2 ^ (8 * i) % 256) ∷ value_bytes n (i + 1) value

abbrev pub is_success : StatusCode → Bool
is_success s = status_code s == 0

-- The status and the payload of the response to a read.
unfoldable pub read_result : Header → Registers → StatusCode × List ℕ
unfolding read_length read_register value_bytes
read_result h r =
    let asked = read_length h in
    let fits = is_access_length asked in
    let len = (if fits then asked else 0) in
    let (status, value) =
      read_register h.address len (if fits then success else error_bad_length) r in
    (status, if is_success status then value_bytes len 0 value else [])

pub record Endpoint (l : Link) : Type 0 where
  pub regs : Registers
  pub sim_time_ns : ℕ
  pub doorbell_rung : Bool
  pub server : l.State

abbrev pub advance : ℕ → ℕ → ℕ
advance t d = (t + d) % 2 ^ 64

-- The 16 bytes of the mock completion, `0xC0 + i`.
abbrev pub completion : List ℕ
completion =
    0xc0 ∷ 0xc1 ∷ 0xc2 ∷ 0xc3 ∷ 0xc4 ∷ 0xc5 ∷ 0xc6 ∷ 0xc7 ∷ 0xc8 ∷ 0xc9 ∷ 0xca ∷ 0xcb ∷ 0xcc ∷ 0xcd
    ∷ 0xce ∷ 0xcf ∷ []

-- `!rsp || rsp->header.Status() != kSuccess`, negated.
abbrev pub succeeded : Option Message → Bool
succeeded none = false
succeeded (some m) = has_status m.header success

abbrev pub dma_read_request : ℕ → ℕ → Request
dma_read_request asq now = record {
  type = code dma_read_req;
  address = asq;
  byte_enable = 0;
  payload = [];
  transfer_len = 64;
  sim_timestamp = now;
  expect_response = true;
}

abbrev pub dma_write_request : ℕ → ℕ → Request
dma_write_request acq now = record {
  type = code dma_write_req;
  address = acq;
  byte_enable = 0;
  payload = completion;
  transfer_len = 16;
  sim_timestamp = now;
  expect_response = true;
}

abbrev pub msi_x_request : ℕ → Request
msi_x_request now = record {
  type = code msi_x;
  address = 0;
  byte_enable = 0;
  payload = [];
  transfer_len = 0;
  sim_timestamp = now;
  expect_response = false;
}
