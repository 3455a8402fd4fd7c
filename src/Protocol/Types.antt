-- ===== src/Protocol/Types.antt =====
-- mini-ics/include/mini_ics/protocol.hpp: the constants, enumerations and records of the wire format.
use qemu_pcie_vip.Base.{ℕ, ◌*◌, ◌^◌, ◌<◌, List, Bool, ◌==◌}

abbrev pub protocol_version : ℕ
protocol_version = 2

abbrev pub protocol_magic : ℕ
protocol_magic = 0x5343494d

abbrev pub header_size : ℕ
header_size = 64

abbrev pub max_payload_size : ℕ
max_payload_size = 16 * 1024 * 1024

-- A message type off the wire is any 16-bit number, so the header keeps the number (`code` below),
-- and the switch of the source is a test on it.
pub data MessageType : Type 0 where
  hello hello_ack mmio_read_req mmio_read_rsp mmio_write_req mmio_write_rsp : MessageType
  dma_read_req dma_read_rsp dma_write_req dma_write_rsp msi_x reset_req reset_rsp : MessageType
  error shutdown : MessageType

abbrev pub code : MessageType → ℕ
code hello = 1
code hello_ack = 2
code mmio_read_req = 3
code mmio_read_rsp = 4
code mmio_write_req = 5
code mmio_write_rsp = 6
code dma_read_req = 7
code dma_read_rsp = 8
code dma_write_req = 9
code dma_write_rsp = 10
code msi_x = 11
code reset_req = 12
code reset_rsp = 13
code error = 14
code shutdown = 15

pub data StatusCode : Type 0 where
  success error_generic error_bad_magic error_bad_version error_bad_length : StatusCode
  error_timeout error_out_of_bounds error_invalid_address error_not_connected : StatusCode
  error_disconnected error_unknown_transaction error_unsupported : StatusCode

abbrev pub status_code : StatusCode → ℕ
status_code success = 0
status_code error_generic = 1
status_code error_bad_magic = 2
status_code error_bad_version = 3
status_code error_bad_length = 4
status_code error_timeout = 5
status_code error_out_of_bounds = 6
status_code error_invalid_address = 7
status_code error_not_connected = 8
status_code error_disconnected = 9
status_code error_unknown_transaction = 10
status_code error_unsupported = 11

abbrev pub flag_none : ℕ
flag_none = 0

abbrev pub flag_is_response : ℕ
flag_is_response = 1

pub record Header : Type 0 where
  pub magic : ℕ
  pub version : ℕ
  pub msg_type : ℕ
  pub flags : ℕ
  pub header_len : ℕ
  pub payload_len : ℕ
  pub txn_id : ℕ
  pub sim_timestamp : ℕ
  pub address : ℕ
  pub byte_enable : ℕ
  pub status : ℕ
  pub reserved : ℕ
  pub transfer_len : ℕ
  pub reserved2 : ℕ

-- The widths of the fields.
pub record FitsWire (h : Header) : Type 0 where
  pub magic_u32 : h.magic < 2 ^ 32
  pub version_u16 : h.version < 2 ^ 16
  pub msg_type_u16 : h.msg_type < 2 ^ 16
  pub flags_u16 : h.flags < 2 ^ 16
  pub header_len_u16 : h.header_len < 2 ^ 16
  pub payload_len_u32 : h.payload_len < 2 ^ 32
  pub txn_id_u64 : h.txn_id < 2 ^ 64
  pub sim_timestamp_u64 : h.sim_timestamp < 2 ^ 64
  pub address_u64 : h.address < 2 ^ 64
  pub byte_enable_u64 : h.byte_enable < 2 ^ 64
  pub status_u32 : h.status < 2 ^ 32
  pub reserved_u32 : h.reserved < 2 ^ 32
  pub transfer_len_u32 : h.transfer_len < 2 ^ 32
  pub reserved2_u32 : h.reserved2 < 2 ^ 32

-- `h.Type() == t` and `h.Status() == s`.
abbrev pub has_type : Header → MessageType → Bool
has_type h t = h.msg_type == code t

abbrev pub has_status : Header → StatusCode → Bool
has_status h s = h.status == status_code s

pub record Message : Type 0 where
  pub header : Header
  pub payload : List ℕ

pub data CodecError : Type 0 where
  bad_magic bad_version bad_header_length bad_payload_length truncated : CodecError

abbrev pub IsByte : ℕ → Type 0
IsByte b = b < 256
