-- ===== src/Protocol/Codec.antt =====
-- `SerializeHeader`, `DeserializeHeader`, `SerializeMessage` and `MakeHeader` of
-- mini-ics/src/protocol.cpp.
use qemu_pcie_vip.Base.{
  ℕ, zero, suc, ◌+◌, ◌/◌, ◌%◌, List, ◌++◌, not, ◌&&◌, ltb, ◌==◌, if◌then◌else◌, length, replicate,
}
use qemu_pcie_vip.Protocol.Types.{
  Header, CodecError, bad_magic, bad_version, bad_header_length, bad_payload_length, truncated,
  mmio_read_req, code, protocol_magic, protocol_version, header_size, max_payload_size,
}
use qemu_pcie_vip.Protocol.Bytes.{put_u16, put_u32, put_u64, get_u16, get_u32, get_u64}

unfoldable pub serialize_header : Header → List ℕ
unfolding put_u16 put_u32 put_u64
serialize_header h =
    let b = replicate header_size 0 in
    let b = put_u32 b 0 h.magic in
    let b = put_u16 b 4 h.version in
    let b = put_u16 b 6 h.msg_type in
    let b = put_u16 b 8 h.flags in
    let b = put_u16 b 10 h.header_len in
    let b = put_u32 b 12 h.payload_len in
    let b = put_u64 b 16 h.txn_id in
    let b = put_u64 b 24 h.sim_timestamp in
    let b = put_u64 b 32 h.address in
    let b = put_u64 b 40 h.byte_enable in
    let b = put_u32 b 48 h.status in
    let b = put_u32 b 52 h.reserved in
    let b = put_u32 b 56 h.transfer_len in put_u32 b 60 h.reserved2

-- The optional header with `out_error`, as one value.
pub data Decoded : Type 0 where
  ok : Header → Decoded
  fail : CodecError → Decoded

abbrev pub read_fields : List ℕ → Header
read_fields src = record {
  magic = get_u32 src 0;
  version = get_u16 src 4;
  msg_type = get_u16 src 6;
  flags = get_u16 src 8;
  header_len = get_u16 src 10;
  payload_len = get_u32 src 12;
  txn_id = get_u64 src 16;
  sim_timestamp = get_u64 src 24;
  address = get_u64 src 32;
  byte_enable = get_u64 src 40;
  status = get_u32 src 48;
  reserved = get_u32 src 52;
  transfer_len = get_u32 src 56;
  reserved2 = get_u32 src 60;
}

-- The tests that follow the reads.
unfoldable pub check_header : Header → Decoded
check_header h =
    if not (h.magic == protocol_magic)
    then fail bad_magic
    else if not (h.version == protocol_version)
    then fail bad_version
    else if not (h.header_len == header_size)
    then fail bad_header_length
    else if ltb max_payload_size h.payload_len
    then fail bad_payload_length
    else ok h

unfoldable pub deserialize_header : List ℕ → Decoded
unfolding check_header
deserialize_header src =
    if ltb (length src) header_size then fail truncated else check_header (read_fields src)

unfoldable pub serialize_message : Header → List ℕ → List ℕ
serialize_message h payload = serialize_header h ++ payload

-- `__builtin_popcountll`, digit by digit: the documented count of the one bits of a 64-bit word.
unfoldable pub popcount : ℕ → ℕ → ℕ
popcount zero v = 0
popcount (suc n) v = v % 2 + popcount n (v / 2)

abbrev pub popcountll : ℕ → ℕ
popcountll v = popcount 64 v

unfoldable pub default_transfer_len : ℕ → ℕ → ℕ → ℕ → ℕ
default_transfer_len type byte_enable payload_len transfer_len =
    if transfer_len == 0
    then if type == code mmio_read_req && payload_len == 0
      then popcountll byte_enable
      else payload_len
    else transfer_len

-- The arguments in the order of the source. `type` and `status` are the numbers of the enumerations.
unfoldable pub make_header : ℕ → ℕ → ℕ → ℕ → ℕ → ℕ → ℕ → ℕ → ℕ → Header
unfolding default_transfer_len
make_header type txn_id address byte_enable status sim_timestamp payload_len flags transfer_len =
    record {
      magic = protocol_magic;
      version = protocol_version;
      msg_type = type;
      flags = flags;
      header_len = header_size;
      payload_len = payload_len;
      txn_id = txn_id;
      sim_timestamp = sim_timestamp;
      address = address;
      byte_enable = byte_enable;
      status = status;
      reserved = 0;
      transfer_len = default_transfer_len type byte_enable payload_len transfer_len;
      reserved2 = 0;
    }
