-- ===== src/Tests/Wire.antt =====
-- The wire format at concrete headers and buffers.
use qemu_pcie_vip.Base.{ℕ, ◌≡◌, refl, arith, List, [], ◌∷◌, set}
use qemu_pcie_vip.Protocol.Types.{Header, bad_magic, mmio_write_req, code}
use qemu_pcie_vip.Protocol.Bytes.{get_u16, get_u32, get_u64}
use qemu_pcie_vip.Protocol.Codec.{
  ok, fail, serialize_header, deserialize_header, make_header, default_transfer_len, popcount,
}
use qemu_pcie_vip.Protocol.RoundTrip.{
  IsValid, deserialize-serialize, serialize-deserialize, DecodesInOrder, deserialize_cases,
}

-- A four-byte write to CC, and its bytes.
abbrev pub write_header : Header
unfolding make_header
write_header = make_header (code mmio_write_req) 2 0x14 15 0 105 4 0 0

abbrev pub write_payload : List ℕ
write_payload = 1 ∷ 0 ∷ 0 ∷ 0 ∷ []

pub write_header-IsValid : IsValid write_header
unfolding make_header
write_header-IsValid = omega arith

abbrev write_bytes : List ℕ
unfolding serialize_header make_header
write_bytes = serialize_header write_header

bytes_of_write :
    write_bytes
    ≡ 0x4d ∷ 0x49 ∷ 0x43 ∷ 0x53 ∷ 2 ∷ 0 ∷ 5 ∷ 0 ∷ 0 ∷ 0 ∷ 64 ∷ 0 ∷ 4 ∷ 0 ∷ 0 ∷ 0 ∷ 2 ∷ 0 ∷ 0 ∷ 0 ∷ 0
      ∷ 0 ∷ 0 ∷ 0 ∷ 105 ∷ 0 ∷ 0 ∷ 0 ∷ 0 ∷ 0 ∷ 0 ∷ 0 ∷ 0x14 ∷ 0 ∷ 0 ∷ 0 ∷ 0 ∷ 0 ∷ 0 ∷ 0 ∷ 15 ∷ 0 ∷ 0
      ∷ 0 ∷ 0 ∷ 0 ∷ 0 ∷ 0 ∷ 0 ∷ 0 ∷ 0 ∷ 0 ∷ 0 ∷ 0 ∷ 0 ∷ 0 ∷ 4 ∷ 0 ∷ 0 ∷ 0 ∷ 0 ∷ 0 ∷ 0 ∷ 0 ∷ []
unfolding serialize_header make_header
bytes_of_write = refl

-- A read without a transfer length asks for as many bytes as byte enables.
popcount_of_lanes : default_transfer_len 3 15 0 0 ≡ 4
unfolding default_transfer_len popcount
popcount_of_lanes = refl

flipped_magic : deserialize_header (set write_bytes 0 0) ≡ fail bad_magic
unfolding deserialize_header serialize_header make_header get_u16 get_u32 get_u64
flipped_magic = refl

deserialize-serialize_example : deserialize_header (serialize_header write_header) ≡ ok write_header
deserialize-serialize_example = deserialize-serialize write_header write_header-IsValid

serialize-deserialize_example : IsValid write_header × (serialize_header write_header ≡ write_bytes)
unfolding serialize_header make_header
serialize-deserialize_example =
    serialize-deserialize write_bytes write_header (omega arith) refl
      (deserialize-serialize write_header write_header-IsValid)

deserialize_cases_example : DecodesInOrder write_payload
deserialize_cases_example = deserialize_cases write_payload
