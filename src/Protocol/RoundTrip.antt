-- ===== src/Protocol/RoundTrip.antt =====
-- `SerializeHeader` against `DeserializeHeader`, and the errors of the latter.
pub mod Words
use qemu_pcie_vip.Base.{
  ℕ, zero, suc, ◌+◌, ◌^◌, ◌<◌, ◌≤◌, ◌≡◌, refl, sym, arith, ap, ◌∙◌, List, [], ◌∷◌, ◌++◌, All,
  length, get_or, ltb, le→ltb, Bool-cases, ◌≢◌, ◌⊎◌, inl, inr,
}
use qemu_pcie_vip.Protocol.Types.{
  Header, FitsWire, IsByte, protocol_magic, protocol_version, header_size, max_payload_size,
  CodecError, bad_magic, bad_version, bad_header_length, bad_payload_length, truncated,
}
use qemu_pcie_vip.Protocol.Bytes.{get_u16, get_u32, get_u64}
use qemu_pcie_vip.Protocol.Codec.{
  serialize_header, deserialize_header, check_header, read_fields, ok, fail,
}
use Words.{
  u16_bytes, u32_bytes, u64_bytes, u16_of-lt, u32_of-lt, u64_of-lt, cat2, cat4, cat8, cat2_of,
  cat4_of, cat8_of,
}

-- What the sender has to put into a header for the receiver to take it.
pub record IsValid (h : Header) : Type 0 where
  pub fits : FitsWire h
  pub right_magic : h.magic ≡ protocol_magic
  pub right_version : h.version ≡ protocol_version
  pub right_length : h.header_len ≡ header_size
  pub short_payload : h.payload_len ≤ max_payload_size

read_fields-serialize : (h : Header) → FitsWire h → read_fields (serialize_header h) ≡ h
unfolding serialize_header get_u16 get_u32 get_u64
read_fields-serialize h w = λ j. record {
  magic = u32_bytes h.magic w.magic_u32 j;
  version = u16_bytes h.version w.version_u16 j;
  msg_type = u16_bytes h.msg_type w.msg_type_u16 j;
  flags = u16_bytes h.flags w.flags_u16 j;
  header_len = u16_bytes h.header_len w.header_len_u16 j;
  payload_len = u32_bytes h.payload_len w.payload_len_u32 j;
  txn_id = u64_bytes h.txn_id w.txn_id_u64 j;
  sim_timestamp = u64_bytes h.sim_timestamp w.sim_timestamp_u64 j;
  address = u64_bytes h.address w.address_u64 j;
  byte_enable = u64_bytes h.byte_enable w.byte_enable_u64 j;
  status = u32_bytes h.status w.status_u32 j;
  reserved = u32_bytes h.reserved w.reserved_u32 j;
  transfer_len = u32_bytes h.transfer_len w.transfer_len_u32 j;
  reserved2 = u32_bytes h.reserved2 w.reserved2_u32 j;
}

pub length-serialize_header : (h : Header) → length (serialize_header h) ≡ header_size
unfolding serialize_header
length-serialize_header h = refl

check_header-IsValid : (h : Header) → IsValid h → check_header h ≡ ok h
unfolding check_header
check_header-IsValid h v = ground arith

-- Every header whose fields fit their widths, with the right magic, version and header length and a
-- payload length within the bound, is read back from its serialisation as it was.
pub deserialize-serialize :
    (h : Header) → IsValid h → deserialize_header (serialize_header h) ≡ ok h
unfolding deserialize_header
deserialize-serialize h v =
    rw (length-serialize_header h)
      (ap check_header (read_fields-serialize h v.fits) ∙ check_header-IsValid h v)

serialize_header-cat :
    (h : Header)
    → serialize_header h
      ≡ cat4 h.magic (
          cat2 h.version (
            cat2 h.msg_type (
              cat2 h.flags (
                cat2 h.header_len (
                  cat4 h.payload_len (
                    cat8 h.txn_id (
                      cat8 h.sim_timestamp (
                        cat8 h.address (
                          cat8 h.byte_enable (
                            cat4 h.status (
                              cat4 h.reserved
                                (cat4 h.transfer_len (cat4 h.reserved2 ([]))))))))))))))
unfolding serialize_header
serialize_header-cat h = refl

-- The elements of a list, read by their index from `i` on.
abbrev tabulate : ℕ → ℕ → List ℕ → List ℕ
tabulate zero i src = []
tabulate (suc n) i src = get_or src i 0 ∷ tabulate n (suc i) src

tabulate-cons : (n i x : ℕ) (xs : List ℕ) → tabulate n (suc i) (x ∷ xs) ≡ tabulate n i xs
tabulate-cons zero i x xs = refl
tabulate-cons (suc n) i x xs = ap (◌∷◌ (get_or xs i 0)) (tabulate-cons n (suc i) x xs)

tabulate_all : (xs : List ℕ) → tabulate (length xs) 0 xs ≡ xs
tabulate_all [] = refl
tabulate_all (x ∷ xs) = ap (◌∷◌ x) (tabulate-cons (length xs) 0 x xs ∙ tabulate_all xs)

get_or-IsByte : (src : List ℕ) (i : ℕ) → All IsByte src → get_or src i 0 < 256
get_or-IsByte [] i h = omega arith
get_or-IsByte (x ∷ xs) zero h = h.0
get_or-IsByte (x ∷ xs) (suc i) h = get_or-IsByte xs i h.1

serialize-read_fields :
    (src : List ℕ) → All IsByte src → serialize_header (read_fields src) ≡ tabulate 64 0 src
unfolding serialize_header get_u16 get_u32 get_u64
serialize-read_fields src h =
    let s = λ (i : ℕ). get_or src i 0 in
    let b = λ (i : ℕ). get_or-IsByte src i h in
    λ j.
      (cat4_of (s 0) (s 1) (s 2) (s 3)
        (cat2_of (s 4) (s 5)
          (cat2_of (s 6) (s 7)
            (cat2_of (s 8) (s 9)
              (cat2_of (s 10) (s 11)
                (cat4_of (s 12) (s 13) (s 14) (s 15)
                  (cat8_of (s 16) (s 17) (s 18) (s 19) (s 20) (s 21) (s 22) (s 23)
                    (cat8_of (s 24) (s 25) (s 26) (s 27) (s 28) (s 29) (s 30) (s 31)
                      (cat8_of (s 32) (s 33) (s 34) (s 35) (s 36) (s 37) (s 38) (s 39)
                        (cat8_of (s 40) (s 41) (s 42) (s 43) (s 44) (s 45) (s 46) (s 47)
                          (cat4_of (s 48) (s 49) (s 50) (s 51)
                            (cat4_of (s 52) (s 53) (s 54) (s 55)
                              (cat4_of (s 56) (s 57) (s 58) (s 59)
                                (cat4_of (s 60) (s 61) (s 62) (s 63) [] (b 60) (b 61) (b 62) (b 63)
                                  j)
                                (b 56) (b 57) (b 58) (b 59) j)
                              (b 52) (b 53) (b 54) (b 55) j)
                            (b 48) (b 49) (b 50) (b 51) j)
                          (b 40) (b 41) (b 42) (b 43) (b 44) (b 45) (b 46) (b 47) j)
                        (b 32) (b 33) (b 34) (b 35) (b 36) (b 37) (b 38) (b 39) j)
                      (b 24) (b 25) (b 26) (b 27) (b 28) (b 29) (b 30) (b 31) j)
                    (b 16) (b 17) (b 18) (b 19) (b 20) (b 21) (b 22) (b 23) j)
                  (b 12) (b 13) (b 14) (b 15) j)
                (b 10) (b 11) j)
              (b 8) (b 9) j)
            (b 6) (b 7) j)
          (b 4) (b 5) j)
        (b 0) (b 1) (b 2) (b 3) j)

read_fields-FitsWire : (src : List ℕ) → All IsByte src → FitsWire (read_fields src)
unfolding get_u16 get_u32 get_u64
read_fields-FitsWire src h =
    let s = λ (i : ℕ). get_or src i 0 in
    let b = λ (i : ℕ). get_or-IsByte src i h in
    record {
      magic_u32 = u32_of-lt (s 0) (s 1) (s 2) (s 3) (b 0) (b 1) (b 2) (b 3);
      version_u16 = u16_of-lt (s 4) (s 5) (b 4) (b 5);
      msg_type_u16 = u16_of-lt (s 6) (s 7) (b 6) (b 7);
      flags_u16 = u16_of-lt (s 8) (s 9) (b 8) (b 9);
      header_len_u16 = u16_of-lt (s 10) (s 11) (b 10) (b 11);
      payload_len_u32 = u32_of-lt (s 12) (s 13) (s 14) (s 15) (b 12) (b 13) (b 14) (b 15);
      txn_id_u64 =
          u64_of-lt (s 16) (s 17) (s 18) (s 19) (s 20) (s 21) (s 22) (s 23) (b 16) (b 17) (b 18)
            (b 19) (b 20) (b 21) (b 22) (b 23);
      sim_timestamp_u64 =
          u64_of-lt (s 24) (s 25) (s 26) (s 27) (s 28) (s 29) (s 30) (s 31) (b 24) (b 25) (b 26)
            (b 27) (b 28) (b 29) (b 30) (b 31);
      address_u64 =
          u64_of-lt (s 32) (s 33) (s 34) (s 35) (s 36) (s 37) (s 38) (s 39) (b 32) (b 33) (b 34)
            (b 35) (b 36) (b 37) (b 38) (b 39);
      byte_enable_u64 =
          u64_of-lt (s 40) (s 41) (s 42) (s 43) (s 44) (s 45) (s 46) (s 47) (b 40) (b 41) (b 42)
            (b 43) (b 44) (b 45) (b 46) (b 47);
      status_u32 = u32_of-lt (s 48) (s 49) (s 50) (s 51) (b 48) (b 49) (b 50) (b 51);
      reserved_u32 = u32_of-lt (s 52) (s 53) (s 54) (s 55) (b 52) (b 53) (b 54) (b 55);
      transfer_len_u32 = u32_of-lt (s 56) (s 57) (s 58) (s 59) (b 56) (b 57) (b 58) (b 59);
      reserved2_u32 = u32_of-lt (s 60) (s 61) (s 62) (s 63) (b 60) (b 61) (b 62) (b 63);
    }

pub check_header_ok :
    (g h : Header)
    → check_header g ≡ ok h
    → (g ≡ h)
      × (g.magic ≡ protocol_magic)
      × (g.version ≡ protocol_version)
      × (g.header_len ≡ header_size)
      × (g.payload_len ≤ max_payload_size)
unfolding check_header
check_header_ok g h e = ground arith

pub deserialize_ok :
    (src : List ℕ) (h : Header)
    → deserialize_header src ≡ ok h
    → (header_size ≤ length src) × (check_header (read_fields src) ≡ ok h)
unfolding deserialize_header
deserialize_ok src h e = elim (Bool-cases (ltb (length src) header_size)) [
  | inl short ↦ cc (rw (short) at e)
  | inr long ↦ (ground arith, rw long at e)
]

-- When 64 bytes are accepted, the header that they are read as is valid, and writing it gives the
-- same 64 bytes: no two encodings of a header are accepted.
pub serialize-deserialize :
    (src : List ℕ) (h : Header)
    → All IsByte src
    → length src ≡ header_size
    → deserialize_header src ≡ ok h
    → IsValid h × (serialize_header h ≡ src)
serialize-deserialize src h bytes len e =
    let (_, c) = deserialize_ok src h e in
    let (same, m, v, l, p) = check_header_ok (read_fields src) h c in
    let valid : IsValid (read_fields src) = record {
      fits = read_fields-FitsWire src bytes;
      right_magic = m;
      right_version = v;
      right_length = l;
      short_payload = p;
    } in
    let written : serialize_header (read_fields src) ≡ src =
      serialize-read_fields src bytes ∙ ap (λ n. tabulate n 0 src) (sym len) ∙ tabulate_all src in
    (rw same at valid, rw same at written)

-- The answers of `deserialize_header`, by the first thing that is wrong.
abbrev pub DecodesInOrder : List ℕ → Type 0
DecodesInOrder src =
    let h = read_fields src in
    let r = deserialize_header src in
    ((length src < header_size) × (r ≡ fail truncated))
    ⊎ (header_size ≤ length src)
      × (((h.magic ≢ protocol_magic) × (r ≡ fail bad_magic))
          ⊎ (h.magic ≡ protocol_magic)
            × (((h.version ≢ protocol_version) × (r ≡ fail bad_version))
                ⊎ (h.version ≡ protocol_version)
                  × (((h.header_len ≢ header_size) × (r ≡ fail bad_header_length))
                      ⊎ (h.header_len ≡ header_size)
                        × (((max_payload_size < h.payload_len) × (r ≡ fail bad_payload_length))
                            ⊎ (h.payload_len ≤ max_payload_size) × (r ≡ ok h)))))

-- `deserialize_header` refuses a buffer that is shorter than a header as truncated, and any other
-- for the first of magic, version, header length and payload length that is wrong, in this order;
-- what passes all tests is returned as it was read.
pub deserialize_cases : (src : List ℕ) → DecodesInOrder src
unfolding deserialize_header
deserialize_cases src = ground arith
