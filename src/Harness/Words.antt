-- ===== src/Harness/Words.antt =====
-- The little-endian helpers of rtl/alex/verilator_qemu_main.cpp, and the loops of SendCompletion and
-- DmaWrite between bytes and the four data words of a TLP. `none` is what is undefined in the source:
-- a read out of bounds, or a shift by the width of the word.
pub mod Powers
pub mod Decode
pub mod Pack
use qemu_pcie_vip.Base.{
  ℕ, zero, suc, ◌+◌, ◌*◌, ◌/◌, ◌%◌, ◌^◌, List, [], ◌∷◌, ◌&&◌, Option, none, some, ltb, leb, length,
  get_or, get_elem?, set, replicate, min, true, false, bit_or, if◌then◌else◌,
}

-- `v |= p[off + i] << (8 * i)` modulo 2^w, from `i` on for at most `n` more bytes, while they exist.
unfoldable pub le_loop : ℕ → ℕ → ℕ → List ℕ → ℕ → ℕ → ℕ
le_loop w zero i p off v = v
le_loop w (suc n) i p off v = elim (ltb (off + i) (length p)) [
  | false ↦ v
  | true ↦ le_loop w n (i + 1) p off (bit_or v (get_or p (off + i) 0 * 2 ^ (8 * i) % 2 ^ w))
]

unfoldable pub decode_le : List ℕ → ℕ
unfolding le_loop
decode_le p = le_loop 64 8 0 p 0 0

unfoldable pub read_le32 : List ℕ → ℕ → ℕ
unfolding le_loop
read_le32 p off = le_loop 32 4 0 p off 0

unfoldable pub read_le64 : List ℕ → ℕ → ℕ
unfolding le_loop
read_le64 p off = le_loop 64 8 0 p off 0

unfoldable pub read_le16 : List ℕ → ℕ → ℕ
read_le16 p off =
    if leb (off + 2) (length p)
    then bit_or (get_or p off 0) (get_or p (off + 1) 0 * 2 ^ 8) % 2 ^ 16
    else 0

-- `p[off + i] = v >> (8 * i)` for `n` more bytes, from `i` on.
unfoldable pub store_loop : ℕ → ℕ → List ℕ → ℕ → ℕ → List ℕ
store_loop zero i p off v = p
store_loop (suc n) i p off v = store_loop n (i + 1) (set p (off + i) (v / 2 ^ (8 * i) % 256)) off v

unfoldable pub store_le : List ℕ → ℕ → ℕ → ℕ → List ℕ
unfolding store_loop
store_le p off v n = store_loop n 0 p off v

-- A shift by 64 or more, which a length above 8 comes to, is undefined too.
unfoldable pub encode_le : ℕ → ℕ → Option (List ℕ)
unfolding store_loop
encode_le value n = if leb n 8 then some (store_loop n 0 (replicate n 0) 0 value) else none

-- `words[i / 8] |= data[offset + i] << (8 * (i % 8))` for `n` more bytes, from `i` on.
unfoldable pub pack_loop : ℕ → ℕ → List ℕ → ℕ → List ℕ → Option (List ℕ)
pack_loop zero i bytes offset words = some words
pack_loop (suc n) i bytes offset words = elim (get_elem? bytes (offset + i)) [
  | none ↦ none
  | some b ↦
      pack_loop n (i + 1) bytes offset
        (set words (i / 8) (bit_or (get_or words (i / 8) 0) (b * 2 ^ (8 * (i % 8)) % 2 ^ 64)))
]

unfoldable pub pack : List ℕ → ℕ → ℕ → Option (List ℕ)
unfolding pack_loop
pack bytes offset n = pack_loop (min n 32) 0 bytes offset (replicate 4 0)

-- `payload[j] = words[j / 8] >> (8 * (j % 8))` for `n` more bytes, from `j` on.
unfoldable pub unpack_loop : ℕ → ℕ → List ℕ → List ℕ → List ℕ
unpack_loop zero j words payload = payload
unpack_loop (suc n) j words payload =
    unpack_loop n (j + 1) words (set payload j (get_or words (j / 8) 0 / 2 ^ (8 * (j % 8)) % 256))

unfoldable pub unpack : ℕ → List ℕ → List ℕ
unfolding unpack_loop
unpack n words = unpack_loop (min n 32) 0 words (replicate n 0)
