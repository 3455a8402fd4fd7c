-- ===== src/Protocol/Bytes.antt =====
-- The byte packing helpers of mini-ics/src/protocol.cpp. A pointer into a buffer is the buffer with
-- an offset; a byte beyond the end, which the callers never touch, reads as 0.
use qemu_pcie_vip.Base.{ℕ, zero, suc, ◌+◌, ◌*◌, ◌/◌, ◌%◌, ◌^◌, List, get_or, set, bit_and, bit_or}

-- `static_cast<std::uint8_t>((v >> (8 * i)) & 0xFF)`
abbrev pub byte_at : ℕ → ℕ → ℕ
byte_at v i = bit_and (v / 2 ^ (8 * i)) 255 % 256

unfoldable pub put_u16 : List ℕ → ℕ → ℕ → List ℕ
put_u16 dst off v = set (set dst off (byte_at v 0)) (off + 1) (byte_at v 1)

unfoldable pub put_u32 : List ℕ → ℕ → ℕ → List ℕ
put_u32 dst off v =
    set (set (set (set dst off (byte_at v 0)) (off + 1) (byte_at v 1)) (off + 2) (byte_at v 2))
      (off + 3) (byte_at v 3)

-- The loop with `n` rounds left, at round `i`.
unfoldable pub put_u64_loop : ℕ → ℕ → List ℕ → ℕ → ℕ → List ℕ
put_u64_loop zero i dst off v = dst
put_u64_loop (suc n) i dst off v = put_u64_loop n (i + 1) (set dst (off + i) (byte_at v i)) off v

unfoldable pub put_u64 : List ℕ → ℕ → ℕ → List ℕ
unfolding put_u64_loop
put_u64 dst off v = put_u64_loop 8 0 dst off v

-- `static_cast<std::uint32_t>(b) << k`
abbrev pub shl32 : ℕ → ℕ → ℕ
shl32 b k = b * 2 ^ k % 2 ^ 32

unfoldable pub get_u16 : List ℕ → ℕ → ℕ
get_u16 src off = bit_or (get_or src off 0) (get_or src (off + 1) 0 * 2 ^ 8) % 2 ^ 16

unfoldable pub get_u32 : List ℕ → ℕ → ℕ
get_u32 src off =
    bit_or
      (bit_or (bit_or (get_or src off 0) (shl32 (get_or src (off + 1) 0) 8))
        (shl32 (get_or src (off + 2) 0) 16))
      (shl32 (get_or src (off + 3) 0) 24)

unfoldable pub get_u64_loop : ℕ → ℕ → List ℕ → ℕ → ℕ → ℕ
get_u64_loop zero i src off v = v
get_u64_loop (suc n) i src off v =
    get_u64_loop n (i + 1) src off (bit_or v (get_or src (off + i) 0 * 2 ^ (8 * i) % 2 ^ 64))

unfoldable pub get_u64 : List ℕ → ℕ → ℕ
unfolding get_u64_loop
get_u64 src off = get_u64_loop 8 0 src off 0
