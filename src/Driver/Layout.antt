-- ===== src/Driver/Layout.antt =====
-- The structures that guest/pcie-vip/driver/pcie_vip.c shares with the device, byte by byte, and the
-- data of a run. A field is little-endian, as cpu_to_le32 and its kin store it.
use qemu_pcie_vip.Base.{
  ℕ, zero, suc, ◌+◌, ◌*◌, ◌%◌, List, [], ◌∷◌, Bool, true, false, ◌&&◌, ◌==◌, set, take, drop,
  replicate, bit_and,
}
use qemu_pcie_vip.Endpoint.Defs.{value_bytes}
use qemu_pcie_vip.Harness.Words.Decode.{le_value}

abbrev pub desc_size : ℕ
desc_size = 32

abbrev pub cpl_size : ℕ
cpl_size = 16

abbrev pub zeros : ℕ → List ℕ
zeros n = replicate n 0

-- The bytes `bs` written from `off` on.
abbrev pub patch : List ℕ → ℕ → List ℕ → List ℕ
patch m off [] = m
patch m off (b ∷ bs) = patch (set m off b) (off + 1) bs

-- A field of `n` bytes.
abbrev pub put_field : List ℕ → ℕ → ℕ → ℕ → List ℕ
put_field m off n v = patch m off (value_bytes n 0 v)

abbrev pub field : List ℕ → ℕ → ℕ → ℕ
field m off n = le_value (take n (drop off m))

-- `desc[0]` and `desc[1]` as they stand before the run.
unfoldable pub descriptors : ℕ → ℕ → ℕ → List ℕ
unfolding value_bytes
descriptors src_dma dst_dma len =
    let m = zeros (2 * desc_size) in
    let m = put_field m 0 8 src_dma in
    let m = put_field m 8 4 0 in
    let m = put_field m 12 2 len in
    let m = set m 14 0 in
    let m = put_field m 16 4 0x100 in
    let m = put_field m 32 8 dst_dma in
    let m = put_field m 40 4 0 in
    let m = put_field m 44 2 len in
    let m = set m 46 1 in let m = set m 47 1 in put_field m 48 4 0x101

-- The test of the two completions in `cpl`.
unfoldable pub completions_good : List ℕ → ℕ → Bool
completions_good cpl len =
    field cpl 0 4 == 0x100
    && field cpl 4 2 == 0
    && field cpl 8 4 == len
    && field cpl 16 4 == 0x101
    && field cpl 20 2 == 0
    && field cpl 24 4 == len

-- `0xa0 + (i & 0x3f)` for `n` bytes from `i` on.
unfoldable pub run_pattern : ℕ → ℕ → List ℕ
run_pattern zero i = []
run_pattern (suc n) i = ((0xa0 + bit_and i 0x3f) % 256) ∷ run_pattern n (i + 1)

-- Whether two buffers agree, byte by byte.
unfoldable pub same_bytes : List ℕ → List ℕ → Bool
same_bytes [] [] = true
same_bytes [] (y ∷ ys) = false
same_bytes (x ∷ xs) [] = false
same_bytes (x ∷ xs) (y ∷ ys) = let rest = same_bytes xs ys in x == y && rest
