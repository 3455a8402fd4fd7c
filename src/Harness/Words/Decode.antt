-- ===== src/Harness/Words/Decode.antt =====
-- DecodeLe, ReadLe16, ReadLe32 and ReadLe64 of rtl/alex/verilator_qemu_main.cpp against the number
-- that a list of bytes is in base 256.
use qemu_pcie_vip.Base.{
  ℕ, zero, suc, ◌+◌, ◌*◌, ◌^◌, ◌≤◌, ◌<◌, ◌≡◌, ◌∙◌, inl, inr, refl, ap, arith, List, [], ◌∷◌,
  Bool-cases, All, if◌then◌else◌, leb, ltb, ltb→lt, length, get_or, take, drop, drop_all,
  drop-get_or, All-get_or,
}
use qemu_pcie_vip.Protocol.Types.{IsByte}
use qemu_pcie_vip.Protocol.RoundTrip.Words.{u16_of_sum}
use qemu_pcie_vip.Harness.Words.{le_loop, decode_le, read_le16, read_le32, read_le64}
use qemu_pcie_vip.Harness.Words.Powers.{pow_byte, or-byte_above}

-- The number whose digits in base 256 are the bytes, the lowest first.
abbrev pub le_value : List ℕ → ℕ
le_value [] = 0
le_value (b ∷ bs) = b + 256 * le_value bs

-- The bytes above `v`, with one of them taken off.
shift_in :
    (i v b t : ℕ) → (v + b * 2 ^ (8 * i)) + 2 ^ (8 * (i + 1)) * t ≡ v + 2 ^ (8 * i) * (b + 256 * t)
shift_in i v b t = rw (pow_byte i) (grind arith)

le_loop_lem :
    (w n i : ℕ) (p : List ℕ) (off v : ℕ)
    → All IsByte p
    → 8 * (i + n) ≤ w
    → v < 2 ^ (8 * i)
    → le_loop w n i p off v ≡ v + 2 ^ (8 * i) * le_value (take n (drop (off + i) p))
unfolding le_loop
le_loop_lem w zero i p off v a hw hv = omega arith
le_loop_lem w (suc n) i p off v a hw hv = elim (Bool-cases (ltb (off + i) (length p))) [
  | inr out ↦
      let empty : drop (off + i) p ≡ [] = drop_all (off + i) p (ground arith) in
      rw (out, le_loop, empty) (omega arith)
  | inl inside ↦
      let b = get_or p (off + i) 0 in
      let byte : b < 256 = All-get_or IsByte p (off + i) 0 (omega arith) a in
      let step = or-byte_above w i v b (omega arith) hv byte in
      let first = drop-get_or (off + i) p 0 (ltb→lt (off + i) (length p) inside) in
      let e : off + (i + 1) ≡ off + i + 1 = omega arith in
      rw (inside, le_loop, step.0, first)
        (le_loop_lem w n (i + 1) p off (v + b * 2 ^ (8 * i)) a (omega arith) step.1
          ∙ ap (λ k. v + b * 2 ^ (8 * i) + 2 ^ (8 * (i + 1)) * le_value (take n (drop k p))) e
          ∙ shift_in i v b (le_value (take n (drop (off + i + 1) p))))
]

read_le16_lem :
    (p : List ℕ) (off : ℕ)
    → All IsByte p
    → read_le16 p off ≡ (if leb (off + 2) (length p) then le_value (take 2 (drop off p)) else 0)
unfolding read_le16
read_le16_lem p off a = elim (Bool-cases (leb (off + 2) (length p))) [
  | inr out ↦ rw (out, read_le16) refl
  | inl inside ↦
      let room : off + 2 ≤ length p = ground arith in
      let lo = All-get_or IsByte p off 0 (omega arith) a in
      let hi = All-get_or IsByte p (off + 1) 0 (omega arith) a in
      let two : take 2 (drop off p) ≡ get_or p off 0 ∷ get_or p (off + 1) 0 ∷ [] =
        rw (drop-get_or off p 0 (omega arith), drop-get_or (off + 1) p 0 (omega arith)) refl in
      rw (inside, read_le16, two)
        (u16_of_sum (get_or p off 0) (get_or p (off + 1) 0) lo hi ∙ omega arith)
]

-- DecodeLe, ReadLe32 and ReadLe64 give the number that the bytes are in base 256, the lowest first, as
-- many of 8, 4 and 8 as there are from the offset on; ReadLe16 does when both its bytes are there, and
-- gives 0 otherwise.
pub decode-le_value :
    (p : List ℕ) (off : ℕ)
    → All IsByte p
    → (decode_le p ≡ le_value (take 8 p))
      × (read_le32 p off ≡ le_value (take 4 (drop off p)))
      × (read_le64 p off ≡ le_value (take 8 (drop off p)))
      × (read_le16 p off ≡ (if leb (off + 2) (length p) then le_value (take 2 (drop off p)) else 0))
unfolding decode_le read_le32 read_le64
decode-le_value p off a =
    let e : off + 0 ≡ off = omega arith in
    (
      le_loop_lem 64 8 0 p 0 0 a (omega arith) (omega arith) ∙ omega arith,
      le_loop_lem 32 4 0 p off 0 a (omega arith) (omega arith)
          ∙ ap (λ k. 0 + 2 ^ 0 * le_value (take 4 (drop k p))) e
          ∙ omega arith,
      le_loop_lem 64 8 0 p off 0 a (omega arith) (omega arith)
          ∙ ap (λ k. 0 + 2 ^ 0 * le_value (take 8 (drop k p))) e
          ∙ omega arith,
      read_le16_lem p off a,
    )
