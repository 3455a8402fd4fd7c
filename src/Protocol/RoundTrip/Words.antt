-- ===== src/Protocol/RoundTrip/Words.antt =====
-- The words of protocol.cpp: joining bytes by shifts and ORs, against taking them out.
use qemu_pcie_vip.Base.{ℕ, ◌+◌, ◌*◌, ◌/◌, ◌%◌, ◌^◌, ◌<◌, ◌≡◌, ◌∙◌, arith, List, ◌∷◌, bit_or}
use qemu_pcie_vip.Base.Bits.{or_shifted, bit_and_255}
use qemu_pcie_vip.Protocol.Bytes.{byte_at, shl32}

pub byte_at_lem : (v i : ℕ) → byte_at v i ≡ v / 2 ^ (8 * i) % 256
byte_at_lem v i = omega (arith, bit_and_255 (v / 2 ^ (8 * i)))

pub byte_at-lt : (v i : ℕ) → byte_at v i < 256
byte_at-lt v i = omega arith

pub or_byte :
    (k acc b m : ℕ) → acc < 2 ^ k → b * 2 ^ k < m → bit_or acc (b * 2 ^ k % m) ≡ acc + b * 2 ^ k
or_byte k acc b m h fits =
    let e : b * 2 ^ k % m ≡ b * 2 ^ k = grind arith in rw e (or_shifted k acc b h)

abbrev pub u16_of : ℕ → ℕ → ℕ
u16_of a b = bit_or a (b * 2 ^ 8) % 2 ^ 16

abbrev pub u32_of : ℕ → ℕ → ℕ → ℕ → ℕ
u32_of a b c d = bit_or (bit_or (bit_or a (shl32 b 8)) (shl32 c 16)) (shl32 d 24)

abbrev pub or64 : ℕ → ℕ → ℕ → ℕ
or64 acc b k = bit_or acc (b * 2 ^ k % 2 ^ 64)

pub u16_of_sum : (a b : ℕ) → a < 256 → b < 256 → u16_of a b ≡ a + b * 256
u16_of_sum a b ha hb = omega (arith, or_shifted 8 a b ha)

pub u32_of_sum :
    (a b c d : ℕ)
    → a < 256
    → b < 256
    → c < 256
    → d < 256
    → u32_of a b c d ≡ a + b * 2 ^ 8 + c * 2 ^ 16 + d * 2 ^ 24
u32_of_sum a b c d ha hb hc hd = rw (
  or_byte 8 a b (2 ^ 32) ha (omega arith),
  or_byte 16 (a + b * 2 ^ 8) c (2 ^ 32) (omega arith) (omega arith),
  or_byte 24 (a + b * 2 ^ 8 + c * 2 ^ 16) d (2 ^ 32) (omega arith) (omega arith),
)

abbrev pub u64_of : ℕ → ℕ → ℕ → ℕ → ℕ → ℕ → ℕ → ℕ → ℕ
u64_of a b c d e f g h =
    or64 (or64 (or64 (or64 (or64 (or64 (or64 (or64 0 a 0) b 8) c 16) d 24) e 32) f 40) g 48) h 56

pub u64_of_sum :
    (a b c d e f g h : ℕ)
    → a < 256
    → b < 256
    → c < 256
    → d < 256
    → e < 256
    → f < 256
    → g < 256
    → h < 256
    → u64_of a b c d e f g h
      ≡ a + b * 2 ^ 8 + c * 2 ^ 16 + d * 2 ^ 24 + e * 2 ^ 32 + f * 2 ^ 40 + g * 2 ^ 48 + h * 2 ^ 56
u64_of_sum a b c d e f g h ha hb hc hd he hf hg hh =
    rw
      (
        or_byte 0 0 a (2 ^ 64) (omega arith) (omega arith),
        or_byte 8 (0 + a * 1) b (2 ^ 64) (omega arith) (omega arith),
        or_byte 16 (0 + a * 1 + b * 2 ^ 8) c (2 ^ 64) (omega arith) (omega arith),
        or_byte 24 (0 + a * 1 + b * 2 ^ 8 + c * 2 ^ 16) d (2 ^ 64) (omega arith) (omega arith),
        or_byte 32 (0 + a * 1 + b * 2 ^ 8 + c * 2 ^ 16 + d * 2 ^ 24) e (2 ^ 64) (omega arith)
            (omega arith),
        or_byte 40 (0 + a * 1 + b * 2 ^ 8 + c * 2 ^ 16 + d * 2 ^ 24 + e * 2 ^ 32) f (2 ^ 64)
            (omega arith) (omega arith),
        or_byte 48 (0 + a * 1 + b * 2 ^ 8 + c * 2 ^ 16 + d * 2 ^ 24 + e * 2 ^ 32 + f * 2 ^ 40) g
            (2 ^ 64) (omega arith) (omega arith),
        or_byte 56
            (0 + a * 1 + b * 2 ^ 8 + c * 2 ^ 16 + d * 2 ^ 24 + e * 2 ^ 32 + f * 2 ^ 40 + g * 2 ^ 48)
            h (2 ^ 64) (omega arith) (omega arith),
      )
      (omega arith)

pub u16_bytes : (v : ℕ) → v < 2 ^ 16 → u16_of (byte_at v 0) (byte_at v 1) ≡ v
u16_bytes v h = omega (
  arith,
  u16_of_sum (byte_at v 0) (byte_at v 1) (byte_at-lt v 0) (byte_at-lt v 1),
  bit_and_255 (v / 2 ^ (8 * 0)),
  bit_and_255 (v / 2 ^ (8 * 1)),
)

pub u32_bytes :
    (v : ℕ) → v < 2 ^ 32 → u32_of (byte_at v 0) (byte_at v 1) (byte_at v 2) (byte_at v 3) ≡ v
u32_bytes v h = omega (
  arith,
  u32_of_sum (byte_at v 0) (byte_at v 1) (byte_at v 2) (byte_at v 3) (byte_at-lt v 0)
      (byte_at-lt v 1) (byte_at-lt v 2) (byte_at-lt v 3),
  byte_at_lem v 0,
  byte_at_lem v 1,
  byte_at_lem v 2,
  byte_at_lem v 3,
)

pub u64_bytes :
    (v : ℕ)
    → v < 2 ^ 64
    → u64_of
        (byte_at v 0)
        (byte_at v 1)
        (byte_at v 2)
        (byte_at v 3)
        (byte_at v 4)
        (byte_at v 5)
        (byte_at v 6)
        (byte_at v 7)
      ≡ v
u64_bytes v h = omega (
  arith,
  u64_of_sum (byte_at v 0) (byte_at v 1) (byte_at v 2) (byte_at v 3) (byte_at v 4) (byte_at v 5)
      (byte_at v 6) (byte_at v 7) (byte_at-lt v 0) (byte_at-lt v 1) (byte_at-lt v 2)
      (byte_at-lt v 3) (byte_at-lt v 4) (byte_at-lt v 5) (byte_at-lt v 6) (byte_at-lt v 7),
  byte_at_lem v 0,
  byte_at_lem v 1,
  byte_at_lem v 2,
  byte_at_lem v 3,
  byte_at_lem v 4,
  byte_at_lem v 5,
  byte_at_lem v 6,
  byte_at_lem v 7,
)

-- The bytes of a word in front of a list.
abbrev pub cat2 : ℕ → List ℕ → List ℕ
cat2 v r = byte_at v 0 ∷ byte_at v 1 ∷ r

abbrev pub cat4 : ℕ → List ℕ → List ℕ
cat4 v r = byte_at v 0 ∷ byte_at v 1 ∷ byte_at v 2 ∷ byte_at v 3 ∷ r

abbrev pub cat8 : ℕ → List ℕ → List ℕ
cat8 v r =
    byte_at v 0
    ∷ byte_at v 1
    ∷ byte_at v 2
    ∷ byte_at v 3
    ∷ byte_at v 4
    ∷ byte_at v 5
    ∷ byte_at v 6
    ∷ byte_at v 7
    ∷ r

byte_of : (v i b : ℕ) → v / 2 ^ (8 * i) % 256 ≡ b → byte_at v i ≡ b
byte_of v i b e = byte_at_lem v i ∙ e

pub cat2_of : (a b : ℕ) (r : List ℕ) → a < 256 → b < 256 → cat2 (u16_of a b) r ≡ a ∷ b ∷ r
cat2_of a b r ha hb =
    let v = u16_of a b in
    let s = u16_of_sum a b ha hb in
    λ j. byte_of v 0 a (omega (arith, s)) j ∷ byte_of v 1 b (omega (arith, s)) j ∷ r

pub cat4_of :
    (a b c d : ℕ) (r : List ℕ)
    → a < 256
    → b < 256
    → c < 256
    → d < 256
    → cat4 (u32_of a b c d) r ≡ a ∷ b ∷ c ∷ d ∷ r
cat4_of a b c d r ha hb hc hd =
    let v = u32_of a b c d in
    let s = u32_of_sum a b c d ha hb hc hd in
    λ j.
      byte_of v 0 a (omega (arith, s)) j
      ∷ byte_of v 1 b (omega (arith, s)) j
      ∷ byte_of v 2 c (omega (arith, s)) j
      ∷ byte_of v 3 d (omega (arith, s)) j
      ∷ r

pub cat8_of :
    (a b c d e f g h : ℕ) (r : List ℕ)
    → a < 256
    → b < 256
    → c < 256
    → d < 256
    → e < 256
    → f < 256
    → g < 256
    → h < 256
    → cat8 (u64_of a b c d e f g h) r ≡ a ∷ b ∷ c ∷ d ∷ e ∷ f ∷ g ∷ h ∷ r
cat8_of a b c d e f g h r ha hb hc hd he hf hg hh =
    let v = u64_of a b c d e f g h in
    let s = u64_of_sum a b c d e f g h ha hb hc hd he hf hg hh in
    λ j.
      byte_of v 0 a (omega (arith, s)) j
      ∷ byte_of v 1 b (omega (arith, s)) j
      ∷ byte_of v 2 c (omega (arith, s)) j
      ∷ byte_of v 3 d (omega (arith, s)) j
      ∷ byte_of v 4 e (omega (arith, s)) j
      ∷ byte_of v 5 f (omega (arith, s)) j
      ∷ byte_of v 6 g (omega (arith, s)) j
      ∷ byte_of v 7 h (omega (arith, s)) j
      ∷ r

pub u16_of-lt : (a b : ℕ) → a < 256 → b < 256 → u16_of a b < 2 ^ 16
u16_of-lt a b ha hb = omega (arith, u16_of_sum a b ha hb)

pub u32_of-lt : (a b c d : ℕ) → a < 256 → b < 256 → c < 256 → d < 256 → u32_of a b c d < 2 ^ 32
u32_of-lt a b c d ha hb hc hd = omega (arith, u32_of_sum a b c d ha hb hc hd)

pub u64_of-lt :
    (a b c d e f g h : ℕ)
    → a < 256
    → b < 256
    → c < 256
    → d < 256
    → e < 256
    → f < 256
    → g < 256
    → h < 256
    → u64_of a b c d e f g h < 2 ^ 64
u64_of-lt a b c d e f g h ha hb hc hd he hf hg hh =
    omega (arith, u64_of_sum a b c d e f g h ha hb hc hd he hf hg hh)
