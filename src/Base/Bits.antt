-- ===== src/Base/Bits.antt =====
-- Masks of ones and ORs with a shifted word, as the arithmetic that the source means by them; by
-- recursion on digits, for any sufficient digit count.
use Prim.Native.Nat.{
  ℕ, zero, suc, ◌+◌, ◌*◌, ◌/◌, ◌%◌, ◌^◌, ◌≤◌, ◌<◌, min, max, bit_and, bit_or, digits,
  bit_and-bitwise, bit_or-bitwise,
}
use mathlib.Core.Path.{◌≡◌, refl, ap, ◌∙◌}
use native.Mathlib.Omega.{arith}
use native.Mathlib.Nat.{pow-suc}

-- The mask with `k` ones.
abbrev ones : ℕ → ℕ
ones zero = 0
ones (suc k) = ones k * 2 + 1

-- The low `k` digits.
abbrev low : ℕ → ℕ → ℕ
low zero a = 0
low (suc k) a = low k (a / 2) * 2 + a % 2

low-zero : (k : ℕ) → low k 0 ≡ 0
low-zero zero = refl
low-zero (suc k) = omega (arith, low-zero k)

and_ones : (k count a : ℕ) → a ≤ count → digits (λ _. zero) min count a (ones k) ≡ low k a
and_ones k zero zero h = omega (arith, low-zero k)
and_ones k zero (suc a) h = absurd (omega arith)
and_ones k (suc count) zero h = omega (arith, low-zero k)
and_ones zero (suc count) (suc a) h = omega (arith, and_ones zero count (suc a / 2) (omega arith))
and_ones (suc k) (suc count) (suc a) h =
    let half : (ones k * 2 + 1) / 2 ≡ ones k = omega arith in
    rw half (omega (arith, and_ones k count (suc a / 2) (omega arith)))

pub bit_and-one : (a : ℕ) → bit_and a 1 ≡ a % 2
bit_and-one a = bit_and-bitwise a 1 ∙ and_ones 1 a a (omega arith) ∙ omega arith

pub bit_and_255 : (a : ℕ) → bit_and a 255 ≡ a % 256
bit_and_255 a = bit_and-bitwise a 255 ∙ and_ones 8 a a (omega arith) ∙ omega arith

or_above :
    (k count lo hi : ℕ)
    → lo ≤ count
    → lo < 2 ^ k
    → digits (λ b. b) max count lo (hi * 2 ^ k) ≡ lo + hi * 2 ^ k
or_above k zero lo hi h b = omega arith
or_above k (suc count) zero hi h b = omega arith
or_above zero (suc count) (suc lo) hi h b = absurd (omega arith)
or_above (suc k) (suc count) (suc lo) hi h b =
    let split : hi * 2 ^ suc k ≡ 2 * (hi * 2 ^ k) = omega (arith, ap (◌*◌ hi) (pow-suc 2 k)) in
    let half : hi * 2 ^ suc k / 2 ≡ hi * 2 ^ k = omega arith in
    let rest = or_above k count (suc lo / 2) hi (omega arith) (omega (arith, pow-suc 2 k)) in
    rw half (omega (arith, rest))

-- `lo | (hi << k)` is a sum when `lo` fits `k` bits.
pub or_shifted : (k lo hi : ℕ) → lo < 2 ^ k → bit_or lo (hi * 2 ^ k) ≡ lo + hi * 2 ^ k
or_shifted k lo hi h = bit_or-bitwise lo (hi * 2 ^ k) ∙ or_above k lo lo hi (omega arith) h

pub bit_and_127 : (a : ℕ) → bit_and a 127 ≡ a % 128
bit_and_127 a = bit_and-bitwise a 127 ∙ and_ones 7 a a (omega arith) ∙ omega arith

pub bit_and_4095 : (a : ℕ) → bit_and a 4095 ≡ a % 4096
bit_and_4095 a = bit_and-bitwise a 4095 ∙ and_ones 12 a a (omega arith) ∙ omega arith

or_none : (count a : ℕ) → a ≤ count → digits (λ b. b) max count a 0 ≡ a
or_none zero zero h = refl
or_none zero (suc a) h = absurd (omega arith)
or_none (suc count) zero h = refl
or_none (suc count) (suc a) h = omega (arith, or_none count (suc a / 2) (omega arith))

or_below :
    (k count a lo hi : ℕ)
    → a ≡ hi * 2 ^ k
    → a ≤ count
    → lo < 2 ^ k
    → digits (λ b. b) max count a lo ≡ lo + a
or_below k zero zero lo hi e h b = omega arith
or_below k zero (suc a) lo hi e h b = absurd (omega arith)
or_below k (suc count) zero lo hi e h b = omega arith
or_below zero (suc count) (suc a) zero hi e h b =
    omega (arith, or_none count (suc a / 2) (omega arith))
or_below zero (suc count) (suc a) (suc lo) hi e h b = absurd (omega arith)
or_below (suc k) (suc count) (suc a) lo hi e h b =
    let split : hi * 2 ^ suc k ≡ 2 * (hi * 2 ^ k) = omega (arith, ap (◌*◌ hi) (pow-suc 2 k)) in
    let half : suc a / 2 ≡ hi * 2 ^ k = omega arith in
    let rest =
      or_below k count (suc a / 2) (lo / 2) hi half (omega arith) (omega (arith, pow-suc 2 k)) in
    omega (arith, rest)

-- The same with the shifted word first.
pub shifted_or : (k lo hi : ℕ) → lo < 2 ^ k → bit_or (hi * 2 ^ k) lo ≡ lo + hi * 2 ^ k
shifted_or k lo hi h =
    bit_or-bitwise (hi * 2 ^ k) lo ∙ or_below k (hi * 2 ^ k) (hi * 2 ^ k) lo hi refl (omega arith) h

pub bit_and_u32 : (a : ℕ) → bit_and a 0xffffffff ≡ a % 2 ^ 32
bit_and_u32 a = bit_and-bitwise a 0xffffffff ∙ and_ones 32 a a (omega arith) ∙ omega arith

-- A mask with `k` zeros below leaves zeros there.
and_high : (k count a m : ℕ) → (hi : ℕ) × (digits (λ _. zero) min count a (m * 2 ^ k) ≡ hi * 2 ^ k)
and_high zero count a m = (digits (λ _. zero) min count a (m * 1), omega arith)
and_high (suc k) zero a m = (0, omega arith)
and_high (suc k) (suc count) zero m = (0, omega arith)
and_high (suc k) (suc count) (suc a) m =
    let split : m * 2 ^ suc k ≡ 2 * (m * 2 ^ k) = omega (arith, ap (◌*◌ m) (pow-suc 2 k)) in
    let half : m * 2 ^ suc k / 2 ≡ m * 2 ^ k = omega arith in
    let (hi, rest) = and_high k count (suc a / 2) m in
    let whole : hi * 2 ^ suc k ≡ 2 * (hi * 2 ^ k) = omega (arith, ap (◌*◌ hi) (pow-suc 2 k)) in
    (hi, rw half (omega (arith, rest, whole, split)))

pub bit_and-high : (k a m : ℕ) → (hi : ℕ) × (bit_and a (m * 2 ^ k) ≡ hi * 2 ^ k)
bit_and-high k a m = let (hi, e) = and_high k a a m in (hi, bit_and-bitwise a (m * 2 ^ k) ∙ e)
