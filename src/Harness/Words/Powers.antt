-- ===== src/Harness/Words/Powers.antt =====
-- Powers of 256 as the shifts of rtl/alex/verilator_qemu_main.cpp write them, and a byte put behind
-- the bytes below it.
use qemu_pcie_vip.Base.{
  ℕ, zero, suc, ◌+◌, ◌*◌, ◌%◌, ◌^◌, ◌≤◌, ◌<◌, ◌≡◌, ◌∙◌, sym, ap, arith, bit_or,
}
use qemu_pcie_vip.Base.Bits.{or_shifted}
use native.Mathlib.Nat.{
  pow-suc, mul-le-mul_right, one-le-pow, pow-le-pow_right, mod-eq_of_lt, mul_assoc,
}

pub pow_pos : (k : ℕ) → 1 ≤ 2 ^ k
pow_pos k = one-le-pow k 2 (omega arith)

pub pow_add : (a b : ℕ) → 2 ^ (a + b) ≡ 2 ^ a * 2 ^ b
pow_add a zero = let e : a + 0 ≡ a = omega arith in ap (λ k. 2 ^ k) e ∙ omega arith
pow_add a (suc b) =
    let e : a + suc b ≡ suc (a + b) = omega arith in
    ap (λ k. 2 ^ k) e
    ∙ pow-suc 2 (a + b)
    ∙ ap (λ x. x * 2) (pow_add a b)
    ∙ mul_assoc (2 ^ a) (2 ^ b) 2
    ∙ ap (λ x. 2 ^ a * x) (sym (pow-suc 2 b))

pub pow_byte : (i : ℕ) → 2 ^ (8 * (i + 1)) ≡ 256 * 2 ^ (8 * i)
pow_byte i = let e : 8 * (i + 1) ≡ 8 + 8 * i = omega arith in ap (λ k. 2 ^ k) e ∙ pow_add 8 (8 * i)

pub byte_room : (b x : ℕ) → b < 256 → b * x + x ≤ 256 * x
byte_room b x h = let e : suc b * x ≤ 256 * x = mul-le-mul_right x (omega arith) in grind arith

-- A byte above the `i` bytes of `v`: the OR is a sum, and fits one byte more.
pub or-byte_above :
    (w i v b : ℕ)
    → 8 * (i + 1) ≤ w
    → v < 2 ^ (8 * i)
    → b < 256
    → (bit_or v (b * 2 ^ (8 * i) % 2 ^ w) ≡ v + b * 2 ^ (8 * i))
      × (v + b * 2 ^ (8 * i) < 2 ^ (8 * (i + 1)))
or-byte_above w i v b hw hv hb =
    let room = byte_room b (2 ^ (8 * i)) hb in
    let next = pow_byte i in
    let top : 2 ^ (8 * (i + 1)) ≤ 2 ^ w = pow-le-pow_right (omega arith) hw in
    let fits : b * 2 ^ (8 * i) % 2 ^ w ≡ b * 2 ^ (8 * i) = mod-eq_of_lt (omega arith) in
    (ap (λ x. bit_or v x) fits ∙ or_shifted (8 * i) v b hv, omega arith)
