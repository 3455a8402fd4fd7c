-- ===== src/Harness/Words/Pack.antt =====
-- The loops of SendCompletion and DmaWrite in rtl/alex/verilator_qemu_main.cpp: bytes into the four
-- data words of a TLP, and out of them.
use qemu_pcie_vip.Base.{
  ℕ, zero, suc, ◌+◌, ◌-◌, ◌*◌, ◌/◌, ◌%◌, ◌^◌, ◌≤◌, ◌<◌, ◌≡◌, ◌≢◌, ◌⊎◌, ◌∙◌, inl, inr, refl, sym, ap,
  subst, arith, min, List, some, All, length, get_or, set, take, drop, replicate, length-set,
  length-take, length-drop, length-replicate, get_elem?-get_or, get_or-set_self, get_or-take,
  get_or-set_ne, get_or-drop, get_or_ext, eq_cases, lt_cases, All-get_or, bit_or,
}
use qemu_pcie_vip.Protocol.Types.{IsByte}
use qemu_pcie_vip.Harness.Words.{pack_loop, pack, unpack_loop, unpack}
use qemu_pcie_vip.Harness.Words.Powers.{pow_pos, pow_add, or-byte_above}
use native.Mathlib.Nat.{add-mul-div_right, div-eq_of_lt, pow-le-pow_right, mul_assoc}

-- Byte `j` of the data words.
abbrev pub byte_of : List ℕ → ℕ → ℕ
byte_of words j = get_or words (j / 8) 0 / 2 ^ (8 * (j % 8)) % 256

-- A byte put above `lo` is read back, and those below it are what they were.
top_byte :
    (r lo b : ℕ) → lo < 2 ^ (8 * r) → b < 256 → (lo + b * 2 ^ (8 * r)) / 2 ^ (8 * r) % 256 ≡ b
top_byte r lo b hl hb =
    let e : (lo + b * 2 ^ (8 * r)) / 2 ^ (8 * r) ≡ lo / 2 ^ (8 * r) + b =
      add-mul-div_right lo b (pow_pos (8 * r)) in
    let z = div-eq_of_lt hl in omega arith

lower_byte :
    (q r lo b : ℕ) → q < r → (lo + b * 2 ^ (8 * r)) / 2 ^ (8 * q) % 256 ≡ lo / 2 ^ (8 * q) % 256
lower_byte q r lo b h =
    let m = b * 2 ^ (8 * (r - q - 1)) in
    let e : 8 * r ≡ 8 * (r - q - 1) + 8 + 8 * q = omega arith in
    let split : b * 2 ^ (8 * r) ≡ m * 256 * 2 ^ (8 * q) =
      ap (λ k. b * 2 ^ k) e
      ∙ (ap (λ x. b * x)
            (pow_add (8 * (r - q - 1) + 8) (8 * q)
              ∙ ap (λ x. x * 2 ^ (8 * q)) (pow_add (8 * (r - q - 1)) 8))
          ∙ sym (mul_assoc b (2 ^ (8 * (r - q - 1)) * 256) (2 ^ (8 * q)))
          ∙ ap (λ x. x * 2 ^ (8 * q)) (sym (mul_assoc b (2 ^ (8 * (r - q - 1))) 256))) in
    let out : (lo + m * 256 * 2 ^ (8 * q)) / 2 ^ (8 * q) ≡ lo / 2 ^ (8 * q) + m * 256 =
      add-mul-div_right lo (m * 256) (pow_pos (8 * q)) in
    rw (split, out) (omega arith)

-- The first `i` bytes from `offset` on stand in the words, and nothing else.
record Packed (bytes : List ℕ) (offset i : ℕ) (words : List ℕ) : Type 0 where
  four : length words ≡ 4
  digits : (j : ℕ) → j < i → byte_of words j ≡ get_or bytes (offset + j) 0
  room : (k : ℕ) → get_or words k 0 < 2 ^ (8 * (i - 8 * k))

or_in : ℕ → ℕ → List ℕ → List ℕ
or_in i b words =
    set words (i / 8) (bit_or (get_or words (i / 8) 0) (b * 2 ^ (8 * (i % 8)) % 2 ^ 64))

or_in-Packed :
    (bytes : List ℕ) (offset i : ℕ) (words : List ℕ)
    → All IsByte bytes
    → i < 32
    → Packed bytes offset i words
    → Packed bytes offset (i + 1) (or_in i (get_or bytes (offset + i) 0) words)
unfolding or_in
or_in-Packed bytes offset i words a h p =
    let b = get_or bytes (offset + i) 0 in
    let lo = get_or words (i / 8) 0 in
    let byte : b < 256 = All-get_or IsByte bytes (offset + i) 0 (omega arith) a in
    let e : i - 8 * (i / 8) ≡ i % 8 = omega arith in
    let below : lo < 2 ^ (8 * (i % 8)) = subst (λ k. lo < 2 ^ (8 * k)) e (p.room (i / 8)) in
    let step = or-byte_above 64 (i % 8) lo b (omega arith) below byte in
    let here : get_or (or_in i b words) (i / 8) 0 ≡ lo + b * 2 ^ (8 * (i % 8)) =
      get_or-set_self words (i / 8) _ 0 (omega (arith, p.four)) ∙ step.0 in
    let other : (k : ℕ) → k ≢ i / 8 → get_or (or_in i b words) k 0 ≡ get_or words k 0 =
      λ k ne. get_or-set_ne words (i / 8) k _ 0 (λ q. ne (sym q)) in
    record {
      four = length-set words (i / 8) _ ∙ p.four;
      digits = λ j hj. elim (eq_cases (j / 8) (i / 8)) [
        | inr ne ↦
            ap (λ x. x / 2 ^ (8 * (j % 8)) % 256) (other (j / 8) ne) ∙ p.digits j (omega arith)
        | inl same ↦
            ap (λ k. get_or (or_in i b words) k 0 / 2 ^ (8 * (j % 8)) % 256) same
            ∙ ap (λ x. x / 2 ^ (8 * (j % 8)) % 256) here
            ∙ elim (eq_cases j i) [
              | inl e ↦ rw e (top_byte (i % 8) lo b below byte)
              | inr ne ↦
                  lower_byte (j % 8) (i % 8) lo b (omega arith)
                  ∙ ap (λ k. get_or words k 0 / 2 ^ (8 * (j % 8)) % 256) (sym same)
                  ∙ p.digits j (omega arith)
            ]
      ];
      room = λ k. elim (eq_cases k (i / 8)) [
        | inl same ↦
            let e₁ : 8 * (i % 8 + 1) ≡ 8 * (i + 1 - 8 * k) = omega arith in
            subst (λ x. x < 2 ^ (8 * (i + 1 - 8 * k)))
              (sym (ap (λ m. get_or (or_in i b words) m 0) same ∙ here))
              (subst (λ m. lo + b * 2 ^ (8 * (i % 8)) < 2 ^ m) e₁ step.1)
        | inr ne ↦
            let grows : 2 ^ (8 * (i - 8 * k)) ≤ 2 ^ (8 * (i + 1 - 8 * k)) =
              pow-le-pow_right (omega arith) (omega arith) in
            omega (arith, other k ne, p.room k)
      ];
    }

pack_loop-Packed :
    (bytes : List ℕ) (offset n i : ℕ) (words : List ℕ)
    → All IsByte bytes
    → i + n ≤ 32
    → offset + (i + n) ≤ length bytes
    → Packed bytes offset i words
    → (ws : List ℕ) × (pack_loop n i bytes offset words ≡ some ws) × Packed bytes offset (i + n) ws
unfolding pack_loop or_in
pack_loop-Packed bytes offset zero i words a h room p =
    let e : i ≡ i + 0 = omega arith in (words, refl, subst (λ k. Packed bytes offset k words) e p)
pack_loop-Packed bytes offset (suc n) i words a h room p =
    let b = get_or bytes (offset + i) 0 in
    let there = get_elem?-get_or bytes (offset + i) 0 (omega arith) in
    let next = or_in-Packed bytes offset i words a (omega arith) p in
    let (ws, run, full) =
      pack_loop-Packed bytes offset n (i + 1) (or_in i b words) a (omega arith) (omega arith)
        next in
    let e : i + 1 + n ≡ i + suc n = omega arith in
    (ws, rw (there, pack_loop) run, subst (λ k. Packed bytes offset k ws) e full)

-- What the loop out of the words leaves at `k`.
unpack_loop-get_or :
    (n j : ℕ) (words payload : List ℕ) (k : ℕ)
    → j + n ≤ length payload
    → (length (unpack_loop n j words payload) ≡ length payload)
      × (((j ≤ k) × (k < j + n) × (get_or (unpack_loop n j words payload) k 0 ≡ byte_of words k))
          ⊎ ((k < j) ⊎ (j + n ≤ k))
            × (get_or (unpack_loop n j words payload) k 0 ≡ get_or payload k 0))
unfolding unpack_loop
unpack_loop-get_or zero j words payload k h =
    (refl, inr (elim (lt_cases k j) [ inl less ↦ inl less | inr more ↦ inr (omega arith) ], refl))
unpack_loop-get_or (suc n) j words payload k h =
    let payload₁ = set payload j (byte_of words j) in
    let l = length-set payload j (byte_of words j) in
    let (same, rest) = unpack_loop-get_or n (j + 1) words payload₁ k (omega arith) in
    (
      same ∙ l,
      elim rest [
        | inl (lo, hi, e) ↦ inl (omega arith, omega arith, e)
        | inr (out, e) ↦ elim (eq_cases k j) [
          | inl here ↦ inl (
            omega arith,
            omega arith,
            e ∙ rw here (get_or-set_self payload j (byte_of words j) 0 (omega arith)),
          )
          | inr ne ↦ inr (
            elim out [ inl less ↦ inl (omega arith) | inr more ↦ inr (omega arith) ],
            e ∙ get_or-set_ne payload j k _ 0 (λ q. ne (sym q)),
          )
        ]
      ],
    )

abbrev blanks : ℕ → List ℕ
blanks n = replicate n 0

length-blanks : (n : ℕ) → length (blanks n) ≡ n
length-blanks n = length-replicate n 0

abbrev blank_words : List ℕ
blank_words = replicate 4 0

zero_words : (k : ℕ) → get_or blank_words k 0 ≡ 0
zero_words zero = refl
zero_words (suc zero) = refl
zero_words (suc (suc zero)) = refl
zero_words (suc (suc (suc zero))) = refl
zero_words (suc (suc (suc (suc k)))) = refl

unpacked-byte :
    (bytes : List ℕ) (offset n : ℕ) (words : List ℕ)
    → Packed bytes offset n words
    → (i : ℕ) → i < n
    → get_or (unpack_loop n 0 words (blanks n)) i 0 ≡ get_or (take n (drop offset bytes)) i 0
unpacked-byte bytes offset n words full i h =
    let zeros = length-blanks n in
    let given =
      full.digits i h
      ∙ sym (get_or-drop offset bytes i 0)
      ∙ sym (get_or-take n (drop offset bytes) i 0 h) in
    elim (unpack_loop-get_or n 0 words (blanks n) i (omega arith)).1 [
      | inl (_, _, e) ↦ e ∙ given
      | inr (inl low, e) ↦ absurd (omega arith)
      | inr (inr high, e) ↦ absurd (omega arith)
    ]

-- Any 32 bytes at most that the words take in come out again as they were.
pub pack-unpack :
    (bytes : List ℕ) (offset n : ℕ)
    → All IsByte bytes
    → n ≤ 32
    → offset + n ≤ length bytes
    → (words : List ℕ) × (pack bytes offset n ≡ some words)
      × (length words ≡ 4)
      × (unpack n words ≡ take n (drop offset bytes))
unfolding pack unpack
pack-unpack bytes offset n a h room =
    let e : min n 32 ≡ n = omega arith in
    let blank : Packed bytes offset 0 blank_words = record {
      four = refl;
      digits = λ j hj. absurd (omega arith);
      room = λ k. omega (arith, zero_words k, pow_pos (8 * (0 - 8 * k)));
    } in
    let (words, run, full) =
      pack_loop-Packed bytes offset n 0 blank_words a (omega arith) (omega arith) blank in
    let zeros = length-blanks n in
    let zero_n : 0 + n ≡ n = omega arith in
    let sized : length (unpack_loop n 0 words (blanks n)) ≡ n =
      (unpack_loop-get_or n 0 words (blanks n) 0 (omega arith)).0 ∙ zeros in
    (
      words,
      ap (λ k. pack_loop k 0 bytes offset blank_words) e ∙ run,
      full.four,
      ap (λ k. unpack_loop k 0 words (blanks n)) e
          ∙ get_or_ext (unpack_loop n 0 words (blanks n)) (take n (drop offset bytes)) 0
              (omega (arith, sized, length-take n (drop offset bytes), length-drop offset bytes))
              (λ i hi.
                unpacked-byte bytes offset n words
                  (subst (λ k. Packed bytes offset k words) zero_n full) i (omega (arith, sized))),
    )
