-- ===== src/Driver/Passed.antt =====
-- The loop of pcie_vip_run_config in guest/pcie-vip/driver/pcie_vip.c as a relation: when an iteration
-- passes, why one fails, and how many are completed.
use qemu_pcie_vip.Base.{
  ℕ, zero, suc, ◌+◌, ◌*◌, ◌≡◌, ◌≢◌, ◌∙◌, inl, inr, refl, ap, subst, ◌&&◌, ◌↔◌, arith, List, [], ◌∷◌,
  Bool, true, false, ◌==◌, Bool-cases,
}
use qemu_pcie_vip.Driver.Layout.{field, zeros, cpl_size, run_pattern, same_bytes, completions_good}
use qemu_pcie_vip.Driver.Run.{
  Machine, Buffers, eio, etimedout, poll_status, verify, submit, fill, iterate, run_loop,
}

same_bytes-eq : (xs ys : List ℕ) → same_bytes xs ys ≡ true → xs ≡ ys
unfolding same_bytes
same_bytes-eq [] [] e = refl
same_bytes-eq [] (y ∷ ys) e = absurd (ground arith)
same_bytes-eq (x ∷ xs) [] e = absurd (ground arith)
same_bytes-eq (x ∷ xs) (y ∷ ys) e =
    let head : x ≡ y = ground arith in
    let tail : same_bytes xs ys ≡ true = ground arith in
    ap (λ z. z ∷ xs) head ∙ ap (λ zs. y ∷ zs) (same_bytes-eq xs ys tail)

same_bytes_refl : (xs : List ℕ) → same_bytes xs xs ≡ true
unfolding same_bytes
same_bytes_refl [] = refl
same_bytes_refl (x ∷ xs) = let rest = same_bytes_refl xs in ground arith

-- Two completions of full success, under the tags of the two descriptors.
abbrev pub ReportsSuccess : ℕ → List ℕ → Type 0
ReportsSuccess len cpl =
    (field cpl 0 4 ≡ 0x100)
    × (field cpl 4 2 ≡ 0)
    × (field cpl 8 4 ≡ len)
    × (field cpl 16 4 ≡ 0x101)
    × (field cpl 20 2 ≡ 0)
    × (field cpl 24 4 ≡ len)

completions_good_iff :
    (len : ℕ) (cpl : List ℕ) → (completions_good cpl len ≡ true) ↔ ReportsSuccess len cpl
unfolding completions_good
completions_good_iff len cpl =
    six (field cpl 0 4) (field cpl 4 2) (field cpl 8 4) (field cpl 16 4) (field cpl 20 2)
      (field cpl 24 4)
  where
    six :
        (a b c e f g : ℕ)
        → ((a == 0x100 && b == 0 && c == len && e == 0x101 && f == 0 && g == len) ≡ true)
          ↔ ((a ≡ 0x100) × (b ≡ 0) × (c ≡ len) × (e ≡ 0x101) × (f ≡ 0) × (g ≡ len))
    six a b c e f g = (
      λ h. (ground arith, ground arith, ground arith, ground arith, ground arith, ground arith),
      λ h. ground arith,
    )

module _ (mc : Machine) where
  -- Up to `n` reads of DMA_STATUS, with a sleep behind each that is not 0: whether one is 0.
  pub data Polled : ℕ → mc.State → Bool → mc.State → Type 0 where
    idle :
        (n : ℕ) (s : mc.State)
        → (mc.read_reg 0x1058 s).0 ≡ 0
        → Polled (suc n) s true (mc.read_reg 0x1058 s).1
    busy :
        (n : ℕ) (s s' : mc.State) (r : Bool)
        → (mc.read_reg 0x1058 s).0 ≢ 0
        → Polled n (mc.sleep (mc.read_reg 0x1058 s).1) r s'
        → Polled (suc n) s r s'
    given_up : (s : mc.State) → Polled zero s false s

  poll_status-Polled :
      (n : ℕ) (s : mc.State) → Polled n s (poll_status mc n s).0 (poll_status mc n s).1
  unfolding poll_status
  poll_status-Polled zero s = given_up s
  poll_status-Polled (suc n) s = elim (Bool-cases ((mc.read_reg 0x1058 s).0 == 0)) [
    | inl stopped ↦ rw (stopped, poll_status) (idle n s (ground arith))
    | inr runs ↦
        rw (runs, poll_status)
          (busy n s _ _ (λ z. ground arith)
            (poll_status-Polled n (mc.sleep (mc.read_reg 0x1058 s).1)))
  ]

  module _ (len : ℕ) (b : Buffers) where
    -- The pattern in the source, and zeros in the destination and in the completions.
    abbrev pub prepared : mc.State → mc.State
    prepared s =
        mc.store b.src (run_pattern len 0)
          (mc.store b.dst (zeros len) (mc.store b.cpl (zeros (2 * cpl_size)) s))

    -- The doorbell with the tail `tail`, and the wait for the interrupt.
    abbrev pub rung : ℕ → mc.State → Bool × mc.State
    rung tail s = mc.wait_irq (mc.write_reg 0x1054 tail (mc.reinit_completion s))

    abbrev pub IsCopied : mc.State → Type 0
    IsCopied s =
        (mc.load b.dst len s ≡ run_pattern len 0)
        × ReportsSuccess len (mc.load b.cpl (2 * cpl_size) s)

    -- An iteration with the tail `tail`: its result, and the state behind it.
    pub data Iteration (tail : ℕ) (s : mc.State) : ℕ → mc.State → Type 0 where
      never_idle : (s₁ : mc.State) → Polled 50 (prepared s) false s₁ → Iteration tail s etimedout s₁
      silent :
          (s₁ s₂ : mc.State)
          → Polled 50 (prepared s) true s₁
          → rung tail s₁ ≡ (false, s₂)
          → Iteration tail s etimedout s₂
      corrupted :
          (s₁ s₂ : mc.State)
          → Polled 50 (prepared s) true s₁
          → rung tail s₁ ≡ (true, s₂)
          → ¬ IsCopied s₂
          → Iteration tail s eio s₂
      passed :
          (s₁ s₂ : mc.State)
          → Polled 50 (prepared s) true s₁
          → rung tail s₁ ≡ (true, s₂)
          → IsCopied s₂
          → Iteration tail s 0 s₂

    -- The loop from `iter` on, with `n` iterations left: its result and how many are completed. The
    -- tail of an iteration is twice the number of those up to it.
    pub data Loop : ℕ → ℕ → mc.State → ℕ → ℕ → mc.State → Type 0 where
      all_passed : (iter : ℕ) (s : mc.State) → Loop zero iter s 0 iter s
      one_passed :
          (n iter ret done : ℕ) (s s₁ s' : mc.State)
          → Iteration (2 * (iter + 1)) s 0 s₁
          → Loop n (iter + 1) s₁ ret done s'
          → Loop (suc n) iter s ret done s'
      one_failed :
          (n iter ret : ℕ) (s s₁ : mc.State)
          → ret ≢ 0
          → Iteration (2 * (iter + 1)) s ret s₁
          → Loop (suc n) iter s ret iter s₁

    verify-Iteration :
        (tail : ℕ) (s s₁ s₂ : mc.State)
        → Polled 50 (prepared s) true s₁
        → rung tail s₁ ≡ (true, s₂)
        → Iteration tail s (verify mc len b s₂) s₂
    unfolding verify
    verify-Iteration tail s s₁ s₂ p r =
        elim (Bool-cases (same_bytes (mc.load b.dst len s₂) (run_pattern len 0))) [
          | inr differs ↦
              rw (differs, verify)
                (corrupted s₁ s₂ p r
                  (λ c. absurd (ground (arith, same_bytes_refl (run_pattern len 0), c.0, differs))))
          | inl same ↦ elim (Bool-cases (completions_good (mc.load b.cpl (2 * cpl_size) s₂) len)) [
            | inr bad ↦
                rw (same, bad, verify)
                  (corrupted s₁ s₂ p r
                    (λ c. let good = (completions_good_iff len _).1 c.1 in absurd (ground arith)))
            | inl good ↦
                rw (same, good, verify)
                  (passed s₁ s₂ p r (same_bytes-eq _ _ same, (completions_good_iff len _).0 good))
          ]
        ]

    submit-Iteration :
        (tail : ℕ) (s s₁ : mc.State) (got : Bool)
        → Polled 50 (prepared s) got s₁
        → Iteration tail s (submit mc len b tail (got, s₁)).0 (submit mc len b tail (got, s₁)).1
    unfolding submit
    submit-Iteration tail s s₁ false p = never_idle s₁ p
    submit-Iteration tail s s₁ true p = elim (Bool-cases (rung tail s₁).0) [
      | inl rang ↦
          rw (rang, submit)
            (verify-Iteration tail s s₁ (rung tail s₁).1 p (λ j. (rang j, (rung tail s₁).1)))
      | inr quiet ↦
          rw (quiet, submit) (silent s₁ (rung tail s₁).1 p (λ j. (quiet j, (rung tail s₁).1)))
    ]

    iterate-Iteration :
        (tail : ℕ) (s : mc.State)
        → Iteration tail s (iterate mc len b tail s).0 (iterate mc len b tail s).1
    unfolding iterate fill
    iterate-Iteration tail s = submit-Iteration tail s _ _ (poll_status-Polled 50 (prepared s))

    pub run_loop-Loop :
        (n iter : ℕ) (s : mc.State)
        → let (ret, done, s') = run_loop mc n iter len b s in Loop n iter s ret done s'
    unfolding run_loop
    run_loop-Loop zero iter s = all_passed iter s
    run_loop-Loop (suc n) iter s =
        let one = iterate-Iteration (2 * (iter + 1)) s in
        let s₁ = (iterate mc len b (2 * (iter + 1)) s).1 in
        elim (Bool-cases ((iterate mc len b (2 * (iter + 1)) s).0 == 0)) [
          | inr bad ↦ rw (bad, run_loop) (one_failed n iter _ s s₁ (λ z. ground arith) one)
          | inl good ↦
              rw (good, run_loop)
                (one_passed n iter _ _ s s₁ _
                  (subst (λ r. Iteration (2 * (iter + 1)) s r s₁) (ground arith) one)
                  (run_loop-Loop n (iter + 1) s₁))
        ]
