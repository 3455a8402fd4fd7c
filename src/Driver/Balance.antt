-- ===== src/Driver/Balance.antt =====
-- What a run of guest/pcie-vip/driver/pcie_vip.c takes from the kernel, it gives back.
use qemu_pcie_vip.Base.{
  ℕ, zero, suc, ◌+◌, ◌*◌, ◌/◌, ◌%◌, ◌^◌, ◌<◌, ◌≡◌, ◌≢◌, ◌⊎◌, ◌∙◌, inl, inr, refl, sym, ap, arith,
  List, ◌∷◌, Bool, true, false, ◌||◌, ◌==◌, ltb, Option, none, some, Bool-cases,
}
use qemu_pcie_vip.Driver.Layout.{descriptors, desc_size, cpl_size}
use qemu_pcie_vip.Driver.Passed.{Loop, run_loop-Loop}
use qemu_pcie_vip.Driver.Run.{
  Machine, Config, Buffers, einval, enomem, or_default, program, poll_status, iterate, run_loop,
  locked_run, free_if, all_four, run_or_fail, run_config, submit, fill,
}

-- The coherent buffers that are allocated, by size and address, the latest first, and whether the
-- lock of the device is held.
pub record Account : Type 0 where
  pub live : List (ℕ × ℕ)
  pub locked : Bool

abbrev pub taken : ℕ → Option ℕ → List (ℕ × ℕ) → List (ℕ × ℕ)
taken size none live = live
taken size (some a) live = (size, a) ∷ live

-- What the kernel's calls do to the account.
pub record Ledger (mc : Machine) : Type 0 where
  pub account : mc.State → Account
  pub of_alloc :
      (size : ℕ) (s : mc.State)
      → account (mc.dma_alloc size s).1
        ≡ record (account s) { live = taken size (mc.dma_alloc size s).0 (account s).live }
  pub of_free :
      (size a : ℕ) (rest : List (ℕ × ℕ)) (s : mc.State)
      → (account s).live ≡ (size, a) ∷ rest
      → account (mc.dma_free size a s) ≡ record (account s) { live = rest }
  pub of_lock : (s : mc.State) → account (mc.lock s) ≡ record (account s) { locked = true }
  pub of_unlock : (s : mc.State) → account (mc.unlock s) ≡ record (account s) { locked = false }
  pub of_now : (s : mc.State) → account (mc.now_ns s).1 ≡ account s
  pub of_store : (a : ℕ) (bs : List ℕ) (s : mc.State) → account (mc.store a bs s) ≡ account s
  pub of_write : (reg v : ℕ) (s : mc.State) → account (mc.write_reg reg v s) ≡ account s
  pub of_read : (reg : ℕ) (s : mc.State) → account (mc.read_reg reg s).1 ≡ account s
  pub of_sleep : (s : mc.State) → account (mc.sleep s) ≡ account s
  pub of_reinit : (s : mc.State) → account (mc.reinit_completion s) ≡ account s
  pub of_wait : (s : mc.State) → account (mc.wait_irq s).1 ≡ account s

module _ (mc : Machine) (led : Ledger mc) where
  abbrev pub account : mc.State → Account
  account s = led.account s

  program-account : (b : Buffers) (s : mc.State) → account (program mc b s) ≡ account s
  unfolding program
  program-account b s =
      led.of_write 0x105c 1 _
      ∙ led.of_write 0x1050 2 _
      ∙ led.of_write 0x104c (b.cpl / 2 ^ 32) _
      ∙ led.of_write 0x1048 (b.cpl % 2 ^ 32) _
      ∙ led.of_write 0x1044 (b.desc / 2 ^ 32) _
      ∙ led.of_write 0x1040 (b.desc % 2 ^ 32) s

  poll_status-account : (n : ℕ) (s : mc.State) → account (poll_status mc n s).1 ≡ account s
  unfolding poll_status
  poll_status-account zero s = refl
  poll_status-account (suc n) s =
      let s₁ = (mc.read_reg 0x1058 s).1 in
      elim (Bool-cases ((mc.read_reg 0x1058 s).0 == 0)) [
        | inl idle ↦ rw (idle, poll_status) (led.of_read 0x1058 s)
        | inr busy ↦
            rw (busy, poll_status)
              (poll_status-account n (mc.sleep s₁) ∙ led.of_sleep s₁ ∙ led.of_read 0x1058 s)
      ]

  submit-account :
      (len : ℕ) (b : Buffers) (tail : ℕ) (p : Bool × mc.State)
      → account (submit mc len b tail p).1 ≡ account p.1
  unfolding submit
  submit-account len b tail (false, s) = refl
  submit-account len b tail (true, s) =
      let s₁ = mc.write_reg 0x1054 tail (mc.reinit_completion s) in
      let rung =
        led.of_wait s₁ ∙ led.of_write 0x1054 tail (mc.reinit_completion s) ∙ led.of_reinit s in
      elim (Bool-cases (mc.wait_irq s₁).0) [
        | inl rang ↦ rw (rang, submit) rung
        | inr silent ↦ rw (silent, submit) rung
      ]

  fill-account : (len : ℕ) (b : Buffers) (s : mc.State) → account (fill mc len b s) ≡ account s
  unfolding fill
  fill-account len b s = led.of_store b.src _ _ ∙ led.of_store b.dst _ _ ∙ led.of_store b.cpl _ s

  iterate-account :
      (len : ℕ) (b : Buffers) (tail : ℕ) (s : mc.State)
      → account (iterate mc len b tail s).1 ≡ account s
  unfolding iterate
  iterate-account len b tail s =
      submit-account len b tail (poll_status mc 50 (fill mc len b s))
      ∙ poll_status-account 50 (fill mc len b s)
      ∙ fill-account len b s

  -- The end of the loop: with success all iterations are done, with an error fewer.
  abbrev Ended : ℕ → ℕ → ℕ × ℕ × mc.State → Account → Type 0
  Ended iter n r before =
      (account r.2 ≡ before) × (((r.0 ≡ 0) × (r.1 ≡ iter + n)) ⊎ (r.0 ≢ 0) × (r.1 < iter + n))

  run_loop-Ended :
      (n iter len : ℕ) (b : Buffers) (s : mc.State)
      → Ended iter n (run_loop mc n iter len b s) (account s)
  unfolding run_loop
  run_loop-Ended zero iter len b s = (refl, inl (refl, omega arith))
  run_loop-Ended (suc n) iter len b s =
      let one = iterate-account len b (2 * (iter + 1)) s in
      elim (Bool-cases ((iterate mc len b (2 * (iter + 1)) s).0 == 0)) [
        | inr bad ↦ rw (bad, run_loop) (one, inr (λ z. ground arith, omega arith))
        | inl good ↦
            let s₁ = (iterate mc len b (2 * (iter + 1)) s).1 in
            let (same, end) = run_loop-Ended n (iter + 1) len b s₁ in
            let e : iter + 1 + n ≡ iter + suc n = omega arith in
            rw (good, run_loop)
              (
                same ∙ one,
                elim end [
                  | inl (z, all) ↦ inl (z, all ∙ e)
                  | inr (nz, fewer) ↦ inr (nz, omega arith)
                ],
              )
      ]

  -- The state before the first iteration, from the one behind the allocations.
  abbrev pub programmed : ℕ → Buffers → mc.State → mc.State
  programmed len b s =
      program mc b (mc.store b.desc (descriptors b.src b.dst len) (mc.now_ns (mc.lock s)).1)

  -- The loop that a run goes through gives its result, and the count that it reports.
  abbrev pub Looped : ℕ → ℕ → Buffers → mc.State → ℕ → Config → Type 0
  Looped len n b s ret cfg' =
      (s' : mc.State) × Loop mc len b n 0 (programmed len b s) ret cfg'.completed s'

  locked_run-account :
      (len n : ℕ) (b : Buffers) (cfg : Config) (s : mc.State)
      → let (ret, cfg', s') = locked_run mc len n b cfg s in
        (account s' ≡ record (account s) { locked = false })
        × (cfg'.last_status ≡ ret)
        × (((ret ≡ 0) × (cfg'.completed ≡ n)) ⊎ (ret ≢ 0) × (cfg'.completed < n))
        × Looped len n b s ret cfg'
  unfolding locked_run
  locked_run-account len n b cfg s =
      let s₁ = (mc.now_ns (mc.lock s)).1 in
      let s₂ = mc.store b.desc (descriptors b.src b.dst len) s₁ in
      let s₃ = program mc b s₂ in
      let s₄ = (run_loop mc n 0 len b s₃).2 in
      let (same, end) = run_loop-Ended n 0 len b s₃ in
      let before : account s₄ ≡ record (account s) { locked = true } =
        same
        ∙ program-account b s₂
        ∙ led.of_store b.desc (descriptors b.src b.dst len) s₁
        ∙ led.of_now (mc.lock s)
        ∙ led.of_lock s in
      (
        led.of_unlock (mc.now_ns s₄).1
            ∙ ap (λ (a : Account). record a { locked = false }) (led.of_now s₄ ∙ before),
        refl,
        elim end [
          | inl (z, all) ↦ inl (z, all ∙ omega arith)
          | inr (nz, fewer) ↦ inr (nz, omega arith)
        ],
        (s₄, run_loop-Loop mc len b n 0 s₃),
      )

  -- The results of a run whose length and count are within bounds, from the buffers that it has got,
  -- if all four, and the state behind their allocation.
  abbrev pub Finished : ℕ → ℕ → Option Buffers → mc.State → ℕ → Config → Config → Type 0
  Finished len n got s ret cfg cfg' =
      ((got ≡ none) × (ret ≡ enomem) × (cfg' ≡ cfg))
      ⊎ ((b : Buffers) × (got ≡ some b)
          × (cfg'.last_status ≡ ret)
          × (((ret ≡ 0) × (cfg'.completed ≡ n)) ⊎ (ret ≢ 0) × (cfg'.completed < n))
          × Looped len n b s ret cfg')

  run_or_fail-account :
      (len n : ℕ) (o : Option Buffers) (cfg : Config) (s : mc.State)
      → (account s).locked ≡ false
      → let (ret, cfg', s') = run_or_fail mc len n o cfg s in
        (account s' ≡ account s) × Finished len n o s ret cfg cfg'
  unfolding run_or_fail
  run_or_fail-account len n none cfg s idle = (refl, inl (refl, refl, refl))
  run_or_fail-account len n (some b) cfg s idle =
      let (a, last, end, steps) = locked_run-account len n b cfg s in
      (a ∙ ap (λ b. record (account s) { locked = b }) (sym idle), inr (b, refl, last, end, steps))

  free_if-account :
      (size : ℕ) (o : Option ℕ) (rest : List (ℕ × ℕ)) (s : mc.State)
      → (account s).live ≡ taken size o rest
      → account (free_if mc size o s) ≡ record (account s) { live = rest }
  unfolding free_if
  free_if-account size none rest s e = λ j. record (account s) { live = e j }
  free_if-account size (some a) rest s e = led.of_free size a rest s e

  -- The frees of the four buffers, in the opposite order of the allocations.
  freed :
      (len : ℕ) (desc cpl src dst : Option ℕ) (rest : List (ℕ × ℕ)) (s : mc.State)
      → (account s).live
        ≡ taken len dst (taken len src (taken (2 * cpl_size) cpl (taken (2 * desc_size) desc rest)))
      → account (
          free_if mc
            (2 * desc_size)
            desc
            (free_if mc (2 * cpl_size) cpl (free_if mc len src (free_if mc len dst s))))
        ≡ record (account s) { live = rest }
  freed len desc cpl src dst rest s e =
      let s₁ = free_if mc len dst s in
      let s₂ = free_if mc len src s₁ in
      let s₃ = free_if mc (2 * cpl_size) cpl s₂ in
      let a₁ = free_if-account len dst _ s e in
      let a₂ = free_if-account len src _ s₁ (ap (λ (a : Account). a.live) a₁) in
      let a₃ = free_if-account (2 * cpl_size) cpl _ s₂ (ap (λ (a : Account). a.live) a₂) in
      let a₄ = free_if-account (2 * desc_size) desc rest s₃ (ap (λ (a : Account). a.live) a₃) in
      let put : Account → Account = λ a. record a { live = rest } in
      a₄ ∙ ap put a₃ ∙ ap put a₂ ∙ ap put a₁

  -- The part of the run behind its test of the arguments.
  allocated_run :
      (len n : ℕ) (cfg : Config) (s : mc.State)
      → (account s).locked ≡ false
      → let (desc, s₁) = mc.dma_alloc (2 * desc_size) s in
        let (cpl, s₂) = mc.dma_alloc (2 * cpl_size) s₁ in
        let (src, s₃) = mc.dma_alloc len s₂ in
        let (dst, s₄) = mc.dma_alloc len s₃ in
        let (ret, cfg', s₅) = run_or_fail mc len n (all_four mc desc cpl src dst) cfg s₄ in
        (account (
            free_if mc
              (2 * desc_size)
              desc
              (free_if mc (2 * cpl_size) cpl (free_if mc len src (free_if mc len dst s₅))))
          ≡ account s)
        × Finished len n (all_four mc desc cpl src dst) s₄ ret cfg cfg'
  allocated_run len n cfg s idle =
      let (desc, s₁) = mc.dma_alloc (2 * desc_size) s in
      let (cpl, s₂) = mc.dma_alloc (2 * cpl_size) s₁ in
      let (src, s₃) = mc.dma_alloc len s₂ in
      let (dst, s₄) = mc.dma_alloc len s₃ in
      let adds : ℕ → Option ℕ → Account → Account =
        λ size o a. record a { live = taken size o a.live } in
      let a₁ = led.of_alloc (2 * desc_size) s in
      let a₂ = led.of_alloc (2 * cpl_size) s₁ ∙ ap (adds (2 * cpl_size) cpl) a₁ in
      let a₃ = led.of_alloc len s₂ ∙ ap (adds len src) a₂ in
      let a₄ = led.of_alloc len s₃ ∙ ap (adds len dst) a₃ in
      let (same, end) =
        run_or_fail-account len n (all_four mc desc cpl src dst) cfg s₄
          (ap (λ (a : Account). a.locked) a₄ ∙ idle) in
      let s₅ = (run_or_fail mc len n (all_four mc desc cpl src dst) cfg s₄).2 in
      let put : Account → Account = λ a. record a { live = (account s).live } in
      (
        freed len desc cpl src dst (account s).live s₅ (ap (λ (a : Account). a.live) (same ∙ a₄))
            ∙ ap put (same ∙ a₄),
        end,
      )

  -- The four allocations of a run: the buffers, if all succeed, and the state behind them.
  abbrev pub allocated : ℕ → mc.State → Option Buffers × mc.State
  allocated len s =
      let (desc, s₁) = mc.dma_alloc (2 * desc_size) s in
      let (cpl, s₂) = mc.dma_alloc (2 * cpl_size) s₁ in
      let (src, s₃) = mc.dma_alloc len s₂ in
      let (dst, s₄) = mc.dma_alloc len s₃ in (all_four mc desc cpl src dst, s₄)

  -- pcie_vip_run_config, from a state in which the lock is free: whatever fails, the allocated buffers
  -- are those from before and the lock is free again. A length above 4096 or a count above 1024, with
  -- 64 and 1 for zeros, is refused with EINVAL and nothing is done. Otherwise, if an allocation fails,
  -- the result is ENOMEM with the configuration as it was. If none does, the result is reported as the
  -- last status, and it and the reported count are those of a loop of iterations: the count is the
  -- number of those that passed, one after the other from the first, with the device idle within 50
  -- reads, the interrupt received, the destination equal to the pattern and both completions
  -- good. The result is 0 exactly when all passed; else it says why the next one failed, ETIMEDOUT for
  -- a device that stays busy or an interrupt that does not come, and EIO for wrong data or completions.
  pub run_config-account :
      (cfg : Config) (s : mc.State)
      → (account s).locked ≡ false
      → let len = or_default cfg.len 64 in
        let n = or_default cfg.iterations 1 in
        let refused = ltb 4096 len || ltb 1024 n in
        let (ret, cfg', s') = run_config mc cfg s in
        (account s' ≡ account s)
        × (((refused ≡ true) × (ret ≡ einval) × (cfg' ≡ cfg) × (s' ≡ s))
            ⊎ (refused ≡ false)
              × Finished len n (allocated len s).0 (allocated len s).1 ret cfg cfg')
  unfolding run_config
  run_config-account cfg s idle =
      let len = or_default cfg.len 64 in
      let n = or_default cfg.iterations 1 in
      elim (Bool-cases (ltb 4096 len || ltb 1024 n)) [
        | inl refused ↦ rw (refused, run_config) (refl, inl (refl, refl, refl, refl))
        | inr fits ↦
            let (same, end) = allocated_run len n cfg s idle in
            rw (fits, run_config) (same, inr (refl, end))
      ]
