-- ===== src/Host/Service.antt =====
-- `ServiceRtlInitiatedTransactions`: what a success says of guest memory.
use qemu_pcie_vip.Base.{
  ℕ, zero, suc, ◌≤◌, ◌≡◌, ◌⊎◌, inl, inr, refl, ap, ◌∙◌, arith, Bool, true, false, ◌&&◌, Option,
  none, some, length, Option-cases, Bool-cases, ==_iff,
}
use qemu_pcie_vip.Socket.Kernel.{Kernel}
use qemu_pcie_vip.Endpoint.Defs.{completion}
use qemu_pcie_vip.Host.Memory.{write}
use qemu_pcie_vip.Host.Client.{
  HostClient, Progress, saw_all, unseen, tick, read_incoming, service_message, service_loop,
  service_rtl_initiated_transactions,
}
use qemu_pcie_vip.Host.Steps.{
  asked, verified-asked, unset, missing, missing_none, missing_wrote, concluded, Stepped,
  service_message_step, read_incoming_memory, quiet, wrote,
}

module _ (k : Kernel) where
  -- A loop that went on to its end stops with the progress it has, or makes one step.
  service_loop_cases :
      (rounds fuel : ℕ) (p p' : Progress) (c c' : HostClient k)
      → service_loop k (suc rounds) fuel p c ≡ some (true, p', c')
      → ((saw_all p ≡ true) × (p' ≡ p) × (c'.memory ≡ c.memory))
        ⊎ ((q : Progress) × (d₀ : HostClient k) × (d : HostClient k) × (d₀.memory ≡ c.memory)
            × Stepped k p d₀ q d
            × (service_loop k rounds fuel q d ≡ some (true, p', c')))
  unfolding service_loop
  service_loop_cases rounds fuel p p' c c' e = elim (Bool-cases (saw_all p)) [
    | inl all ↦ let (same, kept) = finished (rw (all, service_loop) at e) in inl (all, same, kept)
    | inr more ↦ elim (Option-cases (read_incoming k fuel c)) [
      | inl stuck ↦ absurd (cc (rw (more, service_loop, stuck) at e))
      | inr ((none, c₁), got) ↦ absurd (cc (rw (more, service_loop, got) at e))
      | inr ((some msg, c₁), got) ↦ elim (Option-cases (service_message k fuel msg p c₁)) [
        | inl stuck ↦ absurd (cc (rw (more, service_loop, got, stuck) at e))
        | inr ((false, p₁, c₂), served) ↦ absurd (cc (rw (more, service_loop, got, served) at e))
        | inr ((true, p₁, c₂), served) ↦ inr (
          p₁,
          c₁,
          c₂,
          read_incoming_memory k fuel c c₁ msg got,
          service_message_step k fuel msg p p₁ c₁ c₂ served,
          rw (more, service_loop, got, served) at e,
        )
      ]
    ]
  ]
    where
      finished :
          ◌≡◌ {A = Option (Bool × Progress × HostClient k)}
            (some (true, p, c))
            (some (true, p', c'))
          → (p' ≡ p) × (c'.memory ≡ c.memory)
      finished f = ground arith

  -- Each message serves one kind at most.
  service_loop-missing :
      (rounds fuel : ℕ) (p p' : Progress) (c c' : HostClient k)
      → service_loop k rounds fuel p c ≡ some (true, p', c')
      → saw_all p' ≡ true
      → missing p ≤ rounds
  unfolding service_loop
  service_loop-missing zero fuel p p' c c' e all =
      let same : p ≡ p' = ground arith in omega (arith, missing_none p (rw same all))
  service_loop-missing (suc rounds) fuel p p' c c' e all =
      elim (service_loop_cases rounds fuel p p' c c' e) [
        | inl (now, _, _) ↦ omega (arith, missing_none p now)
        | inr (q, d₀, d, same, quiet w b m n, rest) ↦
            omega (arith, n, service_loop-missing rounds fuel q p' d c' rest all)
        | inr (q, d₀, d, same, wrote addr progress done, rest) ↦
            grind (
              arith,
              missing_wrote p q progress,
              service_loop-missing rounds fuel q p' d c' rest all,
            )
      ]

  -- A write that comes after another one leaves too few messages for the other kinds, so memory stays
  -- as the first one left it.
  service_loop_settled :
      (rounds fuel : ℕ) (p p' : Progress) (c c' : HostClient k)
      → service_loop k rounds fuel p c ≡ some (true, p', c')
      → saw_all p' ≡ true
      → p.saw_dma_write ≡ true
      → rounds ≤ missing p
      → (p'.completion_bytes ≡ p.completion_bytes) × (c'.memory ≡ c.memory)
  unfolding service_loop
  service_loop_settled zero fuel p p' c c' e all seen tight = ground arith
  service_loop_settled (suc rounds) fuel p p' c c' e all seen tight =
      elim (service_loop_cases rounds fuel p p' c c' e) [
        | inl (now, same, kept) ↦ (rw same refl, kept)
        | inr (q, d₀, d, same, quiet w b m n, rest) ↦
            let (bs, mem) =
              service_loop_settled rounds fuel q p' d c' rest all (w ∙ seen) (omega arith) in
            (bs ∙ b, mem ∙ m ∙ same)
        | inr (q, d₀, d, same, wrote addr progress done, rest) ↦ absurd (
            omega (
              arith,
              missing_wrote p q progress,
              ap unset seen,
              service_loop-missing rounds fuel q p' d c' rest all,
            ))
      ]

  service_loop_wrote :
      (rounds fuel : ℕ) (p p' : Progress) (c c' : HostClient k)
      → service_loop k rounds fuel p c ≡ some (true, p', c')
      → saw_all p' ≡ true
      → p.saw_dma_write ≡ false
      → rounds ≤ missing p
      → (addr : ℕ) × (write addr p'.completion_bytes c.memory ≡ (true, c'.memory))
  unfolding service_loop
  service_loop_wrote zero fuel p p' c c' e all unseen_ tight = absurd (ground arith)
  service_loop_wrote (suc rounds) fuel p p' c c' e all unseen_ tight =
      elim (service_loop_cases rounds fuel p p' c c' e) [
        | inl (now, same, kept) ↦ absurd (ground arith)
        | inr (q, d₀, d, same, quiet w b m n, rest) ↦
            let (addr, done) =
              service_loop_wrote rounds fuel q p' d c' rest all (w ∙ unseen_) (omega arith) in
            (addr, rw (← same) (rw (← m) done))
        | inr (q, d₀, d, same, wrote addr progress done, rest) ↦
            let (bs, mem) =
              service_loop_settled rounds fuel q p' d c' rest all
                (ap (λ (x : Progress). x.saw_dma_write) progress)
                (omega (arith, missing_wrote p q progress, ap unset unseen_)) in
            (addr, rw bs (rw mem (rw (← same) done)))
      ]

  verdict :
      (a b d : Bool) (c c' : HostClient k)
      → ◌≡◌ {A = Option (Bool × HostClient k)} (some (a && b && d, tick k c)) (some (true, c'))
      → (a ≡ true) × (b ≡ true) × (d ≡ true) × (c'.memory ≡ c.memory)
  verdict a b d c c' e = ground arith

  -- When ServiceRtlInitiatedTransactions returns true, guest memory has changed by exactly one DMA
  -- write, of the 16 bytes that the endpoint sends as its completion, at an address where all of them
  -- lie in the memory: nothing else that arrived, in whatever order, has touched it.
  pub service_verified :
      (fuel : ℕ) (c c' : HostClient k)
      → service_rtl_initiated_transactions k fuel c ≡ some (true, c')
      → (addr : ℕ) × (write addr completion c.memory ≡ (true, c'.memory))
  unfolding service_rtl_initiated_transactions
  service_verified fuel c c' e = elim (Option-cases (service_loop k 3 fuel unseen c)) [
    | inl stuck ↦ absurd (cc (rw (stuck, service_rtl_initiated_transactions) at e))
    | inr ((false, p, c₁), ran) ↦ absurd (cc (rw (ran, service_rtl_initiated_transactions) at e))
    | inr ((true, p, c₁), ran) ↦
        let (all, sized, right, kept) =
          verdict _ _ _ c₁ c' (rw (ran, service_rtl_initiated_transactions) at e) in
        let size : length p.completion_bytes ≡ 16 = (==_iff _ _).0 sized in
        let bytes : p.completion_bytes ≡ completion =
          verified-asked 0 p.completion_bytes right ∙ ap (asked 0) size in
        concluded c.memory p.completion_bytes c₁.memory c'.memory bytes kept
          (service_loop_wrote 3 fuel unseen p c c₁ ran all refl (omega arith))
  ]
