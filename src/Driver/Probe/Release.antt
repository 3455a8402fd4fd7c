-- ===== src/Driver/Probe/Release.antt =====
-- What probe and remove of guest/pcie-vip/driver/pcie_vip.c take from the kernel and give back.
use qemu_pcie_vip.Base.{
  ℕ, ◌≡◌, ◌≢◌, ◌⊎◌, ◌∙◌, inl, inr, refl, ap, arith, List, [], ◌∷◌, Bool, true, false, ◌==◌, Option,
  none, some, Bool-cases, if◌then◌else◌,
}
use qemu_pcie_vip.Driver.Probe.Books.{Held, nothing, everything, Books}
use qemu_pcie_vip.Driver.Balance.{taken}
use qemu_pcie_vip.Driver.Probe.{
  Bus, Vip, Probed, release_if, err_vectors, err_dma, with_buffers, with_vectors, with_mask,
  choose_mask, with_regions, with_device, with_memory, probe, remove,
}

module _ (bus : Bus) (bk : Books bus) where
  abbrev pub held : bus.State → Held
  held s = bk.held s

  -- A probe that fails keeps at most the interrupt, which the kernel takes back behind it; one that
  -- succeeds holds everything.
  abbrev pub HasFailed : Probed bus → Type 0
  HasFailed r = (r.0 ≢ 0) × (r.1 ≡ none) × ((i : Bool) × (held r.2 ≡ record nothing { irq = i }))

  abbrev pub HasBound : Probed bus → Type 0
  HasBound r = (v : Vip) × (r.0 ≡ 0) × (r.1 ≡ some v) × (held r.2 ≡ everything v)

  abbrev Ends : Probed bus → Type 0
  Ends r = HasFailed r ⊎ HasBound r

  release_if-held :
      (size : ℕ) (o : Option ℕ) (rest : List (ℕ × ℕ)) (s : bus.State)
      → (held s).live ≡ taken size o rest
      → held (release_if bus size o s) ≡ record (held s) { live = rest }
  unfolding release_if
  release_if-held size none rest s e = λ j. record (held s) { live = e j }
  release_if-held size (some a) rest s e = bk.of_free size a rest s e

  err_dma-HasFailed :
      (ret : ℕ) (cmd completion : Option ℕ) (s : bus.State)
      → ret ≢ 0
      → held s ≡ record {
        vectors = true;
        irq = true;
        file = false;
        live = taken 16 completion (taken 64 cmd []);
      }
      → HasFailed (err_dma bus ret cmd completion s)
  unfolding err_dma err_vectors
  err_dma-HasFailed ret cmd completion s bad e =
      let s₁ = release_if bus 16 completion s in
      let s₂ = release_if bus 64 cmd s₁ in
      let live : Held → List (ℕ × ℕ) = λ h. h.live in
      let empty : List (ℕ × ℕ) → Held → Held = λ rest h. record h { live = rest } in
      let a₁ =
        release_if-held 16 completion (taken 64 cmd []) s (ap live e)
        ∙ ap (empty (taken 64 cmd [])) e in
      let a₂ = release_if-held 64 cmd [] s₁ (ap live a₁) ∙ ap (empty []) a₁ in
      (
        bad,
        refl,
        (true, bk.of_free_vectors s₂ ∙ ap (λ (h : Held). record h { vectors = false }) a₂),
      )

  with_buffers-Ends :
      (cmd completion : Option ℕ) (s : bus.State)
      → held s ≡ record {
        vectors = true;
        irq = true;
        file = false;
        live = taken 16 completion (taken 64 cmd []);
      }
      → Ends (with_buffers bus cmd completion s)
  unfolding with_buffers
  with_buffers-Ends none completion s e =
      inl (err_dma-HasFailed 12 none completion s (λ z. omega arith) e)
  with_buffers-Ends (some cmd) none s e =
      inl (err_dma-HasFailed 12 (some cmd) none s (λ z. omega arith) e)
  with_buffers-Ends (some cmd) (some completion) s e =
      let s₁ = (bus.misc_register s).1 in
      let after : Bool → Held = λ b. if b then record (held s) { file = true } else held s in
      elim (Bool-cases ((bus.misc_register s).0 == 0)) [
        | inl good ↦
            rw (good, with_buffers)
              (inr (
                _,
                refl,
                refl,
                bk.of_register s ∙ ap after good ∙ ap (λ (h : Held). record h { file = true }) e,
              ))
        | inr bad ↦
            rw (bad, with_buffers)
              (inl (
                err_dma-HasFailed (bus.misc_register s).0 (some cmd) (some completion) s₁
                  (λ z. ground arith) (bk.of_register s ∙ ap after bad ∙ e)))
      ]

  with_vectors-Ends :
      (s : bus.State) → held s ≡ record nothing { vectors = true } → Ends (with_vectors bus s)
  unfolding with_vectors err_vectors
  with_vectors-Ends s e =
      let s₁ = (bus.request_irq s).1 in
      let after : Bool → Held = λ b. if b then record (held s) { irq = true } else held s in
      elim (Bool-cases ((bus.request_irq s).0 == 0)) [
        | inl good ↦
            let cmd = (bus.dma_alloc 64 s₁).0 in
            let s₂ = (bus.dma_alloc 64 s₁).1 in
            let taking : ℕ → Option ℕ → Held → Held =
              λ n o h. record h { live = taken n o h.live } in
            let a₁ =
              bk.of_request s ∙ ap after good ∙ ap (λ (h : Held). record h { irq = true }) e in
            let a₂ = bk.of_alloc 64 s₁ ∙ ap (taking 64 cmd) a₁ in
            let a₃ = bk.of_alloc 16 s₂ ∙ ap (taking 16 (bus.dma_alloc 16 s₂).0) a₂ in
            rw (good, with_vectors)
              (with_buffers-Ends cmd (bus.dma_alloc 16 s₂).0 (bus.dma_alloc 16 s₂).1 a₃)
        | inr bad ↦
            let a = bk.of_request s ∙ ap after bad ∙ e in
            rw (bad, with_vectors)
              (inl (
                (λ z. ground arith),
                refl,
                (false, bk.of_free_vectors s₁ ∙ ap (λ (h : Held). record h { vectors = false }) a),
              ))
      ]

  with_mask-Ends : (r : ℕ × bus.State) → held r.1 ≡ nothing → Ends (with_mask bus r)
  unfolding with_mask
  with_mask-Ends (ret, s) e =
      let after : Bool → Held = λ b. if b then record (held s) { vectors = true } else held s in
      elim (Bool-cases (ret == 0)) [
        | inr bad ↦ rw (bad, with_mask) (inl ((λ z. ground arith), refl, (false, e)))
        | inl good ↦ elim (Bool-cases ((bus.alloc_vectors s).0 == 0)) [
          | inl got ↦
              rw (good, got, with_mask)
                (with_vectors-Ends (bus.alloc_vectors s).1 (
                  bk.of_vectors s
                  ∙ ap after got
                  ∙ ap (λ (h : Held). record h { vectors = true }) e))
          | inr bad ↦
              rw (good, bad, with_mask)
                (inl ((λ z. ground arith), refl, (false, bk.of_vectors s ∙ ap after bad ∙ e)))
        ]
      ]

  choose_mask-held : (s : bus.State) → held (choose_mask bus s).1 ≡ held s
  unfolding choose_mask
  choose_mask-held s = elim (Bool-cases ((bus.set_mask 64 s).0 == 0)) [
    | inl good ↦ rw (good, choose_mask) (bk.of_mask 64 s)
    | inr bad ↦ rw (bad, choose_mask) (bk.of_mask 32 (bus.set_mask 64 s).1 ∙ bk.of_mask 64 s)
  ]

  with_regions-Ends : (s : bus.State) → held s ≡ nothing → Ends (with_regions bus s)
  unfolding with_regions
  with_regions-Ends s e = elim (Bool-cases (bus.has_bar0 s)) [
    | inl here ↦
        let s₁ = bus.set_master s in
        rw (here, with_regions)
          (with_mask-Ends (choose_mask bus s₁) (choose_mask-held s₁ ∙ bk.of_master s ∙ e))
    | inr gone ↦ rw (gone, with_regions) (inl ((λ z. omega arith), refl, (false, e)))
  ]

  with_device-Ends : (s : bus.State) → held s ≡ nothing → Ends (with_device bus s)
  unfolding with_device
  with_device-Ends s e =
      let e₁ = bk.of_iomap s ∙ e in
      elim (Bool-cases ((bus.iomap_regions s).0 == 0)) [
        | inl good ↦ rw (good, with_device) (with_regions-Ends (bus.iomap_regions s).1 e₁)
        | inr bad ↦ rw (bad, with_device) (inl ((λ z. ground arith), refl, (false, e₁)))
      ]

  with_memory-Ends : (s : bus.State) → held s ≡ nothing → Ends (with_memory bus s)
  unfolding with_memory
  with_memory-Ends s e =
      let e₁ = bk.of_enable s ∙ e in
      elim (Bool-cases ((bus.enable_device s).0 == 0)) [
        | inl good ↦ rw (good, with_memory) (with_device-Ends (bus.enable_device s).1 e₁)
        | inr bad ↦ rw (bad, with_memory) (inl ((λ z. ground arith), refl, (false, e₁)))
      ]

  probe-Ends : (s : bus.State) → held s ≡ nothing → Ends (probe bus s)
  unfolding probe
  probe-Ends s e =
      let e₁ = bk.of_kzalloc s ∙ e in
      elim (Bool-cases (bus.kzalloc s).0) [
        | inl got ↦ rw (got, probe) (with_memory-Ends (bus.kzalloc s).1 e₁)
        | inr none_left ↦ rw (none_left, probe) (inl ((λ z. omega arith), refl, (false, e₁)))
      ]

  remove-held : (v : Vip) (s : bus.State) → held s ≡ everything v → held (remove bus v s) ≡ nothing
  unfolding remove
  remove-held v s e =
      let s₁ = bus.misc_deregister s in
      let s₂ = bus.free_irq s₁ in
      let s₃ = bus.dma_free 16 v.completion_dma s₂ in
      let s₄ = bus.dma_free 64 v.cmd_dma s₃ in
      let live : Held → List (ℕ × ℕ) = λ h. h.live in
      let empty : List (ℕ × ℕ) → Held → Held = λ rest h. record h { live = rest } in
      let e₁ = bk.of_deregister s ∙ ap (λ (h : Held). record h { file = false }) e in
      let e₂ = bk.of_free_irq s₁ ∙ ap (λ (h : Held). record h { irq = false }) e₁ in
      let e₃ =
        bk.of_free 16 v.completion_dma ((64, v.cmd_dma) ∷ []) s₂ (ap live e₂)
        ∙ ap (empty ((64, v.cmd_dma) ∷ [])) e₂ in
      let e₄ = bk.of_free 64 v.cmd_dma [] s₃ (ap live e₃) ∙ ap (empty []) e₃ in
      bk.of_free_vectors s₄ ∙ ap (λ (h : Held). record h { vectors = false }) e₄

  -- For a kernel whose calls take and give back what they say, and a probe that starts with nothing
  -- held: the probe either fails, with an error, no device, and at most the interrupt still held, or
  -- succeeds, with the vectors, the interrupt, the device file and the two buffers of the bound device
  -- held; a remove of that device then gives all of them back.
  pub probe-remove :
      (s : bus.State)
      → held s ≡ nothing
      → HasFailed (probe bus s)
        ⊎ ((b : HasBound (probe bus s)) × (held (remove bus b.0 (probe bus s).2) ≡ nothing))
  probe-remove s e = elim (probe-Ends s e) [
    | inl failed ↦ inl failed
    | inr bound ↦ inr (bound, remove-held bound.0 (probe bus s).2 bound.3)
  ]
