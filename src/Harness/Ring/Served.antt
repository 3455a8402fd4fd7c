-- ===== src/Harness/Ring/Served.antt =====
-- `RunGenericDma` of rtl/alex/verilator_qemu_main.cpp follows the relation of Harness/Ring/Trace.
use qemu_pcie_vip.Base.{
  ℕ, zero, suc, ◌+◌, ◌-◌, ◌≡◌, ◌⊎◌, ◌∙◌, inl, inr, refl, sym, ap, subst, arith, List, [], ◌∷◌, ◌++◌,
  append-nil, append_assoc, Bool, true, false, Ensures, Ensures-mono, Bool-cases, Option-cases,
  if◌then◌else◌,
}
use qemu_pcie_vip.Endpoint.Defs.{Link}
use qemu_pcie_vip.Endpoint.Traffic.{Sent, request, Recording}
use qemu_pcie_vip.Harness.Ports.{Dut, Harness}
use qemu_pcie_vip.Harness.Ring.{
  Outcome, Ring, serve_descriptor, ring_loop, ring_refused, run_generic_dma,
}
use qemu_pcie_vip.Harness.Ring.Trace.{
  fetch, completion, block, interrupt, Refused, Served, finished, served, failed, unacknowledged,
}
use qemu_pcie_vip.Harness.Ring.Round.{Round, serve_descriptor-Round}

joined :
    (before ts after : List Sent) (f c : Sent)
    → ((before ++ (f ∷ [])) ++ ts) ++ (c ∷ after) ≡ before ++ ((f ∷ (ts ++ (c ∷ []))) ++ after)
joined before ts after f c =
    append_assoc (before ++ (f ∷ [])) ts (c ∷ after)
    ∙ append_assoc before (f ∷ []) (ts ++ (c ∷ after))
    ∙ ap (λ x. before ++ (f ∷ x)) (sym (append_assoc ts (c ∷ []) after))

ring_refused_cases :
    (r : Ring) (tail head : ℕ)
    → ((ring_refused r tail head ≡ true) × Refused r tail head)
      ⊎ (ring_refused r tail head ≡ false) × ¬ Refused r tail head
ring_refused_cases r tail head = elim (Bool-cases (ring_refused r tail head)) [
  | inl refused ↦ inl (refused, ground arith)
  | inr fits ↦ inr (fits, λ x. ground arith)
]

module _ (d : Dut) (l : Link) (rec : Recording l) (r : Ring) where
  abbrev pub Ran : ℕ → ℕ → Harness d → l.State → Bool × Harness d × l.State → Type 0
  Ran n index h s a =
      (trace : List Sent) × (rec.log a.2 ≡ rec.log s ++ trace)
      × Served d l rec r n index h s trace a.0 a.1 a.2

  -- The log behind a round whose completion is followed by `after`.
  round_log :
      (index : ℕ) (o : Outcome) (ts after : List Sent) (s s₁ s₂ : l.State)
      → rec.log s₁ ≡ (rec.log s ++ (request (fetch r index) ∷ [])) ++ ts
      → rec.log s₂ ≡ rec.log s₁ ++ (request (completion r index o) ∷ after)
      → rec.log s₂ ≡ rec.log s ++ (block r index o ts ++ after)
  round_log index o ts after s s₁ s₂ before end =
      let c = request (completion r index o) in
      end
      ∙ ap (λ x. x ++ (c ∷ after)) before
      ∙ joined (rec.log s) ts after (request (fetch r index)) c

  stopped :
      (n index : ℕ) (h h₁ : Harness d) (s s₁ : l.State)
      → Round d l rec r index h s (false, h₁, s₁)
      → Ran (suc n) index h s (false, h₁, s₁)
  stopped n index h h₁ s s₁ (o, ts, s₂, done, before, inl (lost, same, log)) = (
    block r index o ts,
    round_log index o ts [] s s₂ s₁ before log
        ∙ ap (λ x. rec.log s ++ x) (append-nil (block r index o ts)),
    subst (λ x. Served d l rec r (suc n) index h s (block r index o ts) false h₁ x)
        (sym (ap (λ (a : Bool × l.State). a.1) same))
        (unacknowledged n index h h₁ s s₂ o ts done lost),
  )
  stopped n index h h₁ s s₁ (o, ts, s₂, done, before, inr (kept, same, log)) =
      let stop = ap (λ (a : Bool × l.State). a.0) same in
      (
        block r index o ts ++ interrupt r o,
        round_log index o ts (interrupt r o) s s₂ s₁ before log,
        subst
            (λ x.
              Served d l rec r (suc n) index h s (block r index o ts ++ interrupt r o) false h₁ x)
            (sym (ap (λ (a : Bool × l.State). a.1) same))
            (failed n index h h₁ s s₂ o ts done kept (λ z. ground arith)),
      )

  -- The rest of the loop behind a round that goes on.
  continued :
      (n index : ℕ) (h h₁ : Harness d) (s s₁ : l.State)
      → Round d l rec r index h s (true, h₁, s₁)
      → (a : Bool × Harness d × l.State) → Ran n (index + 1) h₁ s₁ a
      → Ran (suc n) index h s a
  continued n index h h₁ s s₁ (o, ts, s₂, done, before, inl (lost, same, log)) a rest =
      let go = ap (λ (a : Bool × l.State). a.0) same in absurd (ground arith)
  continued n index h h₁ s s₁ (o, ts, s₂, done, before, inr (kept, same, log)) (good, h', s')
        (rest, end, steps) =
      let go = ap (λ (a : Bool × l.State). a.0) same in
      (
        (block r index o ts ++ interrupt r o) ++ rest,
        end
            ∙ ap (λ x. x ++ rest) (round_log index o ts (interrupt r o) s s₂ s₁ before log)
            ∙ append_assoc (rec.log s) (block r index o ts ++ interrupt r o) rest,
        served n index h h₁ h' s s₂ s' o ts rest good done kept (ground arith) (
            subst (λ x. Served d l rec r n (index + 1) h₁ x rest good h' s')
              (ap (λ (a : Bool × l.State). a.1) same) steps),
      )

  ring_loop-Served :
      (n index : ℕ) (h : Harness d) (s : l.State)
      → Ensures (Ran n index h s) (ring_loop d l r n index h s)
  unfolding ring_loop
  ring_loop-Served zero index h s = ([], sym (append-nil (rec.log s)), finished index h s)
  ring_loop-Served (suc n) index h s = elim (Option-cases (serve_descriptor d l r index h s)) [
    | inl fault ↦ rw (fault, ring_loop) tt
    | inr ((false, h₁, s₁), e) ↦
        rw (e, ring_loop)
          (stopped n index h h₁ s s₁ (
            subst (Ensures (Round d l rec r index h s)) e
              (serve_descriptor-Round d l rec r index h s)))
    | inr ((true, h₁, s₁), e) ↦
        rw (e, ring_loop)
          (Ensures-mono _ _ (ring_loop d l r n (index + 1) h₁ s₁)
            (continued n index h h₁ s s₁ (
              subst (Ensures (Round d l rec r index h s)) e
                (serve_descriptor-Round d l rec r index h s)))
            (ring_loop-Served n (index + 1) h₁ s₁))
  ]

  -- RunGenericDma, when nothing is read out of bounds. Where the count is 0 or above 1024, or the tail
  -- lies before the head or more than the count behind it, it fails and does nothing. Otherwise it
  -- serves the descriptors from the head up to the tail in order. For each, it sends the fetch,
  -- transfers of the direction that it names, only if it is in bounds, the completion in its own slot
  -- with its index, and, if that is acknowledged, the interrupt that the descriptor asks for. The
  -- completion says, for a descriptor that was run, status 0 and its length if DmaRead or DmaWrite
  -- returned true, which it does only when the model says that it is done without an error, and
  -- else 1 and no bytes; for one out of bounds, 6; and where the fetch gave no descriptor,
  -- the status of its response, 1 without one. The next descriptor is served exactly when
  -- the completion is acknowledged and its status is 0; otherwise nothing is sent for those behind it.
  -- The head moves up to the tail exactly when all succeeded, and stays otherwise.
  pub run_generic_dma-Served :
      (tail head : ℕ) (h : Harness d) (s : l.State)
      → Ensures
          (λ a.
            let (good, head', h', s') = a in
            (Refused r tail head × (good ≡ false) × (head' ≡ head) × (h' ≡ h) × (s' ≡ s))
            ⊎ (¬ Refused r tail head)
              × (head' ≡ (if good then tail else head))
              × Ran (tail - head) head h s (good, h', s'))
          (run_generic_dma d l r tail head h s)
  unfolding run_generic_dma
  run_generic_dma-Served tail head h s = elim (ring_refused_cases r tail head) [
    | inl (refused, why) ↦ rw (refused, run_generic_dma) (inl (why, refl, refl, refl, refl))
    | inr (fits, why) ↦ elim (Option-cases (ring_loop d l r (tail - head) head h s)) [
      | inl fault ↦ rw (fits, fault, run_generic_dma) tt
      | inr ((good, h₁, s₁), e) ↦
          rw (fits, e, run_generic_dma)
            (inr (
              why,
              refl,
              subst (Ensures (Ran (tail - head) head h s)) e
                  (ring_loop-Served (tail - head) head h s),
            ))
    ]
  ]
