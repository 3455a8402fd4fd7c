-- ===== src/Harness/Ring/Round.antt =====
-- A round of the loop of `RunGenericDma` in rtl/alex/verilator_qemu_main.cpp: its descriptor, and what
-- it reports.
use qemu_pcie_vip.Base.{
  ℕ, ◌%◌, ◌^◌, ◌≡◌, ◌⊎◌, ◌∙◌, inl, inr, refl, sym, ap, subst, arith, List, [], ◌∷◌, ◌++◌,
  append-nil, append_assoc, Bool, true, false, ◌==◌, Option, none, some, Ensures, Bool-cases,
  Option-cases, bit_and, if◌then◌else◌,
}
use qemu_pcie_vip.Protocol.Types.{Message, dma_read_req, dma_write_req, code}
use qemu_pcie_vip.Endpoint.Defs.{Link, succeeded, value_bytes}
use qemu_pcie_vip.Endpoint.Traffic.{Sent, request, Recording}
use qemu_pcie_vip.Harness.Ports.{Dut, Harness}
use qemu_pcie_vip.Harness.Dma.{dma_read, dma_write}
use qemu_pcie_vip.Harness.Dma.Traffic.{Extends, dma_read-log, dma_write-log}
use qemu_pcie_vip.Harness.Dma.Confirmed.{ReadDone, WriteDone, dma_read-Confirms, dma_write-Confirms}
use qemu_pcie_vip.Harness.Words.{store_le, store_loop}
use qemu_pcie_vip.Harness.Ring.{
  completion_entry, Descriptor, parse_descriptor, is_runnable, Outcome, transferred, Ring, transfer,
  perform, report, serve_descriptor,
}
use qemu_pcie_vip.Harness.Ring.Trace.{
  acknowledged, is_descriptor, InBounds, concluded, transfer_type, fetch, completion, doorbell,
  interrupt, answer, sent, rung, moved, Confirmed, Performed, was_unread, was_rejected, was_run,
}

succeeded-acknowledged : (rsp : Option Message) → succeeded rsp ≡ acknowledged rsp
succeeded-acknowledged none = refl
succeeded-acknowledged (some m) = refl

is_runnable-InBounds : (t : Descriptor) → is_runnable t ≡ true → InBounds t
unfolding is_runnable
is_runnable-InBounds t e = ground arith

is_runnable-OutOfBounds : (t : Descriptor) → is_runnable t ≡ false → ¬ InBounds t
unfolding is_runnable
is_runnable-OutOfBounds t e b = ground arith

transferred-concluded : (good : Bool) (t : Descriptor) → transferred good t ≡ concluded good t
transferred-concluded true t = refl
transferred-concluded false t = refl

module _ (d : Dut) (l : Link) (rec : Recording l) (r : Ring) where
  -- A call for a transfer, in its log and in its result.
  abbrev Moved : Descriptor → l.State → Bool × Harness d × l.State → Type 0
  Moved t s a = Extends d l rec (transfer_type t) s a.2 × (a.0 ≡ true → Confirmed d l rec r t a.1)

  abbrev converted : Descriptor → Bool × Harness d × l.State → Outcome × Harness d × l.State
  converted t a = (transferred a.0 t, a.1, a.2)

  -- The transfer of a descriptor is the call for it, with its result put into an outcome.
  transfer-moved :
      (t : Descriptor) (h : Harness d) (s : l.State)
      → transfer d l r t h s
        ≡ elim (moved d l rec r t h s) as (λ x. Option (Outcome × Harness d × l.State)) [
          | none ↦ none
          | some a ↦ some (converted t a)
        ]
  unfolding transfer
  transfer-moved t h s = elim (Bool-cases (t.opcode == 0)) [
    | inl reads ↦ rw (reads, transfer) refl
    | inr writes ↦ rw (writes, transfer) refl
  ]

  both {ℓ} :
      {A : Type ℓ} (P Q : A → Type 0) (o : Option A)
      → Ensures P o
      → Ensures Q o
      → Ensures (λ a. P a × Q a) o
  both P Q none p q = tt
  both P Q (some a) p q = (p, q)

  moved-Moved :
      (t : Descriptor) (h : Harness d) (s : l.State) → Ensures (Moved t s) (moved d l rec r t h s)
  moved-Moved t h s = by_opcode (t.opcode == 0)
    where
      ram : ℕ
      ram = t.ram_addr % 2 ^ 16

      tag : ℕ
      tag = t.tag % 2 ^ 8

      by_opcode :
          (b : Bool)
          → Ensures
              (λ a.
                Extends d l rec (if b then code dma_read_req else code dma_write_req) s a.2
                × (a.0 ≡ true → if b then ReadDone d l a.1 else WriteDone d l a.1))
              (elim b as (λ x. Option (Bool × Harness d × l.State)) [
                | true ↦ dma_read d l t.host_addr ram t.length tag r.sim_time h s
                | false ↦ some (dma_write d l t.host_addr ram t.length tag r.sim_time h s)
              ])
      by_opcode true =
          both _ _ (dma_read d l t.host_addr ram t.length tag r.sim_time h s)
            (dma_read-log d l rec t.host_addr ram t.length tag r.sim_time h s)
            (dma_read-Confirms d l t.host_addr ram t.length tag r.sim_time h s)
      by_opcode false = (
        dma_write-log d l rec t.host_addr ram t.length tag r.sim_time h s,
        dma_write-Confirms d l t.host_addr ram t.length tag r.sim_time h s,
      )

  -- A round up to its completion, from the state behind the fetch.
  abbrev Worked : Option Message → Harness d → l.State → Outcome × Harness d × l.State → Type 0
  Worked rsp h s a =
      (ts : List Sent) × (rec.log a.2 ≡ rec.log s ++ ts)
      × Performed d l rec r rsp h s a.0 a.1 a.2 ts

  ran :
      (m : Message) (h : Harness d) (s : l.State)
      → is_descriptor (some m) ≡ true
      → InBounds (parse_descriptor m.payload)
      → Ensures (Worked (some m) h s) (transfer d l r (parse_descriptor m.payload) h s)
  ran m h s whole fine =
      let t = parse_descriptor m.payload in
      subst (Ensures (Worked (some m) h s)) (sym (transfer-moved t h s))
        (go (moved d l rec r t h s) refl (moved-Moved t h s))
    where
      go :
          (o : Option (Bool × Harness d × l.State))
          → moved d l rec r (parse_descriptor m.payload) h s ≡ o
          → Ensures (Moved (parse_descriptor m.payload) s) o
          → Ensures (Worked (some m) h s) (elim o as (λ x. Option (Outcome × Harness d × l.State)) [
            | none ↦ none
            | some a ↦ some (converted (parse_descriptor m.payload) a)
          ])
      go none e p = tt
      go (some (good, h', s')) e ((ts, log, all), sound) = (
        ts,
        log,
        was_run good whole fine e sound (transferred-concluded good (parse_descriptor m.payload))
            log all,
      )

  perform-Performed :
      (rsp : Option Message) (h : Harness d) (s : l.State)
      → Ensures (Worked rsp h s) (perform d l r rsp h s)
  unfolding perform
  perform-Performed none h s =
      ([], sym (append-nil (rec.log s)), was_unread refl refl refl refl refl)
  perform-Performed (some m) h s =
      let quiet = sym (append-nil (rec.log s)) in
      elim (Bool-cases (is_descriptor (some m))) [
        | inr unreadable ↦
            rw (unreadable, perform) ([], quiet, was_unread unreadable refl refl refl refl)
        | inl whole ↦ elim (Bool-cases (is_runnable (parse_descriptor m.payload))) [
          | inr bad ↦
              rw (whole, bad, perform)
                (
                  [],
                  quiet,
                  was_rejected whole (is_runnable-OutOfBounds (parse_descriptor m.payload) bad) refl
                      refl refl refl,
                )
          | inl fine ↦
              rw (whole, fine, perform)
                (ran m h s whole (is_runnable-InBounds (parse_descriptor m.payload) fine))
        ]
      ]

  -- The completion and the interrupt, from the state behind the transfers.
  abbrev pub Reported : ℕ → Outcome → l.State → Bool × l.State → Type 0
  Reported index o s a =
      let q = completion r index o in
      ((acknowledged (answer d l rec r q s) ≡ false)
        × (a ≡ (false, sent d l rec r q s))
        × (rec.log a.1 ≡ rec.log s ++ (request q ∷ [])))
      ⊎ (acknowledged (answer d l rec r q s) ≡ true)
        × (a ≡ (o.status == 0, rung d l rec r o (sent d l rec r q s)))
        × (rec.log a.1 ≡ rec.log s ++ (request q ∷ interrupt r o))

  report-Reported :
      (index : ℕ) (o : Outcome) (s : l.State) → Reported index o s (report d l r index o s)
  unfolding report completion_entry store_le store_loop value_bytes
  report-Reported index o s =
      let q = completion r index o in
      let s₁ = sent d l rec r q s in
      let first = rec.log_request q s in
      let same = succeeded-acknowledged (answer d l rec r q s) in
      elim (Bool-cases (succeeded (answer d l rec r q s))) [
        | inr lost ↦ inl (sym same ∙ lost, rw (lost, report) refl, rw (lost, report) first)
        | inl kept ↦ inr (
          sym same ∙ kept,
          rw (kept, report) refl,
          elim (Bool-cases (bit_and o.flags 1 == 0)) [
            | inl silent ↦ rw (kept, silent, report) first
            | inr rings ↦
                rw (kept, rings, report)
                  (rec.log_request (doorbell r) s₁
                    ∙ ap (λ x. x ++ (request (doorbell r) ∷ [])) first
                    ∙ append_assoc (rec.log s) (request q ∷ []) _)
          ],
        )
      ]

  -- A round, from the state that it starts in: the outcome of its descriptor, and what is reported.
  abbrev pub Round : ℕ → Harness d → l.State → Bool × Harness d × l.State → Type 0
  Round index h s a =
      (o : Outcome) × (ts : List Sent) × (s₁ : l.State) × Performed d l rec r
        (answer d l rec r (fetch r index) s) h (sent d l rec r (fetch r index) s) o a.1 s₁ ts
      × (rec.log s₁ ≡ (rec.log s ++ (request (fetch r index) ∷ [])) ++ ts)
      × Reported index o s₁ (a.0, a.2)

  pub serve_descriptor-Round :
      (index : ℕ) (h : Harness d) (s : l.State)
      → Ensures (Round index h s) (serve_descriptor d l r index h s)
  unfolding serve_descriptor
  serve_descriptor-Round index h s =
      let rsp = answer d l rec r (fetch r index) s in
      let s₁ = sent d l rec r (fetch r index) s in
      elim (Option-cases (perform d l r rsp h s₁)) [
        | inl fault ↦ rw (fault, serve_descriptor) tt
        | inr ((o, h₁, s₂), e) ↦
            let (ts, log, done) : Worked rsp h s₁ (o, h₁, s₂) =
              subst (Ensures (Worked rsp h s₁)) e (perform-Performed rsp h s₁) in
            rw (e, serve_descriptor)
              (
                o,
                ts,
                s₂,
                done,
                log ∙ ap (λ x. x ++ ts) (rec.log_request (fetch r index) s),
                report-Reported index o s₂,
              )
      ]
