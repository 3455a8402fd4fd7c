-- ===== src/Harness/Dma/Traffic.antt =====
-- What `DmaRead` and `DmaWrite` of rtl/alex/verilator_qemu_main.cpp send to the host.
use qemu_pcie_vip.Base.{
  ℕ, zero, suc, ◌≡◌, ◌∙◌, inl, inr, refl, sym, ap, subst, List, [], ◌∷◌, ◌++◌, append-nil,
  append_assoc, Bool, true, false, Option, none, some, All, Ensures, Bool-cases, Option-cases,
}
use qemu_pcie_vip.Protocol.Types.{dma_read_req, dma_write_req, code}
use qemu_pcie_vip.Server.Requests.{Request}
use qemu_pcie_vip.Endpoint.Defs.{Link}
use qemu_pcie_vip.Endpoint.Traffic.{Sent, response, request, Recording}
use qemu_pcie_vip.Harness.Ports.{Dut, Harness, out, clock_tick}
use qemu_pcie_vip.Harness.Dma.{
  memory_request, serve_read, poll_read, read_rounds, dma_read, serve_write, poll_write,
  write_rounds, dma_write,
}

-- A request of type `type` that expects a response.
abbrev pub IsTransfer : ℕ → Sent → Type 0
IsTransfer type (response h payload) = ⊥
IsTransfer type (request q) = (q.type ≡ type) × (q.expect_response ≡ true)

All-append :
    (type : ℕ) (xs ys : List Sent)
    → All (IsTransfer type) xs
    → All (IsTransfer type) ys
    → All (IsTransfer type) (xs ++ ys)
All-append type [] ys a b = b
All-append type (x ∷ xs) ys a b = (a.0, All-append type xs ys a.1 b)

module _ (d : Dut) (l : Link) (rec : Recording l) where
  -- Only transfers of one type stand in the log behind what was there.
  abbrev pub Extends : ℕ → l.State → l.State → Type 0
  Extends type s s' = (ts : List Sent) × (rec.log s' ≡ rec.log s ++ ts) × All (IsTransfer type) ts

  none_sent : (type : ℕ) (s : l.State) → Extends type s s
  none_sent type s = ([], sym (append-nil (rec.log s)), tt)

  one_sent :
      (q : Request) (s : l.State)
      → q.expect_response ≡ true
      → Extends q.type s (l.send_request_to_host q s).1
  one_sent q s e = (request q ∷ [], rec.log_request q s, ((refl, e), tt))

  both_sent :
      (type : ℕ) (s s₁ s₂ : l.State) → Extends type s s₁ → Extends type s₁ s₂ → Extends type s s₂
  both_sent type s s₁ s₂ (xs, p, a) (ys, q, b) = (
    xs ++ ys,
    q ∙ ap (λ x. x ++ ys) p ∙ append_assoc (rec.log s) xs ys,
    All-append type xs ys a b,
  )

  -- What a call that may read out of bounds sends, when it does not.
  abbrev pub Reads {ℓ} : {A : Type ℓ} → (A → l.State) → l.State → Option A → Type 0
  Reads state s o = Ensures (λ a. Extends (code dma_read_req) s (state a)) o

  then-Reads {ℓ} :
      {A : Type ℓ} (state : A → l.State) (s s₁ : l.State) (o : Option A)
      → Extends (code dma_read_req) s s₁
      → Reads state s₁ o
      → Reads state s o
  then-Reads state s s₁ none e h = tt
  then-Reads state s s₁ (some a) e h = both_sent (code dma_read_req) s s₁ (state a) e h

  serve_read-log :
      (tag now : ℕ) (h : Harness d) (s : l.State) → Reads (λ r. r.1) s (serve_read d l tag now h s)
  unfolding serve_read
  serve_read-log tag now h s = behind_answer _ (
      one_sent
        (memory_request (code dma_read_req) (out d h).rd_req_addr [] (out d h).rd_req_len now) s
        refl)
    where
      behind_answer :
          {s₁ : l.State} (o : Option (Harness d))
          → Extends (code dma_read_req) s s₁
          → Reads {A = Harness d × l.State}
              (λ r. r.1)
              s
              (elim o as (λ x. Option (Harness d × l.State)) [
                | none ↦ none
                | some h₂ ↦ some (h₂, s₁)
              ])
      behind_answer none e = tt
      behind_answer (some h₂) e = e

  poll_read-log :
      (tag now : ℕ) (h : Harness d) (s : l.State) → Reads (λ r. r.1) s (poll_read d l tag now h s)
  unfolding poll_read
  poll_read-log tag now h s = elim (Bool-cases (out d h).rd_req_valid) [
    | inl asks ↦ rw (asks, poll_read) (serve_read-log tag now h s)
    | inr silent ↦ rw (silent, poll_read) (none_sent (code dma_read_req) s)
  ]

  read_rounds-log :
      (rounds tag now : ℕ) (h : Harness d) (s : l.State)
      → Reads (λ r. r.2) s (read_rounds d l rounds tag now h s)
  unfolding read_rounds
  read_rounds-log zero tag now h s = none_sent (code dma_read_req) s
  read_rounds-log (suc rounds) tag now h s =
      elim (Option-cases (poll_read d l tag now (clock_tick d h) s)) [
        | inl fault ↦ rw (fault, read_rounds) tt
        | inr (polled, e) ↦
            let (h₁, s₁) = polled in
            let first : Extends (code dma_read_req) s s₁ =
              subst (Reads (λ r. r.1) s) e (poll_read-log tag now (clock_tick d h) s) in
            elim (Bool-cases (out d h₁).read_status_valid) [
              | inl ended ↦ rw (e, ended, read_rounds) first
              | inr goes_on ↦
                  rw (e, goes_on, read_rounds)
                    (then-Reads (λ r. r.2) s s₁ _ first (read_rounds-log rounds tag now h₁ s₁))
            ]
      ]

  pub dma_read-log :
      (address ram_addr len tag now : ℕ) (h : Harness d) (s : l.State)
      → Reads (λ r. r.2) s (dma_read d l address ram_addr len tag now h s)
  unfolding dma_read
  dma_read-log address ram_addr len tag now h s = started _ _
    where
      started :
          (accepted : Bool) (h₂ : Harness d)
          → Reads {A = Bool × Harness d × l.State}
              (λ r. r.2)
              s
              (elim accepted as (λ x. Option (Bool × Harness d × l.State)) [
                | false ↦ some (false, h₂, s)
                | true ↦ read_rounds d l 2000 tag now h₂ s
              ])
      started false h₂ = none_sent (code dma_read_req) s
      started true h₂ = read_rounds-log 2000 tag now h₂ s

  serve_write-log :
      (now : ℕ) (h : Harness d) (s : l.State)
      → Extends (code dma_write_req) s (serve_write d l now h s).1
  unfolding serve_write
  serve_write-log now h s = one_sent _ s refl

  poll_write-log :
      (now : ℕ) (h : Harness d) (s : l.State)
      → Extends (code dma_write_req) s (poll_write d l now h s).1
  unfolding poll_write
  poll_write-log now h s = elim (Bool-cases (out d h).wr_req_valid) [
    | inl asks ↦ rw (asks, poll_write) (serve_write-log now h s)
    | inr silent ↦ rw (silent, poll_write) (none_sent (code dma_write_req) s)
  ]

  write_rounds-log :
      (rounds now : ℕ) (h : Harness d) (s : l.State)
      → Extends (code dma_write_req) s (write_rounds d l rounds now h s).2
  unfolding write_rounds
  write_rounds-log zero now h s = none_sent (code dma_write_req) s
  write_rounds-log (suc rounds) now h s =
      let first = poll_write-log now (clock_tick d h) s in
      let s₁ = (poll_write d l now (clock_tick d h) s).1 in
      elim (Bool-cases (poll_write d l now (clock_tick d h) s).0) [
        | inr failed ↦ rw (failed, write_rounds) first
        | inl good ↦ elim (Bool-cases (out d (clock_tick d h)).write_status_valid) [
          | inl ended ↦ rw (good, ended, write_rounds) first
          | inr goes_on ↦
              rw (good, goes_on, write_rounds)
                (both_sent (code dma_write_req) s s₁ _ first
                  (write_rounds-log rounds now (clock_tick d h) s₁))
        ]
      ]

  pub dma_write-log :
      (address ram_addr len tag now : ℕ) (h : Harness d) (s : l.State)
      → Extends (code dma_write_req) s (dma_write d l address ram_addr len tag now h s).2
  unfolding dma_write
  dma_write-log address ram_addr len tag now h s = started _ _
    where
      started :
          (accepted : Bool) (h₂ : Harness d)
          → Extends
              (code dma_write_req)
              s
              (elim accepted as (λ x. Bool × Harness d × l.State) [
                | false ↦ (false, h₂, s)
                | true ↦ write_rounds d l 2000 now h₂ s
              ]).2
      started false h₂ = none_sent (code dma_write_req) s
      started true h₂ = write_rounds-log 2000 now h₂ s
