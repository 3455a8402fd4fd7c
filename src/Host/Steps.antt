-- ===== src/Host/Steps.antt =====
-- One message of `ServiceRtlInitiatedTransactions`: what it does to the progress and to memory.
use qemu_pcie_vip.Base.{
  ℕ, zero, suc, ◌+◌, ◌%◌, ◌≤◌, ◌≡◌, inl, inr, refl, sym, ap, ◌∙◌, arith, List, [], ◌∷◌, Bool, true,
  false, ◌==◌, Option, none, some, length, Option-cases, Bool-cases, ==_iff, Ensures,
}
use qemu_pcie_vip.Protocol.Types.{Header, Message, dma_read_req, dma_write_req, msi_x, has_type}
use qemu_pcie_vip.Protocol.Codec.{serialize_message}
use qemu_pcie_vip.Socket.Kernel.{Kernel}
use qemu_pcie_vip.Socket.Transfer.{send_all}
use qemu_pcie_vip.Socket.Framing.{message, io_failed, malformed, read_message}
use qemu_pcie_vip.Endpoint.Defs.{completion}
use qemu_pcie_vip.Host.Memory.{HostMemory, write, read}
use qemu_pcie_vip.Host.Client.{
  HostClient, Progress, saw_all, verified, tick, read_incoming, send_out, send_dma_read_response,
  send_dma_write_response, answered, service_dma_read, service_dma_write, service_message,
}

-- The bytes that the test of the completion asks for.
abbrev pub asked : ℕ → ℕ → List ℕ
asked i zero = []
asked i (suc n) = ((0xc0 + i) % 256) ∷ asked (i + 1) n

pub verified-asked : (i : ℕ) (bs : List ℕ) → verified i bs ≡ true → bs ≡ asked i (length bs)
unfolding verified
verified-asked i [] h = refl
verified-asked i (b ∷ bs) h = elim (Bool-cases (b == (0xc0 + i) % 256)) [
  | inl same ↦
      let rest = verified-asked (i + 1) bs (rw same at h) in
      let front : b ≡ (0xc0 + i) % 256 = (==_iff _ _).0 same in
      ap (λ x. x ∷ bs) front ∙ ap (◌∷◌ ((0xc0 + i) % 256)) rest
  | inr other ↦ absurd (cc (rw other at h))
]

abbrev pub unset : Bool → ℕ
unset true = 0
unset false = 1

-- How many of the three kinds are still to come.
abbrev pub missing : Progress → ℕ
missing p = unset p.saw_dma_read + unset p.saw_dma_write + unset p.saw_msix

pub missing_none : (p : Progress) → saw_all p ≡ true → missing p ≡ 0
missing_none p h = ground arith

pub missing_wrote :
    (p q : Progress)
    → q ≡ record p { saw_dma_write = true; completion_bytes = q.completion_bytes }
    → missing p ≡ missing q + unset p.saw_dma_write
missing_wrote p q e = omega (arith, ap missing e)

pub concluded :
    (m : HostMemory) (bs : List ℕ) (m₁ m₂ : HostMemory)
    → bs ≡ completion
    → m₂ ≡ m₁
    → ((addr : ℕ) × (write addr bs m ≡ (true, m₁)))
    → (addr : ℕ) × (write addr completion m ≡ (true, m₂))
concluded m bs m₁ m₂ b e (addr, done) =
    (addr, ap (λ x. write addr x m) (sym b) ∙ done ∙ ap (λ x. (true, x)) (sym e))

module _ (k : Kernel) where
  -- A message after which the loop goes on: a DMA write that was carried out, or one that leaves
  -- memory as it was.
  pub data Stepped (p : Progress) (c : HostClient k) (p' : Progress) (c' : HostClient k)
      : Type 0 where
    quiet :
        p'.saw_dma_write ≡ p.saw_dma_write
        → p'.completion_bytes ≡ p.completion_bytes
        → c'.memory ≡ c.memory
        → missing p ≤ missing p' + 1
        → Stepped p c p' c'
    wrote :
        (addr : ℕ)
        → p' ≡ record p { saw_dma_write = true; completion_bytes = p'.completion_bytes }
        → write addr p'.completion_bytes c.memory ≡ (true, c'.memory)
        → Stepped p c p' c'

  -- A response out changes nothing but the clock and the world.
  Sends : HostClient k → Option (HostClient k) → Type 0
  Sends c o = Ensures (λ (c' : HostClient k). c'.memory ≡ c.memory) o

  send_out_memory :
      (fuel : ℕ) (h : Header) (payload : List ℕ) (c : HostClient k)
      → Sends c (send_out k fuel h payload c)
  unfolding Sends send_out
  send_out_memory fuel h payload c =
      elim (Option-cases
        (send_all k fuel c.socket (serialize_message h payload) c.timeout_ms c.world)) [
          | inl stuck ↦ rw (stuck, send_out) tt
          | inr ((st, w), sent) ↦ rw (sent, send_out) refl
        ]

  -- What is left of a step once its response is out.
  answered_memory :
      (c : HostClient k) (o : Option (HostClient k)) (p p' : Progress) (c' : HostClient k)
      → Sends c o
      → answered k true p (λ x. tick k x) o ≡ some (true, p', c')
      → (p' ≡ p) × (c'.memory ≡ c.memory)
  unfolding Sends
  answered_memory c none p p' c' h e = absurd (ground arith)
  answered_memory c (some d) p p' c' h e = ground arith

  answered_stops :
      (p p' : Progress) (log : HostClient k → HostClient k) (o : Option (HostClient k))
      (c' : HostClient k)
      → answered k false p log o ≡ some (true, p', c')
      → ⊥
  answered_stops p p' log none c' e = ground arith
  answered_stops p p' log (some c) c' e = ground arith

  service_dma_read_step :
      (fuel : ℕ) (msg : Message) (p p' : Progress) (c c' : HostClient k)
      → service_dma_read k fuel msg p c ≡ some (true, p', c')
      → Stepped p c p' c'
  unfolding service_dma_read send_dma_read_response Sends
  service_dma_read_step fuel msg p p' c c' e = elim (Bool-cases (msg.header.transfer_len == 0)) [
    | inl nothing ↦ absurd (answered_stops _ _ _ _ _ (rw (nothing, service_dma_read) at e))
    | inr asks ↦ elim (Option-cases (read msg.header.address msg.header.transfer_len c.memory)) [
      | inl out ↦ absurd (answered_stops _ _ _ _ _ (rw (asks, service_dma_read, out) at e))
      | inr (bytes, there) ↦
          let (same, kept) =
            answered_memory c _ _ p' c' (send_out_memory fuel _ bytes (tick k (tick k c)))
              (rw (asks, service_dma_read, there) at e) in
          quiet (rw same refl) (rw same refl) kept (rw same (grind arith))
    ]
  ]

  service_dma_write_step :
      (fuel : ℕ) (msg : Message) (p p' : Progress) (c c' : HostClient k)
      → service_dma_write k fuel msg p c ≡ some (true, p', c')
      → Stepped p c p' c'
  unfolding service_dma_write send_dma_write_response Sends
  service_dma_write_step fuel msg p p' c c' e =
      elim (Bool-cases (write msg.header.address msg.payload c.memory).0) [
        | inr refused ↦ absurd (answered_stops _ _ _ _ _ (rw (refused, service_dma_write) at e))
        | inl done ↦
            let mem = (write msg.header.address msg.payload c.memory).1 in
            let (same, kept) =
              answered_memory (record c { memory = mem }) _ _ p' c'
                (send_out_memory fuel _ [] (tick k (record (tick k c) { memory = mem })))
                (rw (done, service_dma_write) at e) in
            wrote msg.header.address (rw same refl) (rw same (rw kept (ap (λ b. (b, mem)) done)))
      ]

  pub service_message_step :
      (fuel : ℕ) (msg : Message) (p p' : Progress) (c c' : HostClient k)
      → service_message k fuel msg p c ≡ some (true, p', c')
      → Stepped p c p' c'
  unfolding service_message
  service_message_step fuel msg p p' c c' e = elim (Bool-cases (has_type msg.header dma_read_req)) [
    | inl r ↦ service_dma_read_step fuel msg p p' c c' (rw (r, service_message) at e)
    | inr nr ↦ elim (Bool-cases (has_type msg.header dma_write_req)) [
      | inl w ↦ service_dma_write_step fuel msg p p' c c' (rw (nr, service_message, w) at e)
      | inr nw ↦ elim (Bool-cases (has_type msg.header msi_x)) [
        | inl i ↦
            passed (record p { saw_msix = true }) (rw (nr, service_message, nw, i) at e) refl refl
              (grind arith)
        | inr ni ↦ passed p (rw (nr, service_message, nw, ni) at e) refl refl (omega arith)
      ]
    ]
  ]
    where
      passed :
          (q : Progress)
          → ◌≡◌ {A = Option (Bool × Progress × HostClient k)}
              (some (true, q, tick k c))
              (some (true, p', c'))
          → q.saw_dma_write ≡ p.saw_dma_write
          → q.completion_bytes ≡ p.completion_bytes
          → missing p ≤ missing q + 1
          → Stepped p c p' c'
      passed q f w b m =
          let same : q ≡ p' = cc in
          let kept : tick k c ≡ c' = cc in
          quiet (rw (← same) w) (rw (← same) b) (rw (← kept) refl) (rw (← same) m)

  pub read_incoming_memory :
      (fuel : ℕ) (c c' : HostClient k) (msg : Message)
      → read_incoming k fuel c ≡ some (some msg, c')
      → c'.memory ≡ c.memory
  unfolding read_incoming
  read_incoming_memory fuel c c' msg e =
      elim (Option-cases (read_message k fuel c.socket c.timeout_ms c.world)) [
        | inl stuck ↦ absurd (ground arith)
        | inr ((message m, w), got) ↦ ground arith
        | inr ((io_failed st, w), got) ↦ absurd (ground arith)
        | inr ((malformed er, w), got) ↦ absurd (ground arith)
      ]
