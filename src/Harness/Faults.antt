-- ===== src/Harness/Faults.antt =====
-- When the loops of rtl/alex/verilator_qemu_main.cpp read beyond the end of a payload, and when not.
pub mod Answered
use qemu_pcie_vip.Base.{
  ℕ, zero, suc, ◌+◌, ◌-◌, ◌*◌, ◌/◌, ◌%◌, ◌^◌, ◌≤◌, ◌<◌, ◌≡◌, ◌≢◌, ◌⊎◌, ◌↔◌, ◌∙◌, inl, inr, refl,
  sym, ap, arith, min, List, [], ◌∷◌, Bool, true, false, ◌&&◌, ◌==◌, ltb, ltb→lt, lt_cases, Option,
  none, some, Bool-cases, length, get_or, get_elem?, get_elem?-get_or, get_elem?-none, set,
  replicate, bit_and, bit_or, if◌then◌else◌,
}
use qemu_pcie_vip.Protocol.Types.{Message, dma_read_req, code}
use qemu_pcie_vip.Server.Requests.{Request}
use qemu_pcie_vip.Endpoint.Defs.{Link, succeeded}
use qemu_pcie_vip.Harness.Ports.{Dut, Harness, out, clock_tick}
use qemu_pcie_vip.Harness.Words.{pack_loop, pack}
use qemu_pcie_vip.Harness.Dma.{
  send_completion, send_chunks, serve_read, poll_read, read_rounds, dma_read, memory_request,
  payload_of,
}
use qemu_pcie_vip.Harness.Ring.{
  Ring, Descriptor, transfer, perform, report, serve_descriptor, ring_loop, ring_refused,
  run_generic_dma, is_runnable, parse_descriptor, fetch_request, desc_bytes,
}

none≢some {ℓ} : {A : Type ℓ} {a : A} → none ≢ some a
none≢some e = ground arith

abbrev pub Returns {ℓ} : {A : Type ℓ} → Option A → Type ℓ
Returns {A = A} o = (a : A) × (o ≡ some a)

pack_loop-Returns :
    (n i : ℕ) (bytes : List ℕ) (offset : ℕ) (words : List ℕ)
    → offset + i + n ≤ length bytes
    → Returns (pack_loop n i bytes offset words)
unfolding pack_loop
pack_loop-Returns zero i bytes offset words h = (words, refl)
pack_loop-Returns (suc n) i bytes offset words h =
    let there = get_elem?-get_or bytes (offset + i) 0 (omega arith) in
    rw (there, pack_loop) (pack_loop-Returns n (i + 1) bytes offset _ (omega arith))

pack_loop-none :
    (n i : ℕ) (bytes : List ℕ) (offset : ℕ) (words : List ℕ)
    → length bytes < offset + i + n
    → offset + i ≤ length bytes
    → pack_loop n i bytes offset words ≡ none
unfolding pack_loop
pack_loop-none zero i bytes offset words h b = absurd (omega arith)
pack_loop-none (suc n) i bytes offset words h b = elim (lt_cases (offset + i) (length bytes)) [
  | inl inside ↦
      let there = get_elem?-get_or bytes (offset + i) 0 inside in
      rw (there, pack_loop) (pack_loop-none n (i + 1) bytes offset _ (omega arith) (omega arith))
  | inr end ↦ rw (get_elem?-none bytes (offset + i) end, pack_loop) refl
]

module _ (d : Dut) where
  send_completion-Returns :
      (tag count lower_addr : ℕ) (bytes : List ℕ) (offset len : ℕ) (error : Bool) (h : Harness d)
      → offset + len ≤ length bytes
      → Returns (send_completion d tag count lower_addr bytes offset len error h)
  unfolding send_completion pack
  send_completion-Returns tag count lower_addr bytes offset len error h room =
      let (words, e) =
        pack_loop-Returns (min len 32) 0 bytes offset (replicate 4 0) (omega arith) in
      rw (e, send_completion) (_, refl)

  send_completion-none :
      (tag count lower_addr : ℕ) (bytes : List ℕ) (offset len : ℕ) (error : Bool) (h : Harness d)
      → len ≤ 32
      → offset ≤ length bytes
      → length bytes < offset + len
      → send_completion d tag count lower_addr bytes offset len error h ≡ none
  unfolding send_completion pack
  send_completion-none tag count lower_addr bytes offset len error h small inside short =
      let e =
        pack_loop-none (min len 32) 0 bytes offset (replicate 4 0) (omega arith) (omega arith) in
      rw (e, send_completion) refl

  send_chunks-Returns :
      (rounds tag req_len : ℕ) (payload : List ℕ) (sent : ℕ) (h : Harness d)
      → req_len ≤ length payload
      → Returns (send_chunks d rounds tag req_len payload sent h)
  unfolding send_chunks
  send_chunks-Returns zero tag req_len payload sent h room = (h, refl)
  send_chunks-Returns (suc rounds) tag req_len payload sent h room =
      elim (Bool-cases (ltb sent req_len)) [
        | inr finished ↦ rw (finished, send_chunks) (h, refl)
        | inl more ↦
            let less = ltb→lt sent req_len more in
            let chunk = min 32 (req_len - sent) in
            let (h₁, e) =
              send_completion-Returns tag (req_len - sent)
                (bit_and ((out d h).rd_req_addr + sent) 0x7f) payload sent chunk false h
                (omega arith) in
            rw (more, e, send_chunks)
              (send_chunks-Returns rounds tag req_len payload (sent + chunk) h₁ room)
      ]

  send_chunks-none :
      (rounds tag req_len : ℕ) (payload : List ℕ) (sent : ℕ) (h : Harness d)
      → length payload < req_len
      → sent ≤ length payload
      → req_len - sent ≤ rounds
      → send_chunks d rounds tag req_len payload sent h ≡ none
  unfolding send_chunks
  send_chunks-none zero tag req_len payload sent h short inside enough = absurd (omega arith)
  send_chunks-none (suc rounds) tag req_len payload sent h short inside enough =
      let chunk = min 32 (req_len - sent) in
      let lower = bit_and ((out d h).rd_req_addr + sent) 0x7f in
      let more : ltb sent req_len ≡ true = ground arith in
      elim (lt_cases (length payload) (sent + chunk)) [
        | inl over ↦
            let e =
              send_completion-none tag (req_len - sent) lower payload sent chunk false h
                (omega arith) inside over in
            rw (more, e, send_chunks) refl
        | inr fits ↦
            let (h₁, e) =
              send_completion-Returns tag (req_len - sent) lower payload sent chunk false h fits in
            rw (more, e, send_chunks)
              (send_chunks-none rounds tag req_len payload (sent + chunk) h₁ short (omega arith)
                (omega arith))
      ]

  module _ (l : Link) where
    abbrev pub read_answer : ℕ → Harness d → l.State → Option Message
    read_answer now h s =
        (l.send_request_to_host
          (memory_request (code dma_read_req) (out d h).rd_req_addr [] (out d h).rd_req_len now)
          s).0

    serve_read-failed :
        (tag now : ℕ) (h : Harness d) (s : l.State)
        → succeeded (read_answer now h s) ≡ false
        → serve_read d l tag now h s ≡ none
    unfolding serve_read
    serve_read-failed tag now h s bad =
        let e =
          send_completion-none tag 0 0 [] 0 4 true h (omega arith) (omega arith) (omega arith) in
        rw (bad, serve_read, e) refl

    serve_read-short :
        (tag now : ℕ) (h : Harness d) (s : l.State)
        → succeeded (read_answer now h s) ≡ true
        → length (payload_of (read_answer now h s)) < (out d h).rd_req_len
        → serve_read d l tag now h s ≡ none
    unfolding serve_read
    serve_read-short tag now h s good short =
        let n = (out d h).rd_req_len in
        let e =
          send_chunks-none n tag n (payload_of (read_answer now h s)) 0 h short (omega arith)
            (omega arith) in
        rw (good, serve_read, e) refl

    pub serve_read-Returns :
        (tag now : ℕ) (h : Harness d) (s : l.State)
        → succeeded (read_answer now h s) ≡ true
        → (out d h).rd_req_len ≤ length (payload_of (read_answer now h s))
        → Returns (serve_read d l tag now h s)
    unfolding serve_read
    serve_read-Returns tag now h s good room =
        let n = (out d h).rd_req_len in
        let (h₁, e) = send_chunks-Returns n tag n (payload_of (read_answer now h s)) 0 h room in
        rw (good, serve_read, e) (_, refl)

    -- DmaRead reads beyond the end of a payload exactly when the host fails the read that the model
    -- asks for, or answers it with success and fewer bytes than were asked for.
    pub serve_read_faults :
        (tag now : ℕ) (h : Harness d) (s : l.State)
        → (serve_read d l tag now h s ≡ none) ↔ (
            (succeeded (read_answer now h s) ≡ false)
            ⊎ (succeeded (read_answer now h s) ≡ true)
              × (length (payload_of (read_answer now h s)) < (out d h).rd_req_len))
    serve_read_faults tag now h s = (
      λ fault. elim (Bool-cases (succeeded (read_answer now h s))) [
        | inr bad ↦ inl bad
        | inl good ↦
            elim (lt_cases (length (payload_of (read_answer now h s))) (out d h).rd_req_len) [
              | inl short ↦ inr (good, short)
              | inr room ↦
                  let (r, e) = serve_read-Returns tag now h s good room in
                  absurd (none≢some (sym fault ∙ e))
            ]
      ],
      λ reason. elim reason [
        | inl bad ↦ serve_read-failed tag now h s bad
        | inr (good, short) ↦ serve_read-short tag now h s good short
      ],
    )
