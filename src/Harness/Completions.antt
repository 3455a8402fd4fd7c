-- ===== src/Harness/Completions.antt =====
-- The completions of `DmaRead` in rtl/alex/verilator_qemu_main.cpp, as a receiver sees them that takes
-- a beat at each rising edge of the clock.
use qemu_pcie_vip.Base.{
  ℕ, zero, suc, ◌+◌, ◌-◌, ◌/◌, ◌%◌, ◌^◌, ◌≤◌, ◌<◌, ◌≡◌, ◌∙◌, inl, inr, refl, sym, ap, arith, min,
  List, [], ◌∷◌, ◌++◌, append_assoc, append-nil, true, false, ltb, ltb→lt, Option, none, some, All,
  Bool-cases, if◌then◌else◌, length, take, drop, drop-drop, take_split, bit_and,
}
use qemu_pcie_vip.Protocol.Types.{Message, IsByte, has_status, success, dma_read_req, code}
use qemu_pcie_vip.Server.Requests.{Request}
use qemu_pcie_vip.Endpoint.Defs.{Link}
use qemu_pcie_vip.Harness.Ports.{CplPorts, Inputs, Dut, Harness, out, clock_tick}
use qemu_pcie_vip.Harness.Words.{unpack}
use qemu_pcie_vip.Harness.Words.Pack.{pack-unpack}
use qemu_pcie_vip.Harness.Dma.{
  cpl_beat, send_completion, send_chunks, serve_read, memory_request, set_cpl, end_cpl,
}
use qemu_pcie_vip.Harness.Headers.{
  data_words, received, header_high_lem, header_low_lem, words_of_four, remaining_of,
}

-- A model that keeps the completions it was clocked with.
pub record Receiver (d : Dut) : Type 0 where
  pub heard : d.State → List CplPorts
  pub heard_high :
      (i : Inputs) (s : d.State)
      → i.clk ≡ true
      → heard (d.eval i s) ≡ (if i.rx_cpl.valid then heard s ++ (i.rx_cpl ∷ []) else heard s)
  pub heard_low : (i : Inputs) (s : d.State) → i.clk ≡ false → heard (d.eval i s) ≡ heard s

module _ (d : Dut) (rec : Receiver d) where
  abbrev pub heard : Harness d → List CplPorts
  heard h = rec.heard h.top

  clock_tick-heard :
      (h : Harness d)
      → h.ports.rx_cpl.valid ≡ true
      → heard (clock_tick d h) ≡ heard h ++ (h.ports.rx_cpl ∷ [])
  unfolding clock_tick
  clock_tick-heard h v =
      let low = record h.ports { clk = false } in
      let high = record h.ports { clk = true } in
      rec.heard_low low (d.eval high (d.eval low h.top)) refl
      ∙ rec.heard_high high (d.eval low h.top) refl
      ∙ ap (λ b. if b then s₁ ++ (h.ports.rx_cpl ∷ []) else s₁) v
      ∙ ap (λ x. x ++ (h.ports.rx_cpl ∷ [])) (rec.heard_low low h.top refl)
    where
      s₁ : List CplPorts
      s₁ = rec.heard (d.eval (record h.ports { clk = false }) h.top)

  -- What one chunk puts on the ports.
  record Beat (tag count len : ℕ) (bytes : List ℕ) (c : CplPorts) : Type 0 where
    tagged : c.hdr_lo / 2 ^ 40 ≡ tag
    counted : c.hdr_hi % 4096 ≡ count % 4096
    carried : unpack len (data_words c) ≡ bytes
    whole : (c.sop ≡ true) × (c.eop ≡ true)

  send_completion-heard :
      (tag count lower_addr : ℕ) (bytes : List ℕ) (offset len : ℕ) (h : Harness d)
      → All IsByte bytes
      → len ≤ 32
      → offset + len ≤ length bytes
      → (h' : Harness d) × (c : CplPorts) × (send_completion d tag count lower_addr bytes offset len
            false h
          ≡ some h')
        × (heard h' ≡ heard h ++ (c ∷ []))
        × Beat tag count len (take len (drop offset bytes)) c
  unfolding send_completion
  send_completion-heard tag count lower_addr bytes offset len h a small room =
      let (words, packed, four, back) = pack-unpack bytes offset len a small room in
      let c : CplPorts = record (cpl_beat tag count lower_addr len false words) {
        error = h.ports.rx_cpl.error;
      } in
      (
        _,
        c,
        ap after packed,
        clock_tick-heard (set_cpl d c h) refl,
        record {
          tagged = header_low_lem tag lower_addr;
          counted = header_high_lem count len small;
          carried = ap (unpack len) (words_of_four words four) ∙ back;
          whole = (refl, refl);
        },
      )
    where
      after : Option (List ℕ) → Option (Harness d)
      after none = none
      after (some words) =
          let beat = record (cpl_beat tag count lower_addr len false words) {
            error = h.ports.rx_cpl.error;
          } in
          some (end_cpl d (clock_tick d (set_cpl d beat h)))

  send_chunks-heard :
      (rounds tag req_len : ℕ) (payload : List ℕ) (sent : ℕ) (h : Harness d)
      → All IsByte payload
      → req_len ≤ 4096
      → req_len ≤ length payload
      → sent ≤ req_len
      → req_len - sent ≤ rounds
      → (h' : Harness d) × (beats : List CplPorts) × (send_chunks d rounds tag req_len payload sent
            h
          ≡ some h')
        × (heard h' ≡ heard h ++ beats)
        × (received beats ≡ take (req_len - sent) (drop sent payload))
        × All (λ c. c.hdr_lo / 2 ^ 40 ≡ tag) beats
  unfolding send_chunks
  send_chunks-heard zero tag req_len payload sent h a top room le enough =
      let e : req_len - sent ≡ 0 = omega arith in
      (h, [], refl, sym (append-nil (heard h)), ap (λ k. take k (drop sent payload)) (sym e), tt)
  send_chunks-heard (suc rounds) tag req_len payload sent h a top room le enough =
      elim (Bool-cases (ltb sent req_len)) [
        | inr finished ↦
            let e : req_len - sent ≡ 0 = ground arith in
            (
              h,
              [],
              rw (finished, send_chunks) refl,
              sym (append-nil (heard h)),
              ap (λ k. take k (drop sent payload)) (sym e),
              tt,
            )
        | inl goes_on ↦
            let more : sent < req_len = ltb→lt sent req_len goes_on in
            let chunk = min 32 (req_len - sent) in
            let (h₁, c, run, log, one) =
              send_completion-heard tag (req_len - sent)
                (bit_and ((out d h).rd_req_addr + sent) 0x7f) payload sent chunk h a (omega arith)
                (omega arith) in
            let (h₂, beats, rest, logs, bytes, tags) =
              send_chunks-heard rounds tag req_len payload (sent + chunk) h₁ a top room
                (omega arith) (omega arith) in
            let left = remaining_of c (req_len - sent) (omega arith) (omega arith) one.counted in
            let e : chunk + (req_len - (sent + chunk)) ≡ req_len - sent = omega arith in
            (
              h₂,
              c ∷ beats,
              rw (goes_on, send_chunks, run) rest,
              logs ∙ ap (λ x. x ++ beats) log ∙ append_assoc (heard h) (c ∷ []) beats,
              ap (λ k. unpack (min 32 k) (data_words c) ++ received beats) left
                  ∙ ap (λ x. x ++ received beats) one.carried
                  ∙ ap (λ x. take chunk (drop sent payload) ++ x) bytes
                  ∙ ap (λ x. take chunk (drop sent payload) ++ take (req_len - (sent + chunk)) x)
                      (sym (drop-drop chunk sent payload))
                  ∙ take_split chunk (req_len - (sent + chunk)) (drop sent payload)
                  ∙ ap (λ k. take k (drop sent payload)) e,
              (one.tagged, tags),
            )
      ]

  abbrev pub read_request : ℕ → Harness d → Request
  read_request now h =
      memory_request (code dma_read_req) (out d h).rd_req_addr [] (out d h).rd_req_len now

  -- When the model asks for at most 4096 bytes of host memory and the host answers with success and at
  -- least as many bytes: DmaRead sends completions that carry the tag of the descriptor, and a
  -- receiver that goes by their byte counts gets exactly the first of the bytes, as many as were asked
  -- for, in order; no read is out of bounds.
  pub serve_read_delivers :
      (l : Link) (tag now : ℕ) (h : Harness d) (s : l.State) (m : Message)
      → (l.send_request_to_host (read_request now h) s).0 ≡ some m
      → has_status m.header success ≡ true
      → All IsByte m.payload
      → (out d h).rd_req_len ≤ 4096
      → (out d h).rd_req_len ≤ length m.payload
      → (h' : Harness d) × (beats : List CplPorts) × (serve_read d l tag now h s
          ≡ some (h', (l.send_request_to_host (read_request now h) s).1))
        × (heard h' ≡ heard h ++ beats)
        × (received beats ≡ take (out d h).rd_req_len m.payload)
        × All (λ c. c.hdr_lo / 2 ^ 40 ≡ tag) beats
  unfolding serve_read
  serve_read_delivers l tag now h s m answered good a top room =
      let n = (out d h).rd_req_len in
      let (h', beats, run, log, bytes, tags) =
        send_chunks-heard n tag n m.payload 0 h a top room (omega arith) (omega arith) in
      let e : n - 0 ≡ n = omega arith in
      (
        h',
        beats,
        rw (answered, serve_read, good, run) refl,
        log,
        bytes ∙ ap (λ k. take k m.payload) e,
        tags,
      )
