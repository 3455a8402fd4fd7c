-- ===== src/Endpoint/Answers.antt =====
-- `SoftwareEndpointModel::Handle`: the responses to what the host sends.
use qemu_pcie_vip.Base.{
  ℕ, ◌≡◌, ◌⊎◌, inl, inr, refl, ap, ◌∙◌, List, [], ◌∷◌, ◌++◌, append_assoc, true, false, Option,
  none, some, length, if◌then◌else◌, Bool-cases, All,
}
use qemu_pcie_vip.Protocol.Types.{
  Header, Message, mmio_read_req, mmio_read_rsp, mmio_write_req, mmio_write_rsp, reset_req,
  reset_rsp, success, code, status_code, has_type, flag_is_response,
}
use qemu_pcie_vip.Protocol.Codec.{make_header}
use qemu_pcie_vip.Endpoint.Defs.{
  Link, Endpoint, advance, write_register, read_result, succeeded, dma_read_request,
  dma_write_request, sq0_doorbell,
}
use qemu_pcie_vip.Endpoint.Registers.{write_register_refused}
use qemu_pcie_vip.Endpoint.Handlers.{
  handle_reset, write_completion, run_dma_sequence, handle_mmio_write, handle_mmio_read, handle,
}
use qemu_pcie_vip.Endpoint.Traffic.{
  Sent, response, request, Recording, sent, run_dma_sequence_order,
}

abbrev pub IsRequest : Sent → Type 0
IsRequest (response h payload) = ⊥
IsRequest (request q) = Unit {0}

-- The type of the response that a request is to get; `none` for what the endpoint does not handle.
abbrev pub expected : Message → Option ℕ
expected msg =
    if has_type msg.header reset_req
    then some (code reset_rsp)
    else if has_type msg.header mmio_write_req
    then some (code mmio_write_rsp)
    else if has_type msg.header mmio_read_req
    then some (code mmio_read_rsp)
    else none

module _ (l : Link) (rec : Recording l) where
  -- Behind what was sent before stands one response, to `msg`, of the type `rsp`, with an empty or
  -- non-empty payload; after it only requests, and these only for a write to the doorbell.
  pub record Answered (msg : Message) (rsp : ℕ) (e e' : Endpoint l) : Type 0 where
    pub header : Header
    pub payload : List ℕ
    pub tail : List Sent
    pub in_log : sent l rec e' ≡ sent l rec e ++ (response header payload ∷ tail)
    pub same_txn : header.txn_id ≡ msg.header.txn_id
    pub right_type : header.msg_type ≡ rsp
    pub marked : header.flags ≡ flag_is_response
    pub sized : header.payload_len ≡ length payload
    pub requests : All IsRequest tail
    pub quiet :
        (tail ≡ [])
        ⊎ (msg.header.address ≡ sq0_doorbell) × (has_type msg.header mmio_write_req ≡ true)
    pub settled : e'.doorbell_rung ≡ false

  handle_reset_answers :
      (msg : Message) (e : Endpoint l)
      → e.doorbell_rung ≡ false
      → Answered msg (code reset_rsp) e (handle_reset l msg e)
  unfolding handle_reset make_header
  handle_reset_answers msg e d = record {
    header =
        make_header (code reset_rsp) msg.header.txn_id 0 0 (status_code success) e.sim_time_ns 0
          flag_is_response 0;
    payload = [];
    tail = [];
    in_log = rec.log_response _ [] e.server;
    same_txn = refl;
    right_type = refl;
    marked = refl;
    sized = refl;
    requests = tt;
    quiet = inl refl;
    settled = d;
  }

  handle_mmio_read_answers :
      (msg : Message) (e : Endpoint l)
      → e.doorbell_rung ≡ false
      → Answered msg (code mmio_read_rsp) e (handle_mmio_read l msg e)
  unfolding handle_mmio_read make_header
  handle_mmio_read_answers msg e d =
      let (status, payload) = read_result msg.header e.regs in
      record {
        header =
            make_header (code mmio_read_rsp) msg.header.txn_id msg.header.address 0
              (status_code status) e.sim_time_ns (length payload) flag_is_response 0;
        payload = payload;
        tail = [];
        in_log = rec.log_response _ payload e.server;
        same_txn = refl;
        right_type = refl;
        marked = refl;
        sized = refl;
        requests = tt;
        quiet = inl refl;
        settled = d;
      }

  run_dma_sequence_tail :
      (e : Endpoint l)
      → (tail : List Sent) × (sent l rec (run_dma_sequence l e) ≡ sent l rec e ++ tail)
        × All IsRequest tail
  run_dma_sequence_tail e = elim (run_dma_sequence_order l rec e).1 [
    | inl (_, log) ↦ (_, log, (tt, tt))
    | inr (_, inl (_, log)) ↦ (_, log, (tt, (tt, tt)))
    | inr (_, inr (_, log)) ↦ (_, log, (tt, (tt, (tt, tt))))
  ]

  write_completion_settled :
      (e : Endpoint l) → (write_completion l e).doorbell_rung ≡ e.doorbell_rung
  unfolding write_completion
  write_completion_settled e =
      let write = dma_write_request e.regs.acq (advance e.sim_time_ns 45) in
      elim (Bool-cases (succeeded (l.send_request_to_host write e.server).0)) [
        | inl good ↦ rw (good, write_completion) refl
        | inr bad ↦ rw (bad, write_completion) refl
      ]

  run_dma_sequence_settled :
      (e : Endpoint l) → (run_dma_sequence l e).doorbell_rung ≡ e.doorbell_rung
  unfolding run_dma_sequence
  run_dma_sequence_settled e =
      let read = dma_read_request e.regs.asq (advance e.sim_time_ns 60) in
      elim (Bool-cases (succeeded (l.send_request_to_host read e.server).0)) [
        | inl good ↦ rw (good, run_dma_sequence) (write_completion_settled _)
        | inr bad ↦ rw (bad, run_dma_sequence) refl
      ]

  handle_mmio_write_answers :
      (msg : Message) (e : Endpoint l)
      → e.doorbell_rung ≡ false
      → has_type msg.header mmio_write_req ≡ true
      → Answered msg (code mmio_write_rsp) e (handle_mmio_write l msg e)
  unfolding handle_mmio_write make_header
  handle_mmio_write_answers msg e d y =
      elim (Bool-cases (write_register msg.header.address msg.payload e.regs).2) [
        | inr silent ↦
            rw (d, silent, handle_mmio_write)
              (record {
                header = header;
                payload = [];
                tail = [];
                in_log = first;
                same_txn = refl;
                right_type = refl;
                marked = refl;
                sized = refl;
                requests = tt;
                quiet = inl refl;
                settled = refl;
              })
        | inl rang ↦
            rw (d, rang, handle_mmio_write)
              (record {
                header = header;
                payload = [];
                tail = (run_dma_sequence_tail e₁).0;
                in_log =
                    (run_dma_sequence_tail e₁).1
                    ∙ ap (λ x. x ++ (run_dma_sequence_tail e₁).0) first
                    ∙ append_assoc (sent l rec e) (response header [] ∷ [])
                        (run_dma_sequence_tail e₁).0;
                same_txn = refl;
                right_type = refl;
                marked = refl;
                sized = refl;
                requests = (run_dma_sequence_tail e₁).2;
                quiet = inr (
                  ((write_register_refused msg.header.address msg.payload e.regs).1.0 rang).1,
                  y,
                );
                settled = run_dma_sequence_settled e₁;
              })
      ]
    where
      header : Header
      header =
          make_header (code mmio_write_rsp) msg.header.txn_id msg.header.address 0
            (status_code (write_register msg.header.address msg.payload e.regs).0) e.sim_time_ns 0
            flag_is_response 0

      first :
          rec.log (l.send_response header [] e.server).1 ≡ sent l rec e ++ (response header [] ∷ [])
      first = rec.log_response header [] e.server

      e₁ : Endpoint l
      e₁ = record e {
        regs = (write_register msg.header.address msg.payload e.regs).1;
        doorbell_rung = false;
        server = (l.send_response header [] e.server).1;
      }

  -- A reset, an MMIO write or an MMIO read gets exactly one response, which carries its transaction
  -- id, the response type that belongs to it, the response flag and the length of its payload, before
  -- anything else is sent; requests of the endpoint's own follow only a write at the doorbell. Any
  -- other message is ignored: nothing is sent and nothing changes.
  pub handle_answers :
      (msg : Message) (e : Endpoint l)
      → e.doorbell_rung ≡ false
      → ((rsp : ℕ) × (expected msg ≡ some rsp) × Answered msg rsp e (handle l msg e))
        ⊎ ((expected msg ≡ none) × (handle l msg e ≡ e))
  unfolding handle
  handle_answers msg e d = elim (Bool-cases (has_type msg.header reset_req)) [
    | inl r ↦ inl (code reset_rsp, rw r refl, rw (r, handle) (handle_reset_answers msg e d))
    | inr nr ↦ elim (Bool-cases (has_type msg.header mmio_write_req)) [
      | inl w ↦ inl (
        code mmio_write_rsp,
        rw (nr, w) refl,
        rw (nr, w, handle) (handle_mmio_write_answers msg e d w),
      )
      | inr nw ↦ elim (Bool-cases (has_type msg.header mmio_read_req)) [
        | inl y ↦ inl (
          code mmio_read_rsp,
          rw (nr, nw, y) refl,
          rw (nr, nw, y, handle) (handle_mmio_read_answers msg e d),
        )
        | inr n ↦ inr (rw (nr, nw, n) refl, rw (nr, nw, n, handle) refl)
      ]
    ]
  ]
