-- ===== src/Dpi/Staging.antt =====
-- What the calls of mini-ics/dpi/mini_ics_dpi.cpp give their caller, and what they leave staged.
use qemu_pcie_vip.Base.{
  ℕ, ◌+◌, ◌%◌, ◌^◌, ◌<◌, ◌≡◌, ◌⊎◌, ◌∙◌, inl, inr, refl, ap, arith, List, Bool, true, false, ltb,
  ◌==◌, ◌||◌, subst, [], Option, none, some, Ensures, Bool-cases, Option-cases, length, get_or,
  get_elem?-get_or, get_elem?-none, ltb→lt, if◌then◌else◌,
}
use qemu_pcie_vip.Protocol.Types.{
  Message, success, error_timeout, status_code, dma_read_req, dma_write_req, code,
}
use qemu_pcie_vip.Socket.Kernel.{Kernel}
use qemu_pcie_vip.Server.Defs.{Server}
use qemu_pcie_vip.Server.Requests.{Request, prepare, poll_inbound, send_request_to_host}
use qemu_pcie_vip.Server.Invariant.{WellFormed}
use qemu_pcie_vip.Server.Invariant.Filed.{Answers, Filed}
use qemu_pcie_vip.Server.Correlation.Own.{send_request-Answers}
use qemu_pcie_vip.Transaction.Ids.{next_id}
use qemu_pcie_vip.Dpi.{
  Return, one, nought, minus_one, minus_two, minus_three, held, Shim, OpenArray, Polled, Replied,
  dpi_request, copy_payload, dpi_poll, get_payload_byte, get_response_payload_byte, staged_byte,
  reported_id, after_reply, dpi_send_request, running_server,
}

-- The bytes of a payload, and -1 beyond them.
abbrev pub byte_result : List ℕ → ℕ → Return × Option ℕ
byte_result payload i =
    if ltb i (length payload) then (nought, some (get_or payload i 0)) else (minus_one, none)

staged_byte_lem : (payload : List ℕ) (i : ℕ) → staged_byte payload i true ≡ byte_result payload i
unfolding staged_byte
staged_byte_lem payload i = elim (Bool-cases (ltb i (length payload))) [
  | inl inside ↦
      let there = get_elem?-get_or payload i 0 (ltb→lt i (length payload) inside) in
      rw (inside, staged_byte, there) refl
  | inr out ↦ rw (out, staged_byte, get_elem?-none payload i (ground arith)) refl
]

-- A call that gives a result of this kind, or does not come back where the call that it makes does not.
abbrev pub Gives {ℓ κ} : {A B : Type ℓ} → Option A → Option B → (A → Type κ) → Type (ℓ ⊔ κ)
Gives {A = A} o called P = ((called ≡ none) × (o ≡ none)) ⊎ ((a : A) × (o ≡ some a) × P a)

gives_lem {ℓ κ} :
    {A B : Type ℓ} (o : Option A) (called : Option B) (P : A → Type κ)
    → (o ≡ none → called ≡ none)
    → Ensures P o
    → Gives o called P
gives_lem none called P stuck p = inl (stuck refl, refl)
gives_lem (some a) called P stuck p = inr (a, refl, p)

module _ (k : Kernel) where
  -- What a call of mini_ics_poll gives when it takes a message.
  pub record Delivered (m : Message) (out : Polled) (c c' : Shim k) : Type 0 where
    pub typed : out.msg_type ≡ m.header.msg_type
    pub identified : out.transaction_id ≡ m.header.txn_id
    pub addressed : out.address ≡ m.header.address
    pub sized : out.len ≡ m.header.transfer_len
    pub judged : out.status ≡ m.header.status
    pub bytes : (i : ℕ) → get_payload_byte k i true c' ≡ byte_result m.payload i
    pub others :
        (i : ℕ) → get_response_payload_byte k i true c' ≡ get_response_payload_byte k i true c

  -- What a call of mini_ics_poll gives, with the server `s` and the shim `c`.
  abbrev pub Takes : ℕ → ℕ → Server k → Shim k → Return × Option Polled × Shim k → Type 0
  Takes rounds fuel s c a =
      let (ret, out, c') = a in
      ((s₁ : Server k) × (poll_inbound k rounds fuel s ≡ some (none, s₁))
        × (ret ≡ nought)
        × (out ≡ none)
        × (c' ≡ record c { slot = held s₁ }))
      ⊎ (s₁ : Server k) × (m : Message) × (p : Polled) × (poll_inbound k rounds fuel s
          ≡ some (some m, s₁))
        × (ret ≡ one)
        × (out ≡ some p)
        × (c'.slot ≡ held s₁)
        × Delivered m p c c'

  dpi_poll-Takes :
      (rounds fuel : ℕ) (s : Server k) (c : Shim k)
      → running_server k c.slot ≡ some s
      → (dpi_poll k rounds fuel true c ≡ none → poll_inbound k rounds fuel s ≡ none)
        × Ensures (Takes rounds fuel s c) (dpi_poll k rounds fuel true c)
  unfolding dpi_poll get_payload_byte get_response_payload_byte
  dpi_poll-Takes rounds fuel s c live = elim (Option-cases (poll_inbound k rounds fuel s)) [
    | inl stuck ↦ (λ e. stuck, rw (live, dpi_poll, stuck) tt)
    | inr ((none, s₁), e) ↦ (
      rw (live, dpi_poll, e) (λ z. absurd (ground arith)),
      rw (live, dpi_poll, e) (inl (s₁, e, refl, refl, refl)),
    )
    | inr ((some m, s₁), e) ↦ (
      rw (live, dpi_poll, e) (λ z. absurd (ground arith)),
      rw (live, dpi_poll, e)
          (inr (
            s₁,
            m,
            _,
            e,
            refl,
            refl,
            refl,
            record {
              typed = refl;
              identified = refl;
              addressed = refl;
              sized = refl;
              judged = refl;
              bytes = staged_byte_lem m.payload;
              others = λ i. refl;
            },
          )),
    )
  ]

  -- mini_ics_poll with a server that runs takes from its inbound queue what PollInbound takes: with no
  -- message it returns 0 and stages nothing; with one it returns 1 and the type, id, address, transfer
  -- length and status of the message, the
  -- bytes of its payload are then read one by one, -1 beyond them, and the bytes of the last response
  -- are what they were. It comes back exactly when
  -- PollInbound does.
  pub poll_delivers :
      (rounds fuel : ℕ) (s : Server k) (c : Shim k)
      → running_server k c.slot ≡ some s
      → Gives (dpi_poll k rounds fuel true c) (poll_inbound k rounds fuel s) (Takes rounds fuel s c)
  poll_delivers rounds fuel s c live =
      let (stuck, takes) = dpi_poll-Takes rounds fuel s c live in gives_lem _ _ _ stuck takes

  -- The type of a request that waits for a response.
  abbrev pub awaits : ℕ → Bool
  awaits type = type == code dma_read_req || type == code dma_write_req

  -- The request that the arguments stand for.
  abbrev pub meant : ℕ → ℕ → Option OpenArray → ℕ → Request
  meant type address payload n = record {
    type = type;
    address = address;
    byte_enable = 0;
    payload = (if type == code dma_read_req then [] else copy_payload payload n);
    transfer_len = n;
    sim_timestamp = 0;
    expect_response = awaits type;
  }

  -- What a call of mini_ics_send_request gives, and what it leaves staged, when SendRequestToHost
  -- gave `rsp` and the request went under `id`.
  pub data Requested (expects : Bool) (rsp : Option Message) (id : ℕ) (ret : Return) (out : Replied)
      (c c' : Shim k) : Type 0 where
    told :
        expects ≡ false
        → ret ≡ nought
        → out ≡ record { transaction_id = id; out_status = status_code success }
        → c'.response_payload ≡ c.response_payload
        → Requested expects rsp id ret out c c'
    timed_out :
        expects ≡ true
        → rsp ≡ none
        → ret ≡ minus_three
        → out ≡ record { transaction_id = id; out_status = status_code error_timeout }
        → c'.response_payload ≡ c.response_payload
        → Requested expects rsp id ret out c c'
    got_response :
        (m : Message)
        → expects ≡ true
        → rsp ≡ some m
        → Answers id m
        → ret ≡ (if m.header.status == status_code success then nought else minus_two)
        → out ≡ record { transaction_id = id; out_status = m.header.status }
        → ((i : ℕ) → get_response_payload_byte k i true c' ≡ byte_result m.payload i)
        → Requested expects rsp id ret out c c'

  -- The end of a call that sends `q` with the server `s`, from the shim `c`.
  abbrev pub Ends : ℕ → ℕ → Request → Server k → Shim k → Return × Option Replied × Shim k → Type 0
  Ends rounds fuel q s c a =
      let (ret, out, c') = a in
      (rsp : Option Message) × (s₁ : Server k) × (rep : Replied) × (send_request_to_host k rounds
          fuel q s
        ≡ some (rsp, s₁))
      × (out ≡ some rep)
      × (c'.slot ≡ held s₁)
      × (c'.inbound_payload ≡ c.inbound_payload)
      × Requested (awaits q.type) rsp (if s.has_client then s.txn_gen.next else 0) ret rep c c'

  reported_id_lem :
      (q : Request) (s : Server k)
      → reported_id k q s ≡ (if s.has_client then s.txn_gen.next else 0)
  unfolding reported_id prepare next_id
  reported_id_lem q s = refl

  after_reply_cases :
      (expects : Bool) (id : ℕ) (rsp : Option Message) (s₁ : Server k) (c : Shim k)
      → ((m : Message) → rsp ≡ some m → Answers id m)
      → let (ret, out, c') = after_reply k expects id rsp s₁ c in
        (rep : Replied) × (out ≡ some rep)
        × (c'.slot ≡ held s₁)
        × (c'.inbound_payload ≡ c.inbound_payload)
        × Requested expects rsp id ret rep c c'
  unfolding after_reply get_response_payload_byte
  after_reply_cases false id rsp s₁ c h = (_, refl, refl, refl, told refl refl refl refl)
  after_reply_cases true id none s₁ c h = (_, refl, refl, refl, timed_out refl refl refl refl refl)
  after_reply_cases true id (some m) s₁ c h = (
    _,
    refl,
    refl,
    refl,
    got_response m refl refl (h m refl) refl refl (staged_byte_lem m.payload),
  )

  own :
      (rounds fuel : ℕ) (q : Request) (s s₁ : Server k) (m : Message)
      → WellFormed k Filed s
      → s.txn_gen.next + 1 < 2 ^ 64
      → send_request_to_host k rounds fuel q s ≡ some (some m, s₁)
      → Answers (reported_id k q s) m
  unfolding reported_id prepare next_id
  own rounds fuel q s s₁ m v room e =
      let (mine, asks, client) = send_request-Answers k rounds fuel q s s₁ m v room e in
      rw (client, reported_id) mine

  dpi_send_request-Ends :
      (rounds fuel msg_type address : ℕ) (payload : Option OpenArray) (n : ℕ) (s : Server k)
      (c : Shim k)
      → running_server k c.slot ≡ some s
      → WellFormed k Filed s
      → s.txn_gen.next + 1 < 2 ^ 64
      → (dpi_send_request k rounds fuel true msg_type address payload n c ≡ none
          → send_request_to_host k rounds fuel (meant (msg_type % 2 ^ 16) address payload n) s
            ≡ none)
        × Ensures
            (Ends rounds fuel (meant (msg_type % 2 ^ 16) address payload n) s c)
            (dpi_send_request k rounds fuel true msg_type address payload n c)
  unfolding dpi_send_request
  dpi_send_request-Ends rounds fuel msg_type address payload n s c live v room =
      let q = dpi_request (msg_type % 2 ^ 16) address payload n in
      elim (Option-cases (send_request_to_host k rounds fuel q s)) [
        | inl stuck ↦ (λ e. stuck, rw (live, dpi_send_request, stuck) tt)
        | inr ((rsp, s₁), e) ↦
            let (rep, out, slot, kept, end) =
              after_reply_cases q.expect_response (reported_id k q s) rsp s₁ c
                (λ m got. own rounds fuel q s s₁ m v room (e ∙ ap (λ x. some (x, s₁)) got)) in
            (
              rw (live, dpi_send_request, e) (λ z. absurd (ground arith)),
              rw (live, dpi_send_request, e)
                  (
                    rsp,
                    s₁,
                    rep,
                    e,
                    out,
                    slot,
                    kept,
                    subst
                        (λ id.
                          Requested q.expect_response rsp id
                            (after_reply k q.expect_response (reported_id k q s) rsp s₁ c).0 rep c
                            (after_reply k q.expect_response (reported_id k q s) rsp s₁ c).2)
                        (reported_id_lem q s) end,
                  ),
            )
      ]

  -- mini_ics_send_request with a server that runs, whose pending requests are well filed and whose id
  -- counter does not wrap. It hands SendRequestToHost the request of its arguments, with no
  -- payload for a DMA read, keeps the server that this leaves, reports the id that the request took, 0
  -- without a client, and leaves the bytes of the last inbound message as they are. A request that is
  -- not a DMA request returns 0 with status success, sent or not, and stages nothing. A DMA request
  -- without a response returns -3 with a timeout and stages nothing. With a response, which is
  -- a DMA response that carries the very id that is reported, it returns 0 if the status of the
  -- response is success and else -2, reports this status, and the bytes of the response are then read
  -- one by one, -1 beyond them. It comes back exactly when
  -- SendRequestToHost does.
  pub dpi_send_request_cases :
      (rounds fuel msg_type address : ℕ) (payload : Option OpenArray) (n : ℕ) (s : Server k)
      (c : Shim k)
      → running_server k c.slot ≡ some s
      → WellFormed k Filed s
      → s.txn_gen.next + 1 < 2 ^ 64
      → let q = meant (msg_type % 2 ^ 16) address payload n in
        Gives
          (dpi_send_request k rounds fuel true msg_type address payload n c)
          (send_request_to_host k rounds fuel q s)
          (Ends rounds fuel q s c)
  dpi_send_request_cases rounds fuel msg_type address payload n s c live v room =
      let (stuck, ends) =
        dpi_send_request-Ends rounds fuel msg_type address payload n s c live v room in
      gives_lem _ _ _ stuck ends
