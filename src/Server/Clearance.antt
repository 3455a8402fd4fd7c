-- ===== src/Server/Clearance.antt =====
-- `SendRequestToHost`: what it leaves in the table of pending requests.
use qemu_pcie_vip.Base.{
  ℕ, ◌≡◌, ◌⊎◌, inl, inr, ap, ◌∙◌, arith, List, [], true, false, Option, none, some, if◌then◌else◌,
  Option-cases, Bool-cases, Ensures,
}
use qemu_pcie_vip.Protocol.Types.{Message}
use qemu_pcie_vip.Protocol.Codec.{serialize_message}
use qemu_pcie_vip.Socket.Kernel.{Kernel}
use qemu_pcie_vip.Socket.Transfer.{IoStatus, ok, timeout, disconnected, error}
use qemu_pcie_vip.Transaction.Ids.{next_id}
use qemu_pcie_vip.Transaction.Pending.{Table, find, find-erase, finish, wait_for, pending_run}
use qemu_pcie_vip.Server.Defs.{Server, send_bytes, io_run}
use qemu_pcie_vip.Server.Requests.{
  Request, request_header, prepare, await_response, after_request, send_request_to_host,
}
use qemu_pcie_vip.Server.Invariant.{WellFormed, send_bytes_keeps}
use qemu_pcie_vip.Server.Invariant.Filed.{Filed}

finish_clears : (j : ℕ) (t : Table) → find j (finish j t).1 ≡ none
unfolding finish
finish_clears j t = elim (Option-cases (find j t)) [
  | inl absent ↦ rw (absent, finish) absent
  | inr (v, there) ↦ rw (there, finish) (find-erase j j t ∙ ground arith)
]

wait_for_clears : (j : ℕ) (t : Table) → find j (wait_for j [] t).1 ≡ none
unfolding wait_for pending_run
wait_for_clears j t = elim (Option-cases (find j t)) [
  | inl absent ↦ rw (absent, wait_for) absent
  | inr (none, there) ↦ rw (there, wait_for) (finish_clears j t)
  | inr (some m, there) ↦ rw (there, wait_for) (finish_clears j t)
]

module _ (k : Kernel) where
  -- What a call leaves of an entry, if it comes back.
  abbrev Unfiled : {A : Type 0} → ℕ → Option (A × Server k) → Type 0
  Unfiled {A} j o = Ensures (λ (r : A × Server k). find j r.1.pending ≡ none) o

  await_response_clears :
      (rounds fuel j : ℕ) (s : Server k) → Unfiled j (await_response k rounds fuel j s)
  unfolding await_response
  await_response_clears rounds fuel j s = elim (Option-cases (find j s.pending)) [
    | inl absent ↦ rw (absent, await_response) absent
    | inr (some n, there) ↦ rw (there, await_response) (finish_clears j s.pending)
    | inr (none, there) ↦ elim (Option-cases (io_run k rounds fuel s)) [
      | inl stuck ↦ rw (there, await_response, stuck) tt
      | inr (s₁, ran) ↦ rw (there, await_response, ran) (finish_clears j s₁.pending)
    ]
  ]

  given_up :
      (j : ℕ) (q : Request) (s : Server k)
      → (q.expect_response ≡ false → find j s.pending ≡ none)
      → find j
          (if q.expect_response
            then record s { pending = (wait_for j [] s.pending).1 }
            else s).pending
        ≡ none
  given_up j q s quiet = elim (Bool-cases q.expect_response) [
    | inl asks ↦ rw asks (wait_for_clears j s.pending)
    | inr tells ↦ rw tells (quiet tells)
  ]

  after_request_clears :
      (rounds fuel j : ℕ) (q : Request) (st : IoStatus) (s : Server k)
      → (q.expect_response ≡ false → find j s.pending ≡ none)
      → Unfiled j (after_request k rounds fuel q j st s)
  unfolding after_request
  after_request_clears rounds fuel j q ok s quiet = elim (Bool-cases q.expect_response) [
    | inl asks ↦ rw (asks, after_request) (await_response_clears rounds fuel j s)
    | inr tells ↦ rw (tells, after_request) (quiet tells)
  ]
  after_request_clears rounds fuel j q timeout s quiet = given_up j q s quiet
  after_request_clears rounds fuel j q disconnected s quiet = given_up j q s quiet
  after_request_clears rounds fuel j q error s quiet = given_up j q s quiet

  unissued : (s : Server k) → WellFormed k Filed s → find s.txn_gen.next s.pending ≡ none
  unissued s v = elim (Option-cases (find s.txn_gen.next s.pending)) [
    | inl absent ↦ absent
    | inr (u, there) ↦ absurd (ground (arith, v.filed.1 s.txn_gen.next u there))
  ]

  prepare_quiet :
      (q : Request) (s : Server k)
      → WellFormed k Filed s
      → q.expect_response ≡ false
      → find s.txn_gen.next (prepare k q s).1.pending ≡ none
  unfolding prepare next_id
  prepare_quiet q s v tells = rw (tells, prepare) (unissued s v)

  -- A server whose pending requests are well filed: however SendRequestToHost ends, with a response,
  -- without one, with a send that failed or with no client, the table holds no entry for the
  -- transaction id that it used, so that no response that comes later can match it.
  pub send_request_clears :
      (rounds fuel : ℕ) (q : Request) (s s' : Server k) (result : Option Message)
      → WellFormed k Filed s
      → send_request_to_host k rounds fuel q s ≡ some (result, s')
      → find s.txn_gen.next s'.pending ≡ none
  unfolding send_request_to_host prepare next_id
  send_request_clears rounds fuel q s s' result v e = rw e at (clears (Bool-cases s.has_client))
    where
      s₁ : Server k
      s₁ = (prepare k q s).1

      j : ℕ
      j = (prepare k q s).0

      bytes : List ℕ
      bytes = serialize_message (request_header q j) q.payload

      went :
          ((send_bytes k fuel bytes s₁ ≡ none)
            ⊎ ((r : IoStatus × Server k) × (send_bytes k fuel bytes s₁ ≡ some r)))
          → Ensures
              (λ (r : IoStatus × Server k). r.1 ≡ record s₁ { world = r.1.world })
              (send_bytes k fuel bytes s₁)
          → s.has_client ≡ true
          → Unfiled s.txn_gen.next (send_request_to_host k rounds fuel q s)
      went (inl stuck) keeps client = rw (client, send_request_to_host, stuck) tt
      went (inr ((st, s₂), sent)) keeps client =
          let same : s₂ ≡ record s₁ { world = s₂.world } = rw sent at keeps in
          rw (client, send_request_to_host, sent)
            (after_request_clears rounds fuel j q st s₂
              (λ tells. ap (λ (x : Server k). find j x.pending) same ∙ prepare_quiet q s v tells))

      clears :
          ((s.has_client ≡ true) ⊎ (s.has_client ≡ false))
          → Unfiled s.txn_gen.next (send_request_to_host k rounds fuel q s)
      clears (inl client) =
          went (Option-cases (send_bytes k fuel bytes s₁)) (send_bytes_keeps k fuel bytes s₁) client
      clears (inr alone) = rw (alone, send_request_to_host) (unissued s v)
