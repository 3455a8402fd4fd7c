-- ===== src/Server/Correlation/Own.antt =====
-- `SendRequestToHost`: the id of the messages that its caller gets.
use qemu_pcie_vip.Base.{
  ℕ, ◌+◌, ◌%◌, ◌^◌, ◌<◌, ◌≡◌, ◌≢◌, ◌⊎◌, inl, inr, sym, subst, ◌∙◌, arith, List, true, ◌==◌, Option,
  none, some, if◌then◌else◌, Option-cases, Bool-cases, Ensures,
}
use qemu_pcie_vip.Protocol.Types.{Message}
use qemu_pcie_vip.Protocol.Codec.{serialize_message}
use qemu_pcie_vip.Socket.Kernel.{Kernel}
use qemu_pcie_vip.Socket.Transfer.{IoStatus, ok, timeout, disconnected, error}
use qemu_pcie_vip.Transaction.Ids.{TransactionIdGenerator, next_id}
use qemu_pcie_vip.Transaction.Pending.{Table, find, find-assign, register_pending, finish}
use qemu_pcie_vip.Server.Defs.{Server, send_bytes, io_run}
use qemu_pcie_vip.Server.Requests.{
  Request, request_header, prepare, await_response, after_request, send_request_to_host,
}
use qemu_pcie_vip.Server.Invariant.{WellFormed, send_bytes_keeps}
use qemu_pcie_vip.Server.Invariant.Steps.{io_run-WellFormed}
use qemu_pcie_vip.Server.Invariant.Filed.{Answers, Filed, Filed-Survives}

register-Filed :
    (g : TransactionIdGenerator) (t : Table)
    → g.next + 1 < 2 ^ 64
    → Filed g t
    → Filed (next_id g).1 (register_pending g.next t)
unfolding next_id register_pending
register-Filed g t h f = (
  λ j m e. asked j m (sym (find-assign g.next j none t) ∙ e),
  λ j v e. issued j v (sym (find-assign g.next j none t) ∙ e),
)
  where
    asked :
        (j : ℕ) (m : Message)
        → (if g.next == j then some none else find j t) ≡ some (some m)
        → Answers j m
    asked j m e = elim (Bool-cases (g.next == j)) [
      | inl same ↦ absurd (ground arith)
      | inr other ↦ f.0 j m (rw other at e)
    ]

    issued :
        (j : ℕ) (v : Option Message)
        → (if g.next == j then some none else find j t) ≡ some v
        → j < (g.next + 1) % 2 ^ 64
    issued j v e = elim (Bool-cases (g.next == j)) [
      | inl same ↦ ground arith
      | inr other ↦ let below = f.1 j v (rw other at e) in omega arith
    ]

pub finish-some :
    (j : ℕ) (t : Table) (m : Message) → (finish j t).0 ≡ some m → find j t ≡ some (some m)
unfolding finish
finish-some j t m e = elim (Option-cases (find j t)) [
  | inl absent ↦ absurd (ground arith)
  | inr (none, there) ↦ absurd (ground arith)
  | inr (some n, there) ↦ ground arith
]

module _ (k : Kernel) where
  await_response_own :
      (rounds fuel j : ℕ) (s s' : Server k) (m : Message)
      → WellFormed k Filed s
      → await_response k rounds fuel j s ≡ some (some m, s')
      → Answers j m
  unfolding await_response
  await_response_own rounds fuel j s s' m v e = elim (Option-cases (find j s.pending)) [
    | inl absent ↦ absurd (ground arith)
    | inr (some n, there) ↦ v.filed.0 j m (finish-some j s.pending m (ground arith))
    | inr (none, there) ↦ waited there (Option-cases (io_run k rounds fuel s))
  ]
    where
      waited :
          find j s.pending ≡ some none
          → ((io_run k rounds fuel s ≡ none)
              ⊎ ((s₁ : Server k) × (io_run k rounds fuel s ≡ some s₁)))
          → Answers j m
      waited there (inl stuck) = absurd (ground arith)
      waited there (inr (s₁, ran)) =
          let v₁ : WellFormed k Filed s₁ =
            rw ran at (io_run-WellFormed k Filed Filed-Survives rounds fuel s v) in
          v₁.filed.0 j m (finish-some j s₁.pending m (ground arith))

  prepare-WellFormed :
      (q : Request) (s : Server k)
      → s.txn_gen.next + 1 < 2 ^ 64
      → q.expect_response ≡ true
      → WellFormed k Filed s
      → WellFormed k Filed (prepare k q s).1
  unfolding prepare next_id
  prepare-WellFormed q s h x v =
      rw (x, prepare)
        (record { connected = v.connected; filed = register-Filed s.txn_gen s.pending h v.filed })

  sent-WellFormed :
      (s s₂ : Server k)
      → s₂ ≡ record s { world = s₂.world }
      → WellFormed k Filed s
      → WellFormed k Filed s₂
  sent-WellFormed s s₂ same v = record {
    connected =
        subst (λ (x : Server k). x.has_client ≡ true → x.client_socket ≢ none) (sym same)
          v.connected;
    filed = subst (λ (x : Server k). Filed x.txn_gen x.pending) (sym same) v.filed;
  }

  after_request_own :
      (rounds fuel j : ℕ) (q : Request) (st : IoStatus) (s s' : Server k) (m : Message)
      → (q.expect_response ≡ true → WellFormed k Filed s)
      → after_request k rounds fuel q j st s ≡ some (some m, s')
      → Answers j m × (q.expect_response ≡ true)
  unfolding after_request
  after_request_own rounds fuel j q ok s s' m v e = elim (Bool-cases q.expect_response) [
    | inl asks ↦
        (await_response_own rounds fuel j s s' m (v asks) (rw (asks, after_request) at e), asks)
    | inr tells ↦ absurd (ground arith)
  ]
  after_request_own rounds fuel j q timeout s s' m v e = absurd (ground arith)
  after_request_own rounds fuel j q disconnected s s' m v e = absurd (ground arith)
  after_request_own rounds fuel j q error s s' m v e = absurd (ground arith)

  pub send_request-Answers :
      (rounds fuel : ℕ) (q : Request) (s s' : Server k) (m : Message)
      → WellFormed k Filed s
      → s.txn_gen.next + 1 < 2 ^ 64
      → send_request_to_host k rounds fuel q s ≡ some (some m, s')
      → Answers s.txn_gen.next m × (q.expect_response ≡ true) × (s.has_client ≡ true)
  unfolding send_request_to_host
  send_request-Answers rounds fuel q s s' m v h e = elim (Bool-cases s.has_client) [
    | inr alone ↦ absurd (ground arith)
    | inl client ↦
        went client (Option-cases (send_bytes k fuel (wire j) s₁))
          (send_bytes_keeps k fuel (wire j) s₁)
  ]
    where
      s₁ : Server k
      s₁ = (prepare k q s).1

      j : ℕ
      j = (prepare k q s).0

      wire : ℕ → List ℕ
      wire i = serialize_message (request_header q i) q.payload

      went :
          s.has_client ≡ true
          → ((send_bytes k fuel (wire j) s₁ ≡ none)
              ⊎ ((r : IoStatus × Server k) × (send_bytes k fuel (wire j) s₁ ≡ some r)))
          → Ensures
              (λ (r : IoStatus × Server k). r.1 ≡ record s₁ { world = r.1.world })
              (send_bytes k fuel (wire j) s₁)
          → Answers s.txn_gen.next m × (q.expect_response ≡ true) × (s.has_client ≡ true)
      went client (inl stuck) keeps = absurd (cc (rw (client, send_request_to_host, stuck) at e))
      went client (inr ((st, s₂), sent)) keeps =
          let same : s₂ ≡ record s₁ { world = s₂.world } = rw sent at keeps in
          let (a, x) =
            after_request_own rounds fuel j q st s₂ s' m
              (λ x. sent-WellFormed s₁ s₂ same (prepare-WellFormed q s h x v))
              (rw (client, send_request_to_host, sent) at e) in
          (unfold prepare next_id in a, x, client)
