-- ===== src/Server/Invariant.antt =====
-- What is asked of the server between two rounds of the I/O thread: a client past the handshake has
-- an open socket, and the table of pending requests has a property that is a parameter.
pub mod Filed
pub mod Steps
use qemu_pcie_vip.Base.{
  ℕ, ◌≡◌, ◌≢◌, ◌⊎◌, inl, inr, refl, sym, ap, subst, ◌∙◌, arith, List, [], ◌∷◌, ◌++◌, Bool, true,
  false, not, ◌&&◌, ◌||◌, ◌==◌, Option, none, some, if◌then◌else◌, Option-cases, Bool-cases, ==_iff,
  Ensures,
}
use qemu_pcie_vip.Protocol.Types.{Header, Message, hello, shutdown, has_type}
use qemu_pcie_vip.Protocol.Codec.{serialize_message}
use qemu_pcie_vip.Socket.Kernel.{Kernel, Fd}
use qemu_pcie_vip.Socket.Transfer.{
  IoStatus, ok, timeout, disconnected, error, is_ok, send_all, wait_readable,
}
use qemu_pcie_vip.Socket.Framing.{Received, message, io_failed, malformed, read_message}
use qemu_pcie_vip.Socket.Connection.{accept_on, move_assign}
use qemu_pcie_vip.Transaction.Ids.{TransactionIdGenerator}
use qemu_pcie_vip.Transaction.Queue.{push}
use qemu_pcie_vip.Transaction.Pending.{Table, find, complete, assign, find-assign}
use qemu_pcie_vip.Server.Defs.{
  Server, close_client, drop_client, send_bytes, handle_hello, hello_ack_header, is_dma_response,
  dispatch_incoming, handshake, accept_client, take_message, serve_client, io_step, io_run,
}

-- `P` speaks of the id counter and the table of pending requests; it has to survive the filing of a
-- DMA response.
abbrev pub Survives : (TransactionIdGenerator → Table → Type 0) → Type 0
Survives P =
    (g : TransactionIdGenerator) (msg : Message) (t : Table)
    → is_dma_response msg.header ≡ true
    → P g t
    → P g (complete msg.header.txn_id msg t).1

pub record WellFormed (k : Kernel) (P : TransactionIdGenerator → Table → Type 0) (s : Server k)
    : Type 0 where
  pub connected : s.has_client ≡ true → s.client_socket ≢ none
  pub filed : P s.txn_gen s.pending

module _ (k : Kernel) where
  -- Sending touches the world only.
  pub send_bytes_keeps :
      (fuel : ℕ) (bytes : List ℕ) (s : Server k)
      → Ensures
          (λ (r : IoStatus × Server k). r.1 ≡ record s { world = r.1.world })
          (send_bytes k fuel bytes s)
  unfolding send_bytes
  send_bytes_keeps fuel bytes s =
      elim (Option-cases (send_all k fuel s.client_socket bytes s.io_timeout_ms s.world)) [
        | inl e ↦ rw (e, send_bytes) tt
        | inr ((st, w), e) ↦ rw (e, send_bytes) refl
      ]

  handle_hello_keeps :
      (fuel : ℕ) (msg : Message) (s : Server k)
      → Ensures
          (λ (r : Bool × Server k). r.1 ≡ record s { world = r.1.world })
          (handle_hello k fuel msg s)
  unfolding handle_hello
  handle_hello_keeps fuel msg s = elim (Bool-cases (has_type msg.header hello)) [
    | inr other ↦ rw (other, handle_hello) refl
    | inl first ↦
        rw (first, handle_hello)
          (sent (Option-cases (send_bytes k fuel bytes s)) (send_bytes_keeps fuel bytes s))
  ]
    where
      bytes : List ℕ
      bytes = serialize_message (hello_ack_header msg) []

      sent :
          ((send_bytes k fuel bytes s ≡ none)
            ⊎ ((r : IoStatus × Server k) × (send_bytes k fuel bytes s ≡ some r)))
          → Ensures
              (λ (r : IoStatus × Server k). r.1 ≡ record s { world = r.1.world })
              (send_bytes k fuel bytes s)
          → Ensures
              (λ (r : Bool × Server k). r.1 ≡ record s { world = r.1.world })
              (elim (send_bytes k fuel bytes s) [
                | none ↦ none
                | some (st, s₁) ↦ some (is_ok st, s₁)
              ])
      sent (inl e) h = rw e tt
      sent (inr ((st, s₁), e)) h = rw e (rw e at h)

module _ (k : Kernel) (P : TransactionIdGenerator → Table → Type 0) (survives : Survives P) where
  close_client-WellFormed :
      (s : Server k) → s.has_client ≡ false → WellFormed k P s → WellFormed k P (close_client k s)
  unfolding close_client
  close_client-WellFormed s n v = record { connected = λ e. cc; filed = v.filed }

  drop_client-WellFormed : (s : Server k) → P s.txn_gen s.pending → WellFormed k P (drop_client k s)
  unfolding drop_client
  drop_client-WellFormed s m = record { connected = λ e. cc; filed = m }

  dispatch_incoming-WellFormed :
      (msg : Message) (s : Server k) → WellFormed k P s → WellFormed k P (dispatch_incoming k msg s)
  unfolding dispatch_incoming
  dispatch_incoming-WellFormed msg s v = elim (Bool-cases (is_dma_response msg.header)) [
    | inl r ↦
        rw (r, dispatch_incoming)
          (record { connected = v.connected; filed = survives s.txn_gen msg s.pending r v.filed })
    | inr n ↦ rw (n, dispatch_incoming) (record { connected = v.connected; filed = v.filed })
  ]

  take_message-WellFormed :
      (r : Received) (s : Server k) → WellFormed k P s → WellFormed k P (take_message k r s)
  unfolding take_message
  take_message-WellFormed (message msg) s v = elim (Bool-cases (has_type msg.header shutdown)) [
    | inl y ↦
        rw (y, take_message)
          (drop_client-WellFormed (record s { inbound_queue = push msg s.inbound_queue }) v.filed)
    | inr n ↦ rw (n, take_message) (dispatch_incoming-WellFormed msg s v)
  ]
  take_message-WellFormed (io_failed st) s v = drop_client-WellFormed s v.filed
  take_message-WellFormed (malformed e) s v = drop_client-WellFormed s v.filed

  pub serve_client-WellFormed :
      (fuel : ℕ) (s : Server k)
      → WellFormed k P s
      → Ensures (WellFormed k P) (serve_client k fuel s)
  unfolding serve_client
  serve_client-WellFormed fuel s v =
      elim (Option-cases (wait_readable k fuel s.client_socket s.io_timeout_ms s.world)) [
        | inl e ↦ rw (e, serve_client) tt
        | inr ((timeout, w), e) ↦
            rw (e, serve_client) (record { connected = v.connected; filed = v.filed })
        | inr ((disconnected, w), e) ↦
            rw (e, serve_client) (drop_client-WellFormed (record s { world = w }) v.filed)
        | inr ((error, w), e) ↦
            rw (e, serve_client) (drop_client-WellFormed (record s { world = w }) v.filed)
        | inr ((ok, w), e) ↦
            rw (e, serve_client)
              (reading w (Option-cases (read_message k fuel s.client_socket s.io_timeout_ms w)))
      ]
    where
      reading :
          (w : k.World)
          → ((read_message k fuel s.client_socket s.io_timeout_ms w ≡ none)
              ⊎ ((r : Received × k.World) × (read_message k fuel s.client_socket s.io_timeout_ms w
                    ≡ some r)))
          → Ensures (WellFormed k P) (elim (read_message k fuel s.client_socket s.io_timeout_ms w) [
            | none ↦ none
            | some (r, w₁) ↦ some (take_message k r (record s { world = w₁ }))
          ])
      reading w (inl e) = rw e tt
      reading w (inr ((r, w₁), e)) = rw e (
          take_message-WellFormed r (record s { world = w₁ })
            (record { connected = v.connected; filed = v.filed }))

  pub handshake-WellFormed :
      (fuel : ℕ) (r : Received) (s : Server k)
      → s.client_socket ≢ none
      → s.has_client ≡ false
      → P s.txn_gen s.pending
      → Ensures (WellFormed k P) (handshake k fuel r s)
  unfolding handshake
  handshake-WellFormed fuel (io_failed st) s c n m = record { connected = λ e. cc; filed = m }
  handshake-WellFormed fuel (malformed e) s c n m = record { connected = λ e. cc; filed = m }
  handshake-WellFormed fuel (message msg) s c n m =
      elim (Option-cases (handle_hello k fuel msg s)) [
        | inl e ↦ rw (e, handshake) tt
        | inr ((true, s₁), e) ↦
            let same : s₁ ≡ record s { world = s₁.world } =
              rw e at (handle_hello_keeps k fuel msg s) in
            rw (e, handshake)
              (record {
                connected = λ _. rw (ap (λ (x : Server k). x.client_socket) same) c;
                filed = subst (λ (x : Server k). P x.txn_gen x.pending) (sym same) m;
              })
        | inr ((false, s₁), e) ↦
            let same : s₁ ≡ record s { world = s₁.world } =
              rw e at (handle_hello_keeps k fuel msg s) in
            rw (e, handshake)
              (record {
                connected = λ x. cc;
                filed = subst (λ (x : Server k). P x.txn_gen x.pending) (sym same) m;
              })
      ]
