-- ===== src/Server/Correlation.antt =====
-- `SendRequestToHost`: which messages the caller gets, and what it sent for them.
pub mod Own
use qemu_pcie_vip.Base.{
  ℕ, ◌+◌, ◌%◌, ◌^◌, ◌<◌, ◌≡◌, ◌⊎◌, inl, inr, refl, sym, ap, subst, ◌∙◌, arith, List, ◌++◌, true,
  false, ◌==◌, Option, none, some, length, if◌then◌else◌, Option-cases, Bool-cases,
}
use qemu_pcie_vip.Protocol.Types.{
  Header, Message, protocol_magic, protocol_version, header_size, flag_none, success, status_code,
}
use qemu_pcie_vip.Protocol.Codec.{default_transfer_len, make_header, serialize_message}
use qemu_pcie_vip.Socket.Kernel.{Kernel, StreamLaws}
use qemu_pcie_vip.Socket.Transfer.{IoStatus, ok, timeout, disconnected, error, send_all}
use qemu_pcie_vip.Socket.Exact.{send_all_exact}
use qemu_pcie_vip.Transaction.Ids.{next_id}
use qemu_pcie_vip.Transaction.Pending.{Table, find, find-assign, assign, register_pending, finish}
use qemu_pcie_vip.Server.Defs.{Server, send_bytes, io_run}
use qemu_pcie_vip.Server.Requests.{
  Request, request_header, prepare, await_response, after_request, send_request_to_host,
}
use qemu_pcie_vip.Server.Invariant.{WellFormed}
use qemu_pcie_vip.Server.Invariant.Filed.{Answers, Filed}
use qemu_pcie_vip.Server.Correlation.Own.{finish-some, send_request-Answers}

-- The header of a request under an id, field by field.
abbrev pub header_under : ℕ → Request → Header
header_under id q = record {
  magic = protocol_magic;
  version = protocol_version;
  msg_type = q.type;
  flags = flag_none;
  header_len = header_size;
  payload_len = length q.payload % 2 ^ 32;
  txn_id = id;
  sim_timestamp = q.sim_timestamp;
  address = q.address;
  byte_enable = q.byte_enable;
  status = status_code success;
  reserved = 0;
  transfer_len =
      default_transfer_len q.type q.byte_enable (length q.payload % 2 ^ 32) q.transfer_len;
  reserved2 = 0;
}

module _ (k : Kernel) (laws : StreamLaws k) where
  open laws use {outgoing}

  -- A request went out under `id` and `m` came in for it: the request stands behind what was sent
  -- before, its id is pending beside the ids from before, the counter has moved on, and in the rounds
  -- of the I/O thread that follow `m` is filed under the id.
  pub record Conversed (rounds fuel id : ℕ) (q : Request) (s : Server k) (m : Message)
      : Type 0 where
    pub behind : k.World
    pub table : Table
    pub after : Server k
    pub sent :
        outgoing s.client_socket behind
        ≡ outgoing s.client_socket s.world ++ serialize_message (header_under id q) q.payload
    pub registered : (j : ℕ) → find j table ≡ (if id == j then some none else find j s.pending)
    pub waited :
        io_run k rounds fuel (record s {
          txn_gen = record { next = (id + 1) % 2 ^ 64 };
          pending = table;
          world = behind;
        })
        ≡ some after
    pub filed : find id after.pending ≡ some (some m)

  await_response-filed :
      (rounds fuel j : ℕ) (s s' : Server k) (m : Message)
      → find j s.pending ≡ some none
      → await_response k rounds fuel j s ≡ some (some m, s')
      → (s₁ : Server k) × (io_run k rounds fuel s ≡ some s₁) × (find j s₁.pending ≡ some (some m))
  unfolding await_response
  await_response-filed rounds fuel j s s' m there e = elim (Option-cases (io_run k rounds fuel s)) [
    | inl stuck ↦ absurd (ground arith)
    | inr (s₁, ran) ↦ (s₁, ran, finish-some j s₁.pending m (ground arith))
  ]

  -- Behind the send, where the response is waited for.
  request-Conversed :
      (rounds fuel : ℕ) (q : Request) (s s' : Server k) (m : Message) (w : k.World)
      → let id = s.txn_gen.next in
        outgoing s.client_socket w
          ≡ outgoing s.client_socket s.world ++ serialize_message (header_under id q) q.payload
        → await_response k rounds fuel id (record s {
          txn_gen = record { next = (id + 1) % 2 ^ 64 };
          pending = register_pending id s.pending;
          world = w;
        })
          ≡ some (some m, s')
        → Conversed rounds fuel id q s m
  unfolding register_pending
  request-Conversed rounds fuel q s s' m w out e =
      let id = s.txn_gen.next in
      let found : (j : ℕ)
          → find j (assign id none s.pending) ≡ (if id == j then some none else find j s.pending) =
        λ j. find-assign id j none s.pending in
      let (s₁, ran, filed) =
        await_response-filed rounds fuel id _ s' m (found id ∙ ground arith) e in
      record {
        behind = w;
        table = register_pending id s.pending;
        after = s₁;
        sent = out;
        registered = found;
        waited = ran;
        filed = filed;
      }

  prepare_lem :
      (q : Request) (s : Server k)
      → q.expect_response ≡ true
      → prepare k q s ≡ (
        s.txn_gen.next,
        record s {
          txn_gen = record { next = (s.txn_gen.next + 1) % 2 ^ 64 };
          pending = register_pending s.txn_gen.next s.pending;
        },
      )
  unfolding prepare next_id
  prepare_lem q s asks = rw (asks, prepare) refl

  -- A server whose pending requests are well filed and whose id counter does not wrap: a message that
  -- SendRequestToHost returns is a DMA response that carries the counter's value as its id. There was
  -- a client then, and the request is one that expects a response. The request went out to the client
  -- behind what was sent before, whole, with this very id in its header, and the message
  -- is what the table holds for the id after the rounds of the I/O thread behind the send, whatever
  -- else arrived in them.
  pub send_request_own :
      (rounds fuel : ℕ) (q : Request) (s s' : Server k) (m : Message)
      → WellFormed k Filed s
      → s.txn_gen.next + 1 < 2 ^ 64
      → send_request_to_host k rounds fuel q s ≡ some (some m, s')
      → Answers s.txn_gen.next m
        × (q.expect_response ≡ true)
        × (s.has_client ≡ true)
        × Conversed rounds fuel s.txn_gen.next q s m
  unfolding send_request_to_host send_bytes prepare next_id after_request make_header
  send_request_own rounds fuel q s s' m v h e =
      let (mine, asks, client) = send_request-Answers k rounds fuel q s s' m v h e in
      (
        mine,
        asks,
        client,
        went asks client
            (Option-cases (send_all k fuel s.client_socket bytes s.io_timeout_ms s.world)),
      )
    where
      bytes : List ℕ
      bytes = serialize_message (header_under s.txn_gen.next q) q.payload

      went :
          q.expect_response ≡ true
          → s.has_client ≡ true
          → ((send_all k fuel s.client_socket bytes s.io_timeout_ms s.world ≡ none)
              ⊎ ((r : IoStatus × k.World) × (send_all k fuel s.client_socket bytes s.io_timeout_ms
                      s.world
                    ≡ some r)))
          → Conversed rounds fuel s.txn_gen.next q s m
      went asks client (inl stuck) = absurd (cc (rw (client, send_request_to_host, stuck) at e))
      went asks client (inr ((ok, w), p)) =
          request-Conversed rounds fuel q s s' m w
            (send_all_exact k laws fuel s.client_socket bytes s.io_timeout_ms s.world w p).0
            (subst
              (λ (r : ℕ × Server k).
                await_response k rounds fuel r.0 (record r.1 { world = w }) ≡ some (some m, s'))
              (prepare_lem q s asks) (rw (client, send_request_to_host, p, asks) at e))
      went asks client (inr ((timeout, w), p)) =
          absurd (cc (rw (client, send_request_to_host, p, asks) at e))
      went asks client (inr ((disconnected, w), p)) =
          absurd (cc (rw (client, send_request_to_host, p, asks) at e))
      went asks client (inr ((error, w), p)) =
          absurd (cc (rw (client, send_request_to_host, p, asks) at e))
