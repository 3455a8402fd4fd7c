-- ===== src/Server/Delivery.antt =====
-- From the wire to the queue: a round of the I/O thread against the messages in the client's stream,
-- and `SendResponse` against the stream to the client.
use qemu_pcie_vip.Base.{
  ℕ, [], ◌∷◌, ◌==◌, ◌≢◌, Option, ◌≡◌, ◌⊎◌, inl, inr, arith, List, ◌++◌, Bool, true, false, none,
  some, Option-cases, Bool-cases,
}
use qemu_pcie_vip.Protocol.Types.{Header, Message, dma_read_rsp, dma_write_rsp, shutdown, code}
use qemu_pcie_vip.Protocol.Codec.{serialize_message}
use qemu_pcie_vip.Socket.Kernel.{Kernel, Fd, StreamLaws}
use qemu_pcie_vip.Socket.Transfer.{IoStatus, ok, timeout, disconnected, error, send_all}
use qemu_pcie_vip.Socket.Exact.{send_all_exact}
use qemu_pcie_vip.Transaction.Queue.{BlockingQueue}
use qemu_pcie_vip.Transaction.Pending.{Table, find}
use qemu_pcie_vip.Server.Defs.{Server, send_bytes}
use qemu_pcie_vip.Server.Requests.{send_response}

-- The types of the responses to DMA requests.
abbrev pub IsDmaResponse : ℕ → Type 0
IsDmaResponse type = (type ≡ code dma_read_rsp) ⊎ (type ≡ code dma_write_rsp)

abbrev pub appended : Message → BlockingQueue Message → BlockingQueue Message
appended msg q = record { items = q.items ++ (msg ∷ []); shut = q.shut }

-- What is found under an id of the table behind the filing of `msg`, whose id is this one or not.
abbrev pub filed_at : Message → Bool → Option (Option Message) → Option (Option Message)
filed_at msg false before = before
filed_at msg true none = none
filed_at msg true (some v) = some (some msg)

module _ (k : Kernel) (laws : StreamLaws k) where
  open laws use {incoming, outgoing}

  -- The kernel's close of a socket, if it is open.
  abbrev pub closed : Fd → k.World → k.World
  closed none w = w
  closed (some fd) w = k.close fd w

  -- What the I/O thread does with a message it has read, from a server whose world is that behind the
  -- read. The response to a DMA request is filed for its id, if that is pending; any other message is
  -- appended to the queue, once, and with a SHUTDOWN the client is closed and forgotten.
  pub data Handed (s : Server k) (msg : Message) (s' : Server k) : Type 0 where
    filed :
        (t : Table)
        → IsDmaResponse msg.header.msg_type
        → s' ≡ record s { pending = t }
        → ((j : ℕ) → find j t ≡ filed_at msg (msg.header.txn_id == j) (find j s.pending))
        → Handed s msg s'
    queued :
        ¬ IsDmaResponse msg.header.msg_type
        → msg.header.msg_type ≢ code shutdown
        → s' ≡ record s { inbound_queue = appended msg s.inbound_queue }
        → Handed s msg s'
    said_goodbye :
        msg.header.msg_type ≡ code shutdown
        → s' ≡ record s {
          inbound_queue = appended msg s.inbound_queue;
          client_socket = none;
          has_client = false;
          world = closed s.client_socket s.world;
        }
        → Handed s msg s'

  -- The three ways a round with a client can end.
  pub data Round (s : Server k) (msg : Message) (rest : List ℕ) (s' : Server k) : Type 0 where
    -- Nothing was there to read: only the world went on, and the stream is untouched.
    idle :
        (w : k.World)
        → s' ≡ record s { world = w }
        → incoming s.client_socket w ≡ incoming s.client_socket s.world
        → Round s msg rest s'
    -- The message was read whole and handled; the stream stands behind it.
    delivered :
        (w : k.World)
        → Handed (record s { world = w }) msg s'
        → incoming s.client_socket w ≡ rest
        → Round s msg rest s'
    -- The socket failed: the client is closed and forgotten, and nothing else has changed.
    lost :
        (w : k.World)
        → s'
          ≡ record s { client_socket = none; has_client = false; world = closed s.client_socket w }
        → Round s msg rest s'

  -- SendResponse: without a client it returns false and does nothing. With one, when it returns true
  -- the kernel has taken exactly the serialised response behind what it had before; and whatever it
  -- returns, only the world has changed.
  pub send_response_wire :
      (fuel : ℕ) (s s' : Server k) (h : Header) (payload : List ℕ) (done : Bool)
      → send_response k fuel h payload s ≡ some (done, s')
      → ((s.has_client ≡ false) × (done ≡ false) × (s' ≡ s))
        ⊎ (s.has_client ≡ true)
          × (s' ≡ record s { world = s'.world })
          × ((done ≡ false)
              ⊎ (outgoing s.client_socket s'.world
                  ≡ outgoing s.client_socket s.world ++ serialize_message h payload))
  unfolding send_response send_bytes
  send_response_wire fuel s s' h payload done e = elim (Bool-cases s.has_client) [
    | inr alone ↦ inl (ground arith)
    | inl client ↦
        let (same, out) =
          sent client
            (Option-cases (send_all k fuel s.client_socket bytes s.io_timeout_ms s.world)) in
        inr (client, same, out)
  ]
    where
      bytes : List ℕ
      bytes = serialize_message h payload

      sent :
          s.has_client ≡ true
          → ((send_all k fuel s.client_socket bytes s.io_timeout_ms s.world ≡ none)
              ⊎ ((r : IoStatus × k.World) × (send_all k fuel s.client_socket bytes s.io_timeout_ms
                      s.world
                    ≡ some r)))
          → (s' ≡ record s { world = s'.world })
            × ((done ≡ false)
                ⊎ (outgoing s.client_socket s'.world ≡ outgoing s.client_socket s.world ++ bytes))
      sent c (inl stuck) = absurd (ground arith)
      sent c (inr ((ok, w), p)) =
          let (out, _) =
            send_all_exact k laws fuel s.client_socket bytes s.io_timeout_ms s.world w p in
          let same : record s { world = w } ≡ s' = ground arith in
          (ground arith, inr (ground arith))
      sent c (inr ((timeout, w), p)) = (ground arith, inl (ground arith))
      sent c (inr ((disconnected, w), p)) = (ground arith, inl (ground arith))
      sent c (inr ((error, w), p)) = (ground arith, inl (ground arith))
