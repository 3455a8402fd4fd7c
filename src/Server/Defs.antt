-- ===== src/Server/Defs.antt =====
-- `MiniIcsServer` of mini-ics/include/mini_ics/server.hpp and mini-ics/src/server.cpp. The object is
-- one record; `world` is the kernel behind its sockets. Log calls are left out: they change nothing
-- but the log.
use qemu_pcie_vip.Base.{
  ℕ, zero, suc, List, [], Bool, true, false, not, ◌&&◌, ◌||◌, Option, none, some, if◌then◌else◌,
}
use qemu_pcie_vip.Protocol.Types.{
  Header, Message, hello, hello_ack, dma_read_rsp, dma_write_rsp, shutdown, success, code,
  status_code, has_type, flag_is_response,
}
use qemu_pcie_vip.Protocol.Codec.{make_header, serialize_message}
use qemu_pcie_vip.Socket.Kernel.{Kernel, Fd}
use qemu_pcie_vip.Socket.Transfer.{
  IoStatus, ok, timeout, disconnected, error, is_ok, send_all, wait_readable,
}
use qemu_pcie_vip.Socket.Framing.{Received, message, io_failed, malformed, read_message}
use qemu_pcie_vip.Socket.Connection.{
  UnixListener, closed_listener, close_fd, move_assign, close_listener, listen_on, accept_on,
}
use qemu_pcie_vip.Transaction.Ids.{TransactionIdGenerator}
use qemu_pcie_vip.Transaction.Queue.{BlockingQueue, empty_queue, push, shut_down}
use qemu_pcie_vip.Transaction.Pending.{Table, complete, cancel_all}

pub record Server (k : Kernel) : Type 0 where
  pub socket_path : List ℕ
  pub io_timeout_ms : ℕ
  pub request_timeout_ms : ℕ
  pub listener : UnixListener
  pub client_socket : Fd
  pub running : Bool
  pub has_client : Bool
  pub stop_requested : Bool
  pub txn_gen : TransactionIdGenerator
  pub inbound_queue : BlockingQueue Message
  pub pending : Table
  pub world : k.World

abbrev pub hello_ack_header : Message → Header
hello_ack_header msg =
    make_header (code hello_ack) msg.header.txn_id 0 0 (status_code success)
      msg.header.sim_timestamp 0 flag_is_response 0

abbrev pub is_dma_response : Header → Bool
is_dma_response h = has_type h dma_read_rsp || has_type h dma_write_rsp

module _ (k : Kernel) where
  unfoldable pub new_server : List ℕ → ℕ → ℕ → k.World → Server k
  new_server path io_timeout_ms request_timeout_ms w = record {
    socket_path = path;
    io_timeout_ms = io_timeout_ms;
    request_timeout_ms = request_timeout_ms;
    listener = closed_listener;
    client_socket = none;
    running = false;
    has_client = false;
    stop_requested = false;
    txn_gen = record { next = 1 };
    inbound_queue = empty_queue;
    pending = [];
    world = w;
  }

  -- `Start` up to the start of the thread, which is `io_run` below.
  unfoldable pub start : Server k → Bool × Server k
  start s =
      let (l, w) = listen_on k s.socket_path 1 s.world in
      elim l [
        | none ↦ (false, record s { world = w })
        | some l ↦
            (true, record s { listener = l; running = true; stop_requested = false; world = w })
      ]

  -- `client_socket_.Close()`
  unfoldable pub close_client : Server k → Server k
  close_client s = record s { client_socket = none; world = close_fd k s.client_socket s.world }

  -- The client is closed and forgotten.
  unfoldable pub drop_client : Server k → Server k
  unfolding close_client
  drop_client s = record (close_client s) { has_client = false }

  -- `Stop`: after the join of the thread, the sockets are closed. A server that
  -- does not run is left as it is.
  unfoldable pub stop : Server k → Server k
  unfolding close_client
  stop s =
      if s.running
      then (let halted = record s {
        running = false;
        stop_requested = true;
        inbound_queue = shut_down s.inbound_queue;
        pending = cancel_all s.pending;
      } in
          let (l, w) = close_listener k halted.listener halted.world in
          close_client (record halted { listener = l; world = w }))
      else s

  -- A whole message out: the status of SendAll, under the send mutex.
  unfoldable pub send_bytes : ℕ → List ℕ → Server k → Option (IoStatus × Server k)
  send_bytes fuel bytes s = elim (send_all k fuel s.client_socket bytes s.io_timeout_ms s.world) [
    | none ↦ none
    | some (st, w) ↦ some (st, record s { world = w })
  ]

  unfoldable pub handle_hello : ℕ → Message → Server k → Option (Bool × Server k)
  unfolding send_bytes
  handle_hello fuel msg s = elim (has_type msg.header hello) [
    | false ↦ some (false, s)
    | true ↦ elim (send_bytes fuel (serialize_message (hello_ack_header msg) []) s) [
      | none ↦ none
      | some (st, s₁) ↦ some (is_ok st, s₁)
    ]
  ]

  unfoldable pub dispatch_incoming : Message → Server k → Server k
  dispatch_incoming msg s =
      if is_dma_response msg.header
      then record s { pending = (complete msg.header.txn_id msg s.pending).1 }
      else record s { inbound_queue = push msg s.inbound_queue }

  -- The handshake of a client that was accepted.
  unfoldable pub handshake : ℕ → Received → Server k → Option (Server k)
  unfolding close_client handle_hello
  handshake fuel (message msg) s = elim (handle_hello fuel msg s) [
    | none ↦ none
    | some (greeted, s₁) ↦
        some (if greeted then record s₁ { has_client = true } else close_client s₁)
  ]
  handshake fuel (io_failed st) s = some (close_client s)
  handshake fuel (malformed e) s = some (close_client s)

  -- The branch of the loop with no client.
  unfoldable pub accept_client : ℕ → Server k → Option (Server k)
  unfolding handshake
  accept_client fuel s = elim (accept_on k fuel s.listener s.io_timeout_ms s.world) [
    | none ↦ none
    | some (st, fd, w) ↦ elim (is_ok st) [
      | false ↦ some (record s { world = w })
      | true ↦
          let (client, w₁) = move_assign k s.client_socket fd w in
          elim (read_message k fuel client s.io_timeout_ms w₁) [
            | none ↦ none
            | some (r, w₂) ↦ handshake fuel r (record s { client_socket = client; world = w₂ })
          ]
    ]
  ]

  -- What is done with what was read from a client after the handshake.
  unfoldable pub take_message : Received → Server k → Server k
  unfolding drop_client dispatch_incoming
  take_message (message msg) s =
      if has_type msg.header shutdown
      then drop_client (record s { inbound_queue = push msg s.inbound_queue })
      else dispatch_incoming msg s
  take_message (io_failed st) s = drop_client s
  take_message (malformed e) s = drop_client s

  -- The branch of the loop with a client.
  unfoldable pub serve_client : ℕ → Server k → Option (Server k)
  unfolding take_message
  serve_client fuel s = elim (wait_readable k fuel s.client_socket s.io_timeout_ms s.world) [
    | none ↦ none
    | some (timeout, w) ↦ some (record s { world = w })
    | some (disconnected, w) ↦ some (drop_client (record s { world = w }))
    | some (error, w) ↦ some (drop_client (record s { world = w }))
    | some (ok, w) ↦ elim (read_message k fuel s.client_socket s.io_timeout_ms w) [
      | none ↦ none
      | some (r, w₁) ↦ some (take_message r (record s { world = w₁ }))
    ]
  ]

  -- One round of the loop of `IoThreadMain`, its test included.
  unfoldable pub io_step : ℕ → Server k → Option (Server k)
  unfolding accept_client serve_client
  io_step fuel s = elim (s.running && not s.stop_requested) [
    | false ↦ some s
    | true ↦ elim s.has_client [ false ↦ accept_client fuel s | true ↦ serve_client fuel s ]
  ]

  -- The first `rounds` rounds.
  unfoldable pub io_run : ℕ → ℕ → Server k → Option (Server k)
  unfolding io_step
  io_run zero fuel s = some s
  io_run (suc rounds) fuel s = elim (io_step fuel s) [
    | none ↦ none
    | some s₁ ↦ io_run rounds fuel s₁
  ]
