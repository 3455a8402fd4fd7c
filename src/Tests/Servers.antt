-- ===== src/Tests/Servers.antt =====
-- The server over the kernel of Loopback: a client sends messages, and the endpoint side waits for
-- them.
use qemu_pcie_vip.Base.{ℕ, ◌≡◌, ◌⊎◌, refl, arith, List, [], ◌++◌, true, false, none, some, Ensures}
use qemu_pcie_vip.Protocol.Types.{Message, dma_read_req, dma_read_rsp, code}
use qemu_pcie_vip.Protocol.Bytes.{get_u16, get_u32, get_u64}
use qemu_pcie_vip.Protocol.Codec.{
  make_header, serialize_header, serialize_message, deserialize_header,
}
use qemu_pcie_vip.Socket.Transfer.{send_all, send_loop, recv_all, recv_loop, wait_readable}
use qemu_pcie_vip.Socket.Framing.{read_message, with_payload}
use qemu_pcie_vip.Transaction.Ids.{next_id}
use qemu_pcie_vip.Transaction.Queue.{empty_queue, push}
use qemu_pcie_vip.Transaction.Pending.{find, complete, assign, erase, register_pending, finish}
use qemu_pcie_vip.Server.Defs.{
  Server, new_server, send_bytes, dispatch_incoming, take_message, serve_client, io_step, io_run,
}
use qemu_pcie_vip.Server.Requests.{
  Request, request_header, prepare, await_response, after_request, send_request_to_host,
  send_response,
}
use qemu_pcie_vip.Server.Invariant.{WellFormed}
use qemu_pcie_vip.Server.Invariant.Filed.{Answers, Filed, Filed-Survives}
use qemu_pcie_vip.Server.Invariant.Steps.{io_run-WellFormed}
use qemu_pcie_vip.Server.Correlation.{Conversed, send_request_own}
use qemu_pcie_vip.Server.Clearance.{send_request_clears}
use qemu_pcie_vip.Server.Delivery.{send_response_wire}
use qemu_pcie_vip.Tests.Loopback.{kernel, laws}
use qemu_pcie_vip.Tests.Wire.{write_header, write_payload}

-- A DMA response to transaction 1 with four bytes of data.
abbrev pub answer : Message
unfolding make_header
answer = record {
  header = make_header (code dma_read_rsp) 1 0 0 0 9 4 1 0;
  payload = write_payload;
}

unfoldable pub connected_to : List ℕ → Server kernel
unfolding new_server
connected_to inbox =
    record (new_server kernel [] 100 200 (record { inbox = inbox; outbox = []; interrupts = 1 })) {
      client_socket = some 7;
      running = true;
      has_client = true;
    }

pub connected_to-WellFormed : (inbox : List ℕ) → WellFormed kernel Filed (connected_to inbox)
unfolding find connected_to
connected_to-WellFormed inbox = record {
  connected = λ e f. cc;
  filed = ((λ j m e. cc), (λ j v e. cc));
}

abbrev read_request : Request
read_request = record {
  type = code dma_read_req;
  address = 0x2000;
  byte_enable = 0;
  payload = [];
  transfer_len = 4;
  sim_timestamp = 60;
  expect_response = true;
}

-- An MMIO write arrives first, and the response behind it.
abbrev pub both : List ℕ
unfolding serialize_message serialize_header make_header
both =
    serialize_message write_header write_payload ++ serialize_message answer.header answer.payload

abbrev pub asked : Server kernel
unfolding prepare next_id register_pending assign serialize_message serialize_header make_header
    finish erase
asked = record (connected_to both) {
  txn_gen = record { next = 2 };
  inbound_queue = push (record { header = write_header; payload = write_payload }) empty_queue;
  world = record {
    inbox = [];
    outbox = serialize_message (request_header read_request 1) [];
    interrupts = 0;
  };
}

pub asked-running : asked.running ≡ true
unfolding connected_to asked
asked-running = refl

pub connected_to-running : (inbox : List ℕ) → (connected_to inbox).running ≡ true
unfolding connected_to
connected_to-running inbox = refl

request_runs :
    send_request_to_host kernel 2 90 read_request (connected_to both) ≡ some (some answer, asked)
unfolding send_request_to_host prepare next_id register_pending assign send_bytes send_all send_loop
    after_request await_response find finish erase io_run io_step serve_client wait_readable
    read_message recv_all recv_loop with_payload deserialize_header serialize_message
    serialize_header make_header get_u16 get_u32 get_u64 take_message dispatch_incoming complete
    push connected_to
request_runs = refl

send_request_own_example :
    Answers 1 answer
    × (read_request.expect_response ≡ true)
    × ((connected_to both).has_client ≡ true)
    × Conversed kernel laws 2 90 1 read_request (connected_to both) answer
unfolding connected_to
send_request_own_example =
    send_request_own kernel laws 2 90 read_request (connected_to both) asked answer
      (connected_to-WellFormed both) (omega arith) request_runs

-- The same without the second message: one round reads the write.
abbrev one : List ℕ
unfolding serialize_message serialize_header make_header
one = serialize_message write_header write_payload

abbrev delivered_one : Server kernel
unfolding connected_to
delivered_one = record (connected_to one) {
  inbound_queue = push (record { header = write_header; payload = write_payload }) empty_queue;
  world = record { inbox = []; outbox = []; interrupts = 0 };
}

io_run-WellFormed_example :
    Ensures (WellFormed kernel Filed) (io_run kernel 3 90 (connected_to both))
io_run-WellFormed_example =
    io_run-WellFormed kernel Filed Filed-Survives 3 90 (connected_to both)
      (connected_to-WellFormed both)

abbrev replied : Server kernel
unfolding connected_to serialize_message serialize_header make_header
replied = record (connected_to []) {
  world = record {
    inbox = [];
    outbox = serialize_message write_header write_payload;
    interrupts = 0;
  };
}

response_runs :
    send_response kernel 90 write_header write_payload (connected_to []) ≡ some (true, replied)
unfolding send_response send_bytes send_all send_loop serialize_message serialize_header make_header
    connected_to replied
response_runs = refl

send_response_wire_example :
    (((connected_to []).has_client ≡ false) × (true ≡ false) × (replied ≡ connected_to []))
    ⊎ ((connected_to []).has_client ≡ true)
      × (replied ≡ record (connected_to []) { world = replied.world })
      × ((true ≡ false)
          ⊎ (replied.world.outbox
              ≡ (connected_to []).world.outbox ++ serialize_message write_header write_payload))
unfolding laws
send_response_wire_example =
    send_response_wire kernel laws 90 (connected_to []) replied write_header write_payload true
      response_runs

send_request_clears_example : find 1 asked.pending ≡ none
unfolding connected_to
send_request_clears_example =
    send_request_clears kernel 2 90 read_request (connected_to both) asked (some answer)
      (connected_to-WellFormed both) request_runs
