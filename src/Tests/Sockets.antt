-- ===== src/Tests/Sockets.antt =====
-- The socket loops over a kernel that interrupts and splits transfers.
use qemu_pcie_vip.Base.{
  ℕ, ◌^◌, ◌≤◌, ◌≡◌, ◌≢◌, ◌⊎◌, refl, arith, List, [], ◌∷◌, ◌++◌, length, none, some,
}
use qemu_pcie_vip.Protocol.Codec.{
  serialize_header, serialize_message, deserialize_header, make_header,
}
use qemu_pcie_vip.Protocol.Bytes.{get_u16, get_u32, get_u64}
use qemu_pcie_vip.Socket.Transfer.{IoStatus, ok, send_all, send_loop, recv_all, recv_loop}
use qemu_pcie_vip.Socket.Exact.{send_all_exact, recv_all_exact}
use qemu_pcie_vip.Socket.Termination.{transfers_return}
use qemu_pcie_vip.Socket.Framing.{
  message, io_failed, read_message, with_payload, read_message_exact, read_message_returns,
}
use qemu_pcie_vip.Tests.Loopback.{World, kernel, laws}
use qemu_pcie_vip.Tests.Wire.{write_header, write_payload, write_header-IsValid}

abbrev seven : List ℕ
seven = 1 ∷ 2 ∷ 3 ∷ 4 ∷ 5 ∷ 6 ∷ 7 ∷ []

abbrev at_start : World
at_start = record { inbox = seven; outbox = []; interrupts = 2 }

abbrev sent_all : World
sent_all = record { inbox = seven; outbox = seven; interrupts = 0 }

abbrev read_five : World
read_five = record { inbox = 6 ∷ 7 ∷ []; outbox = []; interrupts = 0 }

-- Two interruptions, and chunks of five and two bytes.
send_runs : send_all kernel 20 (some 7) seven 1000 at_start ≡ some (ok, sent_all)
unfolding send_all send_loop
send_runs = refl

recv_runs :
    recv_all kernel 20 (some 7) 5 1000 at_start ≡ some (ok, 1 ∷ 2 ∷ 3 ∷ 4 ∷ 5 ∷ [], read_five)
unfolding recv_all recv_loop
recv_runs = refl

send_all_exact_example :
    (sent_all.outbox ≡ at_start.outbox ++ seven) × (sent_all.inbox ≡ at_start.inbox)
unfolding laws
send_all_exact_example =
    send_all_exact kernel laws 20 (some 7) seven 1000 at_start sent_all send_runs

recv_all_exact_example :
    (length {A = ℕ} (1 ∷ 2 ∷ 3 ∷ 4 ∷ 5 ∷ []) ≡ 5)
    × (at_start.inbox ≡ (1 ∷ 2 ∷ 3 ∷ 4 ∷ 5 ∷ []) ++ read_five.inbox)
    × (read_five.outbox ≡ at_start.outbox)
    × (read_five.interrupts ≤ at_start.interrupts)
unfolding laws
recv_all_exact_example =
    recv_all_exact kernel laws 20 (some 7) 5 1000 _ at_start read_five recv_runs

transfers_return_example :
    (send_all kernel 20 (some 7) seven 1000 at_start ≢ none)
    × (recv_all kernel 20 (some 7) 5 1000 at_start ≢ none)
unfolding laws
transfers_return_example =
    transfers_return kernel laws 20 (some 7) 1000 at_start seven 5 (omega arith) (omega arith)

-- A message, and one byte of the next behind it.
abbrev arriving : World
unfolding serialize_header make_header
arriving = record {
  inbox = serialize_header write_header ++ (write_payload ++ (0x4d ∷ []));
  outbox = [];
  interrupts = 1;
}

abbrev arrived : World
arrived = record { inbox = 0x4d ∷ []; outbox = []; interrupts = 0 }

read_runs :
    read_message kernel 40 (some 7) 50 arriving
    ≡ some (message (record { header = write_header; payload = write_payload }), arrived)
unfolding read_message recv_all recv_loop with_payload serialize_header make_header
    deserialize_header get_u16 get_u32 get_u64
read_runs = refl

read_message_exact_example :
    ((message (record { header = write_header; payload = write_payload })
        ≡ message (record { header = write_header; payload = write_payload }))
      × (arrived.inbox ≡ 0x4d ∷ []))
    ⊎ ((st : IoStatus) × (st ≢ ok)
        × (message (record { header = write_header; payload = write_payload }) ≡ io_failed st))
unfolding laws serialize_message serialize_header make_header
read_message_exact_example =
    read_message_exact kernel laws 40 (some 7) 50 write_header write_payload (0x4d ∷ []) arriving
      arrived _ write_header-IsValid refl refl read_runs

read_message_returns_example : read_message kernel (2 ^ 25) (some 7) 50 arriving ≢ none
unfolding laws arriving
read_message_returns_example =
    read_message_returns kernel laws (2 ^ 25) (some 7) 50 arriving (omega arith)
