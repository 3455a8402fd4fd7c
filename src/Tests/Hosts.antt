-- ===== src/Tests/Hosts.antt =====
-- Guest memory at a small size, and the client that services DMA over the kernel of Loopback.
use qemu_pcie_vip.Base.{
  ℕ, ◌+◌, ◌-◌, ◌^◌, ◌<◌, ◌≤◌, ◌≡◌, ◌⊎◌, ◌↔◌, refl, arith, List, [], ◌∷◌, ◌++◌, true, false, some,
  length, replicate,
}
use qemu_pcie_vip.Protocol.Types.{
  Header, MessageType, dma_read_req, dma_read_rsp, dma_write_req, dma_write_rsp, msi_x, code,
}
use qemu_pcie_vip.Protocol.Bytes.{get_u16, get_u32, get_u64}
use qemu_pcie_vip.Protocol.Codec.{
  make_header, serialize_header, serialize_message, deserialize_header,
}
use qemu_pcie_vip.Socket.Transfer.{send_all, send_loop, recv_all, recv_loop}
use qemu_pcie_vip.Socket.Framing.{read_message, with_payload}
use qemu_pcie_vip.Endpoint.Defs.{completion}
use qemu_pcie_vip.Host.Memory.{
  HostMemory, in_bounds, write, read, overwrite, in_bounds_iff, write_lem,
}
use qemu_pcie_vip.Host.Client.{
  HostClient, service_dma_read, service_dma_write, service_message, service_loop,
  service_rtl_initiated_transactions, send_dma_read_response, send_dma_write_response, send_out,
  read_incoming, verified,
}
use qemu_pcie_vip.Host.Service.{service_verified}
use qemu_pcie_vip.Tests.Loopback.{kernel}

abbrev small : HostMemory
small = record { bytes = 9 ∷ 8 ∷ 7 ∷ 6 ∷ 5 ∷ [] }

write_runs : write 1 (2 ∷ 3 ∷ []) small ≡ (true, record { bytes = 9 ∷ 2 ∷ 3 ∷ 6 ∷ 5 ∷ [] })
unfolding write overwrite in_bounds
write_runs = refl

wrapped : in_bounds small (2 ^ 64 - 1) 2 ≡ false
unfolding in_bounds
wrapped = refl

in_bounds_iff_example : (in_bounds small 3 2 ≡ true) ↔ (◌≡◌ {A = ℕ} 2 0 ⊎ (3 + 2 ≤ 5))
in_bounds_iff_example = in_bounds_iff small 3 2 (omega arith) (omega arith) (omega arith)

write_lem_example :
    let (done, mem') = write 1 (2 ∷ 3 ∷ []) small in
    ((done ≡ true)
      × (length mem'.bytes ≡ 5)
      × (read 1 2 mem' ≡ some (2 ∷ 3 ∷ []))
      × ((a n : ℕ) → (a + n ≤ 1) ⊎ (1 + 2 ≤ a) → read a n mem' ≡ read a n small))
    ⊎ (done ≡ false) × (mem' ≡ small) × (5 < 1 + 2)
write_lem_example = write_lem 1 (2 ∷ 3 ∷ []) small (omega arith) (omega arith) (omega arith)

-- The three messages of the endpoint's sequence, on a memory of 32 bytes.
abbrev request : MessageType → ℕ → ℕ → List ℕ → ℕ → List ℕ
unfolding serialize_message serialize_header make_header
request type txn_id address payload transfer_len =
    serialize_message
      (make_header (code type) txn_id address 0 0 60 (length payload) 0 transfer_len) payload

abbrev client : HostClient kernel
unfolding request
client = record {
  socket_path = [];
  timeout_ms = 500;
  socket = some 7;
  memory = record { bytes = replicate 32 1 };
  ns = 100;
  txn_gen = record { next = 1 };
  mock_command = [];
  world = record {
    inbox =
        request dma_read_req 1 0 [] 4
        ++ (request dma_write_req 2 8 completion 16 ++ request msi_x 3 0 [] 0);
    outbox = [];
    interrupts = 1;
  };
}

abbrev read_reply : Header
unfolding make_header
read_reply = make_header (code dma_read_rsp) 1 0 0 0 105 4 1 0

abbrev write_reply : Header
unfolding make_header
write_reply = make_header (code dma_write_rsp) 2 8 0 0 120 0 1 0

abbrev serviced : HostClient kernel
unfolding client serialize_message serialize_header read_reply write_reply
serviced = record client {
  memory = record { bytes = replicate 8 1 ++ (completion ++ replicate 8 1) };
  ns = 140;
  world = record {
    inbox = [];
    outbox = serialize_message read_reply (replicate 4 1) ++ serialize_message write_reply [];
    interrupts = 0;
  };
}

service_runs : service_rtl_initiated_transactions kernel 60 client ≡ some (true, serviced)
unfolding service_rtl_initiated_transactions service_loop service_message service_dma_read
    service_dma_write send_dma_read_response send_dma_write_response send_out read_incoming verified
    write read overwrite in_bounds client serviced request read_reply write_reply serialize_message
    serialize_header make_header deserialize_header get_u16 get_u32 get_u64 read_message recv_all
    recv_loop with_payload send_all send_loop
service_runs = refl

service_verified_example :
    (addr : ℕ) × (write addr completion client.memory ≡ (true, serviced.memory))
service_verified_example = service_verified kernel 60 client serviced service_runs
