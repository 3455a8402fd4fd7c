-- ===== src/Tests/Dpis.antt =====
-- The DPI shim over the kernel of Loopback.
use qemu_pcie_vip.Base.{◌%◌, ◌^◌, ap, arith, if◌then◌else◌, [], ◌∷◌, true, none, some}
use qemu_pcie_vip.Protocol.Types.{dma_read_req, code}
use qemu_pcie_vip.Server.Requests.{poll_inbound, send_request_to_host}
use qemu_pcie_vip.Dpi.{held, Shim, dpi_poll, dpi_send_request}
use qemu_pcie_vip.Dpi.Staging.{Gives, Takes, poll_delivers, Ends, meant, dpi_send_request_cases}
use qemu_pcie_vip.Tests.Loopback.{kernel}
use qemu_pcie_vip.Tests.Servers.{
  connected_to, connected_to-WellFormed, both, asked, asked-running, connected_to-running,
}

-- A shim around a server that has taken a message in, and one that has not.
abbrev with_message : Shim kernel
with_message = record { slot = held asked; inbound_payload = []; response_payload = 9 ∷ [] }

abbrev waiting : Shim kernel
waiting = record {
  slot = held (connected_to both);
  inbound_payload = 8 ∷ [];
  response_payload = [];
}

poll_delivers_example :
    Gives
      (dpi_poll kernel 2 90 true with_message)
      (poll_inbound kernel 2 90 asked)
      (Takes kernel 2 90 asked with_message)
unfolding connected_to
poll_delivers_example =
    poll_delivers kernel 2 90 asked with_message
      (ap (λ b. if b then some asked else none) asked-running)

dpi_send_request_cases_example :
    let q = meant kernel (code dma_read_req % 2 ^ 16) 0x2000 none 4 in
    Gives
      (dpi_send_request kernel 2 90 true (code dma_read_req) 0x2000 none 4 waiting)
      (send_request_to_host kernel 2 90 q (connected_to both))
      (Ends kernel 2 90 q (connected_to both) waiting)
unfolding connected_to
dpi_send_request_cases_example =
    dpi_send_request_cases kernel 2 90 (code dma_read_req) 0x2000 none 4 (connected_to both) waiting
      (ap (λ b. if b then some (connected_to both) else none) (connected_to-running both))
      (connected_to-WellFormed both) (omega arith)
