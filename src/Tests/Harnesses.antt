-- ===== src/Tests/Harnesses.antt =====
-- The Verilator harness with the device and the host of Boards.
use qemu_pcie_vip.Base.{
  ℕ, ◌/◌, ◌^◌, ◌<◌, ◌≡◌, ◌⊎◌, ◌↔◌, ◌==◌, refl, ap, arith, List, [], ◌++◌, Bool, true, false, Option,
  none, some, All, Ensures, length, take, if◌then◌else◌,
}
use qemu_pcie_vip.Protocol.Types.{dma_read_req, code}
use qemu_pcie_vip.Endpoint.Defs.{succeeded, value_bytes}
use qemu_pcie_vip.Protocol.Codec.{make_header}
use qemu_pcie_vip.Driver.Layout.{descriptors}
use qemu_pcie_vip.Server.Requests.{Request}
use qemu_pcie_vip.Endpoint.Traffic.{Sent}
use qemu_pcie_vip.Harness.Ports.{CplPorts, Harness, clock_tick, tick_accept}
use qemu_pcie_vip.Harness.Words.{
  read_le16, read_le32, read_le64, pack, unpack, le_loop, store_le, store_loop, pack_loop,
  unpack_loop,
}
use qemu_pcie_vip.Harness.Dma.{
  serve_read, payload_of, dma_read, dma_write, read_rounds, poll_read, send_chunks, send_completion,
  header_high, header_low, write_rounds, poll_write, serve_write,
}
use qemu_pcie_vip.Harness.Headers.{received}
use qemu_pcie_vip.Harness.Completions.{heard, read_request, serve_read_delivers}
use qemu_pcie_vip.Harness.Faults.{Returns, read_answer, serve_read_faults}
use qemu_pcie_vip.Harness.Faults.Answered.{AnswersReads, run_generic_dma-Returns}
use qemu_pcie_vip.Harness.Ring.{
  Ring, run_generic_dma, ring_loop, serve_descriptor, perform, transfer, report, is_runnable,
  parse_descriptor, completion_entry,
}
use qemu_pcie_vip.Harness.Ring.Trace.{Refused}
use qemu_pcie_vip.Harness.Ring.Served.{Ran, run_generic_dma-Served}
use qemu_pcie_vip.Tests.Boards.{
  model, receiver, memory_at, bench, host, host_log, host_answer, slice, slice-IsByte, length-slice,
}

abbrev ring : Ring
ring = record { desc_base = 0x1000; cpl_base = 0x4000; count = 2; sim_time = 10 }

abbrev summary : Option (Bool × ℕ × Harness model × List Sent) → Option (Bool × ℕ × ℕ)
summary none = none
summary (some (good, head, h, log)) = some (good, head, length log)

-- Two descriptors: two fetches, a read, a write, two completions and one interrupt.
ring_runs : summary (run_generic_dma model host ring 2 0 (bench false 0) []) ≡ some (true, 2, 7)
unfolding run_generic_dma ring_loop serve_descriptor perform transfer report is_runnable
    parse_descriptor read_le16 read_le32 read_le64 le_loop completion_entry store_le store_loop
    dma_read dma_write read_rounds poll_read serve_read send_chunks send_completion header_high
    header_low pack pack_loop unpack unpack_loop write_rounds poll_write serve_write tick_accept
    clock_tick memory_at host_answer make_header descriptors value_bytes
ring_runs = refl

serve_read_delivers_example :
    (h' : Harness model) × (beats : List CplPorts) × (serve_read model host 7 10 (bench true 40) []
      ≡ some
          (h', (host.send_request_to_host (read_request model receiver 10 (bench true 40)) []).1))
    × (heard model receiver h' ≡ heard model receiver (bench true 40) ++ beats)
    × (received beats ≡ take 40 (slice 40 0x2000))
    × All (λ c. c.hdr_lo / 2 ^ 40 ≡ 7) beats
unfolding host_answer make_header
serve_read_delivers_example =
    serve_read_delivers model receiver host 7 10 (bench true 40) []
      (host_answer (read_request model receiver 10 (bench true 40))) refl refl
      (slice-IsByte 40 0x2000) (omega arith) (omega arith)

serve_read_faults_example : (serve_read model host 7 10 (bench true 40) [] ≡ none) ↔ (
    (succeeded (read_answer model host 10 (bench true 40) []) ≡ false)
    ⊎ (succeeded (read_answer model host 10 (bench true 40) []) ≡ true)
      × (length (payload_of (read_answer model host 10 (bench true 40) [])) < 40))
serve_read_faults_example = serve_read_faults model host 7 10 (bench true 40) []

is_read : (q : Request) → q.type ≡ code dma_read_req → (q.type == code dma_read_req) ≡ true
is_read q e = ground arith

host-AnswersReads : AnswersReads model host
unfolding host_answer make_header
host-AnswersReads q s e = (
  refl,
  omega (
    arith,
    length-slice q.transfer_len q.address,
    ap (λ b. length (if b then slice q.transfer_len q.address else [])) (is_read q e),
  ),
)

run_generic_dma-Returns_example : Returns (run_generic_dma model host ring 2 0 (bench false 0) [])
run_generic_dma-Returns_example =
    run_generic_dma-Returns model host host-AnswersReads ring 2 0 (bench false 0) []

run_generic_dma-Served_example :
    Ensures
      (λ a.
        let (good, head', h', s') = a in
        (Refused ring 2 0 × (good ≡ false) × (head' ≡ 0) × (h' ≡ bench false 0) × (s' ≡ []))
        ⊎ (¬ Refused ring 2 0)
          × (head' ≡ (if good then 2 else 0))
          × Ran model host host_log ring 2 0 (bench false 0) [] (good, h', s'))
      (run_generic_dma model host ring 2 0 (bench false 0) [])
run_generic_dma-Served_example =
    run_generic_dma-Served model host host_log ring 2 0 (bench false 0) []
