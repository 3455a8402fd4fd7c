-- ===== src/Harness/Ring.antt =====
-- `RunGenericDma` of rtl/alex/verilator_qemu_main.cpp: the descriptor ring, over a Link. `none` is a
-- read out of bounds, which is undefined in the source.
pub mod Trace
pub mod Round
pub mod Served
use qemu_pcie_vip.Base.{
  ℕ, zero, suc, ◌+◌, ◌-◌, ◌*◌, ◌%◌, ◌^◌, List, [], Bool, true, false, not, ◌&&◌, ◌||◌, ◌==◌, ltb,
  leb, Option, none, some, length, get_or, replicate, bit_and, if◌then◌else◌,
}
use qemu_pcie_vip.Protocol.Types.{Message, dma_read_req, dma_write_req, code}
use qemu_pcie_vip.Server.Requests.{Request}
use qemu_pcie_vip.Endpoint.Defs.{Link, succeeded, msi_x_request}
use qemu_pcie_vip.Harness.Ports.{Dut, Harness}
use qemu_pcie_vip.Harness.Words.{read_le16, read_le32, read_le64, store_le}
use qemu_pcie_vip.Harness.Dma.{memory_request, dma_read, dma_write}

abbrev pub desc_bytes : ℕ
desc_bytes = 32

abbrev pub cpl_bytes : ℕ
cpl_bytes = 16

abbrev pub ram_bytes : ℕ
ram_bytes = 64 * 1024

abbrev pub max_transfer : ℕ
max_transfer = 4096

-- The fields of a descriptor.
pub record Descriptor : Type 0 where
  pub host_addr : ℕ
  pub ram_addr : ℕ
  pub length : ℕ
  pub opcode : ℕ
  pub flags : ℕ
  pub tag : ℕ

unfoldable pub parse_descriptor : List ℕ → Descriptor
parse_descriptor desc = record {
  host_addr = read_le64 desc 0;
  ram_addr = read_le32 desc 8;
  length = read_le16 desc 12;
  opcode = get_or desc 14 0;
  flags = get_or desc 15 0;
  tag = read_le32 desc 16;
}

unfoldable pub is_runnable : Descriptor → Bool
is_runnable t =
    not (t.length == 0)
    && leb t.length max_transfer
    && leb (t.ram_addr + t.length) ram_bytes
    && (t.opcode == 0 || t.opcode == 1)

-- The locals of a round that its completion reports.
pub record Outcome : Type 0 where
  pub status : ℕ
  pub bytes : ℕ
  pub tag : ℕ
  pub flags : ℕ

abbrev pub transferred : Bool → Descriptor → Outcome
transferred true t = record { status = 0; bytes = t.length; tag = t.tag; flags = t.flags }
transferred false t = record { status = 1; bytes = 0; tag = t.tag; flags = t.flags }

-- The 16 bytes of a completion.
unfoldable pub completion_entry : Outcome → ℕ → List ℕ
unfolding store_le
completion_entry o index =
    store_le
      (store_le (store_le (store_le (replicate cpl_bytes 0) 0 o.tag 4) 4 o.status 2) 8 o.bytes 4) 12
      index 4

-- The arguments of `RunGenericDma` that do not change.
pub record Ring : Type 0 where
  pub desc_base : ℕ
  pub cpl_base : ℕ
  pub count : ℕ
  pub sim_time : ℕ

module _ (r : Ring) where
  abbrev pub fetch_request : ℕ → Request
  fetch_request index =
      memory_request (code dma_read_req) ((r.desc_base + index % r.count * desc_bytes) % 2 ^ 64) []
        desc_bytes r.sim_time

  abbrev pub completion_request : ℕ → Outcome → Request
  completion_request index o =
      memory_request (code dma_write_req) ((r.cpl_base + index % r.count * cpl_bytes) % 2 ^ 64)
        (completion_entry o index) cpl_bytes r.sim_time

abbrev pub ring_refused : Ring → ℕ → ℕ → Bool
ring_refused r tail head =
    r.count == 0 || ltb 1024 r.count || ltb tail head || ltb r.count (tail - head)

module _ (d : Dut) (l : Link) where
  -- The transfer of a descriptor that passed its test.
  unfoldable pub transfer :
      Ring → Descriptor → Harness d → l.State → Option (Outcome × Harness d × l.State)
  unfolding dma_read dma_write
  transfer r t h s = elim (t.opcode == 0) [
    | true ↦
        elim (dma_read d l t.host_addr (t.ram_addr % 2 ^ 16) t.length (t.tag % 2 ^ 8) r.sim_time h
          s) [ none ↦ none | some (good, h₁, s₁) ↦ some (transferred good t, h₁, s₁) ]
    | false ↦
        let (good, h₁, s₁) =
          dma_write d l t.host_addr (t.ram_addr % 2 ^ 16) t.length (t.tag % 2 ^ 8) r.sim_time h s in
        some (transferred good t, h₁, s₁)
  ]

  -- A round up to its completion, from the response to the fetch.
  unfoldable pub perform :
      Ring → Option Message → Harness d → l.State → Option (Outcome × Harness d × l.State)
  unfolding transfer is_runnable
  perform r none h s = some (record { status = 1; bytes = 0; tag = 0; flags = 0 }, h, s)
  perform r (some rsp) h s = elim (succeeded (some rsp) && length rsp.payload == desc_bytes) [
    | false ↦ some (record { status = rsp.header.status; bytes = 0; tag = 0; flags = 0 }, h, s)
    | true ↦
        let t = parse_descriptor rsp.payload in
        elim (is_runnable t) [
          | true ↦ transfer r t h s
          | false ↦ some (record { status = 6; bytes = 0; tag = t.tag; flags = t.flags }, h, s)
        ]
  ]

  -- The completion, and the interrupt that the descriptor asks for: whether the loop goes on.
  unfoldable pub report : Ring → ℕ → Outcome → l.State → Bool × l.State
  unfolding completion_entry
  report r index o s =
      let (rsp, s₁) = l.send_request_to_host (completion_request r index o) s in
      elim (succeeded rsp) [
        | false ↦ (false, s₁)
        | true ↦ (
          o.status == 0,
          if bit_and o.flags 1 == 0
              then s₁
              else (l.send_request_to_host (msi_x_request r.sim_time) s₁).1,
        )
      ]

  unfoldable pub serve_descriptor :
      Ring → ℕ → Harness d → l.State → Option (Bool × Harness d × l.State)
  unfolding perform report
  serve_descriptor r index h s =
      let (desc_rsp, s₁) = l.send_request_to_host (fetch_request r index) s in
      elim (perform r desc_rsp h s₁) [
        | none ↦ none
        | some (o, h₁, s₂) ↦ let (goes_on, s₃) = report r index o s₂ in some (goes_on, h₁, s₃)
      ]

  -- The loop from `index` on, with `n` descriptors left.
  unfoldable pub ring_loop :
      Ring → ℕ → ℕ → Harness d → l.State → Option (Bool × Harness d × l.State)
  unfolding serve_descriptor
  ring_loop r zero index h s = some (true, h, s)
  ring_loop r (suc n) index h s = elim (serve_descriptor r index h s) [
    | none ↦ none
    | some (false, h₁, s₁) ↦ some (false, h₁, s₁)
    | some (true, h₁, s₁) ↦ ring_loop r n (index + 1) h₁ s₁
  ]

  -- The result and the new `*head`.
  unfoldable pub run_generic_dma :
      Ring → ℕ → ℕ → Harness d → l.State → Option (Bool × ℕ × Harness d × l.State)
  unfolding ring_loop
  run_generic_dma r tail head h s = elim (ring_refused r tail head) [
    | true ↦ some (false, head, h, s)
    | false ↦ elim (ring_loop r (tail - head) head h s) [
      | none ↦ none
      | some (good, h₁, s₁) ↦ some (good, if good then tail else head, h₁, s₁)
    ]
  ]
