-- ===== src/Harness/Ring/Trace.antt =====
-- The descriptor ring of `RunGenericDma` in rtl/alex/verilator_qemu_main.cpp as a relation: what is
-- sent for a stretch of descriptors, and where it ends.
use qemu_pcie_vip.Base.{
  ℕ, zero, suc, ◌+◌, ◌-◌, ◌*◌, ◌%◌, ◌^◌, ◌<◌, ◌≤◌, ◌≡◌, ◌≢◌, ◌⊎◌, List, [], ◌∷◌, ◌++◌, Bool, true,
  false, ◌&&◌, ◌==◌, Option, none, some, All, length, bit_and, if◌then◌else◌,
}
use qemu_pcie_vip.Protocol.Types.{
  Message, dma_read_req, dma_write_req, msi_x, code, success, status_code,
}
use qemu_pcie_vip.Server.Requests.{Request}
use qemu_pcie_vip.Endpoint.Defs.{Link, value_bytes}
use qemu_pcie_vip.Endpoint.Traffic.{Sent, request, Recording}
use qemu_pcie_vip.Harness.Ports.{Dut, Harness}
use qemu_pcie_vip.Harness.Dma.{dma_read, dma_write}
use qemu_pcie_vip.Harness.Dma.Traffic.{IsTransfer}
use qemu_pcie_vip.Harness.Dma.Confirmed.{ReadDone, WriteDone}
use qemu_pcie_vip.Harness.Ring.{Descriptor, parse_descriptor, Outcome, Ring}

-- A response of success.
abbrev pub acknowledged : Option Message → Bool
acknowledged none = false
acknowledged (some m) = m.header.status == status_code success

-- A response of success with the 32 bytes of a descriptor.
abbrev pub is_descriptor : Option Message → Bool
is_descriptor none = false
is_descriptor (some m) = m.header.status == status_code success && length m.payload == 32

abbrev pub descriptor_of : Option Message → Descriptor
descriptor_of none = parse_descriptor []
descriptor_of (some m) = parse_descriptor m.payload

-- A transfer within the bounds of the memory of the device.
abbrev pub InBounds : Descriptor → Type 0
InBounds t =
    (t.length ≢ 0)
    × (t.length ≤ 4096)
    × (t.ram_addr + t.length ≤ 65536)
    × ((t.opcode ≡ 0) ⊎ (t.opcode ≡ 1))

-- What is reported where no descriptor was read: the status of the response, 1 without one.
abbrev pub unread : Option Message → Outcome
unread none = record { status = 1; bytes = 0; tag = 0; flags = 0 }
unread (some m) = record { status = m.header.status; bytes = 0; tag = 0; flags = 0 }

abbrev pub rejected : Descriptor → Outcome
rejected t = record { status = 6; bytes = 0; tag = t.tag; flags = t.flags }

-- What is reported for a transfer, by its success.
abbrev pub concluded : Bool → Descriptor → Outcome
concluded good t = record {
  status = (if good then 0 else 1);
  bytes = (if good then t.length else 0);
  tag = t.tag;
  flags = t.flags;
}

abbrev pub transfer_type : Descriptor → ℕ
transfer_type t = if t.opcode == 0 then code dma_read_req else code dma_write_req

-- The 16 bytes of a completion: tag, status, two zeros, the number of bytes and the index.
abbrev pub entry : Outcome → ℕ → List ℕ
entry o index =
    value_bytes 4 0 o.tag
    ++ (value_bytes 2 0 o.status ++ (0 ∷ 0 ∷ (value_bytes 4 0 o.bytes ++ value_bytes 4 0 index)))

module _ (r : Ring) where
  -- The requests for a descriptor, with its completion and its interrupt.
  abbrev pub memory : ℕ → ℕ → List ℕ → ℕ → Request
  memory type address payload len = record {
    type = type;
    address = address % 2 ^ 64;
    byte_enable = 0;
    payload = payload;
    transfer_len = len;
    sim_timestamp = r.sim_time;
    expect_response = true;
  }

  abbrev pub fetch : ℕ → Request
  fetch index = memory (code dma_read_req) (r.desc_base + index % r.count * 32) [] 32

  abbrev pub completion : ℕ → Outcome → Request
  completion index o =
      memory (code dma_write_req) (r.cpl_base + index % r.count * 16) (entry o index) 16

  abbrev pub doorbell : Request
  doorbell = record (memory (code msi_x) 0 [] 0) { expect_response = false }

  abbrev pub block : ℕ → Outcome → List Sent → List Sent
  block index o ts = request (fetch index) ∷ (ts ++ (request (completion index o) ∷ []))

  abbrev pub interrupt : Outcome → List Sent
  interrupt o = if bit_and o.flags 1 == 0 then [] else request doorbell ∷ []

  -- The tail is not within the ring.
  abbrev pub Refused : ℕ → ℕ → Type 0
  Refused tail head = (r.count ≡ 0) ⊎ (1024 < r.count) ⊎ (tail < head) ⊎ (r.count < tail - head)

module _ (d : Dut) (l : Link) (rec : Recording l) (r : Ring) where
  abbrev pub answer : Request → l.State → Option Message
  answer q s = (l.send_request_to_host q s).0

  abbrev pub sent : Request → l.State → l.State
  sent q s = (l.send_request_to_host q s).1

  -- The server behind the interrupt that an outcome asks for.
  abbrev pub rung : Outcome → l.State → l.State
  rung o s = if bit_and o.flags 1 == 0 then s else sent (doorbell r) s

  -- The call of DmaRead or DmaWrite for a descriptor.
  abbrev pub moved : Descriptor → Harness d → l.State → Option (Bool × Harness d × l.State)
  moved t h s = elim (t.opcode == 0) [
    | true ↦ dma_read d l t.host_addr (t.ram_addr % 2 ^ 16) t.length (t.tag % 2 ^ 8) r.sim_time h s
    | false ↦
        some
          (dma_write d l t.host_addr (t.ram_addr % 2 ^ 16) t.length (t.tag % 2 ^ 8) r.sim_time h s)
  ]

  -- The model says that the transfer of the descriptor is done, without an error.
  abbrev pub Confirmed : Descriptor → Harness d → Type 0
  Confirmed t h = if t.opcode == 0 then ReadDone d l h else WriteDone d l h

  -- From the response to the fetch of a descriptor: its outcome, the transfers that it sends, and
  -- the harness and the server behind them.
  pub data Performed (rsp : Option Message) (h : Harness d) (s : l.State) (o : Outcome)
      (h' : Harness d) (s' : l.State) (ts : List Sent) : Type 0 where
    was_unread :
        is_descriptor rsp ≡ false
        → o ≡ unread rsp
        → h' ≡ h
        → s' ≡ s
        → ts ≡ []
        → Performed rsp h s o h' s' ts
    was_rejected :
        is_descriptor rsp ≡ true
        → ¬ InBounds (descriptor_of rsp)
        → o ≡ rejected (descriptor_of rsp)
        → h' ≡ h
        → s' ≡ s
        → ts ≡ []
        → Performed rsp h s o h' s' ts
    was_run :
        (good : Bool)
        → is_descriptor rsp ≡ true
        → InBounds (descriptor_of rsp)
        → moved (descriptor_of rsp) h s ≡ some (good, h', s')
        → (good ≡ true → Confirmed (descriptor_of rsp) h')
        → o ≡ concluded good (descriptor_of rsp)
        → rec.log s' ≡ rec.log s ++ ts
        → All (IsTransfer (transfer_type (descriptor_of rsp))) ts
        → Performed rsp h s o h' s' ts

  -- The `n` descriptors from `index` on: what is sent for them, whether all succeed, and the harness
  -- and the server behind. Each is fetched, performed and completed in its own slot, with an interrupt
  -- behind an acknowledged completion if the descriptor asks for it. The next one is served only if the
  -- completion is acknowledged and the status is 0.
  pub data Served
      : ℕ → ℕ → Harness d → l.State → List Sent → Bool → Harness d → l.State → Type 0 where
    finished : (index : ℕ) (h : Harness d) (s : l.State) → Served zero index h s [] true h s
    served :
        (n index : ℕ) (h h₁ h' : Harness d) (s s₁ s' : l.State) (o : Outcome) (ts rest : List Sent)
        (good : Bool)
        → Performed (answer (fetch r index) s) h (sent (fetch r index) s) o h₁ s₁ ts
        → acknowledged (answer (completion r index o) s₁) ≡ true
        → o.status ≡ 0
        → Served n (index + 1) h₁ (rung o (sent (completion r index o) s₁)) rest good h' s'
        → Served (suc n) index h s ((block r index o ts ++ interrupt r o) ++ rest) good h' s'
    failed :
        (n index : ℕ) (h h₁ : Harness d) (s s₁ : l.State) (o : Outcome) (ts : List Sent)
        → Performed (answer (fetch r index) s) h (sent (fetch r index) s) o h₁ s₁ ts
        → acknowledged (answer (completion r index o) s₁) ≡ true
        → o.status ≢ 0
        → Served
            (suc n)
            index
            h
            s
            (block r index o ts ++ interrupt r o)
            false
            h₁
            (rung o (sent (completion r index o) s₁))
    unacknowledged :
        (n index : ℕ) (h h₁ : Harness d) (s s₁ : l.State) (o : Outcome) (ts : List Sent)
        → Performed (answer (fetch r index) s) h (sent (fetch r index) s) o h₁ s₁ ts
        → acknowledged (answer (completion r index o) s₁) ≡ false
        → Served (suc n) index h s (block r index o ts) false h₁ (sent (completion r index o) s₁)
