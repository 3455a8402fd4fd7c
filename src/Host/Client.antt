-- ===== src/Host/Client.antt =====
-- `HostClient` of mini-ics/src/host_client.cpp: how it reads and sends messages, and its service of
-- DMA against guest memory. Each log line takes a time stamp, and so moves the client's clock on.
use qemu_pcie_vip.Base.{
  ℕ, zero, suc, ◌+◌, ◌%◌, ◌^◌, List, [], ◌∷◌, Bool, true, false, ◌&&◌, ◌==◌, Option, none, some,
  length, if◌then◌else◌,
}
use qemu_pcie_vip.Protocol.Types.{
  Header, Message, StatusCode, dma_read_req, dma_read_rsp, dma_write_req, dma_write_rsp, msi_x,
  success, error_bad_length, error_out_of_bounds, code, status_code, has_type, flag_is_response,
}
use qemu_pcie_vip.Protocol.Codec.{make_header, serialize_message}
use qemu_pcie_vip.Socket.Kernel.{Kernel, Fd}
use qemu_pcie_vip.Socket.Transfer.{send_all}
use qemu_pcie_vip.Socket.Framing.{message, io_failed, malformed, read_message}
use qemu_pcie_vip.Transaction.Ids.{TransactionIdGenerator}
use qemu_pcie_vip.Host.Memory.{HostMemory, write, read}

pub record HostClient (k : Kernel) : Type 0 where
  pub socket_path : List ℕ
  pub timeout_ms : ℕ
  pub socket : Fd
  pub memory : HostMemory
  pub ns : ℕ
  pub txn_gen : TransactionIdGenerator
  pub mock_command : List ℕ
  pub world : k.World

-- The local variables of ServiceRtlInitiatedTransactions.
pub record Progress : Type 0 where
  pub saw_dma_read : Bool
  pub saw_dma_write : Bool
  pub saw_msix : Bool
  pub completion_bytes : List ℕ

abbrev pub saw_all : Progress → Bool
saw_all p = p.saw_dma_read && p.saw_dma_write && p.saw_msix

abbrev pub unseen : Progress
unseen = record {
  saw_dma_read = false;
  saw_dma_write = false;
  saw_msix = false;
  completion_bytes = [];
}

-- `completion_bytes[i] != 0xC0 + i`, for no `i`.
unfoldable pub verified : ℕ → List ℕ → Bool
verified i [] = true
verified i (b ∷ bs) = let rest = verified (i + 1) bs in (b == (0xc0 + i) % 256) && rest

module _ (k : Kernel) where
  -- `clock_.NowNs()`, whose value is `ns` before.
  abbrev pub tick : HostClient k → HostClient k
  tick c = record c { ns = (c.ns + 5) % 2 ^ 64 }

  -- `ReadMessage`, each error with its log line.
  unfoldable pub read_incoming : ℕ → HostClient k → Option (Option Message × HostClient k)
  read_incoming fuel c = elim (read_message k fuel c.socket c.timeout_ms c.world) [
    | none ↦ none
    | some (message msg, w) ↦ some (some msg, record c { world = w })
    | some (io_failed st, w) ↦ some (none, tick (record c { world = w }))
    | some (malformed e, w) ↦ some (none, tick (record c { world = w }))
  ]

  -- A response out, whose status nothing reads.
  unfoldable pub send_out : ℕ → Header → List ℕ → HostClient k → Option (HostClient k)
  send_out fuel h payload c =
      elim (send_all k fuel c.socket (serialize_message h payload) c.timeout_ms c.world) [
        | none ↦ none
        | some (st, w) ↦ some (record c { world = w })
      ]

  unfoldable pub send_dma_read_response :
      ℕ → ℕ → ℕ → List ℕ → StatusCode → HostClient k → Option (HostClient k)
  unfolding send_out
  send_dma_read_response fuel txn_id addr bytes status c =
      send_out fuel
        (make_header (code dma_read_rsp) txn_id addr 0 (status_code status) c.ns
          (length bytes % 2 ^ 32) flag_is_response 0)
        bytes (tick c)

  unfoldable pub send_dma_write_response :
      ℕ → ℕ → ℕ → StatusCode → HostClient k → Option (HostClient k)
  unfolding send_out
  send_dma_write_response fuel txn_id addr status c =
      send_out fuel
        (make_header (code dma_write_rsp) txn_id addr 0 (status_code status) c.ns 0 flag_is_response
          0)
        [] (tick c)

  -- What follows a response: its log line, and whether the loop goes on.
  abbrev pub answered :
      Bool
      → Progress
      → (HostClient k → HostClient k)
      → Option (HostClient k)
      → Option (Bool × Progress × HostClient k)
  answered on p log none = none
  answered on p log (some c) = some (on, p, log c)

  -- The case kDmaReadReq.
  unfoldable pub service_dma_read :
      ℕ → Message → Progress → HostClient k → Option (Bool × Progress × HostClient k)
  unfolding send_dma_read_response
  service_dma_read fuel msg p c =
      let p₁ = record p { saw_dma_read = true } in
      let h = msg.header in
      elim (h.transfer_len == 0) [
        | true ↦
            answered false p₁ (λ x. x)
              (send_dma_read_response fuel h.txn_id h.address [] error_bad_length c)
        | false ↦ elim (read h.address h.transfer_len c.memory) [
          | none ↦
              answered false p₁ tick
                (send_dma_read_response fuel h.txn_id h.address [] error_out_of_bounds (tick c))
          | some bytes ↦
              answered true p₁ tick
                (send_dma_read_response fuel h.txn_id h.address bytes success (tick c))
        ]
      ]

  -- The case kDmaWriteReq.
  unfoldable pub service_dma_write :
      ℕ → Message → Progress → HostClient k → Option (Bool × Progress × HostClient k)
  unfolding send_dma_write_response
  service_dma_write fuel msg p c =
      let p₁ = record p { saw_dma_write = true } in
      let h = msg.header in
      let (done, mem) = write h.address msg.payload c.memory in
      elim done [
        | true ↦
            answered true (record p₁ { completion_bytes = msg.payload }) tick
              (send_dma_write_response fuel h.txn_id h.address success
                (record (tick c) { memory = mem }))
        | false ↦
            answered false p₁ tick
              (send_dma_write_response fuel h.txn_id h.address error_out_of_bounds (tick c))
      ]

  unfoldable pub service_message :
      ℕ → Message → Progress → HostClient k → Option (Bool × Progress × HostClient k)
  unfolding service_dma_read service_dma_write
  service_message fuel msg p c = elim (has_type msg.header dma_read_req) [
    | true ↦ service_dma_read fuel msg p c
    | false ↦ elim (has_type msg.header dma_write_req) [
      | true ↦ service_dma_write fuel msg p c
      | false ↦
          some
            (true, (if has_type msg.header msi_x then record p { saw_msix = true } else p), tick c)
    ]
  ]

  -- The loop for `rounds` more messages; false when it returned.
  unfoldable pub service_loop :
      ℕ → ℕ → Progress → HostClient k → Option (Bool × Progress × HostClient k)
  unfolding read_incoming service_message
  service_loop zero fuel p c = some (true, p, c)
  service_loop (suc rounds) fuel p c = elim (saw_all p) [
    | true ↦ some (true, p, c)
    | false ↦ elim (read_incoming fuel c) [
      | none ↦ none
      | some (none, c₁) ↦ some (false, p, tick c₁)
      | some (some msg, c₁) ↦ elim (service_message fuel msg p c₁) [
        | none ↦ none
        | some (false, p₁, c₂) ↦ some (false, p₁, c₂)
        | some (true, p₁, c₂) ↦ service_loop rounds fuel p₁ c₂
      ]
    ]
  ]

  -- The tests behind the loop, each end with one log line.
  unfoldable pub service_rtl_initiated_transactions :
      ℕ → HostClient k → Option (Bool × HostClient k)
  unfolding service_loop verified
  service_rtl_initiated_transactions fuel c = elim (service_loop 3 fuel unseen c) [
    | none ↦ none
    | some (false, p, c₁) ↦ some (false, c₁)
    | some (true, p, c₁) ↦
        some
          (saw_all p && (length p.completion_bytes == 16) && verified 0 p.completion_bytes, tick c₁)
  ]
