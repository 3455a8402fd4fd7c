-- ===== src/Host/Demo.antt =====
-- `HostClient::RunDemo` of mini-ics/src/host_client.cpp and its steps. A step returns whether the demo
-- goes on, and the client after it.
use qemu_pcie_vip.Base.{
  ℕ, zero, suc, ◌+◌, ◌*◌, ◌%◌, ◌^◌, List, [], ◌∷◌, Bool, true, false, not, ◌&&◌, ◌==◌, ltb, Option,
  none, some, length, if◌then◌else◌, replicate, bit_and,
}
use qemu_pcie_vip.Protocol.Types.{
  Message, MessageType, hello, hello_ack, reset_req, reset_rsp, mmio_write_req, mmio_write_rsp,
  mmio_read_req, mmio_read_rsp, shutdown, success, code, status_code, has_type, has_status,
  flag_none,
}
use qemu_pcie_vip.Protocol.Bytes.{get_u32}
use qemu_pcie_vip.Protocol.Codec.{make_header, serialize_message}
use qemu_pcie_vip.Socket.Kernel.{Kernel}
use qemu_pcie_vip.Socket.Transfer.{is_ok, send_all}
use qemu_pcie_vip.Socket.Connection.{connect_unix_socket, move_assign}
use qemu_pcie_vip.Transaction.Ids.{next_id}
use qemu_pcie_vip.Endpoint.Defs.{
  value_bytes, cc_reg, csts_reg, aqa_reg, asq_reg_low, acq_reg_low, sq0_doorbell,
}
use qemu_pcie_vip.Host.Memory.{write, init_deterministic_pattern}
use qemu_pcie_vip.Host.Client.{HostClient, tick, read_incoming, service_rtl_initiated_transactions}

abbrev pub mock_command_guest_addr : ℕ
mock_command_guest_addr = 0x200000

-- The 64 bytes of the mock command from the index `i` on, `0xA0 + i`.
unfoldable pub mock_bytes : ℕ → ℕ → List ℕ
mock_bytes zero i = []
mock_bytes (suc n) i = ((0xa0 + i) % 256) ∷ mock_bytes n (i + 1)

-- A response of the right type and with success; `none` is no response.
abbrev pub is_good : MessageType → Option Message → Bool
is_good t none = false
is_good t (some m) = has_type m.header t && has_status m.header success

abbrev pub is_hello_ack : Option Message → Bool
is_hello_ack none = false
is_hello_ack (some m) = has_type m.header hello_ack

-- The value of a read, from a good response with four bytes at least.
abbrev pub read_value : Option Message → Option ℕ
read_value none = none
read_value (some m) =
    if is_good mmio_read_rsp (some m) && not (ltb (length m.payload) 4)
    then some (get_u32 m.payload 0)
    else none

-- `if (!step()) return false;`
abbrev pub and_then : {A : Type 0} → Option (Bool × A) → (A → Option (Bool × A)) → Option (Bool × A)
and_then none next = none
and_then (some (false, c)) next = some (false, c)
and_then (some (true, c)) next = next c

module _ (k : Kernel) where
  unfoldable pub new_client : List ℕ → ℕ → k.World → HostClient k
  unfolding init_deterministic_pattern
  new_client path timeout_ms w = record {
    socket_path = path;
    timeout_ms = timeout_ms;
    socket = none;
    memory = init_deterministic_pattern (record { bytes = replicate (64 * 1024 * 1024) 0 });
    ns = 100;
    txn_gen = record { next = 1 };
    mock_command = [];
    world = w;
  }

  -- One round of the loop of Connect: whether it is connected.
  unfoldable pub connect_once : ℕ → HostClient k → Option (Bool × HostClient k)
  connect_once fuel c = elim (connect_unix_socket k fuel c.socket_path 200 c.world) [
    | none ↦ none
    | some (st, fd, w) ↦ elim (is_ok st) [
      | false ↦ some (false, record c { world = w })
      | true ↦ some (
        true,
        record c {
          socket = (move_assign k c.socket fd w).0;
          world = (move_assign k c.socket fd w).1;
        },
      )
    ]
  ]

  -- `Connect`; `retries` is how often the deadline lets it try again. It ends with a log line.
  unfoldable pub connect : ℕ → ℕ → HostClient k → Option (Bool × HostClient k)
  unfolding connect_once
  connect zero fuel c = elim (connect_once fuel c) [
    | none ↦ none
    | some (up, c₁) ↦ some (up, tick k c₁)
  ]
  connect (suc retries) fuel c = elim (connect_once fuel c) [
    | none ↦ none
    | some (up, c₁) ↦ elim up [ false ↦ connect retries fuel c₁ | true ↦ some (true, tick k c₁) ]
  ]

  unfoldable pub send_request_and_wait :
      ℕ → MessageType → ℕ → ℕ → List ℕ → HostClient k → Option (Option Message × HostClient k)
  send_request_and_wait fuel type address byte_enable payload c =
      let (txn_id, g) = next_id c.txn_gen in
      let h =
        make_header (code type) txn_id address byte_enable (status_code success) c.ns
          (length payload % 2 ^ 32) flag_none 0 in
      let c₁ = record (tick k c) { txn_gen = g } in
      elim (send_all k fuel c₁.socket (serialize_message h payload) c₁.timeout_ms c₁.world) [
        | none ↦ none
        | some (st, w) ↦ elim (is_ok st) [
          | false ↦ some (none, tick k (record c₁ { world = w }))
          | true ↦ read_incoming k fuel (record c₁ { world = w })
        ]
      ]

  -- A request, the test of what came back and one log line.
  unfoldable pub request_step :
      (Option Message → Bool)
      → Option (Option Message × HostClient k)
      → Option (Bool × HostClient k)
  request_step test none = none
  request_step test (some (rsp, c)) = some (test rsp, tick k c)

  unfoldable pub do_hello : ℕ → HostClient k → Option (Bool × HostClient k)
  unfolding send_request_and_wait request_step
  do_hello fuel c = request_step is_hello_ack (send_request_and_wait fuel hello 0 0 [] c)

  unfoldable pub do_reset : ℕ → HostClient k → Option (Bool × HostClient k)
  unfolding send_request_and_wait request_step
  do_reset fuel c = request_step (is_good reset_rsp) (send_request_and_wait fuel reset_req 0 0 [] c)

  -- The log line of a write comes before the test, and a failure adds one.
  unfoldable pub written : Option (Option Message × HostClient k) → Option (Bool × HostClient k)
  written none = none
  written (some (rsp, c)) = some (
    is_good mmio_write_rsp rsp,
    if is_good mmio_write_rsp rsp then tick k c else tick k (tick k c),
  )

  -- `EncodeU32` and `EncodeU64` are four and eight bytes of the value.
  unfoldable pub mmio_write32 : ℕ → ℕ → ℕ → HostClient k → Option (Bool × HostClient k)
  unfolding send_request_and_wait written
  mmio_write32 fuel addr value c =
      written (send_request_and_wait fuel mmio_write_req addr 0xf (value_bytes 4 0 value) c)

  unfoldable pub mmio_write64 : ℕ → ℕ → ℕ → HostClient k → Option (Bool × HostClient k)
  unfolding send_request_and_wait written
  mmio_write64 fuel addr value c =
      written (send_request_and_wait fuel mmio_write_req addr 0xff (value_bytes 8 0 value) c)

  unfoldable pub mmio_read32 : ℕ → ℕ → HostClient k → Option (Option ℕ × HostClient k)
  unfolding send_request_and_wait
  mmio_read32 fuel addr c = elim (send_request_and_wait fuel mmio_read_req addr 0xf [] c) [
    | none ↦ none
    | some (rsp, c₁) ↦ some (read_value rsp, tick k c₁)
  ]

  unfoldable pub configure_admin_queues : ℕ → HostClient k → Option (Bool × HostClient k)
  unfolding mmio_write32 mmio_write64
  configure_admin_queues fuel c = and_then (mmio_write64 fuel asq_reg_low 0x100000 c) (λ c₁.
      and_then (mmio_write64 fuel acq_reg_low 0x101000 c₁)
        (λ c₂. mmio_write32 fuel aqa_reg 0x1f001f c₂))

  -- The loop of EnableControllerAndWaitReady with `attempts` to go.
  unfoldable pub wait_ready : ℕ → ℕ → HostClient k → Option (Bool × HostClient k)
  unfolding mmio_read32
  wait_ready zero fuel c = some (false, tick k c)
  wait_ready (suc attempts) fuel c = elim (mmio_read32 fuel csts_reg c) [
    | none ↦ none
    | some (value, c₁) ↦ elim value [
      | none ↦ some (false, c₁)
      | some csts ↦ elim (bit_and csts 1 == 0) [
        | false ↦ some (true, tick k c₁)
        | true ↦ wait_ready attempts fuel c₁
      ]
    ]
  ]

  unfoldable pub enable_controller_and_wait_ready : ℕ → HostClient k → Option (Bool × HostClient k)
  unfolding mmio_write32 wait_ready
  enable_controller_and_wait_ready fuel c =
      and_then (mmio_write32 fuel cc_reg 1 c) (λ c₁. wait_ready 50 fuel c₁)

  unfoldable pub write_mock_nvme_command : HostClient k → Option (Bool × HostClient k)
  write_mock_nvme_command c =
      let bytes = mock_bytes 64 0 in
      let (done, mem) = write mock_command_guest_addr bytes c.memory in
      some (done, tick k (record c { mock_command = bytes; memory = mem }))

  unfoldable pub ring_doorbell : ℕ → HostClient k → Option (Bool × HostClient k)
  unfolding mmio_write32
  ring_doorbell fuel c = mmio_write32 fuel sq0_doorbell 1 c

  unfoldable pub send_shutdown : ℕ → HostClient k → Option (Bool × HostClient k)
  send_shutdown fuel c =
      let (txn_id, g) = next_id c.txn_gen in
      let h = make_header (code shutdown) txn_id 0 0 (status_code success) c.ns 0 flag_none 0 in
      elim (send_all k fuel c.socket (serialize_message h []) c.timeout_ms c.world) [
        | none ↦ none
        | some (st, w) ↦ some (true, tick k (record (tick k c) { txn_gen = g; world = w }))
      ]

  unfoldable pub run_demo : ℕ → ℕ → HostClient k → Option (Bool × HostClient k)
  unfolding connect do_hello do_reset configure_admin_queues enable_controller_and_wait_ready
      write_mock_nvme_command ring_doorbell service_rtl_initiated_transactions send_shutdown
  run_demo retries fuel c = and_then (connect retries fuel c) (λ c₁.
      and_then (do_hello fuel c₁) (λ c₂. and_then (do_reset fuel c₂) (λ c₃.
        and_then (configure_admin_queues fuel c₃) (λ c₄.
          and_then (enable_controller_and_wait_ready fuel c₄) (λ c₅.
            and_then (write_mock_nvme_command c₅) (λ c₆. and_then (ring_doorbell fuel c₆) (λ c₇.
              and_then (service_rtl_initiated_transactions k fuel c₇)
                (λ c₈. send_shutdown fuel (tick k c₈)))))))))
