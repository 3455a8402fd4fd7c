-- ===== src/Dpi.antt =====
-- The DPI shim, mini-ics/dpi/mini_ics_dpi.cpp: the functions that a SystemVerilog testbench calls,
-- around one `MiniIcsServer`. A null pointer is `false` where an output is written through it. The
-- simulator's open arrays (svdpi.h) are read through an OpenArray.
pub mod Staging
use qemu_pcie_vip.Base.{
  ℕ, zero, suc, ◌+◌, ◌%◌, ◌^◌, List, [], ◌∷◌, Bool, true, false, not, ◌&&◌, ◌||◌, ◌==◌, ltb, Option,
  none, some, length, get_elem?, if◌then◌else◌,
}
use qemu_pcie_vip.Protocol.Types.{
  Message, dma_read_req, dma_write_req, success, error_timeout, code, status_code, has_status,
  flag_is_response,
}
use qemu_pcie_vip.Protocol.Codec.{make_header}
use qemu_pcie_vip.Socket.Kernel.{Kernel}
use qemu_pcie_vip.Server.Defs.{Server, new_server, start, stop}
use qemu_pcie_vip.Server.Requests.{
  Request, prepare, poll_inbound, send_response, send_request_to_host,
}

-- The results of the functions: 1, 0, -1, -2 and -3.
pub data Return : Type 0 where
  one nought minus_one minus_two minus_three : Return

-- `g_server`: without a server, the kernel behind it.
pub data Slot (k : Kernel) : Type 0 where
  vacant : k.World → Slot k
  held : Server k → Slot k

pub record Shim (k : Kernel) : Type 0 where
  pub slot : Slot k
  pub inbound_payload : List ℕ
  pub response_payload : List ℕ

-- What `svGetArrayPtr`, `svSize(handle, 1)` and `svGetArrElemPtr1` give for an open array: a pointer
-- to its bytes if it is contiguous, its size, and a pointer to each element, which may be null.
pub record OpenArray : Type 0 where
  pub contiguous : Option (ℕ → ℕ)
  pub size : ℕ
  pub element : ℕ → Option ℕ

abbrev pub byte_or_zero : Option ℕ → ℕ
byte_or_zero none = 0
byte_or_zero (some b) = b

-- The bytes at `i` and on, `n` of them.
unfoldable pub copy_from : ℕ → ℕ → OpenArray → List ℕ
copy_from zero i a = []
copy_from (suc n) i a =
    elim a.contiguous [
      | some bytes ↦ bytes i
      | none ↦ if ltb i (a.size % 2 ^ 32) then byte_or_zero (a.element i) else 0
    ]
    ∷ copy_from n (i + 1) a

unfoldable pub copy_open_array : OpenArray → ℕ → List ℕ
unfolding copy_from
copy_open_array a n = copy_from n 0 a

-- `length > 0 && payload ? CopyOpenArray(payload, length) : {}`
unfoldable pub copy_payload : Option OpenArray → ℕ → List ℕ
unfolding copy_open_array
copy_payload none n = []
copy_payload (some a) n = if n == 0 then [] else copy_open_array a n

-- What `mini_ics_poll` writes through its pointers.
pub record Polled : Type 0 where
  pub msg_type : ℕ
  pub transaction_id : ℕ
  pub address : ℕ
  pub len : ℕ
  pub status : ℕ

-- What `mini_ics_send_request` writes through its pointers.
pub record Replied : Type 0 where
  pub transaction_id : ℕ
  pub out_status : ℕ

-- One byte of a staged payload, with its result.
unfoldable pub staged_byte : List ℕ → ℕ → Bool → Return × Option ℕ
staged_byte payload index given = elim given [
  | false ↦ (minus_one, none)
  | true ↦ elim (get_elem? payload index) [ none ↦ (minus_one, none) | some b ↦ (nought, some b) ]
]

abbrev pub expects_response : ℕ → Bool
expects_response msg_type = msg_type == code dma_read_req || msg_type == code dma_write_req

abbrev pub dpi_request : ℕ → ℕ → Option OpenArray → ℕ → Request
dpi_request msg_type address payload n = record {
  type = msg_type;
  address = address;
  byte_enable = 0;
  payload = (if msg_type == code dma_read_req then [] else copy_payload payload n);
  transfer_len = n;
  sim_timestamp = 0;
  expect_response = expects_response msg_type;
}

module _ (k : Kernel) where
  -- The server that the calls use: one that runs.
  abbrev pub running_server : Slot k → Option (Server k)
  running_server (vacant w) = none
  running_server (held s) = if s.running then some s else none

  -- `g_server.reset()`, whose destructor stops the server.
  abbrev pub release : Server k → Slot k
  release s = vacant (stop k s).world

  unfoldable pub dpi_init : Option (List ℕ) → Shim k → Return × Shim k
  unfolding new_server start stop
  dpi_init path c = elim c.slot [
    | held s ↦ (nought, c)
    | vacant w ↦ elim path [
      | none ↦ (minus_one, c)
      | some path ↦
          let (started, s) = start k (new_server k path 50 2000 w) in
          elim started [
            | true ↦ (nought, record c { slot = held s })
            | false ↦ (minus_one, record c { slot = release s })
          ]
    ]
  ]

  unfoldable pub dpi_poll : ℕ → ℕ → Bool → Shim k → Option (Return × Option Polled × Shim k)
  unfolding poll_inbound
  dpi_poll rounds fuel given c = elim given [
    | false ↦ some (minus_one, none, c)
    | true ↦ elim (running_server c.slot) [
      | none ↦ some (minus_one, none, c)
      | some s ↦ elim (poll_inbound k rounds fuel s) [
        | none ↦ none
        | some (none, s₁) ↦ some (nought, none, record c { slot = held s₁ })
        | some (some m, s₁) ↦ some (
          one,
          some (record {
            msg_type = m.header.msg_type;
            transaction_id = m.header.txn_id;
            address = m.header.address;
            len = m.header.transfer_len;
            status = m.header.status;
          }),
          record c { slot = held s₁; inbound_payload = m.payload },
        )
      ]
    ]
  ]

  unfoldable pub get_payload_byte : ℕ → Bool → Shim k → Return × Option ℕ
  unfolding staged_byte
  get_payload_byte index given c = staged_byte c.inbound_payload index given

  unfoldable pub get_response_payload_byte : ℕ → Bool → Shim k → Return × Option ℕ
  unfolding staged_byte
  get_response_payload_byte index given c = staged_byte c.response_payload index given

  unfoldable pub dpi_send_response :
      ℕ → ℕ → ℕ → ℕ → ℕ → Option OpenArray → ℕ → Shim k → Option (Return × Shim k)
  unfolding send_response copy_payload
  dpi_send_response fuel msg_type transaction_id address status payload n c =
      elim (running_server c.slot) [
        | none ↦ some (minus_one, c)
        | some s ↦
            let bytes = copy_payload payload n in
            let rsp =
              make_header (msg_type % 2 ^ 16) transaction_id address 0 status 0
                (length bytes % 2 ^ 32) flag_is_response 0 in
            elim (send_response k fuel rsp bytes s) [
              | none ↦ none
              | some (sent, s₁) ↦
                  some (if sent then nought else minus_two, record c { slot = held s₁ })
            ]
      ]

  -- The id that `SendRequestToHost` reports: 0 where there is no client.
  unfoldable pub reported_id : Request → Server k → ℕ
  unfolding prepare
  reported_id q s = if s.has_client then (prepare k q s).0 else 0

  -- What follows the request, with its response.
  unfoldable pub after_reply :
      Bool → ℕ → Option Message → Server k → Shim k → Return × Option Replied × Shim k
  after_reply expects txn_id rsp s c = elim expects [
    | false ↦ (
      nought,
      some (record { transaction_id = txn_id; out_status = status_code success }),
      record c { slot = held s },
    )
    | true ↦ elim rsp [
      | none ↦ (
        minus_three,
        some (record { transaction_id = txn_id; out_status = status_code error_timeout }),
        record c { slot = held s },
      )
      | some m ↦ (
        if has_status m.header success then nought else minus_two,
        some (record { transaction_id = txn_id; out_status = m.header.status }),
        record c { slot = held s; response_payload = m.payload },
      )
    ]
  ]

  unfoldable pub dpi_send_request :
      ℕ
      → ℕ
      → Bool
      → ℕ
      → ℕ
      → Option OpenArray
      → ℕ
      → Shim k
      → Option (Return × Option Replied × Shim k)
  unfolding send_request_to_host reported_id after_reply copy_payload
  dpi_send_request rounds fuel given msg_type address payload n c = elim given [
    | false ↦ some (minus_one, none, c)
    | true ↦ elim (running_server c.slot) [
      | none ↦ some (minus_one, none, c)
      | some s ↦
          let q = dpi_request (msg_type % 2 ^ 16) address payload n in
          elim (send_request_to_host k rounds fuel q s) [
            | none ↦ none
            | some (rsp, s₁) ↦ some (after_reply q.expect_response (reported_id q s) rsp s₁ c)
          ]
    ]
  ]

  unfoldable pub dpi_shutdown : Shim k → Shim k
  unfolding stop
  dpi_shutdown c = record {
    slot = elim c.slot [ vacant w ↦ vacant w | held s ↦ release s ];
    inbound_payload = [];
    response_payload = [];
  }
