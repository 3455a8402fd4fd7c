-- ===== src/Server/Requests.antt =====
-- The calls of `MiniIcsServer` that the DPI and endpoint side makes: `PollInbound`, `SendResponse`
-- and `SendRequestToHost`. While one waits, the I/O thread goes on: `rounds` is the number of rounds
-- that it makes in that time.
use qemu_pcie_vip.Base.{
  ℕ, ◌%◌, ◌^◌, List, [], Bool, true, false, Option, none, some, length, if◌then◌else◌,
}
use qemu_pcie_vip.Protocol.Types.{Header, Message, success, status_code, flag_none}
use qemu_pcie_vip.Protocol.Codec.{make_header, serialize_message}
use qemu_pcie_vip.Socket.Kernel.{Kernel}
use qemu_pcie_vip.Socket.Transfer.{IoStatus, is_ok}
use qemu_pcie_vip.Transaction.Ids.{next_id}
use qemu_pcie_vip.Transaction.Queue.{may_pop, try_pop}
use qemu_pcie_vip.Transaction.Pending.{find, register_pending, arrived, finish, wait_for}
use qemu_pcie_vip.Server.Defs.{Server, send_bytes, io_run}

pub record Request : Type 0 where
  pub type : ℕ
  pub address : ℕ
  pub byte_enable : ℕ
  pub payload : List ℕ
  pub transfer_len : ℕ
  pub sim_timestamp : ℕ
  pub expect_response : Bool

-- The header that is sent under a transaction id.
abbrev pub request_header : Request → ℕ → Header
request_header q txn_id =
    make_header q.type txn_id q.address q.byte_enable (status_code success) q.sim_timestamp
      (length q.payload % 2 ^ 32) flag_none q.transfer_len

module _ (k : Kernel) where
  -- `PollInbound`: the queue's Pop, with the rounds of the I/O thread as the steps of the wait.
  unfoldable pub poll_inbound : ℕ → ℕ → Server k → Option (Option Message × Server k)
  poll_inbound rounds fuel s =
      elim (if may_pop s.inbound_queue then some s else io_run k rounds fuel s) [
        | none ↦ none
        | some s₁ ↦
            if may_pop s₁.inbound_queue
            then some (
              (try_pop s₁.inbound_queue).0,
              record s₁ { inbound_queue = (try_pop s₁.inbound_queue).1 },
            )
            else some (none, s₁)
      ]

  unfoldable pub send_response : ℕ → Header → List ℕ → Server k → Option (Bool × Server k)
  send_response fuel header payload s = elim s.has_client [
    | false ↦ some (false, s)
    | true ↦ elim (send_bytes k fuel (serialize_message header payload) s) [
      | none ↦ none
      | some (st, s₁) ↦ some (is_ok st, s₁)
    ]
  ]

  -- The id taken and, if a response is expected, its entry registered.
  unfoldable pub prepare : Request → Server k → ℕ × Server k
  prepare q s =
      let (txn_id, g) = next_id s.txn_gen in
      (
        txn_id,
        record s {
          txn_gen = g;
          pending = (if q.expect_response then register_pending txn_id s.pending else s.pending);
        },
      )

  -- `pending_.WaitFor`: the entry is tested, the I/O thread makes its rounds, the entry is taken.
  unfoldable pub await_response : ℕ → ℕ → ℕ → Server k → Option (Option Message × Server k)
  await_response rounds fuel txn_id s = elim (find txn_id s.pending) [
    | none ↦ some (none, s)
    | some entry ↦ elim (if arrived (some entry) then some s else io_run k rounds fuel s) [
      | none ↦ none
      | some s₁ ↦
          some ((finish txn_id s₁.pending).0, record s₁ { pending = (finish txn_id s₁.pending).1 })
    ]
  ]

  -- What follows the send, with its status.
  unfoldable pub after_request :
      ℕ → ℕ → Request → ℕ → IoStatus → Server k → Option (Option Message × Server k)
  unfolding await_response
  after_request rounds fuel q txn_id st s = elim (is_ok st) [
    | false ↦ some (
      none,
      if q.expect_response then record s { pending = (wait_for txn_id [] s.pending).1 } else s,
    )
    | true ↦ elim q.expect_response [
      | false ↦ some (none, s)
      | true ↦ await_response rounds fuel txn_id s
    ]
  ]

  unfoldable pub send_request_to_host :
      ℕ → ℕ → Request → Server k → Option (Option Message × Server k)
  unfolding prepare after_request
  send_request_to_host rounds fuel q s = elim s.has_client [
    | false ↦ some (none, s)
    | true ↦
        let (txn_id, s₁) = prepare q s in
        elim (send_bytes k fuel (serialize_message (request_header q txn_id) q.payload) s₁) [
          | none ↦ none
          | some (st, s₂) ↦ after_request rounds fuel q txn_id st s₂
        ]
  ]
