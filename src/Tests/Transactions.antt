-- ===== src/Tests/Transactions.antt =====
-- The id generator, the queue and the table of pending requests at concrete states.
use qemu_pcie_vip.Base.{
  ℕ, ◌-◌, ◌^◌, ◌≡◌, ◌≢◌, ◌⊎◌, refl, arith, List, [], ◌∷◌, ◌++◌, false, none, some,
}
use qemu_pcie_vip.Protocol.Types.{Message, dma_read_rsp, code}
use qemu_pcie_vip.Protocol.Codec.{make_header}
use qemu_pcie_vip.Transaction.Ids.{
  TransactionIdGenerator, next_ids, Increasing, next_ids-Increasing,
}
use qemu_pcie_vip.Transaction.Queue.{
  BlockingQueue, QueueOp, pushes, try_pops, shuts, queue_run, pop, try_pop, queue_step, push,
  shut_down, pop_wait, pop_awake, with_item, queue_run_fifo, pop_fifo,
}
use qemu_pcie_vip.Transaction.Pending.{
  Table, find, complete, PendingOp, registers, completes, finishes, pending_run, wait_for, finish,
  pending_step, register_pending, assign, erase,
}
use qemu_pcie_vip.Transaction.Pending.Correlation.{entry_run}
use qemu_pcie_vip.Transaction.Pending.Refinement.{
  view, book_run, book_wait, is_present, table_refines,
}
use qemu_pcie_vip.Transaction.Pending.Waiting.{
  Completed, wait_for_own, wait_for_gets, wait_for_others,
}

abbrev last_ids : TransactionIdGenerator
last_ids = record { next = 2 ^ 64 - 4 }

next_ids-Increasing_example : Increasing (2 ^ 64 - 4) (next_ids 3 last_ids)
next_ids-Increasing_example = next_ids-Increasing 3 last_ids (omega arith)

abbrev busy : List (QueueOp ℕ)
busy = pushes 10 ∷ pushes 11 ∷ try_pops ∷ pushes 12 ∷ shuts ∷ []

abbrev idle : BlockingQueue ℕ
idle = record { items = []; shut = false }

queue_run_fifo_example :
    (queue_run busy idle).0 ++ (queue_run busy idle).1.items ≡ 10 ∷ 11 ∷ 12 ∷ []
queue_run_fifo_example = queue_run_fifo busy idle

pop_fifo_example :
    ((pop busy idle).1 ++ with_item (pop busy idle).0 (pop busy idle).2.items ≡ 10 ∷ 11 ∷ 12 ∷ [])
    × (((pop busy idle).0 ≢ none) ⊎ ((pop busy idle).2.items ≡ []))
pop_fifo_example = pop_fifo busy idle

-- The waiter gets 11: 10 went to another.
pop_runs : (pop busy idle).0 ≡ some 11
unfolding pop pop_wait pop_awake queue_run queue_step try_pop push shut_down
pop_runs = refl

abbrev answer : ℕ → Message
unfolding make_header
answer txn_id = record {
  header = make_header (code dma_read_rsp) txn_id 0 0 0 9 0 1 0;
  payload = [];
}

-- Two requests wait, 5 and 6.
abbrev two_pending : Table
two_pending = (5, none) ∷ (6, none) ∷ []

two_pending-find : find 5 two_pending ≡ some none
unfolding find
two_pending-find = refl

abbrev others_first : List PendingOp
others_first = registers 7 ∷ completes 6 (answer 6) ∷ []

abbrev others_last : List PendingOp
others_last = completes 8 (answer 8) ∷ finishes 6 ∷ []

abbrev answered : List PendingOp
answered = others_first ++ (completes 5 (answer 5) ∷ others_last)

wait_runs : (wait_for 5 answered two_pending).0 ≡ some (answer 5)
unfolding wait_for find finish pending_run pending_step register_pending complete assign erase
    make_header
wait_runs = refl

wait_for_own_example :
    (((wait_for 5 answered two_pending).0 ≡ none)
      ⊎ ((m : Message) × ((wait_for 5 answered two_pending).0 ≡ some m) × Completed 5 m answered))
    × ((late : Message)
        → complete 5 late (wait_for 5 answered two_pending).1
          ≡ (false, (wait_for 5 answered two_pending).1))
wait_for_own_example = wait_for_own 5 answered two_pending two_pending-find

wait_for_gets_example : (wait_for 5 answered two_pending).0 ≢ none
wait_for_gets_example =
    wait_for_gets 5 (answer 5) others_first others_last two_pending two_pending-find
      ((λ e. omega arith), (tt, tt)) (tt, ((λ e. omega arith), tt))

wait_for_others_example :
    find 6 (wait_for 5 answered two_pending).1 ≡ entry_run 6 answered (find 6 two_pending)
wait_for_others_example =
    wait_for_others 5 6 answered two_pending two_pending-find (λ e. omega arith)

table_refines_example :
    (view (pending_run answered two_pending) ≡ book_run answered (view two_pending))
    × ((complete 5 (answer 5) two_pending).0 ≡ is_present (view two_pending 5))
    × ((wait_for 5 answered two_pending).0 ≡ (book_wait 5 answered (view two_pending)).0)
    × (view (wait_for 5 answered two_pending).1 ≡ (book_wait 5 answered (view two_pending)).1)
table_refines_example = table_refines 5 (answer 5) answered two_pending
