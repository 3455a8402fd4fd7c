-- ===== src/Tests/Drivers.antt =====
-- The guest driver over a machine that keeps a ledger, with a device that works.
use qemu_pcie_vip.Base.{
  ℕ, zero, suc, ◌+◌, ◌≡◌, ◌⊎◌, ◌↔◌, refl, arith, List, [], ◌∷◌, true, false, ◌==◌, Option, none,
  some, take, drop, if◌then◌else◌,
}
use qemu_pcie_vip.Harness.Ring.{parse_descriptor, is_runnable, Outcome, completion_entry}
use qemu_pcie_vip.Endpoint.Defs.{value_bytes}
use qemu_pcie_vip.Harness.Words.{store_le, store_loop}
use qemu_pcie_vip.Driver.Layout.{descriptors, completions_good, run_pattern, same_bytes}
use qemu_pcie_vip.Driver.Run.{
  Machine, Config, Buffers, einval, run_config, run_or_fail, locked_run, program, run_loop, iterate,
  fill, poll_status, submit, verify, free_if,
}
use qemu_pcie_vip.Protocol.Types.{Message}
use qemu_pcie_vip.Protocol.Codec.{make_header}
use qemu_pcie_vip.Harness.Device.{DmaRegisters, Device, power_on}
use qemu_pcie_vip.Tests.Boards.{model, host, bench}
use qemu_pcie_vip.Driver.Programmed.{
  IsPost, program_writes, write_all, handle_all, program-handle_all,
}
use qemu_pcie_vip.Driver.Composed.{
  transfer_of, descriptors-parse_descriptor, reported, completion_entry-completions_good,
}
use qemu_pcie_vip.Driver.Balance.{Account, Ledger, taken, Finished, allocated, run_config-account}

-- The account, the next address and how many allocations still succeed.
record Guest : Type 0 where
  account : Account
  next : ℕ
  left : ℕ

abbrev granted : ℕ → ℕ → Option ℕ
granted zero a = none
granted (suc n) a = some a

abbrev done_outcome : ℕ → ℕ → Outcome
done_outcome tag len = record { status = 0; bytes = len; tag = tag; flags = 0 }

abbrev with_account : Account → Guest → Guest
with_account a g = record g { account = a }

abbrev guest : Machine
guest = record {
  State = Guest;
  dma_alloc = λ size g. (
    granted g.left g.next,
    record {
      account = record g.account { live = taken size (granted g.left g.next) g.account.live };
      next = g.next + 0x1000;
      left = elim g.left [ zero ↦ zero | suc n ↦ n ];
    },
  );
  dma_free = λ size a g. with_account (record g.account { live = drop 1 g.account.live }) g;
  lock = λ g. with_account (record g.account { locked = true }) g;
  unlock = λ g. with_account (record g.account { locked = false }) g;
  now_ns = λ g. (5, g);
  store = λ a bs g. g;
  load = λ a n g.
      (if n == 32
        then reported (done_outcome 0x100 8) 0 (done_outcome 0x101 8) 1
        else run_pattern n 0);
  write_reg = λ reg v g. g;
  read_reg = λ reg g. (0, g);
  sleep = λ g. g;
  reinit_completion = λ g. g;
  wait_irq = λ g. (true, g);
  copy_from_user = λ g. none;
  copy_to_user = λ cfg g. (true, g);
}

ledger : Ledger guest
ledger = record {
  account = λ g. g.account;
  of_alloc = λ size g. refl;
  of_free = λ size a rest g e. λ j. record g.account { live = drop 1 (e j) };
  of_lock = λ g. refl;
  of_unlock = λ g. refl;
  of_now = λ g. refl;
  of_store = λ a bs g. refl;
  of_write = λ reg v g. refl;
  of_read = λ reg g. refl;
  of_sleep = λ g. refl;
  of_reinit = λ g. refl;
  of_wait = λ g. refl;
}

-- Enough memory for all four buffers, or for two.
abbrev booted : ℕ → Guest
booted n = record { account = record { live = []; locked = false }; next = 0x1000; left = n }

abbrev three_times : Config
three_times = record { len = 8; iterations = 3; completed = 0; last_status = 0; elapsed_ns = 9 }

runs : (run_config guest three_times (booted 4)).0 ≡ 0
unfolding run_config run_or_fail locked_run program run_loop iterate fill poll_status submit verify
    same_bytes run_pattern completions_good descriptors value_bytes free_if completion_entry
    store_le store_loop
runs = refl

fails : (run_config guest three_times (booted 2)).0 ≡ 12
unfolding run_config run_or_fail locked_run program run_loop iterate fill poll_status submit verify
    same_bytes run_pattern completions_good descriptors value_bytes free_if completion_entry
    store_le store_loop
fails = refl

run_config-account_example :
    let (ret, cfg', s') = run_config guest three_times (booted 4) in
    (s'.account ≡ (booted 4).account)
    × (((false ≡ true) × (ret ≡ einval) × (cfg' ≡ three_times) × (s' ≡ booted 4))
        ⊎ (false ≡ false)
          × Finished guest ledger 8 3
              (allocated guest ledger 8 (booted 4)).0
              (allocated guest ledger 8 (booted 4)).1
              ret
              three_times
              cfg')
unfolding ledger
run_config-account_example = run_config-account guest ledger three_times (booted 4) refl

descriptors-parse_descriptor_example :
    let first = parse_descriptor (take 32 (descriptors 0x2000 0x3000 64)) in
    let second = parse_descriptor (take 32 (drop 32 (descriptors 0x2000 0x3000 64))) in
    (first ≡ transfer_of 0x2000 64 0 0 0x100)
    × (second ≡ transfer_of 0x3000 64 1 1 0x101)
    × (is_runnable first ≡ true)
    × (is_runnable second ≡ true)
descriptors-parse_descriptor_example =
    descriptors-parse_descriptor 0x2000 0x3000 64 (omega arith) (omega arith) (omega arith)
      (omega arith)

completion_entry-completions_good_example :
    (completions_good (reported (done_outcome 0x100 8) 0 (done_outcome 0x101 8) 1) 8 ≡ true) ↔ (
      ((done_outcome 0x100 8).tag ≡ 0x100)
      × ((done_outcome 0x100 8).status ≡ 0)
      × ((done_outcome 0x100 8).bytes ≡ 8)
      × ((done_outcome 0x101 8).tag ≡ 0x101)
      × ((done_outcome 0x101 8).status ≡ 0)
      × ((done_outcome 0x101 8).bytes ≡ 8))
completion_entry-completions_good_example =
    completion_entry-completions_good (done_outcome 0x100 8) (done_outcome 0x101 8) 0 1 8
      (record { tag_u32 = omega arith; status_u16 = omega arith; bytes_u32 = omega arith })
      (record { tag_u32 = omega arith; status_u16 = omega arith; bytes_u32 = omega arith })

abbrev buffers : Buffers
buffers = record { desc = 0x10000002000; cpl = 0x3000; src = 0x4000; dst = 0x5000 }

abbrev post : ℕ × ℕ → Message
post w = record { header = make_header 5 7 w.0 0 0 0 4 0 4; payload = value_bytes 4 0 w.1 }

post-IsPost : (w : ℕ × ℕ) → IsPost w (post w)
unfolding make_header
post-IsPost w = record { typed = refl; at = refl; carries = refl }

abbrev posts : List Message
posts =
    post (0x1040, 0x2000)
    ∷ post (0x1044, 0x100)
    ∷ post (0x1048, 0x3000)
    ∷ post (0x104c, 0)
    ∷ post (0x1050, 2)
    ∷ post (0x105c, 1)
    ∷ []

abbrev board : Device model host
board = record { harness = bench false 0; server = []; regs = power_on }

abbrev registers_set : DmaRegisters
registers_set = record power_on {
  desc_base = buffers.desc;
  cpl_base = buffers.cpl;
  desc_count = 2;
  dma_control = 1;
}

program-handle_all_example :
    (program guest buffers (booted 0) ≡ write_all guest (program_writes buffers) (booted 0))
    × ((e : Device model host) × (handle_all model host (posts) board ≡ some e)
        × (e.regs ≡ registers_set))
program-handle_all_example =
    program-handle_all model host guest buffers (booted 0) (posts) board (omega arith) (omega arith)
      (
        post-IsPost _,
        (post-IsPost _, (post-IsPost _, (post-IsPost _, (post-IsPost _, (post-IsPost _, tt))))),
      )
