-- ===== src/Transaction/Ids.antt =====
-- `TransactionIdGenerator`: an atomic 64-bit counter. `fetch_add` is one step and wraps around.
use qemu_pcie_vip.Base.{ℕ, zero, suc, ◌+◌, ◌%◌, ◌^◌, ◌<◌, ◌≤◌, ◌≡◌, arith, List, [], ◌∷◌}

pub record TransactionIdGenerator : Type 0 where
  pub next : ℕ

-- The id, and the generator after it.
unfoldable pub next_id : TransactionIdGenerator → ℕ × TransactionIdGenerator
next_id g = (g.next, record { next = (g.next + 1) % 2 ^ 64 })

-- The ids that `n` calls return, in the order of the calls.
unfoldable pub next_ids : ℕ → TransactionIdGenerator → List ℕ
next_ids zero g = []
next_ids (suc n) g = (next_id g).0 ∷ next_ids n (next_id g).1

-- Each element is above `lo`, and above those in front of it.
abbrev pub Increasing : ℕ → List ℕ → Type 0
Increasing lo [] = Unit {0}
Increasing lo (x ∷ xs) = (lo ≤ x) × Increasing (x + 1) xs

-- As long as the counter does not wrap, the ids of successive calls, by whatever threads, strictly
-- increase, so no two are equal.
pub next_ids-Increasing :
    (n : ℕ) (g : TransactionIdGenerator) → g.next + n < 2 ^ 64 → Increasing g.next (next_ids n g)
unfolding next_ids next_id
next_ids-Increasing zero g h = tt
next_ids-Increasing (suc n) g h =
    let e : (g.next + 1) % 2 ^ 64 ≡ g.next + 1 = omega arith in
    (omega arith, rw e (rw e at (next_ids-Increasing n (next_id g).1 (rw e (omega arith)))))
