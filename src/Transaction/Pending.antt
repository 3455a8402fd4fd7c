-- ===== src/Transaction/Pending.antt =====
-- `PendingRequestTable`: the unordered map as an association list with one entry for each key.
pub mod Correlation
pub mod Waiting
pub mod Refinement
use qemu_pcie_vip.Base.{
  ℕ, ◌+◌, ◌<◌, ◌≤◌, ◌≡◌, ◌≢◌, ◌⊎◌, inl, inr, refl, sym, ap, ◌∙◌, arith, List, [], ◌∷◌, ◌++◌, Bool,
  true, false, ◌==◌, Option, none, some, if◌then◌else◌, Option-cases, Bool-cases,
}
use qemu_pcie_vip.Protocol.Types.{Message}

abbrev pub Table : Type 0
Table = List (ℕ × Option Message)

unfoldable pub find : ℕ → Table → Option (Option Message)
find k [] = none
find k ((j, v) ∷ t) = if j == k then some v else find k t

-- `pending_[k] = v`
unfoldable pub assign : ℕ → Option Message → Table → Table
assign k v [] = (k, v) ∷ []
assign k v ((j, w) ∷ t) = if j == k then (k, v) ∷ t else (j, w) ∷ assign k v t

unfoldable pub erase : ℕ → Table → Table
erase k [] = []
erase k ((j, w) ∷ t) = let rest = erase k t in if j == k then rest else (j, w) ∷ rest

pub find-assign :
    (k j : ℕ) (v : Option Message) (t : Table)
    → find j (assign k v t) ≡ (if k == j then some v else find j t)
unfolding find assign
find-assign k j v [] = refl
find-assign k j v ((i, w) ∷ t) = ground (arith, find-assign k j v t)

pub find-erase : (k j : ℕ) (t : Table) → find j (erase k t) ≡ (if k == j then none else find j t)
unfolding find erase
find-erase k j [] = ground arith
find-erase k j ((i, w) ∷ t) = ground (arith, find-erase k j t)

unfoldable pub register_pending : ℕ → Table → Table
register_pending txn_id t = assign txn_id none t

unfoldable pub complete : ℕ → Message → Table → Bool × Table
complete txn_id response t = elim (find txn_id t) [
  | none ↦ (false, t)
  | some _ ↦ (true, assign txn_id (some response) t)
]

unfoldable pub cancel_all : Table → Table
cancel_all t = []

-- The steps of other threads while one waits.
pub data PendingOp : Type 0 where
  registers : ℕ → PendingOp
  completes : ℕ → Message → PendingOp
  finishes : ℕ → PendingOp
  cancels : PendingOp

-- `finishes` is another waiter that erases its entry.
unfoldable pub pending_step : PendingOp → Table → Table
unfolding register_pending complete cancel_all
pending_step (registers k) t = register_pending k t
pending_step (completes k m) t = (complete k m t).1
pending_step (finishes k) t = erase k t
pending_step cancels t = cancel_all t

unfoldable pub pending_run : List PendingOp → Table → Table
pending_run [] t = t
pending_run (o ∷ os) t = pending_run os (pending_step o t)

-- The predicate of the wait: the entry is gone, or holds a response.
abbrev pub arrived : Option (Option Message) → Bool
arrived none = true
arrived (some none) = false
arrived (some (some m)) = true

-- After the wait: the entry is looked up again, its response taken, and the entry erased.
unfoldable pub finish : ℕ → Table → Option Message × Table
finish txn_id t = elim (find txn_id t) [
  | none ↦ (none, t)
  | some result ↦ ((if arrived (some result) then result else none), erase txn_id t)
]

-- `WaitFor`; `others` are the steps of other threads between the first test of the predicate, where
-- it fails, and the moment the waiter has the lock again, woken up or timed out.
unfoldable pub wait_for : ℕ → List PendingOp → Table → Option Message × Table
unfolding finish
wait_for txn_id others t = elim (find txn_id t) [
  | none ↦ (none, t)
  | some entry ↦ finish txn_id (if arrived (some entry) then t else pending_run others t)
]
