-- ===== src/Transaction/Pending/Correlation.antt =====
-- What a waiter gets, by the steps of the other threads on its own entry.
use qemu_pcie_vip.Base.{
  ℕ, ◌≡◌, refl, ap, ◌∙◌, arith, List, [], ◌∷◌, ◌==◌, Option, none, some, if◌then◌else◌,
}
use qemu_pcie_vip.Protocol.Types.{Message}
use qemu_pcie_vip.Transaction.Pending.{
  Table, find, find-assign, find-erase, register_pending, complete, cancel_all, PendingOp,
  registers, completes, finishes, cancels, pending_step, pending_run, finish, wait_for,
}

-- The entry of `k` after each step, whatever else the table holds.
abbrev pub entry_step : ℕ → PendingOp → Option (Option Message) → Option (Option Message)
entry_step k (registers j) e = if j == k then some none else e
entry_step k (completes j m) none = none
entry_step k (completes j m) (some v) = if j == k then some (some m) else some v
entry_step k (finishes j) e = if j == k then none else e
entry_step k cancels e = none

abbrev pub entry_run : ℕ → List PendingOp → Option (Option Message) → Option (Option Message)
entry_run k [] e = e
entry_run k (o ∷ os) e = entry_run k os (entry_step k o e)

find-complete :
    (k j : ℕ) (m : Message) (t : Table) (e : Option (Option Message))
    → find k t ≡ e
    → find k (complete j m t).1 ≡ entry_step k (completes j m) e
unfolding complete
find-complete k j m t none h = ground (arith, find-assign j k (some m) t)
find-complete k j m t (some v) h = ground (arith, find-assign j k (some m) t)

find-pending_step :
    (k : ℕ) (o : PendingOp) (t : Table) → find k (pending_step o t) ≡ entry_step k o (find k t)
unfolding pending_step register_pending cancel_all
find-pending_step k (registers j) t = find-assign j k none t
find-pending_step k (completes j m) t = find-complete k j m t (find k t) refl
find-pending_step k (finishes j) t = find-erase j k t
find-pending_step k cancels t = unfold find in refl

-- The entries of different transactions evolve independently.
pub find-pending_run :
    (k : ℕ) (os : List PendingOp) (t : Table)
    → find k (pending_run os t) ≡ entry_run k os (find k t)
unfolding pending_run
find-pending_run k [] t = refl
find-pending_run k (o ∷ os) t =
    find-pending_run k os (pending_step o t) ∙ ap (entry_run k os) (find-pending_step k o t)

-- The response that an entry holds.
abbrev pub response_of : Option (Option Message) → Option Message
response_of none = none
response_of (some v) = v

find-finish :
    (k : ℕ) (t : Table) (e : Option (Option Message))
    → find k t ≡ e
    → ((finish k t).0 ≡ response_of e)
      × ((j : ℕ) → find j (finish k t).1 ≡ (if k == j then none else find j t))
unfolding finish
find-finish k t none h = (rw (h, finish), λ j. ground arith)
find-finish k t (some none) h = (rw (h, finish), λ j. rw (h, finish) (find-erase k j t))
find-finish k t (some (some m)) h = (rw (h, finish), λ j. rw (h, finish) (find-erase k j t))

-- A request that is pending with no response yet: WaitFor returns what its entry has become after
-- the steps of the other threads, erases that entry, and leaves all others as those steps made them.
pub wait_for_lem :
    (k : ℕ) (os : List PendingOp) (t : Table)
    → find k t ≡ some none
    → ((wait_for k os t).0 ≡ response_of (entry_run k os (some none)))
      × ((j : ℕ)
          → find j (wait_for k os t).1 ≡ (if k == j then none else entry_run j os (find j t)))
unfolding wait_for
wait_for_lem k os t h =
    let after = find-pending_run k os t in
    let (r, f) = find-finish k (pending_run os t) _ after in
    (
      rw (h, wait_for) (r ∙ ap (λ e. response_of (entry_run k os e)) h),
      λ j. rw (h, wait_for) (f j ∙ ap (λ e. if k == j then none else e) (find-pending_run j os t)),
    )
