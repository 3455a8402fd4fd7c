-- ===== src/Transaction/Pending/Waiting.antt =====
-- `PendingRequestTable::WaitFor` among the steps of other threads.
use qemu_pcie_vip.Base.{
  ℕ, ◌≡◌, ◌≢◌, ◌⊎◌, inl, inr, refl, sym, ap, ◌∙◌, arith, List, [], ◌∷◌, ◌++◌, false, ◌==◌, Option,
  none, some, Option-cases, Bool-cases, All,
}
use qemu_pcie_vip.Protocol.Types.{Message}
use qemu_pcie_vip.Transaction.Pending.{
  Table, find, complete, PendingOp, registers, completes, finishes, cancels, wait_for,
}
use qemu_pcie_vip.Transaction.Pending.Correlation.{entry_step, entry_run, response_of, wait_for_lem}

-- One of the steps completes `k` with `m`.
abbrev pub Completed : ℕ → Message → List PendingOp → Type 0
Completed k m [] = ⊥
Completed k m (o ∷ os) = (o ≡ completes k m) ⊎ Completed k m os

entry_run_own :
    (k : ℕ) (m : Message) (os : List PendingOp) (e : Option (Option Message))
    → response_of (entry_run k os e) ≡ some m
    → (response_of e ≡ some m) ⊎ Completed k m os
entry_run_own k m [] e h = inl h
entry_run_own k m (o ∷ os) e h = elim (entry_run_own k m os (entry_step k o e) h) [
  | inr later ↦ inr (inr later)
  | inl now ↦ by_step o e now
]
  where
    by_step :
        (o : PendingOp) (e : Option (Option Message))
        → response_of (entry_step k o e) ≡ some m
        → (response_of e ≡ some m) ⊎ ((o ≡ completes k m) ⊎ Completed k m os)
    by_step (registers j) e g = ground arith
    by_step (completes j n) none g = cc
    by_step (completes j n) (some v) g = elim (Bool-cases (j == k)) [
      | inl same ↦ inr (inl (ground arith))
      | inr other ↦ inl (ground arith)
    ]
    by_step (finishes j) e g = ground arith
    by_step cancels e g = cc

-- A request that is pending without a response: a message that WaitFor returns is one that a
-- Complete of this very transaction delivered during the wait; and whatever it returns, the entry
-- is gone, so that a Complete that comes later returns false and changes nothing.
pub wait_for_own :
    (k : ℕ) (os : List PendingOp) (t : Table)
    → find k t ≡ some none
    → let (result, t') = wait_for k os t in
      ((result ≡ none) ⊎ ((m : Message) × (result ≡ some m) × Completed k m os))
      × ((late : Message) → complete k late t' ≡ (false, t'))
unfolding complete
wait_for_own k os t h =
    let (r, f) = wait_for_lem k os t h in
    let gone : find k (wait_for k os t).1 ≡ none = f k ∙ ground arith in
    (answer (Option-cases (wait_for k os t).0) r, λ late. rw (gone, complete))
  where
    answer :
        (((wait_for k os t).0 ≡ none) ⊎ ((m : Message) × ((wait_for k os t).0 ≡ some m)))
        → (wait_for k os t).0 ≡ response_of (entry_run k os (some none))
        → ((wait_for k os t).0 ≡ none)
          ⊎ ((m : Message) × ((wait_for k os t).0 ≡ some m) × Completed k m os)
    answer (inl n) r = inl n
    answer (inr (m, e)) r = elim (entry_run_own k m os (some none) (sym r ∙ e)) [
      | inl absent ↦ cc
      | inr came ↦ inr (m, e, came)
    ]

-- The step leaves the entry of `k` in the table, and completes it at most.
abbrev pub Keeps : ℕ → PendingOp → Type 0
Keeps k (registers j) = j ≢ k
Keeps k (completes j m) = Unit {0}
Keeps k (finishes j) = j ≢ k
Keeps k cancels = ⊥

entry_run_kept :
    (k : ℕ) (os : List PendingOp) (v : Option Message)
    → All (Keeps k) os
    → (u : Option Message) × (entry_run k os (some v) ≡ some u) × ((v ≢ none) → (u ≢ none))
entry_run_kept k [] v h = (v, refl, λ n. n)
entry_run_kept k (registers j ∷ os) v h =
    let (u, e, n) = entry_run_kept k os v h.1 in (u, ground arith, n)
entry_run_kept k (completes j m ∷ os) v h = elim (Bool-cases (j == k)) [
  | inl same ↦ let (u, e, n) = entry_run_kept k os (some m) h.1 in (u, rw same e, λ _. n (λ x. cc))
  | inr other ↦ let (u, e, n) = entry_run_kept k os v h.1 in (u, rw other e, n)
]
entry_run_kept k (finishes j ∷ os) v h =
    let (u, e, n) = entry_run_kept k os v h.1 in (u, ground arith, n)
entry_run_kept k (cancels ∷ os) v h = absurd h.0

entry_run-append :
    (k : ℕ) (os ps : List PendingOp) (e : Option (Option Message))
    → entry_run k (os ++ ps) e ≡ entry_run k ps (entry_run k os e)
entry_run-append k [] ps e = refl
entry_run-append k (o ∷ os) ps e = entry_run-append k os ps (entry_step k o e)

-- A request that is pending without a response, and steps of other threads that neither cancel,
-- register nor finish it: if one of them completes it, before the waiter wakes up, whatever else
-- comes before and after and for whatever transactions, then WaitFor returns a response.
pub wait_for_gets :
    (k : ℕ) (m : Message) (before later : List PendingOp) (t : Table)
    → find k t ≡ some none
    → All (Keeps k) before
    → All (Keeps k) later
    → (wait_for k (before ++ (completes k m ∷ later)) t).0 ≢ none
wait_for_gets k m before later t h b l =
    let (r, _) = wait_for_lem k (before ++ (completes k m ∷ later)) t h in
    let (v, eb, _) = entry_run_kept k before none b in
    let (u, el, n) = entry_run_kept k later (some m) l in
    let run : entry_run k (before ++ (completes k m ∷ later)) (some none) ≡ some u =
      entry_run-append k before (completes k m ∷ later) (some none)
      ∙ ap (entry_run k (completes k m ∷ later)) eb
      ∙ ground arith in
    λ none_came. n (λ x. cc) (sym (ap response_of run) ∙ sym r ∙ none_came)

-- WaitFor of one transaction leaves every other as the other threads left it: with no step of
-- theirs, exactly as it was, its response included.
pub wait_for_others :
    (k j : ℕ) (os : List PendingOp) (t : Table)
    → find k t ≡ some none
    → k ≢ j
    → find j (wait_for k os t).1 ≡ entry_run j os (find j t)
wait_for_others k j os t h ne = ((wait_for_lem k os t h).1 j) ∙ ground arith
