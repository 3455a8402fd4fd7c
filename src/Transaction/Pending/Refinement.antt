-- ===== src/Transaction/Pending/Refinement.antt =====
-- `PendingRequestTable` against what it promises: a book with one phase for each transaction.
use qemu_pcie_vip.Base.{
  ℕ, ◌≡◌, inl, inr, refl, sym, ap, ◌∙◌, arith, List, [], ◌∷◌, Bool, true, false, ◌==◌, Option, none,
  some, Option-cases, Bool-cases, if◌then◌else◌,
}
use qemu_pcie_vip.Protocol.Types.{Message}
use qemu_pcie_vip.Transaction.Pending.{
  Table, find, find-assign, find-erase, erase, complete, register_pending, cancel_all, PendingOp,
  registers, completes, finishes, cancels, pending_step, pending_run, finish, wait_for,
}
use mathlib.Core.Path.{fun_ext}

pub data Phase : Type 0 where
  absent waiting : Phase
  holding : Message → Phase

abbrev pub Book : Type 0
Book = ℕ → Phase

abbrev pub turn : Book → ℕ → Phase → Book
turn f k p j = if k == j then p else f j

-- A response counts only for a transaction that is in the book.
abbrev pub answer_phase : Message → Phase → Phase
answer_phase m absent = absent
answer_phase m waiting = holding m
answer_phase m (holding n) = holding m

abbrev pub book_step : PendingOp → Book → Book
book_step (registers k) f = turn f k waiting
book_step (completes k m) f = turn f k (answer_phase m (f k))
book_step (finishes k) f = turn f k absent
book_step cancels f = λ _. absent

abbrev pub book_run : List PendingOp → Book → Book
book_run [] f = f
book_run (o ∷ os) f = book_run os (book_step o f)

abbrev pub is_present : Phase → Bool
is_present absent = false
is_present waiting = true
is_present (holding m) = true

abbrev pub response_in : Phase → Option Message
response_in absent = none
response_in waiting = none
response_in (holding m) = some m

-- Waiting: at once for a transaction that is absent or holding, else after the steps of the others;
-- the response is handed out, and the transaction is absent from then on.
abbrev pub book_wait : ℕ → List PendingOp → Book → Option Message × Book
book_wait k os f =
    let g : Book = elim (f k) [ absent ↦ f | holding m ↦ f | waiting ↦ book_run os f ] in
    (response_in (g k), turn g k absent)

abbrev pub phase : Option (Option Message) → Phase
phase none = absent
phase (some none) = waiting
phase (some (some m)) = holding m

-- The book that a table stands for: the order of its entries is forgotten.
abbrev pub view : Table → Book
view t k = phase (find k t)

turn-lem :
    (k j : ℕ) (v e : Option (Option Message))
    → phase (if k == j then v else e) ≡ (if k == j then phase v else phase e)
turn-lem k j v e = elim (Bool-cases (k == j)) [
  | inl same ↦ rw same refl
  | inr other ↦ rw other refl
]

turn_back : (f : Book) (k j : ℕ) → turn f k (f k) j ≡ f j
turn_back f k j = elim (Bool-cases (k == j)) [
  | inl same ↦ let e : k ≡ j = ground arith in rw same (ap f e)
  | inr other ↦ rw other refl
]

pending_step-view :
    (o : PendingOp) (t : Table) (j : ℕ) → view (pending_step o t) j ≡ book_step o (view t) j
unfolding pending_step register_pending complete cancel_all find
pending_step-view (registers k) t j = ap phase (find-assign k j none t) ∙ turn-lem k j _ _
pending_step-view (completes k m) t j = elim (Option-cases (find k t)) [
  | inl missing ↦
      let same = rw missing at (sym (turn_back (view t) k j)) in
      rw (missing, pending_step, complete) same
  | inr (none, there) ↦
      rw (there, pending_step, complete) (ap phase (find-assign k j (some m) t) ∙ turn-lem k j _ _)
  | inr (some n, there) ↦
      rw (there, pending_step, complete) (ap phase (find-assign k j (some m) t) ∙ turn-lem k j _ _)
]
pending_step-view (finishes k) t j = ap phase (find-erase k j t) ∙ turn-lem k j _ _
pending_step-view cancels t j = refl

pending_run-view :
    (os : List PendingOp) (t : Table) → view (pending_run os t) ≡ book_run os (view t)
unfolding pending_run
pending_run-view [] t = refl
pending_run-view (o ∷ os) t =
    pending_run-view os (pending_step o t) ∙ ap (book_run os) (fun_ext (pending_step-view o t))

erased : (k : ℕ) (t : Table) → view (erase k t) ≡ turn (view t) k absent
erased k t = fun_ext λ j. ap phase (find-erase k j t) ∙ turn-lem k j _ _

finish-view :
    (k : ℕ) (t : Table)
    → ((finish k t).0 ≡ response_in (view t k)) × (view (finish k t).1 ≡ turn (view t) k absent)
unfolding finish
finish-view k t = elim (Option-cases (find k t)) [
  | inl missing ↦ (
    rw (missing, finish) refl,
    rw (missing, finish) (fun_ext λ j. rw missing at (sym (turn_back (view t) k j))),
  )
  | inr (none, there) ↦ (rw (there, finish) refl, rw (there, finish) (erased k t))
  | inr (some n, there) ↦ (rw (there, finish) refl, rw (there, finish) (erased k t))
]

complete-view : (k : ℕ) (m : Message) (t : Table) → (complete k m t).0 ≡ is_present (view t k)
unfolding complete
complete-view k m t = elim (Option-cases (find k t)) [
  | inl missing ↦ rw (missing, complete) refl
  | inr (none, there) ↦ rw (there, complete) refl
  | inr (some n, there) ↦ rw (there, complete) refl
]

wait_for-view :
    (k : ℕ) (os : List PendingOp) (t : Table)
    → ((wait_for k os t).0 ≡ (book_wait k os (view t)).0)
      × (view (wait_for k os t).1 ≡ (book_wait k os (view t)).1)
unfolding wait_for
wait_for-view k os t = elim (Option-cases (find k t)) [
  | inl missing ↦ (
    rw (missing, wait_for, missing) refl,
    rw (missing, wait_for) (fun_ext λ j. rw missing at (sym (turn_back (view t) k j))),
  )
  | inr (none, there) ↦
      let (r, left) = finish-view k (pending_run os t) in
      let run = pending_run-view os t in
      (
        rw (there, wait_for) (r ∙ ap (λ (g : Book). response_in (g k)) run),
        rw (there, wait_for) (left ∙ ap (λ (g : Book). turn g k absent) run),
      )
  | inr (some n, there) ↦
      let (r, left) = finish-view k t in
      (rw (there, wait_for, there) (rw there at r), rw (there, wait_for) left)
]

-- The table does what its book does: for whatever steps of other threads, its phases are those of the
-- book after the same steps; Complete returns true exactly for a transaction that is present, and
-- WaitFor returns the response that waiting in the book does and leaves the same phases. So the order
-- in which the entries stand is never seen.
pub table_refines :
    (k : ℕ) (m : Message) (os : List PendingOp) (t : Table)
    → (view (pending_run os t) ≡ book_run os (view t))
      × ((complete k m t).0 ≡ is_present (view t k))
      × ((wait_for k os t).0 ≡ (book_wait k os (view t)).0)
      × (view (wait_for k os t).1 ≡ (book_wait k os (view t)).1)
table_refines k m os t =
    (pending_run-view os t, complete-view k m t, (wait_for-view k os t).0, (wait_for-view k os t).1)
