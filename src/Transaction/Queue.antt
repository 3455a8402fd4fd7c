-- ===== src/Transaction/Queue.antt =====
-- `BlockingQueue<T>`.
use qemu_pcie_vip.Base.{
  ◌≡◌, ◌≢◌, ◌⊎◌, inl, inr, refl, sym, ap, ◌∙◌, arith, List, [], ◌∷◌, ◌++◌, Bool, true, false, ◌||◌,
  Option, none, some, if◌then◌else◌, append-nil, append_assoc, Bool-cases,
}

pub record BlockingQueue {ℓ} (A : Type ℓ) : Type ℓ where
  pub items : List A
  pub shut : Bool

-- The steps of other threads.
pub data QueueOp {ℓ} (A : Type ℓ) : Type ℓ where
  pushes : A → QueueOp A
  try_pops : QueueOp A
  shuts : QueueOp A

module _ {ℓ} {A : Type ℓ} where
  abbrev pub empty_queue : BlockingQueue A
  empty_queue = record { items = []; shut = false }

  unfoldable pub push : A → BlockingQueue A → BlockingQueue A
  push item q = record q { items = q.items ++ (item ∷ []) }

  pop_front : List A → BlockingQueue A → Option A × BlockingQueue A
  pop_front [] q = (none, q)
  pop_front (x ∷ xs) q = (some x, record q { items = xs })

  unfoldable pub try_pop : BlockingQueue A → Option A × BlockingQueue A
  unfolding pop_front
  try_pop q = pop_front q.items q

  unfoldable pub shut_down : BlockingQueue A → BlockingQueue A
  shut_down q = record q { shut = true }

  -- The item that the step takes, and the queue after it.
  unfoldable pub queue_step : QueueOp A → BlockingQueue A → Option A × BlockingQueue A
  unfolding try_pop
  queue_step (pushes a) q = (none, push a q)
  queue_step try_pops q = try_pop q
  queue_step shuts q = (none, shut_down q)

  abbrev pub with_item : Option A → List A → List A
  with_item none xs = xs
  with_item (some a) xs = a ∷ xs

  unfoldable pub queue_run : List (QueueOp A) → BlockingQueue A → List A × BlockingQueue A
  queue_run [] q = ([], q)
  queue_run (o ∷ os) q =
      let (out, q₁) = queue_step o q in let (outs, q₂) = queue_run os q₁ in (with_item out outs, q₂)

  abbrev is_nonempty : List A → Bool
  is_nonempty [] = false
  is_nonempty (x ∷ xs) = true

  -- The predicate of the wait.
  abbrev pub may_pop : BlockingQueue A → Bool
  may_pop q = is_nonempty q.items || q.shut

  -- wait_for tests the predicate, and if it fails lets the steps `others` in until it wakes up or
  -- times out: what those took meanwhile, and the queue.
  unfoldable pub pop_wait : List (QueueOp A) → BlockingQueue A → List A × BlockingQueue A
  pop_wait others q = if may_pop q then ([], q) else queue_run others q

  -- The rest of `Pop`: nothing if the predicate still fails, and the front if there is one.
  unfoldable pub pop_awake : List A → BlockingQueue A → Option A × List A × BlockingQueue A
  unfolding try_pop
  pop_awake taken q = if may_pop q then ((try_pop q).0, taken, (try_pop q).1) else (none, taken, q)

  unfoldable pub pop : List (QueueOp A) → BlockingQueue A → Option A × List A × BlockingQueue A
  unfolding pop_wait pop_awake
  pop others q = let (taken, woken) = pop_wait others q in pop_awake taken woken

  -- What the steps push.
  abbrev pub pushed : List (QueueOp A) → List A
  pushed [] = []
  pushed (pushes a ∷ os) = a ∷ pushed os
  pushed (try_pops ∷ os) = pushed os
  pushed (shuts ∷ os) = pushed os

  try_pop_fifo : (q : BlockingQueue A) → with_item (try_pop q).0 (try_pop q).1.items ≡ q.items
  unfolding try_pop
  try_pop_fifo q = front q.items refl
    where
      front :
          (xs : List A) → q.items ≡ xs → with_item (pop_front xs q).0 (pop_front xs q).1.items ≡ xs
      front [] e = e
      front (x ∷ xs) e = refl

  with_item-append : (o : Option A) (xs ys : List A) → with_item o (xs ++ ys) ≡ with_item o xs ++ ys
  with_item-append none xs ys = refl
  with_item-append (some a) xs ys = refl

  queue_step_fifo :
      (o : QueueOp A) (os : List (QueueOp A)) (q : BlockingQueue A)
      → with_item (queue_step o q).0 ((queue_step o q).1.items ++ pushed os)
        ≡ q.items ++ pushed (o ∷ os)
  unfolding queue_step push shut_down
  queue_step_fifo (pushes a) os q = append_assoc q.items (a ∷ []) (pushed os)
  queue_step_fifo try_pops os q =
      with_item-append (try_pop q).0 (try_pop q).1.items (pushed os)
      ∙ ap (λ x. x ++ pushed os) (try_pop_fifo q)
  queue_step_fifo shuts os q = refl

  -- Whatever the threads do, what was taken, in order, followed by what is left is what was there
  -- followed by what was pushed, in order: nothing is lost, made up or overtaken.
  pub queue_run_fifo :
      (os : List (QueueOp A)) (q : BlockingQueue A)
      → (queue_run os q).0 ++ (queue_run os q).1.items ≡ q.items ++ pushed os
  unfolding queue_run
  queue_run_fifo [] q = sym (append-nil q.items)
  queue_run_fifo (o ∷ os) q =
      sym (
        with_item-append (queue_step o q).0 (queue_run os (queue_step o q).1).0
          (queue_run os (queue_step o q).1).1.items)
      ∙ ap (with_item (queue_step o q).0) (queue_run_fifo os (queue_step o q).1)
      ∙ queue_step_fifo o os q

  pop_awake_lem :
      (taken xs : List A) (q : BlockingQueue A)
      → q.items ≡ xs
      → let (item, taken', q') = pop_awake taken q in
        (taken' ≡ taken) × (with_item item q'.items ≡ q.items) × ((item ≢ none) ⊎ (q'.items ≡ []))
  unfolding pop_awake
  pop_awake_lem taken [] q e = ground arith
  pop_awake_lem taken (x ∷ xs) q e = ground arith

  -- Pop takes the oldest item that is there when it wakes up, and comes back with none only from an
  -- empty queue: what the other threads took before, its item and what is left are what was there,
  -- followed, if it had to wait, by what was pushed meanwhile, all in order.
  pub pop_fifo :
      (os : List (QueueOp A)) (q : BlockingQueue A)
      → let (item, taken, q') = pop os q in
        (taken ++ with_item item q'.items ≡ q.items ++ (if may_pop q then [] else pushed os))
        × ((item ≢ none) ⊎ (q'.items ≡ []))
  unfolding pop
  pop_fifo os q =
      let (t, w, n) = pop_awake_lem (pop_wait os q).0 _ (pop_wait os q).1 refl in
      (
        ap (λ x. x ++ with_item (pop os q).0 (pop os q).2.items) t
            ∙ ap (◌++◌ (pop_wait os q).0) w
            ∙ waited (Bool-cases (may_pop q)),
        n,
      )
    where
      waited :
          ((may_pop q ≡ true) ⊎ (may_pop q ≡ false))
          → (pop_wait os q).0 ++ (pop_wait os q).1.items
            ≡ q.items ++ (if may_pop q then [] else pushed os)
      waited (inl now) = ground (arith, append-nil q.items)
      waited (inr later) = ground (arith, queue_run_fifo os q)
