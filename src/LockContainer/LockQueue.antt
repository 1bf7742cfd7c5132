-- ===== src/LockContainer/LockQueue.antt =====
-- toolkit/source/lock_container/lock_queue.h: `LockQueue`, as the queue under its lock.
use m_toolkit.Base.{ℕ, Bool, Option, none, some, List, [], ◌∷◌, ◌++◌, length, ◌==◌, if◌then◌else◌}
use m_toolkit.LockContainer.LockList.{Popped, timed_out, take_front}

module _ {ℓ} {A : Type ℓ} where
  unfoldable pub push : A → List A → List A
  push value queue = queue ++ value ∷ []

  -- `Pop` without a test; `none` is undefined.
  unfoldable pub pop : List A → Option (A × List A)
  pop [] = none
  pop (x ∷ queue) = some (x, queue)

  -- `none` waits: the step comes once the queue is not empty.
  unfoldable pub wait_and_pop : List A → Option (A × List A)
  wait_and_pop [] = none
  wait_and_pop (x ∷ queue) = some (x, queue)

  -- `wake` is as in `wait_pop_front_for`.
  unfoldable pub wait_and_pop_for : (queue : List A) → (wake : Option (List A)) → Popped A
  wait_and_pop_for queue wake =
      if length queue == 0
      then elim wake [ none ↦ timed_out | some later ↦ take_front later ]
      else take_front queue

  -- What `TryPop` assigns, if it answers true.
  unfoldable pub try_pop : List A → Option A × List A
  try_pop [] = (none, [])
  try_pop (x ∷ queue) = (some x, queue)

  unfoldable pub empty : List A → Bool
  empty queue = length queue == 0

  unfoldable pub size : List A → ℕ
  size queue = length queue

  unfoldable pub back : List A → Option A
  back [] = none
  back (x ∷ queue) = elim (back queue) [ none ↦ some x | some y ↦ some y ]

  unfoldable pub front : List A → Option A
  front [] = none
  front (x ∷ queue) = some x
