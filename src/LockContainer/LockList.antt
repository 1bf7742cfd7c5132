-- ===== src/LockContainer/LockList.antt =====
-- toolkit/source/lock_container/lock_list.h: `LockList`, as the list under its lock.
use m_toolkit.Base.{ℕ, Bool, Option, none, some, List, [], ◌∷◌, ◌++◌, length, ◌==◌, if◌then◌else◌}

-- What a pop with a time limit comes to. `undefined` is `front` of an empty list.
pub data Popped {ℓ} (A : Type ℓ) : Type ℓ where
  timed_out undefined : Popped A
  popped : A → List A → Popped A

module _ {ℓ} {A : Type ℓ} where
  abbrev pub push_back : A → List A → List A
  push_back value items = items ++ value ∷ []

  abbrev pub emplace_back : A → List A → List A
  emplace_back value items = items ++ value ∷ []

  abbrev pub size_of : List A → ℕ
  size_of items = length items

  abbrev pub clear_list : List A → List A
  clear_list items = []

  abbrev pub is_empty : List A → Bool
  is_empty items = length items == 0

  -- `none` is undefined.
  abbrev pub front : List A → Option A
  front [] = none
  front (x ∷ items) = some x

  abbrev pub pop_front : List A → Option (List A)
  pop_front [] = none
  pop_front (x ∷ items) = some items

  -- `none` waits: the step comes once the list is not empty.
  abbrev pub wait_pop_front : List A → Option (A × List A)
  wait_pop_front [] = none
  wait_pop_front (x ∷ items) = some (x, items)

  abbrev pub take_front : List A → Popped A
  take_front [] = undefined
  take_front (x ∷ items) = popped x items

  -- `wake` is the list at the moment the wait ends without a timeout, and `none` a timeout.
  unfoldable pub wait_pop_front_for : (items : List A) → (wake : Option (List A)) → Popped A
  wait_pop_front_for items wake =
      if length items == 0
      then elim wake [ none ↦ timed_out | some later ↦ take_front later ]
      else take_front items

  -- `remove_if`, and `remove` of a value, where `pr` compares with it.
  abbrev pub remove_all : (A → Bool) → List A → List A
  remove_all pr [] = []
  remove_all pr (x ∷ items) = if pr x then remove_all pr items else x ∷ remove_all pr items

  -- What `ForEach` calls its argument on.
  abbrev pub for_each : List A → List A
  for_each items = items
