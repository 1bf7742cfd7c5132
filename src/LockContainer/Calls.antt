-- ===== src/LockContainer/Calls.antt =====
-- The calls of any threads on a `LockQueue`, in the order in which they get the lock, and their answers.
use m_toolkit.Base.{
  ℕ, suc, ◌≡◌, Bool, true, false, Option, none, some, List, [], ◌∷◌, ◌++◌, drop, get_elem?,
}
use m_toolkit.LockContainer.LockList.{timed_out, undefined, popped}
use m_toolkit.LockContainer.LockQueue.{push, pop, try_pop, wait_and_pop, wait_and_pop_for, empty}

-- `waits_for` is a timed wait that finds a value, or none until its time is over. One that is woken
-- takes the lock twice: it finds nothing, which changes nothing, and it goes on at `wakes`.
pub data Call {ℓ} (A : Type ℓ) : Type ℓ where
  pushes : A → Call A
  pops tries tests waits waits_for wakes : Call A

-- What a call answers. `later` is a wait on an empty queue, which comes again later in the sequence.
pub data Answer {ℓ} (A : Type ℓ) : Type ℓ where
  pushed nothing later : Answer A
  given : A → Answer A
  said : Bool → Answer A

-- What is left and the answers, oldest first; `none` once a call was undefined.
abbrev pub Outcome : Type 0 → Type 0
Outcome A = Option (List A × List (Answer A))

abbrev pub told : {A : Type 0} → Answer A → Outcome A → Outcome A
told answer r = elim r [ none ↦ none | some (queue, answers) ↦ some (queue, answer ∷ answers) ]

unfoldable pub run : {A : Type 0} → List (Call A) → List A → Outcome A
run [] queue = some (queue, [])
run (pushes v ∷ calls) queue = told pushed (run calls (push v queue))
run (tests ∷ calls) queue = told (said (empty queue)) (run calls queue)
run (pops ∷ calls) queue = elim (pop queue) [
  | none ↦ none
  | some (v, queue) ↦ told (given v) (run calls queue)
]
run (tries ∷ calls) queue =
    let (found, queue) = try_pop queue in
    elim found [ none ↦ told nothing (run calls queue) | some v ↦ told (given v) (run calls queue) ]
run (waits ∷ calls) queue = elim (wait_and_pop queue) [
  | none ↦ told later (run calls queue)
  | some (v, queue) ↦ told (given v) (run calls queue)
]
run (waits_for ∷ calls) queue = elim (wait_and_pop_for queue none) [
  | timed_out ↦ told nothing (run calls queue)
  | undefined ↦ none
  | popped v queue ↦ told (given v) (run calls queue)
]
run (wakes ∷ calls) queue = elim (wait_and_pop_for [] (some queue)) [
  | timed_out ↦ told nothing (run calls queue)
  | undefined ↦ none
  | popped v queue ↦ told (given v) (run calls queue)
]

-- The same by all values that ever came, `history`, and the number of those taken so far: a call that
-- takes gives the next one of the history.
abbrev pub expected : {A : Type 0} → List (Call A) → (history : List A) → (taken : ℕ) → Outcome A
expected [] history taken = some (drop taken history, [])
expected (pushes v ∷ calls) history taken = told pushed (expected calls (history ++ v ∷ []) taken)
expected (tests ∷ calls) history taken =
    told (said (elim (get_elem? history taken) [ none ↦ true | some v ↦ false ]))
      (expected calls history taken)
expected (pops ∷ calls) history taken = elim (get_elem? history taken) [
  | none ↦ none
  | some v ↦ told (given v) (expected calls history (suc taken))
]
expected (tries ∷ calls) history taken = elim (get_elem? history taken) [
  | none ↦ told nothing (expected calls history taken)
  | some v ↦ told (given v) (expected calls history (suc taken))
]
expected (waits ∷ calls) history taken = elim (get_elem? history taken) [
  | none ↦ told later (expected calls history taken)
  | some v ↦ told (given v) (expected calls history (suc taken))
]
expected (waits_for ∷ calls) history taken = elim (get_elem? history taken) [
  | none ↦ told nothing (expected calls history taken)
  | some v ↦ told (given v) (expected calls history (suc taken))
]
expected (wakes ∷ calls) history taken = elim (get_elem? history taken) [
  | none ↦ none
  | some v ↦ told (given v) (expected calls history (suc taken))
]

-- The values that the pops gave.
abbrev pub values : {A : Type 0} → List (Answer A) → List A
values [] = []
values (given v ∷ answers) = v ∷ values answers
values (pushed ∷ answers) = values answers
values (nothing ∷ answers) = values answers
values (later ∷ answers) = values answers
values (said b ∷ answers) = values answers

abbrev pub all_pushed : {A : Type 0} → List (Call A) → List A
all_pushed [] = []
all_pushed (pushes v ∷ calls) = v ∷ all_pushed calls
all_pushed (pops ∷ calls) = all_pushed calls
all_pushed (tries ∷ calls) = all_pushed calls
all_pushed (tests ∷ calls) = all_pushed calls
all_pushed (waits ∷ calls) = all_pushed calls
all_pushed (waits_for ∷ calls) = all_pushed calls
all_pushed (wakes ∷ calls) = all_pushed calls

-- What was given and what is left are what was there and what was pushed.
abbrev pub Ordered : {A : Type 0} → List A → List A → Outcome A → Type 0
Ordered queue later_values none = Unit
Ordered queue later_values (some (left, answers)) = values answers ++ left ≡ queue ++ later_values
