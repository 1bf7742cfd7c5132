-- ===== src/Tests/Queues.antt =====
-- toolkit/source/lock_container and message_queue on a few calls.
use m_toolkit.Base.{ℕ, ◌≡◌, refl, List, [], ◌∷◌, ◌++◌, true, none, some, if◌then◌else◌, ◌==◌}
use m_toolkit.LockContainer.LockList.{wait_pop_front_for, undefined}
use m_toolkit.LockContainer.LockQueue.{push, wait_and_pop_for}
use m_toolkit.LockContainer.Calls.{
  Call, pushes, tries, tests, waits, waits_for, wakes, run, expected, all_pushed, Ordered,
}
use m_toolkit.LockContainer.Steps.{run-order}
use m_toolkit.MessageQueue.{
  Builders, Message, Looper, create, enqueue, enqueue_message, at_test, step_at, next, run_message,
}
use m_toolkit.MessageQueue.Order.{Sorted, due_at}
use m_toolkit.MessageQueue.Looping.{
  called_for, messages, Loops, loops_create, loops_enqueue, loops_step, held, Loops-order,
}

abbrev calls : List (Call ℕ)
calls =
    pushes 5
    ∷ pushes 6
    ∷ tries
    ∷ tests
    ∷ pushes 7
    ∷ waits
    ∷ waits_for
    ∷ waits_for
    ∷ pushes 8
    ∷ wakes
    ∷ []

run-order_example :
    (run calls [] ≡ expected calls [] 0) × Ordered [] (all_pushed calls) (run calls [])
run-order_example = run-order calls []

-- Two threads that wait with a time limit are woken by one value.
woken_twice : run {A = ℕ} (waits_for ∷ waits_for ∷ pushes 5 ∷ wakes ∷ wakes ∷ []) [] ≡ none
unfolding run push wait_and_pop_for
woken_twice = refl

-- A wait with a time limit that ends before anything was pushed takes from an empty list.
woken_early : wait_pop_front_for {A = ℕ} [] (some []) ≡ undefined
unfolding wait_pop_front_for
woken_early = refl

abbrev early : Message
early = record { identity = 1; builder = 1; due = 10 }

abbrev late : Message
late = record { identity = 2; builder = 2; due = 20 }

-- Builder 1 has the handlers 8 and 9.
abbrev handlers : Builders
handlers = λ b. if b == 1 then 8 ∷ 9 ∷ [] else []

-- Two messages come, and three steps run the earlier.
abbrev waiting : Looper
waiting = enqueue_message early (enqueue_message late (create handlers))

abbrev turned : Looper
turned = record {
  running = true;
  place = at_test;
  message_queue = late ∷ [];
  builders = handlers;
  called = (8, 1) ∷ (9, 1) ∷ [];
}

turned-Loops : Loops (late ∷ early ∷ []) ((early, handlers) ∷ []) turned
unfolding enqueue_message create enqueue step_at next run_message
turned-Loops =
    loops_step _ [] _ turned
      (loops_step _ [] _ _
        (loops_step _ [] waiting _
          (loops_enqueue (late ∷ []) [] _ early
            (loops_enqueue [] [] _ late (loops_create handlers)))
          refl)
        refl)
      refl

Loops-order_example :
    Sorted turned.message_queue
    × ((t : ℕ)
        → due_at t (messages ((early, handlers) ∷ []) ++ held turned.place)
            ++ due_at t turned.message_queue
          ≡ due_at t (late ∷ early ∷ []))
    × (turned.called ≡ called_for ((early, handlers) ∷ []))
Loops-order_example = Loops-order turned-Loops

-- A map with the keys 3 and 8.
abbrev small_map : List (ℕ × ℕ)
small_map = (3, 30) ∷ (8, 80) ∷ []
