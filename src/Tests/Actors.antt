-- ===== src/Tests/Actors.antt =====
-- toolkit/source/actor on a few calls.
use m_toolkit.Base.{ℕ, ◌≤◌, ◌≡◌, refl, false, List, [], ◌∷◌}
use m_toolkit.Actor.{Event, create}
use m_toolkit.Actor.Publishing.{
  Operation, subscribes, un_subscribes, publishes, Shows, perform_all, spec_all, empty_board,
  perform_all-Shows,
}
use m_toolkit.Actor.Stopping.{
  Active, Reach, started, begins, goes, goes_on, clears, popping, cleared, joined,
}
use m_toolkit.Actor.Stopping.Joining.{Run, Reach-joined}

abbrev ping : Event
ping = record { signal = 7; identity = 1 }

-- Actors 2 and 1 subscribe, 2 cancels between two events.
abbrev operations : List Operation
operations =
    subscribes 2 7 ∷ subscribes 1 7 ∷ publishes ping ∷ un_subscribes 2 7 ∷ publishes ping ∷ []

perform_all-Shows_example : Shows (perform_all operations create) (spec_all operations empty_board)
perform_all-Shows_example = perform_all-Shows operations

-- `Stop` is called while the thread waits for an event.
abbrev waiting : Active
waiting = record (started []) { worker = popping }

abbrev stopping : Active
stopping = record waiting { running = false; stopper = cleared }

Reach-stopping : Reach [] stopping
unfolding started
Reach-stopping = let w : Reach [] waiting = goes begins (goes_on refl refl) in goes w (clears refl)

Reach-joined_example :
    ((n : ℕ) (t : Active) → Run n stopping t → n ≤ 6)
    × ((n : ℕ) × (t : Active) × Run n stopping t × (t.stopper ≡ joined))
Reach-joined_example = Reach-joined Reach-stopping refl
