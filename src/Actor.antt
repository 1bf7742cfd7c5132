-- ===== src/Actor.antt =====
-- toolkit/source/actor: `Event`, `Deque`, `Handle` and `Active`. An actor is named by a number that
-- stands for its address.
pub mod Sets
pub mod Entries
pub mod Publishing
pub mod Stopping
use m_toolkit.Base.{
  ℕ, Bool, true, false, not, Option, none, some, List, [], ◌∷◌, ◌++◌, length, ltb, ◌==◌,
  if◌then◌else◌,
}
use m_toolkit.Base.Maps.{find, update}

-- An event, by its signal, with a number that tells it from others.
pub record Event : Type 0 where
  pub signal : ℕ
  pub identity : ℕ

-- `EVENT_EMPTY`, of `StdEventPtr`
abbrev pub event_empty : Event
event_empty = record { signal = 3; identity = 0 }

-- `Deque`, each operation under its lock; `Pop` waits while there is nothing.
unfoldable pub push_back : Event → List Event → List Event
push_back value deque = deque ++ value ∷ []

unfoldable pub push_front : Event → List Event → List Event
push_front value deque = value ∷ deque

unfoldable pub pop : List Event → Option (Event × List Event)
pop [] = none
pop (value ∷ deque) = some (value, deque)

unfoldable pub size : List Event → ℕ
size deque = length deque

-- `std::set<std::shared_ptr<Active>>`, in the order of the addresses.
unfoldable pub set_insert : ℕ → List ℕ → List ℕ
set_insert a [] = a ∷ []
set_insert a (x ∷ l) = if ltb a x then a ∷ x ∷ l else (if x == a then x ∷ l else x ∷ set_insert a l)

unfoldable pub set_erase : ℕ → List ℕ → List ℕ
set_erase a [] = []
set_erase a (x ∷ l) = if x == a then l else x ∷ set_erase a l

-- `operator[]` of `_subscribe_map`, to write through: the entry is there or is made.
unfoldable pub put_entry : ℕ → List ℕ → List (ℕ × List ℕ) → List (ℕ × List ℕ)
put_entry event l [] = (event, l) ∷ []
put_entry event l ((e, old) ∷ m) =
    if e == event then (event, l) ∷ m else (e, old) ∷ put_entry event l m

-- `Handle`, with the queue of each actor and the actors that it registered and started.
pub record Handle : Type 0 where
  pub actors : List ℕ
  pub subscribe_map : List (ℕ × List ℕ)
  pub queues : ℕ → List Event
  pub started : List ℕ

unfoldable pub create : Handle
create = record { actors = []; subscribe_map = []; queues = λ _. []; started = [] }

abbrev pub entry : ℕ → List (ℕ × List ℕ) → List ℕ
entry event m = elim (find event m) [ none ↦ [] | some l ↦ l ]

-- The map with an entry for the signal, an empty one if there was none.
unfoldable pub with_entry : (event : ℕ) → List (ℕ × List ℕ) → List (ℕ × List ℕ)
with_entry event m = elim (find event m) [ none ↦ put_entry event [] m | some _ ↦ m ]

unfoldable pub subscribe : (active event : ℕ) → Handle → Handle
subscribe active event h =
    let m = with_entry event h.subscribe_map in
    record h { subscribe_map = put_entry event (set_insert active (entry event m)) m }

unfoldable pub un_subscribe : (active event : ℕ) → Handle → Handle
un_subscribe active event h = elim (find event h.subscribe_map) [
  | none ↦ h
  | some l ↦ record h { subscribe_map = put_entry event (set_erase active l) h.subscribe_map }
]

-- The loop over the subscribers.
unfoldable pub push_to : List ℕ → Event → (ℕ → List Event) → ℕ → List Event
push_to [] event queues = queues
push_to (active ∷ rest) event queues =
    push_to rest event (update queues active (push_back event (queues active)))

unfoldable pub publish : Event → Handle → Handle
publish event h = elim (find event.signal h.subscribe_map) [
  | none ↦ h
  | some l ↦ record h { queues = push_to l event h.queues }
]

unfoldable pub register_actor : ℕ → Handle → Handle
register_actor actor h = record h { actors = h.actors ++ actor ∷ [] }

unfoldable pub start_actors : Handle → Handle
start_actors h = record h { started = h.started ++ h.actors }
