-- ===== src/MessageQueue.antt =====
-- toolkit/source/message_queue: messages in the order of their times, builders with their handlers,
-- and the looper that hands each message to the handlers of its builder.
pub mod Order
pub mod Looping
use m_toolkit.Base.{
  ℕ, ◌+◌, ◌%◌, Bool, true, false, Option, none, some, List, [], ◌∷◌, ◌++◌, ltb, add64, ◌==◌,
  if◌then◌else◌,
}
use m_toolkit.Base.Maps.{update}
use m_toolkit.LockContainer.LockList.{push_back, wait_pop_front, remove_all, clear_list, for_each}

-- Messages, builders and handlers are named by their identities. A message is sent once, so its time
-- does not change while it waits.
pub record Message : Type 0 where
  pub identity : ℕ
  pub builder : ℕ
  pub due : ℕ

unfoldable pub enqueue : Message → List Message → List Message
enqueue message [] = message ∷ []
enqueue message (m ∷ list) =
    if ltb message.due m.due then message ∷ m ∷ list else m ∷ enqueue message list

-- `none` waits.
unfoldable pub next : List Message → Option (Message × List Message)
next list = wait_pop_front list

-- The table of the builders' handlers, changed at one builder.
abbrev pub Builders : Type 0
Builders = ℕ → List ℕ

unfoldable pub register_handler : (builder handler : ℕ) → Builders → Builders
register_handler builder handler t = update t builder (push_back handler (t builder))

unfoldable pub unregister_handler : (builder handler : ℕ) → Builders → Builders
unregister_handler builder handler t = update t builder (remove_all (λ h. h == handler) (t builder))

unfoldable pub unregister_handlers : (builder : ℕ) → Builders → Builders
unregister_handlers builder t = update t builder (clear_list (t builder))

-- The handlers that `Run` calls, in order, with the message each gets.
abbrev pub paired : ℕ → List ℕ → List (ℕ × ℕ)
paired identity [] = []
paired identity (h ∷ handlers) = (h, identity) ∷ paired identity handlers

unfoldable pub run_message : Builders → Message → List (ℕ × ℕ)
run_message t message = paired message.identity (for_each (t message.builder))

-- `Send`, at the reading `now` of the clock.
unfoldable pub send : (when now : ℕ) → Message → List Message → List Message
send when now message list =
    enqueue (record message { due = if when == 0 then 0 else add64 when now }) list

-- Where the thread of a looper stands in `Loop`: at the test of `_running`, in `Next`, before `Run` of a
-- message that it was given, or behind the loop.
pub data Place : Type 0 where
  at_test in_next ended : Place
  before_run : Message → Place

-- A looper: whether it runs, where its thread stands, its queue, the builders that messages name, and the
-- calls of handlers that it has made, oldest first.
pub record Looper : Type 0 where
  pub running : Bool
  pub place : Place
  pub message_queue : List Message
  pub builders : Builders
  pub called : List (ℕ × ℕ)

unfoldable pub create : Builders → Looper
create t = record { running = true; place = at_test; message_queue = []; builders = t; called = [] }

unfoldable pub exit : Looper → Looper
exit l = record l { running = false }

unfoldable pub enqueue_message : Message → Looper → Looper
enqueue_message message l = record l { message_queue = enqueue message l.message_queue }

-- One step of `Loop`; others may come between any two. `none` is a wait in `Next`, which `Enqueue` wakes
-- nobody from, so on a queue with messages this step comes when the wait ends by itself; or the end.
unfoldable pub step_at : Place → Looper → Option Looper
step_at at_test l = some (record l { place = if l.running then in_next else ended })
step_at in_next l = elim (next l.message_queue) [
  | none ↦ none
  | some (message, list) ↦ some (record l { message_queue = list; place = before_run message })
]
step_at (before_run message) l =
    some (record l { called = l.called ++ run_message l.builders message; place = at_test })
step_at ended l = none

abbrev pub loop_step : Looper → Option Looper
loop_step l = step_at l.place l
