-- ===== src/Timer/Manager.antt =====
-- toolkit/source/timer/manager.h and manager.cpp: the operations of `TimerManager`. The three maps
-- name a node by its number in the table; a call from another thread runs between two ticks.
pub mod Firing
pub mod Executes
pub mod Calls
pub mod Starts
pub mod Clock
pub mod Ticks
pub mod Reach
use m_toolkit.Base.{
  ℕ, zero, suc, Bool, true, false, none, some, List, [], ◌∷◌, ◌++◌, if◌then◌else◌, add64, sub64,
}
use m_toolkit.Base.Maps.{find, insert, erase, update}
use m_toolkit.Timer.Node.{TimerNode, Callback, on_stop, trigger, revised_expire}
use m_toolkit.Timer.Node
use m_toolkit.Timer.Wheel.{
  TimerManager, Run, done, thrown, division_by_zero, erased_read, and_then, ◌>>=◌, ◌>>◌, add_node,
  turn,
}

-- The constructor, at the reading `now` of the monotonic clock; `none_yet` fills the table.
unfoldable pub create : (now : ℕ) → (none_yet : TimerNode) → TimerManager
create now none_yet = record {
  running = true;
  tick_time = 0;
  last_time = now;
  near_list = λ _. [];
  wheel_list = λ _ _. [];
  pauses = [];
  normals = [];
  managers = [];
  nodes = λ _. none_yet;
  next_node = 0;
  callbacks = [];
}

-- A node changed in place, with the callbacks that the change made.
abbrev pub apply : ℕ → TimerNode × List Callback → TimerManager → TimerManager
apply node (n, told) s = record s { nodes = update s.nodes node n; callbacks = s.callbacks ++ told }

pub stop : TimerManager → TimerManager
stop s = record s { running = false }

pub destroy : ℕ → TimerManager → TimerManager
destroy event s = elim (find event s.managers) [
  | none ↦ s
  | some node ↦ apply node (Node.destroy (s.nodes node)) s
]

-- `Pause` of an event that it finds reads the map entry that it has just erased, which is undefined. The
-- state beside that error is the one of a program that goes on, where the read gave `stale`.
pub pause : (event stale : ℕ) → TimerManager → Run Bool
pause event stale s = elim (find event s.normals) [
  | none ↦ done false s
  | some node ↦
      let s = apply node (Node.pause s.tick_time (s.nodes node)) s in
      thrown erased_read (record s { normals = insert event stale (erase event s.normals) })
]

-- `Resume` does too.
pub resume : (event stale : ℕ) → TimerManager → Run Bool
resume event stale s = elim (find event s.pauses) [
  | none ↦ done false s
  | some node ↦
      (do
        add_node node
        λ s.
            thrown erased_read
              (record s { pauses = erase event s.pauses; normals = insert event stale s.normals }))
        (apply node (Node.resume s.tick_time (s.nodes node)) s)
]

-- The table with a new node.
unfoldable pub allocate : TimerNode → TimerManager → TimerManager
allocate n s = record s { nodes = update s.nodes s.next_node n; next_node = suc s.next_node }

-- If `AddNode` throws, the new node has no other owner, and its destructor stops the event.
unfoldable pub unwind : ℕ → Run (Unit {0}) → Run (Unit {0})
unwind node (done u s) = done u s
unwind node (thrown e s) = thrown e (apply node (Node.destroy (s.nodes node)) s)

unfoldable pub start_new : (event count interval : ℕ) → TimerManager → Run Bool
unfolding allocate unwind
start_new event count interval s =
    let node = s.next_node in
    let n = Node.make event count (add64 interval s.tick_time) interval in
    and_then (unwind node (add_node node (allocate n s))) λ _ s.
      done true (record s {
        managers = insert event node s.managers;
        normals = insert event node s.normals;
      })

pub start : (event count interval : ℕ) → TimerManager → Run Bool
unfolding start_new
start event count interval s = elim (find event s.managers) [
  | some _ ↦ done false s
  | none ↦ start_new event count interval s
]

-- The overload that takes a function makes an event for it, whose identity is `event`.
pub start_function : (event count interval : ℕ) → TimerManager → Run Bool
unfolding start_new
start_function event count interval s = elim (find event s.managers) [
  | none ↦ start_new event count interval s
  | some _ ↦ done false s
]

-- A node whose turn it is.
revise_and_add : ℕ → TimerManager → Run (Unit {0})
revise_and_add node s = elim (revised_expire s.tick_time (s.nodes node)) [
  | none ↦ thrown division_by_zero s
  | some n ↦ add_node node (record s { nodes = update s.nodes node n })
]

forget : ℕ → TimerManager → TimerManager
forget event s = record s {
  pauses = erase event s.pauses;
  normals = erase event s.normals;
  managers = erase event s.managers;
}

unfoldable pub run_node : ℕ → TimerManager → Run (Unit {0})
unfolding revise_and_add forget
run_node node s =
    if (s.nodes node).is_valid
    then (if (s.nodes node).is_pause
        then done tt s
        else revise_and_add node (apply node (trigger (s.nodes node)) s))
    else done tt (forget (s.nodes node).event s)

unfoldable pub run_nodes : List ℕ → TimerManager → Run (Unit {0})
run_nodes [] s = done tt s
run_nodes (node ∷ nodes) s = (run_node node >> run_nodes nodes) s

unfoldable pub executes : TimerManager → Run (Unit {0})
executes s = (turn >>= run_nodes) s

unfoldable pub executes_times : ℕ → TimerManager → Run (Unit {0})
executes_times zero s = done tt s
executes_times (suc k) s = (executes >> executes_times k) s

-- `Update`, at the reading `now` of the clock.
unfoldable pub update_to : (now : ℕ) → TimerManager → Run (Unit {0})
update_to now s = executes_times (sub64 now s.last_time) (record s { last_time = now })

-- `DriverThread`, over the readings of the clock after each sleep, until it is stopped.
unfoldable pub driver_thread : List ℕ → TimerManager → Run (Unit {0})
driver_thread [] s = done tt s
driver_thread (now ∷ later) s =
    let rest = (update_to now >> driver_thread later) s in if s.running then rest else done tt s
