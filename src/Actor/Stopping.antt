-- ===== src/Actor/Stopping.antt =====
-- toolkit/source/actor/active.cpp: the thread that `Active::Start` starts, with `Active::Stop` and the
-- pushes of other threads, in any order.
pub mod Ending
pub mod Joining
use m_toolkit.Base.{ℕ, suc, ◌≡◌, refl, Bool, true, false, some, List, [], ◌∷◌, ◌++◌}
use m_toolkit.Actor.{Event, event_empty, push_back, push_front, pop}

-- Where the thread stands in its loop.
pub data Worker : Type 0 where
  testing popping finished : Worker
  dispatching : Event → Worker

-- How far a call of `Stop` is; `sized` knows whether the queue was empty.
pub data Stopper : Type 0 where
  not_called cleared joining joined : Stopper
  sized : (was_empty : Bool) → Stopper

pub record Active : Type 0 where
  pub running : Bool
  pub queue : List Event
  pub worker : Worker
  pub stopper : Stopper
  pub dispatched : List Event

-- After `Start`, with what waits already.
unfoldable pub started : List Event → Active
started queue = record {
  running = true;
  queue = queue;
  worker = testing;
  stopper = not_called;
  dispatched = [];
}

abbrev pub is_empty : List Event → Bool
is_empty [] = true
is_empty (_ ∷ _) = false

pub data Step (s : Active) : Active → Type 0 where
  goes_on : s.worker ≡ testing → s.running ≡ true → Step s (record s { worker = popping })
  ends : s.worker ≡ testing → s.running ≡ false → Step s (record s { worker = finished })
  takes :
      (event : Event) (rest : List Event)
      → s.worker ≡ popping
      → pop s.queue ≡ some (event, rest)
      → Step s (record s { worker = dispatching event; queue = rest })
  -- `Dispatch` does nothing.
  dispatches :
      (event : Event)
      → s.worker ≡ dispatching event
      → Step s (record s { worker = testing; dispatched = s.dispatched ++ event ∷ [] })
  pushes_back : (event : Event) → Step s (record s { queue = push_back event s.queue })
  pushes_front : (event : Event) → Step s (record s { queue = push_front event s.queue })
  -- `Stop`
  clears : s.stopper ≡ not_called → Step s (record s { running = false; stopper = cleared })
  sizes : s.stopper ≡ cleared → Step s (record s { stopper = sized (is_empty s.queue) })
  adds :
      s.stopper ≡ sized true
      → Step s (record s { queue = push_back event_empty s.queue; stopper = joining })
  skips : s.stopper ≡ sized false → Step s (record s { stopper = joining })
  joins : s.stopper ≡ joining → s.worker ≡ finished → Step s (record s { stopper = joined })

pub data Reach (queue : List Event) : Active → Type 0 where
  begins : Reach queue (started queue)
  goes : {s t : Active} → Reach queue s → Step s t → Reach queue t
