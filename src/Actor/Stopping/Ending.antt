-- ===== src/Actor/Stopping/Ending.antt =====
-- What holds while `Stop` runs: the thread is told to end, and finds an event if it waits for one.
use m_toolkit.Base.{◌≡◌, refl, sym, ap, ◌∙◌, arith, Bool, true, false, List, [], ◌∷◌}
use m_toolkit.Actor.{Event, event_empty, push_back, push_front}
use m_toolkit.Actor.Stopping.{
  popping, Stopper, not_called, joining, sized, Active, started, is_empty, Step, goes_on, ends,
  takes, dispatches, pushes_back, pushes_front, clears, sizes, adds, skips, joins, Reach, begins,
  goes,
}

-- After the size of the queue was read: whether a thread in `Pop` is sure to find an event.
abbrev pub sure : Stopper → Bool
sure (sized false) = true
sure joining = true
sure _ = false

abbrev pub called : Stopper → Bool
called not_called = false
called _ = true

pub record Stops (s : Active) : Type 0 where
  pub stopped : called s.stopper ≡ true → s.running ≡ false
  pub fed : sure s.stopper ≡ true → s.worker ≡ popping → is_empty s.queue ≡ false

push_back-is_empty : (event : Event) (queue : List Event) → is_empty (push_back event queue) ≡ false
unfolding push_back
push_back-is_empty event [] = refl
push_back-is_empty event (e ∷ l) = refl

sure-sized : (b : Bool) → sure (sized b) ≡ true → b ≡ false
sure-sized false is_sure = refl
sure-sized true is_sure = absurd (ground (arith, is_sure))

sure-called : (p : Stopper) → sure p ≡ true → called p ≡ true
sure-called p is_sure = ground (arith, is_sure)

pub Step-Stops : {s t : Active} → Step s t → Stops s → Stops t
unfolding push_front
Step-Stops (goes_on at on) v = record {
  stopped = v.stopped;
  fed = λ is_sure at'.
      let off = v.stopped (sure-called _ is_sure) in absurd (ground (arith, sym on ∙ off));
}
Step-Stops (ends at off) v = record {
  stopped = v.stopped;
  fed = λ is_sure at'. absurd (ground (arith, at'));
}
Step-Stops (takes event rest at found) v = record {
  stopped = v.stopped;
  fed = λ is_sure at'. absurd (ground (arith, at'));
}
Step-Stops (dispatches event at) v = record {
  stopped = v.stopped;
  fed = λ is_sure at'. absurd (ground (arith, at'));
}
Step-Stops {s} (pushes_back event) v = record {
  stopped = v.stopped;
  fed = λ is_sure at'. push_back-is_empty event s.queue;
}
Step-Stops (pushes_front event) v = record { stopped = v.stopped; fed = λ is_sure at'. refl }
Step-Stops (clears at) v = record {
  stopped = λ c. refl;
  fed = λ is_sure at'. absurd (ground (arith, is_sure));
}
Step-Stops {s} (sizes at) v = record {
  stopped = λ c. v.stopped (ap called at);
  fed = λ is_sure at'. sure-sized (is_empty s.queue) is_sure;
}
Step-Stops {s} (adds at) v = record {
  stopped = λ c. v.stopped (ap called at);
  fed = λ is_sure at'. push_back-is_empty event_empty s.queue;
}
Step-Stops (skips at) v = record {
  stopped = λ c. v.stopped (ap called at);
  fed = λ is_sure at'. v.fed (ap sure at) at';
}
Step-Stops (joins at over) v = record {
  stopped = λ c. v.stopped (ap called at);
  fed = λ is_sure at'. absurd (ground (arith, is_sure));
}

pub Reach-Stops : {queue : List Event} {s : Active} → Reach queue s → Stops s
unfolding started
Reach-Stops begins = record {
  stopped = λ c. absurd (ground (arith, c));
  fed = λ is_sure. absurd (ground (arith, is_sure));
}
Reach-Stops (goes reached step) = Step-Stops step (Reach-Stops reached)
