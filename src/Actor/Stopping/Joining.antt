-- ===== src/Actor/Stopping/Joining.antt =====
-- `Stop` ends the thread.
use m_toolkit.Base.{
  ℕ, zero, suc, ◌+◌, ◌<◌, ◌≤◌, ◌≡◌, ◌⊎◌, inl, inr, Bool-cases, refl, sym, ap, ◌∙◌, arith, Bool,
  true, false, List, [], ◌∷◌,
}
use m_toolkit.Actor.{Event, pop}
use m_toolkit.Actor.Stopping.{
  Worker, testing, popping, finished, dispatching, Stopper, not_called, cleared, joining, joined,
  sized, Active, is_empty, Step, goes_on, ends, takes, dispatches, pushes_back, pushes_front,
  clears, sizes, adds, skips, joins, Reach,
}
use m_toolkit.Actor.Stopping.Ending.{sure, called, Stops, Step-Stops, Reach-Stops}

-- Whether a step brings an event.
abbrev pub brings : {s t : Active} → Step s t → Bool
brings (pushes_back event) = true
brings (pushes_front event) = true
brings _ = false

abbrev worker_left : Worker → ℕ
worker_left testing = 1
worker_left (dispatching _) = 2
worker_left popping = 3
worker_left finished = 0

abbrev stopper_left : Stopper → ℕ
stopper_left cleared = 3
stopper_left (sized _) = 2
stopper_left joining = 1
stopper_left _ = 0

abbrev pub left : Active → ℕ
left s = worker_left s.worker + stopper_left s.stopper

left-le : (s : Active) → left s ≤ 6
left-le s =
    let few : worker_left s.worker ≤ 3 = worker_few s.worker in
    let few' : stopper_left s.stopper ≤ 3 = stopper_few s.stopper in omega arith
  where
    worker_few : (w : Worker) → worker_left w ≤ 3
    worker_few w = ground arith

    stopper_few : (p : Stopper) → stopper_left p ≤ 3
    stopper_few p = ground arith

-- While `Stop` runs, a step that brings no event leaves less to do.
record Nearer (s t : Active) : Type 0 where
  less : left t < left s
  still_called : called t.stopper ≡ true

Step-Nearer :
    {s t : Active} (step : Step s t)
    → brings step ≡ false
    → called s.stopper ≡ true
    → Stops s
    → Nearer s t
Step-Nearer (goes_on at on) calm c v = absurd (ground (arith, sym on ∙ v.stopped c))
Step-Nearer (ends at off) calm c v =
    let l = ap worker_left at in record { less = omega arith; still_called = c }
Step-Nearer (takes event rest at found) calm c v =
    let l = ap worker_left at in record { less = omega arith; still_called = c }
Step-Nearer (dispatches event at) calm c v =
    let l = ap worker_left at in record { less = omega arith; still_called = c }
Step-Nearer (pushes_back event) calm c v = absurd (ground (arith, calm))
Step-Nearer (pushes_front event) calm c v = absurd (ground (arith, calm))
Step-Nearer (clears at) calm c v = absurd (ground (arith, sym (ap called at) ∙ c))
Step-Nearer (sizes at) calm c v =
    let l = ap stopper_left at in record { less = omega arith; still_called = refl }
Step-Nearer (adds at) calm c v =
    let l = ap stopper_left at in record { less = omega arith; still_called = refl }
Step-Nearer (skips at) calm c v =
    let l = ap stopper_left at in record { less = omega arith; still_called = refl }
Step-Nearer (joins at over) calm c v =
    let l = ap stopper_left at in record { less = omega arith; still_called = refl }

-- A step that brings no event.
abbrev Goes : Active → Type 0
Goes s = (t : Active) × (step : Step s t) × (brings step ≡ false)

stopper-Goes :
    (s : Active) (p : Stopper)
    → s.stopper ≡ p
    → called p ≡ true
    → s.worker ≡ finished ⊎ (sure p ≡ false)
    → (s.stopper ≡ joined) ⊎ Goes s
stopper-Goes s not_called at c free = absurd (ground (arith, c))
stopper-Goes s cleared at c free = inr (_, sizes at, refl)
stopper-Goes s (sized true) at c free = inr (_, adds at, refl)
stopper-Goes s (sized false) at c free = inr (_, skips at, refl)
stopper-Goes s joining at c (inl over) = inr (_, joins at over, refl)
stopper-Goes s joining at c (inr unsure) = absurd (ground (arith, unsure))
stopper-Goes s joined at c free = inl at

popping-Goes :
    (s : Active) (queue : List Event)
    → s.queue ≡ queue
    → s.worker ≡ popping
    → called s.stopper ≡ true
    → Stops s
    → (s.stopper ≡ joined) ⊎ Goes s
unfolding pop
popping-Goes s (event ∷ rest) holds at c v = inr (_, takes event rest at (ap pop holds), refl)
popping-Goes s [] holds at c v = elim (Bool-cases (sure s.stopper)) [
  | inl is_sure ↦ absurd (ground (arith, sym (v.fed is_sure at) ∙ ap is_empty holds))
  | inr unsure ↦ stopper-Goes s s.stopper refl c (inr unsure)
]

progress :
    (s : Active) (w : Worker)
    → s.worker ≡ w
    → called s.stopper ≡ true
    → Stops s
    → (s.stopper ≡ joined) ⊎ Goes s
progress s testing at c v = inr (_, ends at (v.stopped c), refl)
progress s popping at c v = popping-Goes s s.queue refl at c v
progress s (dispatching event) at c v = inr (_, dispatches event at, refl)
progress s finished at c v = stopper-Goes s s.stopper refl c (inl at)

-- Steps that bring no event, and their number.
pub data Run : ℕ → Active → Active → Type 0 where
  rests : {s : Active} → Run 0 s s
  follows :
      {n : ℕ} {s t u : Active} (step : Step s t) → brings step ≡ false → Run n t u → Run (suc n) s u

Run-left :
    {n : ℕ} {s t : Active} → Run n s t → called s.stopper ≡ true → Stops s → n + left t ≤ left s
Run-left rests c v = omega arith
Run-left (follows step calm run) c v =
    let near = Step-Nearer step calm c v in
    let rest = Run-left run near.still_called (Step-Stops step v) in
    let less = near.less in omega arith

joins_soon :
    (bound : ℕ) (s : Active)
    → left s < bound
    → called s.stopper ≡ true
    → Stops s
    → (n : ℕ) × (t : Active) × Run n s t × (t.stopper ≡ joined)
joins_soon zero s enough c v = absurd (omega arith)
joins_soon (suc bound) s enough c v = elim (progress s s.worker refl c v) [
  | inl over ↦ (0, s, rests, over)
  | inr (t, step, calm) ↦
      let near = Step-Nearer step calm c v in
      let less = near.less in
      let (n, u, run, over) =
        joins_soon bound t (omega arith) near.still_called (Step-Stops step v) in
      (suc n, u, follows step calm run, over)
]

-- Once `Stop` has been called on a started actor, in any state that its thread, the call and the
-- pushes of others lead to: without further pushes of others it goes on for at most six steps, however
-- they fall, and some steps lead to where the thread has ended and `Stop` returns.
pub Reach-joined :
    {queue : List Event} {s : Active}
    → Reach queue s
    → called s.stopper ≡ true
    → ((n : ℕ) (t : Active) → Run n s t → n ≤ 6)
      × ((n : ℕ) × (t : Active) × Run n s t × (t.stopper ≡ joined))
Reach-joined {s = s} reached c =
    let v = Reach-Stops reached in
    (
      λ n t run. let bound = Run-left run c v in let few = left-le s in omega arith,
      joins_soon (suc (left s)) s (omega arith) c v,
    )
