-- ===== src/Tests/Pools.antt =====
-- toolkit/source/poll on a few steps of a pool of one worker.
use m_toolkit.Base.{ℕ, ◌+◌, ◌≤◌, ◌≡◌, refl, [], ◌∷◌, true, false, arith}
use m_toolkit.Base.Maps.{update}
use m_toolkit.ThreadPool.{
  System, holding, ready, popping, holds, running, create, is_complete, notified, locks, finds,
  stays, pops, counts, works, commits, Reach, begins, goes,
}
use m_toolkit.ThreadPool.Family.{total}
use m_toolkit.ThreadPool.Counts.{Counted, occurs, Reach-Counted}
use m_toolkit.ThreadPool.Complete.{about_to, is_complete-done}
use m_toolkit.ThreadPool.Wakes.Measure.{measure, Run, rests, follows, Run-measure}
use m_toolkit.ThreadPool.Wakes.Rest.{Reach-is_complete}
use m_toolkit.ThreadPool.Hangs.{Run-hung}

-- A task is committed, and the worker takes it.
abbrev given : System
given = record (create 1) { tasks = 5 ∷ []; committed = 5 ∷ []; notifies = 1 }

abbrev locked : System
locked = record given { mutex = true; pc = update given.pc 0 holding }

abbrev tested : System
tested = record locked { pc = update locked.pc 0 ready }

abbrev opened : System
opened = record tested { pc = update tested.pc 0 popping }

abbrev taken : System
taken = record opened {
  tasks = [];
  taken = 5 ∷ [];
  mutex = false;
  pc = update opened.pc 0 (holds 5);
}

Reach-opened : Reach 1 opened
unfolding create
Reach-opened =
    let g : Reach 1 given = goes begins (commits 5 refl) in
    let l : Reach 1 locked = goes g (works 0 (omega arith) (locks refl)) in
    let t : Reach 1 tested = goes l (works 0 (omega arith) (finds refl)) in
    goes t (works 0 (omega arith) (stays refl))

Reach-taken : Reach 1 taken
unfolding create
Reach-taken = goes Reach-opened (works 0 (omega arith) (pops 5 [] refl))

Reach-Counted_example : Counted 1 taken
Reach-Counted_example = Reach-Counted (omega arith) Reach-taken

-- `IsComplete` says yes here, though the task has not run.
taken_complete : is_complete 1 taken ≡ true
unfolding is_complete create
taken_complete = refl

is_complete-done_example :
    occurs 5 taken.committed ≡ occurs 5 taken.done + total (about_to 5) 1 taken.pc
is_complete-done_example = is_complete-done 1 taken (omega arith) Reach-taken taken_complete 5

abbrev counted : System
counted = record taken { free_size = 0; pc = update taken.pc 0 (running 5) }

run : Run 1 1 taken counted
unfolding create
run = follows (works 0 (omega arith) (counts 5)) refl rests

Run-measure_example : 1 + measure 1 counted ≤ measure 1 taken
Run-measure_example = Run-measure run

still_open : taken.is_close ≡ false
unfolding create
still_open = refl

Reach-is_complete_example :
    (n : ℕ) × (t : System) × Run 1 n taken t
    × (is_complete 1 t ≡ true)
    × ((task : ℕ) → occurs task t.done ≡ occurs task taken.committed)
Reach-is_complete_example = Reach-is_complete (omega arith) (omega arith) Reach-taken still_open

Run-hung_example :
    (s : System) × Reach 2 s
    × (s.release ≡ notified)
    × ((n : ℕ) (t : System) → Run 2 n s t → t.release ≡ notified)
Run-hung_example = Run-hung 2 (omega arith)
