-- ===== src/ThreadPool/Wakes/Measure.antt =====
-- Every step but a new task and a wake-up without cause brings the pool nearer to rest.
use m_toolkit.Base.{ℕ, suc, ◌+◌, ◌*◌, ◌<◌, ◌≤◌, ◌≡◌, refl, ap, arith, Bool, true, false, length}
use m_toolkit.ThreadPool.{
  Pc, outside, holding, unready, blocked, ready, popping, holds, running, ran, exited, System,
  Release, not_called, stored, notified, joined, wake, Move, locks, finds, misses, sleeps, leaves,
  stays, pops, counts, runs, returns, stirred, Step, works, commits, notifies_one, notifies_none,
  closes, notifies_all, joins,
}
use m_toolkit.ThreadPool.Family.{total, total-at, total-map_le}

abbrev pub is_stirred : {i : ℕ} {s t : System} {p : Pc} → Move i s p t → Bool
is_stirred stirred = true
is_stirred _ = false

-- Whether a step brings in a task, or wakes a worker without a call of notify.
abbrev pub disturbs : {size : ℕ} {s t : System} → Step size s t → Bool
disturbs (works i below move) = is_stirred move
disturbs (commits task free) = true
disturbs _ = false

-- What a worker may still do before it sleeps or takes a task, and a task before it is run.
abbrev pub weight : Pc → ℕ
weight outside = 3
weight holding = 2
weight unready = 1
weight ready = 1
weight blocked = 0
weight popping = 0
weight (holds _) = 6
weight (running _) = 5
weight ran = 4
weight exited = 0

abbrev pub release_weight : ℕ → Release → ℕ
release_weight size not_called = 3 * size + 3
release_weight size stored = 3 * size + 2
release_weight size notified = 1
release_weight size joined = 0

unfoldable pub measure : ℕ → System → ℕ
measure size s =
    7 * length s.tasks + 4 * s.notifies + release_weight size s.release + total weight size s.pc

Move-measure :
    {size i : ℕ} {s t : System} {p : Pc} (move : Move i s p t)
    → i < size
    → s.pc i ≡ p
    → is_stirred move ≡ false
    → measure size t < measure size s
unfolding measure
Move-measure {size} {i} {s} (locks free) below at calm =
    let l = total-at weight size i s.pc outside holding below at in omega arith
Move-measure {size} {i} {s} (finds test) below at calm =
    let l = total-at weight size i s.pc holding ready below at in omega arith
Move-measure {size} {i} {s} (misses test) below at calm =
    let l = total-at weight size i s.pc holding unready below at in omega arith
Move-measure {size} {i} {s} sleeps below at calm =
    let l = total-at weight size i s.pc unready blocked below at in omega arith
Move-measure {size} {i} {s} (leaves closed) below at calm =
    let l = total-at weight size i s.pc ready exited below at in omega arith
Move-measure {size} {i} {s} (stays open_yet) below at calm =
    let l = total-at weight size i s.pc ready popping below at in omega arith
Move-measure {size} {i} {s} (pops task rest front) below at calm =
    let l = total-at weight size i s.pc popping (holds task) below at in
    let l' : length s.tasks ≡ suc (length rest) = ap length front in omega arith
Move-measure {size} {i} {s} (counts task) below at calm =
    let l = total-at weight size i s.pc (holds task) (running task) below at in omega arith
Move-measure {size} {i} {s} (runs task) below at calm =
    let l = total-at weight size i s.pc (running task) ran below at in omega arith
Move-measure {size} {i} {s} returns below at calm =
    let l = total-at weight size i s.pc ran outside below at in omega arith
Move-measure stirred below at calm = absurd (ground (arith, calm))

pub Step-measure :
    {size : ℕ} {s t : System} (step : Step size s t)
    → disturbs step ≡ false
    → measure size t < measure size s
unfolding measure
Step-measure (works i below move) calm = Move-measure move below refl calm
Step-measure (commits task free) calm = absurd (ground (arith, calm))
Step-measure {size} {s} (notifies_one i k below at some_left) calm =
    let l = total-at weight size i s.pc blocked outside below at in omega arith
Step-measure (notifies_none k nobody some_left) calm = omega arith
Step-measure {size} {s} (closes first opened) calm =
    let l : release_weight size s.release ≡ 3 * size + 3 = ap (release_weight size) first in
    omega arith
Step-measure {size} {s} (notifies_all stored_yet) calm =
    let l : release_weight size s.release ≡ 3 * size + 2 = ap (release_weight size) stored_yet in
    let l' = total-map_le weight 3 size wake s.pc (λ p. ground arith) in omega arith
Step-measure {size} {s} (joins notified_yet all_left) calm =
    let l : release_weight size s.release ≡ 1 = ap (release_weight size) notified_yet in omega arith

-- Undisturbed steps, and their number.
pub data Run (size : ℕ) : ℕ → System → System → Type 0 where
  rests : {s : System} → Run size 0 s s
  follows :
      {n : ℕ} {s t u : System} (step : Step size s t)
      → disturbs step ≡ false
      → Run size n t u
      → Run size (suc n) s u

-- However the workers and the calls that have begun are scheduled: without new tasks, and without a
-- wake-up that no call of notify made, the pool comes to rest, after a number of steps that its state
-- bounds.
pub Run-measure : {size n : ℕ} {s t : System} → Run size n s t → n + measure size t ≤ measure size s
Run-measure rests = omega arith
Run-measure (follows step calm run) =
    let l = Step-measure step calm in let l' = Run-measure run in omega arith
