-- ===== src/ThreadPool/Wakes.antt =====
-- A task that waits is not slept through, and is run in the end.
pub mod Measure
pub mod Progress
pub mod Rest
use m_toolkit.Base.{
  ℕ, zero, suc, ◌+◌, ◌<◌, ◌≤◌, ◌≡◌, ◌≢◌, refl, sym, ap, ◌∙◌, arith, List, [], ◌∷◌, ◌++◌, Bool, true,
  false,
}
use mathlib.Core.Path.{subst}
use m_toolkit.Base.Maps.{update}
use m_toolkit.ThreadPool.{
  Pc, outside, holding, unready, blocked, ready, popping, holds, running, ran, exited, System,
  create, wake, Move, locks, finds, misses, sleeps, leaves, stays, pops, counts, runs, returns,
  stirred, Step, works, commits, notifies_one, notifies_none, closes, notifies_all, joins, Reach,
  begins, goes, empty,
}
use m_toolkit.ThreadPool.Family.{total, total-at, total-map, total-none, total-le, total-zero}
use m_toolkit.ThreadPool.Critical.{Knows, Guarded}
use m_toolkit.ThreadPool.Exclusive.{Reach-Guarded}

abbrev pub asleep : Pc → ℕ
asleep blocked = 1
asleep _ = 0

-- While a task waits, a worker is awake or a call of `notify_one` is to come.
pub Awake : ℕ → System → Type 0
Awake size s = empty s.tasks ≡ false → total asleep size s.pc < size + s.notifies

-- The queue does not come to hold a task, and no worker goes to sleep.
moves_Awake :
    {size i : ℕ} (s : System) (tasks : List ℕ) (q p : Pc)
    → i < size
    → s.pc i ≡ q
    → asleep p ≤ asleep q
    → (empty tasks ≡ false → empty s.tasks ≡ false)
    → Awake size s
    → empty tasks ≡ false
    → total asleep size (update s.pc i p) < size + s.notifies
unfolding Awake
moves_Awake {size} {i} s tasks q p below at less fewer awake waiting =
    let l = total-at asleep size i s.pc q p below at in
    let l' = awake (fewer waiting) in omega arith

Move-Awake :
    {size i : ℕ} {s t : System} {p : Pc}
    → i < size
    → s.pc i ≡ p
    → Move i s p t
    → Guarded size s
    → Awake size s
    → Awake size t
unfolding Awake
Move-Awake {s} below at (locks free) g awake =
    moves_Awake s s.tasks outside holding below at (omega arith) (λ w. w) awake
Move-Awake {s} below at (finds test) g awake =
    moves_Awake s s.tasks holding ready below at (omega arith) (λ w. w) awake
Move-Awake {s} below at (misses test) g awake =
    moves_Awake s s.tasks holding unready below at (omega arith) (λ w. w) awake
Move-Awake {i} {s} below at sleeps g awake = λ waiting.
    let known = subst (λ p. Knows s p) at (g.known i below) in
    absurd (ground (arith, known, waiting))
Move-Awake {s} below at (leaves closed) g awake =
    moves_Awake s s.tasks ready exited below at (omega arith) (λ w. w) awake
Move-Awake {s} below at (stays open_yet) g awake =
    moves_Awake s s.tasks ready popping below at (omega arith) (λ w. w) awake
Move-Awake {s} below at (pops task rest front) g awake =
    moves_Awake s rest popping (holds task) below at (omega arith) (λ w. ap empty front) awake
Move-Awake {s} below at (counts task) g awake =
    moves_Awake s s.tasks (holds task) (running task) below at (omega arith) (λ w. w) awake
Move-Awake {s} below at (runs task) g awake =
    moves_Awake s s.tasks (running task) ran below at (omega arith) (λ w. w) awake
Move-Awake {s} below at returns g awake =
    moves_Awake s s.tasks ran outside below at (omega arith) (λ w. w) awake
Move-Awake {s} below at stirred g awake =
    moves_Awake s s.tasks blocked outside below at (omega arith) (λ w. w) awake

not_asleep : (p : Pc) → p ≢ blocked → asleep p ≡ 0
not_asleep outside awake = refl
not_asleep holding awake = refl
not_asleep unready awake = refl
not_asleep blocked awake = absurd (awake refl)
not_asleep ready awake = refl
not_asleep popping awake = refl
not_asleep (holds t) awake = refl
not_asleep (running t) awake = refl
not_asleep ran awake = refl
not_asleep exited awake = refl

wake-asleep : (p : Pc) → asleep (wake p) ≡ 0
wake-asleep p = ground arith

Step-Awake :
    {size : ℕ} {s t : System}
    → 0 < size
    → Step size s t
    → Guarded size s
    → Awake size s
    → Awake size t
unfolding Awake
Step-Awake some_worker (works i below move) g awake = Move-Awake below refl move g awake
Step-Awake {size} {s} some_worker (commits task free) g awake =
    λ waiting. let l = total-le asleep size s.pc (λ p. ground arith) in omega arith
Step-Awake {size} {s} some_worker (notifies_one i k below at some_left) g awake = λ waiting.
    let l = total-at asleep size i s.pc blocked outside below at in
    let l' = awake waiting in omega arith
Step-Awake {size} {s} some_worker (notifies_none k nobody some_left) g awake = λ waiting.
    let l = total-zero asleep size s.pc (λ i below. not_asleep (s.pc i) (nobody i below)) in
    omega arith
Step-Awake some_worker (closes first opened) g awake = awake
Step-Awake {size} {s} some_worker (notifies_all stored_yet) g awake = λ waiting.
    let l = total-zero asleep size (λ i. wake (s.pc i)) (λ i below. wake-asleep (s.pc i)) in
    omega arith
Step-Awake some_worker (joins notified_yet all_left) g awake = awake

-- In every reachable state of a pool that has workers: while a task waits in the queue, not all of
-- them sleep, unless a call of `notify_one` is still to come. So no wake-up by `Commit` is lost.
pub Reach-Awake : {size : ℕ} {s : System} → 0 < size → Reach size s → Awake size s
unfolding Awake create
Reach-Awake some_worker begins = λ waiting. absurd (ground (arith, waiting))
Reach-Awake some_worker (goes reached step) =
    Step-Awake some_worker step (Reach-Guarded reached) (Reach-Awake some_worker reached)
