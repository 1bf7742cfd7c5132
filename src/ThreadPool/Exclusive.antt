-- ===== src/ThreadPool/Exclusive.antt =====
-- At most one worker is under the lock, whatever steps the pool takes.
use m_toolkit.Base.{ℕ, ◌<◌, ◌≡◌, refl, ap, ◌∙◌, arith, if◌then◌else◌, [], ◌∷◌, ◌++◌, true, false}
use mathlib.Core.Path.{subst}
use m_toolkit.ThreadPool.{
  Pc, outside, holding, unready, blocked, ready, popping, holds, running, ran, exited, System,
  create, wake, Step, works, commits, notifies_one, notifies_none, closes, notifies_all, joins,
  Reach, begins, goes, empty, joined,
}
use m_toolkit.ThreadPool.Family.{total, total-map, total-none, total-ge}
use m_toolkit.ThreadPool.Critical.{
  moves_Guarded, inside, Knows, Guarded, outside-Knows, others_Guarded, Move-Guarded,
}

create-Guarded : (size : ℕ) → Guarded size (create size)
unfolding create
create-Guarded size = record {
  one_inside = total-none inside size outside refl;
  known = λ i below. tt;
}

nobody_inside :
    {size : ℕ} {s : System}
    → Guarded size s
    → s.mutex ≡ false
    → (i : ℕ) → i < size
    → inside (s.pc i) ≡ 0
nobody_inside {size} {s} g free i below =
    let l = total-ge inside size i s.pc below in
    let none : total inside size s.pc ≡ 0 = g.one_inside ∙ ap (λ b. if b then 1 else 0) free in
    omega arith

closes-Knows : (s : System) (p : Pc) → Knows s p → Knows (record s { is_close = true }) p
closes-Knows s outside known = tt
closes-Knows s holding known = tt
closes-Knows s unready known = known
closes-Knows s blocked known = tt
closes-Knows s ready known = ground arith
closes-Knows s popping known = known
closes-Knows s (holds t) known = tt
closes-Knows s (running t) known = tt
closes-Knows s ran known = tt
closes-Knows s exited known = refl

wake-Knows : (s : System) (p : Pc) → Knows s p → Knows s (wake p)
wake-Knows s outside known = tt
wake-Knows s holding known = tt
wake-Knows s unready known = known
wake-Knows s blocked known = tt
wake-Knows s ready known = known
wake-Knows s popping known = known
wake-Knows s (holds t) known = tt
wake-Knows s (running t) known = tt
wake-Knows s ran known = tt
wake-Knows s exited known = known

Step-Guarded : {size : ℕ} {s t : System} → Step size s t → Guarded size s → Guarded size t
Step-Guarded (works i below move) g = Move-Guarded below refl move g
Step-Guarded {s} (commits task free) g = record {
  one_inside = g.one_inside;
  known = λ i below.
      outside-Knows s (s.tasks ++ task ∷ []) (s.pc i) (nobody_inside g free i below)
        (g.known i below);
}
Step-Guarded {s} (notifies_one i k below at some_left) g =
    others_Guarded s.free_size s.taken s.done k s.release
      (moves_Guarded below g s.mutex blocked outside at refl tt)
Step-Guarded {s} (notifies_none k nobody some_left) g =
    others_Guarded s.free_size s.taken s.done k s.release g
Step-Guarded {s} (closes first opened) g = record {
  one_inside = g.one_inside;
  known = λ i below. closes-Knows s (s.pc i) (g.known i below);
}
Step-Guarded {size} {s} (notifies_all stored_yet) g = record {
  one_inside = total-map inside size wake s.pc (λ p. ground arith) ∙ g.one_inside;
  known = λ i below. wake-Knows s (s.pc i) (g.known i below);
}
Step-Guarded {s} (joins notified_yet all_left) g =
    others_Guarded s.free_size s.taken s.done s.notifies joined g

pub Reach-Guarded : {size : ℕ} {s : System} → Reach size s → Guarded size s
Reach-Guarded {size} begins = create-Guarded size
Reach-Guarded (goes reached step) = Step-Guarded step (Reach-Guarded reached)

-- At most one worker is under the lock, and none unless the lock is held; and a worker that takes the
-- front of the queue finds a task there.
pub Reach-exclusive :
    {size : ℕ} {s : System}
    → Reach size s
    → (total inside size s.pc ≡ (if s.mutex then 1 else 0))
      × ((i : ℕ) → i < size → s.pc i ≡ popping → empty s.tasks ≡ false)
Reach-exclusive {s} reached =
    let g = Reach-Guarded reached in
    (g.one_inside, λ i below at. subst (λ p. Knows s p) at (g.known i below))
