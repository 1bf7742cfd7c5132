-- ===== src/ThreadPool/Critical.antt =====
-- The section of a worker under the lock.
use m_toolkit.Base.{
  ℕ, ◌+◌, ◌<◌, ◌≤◌, ◌≡◌, refl, sym, ap, ◌∙◌, arith, ◌==◌, if◌then◌else◌, List, [], ◌∷◌, ◌++◌, Bool,
  true, false, Bool-cases, inl, inr,
}
use mathlib.Core.Path.{subst}
use m_toolkit.Base.Maps.{update}
use m_toolkit.ThreadPool.{
  Pc, outside, holding, unready, blocked, ready, popping, holds, running, ran, exited, System, Move,
  locks, finds, misses, sleeps, leaves, stays, pops, counts, runs, returns, stirred, empty, stirs,
  Release,
}
use m_toolkit.ThreadPool.Family.{total, total-at, total-two, total-ge}

abbrev pub inside : Pc → ℕ
inside holding = 1
inside unready = 1
inside ready = 1
inside popping = 1
inside _ = 0

-- What a worker that stands there knows of the pool.
abbrev pub Knows : System → Pc → Type 0
Knows s unready = empty s.tasks ≡ true
Knows s ready = stirs s ≡ true
Knows s popping = empty s.tasks ≡ false
Knows s exited = s.is_close ≡ true
Knows s _ = Unit

pub record Guarded (size : ℕ) (s : System) : Type 0 where
  pub one_inside : total inside size s.pc ≡ (if s.mutex then 1 else 0)
  pub known : (i : ℕ) → i < size → Knows s (s.pc i)

-- A step that leaves the queue and the flag.
keeps_known :
    (s : System) (i : ℕ) (p : Pc) {size : ℕ}
    → ((j : ℕ) → j < size → Knows s (s.pc j))
    → Knows s p
    → (j : ℕ) → j < size
    → Knows s (update s.pc i p j)
keeps_known s i p known new j below = elim (Bool-cases (j == i)) [
  | inl same ↦ subst (λ b. Knows s (if b then p else s.pc j)) (sym same) new
  | inr apart ↦ subst (λ b. Knows s (if b then p else s.pc j)) (sym apart) (known j below)
]

at_most_one : (b : Bool) → (if b then 1 else 0) ≤ 1
at_most_one b = ground arith

module _ {size i : ℕ} {s : System} (below : i < size) (g : Guarded size s) where
  -- The lock goes as the worker does.
  pub moves_Guarded :
      (m : Bool) (q p : Pc)
      → s.pc i ≡ q
      → (if m then 1 else 0) + inside q ≡ (if s.mutex then 1 else 0) + inside p
      → Knows s p
      → Guarded size (record s { mutex = m; pc = update s.pc i p })
  moves_Guarded m q p at lock new = record {
    one_inside =
        let l = total-at inside size i s.pc q p below at in let l' = g.one_inside in omega arith;
    known = keeps_known s i p g.known new;
  }

  held : (q : Pc) → s.pc i ≡ q → inside q ≤ (if s.mutex then 1 else 0)
  held q at =
      let l = total-ge inside size i s.pc below in
      let l' = ap inside at in let l'' = g.one_inside in omega arith

  -- A worker that gives the lock back.
  gives_back :
      (q p : Pc)
      → s.pc i ≡ q
      → inside q ≡ 1
      → inside p ≡ 0
      → Knows s p
      → Guarded size (record s { mutex = false; pc = update s.pc i p })
  gives_back q p at was_inside is_outside new =
      moves_Guarded false q p at (let l = held q at in let l' = at_most_one s.mutex in omega arith)
        new

  -- The others are not in the section when worker `i` is.
  others_outside :
      (q : Pc) (j : ℕ)
      → s.pc i ≡ q
      → inside q ≡ 1
      → j < size
      → (j == i) ≡ false
      → inside (s.pc j) ≡ 0
  others_outside q j at was_inside below' apart =
      let two = total-two inside size i j s.pc outside refl below below' apart in
      let here = ap inside at in
      let one = g.one_inside in let most = at_most_one s.mutex in omega arith

-- What a worker outside of the section knows does not depend on the queue.
pub outside-Knows :
    (s : System) (tasks : List ℕ) (p : Pc)
    → inside p ≡ 0
    → Knows s p
    → Knows (record s { tasks = tasks }) p
outside-Knows s tasks outside out known = tt
outside-Knows s tasks blocked out known = tt
outside-Knows s tasks (holds t) out known = tt
outside-Knows s tasks (running t) out known = tt
outside-Knows s tasks ran out known = tt
outside-Knows s tasks exited out known = known
outside-Knows s tasks holding out known = tt
outside-Knows s tasks unready out known = absurd (omega arith)
outside-Knows s tasks ready out known = absurd (omega arith)
outside-Knows s tasks popping out known = absurd (omega arith)

pops-Guarded :
    {size i : ℕ} {s : System} (task : ℕ) (rest : List ℕ)
    → i < size
    → Guarded size s
    → s.pc i ≡ popping
    → Guarded size (record s {
      tasks = rest;
      taken = s.taken ++ task ∷ [];
      mutex = false;
      pc = update s.pc i (holds task);
    })
pops-Guarded {size} {i} {s} task rest below g at = record {
  one_inside = (gives_back below g popping (holds task) at refl refl tt).one_inside;
  known = λ j below'. elim (Bool-cases (j == i)) [
    | inl same ↦
        subst (λ b. Knows (record s { tasks = rest }) (if b then holds task else s.pc j)) (sym same)
          tt
    | inr apart ↦
        subst (λ b. Knows (record s { tasks = rest }) (if b then holds task else s.pc j))
          (sym apart)
          (outside-Knows s rest (s.pc j) (others_outside below g popping j at refl below' apart)
            (g.known j below'))
  ];
}

-- What it speaks of is as before.
pub others_Guarded :
    {size : ℕ} {s : System} (n : ℕ) (taken done : List ℕ) (k : ℕ) (r : Release)
    → Guarded size s
    → Guarded size
        (record s { free_size = n; taken = taken; done = done; notifies = k; release = r })
others_Guarded n taken done k r g = record { one_inside = g.one_inside; known = g.known }

stirs-stays : (s : System) → stirs s ≡ true → s.is_close ≡ false → empty s.tasks ≡ false
stirs-stays s test open_yet = ground arith

stirs-misses : (s : System) → stirs s ≡ false → empty s.tasks ≡ true
stirs-misses s test = ground arith

pub Move-Guarded :
    {size i : ℕ} {s t : System} {p : Pc}
    → i < size
    → s.pc i ≡ p
    → Move i s p t
    → Guarded size s
    → Guarded size t
Move-Guarded {s} below at (locks free) g =
    moves_Guarded below g true outside holding at
      (sym (ap (λ b. (if b then 1 else 0) + 1) free ∙ (omega arith))) tt
Move-Guarded {s} below at (finds test) g = moves_Guarded below g s.mutex holding ready at refl test
Move-Guarded {s} below at (misses test) g =
    moves_Guarded below g s.mutex holding unready at refl (stirs-misses s test)
Move-Guarded below at sleeps g = gives_back below g unready blocked at refl refl tt
Move-Guarded below at (leaves closed) g = gives_back below g ready exited at refl refl closed
Move-Guarded {i} {s} below at (stays open_yet) g =
    moves_Guarded below g s.mutex ready popping at refl
      (stirs-stays s (subst (λ p. Knows s p) at (g.known i below)) open_yet)
Move-Guarded below at (pops task rest front) g = pops-Guarded task rest below g at
Move-Guarded {i} {s} below at (counts task) g =
    others_Guarded _ s.taken s.done s.notifies s.release
      (moves_Guarded below g s.mutex (holds task) (running task) at refl tt)
Move-Guarded {s} below at (runs task) g =
    others_Guarded s.free_size s.taken _ s.notifies s.release
      (moves_Guarded below g s.mutex (running task) ran at refl tt)
Move-Guarded {s} below at returns g =
    others_Guarded _ s.taken s.done s.notifies s.release
      (moves_Guarded below g s.mutex ran outside at refl tt)
Move-Guarded {s} below at stirred g = moves_Guarded below g s.mutex blocked outside at refl tt
