-- ===== src/ThreadPool/Wakes/Progress.antt =====
-- An open pool that is not at rest can go on, and comes to have run every task.
use m_toolkit.Base.{
  ℕ, zero, suc, ◌<◌, ◌≡◌, ◌⊎◌, refl, sym, ap, ◌∙◌, arith, List, [], ◌∷◌, Bool, true, false,
  Bool-cases, inl, inr,
}
use mathlib.Core.Path.{subst}
use native.Mathlib.Decide.{dec_lt}
use m_toolkit.ThreadPool.{
  Pc, outside, holding, unready, blocked, ready, popping, holds, running, ran, exited, System, Move,
  locks, finds, misses, sleeps, stays, pops, counts, runs, returns, Step, works, notifies_one,
  empty, stirs,
}
use m_toolkit.ThreadPool.Family.{total-zero, total-full}
use m_toolkit.ThreadPool.Critical.{inside, Knows, Guarded}
use m_toolkit.ThreadPool.Wakes.{asleep, Awake}
use m_toolkit.ThreadPool.Wakes.Measure.{is_stirred, disturbs}

search_workers :
    (P : Pc → Bool) (size : ℕ) (pc : ℕ → Pc)
    → ((i : ℕ) × (i < size) × (P (pc i) ≡ true)) ⊎ ((i : ℕ) → i < size → P (pc i) ≡ false)
search_workers P zero pc = inr (λ i below. absurd (omega arith))
search_workers P (suc size) pc = elim (Bool-cases (P (pc size))) [
  | inl yes_here ↦ inl (size, omega arith, yes_here)
  | inr not_here ↦ elim (search_workers P size pc) [
    | inl (i, below, found) ↦ inl (i, omega arith, found)
    | inr nowhere ↦ inr (λ i below. elim (dec_lt i size) [
      | yes smaller ↦ nowhere i smaller
      | no last ↦
          let same : i ≡ size = omega arith in subst (λ j. P (pc j) ≡ false) (sym same) not_here
    ])
  ]
]

-- Where a worker of an open pool can go on whatever the others do.
abbrev pub acts : Pc → Bool
acts outside = false
acts blocked = false
acts exited = false
acts _ = true

abbrev pub is_outside : Pc → Bool
is_outside outside = true
is_outside _ = false

-- A worker's undisturbed move that leaves the flag.
abbrev pub Moves : ℕ → System → Pc → Type 0
Moves i s p =
    (t : System) × (move : Move i s p t) × (is_stirred move ≡ false)
    × (t.is_close ≡ s.is_close)
    × (t.committed ≡ s.committed)

front_of :
    (tasks : List ℕ) → empty tasks ≡ false → (task : ℕ) × (rest : List ℕ) × (tasks ≡ task ∷ rest)
front_of [] some_there = absurd (ground (arith, some_there))
front_of (t ∷ l) some_there = (t, l, refl)

acts-Moves :
    (i : ℕ) (s : System) (p : Pc) → acts p ≡ true → Knows s p → s.is_close ≡ false → Moves i s p
acts-Moves i s outside act known opened = absurd (ground (arith, act))
acts-Moves i s blocked act known opened = absurd (ground (arith, act))
acts-Moves i s exited act known opened = absurd (ground (arith, act))
acts-Moves i s holding act known opened = elim (Bool-cases (stirs s)) [
  | inl test ↦ (_, finds test, refl, refl, refl)
  | inr test ↦ (_, misses test, refl, refl, refl)
]
acts-Moves i s unready act known opened = (_, sleeps, refl, refl, refl)
acts-Moves i s ready act known opened = (_, stays opened, refl, refl, refl)
acts-Moves i s popping act known opened =
    let (task, rest, front) = front_of s.tasks known in (_, pops task rest front, refl, refl, refl)
acts-Moves i s (holds task) act known opened = (_, counts task, refl, refl, refl)
acts-Moves i s (running task) act known opened = (_, runs task, refl, refl, refl)
acts-Moves i s ran act known opened = (_, returns, refl, refl, refl)

-- The pool has nothing to do.
pub record Rests (size : ℕ) (s : System) : Type 0 where
  pub all_asleep : (i : ℕ) → i < size → s.pc i ≡ blocked
  pub drained : s.tasks ≡ []

-- A step that is not disturbed, of a pool that stays open.
abbrev pub Goes : ℕ → System → Type 0
Goes size s =
    (t : System) × (step : Step size s t) × (disturbs step ≡ false)
    × (t.is_close ≡ false)
    × (t.committed ≡ s.committed)

worker-Goes :
    {size : ℕ} {s : System} (i : ℕ)
    → i < size
    → s.is_close ≡ false
    → Moves i s (s.pc i)
    → Goes size s
worker-Goes i below opened (t, move, calm, flag, same) =
    (t, works i below move, calm, flag ∙ opened, same)

-- Nobody acts and nobody is outside: all are asleep.
all_blocked :
    (s : System) (p : Pc)
    → s.is_close ≡ false
    → Knows s p
    → acts p ≡ false
    → is_outside p ≡ false
    → p ≡ blocked
all_blocked s outside opened known idle inn = absurd (ground (arith, inn))
all_blocked s holding opened known idle inn = absurd (ground (arith, idle))
all_blocked s unready opened known idle inn = absurd (ground (arith, idle))
all_blocked s blocked opened known idle inn = refl
all_blocked s ready opened known idle inn = absurd (ground (arith, idle))
all_blocked s popping opened known idle inn = absurd (ground (arith, idle))
all_blocked s (holds t) opened known idle inn = absurd (ground (arith, idle))
all_blocked s (running t) opened known idle inn = absurd (ground (arith, idle))
all_blocked s ran opened known idle inn = absurd (ground (arith, idle))
all_blocked s exited opened known idle inn = absurd (ground (arith, known, opened))

acts-inside : (p : Pc) → acts p ≡ false → inside p ≡ 0
acts-inside p idle = ground (arith, idle)

lock_free :
    {size : ℕ} {s : System}
    → Guarded size s
    → ((i : ℕ) → i < size → acts (s.pc i) ≡ false)
    → s.mutex ≡ false
lock_free {size} {s} g idle =
    let none = total-zero inside size s.pc (λ i below. acts-inside (s.pc i) (idle i below)) in
    ground (arith, sym g.one_inside ∙ none)

is_outside-outside : (p : Pc) → is_outside p ≡ true → p ≡ outside
is_outside-outside p out = ground (arith, out)

zero_or_suc : (n : ℕ) → (n ≡ 0) ⊎ ((k : ℕ) × (n ≡ suc k))
zero_or_suc zero = inl refl
zero_or_suc (suc k) = inr (k, refl)

empty-nil : (tasks : List ℕ) → empty tasks ≡ true → tasks ≡ []
empty-nil [] nothing = refl
empty-nil (t ∷ l) nothing = absurd (ground (arith, nothing))

-- A pool in which all sleep is woken, or at rest.
sleepers_go :
    {size : ℕ} {s : System}
    → 0 < size
    → Awake size s
    → s.is_close ≡ false
    → ((i : ℕ) → i < size → s.pc i ≡ blocked)
    → Rests size s ⊎ Goes size s
unfolding Awake
sleepers_go {size} {s} some_worker awake opened asleep_all = elim (zero_or_suc s.notifies) [
  | inr (k, some_left) ↦
      inr (_, notifies_one 0 k some_worker (asleep_all 0 some_worker) some_left, refl, opened, refl)
  | inl none_left ↦ elim (Bool-cases (empty s.tasks)) [
    | inl nothing ↦ inl (record { all_asleep = asleep_all; drained = empty-nil s.tasks nothing })
    | inr waiting ↦
        let full = total-full asleep size s.pc (λ i below. ap asleep (asleep_all i below)) in
        let bound = awake waiting in absurd (omega arith)
  ]
]

pub progress :
    {size : ℕ} {s : System}
    → 0 < size
    → Guarded size s
    → Awake size s
    → s.is_close ≡ false
    → Rests size s ⊎ Goes size s
progress {size} {s} some_worker g awake opened = elim (search_workers acts size s.pc) [
  | inl (i, below, act) ↦
      inr (worker-Goes i below opened (acts-Moves i s (s.pc i) act (g.known i below) opened))
  | inr idle ↦ elim (search_workers is_outside size s.pc) [
    | inl (i, below, out) ↦ inr (
        worker-Goes i below opened (
          subst (λ p. Moves i s p) (sym (is_outside-outside (s.pc i) out))
            (_, locks (lock_free g idle), refl, refl, refl)))
    | inr nobody ↦
        sleepers_go some_worker awake opened (λ i below.
          all_blocked s (s.pc i) opened (g.known i below) (idle i below) (nobody i below))
  ]
]
