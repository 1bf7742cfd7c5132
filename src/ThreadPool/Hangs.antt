-- ===== src/ThreadPool/Hangs.antt =====
-- `Release` sets its flag without the lock, so its wake-up can come before a worker sleeps.
use m_toolkit.Base.{
  ℕ, ◌<◌, ◌≡◌, refl, sym, ap, ◌∙◌, arith, false, Bool-cases, inl, inr, ◌==◌, if◌then◌else◌,
}
use m_toolkit.Base.Maps.{update}
use m_toolkit.ThreadPool.{
  Pc, holding, blocked, System, notified, create, Move, locks, misses, sleeps, stirred, Step, works,
  commits, notifies_one, notifies_none, closes, notifies_all, joins, Reach, begins, goes,
}
use m_toolkit.ThreadPool.Wakes.{asleep}
use m_toolkit.ThreadPool.Wakes.Measure.{is_stirred, disturbs, Run, rests, follows}

-- The wake-up of `Release` is over, no other is to come, and worker `i` sleeps.
record Asleep (i : ℕ) (s : System) : Type 0 where
  notified_all : s.release ≡ notified
  none_left : s.notifies ≡ 0
  sleeping : s.pc i ≡ blocked

stays_blocked :
    (pc : ℕ → Pc) (i j : ℕ) (p : Pc) → pc i ≡ blocked → (i == j) ≡ false → update pc j p i ≡ blocked
stays_blocked pc i j p at apart = ap (λ b. if b then p else pc i) apart ∙ at

-- A worker that makes an undisturbed move does not sleep.
apart : (pc : ℕ → Pc) (i j : ℕ) → pc i ≡ blocked → asleep (pc j) ≡ 0 → (i == j) ≡ false
apart pc i j at awake = elim (Bool-cases (i == j)) [
  | inr different ↦ different
  | inl same ↦
      let equal : i ≡ j = ground arith in
      let one : asleep (pc j) ≡ 1 = ap (λ k. asleep (pc k)) (sym equal) ∙ ap asleep at in
      absurd (omega arith)
]

-- What an undisturbed move leaves: all but the place of its worker, which was awake.
record Moved (j : ℕ) (s : System) (p : Pc) (t : System) : Type 0 where
  place : Pc
  placed : t.pc ≡ update s.pc j place
  release_kept : t.release ≡ s.release
  notifies_kept : t.notifies ≡ s.notifies
  was_awake : asleep p ≡ 0

Move-Moved :
    {j : ℕ} {s t : System} {p : Pc} (move : Move j s p t) → is_stirred move ≡ false → Moved j s p t
Move-Moved (locks free) calm = record {
  place = holding;
  placed = refl;
  release_kept = refl;
  notifies_kept = refl;
  was_awake = refl;
}
Move-Moved stirred calm = absurd (ground (arith, calm))
Move-Moved _ calm = record {
  place = _;
  placed = refl;
  release_kept = refl;
  notifies_kept = refl;
  was_awake = refl;
}

Step-Asleep :
    {size i : ℕ} {s t : System} (step : Step size s t)
    → disturbs step ≡ false
    → i < size
    → Asleep i s
    → Asleep i t
Step-Asleep {i} {s} (works j below' move) calm below a =
    let m = Move-Moved move calm in
    record {
      notified_all = m.release_kept ∙ a.notified_all;
      none_left = m.notifies_kept ∙ a.none_left;
      sleeping =
          ap (λ f. f i) m.placed
          ∙ stays_blocked s.pc i j m.place a.sleeping (apart s.pc i j a.sleeping m.was_awake);
    }
Step-Asleep (commits task free) calm below a = absurd (ground (arith, calm))
Step-Asleep (notifies_one j k below' at some_left) calm below a =
    let l = a.none_left in absurd (omega arith)
Step-Asleep (notifies_none k nobody some_left) calm below a =
    let l = a.none_left in absurd (omega arith)
Step-Asleep (closes first opened) calm below a = absurd (ground (arith, sym first ∙ a.notified_all))
Step-Asleep (notifies_all stored_yet) calm below a =
    absurd (ground (arith, sym stored_yet ∙ a.notified_all))
Step-Asleep {i} (joins notified_yet all_left) calm below a =
    absurd (ground (arith, sym (all_left i below) ∙ a.sleeping))

Run-Asleep : {size i n : ℕ} {s t : System} → Run size n s t → i < size → Asleep i s → Asleep i t
Run-Asleep rests below a = a
Run-Asleep (follows step calm run) below a = Run-Asleep run below (Step-Asleep step calm below a)

-- The first worker finds nothing to do, and `Release` is called before it sleeps.
hung : (size : ℕ) → 0 < size → (s : System) × Reach size s × Asleep 0 s
unfolding create
hung size some_worker =
    let begun : Reach size (create size) = begins in
    let locked = goes begun (works 0 some_worker (locks refl)) in
    let missed = goes locked (works 0 some_worker (misses refl)) in
    let closed = goes missed (closes refl refl) in
    let told = goes closed (notifies_all refl) in
    (
      _,
      goes told (works 0 some_worker sleeps),
      record { notified_all = refl; none_left = refl; sleeping = refl },
    )

-- Every pool that has workers comes to a state in which `Release` has told all of them to end and
-- waits for them for ever, since one of them went to sleep after the wake-up: nothing but a new task
-- or a wake-up without cause lets the wait end.
pub Run-hung :
    (size : ℕ)
    → 0 < size
    → (s : System) × Reach size s
      × (s.release ≡ notified)
      × ((n : ℕ) (t : System) → Run size n s t → t.release ≡ notified)
Run-hung size some_worker =
    let (s, reached, a) = hung size some_worker in
    (s, reached, a.notified_all, λ n t run. (Run-Asleep run some_worker a).notified_all)
