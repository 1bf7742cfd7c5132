-- ===== src/Tests/Timers.antt =====
-- toolkit/source/timer on a manager with one timer, which fires twice, every three ticks.
use mathlib.Core.Path.{subst}
use m_toolkit.Base.{
  ℕ, ◌+◌, ◌-◌, ◌*◌, ◌^◌, ◌<◌, ◌≤◌, ◌≡◌, ◌≢◌, ◌↔◌, ◌⊎◌, inl, inr, refl, sym, ap, Bool, true, false,
  none, some, List, [], ◌∷◌, ◌++◌, arith,
}
use m_toolkit.Base.Maps.{find, has}
use m_toolkit.Timer.Node
use m_toolkit.Timer.Node.{TimerNode, Callback, on_trigger, on_stop, revised_expire}
use m_toolkit.Timer.Node.Turns.{told_all, fire, triggers, fire-count, revised_expire-catches_up}
use m_toolkit.Timer.Wheel.{TimerManager, Run, done, thrown, exceeds_limit}
use m_toolkit.Timer.Wheel.Moves.{spoke}
use m_toolkit.Timer.Wheel.Spokes.{Stored}
use m_toolkit.Timer.Manager.{create, start, resume, executes, executes_times, update_to}
use m_toolkit.Timer.Manager.Executes.{Inv, executes-exact}
use m_toolkit.Timer.Manager.Calls.{create-Inv}
use m_toolkit.Timer.Manager.Starts.{start-Inv, start_too_long}
use m_toolkit.Timer.Manager.Ticks.{update_to-ticks, start-on_time}
use m_toolkit.Timer.Manager.Reach.{
  Call, Allowed, call_start, call_pause, call_executes, perform, ticks_after, Reach, reach_create,
  Reach-returns, Reach-resume, Erased,
}

abbrev idle : TimerNode
idle = record {
  is_valid = false;
  is_pause = false;
  count = 0;
  expire = 0;
  interval = 0;
  pause_tick = 0;
  event = 0;
}

abbrev empty : TimerManager
empty = create 100 idle

empty-Inv : Inv empty
empty-Inv = create-Inv 100 idle

abbrev state_of : {A : Type 0} → Run A → TimerManager
state_of (done a s) = s
state_of (thrown e s) = s

-- Event 7 is started to fire twice, every three ticks.
abbrev one_timer : TimerManager
one_timer = state_of (start 7 2 3 empty)

unknown : (event : ℕ) → find event empty.managers ≡ none
unfolding create find
unknown event = refl

at_zero : empty.tick_time ≡ 0
unfolding create
at_zero = refl

one_timer-Inv : (one_timer.tick_time ≡ 0) × Inv one_timer
one_timer-Inv =
    let (s', e, t, _, _, _, _, v) =
      start-Inv 7 2 3 empty (omega (arith, at_zero)) (omega arith) (omega arith) empty-Inv
        (unknown 7) in
    subst (λ s. (s.tick_time ≡ 0) × Inv s) (sym (ap state_of e)) (omega (arith, t, at_zero), v)

executes-exact_example :
    (ns : List ℕ) × (s' : TimerManager) × (executes one_timer ≡ done tt s')
    × ((m : ℕ)
        → (has m ns ≡ true)
          ↔ (Stored (spoke one_timer) m × ((one_timer.nodes m).expire ≡ one_timer.tick_time)))
    × (s'.callbacks ≡ one_timer.callbacks ++ told_all one_timer.nodes ns)
    × (s'.tick_time ≡ one_timer.tick_time + 1)
    × ((m : ℕ)
        → Stored (spoke one_timer) m
        → (one_timer.nodes m).expire ≢ one_timer.tick_time
        → Stored (spoke s') m × (s'.nodes m ≡ one_timer.nodes m))
    × Inv s'
executes-exact_example = executes-exact one_timer (omega (arith, one_timer-Inv.0)) one_timer-Inv.1

start_too_long_example :
    (s' : TimerManager) × (start 7 2 0x1_0000_0000 empty ≡ thrown exceeds_limit s')
    × (s'.callbacks ≡ empty.callbacks ++ on_stop 7 true ∷ [])
    × (s'.managers ≡ empty.managers)
    × (s'.normals ≡ empty.normals)
    × (s'.pauses ≡ empty.pauses)
    × (spoke s' ≡ spoke empty)
start_too_long_example =
    start_too_long 7 2 0x1_0000_0000 empty (omega (arith, at_zero)) (omega arith) (omega arith)
      (unknown 7)

start-on_time_example :
    (s₁ : TimerManager) × (s₂ : TimerManager) × (s₃ : TimerManager) × (ns : List ℕ) × (start 7 2 3
        empty
      ≡ done true s₁)
    × (executes_times 3 s₁ ≡ done tt s₂)
    × (s₂.nodes empty.next_node ≡ Node.make 7 2 (empty.tick_time + 3) 3)
    × (executes s₂ ≡ done tt s₃)
    × (has empty.next_node ns ≡ true)
    × (s₃.callbacks ≡ s₂.callbacks ++ told_all s₂.nodes ns)
start-on_time_example =
    start-on_time 7 2 3 empty (omega (arith, at_zero)) (omega arith) (omega arith) empty-Inv
      (unknown 7)

at_hundred : empty.last_time ≡ 100
unfolding create
at_hundred = refl

update_to-ticks_example :
    (s' : TimerManager) × (update_to 104 empty ≡ done tt s')
    × (s'.tick_time ≡ empty.tick_time + (104 - empty.last_time))
    × (s'.last_time ≡ 104)
    × Inv s'
update_to-ticks_example =
    update_to-ticks 104 empty (omega (arith, at_hundred)) (omega arith)
      (omega (arith, at_zero, at_hundred)) empty-Inv

-- A timer that ten ticks have passed by.
abbrev late : TimerNode
late = record {
  is_valid = true;
  is_pause = false;
  count = 2;
  expire = 5;
  interval = 3;
  pause_tick = 0;
  event = 7;
}

revised_expire-catches_up_example :
    (0 < 3
      → (k : ℕ) × (e : ℕ) × (revised_expire 15 late ≡ some (record late { expire = e }))
        × (e ≡ 5 + k * 3)
        × (15 ≤ 5 → k ≡ 0)
        × (5 < 15 → (e ≤ 15) × (15 ≤ e + 3)))
    × (late.interval ≡ 0 → 5 < 15 → revised_expire 15 late ≡ none)
revised_expire-catches_up_example =
    revised_expire-catches_up 15 late (omega arith) (omega arith) (omega arith)

fire-count_example : fire 4 late ≡ triggers 2 7 ++ on_stop 7 false ∷ []
fire-count_example = fire-count late 1 4 refl refl (omega arith)

-- A call after a sequence of calls.
Reach-next :
    {ticks : ℕ} {s : TimerManager} (c : Call)
    → Reach ticks s
    → ticks + 1 < 2 ^ 62
    → Allowed c
    → Reach (ticks_after c ticks) (state_of (perform c s))
unfolding perform
Reach-next {ticks} {s} c r bound ok = elim (Reach-returns r bound c ok) [
  | inl (b, s', e, r') ↦ subst (λ x. Reach (ticks_after c ticks) x) (sym (ap state_of e)) r'
  | inr (event, stale, node, s', is_pause, _, e, r') ↦
      subst (λ c. Reach (ticks_after c ticks) (state_of (perform c s))) (sym is_pause)
        (subst (λ x. Reach ticks x) (sym (ap state_of e)) r')
]

-- Event 7 has been started and paused.
abbrev paused_timer : TimerManager
paused_timer = state_of (perform (call_pause 7 0) (state_of (perform (call_start 7 2 3) empty)))

paused_timer-Reach : Reach 0 paused_timer
paused_timer-Reach =
    Reach-next (call_pause 7 0)
      (Reach-next (call_start 7 2 3) (reach_create 100 idle) (omega arith)
        (omega arith, omega arith))
      (omega arith) tt

Reach-returns_example :
    ((b : Bool) × (s' : TimerManager) × (perform call_executes paused_timer ≡ done b s')
      × Reach 1 s')
    ⊎ Erased call_executes paused_timer (Reach 0)
Reach-returns_example = Reach-returns paused_timer-Reach (omega arith) call_executes tt

Reach-resume_example : resume 7 0 paused_timer ≡ done false paused_timer
Reach-resume_example = Reach-resume paused_timer-Reach (omega arith) 7 0
