-- ===== src/Timer/Manager/Ticks.antt =====
-- Many ticks: `Update`, and the time that a timer waits.
use m_toolkit.Base.{
  ℕ, zero, suc, ◌+◌, ◌-◌, ◌^◌, ◌≤◌, ◌<◌, ◌≡◌, refl, ap, ◌∙◌, true, none, List, ◌++◌, arith, sub64,
}
use m_toolkit.Base.Maps.{find, has}
use m_toolkit.Timer.Node
use m_toolkit.Timer.Node.Turns.{told_all}
use m_toolkit.Timer.Wheel.{TimerManager, done, and_then}
use m_toolkit.Timer.Wheel.Moves.{spoke}
use m_toolkit.Timer.Wheel.Spokes.{Stored}
use m_toolkit.Timer.Manager.{start, executes, executes_times, update_to}
use m_toolkit.Timer.Manager.Executes.{Inv, executes-exact}
use m_toolkit.Timer.Manager.Starts.{start-Inv}
use m_toolkit.Timer.Manager.Clock.{Keeps, executes_times-Keeps}
use mathlib.Core.Path.{subst}

-- Ticks before node `m` is due leave it in the wheels as it is.
executes_times-waits :
    (k : ℕ) (s : TimerManager)
    → s.tick_time + k < 2 ^ 62
    → Inv s
    → (s' : TimerManager) × (executes_times k s ≡ done tt s')
      × (s'.tick_time ≡ s.tick_time + k)
      × ((m : ℕ)
          → Stored (spoke s) m
          → s.tick_time + k ≤ (s.nodes m).expire
          → Stored (spoke s') m × (s'.nodes m ≡ s.nodes m))
      × Inv s'
unfolding executes_times
executes_times-waits zero s bound v = (s, refl, omega arith, λ m st late. (st, refl), v)
executes_times-waits (suc k) s bound v =
    let (_, s₁, e₁, _, _, t₁, stay₁, v₁) = executes-exact s (omega arith) v in
    let (s₂, e₂, t₂, stay₂, v₂) = executes_times-waits k s₁ (omega (arith, t₁)) v₁ in
    (
      s₂,
      ap (λ r. and_then r (λ _. executes_times k)) e₁ ∙ e₂,
      omega (arith, t₁, t₂),
      λ m st late.
          let (st₁, same₁) = stay₁ m st (omega arith) in
          let e = ap (λ n. n.expire) same₁ in
          let (st₂, same₂) = stay₂ m st₁ (omega (arith, t₁)) in (st₂, same₂ ∙ same₁),
      v₂,
    )

-- `Update` at a clock reading that is not before the last one makes one tick for every millisecond
-- between them, throws nothing, leaves the manager in order, and keeps the reading as the last one.
pub update_to-ticks :
    (now : ℕ) (s : TimerManager)
    → s.last_time ≤ now
    → now < 2 ^ 62
    → s.tick_time + (now - s.last_time) < 2 ^ 62
    → Inv s
    → (s' : TimerManager) × (update_to now s ≡ done tt s')
      × (s'.tick_time ≡ s.tick_time + (now - s.last_time))
      × (s'.last_time ≡ now)
      × Inv s'
unfolding update_to
update_to-ticks now s forth small bound v =
    let there : TimerManager = record s { last_time = now } in
    let v' : Inv there = record {
      ready = v.ready;
      fresh = v.fresh;
      steady = v.steady;
      quiet = v.quiet;
    } in
    let ticks : sub64 now s.last_time ≡ now - s.last_time = omega arith in
    let (s', e, t, _, v'') = executes_times-waits (now - s.last_time) there bound v' in
    (
      s',
      ap (λ k. executes_times k there) ticks ∙ e,
      t,
      subst (Keeps now) e (executes_times-Keeps (now - s.last_time) there),
      v'',
    )

-- A timer that is started with an interval from 1 to below 2^32 waits that many ticks, over which its
-- node does not change, and at the next tick its node is among those that take their turn.
pub start-on_time :
    (event count interval : ℕ) (s : TimerManager)
    → s.tick_time + interval + 1 < 2 ^ 62
    → 0 < interval
    → interval < 2 ^ 32
    → Inv s
    → find event s.managers ≡ none
    → (s₁ : TimerManager) × (s₂ : TimerManager) × (s₃ : TimerManager) × (ns : List ℕ) × (start event
          count interval s
        ≡ done true s₁)
      × (executes_times interval s₁ ≡ done tt s₂)
      × (s₂.nodes s.next_node ≡ Node.make event count (s.tick_time + interval) interval)
      × (executes s₂ ≡ done tt s₃)
      × (has s.next_node ns ≡ true)
      × (s₃.callbacks ≡ s₂.callbacks ++ told_all s₂.nodes ns)
unfolding Node.make
start-on_time event count interval s bound pos small v unknown =
    let (s₁, e₁, t₁, st₁, n₁, _, _, v₁) =
      start-Inv event count interval s (omega arith) pos small v unknown in
    let x₁ = ap (λ n. n.expire) n₁ in
    let (s₂, e₂, t₂, stay, v₂) = executes_times-waits interval s₁ (omega (arith, t₁)) v₁ in
    let (st₂, same) = stay s.next_node st₁ (omega (arith, t₁, x₁)) in
    let n₂ = same ∙ n₁ in
    let x₂ = ap (λ n. n.expire) n₂ in
    let (ns, s₃, e₃, turns, cs, _, _, _) = executes-exact s₂ (omega (arith, t₁, t₂)) v₂ in
    (s₁, s₂, s₃, ns, e₁, e₂, n₂, e₃, (turns s.next_node).1 (st₂, omega (arith, t₁, t₂, x₂)), cs)
