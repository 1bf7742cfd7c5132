-- ===== src/Timer/Manager/Reach.antt =====
-- The states that calls and ticks lead to, from the constructor on.
use mathlib.Core.Path.{subst}
use m_toolkit.Base.{
  ◌≤◌, ℕ, ◌+◌, ◌^◌, ◌<◌, ◌≡◌, refl, sym, ap, ◌∙◌, inl, inr, ◌⊎◌, some, Bool, true, false, arith,
  Option-cases,
}
use m_toolkit.Base.Maps.{find}
use m_toolkit.Timer.Node.{TimerNode}
use m_toolkit.Timer.Wheel.{TimerManager, Run, done, thrown, erased_read, and_then}
use m_toolkit.Timer.Manager.{create, stop, destroy, pause, resume, start, executes}
use m_toolkit.Timer.Manager.Executes.{Inv, executes-exact}
use m_toolkit.Timer.Manager.Calls.{
  create-Inv, stop-Inv, stop_tick, destroy-Inv, destroy_tick, pause-Inv, resume_quiet,
}
use m_toolkit.Timer.Manager.Starts.{start-Inv, start_known}

-- What threads do to a manager. `stale` is as in `pause`.
pub data Call : Type 0 where
  call_stop call_executes : Call
  call_destroy : (event : ℕ) → Call
  call_pause call_resume : (event stale : ℕ) → Call
  call_start : (event count interval : ℕ) → Call

-- `Start` with an interval of 0, or with one that `AddNode` refuses, is left out.
abbrev pub Allowed : Call → Type 0
Allowed (call_start event count interval) = (0 < interval) × (interval < 2 ^ 32)
Allowed call_stop = Unit
Allowed call_executes = Unit
Allowed (call_destroy event) = Unit
Allowed (call_pause event stale) = Unit
Allowed (call_resume event stale) = Unit

abbrev pub ticks_after : Call → ℕ → ℕ
ticks_after call_executes ticks = ticks + 1
ticks_after call_stop ticks = ticks
ticks_after (call_destroy event) ticks = ticks
ticks_after (call_pause event stale) ticks = ticks
ticks_after (call_resume event stale) ticks = ticks
ticks_after (call_start event count interval) ticks = ticks

ticks_forth : (c : Call) (ticks : ℕ) → ticks ≤ ticks_after c ticks
ticks_forth call_executes ticks = omega arith
ticks_forth call_stop ticks = omega arith
ticks_forth (call_destroy event) ticks = omega arith
ticks_forth (call_pause event stale) ticks = omega arith
ticks_forth (call_resume event stale) ticks = omega arith
ticks_forth (call_start event count interval) ticks = omega arith

unfoldable pub perform : Call → TimerManager → Run Bool
perform call_stop s = done true (stop s)
perform call_executes s = and_then (executes s) (λ _ s. done true s)
perform (call_destroy event) s = done true (destroy event s)
perform (call_pause event stale) s = pause event stale s
perform (call_resume event stale) s = resume event stale s
perform (call_start event count interval) s = start event count interval s

-- A `Pause` of an event that counts as running reads an entry that was erased. If the program goes on,
-- the state that it leaves satisfies `Left`.
abbrev pub Erased : (c : Call) → TimerManager → (Left : TimerManager → Type 0) → Type 0
Erased c s Left =
    (event : ℕ) × (stale : ℕ) × (node : ℕ) × (s' : TimerManager) × (c ≡ call_pause event stale)
    × (find event s.normals ≡ some node)
    × (pause event stale s ≡ thrown erased_read s')
    × Left s'

-- A call on a manager in order throws nothing and leaves it in order.
perform-Inv :
    (c : Call) (s : TimerManager)
    → Allowed c
    → s.tick_time + 1 < 2 ^ 62
    → Inv s
    → ((b : Bool) × (s' : TimerManager) × (perform c s ≡ done b s')
        × (s'.tick_time ≡ ticks_after c s.tick_time)
        × Inv s')
      ⊎ Erased c s (λ s'. Unit {0})
unfolding perform
perform-Inv call_stop s ok bound v = inl (true, stop s, refl, stop_tick s, stop-Inv s v)
perform-Inv call_executes s ok bound v =
    let (_, s', e, _, _, t, _, v') = executes-exact s bound v in
    inl (true, s', ap (λ r. and_then r (λ _ s. done true s)) e, t, v')
perform-Inv (call_destroy event) s ok bound v =
    inl (true, destroy event s, refl, destroy_tick event s, destroy-Inv event s v)
perform-Inv (call_pause event stale) s ok bound v = elim (pause-Inv event stale s v) [
  | inl e ↦ inl (false, s, e, refl, v)
  | inr (node, s', found, e, _, _) ↦ inr (event, stale, node, s', refl, found, e, tt)
]
perform-Inv (call_resume event stale) s ok bound v =
    inl (false, s, resume_quiet event stale s v, refl, v)
perform-Inv (call_start event count interval) s (pos, small) bound v =
    elim (Option-cases (find event s.managers)) [
      | inl unknown ↦
          let (s', e, t, _, _, _, _, v') =
            start-Inv event count interval s (omega arith) pos small v unknown in
          inl (true, s', e, t, v')
      | inr (node, known) ↦
          inl (false, s, start_known event count interval s (omega arith) node known, refl, v)
    ]

-- After `ticks` ticks and any allowed calls between them, and also after a `Pause` that read an erased
-- entry, where the program goes on.
pub data Reach : ℕ → TimerManager → Type 0 where
  reach_create : (now : ℕ) (none_yet : TimerNode) → Reach 0 (create now none_yet)
  reach_call :
      (ticks : ℕ) (c : Call) (s s' : TimerManager) (b : Bool)
      → Reach ticks s
      → Allowed c
      → perform c s ≡ done b s'
      → Reach (ticks_after c ticks) s'
  reach_erased :
      (ticks event stale : ℕ) (s s' : TimerManager)
      → Reach ticks s
      → pause event stale s ≡ thrown erased_read s'
      → Reach ticks s'

state_of : {A : Type 0} → Run A → TimerManager
state_of (done a s) = s
state_of (thrown e s) = s

-- A state that is reached within 2^62 ticks is in order.
Reach-Inv :
    {ticks : ℕ} {s : TimerManager}
    → Reach ticks s
    → ticks + 1 < 2 ^ 62
    → (s.tick_time ≡ ticks) × Inv s
unfolding state_of create perform
Reach-Inv (reach_create now none_yet) bound = (refl, create-Inv now none_yet)
Reach-Inv (reach_call ticks c s s' b r ok e) bound =
    let (t, v) = Reach-Inv r (omega (arith, ticks_forth c ticks)) in
    elim (perform-Inv c s ok (omega (arith, t, ticks_forth c ticks)) v) [
      | inl (_, s₁, e₁, t₁, v₁) ↦
          let same : s₁ ≡ s' = ap state_of (sym e₁ ∙ e) in
          subst (λ x. (x.tick_time ≡ ticks_after c ticks) × Inv x) same
            (t₁ ∙ ap (ticks_after c) t, v₁)
      | inr (event, stale, node, s₁, is_pause, _, e₁, _) ↦
          absurd (no_return s' b (sym e₁ ∙ paused event stale is_pause e))
    ]
  where
    paused :
        (event stale : ℕ)
        → c ≡ call_pause event stale
        → perform c s ≡ done b s'
        → pause event stale s ≡ done b s'
    paused event stale is_pause e = subst (λ c. perform c s ≡ done b s') is_pause e

    no_return :
        {s₁ : TimerManager} (s' : TimerManager) (b : Bool) → thrown erased_read s₁ ≡ done b s' → ⊥
    no_return s' b e = cc
Reach-Inv (reach_erased ticks event stale s s' r e) bound =
    let (t, v) = Reach-Inv r bound in
    elim (pause-Inv event stale s v) [
      | inl e₁ ↦ let odd = sym e₁ ∙ e in absurd cc
      | inr (node, s₁, _, e₁, t₁, v₁) ↦
          let same : s₁ ≡ s' = ap state_of (sym e₁ ∙ e) in
          subst (λ x. (x.tick_time ≡ ticks) × Inv x) same (t₁ ∙ t, v₁)
    ]

-- No sequence of allowed calls ends in an exception or a division by 0: in every state that is reached
-- within 2^62 ticks, each allowed call returns, but for a Pause of an event that counts as running,
-- which reads an erased map entry. The states after such a Pause count as reached too.
pub Reach-returns :
    {ticks : ℕ} {s : TimerManager}
    → Reach ticks s
    → ticks + 1 < 2 ^ 62
    → (c : Call) → Allowed c
    → ((b : Bool) × (s' : TimerManager) × (perform c s ≡ done b s')
        × Reach (ticks_after c ticks) s')
      ⊎ Erased c s (Reach ticks)
Reach-returns {ticks} {s} r bound c ok =
    let (t, v) = Reach-Inv r bound in
    elim (perform-Inv c s ok (omega (arith, t)) v) [
      | inl (b, s', e, _, _) ↦ inl (b, s', e, reach_call ticks c s s' b r ok e)
      | inr (event, stale, node, s', is_pause, found, e, _) ↦
          inr (event, stale, node, s', is_pause, found, e, reach_erased ticks event stale s s' r e)
    ]

-- In every state that is reached within 2^62 ticks, after any number of calls of `Pause` too, `Resume`
-- answers false and changes nothing, whatever the event.
pub Reach-resume :
    {ticks : ℕ} {s : TimerManager}
    → Reach ticks s
    → ticks + 1 < 2 ^ 62
    → (event stale : ℕ) → resume event stale s ≡ done false s
Reach-resume {ticks} {s} r bound event stale = resume_quiet event stale s (Reach-Inv r bound).1
