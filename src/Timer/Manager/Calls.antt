-- ===== src/Timer/Manager/Calls.antt =====
-- The calls of the other threads: each keeps a manager in order.
use mathlib.Core.Path.{subst}
use m_toolkit.Base.{
  ℕ, zero, suc, ◌^◌, ◌<◌, ◌≡◌, refl, sym, inl, inr, ◌⊎◌, some, true, false, List, [], arith,
  Option-cases,
}
use m_toolkit.Base.Maps.{find, insert, erase, update, has, distinct}
use m_toolkit.Timer.Node
use m_toolkit.Timer.Node.{TimerNode, Callback}
use m_toolkit.Timer.Node.Turns.{destroy_times, pause_times}
use m_toolkit.Timer.Wheel.{TimerManager, done, thrown, erased_read}
use m_toolkit.Timer.Wheel.Due.{Due}
use m_toolkit.Timer.Wheel.Moves.{spoke}
use m_toolkit.Timer.Wheel.Spokes.{Held-mono}
use m_toolkit.Timer.Manager.{create, apply, stop, destroy, pause, resume}
use m_toolkit.Timer.Manager.Executes.{Inv}

pub create-Inv : (now : ℕ) (none_yet : TimerNode) → Inv (create now none_yet)
unfolding create
create-Inv now none_yet = record {
  ready = record {
    due = λ l i n h. absurd (nothing l i n h);
    alone = λ l i k j n h h'. absurd (nothing l i n h);
    once = λ l i. empty l i;
    waiting = refl;
    apart = λ l i n h. cc;
  };
  fresh = λ m (l, i, h). absurd (nothing l i m h);
  steady = λ m h. elim h [ ];
  quiet = refl;
}
  where
    nothing : (l i n : ℕ) → has n (spoke (create now none_yet) l i) ≡ true → ⊥
    nothing zero i n h = cc
    nothing (suc w) i n h = cc

    empty : (l i : ℕ) → distinct (spoke (create now none_yet) l i) ≡ true
    empty zero i = refl
    empty (suc w) i = refl

-- A change of one node that keeps its times of expiry and its interval.
apply-Inv :
    (s : TimerManager) (node : ℕ) (n : TimerNode) (cs : List Callback)
    → n.expire ≡ (s.nodes node).expire
    → n.interval ≡ (s.nodes node).interval
    → Inv s
    → Inv (apply node (n, cs) s)
apply-Inv s node n cs e i v = record {
  ready =
      Held-mono (spoke s) [] v.ready
        λ l j m h due. subst (λ x. Due s.tick_time x l j) (sym (expire m)) due;
  fresh = v.fresh;
  steady = λ m h. subst (λ x. (0 < x) × (x < 2 ^ 32)) (sym (interval m)) (v.steady m h);
  quiet = v.quiet;
}
  where
    expire : (m : ℕ) → (update s.nodes node n m).expire ≡ (s.nodes m).expire
    expire m = ground arith

    interval : (m : ℕ) → (update s.nodes node n m).interval ≡ (s.nodes m).interval
    interval m = ground arith

pub stop-Inv : (s : TimerManager) → Inv s → Inv (stop s)
unfolding stop
stop-Inv s v = record { ready = v.ready; fresh = v.fresh; steady = v.steady; quiet = v.quiet }

pub destroy-Inv : (event : ℕ) (s : TimerManager) → Inv s → Inv (destroy event s)
unfolding destroy
destroy-Inv event s v = elim (Option-cases (find event s.managers)) [
  | inl e ↦ rw (e, destroy) v
  | inr (node, e) ↦
      let (same_e, same_i) = destroy_times (s.nodes node) in
      rw (e, destroy) (apply-Inv s node _ _ same_e same_i v)
]

-- `Pause` of an event that does not count as running changes nothing; of another it is undefined, and if
-- the program goes on, the manager is in order.
pub pause-Inv :
    (event stale : ℕ) (s : TimerManager)
    → Inv s
    → (pause event stale s ≡ done false s)
      ⊎ ((node : ℕ) × (s' : TimerManager) × (find event s.normals ≡ some node)
          × (pause event stale s ≡ thrown erased_read s')
          × (s'.tick_time ≡ s.tick_time)
          × Inv s')
unfolding pause
pause-Inv event stale s v = elim (Option-cases (find event s.normals)) [
  | inl e ↦ inl (rw (e, pause) refl)
  | inr (node, e) ↦
      let (same_e, same_i) = pause_times s.tick_time (s.nodes node) in
      let n = Node.pause s.tick_time (s.nodes node) in
      let v' = apply-Inv s node n.0 n.1 same_e same_i v in
      inr (
        node,
        record (apply node n s) { normals = insert event stale (erase event s.normals) },
        e,
        rw (e, pause) refl,
        refl,
        record { ready = v'.ready; fresh = v'.fresh; steady = v'.steady; quiet = v'.quiet },
      )
]

-- `Resume` finds no event among the paused ones.
pub resume_quiet :
    (event stale : ℕ) (s : TimerManager) → Inv s → resume event stale s ≡ done false s
unfolding resume find
resume_quiet event stale s v = rw v.quiet

pub stop_tick : (s : TimerManager) → (stop s).tick_time ≡ s.tick_time
unfolding stop
stop_tick s = refl

pub destroy_tick : (event : ℕ) (s : TimerManager) → (destroy event s).tick_time ≡ s.tick_time
unfolding destroy
destroy_tick event s = elim (Option-cases (find event s.managers)) [
  | inl e ↦ rw (e, destroy) refl
  | inr (node, e) ↦ rw (e, destroy) refl
]
