-- ===== src/Timer/Manager/Starts.antt =====
-- `Start`: when it takes an event on, when it refuses, and when `AddNode` throws out of it.
use mathlib.Core.Path.{subst, fun_ext}
use m_toolkit.Base.{
  ℕ, zero, suc, ◌+◌, ◌^◌, ◌≤◌, ◌<◌, ◌≡◌, ◌≢◌, refl, sym, ap, ◌∙◌, inl, inr, Bool, true, false, none,
  some, List, [], ◌∷◌, ◌++◌, arith, ◌==◌, Bool-cases, add64,
}
use m_toolkit.Base.Maps.{find, insert, find-insert, update, has}
use m_toolkit.Timer.Node
use m_toolkit.Timer.Node.{TimerNode, Callback, on_stop}
use m_toolkit.Timer.Node.Turns.{Steady}
use m_toolkit.Timer.Wheel.{
  TimerManager, Run, done, thrown, exceeds_limit, and_then, add_node, choose, nowhere, put,
}
use m_toolkit.Timer.Wheel.Due.{Due}
use m_toolkit.Timer.Wheel.Moves.{spoke, Near, Moved, add_node-Moved}
use m_toolkit.Timer.Wheel.Spokes.{Stored, Held, Held-mono}
use m_toolkit.Timer.Manager.{apply, allocate, unwind, start_new, start}
use m_toolkit.Timer.Manager.Firing.{Ready-change}
use m_toolkit.Timer.Manager.Executes.{Inv}

-- A node that stands in no list is on its way.
Held-wait :
    {Fits : ℕ → ℕ → ℕ → Type 0} (f : ℕ → ℕ → List ℕ) (n : ℕ)
    → (Stored f n → ⊥)
    → Held f Fits []
    → Held f Fits (n ∷ [])
Held-wait f n out v = record {
  due = v.due;
  alone = v.alone;
  once = v.once;
  waiting = refl;
  apart = λ l i m h. elim (Bool-cases (has m (f l i))) [
    | inl inside ↦ absurd (out (l, i, subst (λ k. has k (f l i) ≡ true) (ground arith) inside))
    | inr outside ↦ outside
  ];
}

module _ (event count interval : ℕ) (s : TimerManager) (bound : s.tick_time < 2 ^ 62) where
  abbrev born : TimerNode
  born = Node.make event count (add64 interval s.tick_time) interval

  abbrev table : ℕ → TimerNode
  table = update s.nodes s.next_node born

  born_expire : interval < 2 ^ 62 → born.expire ≡ s.tick_time + interval
  unfolding Node.make
  born_expire small = omega arith

  added :
      0 < interval
      → interval < 2 ^ 32
      → Inv s
      → (s' : TimerManager) × (add_node s.next_node (allocate born s) ≡ done tt s')
        × Moved s.tick_time table 0 (s.next_node ∷ []) [] (allocate born s) s'
  unfolding allocate
  added pos small v =
      let here : table s.next_node ≡ born = ground arith in
      let e = ap (λ n. n.expire) here ∙ born_expire (omega arith) in
      let soon : Near s.tick_time table s.next_node =
        subst (λ x. (s.tick_time ≤ x) × (x < s.tick_time + 2 ^ 32)) (sym e)
          (omega arith, omega arith) in
      add_node-Moved s.tick_time table (allocate born s) refl refl 0 s.next_node [] bound soon (
        Ready-change s s.next_node table [] (λ m ne. ground arith)
          (Held-wait (spoke s) s.next_node (λ h. let l = v.fresh s.next_node h in omega arith)
            v.ready))

  -- `Start` of an event that it does not know, with an interval from 1 to below 2^32, answers true. The
  -- event's node stands in the wheels, expires an interval after the current tick and is found under
  -- the event, and the manager stays in order. No other node changes.
  pub start-Inv :
      0 < interval
      → interval < 2 ^ 32
      → Inv s
      → find event s.managers ≡ none
      → (s' : TimerManager) × (start event count interval s ≡ done true s')
        × (s'.tick_time ≡ s.tick_time)
        × Stored (spoke s') s.next_node
        × (s'.nodes s.next_node ≡ Node.make event count (s.tick_time + interval) interval)
        × (find event s'.managers ≡ some s.next_node)
        × ((m : ℕ) → m ≢ s.next_node → s'.nodes m ≡ s.nodes m)
        × Inv s'
  unfolding start start_new unwind allocate Node.make
  start-Inv pos small v unknown =
      let (s₁, e, moved) = added pos small v in
      let nodes = moved.frame.nodes in
      let s' : TimerManager = record s₁ {
        managers = insert event s.next_node s₁.managers;
        normals = insert event s.next_node s₁.normals;
      } in
      let here : table s.next_node ≡ born = ground arith in
      let sum : born ≡ Node.make event count (s.tick_time + interval) interval =
        ap (λ x. Node.make event count x interval) (omega arith) in
      (
        s',
        rw (unknown, start) (ap (λ r. and_then (unwind s.next_node r) finish) e),
        moved.frame.tick_time,
        moved.moved s.next_node (ground arith),
        ap (λ f. f s.next_node) nodes ∙ here ∙ sum,
        found s₁.managers (ap (find event) moved.frame.managers ∙ unknown),
        λ m ne. ap (λ f. f m) nodes ∙ ground arith,
        record {
          ready = Held-mono (spoke s₁) [] moved.held λ l i m h (due, _).
              subst (λ f. Due s'.tick_time (f m).expire l i) (sym nodes)
                (subst (λ t. Due t (table m).expire l i) (sym moved.frame.tick_time) due);
          fresh = λ m h. elim (moved.from m h) [
            | inl old ↦ let l = v.fresh m old in rw moved.frame.next_node (omega arith)
            | inr new ↦ rw moved.frame.next_node (ground arith)
          ];
          steady = λ m h.
              subst (λ f. Steady (f m)) (sym nodes)
                (steady_table m (rw moved.frame.next_node at h));
          quiet = moved.frame.pauses ∙ v.quiet;
        },
      )
    where
      finish : Unit {0} → TimerManager → Run Bool
      finish _ s₁ = done true (record s₁ {
        managers = insert event s.next_node s₁.managers;
        normals = insert event s.next_node s₁.normals;
      })

      found :
          (ms : List (ℕ × ℕ))
          → find event ms ≡ none
          → find event (insert event s.next_node ms) ≡ some s.next_node
      found ms e = ground (arith, find-insert event event s.next_node ms)

      steady_table : (m : ℕ) → m < suc s.next_node → Steady (table m)
      steady_table m h = elim (Bool-cases (m == s.next_node)) [
        | inl hit ↦ let here : table m ≡ born = ground arith in subst Steady (sym here) (pos, small)
        | inr miss ↦
            let there : table m ≡ s.nodes m = ground arith in
            subst Steady (sym there) (v.steady m (ground arith))
      ]

  -- `Start` of an event that it knows answers false and changes nothing.
  pub start_known :
      (node : ℕ) → find event s.managers ≡ some node → start event count interval s ≡ done false s
  unfolding start
  start_known node known = rw (known, start)

  far : (t i : ℕ) → t < 2 ^ 62 → 0xffff_ffff < i → i < 2 ^ 62 → choose t (add64 i t) ≡ nowhere
  unfolding choose
  far t i ht lo hi = ground arith

  -- `Start` with an interval above 0xffffffff lets the exception of `AddNode` out. Its event is told
  -- that it is stopped, by force; neither the three maps nor the lists of the wheels change.
  pub start_too_long :
      0xffff_ffff < interval
      → interval < 2 ^ 62
      → find event s.managers ≡ none
      → (s' : TimerManager) × (start event count interval s ≡ thrown exceeds_limit s')
        × (s'.callbacks ≡ s.callbacks ++ on_stop event true ∷ [])
        × (s'.managers ≡ s.managers)
        × (s'.normals ≡ s.normals)
        × (s'.pauses ≡ s.pauses)
        × (spoke s' ≡ spoke s)
  unfolding start start_new unwind allocate add_node put Node.destroy Node.make
  start_too_long lo hi unknown =
      let here : table s.next_node ≡ born = ground arith in
      let out : choose s.tick_time (table s.next_node).expire ≡ nowhere =
        ap (λ n. choose s.tick_time n.expire) here ∙ far s.tick_time interval bound lo hi in
      (
        apply s.next_node (Node.destroy (table s.next_node)) (allocate born s),
        rw (unknown, start)
            (ap (λ p. and_then (unwind s.next_node (put s.next_node p (allocate born s))) finish)
              out),
        ap (λ n. s.callbacks ++ (Node.destroy n).1) here,
        refl,
        refl,
        refl,
        fun_ext λ l. fun_ext λ i. same l i,
      )
    where
      finish : Unit {0} → TimerManager → Run Bool
      finish _ s₁ = done true (record s₁ {
        managers = insert event s.next_node s₁.managers;
        normals = insert event s.next_node s₁.normals;
      })

      same :
          (l i : ℕ)
          → spoke (apply s.next_node (Node.destroy (table s.next_node)) (allocate born s)) l i
            ≡ spoke s l i
      same zero i = refl
      same (suc w) i = refl
