-- ===== src/Timer/Manager/Firing.antt =====
-- The loop at the end of `Executes`, over the nodes whose turn it is.
use mathlib.Core.Path.{subst, subst₂, subst₃, ap₂}
use m_toolkit.Base.{
  ℕ, ◌+◌, ◌^◌, ◌≤◌, ◌<◌, ◌≡◌, ◌≢◌, refl, sym, ap, ◌∙◌, ◌⊎◌, inl, inr, true, false, some, List, [],
  ◌∷◌, ◌++◌, arith, if◌then◌else◌, Bool-cases,
}
use mathlib.Core.List.{append-nil}
use m_toolkit.Base.Maps.{has, update, erase}
use m_toolkit.Timer.Node.{TimerNode, trigger, revised_expire}
use m_toolkit.Timer.Node.Turns.{Steady, told, told-eq-trigger, told_all, trigger_on_time}
use m_toolkit.Timer.Wheel.{TimerManager, done, add_node}
use m_toolkit.Timer.Wheel.Cascades.{Ready}
use m_toolkit.Timer.Wheel.Due.{Due, Ahead}
use m_toolkit.Timer.Wheel.Moves.{spoke, Fits, Near, add_node-Moved}
use m_toolkit.Timer.Wheel.Spokes.{Stored, Held, Held-mono, Held-drop}
use m_toolkit.Timer.Manager.{apply, forget, revise_and_add, run_node}

-- A state with pending nodes, none of which stands in a list, after one of them changes.
pub Ready-change :
    (s : TimerManager) (node : ℕ) (nodes : ℕ → TimerNode) (pending : List ℕ)
    → ((m : ℕ) → m ≢ node → nodes m ≡ s.nodes m)
    → Ready s (node ∷ pending)
    → Held (spoke s) (Fits s.tick_time nodes 0) (node ∷ pending)
Ready-change s node nodes pending others v = Held-mono (spoke s) (node ∷ pending) v λ l i m h due.
    let other : m ≢ node = λ e. let out = v.apart l i m (ground arith) in cc in
    (
      subst (λ x. Due s.tick_time x.expire l i) (sym (others m other)) due,
      λ le.
          let e : l ≡ 0 = omega arith in
          subst (λ l. Ahead s.tick_time (nodes m).expire l) (sym e) tt,
    )

-- The outcome of the turns of the nodes `ns`.
pub record Ran (ns pending : List ℕ) (s s' : TimerManager) : Type 0 where
  pub ready : Ready s' pending
  pub tick : s'.tick_time ≡ s.tick_time
  pub next_node : s'.next_node ≡ s.next_node
  pub pauses : s.pauses ≡ [] → s'.pauses ≡ []
  pub callbacks : s'.callbacks ≡ s.callbacks ++ told_all s.nodes ns
  pub others : (m : ℕ) → has m ns ≡ false → s'.nodes m ≡ s.nodes m
  pub intervals : (m : ℕ) → (s'.nodes m).interval ≡ (s.nodes m).interval
  pub from : (m : ℕ) → Stored (spoke s') m → Stored (spoke s) m ⊎ (has m ns ≡ true)
  pub kept : (m : ℕ) → Stored (spoke s) m → Stored (spoke s') m

module _ (s : TimerManager) (node : ℕ) (ns : List ℕ) (bound : s.tick_time < 2 ^ 62)
    (steady : Steady (s.nodes node)) (on_time : (s.nodes node).expire + 1 ≡ s.tick_time)
    (v : Ready s (node ∷ ns)) where
  -- A node that is not to fire stays out.
  Ran-out :
      (s' : TimerManager)
      → spoke s' ≡ spoke s
      → s'.tick_time ≡ s.tick_time
      → s'.nodes ≡ s.nodes
      → s'.next_node ≡ s.next_node
      → (s.pauses ≡ [] → s'.pauses ≡ [])
      → s'.callbacks ≡ s.callbacks
      → told (s.nodes node) ≡ []
      → Ran (node ∷ []) ns s s'
  Ran-out s' e t n x p c quiet = record {
    ready =
        subst₃ (λ f t nodes. Held f (λ l i n. Due t (nodes n).expire l i) ns) (sym e) (sym t)
          (sym n) (Held-drop (spoke s) node ns v);
    tick = t;
    next_node = x;
    pauses = p;
    callbacks = c ∙ rw quiet (sym (append-nil s.callbacks));
    others = λ m h. ap (λ f. f m) n;
    intervals = λ m. ap (λ f. (f m).interval) n;
    from = λ m h. inl (subst (λ f. Stored f m) e h);
    kept = λ m h. subst (λ f. Stored f m) (sym e) h;
  }

  -- A node that fires goes back to where it is due next.
  abbrev fired : TimerNode
  fired = (trigger (s.nodes node)).0

  abbrev table : ℕ → TimerNode
  table = update (update s.nodes node fired) node fired

  abbrev before_add : TimerManager
  before_add = record s { nodes = table; callbacks = s.callbacks ++ (trigger (s.nodes node)).1 }

  Ran-fired :
      (s.nodes node).is_valid ≡ true
      → (s.nodes node).is_pause ≡ false
      → (s' : TimerManager) × (add_node node before_add ≡ done tt s') × Ran (node ∷ []) ns s s'
  Ran-fired valid running =
      let (due, interval, kept) =
        trigger_on_time s.tick_time (s.nodes node) bound steady on_time valid in
      let others : (m : ℕ) → m ≢ node → table m ≡ s.nodes m = λ m ne. ground arith in
      let here : table node ≡ fired = ground arith in
      let soon : Near s.tick_time table node =
        subst (λ n. (s.tick_time ≤ n.expire) × (n.expire < s.tick_time + 2 ^ 32)) (sym here)
          (omega arith, omega arith) in
      let interval_kept : (m : ℕ) → (table m).interval ≡ (s.nodes m).interval = λ m. ground arith in
      let (s', e, moved) =
        add_node-Moved s.tick_time table before_add refl refl 0 node ns bound soon
          (Ready-change s node table ns others v) in
      (
        s',
        e,
        record {
          ready = Held-mono (spoke s') ns moved.held λ l i n h (due, _).
              subst₂ (λ t nodes. Due t (nodes n).expire l i) (sym moved.frame.tick_time)
                (sym moved.frame.nodes) due;
          tick = moved.frame.tick_time;
          next_node = moved.frame.next_node;
          pauses = λ h. moved.frame.pauses ∙ h;
          callbacks =
              moved.frame.callbacks
              ∙ ap (λ cs. s.callbacks ++ cs)
                  (sym (append-nil (trigger (s.nodes node)).1)
                    ∙ ap (λ cs. cs ++ []) (sym (told-eq-trigger (s.nodes node) valid running)));
          others = λ m h. ap (λ f. f m) moved.frame.nodes ∙ others m (ground arith);
          intervals = λ m. ap (λ f. (f m).interval) moved.frame.nodes ∙ interval_kept m;
          from = moved.from;
          kept = moved.kept;
        },
      )

  gone_out : (s.nodes node).is_valid ≡ false → Ran (node ∷ []) ns s (forget (s.nodes node).event s)
  unfolding forget told erase
  gone_out gone =
      Ran-out (forget (s.nodes node).event s) refl refl refl refl (λ h. rw h) refl (rw gone)

  revised :
      revised_expire s.tick_time fired ≡ some fired
      → revise_and_add node (apply node (trigger (s.nodes node)) s) ≡ add_node node before_add
  unfolding revise_and_add
  revised kept =
      let here : update s.nodes node fired node ≡ fired = ground arith in
      let on_table = ap (revised_expire s.tick_time) here ∙ kept in rw (on_table, revise_and_add)

  pub run_node-Ran : (s' : TimerManager) × (run_node node s ≡ done tt s') × Ran (node ∷ []) ns s s'
  unfolding run_node told
  run_node-Ran = elim (Bool-cases (s.nodes node).is_valid) [
    | inr gone ↦ (forget (s.nodes node).event s, rw gone, gone_out gone)
    | inl valid ↦ elim (Bool-cases (s.nodes node).is_pause) [
      | inl paused ↦
          (s, rw (valid, paused), Ran-out s refl refl refl refl (λ h. h) refl (rw (valid, paused)))
      | inr running ↦
          let (s', e, ran) = Ran-fired valid running in
          let (_, _, kept) =
            trigger_on_time s.tick_time (s.nodes node) bound steady on_time valid in
          (
            s',
            ap₂
                  (λ v p.
                    if v
                    then (if p
                        then done tt s
                        else revise_and_add node (apply node (trigger (s.nodes node)) s))
                    else done tt (forget (s.nodes node).event s))
                  valid running
                ∙ (revised kept ∙ e),
            ran,
          )
    ]
  ]
