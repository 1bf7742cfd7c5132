-- ===== src/Timer/Wheel/Moves.antt =====
-- `AddNode` over the table of lists: it throws nothing and puts the node in its place.
use mathlib.Core.Path.{fun_ext, subst, ap₂}
use m_toolkit.Base.{
  ℕ, zero, suc, ◌+◌, ◌^◌, ◌≤◌, ◌<◌, ◌≡◌, refl, sym, ap, ◌∙◌, ◌⊎◌, inl, inr, true, List, [], ◌∷◌,
  arith, ◌==◌, Bool-cases,
}
use m_toolkit.Base.Maps.{has}
use m_toolkit.Timer.Node.{TimerNode}
use m_toolkit.Timer.Wheel.{
  TimerManager, done, and_then, Place, near, wheel, nowhere, choose, push_near, push_wheel, put,
  add_node, add_nodes,
}
use m_toolkit.Timer.Wheel.Due.{Due, DueAt, choose-Due, Ahead, AheadAt, choose-Ahead}
use m_toolkit.Timer.Wheel.Spokes.{
  Spokes, add, Stored, Stored-add_from, Stored-add_kept, Stored-add_new, Held, Held-add,
}

-- Level 0 is the near list; level `w + 1` is wheel `w`.
abbrev pub spoke : TimerManager → Spokes
spoke s zero i = s.near_list i
spoke s (suc w) i = s.wheel_list w i

-- What the wheels' movements leave alone.
pub record Frame (s s' : TimerManager) : Type 0 where
  pub tick_time : s'.tick_time ≡ s.tick_time
  pub nodes : s'.nodes ≡ s.nodes
  pub pauses : s'.pauses ≡ s.pauses
  pub normals : s'.normals ≡ s.normals
  pub managers : s'.managers ≡ s.managers
  pub callbacks : s'.callbacks ≡ s.callbacks
  pub next_node : s'.next_node ≡ s.next_node
  pub running : s'.running ≡ s.running
  pub last_time : s'.last_time ≡ s.last_time

pub Frame-lists :
    (s : TimerManager) (near_list : ℕ → List ℕ) (wheel_list : Spokes)
    → Frame s (record s { near_list = near_list; wheel_list = wheel_list })
Frame-lists s near_list wheel_list = record {
  tick_time = refl;
  nodes = refl;
  pauses = refl;
  normals = refl;
  managers = refl;
  callbacks = refl;
  next_node = refl;
  running = refl;
  last_time = refl;
}

pub Frame-trans : {s s' s'' : TimerManager} → Frame s s' → Frame s' s'' → Frame s s''
Frame-trans a b = record {
  tick_time = b.tick_time ∙ a.tick_time;
  nodes = b.nodes ∙ a.nodes;
  pauses = b.pauses ∙ a.pauses;
  normals = b.normals ∙ a.normals;
  managers = b.managers ∙ a.managers;
  callbacks = b.callbacks ∙ a.callbacks;
  next_node = b.next_node ∙ a.next_node;
  running = b.running ∙ a.running;
  last_time = b.last_time ∙ a.last_time;
}

spoke-push_near : (i n : ℕ) (s : TimerManager) → spoke (push_near i n s) ≡ add 0 i n (spoke s)
spoke-push_near i n s = fun_ext λ l. fun_ext λ j. at l j
  where
    at : (l j : ℕ) → spoke (push_near i n s) l j ≡ add 0 i n (spoke s) l j
    at zero j = ground arith
    at (suc w) j = ground arith

spoke-push_wheel :
    (w i n : ℕ) (s : TimerManager) → spoke (push_wheel w i n s) ≡ add (suc w) i n (spoke s)
spoke-push_wheel w i n s = fun_ext λ l. fun_ext λ j. at l j
  where
    at : (l j : ℕ) → spoke (push_wheel w i n s) l j ≡ add (suc w) i n (spoke s) l j
    at zero j = ground arith
    at (suc v) j = ground arith

-- The tick and the expiry time of each node, which the moves of this section do not change.
module _ (t : ℕ) (nodes : ℕ → TimerNode) where
  abbrev pub expires : ℕ → ℕ
  expires n = (nodes n).expire

  -- In its place at tick `t`, and ahead in the wheels up to level `c`.
  abbrev pub Fits : (c l i n : ℕ) → Type 0
  Fits c l i n = Due t (expires n) l i × (l ≤ c → Ahead t (expires n) l)

  abbrev pub Near : ℕ → Type 0
  Near n = (t ≤ expires n) × (expires n < t + 2 ^ 32)

  -- The outcome of moving the nodes `ns` into the lists of `s`.
  pub record Moved (c : ℕ) (ns pending : List ℕ) (s s' : TimerManager) : Type 0 where
    pub held : Held (spoke s') (Fits c) pending
    pub frame : Frame s s'
    pub from : (n : ℕ) → Stored (spoke s') n → Stored (spoke s) n ⊎ (has n ns ≡ true)
    pub kept : (n : ℕ) → Stored (spoke s) n → Stored (spoke s') n
    pub moved : (n : ℕ) → has n ns ≡ true → Stored (spoke s') n

  module _ (s : TimerManager) (same_t : s.tick_time ≡ t) (same_nodes : s.nodes ≡ nodes) where
    place-Moved :
        (c l i n : ℕ) (pending : List ℕ) (s' : TimerManager)
        → spoke s' ≡ add l i n (spoke s)
        → Frame s s'
        → Fits c l i n
        → Held (spoke s) (Fits c) (n ∷ pending)
        → Moved c (n ∷ []) pending s s'
    place-Moved c l i n pending s' e frame fits v = record {
      held = subst (λ f. Held f (Fits c) pending) (sym e) (Held-add (spoke s) l i n pending v fits);
      frame = frame;
      from = λ m h. Stored-add_from (spoke s) l i n m (subst (λ f. Stored f m) e h);
      kept = λ m h. subst (λ f. Stored f m) (sym e) (Stored-add_kept (spoke s) l i n m h);
      moved = λ m h. subst (λ f. Stored f m) (sym e) (Stored-add_new (spoke s) l i n m h);
    }

    put-Moved :
        (c n : ℕ) (pending : List ℕ) (p : Place)
        → DueAt t (expires n) p
        → AheadAt t (expires n) p
        → Held (spoke s) (Fits c) (n ∷ pending)
        → (s' : TimerManager) × (put n p s ≡ done tt s') × Moved c (n ∷ []) pending s s'
    unfolding put
    put-Moved c n pending (near i) due ahead v = (
      push_near i n s,
      refl,
      place-Moved c 0 i n pending (push_near i n s) (spoke-push_near i n s) (Frame-lists s _ _)
          (due, λ _. ahead) v,
    )
    put-Moved c n pending (wheel w i) due ahead v = (
      push_wheel w i n s,
      refl,
      place-Moved c (suc w) i n pending (push_wheel w i n s) (spoke-push_wheel w i n s)
          (Frame-lists s _ _) (due, λ _. ahead) v,
    )
    put-Moved c n pending nowhere due ahead v = absurd due

    pub add_node-Moved :
        (c n : ℕ) (pending : List ℕ)
        → t < 2 ^ 62
        → Near n
        → Held (spoke s) (Fits c) (n ∷ pending)
        → (s' : TimerManager) × (add_node n s ≡ done tt s') × Moved c (n ∷ []) pending s s'
    unfolding add_node
    add_node-Moved c n pending small (lo, hi) v =
        let (s', e, moved) =
          put-Moved c n pending (choose t (expires n)) (choose-Due t (expires n) small lo hi)
            (choose-Ahead t (expires n) small lo hi) v in
        let here = ap₂ (λ t' nodes'. put n (choose t' (nodes' n).expire) s) same_t same_nodes in
        (s', here ∙ e, moved)

  -- A list of nodes, each of which expires at this tick or within 2^32 ticks.
  pub add_nodes-Moved :
      (s : TimerManager) (ns : List ℕ)
      → s.tick_time ≡ t
      → s.nodes ≡ nodes
      → (c : ℕ) → t < 2 ^ 62
      → ((n : ℕ) → has n ns ≡ true → Near n)
      → Held (spoke s) (Fits c) ns
      → (s' : TimerManager) × (add_nodes ns s ≡ done tt s') × Moved c ns [] s s'
  unfolding add_nodes
  add_nodes-Moved s [] same_t same_nodes c small close v = (
    s,
    refl,
    record {
      held = v;
      frame = Frame-lists s s.near_list s.wheel_list;
      from = λ m h. inl h;
      kept = λ m h. h;
      moved = λ m h. cc;
    },
  )
  add_nodes-Moved s (n ∷ ns) same_t same_nodes c small close v =
      let near_n : Near n = close n (ground arith) in
      let (s₁, e₁, m₁) = add_node-Moved s same_t same_nodes c n ns small near_n v in
      let (s₂, e₂, m₂) =
        add_nodes-Moved s₁ ns (m₁.frame.tick_time ∙ same_t) (m₁.frame.nodes ∙ same_nodes) c small
          (λ m h. close m (ground arith)) m₁.held in
      (
        s₂,
        ap (λ r. and_then r (λ _. add_nodes ns)) e₁ ∙ e₂,
        record {
          held = m₂.held;
          frame = Frame-trans m₁.frame m₂.frame;
          from = λ m h. elim (m₂.from m h) [
            | inl old ↦ elim (m₁.from m old) [
              | inl older ↦ inl older
              | inr new ↦ inr (ground arith)
            ]
            | inr new ↦ inr (ground arith)
          ];
          kept = λ m h. m₂.kept m (m₁.kept m h);
          moved = λ m h. elim (Bool-cases (m == n)) [
            | inl hit ↦ m₂.kept m (m₁.moved m (ground arith))
            | inr miss ↦ m₂.moved m (ground arith)
          ];
        },
      )
