-- ===== src/Timer/Manager/Executes.antt =====
-- `Executes`: on a manager in order, one tick fires exactly the timers that are due at it.
use mathlib.Core.Path.{subst, ap₂}
use mathlib.Core.List.{append_assoc, append-nil}
use m_toolkit.Base.{
  ℕ, ◌+◌, ◌^◌, ◌<◌, ◌≡◌, ◌≢◌, false, Bool-cases, ◌↔◌, refl, sym, ap, ◌∙◌, inl, inr, true, List, [],
  ◌∷◌, ◌++◌, arith,
}
use m_toolkit.Base.Maps.{has}
use m_toolkit.Timer.Node.{TimerNode}
use m_toolkit.Timer.Node.Turns.{Steady, told, told_all}
use m_toolkit.Timer.Wheel.{TimerManager, done, and_then}
use m_toolkit.Timer.Wheel.Cascades.{Ready}
use m_toolkit.Timer.Wheel.Moves.{spoke}
use m_toolkit.Timer.Wheel.Spokes.{Stored}
use m_toolkit.Timer.Wheel.Turn.{turn-TurnedOut}
use m_toolkit.Timer.Manager.{run_nodes, executes}
use m_toolkit.Timer.Manager.Firing.{Ran, run_node-Ran}

told_all-same :
    (nodes nodes' : ℕ → TimerNode) (ns : List ℕ)
    → ((m : ℕ) → has m ns ≡ true → nodes' m ≡ nodes m)
    → told_all nodes' ns ≡ told_all nodes ns
told_all-same nodes nodes' [] same = refl
told_all-same nodes nodes' (n ∷ ns) same =
    cc (same n (ground arith), told_all-same nodes nodes' ns (λ m h. same m (ground arith)))

abbrev OnTime : TimerManager → List ℕ → Type 0
OnTime s ns =
    (m : ℕ) → has m ns ≡ true → Steady (s.nodes m) × ((s.nodes m).expire + 1 ≡ s.tick_time)

-- A node's turn, and then those of the others.
Ran-cons :
    (s s₁ s₂ : TimerManager) (n : ℕ) (ns : List ℕ)
    → ((m : ℕ) → has m ns ≡ true → s₁.nodes m ≡ s.nodes m)
    → Ran (n ∷ []) ns s s₁
    → Ran ns [] s₁ s₂
    → Ran (n ∷ ns) [] s s₂
Ran-cons s s₁ s₂ n ns other r₁ r₂ = record {
  ready = r₂.ready;
  tick = r₂.tick ∙ r₁.tick;
  next_node = r₂.next_node ∙ r₁.next_node;
  pauses = λ h. r₂.pauses (r₁.pauses h);
  callbacks =
      r₂.callbacks
      ∙ ap₂ (λ a b. a ++ b) r₁.callbacks (told_all-same s.nodes s₁.nodes ns other)
      ∙ ap (λ x. (s.callbacks ++ x) ++ told_all s.nodes ns) (append-nil (told (s.nodes n)))
      ∙ append_assoc s.callbacks (told (s.nodes n)) (told_all s.nodes ns);
  others = λ m h. r₂.others m (ground arith) ∙ r₁.others m (ground arith);
  intervals = λ m. r₂.intervals m ∙ r₁.intervals m;
  from = λ m h. elim (r₂.from m h) [
    | inl old ↦ elim (r₁.from m old) [ inl older ↦ inl older | inr new ↦ inr (ground arith) ]
    | inr new ↦ inr (ground arith)
  ];
  kept = λ m h. r₂.kept m (r₁.kept m h);
}

run_nodes-Ran :
    (s : TimerManager) (ns : List ℕ)
    → s.tick_time < 2 ^ 62
    → OnTime s ns
    → Ready s ns
    → (s' : TimerManager) × (run_nodes ns s ≡ done tt s') × Ran ns [] s s'
unfolding run_nodes
run_nodes-Ran s [] bound on_time v = (
  s,
  refl,
  record {
    ready = v;
    tick = refl;
    next_node = refl;
    pauses = λ h. h;
    callbacks = sym (append-nil s.callbacks);
    others = λ m h. refl;
    intervals = λ m. refl;
    from = λ m h. inl h;
    kept = λ m h. h;
  },
)
run_nodes-Ran s (n ∷ ns) bound on_time v =
    let (steady, due) = on_time n (ground arith) in
    let (s₁, e₁, r₁) = run_node-Ran s n ns bound steady due v in
    let other : (m : ℕ) → has m ns ≡ true → s₁.nodes m ≡ s.nodes m =
      λ m h. r₁.others m (ground (arith, v.waiting)) in
    let (s₂, e₂, r₂) =
      run_nodes-Ran s₁ ns (rw r₁.tick bound)
        (λ m h.
          let same = other m h in
          let (steady', due') = on_time m (ground arith) in
          (subst Steady (sym same) steady', ap (λ x. x.expire + 1) same ∙ due' ∙ sym r₁.tick))
        r₁.ready in
    (s₂, ap (λ r. and_then r (λ _. run_nodes ns)) e₁ ∙ e₂, Ran-cons s s₁ s₂ n ns other r₁ r₂)

-- A manager in order: every node in the wheels is in its place and was started with an interval
-- from 1 to below 2^32, and no event counts as paused.
pub record Inv (s : TimerManager) : Type 0 where
  pub ready : Ready s []
  pub fresh : (m : ℕ) → Stored (spoke s) m → m < s.next_node
  pub steady : (m : ℕ) → m < s.next_node → Steady (s.nodes m)
  pub quiet : s.pauses ≡ []

-- `Executes` on a manager in order throws nothing and divides by nothing that is 0, moves on by one
-- tick and leaves the manager in order. The nodes that take their turn are exactly those in the
-- wheels that expire at this tick, and their events are told of it in that order, no other event of
-- anything. The others in the wheels stay there, unchanged.
pub executes-exact :
    (s : TimerManager)
    → s.tick_time + 1 < 2 ^ 62
    → Inv s
    → (ns : List ℕ) × (s' : TimerManager) × (executes s ≡ done tt s')
      × ((m : ℕ) → (has m ns ≡ true) ↔ (Stored (spoke s) m × ((s.nodes m).expire ≡ s.tick_time)))
      × (s'.callbacks ≡ s.callbacks ++ told_all s.nodes ns)
      × (s'.tick_time ≡ s.tick_time + 1)
      × ((m : ℕ)
          → Stored (spoke s) m
          → (s.nodes m).expire ≢ s.tick_time
          → Stored (spoke s') m × (s'.nodes m ≡ s.nodes m))
      × Inv s'
unfolding executes
executes-exact s bound v =
    let (ns, s₁, e₁, out) = turn-TurnedOut s (omega arith) v.ready in
    let on_time : OnTime s₁ ns = λ m h.
      let (st, due) = (out.out m).0 h in
      (
        subst (λ f. Steady (f m)) (sym out.nodes) (v.steady m (v.fresh m st)),
        ap (λ f. (f m).expire + 1) out.nodes ∙ ap (λ e. e + 1) due ∙ sym out.tick,
      ) in
    let (s₂, e₂, ran) = run_nodes-Ran s₁ ns (rw out.tick bound) on_time out.ready in
    let origin : (m : ℕ) → Stored (spoke s₂) m → Stored (spoke s) m = λ m h. elim (ran.from m h) [
      | inl old ↦ ((out.left m).0 old).0
      | inr new ↦ ((out.out m).0 new).0
    ] in
    let idle : (m : ℕ) → (s.nodes m).expire ≢ s.tick_time → has m ns ≡ false = λ m later.
      elim (Bool-cases (has m ns)) [
        | inl inside ↦ absurd (later ((out.out m).0 inside).1)
        | inr outside ↦ outside
      ] in
    let same_next = ran.next_node ∙ out.next_node in
    (
      ns,
      s₂,
      ap (λ r. and_then r run_nodes) e₁ ∙ e₂,
      out.out,
      ran.callbacks ∙ ap₂ (λ c f. c ++ told_all f ns) out.callbacks out.nodes,
      ran.tick ∙ out.tick,
      λ m st later. (
        ran.kept m ((out.left m).1 (st, later)),
        ran.others m (idle m later) ∙ ap (λ f. f m) out.nodes,
      ),
      record {
        ready = ran.ready;
        fresh = λ m h. rw same_next (v.fresh m (origin m h));
        steady = λ m h.
            let same = ran.intervals m ∙ ap (λ f. (f m).interval) out.nodes in
            subst (λ i. (0 < i) × (i < 2 ^ 32)) (sym same) (v.steady m (rw same_next at h));
        quiet = ran.pauses (out.pauses ∙ v.quiet);
      },
    )
