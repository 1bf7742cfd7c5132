-- ===== src/Timer/Manager/Clock.antt =====
-- A tick does not change when the manager was last updated.
use m_toolkit.Base.{
  ℕ, zero, suc, ◌≡◌, refl, ◌∙◌, Bool, true, false, Option, none, some, List, [], ◌∷◌, ◌==◌,
  if◌then◌else◌,
}
use m_toolkit.Base.Maps.{update}
use m_toolkit.Timer.Node.{TimerNode, trigger, revised_expire}
use m_toolkit.Timer.Wheel.{
  TimerManager, Run, done, thrown, division_by_zero, and_then, ◌>>◌, Place, near, wheel, nowhere,
  choose, put, add_node, add_nodes, cascade, cascades, both, turn, low_bits, timer_near_bits,
  wheel_index,
}
use m_toolkit.Timer.Manager.{
  apply, revise_and_add, run_node, run_nodes, forget, executes, executes_times,
}

-- However a run ends, the last time is `n`.
abbrev pub Keeps : {A : Type 0} → ℕ → Run A → Type 0
Keeps n (done a s) = s.last_time ≡ n
Keeps n (thrown e s) = s.last_time ≡ n

abbrev KeepsAll : {A : Type 0} → (TimerManager → Run A) → Type 0
KeepsAll m = (s : TimerManager) → Keeps s.last_time (m s)

and_then-Keeps :
    {A : Type 0} {B : Type 0} (n : ℕ) (r : Run A) (k : A → TimerManager → Run B)
    → Keeps n r
    → ((a : A) → KeepsAll (k a))
    → Keeps n (and_then r k)
and_then-Keeps n (done a s) k e next = moved (k a s) (next a s)
  where
    moved : {B : Type 0} (r : Run B) → Keeps s.last_time r → Keeps n r
    moved (done b s') e' = e' ∙ e
    moved (thrown x s') e' = e' ∙ e
and_then-Keeps n (thrown x s) k e next = e

put-Keeps : (node : ℕ) (p : Place) → KeepsAll (put node p)
unfolding put
put-Keeps node (near i) s = refl
put-Keeps node (wheel w i) s = refl
put-Keeps node nowhere s = refl

add_node-Keeps : (node : ℕ) → KeepsAll (add_node node)
unfolding add_node
add_node-Keeps node s = put-Keeps node (choose s.tick_time (s.nodes node).expire) s

add_nodes-Keeps : (nodes : List ℕ) → KeepsAll (add_nodes nodes)
unfolding add_nodes
add_nodes-Keeps [] s = refl
add_nodes-Keeps (node ∷ nodes) s =
    and_then-Keeps s.last_time (add_node node s) (λ _. add_nodes nodes) (add_node-Keeps node s)
      (λ _. add_nodes-Keeps nodes)

cascade-Keeps : (w i : ℕ) → KeepsAll (cascade w i)
unfolding cascade
cascade-Keeps w i s =
    and_then-Keeps s.last_time _ _ (add_nodes-Keeps (s.wheel_list w i) _) (λ _ s. refl)

both-Keeps : (m k : TimerManager → Run Bool) → KeepsAll m → KeepsAll k → KeepsAll (both m k)
both-Keeps m k first second s =
    and_then-Keeps s.last_time (m s) (λ b. if b then k else (λ s. done false s)) (first s) either
  where
    either : (b : Bool) → KeepsAll (if b then k else (λ s. done false s))
    either true = second
    either false = λ s. refl

cascades-Keeps : KeepsAll cascades
unfolding cascades
cascades-Keeps s = either (low_bits s.tick_time timer_near_bits == 0)
  where
    rounds : TimerManager → Run Bool
    rounds =
        both (both (cascade 0 (wheel_index s.tick_time 0)) (cascade 1 (wheel_index s.tick_time 1)))
          (cascade 2 (wheel_index s.tick_time 2))

    last : Bool → TimerManager → Run (Unit {0})
    last round =
        if round
        then (cascade 3 (wheel_index s.tick_time 3) >> λ s. done tt s)
        else (λ s. done tt s)

    last-Keeps : (round : Bool) → KeepsAll (last round)
    last-Keeps true s₁ =
        and_then-Keeps s₁.last_time _ (λ _ s. done tt s)
          (cascade-Keeps 3 (wheel_index s.tick_time 3) s₁) (λ _ s. refl)
    last-Keeps false s₁ = refl

    either : (b : Bool) → Keeps s.last_time (if b then and_then (rounds s) last else done tt s)
    either true =
        and_then-Keeps s.last_time (rounds s) last
          (both-Keeps _ _
            (both-Keeps _ _ (cascade-Keeps 0 (wheel_index s.tick_time 0))
              (cascade-Keeps 1 (wheel_index s.tick_time 1)))
            (cascade-Keeps 2 (wheel_index s.tick_time 2)) s)
          last-Keeps
    either false = refl

turn-Keeps : KeepsAll turn
unfolding turn
turn-Keeps s = and_then-Keeps s.last_time (cascades s) _ (cascades-Keeps s) (λ _ s. refl)

revise_and_add-Keeps : (node : ℕ) → KeepsAll (revise_and_add node)
unfolding revise_and_add
revise_and_add-Keeps node s = either (revised_expire s.tick_time (s.nodes node))
  where
    either :
        (o : Option TimerNode)
        → Keeps s.last_time (elim o [
          | none ↦ thrown division_by_zero s
          | some n ↦ add_node node (record s { nodes = update s.nodes node n })
        ])
    either none = refl
    either (some n) = add_node-Keeps node _

run_node-Keeps : (node : ℕ) → KeepsAll (run_node node)
unfolding run_node forget
run_node-Keeps node s = either (s.nodes node).is_valid (s.nodes node).is_pause
  where
    either :
        (b c : Bool)
        → Keeps s.last_time (
            if b
            then (if c
                then done tt s
                else revise_and_add node (apply node (trigger (s.nodes node)) s))
            else done tt (forget (s.nodes node).event s))
    either true true = refl
    either true false = revise_and_add-Keeps node (apply node (trigger (s.nodes node)) s)
    either false c = refl

run_nodes-Keeps : (nodes : List ℕ) → KeepsAll (run_nodes nodes)
unfolding run_nodes
run_nodes-Keeps [] s = refl
run_nodes-Keeps (node ∷ nodes) s =
    and_then-Keeps s.last_time (run_node node s) (λ _. run_nodes nodes) (run_node-Keeps node s)
      (λ _. run_nodes-Keeps nodes)

executes-Keeps : KeepsAll executes
unfolding executes
executes-Keeps s = and_then-Keeps s.last_time (turn s) run_nodes (turn-Keeps s) run_nodes-Keeps

pub executes_times-Keeps : (k : ℕ) → KeepsAll (executes_times k)
unfolding executes_times
executes_times-Keeps zero s = refl
executes_times-Keeps (suc k) s =
    and_then-Keeps s.last_time (executes s) (λ _. executes_times k) (executes-Keeps s)
      (λ _. executes_times-Keeps k)
