-- ===== src/Timer/Wheel/Turn.antt =====
-- One turn of the wheels: at each tick exactly the nodes that expire at it come out.
use mathlib.Core.Path.{subst, subst₂, fun_ext}
use m_toolkit.Base.{
  ℕ, zero, suc, ◌+◌, ◌%◌, ◌^◌, ◌<◌, ◌≡◌, ◌≢◌, ◌↔◌, refl, sym, ap, ◌∙◌, inl, inr, true, List, [],
  arith, add64,
}
use m_toolkit.Base.Bits.{bit_and_mask}
use m_toolkit.Base.Maps.{has, update}
use m_toolkit.Timer.Wheel.{TimerManager, done, and_then, low_bits, turn}
use m_toolkit.Timer.Wheel.Cascade.{Turned}
use m_toolkit.Timer.Wheel.Due.{Due, Due_next, Due_at_tick, Due_level, Ahead}
use m_toolkit.Timer.Wheel.Moves.{spoke, Fits}
use m_toolkit.Timer.Wheel.Spokes.{
  Stored, Held, Held-mono, Held-clear, clear, cleared_ne, has-clear, Stored-clear_or,
}
use m_toolkit.Timer.Wheel.Cascades.{Ready, cascades-Turned}

-- The outcome of the turn at the tick of `s`: `xs` comes out, and the tick moves on.
pub record TurnedOut (s : TimerManager) (xs : List ℕ) (s' : TimerManager) : Type 0 where
  pub ready : Ready s' xs
  pub tick : s'.tick_time ≡ s.tick_time + 1
  pub nodes : s'.nodes ≡ s.nodes
  pub managers : s'.managers ≡ s.managers
  pub callbacks : s'.callbacks ≡ s.callbacks
  pub pauses : s'.pauses ≡ s.pauses
  pub next_node : s'.next_node ≡ s.next_node
  pub out : (n : ℕ) → (has n xs ≡ true) ↔ (Stored (spoke s) n × ((s.nodes n).expire ≡ s.tick_time))
  pub left :
      (n : ℕ) → Stored (spoke s') n ↔ (Stored (spoke s) n × ((s.nodes n).expire ≢ s.tick_time))

module _ (s : TimerManager) (index : ℕ) where
  emptied : TimerManager
  emptied = record s { tick_time = add64 s.tick_time 1; near_list = update s.near_list index [] }

  spoke-emptied : spoke emptied ≡ clear 0 index (spoke s)
  unfolding emptied
  spoke-emptied = fun_ext λ l. fun_ext λ j. at l j
    where
      at : (l j : ℕ) → spoke emptied l j ≡ clear 0 index (spoke s) l j
      at zero j = ground arith
      at (suc v) j = ground arith

  -- Emptying the near list of the tick, once all wheels are ahead, is the turn.
  module _ (s₀ : TimerManager) (bound : s₀.tick_time < 2 ^ 62)
      (v : Turned s₀.tick_time s₀.nodes 4 s₀ s) (here : index ≡ s₀.tick_time % 2 ^ 8) where
    place : (l i n : ℕ) → has n (spoke s l i) ≡ true → Due s₀.tick_time (s₀.nodes n).expire l i
    place l i n h = (v.held.due l i n h).0

    ahead : (l i n : ℕ) → has n (spoke s l i) ≡ true → Ahead s₀.tick_time (s₀.nodes n).expire l
    ahead l i n h =
        (v.held.due l i n h).1 (Due_level s₀.tick_time (s₀.nodes n).expire l i (place l i n h))

    at_tick :
        (l i n : ℕ)
        → has n (spoke s l i) ≡ true
        → ((s₀.nodes n).expire ≡ s₀.tick_time) ↔ ((l ≡ 0) × (i ≡ s₀.tick_time % 2 ^ 8))
    at_tick l i n h =
        Due_at_tick s₀.tick_time (s₀.nodes n).expire l i (place l i n h) (ahead l i n h)

    tick_on : emptied.tick_time ≡ s₀.tick_time + 1
    unfolding emptied
    tick_on = omega (arith, v.frame.tick_time)

    same_nodes : emptied.nodes ≡ s₀.nodes
    unfolding emptied
    same_nodes = v.frame.nodes

    emptied-Ready : Ready emptied (s.near_list index)
    emptied-Ready =
        subst
          (λ f.
            Held f (λ l i n. Due emptied.tick_time (emptied.nodes n).expire l i)
              (s.near_list index))
          (sym spoke-emptied)
          (Held-mono (clear 0 index (spoke s)) (s.near_list index)
            (Held-clear (spoke s) 0 index v.held) next)
      where
        next :
            (l i n : ℕ)
            → has n (clear 0 index (spoke s) l i) ≡ true
            → Fits s₀.tick_time s₀.nodes 4 l i n
            → Due emptied.tick_time (emptied.nodes n).expire l i
        next l i n h (due, ahead) =
            let level = Due_level s₀.tick_time (s₀.nodes n).expire l i due in
            let other : l ≡ 0 → i ≢ s₀.tick_time % 2 ^ 8 =
              λ p q. cleared_ne (spoke s) 0 index n l i h p (q ∙ sym here) in
            subst₂ (λ t' nodes'. Due t' (nodes' n).expire l i) (sym tick_on) (sym same_nodes)
              (Due_next s₀.tick_time (s₀.nodes n).expire l i due (ahead level) other)

    comes_out :
        (n : ℕ)
        → (has n (s.near_list index) ≡ true)
          ↔ (Stored (spoke s₀) n × ((s₀.nodes n).expire ≡ s₀.tick_time))
    comes_out n = (
      λ h. (v.from n (0, index, h), (at_tick 0 index n h).1 (refl, here)),
      λ (st, e).
          let (l, i, h) = v.kept n st in
          let (l0, i0) = (at_tick l i n h).0 e in
          subst₂ (λ l i. has n (spoke s l i) ≡ true) l0 (i0 ∙ sym here) h,
    )

    stays :
        (n : ℕ)
        → Stored (spoke emptied) n ↔ (Stored (spoke s₀) n × ((s₀.nodes n).expire ≢ s₀.tick_time))
    stays n = (
      λ st.
          let (l, i, h) = subst (λ f. Stored f n) spoke-emptied st in
          let still = has-clear (spoke s) 0 index n l i h in
          (
            v.from n (l, i, still),
            λ e.
                let (p, q) = (at_tick l i n still).0 e in
                cleared_ne (spoke s) 0 index n l i h p (q ∙ sym here),
          ),
      λ (st, e). elim (Stored-clear_or (spoke s) 0 index n (v.kept n st)) [
        | inl left ↦ subst (λ f. Stored f n) (sym spoke-emptied) left
        | inr out ↦ absurd (e ((at_tick 0 index n out).1 (refl, here)))
      ],
    )

    emptied-TurnedOut : TurnedOut s₀ (s.near_list index) emptied
    unfolding emptied
    emptied-TurnedOut = record {
      ready = emptied-Ready;
      tick = tick_on;
      nodes = same_nodes;
      managers = v.frame.managers;
      callbacks = v.frame.callbacks;
      pauses = v.frame.pauses;
      next_node = v.frame.next_node;
      out = comes_out;
      left = stays;
    }

-- The turn throws nothing. What comes out is exactly what expires at this tick; the rest stays, and
-- is in its place for the next tick.
pub turn-TurnedOut :
    (s : TimerManager)
    → s.tick_time < 2 ^ 62
    → Ready s []
    → (xs : List ℕ) × (s' : TimerManager) × (turn s ≡ done xs s') × TurnedOut s xs s'
unfolding turn emptied
turn-TurnedOut s bound v =
    let (s₄, e, v₄) = cascades-Turned s bound v in
    let index = low_bits s.tick_time 8 in
    let here = bit_and_mask 8 s.tick_time in
    (
      s₄.near_list index,
      emptied s₄ index,
      ap (λ r. and_then r (λ _ s. done (s.near_list index) (emptied s index))) e,
      emptied-TurnedOut s₄ index s bound v₄ here,
    )
