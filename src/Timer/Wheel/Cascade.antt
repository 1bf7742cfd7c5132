-- ===== src/Timer/Wheel/Cascade.antt =====
-- `Cascade`: the list of a wheel whose block begins moves down, and the wheel is ahead.
use mathlib.Core.Path.{fun_ext, subst}
use m_toolkit.Base.{
  ℕ, zero, suc, ◌+◌, ◌*◌, ◌/◌, ◌%◌, ◌^◌, ◌<◌, ◌≡◌, ◌≢◌, sym, ap, ◌∙◌, inl, inr, [], arith, ◌==◌,
}
use native.Mathlib.Decide.{dec_le}
use m_toolkit.Base.Bits.{bit_and_mask}
use m_toolkit.Base.Maps.{update}
use m_toolkit.Timer.Node.{TimerNode}
use m_toolkit.Timer.Wheel.{TimerManager, done, and_then, wheel_index, cascade}
use m_toolkit.Timer.Wheel.Due.{Due, Due_now, Due_later, Ahead}
use m_toolkit.Timer.Wheel.Moves.{
  spoke, Frame, Frame-lists, Frame-trans, Fits, add_nodes-Moved, expires,
}
use m_toolkit.Timer.Wheel.Spokes.{
  clear, Stored, cleared_ne, Stored-clear_from, Stored-clear_or, Held, Held-clear, Held-mono,
}

module _ (t : ℕ) (nodes : ℕ → TimerNode) where
  -- The wheels up to level `c` are ahead, and the moves from `s₀` to `s` lost no node and made none.
  pub record Turned (c : ℕ) (s₀ s : TimerManager) : Type 0 where
    pub held : Held (spoke s) (Fits t nodes c) []
    pub frame : Frame s₀ s
    pub from : (n : ℕ) → Stored (spoke s) n → Stored (spoke s₀) n
    pub kept : (n : ℕ) → Stored (spoke s₀) n → Stored (spoke s) n

  -- A wheel that does not turn at this tick is ahead as it is.
  pub Turned-skip :
      (w : ℕ) (s₀ s : TimerManager)
      → w < 4
      → t % 2 ^ (8 + w * 6) ≢ 0
      → Turned w s₀ s
      → Turned (suc w) s₀ s
  Turned-skip w s₀ s small still v = record {
    held = Held-mono (spoke s) [] v.held λ l i n h (due, ahead). (
      due,
      λ le. elim (dec_le l w) [
        | yes p ↦ ahead p
        | no p ↦
            let e : l ≡ suc w = omega arith in
            subst (λ l. Ahead t (expires t nodes n) l) (sym e)
              (Due_later t (expires t nodes n) w i small (inl still)
                (subst (λ l. Due t (expires t nodes n) l i) e due))
      ],
    );
    frame = v.frame;
    from = v.from;
    kept = v.kept;
  }

  module _ (w : ℕ) (small : w < 4) (turns : t % 2 ^ (8 + w * 6) ≡ 0) where
    slot : ℕ
    slot = wheel_index t w

    slot_eq : slot ≡ t / 2 ^ (8 + w * 6) % 2 ^ 6
    unfolding slot
    slot_eq = bit_and_mask 6 (t / 2 ^ (8 + w * 6))

    cleared : TimerManager → TimerManager
    cleared s = record s { wheel_list = update s.wheel_list w (update (s.wheel_list w) slot []) }

    spoke-cleared : (s : TimerManager) → spoke (cleared s) ≡ clear (suc w) slot (spoke s)
    unfolding cleared
    spoke-cleared s = fun_ext λ l. fun_ext λ j. at l j
      where
        at : (l j : ℕ) → spoke (cleared s) l j ≡ clear (suc w) slot (spoke s) l j
        at zero j = ground arith
        at (suc v) j = ground arith

    -- With the list taken out, the wheel is ahead.
    Held-cleared :
        (s : TimerManager)
        → Held (spoke s) (Fits t nodes w) []
        → Held (spoke (cleared s)) (Fits t nodes (suc w)) (spoke s (suc w) slot)
    Held-cleared s v =
        subst (λ f. Held f (Fits t nodes (suc w)) (spoke s (suc w) slot)) (sym (spoke-cleared s))
          (Held-mono (clear (suc w) slot (spoke s)) (spoke s (suc w) slot)
            (Held-clear (spoke s) (suc w) slot v)
            λ l i n h (due, ahead). (
              due,
              λ le. elim (dec_le l w) [
                | yes p ↦ ahead p
                | no p ↦
                    let e : l ≡ suc w = omega arith in
                    let other : i ≢ slot =
                      λ same. cleared_ne (spoke s) (suc w) slot n l i h e same in
                    subst (λ l. Ahead t (expires t nodes n) l) (sym e)
                      (Due_later t (expires t nodes n) w i small
                        (inr (λ same. other (same ∙ sym slot_eq)))
                        (subst (λ l. Due t (expires t nodes n) l i) e due))
              ],
            ))

    pub cascade-Turned :
        (s₀ s : TimerManager)
        → s.tick_time ≡ t
        → s.nodes ≡ nodes
        → t < 2 ^ 62
        → Turned w s₀ s
        → (s' : TimerManager) × (cascade w (wheel_index t w) s ≡ done (wheel_index t w == 0) s')
          × Turned (suc w) s₀ s'
    unfolding cascade slot cleared
    cascade-Turned s₀ s same_t same_nodes bound v =
        let ns = spoke s (suc w) slot in
        let (s', e, m) =
          add_nodes-Moved t nodes (cleared s) ns same_t same_nodes (suc w) bound
            (λ n h. Due_now t (expires t nodes n) w small turns (
              subst (λ i. Due t (expires t nodes n) (suc w) i) slot_eq
                (v.held.due (suc w) slot n h).0))
            (Held-cleared s v.held) in
        (
          s',
          ap (λ r. and_then r (λ _ s. done (wheel_index t w == 0) s)) e,
          record {
            held = m.held;
            frame = Frame-trans v.frame (Frame-trans (Frame-lists s _ _) m.frame);
            from = λ n h. elim (m.from n h) [
              | inl still ↦ v.from n (
                  Stored-clear_from (spoke s) (suc w) slot n
                    (subst (λ f. Stored f n) (spoke-cleared s) still))
              | inr fell ↦ v.from n (suc w, slot, fell)
            ];
            kept = λ n h. elim (Stored-clear_or (spoke s) (suc w) slot n (v.kept n h)) [
              | inl still ↦ m.kept n (subst (λ f. Stored f n) (sym (spoke-cleared s)) still)
              | inr fell ↦ m.moved n fell
            ];
          },
        )
