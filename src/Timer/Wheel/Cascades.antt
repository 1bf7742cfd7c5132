-- ===== src/Timer/Wheel/Cascades.antt =====
-- The chain of cascades at the head of `Executes`: a wheel turns where its block begins, and after it
-- all wheels are ahead.
use mathlib.Core.Path.{subst}
use m_toolkit.Base.{
  ℕ, suc, ◌+◌, ◌*◌, ◌/◌, ◌%◌, ◌^◌, ◌<◌, ◌≡◌, ◌≢◌, sym, inl, inr, List, [], arith, ◌==◌, Bool-cases,
}
use m_toolkit.Base.Bits.{bit_and_mask}
use m_toolkit.Timer.Wheel.{TimerManager, done, low_bits, wheel_index, cascade, cascades}
use m_toolkit.Timer.Wheel.Cascade.{Turned, Turned-skip, cascade-Turned}
use m_toolkit.Timer.Wheel.Due.{Due, Ahead}
use m_toolkit.Timer.Wheel.Moves.{spoke, Frame-lists}
use m_toolkit.Timer.Wheel.Spokes.{Held, Held-mono}

-- Between two ticks every node is in its place, in one place only, and none is on its way.
abbrev pub Ready : TimerManager → List ℕ → Type 0
Ready s pending = Held (spoke s) (λ l i n. Due s.tick_time (s.nodes n).expire l i) pending

module _ (s : TimerManager) (bound : s.tick_time < 2 ^ 62) where
  Turned-start : Ready s [] → Turned s.tick_time s.nodes 0 s s
  Turned-start v = record {
    held = Held-mono (spoke s) [] v λ l i n h due. (
      due,
      λ le.
          let e : l ≡ 0 = omega arith in
          subst (λ l. Ahead s.tick_time (s.nodes n).expire l) (sym e) tt,
    );
    frame = Frame-lists s s.near_list s.wheel_list;
    from = λ n h. h;
    kept = λ n h. h;
  }

  abbrev pub At : ℕ → TimerManager → Type 0
  At c s' = Turned s.tick_time s.nodes c s s'

  -- Where a wheel does not turn, those above it do not turn either.
  skip :
      (c : ℕ) (s' : TimerManager)
      → s.tick_time % 2 ^ (8 + c * 6) ≢ 0
      → c < 4
      → At c s'
      → At (suc c) s'
  skip c s' still small v = Turned-skip s.tick_time s.nodes c s s' small still v

  skip_three : (s' : TimerManager) → s.tick_time % 2 ^ 26 ≢ 0 → At 3 s' → At 4 s'
  skip_three s' h v = skip 3 s' h (omega arith) v

  skip_two : (s' : TimerManager) → s.tick_time % 2 ^ 20 ≢ 0 → At 2 s' → At 4 s'
  skip_two s' h v = skip_three s' (omega arith) (skip 2 s' h (omega arith) v)

  skip_one : (s' : TimerManager) → s.tick_time % 2 ^ 14 ≢ 0 → At 1 s' → At 4 s'
  skip_one s' h v = skip_two s' (omega arith) (skip 1 s' h (omega arith) v)

  skip_zero : (s' : TimerManager) → s.tick_time % 2 ^ 8 ≢ 0 → At 0 s' → At 4 s'
  skip_zero s' h v = skip_one s' (omega arith) (skip 0 s' h (omega arith) v)

  -- A wheel that turns.
  step :
      (c : ℕ) (s' : TimerManager)
      → c < 4
      → s.tick_time % 2 ^ (8 + c * 6) ≡ 0
      → At c s'
      → (s'' : TimerManager) × (cascade c (wheel_index s.tick_time c) s'
          ≡ done (wheel_index s.tick_time c == 0) s'')
        × At (suc c) s''
  step c s' small turns v =
      cascade-Turned s.tick_time s.nodes c small turns s s' v.frame.tick_time v.frame.nodes bound v

  index_eq : (c : ℕ) → wheel_index s.tick_time c ≡ s.tick_time / 2 ^ (8 + c * 6) % 2 ^ 6
  index_eq c = bit_and_mask 6 (s.tick_time / 2 ^ (8 + c * 6))

  turns₁ : wheel_index s.tick_time 0 ≡ 0 → s.tick_time % 2 ^ 8 ≡ 0 → s.tick_time % 2 ^ 14 ≡ 0
  turns₁ e p = omega (arith, index_eq 0)

  turns₂ : wheel_index s.tick_time 1 ≡ 0 → s.tick_time % 2 ^ 14 ≡ 0 → s.tick_time % 2 ^ 20 ≡ 0
  turns₂ e p = omega (arith, index_eq 1)

  turns₃ : wheel_index s.tick_time 2 ≡ 0 → s.tick_time % 2 ^ 20 ≡ 0 → s.tick_time % 2 ^ 26 ≡ 0
  turns₃ e p = omega (arith, index_eq 2)

  pub cascades-Turned : Ready s [] → (s' : TimerManager) × (cascades s ≡ done tt s') × At 4 s'
  unfolding cascades
  cascades-Turned v = elim (Bool-cases (low_bits s.tick_time 8 == 0)) [
    | inr no₀ ↦
        (s, rw no₀, skip_zero s (ground (arith, bit_and_mask 8 s.tick_time)) (Turned-start v))
    | inl yes₀ ↦
        let t₀ : s.tick_time % 2 ^ 8 ≡ 0 = ground (arith, bit_and_mask 8 s.tick_time) in
        let (s₁, e₁, v₁) = step 0 s (omega arith) t₀ (Turned-start v) in
        elim (Bool-cases (wheel_index s.tick_time 0 == 0)) [
          | inr no₁ ↦
              let still : s.tick_time % 2 ^ 14 ≢ 0 = ground (arith, index_eq 0) in
              (s₁, rw (yes₀, e₁, no₁), skip_one s₁ still v₁)
          | inl yes₁ ↦
              let t₁ = turns₁ (ground arith) t₀ in
              let (s₂, e₂, v₂) = step 1 s₁ (omega arith) t₁ v₁ in
              elim (Bool-cases (wheel_index s.tick_time 1 == 0)) [
                | inr no₂ ↦
                    let still : s.tick_time % 2 ^ 20 ≢ 0 = ground (arith, index_eq 1) in
                    (s₂, rw (yes₀, e₁, yes₁, e₂, no₂), skip_two s₂ still v₂)
                | inl yes₂ ↦
                    let t₂ = turns₂ (ground arith) t₁ in
                    let (s₃, e₃, v₃) = step 2 s₂ (omega arith) t₂ v₂ in
                    elim (Bool-cases (wheel_index s.tick_time 2 == 0)) [
                      | inr no₃ ↦
                          let still : s.tick_time % 2 ^ 26 ≢ 0 = ground (arith, index_eq 2) in
                          (s₃, rw (yes₀, e₁, yes₁, e₂, yes₂, e₃, no₃), skip_three s₃ still v₃)
                      | inl yes₃ ↦
                          let t₃ = turns₃ (ground arith) t₂ in
                          let (s₄, e₄, v₄) = step 3 s₃ (omega arith) t₃ v₃ in
                          (s₄, rw (yes₀, e₁, yes₁, e₂, yes₂, e₃, yes₃, e₄), v₄)
                    ]
              ]
        ]
  ]
