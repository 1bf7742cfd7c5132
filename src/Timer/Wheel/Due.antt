-- ===== src/Timer/Wheel/Due.antt =====
-- What it means that a node stands in the right list: the block of ticks that the list stands for
-- is not over, has not been cascaded, and is the only such block that falls on this list.
use m_toolkit.Base.{ℕ, zero, suc, ◌+◌, ◌*◌, ◌/◌, ◌%◌, ◌^◌, ◌≤◌, ◌<◌, ◌≡◌, ◌≢◌, ◌↔◌, ◌⊎◌, arith}
use m_toolkit.Base.Bits.{bit_and_mask}
use m_toolkit.Timer.Wheel.{Place, near, wheel, nowhere, choose}

-- Level 0 is the near list; level `w + 1` is wheel `w`.
abbrev pub Due : (tick expire level index : ℕ) → Type 0
Due t e zero i = (i ≡ e % 2 ^ 8) × (t ≤ e) × (e < t + 2 ^ 8)
Due t e (suc zero) i =
    (i ≡ e / 2 ^ 8 % 2 ^ 6) × (t ≤ e / 2 ^ 8 * 2 ^ 8) × (e / 2 ^ 8 * 2 ^ 8 < t + 2 ^ 14)
Due t e (suc (suc zero)) i =
    (i ≡ e / 2 ^ 14 % 2 ^ 6) × (t ≤ e / 2 ^ 14 * 2 ^ 14) × (e / 2 ^ 14 * 2 ^ 14 < t + 2 ^ 20)
Due t e (suc (suc (suc zero))) i =
    (i ≡ e / 2 ^ 20 % 2 ^ 6) × (t ≤ e / 2 ^ 20 * 2 ^ 20) × (e / 2 ^ 20 * 2 ^ 20 < t + 2 ^ 26)
Due t e (suc (suc (suc (suc zero)))) i =
    (i ≡ e / 2 ^ 26 % 2 ^ 6) × (t ≤ e / 2 ^ 26 * 2 ^ 26) × (e / 2 ^ 26 * 2 ^ 26 < t + 2 ^ 32)
Due t e (suc (suc (suc (suc (suc l))))) i = ⊥

abbrev pub DueAt : (tick expire : ℕ) → Place → Type 0
DueAt t e (near i) = Due t e 0 i
DueAt t e (wheel w i) = Due t e (suc w) i
DueAt t e nowhere = ⊥

-- `AddNode` chooses the right list for every node that is not overdue and expires within 2^32 ticks.
pub choose-Due : (t e : ℕ) → t < 2 ^ 62 → t ≤ e → e < t + 2 ^ 32 → DueAt t e (choose t e)
unfolding choose
choose-Due t e small lo hi = ground (
  arith,
  bit_and_mask 8 e,
  bit_and_mask 6 (e / 2 ^ 8),
  bit_and_mask 6 (e / 2 ^ 14),
  bit_and_mask 6 (e / 2 ^ 20),
  bit_and_mask 6 (e / 2 ^ 26),
)

-- A wheel's list whose block has not begun.
abbrev pub Ahead : (tick expire level : ℕ) → Type 0
Ahead t e zero = Unit
Ahead t e (suc zero) = t < e / 2 ^ 8 * 2 ^ 8
Ahead t e (suc (suc zero)) = t < e / 2 ^ 14 * 2 ^ 14
Ahead t e (suc (suc (suc zero))) = t < e / 2 ^ 20 * 2 ^ 20
Ahead t e (suc (suc (suc (suc l)))) = t < e / 2 ^ 26 * 2 ^ 26

abbrev pub AheadAt : (tick expire : ℕ) → Place → Type 0
AheadAt t e (near i) = Unit
AheadAt t e (wheel w i) = Ahead t e (suc w)
AheadAt t e nowhere = Unit

pub choose-Ahead : (t e : ℕ) → t < 2 ^ 62 → t ≤ e → e < t + 2 ^ 32 → AheadAt t e (choose t e)
unfolding choose
choose-Ahead t e small lo hi = ground arith

-- The list that is cascaded at tick `t`, where its level turns, holds the nodes of the block that
-- begins at `t`, and its level's other lists are ahead.
pub Due_now :
    (t e w : ℕ)
    → w < 4
    → t % 2 ^ (8 + w * 6) ≡ 0
    → Due t e (suc w) (t / 2 ^ (8 + w * 6) % 2 ^ 6)
    → (t ≤ e) × (e < t + 2 ^ 32)
Due_now t e zero small turns d = omega arith
Due_now t e (suc zero) small turns d = omega arith
Due_now t e (suc (suc zero)) small turns d = omega arith
Due_now t e (suc (suc (suc zero))) small turns d = omega arith
Due_now t e (suc (suc (suc (suc w)))) small turns d = absurd (omega arith)

pub Due_later :
    (t e w i : ℕ)
    → w < 4
    → (t % 2 ^ (8 + w * 6) ≢ 0) ⊎ (i ≢ t / 2 ^ (8 + w * 6) % 2 ^ 6)
    → Due t e (suc w) i
    → Ahead t e (suc w)
Due_later t e zero i small other d = omega arith
Due_later t e (suc zero) i small other d = omega arith
Due_later t e (suc (suc zero)) i small other d = omega arith
Due_later t e (suc (suc (suc zero))) i small other d = omega arith
Due_later t e (suc (suc (suc (suc w)))) i small other d = absurd (omega arith)

-- The next tick, once every list of the wheels is ahead.
pub Due_next :
    (t e l i : ℕ) → Due t e l i → Ahead t e l → (l ≡ 0 → i ≢ t % 2 ^ 8) → Due (t + 1) e l i
Due_next t e zero i d a other = omega arith
Due_next t e (suc zero) i d a other = omega arith
Due_next t e (suc (suc zero)) i d a other = omega arith
Due_next t e (suc (suc (suc zero))) i d a other = omega arith
Due_next t e (suc (suc (suc (suc zero)))) i d a other = omega arith
Due_next t e (suc (suc (suc (suc (suc l))))) i d a other = absurd d

-- The near list of this tick holds the nodes that expire at this tick, and no other list does.
pub Due_at_tick :
    (t e l i : ℕ) → Due t e l i → Ahead t e l → ((e ≡ t) ↔ ((l ≡ 0) × (i ≡ t % 2 ^ 8)))
Due_at_tick t e zero i d a = (λ h. omega arith, λ h. omega arith)
Due_at_tick t e (suc zero) i d a = (λ h. absurd (omega arith), λ h. absurd (omega arith))
Due_at_tick t e (suc (suc zero)) i d a = (λ h. absurd (omega arith), λ h. absurd (omega arith))
Due_at_tick t e (suc (suc (suc zero))) i d a =
    (λ h. absurd (omega arith), λ h. absurd (omega arith))
Due_at_tick t e (suc (suc (suc (suc zero)))) i d a =
    (λ h. absurd (omega arith), λ h. absurd (omega arith))
Due_at_tick t e (suc (suc (suc (suc (suc l))))) i d a = absurd d

pub Due_level : (t e l i : ℕ) → Due t e l i → l ≤ 4
Due_level t e zero i d = omega arith
Due_level t e (suc zero) i d = omega arith
Due_level t e (suc (suc zero)) i d = omega arith
Due_level t e (suc (suc (suc zero))) i d = omega arith
Due_level t e (suc (suc (suc (suc zero)))) i d = omega arith
Due_level t e (suc (suc (suc (suc (suc l))))) i d = absurd d
