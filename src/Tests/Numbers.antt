-- ===== src/Tests/Numbers.antt =====
-- toolkit/source/utilities/math.cpp at some numbers.
use m_toolkit.Base.{ℕ, suc, ◌*◌, ◌^◌, ◌<◌, ◌≤◌, ◌≡◌, refl, none, some, arith}
use m_toolkit.Utilities.Math.{bit_length, get_roundup_power_of_two, get_round_down_power_of_two}
use m_toolkit.Utilities.Math.Bounds.{get_roundup_power_of_two-bounds}

get_roundup_power_of_two-bounds_example :
    (5 < 2 ^ 30
      → (j : ℕ) × (get_roundup_power_of_two 5 ≡ some (2 ^ suc j))
        × (5 < 2 ^ j)
        × (2 ^ j ≤ 2 * 5)
        × (suc j < 32))
    × (2 ^ 30 ≤ 5 → get_roundup_power_of_two 5 ≡ none)
get_roundup_power_of_two-bounds_example =
    get_roundup_power_of_two-bounds 5 (omega arith) (omega arith)

-- Five is rounded up to 16, and rounded down to 8.
five_up : get_roundup_power_of_two 5 ≡ some 16
unfolding get_roundup_power_of_two bit_length
five_up = refl

five_down : get_round_down_power_of_two 5 ≡ some 8
unfolding get_round_down_power_of_two get_roundup_power_of_two bit_length
five_down = refl
