-- ===== src/Utilities/Math.antt =====
-- toolkit/source/utilities/math.cpp: powers of two and parity of 32-bit numbers.
pub mod Bounds
pub mod Powers
use Prim.Native.Nat.{bit_and}
use m_toolkit.Base.{
  ℕ, zero, suc, ◌+◌, ◌-◌, ◌/◌, ◌^◌, Bool, true, false, not, ◌&&◌, Option, none, some, ltb, ◌==◌,
  if◌then◌else◌, sub32,
}

unfoldable pub is_power_of_two : ℕ → Bool
is_power_of_two num = not (num == 0) && (bit_and num (sub32 num 1) == 0)

-- The number of binary digits of `n`, if it has at most as many as the first argument says.
unfoldable pub bit_length : ℕ → ℕ → ℕ
bit_length zero n = 0
bit_length (suc d) n = elim (n == 0) [ true ↦ 0 | false ↦ suc (bit_length d (n / 2)) ]

-- The compiler's `__builtin_clz` on a 32-bit word other than 0.
abbrev pub builtin_clz : ℕ → ℕ
builtin_clz num = 32 - bit_length 32 num

-- `1 << s` on a 32-bit int. A shift by the width or more is undefined, which is `none` here.
abbrev pub one_shifted : ℕ → Option ℕ
one_shifted s = if ltb s 32 then some (2 ^ s) else none

unfoldable pub get_roundup_power_of_two : ℕ → Option ℕ
get_roundup_power_of_two num = if num == 0 then some 1 else one_shifted (32 - builtin_clz num + 1)

unfoldable pub get_round_down_power_of_two : ℕ → Option ℕ
get_round_down_power_of_two num = elim (get_roundup_power_of_two num) [
  | none ↦ none
  | some r ↦ some (r / 2)
]

-- The argument is the bit pattern of an int32_t.
unfoldable pub is_odd_number : ℕ → Bool
is_odd_number num = not (bit_and num 1 == 0)

unfoldable pub is_event_number : ℕ → Bool
is_event_number num = bit_and num 1 == 0
