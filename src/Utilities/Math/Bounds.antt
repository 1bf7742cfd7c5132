-- ===== src/Utilities/Math/Bounds.antt =====
-- What the rounding functions of math.cpp return.
use native.Mathlib.Nat.{pow-suc, pow-le-pow_right}
use native.Mathlib.Decide.{dec_lt}
use m_toolkit.Base.{
  ℕ, zero, suc, ◌+◌, ◌-◌, ◌*◌, ◌/◌, ◌^◌, ◌≤◌, ◌<◌, ◌≡◌, refl, ap, inl, inr, true, none, some, arith,
  ◌==◌, Bool-cases,
}
use m_toolkit.Utilities.Math.{bit_length, get_roundup_power_of_two, get_round_down_power_of_two}

bit_length-zero : (d : ℕ) → bit_length d 0 ≡ 0
unfolding bit_length
bit_length-zero zero = refl
bit_length-zero (suc d) = refl

bit_length_bounds :
    (d n : ℕ)
    → n < 2 ^ d
    → (n < 2 ^ bit_length d n) × (0 < n → 2 ^ bit_length d n ≤ 2 * n) × (bit_length d n ≤ d)
unfolding bit_length
bit_length_bounds zero n h = (h, λ p. omega arith, omega arith)
bit_length_bounds (suc d) n h = elim (Bool-cases (n == 0)) [
  | inl z ↦
      let e : n ≡ 0 = ground arith in
      rw (z, bit_length) (omega arith, λ p. absurd (omega arith), omega arith)
  | inr nz ↦
      let pos : 0 < n = ground arith in
      let (above, below, few) = bit_length_bounds d (n / 2) (omega (arith, pow-suc 2 d)) in
      let rest_zero : (n / 2 == 0) ≡ true → 2 ^ bit_length d (n / 2) ≡ 1 =
        λ z. let e0 : n / 2 ≡ 0 = ground arith in rw (e0, bit_length-zero d) in
      let e = pow-suc 2 (bit_length d (n / 2)) in
      let twice_half : 2 ^ bit_length d (n / 2) ≤ n = elim (Bool-cases (n / 2 == 0)) [
        | inl none_left ↦ rw (rest_zero none_left) (omega arith)
        | inr some_left ↦ omega (arith, below (ground arith))
      ] in
      rw (nz, bit_length) (omega arith, λ p. omega (arith, twice_half), omega arith)
]

exponent_small : (b n : ℕ) → 2 ^ b ≤ 2 * n → n < 2 ^ 30 → b < 31
exponent_small b n low h = elim (dec_lt b 31) [
  | yes p ↦ p
  | no p ↦
      let up : 2 ^ 31 ≤ 2 ^ b =
        pow-le-pow_right {n = 2} (omega arith) {i = 31} {j = b} (omega arith) in
      absurd (omega arith)
]

exponent_large : (b n : ℕ) → n < 2 ^ b → 2 ^ 30 ≤ n → 30 < b
exponent_large b n high h = elim (dec_lt 30 b) [
  | yes p ↦ p
  | no p ↦
      let up : 2 ^ b ≤ 2 ^ 30 =
        pow-le-pow_right {n = 2} (omega arith) {i = b} {j = 30} (omega arith) in
      absurd (omega arith)
]

-- `GetRoundupPowerOfTwo` of a number from 1 to below 2^30 is twice a power of two that is itself
-- above the number and at most twice it, so never the least power of two that holds the number.
-- From 2^30 on the shift is by the width of an int or more, which is undefined.
pub get_roundup_power_of_two-bounds :
    (num : ℕ)
    → 0 < num
    → num < 2 ^ 32
    → (num < 2 ^ 30
        → (j : ℕ) × (get_roundup_power_of_two num ≡ some (2 ^ suc j))
          × (num < 2 ^ j)
          × (2 ^ j ≤ 2 * num)
          × (suc j < 32))
      × (2 ^ 30 ≤ num → get_roundup_power_of_two num ≡ none)
unfolding get_roundup_power_of_two
get_roundup_power_of_two-bounds num pos word =
    let (above, below, few) = bit_length_bounds 32 num word in
    let shift : 32 - (32 - bit_length 32 num) + 1 ≡ suc (bit_length 32 num) = omega arith in
    (
      λ h.
          let fits = exponent_small (bit_length 32 num) num (below pos) h in
          (bit_length 32 num, ground arith, above, below pos, omega arith),
      λ h. let over = exponent_large (bit_length 32 num) num above h in ground arith,
    )

-- So `GetRoundDownPowerOfTwo` of a number below 2^30 other than 0 is a number above it, and at most
-- twice as large; of 0 it is 0.
pub get_round_down_power_of_two-above :
    (num : ℕ)
    → num < 2 ^ 30
    → (r : ℕ) × (get_round_down_power_of_two num ≡ some r) × (r ≤ 2 * num) × (0 < num → num < r)
unfolding get_round_down_power_of_two
get_round_down_power_of_two-above num h = elim (dec_lt 0 num) [
  | yes pos ↦
      let (j, e, low, high, _) = (get_roundup_power_of_two-bounds num pos (omega arith)).0 h in
      let half : 2 ^ suc j / 2 ≡ 2 ^ j = omega (arith, pow-suc 2 j) in
      (2 ^ j, rw (e, get_round_down_power_of_two) (ap some half), high, λ _. low)
  | no z ↦
      let e : num ≡ 0 = omega arith in (0, rw e zero_case, omega arith, λ p. absurd (omega arith))
]
  where
    zero_case : get_round_down_power_of_two 0 ≡ some 0
    zero_case = unfold get_roundup_power_of_two in refl
