-- ===== src/Utilities/Math/Powers.antt =====
-- `IsPowerOfTwo` of math.cpp decides what its name says, and the parity tests too.
use Prim.Native.Nat.{bit_and}
use native.Mathlib.Nat.{pow-suc, mod_self}
use m_toolkit.Base.{
  ℕ, zero, suc, ◌-◌, ◌/◌, ◌%◌, ◌^◌, ◌<◌, ◌≡◌, refl, ◌∙◌, ◌⊎◌, inl, inr, true, not, arith, ◌==◌,
  sub32,
}
use m_toolkit.Base.Bits.{two_pow_pos, bit_and_mask, bit_and_low, bit_and_self}
use m_toolkit.Utilities.Math.{is_power_of_two, is_odd_number, is_event_number}

parity : (a : ℕ) → (a % 2 ≡ 0) ⊎ (a % 2 ≡ 1)
parity a = omega arith

-- A number that shares no digit with its predecessor has one digit only.
lone_digit : (n a : ℕ) → a < n → 0 < a → bit_and a (a - 1) ≡ 0 → (k : ℕ) × (a ≡ 2 ^ k)
lone_digit zero a h p e = elim h [ ]
lone_digit (suc n) a h p e = elim (parity a) [
  | inl even ↦
      let e2 : (a - 1) / 2 ≡ a / 2 - 1 = omega arith in
      let low = bit_and_low a (a - 1) in
      let (k, r) =
        lone_digit n (a / 2) (omega arith) (omega arith) (let low' = rw e2 at low in omega arith) in
      (suc k, omega (arith, pow-suc 2 k))
  | inr odd ↦
      let e2 : (a - 1) / 2 ≡ a / 2 = omega arith in
      let low = bit_and_low a (a - 1) in
      (0, let low' = rw (e2, bit_and_self (a / 2)) at low in omega arith)
]

-- Exactly the powers of two pass, among the 32-bit numbers.
pub is_power_of_two_correct :
    (num : ℕ)
    → num < 2 ^ 32
    → (is_power_of_two num ≡ true → (k : ℕ) × (num ≡ 2 ^ k))
      × (((k : ℕ) × (num ≡ 2 ^ k)) → is_power_of_two num ≡ true)
unfolding is_power_of_two
is_power_of_two_correct num h = (only, all)
  where
    only : is_power_of_two num ≡ true → (k : ℕ) × (num ≡ 2 ^ k)
    only e =
        let pos : 0 < num = ground arith in
        let m : sub32 num 1 ≡ num - 1 = omega arith in
        let none_shared : bit_and num (sub32 num 1) ≡ 0 = ground arith in
        lone_digit (suc num) num (omega arith) pos (rw m at none_shared)

    all : ((k : ℕ) × (num ≡ 2 ^ k)) → is_power_of_two num ≡ true
    all (k, e) =
        let pos : 0 < num = rw e (two_pow_pos k) in
        let m : sub32 num 1 ≡ num - 1 = omega arith in
        let none_shared : bit_and (2 ^ k) (2 ^ k - 1) ≡ 0 =
          bit_and_mask k (2 ^ k) ∙ mod_self (2 ^ k) in
        rw m (rw e (rw none_shared (ground arith)))

-- Each int32_t is odd or even and not both, by its lowest digit.
is_odd_number-eq-not :
    (num : ℕ)
    → (is_odd_number num ≡ not (is_event_number num)) × (is_event_number num ≡ (num % 2 == 0))
unfolding is_odd_number is_event_number
is_odd_number-eq-not num = rw (bit_and_mask 1 num) (refl, refl)
