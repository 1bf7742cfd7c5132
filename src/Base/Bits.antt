-- ===== src/Base/Bits.antt =====
-- `bit_and` with a mask of low ones, which the source writes `x & (size - 1)`.
use Prim.Native.Nat.{digits, bit_and-bitwise, bit_or, bit_or-bitwise, max}
use native.Mathlib.Nat.{
  pow-suc, one-le-pow, mod-lt, mod-eq_of_lt, mul-add-mod_self_left, div-add-mod, zero-mod, zero-div,
  div-div-eq-div-mul,
}
use mathlib.Core.Path.{◌≡⟨◌⟩◌, ◌∎}
use Prim.Native.Nat.{ℕ, zero, suc, ◌+◌, ◌-◌, ◌*◌, ◌/◌, ◌%◌, ◌^◌, ◌≤◌, ◌<◌, min, bit_and}
use mathlib.Core.Path.{◌≡◌, refl, sym, ap, ◌∙◌}
use native.Mathlib.Omega.{arith}

pub two_pow_pos : (k : ℕ) → 0 < 2 ^ k
two_pow_pos k = one-le-pow k 2 (omega arith)

-- The remainder by twice `p`, from the lowest binary digit and the rest.
mod-double : (a p : ℕ) → 0 < p → a % (p * 2) ≡ a / 2 % p * 2 + a % 2
mod-double a p h =
    let q = a / 2 / p in
    let low = a / 2 % p * 2 + a % 2 in
    let small : low < p * 2 = omega (arith, mod-lt (a / 2) h) in
    let whole : a ≡ p * 2 * q + low = grind (arith, div-add-mod (a / 2) p) in
    a % (p * 2)
    ≡⟨ ap (λ t. t % (p * 2)) whole ⟩ (p * 2 * q + low) % (p * 2)
    ≡⟨ mul-add-mod_self_left (p * 2) q low ⟩ low % (p * 2)
    ≡⟨ mod-eq_of_lt small ⟩ low ∎

digits_mask : (n k a : ℕ) → a ≤ n → digits (λ _. zero) min n a (2 ^ k - 1) ≡ a % 2 ^ k
digits_mask zero k zero h = sym (zero-mod (2 ^ k))
digits_mask zero k (suc a) h = absurd (omega arith)
digits_mask (suc n) k zero h = sym (zero-mod (2 ^ k))
digits_mask (suc n) zero (suc a) h = omega (arith, digits_mask n zero (suc a / 2) (omega arith))
digits_mask (suc n) (suc k) (suc a) h =
    let p = two_pow_pos k in
    let e = pow-suc 2 k in
    let half : (2 ^ suc k - 1) / 2 ≡ 2 ^ k - 1 = omega arith in
    let odd : (2 ^ suc k - 1) % 2 ≡ 1 = omega arith in
    rw (half, odd, digits_mask n k (suc a / 2) (omega arith), e, mod-double (suc a) (2 ^ k) p)
      (omega arith)

pub bit_and_mask : (k a : ℕ) → bit_and a (2 ^ k - 1) ≡ a % 2 ^ k
bit_and_mask k a = simp bit_and-bitwise (digits_mask a k a (omega arith))

-- The count of digits to go does not matter once it is large enough.
digits_enough :
    (n m a b : ℕ) → a ≤ n → a ≤ m → digits (λ _. zero) min n a b ≡ digits (λ _. zero) min m a b
digits_enough n zero a b p q = let e : a ≡ 0 = omega arith in rw e (none_left n)
  where
    none_left : (n : ℕ) → digits (λ _. zero) min n 0 b ≡ 0
    none_left zero = refl
    none_left (suc n) = refl
digits_enough zero (suc m) zero b p q = refl
digits_enough zero (suc m) (suc a) b p q = absurd (omega arith)
digits_enough (suc n) (suc m) zero b p q = refl
digits_enough (suc n) (suc m) (suc a) b p q =
    let rest = digits_enough n m (suc a / 2) (b / 2) (omega arith) (omega arith) in
    ap (λ t. t * 2 + min (suc a % 2) (b % 2)) rest

-- The lowest binary digit of a conjunction, and the others.
pub bit_and_low : (a b : ℕ) → bit_and a b ≡ bit_and (a / 2) (b / 2) * 2 + min (a % 2) (b % 2)
bit_and_low zero b = simp bit_and-bitwise (omega arith)
bit_and_low (suc a) b =
    let rest = digits_enough a (suc a / 2) (suc a / 2) (b / 2) (omega arith) (omega arith) in
    simp bit_and-bitwise (ap (λ t. t * 2 + min (suc a % 2) (b % 2)) rest)

bit_and_self_below : (n a : ℕ) → a < n → bit_and a a ≡ a
bit_and_self_below zero a h = elim h [ ]
bit_and_self_below (suc n) zero h = refl
bit_and_self_below (suc n) (suc a) h =
    omega (arith, bit_and_low (suc a) (suc a), bit_and_self_below n (suc a / 2) (omega arith))

pub bit_and_self : (a : ℕ) → bit_and a a ≡ a
bit_and_self a = bit_and_self_below (suc a) a (omega arith)

or_mask_digits :
    (n k a : ℕ) → a ≤ n → digits (λ b. b) max n a (2 ^ k - 1) ≡ a / 2 ^ k * 2 ^ k + (2 ^ k - 1)
or_mask_digits zero k zero h =
    sym (ap (λ q. q * 2 ^ k + (2 ^ k - 1)) (zero-div (2 ^ k)) ∙ (omega arith))
or_mask_digits zero k (suc a) h = absurd (omega arith)
or_mask_digits (suc n) k zero h =
    sym (ap (λ q. q * 2 ^ k + (2 ^ k - 1)) (zero-div (2 ^ k)) ∙ (omega arith))
or_mask_digits (suc n) zero (suc a) h =
    omega (arith, or_mask_digits n zero (suc a / 2) (omega arith))
or_mask_digits (suc n) (suc k) (suc a) h =
    let p = two_pow_pos k in
    let e = pow-suc 2 k in
    let half : (2 ^ suc k - 1) / 2 ≡ 2 ^ k - 1 = omega arith in
    let odd : (2 ^ suc k - 1) % 2 ≡ 1 = omega arith in
    let rest = or_mask_digits n k (suc a / 2) (omega arith) in
    let same : suc a / 2 ^ suc k ≡ suc a / 2 / 2 ^ k =
      ap (λ t. suc a / t) (e ∙ (omega arith)) ∙ sym (div-div-eq-div-mul (suc a) 2 (2 ^ k)) in
    rw (half, odd, rest, same, e) (grind arith)

-- A disjunction with a mask of low ones, which fills them.
pub bit_or_mask : (k a : ℕ) → bit_or a (2 ^ k - 1) ≡ a / 2 ^ k * 2 ^ k + (2 ^ k - 1)
bit_or_mask k a = simp bit_or-bitwise (or_mask_digits a k a (omega arith))
