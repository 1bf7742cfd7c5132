-- ===== src/Efficient/AnnularCache/Positions.antt =====
-- The free-running positions: their difference is the count, and their remainders are places.
use native.Mathlib.Nat.{
  pow-suc, mul_assoc, add-zero, add-suc, mod-lt, mod-eq_of_lt, mod-eq-sub-mod, mod-add-mod,
  mod-mod_of_dvd, dvd-mul_right,
}
use m_toolkit.Base.{
  ℕ, zero, suc, ◌+◌, ◌-◌, ◌*◌, ◌%◌, ◌^◌, ◌≤◌, ◌<◌, ◌≡◌, sym, ap, ◌∙◌, arith, add32, Bool-cases, inl,
  inr, ltb,
}
use m_toolkit.Base.Bits.{two_pow_pos}
use m_toolkit.Efficient.AnnularCache.Ring.{place}

two_pow_add : (j k : ℕ) → 2 ^ (j + k) ≡ 2 ^ j * 2 ^ k
two_pow_add j zero = rw add-zero (omega arith)
two_pow_add j (suc k) =
    rw (add-suc, pow-suc 2 (j + k), two_pow_add j k, pow-suc 2 k) (mul_assoc (2 ^ j) (2 ^ k) 2)

-- A size that is a power of two divides the modulus of the positions.
wrap_mod : (k x : ℕ) → k ≤ 32 → x % 2 ^ 32 % 2 ^ k ≡ x % 2 ^ k
wrap_mod k x h =
    let sum : 32 ≡ k + (32 - k) = omega arith in
    let whole : 2 ^ 32 ≡ 2 ^ k * 2 ^ (32 - k) = ap (λ n. 2 ^ n) sum ∙ two_pow_add k (32 - k) in
    mod-mod_of_dvd (2 ^ k) x (rw whole (dvd-mul_right (2 ^ k) (2 ^ (32 - k))))

mod-place : (size a n : ℕ) → a < size → n ≤ size → (a + n) % size ≡ place size a n
mod-place size a n ha hn = elim (Bool-cases (ltb (a + n) size)) [
  | inl near ↦ rw near (mod-eq_of_lt (ground arith))
  | inr far ↦
      rw far (mod-eq-sub-mod {n = a + n} {m = size} (ground arith) ∙ mod-eq_of_lt (ground arith))
]

pub place-add32 : (k r n : ℕ) → k < 32 → n ≤ 2 ^ k → add32 r n % 2 ^ k ≡ place (2 ^ k) (r % 2 ^ k) n
place-add32 k r n fits few =
    wrap_mod k (r + n) (omega arith)
    ∙ sym (mod-add-mod r (2 ^ k) n)
    ∙ mod-place (2 ^ k) (r % 2 ^ k) n (mod-lt r (two_pow_pos k)) few
