-- ===== src/Utilities/Net/Ranges.antt =====
-- `AsHostByte` of an address with a mask: from the address to the end of its block.
use m_toolkit.Base.{
  ℕ, zero, suc, ◌+◌, ◌-◌, ◌*◌, ◌/◌, ◌%◌, ◌^◌, ◌≤◌, ◌<◌, ◌≡◌, sym, ap, ◌∙◌, arith, Bool, true, false,
  List, take, drop, if◌then◌else◌, ◌==◌, Bool-cases, inl, inr,
}
use Prim.Native.Nat.{bit_or}
use native.Mathlib.Nat.{
  pow-le-pow_right, mul-add-div_right, div-add-mod, mod-lt, pow-suc, mul-le-mul_right,
  div-lt_iff_lt-mul, div-eq_of_lt, mul-add-mod_self_right, mod-eq_of_lt,
}
use m_toolkit.Base.Bits.{bit_or_mask, two_pow_pos}
use m_toolkit.Utilities.Net.{
  CLibrary, one_address, two_addresses, prefix, form_of, not_a_mask, not32, net_mask, shift_left32,
  as_host_byte, answer, as_host_byte_range,
}

-- The ones behind the mask.
not32-net_mask : (mask : ℕ) → mask ≤ 32 → not32 (net_mask mask) ≡ 2 ^ (32 - mask) - 1
not32-net_mask mask small =
    let some_there = two_pow_pos (32 - mask) in
    let few : 2 ^ (32 - mask) ≤ 2 ^ 32 =
      pow-le-pow_right {n = 2} (omega arith) {j = 32} (omega arith) in
    elim (Bool-cases (mask == 0)) [
      | inl nothing ↦
          let none : mask ≡ 0 = ground arith in
          ap (λ m. not32 (net_mask m)) none ∙ ap (λ m. 2 ^ (32 - m) - 1) (sym none)
      | inr some_bits ↦
          ap (λ b. not32 (if b then 0 else shift_left32 0xFFFFFFFF (32 - mask))) some_bits
          ∙ (omega arith)
    ]

-- The branches of `a/m`.
abbrev by_mask : CLibrary → List ℕ → (pos head tail : ℕ) → Bool × ℕ × ℕ
by_mask c value pos head tail =
    let mask = c.strtol (drop (pos + 1) value) in
    let first = as_host_byte c (take pos value) in
    if not_a_mask mask
    then (false, head, tail)
    else answer first (bit_or first (not32 (net_mask mask)))

masked :
    (c : CLibrary) (value : List ℕ) (pos head tail : ℕ)
    → form_of value ≡ prefix pos
    → as_host_byte_range c value head tail ≡ by_mask c value pos head tail
unfolding as_host_byte_range
masked c value pos head tail h =
    ap
      (λ form. elim form [
        | one_address ↦ answer (as_host_byte c value) (as_host_byte c value)
        | two_addresses pos ↦
            answer (as_host_byte c (take pos value)) (as_host_byte c (drop (pos + 1) value))
        | prefix pos ↦ by_mask c value pos head tail
      ])
      h

two_pow-add : (k j : ℕ) → 2 ^ k * 2 ^ j ≡ 2 ^ (k + j)
two_pow-add k zero =
    let same : k + 0 ≡ k = omega arith in
    let one : 2 ^ k * 1 ≡ 2 ^ k = omega arith in one ∙ ap (λ n. 2 ^ n) (sym same)
two_pow-add k (suc j) =
    let l = two_pow-add k j in
    let e = pow-suc 2 j in
    let e' = pow-suc 2 (k + j) in
    let more : 2 ^ k * 2 ^ suc j ≡ 2 ^ k * 2 ^ j * 2 = grind arith in
    let same : suc (k + j) ≡ k + suc j = omega arith in
    more ∙ ap (λ n. n * 2) l ∙ sym e' ∙ ap (λ n. 2 ^ n) same

-- The last address of the block of `first`, where a block holds 2^k addresses.
block_end :
    (k first : ℕ)
    → k ≤ 32
    → first < 2 ^ 32
    → let last = bit_or first (2 ^ k - 1) in
      (first ≤ last) × (last < 2 ^ 32) × (last / 2 ^ k ≡ first / 2 ^ k) × (last % 2 ^ k ≡ 2 ^ k - 1)
block_end k first small fits =
    let some_there = two_pow_pos k in
    let q = first / 2 ^ k in
    let split = div-add-mod first (2 ^ k) in
    let low = mod-lt first some_there in
    let whole : 2 ^ k * 2 ^ (32 - k) ≡ 2 ^ 32 =
      (let all : k + (32 - k) ≡ 32 = omega arith in two_pow-add k (32 - k) ∙ ap (λ n. 2 ^ n) all) in
    let few : q < 2 ^ (32 - k) = (div-lt_iff_lt-mul some_there).1 (omega arith) in
    rw (bit_or_mask k first) (
      omega arith,
      (let room = mul-le-mul_right (2 ^ k) few in grind arith),
      mul-add-div_right some_there q (2 ^ k - 1)
          ∙ ap (λ n. q + n) (div-eq_of_lt (omega arith))
          ∙ (omega arith),
      mul-add-mod_self_right q (2 ^ k) (2 ^ k - 1) ∙ mod-eq_of_lt (omega arith),
    )

-- The range of `a/m`, for a mask of at most 32: it starts at the address a itself, whatever its low
-- bits, and ends with the last address of the block of a, those that have its first m bits. Another
-- mask is refused, and the arguments keep what they held.
pub as_host_byte_range-block :
    (c : CLibrary) (value : List ℕ) (pos head tail : ℕ)
    → form_of value ≡ prefix pos
    → as_host_byte c (take pos value) < 2 ^ 32
    → let mask = c.strtol (drop (pos + 1) value) in
      let first = as_host_byte c (take pos value) in
      let size = 2 ^ (32 - mask) in
      (mask ≤ 32
        → (last : ℕ) × (as_host_byte_range c value head tail ≡ (true, first, last))
          × (first ≤ last)
          × (last < 2 ^ 32)
          × (last / size ≡ first / size)
          × (last % size ≡ size - 1))
      × (32 < mask → as_host_byte_range c value head tail ≡ (false, head, tail))
as_host_byte_range-block c value pos head tail h fits =
    let mask = c.strtol (drop (pos + 1) value) in
    let first = as_host_byte c (take pos value) in
    (
      λ small.
          let (above, below, block, end) = block_end (32 - mask) first (omega arith) fits in
          let accepted : not_a_mask mask ≡ false = ground arith in
          (
            bit_or first (2 ^ (32 - mask) - 1),
            masked c value pos head tail h
                ∙ ap
                    (λ b.
                      if b
                      then (false, head, tail)
                      else answer first (bit_or first (not32 (net_mask mask))))
                    accepted
                ∙ ap (λ ones. answer first (bit_or first ones)) (not32-net_mask mask small)
                ∙ ap (λ b. (b, first, bit_or first (2 ^ (32 - mask) - 1))) (ground (arith, above)),
            above,
            below,
            block,
            end,
          ),
      λ large.
          let refused : not_a_mask mask ≡ true = ground arith in
          masked c value pos head tail h
          ∙ ap
              (λ b.
                if b
                then (false, head, tail)
                else answer first (bit_or first (not32 (net_mask mask))))
              refused,
    )
