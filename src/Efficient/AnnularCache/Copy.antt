-- ===== src/Efficient/AnnularCache/Copy.antt =====
-- The two copies of `Push` and of `Pop`: into the ring behind what waits, and out of its front.
use native.Mathlib.Decide.{dec_lt}
use m_toolkit.Base.{
  ℕ, ◌+◌, ◌-◌, ◌≤◌, ◌<◌, ◌≡◌, ap, ◌∙◌, List, arith, min, length, get_or, take, drop, length-take,
  length-drop, get_or-drop, get_or-take,
}
use m_toolkit.Efficient.AnnularCache.{memcpy}
use m_toolkit.Efficient.AnnularCache.Ring.{
  length-memcpy, get_or-memcpy_in, get_or-memcpy_below, get_or-memcpy_above, place,
}

abbrev pub copy_in : List ℕ → ℕ → ℕ → List ℕ → List ℕ
copy_in xs b l src = memcpy (memcpy xs b (take l src)) 0 (drop l src)

module _ (xs src : List ℕ) (a cnt b l : ℕ) (ha : a < length xs)
    (room : cnt + length src ≤ length xs) (hb : b ≡ place (length xs) a cnt)
    (hl : l ≡ min (length src) (length xs - b)) where
  at_front : b < length xs
  at_front = ground arith

  first_length : length (take l src) ≡ l
  first_length = omega (arith, length-take l src)

  first_fits : b + length (take l src) ≤ length xs
  first_fits = omega (arith, first_length, at_front)

  first : List ℕ
  first = memcpy xs b (take l src)

  length-first : length first ≡ length xs
  unfolding first
  length-first = length-memcpy xs b (take l src) first_fits

  second_fits : 0 + length (drop l src) ≤ length first
  second_fits = omega (arith, length-drop l src, length-first)

  pub length-copy_in : length (copy_in xs b l src) ≡ length xs
  unfolding first
  length-copy_in = length-memcpy first 0 (drop l src) second_fits ∙ length-first

  -- What waits is left alone.
  pub kept :
      (i : ℕ)
      → i < cnt
      → get_or (copy_in xs b l src) (place (length xs) a i) 0 ≡ get_or xs (place (length xs) a i) 0
  unfolding first
  kept i h = elim (dec_lt (place (length xs) a i) b) [
    | yes low ↦
        get_or-memcpy_above first 0 (drop l src) second_fits (place (length xs) a i)
          (ground (arith, length-drop l src))
        ∙ get_or-memcpy_below xs b (take l src) first_fits (place (length xs) a i) low
    | no high ↦
        get_or-memcpy_above first 0 (drop l src) second_fits (place (length xs) a i)
          (ground (arith, length-drop l src))
        ∙ get_or-memcpy_above xs b (take l src) first_fits (place (length xs) a i)
            (ground (arith, first_length))
  ]

  -- The new bytes stand behind it.
  pub added :
      (k : ℕ)
      → k < length src
      → get_or (copy_in xs b l src) (place (length xs) a (cnt + k)) 0 ≡ get_or src k 0
  unfolding first
  added k h = elim (dec_lt k l) [
    | yes straight ↦
        let p : place (length xs) a (cnt + k) ≡ b + k = ground arith in
        ap (λ j. get_or (copy_in xs b l src) j 0) p
        ∙ get_or-memcpy_above first 0 (drop l src) second_fits (b + k)
            (omega (arith, length-drop l src))
        ∙ get_or-memcpy_in xs b (take l src) first_fits (b + k) (omega arith)
            (omega (arith, first_length))
        ∙ ap (λ j. get_or (take l src) j 0) {x = b + k - b} {y = k} (omega arith)
        ∙ get_or-take l src k 0 straight
    | no wrapped ↦
        let p : place (length xs) a (cnt + k) ≡ k - l = ground arith in
        ap (λ j. get_or (copy_in xs b l src) j 0) p
        ∙ get_or-memcpy_in first 0 (drop l src) second_fits (k - l) (omega arith)
            (omega (arith, length-drop l src))
        ∙ get_or-drop l src (k - l - 0) 0
        ∙ ap (λ j. get_or src j 0) {x = l + (k - l - 0)} {y = k} (omega arith)
  ]
