-- ===== src/Efficient/AnnularCache/Ring.antt =====
-- Copies into a list, and a list read in a circle, position by position.
use m_toolkit.Base.{
  ℕ, ◌+◌, ◌-◌, ◌≤◌, ◌<◌, ◌≡◌, ap, ◌∙◌, inl, inr, List, ◌++◌, arith, length, get_or, take, drop,
  length-append, length-take, length-drop, if◌then◌else◌, ltb, get_or-append_left,
  get_or-append_right, get_or-drop, get_or-take, Bool-cases,
}
use m_toolkit.Efficient.AnnularCache.{memcpy}
use m_toolkit.Efficient.AnnularCache.Spec.{rotate}

pub length-memcpy :
    (dst : List ℕ) (at : ℕ) (src : List ℕ)
    → at + length src ≤ length dst
    → length (memcpy dst at src) ≡ length dst
length-memcpy dst at src h = omega (
  arith,
  length-append (take at dst) (src ++ drop (at + length src) dst),
  length-append src (drop (at + length src) dst),
  length-take at dst,
  length-drop (at + length src) dst,
)

-- An index past the first list, by how far past.
pub get_or-append_past :
    (xs ys : List ℕ) (i : ℕ) → length xs ≤ i → get_or (xs ++ ys) i 0 ≡ get_or ys (i - length xs) 0
get_or-append_past xs ys i h =
    let e : i ≡ length xs + (i - length xs) = omega arith in
    ap (λ j. get_or (xs ++ ys) j 0) e ∙ get_or-append_right xs ys (i - length xs) 0

module _ (dst : List ℕ) (at : ℕ) (src : List ℕ) (fits : at + length src ≤ length dst) where
  before : length (take at dst) ≡ at
  before = omega (arith, length-take at dst)

  pub get_or-memcpy_in :
      (i : ℕ)
      → at ≤ i
      → i < at + length src
      → get_or (memcpy dst at src) i 0 ≡ get_or src (i - at) 0
  get_or-memcpy_in i lo hi =
      get_or-append_past (take at dst) (src ++ drop (at + length src) dst) i (omega (arith, before))
      ∙ get_or-append_left src (drop (at + length src) dst) (i - length (take at dst)) 0
          (omega (arith, before))
      ∙ ap (λ n. get_or src (i - n) 0) before

  pub get_or-memcpy_below : (i : ℕ) → i < at → get_or (memcpy dst at src) i 0 ≡ get_or dst i 0
  get_or-memcpy_below i h =
      get_or-append_left (take at dst) (src ++ drop (at + length src) dst) i 0
        (omega (arith, before))
      ∙ get_or-take at dst i 0 h

  pub get_or-memcpy_above :
      (i : ℕ) → at + length src ≤ i → get_or (memcpy dst at src) i 0 ≡ get_or dst i 0
  get_or-memcpy_above i h =
      get_or-append_past (take at dst) (src ++ drop (at + length src) dst) i (omega (arith, before))
      ∙ get_or-append_past src (drop (at + length src) dst) (i - length (take at dst))
          (omega (arith, before))
      ∙ get_or-drop (at + length src) dst (i - length (take at dst) - length src) 0
      ∙ ap (λ j. get_or dst j 0) (omega (arith, before))

-- The place in a ring of `size` that lies `i` after place `a`.
abbrev pub place : ℕ → ℕ → ℕ → ℕ
place size a i = if ltb (a + i) size then a + i else a + i - size

pub length-rotate : (a : ℕ) (xs : List ℕ) → length (rotate a xs) ≡ length xs
length-rotate a xs =
    omega (arith, length-append (drop a xs) (take a xs), length-take a xs, length-drop a xs)

pub get_or-rotate :
    (a : ℕ) (xs : List ℕ) (i : ℕ)
    → a ≤ length xs
    → i < length xs
    → get_or (rotate a xs) i 0 ≡ get_or xs (place (length xs) a i) 0
get_or-rotate a xs i ha hi = elim (Bool-cases (ltb (a + i) (length xs))) [
  | inl near ↦ rw near (
      get_or-append_left (drop a xs) (take a xs) i 0 (ground (arith, length-drop a xs))
      ∙ get_or-drop a xs i 0)
  | inr wrapped ↦ rw wrapped (
      get_or-append_past (drop a xs) (take a xs) i (ground (arith, length-drop a xs))
      ∙ get_or-take a xs (i - length (drop a xs)) 0 (ground (arith, length-drop a xs))
      ∙ ap (λ j. get_or xs j 0) (ground (arith, length-drop a xs)))
]
