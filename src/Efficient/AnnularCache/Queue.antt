-- ===== src/Efficient/AnnularCache/Queue.antt =====
-- The copies as operations on the queue of waiting bytes.
use native.Mathlib.Decide.{dec_lt}
use m_toolkit.Base.{
  ℕ, ◌+◌, ◌-◌, ◌≤◌, ◌<◌, ◌≡◌, sym, ap, ◌∙◌, List, ◌++◌, arith, min, length, get_or, take, drop,
  length-append, length-take, length-drop, get_or-append_left, get_or-drop, get_or-take,
  eq_of_get_or,
}
use m_toolkit.Efficient.AnnularCache.Spec.{rotate}
use m_toolkit.Efficient.AnnularCache.Copy.{copy_in, length-copy_in, kept, added}
use m_toolkit.Efficient.AnnularCache.Ring.{get_or-append_past, place, length-rotate, get_or-rotate}

-- The first `n` bytes of the queue, by position.
module _ (xs : List ℕ) (a n : ℕ) (ha : a < length xs) (few : n ≤ length xs) where
  pub length-front : length (take n (rotate a xs)) ≡ n
  length-front = omega (arith, length-take n (rotate a xs), length-rotate a xs)

  pub get_or-front :
      (i : ℕ) → i < n → get_or (take n (rotate a xs)) i 0 ≡ get_or xs (place (length xs) a i) 0
  get_or-front i h =
      get_or-take n (rotate a xs) i 0 h ∙ get_or-rotate a xs i (omega arith) (omega arith)

-- `Push` puts its bytes at the back.
pub take-copy_in :
    (xs src : List ℕ) (a cnt b l : ℕ)
    → a < length xs
    → cnt + length src ≤ length xs
    → b ≡ place (length xs) a cnt
    → l ≡ min (length src) (length xs - b)
    → take (cnt + length src) (rotate a (copy_in xs b l src)) ≡ take cnt (rotate a xs) ++ src
take-copy_in xs src a cnt b l ha room hb hl = eq_of_get_or after (front ++ src) 0 lengths same
  where
    ys : List ℕ
    ys = copy_in xs b l src

    front : List ℕ
    front = take cnt (rotate a xs)

    after : List ℕ
    after = take (cnt + length src) (rotate a ys)

    len : length ys ≡ length xs
    len = length-copy_in xs src a cnt b l ha room hb hl

    len_front : length front ≡ cnt
    len_front = length-front xs a cnt ha (omega arith)

    len_after : length after ≡ cnt + length src
    len_after = length-front ys a (cnt + length src) (omega (arith, len)) (omega (arith, len))

    lengths : length after ≡ length (front ++ src)
    lengths = omega (arith, length-append front src, len_front, len_after)

    read : (i : ℕ) → i < cnt + length src → get_or after i 0 ≡ get_or ys (place (length xs) a i) 0
    read i h =
        get_or-front ys a (cnt + length src) (omega (arith, len)) (omega (arith, len)) i h
        ∙ ap (λ n. get_or ys (place n a i) 0) len

    same : (i : ℕ) → i < length after → get_or after i 0 ≡ get_or (front ++ src) i 0
    same i h = elim (dec_lt i cnt) [
      | yes old ↦
          read i (omega (arith, len_after))
          ∙ kept xs src a cnt b l ha room hb hl i old
          ∙ sym (get_or-front xs a cnt ha (omega arith) i old)
          ∙ sym (get_or-append_left front src i 0 (omega (arith, len_front)))
      | no new ↦
          let k : i ≡ cnt + (i - cnt) = omega arith in
          read i (omega (arith, len_after))
          ∙ ap (λ j. get_or ys (place (length xs) a j) 0) k
          ∙ added xs src a cnt b l ha room hb hl (i - cnt) (omega (arith, len_after))
          ∙ ap (λ n. get_or src (i - n) 0) (sym len_front)
          ∙ sym (get_or-append_past front src i (omega (arith, len_front)))
    ]

-- `Pop` takes bytes off the front.
pub take-rotate-place :
    (xs : List ℕ) (a cnt n : ℕ)
    → a < length xs
    → n ≤ cnt
    → cnt ≤ length xs
    → take (cnt - n) (rotate (place (length xs) a n) xs) ≡ drop n (take cnt (rotate a xs))
take-rotate-place xs a cnt n ha few room = eq_of_get_or rest (drop n front) 0 lengths same
  where
    b : ℕ
    b = place (length xs) a n

    hb : b < length xs
    hb = ground arith

    rest : List ℕ
    rest = take (cnt - n) (rotate b xs)

    front : List ℕ
    front = take cnt (rotate a xs)

    len_rest : length rest ≡ cnt - n
    len_rest = length-front xs b (cnt - n) hb (omega arith)

    lengths : length rest ≡ length (drop n front)
    lengths = omega (arith, len_rest, length-drop n front, length-front xs a cnt ha room)

    same : (i : ℕ) → i < length rest → get_or rest i 0 ≡ get_or (drop n front) i 0
    same i h =
        let p : place (length xs) b i ≡ place (length xs) a (n + i) = ground (arith, len_rest) in
        get_or-front xs b (cnt - n) hb (omega arith) i (omega (arith, len_rest))
        ∙ ap (λ j. get_or xs j 0) p
        ∙ sym (get_or-front xs a cnt ha room (n + i) (omega (arith, len_rest)))
        ∙ sym (get_or-drop n front i 0)
