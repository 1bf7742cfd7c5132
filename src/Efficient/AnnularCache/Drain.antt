-- ===== src/Efficient/AnnularCache/Drain.antt =====
-- The two copies of `Pop`, as what they leave in the caller's buffer.
use native.Mathlib.Decide.{dec_lt}
use m_toolkit.Base.{
  ℕ, ◌+◌, ◌-◌, ◌≤◌, ◌<◌, ◌≡◌, sym, ap, ◌∙◌, List, ◌++◌, arith, min, length, get_or, take, drop,
  length-append, length-take, length-drop, get_or-append_left, get_or-drop, get_or-take,
  eq_of_get_or,
}
use m_toolkit.Efficient.AnnularCache.{memcpy}
use m_toolkit.Efficient.AnnularCache.Spec.{rotate}
use m_toolkit.Efficient.AnnularCache.Queue.{length-front, get_or-front}
use m_toolkit.Efficient.AnnularCache.Ring.{
  length-memcpy, get_or-memcpy_in, get_or-memcpy_below, get_or-memcpy_above, get_or-append_past,
  place,
}

abbrev pub copy_out : List ℕ → List ℕ → ℕ → ℕ → ℕ → List ℕ
copy_out buffer xs a n l = memcpy (memcpy buffer 0 (take l (drop a xs))) l (take (n - l) xs)

module _ (buffer xs : List ℕ) (a n l : ℕ) (ha : a < length xs) (few : n ≤ length xs)
    (wide : n ≤ length buffer) (hl : l ≡ min n (length xs - a)) where
  len_one : length (take l (drop a xs)) ≡ l
  len_one = omega (arith, length-take l (drop a xs), length-drop a xs)

  fits_one : 0 + length (take l (drop a xs)) ≤ length buffer
  fits_one = omega (arith, len_one)

  one : List ℕ
  one = memcpy buffer 0 (take l (drop a xs))

  length-one : length one ≡ length buffer
  unfolding one
  length-one = length-memcpy buffer 0 (take l (drop a xs)) fits_one

  len_two : length (take (n - l) xs) ≡ n - l
  len_two = omega (arith, length-take (n - l) xs)

  fits_two : l + length (take (n - l) xs) ≤ length one
  fits_two = omega (arith, len_two, length-one)

  -- The buffer starts with the first `n` bytes of the queue, and is otherwise as it was.
  pub copy_out_lem : copy_out buffer xs a n l ≡ take n (rotate a xs) ++ drop n buffer
  unfolding one
  copy_out_lem =
      eq_of_get_or (memcpy one l (take (n - l) xs)) (front ++ drop n buffer) 0
        (omega (arith, len, length-append front (drop n buffer), len_front, length-drop n buffer))
        same
    where
      front : List ℕ
      front = take n (rotate a xs)

      len_front : length front ≡ n
      len_front = length-front xs a n ha few

      len : length (memcpy one l (take (n - l) xs)) ≡ length buffer
      len = length-memcpy one l (take (n - l) xs) fits_two ∙ length-one

      in_front :
          (i : ℕ)
          → i < n
          → get_or xs (place (length xs) a i) 0 ≡ get_or (front ++ drop n buffer) i 0
      in_front i h =
          sym (get_or-front xs a n ha few i h)
          ∙ sym (get_or-append_left front (drop n buffer) i 0 (omega (arith, len_front)))

      straight :
          (i : ℕ)
          → i < l
          → get_or (memcpy one l (take (n - l) xs)) i 0 ≡ get_or xs (place (length xs) a i) 0
      straight i h =
          let p : a + (i - 0) ≡ place (length xs) a i = ground arith in
          get_or-memcpy_below one l (take (n - l) xs) fits_two i h
          ∙ get_or-memcpy_in buffer 0 (take l (drop a xs)) fits_one i (omega arith)
              (omega (arith, len_one))
          ∙ get_or-take l (drop a xs) (i - 0) 0 (omega arith)
          ∙ get_or-drop a xs (i - 0) 0
          ∙ ap (λ j. get_or xs j 0) p

      wrapped :
          (i : ℕ)
          → l ≤ i
          → i < n
          → get_or (memcpy one l (take (n - l) xs)) i 0 ≡ get_or xs (place (length xs) a i) 0
      wrapped i lo hi =
          let p : i - l ≡ place (length xs) a i = ground arith in
          get_or-memcpy_in one l (take (n - l) xs) fits_two i lo (omega (arith, len_two))
          ∙ get_or-take (n - l) xs (i - l) 0 (omega arith)
          ∙ ap (λ j. get_or xs j 0) p

      past :
          (i : ℕ)
          → n ≤ i
          → get_or (memcpy one l (take (n - l) xs)) i 0 ≡ get_or (front ++ drop n buffer) i 0
      past i h =
          let p : i ≡ n + (i - length front) = omega (arith, len_front) in
          get_or-memcpy_above one l (take (n - l) xs) fits_two i (omega (arith, len_two))
          ∙ get_or-memcpy_above buffer 0 (take l (drop a xs)) fits_one i (omega (arith, len_one))
          ∙ ap (λ j. get_or buffer j 0) p
          ∙ sym (get_or-drop n buffer (i - length front) 0)
          ∙ sym (get_or-append_past front (drop n buffer) i (omega (arith, len_front)))

      same :
          (i : ℕ)
          → i < length (memcpy one l (take (n - l) xs))
          → get_or (memcpy one l (take (n - l) xs)) i 0 ≡ get_or (front ++ drop n buffer) i 0
      same i h = elim (dec_lt i l) [
        | yes p ↦ straight i p ∙ in_front i (omega arith)
        | no p ↦ elim (dec_lt i n) [
          | yes q ↦ wrapped i (omega arith) q ∙ in_front i q
          | no q ↦ past i (omega arith)
        ]
      ]
