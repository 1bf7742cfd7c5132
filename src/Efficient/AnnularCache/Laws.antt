-- ===== src/Efficient/AnnularCache/Laws.antt =====
-- `Push` and `Pop` refine a bounded queue of bytes, through any wrap of the 32-bit positions.
use native.Mathlib.Nat.{pow-le-pow_right, mod-lt}
use m_toolkit.Base.{
  ℕ, ◌+◌, ◌-◌, ◌%◌, ◌^◌, ◌≤◌, ◌<◌, ◌≡◌, refl, sym, ap, ◌∙◌, List, ◌++◌, arith, min, length, take,
  drop, length-take, take-take, drop-take, add32, sub32,
}
use mathlib.Core.Path.{ap₂}
use m_toolkit.Base.Bits.{two_pow_pos, bit_and_mask}
use m_toolkit.Efficient.AnnularCache.{AnnularCache, index, push, pop, compare_min, memcpy}
use m_toolkit.Efficient.AnnularCache.Copy.{copy_in, length-copy_in}
use m_toolkit.Efficient.AnnularCache.Drain.{copy_out, copy_out_lem}
use m_toolkit.Efficient.AnnularCache.Positions.{place-add32}
use m_toolkit.Efficient.AnnularCache.Queue.{take-copy_in, take-rotate-place}
use m_toolkit.Efficient.AnnularCache.Ring.{place, length-rotate}
use m_toolkit.Efficient.AnnularCache.Spec.{IsValid, count, rotate, contents}

module _ (c : AnnularCache) (v : IsValid c) where
  open v use {exponent, is_power, fits, filled, w_word, r_word, bounded}

  size_pos : 0 < c.size
  size_pos = rw is_power (two_pow_pos exponent)

  size_word : c.size ≤ 2 ^ 31
  size_word =
      rw is_power (pow-le-pow_right {n = 2} (omega arith) {i = exponent} {j = 31} (omega arith))

  index-eq-mod : (p : ℕ) → index c p ≡ p % c.size
  index-eq-mod p =
      let mask : sub32 c.size 1 ≡ c.size - 1 = omega (arith, size_pos, size_word) in
      rw mask (rw is_power (bit_and_mask exponent p))

  length-contents : length (contents c) ≡ count c
  length-contents = omega (
    arith,
    length-take (count c) (rotate (c.r % c.size) c.cache),
    length-rotate (c.r % c.size) c.cache,
  )

  r_place : c.r % c.size < length c.cache
  r_place = rw filled (mod-lt c.r size_pos)

  w_place : c.w % c.size ≡ place (length c.cache) (c.r % c.size) (count c)
  w_place =
      let total : add32 c.r (count c) ≡ c.w = omega arith in
      rw filled (
        rw is_power (
          ap (λ t. t % 2 ^ exponent) (sym total)
          ∙ place-add32 exponent c.r (count c) fits (rw is_power at bounded)))

  -- How many bytes a call takes or gives.
  abbrev pushed : ℕ → ℕ
  pushed len = min len (c.size - count c)

  abbrev popped : ℕ → ℕ
  popped len = min len (count c)

  -- The bytes that go before the end of the ring.
  abbrev up_to_end : ℕ → ℕ → ℕ
  up_to_end position n = min n (length c.cache - position % c.size)

  push-eq :
      (bytes : List ℕ) (len : ℕ)
      → len ≤ length bytes
      → push c bytes len ≡ (
        record c {
          cache =
              copy_in c.cache (c.w % c.size) (up_to_end c.w (pushed len)) (take (pushed len) bytes);
          w = add32 c.w (pushed len);
        },
        pushed len,
      )
  unfolding push
  push-eq bytes len h =
      let few : compare_min len (sub32 c.size (sub32 c.w c.r)) ≡ pushed len =
        ground (arith, size_word) in
      let n = pushed len in
      let at = c.w % c.size in
      let l = up_to_end c.w n in
      let below = mod-lt c.w size_pos in
      let here : compare_min n (sub32 c.size at) ≡ l = ground (arith, size_word, below) in
      let result : ℕ → ℕ → ℕ → AnnularCache × ℕ = λ n l at. (
        record c {
          cache = memcpy (memcpy c.cache at (take l bytes)) 0 (take (sub32 n l) (drop l bytes));
          w = add32 c.w n;
        },
        n,
      ) in
      let inner : take l bytes ≡ take l (take n bytes) = sym (take-take l n bytes (omega arith)) in
      let left : sub32 n l ≡ n - l = omega (arith, size_word) in
      let rest : take (sub32 n l) (drop l bytes) ≡ drop l (take n bytes) =
        ap (λ m. take m (drop l bytes)) left ∙ sym (drop-take l n bytes) in
      ap (λ n. result n (compare_min n (sub32 c.size (index c c.w))) (index c c.w)) few
      ∙ ap (λ at. result n (compare_min n (sub32 c.size at)) at) (index-eq-mod c.w)
      ∙ ap (λ l. result n l at) here
      ∙ ap₂
          (λ p q.
            let copied = memcpy (memcpy c.cache at p) 0 q in
            (record c { cache = copied; w = add32 c.w n }, n))
          inner rest

  -- `Push` takes as many bytes as there is room for, up to `len`, says how many, and puts them
  -- behind the bytes that wait; the ring stays well-formed.
  pub push-contents :
      (bytes : List ℕ) (len : ℕ)
      → len ≤ length bytes
      → ((push c bytes len).1 ≡ min len (c.size - length (contents c)))
        × (contents (push c bytes len).0
            ≡ contents c ++ take (min len (c.size - length (contents c))) bytes)
        × IsValid (push c bytes len).0
  push-contents bytes len h =
      let n = pushed len in
      let b = c.w % c.size in
      let l = up_to_end c.w n in
      let src = take n bytes in
      let len_src : length src ≡ n = omega (arith, length-take n bytes) in
      let room : count c + length src ≤ length c.cache = omega (arith, len_src, size_word) in
      let split : l ≡ min (length src) (length c.cache - b) = omega (arith, len_src) in
      let kept =
        length-copy_in c.cache src (c.r % c.size) (count c) b l r_place room w_place split in
      let queue =
        take-copy_in c.cache src (c.r % c.size) (count c) b l r_place room w_place split in
      let more : sub32 (add32 c.w n) c.r ≡ count c + n = omega (arith, size_word) in
      let all_waiting : sub32 (add32 c.w n) c.r ≡ count c + length src =
        omega (arith, more, len_src) in
      rw (push-eq bytes len h, length-contents)
        (
          refl,
          ap (λ m. take m (rotate (c.r % c.size) (copy_in c.cache b l src))) all_waiting ∙ queue,
          record {
            exponent = exponent;
            is_power = is_power;
            fits = fits;
            filled = kept ∙ filled;
            w_word = omega arith;
            r_word = r_word;
            bounded = omega (arith, more);
          },
        )

  pop-eq :
      (buffer : List ℕ) (len : ℕ)
      → len ≤ length buffer
      → pop c buffer len ≡ (
        record c { r = add32 c.r (popped len) },
        (
          copy_out buffer c.cache (c.r % c.size) (popped len) (up_to_end c.r (popped len)),
          popped len,
        ),
      )
  unfolding pop
  pop-eq buffer len h =
      let few : compare_min len (sub32 c.w c.r) ≡ popped len = ground arith in
      let n = popped len in
      let at = c.r % c.size in
      let l = up_to_end c.r n in
      let below = mod-lt c.r size_pos in
      let here : compare_min n (sub32 c.size at) ≡ l = ground (arith, size_word, below) in
      let left : sub32 n l ≡ n - l = omega (arith, size_word) in
      let result : ℕ → ℕ → ℕ → ℕ → AnnularCache × (List ℕ × ℕ) = λ n l m at. (
        record c { r = add32 c.r n },
        (memcpy (memcpy buffer 0 (take l (drop at c.cache))) l (take m c.cache), n),
      ) in
      ap
        (λ n.
          let l = compare_min n (sub32 c.size (index c c.r)) in
          result n l (sub32 n l) (index c c.r))
        few
      ∙ ap (λ at. let l = compare_min n (sub32 c.size at) in result n l (sub32 n l) at)
          (index-eq-mod c.r)
      ∙ ap (λ l. result n l (sub32 n l) at) here
      ∙ ap (λ m. result n l m at) left

  -- `Pop` gives as many of the waiting bytes as there are, up to `len`, says how many, and writes
  -- them to the front of the buffer, oldest first; the later ones go on waiting, and the ring stays
  -- well-formed.
  pub pop-contents :
      (buffer : List ℕ) (len : ℕ)
      → len ≤ length buffer
      → ((pop c buffer len).1.1 ≡ min len (length (contents c)))
        × ((pop c buffer len).1.0
            ≡ take (min len (length (contents c))) (contents c)
              ++ drop (min len (length (contents c))) buffer)
        × (contents (pop c buffer len).0 ≡ drop (min len (length (contents c))) (contents c))
        × IsValid (pop c buffer len).0
  pop-contents buffer len h =
      let n = popped len in
      let a = c.r % c.size in
      let l = up_to_end c.r n in
      let out =
        copy_out_lem buffer c.cache a n l r_place (omega (arith, size_word)) (omega arith) refl in
      let fewer : n ≤ count c = omega arith in
      let front = take-take n (count c) (rotate a c.cache) fewer in
      let rest = take-rotate-place c.cache a (count c) n r_place fewer (omega (arith, size_word)) in
      let gone : sub32 c.w (add32 c.r n) ≡ count c - n = omega (arith, size_word) in
      let next : add32 c.r n % c.size ≡ place (length c.cache) a n =
        let small : n ≤ 2 ^ exponent = omega (arith, is_power) in
        rw filled (rw is_power (place-add32 exponent c.r n fits small)) in
      rw (pop-eq buffer len h, length-contents)
        (
          refl,
          out ∙ ap (λ xs. xs ++ drop n buffer) (sym front),
          ap₂ (λ m b. take m (rotate b c.cache)) gone next ∙ rest,
          record {
            exponent = exponent;
            is_power = is_power;
            fits = fits;
            filled = filled;
            w_word = w_word;
            r_word = omega arith;
            bounded = omega (arith, gone);
          },
        )
