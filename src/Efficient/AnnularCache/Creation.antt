-- ===== src/Efficient/AnnularCache/Creation.antt =====
-- What `AnnularCache` makes for a size.
use native.Mathlib.Nat.{pow-suc}
use m_toolkit.Base.{ℕ, ◌*◌, suc, ◌^◌, ◌≤◌, ◌<◌, ◌≡◌, refl, List, [], none, some, arith, length}
use m_toolkit.Efficient.AnnularCache.{AnnularCache, create}
use m_toolkit.Utilities.Math.Bounds.{get_roundup_power_of_two-bounds}
use m_toolkit.Efficient.AnnularCache.Spec.{IsValid, contents}

-- A ring made for a size from 1 to below 2^30 is well-formed and empty, and has room for more than
-- twice the size that was asked for, and at most four times; a size of 2^30 or more has no ring.
create-IsValid :
    (fresh : ℕ → List ℕ) (size : ℕ)
    → ((n : ℕ) → length (fresh n) ≡ n)
    → 0 < size
    → size < 2 ^ 32
    → (size < 2 ^ 30
        → (c : AnnularCache) × (create fresh size ≡ some c)
          × IsValid c
          × (contents c ≡ [])
          × (2 * size < c.size)
          × (c.size ≤ 4 * size))
      × (2 ^ 30 ≤ size → create fresh size ≡ none)
unfolding create
create-IsValid fresh size filled pos word =
    let (small, large) = get_roundup_power_of_two-bounds size pos word in
    (
      λ h.
          let (j, e, low, high, fits) = small h in
          (
            record { w = 0; r = 0; size = 2 ^ suc j; cache = fresh (2 ^ suc j) },
            rw (e, create),
            record {
              exponent = suc j;
              is_power = refl;
              fits = fits;
              filled = filled (2 ^ suc j);
              w_word = omega arith;
              r_word = omega arith;
              bounded = omega arith;
            },
            refl,
            omega (arith, pow-suc 2 j),
            omega (arith, pow-suc 2 j),
          ),
      λ h. rw (large h, create),
    )
