-- ===== src/Efficient/AnnularCache/Spec.antt =====
-- The abstract view of the ring: the queue of bytes between the two positions.
use m_toolkit.Base.{ℕ, ◌%◌, ◌^◌, ◌<◌, ◌≤◌, ◌≡◌, List, ◌++◌, length, take, drop, sub32}
use m_toolkit.Efficient.AnnularCache.{AnnularCache}

-- The size is a power of two that a 32-bit word holds, and no more bytes wait than it has places.
pub record IsValid (c : AnnularCache) : Type 0 where
  pub exponent : ℕ
  pub is_power : c.size ≡ 2 ^ exponent
  pub fits : exponent < 32
  pub filled : length c.cache ≡ c.size
  pub w_word : c.w < 2 ^ 32
  pub r_word : c.r < 2 ^ 32
  pub bounded : sub32 c.w c.r ≤ c.size

abbrev pub count : AnnularCache → ℕ
count c = sub32 c.w c.r

-- Oldest byte first: the ring read from the place of `r` on.
abbrev pub rotate : ℕ → List ℕ → List ℕ
rotate at xs = drop at xs ++ take at xs

abbrev pub contents : AnnularCache → List ℕ
contents c = take (count c) (rotate (c.r % c.size) c.cache)
