-- ===== src/Efficient/AnnularCache.antt =====
-- toolkit/source/efficient/annularcache.cpp: a byte ring with free-running 32-bit positions.
pub mod Spec
pub mod Ring
pub mod Copy
pub mod Queue
pub mod Drain
pub mod Positions
pub mod Laws
pub mod Creation
use Prim.Native.Nat.{bit_and}
use m_toolkit.Base.{
  ℕ, ◌+◌, ◌-◌, ◌%◌, ◌^◌, ◌<◌, ◌≤◌, ◌≡◌, Option, none, some, List, [], ◌++◌, length, take, drop, ltb,
  if◌then◌else◌, add32, sub32,
}
use m_toolkit.Utilities.Math.{get_roundup_power_of_two}

pub record AnnularCache : Type 0 where
  pub w : ℕ
  pub r : ℕ
  pub size : ℕ
  pub cache : List ℕ

-- `MTOOKIT_COMPARE_MIN(a, b)`.
abbrev pub compare_min : ℕ → ℕ → ℕ
compare_min a b = if ltb b a then b else a

-- `memcpy(dst + at, src, length of src)`.
abbrev pub memcpy : List ℕ → ℕ → List ℕ → List ℕ
memcpy dst at src = take at dst ++ (src ++ drop (at + length src) dst)

-- The constructor. `fresh n` is the memory that `new uint8_t[n]` gives; `none` is the shift that is
-- undefined in `GetRoundupPowerOfTwo`.
pub create : (fresh : ℕ → List ℕ) → ℕ → Option AnnularCache
create fresh size = elim (get_roundup_power_of_two size) [
  | none ↦ none
  | some n ↦ some (record { w = 0; r = 0; size = n; cache = fresh n })
]

-- `_w & (_size - 1)`.
abbrev pub index : AnnularCache → ℕ → ℕ
index c position = bit_and position (sub32 c.size 1)

pub push : AnnularCache → List ℕ → ℕ → AnnularCache × ℕ
push c bytes len =
    let len = compare_min len (sub32 c.size (sub32 c.w c.r)) in
    let l = compare_min len (sub32 c.size (index c c.w)) in
    let cache = memcpy c.cache (index c c.w) (take l bytes) in
    let cache = memcpy cache 0 (take (sub32 len l) (drop l bytes)) in
    (record c { cache = cache; w = add32 c.w len }, len)

-- `buffer` is the caller's memory, which is returned with the bytes copied in.
pub pop : AnnularCache → List ℕ → ℕ → AnnularCache × (List ℕ × ℕ)
pop c buffer len =
    let len = compare_min len (sub32 c.w c.r) in
    let l = compare_min len (sub32 c.size (index c c.r)) in
    let buffer = memcpy buffer 0 (take l (drop (index c c.r) c.cache)) in
    let buffer = memcpy buffer l (take (sub32 len l) c.cache) in
    (record c { r = add32 c.r len }, (buffer, len))

-- The destructor, after which no memory is left.
unfoldable pub destroy : AnnularCache → AnnularCache
destroy c = record { w = 0; r = 0; size = 0; cache = [] }
