-- ===== src/LockContainer/LockMap.antt =====
-- toolkit/source/lock_container/lock_map.h: `LockMap`, as the entries of the std::map under its lock, in
-- the order of their keys, which are numbers here.
pub mod Laws
pub mod Entries
use m_toolkit.Base.{
  ℕ, Bool, true, false, not, Option, none, some, List, [], ◌∷◌, length, ltb, ◌==◌, if◌then◌else◌,
}
use m_toolkit.Base.Maps.{find, erase}

module _ {V : Type 0} where
  unfoldable pub insert : ℕ → V → List (ℕ × V) → List (ℕ × V)
  insert key value [] = (key, value) ∷ []
  insert key value ((j, w) ∷ m) =
      if ltb key j
      then (key, value) ∷ (j, w) ∷ m
      else (if key == j then (j, w) ∷ m else (j, w) ∷ insert key value m)

  -- `operator[]`: the map and the value that it refers to; `fresh` is a value made by default.
  unfoldable pub at_key : (fresh : V) → ℕ → List (ℕ × V) → List (ℕ × V) × V
  at_key fresh key m = elim (find key m) [
    | none ↦ (insert key fresh m, fresh)
    | some value ↦ (m, value)
  ]

  unfoldable pub is_exist : ℕ → List (ℕ × V) → Bool
  is_exist key m = elim (find key m) [ none ↦ false | some value ↦ true ]

  unfoldable pub remove_entries : (ℕ × V → Bool) → List (ℕ × V) → List (ℕ × V)
  remove_entries p [] = []
  remove_entries p ((j, w) ∷ m) =
      if p (j, w) then remove_entries p m else (j, w) ∷ remove_entries p m

  unfoldable pub remove_key : ℕ → List (ℕ × V) → Bool × List (ℕ × V)
  remove_key key m = (is_exist key m, erase key m)

  -- What `ForEach` calls its argument on.
  abbrev pub entries : List (ℕ × V) → List (ℕ × V)
  entries m = m

  abbrev pub count_entries : List (ℕ × V) → ℕ
  count_entries m = length m

  -- What `ForEach` leaves where its argument changes the objects that the entries refer to.
  abbrev pub change_all : (ℕ → V → V) → List (ℕ × V) → List (ℕ × V)
  change_all f [] = []
  change_all f ((j, w) ∷ m) = (j, f j w) ∷ change_all f m
