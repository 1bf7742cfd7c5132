-- ===== src/Utilities/Filesystem/Removal.antt =====
-- `Remove` of a path with what is below it. The calls of the system are parameters.
pub mod Traces
pub mod Below
use m_toolkit.Base.{
  ℕ, zero, suc, ◌+◌, ◌-◌, Bool, true, false, ◌&&◌, Option, none, some, List, [], ◌∷◌, ◌++◌, ◌==◌,
  if◌then◌else◌,
}
use m_toolkit.Utilities.Filesystem.{slash}

-- `'.'`
abbrev pub dot : ℕ
dot = 46

-- `stat` says whether a path is a directory, `none` if it fails; `opendir` gives the names that readdir
-- reads, `none` if it fails; `remove` is the one of stdio.
pub record RemovalCalls (S : Type 0) : Type 0 where
  pub access : List ℕ → S → Bool
  pub stat : List ℕ → S → Option Bool
  pub opendir : List ℕ → S → Option (List (List ℕ))
  pub remove : List ℕ → S → Bool × S

-- The answer, the state that is left, and the calls of remove with their answers, oldest first.
abbrev pub Outcome : Type 0 → Type 0
Outcome S = Bool × S × List (List ℕ × Bool)

-- `d_name[0] != '.'` fails.
abbrev pub hidden : List ℕ → Bool
hidden [] = false
hidden (c ∷ name) = c == dot

abbrev pub ends_with_slash : List ℕ → Bool
ends_with_slash [] = false
ends_with_slash (c ∷ []) = c == slash
ends_with_slash (c ∷ d ∷ path) = ends_with_slash (d ∷ path)

unfoldable pub value : (path name : List ℕ) → List ℕ
value path name = if ends_with_slash path then path ++ name else path ++ slash ∷ name

-- An early return of false, or what follows.
abbrev pub after : {S : Type 0} → List (List ℕ × Bool) → Option (Outcome S) → Option (Outcome S)
after trace none = none
after trace (some (ok, s, later)) = some (ok, s, trace ++ later)

abbrev pub and_then :
    {S : Type 0} → Option (Outcome S) → (S → Option (Outcome S)) → Option (Outcome S)
and_then none next = none
and_then (some (false, s, trace)) next = some (false, s, trace)
and_then (some (true, s, trace)) next = after trace (next s)

module _ {S : Type 0} (calls : RemovalCalls S) where
  unfoldable pub is_directory : List ℕ → S → Bool
  is_directory path s =
      if calls.access path s
      then elim (calls.stat path s) [ none ↦ false | some is_dir ↦ is_dir ]
      else false

  unfoldable pub unlink : List ℕ → S → Option (Outcome S)
  unlink path s = let (ok, s) = calls.remove path s in some (ok, s, (path, ok) ∷ [])

  -- The loop over the names of a directory, with the call of Remove in it.
  unfoldable pub remove_names :
      (List ℕ → S → Option (Outcome S))
      → (path : List ℕ) → (names : List (List ℕ)) → S
      → Option (Outcome S)
  remove_names recurse path [] s = some (true, s, [])
  remove_names recurse path (name ∷ names) s =
      if hidden name
      then remove_names recurse path names s
      else and_then
          (if is_directory (value path name) s
            then recurse (value path name) s
            else unlink (value path name) s)
          (λ s. remove_names recurse path names s)

  unfoldable pub remove : (fuel : ℕ) → (path : List ℕ) → S → Option (Outcome S)
  remove zero path s = none
  remove (suc fuel) path s =
      if is_directory path s
      then elim (calls.opendir path s) [
        | none ↦ some (false, s, [])
        | some names ↦
            and_then (remove_names (λ path s. remove fuel path s) path names s) (λ s. unlink path s)
      ]
      else unlink path s
