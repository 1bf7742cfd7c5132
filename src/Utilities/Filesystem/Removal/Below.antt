-- ===== src/Utilities/Filesystem/Removal/Below.antt =====
-- What `Remove` removes.
use m_toolkit.Base.{
  ℕ, zero, suc, ◌+◌, ◌<◌, ◌≤◌, ◌≡◌, refl, ap, arith, Bool, true, false, Option, none, some, List,
  [], ◌∷◌, ◌++◌, if◌then◌else◌, length,
}
use m_toolkit.Utilities.Filesystem.Removal.{
  RemovalCalls, Outcome, hidden, value, and_then, is_directory, unlink, remove_names, remove,
}
use m_toolkit.Utilities.Filesystem.Removal.Traces.{
  itself, Within, length-value, Good, Ends, and_then-Good, Good-value, and_then-Ends,
}

abbrev pub Named : List (List ℕ) → Type 0
Named [] = Unit
Named (name ∷ names) = (0 < length name) × Named names

-- POSIX: a name is not empty, and a path of path_max bytes or more is no directory.
pub record Documented {S : Type 0} (calls : RemovalCalls S) (path_max : ℕ) : Type 0 where
  pub named :
      (path : List ℕ) (s : S) (names : List (List ℕ))
      → calls.opendir path s ≡ some names
      → Named names
  pub bounded : (path : List ℕ) (s : S) → calls.stat path s ≡ some true → length path < path_max

module _ {S : Type 0} (calls : RemovalCalls S) where
  unlink-Good : (path : List ℕ) (s : S) → Good path (unlink calls path s)
  unfolding unlink
  unlink-Good path s = (itself path, (λ e. e), tt)

  unlink-Ends : (path : List ℕ) (s : S) → Ends path (unlink calls path s)
  unfolding unlink
  unlink-Ends path s = λ yes. ([], ap (λ b. (path, b) ∷ []) yes)

  remove-Ends : (fuel : ℕ) (path : List ℕ) (s : S) → Ends path (remove calls fuel path s)
  unfolding remove
  remove-Ends zero path s = tt
  remove-Ends (suc fuel) path s = either (is_directory calls path s) (calls.opendir path s)
    where
      either :
          (b : Bool) (listing : Option (List (List ℕ)))
          → Ends path (
              if b
              then elim listing [
                | none ↦ some (false, s, [])
                | some names ↦
                    and_then
                      (remove_names calls (λ path s. remove calls fuel path s) path names s)
                      (λ s. unlink calls path s)
              ]
              else unlink calls path s)
      either true none = λ e. absurd (ground (arith, e))
      either true (some names) =
          and_then-Ends path (remove_names calls (λ path s. remove calls fuel path s) path names s)
            (λ s. unlink calls path s) (λ s. unlink-Ends path s)
      either false listing = unlink-Ends path s

module _ {S : Type 0} (calls : RemovalCalls S) (path_max : ℕ)
    (documented : Documented calls path_max) where
  is_directory-bounded :
      (path : List ℕ) (s : S) → is_directory calls path s ≡ true → length path < path_max
  unfolding is_directory
  is_directory-bounded path s e =
      documented.bounded path s (either (calls.access path s) (calls.stat path s) e)
    where
      either :
          (b : Bool) (o : Option Bool)
          → (if b then elim o [ none ↦ false | some is_dir ↦ is_dir ] else false) ≡ true
          → o ≡ some true
      either true none e = absurd (ground (arith, e))
      either true (some d) e = ap some e
      either false o e = absurd (ground (arith, e))

  remove_names-Good :
      (recurse : List ℕ → S → Option (Outcome S)) (path : List ℕ)
      → ((child : List ℕ) (s : S)
          → length path < length child
          → length child < path_max
          → Good child (recurse child s))
      → (names : List (List ℕ)) (s : S) → Named names
      → Good path (remove_names calls recurse path names s)
  unfolding remove_names
  remove_names-Good recurse path recurses [] s named = tt
  remove_names-Good recurse path recurses (name ∷ names) s (longer, named) =
      either (hidden name) refl (λ s. remove_names-Good recurse path recurses names s named)
    where
      child-Good :
          (b : Bool)
          → is_directory calls (value path name) s ≡ b
          → Good
              (value path name)
              (if b then recurse (value path name) s else unlink calls (value path name) s)
      child-Good true e =
          recurses (value path name) s (length-value path name longer)
            (is_directory-bounded (value path name) s e)
      child-Good false e = unlink-Good calls (value path name) s

      either :
          (b : Bool)
          → hidden name ≡ b
          → ((s : S) → Good path (remove_names calls recurse path names s))
          → Good path (
              if b
              then remove_names calls recurse path names s
              else and_then
                  (if is_directory calls (value path name) s
                    then recurse (value path name) s
                    else unlink calls (value path name) s)
                  (λ s. remove_names calls recurse path names s))
      either true e others = others s
      either false e others =
          and_then-Good path _ (λ s. remove_names calls recurse path names s)
            (Good-value path name _ e (child-Good (is_directory calls (value path name) s) refl))
            others

  remove-Good :
      (fuel : ℕ) (path : List ℕ) (s : S)
      → 0 < fuel
      → path_max ≤ fuel + length path
      → Good path (remove calls fuel path s)
  unfolding remove
  remove-Good zero path s some_fuel enough = absurd (omega arith)
  remove-Good (suc fuel) path s some_fuel enough =
      either (is_directory calls path s) (calls.opendir path s) refl
        (λ child s longer short. remove-Good fuel child s (omega arith) (omega arith))
    where
      either :
          (b : Bool) (listing : Option (List (List ℕ)))
          → calls.opendir path s ≡ listing
          → ((child : List ℕ) (s : S)
              → length path < length child
              → length child < path_max
              → Good child (remove calls fuel child s))
          → Good path (
              if b
              then elim listing [
                | none ↦ some (false, s, [])
                | some names ↦
                    and_then
                      (remove_names calls (λ path s. remove calls fuel path s) path names s)
                      (λ s. unlink calls path s)
              ]
              else unlink calls path s)
      either true none e recurses = tt
      either true (some names) e recurses =
          and_then-Good path _ (λ s. unlink calls path s)
            (remove_names-Good (λ path s. remove calls fuel path s) path recurses names s
              (documented.named path s names e))
            (λ s. unlink-Good calls path s)
      either false listing e recurses = unlink-Good calls path s

  -- If names are not empty and paths of path_max bytes are no directories, Remove ends when it may go
  -- path_max levels down. It removes nothing but the path and what stands below it under names without
  -- a dot in front, and it answers true only if every removal succeeded and the last was of the path.
  pub remove-Within :
      (fuel : ℕ) (path : List ℕ) (s : S)
      → path_max < fuel
      → (ok : Bool) × (s' : S) × (trace : List (List ℕ × Bool)) × (remove calls fuel path s
          ≡ some (ok, s', trace))
        × Within path ok trace
        × (ok ≡ true → (t : List (List ℕ × Bool)) × (trace ≡ t ++ (path, true) ∷ []))
  remove-Within fuel path s enough =
      whole (remove calls fuel path s) refl (remove-Good fuel path s (omega arith) (omega arith))
        (remove-Ends calls fuel path s)
    where
      whole :
          (o : Option (Outcome S))
          → remove calls fuel path s ≡ o
          → Good path o
          → Ends path o
          → (ok : Bool) × (s' : S) × (trace : List (List ℕ × Bool)) × (remove calls fuel path s
              ≡ some (ok, s', trace))
            × Within path ok trace
            × (ok ≡ true → (t : List (List ℕ × Bool)) × (trace ≡ t ++ (path, true) ∷ []))
      whole none same g e = absurd g
      whole (some (ok, s', trace)) same g e = (ok, s', trace, same, g, e)
