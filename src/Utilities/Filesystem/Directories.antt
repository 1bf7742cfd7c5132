-- ===== src/Utilities/Filesystem/Directories.antt =====
-- `CreateDirectories` makes every directory on the way.
use m_toolkit.Base.{
  ℕ, ◌+◌, ◌<◌, ◌≡◌, refl, sym, ap, ◌∙◌, arith, true, false, List, [], ◌∷◌, ◌++◌, length, take, ◌==◌,
}
use mathlib.Core.Path.{subst}
use mathlib.Core.List.{append-nil}
use m_toolkit.Utilities.Filesystem.{
  SystemCalls, slash, exists, create_directory, create_from, create_directories,
}
use m_toolkit.Utilities.Filesystem.Outcomes.{
  answer-state, answer-there, checked-keeps, turn-keeps, checked-makes, turn-makes,
  take-length-append,
}

-- What POSIX documents of mkdir: a directory that is made is there, and what is there stays.
pub record Documented {S : Type 0} (calls : SystemCalls S) : Type 0 where
  pub made :
      (path : List ℕ) (s : S)
      → (calls.mkdir path s).0 ≡ true
      → calls.access path (calls.mkdir path s).1 ≡ true
  pub kept :
      (path other : List ℕ) (s : S)
      → calls.access other s ≡ true
      → calls.access other (calls.mkdir path s).1 ≡ true

-- The end of a path, or a slash that more follows.
abbrev pub IsCut : List ℕ → Type 0
IsCut [] = Unit
IsCut (c ∷ []) = ⊥
IsCut (c ∷ d ∷ rest) = c ≡ slash

module _ {S : Type 0} (calls : SystemCalls S) (documented : Documented calls) where
  -- A directory that is made or was there, and all that were there.
  create_directory-exists :
      (path : List ℕ) (s : S)
      → (create_directory calls path s).0 ≡ true
      → exists calls path (create_directory calls path s).1 ≡ true
  unfolding create_directory exists
  create_directory-exists path s ok =
      let (made, after) = calls.mkdir path s in
      ap (λ s. calls.access path s) (answer-state made (calls.access path after) after)
      ∙ answer-there made (calls.access path after) after (documented.made path s) ok

  create_directory-keeps :
      (path other : List ℕ) (s : S)
      → exists calls other s ≡ true
      → exists calls other (create_directory calls path s).1 ≡ true
  unfolding create_directory exists
  create_directory-keeps path other s there =
      let (made, after) = calls.mkdir path s in
      ap (λ s. calls.access other s) (answer-state made (calls.access path after) after)
      ∙ documented.kept path other s there

  create_from-keeps :
      (path : List ℕ) (i : ℕ) (rest other : List ℕ) (s : S)
      → exists calls other s ≡ true
      → exists calls other (create_from calls path i rest s).1 ≡ true
  unfolding create_from
  create_from-keeps path i [] other s there = there
  create_from-keeps path i (c ∷ []) other s there =
      let directory = create_directory calls path s in
      let here = create_directory-keeps path other s there in
      checked-keeps directory (true, directory.1) (λ s. exists calls other s ≡ true) here here
  create_from-keeps path i (c ∷ d ∷ rest) other s there =
      let directory = create_directory calls (take i path) s in
      let here = create_directory-keeps (take i path) other s there in
      turn-keeps (c == slash) (i == 0) directory (create_from calls path (i + 1) (d ∷ rest) s)
        (create_from calls path (i + 1) (d ∷ rest) directory.1) (λ s. exists calls other s ≡ true)
        here (create_from-keeps path (i + 1) (d ∷ rest) other s there)
        (create_from-keeps path (i + 1) (d ∷ rest) other directory.1 here)

  -- What the loop makes from the place `i` on.
  abbrev Made : (path : List ℕ) (i : ℕ) (rest : List ℕ) → S → Type 0
  Made path i [] s = Unit
  Made path i (c ∷ []) s = exists calls path s ≡ true
  Made path i (c ∷ d ∷ rest) s =
      ((c == slash) ≡ true → (i == 0) ≡ false → exists calls (take i path) s ≡ true)
      × Made path (i + 1) (d ∷ rest) s

  create_from-Made :
      (path : List ℕ) (i : ℕ) (rest : List ℕ) (s : S)
      → (create_from calls path i rest s).0 ≡ true
      → Made path i rest (create_from calls path i rest s).1
  unfolding create_from
  create_from-Made path i [] s ok = tt
  create_from-Made path i (c ∷ []) s ok =
      let directory = create_directory calls path s in
      (checked-makes directory (true, directory.1) (λ s. exists calls path s ≡ true) (λ _. Unit)
        (λ made. create_directory-exists path s made) (λ _. tt) ok).0
  create_from-Made path i (c ∷ d ∷ rest) s ok =
      let directory = create_directory calls (take i path) s in
      turn-makes (c == slash) (i == 0) directory (create_from calls path (i + 1) (d ∷ rest) s)
        (create_from calls path (i + 1) (d ∷ rest) directory.1)
        (λ s. exists calls (take i path) s ≡ true) (λ s. Made path (i + 1) (d ∷ rest) s)
        (λ made.
          create_from-keeps path (i + 1) (d ∷ rest) (take i path) directory.1
            (create_directory-exists (take i path) s made))
        (create_from-Made path (i + 1) (d ∷ rest) s)
        (create_from-Made path (i + 1) (d ∷ rest) directory.1) ok

  Made-before :
      (path : List ℕ) (i : ℕ) (before : List ℕ) (d : ℕ) (after : List ℕ) (s : S)
      → Made path i (before ++ slash ∷ d ∷ after) s
      → 0 < i + length before
      → exists calls (take (i + length before) path) s ≡ true
  Made-before path i [] d after s made far =
      subst (λ n. exists calls (take n path) s ≡ true) (omega arith) (made.0 refl (ground arith))
  Made-before path i (b ∷ []) d after s made far =
      subst (λ n. exists calls (take n path) s ≡ true) (omega arith)
        (Made-before path (i + 1) [] d after s made.1 (omega arith))
  Made-before path i (b ∷ c ∷ before) d after s made far =
      subst (λ n. exists calls (take n path) s ≡ true) (omega arith)
        (Made-before path (i + 1) (c ∷ before) d after s made.1 (omega arith))

  Made-whole :
      (path : List ℕ) (i : ℕ) (c : ℕ) (rest : List ℕ) (s : S)
      → Made path i (c ∷ rest) s
      → exists calls path s ≡ true
  Made-whole path i c [] s made = made
  Made-whole path i c (d ∷ rest) s made = Made-whole path (i + 1) d rest s made.1

  -- If a directory that mkdir makes is there and mkdir removes none, then after a `CreateDirectories`
  -- that answered true the path is there, unless it is empty, and so is every part of it that is not
  -- empty and stands before a slash which is not its last character.
  pub create_directories-exists :
      (path : List ℕ) (s : S)
      → (before rest : List ℕ) → path ≡ before ++ rest
      → 0 < length before
      → IsCut rest
      → (create_directories calls path s).0 ≡ true
      → exists calls before (create_directories calls path s).1 ≡ true
  unfolding create_directories
  create_directories-exists path s (b ∷ before) [] parts far cut ok =
      let same : path ≡ b ∷ before = parts ∙ append-nil (b ∷ before) in
      subst
        (λ p.
          (create_from calls p 0 p s).0 ≡ true
          → exists calls (b ∷ before) (create_from calls p 0 p s).1 ≡ true)
        (sym same)
        (λ ok.
          Made-whole (b ∷ before) 0 b before (create_from calls (b ∷ before) 0 (b ∷ before) s).1
            (create_from-Made (b ∷ before) 0 (b ∷ before) s ok))
        ok
  create_directories-exists path s [] [] parts far cut ok = absurd (omega arith)
  create_directories-exists path s before (c ∷ []) parts far cut ok = absurd cut
  create_directories-exists path s before (c ∷ d ∷ after) parts far cut ok =
      let final = (create_from calls path 0 path s).1 in
      let shape : path ≡ before ++ slash ∷ d ∷ after =
        parts ∙ ap (λ c. before ++ c ∷ d ∷ after) cut in
      subst (λ p. exists calls p final ≡ true)
        (ap (λ p. take (0 + length before) p) shape
          ∙ ap (λ n. take n (before ++ slash ∷ d ∷ after)) (omega arith)
          ∙ take-length-append before (slash ∷ d ∷ after))
        (Made-before path 0 before d after final
          (subst (λ rest. Made path 0 rest final) shape (create_from-Made path 0 path s ok))
          (omega arith))
