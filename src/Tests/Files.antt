-- ===== src/Tests/Files.antt =====
-- toolkit/source/utilities/filesystem.cpp on a small file and a file system that holds names only.
use m_toolkit.Base.{
  ℕ, suc, ap, ◌≡◌, refl, arith, Bool, true, false, ◌&&◌, ◌||◌, none, some, List, [], ◌∷◌, ◌++◌,
  length, ◌==◌, if◌then◌else◌,
}
use m_toolkit.Base.Maps.{has}
use m_toolkit.Utilities.Filesystem.{
  SystemCalls, slash, newline, read_file, create_from, create_directories, create_directory, exists,
  read_lines, getline,
}
use m_toolkit.Utilities.Filesystem.Reading.{ended, Unbroken, kept, read_file-lines}
use mathlib.Core.Path.{subst}
use m_toolkit.Utilities.Filesystem.Removal.{
  RemovalCalls, dot, remove, remove_names, value, unlink, is_directory,
}
use m_toolkit.Utilities.Filesystem.Removal
use m_toolkit.Utilities.Filesystem.Removal.Below.{Named, remove-Within}
use m_toolkit.Utilities.Filesystem.Removal.Traces.{Within}
use m_toolkit.Utilities.Filesystem.Directories.{Documented, create_directories-exists}

-- Two lines, the second without a line break.
abbrev two_lines : List ℕ
two_lines = 97 ∷ newline ∷ 98 ∷ []

read_two_lines : read_file 4 (some two_lines) [] true ≡ some ((97 ∷ []) ∷ [], 1)
unfolding read_file read_lines getline
read_two_lines = refl

read_file-lines_example :
    ((lines : List (List ℕ)) × (last : List ℕ) × (read_file 4 (some two_lines) [] true
        ≡ some ([] ++ kept true lines, length ([] ++ kept true lines)))
      × (ended lines ++ last ≡ two_lines)
      × Unbroken lines
      × (has newline last ≡ false))
    × (read_file 4 none [] true ≡ some ([], 0))
read_file-lines_example = read_file-lines 4 true two_lines [] (omega arith)

-- A directory has one letter as its name, and a path is its letters.
abbrev same : List ℕ → List ℕ → Bool
same [] [] = true
same [] (_ ∷ _) = false
same (_ ∷ _) [] = false
same (a ∷ p) (b ∷ q) = (a == b) && same p q

same_refl : (p : List ℕ) → same p p ≡ true
same_refl [] = refl
same_refl (a ∷ p) = ground (arith, same_refl p)

abbrev there : List ℕ → List (List ℕ) → Bool
there path [] = false
there path (p ∷ made) = same path p || there path made

abbrev make_directory : Bool → List ℕ → List (List ℕ) → Bool × List (List ℕ)
make_directory present path made = if present then (false, made) else (true, path ∷ made)

abbrev named : SystemCalls (List (List ℕ))
named = record { mkdir = λ path made. make_directory (there path made) path made; access = there }

named-Documented : Documented named
named-Documented = record {
  made = λ path s ok. made path s (there path s) ok;
  kept = λ path other s h. kept path other s (there path s) h;
}
  where
    made :
        (path : List ℕ) (s : List (List ℕ)) (b : Bool)
        → (make_directory b path s).0 ≡ true
        → there path (make_directory b path s).1 ≡ true
    made path s true ok = absurd (ground (arith, ok))
    made path s false ok = ground (arith, same_refl path)

    kept :
        (path other : List ℕ) (s : List (List ℕ)) (b : Bool)
        → there other s ≡ true
        → there other (make_directory b path s).1 ≡ true
    kept path other s true h = h
    kept path other s false h = ground (arith, h)

-- `"a/b"`
abbrev a_b : List ℕ
a_b = 97 ∷ slash ∷ 98 ∷ []

a_b-made : (create_directories named a_b []).0 ≡ true
unfolding create_directories create_from create_directory exists
a_b-made = refl

create_directories-exists_example :
    exists named (97 ∷ []) (create_directories named a_b []).1 ≡ true
create_directories-exists_example =
    create_directories-exists named named-Documented a_b [] (97 ∷ []) (slash ∷ 98 ∷ []) refl
      (omega arith) refl a_b-made

-- A directory of one letter that lists itself, its parent and a file. The state counts removals.
abbrev one_file : RemovalCalls ℕ
one_file = record {
  access = λ path s. true;
  stat = λ path s. some (length path == 1);
  opendir = λ path s. some ((dot ∷ []) ∷ (dot ∷ dot ∷ []) ∷ (98 ∷ []) ∷ []);
  remove = λ path s. (true, suc s);
}

one_file-Documented : Removal.Below.Documented one_file 4
one_file-Documented = record {
  named = λ path s names e.
      let same : (dot ∷ []) ∷ (dot ∷ dot ∷ []) ∷ (98 ∷ []) ∷ [] ≡ names =
        ap (λ o. elim o [ none ↦ [] | some l ↦ l ]) e in
      subst Named same (omega arith, (omega arith, (omega arith, tt)));
  bounded = λ path s e.
      let yes_one : (length path == 1) ≡ true = ap (λ o. elim o [ none ↦ false | some b ↦ b ]) e in
      ground arith;
}

remove_one_file :
    remove one_file 5 (97 ∷ []) 0
    ≡ some (true, 2, ((97 ∷ slash ∷ 98 ∷ []), true) ∷ ((97 ∷ []), true) ∷ [])
unfolding remove remove_names value unlink is_directory
remove_one_file = refl

remove-Within_example :
    (ok : Bool) × (s' : ℕ) × (trace : List (List ℕ × Bool)) × (remove one_file 5 (97 ∷ []) 0
      ≡ some (ok, s', trace))
    × Within (97 ∷ []) ok trace
    × (ok ≡ true → (t : List (List ℕ × Bool)) × (trace ≡ t ++ (97 ∷ [], true) ∷ []))
remove-Within_example = remove-Within one_file 4 one_file-Documented 5 (97 ∷ []) 0 (omega arith)
