-- ===== src/Utilities/Filesystem/Reading.antt =====
-- `ReadFile` gives the lines that a line break ends.
use m_toolkit.Base.{
  ℕ, zero, suc, ◌<◌, ◌≡◌, refl, sym, ap, ◌∙◌, arith, Bool, true, false, not, ◌||◌, Option, none,
  some, List, [], ◌∷◌, ◌++◌, length, ◌==◌, if◌then◌else◌, Bool-cases, inl, inr,
}
use mathlib.Core.List.{append_assoc, append-nil}
use mathlib.Core.Path.{subst}
use m_toolkit.Base.Maps.{has}
use m_toolkit.Utilities.Filesystem.{newline, empty, getline, read_lines, read_file}

-- The lines with a line break behind each.
abbrev pub ended : List (List ℕ) → List ℕ
ended [] = []
ended (l ∷ lines) = l ++ newline ∷ ended lines

-- No line holds a line break.
abbrev pub Unbroken : List (List ℕ) → Type 0
Unbroken [] = Unit
Unbroken (l ∷ lines) = (has newline l ≡ false) × Unbroken lines

abbrev pub kept : (keep_empty : Bool) → List (List ℕ) → List (List ℕ)
kept keep_empty [] = []
kept keep_empty (l ∷ lines) =
    if keep_empty || not (empty l) then l ∷ kept keep_empty lines else kept keep_empty lines

-- A line that a line break ends, or the last.
pub record Line (file line left : List ℕ) (good : Bool) : Type 0 where
  pub unbroken : has newline line ≡ false
  pub whole : good ≡ true → file ≡ line ++ newline ∷ left
  pub shorter : good ≡ true → length left < length file
  pub last : good ≡ false → file ≡ line

abbrev LineOf : List ℕ → List ℕ × List ℕ × Bool → Type 0
LineOf file read = let (line, left, good) = read in Line file line left good

longer :
    (c : ℕ) (rest : List ℕ) (read : List ℕ × List ℕ × Bool)
    → (c == newline) ≡ false
    → LineOf rest read
    → let (line, left, good) = read in Line (c ∷ rest) (c ∷ line) left good
longer c rest (line, left, good) other l = record {
  unbroken = ap (λ t. t || has newline line) (flipped c other) ∙ l.unbroken;
  whole = λ g. ap (λ file. c ∷ file) (l.whole g);
  shorter = λ g. let less = l.shorter g in omega arith;
  last = λ g. ap (λ file. c ∷ file) (l.last g);
}
  where
    flipped : (c : ℕ) → (c == newline) ≡ false → (newline == c) ≡ false
    flipped c other = ground arith

getline-Line : (file : List ℕ) → LineOf file (getline file)
unfolding getline
getline-Line [] = record {
  unbroken = refl;
  whole = λ g. absurd (ground (arith, g));
  shorter = λ g. absurd (ground (arith, g));
  last = λ g. refl;
}
getline-Line (c ∷ rest) =
    let (line, left, good) = getline rest in
    elim (Bool-cases (c == newline)) [
      | inl ends ↦
          subst (λ t. LineOf (c ∷ rest) (if t then ([], rest, true) else (c ∷ line, left, good)))
            (sym ends)
            (record {
              unbroken = refl;
              whole = λ g. let equal : c ≡ newline = ground arith in ap (λ d. d ∷ rest) equal;
              shorter = λ g. omega arith;
              last = λ g. absurd (ground (arith, g));
            })
      | inr other ↦
          subst (λ t. LineOf (c ∷ rest) (if t then ([], rest, true) else (c ∷ line, left, good)))
            (sym other) (longer c rest (getline rest) other (getline-Line rest))
    ]

-- The lines that the loop read, and what is left behind the last line break.
pub record Lines (keep_empty : Bool) (file : List ℕ) (container : List (List ℕ))
    (read : Option (List (List ℕ))) : Type 0 where
  pub lines : List (List ℕ)
  pub last : List ℕ
  pub stored : read ≡ some (container ++ kept keep_empty lines)
  pub parts : ended lines ++ last ≡ file
  pub lines_unbroken : Unbroken lines
  pub last_unbroken : has newline last ≡ false

abbrev with_line : Bool → List (List ℕ) → List ℕ → List (List ℕ)
with_line keep_empty container str =
    if keep_empty || not (empty str) then container ++ str ∷ [] else container

abbrev turn : ℕ → Bool → List (List ℕ) → List ℕ × List ℕ × Bool → Option (List (List ℕ))
turn fuel keep_empty container read =
    let (str, left, good) = read in
    if not good
    then some container
    else read_lines fuel keep_empty left (with_line keep_empty container str)

-- A line goes before the others.
kept_front :
    (keep_empty : Bool) (container : List (List ℕ)) (str : List ℕ) (lines : List (List ℕ))
    → with_line keep_empty container str ++ kept keep_empty lines
      ≡ container ++ kept keep_empty (str ∷ lines)
kept_front keep_empty container str lines = either (keep_empty || not (empty str))
  where
    either :
        (b : Bool)
        → (if b then container ++ str ∷ [] else container) ++ kept keep_empty lines
          ≡ container ++ (if b then str ∷ kept keep_empty lines else kept keep_empty lines)
    either true = append_assoc container (str ∷ []) (kept keep_empty lines)
    either false = refl

turn-Lines :
    (fuel : ℕ) (keep_empty : Bool) (file : List ℕ) (container : List (List ℕ))
    (read : List ℕ × List ℕ × Bool)
    → LineOf file read
    → length file < suc fuel
    → ((left : List ℕ) (container : List (List ℕ))
        → length left < fuel
        → Lines keep_empty left container (read_lines fuel keep_empty left container))
    → Lines keep_empty file container (turn fuel keep_empty container read)
turn-Lines fuel keep_empty file container (str, left, false) l enough go = record {
  lines = [];
  last = str;
  stored = ap some (sym (append-nil container));
  parts = sym (l.last refl);
  lines_unbroken = tt;
  last_unbroken = l.unbroken;
}
turn-Lines fuel keep_empty file container (str, left, true) l enough go =
    let less = l.shorter refl in
    let r = go left (with_line keep_empty container str) (omega arith) in
    record {
      lines = str ∷ r.lines;
      last = r.last;
      stored = r.stored ∙ ap some (kept_front keep_empty container str r.lines);
      parts =
          append_assoc str (newline ∷ ended r.lines) r.last
          ∙ ap (λ t. str ++ newline ∷ t) r.parts
          ∙ sym (l.whole refl);
      lines_unbroken = (l.unbroken, r.lines_unbroken);
      last_unbroken = r.last_unbroken;
    }

read_lines-Lines :
    (fuel : ℕ) (keep_empty : Bool) (file : List ℕ) (container : List (List ℕ))
    → length file < fuel
    → Lines keep_empty file container (read_lines fuel keep_empty file container)
unfolding read_lines
read_lines-Lines zero keep_empty file container enough = absurd (omega arith)
read_lines-Lines (suc fuel) keep_empty file container enough =
    turn-Lines fuel keep_empty file container (getline file) (getline-Line file) enough
      (λ left container enough. read_lines-Lines fuel keep_empty left container enough)

-- `ReadFile` ends after at most one turn more than the file has characters. What it puts behind the
-- container are the lines that a line break ends, in their order, without the breaks, and unless
-- keepEmpty only those that are not empty; what stands behind the last line break is not read. The
-- answer is the new length of the container. A file that cannot be opened adds nothing.
pub read_file-lines :
    (fuel : ℕ) (keep_empty : Bool) (file : List ℕ) (container : List (List ℕ))
    → length file < fuel
    → ((lines : List (List ℕ)) × (last : List ℕ) × (read_file fuel (some file) container keep_empty
          ≡ some (container ++ kept keep_empty lines, length (container ++ kept keep_empty lines)))
        × (ended lines ++ last ≡ file)
        × Unbroken lines
        × (has newline last ≡ false))
      × (read_file fuel none container keep_empty ≡ some (container, 0))
unfolding read_file
read_file-lines fuel keep_empty file container enough =
    let r = read_lines-Lines fuel keep_empty file container enough in
    (
      (
        r.lines,
        r.last,
        ap (λ o. elim o [ none ↦ none | some container ↦ some (container, length container) ])
            r.stored,
        r.parts,
        r.lines_unbroken,
        r.last_unbroken,
      ),
      refl,
    )
