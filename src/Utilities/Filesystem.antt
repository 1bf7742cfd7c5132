-- ===== src/Utilities/Filesystem.antt =====
-- toolkit/source/utilities/filesystem.cpp: files read by lines, and directories made. What a file holds
-- and what the system calls do are parameters; a string is a list of bytes.
pub mod Reading
pub mod Outcomes
pub mod Directories
pub mod Removal
use m_toolkit.Base.{
  ℕ, zero, suc, ◌+◌, Bool, true, false, not, ◌||◌, Option, none, some, List, [], ◌∷◌, ◌++◌, length,
  take, drop, ◌==◌, if◌then◌else◌,
}

-- `'\n'` and `'/'`
abbrev pub newline : ℕ
newline = 10

abbrev pub slash : ℕ
slash = 47

abbrev pub empty : List ℕ → Bool
empty [] = true
empty (_ ∷ _) = false

-- `std::getline` on the rest of a file: the line, what is left, and whether the stream is still good,
-- which it is not once the end of the file was met.
unfoldable pub getline : List ℕ → List ℕ × List ℕ × Bool
getline [] = ([], [], false)
getline (c ∷ rest) =
    let (line, left, good) = getline rest in
    if c == newline then ([], rest, true) else (c ∷ line, left, good)

-- The loop of `ReadFile`.
unfoldable pub read_lines :
    (fuel : ℕ) → (keep_empty : Bool) → List ℕ → List (List ℕ) → Option (List (List ℕ))
read_lines zero keep_empty file container = none
read_lines (suc fuel) keep_empty file container =
    let (str, left, good) = getline file in
    let kept = if keep_empty || not (empty str) then container ++ str ∷ [] else container in
    let others = read_lines fuel keep_empty left kept in if not good then some container else others

-- `file` is what the file holds, `none` if it cannot be opened. The container, and the answer.
unfoldable pub read_file :
    (fuel : ℕ)
    → (file : Option (List ℕ)) → (container : List (List ℕ)) → (keep_empty : Bool)
    → Option (List (List ℕ) × ℕ)
read_file fuel none container keep_empty = some (container, 0)
read_file fuel (some file) container keep_empty = elim (read_lines fuel keep_empty file container) [
  | none ↦ none
  | some container ↦ some (container, length container)
]

unfoldable pub content : (file : Option (List ℕ)) → List ℕ
content none = []
content (some file) = file

-- The system calls on directories, over the state of the file system.
pub record SystemCalls (S : Type 0) : Type 0 where
  pub mkdir : List ℕ → S → Bool × S
  pub access : List ℕ → S → Bool

module _ {S : Type 0} (calls : SystemCalls S) where
  unfoldable pub exists : List ℕ → S → Bool
  exists path s = calls.access path s

  unfoldable pub create_directory : List ℕ → S → Bool × S
  create_directory path s =
      let (made, s) = calls.mkdir path s in
      if not made then (if not (exists path s) then (false, s) else (true, s)) else (true, s)

  -- The loop of `CreateDirectories` from the place `i` on, where `rest` is the path from there.
  unfoldable pub create_from : (path : List ℕ) → (i : ℕ) → (rest : List ℕ) → S → Bool × S
  create_from path i [] s = (true, s)
  create_from path i (c ∷ []) s =
      let (made, s) = create_directory path s in if not made then (false, s) else (true, s)
  create_from path i (c ∷ d ∷ rest) s =
      if c == slash
      then (if i == 0
          then create_from path (i + 1) (d ∷ rest) s
          else (let (made, s) = create_directory (take i path) s in
              let others = create_from path (i + 1) (d ∷ rest) s in
              if not made then (false, s) else others))
      else create_from path (i + 1) (d ∷ rest) s

  unfoldable pub create_directories : List ℕ → S → Bool × S
  create_directories path s = create_from path 0 path s
