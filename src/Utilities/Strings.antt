-- ===== src/Utilities/Strings.antt =====
-- toolkit/source/utilities/string.cpp: the functions of the class `String`. A string is the list of
-- its bytes; a loop that does not end within `fuel` turns gives `none`.
pub mod Hex
pub mod Trims
pub mod Chunks
pub mod Breaks
pub mod Lines
pub mod Searches
pub mod Keeps
pub mod Splits
use Prim.Native.Nat.{bit_or}
use m_toolkit.Base.{
  ℕ, zero, suc, ◌+◌, ◌-◌, ◌*◌, ◌/◌, ◌%◌, Bool, true, false, not, ◌&&◌, ◌||◌, Option, none, some,
  List, [], ◌∷◌, ◌++◌, length, get_or, take, drop, ltb, leb, add64, sub64, ◌==◌, if◌then◌else◌,
}
use m_toolkit.Base.Maps.{has}

-- `HEXSTR(i)`, for `i` below 16.
abbrev pub hexstr : ℕ → ℕ
hexstr i =
    get_or (48 ∷ 49 ∷ 50 ∷ 51 ∷ 52 ∷ 53 ∷ 54 ∷ 55 ∷ 56 ∷ 57 ∷ 65 ∷ 66 ∷ 67 ∷ 68 ∷ 69 ∷ 70 ∷ []) i 0

abbrev pub asc2nibble : ℕ → ℕ
asc2nibble c =
    if leb 48 c && leb c 57
    then c - 48
    else (if leb 65 c && leb c 70
        then c - 65 + 10
        else (if leb 97 c && leb c 102 then c - 97 + 10 else 16))

-- A byte from two digits.
abbrev pub hex_byte : ℕ → ℕ → ℕ
hex_byte c d = bit_or (asc2nibble c * 16) (asc2nibble d) % 256

-- `none` is a read past the last byte.
unfoldable pub as_hex_string2byte : List ℕ → Option (List ℕ)
as_hex_string2byte [] = some []
as_hex_string2byte (c ∷ []) = if c == 32 then some [] else none
as_hex_string2byte (c ∷ d ∷ value) =
    let skipped = as_hex_string2byte (d ∷ value) in
    let rest = as_hex_string2byte value in
    if c == 32
    then skipped
    else elim rest [ none ↦ none | some bytes ↦ some (hex_byte c d ∷ bytes) ]

unfoldable pub as_byte2_hex_string : List ℕ → List ℕ
as_byte2_hex_string [] = []
as_byte2_hex_string (b ∷ value) = hexstr (b / 16) ∷ hexstr (b % 16) ∷ 32 ∷ as_byte2_hex_string value

-- `Trim(str, max_len)` on the memory at `str`; `none` is a read past its end.
unfoldable pub trim_c : List ℕ → ℕ → Option (List ℕ)
trim_c str zero = some []
trim_c [] (suc max_len) = none
trim_c (c ∷ str) (suc max_len) =
    let rest = trim_c str max_len in
    if c == 0 then some [] else elim rest [ none ↦ none | some cs ↦ some (c ∷ cs) ]

-- The members of std::string that `Trim` calls; `none` is `npos`.
unfoldable pub find_first_not_of : List ℕ → List ℕ → Option ℕ
find_first_not_of group [] = none
find_first_not_of group (c ∷ value) = elim (has c group) [
  | false ↦ some 0
  | true ↦ elim (find_first_not_of group value) [ none ↦ none | some i ↦ some (suc i) ]
]

unfoldable pub find_last_not_of : List ℕ → List ℕ → Option ℕ
find_last_not_of group [] = none
find_last_not_of group (c ∷ value) = elim (find_last_not_of group value) [
  | some i ↦ some (suc i)
  | none ↦ if has c group then none else some 0
]

abbrev pub position : Option ℕ → ℕ
position none = 0xffff_ffff_ffff_ffff
position (some i) = i

abbrev pub substr : List ℕ → (start count : ℕ) → List ℕ
substr value start count = take count (drop start value)

unfoldable pub trim : List ℕ → List ℕ → List ℕ
trim value group =
    let end = position (find_last_not_of group value) in
    let start = position (find_first_not_of group value) in
    elim (find_first_not_of group value) [
      | none ↦ []
      | some i ↦ substr value start (sub64 (add64 1 end) start)
    ]

unfoldable pub split_string_from : (fuel : ℕ) → List ℕ → (chunk_size i : ℕ) → Option (List (List ℕ))
split_string_from zero str chunk_size i = none
split_string_from (suc fuel) str chunk_size i =
    let rest = split_string_from fuel str chunk_size (add64 i chunk_size) in
    if ltb i (length str)
    then elim rest [ none ↦ none | some chunks ↦ some (substr str i chunk_size ∷ chunks) ]
    else some []

unfoldable pub split_string : (fuel : ℕ) → List ℕ → ℕ → Option (List (List ℕ))
split_string fuel str chunk_size = split_string_from fuel str chunk_size 0

-- How many characters stand before the next line break, and how many the break has.
abbrev pub is_break : ℕ → Bool
is_break c = c == 13 || (c == 10 || c == 0)

abbrev pub to_break : List ℕ → ℕ
to_break [] = 0
to_break (c ∷ rest) = if is_break c then 0 else suc (to_break rest)

abbrev pub break_size : List ℕ → ℕ
break_size [] = 0
break_size (c ∷ []) = 1
break_size (c ∷ d ∷ rest) = if c == 13 && d == 10 then 2 else 1

-- `rest` is what is left from `j` on.
unfoldable pub split_lines_from : (fuel : ℕ) → (keep_enter : Bool) → List ℕ → Option (List (List ℕ))
split_lines_from zero keep_enter rest = none
split_lines_from (suc fuel) keep_enter rest =
    let line = to_break rest in
    let next = line + break_size (drop line rest) in
    let eol = if keep_enter then next else line in
    let others = split_lines_from fuel keep_enter (drop next rest) in
    if length rest == 0
    then some []
    else elim others [ none ↦ none | some lines ↦ some (take eol rest ∷ lines) ]

-- `SplitLines` puts its lines behind those of `container` and gives their number.
unfoldable pub split_lines :
    (fuel : ℕ)
    → List ℕ
    → (container : List (List ℕ)) → (keep_enter : Bool) → Option (List (List ℕ) × ℕ)
split_lines fuel value container keep_enter = elim (split_lines_from fuel keep_enter value) [
  | none ↦ none
  | some lines ↦ some (container ++ lines, length (container ++ lines))
]

-- `std::search`: how far before the first `key`, or before the end.
abbrev pub starts_with : List ℕ → List ℕ → Bool
starts_with [] rest = true
starts_with (a ∷ key) [] = false
starts_with (a ∷ key) (c ∷ rest) = a == c && starts_with key rest

abbrev pub search : List ℕ → List ℕ → ℕ
search key [] = 0
search key (c ∷ rest) = if starts_with key (c ∷ rest) then 0 else suc (search key rest)

-- What one part adds to the container.
unfoldable pub kept_part : Bool → List ℕ → List (List ℕ)
kept_part keep_empty part =
    let str = trim part (13 ∷ 10 ∷ []) in
    if keep_empty || not (length str == 0) then str ∷ [] else []

-- `rest` is what is left from `beg` on.
unfoldable pub split_from :
    (fuel : ℕ) → (key : List ℕ) → (keep_empty : Bool) → List ℕ → Option (List (List ℕ))
split_from zero key keep_empty rest = none
split_from (suc fuel) key keep_empty rest =
    let end = search key rest in
    let others = split_from fuel key keep_empty (drop (end + length key) rest) in
    if not (end == 0)
    then (if end == length rest then some (kept_part keep_empty (take end rest)) else elim others [
      | none ↦ none
      | some parts ↦ some (kept_part keep_empty (take end rest) ++ parts)
    ])
    else (if length rest == 0 then some [] else others)

-- `Split` puts its parts behind those of `container` and gives their number.
unfoldable pub split :
    (fuel : ℕ)
    → (value key : List ℕ) → (container : List (List ℕ)) → (keep_empty : Bool)
    → Option (List (List ℕ) × ℕ)
split fuel value key container keep_empty =
    let found : Option (List (List ℕ) × ℕ) = elim (split_from fuel key keep_empty value) [
      | none ↦ none
      | some parts ↦ some (container ++ parts, length (container ++ parts))
    ] in
    if length key == 0 then some (container ++ value ∷ [], suc (length container)) else found
