-- ===== src/Utilities/Serialize.antt =====
-- toolkit/source/utilities/serialize.h: values as bytes in one buffer, and back, on a machine that puts
-- the low byte first.
pub mod Widths
pub mod Laws
use m_toolkit.Base.{
  ℕ, zero, suc, ◌+◌, ◌*◌, ◌/◌, ◌%◌, ◌^◌, Bool, true, false, Option, none, some, List, [], ◌∷◌, ◌++◌,
  length, take, drop, ltb, ◌==◌, if◌then◌else◌, add32,
}

-- A value of a basic type is its bit pattern.
pub data Item : Type 0 where
  bool_item int_item uint32_item uint64_item int64_item double_item : ℕ → Item
  string_item : List ℕ → Item

pub data Kind : Type 0 where
  bool_kind int_kind uint32_kind uint64_kind int64_kind double_kind string_kind : Kind

-- The bytes of a pattern in memory, and the pattern of bytes.
abbrev pub bytes_of : (width pattern : ℕ) → List ℕ
bytes_of zero pattern = []
bytes_of (suc width) pattern = pattern % 256 ∷ bytes_of width (pattern / 256)

abbrev pub pattern_of : List ℕ → ℕ
pattern_of [] = 0
pattern_of (b ∷ bytes) = b + 256 * pattern_of bytes

-- The buffer of `reserve` bytes, and how many of them are written.
-- `reserve` and the length of `buffer`, which is `size_`, are 32 bits wide in the source; here a write is
-- within `reserve`, so no length goes beyond it.
pub record Serialize : Type 0 where
  pub reserve : ℕ
  pub buffer : List ℕ

unfoldable pub create : ℕ → Serialize
create reserve = record { reserve = reserve; buffer = [] }

-- `none` is a write past the end of the buffer.
unfoldable pub write : List ℕ → Serialize → Option Serialize
write bytes s =
    if ltb s.reserve (length s.buffer + length bytes)
    then none
    else some (record s { buffer = s.buffer ++ bytes })

unfoldable pub append : (width pattern : ℕ) → Serialize → Option Serialize
append width pattern s = write (bytes_of width pattern) s

unfoldable pub append_string : List ℕ → Serialize → Option Serialize
append_string item s = elim (write (bytes_of 4 (length item % 2 ^ 32)) s) [
  | none ↦ none
  | some s ↦ write (take (length item % 2 ^ 32) item) s
]

-- The operators `<<`.
unfoldable pub put : Item → Serialize → Option Serialize
put (bool_item x) s = append 1 x s
put (int_item x) s = append 4 x s
put (uint32_item x) s = append 4 x s
put (uint64_item x) s = append 8 x s
put (int64_item x) s = append 8 x s
put (double_item x) s = append 8 x s
put (string_item x) s = append_string x s

-- `SerializePack`.
unfoldable pub serialize_pack : List Item → Serialize → Option Serialize
serialize_pack [] s = some s
serialize_pack (x ∷ items) s = elim (put x s) [ none ↦ none | some s ↦ serialize_pack items s ]

-- The bytes from the offset on; `none` is a read past the end of the memory.
unfoldable pub extract : (width : ℕ) → List ℕ → Option (ℕ × List ℕ)
extract width bytes =
    if ltb (length bytes) width
    then none
    else some (pattern_of (take width bytes), drop width bytes)

unfoldable pub extract_string : List ℕ → Option (List ℕ × List ℕ)
extract_string bytes = elim (extract 4 bytes) [
  | none ↦ none
  | some (len, rest) ↦ if ltb (length rest) len then none else some (take len rest, drop len rest)
]

unfoldable pub with_item : (ℕ → Item) → Option (ℕ × List ℕ) → Option (Item × List ℕ)
with_item make r = elim r [ none ↦ none | some (x, rest) ↦ some (make x, rest) ]

unfoldable pub with_string : Option (List ℕ × List ℕ) → Option (Item × List ℕ)
with_string r = elim r [ none ↦ none | some (x, rest) ↦ some (string_item x, rest) ]

-- The operators `>>`, by the type of the variable.
unfoldable pub get : Kind → List ℕ → Option (Item × List ℕ)
unfolding with_item with_string
get bool_kind bytes = with_item bool_item (extract 1 bytes)
get int_kind bytes = with_item int_item (extract 4 bytes)
get uint32_kind bytes = with_item uint32_item (extract 4 bytes)
get uint64_kind bytes = with_item uint64_item (extract 8 bytes)
get int64_kind bytes = with_item int64_item (extract 8 bytes)
get double_kind bytes = with_item double_item (extract 8 bytes)
get string_kind bytes = with_string (extract_string bytes)

-- `DeserializePack`.
unfoldable pub deserialize_pack : List Kind → List ℕ → Option (List Item × List ℕ)
deserialize_pack [] bytes = some ([], bytes)
deserialize_pack (k ∷ kinds) bytes = elim (get k bytes) [
  | none ↦ none
  | some (x, rest) ↦ elim (deserialize_pack kinds rest) [
    | none ↦ none
    | some (items, rest) ↦ some (x ∷ items, rest)
  ]
]
