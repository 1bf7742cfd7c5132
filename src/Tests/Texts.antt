-- ===== src/Tests/Texts.antt =====
-- toolkit/source/utilities/string.cpp on short strings, and serialize.h on a few items.
use m_toolkit.Base.{ℕ, ◌≡◌, refl, true, some, List, [], ◌∷◌, ◌++◌, arith, length}
use m_toolkit.Utilities.Strings.{as_hex_string2byte, as_byte2_hex_string, split_lines, split}
use m_toolkit.Utilities.Strings.Hex.{as_hex_string2byte-as_byte2_hex_string}
use m_toolkit.Utilities.Strings.Trims.{trim_front, trim_back}
use m_toolkit.Utilities.Strings.Breaks.{texts, Cut}
use m_toolkit.Utilities.Strings.Lines.{split_lines-concat}
use m_toolkit.Utilities.Strings.Splits.{Free, split-join}
use m_toolkit.Utilities.Strings.Keeps.{join, kept}
use m_toolkit.Utilities.Serialize.{
  Item, bool_item, int_item, string_item, Serialize, create, serialize_pack, deserialize_pack,
}
use m_toolkit.Utilities.Serialize.Laws.{kinds_of, deserialize_pack-serialize_pack}

abbrev two_bytes : List ℕ
two_bytes = 171 ∷ 7 ∷ []

as_hex_string2byte-as_byte2_hex_string_example :
    as_hex_string2byte (as_byte2_hex_string two_bytes) ≡ some two_bytes
as_hex_string2byte-as_byte2_hex_string_example =
    as_hex_string2byte-as_byte2_hex_string two_bytes (omega arith, (omega arith, tt))

-- " a b\r" and the blanks.
abbrev padded : List ℕ
padded = 32 ∷ 97 ∷ 32 ∷ 98 ∷ 13 ∷ []

abbrev blanks : List ℕ
blanks = 13 ∷ 32 ∷ []

trim_padded : trim_back blanks (trim_front blanks padded) ≡ 97 ∷ 32 ∷ 98 ∷ []
trim_padded = refl

abbrev chunk : ℕ
chunk = 2

-- "a\r\nb".
abbrev lined : List ℕ
lined = 97 ∷ 13 ∷ 10 ∷ 98 ∷ []

split_lines-concat_example :
    (lines : List (List ℕ × List ℕ)) × (split_lines 5 lined [] true
      ≡ some ([] ++ texts true lines, length ([] ++ texts true lines)))
    × Cut lined lines
split_lines-concat_example = split_lines-concat lined [] true

-- "a,,b" by ",".
abbrev commas : List ℕ
commas = 97 ∷ 44 ∷ 44 ∷ 98 ∷ []

split-join_example :
    (parts : List (List ℕ)) × (split 5 commas (44 ∷ []) [] true
      ≡ some ([] ++ kept true parts, length ([] ++ kept true parts)))
    × (join (44 ∷ []) parts ≡ commas)
    × Free (44 ∷ []) parts
split-join_example = split-join commas (44 ∷ []) [] true (ground arith) (omega arith)

-- A flag, a number and a string of two bytes.
abbrev items : List Item
items = bool_item 1 ∷ int_item 0xffff_fffe ∷ string_item two_bytes ∷ []

deserialize_pack-serialize_pack_example :
    (s : Serialize) × (serialize_pack items (create 64) ≡ some s)
    × (deserialize_pack (kinds_of items) s.buffer ≡ some (items, []))
deserialize_pack-serialize_pack_example =
    deserialize_pack-serialize_pack items 64 (omega arith, (omega arith, (omega arith, tt)))
      (ground arith)
