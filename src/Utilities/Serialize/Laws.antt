-- ===== src/Utilities/Serialize/Laws.antt =====
-- What was packed is unpacked as it was.
use mathlib.Core.Path.{ap₂}
use mathlib.Core.List.{append_assoc, append-nil}
use m_toolkit.Base.{
  ℕ, ◌+◌, ◌%◌, ◌^◌, ◌<◌, ◌≤◌, ◌≡◌, refl, sym, ap, ◌∙◌, false, Option, none, some, List, [], ◌∷◌,
  ◌++◌, arith, length, take, drop, ltb, if◌then◌else◌, length-append, take-all,
}
use m_toolkit.Utilities.Serialize.{
  Item, Kind, bool_item, int_item, uint32_item, uint64_item, int64_item, double_item, string_item,
  bool_kind, int_kind, uint32_kind, uint64_kind, int64_kind, double_kind, string_kind, bytes_of,
  Serialize, create, write, append, append_string, put, serialize_pack, extract, extract_string,
  get, with_item, with_string, deserialize_pack,
}
use m_toolkit.Utilities.Serialize.Widths.{
  length-bytes_of, take-append, drop-append, extract-bytes_of,
}

-- Items whose patterns have the size of their types, and strings that a 32-bit length can count.
abbrev pub Fits : Item → Type 0
Fits (bool_item x) = x < 256 ^ 1
Fits (int_item x) = x < 256 ^ 4
Fits (uint32_item x) = x < 256 ^ 4
Fits (uint64_item x) = x < 256 ^ 8
Fits (int64_item x) = x < 256 ^ 8
Fits (double_item x) = x < 256 ^ 8
Fits (string_item x) = length x < 256 ^ 4

abbrev pub kind_of : Item → Kind
kind_of (bool_item x) = bool_kind
kind_of (int_item x) = int_kind
kind_of (uint32_item x) = uint32_kind
kind_of (uint64_item x) = uint64_kind
kind_of (int64_item x) = int64_kind
kind_of (double_item x) = double_kind
kind_of (string_item x) = string_kind

-- What an item takes up in the buffer.
abbrev pub encoded : Item → List ℕ
encoded (bool_item x) = bytes_of 1 x
encoded (int_item x) = bytes_of 4 x
encoded (uint32_item x) = bytes_of 4 x
encoded (uint64_item x) = bytes_of 8 x
encoded (int64_item x) = bytes_of 8 x
encoded (double_item x) = bytes_of 8 x
encoded (string_item x) = bytes_of 4 (length x) ++ x

abbrev pub grown : List ℕ → Serialize → Serialize
grown bytes s = record s { buffer = s.buffer ++ bytes }

write_lem :
    (bytes : List ℕ) (s : Serialize)
    → length s.buffer + length bytes ≤ s.reserve
    → write bytes s ≡ some (grown bytes s)
unfolding write
write_lem bytes s room =
    let inside : ltb s.reserve (length s.buffer + length bytes) ≡ false = ground arith in
    ap (λ b. if b then none else some (grown bytes s)) inside

append_string_lem :
    (x : List ℕ) (s : Serialize)
    → length x < 256 ^ 4
    → length s.buffer + length (encoded (string_item x)) ≤ s.reserve
    → append_string x s ≡ some (grown (encoded (string_item x)) s)
unfolding append_string
append_string_lem x s fits room =
    let small : length x % 2 ^ 32 ≡ length x = omega arith in
    let size = length-append (bytes_of 4 (length x)) x in
    let head = length-bytes_of 4 (length x) in
    let s₁ = grown (bytes_of 4 (length x)) s in
    let size₁ = length-append s.buffer (bytes_of 4 (length x)) in
    ap (λ n. then_write (write (bytes_of 4 n) s) (take n x)) small
    ∙ ap (λ r. then_write r (take (length x) x)) (write_lem (bytes_of 4 (length x)) s (omega arith))
    ∙ ap (λ l. write l s₁) (take-all x)
    ∙ write_lem x s₁ (omega arith)
    ∙ ap (λ l. some (record s { buffer = l })) (append_assoc s.buffer (bytes_of 4 (length x)) x)
  where
    then_write : Option Serialize → List ℕ → Option Serialize
    then_write r l = elim r [ none ↦ none | some s ↦ write l s ]

put_lem :
    (i : Item) (s : Serialize)
    → Fits i
    → length s.buffer + length (encoded i) ≤ s.reserve
    → put i s ≡ some (grown (encoded i) s)
unfolding put append
put_lem (bool_item x) s fits room = write_lem (bytes_of 1 x) s room
put_lem (int_item x) s fits room = write_lem (bytes_of 4 x) s room
put_lem (uint32_item x) s fits room = write_lem (bytes_of 4 x) s room
put_lem (uint64_item x) s fits room = write_lem (bytes_of 8 x) s room
put_lem (int64_item x) s fits room = write_lem (bytes_of 8 x) s room
put_lem (double_item x) s fits room = write_lem (bytes_of 8 x) s room
put_lem (string_item x) s fits room = append_string_lem x s fits room

extract_string_lem :
    (x rest : List ℕ)
    → length x < 256 ^ 4
    → extract_string (encoded (string_item x) ++ rest) ≡ some (x, rest)
unfolding extract_string
extract_string_lem x rest fits =
    let there : ltb (length (x ++ rest)) (length x) ≡ false =
      let l = length-append x rest in ground arith in
    ap (λ l. then_read (extract 4 l)) (append_assoc (bytes_of 4 (length x)) x rest)
    ∙ ap then_read (extract-bytes_of 4 (length x) (x ++ rest) fits)
    ∙ ap (λ b. if b then none else some (take (length x) (x ++ rest), drop (length x) (x ++ rest)))
        there
    ∙ ap some (ap₂ (λ a b. (a, b)) (take-append x rest) (drop-append x rest))
  where
    then_read : Option (ℕ × List ℕ) → Option (List ℕ × List ℕ)
    then_read r = elim r [
      | none ↦ none
      | some (len, rest) ↦
          if ltb (length rest) len then none else some (take len rest, drop len rest)
    ]

get_lem : (i : Item) (rest : List ℕ) → Fits i → get (kind_of i) (encoded i ++ rest) ≡ some (i, rest)
unfolding get with_item with_string
get_lem (bool_item x) rest fits = ap (with_item bool_item) (extract-bytes_of 1 x rest fits)
get_lem (int_item x) rest fits = ap (with_item int_item) (extract-bytes_of 4 x rest fits)
get_lem (uint32_item x) rest fits = ap (with_item uint32_item) (extract-bytes_of 4 x rest fits)
get_lem (uint64_item x) rest fits = ap (with_item uint64_item) (extract-bytes_of 8 x rest fits)
get_lem (int64_item x) rest fits = ap (with_item int64_item) (extract-bytes_of 8 x rest fits)
get_lem (double_item x) rest fits = ap (with_item double_item) (extract-bytes_of 8 x rest fits)
get_lem (string_item x) rest fits = ap with_string (extract_string_lem x rest fits)

abbrev pub AllFit : List Item → Type 0
AllFit [] = Unit
AllFit (i ∷ items) = Fits i × AllFit items

abbrev pub all_encoded : List Item → List ℕ
all_encoded [] = []
all_encoded (i ∷ items) = encoded i ++ all_encoded items

abbrev pub kinds_of : List Item → List Kind
kinds_of [] = []
kinds_of (i ∷ items) = kind_of i ∷ kinds_of items

serialize_pack_lem :
    (items : List Item) (s : Serialize)
    → AllFit items
    → length s.buffer + length (all_encoded items) ≤ s.reserve
    → serialize_pack items s ≡ some (grown (all_encoded items) s)
unfolding serialize_pack
serialize_pack_lem [] s fits room =
    ap (λ l. some (record s { buffer = l })) (sym (append-nil s.buffer))
serialize_pack_lem (i ∷ items) s (fit, fits) room =
    let size = length-append (encoded i) (all_encoded items) in
    let size₁ = length-append s.buffer (encoded i) in
    ap (packed items) (put_lem i s fit (omega arith))
    ∙ serialize_pack_lem items (grown (encoded i) s) fits (omega arith)
    ∙ ap (λ l. some (record s { buffer = l }))
        (append_assoc s.buffer (encoded i) (all_encoded items))
  where
    packed : List Item → Option Serialize → Option Serialize
    packed items r = elim r [ none ↦ none | some s ↦ serialize_pack items s ]

deserialize_pack_lem :
    (items : List Item) (rest : List ℕ)
    → AllFit items
    → deserialize_pack (kinds_of items) (all_encoded items ++ rest) ≡ some (items, rest)
unfolding deserialize_pack
deserialize_pack_lem [] rest fits = refl
deserialize_pack_lem (i ∷ items) rest (fit, fits) =
    ap (λ l. first (get (kind_of i) l)) (append_assoc (encoded i) (all_encoded items) rest)
    ∙ ap first (get_lem i (all_encoded items ++ rest) fit)
    ∙ ap (others i) (deserialize_pack_lem items rest fits)
  where
    others : Item → Option (List Item × List ℕ) → Option (List Item × List ℕ)
    others x r = elim r [ none ↦ none | some (items, rest) ↦ some (x ∷ items, rest) ]

    first : Option (Item × List ℕ) → Option (List Item × List ℕ)
    first r = elim r [
      | none ↦ none
      | some (x, rest) ↦ others x (deserialize_pack (kinds_of items) rest)
    ]

-- Items that fit their types, packed into a new buffer that has room for their bytes, are written
-- within it, and unpacking the written bytes by the items' types gives the items back and ends where
-- the bytes end.
pub deserialize_pack-serialize_pack :
    (items : List Item) (reserve : ℕ)
    → AllFit items
    → length (all_encoded items) ≤ reserve
    → (s : Serialize) × (serialize_pack items (create reserve) ≡ some s)
      × (deserialize_pack (kinds_of items) s.buffer ≡ some (items, []))
unfolding create
deserialize_pack-serialize_pack items reserve fits room =
    let s : Serialize = create reserve in
    (
      grown (all_encoded items) s,
      serialize_pack_lem items s fits (omega arith),
      ap (deserialize_pack (kinds_of items)) (sym (append-nil (all_encoded items)))
          ∙ deserialize_pack_lem items [] fits,
    )
