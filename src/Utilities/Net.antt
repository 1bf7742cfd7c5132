-- ===== src/Utilities/Net.antt =====
-- toolkit/source/utilities/net.cpp: ranges of ports and addresses, names of hosts, and addresses as
-- strings. The functions of the C library are parameters; a string is a list of bytes.
pub mod Dotted
pub mod Ranges
pub mod Hosts
use m_toolkit.Base.{
  ℕ, zero, suc, ◌+◌, ◌-◌, ◌*◌, ◌/◌, ◌%◌, ◌^◌, Bool, true, false, ◌&&◌, ◌||◌, Option, none, some,
  List, [], ◌∷◌, ◌++◌, ltb, leb, ◌==◌, if◌then◌else◌, take, drop, u32_mod,
}
use Prim.Native.Nat.{bit_or}

-- `strtoul` and `strtol` to base 10, the second as its 64-bit pattern; `inet_pton` with the word that
-- it fills, first byte lowest, or `none` where it fills nothing; `inet_network`.
pub record CLibrary : Type 0 where
  pub strtoul : List ℕ → ℕ
  pub strtol : List ℕ → ℕ
  pub inet_pton : List ℕ → Option ℕ
  pub inet_network : List ℕ → ℕ

-- `std::string::find` of a character.
unfoldable pub find_char : ℕ → List ℕ → Option ℕ
find_char c [] = none
find_char c (d ∷ l) =
    if d == c then some 0 else elim (find_char c l) [ none ↦ none | some pos ↦ some (suc pos) ]

-- `'-'`, `'/'` and `'.'`
abbrev pub dash : ℕ
dash = 45

abbrev pub slash : ℕ
slash = 47

abbrev pub dot : ℕ
dot = 46

-- The answer, with the head and the tail that the arguments hold then.
unfoldable pub as_range : CLibrary → List ℕ → Bool × ℕ × ℕ
as_range c value =
    let (head, tail) : ℕ × ℕ = elim (find_char dash value) [
      | none ↦ let head = c.strtoul value % 2 ^ 16 in (head, head)
      | some pos ↦ (c.strtoul (take pos value) % 2 ^ 16, c.strtoul (drop (pos + 1) value) % 2 ^ 16)
    ] in
    (leb head tail, head, tail)

unfoldable pub as_net_byte : CLibrary → List ℕ → ℕ
as_net_byte c value = elim (c.inet_pton value) [ none ↦ 0 | some word ↦ word ]

unfoldable pub as_host_byte : CLibrary → List ℕ → ℕ
as_host_byte c value = c.inet_network value

-- `32 < mask || mask < 0` of an int64_t.
abbrev pub not_a_mask : ℕ → Bool
not_a_mask mask = (ltb 32 mask && ltb mask (2 ^ 63)) || leb (2 ^ 63) mask

-- `~` and `<<` of uint32_t.
abbrev pub not32 : ℕ → ℕ
not32 a = u32_mod - 1 - a % u32_mod

abbrev pub shift_left32 : ℕ → ℕ → ℕ
shift_left32 a k = a * 2 ^ k % u32_mod

-- `htonl` where the low byte comes first.
abbrev pub htonl : ℕ → ℕ
htonl a = a % 256 * 2 ^ 24 + a / 2 ^ 8 % 256 * 2 ^ 16 + a / 2 ^ 16 % 256 * 2 ^ 8 + a / 2 ^ 24 % 256

-- `mask == 0 ? 0 : 0xFFFFFFFF << (32 - mask)`
abbrev pub net_mask : ℕ → ℕ
net_mask mask = if mask == 0 then 0 else shift_left32 0xFFFFFFFF (32 - mask)

abbrev pub answer : ℕ → ℕ → Bool × ℕ × ℕ
answer head tail = (leb head tail, head, tail)

-- The forms of a range, which the branches tell apart: `a`, `a/m`, and two addresses.
pub data Form : Type 0 where
  one_address : Form
  prefix two_addresses : (pos : ℕ) → Form

unfoldable pub form_of : List ℕ → Form
form_of value = elim (find_char dash value) [
  | some pos ↦ two_addresses pos
  | none ↦ elim (find_char slash value) [
    | none ↦ one_address
    | some pos ↦ elim (find_char dot (drop (pos + 1) value)) [
      | none ↦ prefix pos
      | some _ ↦ two_addresses pos
    ]
  ]
]

-- `head` and `tail` are what the arguments hold at the call.
unfoldable pub as_net_byte_range : CLibrary → List ℕ → (head tail : ℕ) → Bool × ℕ × ℕ
as_net_byte_range c value head tail = elim (form_of value) [
  | one_address ↦ answer (as_net_byte c value) (as_net_byte c value)
  | two_addresses pos ↦
      answer (as_net_byte c (take pos value)) (as_net_byte c (drop (pos + 1) value))
  | prefix pos ↦
      let mask = c.strtol (drop (pos + 1) value) in
      let first = as_net_byte c (take pos value) in
      if not_a_mask mask
      then (false, head, tail)
      else answer first (bit_or first (not32 (if mask == 0 then 0 else htonl (net_mask mask))))
]

unfoldable pub as_host_byte_range : CLibrary → List ℕ → (head tail : ℕ) → Bool × ℕ × ℕ
as_host_byte_range c value head tail = elim (form_of value) [
  | one_address ↦ answer (as_host_byte c value) (as_host_byte c value)
  | two_addresses pos ↦
      answer (as_host_byte c (take pos value)) (as_host_byte c (drop (pos + 1) value))
  | prefix pos ↦
      let mask = c.strtol (drop (pos + 1) value) in
      let first = as_host_byte c (take pos value) in
      if not_a_mask mask
      then (false, head, tail)
      else answer first (bit_or first (not32 (net_mask mask)))
]

-- The loop over the addresses of a host: each with the name that `getnameinfo` gives it, or `none`.
unfoldable pub traverse_addresses :
    List (Option (List ℕ)) → (status : Bool) → List (List ℕ) → Bool × List (List ℕ)
traverse_addresses [] status list = (status, list)
traverse_addresses (none ∷ rest) status list = (false, list)
traverse_addresses (some address ∷ rest) status list =
    traverse_addresses rest true (list ++ address ∷ [])

-- `found` is what `getaddrinfo` gives, `none` for an error.
unfoldable pub traverse_address_from_host :
    (found : Option (List (Option (List ℕ)))) → List (List ℕ) → Bool × List (List ℕ)
traverse_address_from_host none list = (false, list)
traverse_address_from_host (some result) list = traverse_addresses result false list

-- `std::to_string` of an unsigned number, by its digits; a uint32_t has ten at most.
unfoldable pub to_digits : (fuel : ℕ) → ℕ → List ℕ
to_digits zero n = []
to_digits (suc fuel) n =
    let front = to_digits fuel (n / 10) in (if ltb n 10 then [] else front) ++ (48 + n % 10) ∷ []

abbrev pub to_string : ℕ → List ℕ
to_string n = to_digits 10 n

-- `>>` is division, and `& 0xFF` is `% 256`.
unfoldable pub as_string : ℕ → List ℕ
as_string value =
    to_string (value / 2 ^ 24 % 256)
    ++ dot
      ∷ (to_string (value / 2 ^ 16 % 256)
          ++ dot ∷ (to_string (value / 2 ^ 8 % 256) ++ dot ∷ to_string (value % 256)))
