-- ===== src/Tests/Addresses.antt =====
-- toolkit/source/utilities/net.cpp on a few addresses.
use m_toolkit.Base.{
  ℕ, ◌-◌, ◌/◌, ◌%◌, ◌^◌, ◌≤◌, ◌<◌, ◌≡◌, refl, arith, true, false, some, List, [], ◌∷◌, take,
}
use m_toolkit.Utilities.Net.{
  CLibrary, form_of, prefix, find_char, as_host_byte, as_host_byte_range, as_string,
}
use m_toolkit.Utilities.Net.Dotted.{read_dotted, read_dotted-as_string}
use m_toolkit.Utilities.Net.Ranges.{as_host_byte_range-block}

-- 10.0.0.1
read_dotted-as_string_example : read_dotted 0 0 (as_string 0x0a000001) ≡ 0x0a000001
read_dotted-as_string_example = read_dotted-as_string 0x0a000001 (omega arith)

-- A library that reads 10.0.0.1 and a mask of 24.
abbrev library : CLibrary
library = record {
  strtoul = λ _. 24;
  strtol = λ _. 24;
  inet_pton = λ _. some 0x0100000a;
  inet_network = λ _. 0x0a000001;
}

-- `"10.0.0.1/24"`
abbrev value : List ℕ
value = 49 ∷ 48 ∷ 46 ∷ 48 ∷ 46 ∷ 48 ∷ 46 ∷ 49 ∷ 47 ∷ 50 ∷ 52 ∷ []

value-prefix : form_of value ≡ prefix 8
unfolding form_of find_char
value-prefix = refl

value-fits : as_host_byte library (take 8 value) < 2 ^ 32
unfolding as_host_byte
value-fits = omega arith

as_host_byte_range-block_example :
    (24 ≤ 32
      → (last : ℕ) × (as_host_byte_range library value 0 0
          ≡ (true, as_host_byte library (take 8 value), last))
        × (as_host_byte library (take 8 value) ≤ last)
        × (last < 2 ^ 32)
        × (last / 2 ^ 8 ≡ as_host_byte library (take 8 value) / 2 ^ 8)
        × (last % 2 ^ 8 ≡ 2 ^ 8 - 1))
    × (32 < 24 → as_host_byte_range library value 0 0 ≡ (false, 0, 0))
as_host_byte_range-block_example =
    as_host_byte_range-block library value 8 0 0 value-prefix value-fits
