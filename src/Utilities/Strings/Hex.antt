-- ===== src/Utilities/Strings/Hex.antt =====
-- The hexadecimal form of bytes, and back.
use m_toolkit.Base.{
  ℕ, zero, suc, ◌<◌, ◌≡◌, ◌/◌, ◌%◌, ◌∙◌, refl, ap, Bool, true, false, ◌&&◌, not, Option, none, some,
  List, [], ◌∷◌, arith, ◌==◌, if◌then◌else◌,
}
use mathlib.Core.Path.{ap₂}
use native.Mathlib.Decide.{ℕ_discrete}
use m_toolkit.Utilities.Strings.{hexstr, hex_byte, as_hex_string2byte, as_byte2_hex_string}

-- A test on all numbers below a bound.
all_below : ℕ → (ℕ → Bool) → Bool
all_below zero p = true
all_below (suc k) p = p k && all_below k p

all_below_lem : (k : ℕ) (p : ℕ → Bool) → all_below k p ≡ true → (n : ℕ) → n < k → p n ≡ true
unfolding all_below
all_below_lem zero p all n h = absurd (omega arith)
all_below_lem (suc k) p all n h = elim (ℕ_discrete n k) [
  | yes e ↦ rw e (ground arith)
  | no ne ↦ all_below_lem k p (ground arith) n (omega arith)
]

abbrev returns : ℕ → Bool
returns b = hex_byte (hexstr (b / 16)) (hexstr (b % 16)) == b && not (hexstr (b / 16) == 32)

every_byte : all_below 256 returns ≡ true
unfolding all_below
every_byte = refl

abbrev pub Bytes : List ℕ → Type 0
Bytes [] = Unit
Bytes (b ∷ bs) = (b < 256) × Bytes bs

-- A space is passed over.
space : (value : List ℕ) → as_hex_string2byte (32 ∷ value) ≡ as_hex_string2byte value
unfolding as_hex_string2byte
space [] = refl
space (d ∷ value) = refl

-- Bytes written in hexadecimal are read back as they were.
pub as_hex_string2byte-as_byte2_hex_string :
    (bytes : List ℕ) → Bytes bytes → as_hex_string2byte (as_byte2_hex_string bytes) ≡ some bytes
unfolding as_hex_string2byte as_byte2_hex_string
as_hex_string2byte-as_byte2_hex_string [] _ = refl
as_hex_string2byte-as_byte2_hex_string (b ∷ bytes) (small, rest) =
    let ok = all_below_lem 256 returns every_byte b small in
    let back : hex_byte (hexstr (b / 16)) (hexstr (b % 16)) ≡ b = ground arith in
    let digit : (hexstr (b / 16) == 32) ≡ false = ground arith in
    ap₂ (turn (hexstr (b / 16)) (hexstr (b % 16)) (32 ∷ as_byte2_hex_string bytes)) digit
      (space (as_byte2_hex_string bytes) ∙ as_hex_string2byte-as_byte2_hex_string bytes rest)
    ∙ ap (λ x. some (x ∷ bytes)) back
  where
    turn : ℕ → ℕ → List ℕ → Bool → Option (List ℕ) → Option (List ℕ)
    turn c d value blank r =
        if blank
        then as_hex_string2byte (d ∷ value)
        else elim r [ none ↦ none | some bs ↦ some (hex_byte c d ∷ bs) ]
