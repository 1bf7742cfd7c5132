-- ===== src/Utilities/Serialize/Widths.antt =====
-- The bytes of one number, written and read.
use mathlib.Core.Path.{ap₂}
use native.Mathlib.Nat.{pow-suc}
use m_toolkit.Base.{
  ℕ, zero, suc, ◌/◌, ◌^◌, ◌<◌, ◌≡◌, refl, sym, ap, ◌∙◌, false, none, some, List, [], ◌∷◌, ◌++◌,
  arith, length, take, drop, ltb, if◌then◌else◌, length-append,
}
use m_toolkit.Utilities.Serialize.{bytes_of, pattern_of, extract}

pub length-bytes_of : (width pattern : ℕ) → length (bytes_of width pattern) ≡ width
length-bytes_of zero pattern = refl
length-bytes_of (suc width) pattern = ap suc (length-bytes_of width (pattern / 256))

pub take-append : (xs ys : List ℕ) → take (length xs) (xs ++ ys) ≡ xs
take-append [] ys = refl
take-append (x ∷ xs) ys = ap (λ l. x ∷ l) (take-append xs ys)

pub drop-append : (xs ys : List ℕ) → drop (length xs) (xs ++ ys) ≡ ys
drop-append [] ys = refl
drop-append (x ∷ xs) ys = drop-append xs ys

-- A pattern that fits is read from its bytes.
pattern_of-bytes_of :
    (width pattern : ℕ) → pattern < 256 ^ width → pattern_of (bytes_of width pattern) ≡ pattern
pattern_of-bytes_of zero pattern h = omega arith
pattern_of-bytes_of (suc width) pattern h =
    let low : pattern / 256 < 256 ^ width = omega (arith, pow-suc 256 width) in
    omega (arith, pattern_of-bytes_of width (pattern / 256) low)

pub extract-bytes_of :
    (width pattern : ℕ) (rest : List ℕ)
    → pattern < 256 ^ width
    → extract width (bytes_of width pattern ++ rest) ≡ some (pattern, rest)
unfolding extract
extract-bytes_of width pattern rest fits =
    let size = length-bytes_of width pattern in
    let bytes = bytes_of width pattern in
    let enough : ltb (length (bytes ++ rest)) width ≡ false =
      let l = length-append bytes rest in ground arith in
    ap
      (λ b.
        if b
        then none
        else some (pattern_of (take width (bytes ++ rest)), drop width (bytes ++ rest)))
      enough
    ∙ ap some (
        ap₂ (λ x y. (x, y))
          (ap (λ w. pattern_of (take w (bytes ++ rest))) (sym size)
            ∙ ap pattern_of (take-append bytes rest)
            ∙ pattern_of-bytes_of width pattern fits)
          (ap (λ w. drop w (bytes ++ rest)) (sym size) ∙ drop-append bytes rest))
