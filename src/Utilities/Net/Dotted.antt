-- ===== src/Utilities/Net/Dotted.antt =====
-- `AsString` writes the number that its bytes stand for.
use m_toolkit.Base.{
  ℕ, zero, suc, ◌+◌, ◌-◌, ◌*◌, ◌/◌, ◌%◌, ◌^◌, ◌<◌, ◌≡◌, sym, ap, ◌∙◌, arith, List, [], ◌∷◌, ◌++◌,
  ltb, ◌==◌, if◌then◌else◌, Bool-cases, inl, inr, ltb→lt,
}
use mathlib.Core.List.{append_assoc, append-nil}
use mathlib.Core.Path.{subst}
use native.Mathlib.Nat.{pow-suc}
use m_toolkit.Utilities.Net.{to_digits, to_string, as_string, dot}

-- A reader of dotted numbers: the bytes before the last dot, and the number since then.
abbrev pub read_dotted : (bytes number : ℕ) → List ℕ → ℕ
read_dotted bytes number [] = bytes * 256 + number
read_dotted bytes number (c ∷ l) =
    if c == dot
    then read_dotted (bytes * 256 + number) 0 l
    else read_dotted bytes (number * 10 + (c - 48)) l

digit_read :
    (bytes number d : ℕ) (l : List ℕ)
    → d < 10
    → read_dotted bytes number ((48 + d) ∷ l) ≡ read_dotted bytes (number * 10 + d) l
digit_read bytes number d l small = ground arith

to_digits-read :
    (fuel n bytes : ℕ) (l : List ℕ)
    → n < 10 ^ fuel
    → read_dotted bytes 0 (to_digits fuel n ++ l) ≡ read_dotted bytes n l
unfolding to_digits
to_digits-read zero n bytes l small = ap (λ m. read_dotted bytes m l) (omega arith)
to_digits-read (suc fuel) n bytes l small =
    let e = pow-suc 10 fuel in
    let fits : n / 10 < 10 ^ fuel = omega arith in
    elim (Bool-cases (ltb n 10)) [
      | inl one_digit ↦
          let lower : n < 10 = ltb→lt n 10 one_digit in
          subst
            (λ b.
              read_dotted bytes 0
                ((if b then [] else to_digits fuel (n / 10)) ++ ((48 + n % 10) ∷ []) ++ l)
              ≡ read_dotted bytes n l)
            (sym one_digit)
            (digit_read bytes 0 (n % 10) l (omega arith)
              ∙ ap (λ m. read_dotted bytes m l) (omega arith))
      | inr more ↦
          subst
            (λ b.
              read_dotted bytes 0
                ((if b then [] else to_digits fuel (n / 10)) ++ ((48 + n % 10) ∷ []) ++ l)
              ≡ read_dotted bytes n l)
            (sym more)
            (ap (read_dotted bytes 0)
                (append_assoc (to_digits fuel (n / 10)) ((48 + n % 10) ∷ []) l)
              ∙ to_digits-read fuel (n / 10) bytes ((48 + n % 10) ∷ l) fits
              ∙ digit_read bytes (n / 10) (n % 10) l (omega arith)
              ∙ ap (λ m. read_dotted bytes m l) (omega arith))
    ]

-- A byte, up to the dot behind it.
byte_read :
    (b bytes : ℕ) (l : List ℕ)
    → b < 256
    → read_dotted bytes 0 (to_string b ++ dot ∷ l) ≡ read_dotted (bytes * 256 + b) 0 l
byte_read b bytes l small = to_digits-read 10 b bytes (dot ∷ l) (omega arith)

-- An address that `AsString` writes reads as the number it was, byte by byte.
pub read_dotted-as_string : (value : ℕ) → value < 2 ^ 32 → read_dotted 0 0 (as_string value) ≡ value
unfolding as_string
read_dotted-as_string value small =
    byte_read (value / 2 ^ 24 % 256) 0 _ (omega arith)
    ∙ byte_read (value / 2 ^ 16 % 256) _ _ (omega arith)
    ∙ byte_read (value / 2 ^ 8 % 256) _ _ (omega arith)
    ∙ ap (read_dotted _ 0) (sym (append-nil (to_string (value % 256))))
    ∙ to_digits-read 10 (value % 256) _ [] (omega arith)
    ∙ (omega arith)
