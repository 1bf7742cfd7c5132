-- ===== src/Utilities/Strings/Keeps.antt =====
-- What `Split` keeps of the parts of a string.
use mathlib.Core.Path.{ap₂}
use m_toolkit.Base.{
  ℕ, ◌<◌, ◌^◌, ◌≡◌, ◌||◌, length-append, refl, ap, ◌∙◌, Bool, true, false, not, List, [], ◌∷◌, ◌++◌,
  arith, length, if◌then◌else◌, ◌==◌,
}
use m_toolkit.Utilities.Strings.{kept_part}
use m_toolkit.Utilities.Strings.Trims.{trim_front, trim_back, trim-eq-trim_back}

-- Parts with the key between them.
abbrev pub join : List ℕ → List (List ℕ) → List ℕ
join key [] = []
join key (x ∷ []) = x
join key (x ∷ y ∷ xs) = x ++ (key ++ join key (y ∷ xs))

-- What `Split` keeps of the parts: the parts that are empty from the start never count.
abbrev pub kept_parts : Bool → List (List ℕ) → List (List ℕ)
kept_parts keep_empty [] = []
kept_parts keep_empty (x ∷ xs) =
    if length x == 0
    then kept_parts keep_empty xs
    else kept_part keep_empty x ++ kept_parts keep_empty xs

-- A part without line breaks at its ends, and what is added to the container of it.
abbrev pub stripped : List ℕ → List ℕ
stripped part = trim_back (13 ∷ 10 ∷ []) (trim_front (13 ∷ 10 ∷ []) part)

abbrev pub added : (keep_empty : Bool) → List ℕ → List (List ℕ)
added true [] = [] ∷ []
added false [] = []
added keep_empty (c ∷ str) = (c ∷ str) ∷ []

abbrev pub kept : (keep_empty : Bool) → List (List ℕ) → List (List ℕ)
kept keep_empty [] = []
kept keep_empty ([] ∷ parts) = kept keep_empty parts
kept keep_empty ((c ∷ part) ∷ parts) =
    added keep_empty (stripped (c ∷ part)) ++ kept keep_empty parts

added-kept_part :
    (keep_empty : Bool) (part : List ℕ)
    → length part < 2 ^ 62
    → kept_part keep_empty part ≡ added keep_empty (stripped part)
unfolding kept_part
added-kept_part keep_empty part short =
    ap (λ str. if keep_empty || not (length str == 0) then str ∷ [] else [])
      (trim-eq-trim_back (13 ∷ 10 ∷ []) part short)
    ∙ either keep_empty (stripped part)
  where
    either :
        (b : Bool) (str : List ℕ)
        → (if b || not (length str == 0) then str ∷ [] else []) ≡ added b str
    either true [] = refl
    either false [] = refl
    either true (c ∷ str) = refl
    either false (c ∷ str) = ground arith

-- Every part is shorter than 2^62.
abbrev Short : List (List ℕ) → Type 0
Short [] = Unit
Short (part ∷ parts) = (length part < 2 ^ 62) × Short parts

pub join-Short :
    (key : List ℕ) (xs : List (List ℕ)) (x : List ℕ)
    → length (join key (x ∷ xs)) < 2 ^ 62
    → Short (x ∷ xs)
join-Short key [] x short = (short, tt)
join-Short key (y ∷ xs) x short =
    let first = length-append x (key ++ join key (y ∷ xs)) in
    let second = length-append key (join key (y ∷ xs)) in
    (omega (arith, first), join-Short key xs y (omega (arith, first, second)))

pub kept-kept_parts :
    (keep_empty : Bool) (parts : List (List ℕ))
    → Short parts
    → kept_parts keep_empty parts ≡ kept keep_empty parts
kept-kept_parts keep_empty [] short = refl
kept-kept_parts keep_empty ([] ∷ parts) (_, short) = kept-kept_parts keep_empty parts short
kept-kept_parts keep_empty ((c ∷ part) ∷ parts) (first, short) =
    let counts : (length (c ∷ part) == 0) ≡ false = ground arith in
    ap
      (λ b.
        if b
        then kept_parts keep_empty parts
        else kept_part keep_empty (c ∷ part) ++ kept_parts keep_empty parts)
      counts
    ∙ ap₂ (λ l m. l ++ m) (added-kept_part keep_empty (c ∷ part) first)
        (kept-kept_parts keep_empty parts short)
