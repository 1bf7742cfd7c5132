-- ===== src/Utilities/Strings/Lines.antt =====
-- `SplitLines`: the lines of a string, with their line breaks or without.
use mathlib.Core.Path.{subst, ap₂}
use mathlib.Core.List.{append-nil}
use m_toolkit.Base.{
  ℕ, zero, suc, ◌+◌, ◌<◌, ◌≡◌, refl, sym, ap, ◌∙◌, Bool, true, false, Option, none, some, List, [],
  ◌∷◌, ◌++◌, arith, length, take, drop, length-drop, take-append-drop, if◌then◌else◌, inl, inr, ◌⊎◌,
  ◌==◌,
}
use m_toolkit.Utilities.Strings.{is_break, to_break, break_size, split_lines_from, split_lines}
use m_toolkit.Utilities.Strings.Breaks.{
  Unbroken, Cut, cut_end, cut_last, cut_line, texts, take-Unbroken, to_next, to_next-pos, Breaks,
  drop-Breaks, break-Ended,
}

take_none : (n : ℕ) → ◌≡◌ {A = List ℕ} (take n []) []
take_none zero = refl
take_none (suc n) = refl

drop_none : (n : ℕ) → ◌≡◌ {A = List ℕ} (drop n []) []
drop_none zero = refl
drop_none (suc n) = refl

take_plus : (n k : ℕ) (value : List ℕ) → take (n + k) value ≡ take n value ++ take k (drop n value)
take_plus zero k value = ap (λ m. take m value) (omega arith)
take_plus (suc n) k [] = take_none (suc n + k) ∙ sym (take_none k)
take_plus (suc n) k (c ∷ value) =
    let same : suc n + k ≡ suc (n + k) = omega arith in
    ap (λ m. take m (c ∷ value)) same ∙ ap (λ l. c ∷ l) (take_plus n k value)

drop_plus : (n k : ℕ) (value : List ℕ) → drop (n + k) value ≡ drop k (drop n value)
drop_plus zero k value = ap (λ m. drop m value) (omega arith)
drop_plus (suc n) k [] = drop_none (suc n + k) ∙ sym (drop_none k)
drop_plus (suc n) k (c ∷ value) =
    let same : suc n + k ≡ suc (n + k) = omega arith in
    ap (λ m. drop m (c ∷ value)) same ∙ drop_plus n k value

abbrev next : Option (List (List ℕ)) → List ℕ → Option (List (List ℕ))
next r line = elim r [ none ↦ none | some lines ↦ some (line ∷ lines) ]

-- What is made of a string, by its lines.
abbrev Result : Bool → List ℕ → Option (List (List ℕ)) → Type 0
Result keep_enter value r =
    (lines : List (List ℕ × List ℕ)) × (r ≡ some (texts keep_enter lines)) × Cut value lines

split_nothing :
    (fuel : ℕ) (keep_enter : Bool) → 0 < fuel → split_lines_from fuel keep_enter [] ≡ some []
unfolding split_lines_from
split_nothing zero keep_enter pos = absurd (omega arith)
split_nothing (suc fuel) keep_enter pos = refl

-- The last line, which nothing ends.
last_line :
    (fuel : ℕ) (keep_enter : Bool) (c : ℕ) (rest : List ℕ)
    → 0 < fuel
    → drop (to_break (c ∷ rest)) (c ∷ rest) ≡ []
    → Result keep_enter (c ∷ rest) (
        next
          (split_lines_from fuel keep_enter (drop (to_next (c ∷ rest)) (c ∷ rest)))
          (take (if keep_enter then to_next (c ∷ rest) else to_break (c ∷ rest)) (c ∷ rest)))
last_line fuel keep_enter c rest pos gone =
    let value : List ℕ = c ∷ rest in
    let n = to_break value in
    let whole : take n value ≡ value =
      sym (append-nil (take n value))
      ∙ ap (λ l. take n value ++ l) (sym gone)
      ∙ take-append-drop n value in
    let size : to_next value ≡ n = ap (λ l. n + break_size l) gone ∙ omega arith in
    (
      (value, []) ∷ [],
      ap₂
            (λ k l.
              next (split_lines_from fuel keep_enter (drop k value))
                (take (if keep_enter then k else n) value))
            size size
          ∙ ap₂ next
              (ap (split_lines_from fuel keep_enter) gone ∙ split_nothing fuel keep_enter pos)
              (either keep_enter n value whole),
      cut_last c rest (subst Unbroken whole (take-Unbroken value)),
    )
  where
    either :
        (keep : Bool) (n : ℕ) (value : List ℕ)
        → take n value ≡ value
        → take (if keep then n else n) value ≡ (if keep then value ++ [] else value)
    either true n value whole = whole ∙ sym (append-nil value)
    either false n value whole = whole

-- A line that a break ends.
full_line :
    (keep_enter : Bool) (value : List ℕ) (d : ℕ) (left : List ℕ) (others : Option (List (List ℕ)))
    → drop (to_break value) value ≡ d ∷ left
    → Result keep_enter (drop (to_next value) value) others
    → Result keep_enter value
        (next others (take (if keep_enter then to_next value else to_break value) value))
full_line keep_enter value d left others e (lines, same, cut) =
    let n = to_break value in
    let k = break_size (d ∷ left) in
    let ends = take k (d ∷ left) in
    let stops : is_break d ≡ true = subst Breaks e (drop-Breaks value) in
    let size : to_next value ≡ n + k = ap (λ l. n + break_size l) e in
    let after : drop (to_next value) value ≡ drop k (d ∷ left) =
      ap (λ m. drop m value) size ∙ drop_plus n k value ∙ ap (λ l. drop k l) e in
    let text : take (to_next value) value ≡ take n value ++ ends =
      ap (λ m. take m value) size ∙ take_plus n k value ∙ ap (λ l. take n value ++ take k l) e in
    let whole : take n value ++ (ends ++ drop k (d ∷ left)) ≡ value =
      ap (λ l. take n value ++ l) (take-append-drop k (d ∷ left) ∙ sym e)
      ∙ take-append-drop n value in
    (
      (take n value, ends) ∷ lines,
      ap₂ next same (either keep_enter (to_next value) n value ends text),
      subst (λ l. Cut l ((take n value, ends) ∷ lines)) whole
          (cut_line (take n value) ends (drop k (d ∷ left)) lines (take-Unbroken value)
            (break-Ended d left stops) (subst (λ l. Cut l lines) after cut)),
    )
  where
    either :
        (keep : Bool) (m n : ℕ) (value ends : List ℕ)
        → take m value ≡ take n value ++ ends
        → take (if keep then m else n) value ≡ (if keep then take n value ++ ends else take n value)
    either true m n value ends text = text
    either false m n value ends text = refl

split_lines_from-Cut :
    (fuel : ℕ) (keep_enter : Bool) (value : List ℕ)
    → length value < fuel
    → Result keep_enter value (split_lines_from fuel keep_enter value)
unfolding split_lines_from
split_lines_from-Cut zero keep_enter value enough = absurd (omega arith)
split_lines_from-Cut (suc fuel) keep_enter [] enough = ([], refl, cut_end)
split_lines_from-Cut (suc fuel) keep_enter (c ∷ rest) enough =
    let value : List ℕ = c ∷ rest in
    let others =
      split_lines_from-Cut fuel keep_enter (drop (to_next value) value)
        (let e = length-drop (to_next value) value in let p = to_next-pos c rest in omega arith) in
    let fails : (suc (length rest) == 0) ≡ false = ground arith in
    subst
      (λ b. Result keep_enter value (
        if b
        then some []
        else next (split_lines_from fuel keep_enter (drop (to_next value) value))
            (take (if keep_enter then to_next value else to_break value) value)))
      (sym fails)
      (elim (List-cases (drop (to_break value) value)) [
        | inl gone ↦ last_line fuel keep_enter c rest (omega arith) gone
        | inr (d, left, e) ↦ full_line keep_enter value d left _ e others
      ])
  where
    List-cases : (l : List ℕ) → (l ≡ []) ⊎ ((d : ℕ) × (left : List ℕ) × (l ≡ d ∷ left))
    List-cases [] = inl refl
    List-cases (d ∷ left) = inr (d, left, refl)

-- SplitLines with one turn more than the string has characters gives a result; the string is cut into
-- lines, each up to the next CR, LF or null character or the end, where CR and LF together are one
-- break; the texts of these lines, with their breaks or without, stand behind what the container held,
-- whose new length is the answer.
pub split_lines-concat :
    (value : List ℕ) (container : List (List ℕ)) (keep_enter : Bool)
    → (lines : List (List ℕ × List ℕ)) × (split_lines
          (suc (length value))
          value
          container
          keep_enter
        ≡ some (container ++ texts keep_enter lines, length (container ++ texts keep_enter lines)))
      × Cut value lines
unfolding split_lines
split_lines-concat value container keep_enter =
    let (lines, e, cut) =
      split_lines_from-Cut (suc (length value)) keep_enter value (omega arith) in
    (
      lines,
      ap (λ r. elim r [ none ↦ none | some ls ↦ some (container ++ ls, length (container ++ ls)) ])
          e,
      cut,
    )
