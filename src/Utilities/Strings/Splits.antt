-- ===== src/Utilities/Strings/Splits.antt =====
-- `Split`: the parts of a string between the occurrences of a key.
use mathlib.Core.Path.{subst, ap₂}
use mathlib.Core.List.{append-nil}
use native.Mathlib.Decide.{dec_lt}
use m_toolkit.Base.{
  ℕ, zero, suc, ◌+◌, ◌<◌, ◌^◌, ◌≡◌, ◌≢◌, length-append, refl, sym, ap, ◌∙◌, Bool, true, false, not,
  Option, none, some, List, [], ◌∷◌, ◌++◌, arith, length, take, drop, length-take, length-drop,
  take-all, if◌then◌else◌, ◌==◌,
}
use m_toolkit.Utilities.Strings.{search, kept_part, split_from, split}
use m_toolkit.Utilities.Strings.Keeps.{join, kept_parts, kept, kept-kept_parts, join-Short}
use m_toolkit.Utilities.Strings.Searches.{search-within, search-bound, search-take, search-found}

-- The key is found in none of the parts.
abbrev Missed : List ℕ → List (List ℕ) → Type 0
Missed key [] = Unit
Missed key (x ∷ xs) = (search key x ≡ length x) × Missed key xs

-- The key occurs in none of the parts.
abbrev pub Free : List ℕ → List (List ℕ) → Type 0
Free key [] = Unit
Free key (x ∷ xs) = ((front back : List ℕ) → x ≢ front ++ (key ++ back)) × Free key xs

Missed-Free :
    (key : List ℕ) (parts : List (List ℕ)) → 0 < length key → Missed key parts → Free key parts
Missed-Free key [] pos missed = tt
Missed-Free key (x ∷ xs) pos (here, missed) = (
  λ front back e.
      let within = search-within key front back pos in
      let same : search key x ≡ search key (front ++ (key ++ back)) = ap (search key) e in
      let long : length x ≡ length (front ++ (key ++ back)) = ap length e in
      let first = length-append front (key ++ back) in
      let second = length-append key back in omega arith,
  Missed-Free key xs pos missed,
)

-- The parts of a string, and what `Split` makes of them.
Parts : List ℕ → Bool → List ℕ → Option (List (List ℕ)) → Type 0
Parts key keep_empty rest result =
    (x : List ℕ) × (xs : List (List ℕ)) × (result ≡ some (kept_parts keep_empty (x ∷ xs)))
    × (join key (x ∷ xs) ≡ rest)
    × Missed key (x ∷ xs)

module _ (key : List ℕ) (keep_empty : Bool) where
  kept_one :
      (part : List ℕ)
      → (length part == 0) ≡ false
      → kept_parts keep_empty (part ∷ []) ≡ kept_part keep_empty part
  kept_one part e =
      ap (λ b. if b then [] else kept_part keep_empty part ++ []) e
      ∙ append-nil (kept_part keep_empty part)

  last_part :
      (rest : List ℕ)
      → search key rest ≡ length rest
      → (length rest == 0) ≡ false
      → Parts key keep_empty rest (some (kept_part keep_empty (take (search key rest) rest)))
  unfolding Parts
  last_part rest e some_left = (
    rest,
    [],
    ap some (
        ap (λ k. kept_part keep_empty (take k rest)) e
        ∙ ap (kept_part keep_empty) (take-all rest)
        ∙ sym (kept_one rest some_left)),
    refl,
    (e, tt),
  )

  one_more :
      (rest : List ℕ) (others : Option (List (List ℕ)))
      → search key rest < length rest
      → Parts key keep_empty (drop (search key rest + length key) rest) others
      → Parts key keep_empty rest (
          if not (search key rest == 0)
          then elim others [
            | none ↦ none
            | some parts ↦ some (kept_part keep_empty (take (search key rest) rest) ++ parts)
          ]
          else others)
  unfolding Parts
  one_more rest others h (x, xs, e, j, f) =
      let k = search key rest in
      let part = take k rest in
      let size : length part ≡ k = omega (arith, length-take k rest) in
      let tail = kept_parts keep_empty (x ∷ xs) in
      (
        part,
        x ∷ xs,
        ap
              (λ o.
                if not (k == 0)
                then elim o [ none ↦ none | some parts ↦ some (kept_part keep_empty part ++ parts) ]
                else o)
              e
            ∙ flip (k == 0) (kept_part keep_empty part) tail
            ∙ ap (λ n. some (if n == 0 then tail else kept_part keep_empty part ++ tail))
                (sym size),
        ap (λ l. part ++ (key ++ l)) j ∙ search-found key rest h,
        (search-take key rest ∙ sym size, f),
      )
    where
      flip :
          (b : Bool) (part tail : List (List ℕ))
          → ◌≡◌ {A = Option (List (List ℕ))}
              (if not b then some (part ++ tail) else some tail)
              (some (if b then tail else part ++ tail))
      flip true part tail = refl
      flip false part tail = refl

  nothing : Parts key keep_empty [] (some [])
  unfolding Parts
  nothing = ([], [], refl, refl, (refl, tt))

  shape : (a b c : Bool) (part : List ℕ) → Option (List (List ℕ)) → Option (List (List ℕ))
  shape a b c part others =
      if not a
      then (if b
          then some (kept_part keep_empty part)
          else elim others [ none ↦ none | some parts ↦ some (kept_part keep_empty part ++ parts) ])
      else (if c then some [] else others)

  split_from-Parts :
      (fuel : ℕ) (rest : List ℕ)
      → 0 < length key
      → length rest < fuel
      → Parts key keep_empty rest (split_from fuel key keep_empty rest)
  unfolding split_from shape
  split_from-Parts zero rest pos enough = absurd (omega arith)
  split_from-Parts (suc fuel) [] pos enough = nothing
  split_from-Parts (suc fuel) (c ∷ r) pos enough =
      let rest : List ℕ = c ∷ r in
      let k = search key rest in
      let others = split_from fuel key keep_empty (drop (k + length key) rest) in
      let some_left : (length rest == 0) ≡ false = ground arith in
      elim (dec_lt k (length rest)) [
        | yes before ↦
            let found : (k == length rest) ≡ false = ground arith in
            subst (Parts key keep_empty rest)
              (sym (ap₂ (λ b c. shape (k == 0) b c (take k rest) others) found some_left))
              (one_more rest others before (
                split_from-Parts fuel (drop (k + length key) rest) pos
                  (omega (arith, length-drop (k + length key) rest))))
        | no past ↦
            let at_end : k ≡ length rest = omega (arith, search-bound key rest) in
            let ended : (k == length rest) ≡ true = ground arith in
            let moved : (k == 0) ≡ false = ground arith in
            subst (Parts key keep_empty rest)
              (sym (ap₂ (λ a b. shape a b (length rest == 0) (take k rest) others) moved ended))
              (last_part rest at_end some_left)
      ]

-- `Split` of a string shorter than 2^62 by a key that is not empty ends after at most one turn more than the string has characters.
-- With the key between them, the parts that it goes through make up the string, and the key occurs in
-- none of them. Of these parts it keeps those that are not empty, without line breaks at their ends,
-- and of the latter, unless `keep_empty`, those that are not empty; they stand behind what the
-- container held, whose new length is the answer.
pub split-join :
    (value key : List ℕ) (container : List (List ℕ)) (keep_empty : Bool)
    → 0 < length key
    → length value < 2 ^ 62
    → (parts : List (List ℕ)) × (split (suc (length value)) value key container keep_empty
        ≡ some (container ++ kept keep_empty parts, length (container ++ kept keep_empty parts)))
      × (join key parts ≡ value)
      × Free key parts
unfolding split Parts
split-join value key container keep_empty pos short =
    let (x, xs, e, j, f) =
      split_from-Parts key keep_empty (suc (length value)) value pos (omega arith) in
    let keyed : (length key == 0) ≡ false = ground arith in
    (
      x ∷ xs,
      ap₂ (λ b r. if b then some (container ++ value ∷ [], suc (length container)) else behind r)
          keyed
          (e
            ∙ ap some (
                kept-kept_parts keep_empty (x ∷ xs)
                  (join-Short key xs x (subst (λ l. length l < 2 ^ 62) (sym j) short)))),
      j,
      Missed-Free key (x ∷ xs) pos f,
    )
  where
    behind : Option (List (List ℕ)) → Option (List (List ℕ) × ℕ)
    behind r = elim r [
      | none ↦ none
      | some parts ↦ some (container ++ parts, length (container ++ parts))
    ]
