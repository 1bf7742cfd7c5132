-- ===== src/Utilities/Strings/Chunks.antt =====
-- `SplitString`: a string in pieces of one size.
use mathlib.Core.Path.{ap₂}
use m_toolkit.Base.{
  ℕ, zero, suc, ◌+◌, ◌-◌, ◌^◌, ◌<◌, ◌≤◌, ◌≡◌, refl, sym, ap, ◌∙◌, true, Option, none, some, List,
  [], ◌∷◌, ◌++◌, arith, length, drop, length-take, length-drop, drop_past, take-append-drop,
  drop-drop, if◌then◌else◌, Bool-cases, inl, inr, add64, ltb,
}
use m_toolkit.Utilities.Strings.{substr, split_string_from, split_string}

abbrev pub concat : List (List ℕ) → List ℕ
concat [] = []
concat (x ∷ xs) = x ++ concat xs

-- Every piece has from 1 to `k` characters.
abbrev pub Pieces : ℕ → List (List ℕ) → Type 0
Pieces k [] = Unit
Pieces k (x ∷ xs) = (0 < length x) × (length x ≤ k) × Pieces k xs

module _ (str : List ℕ) (k : ℕ) where
  next : Option (List (List ℕ)) → List ℕ → Option (List (List ℕ))
  next r chunk = elim r [ none ↦ none | some chunks ↦ some (chunk ∷ chunks) ]

  split_string_from-concat :
      0 < k
      → length str + k < 2 ^ 63
      → (fuel i : ℕ) → i ≤ length str + k
      → length str - i < fuel
      → (chunks : List (List ℕ)) × (split_string_from fuel str k i ≡ some chunks)
        × (concat chunks ≡ drop i str)
        × Pieces k chunks
  unfolding split_string_from next
  split_string_from-concat pos small zero i h enough = absurd (omega arith)
  split_string_from-concat pos small (suc fuel) i h enough =
      elim (Bool-cases (ltb i (length str))) [
        | inr past ↦ ([], rw past refl, sym (drop_past i str (ground arith)), tt)
        | inl before ↦
            let lt : i < length str = ground arith in
            let step : add64 i k ≡ i + k = omega arith in
            let (chunks, e, c, p) =
              split_string_from-concat pos small fuel (i + k) (omega arith) (omega arith) in
            (
              substr str i k ∷ chunks,
              ap₂
                    (λ b j.
                      if b then next (split_string_from fuel str k j) (substr str i k) else some [])
                    before step
                  ∙ ap (λ r. next r (substr str i k)) e,
              ap (λ l. substr str i k ++ l) (c ∙ sym (drop-drop i k str))
                  ∙ take-append-drop k (drop i str),
              (
                omega (arith, length-take k (drop i str), length-drop i str),
                omega (arith, length-take k (drop i str)),
                p,
              ),
            )
      ]

  split_string_from-none :
      k ≡ 0
      → (i : ℕ) → i < length str
      → length str < 2 ^ 63
      → (fuel : ℕ) → split_string_from fuel str k i ≡ none
  unfolding split_string_from next
  split_string_from-none z i before small zero = refl
  split_string_from-none z i before small (suc fuel) =
      let again : add64 i k ≡ i = omega arith in
      let inside : ltb i (length str) ≡ true = ground arith in
      ap₂ (λ b j. if b then next (split_string_from fuel str k j) (substr str i k) else some [])
        inside again
      ∙ ap (λ r. next r (substr str i k)) (split_string_from-none z i before small fuel)

-- `SplitString` with a chunk size other than 0 ends after at most one turn more than the string has
-- characters. Its pieces make up the string, and each has from 1 to `k` characters. With a chunk size
-- of 0 it never ends on a string that is not empty.
pub split_string-concat :
    (str : List ℕ) (k : ℕ)
    → length str + k < 2 ^ 63
    → (0 < k
        → (chunks : List (List ℕ)) × (split_string (suc (length str)) str k ≡ some chunks)
          × (concat chunks ≡ str)
          × Pieces k chunks)
      × (k ≡ 0 → 0 < length str → (fuel : ℕ) → split_string fuel str k ≡ none)
unfolding split_string
split_string-concat str k small = (
  λ pos. split_string_from-concat str k pos small (suc (length str)) 0 (omega arith) (omega arith),
  λ z some_left fuel. split_string_from-none str k z 0 some_left (omega arith) fuel,
)
