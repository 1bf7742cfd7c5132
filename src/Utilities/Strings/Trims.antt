-- ===== src/Utilities/Strings/Trims.antt =====
-- `Trim` against a definition that takes characters off one by one.
use mathlib.Core.Path.{ap₂}
use m_toolkit.Base.{
  ℕ, zero, suc, ◌+◌, ◌^◌, ◌<◌, ◌≤◌, ◌≡◌, refl, sym, ap, ◌∙◌, Bool, true, Option, none, some, List,
  [], ◌∷◌, arith, length, length-drop, take, drop, if◌then◌else◌, Bool-cases, Option-cases, ◌⊎◌,
  inl, inr, add64, sub64, ◌==◌,
}
use m_toolkit.Base.Maps.{has}
use m_toolkit.Utilities.Strings.{
  find_first_not_of, find_last_not_of, position, substr, trim, trim_c,
}

abbrev pub trim_front : List ℕ → List ℕ → List ℕ
trim_front group [] = []
trim_front group (c ∷ value) = if has c group then trim_front group value else c ∷ value

abbrev pub trim_back : List ℕ → List ℕ → List ℕ
trim_back group [] = []
trim_back group (c ∷ value) = elim (trim_back group value) [
  | [] ↦ if has c group then [] else c ∷ []
  | d ∷ rest ↦ c ∷ d ∷ rest
]

module _ (group : List ℕ) where
  -- Where `find_last_not_of` finds something, and what is left up to there.
  Last : List ℕ → Type 0
  Last value =
      ((find_last_not_of group value ≡ none) × (trim_back group value ≡ []))
      ⊎ ((i : ℕ) × (c : ℕ) × (cs : List ℕ) × (find_last_not_of group value ≡ some i)
          × (trim_back group value ≡ c ∷ cs)
          × (c ∷ cs ≡ take (suc i) value)
          × (i < length value))

  Last-cases : (value : List ℕ) → Last value
  unfolding Last find_last_not_of
  Last-cases [] = inl (refl, refl)
  Last-cases (c ∷ value) = elim (Last-cases value) [
    | inl (e₁, e₂) ↦ elim (Bool-cases (has c group)) [
      | inl hit ↦ inl (ground arith, ground arith)
      | inr miss ↦ inr (0, c, [], ground arith, ground arith, refl, omega arith)
    ]
    | inr (i, d, ds, e₁, e₂, e₃, l) ↦
        inr (suc i, c, d ∷ ds, ground arith, ground arith, ap (λ x. c ∷ x) e₃, omega arith)
  ]

  First : List ℕ → Type 0
  First value =
      ((find_first_not_of group value ≡ none) × (trim_front group value ≡ []))
      ⊎ ((i : ℕ) × (find_first_not_of group value ≡ some i)
          × (trim_front group value ≡ drop i value)
          × (j : ℕ) × (find_last_not_of group (drop i value) ≡ some j)
          × (find_last_not_of group value ≡ some (i + j)))

  First-cases : (value : List ℕ) → First value
  unfolding First find_first_not_of find_last_not_of
  First-cases [] = inl (refl, refl)
  First-cases (c ∷ value) = elim (Bool-cases (has c group)) [
    | inl hit ↦ elim (First-cases value) [
      | inl (e₁, e₂) ↦ inl (ground arith, ground arith)
      | inr (i, e₁, e₂, j, e₃, e₄) ↦ inr (suc i, ground arith, ground arith, j, e₃, ground arith)
    ]
    | inr miss ↦ elim (Option-cases (find_last_not_of group value)) [
      | inl e ↦ inr (0, ground arith, ground arith, 0, ground arith, ground arith)
      | inr (j, e) ↦ inr (0, ground arith, ground arith, suc j, ground arith, ground arith)
    ]
  ]

  -- `Trim` takes off the characters of `group` in front, and then those behind, and no others.
  pub trim-eq-trim_back :
      (value : List ℕ)
      → length value < 2 ^ 62
      → trim value group ≡ trim_back group (trim_front group value)
  unfolding trim First Last
  trim-eq-trim_back value small = elim (First-cases value) [
    | inl (e₁, e₂) ↦
        ap (λ f. body value (find_last_not_of group value) f) e₁ ∙ sym (ap (trim_back group) e₂)
    | inr (i, e₁, e₂, j, e₃, e₄) ↦ elim (Last-cases (drop i value)) [
      | inl (e₅, _) ↦ absurd (ground arith)
      | inr (k, c, cs, e₅, e₆, e₇, l) ↦
          let same : j ≡ k = ap position (sym e₃ ∙ e₅) in
          let count : sub64 (add64 1 (i + j)) i ≡ suc k = omega (arith, length-drop i value) in
          ap₂ (body value) e₄ e₁
          ∙ ap (λ n. take n (drop i value)) count
          ∙ sym e₇
          ∙ sym e₆
          ∙ sym (ap (trim_back group) e₂)
    ]
  ]
    where
      body : List ℕ → Option ℕ → Option ℕ → List ℕ
      body value last first = elim first as (λ _. List ℕ) [
        | none ↦ []
        | some i ↦ substr value (position first) (sub64 (add64 1 (position last)) (position first))
      ]

-- A C string: what stands before its first null character.
abbrev pub until_nul : List ℕ → List ℕ
until_nul [] = []
until_nul (c ∷ str) = if c == 0 then [] else c ∷ until_nul str

-- `Trim` of a pointer, where the memory holds a null character or as many characters as it may take,
-- reads within the memory and gives the C string there, cut off after that many characters.
trim_c-until_nul :
    (str : List ℕ) (max_len : ℕ)
    → (max_len ≤ length str) ⊎ (has 0 str ≡ true)
    → trim_c str max_len ≡ some (take max_len (until_nul str))
unfolding trim_c
trim_c-until_nul str zero enough = refl
trim_c-until_nul [] (suc n) enough =
    absurd (elim enough [ inl l ↦ omega arith | inr h ↦ ground arith ])
trim_c-until_nul (c ∷ str) (suc n) enough = elim (Bool-cases (c == 0)) [
  | inl stop ↦
      ap (λ b. turn b (trim_c str n)) stop
      ∙ sym (ap (λ b. some (take (suc n) (if b then [] else c ∷ until_nul str))) stop)
  | inr runs ↦
      let enough' : (n ≤ length str) ⊎ (has 0 str ≡ true) = elim enough [
        | inl l ↦ inl (omega arith)
        | inr h ↦ inr (ground arith)
      ] in
      ap₂ turn runs (trim_c-until_nul str n enough')
      ∙ sym (ap (λ b. some (take (suc n) (if b then [] else c ∷ until_nul str))) runs)
]
  where
    turn : Bool → Option (List ℕ) → Option (List ℕ)
    turn b r = if b then some [] else elim r [ none ↦ none | some cs ↦ some (c ∷ cs) ]
