-- ===== src/Utilities/Strings/Breaks.antt =====
-- Where a string is left at the end of a line, and what a string is cut into.
use mathlib.Core.Path.{subst}
use m_toolkit.Base.{
  ℕ, suc, ◌+◌, ◌<◌, ◌≤◌, ◌≡◌, ◌≢◌, refl, sym, ap, Bool, true, false, List, [], ◌∷◌, ◌++◌, arith,
  length, take, drop, if◌then◌else◌, Bool-cases, inl, inr, ◌⊎◌, ◌==◌,
}
use m_toolkit.Utilities.Strings.{is_break, to_break, break_size}

-- No character ends a line.
abbrev pub Unbroken : List ℕ → Type 0
Unbroken [] = Unit
Unbroken (c ∷ cs) = (c ≢ 13) × (c ≢ 10) × (c ≢ 0) × Unbroken cs

abbrev unbroken : List ℕ → Bool
unbroken [] = true
unbroken (c ∷ cs) = if is_break c then false else unbroken cs

-- What ends a line before `rest`: CR and LF together, one of CR, LF and the null character, or the end of
-- the string. A CR alone does not stand before an LF.
pub data Break : List ℕ → List ℕ → Type 0 where
  cr_lf : (rest : List ℕ) → Break (13 ∷ 10 ∷ []) rest
  cr_alone : (c : ℕ) (rest : List ℕ) → (c == 10) ≡ false → Break (13 ∷ []) (c ∷ rest)
  cr_last : Break (13 ∷ []) []
  lf : (rest : List ℕ) → Break (10 ∷ []) rest
  nul : (rest : List ℕ) → Break (0 ∷ []) rest

-- A string cut into lines, each with its break; only a last line that is not empty may have none.
pub data Cut : List ℕ → List (List ℕ × List ℕ) → Type 0 where
  cut_end : Cut [] []
  cut_last : (c : ℕ) (line : List ℕ) → Unbroken (c ∷ line) → Cut (c ∷ line) ((c ∷ line, []) ∷ [])
  cut_line :
      (line ends rest : List ℕ) (lines : List (List ℕ × List ℕ))
      → Unbroken line
      → Break ends rest
      → Cut rest lines
      → Cut (line ++ (ends ++ rest)) ((line, ends) ∷ lines)

-- The lines, with their breaks or without.
abbrev pub texts : (keep_enter : Bool) → List (List ℕ × List ℕ) → List (List ℕ)
texts keep_enter [] = []
texts keep_enter ((line, ends) ∷ lines) =
    (if keep_enter then line ++ ends else line) ∷ texts keep_enter lines

to_break-bound : (rest : List ℕ) → to_break rest ≤ length rest
to_break-bound [] = omega arith
to_break-bound (c ∷ rest) = ground (arith, to_break-bound rest)

unbroken-take : (rest : List ℕ) → unbroken (take (to_break rest) rest) ≡ true
unbroken-take [] = refl
unbroken-take (c ∷ rest) = ground (arith, unbroken-take rest)

unbroken-Unbroken : (line : List ℕ) → unbroken line ≡ true → Unbroken line
unbroken-Unbroken [] e = tt
unbroken-Unbroken (c ∷ line) e = (
  λ same. ground arith,
  λ same. ground arith,
  λ same. ground arith,
  unbroken-Unbroken line (ground arith),
)

pub take-Unbroken : (rest : List ℕ) → Unbroken (take (to_break rest) rest)
take-Unbroken rest = unbroken-Unbroken _ (unbroken-take rest)

break_size-pos : (c : ℕ) (rest : List ℕ) → 0 < break_size (c ∷ rest)
break_size-pos c [] = omega arith
break_size-pos c (d ∷ rest) = ground arith

-- A turn gets on.
abbrev pub to_next : List ℕ → ℕ
to_next rest = to_break rest + break_size (drop (to_break rest) rest)

pub to_next-pos : (c : ℕ) (rest : List ℕ) → 0 < to_next (c ∷ rest)
to_next-pos c rest = elim (Bool-cases (is_break c)) [
  | inl stops ↦
      subst (λ k. 0 < k + break_size (drop k (c ∷ rest)))
        (sym (ap (λ b. if b then 0 else suc (to_break rest)) stops))
        (let l = break_size-pos c rest in omega arith)
  | inr runs ↦
      subst (λ k. 0 < k + break_size (drop k (c ∷ rest)))
        (sym (ap (λ b. if b then 0 else suc (to_break rest)) runs)) (omega arith)
]

-- Where a string is left from its first break on.
abbrev pub Breaks : List ℕ → Type 0
Breaks [] = Unit
Breaks (d ∷ rest) = is_break d ≡ true

pub drop-Breaks : (value : List ℕ) → Breaks (drop (to_break value) value)
drop-Breaks [] = tt
drop-Breaks (c ∷ value) = elim (Bool-cases (is_break c)) [
  | inl stops ↦
      subst (λ b. Breaks (drop (if b then 0 else suc (to_break value)) (c ∷ value))) (sym stops)
        stops
  | inr runs ↦
      subst (λ b. Breaks (drop (if b then 0 else suc (to_break value)) (c ∷ value))) (sym runs)
        (drop-Breaks value)
]

break_cases : (c : ℕ) → is_break c ≡ true → (c ≡ 13) ⊎ ((c ≡ 10) ⊎ (c ≡ 0))
break_cases c e = elim (Bool-cases (c == 13)) [
  | inl hit ↦ inl (ground arith)
  | inr miss ↦ elim (Bool-cases (c == 10)) [
    | inl hit ↦ inr (inl (ground arith))
    | inr other ↦ inr (inr (ground arith))
  ]
]

abbrev pub Ended : List ℕ → Type 0
Ended rest = Break (take (break_size rest) rest) (drop (break_size rest) rest)

pub break-Ended : (d : ℕ) (rest : List ℕ) → is_break d ≡ true → Ended (d ∷ rest)
break-Ended d rest e = elim (break_cases d e) [
  | inl cr ↦ subst (λ d. Ended (d ∷ rest)) (sym cr) (after_cr rest)
  | inr (inl is_lf) ↦ subst (λ d. Ended (d ∷ rest)) (sym is_lf) (after_lf rest)
  | inr (inr is_nul) ↦ subst (λ d. Ended (d ∷ rest)) (sym is_nul) (after_nul rest)
]
  where
    after_lf : (rest : List ℕ) → Ended (10 ∷ rest)
    after_lf [] = lf []
    after_lf (c ∷ rest) = lf (c ∷ rest)

    after_nul : (rest : List ℕ) → Ended (0 ∷ rest)
    after_nul [] = nul []
    after_nul (c ∷ rest) = nul (c ∷ rest)

    after_cr : (rest : List ℕ) → Ended (13 ∷ rest)
    after_cr [] = cr_last
    after_cr (c ∷ rest) = elim (Bool-cases (c == 10)) [
      | inl hit ↦
          let same : c ≡ 10 = ground arith in
          subst (λ c. Ended (13 ∷ c ∷ rest)) (sym same) (cr_lf rest)
      | inr miss ↦
          subst
            (λ b.
              Break (take (if b then 2 else 1) (13 ∷ c ∷ rest))
                (drop (if b then 2 else 1) (13 ∷ c ∷ rest)))
            (sym miss) (cr_alone c rest miss)
    ]
