-- ===== src/Utilities/Strings/Searches.antt =====
-- The first occurrence of a key in a string.
use mathlib.Core.Path.{subst, ap₂}
use m_toolkit.Base.{
  ℕ, zero, suc, ◌+◌, ◌<◌, ◌≤◌, ◌≡◌, refl, sym, ap, ◌∙◌, true, false, List, [], ◌∷◌, ◌++◌, arith,
  length, take, drop, take-append-drop, drop-drop, if◌then◌else◌, Bool-cases, inl, inr,
}
use m_toolkit.Utilities.Strings.{starts_with, search}

starts_with-take :
    (key : List ℕ) (k : ℕ) (rest : List ℕ)
    → starts_with key (take k rest) ≡ true
    → starts_with key rest ≡ true
starts_with-take [] k rest h = refl
starts_with-take (a ∷ key) zero rest h = absurd (ground arith)
starts_with-take (a ∷ key) (suc k) [] h = h
starts_with-take (a ∷ key) (suc k) (c ∷ rest) h = ground (arith, starts_with-take key k rest)

pub search-bound : (key rest : List ℕ) → search key rest ≤ length rest
search-bound key [] = omega arith
search-bound key (c ∷ rest) = ground (arith, search-bound key rest)

-- Up to the first key, there is none.
pub search-take : (key rest : List ℕ) → search key (take (search key rest) rest) ≡ search key rest
search-take key [] = refl
search-take key (c ∷ rest) = elim (Bool-cases (starts_with key (c ∷ rest))) [
  | inl here ↦
      subst (λ k. search key (take k (c ∷ rest)) ≡ k)
        (sym (ap (λ b. if b then 0 else suc (search key rest)) here)) refl
  | inr later ↦
      let k = search key rest in
      let none_yet : starts_with key (c ∷ take k rest) ≡ false =
        elim (Bool-cases (starts_with key (c ∷ take k rest))) [
          | inl early ↦
              absurd (let h = starts_with-take key (suc k) (c ∷ rest) early in ground arith)
          | inr fine ↦ fine
        ] in
      subst (λ k. search key (take k (c ∷ rest)) ≡ k)
        (sym (ap (λ b. if b then 0 else suc (search key rest)) later))
        (ap (λ b. if b then 0 else suc (search key (take k rest))) none_yet
          ∙ ap suc (search-take key rest))
]

starts_with-drop :
    (key rest : List ℕ) → starts_with key rest ≡ true → rest ≡ key ++ drop (length key) rest
starts_with-drop [] rest h = refl
starts_with-drop (a ∷ key) [] h = absurd (ground arith)
starts_with-drop (a ∷ key) (c ∷ rest) h =
    ap₂ (λ x l. x ∷ l) (ground arith) (starts_with-drop key rest (ground arith))

-- At a place before the end, the key was found.
search-starts :
    (key rest : List ℕ)
    → search key rest < length rest
    → starts_with key (drop (search key rest) rest) ≡ true
search-starts key [] h = absurd (omega arith)
search-starts key (c ∷ rest) h = elim (Bool-cases (starts_with key (c ∷ rest))) [
  | inl here ↦
      subst (λ k. starts_with key (drop k (c ∷ rest)) ≡ true)
        (sym (ap (λ b. if b then 0 else suc (search key rest)) here)) here
  | inr later ↦
      subst (λ k. starts_with key (drop k (c ∷ rest)) ≡ true)
        (sym (ap (λ b. if b then 0 else suc (search key rest)) later))
        (search-starts key rest (ground arith))
]

pub search-found :
    (key rest : List ℕ)
    → search key rest < length rest
    → take (search key rest) rest ++ (key ++ drop (search key rest + length key) rest) ≡ rest
search-found key rest h =
    let k = search key rest in
    ap (λ l. take k rest ++ (key ++ l)) (sym (drop-drop k (length key) rest))
    ∙ ap (λ l. take k rest ++ l)
        (sym (starts_with-drop key (drop k rest) (search-starts key rest h)))
    ∙ take-append-drop k rest

starts_with-append : (key back : List ℕ) → starts_with key (key ++ back) ≡ true
starts_with-append [] back = refl
starts_with-append (a ∷ key) back = ground (arith, starts_with-append key back)

-- A key that occurs is found no later than there.
pub search-within :
    (key front back : List ℕ) → 0 < length key → search key (front ++ (key ++ back)) ≤ length front
search-within [] front back pos = absurd (omega arith)
search-within (a ∷ key) [] back pos =
    let here = starts_with-append (a ∷ key) back in
    subst (λ b. (if b then 0 else suc (search (a ∷ key) (key ++ back))) ≤ 0) (sym here)
      (omega arith)
search-within (a ∷ key) (c ∷ front) back pos =
    elim (Bool-cases (starts_with (a ∷ key) (c ∷ (front ++ (a ∷ key ++ back))))) [
      | inl here ↦
          subst
            (λ b.
              (if b then 0 else suc (search (a ∷ key) (front ++ (a ∷ key ++ back))))
              ≤ suc (length front))
            (sym here) (omega arith)
      | inr later ↦
          let l = search-within (a ∷ key) front back pos in
          subst
            (λ b.
              (if b then 0 else suc (search (a ∷ key) (front ++ (a ∷ key ++ back))))
              ≤ suc (length front))
            (sym later) (omega arith)
    ]
