-- ===== src/LockContainer/LockMap/Laws.antt =====
-- The map against its lookups, and the order of its entries.
use mathlib.Core.Path.{subst, ap₂}
use m_toolkit.Base.{
  ℕ, ◌≤◌, ◌<◌, ◌≡◌, refl, sym, ap, ◌∙◌, Bool, true, false, Option, none, some, List, [], ◌∷◌, arith,
  ltb, ◌==◌, if◌then◌else◌, Bool-cases, ◌⊎◌, inl, inr,
}
use m_toolkit.Base.Maps.{find, erase, find-erase}
use m_toolkit.LockContainer.LockMap.{insert, is_exist, remove_key}

module _ {V : Type 0} where
  -- All keys are above `k`; the keys ascend.
  abbrev pub Above : ℕ → List (ℕ × V) → Type 0
  Above k [] = Unit
  Above k ((j, w) ∷ m) = (k < j) × Above k m

  abbrev pub Ascending : List (ℕ × V) → Type 0
  Ascending [] = Unit
  Ascending ((j, w) ∷ m) = Above j m × Ascending m

  Above-mono : (k k' : ℕ) (m : List (ℕ × V)) → k' ≤ k → Above k m → Above k' m
  Above-mono k k' [] h a = tt
  Above-mono k k' ((j, w) ∷ m) h (a, as') = (omega arith, Above-mono k k' m h as')

  pub find-Above : (k i : ℕ) (m : List (ℕ × V)) → i ≤ k → Above k m → find i m ≡ none
  unfolding find
  find-Above k i [] h a = refl
  find-Above k i ((j, w) ∷ m) h (a, rest) =
      let other : (j == i) ≡ false = ground arith in
      ap (λ b. if b then some w else find i m) other ∙ find-Above k i m h rest

  insert_cases :
      (k : ℕ) (v : V) (j : ℕ) (w : V) (m : List (ℕ × V))
      → ((k < j) × (insert k v ((j, w) ∷ m) ≡ (k, v) ∷ (j, w) ∷ m))
        ⊎ (((k ≡ j) × (insert k v ((j, w) ∷ m) ≡ (j, w) ∷ m))
            ⊎ ((j < k) × (insert k v ((j, w) ∷ m) ≡ (j, w) ∷ insert k v m)))
  unfolding insert
  insert_cases k v j w m = elim (Bool-cases (ltb k j)) [
    | inl before ↦ inl (ground arith, ap (λ b. placed b (k == j)) before)
    | inr not_before ↦ elim (Bool-cases (k == j)) [
      | inl same ↦ inr (inl (ground arith, ap₂ placed not_before same))
      | inr other ↦ inr (inr (ground arith, ap₂ placed not_before other))
    ]
  ]
    where
      placed : Bool → Bool → List (ℕ × V)
      placed b c =
          if b then (k, v) ∷ (j, w) ∷ m else (if c then (j, w) ∷ m else (j, w) ∷ insert k v m)

  Above-insert : (t k : ℕ) (v : V) (m : List (ℕ × V)) → t < k → Above t m → Above t (insert k v m)
  unfolding insert
  Above-insert t k v [] h a = (h, tt)
  Above-insert t k v ((j, w) ∷ m) h (a, rest) = elim (insert_cases k v j w m) [
    | inl (_, e) ↦ subst (Above t) (sym e) (h, (a, rest))
    | inr (inl (_, e)) ↦ subst (Above t) (sym e) (a, rest)
    | inr (inr (_, e)) ↦ subst (Above t) (sym e) (a, Above-insert t k v m h rest)
  ]

  pub Ascending-insert : (k : ℕ) (v : V) (m : List (ℕ × V)) → Ascending m → Ascending (insert k v m)
  unfolding insert
  Ascending-insert k v [] s = (tt, tt)
  Ascending-insert k v ((j, w) ∷ m) (a, s) = elim (insert_cases k v j w m) [
    | inl (l, e) ↦ subst Ascending (sym e) ((l, Above-mono j k m (omega arith) a), (a, s))
    | inr (inl (_, e)) ↦ subst Ascending (sym e) (a, s)
    | inr (inr (l, e)) ↦
        subst Ascending (sym e) (Above-insert j k v m l a, Ascending-insert k v m s)
  ]

  -- What is found after an insertion where `found` was found before.
  abbrev pub inserted : ℕ → V → ℕ → Option V → Option V
  inserted k v i found = elim found [ some w ↦ some w | none ↦ if k == i then some v else none ]

  pub find-inserted :
      (k : ℕ) (v : V) (i : ℕ) (m : List (ℕ × V))
      → Ascending m
      → find i (insert k v m) ≡ inserted k v i (find i m)
  unfolding insert find
  find-inserted k v i [] s = refl
  find-inserted k v i ((j, w) ∷ m) (a, s) = elim (insert_cases k v j w m) [
    | inl (l, e) ↦ ap (find i) e ∙ elim (Bool-cases (k == i)) [
      | inl hit ↦
          let gone : find i ((j, w) ∷ m) ≡ none =
            find-Above k i ((j, w) ∷ m) (ground arith) (l, Above-mono j k m (omega arith) a) in
          ap (λ b. if b then some v else find i ((j, w) ∷ m)) hit
          ∙ sym (ap (λ b. if b then some v else none) hit)
          ∙ sym (ap (inserted k v i) gone)
      | inr miss ↦
          ap (λ b. if b then some v else find i ((j, w) ∷ m)) miss
          ∙ sym (passes (find i ((j, w) ∷ m)) miss)
    ]
    | inr (inl (same, e)) ↦ ap (find i) e ∙ elim (Bool-cases (k == i)) [
      | inl hit ↦
          let there : find i ((j, w) ∷ m) ≡ some w =
            let b : (j == i) ≡ true = ground arith in ap (λ b. if b then some w else find i m) b in
          there ∙ sym (ap (inserted k v i) there)
      | inr miss ↦ sym (passes (find i ((j, w) ∷ m)) miss)
    ]
    | inr (inr (l, e)) ↦ ap (find i) e ∙ elim (Bool-cases (j == i)) [
      | inl hit ↦
          ap (λ b. if b then some w else find i (insert k v m)) hit
          ∙ sym (ap (λ b. inserted k v i (if b then some w else find i m)) hit)
      | inr miss ↦
          ap (λ b. if b then some w else find i (insert k v m)) miss
          ∙ find-inserted k v i m s
          ∙ sym (ap (λ b. inserted k v i (if b then some w else find i m)) miss)
    ]
  ]
    where
      passes : (found : Option V) → (k == i) ≡ false → inserted k v i found ≡ found
      passes none miss = ap (λ b. if b then some v else none) miss
      passes (some w) miss = refl

  Above-erase : (t k : ℕ) (m : List (ℕ × V)) → Above t m → Above t (erase k m)
  unfolding erase
  Above-erase t k [] a = tt
  Above-erase t k ((j, w) ∷ m) (a, rest) = elim (Bool-cases (j == k)) [
    | inl hit ↦
        subst (λ b. Above t (if b then erase k m else (j, w) ∷ erase k m)) (sym hit)
          (Above-erase t k m rest)
    | inr miss ↦
        subst (λ b. Above t (if b then erase k m else (j, w) ∷ erase k m)) (sym miss)
          (a, Above-erase t k m rest)
  ]

  Ascending-erase : (k : ℕ) (m : List (ℕ × V)) → Ascending m → Ascending (erase k m)
  unfolding erase
  Ascending-erase k [] s = tt
  Ascending-erase k ((j, w) ∷ m) (a, s) = elim (Bool-cases (j == k)) [
    | inl hit ↦
        subst (λ b. Ascending (if b then erase k m else (j, w) ∷ erase k m)) (sym hit)
          (Ascending-erase k m s)
    | inr miss ↦
        subst (λ b. Ascending (if b then erase k m else (j, w) ∷ erase k m)) (sym miss)
          (Above-erase j k m a, Ascending-erase k m s)
  ]

-- In a map whose keys ascend, which `ForEach` therefore visits in that order and each once, they ascend
-- after `Insert` and `Remove` too. `Insert` adds its value under its key unless the key is there, and
-- `Remove` takes its key out and says whether it was there; nothing changes under other keys.
pub insert-Ascending :
    {V : Type 0} (key : ℕ) (value : V) (m : List (ℕ × V))
    → Ascending m
    → Ascending (insert key value m)
      × ((i : ℕ) → find i (insert key value m) ≡ inserted key value i (find i m))
      × Ascending (remove_key key m).1
      × ((i : ℕ) → find i (remove_key key m).1 ≡ (if key == i then none else find i m))
      × ((remove_key key m).0 ≡ is_exist key m)
unfolding remove_key
insert-Ascending key value m s = (
  Ascending-insert key value m s,
  λ i. find-inserted key value i m s,
  Ascending-erase key m s,
  λ i. find-erase key i m,
  refl,
)
