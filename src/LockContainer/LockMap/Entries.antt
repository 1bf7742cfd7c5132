-- ===== src/LockContainer/LockMap/Entries.antt =====
-- `RemoveIf` against the lookups, and changes of values that `ForEach` makes.
use mathlib.Core.Path.{subst}
use m_toolkit.Base.{
  ℕ, ◌≡◌, refl, sym, ap, ◌∙◌, Bool, true, false, Option, none, some, List, [], ◌∷◌, arith, ◌==◌,
  if◌then◌else◌, Bool-cases, inl, inr,
}
use m_toolkit.Base.Maps.{find}
use m_toolkit.LockContainer.LockMap.{remove_entries, change_all}
use m_toolkit.LockContainer.LockMap.Laws.{Above, Ascending, find-Above}

module _ {V : Type 0} where
  Above-change_all :
      (f : ℕ → V → V) (k : ℕ) (m : List (ℕ × V)) → Above k m → Above k (change_all f m)
  Above-change_all f k [] a = tt
  Above-change_all f k ((j, w) ∷ m) (a, rest) = (a, Above-change_all f k m rest)

  pub Ascending-change_all :
      (f : ℕ → V → V) (m : List (ℕ × V)) → Ascending m → Ascending (change_all f m)
  Ascending-change_all f [] s = tt
  Ascending-change_all f ((j, w) ∷ m) (a, s) =
      (Above-change_all f j m a, Ascending-change_all f m s)

  abbrev pub changed : (ℕ → V → V) → ℕ → Option V → Option V
  changed f i none = none
  changed f i (some v) = some (f i v)

  pub find-change_all :
      (f : ℕ → V → V) (i : ℕ) (m : List (ℕ × V)) → find i (change_all f m) ≡ changed f i (find i m)
  unfolding find
  find-change_all f i [] = refl
  find-change_all f i ((j, w) ∷ m) = elim (Bool-cases (j == i)) [
    | inl hit ↦
        let same : j ≡ i = ground arith in
        ap (λ b. if b then some (f j w) else find i (change_all f m)) hit
        ∙ ap (λ k. some (f k w)) same
        ∙ sym (ap (λ b. changed f i (if b then some w else find i m)) hit)
    | inr miss ↦
        ap (λ b. if b then some (f j w) else find i (change_all f m)) miss
        ∙ find-change_all f i m
        ∙ sym (ap (λ b. changed f i (if b then some w else find i m)) miss)
  ]

  Above-remove_entries :
      (p : ℕ × V → Bool) (k : ℕ) (m : List (ℕ × V)) → Above k m → Above k (remove_entries p m)
  unfolding remove_entries
  Above-remove_entries p k [] a = tt
  Above-remove_entries p k ((j, w) ∷ m) (a, rest) =
      either (p (j, w)) (Above-remove_entries p k m rest)
    where
      either :
          (b : Bool)
          → Above k (remove_entries p m)
          → Above k (if b then remove_entries p m else (j, w) ∷ remove_entries p m)
      either true others = others
      either false others = (a, others)

  pub Ascending-remove_entries :
      (p : ℕ × V → Bool) (m : List (ℕ × V)) → Ascending m → Ascending (remove_entries p m)
  unfolding remove_entries
  Ascending-remove_entries p [] s = tt
  Ascending-remove_entries p ((j, w) ∷ m) (a, s) =
      either (p (j, w)) (Ascending-remove_entries p m s)
    where
      either :
          (b : Bool)
          → Ascending (remove_entries p m)
          → Ascending (if b then remove_entries p m else (j, w) ∷ remove_entries p m)
      either true others = others
      either false others = (Above-remove_entries p j m a, others)

  abbrev pub kept : (ℕ × V → Bool) → ℕ → Option V → Option V
  kept p i none = none
  kept p i (some v) = if p (i, v) then none else some v

  pub find-remove_entries :
      (p : ℕ × V → Bool) (i : ℕ) (m : List (ℕ × V))
      → Ascending m
      → find i (remove_entries p m) ≡ kept p i (find i m)
  unfolding find remove_entries
  find-remove_entries p i [] s = refl
  find-remove_entries p i ((j, w) ∷ m) (a, s) = elim (Bool-cases (j == i)) [
    | inl hit ↦
        let same : j ≡ i = ground arith in
        here (p (j, w)) same hit (
          subst (λ k. find k (remove_entries p m) ≡ none) same
            (find-Above j j (remove_entries p m) (omega arith) (Above-remove_entries p j m a)))
        ∙ ap (λ k. if p (k, w) then none else some w) same
        ∙ sym (ap (λ b. kept p i (if b then some w else find i m)) hit)
    | inr miss ↦
        passes (p (j, w)) miss
        ∙ find-remove_entries p i m s
        ∙ sym (ap (λ b. kept p i (if b then some w else find i m)) miss)
  ]
    where
      here :
          (b : Bool)
          → j ≡ i
          → (j == i) ≡ true
          → find i (remove_entries p m) ≡ none
          → find i (if b then remove_entries p m else (j, w) ∷ remove_entries p m)
            ≡ (if b then none else some w)
      here true same hit gone = gone
      here false same hit gone = ap (λ b. if b then some w else find i (remove_entries p m)) hit

      passes :
          (b : Bool)
          → (j == i) ≡ false
          → find i (if b then remove_entries p m else (j, w) ∷ remove_entries p m)
            ≡ find i (remove_entries p m)
      passes true miss = refl
      passes false miss = ap (λ b. if b then some w else find i (remove_entries p m)) miss
