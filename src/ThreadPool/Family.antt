-- ===== src/ThreadPool/Family.antt =====
-- The workers as a family: one of them moves, and the others stay; sums over all of them.
use m_toolkit.Base.{
  ℕ, zero, suc, ◌+◌, ◌*◌, ◌<◌, ◌≤◌, ◌≡◌, refl, sym, ap, ◌∙◌, arith, false, ◌==◌, if◌then◌else◌,
}
use mathlib.Core.Path.{subst}
use native.Mathlib.Decide.{dec_lt}
use m_toolkit.Base.Maps.{update}
use m_toolkit.ThreadPool.{Pc}

-- The sum of `f` over the workers below `size`.
unfoldable pub total : (f : Pc → ℕ) (size : ℕ) → (ℕ → Pc) → ℕ
total f zero pc = 0
total f (suc size) pc = f (pc size) + total f size pc

total-past :
    (f : Pc → ℕ) (size i : ℕ) (pc : ℕ → Pc) (p : Pc)
    → size ≤ i
    → total f size (update pc i p) ≡ total f size pc
unfolding total
total-past f zero i pc p above = refl
total-past f (suc size) i pc p above = ground (arith, total-past f size i pc p (omega arith))

total-update :
    (f : Pc → ℕ) (size i : ℕ) (pc : ℕ → Pc) (p : Pc)
    → i < size
    → total f size (update pc i p) + f (pc i) ≡ total f size pc + f p
unfolding total
total-update f zero i pc p below = absurd (omega arith)
total-update f (suc size) i pc p below = elim (dec_lt i size) [
  | yes smaller ↦ ground (arith, total-update f size i pc p smaller)
  | no last ↦ ground (arith, total-past f size i pc p (omega arith))
]

pub total-le : (f : Pc → ℕ) (size : ℕ) (pc : ℕ → Pc) → ((p : Pc) → f p ≤ 1) → total f size pc ≤ size
unfolding total
total-le f zero pc small = omega arith
total-le f (suc size) pc small =
    let l = total-le f size pc small in let l' = small (pc size) in omega arith

pub total-map :
    (f : Pc → ℕ) (size : ℕ) (g : Pc → Pc) (pc : ℕ → Pc)
    → ((p : Pc) → f (g p) ≡ f p)
    → total f size (λ i. g (pc i)) ≡ total f size pc
unfolding total
total-map f zero g pc same = refl
total-map f (suc size) g pc same =
    ap (λ n. n + total f size (λ i. g (pc i))) (same (pc size))
    ∙ ap (λ n. f (pc size) + n) (total-map f size g pc same)

pub total-none : (f : Pc → ℕ) (size : ℕ) (p : Pc) → f p ≡ 0 → total f size (λ _. p) ≡ 0
unfolding total
total-none f zero p nothing = refl
total-none f (suc size) p nothing = let l = total-none f size p nothing in omega arith

pub total-at :
    (f : Pc → ℕ) (size i : ℕ) (pc : ℕ → Pc) (q p : Pc)
    → i < size
    → pc i ≡ q
    → total f size (update pc i p) + f q ≡ total f size pc + f p
total-at f size i pc q p below at =
    ap (λ r. total f size (update pc i p) + f r) (sym at) ∙ total-update f size i pc p below

pub total-ge : (f : Pc → ℕ) (size i : ℕ) (pc : ℕ → Pc) → i < size → f (pc i) ≤ total f size pc
unfolding total
total-ge f zero i pc below = absurd (omega arith)
total-ge f (suc size) i pc below = elim (dec_lt i size) [
  | yes smaller ↦ let l = total-ge f size i pc smaller in omega arith
  | no last ↦
      let same : i ≡ size = omega arith in
      subst (λ j. f (pc j) ≤ f (pc size) + total f size pc) (sym same) (omega arith)
]

-- Two of them count for at least their sum.
pub total-two :
    (f : Pc → ℕ) (size i j : ℕ) (pc : ℕ → Pc) (p : Pc)
    → f p ≡ 0
    → i < size
    → j < size
    → (j == i) ≡ false
    → f (pc i) + f (pc j) ≤ total f size pc
total-two f size i j pc p nothing below below' apart =
    let l = total-update f size i pc p below in
    let l' = total-ge f size j (update pc i p) below' in
    let l'' : f (update pc i p j) ≡ f (pc j) = ap (λ b. f (if b then p else pc j)) apart in
    omega arith

pub total-zero :
    (f : Pc → ℕ) (size : ℕ) (pc : ℕ → Pc)
    → ((i : ℕ) → i < size → f (pc i) ≡ 0)
    → total f size pc ≡ 0
unfolding total
total-zero f zero pc nothing = refl
total-zero f (suc size) pc nothing =
    let l = total-zero f size pc (λ i below. nothing i (omega arith)) in
    let l' = nothing size (omega arith) in omega arith

pub total-map_le :
    (f : Pc → ℕ) (k size : ℕ) (g : Pc → Pc) (pc : ℕ → Pc)
    → ((p : Pc) → f (g p) ≤ f p + k)
    → total f size (λ i. g (pc i)) ≤ total f size pc + k * size
unfolding total
total-map_le f k zero g pc small = omega arith
total-map_le f k (suc size) g pc small =
    let l = total-map_le f k size g pc small in let l' = small (pc size) in grind arith

pub total-full :
    (f : Pc → ℕ) (size : ℕ) (pc : ℕ → Pc)
    → ((i : ℕ) → i < size → f (pc i) ≡ 1)
    → total f size pc ≡ size
unfolding total
total-full f zero pc each = refl
total-full f (suc size) pc each =
    let l = total-full f size pc (λ i below. each i (omega arith)) in
    let l' = each size (omega arith) in omega arith
