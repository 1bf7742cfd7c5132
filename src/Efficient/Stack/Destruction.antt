-- ===== src/Efficient/Stack/Destruction.antt =====
-- What the destructor of the stack deletes.
use mathlib.Core.Path.{subst}
use m_toolkit.Base.{
  ℕ, zero, suc, ◌<◌, ◌≡◌, true, false, Option, some, List, [], ◌∷◌, arith, ◌∙◌, sym, ap, length,
  Bool,
}
use native.Mathlib.Decide.{ℕ_discrete}
use m_toolkit.Base.Maps.{has}
use m_toolkit.Efficient.TwLinkList.{Heap, delete_node}
use m_toolkit.Efficient.TwLinkList.Ring.{Ring}
use m_toolkit.Efficient.Stack.{destroy}
use m_toolkit.Efficient.Stack.Laws.{pop_empty, pop_first}

rest : {V : Type 0} → (head fuel : ℕ) → Bool × Heap V → Option (Heap V)
rest head fuel r = elim r.0 [ true ↦ destroy fuel head r.1 | false ↦ some (delete_node head r.1) ]

-- The destructor ends after one turn more than there are nodes, and deletes every node and the head.
destroy_frees_stack :
    {V : Type 0} (head fuel : ℕ) (h : Heap V) (nodes : List ℕ)
    → Ring head h nodes
    → length nodes < fuel
    → (h' : Heap V) × (destroy fuel head h ≡ some h')
      × ((m : ℕ) → has m (head ∷ nodes) ≡ true → h'.freed m ≡ true)
      × ((m : ℕ) → h.freed m ≡ true → h'.freed m ≡ true)
unfolding destroy rest
destroy_frees_stack {V} head zero h nodes r enough = absurd (omega arith)
destroy_frees_stack {V} head (suc fuel) h [] r enough =
    let (_, ends) = pop_empty head h r in
    (delete_node head h, ap (rest head fuel) ends, λ m i. ground arith, λ m f. ground arith)
destroy_frees_stack {V} head (suc fuel) h (n ∷ nodes) r enough =
    let (h₁, _, goes, r₁, _, freed_n, kept) = pop_first head h n nodes r in
    let (h₂, e₂, all, kept₂) = destroy_frees_stack head fuel h₁ nodes r₁ (omega arith) in
    (
      h₂,
      ap (rest head fuel) goes ∙ e₂,
      λ m i. elim (ℕ_discrete m n) [
        | yes same ↦ kept₂ m (subst (λ x. h₁.freed x ≡ true) (sym same) freed_n)
        | no other ↦ all m (ground arith)
      ],
      λ m f. kept₂ m (kept m f),
    )
