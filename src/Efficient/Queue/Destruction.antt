-- ===== src/Efficient/Queue/Destruction.antt =====
-- What the destructor of the queue deletes.
use mathlib.Core.Path.{subst}
use m_toolkit.Base.{
  ℕ, zero, suc, ◌<◌, ◌≡◌, true, false, Option, some, List, [], ◌∷◌, arith, ◌∙◌, sym, ap, inl, inr,
  length, length-append, snoc_cases, Bool,
}
use native.Mathlib.Decide.{ℕ_discrete}
use m_toolkit.Base.Maps.{has, has-append}
use m_toolkit.Efficient.TwLinkList.{Heap, delete_node}
use m_toolkit.Efficient.TwLinkList.Ring.{Ring}
use m_toolkit.Efficient.Queue.{destroy}
use m_toolkit.Efficient.Queue.Laws.{pop_empty, pop_last}

-- The destructor ends after one turn more than there are nodes, and deletes every node and the head.
destroy_frees_queue :
    {V : Type 0} (head fuel : ℕ) (h : Heap V) (nodes : List ℕ)
    → Ring head h nodes
    → length nodes < fuel
    → (h' : Heap V) × (destroy fuel head h ≡ some h')
      × ((m : ℕ) → has m (head ∷ nodes) ≡ true → h'.freed m ≡ true)
      × ((m : ℕ) → h.freed m ≡ true → h'.freed m ≡ true)
unfolding destroy
destroy_frees_queue {V} head zero h nodes r enough = absurd (omega arith)
destroy_frees_queue {V} head (suc fuel) h nodes r enough = elim (snoc_cases nodes) [
  | inl e ↦
      let (_, ends) = pop_empty head h (subst (Ring head h) e r) in
      (delete_node head h, ap rest ends, λ m i. ground arith, λ m f. ground arith)
  | inr (before, n, e) ↦
      let (h₁, _, goes, r₁, _, freed_n, kept) =
        pop_last head h before n (subst (Ring head h) e r) in
      let (h₂, e₂, all, kept₂) =
        destroy_frees_queue head fuel h₁ before r₁
          (omega (arith, ap length e, length-append before (n ∷ []))) in
      (
        h₂,
        ap rest goes ∙ e₂,
        λ m i.
            let i' = subst (λ l. has m (head ∷ l) ≡ true) e i in
            elim (ℕ_discrete m n) [
              | yes same ↦ kept₂ m (subst (λ x. h₁.freed x ≡ true) (sym same) freed_n)
              | no other ↦ all m (ground (arith, has-append m before (n ∷ [])))
            ],
        λ m f. kept₂ m (kept m f),
      )
]
  where
    rest : Bool × Heap V → Option (Heap V)
    rest r = elim r.0 [ true ↦ destroy fuel head r.1 | false ↦ some (delete_node head r.1) ]
