-- ===== src/Efficient/InstwLinkList/Destruction.antt =====
-- What the destructor of the list deletes.
use mathlib.Core.Path.{subst, ap₂}
use native.Mathlib.Decide.{ℕ_discrete}
use m_toolkit.Base.{
  ℕ, zero, suc, ◌<◌, ◌≡◌, true, some, List, [], ◌∷◌, arith, ◌∙◌, sym, ap, length, if◌then◌else◌,
}
use m_toolkit.Base.Maps.{has}
use m_toolkit.Efficient.TwLinkList.{Heap, delete_node, destroy_node}
use m_toolkit.Efficient.TwLinkList.Ring.{Ring}
use m_toolkit.Efficient.InstwLinkList.{destroy_from, destroy}
use m_toolkit.Efficient.InstwLinkList.Laws.{at, same, step, gone, gone-Ring, first}

module _ {V : Type 0} (head : ℕ) where
  gone_kept : (n m : ℕ) (h : Heap V) → h.freed m ≡ true → (gone n h).freed m ≡ true
  gone_kept n m h f = ground arith

  destroy_from-frees :
      (fuel : ℕ) (h : Heap V) (nodes : List ℕ)
      → Ring head h nodes
      → length nodes < fuel
      → (h' : Heap V) × (destroy_from fuel head (at head nodes) h ≡ some h')
        × ((m : ℕ) → has m (head ∷ nodes) ≡ true → h'.freed m ≡ true)
        × ((m : ℕ) → h.freed m ≡ true → h'.freed m ≡ true)
  unfolding destroy_from
  destroy_from-frees zero h nodes r enough = absurd (omega arith)
  destroy_from-frees (suc fuel) h [] r enough = (
    delete_node head h,
    ap
        (λ b.
          if b
          then some (delete_node head h)
          else destroy_from fuel head ((destroy_node head h).next head) (gone head h))
        (same head),
    λ m i. ground arith,
    λ m f. ground arith,
  )
  destroy_from-frees (suc fuel) h (n ∷ nodes) r enough =
      let (r₁, next, freed_n) = gone-Ring head h [] n nodes r in
      let (_, other) = step head h [] n nodes r in
      let (h', e, all, kept) = destroy_from-frees fuel (gone n h) nodes r₁ (omega arith) in
      (
        h',
        ap₂ (λ b i. if b then some (delete_node head h) else destroy_from fuel head i (gone n h))
              other next
            ∙ e,
        λ m i. elim (ℕ_discrete m n) [
          | yes this ↦ kept m (subst (λ x. (gone n h).freed x ≡ true) (sym this) freed_n)
          | no another ↦ all m (ground arith)
        ],
        λ m f. kept m (gone_kept n m h f),
      )

  -- With one turn more than there are nodes, the destructor deletes every node and the head.
  destroy_frees_list :
      (fuel : ℕ) (h : Heap V) (nodes : List ℕ)
      → Ring head h nodes
      → length nodes < fuel
      → (h' : Heap V) × (destroy fuel head h ≡ some h')
        × ((m : ℕ) → has m (head ∷ nodes) ≡ true → h'.freed m ≡ true)
  unfolding destroy
  destroy_frees_list fuel h nodes r enough =
      let (h', e, all, _) = destroy_from-frees fuel h nodes r enough in
      (h', ap (λ i. destroy_from fuel head i h) (first head h nodes r) ∙ e, all)
