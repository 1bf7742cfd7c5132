-- ===== src/Efficient/InstwLinkList/Removal.antt =====
-- Nodes taken out of the list while a loop goes around it.
use mathlib.Core.Path.{subst, ap₂}
use mathlib.Core.List.{append_assoc}
use m_toolkit.Base.{
  ℕ, zero, suc, ◌<◌, ◌≡◌, refl, Bool, Option, some, List, [], ◌∷◌, ◌++◌, arith, ◌∙◌, sym, ap, map,
  inl, inr, length, length-map, if◌then◌else◌, Bool-cases,
}
use m_toolkit.Efficient.TwLinkList.{Heap, destroy_node}
use m_toolkit.Efficient.TwLinkList.Ring.{Ring, values}
use m_toolkit.Efficient.TwLinkList.Values.{Holds}
use m_toolkit.Efficient.InstwLinkList.{remove_from, remove, remove_if_from, remove_if}
use m_toolkit.Efficient.InstwLinkList.Laws.{at, same, step, gone, gone-Ring, first, passed}

-- The data that `pr` does not accept; the data without the first that `pr` accepts.
abbrev pub keep : {V : Type 0} → (V → Bool) → List V → List V
keep pr [] = []
keep pr (v ∷ vs) = if pr v then keep pr vs else v ∷ keep pr vs

abbrev pub drop_first : {V : Type 0} → (V → Bool) → List V → List V
drop_first pr [] = []
drop_first pr (v ∷ vs) = if pr v then vs else v ∷ drop_first pr vs

-- A turn of a loop: at its end, at a node that it stops at or takes out, or at another.
abbrev chosen : {A : Type 0} → Bool → A → Bool → A → A → A
chosen done ended hit this others = if done then ended else (if hit then this else others)

module _ {V : Type 0} (head : ℕ) (pr : V → Bool) where
  -- The outcome of a loop over the part `after` of the ring.
  Left : (List V → List V) → Heap V → (before after : List ℕ) → Option (Heap V) → Type 0
  Left f h before after result =
      (h' : Heap V) × (nodes : List ℕ) × (result ≡ some h')
      × Ring head h' (before ++ nodes)
      × (h'.payload ≡ h.payload)
      × (values h nodes ≡ f (values h after))

  turn_all : ℕ → Heap V → ℕ → Bool → Bool → Option (Heap V)
  turn_all fuel h n b c =
      chosen b (some h) c (remove_if_from pr fuel head ((destroy_node n h).next n) (gone n h))
        (remove_if_from pr fuel head (h.next n) h)

  turn_first : ℕ → Heap V → ℕ → Bool → Bool → Option (Heap V)
  turn_first fuel h n b c =
      chosen b (some h) c (some (gone n h)) (remove_from pr fuel head (h.next n) h)

  remove_if_from-Left :
      (fuel : ℕ) (h : Heap V) (before after : List ℕ)
      → Ring head h (before ++ after)
      → length after < fuel
      → Left (keep pr) h before after (remove_if_from pr fuel head (at head after) h)
  unfolding remove_if_from Left turn_all
  remove_if_from-Left zero h before after r enough = absurd (omega arith)
  remove_if_from-Left (suc fuel) h before [] r enough =
      (h, [], ap (λ b. turn_all fuel h head b (pr (h.payload head))) (same head), r, refl, refl)
  remove_if_from-Left (suc fuel) h before (n ∷ after) r enough =
      elim (Bool-cases (pr (h.payload n))) [
        | inl out ↦
            let (r₁, next, _) = gone-Ring head h before n after r in
            let (_, other) = step head h before n after r in
            let (h', nodes, e, r', p, vs) =
              remove_if_from-Left fuel (gone n h) before after r₁ (omega arith) in
            (
              h',
              nodes,
              ap₂ (turn_all fuel h n) other out
                  ∙ ap (λ i. remove_if_from pr fuel head i (gone n h)) next
                  ∙ e,
              r',
              p,
              vs
                  ∙ sym (
                      ap
                        (λ b.
                          if b
                          then keep pr (values h after)
                          else h.payload n ∷ keep pr (values h after))
                        out),
            )
        | inr stays ↦
            let (next, other) = step head h before n after r in
            let (h', nodes, e, r', p, vs) =
              remove_if_from-Left fuel h (before ++ n ∷ []) after (passed head h before n after r)
                (omega arith) in
            (
              h',
              n ∷ nodes,
              ap₂ (turn_all fuel h n) other stays
                  ∙ ap (λ i. remove_if_from pr fuel head i h) next
                  ∙ e,
              subst (Ring head h') (append_assoc before (n ∷ []) nodes) r',
              p,
              ap (λ l. h.payload n ∷ l) vs
                  ∙ sym (
                      ap
                        (λ b.
                          if b
                          then keep pr (values h after)
                          else h.payload n ∷ keep pr (values h after))
                        stays),
            )
      ]

  remove_from-Left :
      (fuel : ℕ) (h : Heap V) (before after : List ℕ)
      → Ring head h (before ++ after)
      → length after < fuel
      → Left (drop_first pr) h before after (remove_from pr fuel head (at head after) h)
  unfolding remove_from Left turn_first
  remove_from-Left zero h before after r enough = absurd (omega arith)
  remove_from-Left (suc fuel) h before [] r enough =
      (h, [], ap (λ b. turn_first fuel h head b (pr (h.payload head))) (same head), r, refl, refl)
  remove_from-Left (suc fuel) h before (n ∷ after) r enough = elim (Bool-cases (pr (h.payload n))) [
    | inl out ↦
        let (r₁, _, _) = gone-Ring head h before n after r in
        let (_, other) = step head h before n after r in
        (
          gone n h,
          after,
          ap₂ (turn_first fuel h n) other out,
          r₁,
          refl,
          sym (
              ap (λ b. if b then values h after else h.payload n ∷ drop_first pr (values h after))
                out),
        )
    | inr stays ↦
        let (next, other) = step head h before n after r in
        let (h', nodes, e, r', p, vs) =
          remove_from-Left fuel h (before ++ n ∷ []) after (passed head h before n after r)
            (omega arith) in
        (
          h',
          n ∷ nodes,
          ap₂ (turn_first fuel h n) other stays ∙ ap (λ i. remove_from pr fuel head i h) next ∙ e,
          subst (Ring head h') (append_assoc before (n ∷ []) nodes) r',
          p,
          ap (λ l. h.payload n ∷ l) vs
              ∙ sym (
                  ap
                    (λ b.
                      if b then values h after else h.payload n ∷ drop_first pr (values h after))
                    stays),
        )
  ]

  Left-Holds :
      (f : List V → List V) (h : Heap V) (nodes : List ℕ) (vs : List V) (result : Option (Heap V))
      → values h nodes ≡ vs
      → Left f h [] nodes result
      → (h' : Heap V) × (result ≡ some h') × Holds head h' (f vs)
  unfolding Left
  Left-Holds f h nodes vs result e (h', nodes', ends, r, p, left) =
      (h', ends, (nodes', r, ap (λ g. map g nodes') p ∙ left ∙ ap f e))

  -- With one turn more than there are data, `Remove(pr)` takes out all data that `pr` accepts, and
  -- `Remove(value)` the first that is the same as the value; the others keep their order.
  pub remove_if-Holds :
      (fuel : ℕ) (h : Heap V) (vs : List V)
      → Holds head h vs
      → length vs < fuel
      → ((h' : Heap V) × (remove_if pr fuel head h ≡ some h') × Holds head h' (keep pr vs))
        × ((h' : Heap V) × (remove pr fuel head h ≡ some h') × Holds head h' (drop_first pr vs))
  unfolding remove_if remove
  remove_if-Holds fuel h vs (nodes, r, e) enough =
      let count : length nodes ≡ length vs = sym (length-map h.payload nodes) ∙ ap length e in
      let next = first head h nodes r in
      let (h₁, e₁, q₁) =
        Left-Holds (keep pr) h nodes vs _ e (remove_if_from-Left fuel h [] nodes r (omega arith)) in
      let (h₂, e₂, q₂) =
        Left-Holds (drop_first pr) h nodes vs _ e
          (remove_from-Left fuel h [] nodes r (omega arith)) in
      (
        (h₁, ap (λ i. remove_if_from pr fuel head i h) next ∙ e₁, q₁),
        (h₂, ap (λ i. remove_from pr fuel head i h) next ∙ e₂, q₂),
      )
