-- ===== src/Efficient/InstwLinkList/Laws.antt =====
-- The list against the list of its data.
use mathlib.Core.Path.{subst, ap₂}
use mathlib.Core.List.{append-nil, append_assoc}
use m_toolkit.Base.{
  ℕ, zero, suc, ◌<◌, ◌≡◌, ◌≢◌, refl, true, false, Option, none, some, List, [], ◌∷◌, ◌++◌, arith,
  ◌∙◌, sym, ap, length, length-map, ◌==◌, if◌then◌else◌,
}
use m_toolkit.Efficient.TwLinkList.{Heap, new_node, delete_node, destroy_node, insert_tw_link_list}
use m_toolkit.Efficient.TwLinkList.Links.{distinct-middle}
use m_toolkit.Efficient.TwLinkList.Ring.{Ring, values, neighbours, first_of}
use m_toolkit.Efficient.TwLinkList.Changes.{
  Inserted, Removed, Ring-linked, Ring-linked_node, Ring-made, Ring-remove, Ring-apart,
}
use m_toolkit.Efficient.TwLinkList.Values.{Holds, insert-Holds}
use m_toolkit.Efficient.InstwLinkList.{
  push_back, push_front, empty, size_from, size, ergodic_from, ergodic,
}

-- The node that a loop looks at when `after` is left, the head at the end.
abbrev pub at : ℕ → List ℕ → ℕ
at head after = (first_of after head).0

pub same : (n : ℕ) → (n == n) ≡ true
same n = ground arith

more : Option ℕ → Option ℕ
more r = elim r [ none ↦ none | some k ↦ some (suc k) ]

-- A node taken out and deleted.
abbrev pub gone : {V : Type 0} → ℕ → Heap V → Heap V
gone n h = delete_node n (destroy_node n h)

module _ {V : Type 0} (head : ℕ) where
  pub step :
      (h : Heap V) (before : List ℕ) (n : ℕ) (after : List ℕ)
      → Ring head h (before ++ n ∷ after)
      → (h.next n ≡ at head after) × ((n == head) ≡ false)
  step h before n after r =
      let ((_, _), (forth, _)) =
        Ring-linked_node head before after (neighbours head before after) h n r in
      (forth, let (out, _) = distinct-middle (head ∷ before) n after r.once in ground arith)

  pub gone-Ring :
      (h : Heap V) (before : List ℕ) (n : ℕ) (after : List ℕ)
      → Ring head h (before ++ n ∷ after)
      → Ring head (gone n h) (before ++ after)
        × ((destroy_node n h).next n ≡ at head after)
        × ((gone n h).freed n ≡ true)
  gone-Ring h before n after r =
      let p = neighbours head before after in
      let ((_, back), (forth, _)) = Ring-linked_node head before after p h n r in
      let ne = Ring-apart head before after p h n r in
      (
        Ring-remove head before after p h n (gone n h) (writes h n p.u p.v back forth ne) r,
        ground arith,
        ground arith,
      )
    where
      writes :
          (h : Heap V) (n u v : ℕ)
          → h.prev n ≡ u
          → h.next n ≡ v
          → n ≢ u
          → Removed h (gone n h) u n v
      writes h n u v back forth ne = record {
        link = (ground arith, ground arith);
        next_kept = λ m i. ground arith;
        prev_kept = λ m i. ground arith;
        freed = λ m i. ground arith;
        fresh = refl;
      }

  pub first : (h : Heap V) (nodes : List ℕ) → Ring head h nodes → h.next head ≡ at head nodes
  first h nodes r = (Ring-linked head [] nodes (neighbours head [] nodes) h r).0

  seen : V → Option (List V) → Option (List V)
  seen v r = elim r [ none ↦ none | some vs ↦ some (v ∷ vs) ]

  -- The part of the ring that a loop has passed grows by a node.
  pub passed :
      (h : Heap V) (before : List ℕ) (n : ℕ) (after : List ℕ)
      → Ring head h (before ++ n ∷ after)
      → Ring head h ((before ++ n ∷ []) ++ after)
  passed h before n after r = subst (Ring head h) (sym (append_assoc before (n ∷ []) after)) r

  size_from-length :
      (fuel : ℕ) (h : Heap V) (before after : List ℕ)
      → Ring head h (before ++ after)
      → length after < fuel
      → (size_from fuel head (at head after) h ≡ some (length after))
        × (ergodic_from fuel head (at head after) h ≡ some (values h after))
  unfolding size_from ergodic_from more seen
  size_from-length zero h before after r enough = absurd (omega arith)
  size_from-length (suc fuel) h before [] r enough = (
    ap (λ b. if b then some 0 else more (size_from fuel head (h.next head) h)) (same head),
    ap (λ b. if b then some [] else seen (h.payload head) (ergodic_from fuel head (h.next head) h))
        (same head),
  )
  size_from-length (suc fuel) h before (n ∷ after) r enough =
      let (next, other) = step h before n after r in
      let (e₁, e₂) =
        size_from-length fuel h (before ++ n ∷ []) after (passed h before n after r)
          (omega arith) in
      (
        ap₂ (λ b i. if b then some 0 else more (size_from fuel head i h)) other next ∙ ap more e₁,
        ap₂ (λ b i. if b then some [] else seen (h.payload n) (ergodic_from fuel head i h)) other
              next
            ∙ ap (seen (h.payload n)) e₂,
      )

  -- `Size` counts the data of the list and `Ergodic` visits them in order, with one turn more than
  -- there are data; `Empty` says whether there are none.
  size-Holds :
      (fuel : ℕ) (h : Heap V) (vs : List V)
      → Holds head h vs
      → length vs < fuel
      → (size fuel head h ≡ some (length vs))
        × (ergodic fuel head h ≡ some vs)
        × (empty head h ≡ (length vs == 0))
  unfolding size ergodic empty
  size-Holds fuel h vs (nodes, r, e) enough =
      let count : length nodes ≡ length vs = sym (length-map h.payload nodes) ∙ ap length e in
      let (e₁, e₂) = size_from-length fuel h [] nodes r (omega arith) in
      let next = first h nodes r in
      (
        ap (λ i. size_from fuel head i h) next ∙ e₁ ∙ ap some count,
        ap (λ i. ergodic_from fuel head i h) next ∙ e₂ ∙ ap some e,
        ap (λ i. head == i) next ∙ none_left nodes r ∙ ap (λ k. k == 0) count,
      )
    where
      none_left :
          (nodes : List ℕ) → Ring head h nodes → (head == at head nodes) ≡ (length nodes == 0)
      none_left [] r = same head
      none_left (n ∷ nodes) r =
          let (out, _) = distinct-middle (head ∷ []) n nodes r.once in ground arith

  -- `PushBack` puts its data behind the others, `PushFront` before them.
  push_back-Holds :
      (v : V) (h : Heap V) (vs : List V)
      → Holds head h vs
      → Holds head (push_back head v h) (vs ++ v ∷ []) × Holds head (push_front head v h) (v ∷ vs)
  unfolding push_back push_front
  push_back-Holds v h vs (nodes, r, e) =
      let p = neighbours head [] nodes in
      let q = neighbours head nodes [] in
      let r' = subst (Ring head h) (sym (append-nil nodes)) r in
      let (lu, lv) = Ring-made head [] nodes p h r in
      let (lu', lv') = Ring-made head nodes [] q h r' in
      let forth = (Ring-linked head [] nodes p h r).0 in
      let back = (Ring-linked head nodes [] q h r').1 in
      let read_prev : (new_node v h).prev head ≡ h.prev head = ground arith in
      let read_next : (new_node v h).next head ≡ h.next head = ground arith in
      (
        subst (λ ws. Holds head (push_back head v h) (ws ++ v ∷ [])) e
            (insert-Holds head h (push_back head v h) v nodes [] q
              (writes h v (push_back head v h) q.u head lu' lv'
                (ap (λ u. insert_tw_link_list h.fresh u head (new_node v h)) (read_prev ∙ back)))
              refl r'),
        subst (λ ws. Holds head (push_front head v h) (v ∷ ws)) e
            (insert-Holds head h (push_front head v h) v [] nodes p
              (writes h v (push_front head v h) head p.v lu lv
                (ap (λ w. insert_tw_link_list h.fresh head w (new_node v h)) (read_next ∙ forth)))
              refl r),
      )
    where
      writes :
          (h : Heap V) (v : V) (h' : Heap V) (u w : ℕ)
          → u < h.fresh
          → w < h.fresh
          → h' ≡ insert_tw_link_list h.fresh u w (new_node v h)
          → Inserted h h' u w
      writes h v h' u w lu lw e =
          subst (λ x. Inserted h x u w) (sym e)
            (record {
              before = (ground arith, ground arith);
              after = (ground arith, ground arith);
              next_kept = λ m lt ne. ground arith;
              prev_kept = λ m lt ne. ground arith;
              freed = refl;
              fresh = refl;
            })
