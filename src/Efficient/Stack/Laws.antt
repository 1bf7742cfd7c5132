-- ===== src/Efficient/Stack/Laws.antt =====
-- The stack against the list of its data: last in, first out.
use mathlib.Core.Path.{subst}
use mathlib.Core.List.{append-nil, append_assoc, reverse, reverse-cons}
use m_toolkit.Base.{
  ℕ, zero, suc, ◌<◌, ◌≤◌, ◌≡◌, ◌≢◌, refl, true, false, Option, none, some, List, [], ◌∷◌, ◌++◌,
  arith, ◌∙◌, sym, ap, map, length, ◌==◌, length-reverse, Bool,
}
use m_toolkit.Base.Maps.{update}
use m_toolkit.Efficient.TwLinkList.{Heap, delete_node, set_prev, set_next}
use m_toolkit.Efficient.TwLinkList.Ring.{Ring, neighbours}
use m_toolkit.Efficient.TwLinkList.Changes.{
  Inserted, Removed, Ring-linked, Ring-linked_node, Ring-made, Ring-remove,
}
use m_toolkit.Efficient.TwLinkList.Values.{
  Holds, Unborn, create-Holds, insert-Holds, values-split, values-none,
}
use m_toolkit.Efficient.Stack.{create, push, pop, pop_unread}

module _ {V : Type 0} (head : ℕ) where
  push-Inserted :
      (v : V) (h : Heap V) (w : ℕ)
      → head < h.fresh
      → w < h.fresh
      → h.next head ≡ w
      → Inserted h (push head v h) head w
  unfolding push
  push-Inserted v h w lh lw e = record {
    before = (ground arith, ground arith);
    after = (ground arith, ground arith);
    next_kept = λ m lt ne. ground arith;
    prev_kept = λ m lt ne. ground arith;
    freed = refl;
    fresh = refl;
  }

  push-payload : (v : V) (h : Heap V) → (push head v h).payload ≡ update h.payload h.fresh v
  unfolding push
  push-payload v h = refl

  -- `Push` puts its data before those that the stack holds.
  pub push-Holds :
      (v : V) (h : Heap V) (vs : List V) → Holds head h vs → Holds head (push head v h) (v ∷ vs)
  push-Holds v h vs (nodes, r, e) =
      let p = neighbours head [] nodes in
      let (lu, lv) = Ring-made head [] nodes p h r in
      let forth = (Ring-linked head [] nodes p h r).0 in
      subst (λ ws. Holds head (push head v h) (v ∷ ws)) e
        (insert-Holds head h (push head v h) v [] nodes p (push-Inserted v h p.v lu lv forth)
          (push-payload v h) r)

  -- The heap after a `Pop` that answers true.
  popped : (n t : ℕ) → Heap V → Heap V
  popped n t h = delete_node n (set_prev t head (set_next head t h))

  popped-Removed : (h : Heap V) (n t : ℕ) → Removed h (popped n t h) head n t
  unfolding popped
  popped-Removed h n t = record {
    link = (ground arith, ground arith);
    next_kept = λ m ne. ground arith;
    prev_kept = λ m ne. ground arith;
    freed = λ m ne. ground arith;
    fresh = refl;
  }

  -- A `Pop` that finds the node `n`, and one that finds the head.
  pop_at :
      (h : Heap V) (n t : ℕ)
      → h.next head ≡ n
      → h.next n ≡ t
      → n ≢ head
      → (pop head h ≡ (some (h.payload n), popped n t h))
        × (pop_unread head h ≡ (true, popped n t h))
  unfolding pop pop_unread popped
  pop_at h n t e₁ e₂ ne =
      let other : (n == head) ≡ false = ground arith in
      let read : ℕ → Bool → Option V × Heap V =
        λ i b. elim b [ true ↦ (none, h) | false ↦ (some (h.payload i), popped i (h.next i) h) ] in
      let unread : ℕ → Bool → Bool × Heap V =
        λ i b. elim b [ true ↦ (false, h) | false ↦ (true, popped i (h.next i) h) ] in
      (
        ap (λ i. read i (i == head)) e₁
            ∙ ap (read n) other
            ∙ ap (λ t. (some (h.payload n), popped n t h)) e₂,
        ap (λ i. unread i (i == head)) e₁ ∙ ap (unread n) other ∙ ap (λ t. (true, popped n t h)) e₂,
      )

  pub pop_empty :
      (h : Heap V) → Ring head h [] → (pop head h ≡ (none, h)) × (pop_unread head h ≡ (false, h))
  unfolding pop pop_unread
  pop_empty h r =
      let same : (h.next head == head) ≡ true = let e = r.links.0.0 in ground arith in
      (rw (same, pop) refl, rw (same, pop_unread) refl)

  pub pop_first :
      (h : Heap V) (n : ℕ) (after : List ℕ)
      → Ring head h (n ∷ after)
      → (h' : Heap V) × (pop head h ≡ (some (h.payload n), h'))
        × (pop_unread head h ≡ (true, h'))
        × Ring head h' after
        × (h'.payload ≡ h.payload)
        × (h'.freed n ≡ true)
        × ((m : ℕ) → h.freed m ≡ true → h'.freed m ≡ true)
  unfolding popped
  pop_first h n after r =
      let p = neighbours head [] after in
      let ((first, _), (forth, _)) = Ring-linked_node head [] after p h n r in
      let (e₁, e₂) = pop_at h n p.v first forth (λ e. let d = r.once in ground arith) in
      (
        popped n p.v h,
        e₁,
        e₂,
        Ring-remove head [] after p h n (popped n p.v h) (popped-Removed h n p.v) r,
        refl,
        ground arith,
        λ m f. ground arith,
      )

  pop-none : (h : Heap V) → Holds head h [] → pop head h ≡ (none, h)
  pop-none h (nodes, r, e) = (pop_empty h (subst (Ring head h) (values-none h.payload nodes e) r)).0

  -- `Pop` of an empty stack answers false and changes nothing; otherwise it gives the first of the
  -- stack's data and leaves the others.
  pub pop-Holds :
      (h : Heap V) (vs : List V) (v : V)
      → (Holds head h [] → pop head h ≡ (none, h))
        × (Holds head h (v ∷ vs) → (h' : Heap V) × (pop head h ≡ (some v, h')) × Holds head h' vs)
  pop-Holds h vs v = (
    pop-none h,
    λ (nodes, r, e).
        let (before, n, after, e₁, e₂, e₃, e₄) = values-split h.payload nodes [] vs v e in
        let first = e₁ ∙ ap (λ l. l ++ n ∷ after) (values-none h.payload before e₂) in
        let (h', pops, _, r', same, _, _) = pop_first h n after (subst (Ring head h) first r) in
        (h', pops ∙ ap (λ w. (some w, h')) e₃, (after, r', ap (λ f. map f after) same ∙ e₄)),
  )

-- Data pushed one after the other; and as many as `k` popped, the first one first.
abbrev pub stack_all : {V : Type 0} → ℕ → List V → Heap V → Heap V
stack_all head [] h = h
stack_all head (v ∷ vs) h = stack_all head vs (push head v h)

abbrev pub unstack_all : {V : Type 0} → (k head : ℕ) → Heap V → List V
unstack_all zero head h = []
unstack_all (suc k) head h = elim (pop head h).0 [
  | none ↦ []
  | some v ↦ v ∷ unstack_all k head (pop head h).1
]

module _ {V : Type 0} (head : ℕ) where
  stack_all-Holds :
      (vs ws : List V) (h : Heap V)
      → Holds head h ws
      → Holds head (stack_all head vs h) (reverse vs ++ ws)
  stack_all-Holds [] ws h q = q
  stack_all-Holds (v ∷ vs) ws h q =
      subst (Holds head (stack_all head vs (push head v h)))
        (sym (ap (λ l. l ++ ws) (reverse-cons v vs) ∙ append_assoc (reverse vs) (v ∷ []) ws))
        (stack_all-Holds vs (v ∷ ws) (push head v h) (push-Holds head v h ws q))

  turn : ℕ → Option V × Heap V → List V
  turn k r = elim r.0 [ none ↦ [] | some v ↦ v ∷ unstack_all k head r.1 ]

  unstack_all-Holds :
      (vs : List V) (k : ℕ) (h : Heap V)
      → length vs ≤ k
      → Holds head h vs
      → unstack_all k head h ≡ vs
  unfolding turn
  unstack_all-Holds [] zero h enough q = refl
  unstack_all-Holds [] (suc k) h enough q = ap (turn k) (pop-none head h q)
  unstack_all-Holds (v ∷ vs) zero h enough q = absurd (omega arith)
  unstack_all-Holds (v ∷ vs) (suc k) h enough q =
      let (h', e, q') = (pop-Holds head h vs v).1 q in
      ap (turn k) e ∙ ap (λ l. v ∷ l) (unstack_all-Holds vs k h' (omega arith) q')

-- Last in, first out: data pushed to a new stack are popped in the opposite order, however many more
-- times it is popped.
pub unstack_all-stack_all :
    {V : Type 0} (vs : List V) (k : ℕ) (h : Heap V)
    → Unborn h
    → length vs ≤ k
    → unstack_all k (create h).0 (stack_all (create h).0 vs (create h).1) ≡ reverse vs
unfolding create
unstack_all-stack_all vs k h unborn enough =
    unstack_all-Holds h.fresh (reverse vs) k _ (rw (length-reverse vs) enough) (
      subst (Holds h.fresh _) (append-nil (reverse vs))
        (stack_all-Holds h.fresh vs [] _ (create-Holds h unborn)))
