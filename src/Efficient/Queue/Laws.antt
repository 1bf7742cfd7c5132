-- ===== src/Efficient/Queue/Laws.antt =====
-- The queue against the list of its data: first in, first out.
use mathlib.Core.Path.{subst}
use mathlib.Core.List.{append-nil, append_assoc, reverse, reverse-cons}
use m_toolkit.Base.{
  ℕ, zero, suc, ◌<◌, ◌≤◌, ◌≡◌, ◌≢◌, refl, true, false, Option, none, some, List, [], ◌∷◌, ◌++◌,
  arith, ◌∙◌, sym, ap, map, length, ◌==◌, Bool,
}
use m_toolkit.Base.Maps.{update}
use m_toolkit.Efficient.TwLinkList.{Heap, delete_node, set_prev, set_next}
use m_toolkit.Efficient.TwLinkList.Links.{distinct-middle}
use m_toolkit.Efficient.TwLinkList.Ring.{Ring, neighbours}
use m_toolkit.Efficient.TwLinkList.Changes.{
  Inserted, Removed, Ring-linked, Ring-linked_node, Ring-made, Ring-remove,
}
use m_toolkit.Efficient.TwLinkList.Values.{
  Holds, Unborn, create-Holds, insert-Holds, values-split, values-none,
}
use m_toolkit.Efficient.Queue.{create, push, pop, pop_unread}

module _ {V : Type 0} (head : ℕ) where
  push-Inserted :
      (v : V) (h : Heap V) (w : ℕ)
      → head < h.fresh
      → w < h.fresh
      → h.next head ≡ w
      → Inserted h (push head v h) head w
  unfolding push
  push-Inserted v h w lh lw e = record {
    before = (ground arith, ground arith);
    after = (ground arith, ground arith);
    next_kept = λ m lt ne. ground arith;
    prev_kept = λ m lt ne. ground arith;
    freed = refl;
    fresh = refl;
  }

  push-payload : (v : V) (h : Heap V) → (push head v h).payload ≡ update h.payload h.fresh v
  unfolding push
  push-payload v h = refl

  -- `Push` puts its data before those that the queue holds.
  pub push-Holds :
      (v : V) (h : Heap V) (vs : List V) → Holds head h vs → Holds head (push head v h) (v ∷ vs)
  push-Holds v h vs (nodes, r, e) =
      let p = neighbours head [] nodes in
      let (lu, lv) = Ring-made head [] nodes p h r in
      let forth = (Ring-linked head [] nodes p h r).0 in
      subst (λ ws. Holds head (push head v h) (v ∷ ws)) e
        (insert-Holds head h (push head v h) v [] nodes p (push-Inserted v h p.v lu lv forth)
          (push-payload v h) r)

  -- The heap after a `Pop` that answers true.
  popped : (n t : ℕ) → Heap V → Heap V
  popped n t h = delete_node n (set_prev head t (set_next t head h))

  popped-Removed : (h : Heap V) (n t : ℕ) → Removed h (popped n t h) t n head
  unfolding popped
  popped-Removed h n t = record {
    link = (ground arith, ground arith);
    next_kept = λ m ne. ground arith;
    prev_kept = λ m ne. ground arith;
    freed = λ m ne. ground arith;
    fresh = refl;
  }

  -- A `Pop` that finds the node `n`, and one that finds the head.
  pop_at :
      (h : Heap V) (n t : ℕ)
      → h.prev head ≡ n
      → h.prev n ≡ t
      → n ≢ head
      → (pop head h ≡ (some (h.payload n), popped n t h))
        × (pop_unread head h ≡ (true, popped n t h))
  unfolding pop pop_unread popped
  pop_at h n t e₁ e₂ ne =
      let other : (n == head) ≡ false = ground arith in
      let read : ℕ → Bool → Option V × Heap V =
        λ i b. elim b [ true ↦ (none, h) | false ↦ (some (h.payload i), popped i (h.prev i) h) ] in
      let unread : ℕ → Bool → Bool × Heap V =
        λ i b. elim b [ true ↦ (false, h) | false ↦ (true, popped i (h.prev i) h) ] in
      (
        ap (λ i. read i (i == head)) e₁
            ∙ ap (read n) other
            ∙ ap (λ t. (some (h.payload n), popped n t h)) e₂,
        ap (λ i. unread i (i == head)) e₁ ∙ ap (unread n) other ∙ ap (λ t. (true, popped n t h)) e₂,
      )

  pub pop_empty :
      (h : Heap V) → Ring head h [] → (pop head h ≡ (none, h)) × (pop_unread head h ≡ (false, h))
  unfolding pop pop_unread
  pop_empty h r =
      let same : (h.prev head == head) ≡ true = let e = r.links.0.1 in ground arith in
      (rw (same, pop) refl, rw (same, pop_unread) refl)

  pub pop_last :
      (h : Heap V) (before : List ℕ) (n : ℕ)
      → Ring head h (before ++ n ∷ [])
      → (h' : Heap V) × (pop head h ≡ (some (h.payload n), h'))
        × (pop_unread head h ≡ (true, h'))
        × Ring head h' before
        × (h'.payload ≡ h.payload)
        × (h'.freed n ≡ true)
        × ((m : ℕ) → h.freed m ≡ true → h'.freed m ≡ true)
  unfolding popped
  pop_last h before n r =
      let p = neighbours head before [] in
      let ((_, back), (_, last)) = Ring-linked_node head before [] p h n r in
      let (out, _) = distinct-middle (head ∷ before) n [] r.once in
      let (e₁, e₂) = pop_at h n p.u last back (λ e. ground arith) in
      (
        popped n p.u h,
        e₁,
        e₂,
        subst (Ring head (popped n p.u h)) (append-nil before)
            (Ring-remove head before [] p h n (popped n p.u h) (popped-Removed h n p.u) r),
        refl,
        ground arith,
        λ m f. ground arith,
      )

  pop-none : (h : Heap V) → Holds head h [] → pop head h ≡ (none, h)
  pop-none h (nodes, r, e) = (pop_empty h (subst (Ring head h) (values-none h.payload nodes e) r)).0

  -- `Pop` of an empty queue answers false and changes nothing; otherwise it gives the last of the
  -- queue's data and leaves the others.
  pub pop-Holds :
      (h : Heap V) (vs : List V) (v : V)
      → (Holds head h [] → pop head h ≡ (none, h))
        × (Holds head h (vs ++ v ∷ [])
            → (h' : Heap V) × (pop head h ≡ (some v, h')) × Holds head h' vs)
  pop-Holds h vs v = (
    pop-none h,
    λ (nodes, r, e).
        let (before, n, after, e₁, e₂, e₃, e₄) = values-split h.payload nodes vs [] v e in
        let last = e₁ ∙ ap (λ l. before ++ n ∷ l) (values-none h.payload after e₄) in
        let (h', pops, _, r', same, _, _) = pop_last h before n (subst (Ring head h) last r) in
        (h', pops ∙ ap (λ w. (some w, h')) e₃, (before, r', ap (λ f. map f before) same ∙ e₂)),
  )

-- Data pushed one after the other; and as many as `k` popped, the first one first.
abbrev pub push_all : {V : Type 0} → ℕ → List V → Heap V → Heap V
push_all head [] h = h
push_all head (v ∷ vs) h = push_all head vs (push head v h)

abbrev pub pop_all : {V : Type 0} → (k head : ℕ) → Heap V → List V
pop_all zero head h = []
pop_all (suc k) head h = elim (pop head h).0 [
  | none ↦ []
  | some v ↦ v ∷ pop_all k head (pop head h).1
]

module _ {V : Type 0} (head : ℕ) where
  push_all-Holds :
      (vs ws : List V) (h : Heap V)
      → Holds head h ws
      → Holds head (push_all head vs h) (reverse vs ++ ws)
  push_all-Holds [] ws h q = q
  push_all-Holds (v ∷ vs) ws h q =
      subst (Holds head (push_all head vs (push head v h)))
        (sym (ap (λ l. l ++ ws) (reverse-cons v vs) ∙ append_assoc (reverse vs) (v ∷ []) ws))
        (push_all-Holds vs (v ∷ ws) (push head v h) (push-Holds head v h ws q))

  turn : ℕ → Option V × Heap V → List V
  turn k r = elim r.0 [ none ↦ [] | some v ↦ v ∷ pop_all k head r.1 ]

  pop_all-Holds :
      (vs : List V) (k : ℕ) (h : Heap V)
      → length vs ≤ k
      → Holds head h (reverse vs)
      → pop_all k head h ≡ vs
  unfolding turn
  pop_all-Holds [] zero h enough q = refl
  pop_all-Holds [] (suc k) h enough q = ap (turn k) (pop-none head h q)
  pop_all-Holds (v ∷ vs) zero h enough q = absurd (omega arith)
  pop_all-Holds (v ∷ vs) (suc k) h enough q =
      let (h', e, q') =
        (pop-Holds head h (reverse vs) v).1 (subst (Holds head h) (reverse-cons v vs) q) in
      ap (turn k) e ∙ ap (λ l. v ∷ l) (pop_all-Holds vs k h' (omega arith) q')

-- First in, first out: data pushed to a new queue are popped in the order in which they were pushed,
-- however many more times it is popped.
pub pop_all-push_all :
    {V : Type 0} (vs : List V) (k : ℕ) (h : Heap V)
    → Unborn h
    → length vs ≤ k
    → pop_all k (create h).0 (push_all (create h).0 vs (create h).1) ≡ vs
unfolding create
pop_all-push_all vs k h unborn enough = pop_all-Holds h.fresh vs k _ enough (
    subst (Holds h.fresh _) (append-nil (reverse vs))
      (push_all-Holds h.fresh vs [] _ (create-Holds h unborn)))
