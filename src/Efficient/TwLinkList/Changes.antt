-- ===== src/Efficient/TwLinkList/Changes.antt =====
-- A node put into a ring, and one taken out of it, whatever the order of the writes.
use mathlib.Core.Path.{subst}
use native.Mathlib.Decide.{ℕ_discrete}
use m_toolkit.Base.{
  ℕ, suc, ◌<◌, ◌≡◌, ◌≢◌, true, false, List, [], ◌∷◌, ◌++◌, arith, ◌∙◌, sym, inl, inr, Bool-cases,
}
use m_toolkit.Base.Maps.{has, has-append, distinct}
use m_toolkit.Efficient.TwLinkList.{Heap}
use m_toolkit.Efficient.TwLinkList.Links.{
  sources, targets, Linked, Chain, Chain-split, Chain-insert, Chain-remove, distinct-middle,
}
use m_toolkit.Efficient.TwLinkList.Ring.{
  circle, Ring, Neighbours, around, around_node, sources-snoc, distinct-rotate, has-around,
  has-with, distinct-without, distinct-with,
}

has-here : (n : ℕ) (before after : List ℕ) → has n (before ++ n ∷ after) ≡ true
has-here n before after = ground (arith, has-append n before (n ∷ after))

module _ {V : Type 0} where
  -- The writes that put the new node of `h` between `u` and `v`.
  pub record Inserted (h h' : Heap V) (u v : ℕ) : Type 0 where
    pub before : Linked h'.next h'.prev u h.fresh
    pub after : Linked h'.next h'.prev h.fresh v
    pub next_kept : (m : ℕ) → m < h.fresh → m ≢ u → h'.next m ≡ h.next m
    pub prev_kept : (m : ℕ) → m < h.fresh → m ≢ v → h'.prev m ≡ h.prev m
    pub freed : h'.freed ≡ h.freed
    pub fresh : h'.fresh ≡ suc h.fresh

  -- The writes that take `n` out from between `u` and `v`, and delete it or not.
  pub record Removed (h h' : Heap V) (u n v : ℕ) : Type 0 where
    pub link : Linked h'.next h'.prev u v
    pub next_kept : (m : ℕ) → m ≢ u → h'.next m ≡ h.next m
    pub prev_kept : (m : ℕ) → m ≢ v → h'.prev m ≡ h.prev m
    pub freed : (m : ℕ) → m ≢ n → h'.freed m ≡ h.freed m
    pub fresh : h'.fresh ≡ h.fresh

  module _ (head : ℕ) (before after : List ℕ) (p : Neighbours head before after) (h : Heap V) where
    distinct-sources :
        distinct (head ∷ (before ++ after)) ≡ true
        → distinct (sources (p.xs ++ p.u ∷ p.v ∷ p.ys)) ≡ true
    distinct-sources once =
        subst (λ l. distinct (sources l) ≡ true) (around head before after p)
          (rw (sources-snoc head (before ++ after) head) once)

    distinct-targets :
        distinct (head ∷ (before ++ after)) ≡ true
        → distinct (targets (p.xs ++ p.u ∷ p.v ∷ p.ys)) ≡ true
    distinct-targets once =
        subst (λ l. distinct (targets l) ≡ true) (around head before after p)
          (distinct-rotate head (before ++ after) once)

    source_in :
        (m : ℕ)
        → has m (sources (p.xs ++ p.u ∷ p.v ∷ p.ys)) ≡ true
        → has m (head ∷ (before ++ after)) ≡ true
    source_in m h =
        subst (λ l. has m l ≡ true) (sources-snoc head (before ++ after) head)
          (subst (λ l. has m (sources l) ≡ true) (sym (around head before after p)) h)

    target_in :
        (m : ℕ)
        → has m (targets (p.xs ++ p.u ∷ p.v ∷ p.ys)) ≡ true
        → has m (head ∷ (before ++ after)) ≡ true
    target_in m h =
        let h' : has m ((before ++ after) ++ head ∷ []) ≡ true =
          subst (λ l. has m (targets l) ≡ true) (sym (around head before after p)) h in
        ground (arith, has-append m (before ++ after) (head ∷ []))

    -- The neighbours are linked with each other, or with the node between them.
    pub Ring-linked : Ring head h (before ++ after) → Linked h.next h.prev p.u p.v
    Ring-linked r =
        let c = subst (Chain h.next h.prev) (around head before after p) r.links in
        let (_, l, _) = Chain-split h.next h.prev p.xs p.u p.v p.ys c in l

    pub Ring-linked_node :
        (n : ℕ)
        → Ring head h (before ++ n ∷ after)
        → Linked h.next h.prev p.u n × Linked h.next h.prev n p.v
    Ring-linked_node n r =
        let c = subst (Chain h.next h.prev) (around_node head before after p n) r.links in
        let (_, l, (k, _)) = Chain-split h.next h.prev p.xs p.u n (p.v ∷ p.ys) c in (l, k)

    -- They are nodes of the ring.
    pub Ring-made : Ring head h (before ++ after) → (p.u < h.fresh) × (p.v < h.fresh)
    Ring-made r = (
      r.made p.u (inside p.u (ground (arith, has-append p.u p.xs (p.u ∷ p.v ∷ p.ys)))),
      r.made p.v (inside p.v (ground (arith, has-append p.v p.xs (p.u ∷ p.v ∷ p.ys)))),
    )
      where
        inside :
            (m : ℕ)
            → has m (p.xs ++ p.u ∷ p.v ∷ p.ys) ≡ true
            → has m (head ∷ (before ++ after)) ≡ true
        inside m i =
            let i' : has m (circle head (before ++ after)) ≡ true =
              subst (λ l. has m l ≡ true) (sym (around head before after p)) i in
            ground (arith, has-append m (before ++ after) (head ∷ []))

    -- A node is not its own neighbour on the left.
    pub Ring-apart : (n : ℕ) → Ring head h (before ++ n ∷ after) → n ≢ p.u
    Ring-apart n r e =
        let (out, _) = distinct-middle (head ∷ before) n after r.once in
        let inside : has p.u (p.xs ++ p.u ∷ []) ≡ true = has-here p.u p.xs [] in
        let inside' : has p.u (head ∷ before) ≡ true =
          subst (λ l. has p.u l ≡ true) (sym p.left) inside in
        ground arith

    fresh_out : Ring head h (before ++ after) → has h.fresh (head ∷ (before ++ after)) ≡ false
    fresh_out r = elim (Bool-cases (has h.fresh (head ∷ (before ++ after)))) [
      | inl inside ↦ let l = r.made h.fresh inside in absurd (omega arith)
      | inr outside ↦ outside
    ]

    pub Ring-insert :
        (h' : Heap V)
        → Inserted h h' p.u p.v
        → Ring head h (before ++ after)
        → Ring head h' (before ++ h.fresh ∷ after)
    Ring-insert h' w r = record {
      links = subst (Chain h'.next h'.prev) (sym (around_node head before after p h.fresh)) (
          Chain-insert h.next h.prev h'.next h'.prev p.xs p.u p.v h.fresh p.ys
            (distinct-sources r.once) (distinct-targets r.once)
            (λ m i. w.next_kept m (r.made m (source_in m i)))
            (λ m i. w.prev_kept m (r.made m (target_in m i))) w.before w.after
            (subst (Chain h.next h.prev) (around head before after p) r.links));
      once = distinct-with h.fresh (head ∷ before) after r.once (fresh_out r);
      made = λ m i. elim (ℕ_discrete m h.fresh) [
        | yes e ↦ rw w.fresh (omega arith)
        | no ne ↦
            let l = r.made m (has-with m (head ∷ before) after h.fresh i ne) in
            rw w.fresh (omega arith)
      ];
      unborn = λ m le. rw w.freed (r.unborn m (omega (arith, w.fresh)));
      live = λ m i. elim (ℕ_discrete m h.fresh) [
        | yes e ↦ rw w.freed (r.unborn m (omega arith))
        | no ne ↦ rw w.freed (r.live m (has-with m (head ∷ before) after h.fresh i ne))
      ];
    }

    pub Ring-remove :
        (n : ℕ) (h' : Heap V)
        → Removed h h' p.u n p.v
        → Ring head h (before ++ n ∷ after)
        → Ring head h' (before ++ after)
    Ring-remove n h' w r = record {
      links =
          let once = distinct-without n (head ∷ before) after r.once in
          subst (Chain h'.next h'.prev) (sym (around head before after p)) (
            Chain-remove h.next h.prev h'.next h'.prev p.xs p.u p.v n p.ys (distinct-sources once)
              (distinct-targets once) (λ m i. w.next_kept m) (λ m i. w.prev_kept m) w.link
              (subst (Chain h.next h.prev) (around_node head before after p n) r.links));
      once = distinct-without n (head ∷ before) after r.once;
      made = λ m i. rw w.fresh (r.made m (has-around m (head ∷ before) after n i));
      unborn = λ m le.
          let l = r.made n (has-here n (head ∷ before) after) in
          w.freed m (omega (arith, w.fresh)) ∙ r.unborn m (omega (arith, w.fresh));
      live =
          λ m i. w.freed m (apart n m i r.once) ∙ r.live m (has-around m (head ∷ before) after n i);
    }
      where
        apart :
            (n m : ℕ)
            → has m (head ∷ (before ++ after)) ≡ true
            → distinct (head ∷ (before ++ n ∷ after)) ≡ true
            → m ≢ n
        apart n m i once e =
            let (out, out') = distinct-middle (head ∷ before) n after once in
            ground (arith, has-append m before after)
