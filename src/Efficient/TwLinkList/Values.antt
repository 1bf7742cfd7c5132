-- ===== src/Efficient/TwLinkList/Values.antt =====
-- The data that a ring holds, in order from the head on.
use mathlib.Core.Path.{ap₂}
use mathlib.Core.List.{map-append}
use m_toolkit.Base.{ℕ, ◌<◌, ◌≤◌, ◌≡◌, refl, true, false, List, [], ◌∷◌, ◌++◌, arith, ◌∙◌, ap, map}
use m_toolkit.Base.Maps.{has, has-append, update}
use m_toolkit.Efficient.TwLinkList.{Heap, new_links, initialize}
use m_toolkit.Efficient.TwLinkList.Ring.{Ring, values, Neighbours}
use m_toolkit.Efficient.TwLinkList.Changes.{Inserted, Removed, Ring-insert, Ring-remove}

module _ {V : Type 0} where
  abbrev pub Holds : ℕ → Heap V → List V → Type 0
  Holds head h vs = (nodes : List ℕ) × Ring head h nodes × (values h nodes ≡ vs)

  -- A heap whose free addresses have not been deleted.
  abbrev pub Unborn : Heap V → Type 0
  Unborn h = (m : ℕ) → h.fresh ≤ m → h.freed m ≡ false

  values-same :
      (f g : ℕ → V) (nodes : List ℕ)
      → ((m : ℕ) → has m nodes ≡ true → g m ≡ f m)
      → map g nodes ≡ map f nodes
  values-same f g [] same = refl
  values-same f g (n ∷ nodes) same =
      ap₂ (λ v vs. v ∷ vs) (same n (ground arith))
        (values-same f g nodes (λ m h. same m (ground arith)))

  -- A head of its own.
  pub create-Holds : (h : Heap V) → Unborn h → Holds h.fresh (initialize h.fresh (new_links h)) []
  create-Holds h unborn = (
    [],
    record {
      links = ((ground arith, ground arith), tt);
      once = refl;
      made = λ m i. ground arith;
      unborn = λ m le. unborn m (omega arith);
      live = λ m i. unborn m (ground arith);
    },
    refl,
  )

  -- A new node between two parts of the ring.
  pub insert-Holds :
      (head : ℕ) (h h' : Heap V) (v : V) (before after : List ℕ)
      → (p : Neighbours head before after) → Inserted h h' p.u p.v
      → h'.payload ≡ update h.payload h.fresh v
      → Ring head h (before ++ after)
      → Holds head h' (values h before ++ v ∷ values h after)
  insert-Holds head h h' v before after p w e r = (
    before ++ h.fresh ∷ after,
    Ring-insert head before after p h h' w r,
    map-append h'.payload before (h.fresh ∷ after)
        ∙ ap₂ (λ a b. a ++ b)
            (same before (λ m i. r.made m (ground (arith, has-append m before after))))
            (ap₂ (λ a b. a ∷ b) (ap (λ f. f h.fresh) e ∙ ground arith)
              (same after (λ m i. r.made m (ground (arith, has-append m before after))))),
  )
    where
      same :
          (nodes : List ℕ)
          → ((m : ℕ) → has m nodes ≡ true → m < h.fresh)
          → values h' nodes ≡ values h nodes
      same nodes made =
          values-same h.payload h'.payload nodes
            λ m i. let l = made m i in ap (λ f. f m) e ∙ ground arith

  -- A node taken out.
  remove-Holds :
      (head : ℕ) (h h' : Heap V) (before after : List ℕ) (n : ℕ)
      → (p : Neighbours head before after) → Removed h h' p.u n p.v
      → h'.payload ≡ h.payload
      → Ring head h (before ++ n ∷ after)
      → Holds head h' (values h before ++ values h after)
  remove-Holds head h h' before after n p w e r = (
    before ++ after,
    Ring-remove head before after p h n h' w r,
    ap (λ f. map f (before ++ after)) e ∙ map-append h.payload before after,
  )

  -- Of data that stand in a ring, the nodes that hold them.
  pub values-split :
      (f : ℕ → V) (nodes : List ℕ) (vs bs : List V) (b : V)
      → map f nodes ≡ vs ++ b ∷ bs
      → (before : List ℕ) × (n : ℕ) × (after : List ℕ) × (nodes ≡ before ++ n ∷ after)
        × (map f before ≡ vs)
        × (f n ≡ b)
        × (map f after ≡ bs)
  values-split f [] [] bs b e = absurd (ground arith)
  values-split f [] (a ∷ vs) bs b e = absurd (ground arith)
  values-split f (n ∷ nodes) [] bs b e = ([], n, nodes, refl, refl, cc, cc)
  values-split f (n ∷ nodes) (a ∷ vs) bs b e =
      let (before, m, after, e₁, e₂, e₃, e₄) = values-split f nodes vs bs b cc in
      (n ∷ before, m, after, ap (λ l. n ∷ l) e₁, cc, e₃, e₄)

  pub values-none : (f : ℕ → V) (nodes : List ℕ) → map f nodes ≡ [] → nodes ≡ []
  values-none f [] e = refl
  values-none f (n ∷ nodes) e = absurd (ground arith)
