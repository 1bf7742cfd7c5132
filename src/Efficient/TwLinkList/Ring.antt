-- ===== src/Efficient/TwLinkList/Ring.antt =====
-- A heap seen as a ring of nodes around a head, and what `InsertTWLinkList` and `DestroyNode` make of
-- it.
use mathlib.Core.List.{append_assoc}
use m_toolkit.Base.{
  ℕ, ◌<◌, ◌≤◌, ◌≡◌, ◌≢◌, refl, true, false, List, [], ◌∷◌, ◌++◌, arith, ◌∙◌, ap, map,
}
use m_toolkit.Base.Maps.{has, has-append, distinct}
use m_toolkit.Efficient.TwLinkList.{Heap}
use m_toolkit.Efficient.TwLinkList.Links.{sources, Chain}

-- The nodes of a ring, from the head once around to the head.
abbrev pub circle : ℕ → List ℕ → List ℕ
circle head nodes = head ∷ (nodes ++ head ∷ [])

module _ {V : Type 0} where
  pub record Ring (head : ℕ) (h : Heap V) (nodes : List ℕ) : Type 0 where
    pub links : Chain h.next h.prev (circle head nodes)
    pub once : distinct (head ∷ nodes) ≡ true
    pub made : (m : ℕ) → has m (head ∷ nodes) ≡ true → m < h.fresh
    pub unborn : (m : ℕ) → h.fresh ≤ m → h.freed m ≡ false
    pub live : (m : ℕ) → has m (head ∷ nodes) ≡ true → h.freed m ≡ false

  abbrev pub values : Heap V → List ℕ → List V
  values h nodes = map h.payload nodes

-- The neighbours of a place in a ring.
pub record Neighbours (head : ℕ) (before after : List ℕ) : Type 0 where
  pub xs : List ℕ
  pub u : ℕ
  pub v : ℕ
  pub ys : List ℕ
  pub left : head ∷ before ≡ xs ++ u ∷ []
  pub right : after ++ head ∷ [] ≡ v ∷ ys

abbrev pub last_of : (a : ℕ) (l : List ℕ) → (xs : List ℕ) × (u : ℕ) × (a ∷ l ≡ xs ++ u ∷ [])
last_of a [] = ([], a, refl)
last_of a (b ∷ l) = let (xs, u, e) = last_of b l in (a ∷ xs, u, ap (λ x. a ∷ x) e)

abbrev pub first_of : (l : List ℕ) (z : ℕ) → (v : ℕ) × (ys : List ℕ) × (l ++ z ∷ [] ≡ v ∷ ys)
first_of [] z = (z, [], refl)
first_of (c ∷ l) z = (c, l ++ z ∷ [], refl)

abbrev pub neighbours : (head : ℕ) (before after : List ℕ) → Neighbours head before after
neighbours head before after =
    let (xs, u, left) = last_of head before in
    let (v, ys, right) = first_of after head in
    record { xs = xs; u = u; v = v; ys = ys; left = left; right = right }

module _ (head : ℕ) (before after : List ℕ) (p : Neighbours head before after) where
  pub around : circle head (before ++ after) ≡ p.xs ++ p.u ∷ p.v ∷ p.ys
  around =
      ap (λ l. head ∷ l) (append_assoc before after (head ∷ []))
      ∙ ap (λ l. (head ∷ before) ++ l) p.right
      ∙ ap (λ l. l ++ p.v ∷ p.ys) p.left
      ∙ append_assoc p.xs (p.u ∷ []) (p.v ∷ p.ys)

  pub around_node : (n : ℕ) → circle head (before ++ n ∷ after) ≡ p.xs ++ p.u ∷ n ∷ p.v ∷ p.ys
  around_node n =
      ap (λ l. head ∷ l) (append_assoc before (n ∷ after) (head ∷ []))
      ∙ ap (λ l. (head ∷ before) ++ n ∷ l) p.right
      ∙ ap (λ l. l ++ n ∷ p.v ∷ p.ys) p.left
      ∙ append_assoc p.xs (p.u ∷ []) (n ∷ p.v ∷ p.ys)

pub sources-snoc : (a : ℕ) (l : List ℕ) (z : ℕ) → sources (a ∷ (l ++ z ∷ [])) ≡ a ∷ l
sources-snoc a [] z = refl
sources-snoc a (b ∷ l) z = ap (λ x. a ∷ x) (sources-snoc b l z)

pub distinct-rotate : (a : ℕ) (l : List ℕ) → distinct (a ∷ l) ≡ true → distinct (l ++ a ∷ []) ≡ true
distinct-rotate a [] d = refl
distinct-rotate a (b ∷ l) d = ground (arith, distinct-rotate a l, has-append b l (a ∷ []))

has-middle :
    (m : ℕ) (before after : List ℕ) (n : ℕ)
    → has m (before ++ n ∷ after) ≡ false
    → (m ≢ n) × (has m (before ++ after) ≡ false)
has-middle m before after n h = (
  λ e. ground (arith, has-append m before (n ∷ after)),
  ground (arith, has-append m before (n ∷ after), has-append m before after),
)

pub has-around :
    (m : ℕ) (before after : List ℕ) (n : ℕ)
    → has m (before ++ after) ≡ true
    → has m (before ++ n ∷ after) ≡ true
has-around m before after n h =
    ground (arith, has-append m before (n ∷ after), has-append m before after)

pub has-with :
    (m : ℕ) (before after : List ℕ) (n : ℕ)
    → has m (before ++ n ∷ after) ≡ true
    → m ≢ n
    → has m (before ++ after) ≡ true
has-with m before after n h ne =
    ground (arith, has-append m before (n ∷ after), has-append m before after)

pub distinct-without :
    (n : ℕ) (before after : List ℕ)
    → distinct (before ++ n ∷ after) ≡ true
    → distinct (before ++ after) ≡ true
distinct-without n [] after d = ground arith
distinct-without n (b ∷ before) after d = ground (
  arith,
  distinct-without n before after,
  has-append b before (n ∷ after),
  has-append b before after,
)

pub distinct-with :
    (n : ℕ) (before after : List ℕ)
    → distinct (before ++ after) ≡ true
    → has n (before ++ after) ≡ false
    → distinct (before ++ n ∷ after) ≡ true
distinct-with n [] after d h = ground arith
distinct-with n (b ∷ before) after d h = ground (
  arith,
  distinct-with n before after,
  has-append b before (n ∷ after),
  has-append b before after,
)
