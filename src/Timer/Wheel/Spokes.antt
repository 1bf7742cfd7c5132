-- ===== src/Timer/Wheel/Spokes.antt =====
-- The lists of a wheel as a table by level and index, each node in one place, while some nodes are
-- on their way between places.
use m_toolkit.Base.{
  ℕ, ◌≡◌, refl, ◌⊎◌, inl, inr, true, false, ◌&&◌, List, [], ◌∷◌, ◌++◌, arith, ◌==◌, if◌then◌else◌,
  Bool-cases,
}
use m_toolkit.Base.Maps.{has, has-append, distinct}

abbrev pub Spokes : Type 0
Spokes = ℕ → ℕ → List ℕ

-- A node into a list; a list emptied.
abbrev pub add : ℕ → ℕ → ℕ → Spokes → Spokes
add l i n f = λ k j. if k == l && j == i then f k j ++ n ∷ [] else f k j

abbrev pub clear : ℕ → ℕ → Spokes → Spokes
clear l i f = λ k j. if k == l && j == i then [] else f k j

abbrev pub Stored : Spokes → ℕ → Type 0
Stored f n = (l : ℕ) × (i : ℕ) × (has n (f l i) ≡ true)

-- `Fits l i n` is what a node `n` at level `l` and index `i` has to meet.
pub record Held (f : Spokes) (Fits : ℕ → ℕ → ℕ → Type 0) (pending : List ℕ) : Type 0 where
  pub due : (l i n : ℕ) → has n (f l i) ≡ true → Fits l i n
  pub alone : (l i k j n : ℕ) → has n (f l i) ≡ true → has n (f k j) ≡ true → (l ≡ k) × (i ≡ j)
  pub once : (l i : ℕ) → distinct (f l i) ≡ true
  pub waiting : distinct pending ≡ true
  pub apart : (l i n : ℕ) → has n pending ≡ true → has n (f l i) ≡ false

distinct-snoc :
    (n : ℕ) (xs : List ℕ) → distinct xs ≡ true → has n xs ≡ false → distinct (xs ++ n ∷ []) ≡ true
distinct-snoc n [] d h = refl
distinct-snoc n (x ∷ xs) d h = ground (arith, has-append x xs (n ∷ []), distinct-snoc n xs)

-- Of a node in the table after an addition, where it was.
has-add :
    (f : Spokes) (l i n k j m : ℕ)
    → has m (add l i n f k j) ≡ true
    → (has m (f k j) ≡ true) ⊎ ((m ≡ n) × (k ≡ l) × (j ≡ i))
has-add f l i n k j m h = ground (arith, has-append m (f k j) (n ∷ []))

module _ {Fits : ℕ → ℕ → ℕ → Type 0} (f : Spokes) where
  pub Held-add :
      (l i n : ℕ) (pending : List ℕ)
      → Held f Fits (n ∷ pending)
      → Fits l i n
      → Held (add l i n f) Fits pending
  Held-add l i n pending v fit = record {
    due = λ k j m h. elim (has-add f l i n k j m h) [
      | inl old ↦ v.due k j m old
      | inr (em, ek, ej) ↦ rw (em, ek, ej) fit
    ];
    alone = λ k j k' j' m h h'. elim (has-add f l i n k j m h) [
      | inl old ↦ elim (has-add f l i n k' j' m h') [
        | inl old' ↦ v.alone k j k' j' m old old'
        | inr (em, _, _) ↦ absurd (not_both k j m em old)
      ]
      | inr (em, ek, ej) ↦ elim (has-add f l i n k' j' m h') [
        | inl old' ↦ absurd (not_both k' j' m em old')
        | inr (_, ek', ej') ↦ (cc, cc)
      ]
    ];
    once = λ k j. ground (arith, v.once k j, distinct-snoc n (f k j), v.apart k j n);
    waiting = ground (arith, v.waiting);
    apart = λ k j m h. ground (arith, v.waiting, v.apart k j m, has-append m (f k j) (n ∷ []));
  }
    where
      not_both : (k j m : ℕ) → m ≡ n → has m (f k j) ≡ true → ⊥
      not_both k j m e h = ground (arith, v.apart k j m)

  pub Held-clear : (l i : ℕ) → Held f Fits [] → Held (clear l i f) Fits (f l i)
  Held-clear l i v = record {
    due = λ k j m h. v.due k j m (ground arith);
    alone = λ k j k' j' m h h'. v.alone k j k' j' m (ground arith) (ground arith);
    once = λ k j. ground (arith, v.once k j);
    waiting = v.once l i;
    apart = λ k j m h. ground (arith, v.alone l i k j m h);
  }

  pub Held-mono :
      {Fits' : ℕ → ℕ → ℕ → Type 0} (pending : List ℕ)
      → Held f Fits pending
      → ((l i n : ℕ) → has n (f l i) ≡ true → Fits l i n → Fits' l i n)
      → Held f Fits' pending
  Held-mono pending v weaken = record {
    due = λ k j m h. weaken k j m h (v.due k j m h);
    alone = v.alone;
    once = v.once;
    waiting = v.waiting;
    apart = v.apart;
  }

module _ (f : Spokes) (l i n m : ℕ) where
  pub Stored-add_from : Stored (add l i n f) m → Stored f m ⊎ (has m (n ∷ []) ≡ true)
  Stored-add_from (k, j, h) = elim (has-add f l i n k j m h) [
    | inl old ↦ inl (k, j, old)
    | inr (e, _, _) ↦ inr (ground arith)
  ]

  pub Stored-add_kept : Stored f m → Stored (add l i n f) m
  Stored-add_kept (k, j, h) = (k, j, ground (arith, has-append m (f k j) (n ∷ [])))

  pub Stored-add_new : has m (n ∷ []) ≡ true → Stored (add l i n f) m
  Stored-add_new h = (l, i, ground (arith, has-append m (f l i) (n ∷ [])))

module _ (f : Spokes) (l i n : ℕ) where
  pub cleared_ne : (k j : ℕ) → has n (clear l i f k j) ≡ true → k ≡ l → j ≡ i → ⊥
  cleared_ne k j h p q = ground arith

  pub has-clear : (k j : ℕ) → has n (clear l i f k j) ≡ true → has n (f k j) ≡ true
  has-clear k j h = ground arith

  pub Stored-clear_from : Stored (clear l i f) n → Stored f n
  Stored-clear_from (k, j, h) = (k, j, ground arith)

  pub Stored-clear_or : Stored f n → Stored (clear l i f) n ⊎ (has n (f l i) ≡ true)
  Stored-clear_or (k, j, h) = elim (Bool-cases (k == l && j == i)) [
    | inl hit ↦ inr (ground arith)
    | inr miss ↦ inl (k, j, rw miss h)
  ]

-- A node that is on its way and does not come back.
pub Held-drop :
    {Fits : ℕ → ℕ → ℕ → Type 0} (f : Spokes) (n : ℕ) (pending : List ℕ)
    → Held f Fits (n ∷ pending)
    → Held f Fits pending
Held-drop f n pending v = record {
  due = v.due;
  alone = v.alone;
  once = v.once;
  waiting = ground (arith, v.waiting);
  apart = λ l i m h. v.apart l i m (ground arith);
}
