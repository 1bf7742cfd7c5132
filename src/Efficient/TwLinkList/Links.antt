-- ===== src/Efficient/TwLinkList/Links.antt =====
-- Chains of nodes, each linked with the next one in both directions, and what writes do to them.
use mathlib.Core.List.{append_assoc}
use m_toolkit.Base.{ℕ, ◌≡◌, ◌≢◌, refl, true, false, List, [], ◌∷◌, ◌++◌, arith, ◌∙◌, sym}
use m_toolkit.Base.Maps.{has, has-append, distinct}

-- The nodes of a chain whose `next` it reads, and those whose `prev` it reads.
abbrev pub sources : List ℕ → List ℕ
sources [] = []
sources (a ∷ []) = []
sources (a ∷ b ∷ xs) = a ∷ sources (b ∷ xs)

abbrev pub targets : List ℕ → List ℕ
targets [] = []
targets (a ∷ xs) = xs

sources-two :
    (xs : List ℕ) (u v : ℕ) (ys : List ℕ) → sources (xs ++ u ∷ v ∷ ys) ≡ xs ++ u ∷ sources (v ∷ ys)
sources-two [] u v ys = refl
sources-two (x ∷ []) u v ys = refl
sources-two (x ∷ y ∷ xs) u v ys = rw (sources-two (y ∷ xs) u v ys) refl

sources-last : (xs : List ℕ) (u : ℕ) → sources (xs ++ u ∷ []) ≡ xs
sources-last [] u = refl
sources-last (x ∷ []) u = refl
sources-last (x ∷ y ∷ xs) u = rw (sources-last (y ∷ xs) u) refl

targets-two :
    (xs : List ℕ) (u v : ℕ) (ys : List ℕ)
    → targets (xs ++ u ∷ v ∷ ys) ≡ targets (xs ++ u ∷ []) ++ v ∷ ys
targets-two [] u v ys = refl
targets-two (x ∷ xs) u v ys = sym (append_assoc xs (u ∷ []) (v ∷ ys))

pub distinct-middle :
    (xs : List ℕ) (u : ℕ) (ys : List ℕ)
    → distinct (xs ++ u ∷ ys) ≡ true
    → (has u xs ≡ false) × (has u ys ≡ false)
distinct-middle [] u ys d = (refl, ground arith)
distinct-middle (x ∷ xs) u ys d =
    let (a, b) = distinct-middle xs u ys (ground arith) in
    (ground (arith, has-append x xs (u ∷ ys)), b)

-- The parts of a heap that links stand in.
module _ (next prev : ℕ → ℕ) where
  abbrev pub Linked : ℕ → ℕ → Type 0
  Linked a b = (next a ≡ b) × (prev b ≡ a)

  abbrev pub Chain : List ℕ → Type 0
  Chain [] = Unit
  Chain (a ∷ []) = Unit
  Chain (a ∷ b ∷ xs) = Linked a b × Chain (b ∷ xs)

  pub Chain-split :
      (xs : List ℕ) (u v : ℕ) (ys : List ℕ)
      → Chain (xs ++ u ∷ v ∷ ys)
      → Chain (xs ++ u ∷ []) × Linked u v × Chain (v ∷ ys)
  Chain-split [] u v ys (l, c) = (tt, l, c)
  Chain-split (x ∷ []) u v ys (k, (l, c)) = ((k, tt), l, c)
  Chain-split (x ∷ y ∷ xs) u v ys (k, c) =
      let (a, l, b) = Chain-split (y ∷ xs) u v ys c in ((k, a), l, b)

  Chain-join :
      (xs : List ℕ) (u v : ℕ) (ys : List ℕ)
      → Chain (xs ++ u ∷ [])
      → Linked u v
      → Chain (v ∷ ys)
      → Chain (xs ++ u ∷ v ∷ ys)
  Chain-join [] u v ys a l b = (l, b)
  Chain-join (x ∷ []) u v ys (k, _) l b = (k, (l, b))
  Chain-join (x ∷ y ∷ xs) u v ys (k, a) l b = (k, Chain-join (y ∷ xs) u v ys a l b)

-- Writes that a chain does not read.
Chain-kept :
    (next prev next' prev' : ℕ → ℕ) (l : List ℕ)
    → ((m : ℕ) → has m (sources l) ≡ true → next' m ≡ next m)
    → ((m : ℕ) → has m (targets l) ≡ true → prev' m ≡ prev m)
    → Chain next prev l
    → Chain next' prev' l
Chain-kept next prev next' prev' [] n p c = tt
Chain-kept next prev next' prev' (a ∷ []) n p c = tt
Chain-kept next prev next' prev' (a ∷ b ∷ xs) n p ((f, g), c) = (
  (n a (ground arith) ∙ f, p b (ground arith) ∙ g),
  Chain-kept next prev next' prev' (b ∷ xs) (λ m h. n m (ground arith)) (λ m h. p m (ground arith))
      c,
)

-- Around the link from `u` to `v` in a chain, writes to `next` of `u` and `prev` of `v` only.
Chain-around :
    (next prev next' prev' : ℕ → ℕ) (xs : List ℕ) (u v : ℕ) (ys : List ℕ)
    → distinct (sources (xs ++ u ∷ v ∷ ys)) ≡ true
    → distinct (targets (xs ++ u ∷ v ∷ ys)) ≡ true
    → ((m : ℕ) → has m (sources (xs ++ u ∷ v ∷ ys)) ≡ true → m ≢ u → next' m ≡ next m)
    → ((m : ℕ) → has m (targets (xs ++ u ∷ v ∷ ys)) ≡ true → m ≢ v → prev' m ≡ prev m)
    → Chain next prev (xs ++ u ∷ [])
    → Chain next prev (v ∷ ys)
    → Chain next' prev' (xs ++ u ∷ []) × Chain next' prev' (v ∷ ys)
Chain-around next prev next' prev' xs u v ys ds dt n p a b =
    let (s₁, s₂) = distinct-middle xs u (sources (v ∷ ys)) (rw (sources-two xs u v ys) at ds) in
    let (t₁, t₂) =
      distinct-middle (targets (xs ++ u ∷ [])) v ys (rw (targets-two xs u v ys) at dt) in
    let n' : (m : ℕ) → has m (xs ++ u ∷ sources (v ∷ ys)) ≡ true → m ≢ u → next' m ≡ next m =
      λ m h ne. n m (rw (sources-two xs u v ys) h) ne in
    let p' : (m : ℕ) → has m (targets (xs ++ u ∷ []) ++ v ∷ ys) ≡ true → m ≢ v → prev' m ≡ prev m =
      λ m h ne. p m (rw (targets-two xs u v ys) h) ne in
    (
      Chain-kept next prev next' prev' (xs ++ u ∷ [])
          (λ m h.
            let h' = rw (sources-last xs u) at h in
            n' m (rw (has-append m xs (u ∷ sources (v ∷ ys))) (ground arith)) (apart xs s₁ h'))
          (λ m h.
            p' m (rw (has-append m (targets (xs ++ u ∷ [])) (v ∷ ys)) (ground arith))
              (apart (targets (xs ++ u ∷ [])) t₁ h))
          a,
      Chain-kept next prev next' prev' (v ∷ ys)
          (λ m h.
            n' m (rw (has-append m xs (u ∷ sources (v ∷ ys))) (ground arith))
              (apart (sources (v ∷ ys)) s₂ h))
          (λ m h.
            p' m (rw (has-append m (targets (xs ++ u ∷ [])) (v ∷ ys)) (ground arith))
              (apart ys t₂ h))
          b,
    )
  where
    apart : {k m : ℕ} (l : List ℕ) → has k l ≡ false → has m l ≡ true → m ≢ k
    apart {k} {m} l out inside e = ground arith

-- A node `n` put between `u` and `v`.
pub Chain-insert :
    (next prev next' prev' : ℕ → ℕ) (xs : List ℕ) (u v n : ℕ) (ys : List ℕ)
    → distinct (sources (xs ++ u ∷ v ∷ ys)) ≡ true
    → distinct (targets (xs ++ u ∷ v ∷ ys)) ≡ true
    → ((m : ℕ) → has m (sources (xs ++ u ∷ v ∷ ys)) ≡ true → m ≢ u → next' m ≡ next m)
    → ((m : ℕ) → has m (targets (xs ++ u ∷ v ∷ ys)) ≡ true → m ≢ v → prev' m ≡ prev m)
    → Linked next' prev' u n
    → Linked next' prev' n v
    → Chain next prev (xs ++ u ∷ v ∷ ys)
    → Chain next' prev' (xs ++ u ∷ n ∷ v ∷ ys)
Chain-insert next prev next' prev' xs u v n ys ds dt keep_next keep_prev before after c =
    let (a, _, b) = Chain-split next prev xs u v ys c in
    let (a', b') = Chain-around next prev next' prev' xs u v ys ds dt keep_next keep_prev a b in
    Chain-join next' prev' xs u n (v ∷ ys) a' before (after, b')

-- A node `n` taken out from between `u` and `v`.
pub Chain-remove :
    (next prev next' prev' : ℕ → ℕ) (xs : List ℕ) (u v n : ℕ) (ys : List ℕ)
    → distinct (sources (xs ++ u ∷ v ∷ ys)) ≡ true
    → distinct (targets (xs ++ u ∷ v ∷ ys)) ≡ true
    → ((m : ℕ) → has m (sources (xs ++ u ∷ v ∷ ys)) ≡ true → m ≢ u → next' m ≡ next m)
    → ((m : ℕ) → has m (targets (xs ++ u ∷ v ∷ ys)) ≡ true → m ≢ v → prev' m ≡ prev m)
    → Linked next' prev' u v
    → Chain next prev (xs ++ u ∷ n ∷ v ∷ ys)
    → Chain next' prev' (xs ++ u ∷ v ∷ ys)
Chain-remove next prev next' prev' xs u v n ys ds dt keep_next keep_prev link c =
    let (a, _, (_, b)) = Chain-split next prev xs u n (v ∷ ys) c in
    let (a', b') = Chain-around next prev next' prev' xs u v ys ds dt keep_next keep_prev a b in
    Chain-join next' prev' xs u v ys a' link b'
