-- ===== src/Actor/Sets.antt =====
-- The sets of subscribers: in the order of the addresses, each once.
use m_toolkit.Base.{
  ℕ, ◌<◌, ◌≡◌, refl, sym, ap, ◌∙◌, arith, Bool, true, false, not, ◌&&◌, ◌||◌, List, [], ◌∷◌, ◌++◌,
  ltb, ◌==◌, if◌then◌else◌, Bool-cases, inl, inr,
}
use m_toolkit.Base.Maps.{update, has}
use m_toolkit.Actor.{Event, push_back, set_insert, set_erase, push_to}

-- All of them are above `x`; a set in order.
abbrev pub above : ℕ → List ℕ → Bool
above x [] = true
above x (y ∷ l) = ltb x y && above x l

abbrev pub ascending : List ℕ → Bool
ascending [] = true
ascending (x ∷ l) = above x l && ascending l

above-has : (x b : ℕ) (l : List ℕ) → above x l ≡ true → has b l ≡ true → x < b
above-has x b [] higher there = absurd (ground (arith, there))
above-has x b (y ∷ l) higher there = ground (arith, above-has x b l)

above_lower : (a x : ℕ) (l : List ℕ) → a < x → above x l ≡ true → above a l ≡ true
above_lower a x [] lower higher = refl
above_lower a x (y ∷ l) lower higher = ground (arith, above_lower a x l)

above-set_insert :
    (x a : ℕ) (l : List ℕ) → x < a → above x l ≡ true → above x (set_insert a l) ≡ true
unfolding set_insert
above-set_insert x a [] lower higher = ground arith
above-set_insert x a (y ∷ l) lower higher = ground (arith, above-set_insert x a l)

pub ascending-set_insert :
    (a : ℕ) (l : List ℕ) → ascending l ≡ true → ascending (set_insert a l) ≡ true
unfolding set_insert
ascending-set_insert a [] ordered = refl
ascending-set_insert a (x ∷ l) ordered =
    ground (arith, ascending-set_insert a l, above-set_insert x a l, above_lower a x l)

pub has-set_insert : (a b : ℕ) (l : List ℕ) → has b (set_insert a l) ≡ (b == a || has b l)
unfolding set_insert
has-set_insert a b [] = refl
has-set_insert a b (x ∷ l) = ground (arith, has-set_insert a b l)

above-set_erase : (x a : ℕ) (l : List ℕ) → above x l ≡ true → above x (set_erase a l) ≡ true
unfolding set_erase
above-set_erase x a [] higher = refl
above-set_erase x a (y ∷ l) higher = ground (arith, above-set_erase x a l)

pub ascending-set_erase :
    (a : ℕ) (l : List ℕ) → ascending l ≡ true → ascending (set_erase a l) ≡ true
unfolding set_erase
ascending-set_erase a [] ordered = refl
ascending-set_erase a (x ∷ l) ordered =
    ground (arith, ascending-set_erase a l, above-set_erase x a l)

pub has-set_erase :
    (a b : ℕ) (l : List ℕ) → ascending l ≡ true → has b (set_erase a l) ≡ (not (b == a) && has b l)
unfolding set_erase
has-set_erase a b [] ordered = ground arith
has-set_erase a b (x ∷ l) ordered = ground (arith, has-set_erase a b l, above-has x b l)

pub parts : (p q : Bool) → (p && q) ≡ true → (p ≡ true) × (q ≡ true)
parts true q both = (refl, both)
parts false q both = absurd (ground (arith, both))

not_above : (x b : ℕ) (l : List ℕ) → above x l ≡ true → b ≡ x → has b l ≡ false
not_above x b l higher equal = elim (Bool-cases (has b l)) [
  | inr absent ↦ absent
  | inl there ↦ let l = above-has x b l higher there in absurd (omega arith)
]

-- Every actor of the set gets the event once, and no other does.
pub push_to-has :
    (l : List ℕ) (event : Event) (queues : ℕ → List Event) (b : ℕ)
    → ascending l ≡ true
    → push_to l event queues b ≡ (if has b l then queues b ++ event ∷ [] else queues b)
unfolding push_to push_back
push_to-has [] event queues b ordered = refl
push_to-has (x ∷ l) event queues b ordered =
    let (higher, rest) = parts (above x l) (ascending l) ordered in
    let later = push_to-has l event (update queues x (queues x ++ event ∷ [])) b rest in
    elim (Bool-cases (b == x)) [
      | inl same ↦
          let equal : b ≡ x = ground arith in
          let once : has b l ≡ false = not_above x b l higher equal in
          later
          ∙ ap
              (λ t.
                if t
                then update queues x (queues x ++ event ∷ []) b ++ event ∷ []
                else update queues x (queues x ++ event ∷ []) b)
              once
          ∙ ap (λ t. if t then queues x ++ event ∷ [] else queues b) same
          ∙ ap (λ c. queues c ++ event ∷ []) (sym equal)
          ∙ sym (ap (λ t. if t || has b l then queues b ++ event ∷ [] else queues b) same)
      | inr other ↦
          later
          ∙ ap
              (λ t.
                if has b l
                then (if t then queues x ++ event ∷ [] else queues b) ++ event ∷ []
                else (if t then queues x ++ event ∷ [] else queues b))
              other
          ∙ sym (ap (λ t. if t || has b l then queues b ++ event ∷ [] else queues b) other)
    ]
