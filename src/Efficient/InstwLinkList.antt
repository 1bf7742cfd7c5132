-- ===== src/Efficient/InstwLinkList.antt =====
-- toolkit/source/efficient/instwlinklist.h: a list whose nodes carry their links, on a ring around a
-- head. A loop around the ring that does not end within `fuel` turns gives `none`.
pub mod Laws
pub mod Removal
pub mod Destruction
use m_toolkit.Base.{
  ℕ, zero, suc, Bool, true, false, Option, none, some, List, [], ◌∷◌, ◌==◌, if◌then◌else◌,
}
use m_toolkit.Efficient.TwLinkList.{
  Heap, new_links, new_node, delete_node, initialize, destroy_node, insert_back, insert_front,
}

module _ {V : Type 0} where
  unfoldable pub create : Heap V → ℕ × Heap V
  create h = (h.fresh, initialize h.fresh (new_links h))

  unfoldable pub push_back : (head : ℕ) → V → Heap V → Heap V
  push_back head v h = insert_back head h.fresh (new_node v h)

  unfoldable pub push_front : (head : ℕ) → V → Heap V → Heap V
  push_front head v h = insert_front head h.fresh (new_node v h)

  unfoldable pub empty : (head : ℕ) → Heap V → Bool
  empty head h = head == h.next head

  unfoldable pub size_from : (fuel head iter : ℕ) → Heap V → Option ℕ
  size_from zero head iter h = none
  size_from (suc fuel) head iter h =
      let rest = size_from fuel head (h.next iter) h in
      if iter == head then some 0 else elim rest [ none ↦ none | some k ↦ some (suc k) ]

  unfoldable pub size : (fuel head : ℕ) → Heap V → Option ℕ
  size fuel head h = size_from fuel head (h.next head) h

  -- `Ergodic`: the data that its argument is called on, in order.
  unfoldable pub ergodic_from : (fuel head iter : ℕ) → Heap V → Option (List V)
  ergodic_from zero head iter h = none
  ergodic_from (suc fuel) head iter h =
      let rest = ergodic_from fuel head (h.next iter) h in
      if iter == head
      then some []
      else elim rest [ none ↦ none | some vs ↦ some (h.payload iter ∷ vs) ]

  unfoldable pub ergodic : (fuel head : ℕ) → Heap V → Option (List V)
  ergodic fuel head h = ergodic_from fuel head (h.next head) h

  -- `Remove(value)`, where `same` compares with the value: the first node that it finds.
  unfoldable pub remove_from : (V → Bool) → (fuel head iter : ℕ) → Heap V → Option (Heap V)
  remove_from same zero head iter h = none
  remove_from same (suc fuel) head iter h =
      let rest = remove_from same fuel head (h.next iter) h in
      if iter == head
      then some h
      else (if same (h.payload iter) then some (delete_node iter (destroy_node iter h)) else rest)

  unfoldable pub remove : (V → Bool) → (fuel head : ℕ) → Heap V → Option (Heap V)
  remove same fuel head h = remove_from same fuel head (h.next head) h

  -- `Remove(pr)`: every node whose data `pr` accepts.
  unfoldable pub remove_if_from : (V → Bool) → (fuel head iter : ℕ) → Heap V → Option (Heap V)
  remove_if_from pr zero head iter h = none
  remove_if_from pr (suc fuel) head iter h =
      let taken = destroy_node iter h in
      let without = remove_if_from pr fuel head (taken.next iter) (delete_node iter taken) in
      let rest = remove_if_from pr fuel head (h.next iter) h in
      if iter == head then some h else (if pr (h.payload iter) then without else rest)

  unfoldable pub remove_if : (V → Bool) → (fuel head : ℕ) → Heap V → Option (Heap V)
  remove_if pr fuel head h = remove_if_from pr fuel head (h.next head) h

  -- The destructor.
  unfoldable pub destroy_from : (fuel head iter : ℕ) → Heap V → Option (Heap V)
  destroy_from zero head iter h = none
  destroy_from (suc fuel) head iter h =
      let taken = destroy_node iter h in
      let rest = destroy_from fuel head (taken.next iter) (delete_node iter taken) in
      if iter == head then some (delete_node head h) else rest

  unfoldable pub destroy : (fuel head : ℕ) → Heap V → Option (Heap V)
  destroy fuel head h = destroy_from fuel head (h.next head) h
