-- ===== src/Efficient/Stack.antt =====
-- toolkit/source/efficient/stack.h: a stack on a ring of nodes around a head.
pub mod Laws
pub mod Destruction
use m_toolkit.Base.{ℕ, zero, suc, Bool, true, false, Option, none, some, List, [], ◌∷◌, ◌==◌}
use m_toolkit.Efficient.TwLinkList.{
  Heap, set_next, set_prev, new_links, new_node, delete_node, initialize,
}

module _ {V : Type 0} where
  -- The constructor: the new head, and the heap.
  unfoldable pub create : Heap V → ℕ × Heap V
  create h = (h.fresh, initialize h.fresh (new_links h))

  unfoldable pub push : (head : ℕ) → V → Heap V → Heap V
  push head v h =
      let ins = h.fresh in
      let h = new_node v h in
      let temp = h.next head in
      let h = set_next ins temp h in
      let h = set_prev ins head h in let h = set_next head ins h in set_prev temp ins h

  -- `Pop(data)`: what it assigns to `data`, if it answers true.
  unfoldable pub pop : (head : ℕ) → Heap V → Option V × Heap V
  pop head h =
      let iter = h.next head in
      elim (iter == head) [
        | true ↦ (none, h)
        | false ↦
            let temp = h.next iter in
            (some (h.payload iter), delete_node iter (set_prev temp head (set_next head temp h)))
      ]

  -- `Pop()`.
  unfoldable pub pop_unread : (head : ℕ) → Heap V → Bool × Heap V
  pop_unread head h =
      let iter = h.next head in
      elim (iter == head) [
        | true ↦ (false, h)
        | false ↦
            let temp = h.next iter in
            (true, delete_node iter (set_prev temp head (set_next head temp h)))
      ]

  -- The destructor, if its loop ends within `fuel` turns.
  unfoldable pub destroy : (fuel head : ℕ) → Heap V → Option (Heap V)
  destroy zero head h = none
  destroy (suc fuel) head h =
      let (popped, h') = pop_unread head h in
      let rest = destroy fuel head h' in
      elim popped [ true ↦ rest | false ↦ some (delete_node head h') ]
