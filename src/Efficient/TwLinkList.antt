-- ===== src/Efficient/TwLinkList.antt =====
-- toolkit/source/efficient/twlinklist.h and twlinklist.cpp: links of rings, in a heap that also keeps
-- the data of the nodes around them and says which nodes have been deleted.
pub mod Links
pub mod Ring
pub mod Changes
pub mod Values
use m_toolkit.Base.{ℕ, suc, ◌+◌, Bool, true, false}
use m_toolkit.Base.Maps.{update}

-- A node is named by its address; 0 is the null pointer.
pub record Heap (V : Type 0) : Type 0 where
  pub next : ℕ → ℕ
  pub prev : ℕ → ℕ
  pub payload : ℕ → V
  pub freed : ℕ → Bool
  pub fresh : ℕ

module _ {V : Type 0} where
  abbrev pub set_next : (node value : ℕ) → Heap V → Heap V
  set_next node value h = record h { next = update h.next node value }

  abbrev pub set_prev : (node value : ℕ) → Heap V → Heap V
  set_prev node value h = record h { prev = update h.prev node value }

  -- `new` of the links of a head.
  abbrev pub new_links : Heap V → Heap V
  new_links h = record h {
    next = update h.next h.fresh 0;
    prev = update h.prev h.fresh 0;
    fresh = suc h.fresh;
  }

  -- `new` of a node with these data, at the address `h.fresh`.
  abbrev pub new_node : V → Heap V → Heap V
  new_node v h = record h {
    next = update h.next h.fresh 0;
    prev = update h.prev h.fresh 0;
    payload = update h.payload h.fresh v;
    fresh = suc h.fresh;
  }

  abbrev pub delete_node : ℕ → Heap V → Heap V
  delete_node node h = record h { freed = update h.freed node true }

  abbrev pub initialize : ℕ → Heap V → Heap V
  initialize node h = set_next node node (set_prev node node h)

  abbrev pub destroy_node : ℕ → Heap V → Heap V
  destroy_node entry h =
      let h = set_next (h.prev entry) (h.next entry) h in set_prev (h.next entry) (h.prev entry) h

  abbrev pub insert_tw_link_list : (nnew prev next : ℕ) → Heap V → Heap V
  insert_tw_link_list nnew prev next h =
      let h = set_prev next nnew h in
      let h = set_next nnew next h in let h = set_next prev nnew h in set_prev nnew prev h

  abbrev pub insert_back : (head nnew : ℕ) → Heap V → Heap V
  insert_back head nnew h = insert_tw_link_list nnew (h.prev head) head h

  abbrev pub insert_front : (head nnew : ℕ) → Heap V → Heap V
  insert_front head nnew h = insert_tw_link_list nnew head (h.next head) h
