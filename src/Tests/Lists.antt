-- ===== src/Tests/Lists.antt =====
-- toolkit/source/efficient: the linked containers on a heap that is empty at first.
use mathlib.Core.List.{reverse}
use m_toolkit.Base.{ℕ, ◌≡◌, refl, Bool, false, some, List, [], ◌∷◌, arith, if◌then◌else◌, ◌+◌, ◌==◌}
use m_toolkit.Efficient.TwLinkList.{Heap}
use m_toolkit.Efficient.TwLinkList.Ring.{Ring}
use m_toolkit.Efficient.TwLinkList.Values.{Holds}
use m_toolkit.Efficient.Queue
use m_toolkit.Efficient.Queue.Laws.{push_all, pop_all, pop_all-push_all}
use m_toolkit.Efficient.Stack
use m_toolkit.Efficient.Stack.Laws.{stack_all, unstack_all, unstack_all-stack_all}
use m_toolkit.Efficient.InstwLinkList
use m_toolkit.Efficient.InstwLinkList.Removal.{keep, drop_first, remove_if-Holds}

-- Address 0 is the null pointer.
abbrev blank : Heap ℕ
blank = record { next = λ n. 0; prev = λ n. 0; payload = λ n. 0; freed = λ n. false; fresh = 1 }

abbrev three : List ℕ
three = 5 ∷ 6 ∷ 7 ∷ []

pop_all-push_all_example :
    pop_all 3 (Queue.create blank).0 (push_all (Queue.create blank).0 three (Queue.create blank).1)
    ≡ three
pop_all-push_all_example = pop_all-push_all three 3 blank (λ m le. refl) (omega arith)

unstack_all-stack_all_example :
    unstack_all 3
      (Stack.create blank).0
      (stack_all (Stack.create blank).0 three (Stack.create blank).1)
    ≡ reverse three
unstack_all-stack_all_example = unstack_all-stack_all three 3 blank (λ m le. refl) (omega arith)

-- A ring around the head at address 1, with the nodes 2 and 3.
abbrev ringed : Heap ℕ
ringed = record {
  next = λ n. if n == 1 then 2 else (if n == 2 then 3 else 1);
  prev = λ n. if n == 1 then 3 else (if n == 2 then 1 else 2);
  payload = λ n. n + 10;
  freed = λ n. false;
  fresh = 4;
}

ringed-Ring : Ring 1 ringed (2 ∷ 3 ∷ [])
ringed-Ring = record {
  links = ((refl, refl), ((refl, refl), ((refl, refl), tt)));
  once = refl;
  made = λ m i. ground arith;
  unborn = λ m le. refl;
  live = λ m i. refl;
}

ringed-Holds : Holds 1 ringed (12 ∷ 13 ∷ [])
ringed-Holds = (2 ∷ 3 ∷ [], ringed-Ring, refl)

abbrev is_twelve : ℕ → Bool
is_twelve n = n == 12

remove_if-Holds_example :
    ((h' : Heap ℕ) × (InstwLinkList.remove_if is_twelve 3 1 ringed ≡ some h')
      × Holds 1 h' (keep is_twelve (12 ∷ 13 ∷ [])))
    × ((h' : Heap ℕ) × (InstwLinkList.remove is_twelve 3 1 ringed ≡ some h')
        × Holds 1 h' (drop_first is_twelve (12 ∷ 13 ∷ [])))
remove_if-Holds_example =
    remove_if-Holds 1 is_twelve 3 ringed (12 ∷ 13 ∷ []) ringed-Holds (ground arith)
