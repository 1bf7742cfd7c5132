-- ===== src/ThreadPool/Counts.antt =====
-- What the queue, the counters and the workers hold of the tasks.
use m_toolkit.Base.{
  ℕ, ◌+◌, ◌<◌, ◌≡◌, refl, sym, ap, ◌∙◌, arith, ◌==◌, if◌then◌else◌, List, [], ◌∷◌, ◌++◌, Bool, true,
  false, sub64, add64, u64_mod,
}
use mathlib.Core.List.{append_assoc}
use m_toolkit.Base.Maps.{update}
use m_toolkit.ThreadPool.{
  Pc, outside, holding, unready, blocked, ready, popping, holds, running, ran, exited, System,
  create, wake, Move, locks, finds, misses, sleeps, leaves, stays, pops, counts, runs, returns,
  stirred, Step, works, commits, notifies_one, notifies_none, closes, notifies_all, joins, Reach,
  begins, goes, Release, stored, joined,
}
use m_toolkit.ThreadPool.Family.{total, total-le, total-map, total-none, total-at}

-- Between `--_freeSize` and `++_freeSize`.
abbrev pub busy : Pc → ℕ
busy (running _) = 1
busy ran = 1
busy _ = 0

-- Whether a worker has the task and has yet to run it.
abbrev pub has_task : ℕ → Pc → ℕ
has_task t (holds u) = if u == t then 1 else 0
has_task t (running u) = if u == t then 1 else 0
has_task t _ = 0

abbrev pub occurs : ℕ → List ℕ → ℕ
occurs t [] = 0
occurs t (u ∷ l) = (if u == t then 1 else 0) + occurs t l

occurs-append : (t : ℕ) (xs ys : List ℕ) → occurs t (xs ++ ys) ≡ occurs t xs + occurs t ys
occurs-append t [] ys = omega arith
occurs-append t (x ∷ xs) ys = ground (arith, occurs-append t xs ys)

-- Tasks leave the queue in the order in which they were committed; each that left was run or is
-- held by a worker, once for each time it was committed; `_freeSize` counts the other workers.
pub record Counted (size : ℕ) (s : System) : Type 0 where
  pub in_order : s.taken ++ s.tasks ≡ s.committed
  pub each_once : (t : ℕ) → occurs t s.taken ≡ occurs t s.done + total (has_task t) size s.pc
  pub free_counted : s.free_size + total busy size s.pc ≡ size

module _ {size i : ℕ} {s : System} (below : i < size) (c : Counted size s) where
  -- A worker that moves between two places where it counts the same.
  counts_same :
      (m : Bool) (q p : Pc)
      → s.pc i ≡ q
      → busy p ≡ busy q
      → ((t : ℕ) → has_task t p ≡ has_task t q)
      → Counted size (record s { mutex = m; pc = update s.pc i p })
  counts_same m q p at same_busy same_task = record {
    in_order = c.in_order;
    each_once = λ t.
        let l = total-at (has_task t) size i s.pc q p below at in
        let l' = c.each_once t in let l'' = same_task t in omega arith;
    free_counted =
        let l = total-at busy size i s.pc q p below at in let l' = c.free_counted in omega arith;
  }

  pops-Counted :
      (task : ℕ) (rest : List ℕ)
      → s.pc i ≡ popping
      → s.tasks ≡ task ∷ rest
      → Counted size (record s {
        tasks = rest;
        taken = s.taken ++ task ∷ [];
        mutex = false;
        pc = update s.pc i (holds task);
      })
  pops-Counted task rest at front = record {
    in_order =
        append_assoc s.taken (task ∷ []) rest ∙ ap (λ l. s.taken ++ l) (sym front) ∙ c.in_order;
    each_once = λ t.
        let l = total-at (has_task t) size i s.pc popping (holds task) below at in
        let l' = c.each_once t in let l'' = occurs-append t s.taken (task ∷ []) in omega arith;
    free_counted =
        let l = total-at busy size i s.pc popping (holds task) below at in
        let l' = c.free_counted in omega arith;
  }

  counts-Counted :
      (task : ℕ)
      → size < u64_mod
      → s.pc i ≡ holds task
      → Counted size
          (record s { free_size = sub64 s.free_size 1; pc = update s.pc i (running task) })
  counts-Counted task fits at = record {
    in_order = c.in_order;
    each_once = λ t.
        let l = total-at (has_task t) size i s.pc (holds task) (running task) below at in
        let l' = c.each_once t in omega arith;
    free_counted =
        let l = total-at busy size i s.pc (holds task) (running task) below at in
        let l' = c.free_counted in
        let l'' = total-le busy size (update s.pc i (running task)) (λ p. ground arith) in
        omega arith;
  }

  runs-Counted :
      (task : ℕ)
      → s.pc i ≡ running task
      → Counted size (record s { done = s.done ++ task ∷ []; pc = update s.pc i ran })
  runs-Counted task at = record {
    in_order = c.in_order;
    each_once = λ t.
        let l = total-at (has_task t) size i s.pc (running task) ran below at in
        let l' = c.each_once t in let l'' = occurs-append t s.done (task ∷ []) in omega arith;
    free_counted =
        let l = total-at busy size i s.pc (running task) ran below at in
        let l' = c.free_counted in omega arith;
  }

  returns-Counted :
      size < u64_mod
      → s.pc i ≡ ran
      → Counted size (record s { free_size = add64 s.free_size 1; pc = update s.pc i outside })
  returns-Counted fits at = record {
    in_order = c.in_order;
    each_once = λ t.
        let l = total-at (has_task t) size i s.pc ran outside below at in
        let l' = c.each_once t in omega arith;
    free_counted =
        let l = total-at busy size i s.pc ran outside below at in
        let l' = c.free_counted in omega arith;
  }

Move-Counted :
    {size i : ℕ} {s t : System} {p : Pc}
    → size < u64_mod
    → i < size
    → s.pc i ≡ p
    → Move i s p t
    → Counted size s
    → Counted size t
Move-Counted {s} fits below at (locks free) c =
    counts_same below c true outside holding at refl (λ t. refl)
Move-Counted {s} fits below at (finds test) c =
    counts_same below c s.mutex holding ready at refl (λ t. refl)
Move-Counted {s} fits below at (misses test) c =
    counts_same below c s.mutex holding unready at refl (λ t. refl)
Move-Counted {s} fits below at sleeps c =
    counts_same below c false unready blocked at refl (λ t. refl)
Move-Counted {s} fits below at (leaves closed) c =
    counts_same below c false ready exited at refl (λ t. refl)
Move-Counted {s} fits below at (stays open_yet) c =
    counts_same below c s.mutex ready popping at refl (λ t. refl)
Move-Counted fits below at (pops task rest front) c = pops-Counted below c task rest at front
Move-Counted fits below at (counts task) c = counts-Counted below c task fits at
Move-Counted fits below at (runs task) c = runs-Counted below c task at
Move-Counted fits below at returns c = returns-Counted below c fits at
Move-Counted {s} fits below at stirred c =
    counts_same below c s.mutex blocked outside at refl (λ t. refl)

create-Counted : (size : ℕ) → Counted size (create size)
unfolding create
create-Counted size = record {
  in_order = refl;
  each_once = λ t. let l = total-none (has_task t) size outside refl in omega arith;
  free_counted = let l = total-none busy size outside refl in omega arith;
}

-- What it speaks of, and nothing else, is as before.
others_Counted :
    {size : ℕ} {s : System} (m b : Bool) (k : ℕ) (r : Release)
    → Counted size s
    → Counted size (record s { mutex = m; is_close = b; notifies = k; release = r })
others_Counted m b k r c = record {
  in_order = c.in_order;
  each_once = c.each_once;
  free_counted = c.free_counted;
}

Step-Counted :
    {size : ℕ} {s t : System} → size < u64_mod → Step size s t → Counted size s → Counted size t
Step-Counted fits (works i below move) c = Move-Counted fits below refl move c
Step-Counted {s} fits (commits task free) c = record {
  in_order = sym (append_assoc s.taken s.tasks (task ∷ [])) ∙ ap (λ l. l ++ task ∷ []) c.in_order;
  each_once = c.each_once;
  free_counted = c.free_counted;
}
Step-Counted {s} fits (notifies_one i k below at some_left) c =
    others_Counted s.mutex s.is_close k s.release
      (counts_same below c s.mutex blocked outside at refl (λ t. refl))
Step-Counted {s} fits (notifies_none k nobody some_left) c =
    others_Counted s.mutex s.is_close k s.release c
Step-Counted {s} fits (closes first opened) c = others_Counted s.mutex true s.notifies stored c
Step-Counted {size} {s} fits (notifies_all stored_yet) c = record {
  in_order = c.in_order;
  each_once = λ t.
      c.each_once t
      ∙ ap (λ n. occurs t s.done + n)
          (sym (total-map (has_task t) size wake s.pc (λ p. ground arith)));
  free_counted =
      ap (λ n. s.free_size + n) (total-map busy size wake s.pc (λ p. ground arith))
      ∙ c.free_counted;
}
Step-Counted {s} fits (joins notified_yet all_left) c =
    others_Counted s.mutex s.is_close s.notifies joined c

-- In whatever order the accesses of the workers and of the callers fall: tasks leave the queue in the
-- order in which they were committed; each that left the queue was run, or a worker has it and has
-- yet to run it, and both as often as it left; `_freeSize` is the number of the workers that are not
-- busy. The number of workers is below 2^64.
pub Reach-Counted : {size : ℕ} {s : System} → size < u64_mod → Reach size s → Counted size s
Reach-Counted {size} fits begins = create-Counted size
Reach-Counted fits (goes reached step) = Step-Counted fits step (Reach-Counted fits reached)
