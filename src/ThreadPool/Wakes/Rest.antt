-- ===== src/ThreadPool/Wakes/Rest.antt =====
-- An open pool comes to rest, and has run every task then.
use m_toolkit.Base.{
  ℕ, zero, suc, ◌<◌, ◌≡◌, refl, sym, ap, ◌∙◌, arith, ◌++◌, true, false, inl, inr, u64_mod, ◌==◌,
  ◌&&◌,
}
use mathlib.Core.List.{append-nil}
use m_toolkit.ThreadPool.{System, Reach, goes, empty, is_complete}
use m_toolkit.ThreadPool.Family.{total-zero}
use m_toolkit.ThreadPool.Counts.{busy, has_task, occurs, Counted, Reach-Counted}
use m_toolkit.ThreadPool.Exclusive.{Reach-Guarded}
use m_toolkit.ThreadPool.Wakes.{Reach-Awake}
use m_toolkit.ThreadPool.Wakes.Measure.{measure, Step-measure, Run, rests, follows}
use m_toolkit.ThreadPool.Wakes.Progress.{Rests, progress}

-- A pool at rest has run what it was given.
Rests-complete :
    {size : ℕ} {s : System}
    → Counted size s
    → Rests size s
    → (is_complete size s ≡ true) × ((t : ℕ) → occurs t s.done ≡ occurs t s.committed)
unfolding is_complete
Rests-complete {size} {s} c r =
    let idle = total-zero busy size s.pc (λ i below. ap busy (r.all_asleep i below)) in
    let all_taken : s.taken ≡ s.committed =
      sym (append-nil s.taken) ∙ ap (λ l. s.taken ++ l) (sym r.drained) ∙ c.in_order in
    let free = c.free_counted in
    let all_free : s.free_size ≡ size = omega arith in
    (
      ap (λ l. empty l && s.free_size == size) r.drained ∙ (ground (arith, all_free)),
      λ t.
          let none =
            total-zero (has_task t) size s.pc (λ i below. ap (has_task t) (r.all_asleep i below)) in
          let each = c.each_once t in
          let counted : occurs t s.done ≡ occurs t s.taken = omega arith in
          counted ∙ ap (occurs t) all_taken,
    )

-- The pool, by a bound on what it may still do.
drains :
    (bound : ℕ) {size : ℕ} {s : System}
    → 0 < size
    → measure size s < bound
    → Reach size s
    → s.is_close ≡ false
    → (n : ℕ) × (t : System) × Run size n s t
      × Reach size t
      × Rests size t
      × (t.committed ≡ s.committed)
drains zero some_worker enough reached opened = absurd (omega arith)
drains (suc bound) {s = s} some_worker enough reached opened =
    elim (progress some_worker (Reach-Guarded reached) (Reach-Awake some_worker reached) opened) [
      | inl rest ↦ (0, s, rests, reached, rest, refl)
      | inr (t, step, calm, opened', same) ↦
          let less = Step-measure step calm in
          let (n, u, run, reached', rest, same') =
            drains bound some_worker (omega arith) (goes reached step) opened' in
          (suc n, u, follows step calm run, reached', rest, same' ∙ same)
    ]

-- From every state that a pool with workers comes to while it is open, undisturbed steps lead to a
-- state in which `IsComplete` says yes and each task was run as often as it was committed. The number
-- of workers is below 2^64.
pub Reach-is_complete :
    {size : ℕ} {s : System}
    → 0 < size
    → size < u64_mod
    → Reach size s
    → s.is_close ≡ false
    → (n : ℕ) × (t : System) × Run size n s t
      × (is_complete size t ≡ true)
      × ((task : ℕ) → occurs task t.done ≡ occurs task s.committed)
Reach-is_complete {size} {s} some_worker fits reached opened =
    let (n, t, run, reached', rest, same) =
      drains (suc (measure size s)) some_worker (omega arith) reached opened in
    let (complete, all_done) = Rests-complete (Reach-Counted fits reached') rest in
    (n, t, run, complete, λ task. all_done task ∙ ap (occurs task) same)
