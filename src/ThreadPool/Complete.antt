-- ===== src/ThreadPool/Complete.antt =====
-- What it means that `IsComplete` says yes.
use m_toolkit.Base.{
  ℕ, zero, suc, ◌+◌, ◌<◌, ◌≡◌, refl, sym, ap, ◌∙◌, arith, ◌==◌, if◌then◌else◌, List, [], ◌∷◌, ◌++◌,
  Bool, ◌&&◌, true, u64_mod,
}
use mathlib.Core.List.{append-nil}
use m_toolkit.ThreadPool.{Pc, holds, System, Reach, is_complete, empty}
use m_toolkit.ThreadPool.Family.{total}
use m_toolkit.ThreadPool.Counts.{busy, has_task, occurs, Reach-Counted}

-- Whether a worker has taken the task and has yet to count itself as busy.
abbrev pub about_to : ℕ → Pc → ℕ
about_to t (holds u) = if u == t then 1 else 0
about_to t _ = 0

not_busy : (t : ℕ) (p : Pc) → busy p ≡ 0 → has_task t p ≡ about_to t p
not_busy t p idle = ground arith

none_busy :
    (t size : ℕ) (pc : ℕ → Pc)
    → total busy size pc ≡ 0
    → total (has_task t) size pc ≡ total (about_to t) size pc
unfolding total
none_busy t zero pc idle = refl
none_busy t (suc size) pc idle =
    let l = none_busy t size pc (omega arith) in
    let l' = not_busy t (pc size) (omega arith) in omega arith

complete_parts :
    (tasks : List ℕ) (all_free : Bool)
    → (empty tasks && all_free) ≡ true
    → (tasks ≡ []) × (all_free ≡ true)
complete_parts [] all_free both = (refl, both)
complete_parts (t ∷ tasks) all_free both = ground arith

-- When `IsComplete` says yes, each task was run as often as it was committed, but for those that a
-- worker has taken and not yet counted itself as busy with.
pub is_complete-done :
    (size : ℕ) (s : System)
    → size < u64_mod
    → Reach size s
    → is_complete size s ≡ true
    → (t : ℕ) → occurs t s.committed ≡ occurs t s.done + total (about_to t) size s.pc
unfolding is_complete
is_complete-done size s fits reached complete t =
    let c = Reach-Counted fits reached in
    let (drained, all_free) = complete_parts s.tasks (s.free_size == size) complete in
    let all_taken : s.taken ≡ s.committed =
      sym (append-nil s.taken) ∙ ap (λ l. s.taken ++ l) (sym drained) ∙ c.in_order in
    let counted = c.each_once t in
    let free = c.free_counted in
    let same_size : s.free_size ≡ size = ground arith in
    let idle = none_busy t size s.pc (omega arith) in ap (occurs t) (sym all_taken) ∙ (omega arith)
