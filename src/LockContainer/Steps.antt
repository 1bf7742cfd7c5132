-- ===== src/LockContainer/Steps.antt =====
-- What calls on a `LockQueue` answer and leave, in any order.
use mathlib.Core.List.{append_assoc, append-nil}
use mathlib.Core.Path.{ap₂, subst}
use m_toolkit.Base.{
  ℕ, zero, suc, ◌≤◌, ◌≡◌, refl, sym, ap, ◌∙◌, true, false, none, some, List, [], ◌∷◌, ◌++◌, ◌⊎◌,
  inl, inr, arith, length, drop, get_elem?, ◌==◌, if◌then◌else◌,
}
use m_toolkit.LockContainer.LockList.{timed_out, undefined, popped}
use m_toolkit.LockContainer.LockQueue.{push, pop, try_pop, wait_and_pop, wait_and_pop_for, empty}
use m_toolkit.LockContainer.Calls.{
  Call, Answer, pushed, nothing, later, given, said, pushes, pops, tries, tests, waits, waits_for,
  wakes, Outcome, told, run, expected, values, all_pushed, Ordered,
}

module _ {A : Type 0} where
  ahead :
      (taken : ℕ) (history : List A)
      → taken ≤ length history
      → ((drop taken history ≡ []) × (get_elem? history taken ≡ none))
        ⊎ ((v : A) × (drop taken history ≡ v ∷ drop (suc taken) history)
            × (get_elem? history taken ≡ some v)
            × (suc taken ≤ length history))
  ahead zero [] fits = inl (refl, refl)
  ahead (suc n) [] fits = absurd (omega arith)
  ahead zero (v ∷ history) fits = inr (v, refl, refl, omega arith)
  ahead (suc n) (x ∷ history) fits = elim (ahead n history (omega arith)) [
    | inl (e, g) ↦ inl (e, g)
    | inr (v, e, g, l) ↦ inr (v, e, g, omega arith)
  ]

  drop-snoc :
      (n : ℕ) (history : List A) (v : A)
      → n ≤ length history
      → drop n (history ++ v ∷ []) ≡ drop n history ++ v ∷ []
  drop-snoc zero history v fits = refl
  drop-snoc (suc n) [] v fits = absurd (omega arith)
  drop-snoc (suc n) (x ∷ history) v fits = drop-snoc n history v (omega arith)

  length-snoc : (history : List A) (v : A) → length (history ++ v ∷ []) ≡ suc (length history)
  length-snoc [] v = refl
  length-snoc (x ∷ history) v = ap suc (length-snoc history v)

  filled : (x : A) (queue : List A) → (length (x ∷ queue) == 0) ≡ false
  filled x queue = ground arith

  run-waits_for :
      (calls : List (Call A)) (x : A) (queue : List A)
      → run (waits_for ∷ calls) (x ∷ queue) ≡ told (given x) (run calls queue)
  unfolding run wait_and_pop_for
  run-waits_for calls x queue =
      ap
        (λ b. elim (if b then timed_out else popped x queue) [
          | timed_out ↦ told nothing (run calls (x ∷ queue))
          | undefined ↦ none
          | popped v queue ↦ told (given v) (run calls queue)
        ])
        (filled x queue)

  run-expected :
      (calls : List (Call A)) (history : List A) (taken : ℕ)
      → taken ≤ length history
      → run calls (drop taken history) ≡ expected calls history taken
  unfolding run push pop try_pop wait_and_pop wait_and_pop_for empty
  run-expected [] history taken fits = refl
  run-expected (pushes v ∷ calls) history taken fits =
      ap (λ q. told pushed (run calls q)) (sym (drop-snoc taken history v fits))
      ∙ ap (told pushed) (
          run-expected calls (history ++ v ∷ []) taken
            (let l = length-snoc history v in omega arith))
  run-expected (tests ∷ calls) history taken fits =
      let rest = run-expected calls history taken fits in
      elim (ahead taken history fits) [
        | inl (e, g) ↦
            ap₂ (λ q r. told (said (length q == 0)) r) e rest
            ∙ ap
                (λ o.
                  told (said (elim o [ none ↦ true | some v ↦ false ]))
                    (expected calls history taken))
                (sym g)
        | inr (v, e, g, l) ↦
            ap₂ (λ q r. told (said (length q == 0)) r) e rest
            ∙ ap (λ b. told (said b) (expected calls history taken))
                (filled v (drop (suc taken) history))
            ∙ ap
                (λ o.
                  told (said (elim o [ none ↦ true | some v ↦ false ]))
                    (expected calls history taken))
                (sym g)
      ]
  run-expected (pops ∷ calls) history taken fits = elim (ahead taken history fits) [
    | inl (e, g) ↦ rw (e, expected, g) refl
    | inr (v, e, g, l) ↦
        rw (e, expected, g) (ap (told (given v)) (run-expected calls history (suc taken) l))
  ]
  run-expected (wakes ∷ calls) history taken fits = elim (ahead taken history fits) [
    | inl (e, g) ↦ rw (e, expected, g) refl
    | inr (v, e, g, l) ↦
        rw (e, expected, g) (ap (told (given v)) (run-expected calls history (suc taken) l))
  ]
  run-expected (tries ∷ calls) history taken fits = elim (ahead taken history fits) [
    | inl (e, g) ↦
        rw (e, expected, g)
          (ap (told nothing) (sym (ap (run calls) e) ∙ run-expected calls history taken fits))
    | inr (v, e, g, l) ↦
        rw (e, expected, g) (ap (told (given v)) (run-expected calls history (suc taken) l))
  ]
  run-expected (waits ∷ calls) history taken fits = elim (ahead taken history fits) [
    | inl (e, g) ↦
        rw (e, expected, g)
          (ap (told later) (sym (ap (run calls) e) ∙ run-expected calls history taken fits))
    | inr (v, e, g, l) ↦
        rw (e, expected, g) (ap (told (given v)) (run-expected calls history (suc taken) l))
  ]
  run-expected (waits_for ∷ calls) history taken fits = elim (ahead taken history fits) [
    | inl (e, g) ↦
        rw (e, expected, g)
          (ap (told nothing) (sym (ap (run calls) e) ∙ run-expected calls history taken fits))
    | inr (v, e, g, l) ↦
        ap (run (waits_for ∷ calls)) e
        ∙ run-waits_for calls v (drop (suc taken) history)
        ∙ rw (expected, g) (ap (told (given v)) (run-expected calls history (suc taken) l))
  ]

  quiet :
      (answer : Answer A) (queue : List A) (vs : List A) (r : Outcome A)
      → ((answers : List (Answer A)) → values (answer ∷ answers) ≡ values answers)
      → Ordered queue vs r
      → Ordered queue vs (told answer r)
  quiet answer queue vs none same ordered = tt
  quiet answer queue vs (some (left, answers)) same ordered =
      ap (λ l. l ++ left) (same answers) ∙ ordered

  gave :
      (v : A) (queue : List A) (vs : List A) (r : Outcome A)
      → Ordered queue vs r
      → Ordered (v ∷ queue) vs (told (given v) r)
  gave v queue vs none ordered = tt
  gave v queue vs (some (left, answers)) ordered = ap (λ l. v ∷ l) ordered

  grown :
      (v : A) (queue : List A) (vs : List A) (r : Outcome A)
      → Ordered (queue ++ v ∷ []) vs r
      → Ordered queue (v ∷ vs) (told pushed r)
  grown v queue vs none ordered = tt
  grown v queue vs (some (left, answers)) ordered = ordered ∙ append_assoc queue (v ∷ []) (vs)

  run-Ordered :
      (calls : List (Call A)) (queue : List A) → Ordered queue (all_pushed calls) (run calls queue)
  unfolding run push pop try_pop wait_and_pop wait_and_pop_for empty
  run-Ordered [] queue = sym (append-nil queue)
  run-Ordered (pushes v ∷ calls) queue =
      grown v queue (all_pushed calls) _ (run-Ordered calls (queue ++ v ∷ []))
  run-Ordered (tests ∷ calls) queue =
      quiet (said (length queue == 0)) queue (all_pushed calls) _ (λ _. refl)
        (run-Ordered calls queue)
  run-Ordered (pops ∷ calls) [] = tt
  run-Ordered (pops ∷ calls) (x ∷ queue) =
      gave x queue (all_pushed calls) _ (run-Ordered calls queue)
  run-Ordered (wakes ∷ calls) [] = tt
  run-Ordered (wakes ∷ calls) (x ∷ queue) =
      gave x queue (all_pushed calls) _ (run-Ordered calls queue)
  run-Ordered (tries ∷ calls) [] =
      quiet nothing [] (all_pushed calls) _ (λ _. refl) (run-Ordered calls [])
  run-Ordered (tries ∷ calls) (x ∷ queue) =
      gave x queue (all_pushed calls) _ (run-Ordered calls queue)
  run-Ordered (waits ∷ calls) [] =
      quiet later [] (all_pushed calls) _ (λ _. refl) (run-Ordered calls [])
  run-Ordered (waits ∷ calls) (x ∷ queue) =
      gave x queue (all_pushed calls) _ (run-Ordered calls queue)
  run-Ordered (waits_for ∷ calls) [] =
      quiet nothing [] (all_pushed calls) _ (λ _. refl) (run-Ordered calls [])
  run-Ordered (waits_for ∷ calls) (x ∷ queue) =
      subst (Ordered (x ∷ queue) (all_pushed calls)) (sym (run-waits_for calls x queue))
        (gave x queue (all_pushed calls) _ (run-Ordered calls queue))

-- However the calls of the threads fall, each pop gives the oldest value that was not yet taken, of those
-- that were there and those pushed before it; where there is none, a try answers that, a wait waits, a
-- timed wait ends with nothing, and a pop without a test, and a timed wait that was woken, are
-- undefined. So what the pops gave and what is left are what was there and what was pushed.
pub run-order :
    {A : Type 0} (calls : List (Call A)) (queue : List A)
    → (run calls queue ≡ expected calls queue 0)
      × Ordered queue (all_pushed calls) (run calls queue)
run-order calls queue = (run-expected calls queue 0 (omega arith), run-Ordered calls queue)
