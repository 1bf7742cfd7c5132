-- ===== src/MessageQueue/Order.antt =====
-- The order of the message queue: by time, and by arrival where the times agree.
use mathlib.Core.Path.{subst, ap₂}
use mathlib.Core.List.{append-nil, append_assoc}
use m_toolkit.Base.{
  ℕ, ◌≤◌, ◌<◌, ◌≡◌, refl, sym, ap, ◌∙◌, false, List, [], ◌∷◌, ◌++◌, arith, ltb, ◌==◌, if◌then◌else◌,
  Bool-cases, inl, inr,
}
use m_toolkit.MessageQueue.{Message, enqueue}

-- No message of a list is due before `t`; each is due no later than those behind it.
abbrev pub Since : ℕ → List Message → Type 0
Since t [] = Unit
Since t (m ∷ list) = (t ≤ m.due) × Since t list

abbrev pub Sorted : List Message → Type 0
Sorted [] = Unit
Sorted (m ∷ list) = Since m.due list × Sorted list

-- The messages that are due at one time.
abbrev pub due_at : ℕ → List Message → List Message
due_at t [] = []
due_at t (m ∷ list) = if m.due == t then m ∷ due_at t list else due_at t list

Since-enqueue :
    (t : ℕ) (m : Message) (list : List Message)
    → t ≤ m.due
    → Since t list
    → Since t (enqueue m list)
unfolding enqueue
Since-enqueue t m [] h s = (h, tt)
Since-enqueue t m (k ∷ list) h (s, ss) = elim (Bool-cases (ltb m.due k.due)) [
  | inl early ↦
      subst (λ b. Since t (if b then m ∷ k ∷ list else k ∷ enqueue m list)) (sym early) (h, (s, ss))
  | inr late ↦
      subst (λ b. Since t (if b then m ∷ k ∷ list else k ∷ enqueue m list)) (sym late)
        (s, Since-enqueue t m list h ss)
]

Since-mono : (t t' : ℕ) (list : List Message) → t' ≤ t → Since t list → Since t' list
Since-mono t t' [] h s = tt
Since-mono t t' (m ∷ list) h (s, ss) = (omega arith, Since-mono t t' list h ss)

pub Sorted-enqueue : (m : Message) (list : List Message) → Sorted list → Sorted (enqueue m list)
unfolding enqueue
Sorted-enqueue m [] s = (tt, tt)
Sorted-enqueue m (k ∷ list) (s, ss) = elim (Bool-cases (ltb m.due k.due)) [
  | inl early ↦
      subst (λ b. Sorted (if b then m ∷ k ∷ list else k ∷ enqueue m list)) (sym early)
        ((ground arith, Since-mono k.due m.due list (ground arith) s), (s, ss))
  | inr late ↦
      subst (λ b. Sorted (if b then m ∷ k ∷ list else k ∷ enqueue m list)) (sym late)
        (Since-enqueue k.due m list (ground arith) s, Sorted-enqueue m list ss)
]

due_at-later : (t t' : ℕ) (list : List Message) → t < t' → Since t' list → due_at t list ≡ []
due_at-later t t' [] h s = refl
due_at-later t t' (m ∷ list) h (s, ss) =
    let other : (m.due == t) ≡ false = ground arith in
    ap (λ b. if b then m ∷ due_at t list else due_at t list) other ∙ due_at-later t t' list h ss

abbrev last : ℕ → Message → List Message
last t m = if m.due == t then m ∷ [] else []

pub due_at-enqueue :
    (t : ℕ) (m : Message) (list : List Message)
    → Sorted list
    → due_at t (enqueue m list) ≡ due_at t list ++ (if m.due == t then m ∷ [] else [])
unfolding enqueue
due_at-enqueue t m [] s = refl
due_at-enqueue t m (k ∷ list) (s, ss) = elim (Bool-cases (ltb m.due k.due)) [
  | inl early ↦
      ap (λ b. due_at t (if b then m ∷ k ∷ list else k ∷ enqueue m list)) early
      ∙ elim (Bool-cases (m.due == t)) [
        | inl hit ↦
            let none_there : due_at t (k ∷ list) ≡ [] =
              due_at-later t k.due (k ∷ list) (ground arith) (omega arith, s) in
            ap (λ b. if b then m ∷ due_at t (k ∷ list) else due_at t (k ∷ list)) hit
            ∙ ap (λ l. m ∷ l) none_there
            ∙ sym (ap₂ (λ l b. l ++ (if b then m ∷ [] else [])) none_there hit)
        | inr miss ↦
            ap (λ b. if b then m ∷ due_at t (k ∷ list) else due_at t (k ∷ list)) miss
            ∙ sym (append-nil (due_at t (k ∷ list)))
            ∙ sym (ap (λ b. due_at t (k ∷ list) ++ (if b then m ∷ [] else [])) miss)
      ]
  | inr late ↦
      ap (λ b. due_at t (if b then m ∷ k ∷ list else k ∷ enqueue m list)) late
      ∙ elim (Bool-cases (k.due == t)) [
        | inl hit ↦
            ap (λ b. if b then k ∷ due_at t (enqueue m list) else due_at t (enqueue m list)) hit
            ∙ ap (λ l. k ∷ l) (due_at-enqueue t m list ss)
            ∙ sym (ap (λ b. (if b then k ∷ due_at t list else due_at t list) ++ last t m) hit)
        | inr miss ↦
            ap (λ b. if b then k ∷ due_at t (enqueue m list) else due_at t (enqueue m list)) miss
            ∙ due_at-enqueue t m list ss
            ∙ sym (ap (λ b. (if b then k ∷ due_at t list else due_at t list) ++ last t m) miss)
      ]
]

pub due_at-append :
    (t : ℕ) (ms ns : List Message) → due_at t (ms ++ ns) ≡ due_at t ms ++ due_at t ns
due_at-append t [] ns = refl
due_at-append t (m ∷ ms) ns = elim (Bool-cases (m.due == t)) [
  | inl hit ↦
      ap (λ b. if b then m ∷ due_at t (ms ++ ns) else due_at t (ms ++ ns)) hit
      ∙ ap (λ l. m ∷ l) (due_at-append t ms ns)
      ∙ sym (ap (λ b. (if b then m ∷ due_at t ms else due_at t ms) ++ due_at t ns) hit)
  | inr miss ↦
      ap (λ b. if b then m ∷ due_at t (ms ++ ns) else due_at t (ms ++ ns)) miss
      ∙ due_at-append t ms ns
      ∙ sym (ap (λ b. (if b then m ∷ due_at t ms else due_at t ms) ++ due_at t ns) miss)
]

abbrev pub enqueue_all : List Message → List Message → List Message
enqueue_all [] list = list
enqueue_all (m ∷ ms) list = enqueue_all ms (enqueue m list)

-- Messages that are enqueued stand in the order of their times, and those that are due at the same
-- time in the order in which they came, behind those that were there; none is lost or doubled.
enqueue_all-Sorted :
    (ms list : List Message)
    → Sorted list
    → Sorted (enqueue_all ms list)
      × ((t : ℕ) → due_at t (enqueue_all ms list) ≡ due_at t list ++ due_at t ms)
enqueue_all-Sorted [] list s = (s, λ t. sym (append-nil (due_at t list)))
enqueue_all-Sorted (m ∷ ms) list s =
    let (s', same) = enqueue_all-Sorted ms (enqueue m list) (Sorted-enqueue m list s) in
    (
      s',
      λ t.
          same t
          ∙ ap (λ l. l ++ due_at t ms) (due_at-enqueue t m list s)
          ∙ append_assoc (due_at t list) (last t m) (due_at t ms)
          ∙ ap (λ l. due_at t list ++ l) (joined t),
    )
  where
    joined : (t : ℕ) → last t m ++ due_at t ms ≡ due_at t (m ∷ ms)
    joined t = ground arith
