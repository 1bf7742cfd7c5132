-- ===== src/MessageQueue/Looping.antt =====
-- A looper over any sequence of calls and of steps of its thread.
use mathlib.Core.Path.{subst, ap₂}
use mathlib.Core.List.{append-nil, append_assoc}
use m_toolkit.Base.{
  ℕ, ◌≡◌, refl, sym, ap, ◌∙◌, Bool, true, false, Option, none, some, List, [], ◌∷◌, ◌++◌, ◌==◌,
  if◌then◌else◌,
}
use m_toolkit.MessageQueue.{
  Builders, Message, Place, at_test, in_next, before_run, ended, Looper, next, create, exit,
  enqueue_message, step_at, loop_step, paired, run_message,
}
use m_toolkit.MessageQueue.Order.{Sorted, due_at, due_at-append, Sorted-enqueue, due_at-enqueue}

-- A message that was run, and the table of handlers at that time.
abbrev pub Handed : Type 0
Handed = Message × Builders

abbrev pub messages : List Handed → List Message
messages [] = []
messages ((m, t) ∷ hs) = m ∷ messages hs

-- The calls of handlers that run messages lead to, one message after the other.
abbrev pub calls_of : ℕ → List ℕ → List (ℕ × ℕ)
calls_of identity [] = []
calls_of identity (handler ∷ handlers) = (handler, identity) ∷ calls_of identity handlers

abbrev pub called_for : List Handed → List (ℕ × ℕ)
called_for [] = []
called_for ((m, t) ∷ hs) = calls_of m.identity (t m.builder) ++ called_for hs

run_message-calls_of :
    (t : Builders) (m : Message) → run_message t m ≡ calls_of m.identity (t m.builder)
unfolding run_message
run_message-calls_of t m = each (t m.builder)
  where
    each : (handlers : List ℕ) → paired m.identity handlers ≡ calls_of m.identity handlers
    each [] = refl
    each (h ∷ handlers) = ap (λ l. (h, m.identity) ∷ l) (each handlers)

-- The message that the thread has and has not run, and what a step runs.
abbrev pub held : Place → List Message
held at_test = []
held in_next = []
held (before_run m) = m ∷ []
held ended = []

abbrev pub ran : Place → Builders → List Handed
ran at_test t = []
ran in_next t = []
ran (before_run m) t = (m, t) ∷ []
ran ended t = []

-- The loopers that calls and steps of the loop lead to, the messages that were enqueued and those that
-- were run, each with the handlers of the builders at that time, which may change at any time.
pub data Loops : (enqueued : List Message) (handed : List Handed) → Looper → Type 0 where
  loops_create : (t : Builders) → Loops [] [] (create t)
  loops_enqueue :
      (es : List Message) (hs : List Handed) (l : Looper) (m : Message)
      → Loops es hs l
      → Loops (es ++ m ∷ []) hs (enqueue_message m l)
  loops_exit :
      (es : List Message) (hs : List Handed) (l : Looper) → Loops es hs l → Loops es hs (exit l)
  loops_builders :
      (es : List Message) (hs : List Handed) (l : Looper) (t : Builders)
      → Loops es hs l
      → Loops es hs (record l { builders = t })
  loops_step :
      (es : List Message) (hs : List Handed) (l l' : Looper)
      → Loops es hs l
      → loop_step l ≡ some l'
      → Loops es (hs ++ ran l.place l.builders) l'

messages-snoc :
    (hs : List Handed) (m : Message) (t : Builders)
    → messages (hs ++ (m, t) ∷ []) ≡ messages hs ++ m ∷ []
messages-snoc [] m t = refl
messages-snoc ((k, t') ∷ hs) m t = ap (λ l. k ∷ l) (messages-snoc hs m t)

called_for-snoc :
    (hs : List Handed) (m : Message) (t : Builders)
    → called_for (hs ++ (m, t) ∷ []) ≡ called_for hs ++ run_message t m
called_for-snoc [] m t =
    append-nil (calls_of m.identity (t m.builder)) ∙ sym (run_message-calls_of t m)
called_for-snoc ((k, t') ∷ hs) m t =
    ap (λ l. calls_of k.identity (t' k.builder) ++ l) (called_for-snoc hs m t)
    ∙ sym (append_assoc (calls_of k.identity (t' k.builder)) (called_for hs) (run_message t m))

-- What holds of a looper that stands at some place.
abbrev Good : Place → List Message → List Handed → Looper → Type 0
Good p es hs l =
    Sorted l.message_queue
    × ((t : ℕ) → due_at t (messages hs ++ held p) ++ due_at t l.message_queue ≡ due_at t es)
    × (l.called ≡ called_for hs)

some-eq : {x y : Looper} → ◌≡◌ {A = Option Looper} (some x) (some y) → x ≡ y
some-eq e = cc

tested :
    (b : Bool) (es : List Message) (hs : List Handed) (l : Looper)
    → Good at_test es hs l
    → Good (if b then in_next else ended) es hs l
tested true es hs l good = good
tested false es hs l good = good

got :
    (es : List Message) (hs : List Handed) (l : Looper) (m : Message) (rest : List Message)
    → l.message_queue ≡ m ∷ rest
    → Good in_next es hs l
    → Good (before_run m) es hs (record l { message_queue = rest; place = before_run m })
got es hs l m rest e (s, same, calls) =
    let s' = subst Sorted e s in
    (
      s'.1,
      λ t.
          ap (λ x. x ++ due_at t rest) (due_at-append t (messages hs) (m ∷ []))
          ∙ append_assoc (due_at t (messages hs)) (due_at t (m ∷ [])) (due_at t rest)
          ∙ ap (λ x. due_at t (messages hs) ++ x) (sym (due_at-append t (m ∷ []) rest))
          ∙ sym (ap₂ (λ h q. due_at t h ++ due_at t q) (append-nil (messages hs)) e)
          ∙ same t,
      calls,
    )

ran_now :
    (es : List Message) (hs : List Handed) (l : Looper) (m : Message)
    → Good (before_run m) es hs l
    → Good at_test es
        (hs ++ (m, l.builders) ∷ [])
        (record l { called = l.called ++ run_message l.builders m; place = at_test })
ran_now es hs l m (s, same, calls) = (
  s,
  λ t.
      ap (λ h. due_at t h ++ due_at t l.message_queue)
        (append-nil (messages (hs ++ (m, l.builders) ∷ [])) ∙ messages-snoc hs m l.builders)
      ∙ same t,
  ap (λ x. x ++ run_message l.builders m) calls ∙ sym (called_for-snoc hs m l.builders),
)

stepped :
    (p : Place) (es : List Message) (hs : List Handed) (l l' : Looper)
    → Good p es hs l
    → step_at p l ≡ some l'
    → Good l'.place es (hs ++ ran p l.builders) l'
unfolding step_at next
stepped at_test es hs l l' good went =
    subst (λ l. Good l.place es (hs ++ []) l) (some-eq went)
      (subst (λ hs. Good (if l.running then in_next else ended) es hs l) (sym (append-nil hs))
        (tested l.running es hs l good))
stepped in_next es hs l l' good went = waited l.message_queue refl went
  where
    waited :
        (q : List Message)
        → l.message_queue ≡ q
        → elim (next q) [
          | none ↦ none
          | some (m, rest) ↦ some (record l { message_queue = rest; place = before_run m })
        ]
          ≡ some l'
        → Good l'.place es (hs ++ []) l'
    waited [] e went = absurd cc
    waited (m ∷ rest) e went =
        subst (λ l. Good l.place es (hs ++ []) l) (some-eq went)
          (subst
            (λ hs.
              Good (before_run m) es hs (record l { message_queue = rest; place = before_run m }))
            (sym (append-nil hs)) (got es hs l m rest e good))
stepped (before_run m) es hs l l' good went =
    subst (λ l'. Good l'.place es (hs ++ (m, l.builders) ∷ []) l') (some-eq went)
      (ran_now es hs l m good)
stepped ended es hs l l' good went = absurd cc

-- Whatever the calls and the steps of the loop, the messages that wait are in the order of their times; of
-- the messages that are due at one time, those that were run, the one that the thread has got, and then
-- those that wait are those enqueued, in the order in which they came; and the handlers were called for
-- the messages run, in the order in which each builder had them at that time.
pub Loops-order :
    {es : List Message} {hs : List Handed} {l : Looper}
    → Loops es hs l
    → Sorted l.message_queue
      × ((t : ℕ) → due_at t (messages hs ++ held l.place) ++ due_at t l.message_queue ≡ due_at t es)
      × (l.called ≡ called_for hs)
unfolding create exit enqueue_message
Loops-order (loops_create t) = (tt, λ t. refl, refl)
Loops-order (loops_exit es hs l r) = Loops-order r
Loops-order (loops_builders es hs l t r) = Loops-order r
Loops-order (loops_step es hs l l' r went) = stepped l.place es hs l l' (Loops-order r) went
Loops-order (loops_enqueue es hs l m r) =
    let (s, same, calls) = Loops-order r in
    let before = messages hs ++ held l.place in
    (
      Sorted-enqueue m l.message_queue s,
      λ t.
          ap (λ x. due_at t before ++ x) (due_at-enqueue t m l.message_queue s)
          ∙ sym (append_assoc (due_at t before) (due_at t l.message_queue) _)
          ∙ ap (λ x. x ++ (if m.due == t then m ∷ [] else [])) (same t)
          ∙ sym (due_at-append t es (m ∷ [])),
      calls,
    )
