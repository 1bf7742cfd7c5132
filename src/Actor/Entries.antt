-- ===== src/Actor/Entries.antt =====
-- The entry of each signal, after a subscription and after its end.
use m_toolkit.Base.{
  ℕ, ◌≡◌, refl, sym, ap, ◌∙◌, arith, Bool, true, false, Option, none, some, List, [], ◌∷◌, ◌==◌,
  if◌then◌else◌, Bool-cases, Option-cases, inl, inr,
}
use mathlib.Core.Path.{subst}
use m_toolkit.Base.Maps.{find}
use m_toolkit.Actor.{
  Handle, set_insert, set_erase, put_entry, entry, subscribe, un_subscribe, with_entry,
}

find-put_entry :
    (e f : ℕ) (l : List ℕ) (m : List (ℕ × List ℕ))
    → find f (put_entry e l m) ≡ (if e == f then some l else find f m)
unfolding find put_entry
find-put_entry e f l [] = ground arith
find-put_entry e f l ((g, old) ∷ m) = ground (arith, find-put_entry e f l m)

entry-put_entry :
    (e s : ℕ) (l : List ℕ) (m : List (ℕ × List ℕ))
    → entry s (put_entry e l m) ≡ (if e == s then l else entry s m)
entry-put_entry e s l m =
    ap (λ o. elim o [ none ↦ [] | some l ↦ l ]) (find-put_entry e s l m) ∙ either (e == s)
  where
    either :
        (t : Bool)
        → elim (if t then some l else find s m) [ none ↦ [] | some l ↦ l ]
          ≡ (if t then l else entry s m)
    either true = refl
    either false = refl

abbrev pub set_of : Option (List ℕ) → List ℕ
set_of o = elim o [ none ↦ [] | some l ↦ l ]

-- An entry that is made empty changes no set.
entry_made :
    (e s : ℕ) (m : List (ℕ × List ℕ))
    → find e m ≡ none
    → (if e == s then [] else entry s m) ≡ entry s m
entry_made e s m absent = elim (Bool-cases (e == s)) [
  | inl same ↦
      let equal : e ≡ s = ground arith in
      ap (λ t. if t then [] else entry s m) same
      ∙ sym (ap set_of (subst (λ k. find k m ≡ none) equal absent))
  | inr other ↦ ap (λ t. if t then [] else entry s m) other
]

entry-with_entry : (e s : ℕ) (m : List (ℕ × List ℕ)) → entry s (with_entry e m) ≡ entry s m
unfolding with_entry
entry-with_entry e s m = elim (Option-cases (find e m)) [
  | inl absent ↦
      ap (λ o. entry s (elim o [ none ↦ put_entry e [] m | some _ ↦ m ])) absent
      ∙ entry-put_entry e s [] m
      ∙ entry_made e s m absent
  | inr (l, found) ↦ ap (λ o. entry s (elim o [ none ↦ put_entry e [] m | some _ ↦ m ])) found
]

pub subscribe-entry :
    (active event s : ℕ) (h : Handle)
    → entry s (subscribe active event h).subscribe_map ≡ (
        if event == s
        then set_insert active (entry event h.subscribe_map)
        else entry s h.subscribe_map)
unfolding subscribe
subscribe-entry active event s h =
    let m = with_entry event h.subscribe_map in
    entry-put_entry event s (set_insert active (entry event m)) m
    ∙ ap (λ l. if event == s then set_insert active l else entry s m)
        (entry-with_entry event event h.subscribe_map)
    ∙ ap (λ l. if event == s then set_insert active (entry event h.subscribe_map) else l)
        (entry-with_entry event s h.subscribe_map)

abbrev pub erased : (active event : ℕ) → Handle → Option (List ℕ) → Handle
erased active event h o = elim o [
  | none ↦ h
  | some l ↦ record h { subscribe_map = put_entry event (set_erase active l) h.subscribe_map }
]

pub un_subscribe-entry :
    (active event s : ℕ) (h : Handle)
    → entry s (un_subscribe active event h).subscribe_map ≡ (
        if event == s
        then set_erase active (entry event h.subscribe_map)
        else entry s h.subscribe_map)
unfolding un_subscribe set_erase
un_subscribe-entry active event s h =
    let m = h.subscribe_map in
    elim (Option-cases (find event m)) [
      | inl absent ↦
          ap (λ o. entry s (erased active event h o).subscribe_map) absent
          ∙ sym (entry_made event s m absent)
          ∙ ap (λ o. if event == s then set_erase active (set_of o) else entry s m) (sym absent)
      | inr (l, found) ↦
          ap (λ o. entry s (erased active event h o).subscribe_map) found
          ∙ entry-put_entry event s (set_erase active l) m
          ∙ ap (λ o. if event == s then set_erase active (set_of o) else entry s m) (sym found)
    ]

pub un_subscribe-queues :
    (active event : ℕ) (h : Handle) → (un_subscribe active event h).queues ≡ h.queues
unfolding un_subscribe
un_subscribe-queues active event h = elim (Option-cases (find event h.subscribe_map)) [
  | inl absent ↦ ap (λ o. (erased active event h o).queues) absent
  | inr (l, found) ↦ ap (λ o. (erased active event h o).queues) found
]
