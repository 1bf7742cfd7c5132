-- ===== src/Actor/Publishing.antt =====
-- What subscribers get.
use m_toolkit.Base.{
  ℕ, ◌≡◌, refl, sym, ap, ◌∙◌, arith, Bool, true, false, not, ◌&&◌, ◌||◌, Option, none, some, List,
  [], ◌∷◌, ◌++◌, ◌==◌, if◌then◌else◌, Bool-cases, Option-cases, inl, inr,
}
use mathlib.Core.Path.{subst}
use m_toolkit.Base.Maps.{find, has}
use m_toolkit.Actor.{
  Event, Handle, set_insert, set_erase, entry, subscribe, un_subscribe, push_to, publish, create,
}
use m_toolkit.Actor.Sets.{
  ascending, ascending-set_insert, has-set_insert, ascending-set_erase, has-set_erase, push_to-has,
}
use m_toolkit.Actor.Entries.{set_of, subscribe-entry, un_subscribe-entry, un_subscribe-queues}

-- What a handle promises: who listens to which signal, and what each was sent, oldest first.
pub record Board : Type 0 where
  pub listens : (signal actor : ℕ) → Bool
  pub mail : (actor : ℕ) → List Event

pub data Operation : Type 0 where
  subscribes un_subscribes : (active event : ℕ) → Operation
  publishes : Event → Operation

unfoldable pub spec : Operation → Board → Board
spec (subscribes active event) b = record b {
  listens = λ s a. (event == s && a == active) || b.listens s a;
}
spec (un_subscribes active event) b = record b {
  listens = λ s a. not (event == s && a == active) && b.listens s a;
}
spec (publishes event) b = record b {
  mail = λ a. if b.listens event.signal a then b.mail a ++ event ∷ [] else b.mail a;
}

unfoldable pub perform : Operation → Handle → Handle
perform (subscribes active event) h = subscribe active event h
perform (un_subscribes active event) h = un_subscribe active event h
perform (publishes event) h = publish event h

pub record Shows (h : Handle) (b : Board) : Type 0 where
  pub listeners : (s a : ℕ) → has a (entry s h.subscribe_map) ≡ b.listens s a
  pub mails : (a : ℕ) → h.queues a ≡ b.mail a
  pub in_order : (s : ℕ) → ascending (entry s h.subscribe_map) ≡ true

-- A test of one entry, where another may have been changed.
change_entry :
    (event s a : ℕ) (m : List (ℕ × List ℕ)) (l : List ℕ) (q : Bool)
    → ((event == s) ≡ true → has a l ≡ q)
    → ((event == s) ≡ false → has a (entry s m) ≡ q)
    → has a (if event == s then l else entry s m) ≡ q
change_entry event s a m l q new old = elim (Bool-cases (event == s)) [
  | inl same ↦ ap (λ t. has a (if t then l else entry s m)) same ∙ new same
  | inr other ↦ ap (λ t. has a (if t then l else entry s m)) other ∙ old other
]

if_ascending :
    (t : Bool) (l l' : List ℕ)
    → ascending l ≡ true
    → ascending l' ≡ true
    → ascending (if t then l else l') ≡ true
if_ascending true l l' ordered ordered' = ordered
if_ascending false l l' ordered ordered' = ordered'

same_entry :
    (event s a : ℕ) (m : List (ℕ × List ℕ))
    → (event == s) ≡ true
    → has a (entry event m) ≡ has a (entry s m)
same_entry event s a m same =
    let equal : event ≡ s = ground arith in ap (λ e. has a (entry e m)) equal

module _ (active event : ℕ) (h : Handle) (b : Board) (shows : Shows h b) where
  subscribe-Shows : Shows (subscribe active event h) (spec (subscribes active event) b)
  unfolding spec subscribe
  subscribe-Shows =
      let m = h.subscribe_map in
      record {
        listeners = λ s a.
            ap (has a) (subscribe-entry active event s h)
            ∙ change_entry event s a m (set_insert active (entry event m))
                ((event == s && a == active) || b.listens s a)
                (λ same.
                  has-set_insert active a (entry event m)
                  ∙ ap (λ q. a == active || q) (same_entry event s a m same ∙ shows.listeners s a)
                  ∙ sym (ap (λ t. (t && a == active) || b.listens s a) same))
                (λ other.
                  shows.listeners s a ∙ sym (ap (λ t. (t && a == active) || b.listens s a) other));
        mails = shows.mails;
        in_order = λ s.
            ap ascending (subscribe-entry active event s h)
            ∙ if_ascending (event == s) (set_insert active (entry event m)) (entry s m)
                (ascending-set_insert active (entry event m) (shows.in_order event))
                (shows.in_order s);
      }

  un_subscribe-Shows : Shows (un_subscribe active event h) (spec (un_subscribes active event) b)
  unfolding spec
  un_subscribe-Shows =
      let m = h.subscribe_map in
      record {
        listeners = λ s a.
            ap (has a) (un_subscribe-entry active event s h)
            ∙ change_entry event s a m (set_erase active (entry event m))
                (not (event == s && a == active) && b.listens s a)
                (λ same.
                  has-set_erase active a (entry event m) (shows.in_order event)
                  ∙ ap (λ q. not (a == active) && q)
                      (same_entry event s a m same ∙ shows.listeners s a)
                  ∙ sym (ap (λ t. not (t && a == active) && b.listens s a) same))
                (λ other.
                  shows.listeners s a
                  ∙ sym (ap (λ t. not (t && a == active) && b.listens s a) other));
        mails = λ a. ap (λ f. f a) (un_subscribe-queues active event h) ∙ shows.mails a;
        in_order = λ s.
            ap ascending (un_subscribe-entry active event s h)
            ∙ if_ascending (event == s) (set_erase active (entry event m)) (entry s m)
                (ascending-set_erase active (entry event m) (shows.in_order event))
                (shows.in_order s);
      }

abbrev published : Event → Handle → Option (List ℕ) → Handle
published event h o = elim o [ none ↦ h | some l ↦ record h { queues = push_to l event h.queues } ]

publish_lem :
    (event : Event) (h : Handle)
    → publish event h
      ≡ record h { queues = push_to (entry event.signal h.subscribe_map) event h.queues }
unfolding publish push_to
publish_lem event h = elim (Option-cases (find event.signal h.subscribe_map)) [
  | inl absent ↦
      ap (published event h) absent
      ∙ ap (λ o. record h { queues = push_to (set_of o) event h.queues }) (sym absent)
  | inr (l, found) ↦
      ap (published event h) found
      ∙ ap (λ o. record h { queues = push_to (set_of o) event h.queues }) (sym found)
]

publish-Shows :
    (event : Event) (h : Handle) (b : Board)
    → Shows h b
    → Shows (publish event h) (spec (publishes event) b)
unfolding spec
publish-Shows event h b shows =
    let l = entry event.signal h.subscribe_map in
    subst (λ h'. Shows h' (spec (publishes event) b)) (sym (publish_lem event h))
      (record {
        listeners = shows.listeners;
        mails = λ a.
            push_to-has l event h.queues a (shows.in_order event.signal)
            ∙ ap (λ t. if t then h.queues a ++ event ∷ [] else h.queues a)
                (shows.listeners event.signal a)
            ∙ ap (λ q. if b.listens event.signal a then q ++ event ∷ [] else q) (shows.mails a);
        in_order = shows.in_order;
      })

perform-Shows :
    (o : Operation) (h : Handle) (b : Board) → Shows h b → Shows (perform o h) (spec o b)
unfolding perform
perform-Shows (subscribes active event) h b shows = subscribe-Shows active event h b shows
perform-Shows (un_subscribes active event) h b shows = un_subscribe-Shows active event h b shows
perform-Shows (publishes event) h b shows = publish-Shows event h b shows

abbrev pub empty_board : Board
empty_board = record { listens = λ _ _. false; mail = λ _. [] }

create-Shows : Shows create empty_board
unfolding create find
create-Shows = record { listeners = λ s a. refl; mails = λ a. refl; in_order = λ s. refl }

unfoldable pub perform_all : List Operation → Handle → Handle
perform_all [] h = h
perform_all (o ∷ operations) h = perform_all operations (perform o h)

unfoldable pub spec_all : List Operation → Board → Board
spec_all [] b = b
spec_all (o ∷ operations) b = spec_all operations (spec o b)

perform_all-spec_all :
    (operations : List Operation) (h : Handle) (b : Board)
    → Shows h b
    → Shows (perform_all operations h) (spec_all operations b)
unfolding perform_all spec_all
perform_all-spec_all [] h b shows = shows
perform_all-spec_all (o ∷ operations) h b shows =
    perform_all-spec_all operations (perform o h) (spec o b) (perform-Shows o h b shows)

-- Whatever subscriptions, cancellations and publications come: an actor listens to a signal if it has
-- subscribed and not cancelled since; and each published event is put once at the end of the queue of
-- each actor that listens to its signal then, and of no other.
pub perform_all-Shows :
    (operations : List Operation)
    → Shows (perform_all operations create) (spec_all operations empty_board)
perform_all-Shows operations = perform_all-spec_all operations create empty_board create-Shows
