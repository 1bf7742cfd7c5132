-- ===== src/Utilities/Filesystem/Outcomes.antt =====
-- The tests of `CreateDirectory` and of a step of `CreateDirectories`, outcome by outcome.
use m_toolkit.Base.{
  ℕ, ◌≡◌, refl, ap, arith, Bool, true, false, not, List, [], ◌∷◌, ◌++◌, length, take, if◌then◌else◌,
}

abbrev pub answer : {S : Type 0} → Bool → Bool → S → Bool × S
answer made there s = if not made then (if not there then (false, s) else (true, s)) else (true, s)

pub answer-state : {S : Type 0} (made there : Bool) (s : S) → (answer made there s).1 ≡ s
answer-state true there s = refl
answer-state false true s = refl
answer-state false false s = refl

pub answer-there :
    {S : Type 0} (made there : Bool) (s : S)
    → (made ≡ true → there ≡ true)
    → (answer made there s).0 ≡ true
    → there ≡ true
answer-there true there s h ok = h refl
answer-there false true s h ok = refl
answer-there false false s h ok = absurd (ground (arith, ok))

-- A step of `CreateDirectories`, with its outcomes.
abbrev pub checked : {S : Type 0} → Bool × S → Bool × S → Bool × S
checked (made, s) others = if not made then (false, s) else others

abbrev pub turn :
    {S : Type 0} → (slashed first : Bool) → (directory later others : Bool × S) → Bool × S
turn slashed first directory later others =
    if slashed then (if first then later else checked directory others) else later

pub checked-keeps :
    {S : Type 0} (directory others : Bool × S) (E : S → Type 0)
    → E directory.1
    → E others.1
    → E (checked directory others).1
checked-keeps (true, s) others E here there = there
checked-keeps (false, s) others E here there = here

pub turn-keeps :
    {S : Type 0} (slashed first : Bool) (directory later others : Bool × S) (E : S → Type 0)
    → E directory.1
    → E later.1
    → E others.1
    → E (turn slashed first directory later others).1
turn-keeps false first directory later others E here after there = after
turn-keeps true true directory later others E here after there = after
turn-keeps true false directory later others E here after there =
    checked-keeps directory others E here there

pub checked-makes :
    {S : Type 0} (directory others : Bool × S) (E X : S → Type 0)
    → (directory.0 ≡ true → E others.1)
    → (others.0 ≡ true → X others.1)
    → (checked directory others).0 ≡ true
    → E (checked directory others).1 × X (checked directory others).1
checked-makes (true, s) others E X here there ok = (here refl, there ok)
checked-makes (false, s) others E X here there ok = absurd (ground (arith, ok))

pub turn-makes :
    {S : Type 0} (slashed first : Bool) (directory later others : Bool × S) (E X : S → Type 0)
    → (directory.0 ≡ true → E others.1)
    → (later.0 ≡ true → X later.1)
    → (others.0 ≡ true → X others.1)
    → (turn slashed first directory later others).0 ≡ true
    → let s = (turn slashed first directory later others).1 in
      (slashed ≡ true → first ≡ false → E s) × X s
turn-makes false first directory later others E X here after there ok =
    ((λ e. absurd (ground (arith, e))), after ok)
turn-makes true true directory later others E X here after there ok =
    ((λ _ e. absurd (ground (arith, e))), after ok)
turn-makes true false directory later others E X here after there ok =
    let r = checked-makes directory others E X here there ok in ((λ _ _. r.0), r.1)

pub take-length-append : (before after : List ℕ) → take (length before) (before ++ after) ≡ before
take-length-append [] after = refl
take-length-append (b ∷ before) after = ap (λ l. b ∷ l) (take-length-append before after)
