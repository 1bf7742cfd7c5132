-- ===== src/Utilities/Filesystem/Removal/Traces.antt =====
-- Calls of remove below a path, as outcomes are put together.
use m_toolkit.Base.{
  ℕ, ◌<◌, ◌≡◌, refl, sym, ap, ◌∙◌, arith, Bool, true, false, Option, none, some, List, [], ◌∷◌,
  ◌++◌, if◌then◌else◌, length, length-append,
}
use mathlib.Core.List.{append_assoc}
use m_toolkit.Utilities.Filesystem.{slash}
use m_toolkit.Utilities.Filesystem.Removal.{
  Outcome, hidden, ends_with_slash, value, after, and_then,
}

-- The path itself, or what stands below it under names without a dot in front.
pub data Under : List ℕ → List ℕ → Type 0 where
  itself : (path : List ℕ) → Under path path
  below :
      (path name other : List ℕ)
      → hidden name ≡ false
      → Under (value path name) other
      → Under path other

-- Calls of remove below a path, each of which succeeded if the answer is true.
abbrev pub Within : List ℕ → Bool → List (List ℕ × Bool) → Type 0
Within path ok [] = Unit
Within path ok ((p, done) ∷ trace) = Under path p × (ok ≡ true → done ≡ true) × Within path ok trace

Within-append :
    (path : List ℕ) (ok : Bool) (t t' : List (List ℕ × Bool))
    → Within path ok t
    → Within path ok t'
    → Within path ok (t ++ t')
Within-append path ok [] t' w w' = w'
Within-append path ok ((p, done) ∷ t) t' (u, d, w) w' = (u, d, Within-append path ok t t' w w')

-- Of calls that all succeeded, any answer.
Within-weaken :
    (path : List ℕ) (ok : Bool) (t : List (List ℕ × Bool)) → Within path true t → Within path ok t
Within-weaken path ok [] w = tt
Within-weaken path ok ((p, done) ∷ t) (u, d, w) = (u, (λ _. d refl), Within-weaken path ok t w)

Within-value :
    (path name : List ℕ) (ok : Bool) (t : List (List ℕ × Bool))
    → hidden name ≡ false
    → Within (value path name) ok t
    → Within path ok t
Within-value path name ok [] h w = tt
Within-value path name ok ((p, done) ∷ t) h (u, d, w) =
    (below path name p h u, d, Within-value path name ok t h w)

pub length-value : (path name : List ℕ) → 0 < length name → length path < length (value path name)
unfolding value
length-value path name longer = either (ends_with_slash path)
  where
    either : (b : Bool) → length path < length (if b then path ++ name else path ++ slash ∷ name)
    either true = omega (arith, length-append path name)
    either false = omega (arith, length-append path (slash ∷ name))

module _ {S : Type 0} where
  -- An end, with calls as above.
  abbrev pub Good : List ℕ → Option (Outcome S) → Type 0
  Good path none = ⊥
  Good path (some (ok, s, trace)) = Within path ok trace

  -- A true answer comes after the removal of the path.
  abbrev pub Ends : List ℕ → Option (Outcome S) → Type 0
  Ends path none = Unit
  Ends path (some (ok, s, trace)) =
      ok ≡ true → (t : List (List ℕ × Bool)) × (trace ≡ t ++ (path, true) ∷ [])

  after-Good :
      (path : List ℕ) (t : List (List ℕ × Bool)) (o : Option (Outcome S))
      → Within path true t
      → Good path o
      → Good path (after t o)
  after-Good path t none w g = absurd g
  after-Good path t (some (ok, s, trace)) w g =
      Within-append path ok t trace (Within-weaken path ok t w) g

  pub and_then-Good :
      (path : List ℕ) (o : Option (Outcome S)) (next : S → Option (Outcome S))
      → Good path o
      → ((s : S) → Good path (next s))
      → Good path (and_then o next)
  and_then-Good path none next g n = absurd g
  and_then-Good path (some (false, s, trace)) next g n = g
  and_then-Good path (some (true, s, trace)) next g n = after-Good path trace (next s) g (n s)

  pub Good-value :
      (path name : List ℕ) (o : Option (Outcome S))
      → hidden name ≡ false
      → Good (value path name) o
      → Good path o
  Good-value path name none h g = absurd g
  Good-value path name (some (ok, s, trace)) h g = Within-value path name ok trace h g

  after-Ends :
      (path : List ℕ) (t : List (List ℕ × Bool)) (o : Option (Outcome S))
      → Ends path o
      → Ends path (after t o)
  after-Ends path t none e = tt
  after-Ends path t (some (ok, s, trace)) e = λ yes.
      let (front, same) = e yes in
      (t ++ front, ap (λ l. t ++ l) same ∙ sym (append_assoc t front ((path, true) ∷ [])))

  pub and_then-Ends :
      (path : List ℕ) (o : Option (Outcome S)) (next : S → Option (Outcome S))
      → ((s : S) → Ends path (next s))
      → Ends path (and_then o next)
  and_then-Ends path none next n = tt
  and_then-Ends path (some (false, s, trace)) next n = λ e. absurd (ground (arith, e))
  and_then-Ends path (some (true, s, trace)) next n = after-Ends path trace (next s) (n s)
