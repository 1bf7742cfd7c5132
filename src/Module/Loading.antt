-- ===== src/Module/Loading.antt =====
-- A driver is made by the first registration of its name, and its library stays open with it.
use m_toolkit.Base.{
  ℕ, ◌+◌, ◌-◌, ◌≡◌, refl, sym, ap, ◌∙◌, arith, Bool, true, false, Option, none, some, List, [], ◌∷◌,
  ◌==◌, if◌then◌else◌,
}
use mathlib.Core.Path.{subst}
use m_toolkit.Base.Maps.{find}
use m_toolkit.Module.{
  PlugMap, get_device_base_class, register_plug_factory, register_all, DynamicLoader, call_or_close,
  load_from, load_driver,
}

-- The function of the first registration under a name.
abbrev pub first : ℕ → List (ℕ × Option ℕ) → Option ℕ
first name [] = none
first name ((n, plug) ∷ plugs) = if n == name then plug else first name plugs

abbrev pub present : Option ℕ → ℕ
present none = 0
present (some _) = 1

-- What POSIX documents: a library counts how often it is open.
pub record Documented {S : Type 0} (calls : DynamicLoader S) (opened : ℕ → S → ℕ) : Type 0 where
  pub opens :
      (path : ℕ) (s : S) (h g : ℕ)
      → (calls.dlopen path s).0 ≡ some h
      → opened g (calls.dlopen path s).1 ≡ opened g s + (if g == h then 1 else 0)
  pub closes :
      (h : ℕ) (s : S) (g : ℕ)
      → opened g (calls.dlclose h s) ≡ opened g s - (if g == h then 1 else 0)

-- What a name stands for after a registration, by what it stood for before.
abbrev after : Option (Option ℕ) → Bool → Option ℕ → Option (Option ℕ)
after (some plug) same new = some plug
after none same new = if same then some new else none

find-register_plug_factory :
    (name n : ℕ) (plug : Option ℕ) (m : PlugMap)
    → find name (register_plug_factory n plug m) ≡ after (find name m) (n == name) plug
unfolding find register_plug_factory
find-register_plug_factory name n plug m = either (find n m) refl
  where
    either :
        (o : Option (Option ℕ))
        → find n m ≡ o
        → find name (elim o [ some _ ↦ m | none ↦ (n, plug) ∷ m ])
          ≡ after (find name m) (n == name) plug
    either none e = ground (arith, e)
    either (some w) e = ground (arith, e)

get-register_all :
    (name : ℕ) (plugs : List (ℕ × Option ℕ)) (m : PlugMap)
    → get_device_base_class name (register_all plugs m)
      ≡ elim (find name m) [ none ↦ first name plugs | some plug ↦ plug ]
unfolding get_device_base_class register_all
get-register_all name [] m = refl
get-register_all name ((n, plug) ∷ plugs) m =
    get-register_all name plugs (register_plug_factory n plug m)
    ∙ ap (λ o. elim o [ none ↦ first name plugs | some plug ↦ plug ])
        (find-register_plug_factory name n plug m)
    ∙ either (find name m) (n == name)
  where
    either :
        (o : Option (Option ℕ)) (b : Bool)
        → elim (after o b plug) [ none ↦ first name plugs | some plug ↦ plug ]
          ≡ elim o [ none ↦ (if b then plug else first name plugs) | some plug ↦ plug ]
    either none true = refl
    either none false = refl
    either (some w) b = refl

-- What a library registers, if it has the function that tells it.
abbrev pub registered : Option (List (ℕ × Option ℕ)) → Option PlugMap
registered none = none
registered (some plugs) = some (register_all plugs [])

abbrev pub factory : ℕ → Option (List (ℕ × Option ℕ)) → Option ℕ
factory name none = none
factory name (some plugs) = first name plugs

abbrev pub made : (ℕ → Option ℕ) → Option ℕ → Option ℕ
made make none = none
made make (some func) = make func

module _ {S : Type 0} (calls : DynamicLoader S) (make : ℕ → Option ℕ) (opened : ℕ → S → ℕ)
    (documented : Documented calls opened) where
  call_or_close-opened :
      (h : ℕ) (func : Option ℕ) (before s : S)
      → ((g : ℕ) → opened g s ≡ opened g before + (if g == h then 1 else 0))
      → ((call_or_close calls make h func s).0 ≡ made make func)
        × ((g : ℕ)
            → opened g (call_or_close calls make h func s).1
              ≡ opened g before + (if g == h then present func else 0))
  unfolding call_or_close
  call_or_close-opened h none before s e =
      (refl, (λ g. documented.closes h s g ∙ closed (opened g s) (opened g before) (g == h) (e g)))
    where
      closed :
          (now old : ℕ) (b : Bool)
          → now ≡ old + (if b then 1 else 0)
          → now - (if b then 1 else 0) ≡ old + (if b then 0 else 0)
      closed now old true e = omega (arith, e)
      closed now old false e = omega (arith, e)
  call_or_close-opened h (some f) before s e = (refl, e)

  abbrev Loaded : (h : ℕ) (func : Option ℕ) (before : S) → Option ℕ × S → Type 0
  Loaded h func before (plug, s) =
      (plug ≡ made make func)
      × ((g : ℕ) → opened g s ≡ opened g before + (if g == h then present func else 0))

  load_from-Loaded :
      (h name : ℕ) (symbol : Option (List (ℕ × Option ℕ))) (before s : S)
      → calls.dlsym h s ≡ registered symbol
      → ((g : ℕ) → opened g s ≡ opened g before + (if g == h then 1 else 0))
      → Loaded h (factory name symbol) before (load_from calls make (some h) name s)
  unfolding load_from call_or_close find
  load_from-Loaded h name none before s e counts =
      subst
        (λ o. Loaded h none before (elim o [
          | none ↦ (none, calls.dlclose h s)
          | some plug_map ↦ call_or_close calls make h (get_device_base_class name plug_map) s
        ]))
        (sym e) (call_or_close-opened h none before s counts)
  load_from-Loaded h name (some plugs) before s e counts =
      subst
        (λ o. Loaded h (first name plugs) before (elim o [
          | none ↦ (none, calls.dlclose h s)
          | some plug_map ↦ call_or_close calls make h (get_device_base_class name plug_map) s
        ]))
        (sym e)
        (subst (λ func. Loaded h (first name plugs) before (call_or_close calls make h func s))
          (sym (get-register_all name plugs []))
          (call_or_close-opened h (first name plugs) before s counts))

  -- If dlopen counts a library up and dlclose counts it down, then LoadDriver of a library that opens
  -- gives what the function makes that was first registered in it under the name, and nothing if there
  -- is none, or an empty one, or the library has no GetDeviceBaseClass. The library is counted once
  -- more than before exactly if there was a function, whether or not that made a plug, and no other
  -- library's count changes.
  pub load_driver-first :
      (path name : ℕ) (s : S) (h : ℕ) (symbol : Option (List (ℕ × Option ℕ)))
      → (calls.dlopen path s).0 ≡ some h
      → calls.dlsym h (calls.dlopen path s).1 ≡ registered symbol
      → ((load_driver calls make path name s).0 ≡ made make (factory name symbol))
        × ((g : ℕ)
            → opened g (load_driver calls make path name s).1
              ≡ opened g s + (if g == h then present (factory name symbol) else 0))
  unfolding load_driver
  load_driver-first path name s h symbol opens symbols =
      let after = (calls.dlopen path s).1 in
      subst (λ o. Loaded h (factory name symbol) s (load_from calls make o name after)) (sym opens)
        (load_from-Loaded h name symbol s after symbols (λ g. documented.opens path s h g opens))
