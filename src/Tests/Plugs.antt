-- ===== src/Tests/Plugs.antt =====
-- toolkit/source/module with a library that registers three plugs, two under one name.
use m_toolkit.Base.{
  ℕ, ◌+◌, ◌-◌, ◌≡◌, refl, ap, arith, Option, none, some, List, [], ◌∷◌, ◌==◌, if◌then◌else◌,
}
use m_toolkit.Base.Maps.{update, find}
use m_toolkit.Module.{
  DynamicLoader, register_all, register_plug_factory, load_driver, load_from, get_device_base_class,
  call_or_close,
}
use m_toolkit.Module.Loading.{present, Documented, factory, made, load_driver-first}

abbrev plugs : List (ℕ × Option ℕ)
plugs = (1, some 11) ∷ (2, none) ∷ (1, some 12) ∷ []

-- Every path is a library, its own handle; the state counts how often each is open.
abbrev loader : DynamicLoader (ℕ → ℕ)
loader = record {
  dlopen = λ path s. (some path, update s path (s path + 1));
  dlsym = λ handle s. some (register_all plugs []);
  dlclose = λ handle s. update s handle (s handle - 1);
}

abbrev opened : ℕ → (ℕ → ℕ) → ℕ
opened g s = s g

loader-Documented : Documented loader opened
loader-Documented = record {
  opens = λ path s h g e.
      let same : path ≡ h = ap (λ o. elim o [ none ↦ 0 | some n ↦ n ]) e in ground (arith, same);
  closes = λ h s g. ground arith;
}

abbrev make : ℕ → Option ℕ
make func = some (func + 100)

load_first : (load_driver loader make 7 1 (λ _. 0)).0 ≡ some 111
unfolding load_driver load_from get_device_base_class register_all register_plug_factory
    call_or_close find
load_first = refl

load_driver-first_example :
    ((load_driver loader make 7 1 (λ _. 0)).0 ≡ made make (factory 1 (some plugs)))
    × ((g : ℕ)
        → opened g (load_driver loader make 7 1 (λ _. 0)).1
          ≡ opened g (λ _. 0) + (if g == 7 then present (factory 1 (some plugs)) else 0))
load_driver-first_example =
    load_driver-first loader make opened loader-Documented 7 1 (λ _. 0) 7 (some plugs) refl refl
