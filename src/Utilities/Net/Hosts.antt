-- ===== src/Utilities/Net/Hosts.antt =====
-- `TraverseAddressFromHost`: the names of a host's addresses.
use m_toolkit.Base.{
  ◌≡◌, refl, sym, ap, ◌∙◌, ℕ, Bool, true, false, Option, none, some, List, [], ◌∷◌, ◌++◌,
}
use mathlib.Core.List.{append_assoc, append-nil}
use m_toolkit.Utilities.Net.{traverse_addresses, traverse_address_from_host}

-- The names up to the first address that has none, and whether all have one.
abbrev pub names : List (Option (List ℕ)) → List (List ℕ)
names [] = []
names (none ∷ rest) = []
names (some name ∷ rest) = name ∷ names rest

abbrev pub all_named : List (Option (List ℕ)) → Bool
all_named [] = true
all_named (none ∷ rest) = false
all_named (some name ∷ rest) = all_named rest

traverse_addresses-names :
    (addresses : List (Option (List ℕ))) (list : List (List ℕ))
    → traverse_addresses addresses true list ≡ (all_named addresses, list ++ names addresses)
unfolding traverse_addresses
traverse_addresses-names [] list = ap (λ l. (true, l)) (sym (append-nil list))
traverse_addresses-names (none ∷ rest) list = ap (λ l. (false, l)) (sym (append-nil list))
traverse_addresses-names (some name ∷ rest) list =
    traverse_addresses-names rest (list ++ name ∷ [])
    ∙ ap (λ l. (all_named rest, l)) (append_assoc list (name ∷ []) (names rest))

-- A host that has addresses, all of which have a name, is answered by true and its names behind what
-- the list held. Otherwise the answer is false, and the names before the first failure were added.
traverse_address_from_host-names :
    (address : Option (List ℕ)) (rest : List (Option (List ℕ))) (list : List (List ℕ))
    → (traverse_address_from_host (some (address ∷ rest)) list
        ≡ (all_named (address ∷ rest), list ++ names (address ∷ rest)))
      × (traverse_address_from_host (some []) list ≡ (false, list))
      × (traverse_address_from_host none list ≡ (false, list))
unfolding traverse_address_from_host traverse_addresses
traverse_address_from_host-names none rest list =
    (ap (λ l. (false, l)) (sym (append-nil list)), refl, refl)
traverse_address_from_host-names (some name) rest list =
    (traverse_addresses-names (some name ∷ rest) list, refl, refl)
