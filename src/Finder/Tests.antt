-- ===== src/Finder/Tests.antt =====
-- Instances for the finder: an indexer of two multihashes.
use storetheindex.Prelude.{
  ℕ, ◌≡◌, refl, true, Option, none, some, List, [], ◌∷◌, ◌==◌, if◌then◌else◌,
}
use storetheindex.Prelude.Dict
use storetheindex.Registry.State.{Registry}
use storetheindex.Registry.Register.{provider_info}
use storetheindex.Registry.Tests.{memory, provider, registry}
use storetheindex.Ingest.Batches.{Multihash, Value}
use storetheindex.Finder.{provider_result_from_value, find}
use storetheindex.Finder.Laws.{find_lem, find_inactive}

-- The provider 1 is active, the provider 2 is not.
abbrev pub mixed : Registry memory
mixed = registry ((1, provider 1 1 50) ∷ (2, record (provider 2 2 50) { inactive = true }) ∷ [])

abbrev pub value : ℕ → ℕ → Value
value provider context = record { provider_id = provider; context_id = context; metadata_bytes = 5 }

-- The multihash 21 has values of three providers, 22 one of the provider 2.
abbrev pub stored : Multihash → Option (Option (List Value))
stored m =
    if m == 21
    then some (some (value 1 4 ∷ value 3 4 ∷ value 1 5 ∷ []))
    else if m == 22
    then some (some (value 2 4 ∷ []))
    else some none

find_lem_example : find memory mixed stored (21 ∷ 22 ∷ 23 ∷ []) ≡ (
  some (
      record {
        multihash = 21;
        provider_results =
            provider_result_from_value (value 1 4) (101 ∷ [])
            ∷ provider_result_from_value (value 1 5) (101 ∷ [])
            ∷ [];
      }
      ∷ []),
  value 3 4 ∷ value 2 4 ∷ [],
)
unfolding provider_info Dict.get
find_lem_example = find_lem memory mixed stored (21 ∷ 22 ∷ 23 ∷ [])

find_inactive_example : find memory mixed stored (22 ∷ []) ≡ (some [], value 2 4 ∷ [])
unfolding Dict.get
find_inactive_example =
    find_inactive memory mixed stored 22 (value 2 4 ∷ []) refl
      ((record (provider 2 2 50) { inactive = true }, refl, refl), tt)
