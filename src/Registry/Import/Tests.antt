-- ===== src/Registry/Import/Tests.antt =====
-- Instances for the import, into a registry that has the provider 1.
use storetheindex.Prelude.{◌≡◌, refl, none, some, List, [], ◌∷◌}
use storetheindex.Prelude.Dict
use storetheindex.Prelude.Result.{err}
use storetheindex.Registry.State.{AddrInfo, panics}
use storetheindex.Registry.Register.{is_registered}
use storetheindex.Registry.Tests.{memory, one}
use storetheindex.Finder.{ProviderModel}
use storetheindex.Registry.Import.{imported_info, import_loop, import_providers}
use storetheindex.Registry.Import.Laws.{IsImported, AreReported, import_providers_lem}

abbrev listed : AddrInfo → ProviderModel
listed info = record {
  addr_info = info;
  last_advertisement = 0;
  last_advertisement_time = [];
  publisher = none;
}

abbrev others : List ProviderModel
others =
    listed (record { id = 1; addrs = 200 ∷ [] }) ∷ listed (record { id = 2; addrs = 102 ∷ [] }) ∷ []

import_providers_lem_example :
    IsImported memory one (import_providers memory one (some others)).0 others 2
    × AreReported memory
        (import_providers memory one (some others)).0
        (import_providers memory one (some others)).1
import_providers_lem_example = import_providers_lem memory one others 2

-- A provider without an address, as the other indexer may list it, ends in a panic.
import_panics :
    (import_providers memory one (some (listed (record { id = 5; addrs = [] }) ∷ []))).1
    ≡ some (err panics)
unfolding import_providers import_loop imported_info is_registered Dict.get
import_panics = refl
