-- ===== src/Registry/Import.antt =====
-- ImportProviders in internal/registry/registry.go: the providers that another indexer lists.
pub mod Laws
mod Tests
use storetheindex.Prelude.{Bool, true, false, Option, none, some, List, [], ◌∷◌, if◌then◌else◌}
use storetheindex.Prelude.Result.{Result, ok, err, ◌>>=◌}
use storetheindex.Registry.State.{ProviderInfo, Error, Env, Registry}
use storetheindex.Registry.Register.{register, is_registered}
use storetheindex.Registry.Update.{new_info, first}
use storetheindex.Finder.{ProviderModel}

module _ (env : Env) where
  -- The entry with the provider as its own publisher: without an address it panics.
  own_publisher : ProviderModel → Result Error ProviderInfo
  own_publisher p = do
    a ← first p.addr_info.addrs
    ok (record (new_info p.addr_info.id) {
      addr_info = p.addr_info;
      publisher = p.addr_info.id;
      publisher_addr = some a;
    })

  -- The entry for a provider of the list
  unfoldable pub imported_info : ProviderModel → Result Error ProviderInfo
  unfolding own_publisher
  imported_info p = elim p.publisher [
    | none ↦ own_publisher p
    | some publisher ↦
        if env.valid publisher.id
        then elim publisher.addrs [
          | [] ↦ own_publisher p
          | a ∷ rest ↦ ok (record (new_info p.addr_info.id) {
            addr_info = p.addr_info;
            publisher = publisher.id;
            publisher_addr = some a;
          })
        ]
        else own_publisher p
  ]

  -- The loop over the list, with the new entries, which go to the ingester; or a panic.
  unfoldable pub import_loop :
      Registry env → List ProviderModel → Registry env × Result Error (List ProviderInfo)
  unfolding imported_info
  import_loop r [] = (r, ok [])
  import_loop r (p ∷ ps) = elim (is_registered env r p.addr_info.id) [
    | true ↦ import_loop r ps
    | false ↦ elim (imported_info p) [
      | err e ↦ (r, err e)
      | ok info ↦
          let (r', e) = register env r info in
          let (r'', infos) = import_loop r' ps in
          (r'', elim e [ some x ↦ infos | none ↦ (do more ← infos; ok (info ∷ more)) ])
    ]
  ]

  -- ImportProviders on the answer of the other indexer, which may be an error
  unfoldable pub import_providers :
      Registry env
      → Option (List ProviderModel)
      → Registry env × Option (Result Error (List ProviderInfo))
  unfolding import_loop
  import_providers r none = (r, none)
  import_providers r (some provs) = let (r', infos) = import_loop r provs in (r', some infos)
