-- ===== src/Registry/Load.antt =====
-- loadPersistedProviders in internal/registry/registry.go.
pub mod Laws
use storetheindex.Prelude.{
  ℕ, suc, Bool, true, false, not, ◌&&◌, Option, none, some, List, [], ◌∷◌, ◌==◌, if◌then◌else◌,
}
use storetheindex.Prelude.Dict
use storetheindex.Prelude.Dict.{Dict}
use storetheindex.Prelude.Result.{Result, ok, err}
use storetheindex.PeerPolicy.{PeerId}
use storetheindex.Registry.Policy.{Policy, allowed}
use storetheindex.Registry.State.{
  ProviderInfo, Found, unreadable, undecodable, found, Env, Registry,
}
use storetheindex.Registry.Update.{is_none}

pub data Error : Type 0 where
  cannot_query cannot_read cannot_decode_id bad_value : Error
  -- info.AddrInfo.Addrs[0] where there is no address
  panics : Error

module _ (env : Env) where
  -- A provider that publishes for itself and has no publisher address gets its own first one.
  unfoldable pub restore_publisher_addr : ProviderInfo → Result Error ProviderInfo
  restore_publisher_addr info =
      if env.valid info.publisher
        && is_none info.publisher_addr
        && info.publisher == info.addr_info.id
      then elim info.addr_info.addrs [
        | [] ↦ err panics
        | a ∷ rest ↦ ok (record info { publisher_addr = some a })
      ]
      else ok info

  -- The loop over the results of the query: the map, and the count of what was loaded.
  unfoldable pub load_loop :
      Policy → List (Found env.Bytes) → Dict ProviderInfo → ℕ → Result Error (Dict ProviderInfo × ℕ)
  load_loop policy [] m count = ok (m, count)
  load_loop policy (unreadable ∷ rest) m count = err cannot_read
  load_loop policy (undecodable ∷ rest) m count = err cannot_decode_id
  load_loop policy (found id b ∷ rest) m count = elim (allowed policy id) [
    | false ↦ load_loop policy rest m count
    | true ↦ elim (env.unmarshal b) [
      | none ↦ err bad_value
      | some info ↦ elim (restore_publisher_addr info) [
        | err e ↦ err e
        | ok info' ↦ load_loop policy rest (Dict.put m id info') (suc count)
      ]
    ]
  ]

  -- loadPersistedProviders, into the empty map of a new registry.
  unfoldable pub load_persisted_providers :
      Policy → Option env.State → Result Error (Dict ProviderInfo × ℕ)
  unfolding load_loop restore_publisher_addr
  load_persisted_providers policy none = ok ([], 0)
  load_persisted_providers policy (some d) = elim (env.query d) [
    | none ↦ err cannot_query
    | some results ↦ load_loop policy results [] 0
  ]
