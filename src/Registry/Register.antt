-- ===== src/Registry/Register.antt =====
-- The registration of a provider, and its removal, in internal/registry/registry.go. An action on the
-- registry's goroutine is one step.
pub mod Laws
pub mod Persistence
use storetheindex.Prelude.{
  Bool, true, false, not, ◌&&◌, Option, none, some, List, [], ◌∷◌, ◌==◌, if◌then◌else◌,
}
use storetheindex.Prelude.Dict
use storetheindex.PeerPolicy.{PeerId}
use storetheindex.Registry.Policy.{allowed, publish_allowed}
use storetheindex.Registry.State.{
  ProviderInfo, Error, missing_address, invalid_id, not_allowed, publisher_not_allowed,
  cannot_publish, not_persisted, not_removed, Env, Registry,
}

abbrev pub is_empty {ℓ} : {A : Type ℓ} → List A → Bool
is_empty [] = true
is_empty (x ∷ xs) = false

module _ (env : Env) where
  -- syncPersistProvider
  unfoldable pub sync_persist_provider : Registry env → ProviderInfo → Registry env × Option Error
  sync_persist_provider r info = elim r.dstore [
    | none ↦ (r, none)
    | some d ↦ elim (env.marshal info) [
      | none ↦ (r, some not_persisted)
      | some value ↦
          let (d', failed) = env.put d info.addr_info.id value in
          if failed
          then (record r { dstore = some d' }, some not_persisted)
          else let (d'', unsynced) = env.sync d' info.addr_info.id in
            (record r { dstore = some d'' }, if unsynced then some not_persisted else none)
    ]
  ]

  -- syncRegister: the entry is in memory before it is stored.
  unfoldable pub sync_register : Registry env → ProviderInfo → Registry env × Option Error
  unfolding sync_persist_provider
  sync_register r info =
      sync_persist_provider (record r { providers = Dict.put r.providers info.addr_info.id info })
        info

  -- The guards of Register, before it hands the action over.
  unfoldable pub register_refusal : Registry env → ProviderInfo → Option Error
  register_refusal r info =
      if is_empty info.addr_info.addrs
      then some missing_address
      else if not (env.valid info.addr_info.id)
      then some invalid_id
      else if not (allowed r.policy info.addr_info.id)
      then some not_allowed
      else if env.valid info.publisher && not (info.publisher == info.addr_info.id)
      then if not (allowed r.policy info.publisher)
        then some publisher_not_allowed
        else if not (publish_allowed r.policy info.publisher info.addr_info.id)
        then some cannot_publish
        else none
      else none

  -- Registry.Register
  unfoldable pub register : Registry env → ProviderInfo → Registry env × Option Error
  unfolding register_refusal
  register r info = elim (register_refusal r info) [
    | some e ↦ (r, some e)
    | none ↦ sync_register r info
  ]

  -- syncRemoveProvider
  unfoldable pub sync_remove_provider : Registry env → PeerId → Registry env × Option Error
  sync_remove_provider r id =
      let r' = record r { providers = Dict.remove r.providers id } in
      elim r.dstore [
        | none ↦ (r', none)
        | some d ↦
            let (d', failed) = env.delete d id in
            if failed
            then (record r' { dstore = some d' }, some not_removed)
            else let (d'', unsynced) = env.sync d' id in
              (record r' { dstore = some d'' }, if unsynced then some not_removed else none)
      ]

  -- Registry.RemoveProvider: the third part is what it sends to the ingester.
  unfoldable pub remove_provider :
      Registry env → PeerId → Registry env × Option Error × Option ProviderInfo
  remove_provider r id =
      let (r', e) = sync_remove_provider r id in
      elim e [
        | some x ↦ (r', some x, none)
        | none ↦ elim (Dict.get r.providers id) [
          | none ↦ (r', none, none)
          | some info ↦ (r', none, some (record info { deleted = true }))
        ]
      ]

  -- Registry.IsRegistered
  unfoldable pub is_registered : Registry env → PeerId → Bool
  is_registered r id = elim (Dict.get r.providers id) [ none ↦ false | some info ↦ true ]

  -- Registry.ProviderInfo: none for an inactive provider too.
  unfoldable pub provider_info : Registry env → PeerId → Option ProviderInfo
  provider_info r id = elim (Dict.get r.providers id) [
    | none ↦ none
    | some info ↦ if info.inactive then none else some info
  ]
