-- ===== src/Registry/Register/Persistence.antt =====
-- The datastore mirrors the registry's map.
use storetheindex.Prelude.{
  ◌≡◌, false, Option, none, some, ◌==◌, arith, if◌then◌else◌, Bool-cases, Option-cases, inl, inr,
}
use storetheindex.Prelude.Dict
use storetheindex.Prelude.Dict.{Dict, get-put, get-remove}
use storetheindex.PeerPolicy.{PeerId}
use storetheindex.Registry.State.{ProviderInfo, persistent, Env, IsStore, Registry}
use storetheindex.Registry.Register.{sync_persist_provider, sync_register, sync_remove_provider}
use storetheindex.Registry.Register.Laws.{get-sync_register}

module _ (env : Env) where
  -- A stored value, if any, decodes to what JSON keeps of the entry in memory.
  abbrev pub Holds : Option ProviderInfo → Option env.Bytes → Type 0
  Holds none none = Unit {0}
  Holds (some info) (some b) = env.unmarshal b ≡ some (persistent info)
  Holds _ _ = ⊥

module _ (env : Env) (contents : env.State → Dict env.Bytes) where
  abbrev pub Mirrors : Registry env → Type 0
  Mirrors r =
      (d : env.State)
      → r.dstore ≡ some d
      → (k : PeerId) → Holds env (Dict.get r.providers k) (Dict.get (contents d) k)

module _ (env : Env) (r : Registry env) (info : ProviderInfo) (d : env.State)
    (here : r.dstore ≡ some d) where
  persisted :
      (sync_persist_provider env r info).1 ≡ none
      → (b : env.Bytes) × (env.marshal info ≡ some b)
        × ((env.put d info.addr_info.id b).1 ≡ false)
        × ((sync_persist_provider env r info).0.dstore
            ≡ some (env.sync (env.put d info.addr_info.id b).0 info.addr_info.id).0)
  unfolding sync_persist_provider
  persisted h = elim (Option-cases (env.marshal info)) [
    | inl e ↦ cc (rw (here, e, sync_persist_provider) at h)
    | inr (b, e) ↦ (b, e, ground arith, ground arith)
  ]

module _ (env : Env) (r : Registry env) (info : ProviderInfo) (d : env.State)
    (here : r.dstore ≡ some d) where
  registered :
      (sync_register env r info).1 ≡ none
      → (b : env.Bytes) × (env.marshal info ≡ some b)
        × ((env.put d info.addr_info.id b).1 ≡ false)
        × ((sync_register env r info).0.dstore
            ≡ some (env.sync (env.put d info.addr_info.id b).0 info.addr_info.id).0)
  unfolding sync_register
  registered h =
      persisted env (record r { providers = Dict.put r.providers info.addr_info.id info }) info d
        here h

module _ (env : Env) (r : Registry env) (id : PeerId) (d : env.State)
    (here : r.dstore ≡ some d) where
  removed :
      (sync_remove_provider env r id).1 ≡ none
      → ((env.delete d id).1 ≡ false)
        × ((sync_remove_provider env r id).0.dstore ≡ some (env.sync (env.delete d id).0 id).0)
  unfolding sync_remove_provider
  removed h = (ground arith, ground arith)

module _ (env : Env) (r : Registry env) where
  nil_register :
      (info : ProviderInfo) → r.dstore ≡ none → (sync_register env r info).0.dstore ≡ none
  unfolding sync_register
  nil_register info h = ground arith

  nil_remove : (id : PeerId) → r.dstore ≡ none → (sync_remove_provider env r id).0.dstore ≡ none
  unfolding sync_remove_provider
  nil_remove id h = ground arith

  pub get-sync_remove_provider :
      (id k : PeerId)
      → Dict.get (sync_remove_provider env r id).0.providers k
        ≡ (if id == k then none else Dict.get r.providers k)
  unfolding sync_remove_provider
  get-sync_remove_provider id k = ground (arith, get-remove r.providers id k)

module _ (env : Env) (contents : env.State → Dict env.Bytes) (store : IsStore env contents)
    (r : Registry env) (mirrors : Mirrors env contents r) where
  -- A registration without an error, in memory and in the datastore, keeps the two alike.
  pub sync_register-Mirrors :
      (info : ProviderInfo)
      → (sync_register env r info).1 ≡ none
      → Mirrors env contents (sync_register env r info).0
  sync_register-Mirrors info h d' e k = elim (Option-cases r.dstore) [
    | inl nil ↦ absurd (cc (nil_register env r info nil, e))
    | inr (d, here) ↦
        let (b, coded, fine, now) = registered env r info d here h in
        let same : d' ≡ (env.sync (env.put d info.addr_info.id b).0 info.addr_info.id).0 = cc in
        let stored : Dict.get (contents d') k
            ≡ (if info.addr_info.id == k then some b else Dict.get (contents d) k) =
          rw (same, store.sync_lem) (store.put_lem d info.addr_info.id k b fine) in
        rw (stored, get-sync_register env r info k)
          (elim (Bool-cases (info.addr_info.id == k)) [
            | inl own ↦ rw own (store.unmarshal-marshal info b coded)
            | inr other ↦ rw other (mirrors d here k)
          ])
  ]

  pub sync_remove_provider-Mirrors :
      (id : PeerId)
      → (sync_remove_provider env r id).1 ≡ none
      → Mirrors env contents (sync_remove_provider env r id).0
  sync_remove_provider-Mirrors id h d' e k = elim (Option-cases r.dstore) [
    | inl nil ↦ absurd (cc (nil_remove env r id nil, e))
    | inr (d, here) ↦
        let (fine, now) = removed env r id d here h in
        let same : d' ≡ (env.sync (env.delete d id).0 id).0 = cc in
        let stored : Dict.get (contents d') k
            ≡ (if id == k then none else Dict.get (contents d) k) =
          rw (same, store.sync_lem) (store.delete_lem d id k fine) in
        rw (stored, get-sync_remove_provider env r id k)
          (elim (Bool-cases (id == k)) [
            | inl own ↦ rw own tt
            | inr other ↦ rw other (mirrors d here k)
          ])
  ]
