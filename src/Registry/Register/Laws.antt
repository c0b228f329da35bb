-- ===== src/Registry/Register/Laws.antt =====
-- Who gets registered, and what the registry holds afterwards.
use storetheindex.Prelude.{
  ◌≡◌, ◌≢◌, true, none, some, [], ◌==◌, arith, if◌then◌else◌, Option-cases, inl, inr,
}
use storetheindex.Prelude.Dict
use storetheindex.Prelude.Dict.{get-put, get-remove}
use storetheindex.PeerPolicy.{PeerId}
use storetheindex.Registry.Policy.{allowed, publish_allowed}
use storetheindex.Registry.State.{ProviderInfo, Error, not_persisted, Env, Registry}
use storetheindex.Registry.Register.{
  sync_persist_provider, sync_register, register_refusal, register,
}

-- What the policy asks of a registration.
pub record IsAdmitted (env : Env) (r : Registry env) (info : ProviderInfo) : Type 0 where
  pub has_address : info.addr_info.addrs ≢ []
  pub has_id : env.valid info.addr_info.id ≡ true
  pub provider : allowed r.policy info.addr_info.id ≡ true
  pub publisher :
      env.valid info.publisher ≡ true
      → info.publisher ≢ info.addr_info.id
      → (allowed r.policy info.publisher ≡ true)
        × (publish_allowed r.policy info.publisher info.addr_info.id ≡ true)

module _ (env : Env) (r : Registry env) (info : ProviderInfo) where
  providers-sync_persist_provider : (sync_persist_provider env r info).0.providers ≡ r.providers
  unfolding sync_persist_provider
  providers-sync_persist_provider = ground arith

  pub policy-sync_persist_provider : (sync_persist_provider env r info).0.policy ≡ r.policy
  unfolding sync_persist_provider
  policy-sync_persist_provider = ground arith

module _ (env : Env) (r : Registry env) (info : ProviderInfo) where
  pub get-sync_register :
      (k : PeerId)
      → Dict.get (sync_register env r info).0.providers k
        ≡ (if info.addr_info.id == k then some info else Dict.get r.providers k)
  unfolding sync_register
  get-sync_register k =
      rw (providers-sync_persist_provider env) (get-put r.providers info.addr_info.id k info)

  pub refusal_lem : register_refusal env r info ≡ none → IsAdmitted env r info
  unfolding register_refusal
  refusal_lem h = record {
    has_address = ground arith;
    has_id = ground arith;
    provider = ground arith;
    publisher = λ v n. ground arith;
  }

  refusal_ne : register_refusal env r info ≢ some not_persisted
  unfolding register_refusal
  refusal_ne h = ground arith

  -- A registration that succeeds was admitted by the policy, and is what the registry then holds for
  -- the provider; every other provider is as before.
  pub register_ok :
      (register env r info).1 ≡ none
      → IsAdmitted env r info
        × ((k : PeerId)
            → Dict.get (register env r info).0.providers k
              ≡ (if info.addr_info.id == k then some info else Dict.get r.providers k))
  unfolding register
  register_ok h = elim (Option-cases (register_refusal env r info)) [
    | inl e ↦ (refusal_lem e, λ k. rw (e, register) (get-sync_register k))
    | inr (x, e) ↦ absurd (cc (rw (e, register) at h))
  ]

  -- A registration that fails for any reason but the datastore leaves the registry as it was.
  pub register_refused :
      (e : Error)
      → (register env r info).1 ≡ some e
      → e ≢ not_persisted
      → (register env r info).0 ≡ r
  unfolding register sync_register sync_persist_provider
  register_refused e h n = ground arith
