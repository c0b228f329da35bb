-- ===== src/Ingest/AutoSync/Laws.antt =====
-- What becomes of providers that the registry removes, with the ingester.
use storetheindex.Prelude.{
  ◌≡◌, refl, ◌∙◌, true, false, Option, none, some, List, [], ◌∷◌, ==_refl, inl, inr, Option-cases,
}
use storetheindex.Prelude.Dict
use storetheindex.Prelude.Result.{ok, err}
use storetheindex.PeerPolicy.{PeerId}
use storetheindex.Registry.State.{ProviderInfo, Env, Registry}
use storetheindex.Registry.Register.{remove_provider, sync_remove_provider}
use storetheindex.Ingest.Store.{
  Outside, IsDatastore, remove_publisher, get_latest_sync, latest, not_found,
}
use storetheindex.Ingest.AutoSync.{AutoSync, auto_sync_step, auto_sync}

-- What is sent, if anything
abbrev pub sent : Option ProviderInfo → List ProviderInfo
sent none = []
sent (some info) = info ∷ []

sent_removal :
    (env : Env) (r : Registry env) (id : PeerId) (info : ProviderInfo)
    → (remove_provider env r id).1 ≡ none
    → Dict.get r.providers id ≡ some info
    → (remove_provider env r id).2 ≡ some (record info { deleted = true })
unfolding remove_provider
sent_removal env r id info h known = elim (Option-cases (sync_remove_provider env r id).1) [
  | inr (x, e) ↦ absurd (cc (rw (e, remove_provider) at h))
  | inl e ↦ rw (e, remove_provider) (rw (known, remove_provider) refl)
]

-- After the removal of a provider that the registry knows, and whose publisher is valid, has reached the
-- ingester, and its datastore has not failed, nothing is left of the publisher's latest sync, so that a sync
-- would begin anew, and no sync was begun.
pub removed_is_forgotten :
    (env : Env) (o : Outside) (is : IsDatastore o) (r : Registry env) (id : PeerId)
    (info : ProviderInfo) (a : AutoSync o)
    → (remove_provider env r id).1 ≡ none
    → Dict.get r.providers id ≡ some info
    → o.valid info.publisher ≡ true
    → (o.delete a.store (latest info.publisher)).1 ≡ false
    → let a' = auto_sync o a (sent (remove_provider env r id).2) in
      (get_latest_sync o a'.store info.publisher ≡ ok 0) × (a'.begun ≡ a.begun)
unfolding remove_provider auto_sync auto_sync_step remove_publisher get_latest_sync
removed_is_forgotten env o is r id info a h known valid fine =
    let gone : o.get (o.delete a.store (latest info.publisher)).0 (latest info.publisher)
        ≡ err not_found =
      is.delete_lem a.store (latest info.publisher) (latest info.publisher) fine
      ∙ rw (==_refl info.publisher) refl in
    rw (sent_removal env r id info h known, auto_sync)
      (rw (valid, remove_publisher) (rw (gone, get_latest_sync) (refl, refl)))
