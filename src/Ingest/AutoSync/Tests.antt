-- ===== src/Ingest/AutoSync/Tests.antt =====
-- The registry that has the provider 1 removes it.
use storetheindex.Prelude.{◌≡◌, refl, true, none, some, [], ◌∷◌}
use storetheindex.Prelude.Dict
use storetheindex.Prelude.Result.{ok}
use storetheindex.Registry.Register.{remove_provider, sync_remove_provider}
use storetheindex.Registry.Tests.{memory, one, provider}
use storetheindex.Ingest.Store.{get_latest_sync}
use storetheindex.Ingest.Tests.{datastore, datastore-IsDatastore}
use storetheindex.Ingest.AutoSync.{AutoSync, auto_sync, signal, timer, closing, metrics_updater}
use storetheindex.Ingest.AutoSync.Laws.{sent, removed_is_forgotten}

abbrev before : AutoSync datastore
before = record { store = λ k. some (7 ∷ []); begun = (2, none) ∷ [] }

removed_is_forgotten_example :
    let after = auto_sync datastore before (sent (remove_provider memory one 1).2) in
    (get_latest_sync datastore after.store 1 ≡ ok 0) × (after.begun ≡ before.begun)
unfolding remove_provider sync_remove_provider Dict.get Dict.remove
removed_is_forgotten_example =
    removed_is_forgotten memory datastore datastore-IsDatastore one 1 (provider 1 1 50) before refl
      refl refl refl

-- A size is recorded at first and after a signal only.
recorded :
    metrics_updater true
      (timer (some 4) ∷ timer (some 5) ∷ signal ∷ timer (some 6) ∷ closing ∷ timer (some 7) ∷ [])
    ≡ 4 ∷ 6 ∷ []
unfolding metrics_updater
recorded = refl
