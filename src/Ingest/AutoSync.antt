-- ===== src/Ingest/AutoSync.antt =====
-- autoSync and metricsUpdater in internal/ingest/ingest.go: what the ingester does for the entries that come
-- over the registry's sync channel, and when it measures the value store.
mod Laws
mod Tests
use storetheindex.Prelude.{
  ℕ, Bool, true, false, Option, none, some, List, [], ◌∷◌, ◌++◌, if◌then◌else◌,
}
use storetheindex.PeerPolicy.{PeerId}
use storetheindex.Registry.State.{ProviderInfo, Addr}
use storetheindex.Ingest.Store.{Outside, remove_publisher}

module _ (o : Outside) where
  -- The datastore, and the syncs that were begun, each in a goroutine of its own: the publisher, and its
  -- address if it is known.
  pub record AutoSync : Type 0 where
    pub store : o.State
    pub begun : List (PeerId × Option Addr)

  -- The body of autoSync's loop, where an error of the removal is logged
  unfoldable pub auto_sync_step : AutoSync → ProviderInfo → AutoSync
  auto_sync_step a info =
      if info.deleted
      then record a { store = (remove_publisher o a.store info.publisher).0 }
      else record a { begun = a.begun ++ ((info.publisher, info.publisher_addr) ∷ []) }

  -- autoSync, on what the registry sends
  unfoldable pub auto_sync : AutoSync → List ProviderInfo → AutoSync
  auto_sync a [] = a
  auto_sync a (info ∷ rest) = auto_sync (auto_sync_step a info) rest

-- What wakes metricsUpdater: a signal, the timer with the size that the indexer answers, none for an error,
-- or Close.
pub data Wake : Type 0 where
  signal closing : Wake
  timer : Option ℕ → Wake

-- metricsUpdater, from whether there is an update: the sizes that it records
unfoldable pub metrics_updater : Bool → List Wake → List ℕ
metrics_updater has_update [] = []
metrics_updater has_update (closing ∷ ws) = []
metrics_updater has_update (signal ∷ ws) = metrics_updater true ws
metrics_updater has_update (timer size ∷ ws) =
    let later = metrics_updater false ws in
    let waiting = metrics_updater has_update ws in
    if has_update then elim size [ none ↦ [] | some n ↦ n ∷ later ] else waiting
