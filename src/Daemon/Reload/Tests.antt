-- ===== src/Daemon/Reload/Tests.antt =====
-- Instances for the reload: a daemon with two workers, and a configuration for five.
use storetheindex.Prelude.{arith, ℕ, refl, Bool, true, Option, some}
use storetheindex.Prelude.Ints.{pos}
use storetheindex.PeerPolicy.{PeerId}
use storetheindex.Registry.Tests.{policy}
use storetheindex.Ingest.Sync.{no_rate}
use storetheindex.Ingest.Sync.Pools.{pool_of}
use storetheindex.Daemon.Config.{Logging, Config}
use storetheindex.Daemon.Config.Tests.{unset}
use storetheindex.Daemon.Reload.{Ingester, Daemon, reload_config}
use storetheindex.Daemon.Reload.Laws.{Outcome, reload_lem}

abbrev decode : ℕ → Option PeerId
decode t = some t

abbrev set_logging : Logging → Bool
set_logging l = true

-- The configuration names the datastore type 6.
abbrev five : Config
five = record unset {
  datastore = record { dir = 5; type_name = 6 };
  ingest = record unset.ingest { ingest_worker_count = pos 5 };
}

abbrev ingester : Ingester
ingester = record { rate = no_rate; batch_size = 4096; pool = pool_of 2 2 0 1 }

abbrev daemon : Daemon
daemon = record { policy = policy; ingester = some ingester; cfg = some unset }

reload_lem_example :
    Outcome decode 6 set_logging daemon ingester five 5
      (reload_config decode 6 set_logging daemon (some five))
reload_lem_example = reload_lem decode 6 set_logging daemon ingester five 5 refl refl (omega arith)
