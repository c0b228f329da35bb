-- ===== src/Daemon/Reload.antt =====
-- reloadConfig and the loop of the daemon in command/daemon.go, as to the configuration: SetPolicy of
-- the registry, SetRateLimit, SetBatchSize and RunWorkers of the ingester. What Load gives, and whether
-- the log levels can be set, come from outside.
pub mod Laws
mod Tests
use storetheindex.Prelude.{
  ℕ, suc, ◌+◌, ◌-◌, ◌%◌, ◌^◌, Bool, true, false, not, ◌&&◌, Option, none, some, List, [], ◌∷◌, ◌==◌,
  if◌then◌else◌,
}
use storetheindex.Prelude.Ints.{ℤ, pos, negsuc}
use storetheindex.Prelude.Result.{Result, ok, err}
use storetheindex.PeerPolicy.{PeerId}
use storetheindex.Registry.State.{Text}
use storetheindex.Registry.Policy.{Policy, new, copy}
use storetheindex.Ingest.Sync.{
  Rate, Pool, Ran, ended, waits, unfinished, set_rate_limit, run_workers,
}
use storetheindex.Daemon.Config.{Logging, Config}

-- The fields of the Ingester that are configured.
pub record Ingester : Type 0 where
  pub rate : Rate
  pub batch_size : ℕ
  pub pool : Pool

-- The policy of the registry, the ingester if there is one, and the variable `cfg`, where none is nil.
pub record Daemon : Type 0 where
  pub policy : Policy
  pub ingester : Option Ingester
  pub cfg : Option Config

pub data Error : Type 0 where
  cannot_load bad_datastore bad_policy bad_rate_limit bad_logging : Error

-- How reloadConfig ends; `hangs` is a wait of RunWorkers for a worker that takes the
-- signal to stop, where none does.
pub data Reloaded : Type 0 where
  reloaded : Config → Reloaded
  failed : Error → Reloaded
  hangs : Reloaded

-- Ingester.SetBatchSize, by uint32, and BatchSize
unfoldable pub batch_size_of : ℤ → ℕ
batch_size_of (pos n) = n % 2 ^ 32
batch_size_of (negsuc n) = 2 ^ 32 - 1 - n % 2 ^ 32

-- peer.Decode, the text "levelds", and setLoggingConfig, whose result says whether it worked.
module _ (decode : Text → Option PeerId) (levelds : Text) (set_logging : Logging → Bool) where
  -- The part of reloadConfig for the ingester: its error, or none and whether it returns at all. The
  -- workers that run and those that shall run are rounds enough. For a negative number RunWorkers stops
  -- the workers that it can, as for none, and then waits for another one.
  unfoldable pub reload_ingester : Ingester → Config → Ingester × Option Error × Bool
  reload_ingester i cfg =
      let (rate, e) = set_rate_limit decode i.rate cfg.ingest.rate_limit in
      elim e [
        | some x ↦ (i, some bad_rate_limit, true)
        | none ↦
            let i' = record i {
              rate = rate;
              batch_size = batch_size_of cfg.ingest.store_batch_size;
            } in
            elim cfg.ingest.ingest_worker_count [
              | negsuc n ↦ elim (run_workers i.pool.size 0 i.pool) [
                | ended pool ↦ (record i' { pool = pool }, none, false)
                | waits pool ↦ (record i' { pool = pool }, none, false)
                | unfinished ↦ (i', none, false)
              ]
              | pos n ↦ elim (run_workers (n + i.pool.size) n i.pool) [
                | ended pool ↦ (record i' { pool = pool }, none, true)
                | waits pool ↦ (record i' { pool = pool }, none, false)
                | unfinished ↦ (i', none, false)
              ]
            ]
      ]

  reload_logging : Daemon → Config → Daemon × Reloaded
  reload_logging d cfg = (d, if set_logging cfg.logging then reloaded cfg else failed bad_logging)

  -- reloadConfig on what config.Load gives, with the checks of loadConfig
  unfoldable pub reload_config : Daemon → Option Config → Daemon × Reloaded
  unfolding reload_ingester reload_logging
  reload_config d loaded = elim loaded [
    | none ↦ (d, failed cannot_load)
    | some cfg ↦
        if not (cfg.datastore.type_name == levelds)
        then (d, failed bad_datastore)
        else elim (new decode cfg.discovery.policy) [
          | err e ↦ (d, failed bad_policy)
          | ok p ↦
              let d' = record d { policy = copy d.policy p } in
              elim d.ingester [
                | none ↦ reload_logging d' cfg
                | some i ↦
                    let (i', e, returns) = reload_ingester i cfg in
                    let d'' = record d' { ingester = some i' } in
                    elim e [
                      | some x ↦ (d'', failed x)
                      | none ↦ elim returns [ false ↦ (d'', hangs) | true ↦ reload_logging d'' cfg ]
                    ]
              ]
        ]
  ]

  -- What wakes the daemon: its end, by a signal or by a server that failed, and a reload, where a client
  -- may wait for the answer.
  pub data Event : Type 0 where
    ends : Event
    reloads : Bool → Option Config → Event

  -- How the daemon is left: running, shut down, waiting for ever, or by a nil pointer.
  pub data End : Type 0 where
    running stopped stuck panics : End

  -- The loop of daemonCommand, and the shutdown, which reads cfg.Indexer. `host` is whether there is a
  -- p2p host, for which the loop reads cfg.Peering; the peering service itself is outside.
  unfoldable pub daemon_loop : Bool → Daemon → List Event → End
  unfolding reload_config
  daemon_loop host d [] = running
  daemon_loop host d (ends ∷ es) = elim d.cfg [ none ↦ panics | some cfg ↦ stopped ]
  daemon_loop host d (reloads asked loaded ∷ es) = elim d.cfg [
    | none ↦ panics
    | some cfg ↦
        let (d', r) = reload_config d loaded in
        elim r [
          | hangs ↦ stuck
          | reloaded cfg' ↦ daemon_loop host (record d' { cfg = some cfg' }) es
          | failed e ↦
              if host && not asked then panics else daemon_loop host (record d' { cfg = none }) es
        ]
  ]
