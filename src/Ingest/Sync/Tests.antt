-- ===== src/Ingest/Sync/Tests.antt =====
-- Instances for the syncs: a subscriber that visits the chain 30, 29, 28 and gives its head.
use storetheindex.Prelude.{
  ℕ, ◌+◌, ◌-◌, ◌≡◌, ◌↔◌, ◌⊎◌, refl, true, false, Option, none, some, List, [], ◌∷◌, arith,
}
use storetheindex.Prelude.Ints.{pos}
use storetheindex.Registry.State.{Cid}
use storetheindex.Ingest.State.{AdProcessedEvent}
use storetheindex.Ingest.Store.{get_latest_sync}
use storetheindex.Ingest.Tests.{datastore, empty}
use storetheindex.Ingest.Sync.{
  Selector, Wake, event, cancelled, output, ended, waits, start_workers, stop_workers, sync,
  sync_selector, RateLimit, run_workers,
}
use storetheindex.Ingest.Sync.Pools.{pool_of}
use storetheindex.Ingest.Sync.Laws.{run_workers_ends, IsFinished, sync_outputs}

run_workers_ends_example : run_workers 6 1 (pool_of 6 6 0 2) ≡ waits (pool_of 2 6 (0 + (6 - 2)) 2)
run_workers_ends_example = run_workers_ends 6 1 6 6 0 2 (omega arith) (omega arith) (omega arith)

five_run : run_workers 3 5 (pool_of 2 2 0 1) ≡ ended (pool_of 5 (2 + (5 - 2)) 0 1)
unfolding run_workers start_workers stop_workers
five_run = refl

abbrev subscriber : Option Selector → List Cid × Option Cid
subscriber sel = (30 ∷ 29 ∷ 28 ∷ [], some 30)

abbrev processed_event : Cid → AdProcessedEvent
processed_event c = record { publisher = 1; head_ad_cid = 30; ad_cid = c; failed = false }

abbrev wakes : List Wake
wakes = event (processed_event 29) ∷ event (processed_event 30) ∷ cancelled ∷ []

-- cid.Undef, the latest advertisement of a publisher that has none
abbrev unprocessed : Cid
unprocessed = 0

sync_outputs_example :
    ((sync datastore empty 1 (pos 0) false subscriber wakes).1 ≡ output 30)
    ↔ (((unprocessed ≡ 30) × (false ≡ false)) ⊎ IsFinished 30 wakes)
unfolding sync_selector get_latest_sync
sync_outputs_example =
    sync_outputs datastore empty 1 (pos 0) false subscriber wakes none 0 30 refl refl refl

abbrev limits : RateLimit ℕ
limits = record { apply = true; except = 4 ∷ []; blocks_per_second = pos 100; burst_size = pos 500 }
