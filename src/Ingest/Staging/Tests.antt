-- ===== src/Ingest/Staging/Tests.antt =====
-- Instances for the staging: two syncs of a chain, and a worker.
use storetheindex.Prelude.{
  ◌+◌, ◌≤◌, ◌≡◌, refl, Bool, false, Option, some, List, [], ◌∷◌, ◌==◌, if◌then◌else◌,
}
use storetheindex.Prelude.Dict
use storetheindex.Prelude.Dict.{Dict}
use storetheindex.PeerPolicy.{PeerId}
use storetheindex.Registry.State.{Cid, Text, AddrInfo}
use storetheindex.Registry.Discovery.Laws.{count}
use storetheindex.Ingest.State.{Advertisement, AdInfo}
use storetheindex.Ingest.Staging.{Staging, group, stage, stage_all, run_ingest_step, receive}
use storetheindex.Ingest.Staging.Laws.{here, next, stages, receives, new_staging, Reach-Scheduled}

-- The advertisement of a CID is of the provider 1 below 10 and of the provider 2 from there on.
abbrev load_ad : Cid → Option Advertisement
load_ad c = some (record {
  provider = if c == 10 then 2 else 1;
  addresses = [];
  entries = 3;
  context_id = 4;
  metadata = 5;
  is_rm = false;
})

abbrev decode : Text → Option PeerId
decode t = some t

abbrev fresh : Cid → Bool
fresh c = false

abbrev as_inserted : Dict (List AdInfo) → Dict (List AdInfo)
as_inserted groups = groups

abbrev once : Staging
once = run_ingest_step fresh load_ad decode as_inserted new_staging 7 (10 ∷ 8 ∷ [])

abbrev twice : Staging
twice = run_ingest_step fresh load_ad decode as_inserted (receive once) 7 (11 ∷ 10 ∷ 8 ∷ [])

-- The second sync replaces what is staged and schedules nobody.
schedules_once : (twice.to_workers ≡ 1 ∷ []) × (twice.received ≡ 2 ∷ [])
unfolding run_ingest_step receive stage stage_all group Dict.get Dict.put
schedules_once = (refl, refl)

Reach-Scheduled_example :
    (count 1 twice.to_workers + count 1 twice.received ≡ 1) × (count 1 twice.processing ≤ 1)
unfolding run_ingest_step receive stage stage_all group Dict.get Dict.put
Reach-Scheduled_example = Reach-Scheduled twice 1 (
    next (next (next here (stages fresh load_ad decode as_inserted 7 (10 ∷ 8 ∷ []))) receives)
      (stages fresh load_ad decode as_inserted 7 (11 ∷ 10 ∷ 8 ∷ [])))

-- A worker has the provider 1.
abbrev at_work : Staging
at_work = record new_staging { processing = 1 ∷ [] }

abbrev peer : AddrInfo
peer = record { id = 1; addrs = 100 ∷ [] }
