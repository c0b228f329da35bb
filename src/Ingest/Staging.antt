-- ===== src/Ingest/Staging.antt =====
-- The staging of assignments for the workers, and the announcements that wait, in
-- internal/ingest/ingest.go.
pub mod Laws
mod Tests
use storetheindex.Prelude.{
  ℕ, Bool, true, false, not, Option, none, some, List, [], ◌∷◌, ◌++◌, ◌&&◌, ◌==◌, elem,
  if◌then◌else◌,
}
use storetheindex.Prelude.Dict
use storetheindex.Prelude.Dict.{Dict}
use storetheindex.PeerPolicy.{PeerId}
use storetheindex.Registry.State.{Cid, Text, AddrInfo}
use storetheindex.Ingest.State.{Advertisement, AdInfo, Assignment}

-- pendingAnnounce
pub record PendingAnnounce : Type 0 where
  pub addr_info : AddrInfo
  pub next_cid : Cid

-- The fields of Ingester for the workers. `staged` is providerAdChainStaging, where some none is a
-- workerAssignment{none: true}; `to_workers` are the sends that no worker has received yet; `received`
-- the providers that a worker has received and whose assignment it has not taken; `processing` the
-- providers whose channel in providersBeingProcessed is full.
pub record Staging : Type 0 where
  pub staged : Dict (Option Assignment)
  pub to_workers : List PeerId
  pub received : List PeerId
  pub processing : List PeerId
  pub pending : Dict PendingAnnounce

-- The list without the first occurrence of an element.
abbrev pub without : PeerId → List PeerId → List PeerId
without p [] = []
without p (x ∷ xs) = let rest = without p xs in if x == p then xs else x ∷ rest

-- adsGroupedByProvider[providerID] = append(...)
abbrev pub append_ad : Dict (List AdInfo) → PeerId → AdInfo → Dict (List AdInfo)
append_ad groups p ai =
    Dict.put groups p (elim (Dict.get groups p) [ none ↦ ai ∷ [] | some l ↦ l ++ (ai ∷ []) ])

-- loadAd and peer.Decode
module _ (already : Cid → Bool) (load_ad : Cid → Option Advertisement)
    (decode : Text → Option PeerId) where
  unfoldable pub group : Dict (List AdInfo) → List Cid → Dict (List AdInfo)
  group groups [] = groups
  group groups (c ∷ cids) = elim (already c) [
    | true ↦ groups
    | false ↦ elim (load_ad c) [
      | none ↦ group groups cids
      | some ad ↦ elim (decode ad.provider) [
        | none ↦ group groups cids
        | some p ↦ group (append_ad groups p (record { cid = c; ad = ad })) cids
      ]
    ]
  ]

-- The swap of the staged assignment, and the worker that is scheduled where there was none.
unfoldable pub stage : Staging → PeerId → PeerId → List AdInfo → Staging
stage s publisher p infos =
    let assignment : Assignment = record { ad_infos = infos; publisher = publisher } in
    let staged = Dict.put s.staged p (some assignment) in
    elim (Dict.get s.staged p) [
      | none ↦ record s { staged = staged; to_workers = s.to_workers ++ (p ∷ []) }
      | some none ↦ record s { staged = staged; to_workers = s.to_workers ++ (p ∷ []) }
      | some (some old) ↦ record s { staged = staged }
    ]

unfoldable pub stage_all : Staging → PeerId → Dict (List AdInfo) → Staging
stage_all s publisher [] = s
stage_all s publisher ((p, infos) ∷ groups) = stage_all (stage s publisher p infos) publisher groups

-- runIngestStep; `order` gives the order in which Go iterates over the groups.
unfoldable pub run_ingest_step :
    (Cid → Bool)
    → (Cid → Option Advertisement)
    → (Text → Option PeerId)
    → (Dict (List AdInfo) → Dict (List AdInfo))
    → Staging
    → PeerId
    → List Cid
    → Staging
run_ingest_step already load_ad decode order s publisher cids =
    stage_all s publisher (order (group already load_ad decode [] cids))

-- ingestWorker, case provider := <-ing.toWorkers
unfoldable pub receive : Staging → Staging
receive s = elim s.to_workers [
  | [] ↦ s
  | p ∷ rest ↦ record s { to_workers = rest; received = p ∷ s.received }
]

-- `pc <- struct{}{}`, which waits while the channel is full, and the swap of ingestWorkerLogic, which
-- takes the assignment.
unfoldable pub begin : Staging → PeerId → Option (Staging × Option Assignment)
begin s p =
    if elem p s.received && not (elem p s.processing)
    then some (
      record s {
        staged = Dict.put s.staged p none;
        received = without p s.received;
        processing = p ∷ s.processing;
      },
      elim (Dict.get s.staged p) [ none ↦ none | some a ↦ a ],
    )
    else none

-- handlePendingAnnounce, with the announcement that it hands to the subscriber.
unfoldable pub handle_pending_announce : Staging → PeerId → Staging × Option PendingAnnounce
handle_pending_announce s p = (record s { pending = Dict.remove s.pending p }, Dict.get s.pending p)

-- `<-pc`
unfoldable pub release : Staging → PeerId → Staging
release s p = record s { processing = without p s.processing }

-- Announce, up to the call of the subscriber, with the announcement that it hands to it; `release`
-- follows that call.
unfoldable pub announce : Staging → Cid → AddrInfo → Staging × Option PendingAnnounce
announce s next_cid addr_info =
    let p = addr_info.id in
    let a : PendingAnnounce = record { addr_info = addr_info; next_cid = next_cid } in
    if elem p s.processing
    then (record s { pending = Dict.put s.pending p a }, none)
    else (record s { processing = p ∷ s.processing }, some a)
