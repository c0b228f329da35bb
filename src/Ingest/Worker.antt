-- ===== src/Ingest/Worker.antt =====
-- ingestWorkerLogic in internal/ingest/ingest.go, over the operations that it calls.
pub mod Skips
pub mod Marks
use storetheindex.Prelude.{
  ℕ, zero, suc, Bool, true, false, Option, none, some, List, [], ◌∷◌, elem, ◌==◌, if◌then◌else◌,
}
use storetheindex.PeerPolicy.{PeerId}
use storetheindex.Registry.State.{Cid}
use storetheindex.Ingest.State.{
  Advertisement, AdInfo, Assignment, AdIngestState, indexer_err, decoding_err, malformed_err,
  register_provider_err, sync_entries_err, content_not_found, entry_chunk_err, Outcome, done, fails,
  crashes, AdProcessedEvent,
}

-- What the worker calls: adAlreadyProcessed, markAdProcessed, whose error it only logs, ingestAd, and
-- the send to inEvents.
pub record Calls (S : Type 0) : Type 0 where
  pub already_processed : S → Cid → Bool
  pub mark_processed : S → PeerId → Cid → S
  pub ingest_ad : S → PeerId → Cid → Advertisement → S × Outcome
  pub notify : S → AdProcessedEvent → S

pub data Status : Type 0 where
  finished bailed panicked : Status

-- The errors that the worker drops, since a retry would meet them again.
unfoldable pub permanent : AdIngestState → Bool
permanent decoding_err = true
permanent malformed_err = true
permanent entry_chunk_err = true
permanent content_not_found = true
permanent _ = false

-- Whether the worker goes on to the next advertisement.
pub data Next : Type 0 where
  goes_on bails dies : Next

unfoldable pub next_after : Outcome → Next
next_after done = goes_on
next_after (fails state) = if permanent state then goes_on else bails
next_after crashes = dies

-- assignment.adInfos[i], the newest first
abbrev pub get_ad : List AdInfo → ℕ → Option AdInfo
get_ad [] i = none
get_ad (ai ∷ rest) zero = some ai
get_ad (ai ∷ rest) (suc i) = get_ad rest i

-- `i == skip`, where the -1 of the source is none
abbrev pub is_skip : ℕ → Option ℕ → Bool
is_skip i none = false
is_skip i (some k) = i == k

-- rmCtxID, the stack `skips` with its top first, and `skip`
pub record Scan : Type 0 where
  pub rm_ctx_id : List ℕ
  pub skips : List (Option ℕ)
  pub skip : Option ℕ

-- One round of the filter loop, for an advertisement that is not processed.
unfoldable pub scan_ad : Scan → ℕ → Advertisement → Scan
scan_ad c i ad =
    if elem ad.context_id c.rm_ctx_id
    then record c { skips = c.skip ∷ c.skips; skip = some i }
    else if ad.is_rm
    then record c { rm_ctx_id = ad.context_id ∷ c.rm_ctx_id }
    else c

module _ {S : Type 0} (calls : Calls S) where
  -- The filter loop, the newest first: where it stops, and the skips that it found.
  unfoldable pub scan : S → List AdInfo → ℕ → Scan → ℕ × Scan
  unfolding scan_ad
  scan s [] i c = (i, c)
  scan s (ai ∷ rest) i c = elim (calls.already_processed s ai.cid) [
    | true ↦ (i, c)
    | false ↦ scan s rest (suc i) (scan_ad c i ai.ad)
  ]

  module _ (publisher : PeerId) (head : Cid) where
    abbrev pub event : Cid → Bool → AdProcessedEvent
    event ad failed = record {
      publisher = publisher;
      head_ad_cid = head;
      ad_cid = ad;
      failed = failed;
    }

    -- The advertisement is marked as processed, and those that wait for it are told.
    unfoldable pub complete : S → Cid → S
    complete s ad = calls.notify (calls.mark_processed s publisher ad) (event ad false)

    -- The processing loop: `n` advertisements are left, and the oldest of them comes first.
    unfoldable pub process : List AdInfo → ℕ → S → List (Option ℕ) → Option ℕ → S × Status
    unfolding complete next_after permanent
    process infos zero s skips skip = (s, finished)
    process infos (suc i) s skips skip = elim (get_ad infos i) [
      | none ↦ (s, panicked)
      | some ai ↦ elim (is_skip i skip) [
        | true ↦ elim skips [
          | [] ↦ (s, panicked)
          | top ∷ more ↦ process infos i (complete s ai.cid) more top
        ]
        | false ↦
            let (s', outcome) = calls.ingest_ad s publisher ai.cid ai.ad in
            elim (next_after outcome) [
              | goes_on ↦ process infos i (complete s' ai.cid) skips skip
              | bails ↦ (calls.notify s' (event ai.cid true), bailed)
              | dies ↦ (s', panicked)
            ]
      ]
    ]

  -- ingestWorkerLogic, on the assignment that it took from the staging area. Its log line reads
  -- adInfos[0] before the loop, which panics without an advertisement.
  unfoldable pub ingest_worker_logic : S → Assignment → S × Status
  unfolding scan process
  ingest_worker_logic s a = elim a.ad_infos [
    | [] ↦ (s, panicked)
    | head ∷ older ↦
        let (n, c) = scan s a.ad_infos 0 (record { rm_ctx_id = []; skips = []; skip = none }) in
        process a.publisher head.cid a.ad_infos n s c.skips c.skip
  ]
