-- ===== src/Ingest/State.antt =====
-- The data of internal/ingest: advertisements, the outcome of one, and the events of the worker.
use storetheindex.Prelude.{ℕ, Bool, List}
use storetheindex.PeerPolicy.{PeerId}
use storetheindex.Registry.State.{Cid, Text}

-- schema.Advertisement, but for its link to the previous one and its signature. Context IDs and
-- metadata are opaque; the entries' link is its CID.
pub record Advertisement : Type 0 where
  pub provider : Text
  pub addresses : List Text
  pub entries : Cid
  pub context_id : ℕ
  pub metadata : ℕ
  pub is_rm : Bool

pub record AdInfo : Type 0 where
  pub cid : Cid
  pub ad : Advertisement

-- workerAssignment, where it is one
pub record Assignment : Type 0 where
  pub ad_infos : List AdInfo
  pub publisher : PeerId

-- adIngestState
pub data AdIngestState : Type 0 where
  indexer_err decoding_err malformed_err register_provider_err : AdIngestState
  sync_entries_err content_not_found entry_chunk_err : AdIngestState

-- How ingestAd ends: without an error, with an adIngestError, or in a panic.
pub data Outcome : Type 0 where
  done : Outcome
  fails : AdIngestState → Outcome
  crashes : Outcome

pub record AdProcessedEvent : Type 0 where
  pub publisher : PeerId
  pub head_ad_cid : Cid
  pub ad_cid : Cid
  pub failed : Bool
