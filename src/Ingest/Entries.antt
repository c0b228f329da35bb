-- ===== src/Ingest/Entries.antt =====
-- The entries of an advertisement in ingestAd of internal/ingest/linksystem.go: a chain of entry chunks
-- (ingestEntryChunk and the block hook) or a HAMT.
pub mod Owned
use storetheindex.Prelude.{
  ℕ, zero, suc, Bool, true, false, not, Option, none, some, List, [], ◌∷◌, ◌++◌, ◌==◌, leb, length,
  if◌then◌else◌,
}
use storetheindex.PeerPolicy.{PeerId}
use storetheindex.Registry.State.{Cid, Addr}
use storetheindex.Ingest.State.{
  Advertisement, AdIngestState, indexer_err, malformed_err, sync_entries_err, content_not_found,
  entry_chunk_err, Outcome, done, fails,
}
use storetheindex.Ingest.Batches.{Multihash, Core, index_ad_multihashes}

-- schema.EntryChunk
pub record EntryChunk : Type 0 where
  pub entries : List Multihash
  pub next : Option Cid

-- Whether the text of the error of a sync contains "datatransfer failed: content not found".
pub data SyncError : Type 0 where
  not_found other : SyncError

-- One sync with a block hook, of go-legs: it brings blocks into the world one after another and calls
-- the hook on each, whose answer, the next CID to sync, it may follow; then it ends. A sync whose hook
-- fails it ends there with an error.
pub data Session (World : Type 0) : Type 0 where
  ends : Option SyncError → Session World
  delivers : Cid → (World → World) → (Cid → Session World) → Session World

-- What the iterator of a HAMT gives: an error, a key that is no string, or a key.
pub data Step : Type 0 where
  broken not_string : Step
  key : Multihash → Step

-- What ingestAd calls: the blocks of the datastore and their decoding, the peer stores, the syncs of
-- go-legs, and go-ipld-adl-hamt. `lookup_hamt` is whether LookupByString("hamt") finds a node.
pub record Network : Type 1 where
  pub World : Type 0
  pub Node : Type 0
  pub Hamt : Type 0
  pub http_peer_info : World → PeerId → Option (List Addr)
  pub host_peer_info : World → PeerId → Option (List Addr)
  pub sync_one : World → PeerId → Cid → World × Option Cid
  pub sync_all : World → PeerId → Cid → World × List Cid × Bool
  pub sync_entries : World → PeerId → Cid → Session World
  pub load_node : World → Cid → Option Node
  pub lookup_hamt : Node → Bool
  pub load_entry_chunk : World → Cid → Option EntryChunk
  pub load_hamt : World → Cid → Option Hamt
  pub links : Hamt → List Cid
  pub iterate : World → Hamt → List Step
  pub delete : World → Cid → World

module _ (core : Core) (net : Network) (size : ℕ) (publisher : PeerId) (ad : Advertisement) where
  -- The deferred deletion comes last, error or not.
  unfoldable pub ingest_entry_chunk :
      core.State → net.World → Cid → EntryChunk → core.State × net.World × Bool
  ingest_entry_chunk s w c chunk =
      let (s', failed) = index_ad_multihashes core size s ad chunk.entries in
      (s', net.delete w c, failed)

  -- loadEntryChunk and then ingestEntryChunk. The answer has the chunk, if it was read, and whether
  -- either failed.
  unfoldable pub ingest_block :
      core.State → net.World → Cid → core.State × net.World × Option EntryChunk × Bool
  unfolding ingest_entry_chunk
  ingest_block s w c = elim (net.load_entry_chunk w c) [
    | none ↦ (s, w, none, true)
    | some chunk ↦
        let (s', w', failed) = ingest_entry_chunk s w c chunk in (s', w', some chunk, failed)
  ]

  -- The CID that follows a chunk, 0 for cid.Undef.
  abbrev pub next_cid : Option EntryChunk → Cid
  next_cid none = 0
  next_cid (some chunk) = elim chunk.next [ none ↦ 0 | some c ↦ c ]

  abbrev pub sync_state : SyncError → AdIngestState
  sync_state not_found = content_not_found
  sync_state other = sync_entries_err

  -- The sync of the remaining chunks, with the block hook. `first_failed` is whether the list of errors
  -- has one already.
  unfoldable pub sync_chunks :
      Bool → core.State → net.World → Session net.World → core.State × net.World × Outcome
  sync_chunks first_failed s w (ends (some e)) = (s, w, fails (sync_state e))
  sync_chunks first_failed s w (ends none) =
      (s, w, if first_failed then fails entry_chunk_err else done)
  sync_chunks first_failed s w (delivers c brings more) =
      let (s', w', chunk, failed) = ingest_block s (brings w) c in
      elim failed [
        | true ↦ (s', w', fails sync_entries_err)
        | false ↦ sync_chunks first_failed s' w' (more (next_cid chunk))
      ]

  unfoldable pub ingest_chunks : core.State → net.World → Cid → core.State × net.World × Outcome
  ingest_chunks s w first =
      let (s', w', chunk, failed) = ingest_block s w first in
      elim chunk [
        | none ↦ (s', w', fails entry_chunk_err)
        | some chunk ↦ elim chunk.next [
          | none ↦ (s', w', if failed then fails entry_chunk_err else done)
          | some next ↦ sync_chunks failed s' w' (net.sync_entries w' publisher next)
        ]
      ]
