-- ===== src/Ingest/Hamt.antt =====
-- The HAMT path of ingestAd in internal/ingest/linksystem.go.
use storetheindex.Prelude.{
  ℕ, Bool, true, false, none, some, List, [], ◌∷◌, ◌++◌, ◌==◌, leb, length, if◌then◌else◌,
}
use storetheindex.PeerPolicy.{PeerId}
use storetheindex.Registry.State.{Cid}
use storetheindex.Ingest.State.{
  Advertisement, indexer_err, malformed_err, sync_entries_err, Outcome, done, fails,
}
use storetheindex.Ingest.Batches.{Multihash, Core, index_ad_multihashes}
use storetheindex.Ingest.Entries.{Step, broken, not_string, key, Network}

module _ (core : Core) (net : Network) (size : ℕ) (publisher : PeerId) (ad : Advertisement) where
  -- The sync of the links of the root, with the CIDs that the block hook gathers.
  unfoldable pub sync_links : net.World → List Cid → List Cid → net.World × List Cid × Bool
  sync_links w [] gathered = (w, gathered, false)
  sync_links w (c ∷ more) gathered =
      let (w', brought, failed) = net.sync_all w publisher c in
      elim failed [
        | true ↦ (w', gathered ++ brought, true)
        | false ↦ sync_links w' more (gathered ++ brought)
      ]

  abbrev pub index_keys : core.State → List Multihash → core.State × Outcome
  index_keys s mhs =
      let (s', failed) = index_ad_multihashes core size s ad mhs in
      (s', if failed then fails indexer_err else done)

  -- The loop over the keys, which indexes them as soon as there are as many as the batch size.
  unfoldable pub iterate_keys : core.State → List Step → List Multihash → core.State × Outcome
  iterate_keys s [] mhs = if length mhs == 0 then (s, done) else index_keys s mhs
  iterate_keys s (broken ∷ more) mhs = (s, fails indexer_err)
  iterate_keys s (not_string ∷ more) mhs = (s, fails malformed_err)
  iterate_keys s (key k ∷ more) mhs =
      let mhs' = mhs ++ (k ∷ []) in
      elim (leb size (length mhs')) [
        | false ↦ iterate_keys s more mhs'
        | true ↦
            let (s', failed) = index_ad_multihashes core size s ad mhs' in
            elim failed [ true ↦ (s', fails indexer_err) | false ↦ iterate_keys s' more [] ]
      ]

  abbrev pub delete_all : net.World → List Cid → net.World
  delete_all w [] = w
  delete_all w (c ∷ more) = delete_all (net.delete w c) more

  -- The gathered blocks are deleted at the end, whatever the outcome.
  unfoldable pub ingest_hamt : core.State → net.World → Cid → core.State × net.World × Outcome
  unfolding sync_links iterate_keys
  ingest_hamt s w root = elim (net.load_hamt w root) [
    | none ↦ (s, delete_all w (root ∷ []), fails indexer_err)
    | some hamt ↦
        let (w', gathered, failed) = sync_links w (net.links hamt) (root ∷ []) in
        elim failed [
          | true ↦ (s, delete_all w' gathered, fails sync_entries_err)
          | false ↦
              let (s', outcome) = iterate_keys s (net.iterate w' hamt) [] in
              (s', delete_all w' gathered, outcome)
        ]
  ]
