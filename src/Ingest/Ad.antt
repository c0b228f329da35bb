-- ===== src/Ingest/Ad.antt =====
-- ingestAd in internal/ingest/linksystem.go: the registration of the provider, and what becomes of the
-- content of one advertisement.
pub mod Laws
pub mod Tests
use storetheindex.Prelude.{
  ℕ, Bool, true, false, Option, none, some, List, [], ◌∷◌, ◌==◌, length, if◌then◌else◌,
}
use storetheindex.PeerPolicy.{PeerId}
use storetheindex.Registry.State.{Cid, Addr, Time, AddrInfo, Env, Registry, Error, panics}
use storetheindex.Registry.Update.{register_or_update}
use storetheindex.Ingest.State.{
  Advertisement, AdIngestState, indexer_err, decoding_err, malformed_err, register_provider_err,
  sync_entries_err, Outcome, done, fails, crashes,
}
use storetheindex.Ingest.Batches.{Value, Core}
use storetheindex.Ingest.Entries.{Network, ingest_chunks}
use storetheindex.Ingest.Hamt.{ingest_hamt}

-- How ingestAd ends where RegisterOrUpdate does not go well.
unfoldable pub refusal : Error → Outcome
refusal panics = crashes
refusal _ = fails register_provider_err

module _ (env : Env) (core : Core) (net : Network) where
  pub record Ingester : Type 0 where
    pub reg : Registry env
    pub indexer : core.State
    pub world : net.World
    pub batch_size : ℕ

  -- The publisher's addresses, from the HTTP peer store or else from the host's. A peer store that is
  -- there knows a peer with its ID, even without an address.
  unfoldable pub choose_info : PeerId → Option (List Addr) → Option (List Addr) → AddrInfo
  choose_info publisher (some (a ∷ addrs)) host = record { id = publisher; addrs = a ∷ addrs }
  choose_info publisher http (some addrs) = record { id = publisher; addrs = addrs }
  choose_info publisher (some []) none = record { id = publisher; addrs = [] }
  choose_info publisher none none = record { id = 0; addrs = [] }

  unfoldable pub publisher_info : net.World → PeerId → AddrInfo
  publisher_info w publisher =
      choose_info publisher (net.http_peer_info w publisher) (net.host_peer_info w publisher)

  abbrev pub in_indexer : Ingester → core.State × Bool → Ingester × Outcome
  in_indexer g (s, failed) = (record g { indexer = s }, if failed then fails indexer_err else done)

  -- The first entry tells which kind the entries are of.
  unfoldable pub ingest_entries : Ingester → PeerId → Advertisement → Ingester × Outcome
  unfolding ingest_hamt
  ingest_entries g publisher ad =
      let (w, synced) = net.sync_one g.world publisher ad.entries in
      elim synced [
        | none ↦ (record g { world = w }, fails sync_entries_err)
        | some first ↦ elim (net.load_node w first) [
          | none ↦ (record g { world = w }, fails indexer_err)
          | some node ↦
              let (s', w', outcome) =
                if net.lookup_hamt node
                then ingest_hamt core net g.batch_size publisher ad g.indexer w first
                else ingest_chunks core net g.batch_size publisher ad g.indexer w first in
              (record g { indexer = s'; world = w' }, outcome)
        ]
      ]

  -- What follows a registration that went well. `no_entries` is schema.NoEntries, and 0 cid.Undef.
  unfoldable pub ingest_content :
      Cid → Ingester → PeerId → PeerId → Advertisement → Ingester × Outcome
  unfolding ingest_entries
  ingest_content no_entries g publisher provider ad =
      if ad.is_rm
      then in_indexer g (core.remove_provider_context g.indexer provider ad.context_id)
      else if ad.entries == no_entries
      then in_indexer g (
          core.put g.indexer
            (record {
              provider_id = provider;
              context_id = ad.context_id;
              metadata_bytes = ad.metadata;
            })
            [])
      else if ad.entries == 0
      then (g, fails malformed_err)
      else ingest_entries g publisher ad

  unfoldable pub ingest_ad :
      Cid → Ingester → Time → PeerId → Cid → Advertisement → Ingester × Outcome
  unfolding ingest_content
  ingest_ad no_entries g now publisher c ad = elim (core.decode_peer ad.provider) [
    | none ↦ (g, fails decoding_err)
    | some provider ↦
        let (reg, error) =
          register_or_update env g.reg now provider ad.addresses c
            (publisher_info g.world publisher) in
        let g' = record g { reg = reg } in
        elim error [
          | some e ↦ (g', refusal e)
          | none ↦ ingest_content no_entries g' publisher provider ad
        ]
  ]
