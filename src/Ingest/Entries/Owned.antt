-- ===== src/Ingest/Entries/Owned.antt =====
-- What the entries of an advertisement may change in the indexer: values of one provider and one
-- context.
use storetheindex.Prelude.{
  ℕ, ◌≡◌, Bool, none, some, List, [], ◌∷◌, ◌++◌, ◌==◌, leb, length, Bool-cases, Option-cases, inl,
  inr,
}
use storetheindex.PeerPolicy.{PeerId}
use storetheindex.Registry.State.{Cid}
use storetheindex.Ingest.State.{Advertisement}
use storetheindex.Ingest.Batches.{
  Multihash, Value, Core, get_ad_data, store_batch, index_loop, index_ad_multihashes,
}
use storetheindex.Ingest.Entries.{
  Session, ends, delivers, Step, broken, not_string, key, Network, ingest_entry_chunk, ingest_block,
  sync_chunks, ingest_chunks,
}
use storetheindex.Ingest.Hamt.{iterate_keys, ingest_hamt, sync_links}

-- The states that the indexer reaches by calls for one provider and one context.
pub data Owned (core : Core) (provider : PeerId) (context : ℕ)
    : core.State → core.State → Type 0 where
  stays : {s : core.State} → Owned core provider context s s
  puts :
      {s t : core.State} (metadata : ℕ) (mhs : List Multihash)
      → Owned core provider context s t
      → Owned core provider context s
          (core.put t
            (record { provider_id = provider; context_id = context; metadata_bytes = metadata })
            mhs).0
  removes :
      {s t : core.State} (metadata : ℕ) (mhs : List Multihash)
      → Owned core provider context s t
      → Owned core provider context s
          (core.remove t
            (record { provider_id = provider; context_id = context; metadata_bytes = metadata })
            mhs).0
  removes_context :
      {s t : core.State}
      → Owned core provider context s t
      → Owned core provider context s (core.remove_provider_context t provider context).0

module _ (core : Core) (s : core.State) where
  module _ (size : ℕ) (provider : PeerId) (context metadata : ℕ) (is_rm : Bool) where
    abbrev value : Value
    value = record { provider_id = provider; context_id = context; metadata_bytes = metadata }

    store_batch-Owned :
        (t : core.State) (b : List Multihash)
        → Owned core provider context s t
        → Owned core provider context s (store_batch core t value b is_rm).0
    unfolding store_batch
    store_batch-Owned t b o = elim (Bool-cases is_rm) [
      | inl e ↦ rw e (removes metadata b o)
      | inr e ↦ rw e (puts metadata b o)
    ]

    index_loop-Owned :
        (mhs batch : List Multihash) (t : core.State)
        → Owned core provider context s t
        → Owned core provider context s (index_loop core size value is_rm t mhs batch).0
    unfolding index_loop
    index_loop-Owned [] batch t o = elim (Bool-cases (length batch == 0)) [
      | inl e ↦ rw (e, index_loop) o
      | inr e ↦ rw (e, index_loop) (store_batch-Owned t batch o)
    ]
    index_loop-Owned (entry ∷ mhs) batch t o = elim (Bool-cases (core.is_multihash entry)) [
      | inr e ↦ rw (e, index_loop) (index_loop-Owned mhs batch t o)
      | inl e ↦ elim (Bool-cases (length (batch ++ (entry ∷ [])) == size)) [
        | inr f ↦ rw (e, index_loop) (rw f (index_loop-Owned mhs (batch ++ (entry ∷ [])) t o))
        | inl f ↦
            let stored = store_batch-Owned t (batch ++ (entry ∷ [])) o in
            elim (Bool-cases (store_batch core t value (batch ++ (entry ∷ [])) is_rm).1) [
              | inl g ↦ rw (e, index_loop) (rw f (rw g stored))
              | inr g ↦ rw (e, index_loop) (rw f (rw g (index_loop-Owned mhs [] _ stored)))
            ]
      ]
    ]

module _ (core : Core) (net : Network) (size : ℕ) (publisher provider : PeerId) (ad : Advertisement)
    (is_provider : core.decode_peer ad.provider ≡ some provider) (s : core.State) where
  abbrev pub Reaches : core.State → Type 0
  Reaches = Owned core provider ad.context_id s

  index-Owned :
      (mhs : List Multihash) (t : core.State)
      → Reaches t
      → Reaches (index_ad_multihashes core size t ad mhs).0
  unfolding index_ad_multihashes get_ad_data
  index-Owned mhs t o =
      rw (is_provider, index_ad_multihashes, get_ad_data)
        (index_loop-Owned core s size provider ad.context_id ad.metadata ad.is_rm mhs [] t o)

  ingest_block-Owned :
      (t : core.State) (w : net.World) (c : Cid)
      → Reaches t
      → Reaches (ingest_block core net size publisher ad t w c).0
  unfolding ingest_block ingest_entry_chunk
  ingest_block-Owned t w c o = elim (Option-cases (net.load_entry_chunk w c)) [
    | inl e ↦ rw (e, ingest_block) o
    | inr (chunk, e) ↦ rw (e, ingest_block) (index-Owned chunk.entries t o)
  ]

  sync_chunks-Owned :
      (b : Bool) (run : Session net.World) (t : core.State) (w : net.World)
      → Reaches t
      → Reaches (sync_chunks core net size publisher ad b t w run).0
  unfolding sync_chunks
  sync_chunks-Owned b (ends none) t w o = o
  sync_chunks-Owned b (ends (some e)) t w o = o
  sync_chunks-Owned b (delivers c brings more) t w o =
      let o' = ingest_block-Owned t (brings w) c o in
      elim (Bool-cases (ingest_block core net size publisher ad t (brings w) c).3) [
        | inl e ↦ rw (e, sync_chunks) o'
        | inr e ↦ rw (e, sync_chunks) (sync_chunks-Owned b (more _) _ _ o')
      ]

  pub ingest_chunks-Owned :
      (t : core.State) (w : net.World) (c : Cid)
      → Reaches t
      → Reaches (ingest_chunks core net size publisher ad t w c).0
  unfolding ingest_chunks
  ingest_chunks-Owned t w c o =
      let o' = ingest_block-Owned t w c o in
      elim (Option-cases (ingest_block core net size publisher ad t w c).2) [
        | inl e ↦ rw (e, ingest_chunks) o'
        | inr (chunk, e) ↦ elim (Option-cases chunk.next) [
          | inl f ↦ rw (e, ingest_chunks) (rw f o')
          | inr (next, f) ↦ rw (e, ingest_chunks) (rw f (sync_chunks-Owned _ _ _ _ o'))
        ]
      ]

  iterate_keys-Owned :
      (steps : List Step) (mhs : List Multihash) (t : core.State)
      → Reaches t
      → Reaches (iterate_keys core net size publisher ad t steps mhs).0
  unfolding iterate_keys
  iterate_keys-Owned [] mhs t o = elim (Bool-cases (length mhs == 0)) [
    | inl e ↦ rw (e, iterate_keys) o
    | inr e ↦ rw (e, iterate_keys) (index-Owned mhs t o)
  ]
  iterate_keys-Owned (broken ∷ more) mhs t o = o
  iterate_keys-Owned (not_string ∷ more) mhs t o = o
  iterate_keys-Owned (key k ∷ more) mhs t o =
      let o' = index-Owned (mhs ++ (k ∷ [])) t o in
      elim (Bool-cases (leb size (length (mhs ++ (k ∷ []))))) [
        | inr e ↦ rw (e, iterate_keys) (iterate_keys-Owned more (mhs ++ (k ∷ [])) t o)
        | inl e ↦ elim (Bool-cases (index_ad_multihashes core size t ad (mhs ++ (k ∷ []))).1) [
          | inl f ↦ rw (e, iterate_keys) (rw f o')
          | inr f ↦ rw (e, iterate_keys) (rw f (iterate_keys-Owned more [] _ o'))
        ]
      ]

  pub ingest_hamt-Owned :
      (t : core.State) (w : net.World) (c : Cid)
      → Reaches t
      → Reaches (ingest_hamt core net size publisher ad t w c).0
  unfolding ingest_hamt
  ingest_hamt-Owned t w c o = elim (Option-cases (net.load_hamt w c)) [
    | inl e ↦ rw (e, ingest_hamt) o
    | inr (hamt, e) ↦
        elim (Bool-cases (sync_links core net size publisher ad w (net.links hamt) (c ∷ [])).2) [
          | inl f ↦ rw (e, ingest_hamt) (rw f o)
          | inr f ↦ rw (e, ingest_hamt) (rw f (iterate_keys-Owned _ [] t o))
        ]
  ]
