-- ===== src/Ingest/Ad/Tests.antt =====
-- Instances for ingestAd: a network that serves one chunk, and an indexer that notes its calls.
use storetheindex.Prelude.{
  ℕ, ◌≡◌, refl, false, not, none, some, List, [], ◌∷◌, ◌==◌, elem, if◌then◌else◌,
}
use storetheindex.Registry.State.{Cid}
use storetheindex.Registry.Tests.{memory, one}
use storetheindex.Ingest.State.{Advertisement, done}
use storetheindex.Ingest.Batches.{
  Multihash, Core, get_ad_data, store_batch, index_loop, index_ad_multihashes,
}
use storetheindex.Ingest.Entries.{ends, Network, ingest_entry_chunk, ingest_block, ingest_chunks}
use storetheindex.Ingest.Entries.Owned.{Owned}
use storetheindex.Ingest.Ad.{Ingester, ingest_entries, ingest_content, ingest_ad}
use storetheindex.Ingest.Ad.Laws.{ingest_ad-Owned}

abbrev pub notes : Core
notes = record {
  State = List (List Multihash);
  put = λ s v b. (b ∷ s, elem 99 b);
  remove = λ s v b. (b ∷ s, false);
  remove_provider_context = λ s p c. ((c ∷ []) ∷ s, false);
  is_multihash = λ m. not (m == 0);
  decode_peer = λ t. if t == 0 then none else some t;
}

-- Every entry is a chunk with the multihashes 21 and 22 and no next chunk; the world lists what was
-- deleted.
abbrev pub network : Network
network = record {
  World = List Cid;
  Node = Unit {0};
  Hamt = Unit {0};
  http_peer_info = λ w p. none;
  host_peer_info = λ w p. some [];
  sync_one = λ w p c. (w, some c);
  sync_all = λ w p c. (w, c ∷ [], false);
  sync_entries = λ w p c. ends none;
  load_node = λ w c. some tt;
  lookup_hamt = λ n. false;
  load_entry_chunk = λ w c. some (record { entries = 21 ∷ 22 ∷ []; next = none });
  load_hamt = λ w c. none;
  links = λ h. [];
  iterate = λ w h. [];
  delete = λ w c. c ∷ w;
}

abbrev pub ingester : Ingester memory notes network
ingester = record { reg = one; indexer = []; world = []; batch_size = 2 }

abbrev advertisement : ℕ → Advertisement
advertisement provider = record {
  provider = provider;
  addresses = [];
  entries = 3;
  context_id = 4;
  metadata = 5;
  is_rm = false;
}

-- The chunk of an advertisement is stored and then deleted.
ingests_chunk :
    ingest_content memory notes network 8 ingester 1 1 (advertisement 1)
    ≡ (record ingester { indexer = (21 ∷ 22 ∷ []) ∷ []; world = 3 ∷ [] }, done)
unfolding ingest_content ingest_entries ingest_chunks ingest_block ingest_entry_chunk
    index_ad_multihashes get_ad_data index_loop store_batch
ingests_chunk = refl

ingest_ad-Owned_example :
    Owned notes 1 4 []
      (ingest_ad memory notes network 8 ingester 60 1 77 (advertisement 1)).0.indexer
ingest_ad-Owned_example =
    ingest_ad-Owned memory notes network 8 1 1 (advertisement 1) refl ingester 60 77
