-- ===== src/Ingest/Tests.antt =====
-- Tests and instances for internal/ingest, over simple stores and networks in memory.
use mathlib.Core.List.{flatten, reverse}
use storetheindex.Prelude.{
  ℕ, ◌≡◌, refl, Bool, true, false, not, Option, none, some, List, [], ◌∷◌, ◌++◌, ◌==◌, ◌||◌, elem,
  filter, if◌then◌else◌, arith, Bool-cases, inl, inr,
}
use storetheindex.Prelude.Result.{ok, err}
use storetheindex.PeerPolicy.{PeerId}
use storetheindex.Registry.State.{Cid}
use storetheindex.Ingest.State.{Advertisement, AdInfo, Assignment, sync_entries_err, done, fails}
use storetheindex.Ingest.Worker.{Calls, finished, ingest_worker_logic, next_after, complete}
use storetheindex.Ingest.Worker.Skips.{unprocessed, worker_lem}
use storetheindex.Ingest.Worker.Marks.{cids, worker-marks}
use storetheindex.Registry.Tests.{memory}
use storetheindex.Ingest.Ad.Tests.{notes, network, ingester}
use storetheindex.Ingest.System.{System, worker_calls, worker_calls-Marking}
use storetheindex.Ingest.Store.{
  Key, same_key, not_found, broken, Bytes, Outside, IsDatastore, mark_ad_processed,
}
use storetheindex.Ingest.Batches.{Multihash, Value, get_ad_data, index_ad_multihashes}
use storetheindex.Ingest.Batches.Laws.{IsBatches, store_all, index-IsBatches}

abbrev advertisement : ℕ → ℕ → Bool → Advertisement
advertisement entries context is_rm = record {
  provider = 1;
  addresses = [];
  entries = entries;
  context_id = context;
  metadata = 5;
  is_rm = is_rm;
}

abbrev ad_info : Cid → Advertisement → AdInfo
ad_info c ad = record { cid = c; ad = ad }

-- A worker whose state is the list of the marked advertisements, and which cannot sync the entries 9.
abbrev marked : Calls (List Cid)
marked = record {
  already_processed = λ s c. elem c s;
  mark_processed = λ s publisher c. c ∷ s;
  ingest_ad = λ s publisher c ad. (s, if ad.entries == 9 then fails sync_entries_err else done);
  notify = λ s e. s;
}

-- The advertisement 14 removes the context that 13 and 11 add; 10 is processed.
abbrev older : List AdInfo
older =
    ad_info 13 (advertisement 9 4 false)
    ∷ ad_info 12 (advertisement 2 6 false)
    ∷ ad_info 11 (advertisement 9 4 false)
    ∷ ad_info 10 (advertisement 3 4 false)
    ∷ []

abbrev chain : Assignment
chain = record { ad_infos = ad_info 14 (advertisement 0 4 true) ∷ older; publisher = 1 }

-- All are completed, though the entries of 13 and 11 cannot be had.
worker_lem_example :
    ingest_worker_logic marked (10 ∷ []) chain ≡ (14 ∷ 13 ∷ 12 ∷ 11 ∷ 10 ∷ [], finished)
unfolding next_after complete
worker_lem_example = worker_lem marked (10 ∷ []) 1 (ad_info 14 (advertisement 0 4 true)) older

-- A datastore in memory, as a function.
abbrev pub datastore : Outside
datastore = record {
  State = Key → Option Bytes;
  get = λ s k. elim (s k) [ none ↦ err not_found | some b ↦ ok b ];
  put = λ s k b. ((λ j. if same_key k j then some b else s j), false);
  delete = λ s k. ((λ j. if same_key k j then none else s j), false);
  cid_bytes = λ c. c ∷ [];
  cid_from_bytes = λ b. elim b [ [] ↦ err broken | c ∷ more ↦ ok c ];
  valid = λ p. not (p == 0);
}

pub datastore-IsDatastore : IsDatastore datastore
datastore-IsDatastore = record {
  put_lem = λ s k j b h. elim (Bool-cases (same_key k j)) [
    | inl e ↦ rw (datastore, e) refl
    | inr e ↦ rw (datastore, e) refl
  ];
  delete_lem = λ s k j h. elim (Bool-cases (same_key k j)) [
    | inl e ↦ rw (datastore, e) refl
    | inr e ↦ rw (datastore, e) refl
  ];
  delete_keeps = λ s k j e. rw (datastore, e) refl;
  cid_from_bytes-cid_bytes = λ c. refl;
}

abbrev pub empty : Key → Option Bytes
empty k = none

abbrev value : Value
value = record { provider_id = 1; context_id = 4; metadata_bytes = 5 }

index-IsBatches_example :
    (bs : List (List Multihash)) × (flatten bs ≡ filter notes.is_multihash (11 ∷ 0 ∷ 12 ∷ 13 ∷ []))
    × IsBatches 2 bs
    × (index_ad_multihashes notes 2 [] (advertisement 3 4 false) (11 ∷ 0 ∷ 12 ∷ 13 ∷ [])
        ≡ store_all notes value false [] bs)
unfolding get_ad_data
index-IsBatches_example =
    index-IsBatches notes 2 [] (advertisement 3 4 false) (11 ∷ 0 ∷ 12 ∷ 13 ∷ []) value false
      (omega arith) refl

-- The worker over the ingester's own operations, on a chain of two advertisements.
abbrev system : System memory notes network datastore
system = record { ingester = ingester; marks = empty; in_events = []; now = 60 }

abbrev calls : Calls (System memory notes network datastore)
calls = worker_calls memory notes network datastore 8

works :
    (s : datastore.State) (publisher : PeerId) (c : Cid)
    → (mark_ad_processed datastore s publisher c).1 ≡ false
unfolding mark_ad_processed
works s publisher c = refl

worker-marks_example :
    let infos = ad_info 12 (advertisement 8 6 false) ∷ ad_info 11 (advertisement 3 4 false) ∷ [] in
    let t = ingest_worker_logic calls system (record { ad_infos = infos; publisher = 1 }) in
    (left : List AdInfo) × (completed : List AdInfo) × (unprocessed calls system infos
      ≡ left ++ reverse completed)
    × ((c : Cid)
        → calls.already_processed t.0 c
          ≡ elem c (cids completed) || calls.already_processed system c)
    × (t.1 ≡ finished → left ≡ [])
worker-marks_example =
    worker-marks calls
      (worker_calls-Marking memory notes network datastore 8 datastore-IsDatastore works) system 1
      (ad_info 12 (advertisement 8 6 false)) (ad_info 11 (advertisement 3 4 false) ∷ [])
