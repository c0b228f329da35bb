-- ===== src/Ingest/System.antt =====
-- The worker of internal/ingest/ingest.go over the ingester's own operations: the marks in the
-- datastore, ingestAd and the events. Marks and blocks have different keys, and stand apart here.
use storetheindex.Prelude.{
  ◌≡◌, refl, Bool, false, Option, none, some, List, [], ◌∷◌, ◌++◌, ◌==◌, Bool-cases, inl, inr,
}
use storetheindex.PeerPolicy.{PeerId}
use storetheindex.Registry.State.{Cid, Time, Env}
use storetheindex.Ingest.State.{AdProcessedEvent}
use storetheindex.Ingest.Worker.{Calls}
use storetheindex.Ingest.Worker.Marks.{Marking}
use storetheindex.Ingest.Store.{Outside, IsDatastore, ad_already_processed, mark_ad_processed}
use storetheindex.Ingest.Store.Laws.{mark_processed_lem}
use storetheindex.Ingest.Batches.{Core}
use storetheindex.Ingest.Entries.{Network}
use storetheindex.Ingest.Ad.{Ingester, ingest_ad}

module _ (env : Env) (core : Core) (net : Network) (o : Outside) where
  pub record System : Type 0 where
    pub ingester : Ingester env core net
    pub marks : o.State
    pub in_events : List AdProcessedEvent
    pub now : Time

  -- An empty mark, which nothing writes, would be a panic.
  abbrev pub is_set : Option Bool → Bool
  is_set none = false
  is_set (some b) = b

  -- `no_entries` is schema.NoEntries
  unfoldable pub worker_calls : Cid → Calls System
  worker_calls no_entries = record {
    already_processed = λ s c. is_set (ad_already_processed o s.marks c);
    mark_processed =
        λ s publisher c. record s { marks = (mark_ad_processed o s.marks publisher c).0 };
    ingest_ad = λ s publisher c ad.
        let (g, outcome) = ingest_ad env core net no_entries s.ingester s.now publisher c ad in
        (record s { ingester = g }, outcome);
    notify = λ s e. record s { in_events = s.in_events ++ (e ∷ []) };
  }

  -- Over a datastore whose marking does not fail, the marks are those that the worker makes.
  pub worker_calls-Marking :
      (no_entries : Cid)
      → IsDatastore o
      → ((s : o.State) (publisher : PeerId) (c : Cid)
          → (mark_ad_processed o s publisher c).1 ≡ false)
      → Marking (worker_calls no_entries)
  unfolding worker_calls
  worker_calls-Marking no_entries laws works = record {
    mark_adds = λ s publisher ad c.
        let marked =
          (mark_processed_lem o laws s.marks publisher ad (works s.marks publisher ad)).0 c in
        rw marked (elim (Bool-cases (ad == c)) [ inl e ↦ rw e refl | inr e ↦ rw e refl ]);
    notify_keeps = λ s e c. refl;
    ingest_keeps = λ s publisher c ad c'. refl;
  }
