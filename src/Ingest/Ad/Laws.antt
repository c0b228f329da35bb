-- ===== src/Ingest/Ad/Laws.antt =====
-- What ingesting one advertisement may change.
use storetheindex.Prelude.{
  ◌≡◌, refl, sym, ◌∙◌, true, Option, some, [], ◌==◌, if◌then◌else◌, if_both, Bool-cases,
  Option-cases, inl, inr,
}
use storetheindex.PeerPolicy.{PeerId}
use storetheindex.Registry.State.{Cid, Time, Env, Registry, ProviderInfo, Error, panics}
use storetheindex.Prelude.Dict
use storetheindex.Registry.Register.{provider_info}
use storetheindex.Registry.Register.Laws.{IsAdmitted}
use storetheindex.Registry.Update.{register_or_update}
use storetheindex.Registry.Update.Laws.{IsUpdate, is_new, register_or_update_ok}
use storetheindex.Ingest.State.{Advertisement, Outcome, done}
use storetheindex.Ingest.Batches.{Core}
use storetheindex.Ingest.Entries.{Network}
use storetheindex.Ingest.Entries.Owned.{
  Owned, stays, puts, removes_context, ingest_chunks-Owned, ingest_hamt-Owned,
}
use storetheindex.Ingest.Ad.{
  Ingester, publisher_info, refusal, ingest_entries, ingest_content, ingest_ad,
}

not_done : (e : Error) → ¬ (refusal e ≡ done)
unfolding refusal
not_done panics h = cc
not_done e h = cc

module _ (env : Env) (core : Core) (net : Network) (no_entries : Cid) (publisher provider : PeerId)
    (ad : Advertisement) (is_provider : core.decode_peer ad.provider ≡ some provider) where
  entries-Owned :
      (g : Ingester env core net)
      → Owned core provider ad.context_id g.indexer
          (ingest_entries env core net g publisher ad).0.indexer
  unfolding ingest_entries
  entries-Owned g = elim (Option-cases (net.sync_one g.world publisher ad.entries).1) [
    | inl e ↦ rw (e, ingest_entries) stays
    | inr (first, e) ↦
        let w = (net.sync_one g.world publisher ad.entries).0 in
        elim (Option-cases (net.load_node w first)) [
          | inl f ↦ rw (e, ingest_entries) (rw f stays)
          | inr (node, f) ↦ elim (Bool-cases (net.lookup_hamt node)) [
            | inl h ↦
                rw (e, ingest_entries)
                  (rw (f, h)
                    (ingest_hamt-Owned core net g.batch_size publisher provider ad is_provider
                      g.indexer g.indexer w first stays))
            | inr h ↦
                rw (e, ingest_entries)
                  (rw (f, h)
                    (ingest_chunks-Owned core net g.batch_size publisher provider ad is_provider
                      g.indexer g.indexer w first stays))
          ]
        ]
  ]

  content-Owned :
      (g : Ingester env core net)
      → Owned core provider ad.context_id g.indexer
          (ingest_content env core net no_entries g publisher provider ad).0.indexer
  unfolding ingest_content
  content-Owned g = if_both Keeps ad.is_rm (removes_context stays) (
      if_both Keeps (ad.entries == no_entries) (puts ad.metadata [] stays)
        (if_both Keeps (ad.entries == 0) stays (entries-Owned g)))
    where
      Keeps : Ingester env core net × Outcome → Type 0
      Keeps t = Owned core provider ad.context_id g.indexer t.0.indexer

  abbrev registered : Ingester env core net → Time → Cid → Registry env × Option Error
  registered g now c =
      register_or_update env g.reg now provider ad.addresses c
        (publisher_info env core net g.world publisher)

  -- Ingesting an advertisement of a provider, whatever its outcome, changes the indexer by calls for
  -- that provider and the advertisement's context alone; the publisher and the network have no say.
  pub ingest_ad-Owned :
      (g : Ingester env core net) (now : Time) (c : Cid)
      → Owned core provider ad.context_id g.indexer
          (ingest_ad env core net no_entries g now publisher c ad).0.indexer
  unfolding ingest_ad
  ingest_ad-Owned g now c = elim (Option-cases (registered g now c).1) [
    | inl e ↦
        rw (is_provider, ingest_ad)
          (rw e (content-Owned (record g { reg = (registered g now c).0 })))
    | inr (error, e) ↦ rw (is_provider, ingest_ad) (rw e stays)
  ]

  -- Where the registry refuses the provider, nothing is stored or fetched: the indexer and the world
  -- stay, and the outcome is an error that the worker tries again, or a panic.
  pub ingest_ad_refused :
      (g : Ingester env core net) (now : Time) (c : Cid) (error : Error)
      → (register_or_update env g.reg now provider ad.addresses c
          (publisher_info env core net g.world publisher)).1
        ≡ some error
      → let t = ingest_ad env core net no_entries g now publisher c ad in
        (t.0.indexer ≡ g.indexer) × (t.0.world ≡ g.world) × (t.1 ≡ refusal error)
  unfolding ingest_ad
  ingest_ad_refused g now c error e = rw (is_provider, ingest_ad) (rw e (refl, refl, refl))

  entries-reg :
      (g : Ingester env core net) → (ingest_entries env core net g publisher ad).0.reg ≡ g.reg
  unfolding ingest_entries
  entries-reg g = elim (Option-cases (net.sync_one g.world publisher ad.entries).1) [
    | inl e ↦ rw (e, ingest_entries) refl
    | inr (first, e) ↦
        elim (Option-cases (net.load_node (net.sync_one g.world publisher ad.entries).0 first)) [
          | inl f ↦ rw (e, ingest_entries) (rw f refl)
          | inr (node, f) ↦ rw (e, ingest_entries) (rw f refl)
        ]
  ]

  content-reg :
      (g : Ingester env core net)
      → (ingest_content env core net no_entries g publisher provider ad).0.reg ≡ g.reg
  unfolding ingest_content
  content-reg g = if_both Keeps ad.is_rm refl (
      if_both Keeps (ad.entries == no_entries) refl
        (if_both Keeps (ad.entries == 0) refl (entries-reg g)))
    where
      Keeps : Ingester env core net × Outcome → Type 0
      Keeps t = t.0.reg ≡ g.reg

  -- An advertisement that is ingested without an error leaves its provider registered, as
  -- RegisterOrUpdate does with the advertisement's addresses, its CID and the publisher's addresses; the
  -- policy admitted the entry where the provider was not known or the publisher is new.
  pub ingest_ad_done :
      (g : Ingester env core net) (now : Time) (c : Cid)
      → (ingest_ad env core net no_entries g now publisher c ad).1 ≡ done
      → let old = provider_info env g.reg provider in
        let from = publisher_info env core net g.world publisher in
        (info : ProviderInfo) × IsUpdate env old now provider ad.addresses c from info
        × (is_new env old from ≡ true → IsAdmitted env g.reg info)
        × ((k : PeerId)
            → Dict.get (ingest_ad env core net no_entries g now publisher c ad).0.reg.providers k
              ≡ (if provider == k then some info else Dict.get g.reg.providers k))
  unfolding ingest_ad
  ingest_ad_done g now c h = elim (Option-cases (registered g now c).1) [
    | inr (error, e) ↦ absurd (not_done error (sym ((ingest_ad_refused g now c error e).2) ∙ h))
    | inl e ↦
        rw (is_provider, ingest_ad)
          (rw (e, content-reg (record g { reg = (registered g now c).0 }))
            (register_or_update_ok env g.reg now provider ad.addresses c _ e))
  ]
