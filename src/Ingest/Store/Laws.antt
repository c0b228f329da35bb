-- ===== src/Ingest/Store/Laws.antt =====
-- What marking an advertisement changes in the datastore, and what it keeps.
use storetheindex.Prelude.{◌≡◌, refl, true, false, some, [], ◌∷◌, ◌==◌, if◌then◌else◌, arith}
use storetheindex.Prelude.Result.{ok}
use storetheindex.PeerPolicy.{PeerId}
use storetheindex.Registry.State.{Cid}
use storetheindex.Ingest.Store.{
  Key, processed, block, latest, same_key, Outside, IsDatastore, mark_ad_unprocessed,
  ad_already_processed, mark_ad_processed, get_latest_sync, remove_publisher,
}

module _ (o : Outside) (laws : IsDatastore o) where
  mark_processed-get :
      (s : o.State) (publisher : PeerId) (c : Cid) (j : Key)
      → (mark_ad_processed o s publisher c).1 ≡ false
      → same_key (block c) j ≡ false
      → o.get (mark_ad_processed o s publisher c).0 j ≡ (
          if same_key (latest publisher) j
          then ok (o.cid_bytes c)
          else if same_key (processed c) j
          then ok (1 ∷ [])
          else o.get s j)
  unfolding mark_ad_processed
  mark_processed-get s publisher c j h other =
      let s1 = o.put s (processed c) (1 ∷ []) in
      let s2 = o.delete s1.0 (block c) in
      let first = laws.put_lem s (processed c) j (1 ∷ []) in
      let second = laws.delete_keeps s1.0 (block c) j other in
      let third = laws.put_lem s2.0 (latest publisher) j (o.cid_bytes c) in
      ground (arith, first, second, third)

  -- An advertisement that is marked without an error is processed and is its publisher's latest one; no
  -- other mark and no other publisher's latest one changes.
  pub mark_processed_lem :
      (s : o.State) (publisher : PeerId) (c : Cid)
      → (mark_ad_processed o s publisher c).1 ≡ false
      → let t = (mark_ad_processed o s publisher c).0 in
        ((c' : Cid)
          → ad_already_processed o t c'
            ≡ (if c == c' then some true else ad_already_processed o s c'))
        × ((p : PeerId)
            → get_latest_sync o t p ≡ (if publisher == p then ok c else get_latest_sync o s p))
  unfolding ad_already_processed get_latest_sync
  mark_processed_lem s publisher c h = (
    (λ c'.
        rw (ad_already_processed, mark_processed-get s publisher c (processed c') h refl)
          (ground arith)),
    (λ p.
        rw (get_latest_sync, mark_processed-get s publisher c (latest p) h refl)
          (ground (arith, laws.cid_from_bytes-cid_bytes c))),
  )

  -- An advertisement that is marked as unprocessed without an error is not processed, and nothing else
  -- changes.
  pub mark_unprocessed_lem :
      (s : o.State) (c : Cid)
      → (mark_ad_unprocessed o s c).1 ≡ false
      → let t = (mark_ad_unprocessed o s c).0 in
        ((c' : Cid)
          → ad_already_processed o t c'
            ≡ (if c == c' then some false else ad_already_processed o s c'))
        × ((p : PeerId) → get_latest_sync o t p ≡ get_latest_sync o s p)
  unfolding mark_ad_unprocessed ad_already_processed get_latest_sync
  mark_unprocessed_lem s c h = (
    (λ c'.
        rw (ad_already_processed, laws.put_lem s (processed c) (processed c') (0 ∷ []) h)
          (ground arith)),
    (λ p. rw (get_latest_sync, laws.put_lem s (processed c) (latest p) (0 ∷ []) h) refl),
  )

  -- Removing a publisher without an error resets the latest advertisement of a valid publisher alone,
  -- and keeps every mark.
  pub remove_publisher_lem :
      (s : o.State) (publisher : PeerId)
      → (remove_publisher o s publisher).1 ≡ false
      → let t = (remove_publisher o s publisher).0 in
        ((c : Cid) → ad_already_processed o t c ≡ ad_already_processed o s c)
        × ((p : PeerId)
            → get_latest_sync o t p ≡ (
                if o.valid publisher
                then if publisher == p then ok 0 else get_latest_sync o s p
                else get_latest_sync o s p))
  unfolding remove_publisher ad_already_processed get_latest_sync
  remove_publisher_lem s publisher h = (
    (λ c. let e = laws.delete_keeps s (latest publisher) (processed c) refl in ground (arith, e)),
    (λ p. let e = laws.delete_lem s (latest publisher) (latest p) in ground (arith, e)),
  )
