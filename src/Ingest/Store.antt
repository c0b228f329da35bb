-- ===== src/Ingest/Store.antt =====
-- The marks that internal/ingest/ingest.go keeps in the datastore: which advertisements are processed,
-- and the latest one of each publisher.
pub mod Laws
use storetheindex.Prelude.{
  ℕ, ◌≡◌, Bool, true, false, Option, none, some, List, [], ◌∷◌, ◌==◌, if◌then◌else◌,
}
use storetheindex.Prelude.Result.{Result, ok, err}
use storetheindex.PeerPolicy.{PeerId}
use storetheindex.Registry.State.{Cid}

-- The keys: under adProcessedPrefix, under syncPrefix, and the key of a block. Their texts differ where
-- the keys do.
pub data Key : Type 0 where
  processed block : Cid → Key
  latest : PeerId → Key

abbrev pub same_key : Key → Key → Bool
same_key (processed c) (processed c') = c == c'
same_key (block c) (block c') = c == c'
same_key (latest p) (latest p') = p == p'
same_key _ _ = false

pub data StoreError : Type 0 where
  not_found broken : StoreError

abbrev pub Bytes : Type 0
Bytes = List ℕ

-- What the ingester calls: datastore.Batching, whose flag says that the call failed, go-cid, and the
-- subscriber's RemoveHandler, which has no result.
pub record Outside : Type 1 where
  pub State : Type 0
  pub get : State → Key → Result StoreError Bytes
  pub put : State → Key → Bytes → State × Bool
  pub delete : State → Key → State × Bool
  pub cid_bytes : Cid → Bytes
  pub cid_from_bytes : Bytes → Result StoreError Cid
  pub valid : PeerId → Bool

-- The documented effect of the calls that succeed; a deletion that fails may have happened or not.
pub record IsDatastore (o : Outside) : Type 0 where
  pub put_lem :
      (s : o.State) (k j : Key) (b : Bytes)
      → (o.put s k b).1 ≡ false
      → o.get (o.put s k b).0 j ≡ (if same_key k j then ok b else o.get s j)
  pub delete_lem :
      (s : o.State) (k j : Key)
      → (o.delete s k).1 ≡ false
      → o.get (o.delete s k).0 j ≡ (if same_key k j then err not_found else o.get s j)
  pub delete_keeps :
      (s : o.State) (k j : Key) → same_key k j ≡ false → o.get (o.delete s k).0 j ≡ o.get s j
  pub cid_from_bytes-cid_bytes : (c : Cid) → o.cid_from_bytes (o.cid_bytes c) ≡ ok c

module _ (o : Outside) where
  unfoldable pub mark_ad_unprocessed : o.State → Cid → o.State × Bool
  mark_ad_unprocessed s c = o.put s (processed c) (0 ∷ [])

  -- none is the panic of `v[0]` on an empty value
  unfoldable pub ad_already_processed : o.State → Cid → Option Bool
  ad_already_processed s c = elim (o.get s (processed c)) [
    | err e ↦ some false
    | ok [] ↦ none
    | ok (b ∷ more) ↦ some (b == 1)
  ]

  unfoldable pub mark_ad_processed : o.State → PeerId → Cid → o.State × Bool
  mark_ad_processed s publisher c =
      let (s1, failed) = o.put s (processed c) (1 ∷ []) in
      if failed
      then (s1, true)
      else o.put (o.delete s1 (block c)).0 (latest publisher) (o.cid_bytes c)

  unfoldable pub get_latest_sync : o.State → PeerId → Result StoreError Cid
  get_latest_sync s publisher = elim (o.get s (latest publisher)) [
    | err not_found ↦ ok 0
    | err broken ↦ err broken
    | ok b ↦ o.cid_from_bytes b
  ]

  unfoldable pub remove_publisher : o.State → PeerId → o.State × Bool
  remove_publisher s publisher =
      if o.valid publisher then o.delete s (latest publisher) else (s, false)
