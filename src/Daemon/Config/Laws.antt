-- ===== src/Daemon/Config/Laws.antt =====
-- What Load leaves unset: nothing, and filling in once more changes nothing.
use storetheindex.Prelude.{◌≡◌, refl, true, false, arith, inl, inr, Bool-cases}
use storetheindex.Prelude.Ints.{ℤ, pos, negsuc, is_zero, scale}
use storetheindex.Registry.State.{Text}
use storetheindex.Ingest.Sync.{RateLimit}
use storetheindex.Daemon.Config.{
  Addresses, Datastore, Discovery, Indexer, Ingest, Logging, Config, or_default, or_text,
  populate_addresses, populate_datastore, populate_discovery, populate_indexer, populate_rate_limit,
  populate_ingest, populate_logging, populate_unset, new_discovery, new_indexer, new_ingest,
}

or_default-twice : (x def : ℤ) → or_default (or_default x def) def ≡ or_default x def
or_default-twice x def = elim (Bool-cases (is_zero x)) [
  | inr set ↦ rw (set) (rw set refl)
  | inl unset ↦ rw unset (elim (Bool-cases (is_zero def)) [ inl e ↦ rw e refl | inr e ↦ rw e refl ])
]

or_text-twice : (t def : Text) → or_text (or_text t def) def ≡ or_text t def
or_text-twice t def = ground arith

populate_addresses-twice :
    (def c : Addresses)
    → populate_addresses def (populate_addresses def c) ≡ populate_addresses def c
unfolding populate_addresses
populate_addresses-twice def c =
    rw
      (
        or_text-twice c.admin def.admin,
        or_text-twice c.finder def.finder,
        or_text-twice c.ingest def.ingest,
        or_text-twice c.p2p_addr def.p2p_addr,
      )
      refl

populate_datastore-twice :
    (def c : Datastore)
    → populate_datastore def (populate_datastore def c) ≡ populate_datastore def c
unfolding populate_datastore
populate_datastore-twice def c =
    rw (or_text-twice c.dir def.dir, or_text-twice c.type_name def.type_name) refl

populate_discovery-twice :
    (def c : Discovery)
    → populate_discovery def (populate_discovery def c) ≡ populate_discovery def c
unfolding populate_discovery
populate_discovery-twice def c =
    rw
      (
        or_default-twice c.poll_interval def.poll_interval,
        or_default-twice c.poll_retry_after def.poll_retry_after,
        or_default-twice c.poll_stop_after def.poll_stop_after,
        or_default-twice c.timeout def.timeout,
      )
      refl

populate_indexer-twice :
    (def c : Indexer) → populate_indexer def (populate_indexer def c) ≡ populate_indexer def c
unfolding populate_indexer
populate_indexer-twice def c =
    rw
      (
        or_default-twice c.cache_size def.cache_size,
        or_default-twice c.config_check_interval def.config_check_interval,
        or_default-twice c.gc_interval def.gc_interval,
        or_default-twice c.shutdown_timeout def.shutdown_timeout,
        or_text-twice c.value_store_dir def.value_store_dir,
        or_text-twice c.value_store_type def.value_store_type,
      )
      refl

populate_rate_limit-twice :
    (c : RateLimit Text) → populate_rate_limit (populate_rate_limit c) ≡ populate_rate_limit c
unfolding populate_rate_limit
populate_rate_limit-twice c = rw (or_default-twice c.burst_size (scale 5 c.blocks_per_second)) refl

populate_ingest-twice :
    (def c : Ingest) → populate_ingest def (populate_ingest def c) ≡ populate_ingest def c
unfolding populate_ingest
populate_ingest-twice def c =
    rw
      (
        or_default-twice c.advertisement_depth_limit def.advertisement_depth_limit,
        or_default-twice c.entries_depth_limit def.entries_depth_limit,
        or_default-twice c.http_sync_retry_max def.http_sync_retry_max,
        or_default-twice c.http_sync_retry_wait_max def.http_sync_retry_wait_max,
        or_default-twice c.http_sync_retry_wait_min def.http_sync_retry_wait_min,
        or_default-twice c.http_sync_timeout def.http_sync_timeout,
        or_default-twice c.ingest_worker_count def.ingest_worker_count,
        or_text-twice c.pub_sub_topic def.pub_sub_topic,
        or_default-twice c.store_batch_size def.store_batch_size,
        or_default-twice c.sync_segment_depth_limit def.sync_segment_depth_limit,
        or_default-twice c.sync_timeout def.sync_timeout,
        populate_rate_limit-twice c.rate_limit,
      )
      refl

populate_logging-twice :
    (def c : Logging) → populate_logging def (populate_logging def c) ≡ populate_logging def c
unfolding populate_logging
populate_logging-twice def c = ground arith

-- What is unset is filled in once: doing it again changes nothing, whatever the defaults are.
pub populate_unset-twice :
    (def c : Config) → populate_unset def (populate_unset def c) ≡ populate_unset def c
unfolding populate_unset
populate_unset-twice def c =
    rw
      (
        populate_addresses-twice def.addresses c.addresses,
        populate_datastore-twice def.datastore c.datastore,
        populate_discovery-twice def.discovery c.discovery,
        populate_indexer-twice def.indexer c.indexer,
        populate_ingest-twice def.ingest c.ingest,
        populate_logging-twice def.logging c.logging,
      )
      refl

-- The numbers that must not be 0 for the daemon to work.
pub record IsComplete (c : Config) : Type 0 where
  pub polls :
      (is_zero c.discovery.poll_interval ≡ false)
      × (is_zero c.discovery.poll_retry_after ≡ false)
      × (is_zero c.discovery.poll_stop_after ≡ false)
  pub waits :
      (is_zero c.discovery.timeout ≡ false)
      × (is_zero c.indexer.config_check_interval ≡ false)
      × (is_zero c.indexer.shutdown_timeout ≡ false)
      × (is_zero c.ingest.sync_timeout ≡ false)
  pub works :
      (is_zero c.ingest.ingest_worker_count ≡ false)
      × (is_zero c.ingest.store_batch_size ≡ false)
      × (is_zero c.ingest.entries_depth_limit ≡ false)
      × (is_zero c.ingest.advertisement_depth_limit ≡ false)
  pub bursts :
      is_zero c.ingest.rate_limit.burst_size ≡ true
      → is_zero c.ingest.rate_limit.blocks_per_second ≡ true

or_default-set : (x def : ℤ) → is_zero def ≡ false → is_zero (or_default x def) ≡ false
or_default-set x def h = elim (Bool-cases (is_zero x)) [
  | inl unset ↦ rw unset h
  | inr set ↦ rw set set
]

zero-scale : (x : ℤ) → is_zero (scale 5 x) ≡ true → is_zero x ≡ true
zero-scale (pos n) h = ground arith
zero-scale (negsuc n) h = cc

burst_lem : (b x : ℤ) → is_zero (or_default b (scale 5 x)) ≡ true → is_zero x ≡ true
burst_lem b x h = elim (Bool-cases (is_zero b)) [
  | inl unset ↦ zero-scale x (rw unset at h)
  | inr set ↦ absurd (cc (set, rw set at h))
]

-- With the defaults of the program, no number that must not be 0 is 0 after Load has filled in what is
-- unset, whatever the file says; a burst of 0 is left only where there is no rate limit.
pub populate_unset-IsComplete :
    (def c : Config) (dir type_name topic : Text)
    → def.discovery ≡ new_discovery
    → def.indexer ≡ new_indexer dir type_name
    → def.ingest ≡ new_ingest topic
    → IsComplete (populate_unset def c)
unfolding populate_unset populate_discovery populate_indexer populate_ingest populate_rate_limit
    new_discovery new_indexer new_ingest
populate_unset-IsComplete def c dir type_name topic e f g = record {
  polls = (
    or_default-set c.discovery.poll_interval def.discovery.poll_interval (rw e refl),
    or_default-set c.discovery.poll_retry_after def.discovery.poll_retry_after (rw e refl),
    or_default-set c.discovery.poll_stop_after def.discovery.poll_stop_after (rw e refl),
  );
  waits = (
    or_default-set c.discovery.timeout def.discovery.timeout (rw e refl),
    or_default-set c.indexer.config_check_interval def.indexer.config_check_interval (rw f refl),
    or_default-set c.indexer.shutdown_timeout def.indexer.shutdown_timeout (rw f refl),
    or_default-set c.ingest.sync_timeout def.ingest.sync_timeout (rw g refl),
  );
  works = (
    or_default-set c.ingest.ingest_worker_count def.ingest.ingest_worker_count (rw g refl),
    or_default-set c.ingest.store_batch_size def.ingest.store_batch_size (rw g refl),
    or_default-set c.ingest.entries_depth_limit def.ingest.entries_depth_limit (rw g refl),
    or_default-set c.ingest.advertisement_depth_limit def.ingest.advertisement_depth_limit
        (rw g refl),
  );
  bursts = λ h. burst_lem c.ingest.rate_limit.burst_size c.ingest.rate_limit.blocks_per_second h;
}
