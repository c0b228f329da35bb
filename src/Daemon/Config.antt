-- ===== src/Daemon/Config.antt =====
-- The sections of the configuration in config/ that have defaults, and how Load fills in what is unset. A
-- text is an opaque name and 0 the empty one; durations are nanoseconds.
pub mod Laws
pub mod Tests
use storetheindex.Prelude.{ℕ, Bool, true, false, List, [], ◌∷◌, ◌==◌, if◌then◌else◌}
use storetheindex.Prelude.Ints.{ℤ, pos, is_zero, scale}
use storetheindex.Registry.State.{Text}
use storetheindex.Registry.Policy
use storetheindex.Ingest.Sync.{RateLimit}

pub record Addresses : Type 0 where
  pub admin : Text
  pub finder : Text
  pub ingest : Text
  pub p2p_addr : Text

pub record Datastore : Type 0 where
  pub dir : Text
  pub type_name : Text

pub record Discovery : Type 0 where
  pub policy : Policy.Config Text
  pub poll_interval : ℤ
  pub poll_retry_after : ℤ
  pub poll_stop_after : ℤ
  pub rediscover_wait : ℤ
  pub timeout : ℤ

pub record Indexer : Type 0 where
  pub cache_size : ℤ
  pub config_check_interval : ℤ
  pub gc_interval : ℤ
  pub shutdown_timeout : ℤ
  pub value_store_dir : Text
  pub value_store_type : Text

pub record Ingest : Type 0 where
  pub advertisement_depth_limit : ℤ
  pub entries_depth_limit : ℤ
  pub http_sync_retry_max : ℤ
  pub http_sync_retry_wait_max : ℤ
  pub http_sync_retry_wait_min : ℤ
  pub http_sync_timeout : ℤ
  pub ingest_worker_count : ℤ
  pub pub_sub_topic : Text
  pub rate_limit : RateLimit Text
  pub store_batch_size : ℤ
  pub sync_segment_depth_limit : ℤ
  pub sync_timeout : ℤ

-- The loggers are a list of names and levels.
pub record Logging : Type 0 where
  pub level : Text
  pub loggers : List (Text × Text)

pub record Config : Type 0 where
  pub version : ℕ
  pub addresses : Addresses
  pub datastore : Datastore
  pub discovery : Discovery
  pub indexer : Indexer
  pub ingest : Ingest
  pub logging : Logging
  pub peering : List Text

-- if x == 0 { x = def }, and for a text
abbrev pub or_default : ℤ → ℤ → ℤ
or_default x def = if is_zero x then def else x

abbrev pub or_text : Text → Text → Text
or_text t def = if t == 0 then def else t

abbrev pub is_empty_list {ℓ} : {A : Type ℓ} → List A → Bool
is_empty_list [] = true
is_empty_list (x ∷ xs) = false

unfoldable pub populate_addresses : Addresses → Addresses → Addresses
populate_addresses def c = record {
  admin = or_text c.admin def.admin;
  finder = or_text c.finder def.finder;
  ingest = or_text c.ingest def.ingest;
  p2p_addr = or_text c.p2p_addr def.p2p_addr;
}

unfoldable pub populate_datastore : Datastore → Datastore → Datastore
populate_datastore def c = record {
  dir = or_text c.dir def.dir;
  type_name = or_text c.type_name def.type_name;
}

-- The wait before a rediscovery may be 0.
unfoldable pub populate_discovery : Discovery → Discovery → Discovery
populate_discovery def c = record c {
  poll_interval = or_default c.poll_interval def.poll_interval;
  poll_retry_after = or_default c.poll_retry_after def.poll_retry_after;
  poll_stop_after = or_default c.poll_stop_after def.poll_stop_after;
  timeout = or_default c.timeout def.timeout;
}

unfoldable pub populate_indexer : Indexer → Indexer → Indexer
populate_indexer def c = record {
  cache_size = or_default c.cache_size def.cache_size;
  config_check_interval = or_default c.config_check_interval def.config_check_interval;
  gc_interval = or_default c.gc_interval def.gc_interval;
  shutdown_timeout = or_default c.shutdown_timeout def.shutdown_timeout;
  value_store_dir = or_text c.value_store_dir def.value_store_dir;
  value_store_type = or_text c.value_store_type def.value_store_type;
}

-- RateLimit.populateUnset
unfoldable pub populate_rate_limit : RateLimit Text → RateLimit Text
populate_rate_limit c = record c {
  burst_size = or_default c.burst_size (scale 5 c.blocks_per_second);
}

unfoldable pub populate_ingest : Ingest → Ingest → Ingest
unfolding populate_rate_limit
populate_ingest def c = record {
  advertisement_depth_limit = or_default c.advertisement_depth_limit def.advertisement_depth_limit;
  entries_depth_limit = or_default c.entries_depth_limit def.entries_depth_limit;
  http_sync_retry_max = or_default c.http_sync_retry_max def.http_sync_retry_max;
  http_sync_retry_wait_max = or_default c.http_sync_retry_wait_max def.http_sync_retry_wait_max;
  http_sync_retry_wait_min = or_default c.http_sync_retry_wait_min def.http_sync_retry_wait_min;
  http_sync_timeout = or_default c.http_sync_timeout def.http_sync_timeout;
  ingest_worker_count = or_default c.ingest_worker_count def.ingest_worker_count;
  pub_sub_topic = or_text c.pub_sub_topic def.pub_sub_topic;
  rate_limit = populate_rate_limit c.rate_limit;
  store_batch_size = or_default c.store_batch_size def.store_batch_size;
  sync_segment_depth_limit = or_default c.sync_segment_depth_limit def.sync_segment_depth_limit;
  sync_timeout = or_default c.sync_timeout def.sync_timeout;
}

unfoldable pub populate_logging : Logging → Logging → Logging
populate_logging def c =
    if c.level == 0
    then record {
      level = def.level;
      loggers = if is_empty_list c.loggers then def.loggers else c.loggers;
    }
    else c

-- Config.populateUnset
unfoldable pub populate_unset : Config → Config → Config
unfolding populate_addresses populate_datastore populate_discovery populate_indexer populate_ingest
    populate_logging
populate_unset def c = record c {
  addresses = populate_addresses def.addresses c.addresses;
  datastore = populate_datastore def.datastore c.datastore;
  discovery = populate_discovery def.discovery c.discovery;
  indexer = populate_indexer def.indexer c.indexer;
  ingest = populate_ingest def.ingest c.ingest;
  logging = populate_logging def.logging c.logging;
}

-- The defaults of the sections with numbers, with their texts as arguments.
abbrev pub second : ℤ → ℤ
second x = scale 1000000000 x

abbrev pub minute : ℤ → ℤ
minute x = scale 60 (second x)

abbrev pub hour : ℤ → ℤ
hour x = scale 60 (minute x)

-- NewRateLimit
unfoldable pub new_rate_limit : RateLimit Text
new_rate_limit = record {
  apply = false;
  except = [];
  blocks_per_second = pos 100;
  burst_size = pos 500;
}

-- NewDiscovery
unfoldable pub new_discovery : Discovery
new_discovery = record {
  policy = record { allow = true; except = []; publish = true; publish_except = [] };
  poll_interval = hour (pos 24);
  poll_retry_after = hour (pos 5);
  poll_stop_after = scale 7 (hour (pos 24));
  rediscover_wait = minute (pos 5);
  timeout = minute (pos 2);
}

-- NewIndexer
unfoldable pub new_indexer : Text → Text → Indexer
new_indexer dir type_name = record {
  cache_size = pos 300000;
  config_check_interval = second (pos 30);
  gc_interval = minute (pos 30);
  shutdown_timeout = second (pos 10);
  value_store_dir = dir;
  value_store_type = type_name;
}

-- NewIngest
unfoldable pub new_ingest : Text → Ingest
unfolding new_rate_limit
new_ingest topic = record {
  advertisement_depth_limit = pos 33554432;
  entries_depth_limit = pos 65536;
  http_sync_retry_max = pos 4;
  http_sync_retry_wait_max = second (pos 30);
  http_sync_retry_wait_min = second (pos 1);
  http_sync_timeout = second (pos 10);
  ingest_worker_count = pos 10;
  pub_sub_topic = topic;
  rate_limit = new_rate_limit;
  store_batch_size = pos 4096;
  sync_segment_depth_limit = pos 2000;
  sync_timeout = hour (pos 2);
}
