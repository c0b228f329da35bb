-- ===== src/Daemon/Config/Tests.antt =====
-- Instances for the configuration: the defaults of the program, and a file that leaves all unset.
use storetheindex.Prelude.{false, [], ◌∷◌}
use storetheindex.Prelude.Ints.{pos}
use storetheindex.Daemon.Config.{Config, new_discovery, new_indexer, new_ingest}

abbrev pub unset : Config
unset = record {
  version = 2;
  addresses = record { admin = 0; finder = 0; ingest = 0; p2p_addr = 0 };
  datastore = record { dir = 0; type_name = 0 };
  discovery = record {
    policy = record { allow = false; except = []; publish = false; publish_except = [] };
    poll_interval = pos 0;
    poll_retry_after = pos 0;
    poll_stop_after = pos 0;
    rediscover_wait = pos 0;
    timeout = pos 0;
  };
  indexer = record {
    cache_size = pos 0;
    config_check_interval = pos 0;
    gc_interval = pos 0;
    shutdown_timeout = pos 0;
    value_store_dir = 0;
    value_store_type = 0;
  };
  ingest = record {
    advertisement_depth_limit = pos 0;
    entries_depth_limit = pos 0;
    http_sync_retry_max = pos 0;
    http_sync_retry_wait_max = pos 0;
    http_sync_retry_wait_min = pos 0;
    http_sync_timeout = pos 0;
    ingest_worker_count = pos 0;
    pub_sub_topic = 0;
    rate_limit = record {
      apply = false;
      except = [];
      blocks_per_second = pos 0;
      burst_size = pos 0;
    };
    store_batch_size = pos 0;
    sync_segment_depth_limit = pos 0;
    sync_timeout = pos 0;
  };
  logging = record { level = 0; loggers = [] };
  peering = [];
}

abbrev pub defaults : Config
unfolding new_discovery new_indexer new_ingest
defaults = record unset {
  addresses = record { admin = 1; finder = 2; ingest = 3; p2p_addr = 4 };
  datastore = record { dir = 5; type_name = 6 };
  discovery = new_discovery;
  indexer = new_indexer 7 8;
  ingest = new_ingest 9;
  logging = record { level = 10; loggers = (11, 12) ∷ [] };
}
