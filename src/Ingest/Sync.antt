-- ===== src/Ingest/Sync.antt =====
-- Explicit syncs, rate limits and the pool of workers, in internal/ingest/ingest.go, and the handler of
-- the latest sync in synchandler.go. The subscriber of go-legs is an argument: what it visits with the
-- block hook, and the head that it synced, if it has one.
pub mod Pools
pub mod Laws
mod Tests
use storetheindex.Prelude.{
  ℕ, zero, suc, ◌-◌, Bool, true, false, not, ◌&&◌, ◌||◌, Option, none, some, List, [], ◌∷◌, ltb,
  leb, ◌==◌, if◌then◌else◌, ◌>>=◌,
}
use storetheindex.Prelude.Ints.{ℤ, pos, negsuc, is_negative, is_zero}
use storetheindex.Prelude.Result.{Result, ok, err}
use storetheindex.PeerPolicy
use storetheindex.PeerPolicy.{PeerId, new_policy_strings, eval}
use storetheindex.Registry.State.{Cid}
use storetheindex.Ingest.State.{AdProcessedEvent}
use storetheindex.Ingest.Store.{Outside, StoreError, get_latest_sync, mark_ad_unprocessed}

-- recursionLimit, where none is no limit
unfoldable pub recursion_limit : ℤ → Option ℕ
recursion_limit (negsuc n) = none
recursion_limit (pos n) = if n == 0 then none else some n

-- ExploreRecursiveWithStopNode over AdSequence
pub record Selector : Type 0 where
  pub limit : Option ℕ
  pub stop_at : Option Cid

-- What wakes the loop of Sync: an event from its channel, the context, or Close.
pub data Wake : Type 0 where
  event : AdProcessedEvent → Wake
  cancelled closing : Wake

-- How the goroutine of Sync ends: with a CID on its channel or without, or not yet.
pub data SyncEnd : Type 0 where
  output : Cid → SyncEnd
  nothing waits : SyncEnd

-- An event that ends the wait for a head
unfoldable pub finishes : Cid → AdProcessedEvent → Bool
finishes c e = (e.ad_cid == c) || e.failed && (e.head_ad_cid == c)

-- The loop of Sync
unfoldable pub wait_for : Cid → List Wake → SyncEnd
unfolding finishes
wait_for c [] = waits
wait_for c (event e ∷ ws) = let rest = wait_for c ws in if finishes c e then output c else rest
wait_for c (w ∷ ws) = nothing

-- generalLegsBlockHook, over loadAd as the link of an advertisement to the previous one: the next CID
-- to sync, where none fails the sync.
unfoldable pub general_legs_block_hook : (Cid → Option (Option Cid)) → Cid → Option Cid
general_legs_block_hook load_previous c = elim (load_previous c) [
  | none ↦ none
  | some none ↦ some 0
  | some (some previous) ↦ some previous
]

module _ (o : Outside) where
  -- makeLimitedDepthSelector
  unfoldable pub make_limited_depth_selector :
      o.State → PeerId → ℤ → Bool → Result StoreError Selector
  unfolding recursion_limit
  make_limited_depth_selector s p depth resync =
      if resync
      then ok (record { limit = recursion_limit depth; stop_at = none })
      else elim (get_latest_sync o s p) [
        | err e ↦ err e
        | ok latest ↦ ok (record {
          limit = recursion_limit depth;
          stop_at = if latest == 0 then none else some latest;
        })
      ]

  -- The selector of Sync, where none is the subscriber's default
  unfoldable pub sync_selector : o.State → PeerId → ℤ → Bool → Result StoreError (Option Selector)
  unfolding make_limited_depth_selector
  sync_selector s p depth resync =
      if not (is_zero depth) || resync
      then elim (make_limited_depth_selector s p depth resync) [
        | err e ↦ err e
        | ok sel ↦ ok (some sel)
      ]
      else ok none

  -- The scoped block hook of a resync, on the blocks that are visited: its errors are logged.
  unfoldable pub mark_all_unprocessed : o.State → List Cid → o.State
  mark_all_unprocessed s [] = s
  mark_all_unprocessed s (c ∷ cs) = mark_all_unprocessed (mark_ad_unprocessed o s c).0 cs

  -- The goroutine of Sync
  unfoldable pub sync :
      o.State
      → PeerId
      → ℤ
      → Bool
      → (Option Selector → List Cid × Option Cid)
      → List Wake
      → o.State × SyncEnd
  unfolding sync_selector mark_all_unprocessed wait_for
  sync s p depth resync subscriber wakes = elim (sync_selector s p depth resync) [
    | err e ↦ (s, nothing)
    | ok sel ↦ elim (get_latest_sync o s p) [
      | err e ↦ (s, nothing)
      | ok latest ↦
          let (blocks, head) = subscriber sel in
          let s' = if resync then mark_all_unprocessed s blocks else s in
          elim head [
            | none ↦ (s', nothing)
            | some c ↦
                if (latest == c) && not resync then (s', output c) else (s', wait_for c wakes)
          ]
    ]
  ]

  -- Ingester.Sync: none is the error of an invalid peer.
  unfoldable pub start_sync :
      o.State
      → PeerId
      → ℤ
      → Bool
      → (Option Selector → List Cid × Option Cid)
      → List Wake
      → Option (o.State × SyncEnd)
  unfolding sync
  start_sync s p depth resync subscriber wakes =
      if o.valid p then some (sync s p depth resync subscriber wakes) else none

  -- syncHandler.GetLatestSync
  unfoldable pub handler_get_latest_sync : o.State → PeerId → Option Cid
  handler_get_latest_sync s p = elim (get_latest_sync o s p) [ err e ↦ none | ok c ↦ some c ]

-- config.RateLimit
pub record RateLimit (Text : Type 0) : Type 0 where
  pub apply : Bool
  pub except : List Text
  pub blocks_per_second : ℤ
  pub burst_size : ℤ

-- rateApply, rateBurst and rateLimit of the Ingester; the policy of its zero value allows nobody.
pub record Rate : Type 0 where
  pub apply : PeerPolicy.Policy
  pub burst : ℤ
  pub limit : ℤ

pub data RateError : Type 0 where
  bad_blocks_per_second bad_burst_size bad_peers : RateError

abbrev pub no_rate : Rate
no_rate = record { apply = record { value = false; except = [] }; burst = pos 0; limit = pos 0 }

-- configRateLimit
unfoldable pub config_rate_limit :
    {Text : Type 0} → (Text → Option PeerId) → RateLimit Text → Result RateError Rate
config_rate_limit decode cfg =
    if is_zero cfg.blocks_per_second
    then ok no_rate
    else if is_negative cfg.blocks_per_second
    then err bad_blocks_per_second
    else if is_negative cfg.burst_size
    then err bad_burst_size
    else elim (new_policy_strings decode cfg.apply cfg.except) [
      | none ↦ err bad_peers
      | some apply ↦
          ok (record { apply = apply; burst = cfg.burst_size; limit = cfg.blocks_per_second })
    ]

-- SetRateLimit, with the error that it returns
unfoldable pub set_rate_limit :
    {Text : Type 0} → (Text → Option PeerId) → Rate → RateLimit Text → Rate × Option RateError
unfolding config_rate_limit
set_rate_limit decode rate cfg = elim (config_rate_limit decode cfg) [
  | err e ↦ (rate, some e)
  | ok r ↦ (r, none)
]

-- getRateLimiter: the limit and the burst, or none for the infinite limiter
unfoldable pub get_rate_limiter : Rate → PeerId → Option (ℤ × ℤ)
get_rate_limiter rate publisher =
    if is_zero rate.limit || not (eval rate.apply publisher)
    then none
    else some (rate.limit, rate.burst)

-- workerPoolSize, with the workers that RunWorkers has started and stopped; `stuck` of those that run never
-- come back to the select of ingestWorker, where a worker takes the signal to stop.
pub record Pool : Type 0 where
  pub size : ℕ
  pub started : ℕ
  pub stopped : ℕ
  pub stuck : ℕ

-- How RunWorkers goes on: it ends, it waits for ever, or it has used up its fuel.
pub data Ran : Type 0 where
  ended waits : Pool → Ran
  unfinished : Ran

-- The first loop of RunWorkers, on fuel: none is a loop that has not ended.
unfoldable pub start_workers : ℕ → ℕ → Pool → Option Pool
start_workers zero n pool = if ltb pool.size n then none else some pool
start_workers (suc fuel) n pool =
    let more =
      start_workers fuel n (record pool { size = suc pool.size; started = suc pool.started }) in
    if ltb pool.size n then more else some pool

-- The second one, whose send on closeWorkers waits for a worker that takes it
unfoldable pub stop_workers : ℕ → ℕ → Pool → Ran
stop_workers zero n pool = if ltb n pool.size then unfinished else ended pool
stop_workers (suc fuel) n pool =
    let more =
      stop_workers fuel n (record pool { size = pool.size - 1; stopped = suc pool.stopped }) in
    let sent = if leb pool.size pool.stuck then waits pool else more in
    if ltb n pool.size then sent else ended pool

-- RunWorkers
unfoldable pub run_workers : ℕ → ℕ → Pool → Ran
unfolding start_workers stop_workers
run_workers fuel n pool = elim (start_workers fuel n pool) [
  | none ↦ unfinished
  | some started ↦ stop_workers fuel n started
]
