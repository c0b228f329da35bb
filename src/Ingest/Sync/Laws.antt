-- ===== src/Ingest/Sync/Laws.antt =====
-- How an explicit sync ends, what a resync marks, who is rate-limited, and how many workers run.
use storetheindex.Prelude.{
  ℕ, ◌+◌, ◌-◌, ◌≤◌, ◌≡◌, ◌↔◌, ◌⊎◌, refl, ◌∙◌, Bool, true, false, not, ◌&&◌, ◌||◌, Option, none,
  some, List, [], ◌∷◌, elem, ltb, ◌==◌, arith, inl, inr, Bool-cases, Option-cases, if◌then◌else◌,
  if_both, ap,
}
use storetheindex.Prelude.Ints.{ℤ, is_negative, is_zero}
use storetheindex.Prelude.Result.{ok}
use storetheindex.PeerPolicy.{PeerId}
use storetheindex.PeerPolicy.Laws.{Decodes, eval-new_policy_strings}
use storetheindex.Registry.State.{Cid}
use storetheindex.Ingest.Store.{
  Outside, IsDatastore, get_latest_sync, mark_ad_unprocessed, ad_already_processed,
}
use storetheindex.Ingest.Store.Laws.{mark_unprocessed_lem}
use storetheindex.Ingest.State.{AdProcessedEvent}
use storetheindex.Ingest.Sync.Pools.{pool_of, same_pool, started, stopped, stopped_at}
use storetheindex.Ingest.Sync.{
  Selector, Wake, event, cancelled, closing, SyncEnd, output, finishes, wait_for, recursion_limit,
  make_limited_depth_selector, sync_selector, mark_all_unprocessed, sync, RateLimit, Rate,
  config_rate_limit, set_rate_limit, get_rate_limiter, ended, waits, run_workers,
}

-- RunWorkers, for a number of workers that is not negative, ends with exactly that many running, where it
-- is not less than the number of those that run and are stuck; where it is less, RunWorkers stops all
-- others and then waits for ever. The fuel is at least the difference to the workers that run before.
pub run_workers_ends :
    (fuel n size starts stops stuck : ℕ)
    → n ≤ fuel + size
    → size ≤ fuel + n
    → stuck ≤ size
    → run_workers fuel n (pool_of size starts stops stuck) ≡ (
        if ltb n stuck
        then waits (pool_of stuck starts (stops + (size - stuck)) stuck)
        else ended (pool_of n (starts + (n - size)) (stops + (size - n)) stuck))
unfolding run_workers
run_workers_ends fuel n size starts stops stuck up down few =
    rw (started fuel n size starts stops stuck up, run_workers)
      (stopped fuel n (size + (n - size)) (starts + (n - size)) stops stuck (omega arith)
          (omega arith)
        ∙ same)
  where
    same : stopped_at n (size + (n - size)) (starts + (n - size)) stops stuck ≡ (
        if ltb n stuck
        then waits (pool_of stuck starts (stops + (size - stuck)) stuck)
        else ended (pool_of n (starts + (n - size)) (stops + (size - n)) stuck))
    same = elim (Bool-cases (ltb n stuck)) [
      | inl less ↦ rw less (ap waits (same_pool stuck refl (ground arith) (ground arith)))
      | inr enough ↦ rw enough (ap ended (same_pool stuck (omega arith) refl (omega arith)))
    ]

-- An event finishes the head before the context is done or the ingester is closed.
abbrev pub IsFinished : Cid → List Wake → Type 0
IsFinished c [] = ⊥
IsFinished c (event e ∷ ws) =
    ((e.ad_cid ≡ c) ⊎ ((e.failed ≡ true) × (e.head_ad_cid ≡ c))) ⊎ IsFinished c ws
IsFinished c (w ∷ ws) = ⊥

finishes_iff :
    (c : Cid) (e : AdProcessedEvent)
    → (finishes c e ≡ true) ↔ ((e.ad_cid ≡ c) ⊎ ((e.failed ≡ true) × (e.head_ad_cid ≡ c)))
unfolding finishes
finishes_iff c e = ((λ h. ground arith), λ h. ground arith)

waited : (c : Cid) (ws : List Wake) → (wait_for c ws ≡ output c) ↔ IsFinished c ws
unfolding wait_for
waited c [] = ((λ h. cc), λ h. absurd h)
waited c (event e ∷ ws) = elim (Bool-cases (finishes c e)) [
  | inl ends ↦ ((λ h. inl ((finishes_iff c e).0 ends)), λ h. rw ends refl)
  | inr goes ↦ (
    (λ h. inr ((waited c ws).0 (rw goes at h))),
    λ h. elim h [
      | inl ends ↦ absurd (cc ((finishes_iff c e).1 ends, goes))
      | inr later ↦ rw goes ((waited c ws).1 later)
    ],
  )
]
waited c (cancelled ∷ ws) = ((λ h. cc), λ h. absurd h)
waited c (closing ∷ ws) = ((λ h. cc), λ h. absurd h)

module _ (o : Outside) where
  sync_runs :
      (s : o.State) (p : PeerId) (depth : ℤ) (resync : Bool)
      (subscriber : Option Selector → List Cid × Option Cid) (wakes : List Wake)
      (sel : Option Selector) (latest c : Cid)
      → sync_selector o s p depth resync ≡ ok sel
      → get_latest_sync o s p ≡ ok latest
      → (subscriber sel).1 ≡ some c
      → (sync o s p depth resync subscriber wakes).1
        ≡ (if (latest == c) && not resync then output c else wait_for c wakes)
  unfolding sync
  sync_runs s p depth resync subscriber wakes sel latest c e f g =
      rw (e, sync)
        (rw f (
          rw g (elim (Bool-cases ((latest == c) && not resync)) [
            | inl known ↦ rw known refl
            | inr fresh ↦ rw fresh refl
          ])))

  -- A sync that the subscriber carries out, up to a head, gives that head to its caller exactly if it was
  -- the latest one already and this is no resync, or if an event tells that it is processed, or that its
  -- chain failed, before the context is done or the ingester is closed.
  pub sync_outputs :
      (s : o.State) (p : PeerId) (depth : ℤ) (resync : Bool)
      (subscriber : Option Selector → List Cid × Option Cid) (wakes : List Wake)
      (sel : Option Selector) (latest c : Cid)
      → sync_selector o s p depth resync ≡ ok sel
      → get_latest_sync o s p ≡ ok latest
      → (subscriber sel).1 ≡ some c
      → ((sync o s p depth resync subscriber wakes).1 ≡ output c)
        ↔ (((latest ≡ c) × (resync ≡ false)) ⊎ IsFinished c wakes)
  sync_outputs s p depth resync subscriber wakes sel latest c e f g =
      rw (sync_runs s p depth resync subscriber wakes sel latest c e f g)
        (elim (Bool-cases ((latest == c) && not resync)) [
          | inl known ↦ rw known ((λ h. inl (ground arith)), λ h. refl)
          | inr fresh ↦ rw fresh (
            (λ h. inr ((waited c wakes).0 h)),
            λ h. elim h [
              | inl (same, once) ↦ absurd (ground arith)
              | inr done ↦ (waited c wakes).1 done
            ],
          )
        ])

  -- A resync has no stop, and the limit is that of the depth: none for the depth 0.
  abbrev pub resync_selector : ℤ → Selector
  resync_selector depth = record { limit = recursion_limit depth; stop_at = none }

  resync_selects :
      (s : o.State) (p : PeerId) (depth : ℤ)
      → sync_selector o s p depth true ≡ ok (some (resync_selector depth))
  unfolding sync_selector make_limited_depth_selector
  resync_selects s p depth = elim (Bool-cases (is_zero depth)) [
    | inl e ↦ rw e refl
    | inr e ↦ rw e refl
  ]

  resync_marks :
      (s : o.State) (p : PeerId) (depth : ℤ) (subscriber : Option Selector → List Cid × Option Cid)
      (wakes : List Wake) (latest : Cid)
      → get_latest_sync o s p ≡ ok latest
      → (sync o s p depth true subscriber wakes).0
        ≡ mark_all_unprocessed o s (subscriber (some (resync_selector depth))).0
  unfolding sync
  resync_marks s p depth subscriber wakes latest f =
      rw (resync_selects s p depth, sync)
        (rw f (elim (Option-cases (subscriber (some (resync_selector depth))).1) [
          | inl e ↦ rw e refl
          | inr (c, e) ↦ rw e (
              if_both
                (λ (t : o.State × SyncEnd).
                  t.0 ≡ mark_all_unprocessed o s (subscriber (some (resync_selector depth))).0)
                ((latest == c) && false) refl refl)
        ]))

  module _ (laws : IsDatastore o) where
    mark_all-unprocessed :
        (cs : List Cid) (s : o.State)
        → ((t : o.State) (c : Cid) → (mark_ad_unprocessed o t c).1 ≡ false)
        → let t = mark_all_unprocessed o s cs in
          ((c : Cid)
            → ad_already_processed o t c
              ≡ (if elem c cs then some false else ad_already_processed o s c))
          × ((p : PeerId) → get_latest_sync o t p ≡ get_latest_sync o s p)
    unfolding mark_all_unprocessed
    mark_all-unprocessed [] s works = ((λ c. refl), λ p. refl)
    mark_all-unprocessed (c ∷ cs) s works =
        let (first, same) = mark_unprocessed_lem o laws s c (works s c) in
        let (rest, same') = mark_all-unprocessed cs (mark_ad_unprocessed o s c).0 works in
        (
          (λ c'.
              rw (rest c', first c') (either (c == c') (elem c' cs) (ad_already_processed o s c'))),
          λ p. same' p ∙ same p,
        )
      where
        either :
            (a b : Bool) (x : Option Bool)
            → (if b then some false else if a then some false else x)
              ≡ (if a || b then some false else x)
        either true true x = refl
        either true false x = refl
        either false b x = refl

    -- Where marking works, a resync marks every advertisement that the subscriber visits, without a stop
    -- and with no limit but the given depth, as unprocessed; all other marks and every latest
    -- advertisement stay.
    pub resync_unmarks :
        (s : o.State) (p : PeerId) (depth : ℤ)
        (subscriber : Option Selector → List Cid × Option Cid) (wakes : List Wake) (latest : Cid)
        → get_latest_sync o s p ≡ ok latest
        → ((t : o.State) (c : Cid) → (mark_ad_unprocessed o t c).1 ≡ false)
        → let t = (sync o s p depth true subscriber wakes).0 in
          let blocks = (subscriber (some (resync_selector depth))).0 in
          ((c : Cid)
            → ad_already_processed o t c
              ≡ (if elem c blocks then some false else ad_already_processed o s c))
          × ((q : PeerId) → get_latest_sync o t q ≡ get_latest_sync o s q)
    resync_unmarks s p depth subscriber wakes latest f works =
        rw (resync_marks s p depth subscriber wakes latest f)
          (mark_all-unprocessed (subscriber (some (resync_selector depth))).0 s works)

-- With a configuration of rates that is in order, a publisher's limiter is infinite exactly if there is
-- no limit or the policy of the configuration does not apply to it; else it has the configured limit
-- and burst.
pub rate_lem :
    {Text : Type 0} (decode : Text → Option PeerId) (rate : Rate) (cfg : RateLimit Text)
    (ids : List PeerId) (p : PeerId)
    → Decodes decode cfg.except ids
    → is_negative cfg.blocks_per_second ≡ false
    → is_negative cfg.burst_size ≡ false
    → let (r, e) = set_rate_limit decode rate cfg in
      (e ≡ none)
      × (get_rate_limiter r p ≡ (
          if is_zero cfg.blocks_per_second || not (if elem p ids then not cfg.apply else cfg.apply)
          then none
          else some (cfg.blocks_per_second, cfg.burst_size)))
unfolding set_rate_limit config_rate_limit get_rate_limiter
rate_lem decode rate cfg ids p d h k =
    let (apply, made, answer) = eval-new_policy_strings decode cfg.apply cfg.except ids p d in
    elim (Bool-cases (is_zero cfg.blocks_per_second)) [
      | inl zero' ↦ rw (zero', set_rate_limit, config_rate_limit) (refl, refl)
      | inr on ↦
          let configured : config_rate_limit decode cfg
              ≡ ok (record {
                apply = apply;
                burst = cfg.burst_size;
                limit = cfg.blocks_per_second;
              }) =
            rw (on, config_rate_limit) (rw (h, k) (rw made refl)) in
          rw (configured, set_rate_limit) (refl, rw (answer) refl)
    ]
