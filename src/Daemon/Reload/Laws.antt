-- ===== src/Daemon/Reload/Laws.antt =====
-- What a reload of the configuration does, and what it does to the daemon when it fails.
use storetheindex.Prelude.{
  ℕ, ◌+◌, ◌-◌, ◌≤◌, ltb, ◌≡◌, ◌≢◌, refl, ap, ◌∙◌, Bool, true, false, not, ◌&&◌, Option, none, some,
  List, ◌∷◌, ◌==◌, arith, inl, inr, ◌⊎◌, Bool-cases, Option-cases, if◌then◌else◌,
}
use storetheindex.Prelude.Ints.{pos}
use storetheindex.Prelude.Result.{ok, Result-cases}
use storetheindex.PeerPolicy.{PeerId}
use storetheindex.Registry.State.{Text}
use storetheindex.Registry.Policy.{Policy, new, copy}
use storetheindex.Ingest.Sync.{ended, waits, run_workers, RateError, set_rate_limit}
use storetheindex.Ingest.Sync.Pools.{pool_of, same_pool}
use storetheindex.Ingest.Sync.Laws.{run_workers_ends}
use storetheindex.Daemon.Config.{Logging, Config}
use storetheindex.Daemon.Reload.{
  Ingester, Daemon, Error, Reloaded, hangs, reloaded, failed, bad_datastore, bad_policy,
  bad_logging, bad_rate_limit, batch_size_of, reload_ingester, reload_logging, reload_config, Event,
  ends, reloads, panics, daemon_loop,
}

module _ (decode : Text → Option PeerId) (levelds : Text) (set_logging : Logging → Bool) where
  -- The ingester after its part of a reload, with the workers that then run.
  abbrev pub configured : Ingester → Config → ℕ → Ingester
  configured i cfg n = record {
    rate = (set_rate_limit decode i.rate cfg.ingest.rate_limit).0;
    batch_size = batch_size_of cfg.ingest.store_batch_size;
    pool =
        pool_of n (i.pool.started + (n - i.pool.size)) (i.pool.stopped + (i.pool.size - n))
          i.pool.stuck;
  }

  module _ (i : Ingester) (cfg : Config) (n : ℕ) (count : cfg.ingest.ingest_worker_count ≡ pos n)
      (few : i.pool.stuck ≤ i.pool.size)
      (fine : (set_rate_limit decode i.rate cfg.ingest.rate_limit).1 ≡ none) where
    workers_end : run_workers (n + i.pool.size) n i.pool ≡ (
        if ltb n i.pool.stuck
        then waits (configured i cfg i.pool.stuck).pool
        else ended (configured i cfg n).pool)
    workers_end =
        run_workers_ends (n + i.pool.size) n i.pool.size i.pool.started i.pool.stopped i.pool.stuck
          (omega arith) (omega arith) few
        ∙ elim (Bool-cases (ltb n i.pool.stuck)) [
          | inl less ↦ rw less (ap waits (same_pool i.pool.stuck refl (ground arith) refl))
          | inr free ↦ rw free refl
        ]

    reload_ingester_works :
        ltb n i.pool.stuck ≡ false
        → reload_ingester decode levelds set_logging i cfg ≡ (configured i cfg n, none, true)
    unfolding reload_ingester
    reload_ingester_works free =
        rw (fine, reload_ingester) (rw count (rw workers_end (rw free refl)))

    reload_ingester_waits :
        ltb n i.pool.stuck ≡ true
        → reload_ingester decode levelds set_logging i cfg
          ≡ (configured i cfg i.pool.stuck, none, false)
    unfolding reload_ingester
    reload_ingester_waits less =
        rw (fine, reload_ingester) (rw count (rw workers_end (rw less refl)))

  reload_ingester_fails :
      (i : Ingester) (cfg : Config) (n : ℕ)
      → (e : RateError) → (set_rate_limit decode i.rate cfg.ingest.rate_limit).1 ≡ some e
      → reload_ingester decode levelds set_logging i cfg ≡ (i, some bad_rate_limit, true)
  unfolding reload_ingester
  reload_ingester_fails i cfg n e bad = rw (bad, reload_ingester) refl

  -- A failed reload leaves no configuration behind: the daemon panics at the next reload or at its
  -- end, if not at once.
  pub failed_reload_panics :
      (host asked : Bool) (d : Daemon) (loaded : Option Config) (e : Error) (cfg : Config)
      (x : Event decode levelds set_logging) (es : List (Event decode levelds set_logging))
      → d.cfg ≡ some cfg
      → (reload_config decode levelds set_logging d loaded).1 ≡ failed e
      → daemon_loop decode levelds set_logging host d (reloads asked loaded ∷ x ∷ es) ≡ panics
  unfolding daemon_loop
  failed_reload_panics host asked d loaded e cfg x es there bad =
      rw (there, daemon_loop)
        (rw bad (elim (Bool-cases (host && not asked)) [
          | inl now ↦ rw now refl
          | inr later ↦ rw later (next x)
        ]))
    where
      next :
          (x : Event decode levelds set_logging)
          → daemon_loop decode levelds set_logging host
              (record (reload_config decode levelds set_logging d loaded).0 { cfg = none })
              (x ∷ es)
            ≡ panics
      next ends = refl
      next (reloads w l) = refl

  module _ (d : Daemon) (i : Ingester) (cfg : Config) (n : ℕ) (p : Policy)
      (there : d.ingester ≡ some i) (count : cfg.ingest.ingest_worker_count ≡ pos n)
      (few : i.pool.stuck ≤ i.pool.size) (same : (cfg.datastore.type_name == levelds) ≡ true)
      (made : new decode cfg.discovery.policy ≡ ok p) where
    reload_bad_rate :
        (x : RateError)
        → (set_rate_limit decode i.rate cfg.ingest.rate_limit).1 ≡ some x
        → reload_config decode levelds set_logging d (some cfg)
          ≡ (record d { policy = copy d.policy p; ingester = some i }, failed bad_rate_limit)
    unfolding reload_config
    reload_bad_rate x bad =
        let fails = reload_ingester_fails i cfg n x bad in
        rw (same, reload_config) (rw made (rw there (rw fails (rw fails refl))))

    module _ (fine : (set_rate_limit decode i.rate cfg.ingest.rate_limit).1 ≡ none) where
      reload_done :
          ltb n i.pool.stuck ≡ false
          → reload_config decode levelds set_logging d (some cfg) ≡ (
            record d { policy = copy d.policy p; ingester = some (configured i cfg n) },
            if set_logging cfg.logging then reloaded cfg else failed bad_logging,
          )
      unfolding reload_config reload_logging
      reload_done free =
          let works = reload_ingester_works i cfg n count few fine free in
          rw (same, reload_config) (rw made (rw there (rw works (rw works (rw works refl)))))

      reload_waits :
          ltb n i.pool.stuck ≡ true
          → reload_config decode levelds set_logging d (some cfg) ≡ (
            record d { policy = copy d.policy p; ingester = some (configured i cfg i.pool.stuck) },
            hangs,
          )
      unfolding reload_config
      reload_waits less =
          let left = reload_ingester_waits i cfg n count few fine less in
          rw (same, reload_config) (rw made (rw there (rw left (rw left (rw left refl)))))

  -- What a reload does, by its result: it fails, it is done, or it waits for ever.
  abbrev pub Outcome : Daemon → Ingester → Config → ℕ → Daemon × Reloaded → Type 0
  Outcome d i cfg n t =
      ((e : Error) × (t.1 ≡ failed e) × (e ≢ bad_logging → t.0.ingester ≡ some i))
      ⊎ ((p : Policy) × (new decode cfg.discovery.policy ≡ ok p)
          × ((set_rate_limit decode i.rate cfg.ingest.rate_limit).1 ≡ none)
          × (((i.pool.stuck ≤ n)
                × (t ≡ (
                  record d { policy = copy d.policy p; ingester = some (configured i cfg n) },
                  reloaded cfg,
                )))
              ⊎ ((n + 1 ≤ i.pool.stuck)
                  × (t ≡ (
                    record d {
                      policy = copy d.policy p;
                      ingester = some (configured i cfg i.pool.stuck);
                    },
                    hangs,
                  )))))

  -- A reload with an ingester, for a number of workers that is not negative, fails, is done or waits for
  -- ever. If it fails, it has left the ingester as it was but where only the log levels could not be set.
  -- Else the policy is that of the configuration, and the ingester has its rate limit and batch size. If
  -- it is done, exactly its number of workers run, which is not less than the number of those that are
  -- stuck; it waits for ever where it is less, and then only the stuck ones are left. The stuck workers
  -- are some of those that run before.
  pub reload_lem :
      (d : Daemon) (i : Ingester) (cfg : Config) (n : ℕ)
      → d.ingester ≡ some i
      → cfg.ingest.ingest_worker_count ≡ pos n
      → i.pool.stuck ≤ i.pool.size
      → Outcome d i cfg n (reload_config decode levelds set_logging d (some cfg))
  unfolding reload_config
  reload_lem d i cfg n there count few = elim (Bool-cases (cfg.datastore.type_name == levelds)) [
    | inr other ↦
        inl (bad_datastore, rw (other, reload_config) refl, λ k. rw (other, reload_config) there)
    | inl same ↦ elim (Result-cases (new decode cfg.discovery.policy)) [
      | inl (x, e) ↦ inl (
        bad_policy,
        rw (same, reload_config) (rw e refl),
        λ k. rw (same, reload_config) (rw e there),
      )
      | inr (p, e) ↦ elim (Option-cases (set_rate_limit decode i.rate cfg.ingest.rate_limit).1) [
        | inr (x, bad) ↦
            let result = reload_bad_rate d i cfg n p there count few same e x bad in
            inl (bad_rate_limit, rw result refl, λ k. rw result refl)
        | inl fine ↦ elim (Bool-cases (ltb n i.pool.stuck)) [
          | inl less ↦ inr (
            p,
            e,
            fine,
            inr (ground arith, reload_waits d i cfg n p there count few same e fine less),
          )
          | inr free ↦
              let done = reload_done d i cfg n p there count few same e fine free in
              elim (Bool-cases (set_logging cfg.logging)) [
                | inl works ↦ inr (p, e, fine, inl (ground arith, rw done (rw works refl)))
                | inr quiet ↦ inl (bad_logging, rw done (rw quiet refl), λ k. absurd (k refl))
              ]
        ]
      ]
    ]
  ]
