-- ===== src/Registry/Discovery.antt =====
-- Discovery in internal/registry/registry.go: which discoveries run, and how often. `discover_times`
-- holds, for each discovery address, the zero time while a discovery runs and else when it ended.
-- The discoverer itself is outside: its result is an argument of `finish_discover`.
pub mod Laws
use storetheindex.Prelude.{
  ℕ, ◌+◌, Bool, true, false, not, ◌&&◌, ◌||◌, Option, none, some, ltb, ◌==◌, if◌then◌else◌,
}
use storetheindex.Prelude.Dict
use storetheindex.PeerPolicy.{PeerId}
use storetheindex.Registry.Policy.{allowed}
use storetheindex.Registry.State.{
  AddrInfo, Text, Time, ProviderInfo, Error, not_allowed, in_progress, too_soon, not_discovered,
  Env, Registry,
}
use storetheindex.Registry.Register.{sync_register}
use storetheindex.Registry.Update.{new_info}

-- An entry stays while its discovery runs, and while it forbids another one.
abbrev pub stays : ℕ → Time → Text → Time → Bool
stays wait now addr completed = (completed == 0) || (not (wait == 0) && ltb now (completed + wait))

module _ (env : Env) where
  -- syncNeedDiscover: the reason why no discovery may start, if there is one. The time since
  -- `completed` is below the wait if now is before their sum.
  unfoldable pub sync_need_discover : Registry env → Text → Time → Option Error
  sync_need_discover r addr now = elim (Dict.get r.discover_times addr) [
    | none ↦ none
    | some completed ↦
        if completed == 0
        then some in_progress
        else if not (r.rediscover_wait == 0) && ltb now (completed + r.rediscover_wait)
        then some too_soon
        else none
  ]

  -- syncStartDiscover, up to the start of its goroutine
  unfoldable pub sync_start_discover : Registry env → Text → Time → Registry env × Option Error
  sync_start_discover r addr now = elim (sync_need_discover r addr now) [
    | some e ↦ (r, some e)
    | none ↦ (record r { discover_times = Dict.put r.discover_times addr 0 }, none)
  ]

  -- Registry.Discover: the policy first.
  unfoldable pub discover : Registry env → PeerId → Text → Time → Registry env × Option Error
  discover r peer addr now =
      if not (allowed r.policy peer) then (r, some not_allowed) else sync_start_discover r addr now

  -- The action that the goroutine hands over when the discoverer has answered, `none` by an error.
  unfoldable pub finish_discover :
      Registry env → Text → Time → Option AddrInfo → Registry env × Option Error
  finish_discover r addr now found =
      let r' = record r { discover_times = Dict.put r.discover_times addr now } in
      elim found [
        | none ↦ (r', some not_discovered)
        | some a ↦
            sync_register env r' (record (new_info a.id) { addr_info = a; discovery_addr = addr })
      ]

  -- The action of cleanup
  unfoldable pub cleanup : Registry env → Time → Registry env
  cleanup r now = record r {
    discover_times = Dict.retain (stays r.rediscover_wait now) r.discover_times;
  }
