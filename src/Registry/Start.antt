-- ===== src/Registry/Start.antt =====
-- The start of a registry in internal/registry/registry.go: NewRegistry, makePollOverrideMap, and how often
-- runPollCheck looks for providers to poll. Durations are not negative.
pub mod Laws
mod Tests
use storetheindex.Prelude.{ℕ, ◌*◌, ltb, Option, none, some, List, [], ◌∷◌, if◌then◌else◌}
use storetheindex.Prelude.Dict
use storetheindex.Prelude.Dict.{Dict}
use storetheindex.Prelude.Result.{Result, ok, err}
use storetheindex.PeerPolicy.{PeerId}
use storetheindex.Registry.Policy
use storetheindex.Registry.State.{Env, Registry, Text}
use storetheindex.Registry.Poll.{Polling}
use storetheindex.Registry.Load
use storetheindex.Registry.Load.{load_persisted_providers}

-- config.Polling
pub record Override : Type 0 where
  pub provider_id : Text
  pub polling : Polling

-- What NewRegistry reads of config.Discovery
pub record Config : Type 0 where
  pub policy : Policy.Config Text
  pub rediscover_wait : ℕ
  pub poll : Polling
  pub poll_overrides : List Override

pub data Error : Type 0 where
  bad_policy : Policy.Error → Error
  not_loaded : Load.Error → Error
  bad_override : Error

-- The loop of makePollOverrideMap, and the whole
unfoldable pub override_loop :
    (Text → Option PeerId) → List Override → Dict Polling → Option (Dict Polling)
override_loop decode [] m = some m
override_loop decode (o ∷ os) m = elim (decode o.provider_id) [
  | none ↦ none
  | some id ↦ override_loop decode os (Dict.put m id o.polling)
]

unfoldable pub make_poll_override_map :
    (Text → Option PeerId) → List Override → Option (Dict Polling)
unfolding override_loop
make_poll_override_map decode os = override_loop decode os []

-- A minute in nanoseconds
abbrev pub minute : ℕ
minute = 60 * 1000000000

-- The time between two checks of runPollCheck
unfoldable pub shortest : ℕ → Dict Polling → ℕ
shortest retry_after [] = retry_after
shortest retry_after ((id, o) ∷ os) =
    shortest (if ltb o.retry_after retry_after then o.retry_after else retry_after) os

unfoldable pub check_interval : Polling → Dict Polling → ℕ
unfolding shortest
check_interval poll overrides =
    let t = shortest poll.retry_after overrides in if ltb t minute then minute else t

-- NewRegistry: the registry, and what it gives runPollCheck
unfoldable pub new_registry :
    (env : Env)
    → (Text → Option PeerId)
    → Config
    → Option env.State
    → Result Error (Registry env × Polling × Dict Polling)
new_registry env decode cfg dstore = elim (Policy.new decode cfg.policy) [
  | err e ↦ err (bad_policy e)
  | ok policy ↦ elim (load_persisted_providers env policy dstore) [
    | err e ↦ err (not_loaded e)
    | ok (providers, count) ↦ elim (make_poll_override_map decode cfg.poll_overrides) [
      | none ↦ err bad_override
      | some overrides ↦ ok (
        record {
          providers = providers;
          dstore = dstore;
          policy = policy;
          discover_times = [];
          rediscover_wait = cfg.rediscover_wait;
        },
        cfg.poll,
        overrides,
      )
    ]
  ]
]
