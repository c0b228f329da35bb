-- ===== src/Registry/Tests.antt =====
-- Tests and instances for internal/registry/registry.go, over a datastore in memory that never fails.
use storetheindex.Prelude.{
  ℕ, ◌+◌, ◌*◌, ◌≤◌, ◌<◌, ◌≡◌, ◌↔◌, ◌⊎◌, inl, inr, Bool-cases, refl, true, false, not, none, some,
  [], ◌∷◌, map, ◌==◌, arith, if◌then◌else◌,
}
use mathlib.Core.Path.{subst}
use mathlib.Core.Option.{some-injective}
use storetheindex.Prelude.Dict
use storetheindex.PeerPolicy
use storetheindex.Prelude.Result.{ok}
use storetheindex.Prelude.Dict.{Dict, get-put, get-remove}
use storetheindex.PeerPolicy.{PeerId}
use storetheindex.Registry.Policy.{Policy, allowed}
use storetheindex.Registry.State.{
  AddrInfo, ProviderInfo, persistent, found, Env, IsStore, Registry, in_progress,
}
use storetheindex.Registry.Register.{is_empty, sync_register, provider_info}
use storetheindex.Registry.Register.Laws.{IsAdmitted}
use storetheindex.Registry.Register.Persistence.{Holds, Mirrors}
use storetheindex.Registry.Update.{register_or_update}
use storetheindex.Registry.Update.Laws.{IsUpdate, is_new, register_or_update_ok}
use storetheindex.Registry.Discovery.{discover, sync_start_discover, sync_need_discover}
use storetheindex.Registry.Discovery.Laws.{World, starts, here, next, count, one_discovery}
use storetheindex.Registry.Poll.{Polling, verdict, removes, leave, poll_providers}
use storetheindex.Registry.Poll.Laws.{after, poll_at, IsSilent, poll_providers_lem}
use storetheindex.Registry.Poll.Order.{override_leaks}
use storetheindex.Registry.Load.{load_persisted_providers}
use storetheindex.Registry.Load.Laws.{after_restart, load-Mirrors}

abbrev pub memory : Env
memory = record {
  State = Dict ProviderInfo;
  Bytes = ProviderInfo;
  put = λ d k b. (Dict.put d k b, false);
  delete = λ d k. (Dict.remove d k, false);
  sync = λ d k. (d, false);
  query = λ d. some (map (λ (k, b). found k b) d);
  marshal = λ info. some (persistent info);
  unmarshal = λ b. some b;
  valid = λ id. not (id == 0);
  new_multiaddr = λ t. if t == 0 then none else some t;
}

abbrev all_of : Dict ProviderInfo → Dict ProviderInfo
all_of d = d

memory-IsStore : IsStore memory all_of
memory-IsStore = record {
  put_lem = λ s k j b h. get-put s k j b;
  delete_lem = λ s k j h. get-remove s k j;
  sync_lem = λ s k. refl;
  unmarshal-marshal = λ info b h. cc;
}

-- The policy blocks the peer 3, and nobody publishes for others but the peer 8.
abbrev pub policy : Policy
policy = record {
  allow = record { value = true; except = 3 ∷ [] };
  publish = record { value = false; except = 8 ∷ [] };
}

abbrev pub provider : PeerId → PeerId → ℕ → ProviderInfo
provider id publisher contact = record {
  addr_info = record { id = id; addrs = (100 + id) ∷ [] };
  discovery_addr = 0;
  last_advertisement = 0;
  last_advertisement_time = 0;
  publisher = publisher;
  publisher_addr = some 9;
  last_contact_time = contact;
  deleted = false;
  inactive = false;
}

-- A registry that has stored its providers.
abbrev pub registry : Dict ProviderInfo → Registry memory
registry providers = record {
  providers = providers;
  dstore = some (map (λ (k, info). (k, persistent info)) providers);
  policy = policy;
  discover_times = [];
  rediscover_wait = 10;
}

-- The provider 1, whose publisher was in contact at the time 50.
abbrev pub one : Registry memory
one = registry ((1, provider 1 1 50) ∷ [])

one-Mirrors : Mirrors memory all_of one
unfolding Dict.get
one-Mirrors d e k =
    subst (λ x. Holds memory (Dict.get one.providers k) (Dict.get x k)) (some-injective _ d e)
      (elim (Bool-cases (1 == k)) [ inl own ↦ rw own refl | inr other ↦ rw other tt ])

abbrev pub nobody : AddrInfo
nobody = record { id = 0; addrs = [] }

register_or_update_ok_example :
    (info : ProviderInfo) × IsUpdate memory (provider_info memory one 1) 60 1 [] 77 nobody info
    × (is_new memory (provider_info memory one 1) nobody ≡ true → IsAdmitted memory one info)
    × ((k : PeerId)
        → Dict.get (register_or_update memory one 60 1 [] 77 nobody).0.providers k
          ≡ (if 1 == k then some info else Dict.get one.providers k))
unfolding register_or_update provider_info sync_register Dict.get
register_or_update_ok_example = register_or_update_ok memory one 60 1 [] 77 nobody refl

abbrev discovered : Registry memory
discovered = record one { discover_times = (6, 100) ∷ (7, 0) ∷ [] }

-- A discovery of the address 7 has started and runs.
abbrev busy : World memory
busy = record { registry = (discover memory one 1 7 100).0; running = 7 ∷ [] }

one_discovery_example :
    (count 7 busy.running ≤ 1)
    × (0 < count 7 busy.running → sync_need_discover memory busy.registry 7 105 ≡ some in_progress)
unfolding discover sync_start_discover sync_need_discover allowed PeerPolicy.eval Dict.get
one_discovery_example =
    one_discovery memory one busy 7 105 refl (next here (starts 1 7 100 refl refl))

abbrev default_poll : Polling
default_poll = record { interval = 10; retry_after = 5; stop_after = 30 }

abbrev fast_poll : Polling
fast_poll = record { interval = 1; retry_after = 1; stop_after = 2 }

poll_providers_lem_example :
    let p = poll_at memory default_poll [] one.providers 1 in
    ((Dict.get (poll_providers memory one default_poll [] 95 (λ _. true)).0.providers 1 ≡ none)
      ↔ IsSilent memory 95 (provider 1 1 50) (p.interval + p.stop_after))
    × ((info' : ProviderInfo)
        → Dict.get (poll_providers memory one default_poll [] 95 (λ _. true)).0.providers 1
          ≡ some info'
        → ((info'.inactive ≡ true) ↔ (
            (false ≡ true) ⊎ IsSilent memory 95 (provider 1 1 50) (p.interval + 2 * p.retry_after)))
          × (info'.addr_info ≡ record { id = 1; addrs = 101 ∷ [] })
          × (info'.publisher ≡ 1))
unfolding Dict.get
poll_providers_lem_example =
    poll_providers_lem memory one default_poll [] 95 (λ _. true) 1 (provider 1 1 50) (refl, tt) refl

-- The provider 1 is polled faster by an override, the provider 2 is not.
override_leaks_example :
    (Dict.get
        (poll_providers memory
          (registry ((1, provider 1 1 50) ∷ (2, provider 2 2 50) ∷ []))
          default_poll
          ((1, fast_poll) ∷ [])
          55
          (λ _. true)).0.providers
        2
      ≡ after fast_poll 55 (provider 2 2 50) (verdict fast_poll 55 (provider 2 2 50)))
    × (Dict.get
          (poll_providers memory
            (registry ((2, provider 2 2 50) ∷ (1, provider 1 1 50) ∷ []))
            default_poll
            ((1, fast_poll) ∷ [])
            55
            (λ _. true)).0.providers
          2
        ≡ after default_poll 55 (provider 2 2 50) (verdict default_poll 55 (provider 2 2 50)))
unfolding Dict.get
override_leaks_example =
    override_leaks memory default_poll fast_poll ((1, fast_poll) ∷ []) 55 (λ _. true) 1 2
      (provider 1 1 50) (provider 2 2 50) refl refl refl refl
      (registry ((1, provider 1 1 50) ∷ (2, provider 2 2 50) ∷ []))
      (registry ((2, provider 2 2 50) ∷ (1, provider 1 1 50) ∷ [])) [] [] [] []
      ((1, provider 1 1 50) ∷ []) refl refl (refl, (refl, tt)) (refl, (refl, tt)) refl refl tt tt

-- So the provider 2 is removed in one order of the iteration, and stays in the other.
leak_verdicts :
    (verdict fast_poll 55 (provider 2 2 50) ≡ removes)
    × (verdict default_poll 55 (provider 2 2 50) ≡ leave)
unfolding verdict
leak_verdicts = (refl, refl)

load-Mirrors_example :
    (m : Dict ProviderInfo) × (n : ℕ) × (load_persisted_providers memory policy one.dstore
      ≡ ok (m, n))
    × ((k : PeerId) → Dict.get m k ≡ after_restart memory policy k (Dict.get one.providers k))
unfolding Dict.get
load-Mirrors_example =
    load-Mirrors memory all_of one ((1, persistent (provider 1 1 50)) ∷ []) policy one-Mirrors refl
      addressed (refl, tt) refl
  where
    addressed :
        (k : PeerId) (info : ProviderInfo)
        → Dict.get one.providers k ≡ some info
        → is_empty info.addr_info.addrs ≡ false
    addressed k info e = ground arith
