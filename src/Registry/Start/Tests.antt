-- ===== src/Registry/Start/Tests.antt =====
-- A registry that starts with two overrides for the provider 2.
use storetheindex.Prelude.{ℕ, ◌*◌, true, false, Option, none, some, [], ◌∷◌}
use storetheindex.PeerPolicy.{PeerId}
use storetheindex.Prelude.Dict
use storetheindex.Prelude.Dict.{Dict}
use storetheindex.Registry.Policy
use storetheindex.Registry.State.{Registry, Text, ProviderInfo}
use storetheindex.Registry.Poll.{Polling}
use storetheindex.Registry.Tests.{memory, provider}
use storetheindex.Registry.Start.{Config, minute}

abbrev hourly : Polling
hourly = record { interval = 60 * minute; retry_after = 10 * minute; stop_after = 100 * minute }

abbrev often : ℕ → Polling
often n = record { interval = minute; retry_after = n; stop_after = 5 * minute }

abbrev cfg : Config
cfg = record {
  policy = record { allow = true; except = []; publish = false; publish_except = [] };
  rediscover_wait = 10;
  poll = hourly;
  poll_overrides =
      record { provider_id = 2; polling = often 3 }
      ∷ record { provider_id = 2; polling = often (2 * minute) }
      ∷ [];
}

abbrev decode : Text → Option PeerId
decode t = some t

abbrev made : Registry memory
made = record {
  providers = [];
  dstore = none;
  policy = record {
    allow = record { value = true; except = [] };
    publish = record { value = false; except = [] };
  };
  discover_times = [];
  rediscover_wait = 10;
}

-- The provider 3, without an override, behind the provider 2.
abbrev listed : Dict ProviderInfo
listed = (2, provider 2 2 50) ∷ (3, provider 3 3 50) ∷ []
