-- ===== src/Registry/Start/Laws.antt =====
-- How a new registry polls.
use storetheindex.Prelude.{Option, none, some, List, [], ◌∷◌, ◌==◌, if◌then◌else◌}
use storetheindex.Prelude.Dict
use storetheindex.Prelude.Dict.{Dict}
use storetheindex.PeerPolicy.{PeerId}
use storetheindex.Registry.Policy
use storetheindex.Registry.State.{Registry, Text}
use storetheindex.Registry.Poll.{Polling}
use storetheindex.Registry.Start.{Override}

-- The polling that the configuration has for a provider: that of its last override, if it has one.
abbrev pub configured : (Text → Option PeerId) → PeerId → Polling → List Override → Polling
configured decode id poll [] = poll
configured decode id poll (o ∷ os) = elim (decode o.provider_id) [
  | none ↦ poll
  | some id' ↦ configured decode id (if id' == id then o.polling else poll) os
]
