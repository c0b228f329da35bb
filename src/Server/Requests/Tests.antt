-- ===== src/Server/Requests/Tests.antt =====
-- An instance of the envelopes, which carry their domain, their key and their record.
use storetheindex.Prelude.{ℕ, ◌≡◌, refl, Option, none, some, if◌then◌else◌}
use storetheindex.Server.Requests.{
  Request, discover, Domain, same_domain, discover_domain, Envelopes, read_discover_request,
  read_ingest_request, read_register_request,
}

abbrev open_envelope : Domain × ℕ × Request → Domain → Option (ℕ × Request)
open_envelope (d, key, r) d' = if same_domain d d' then some (key, r) else none

abbrev pub envelopes : Envelopes
envelopes = record {
  PrivKey = ℕ;
  PubKey = ℕ;
  Envelope = Domain × ℕ × Request;
  Bytes = Domain × ℕ × Request;
  seal = λ d r key. some (d, key, r);
  marshal = λ v. some v;
  consume = open_envelope;
}

abbrev pub request : Request
request = discover (record { provider_id = 1; discovery_addr = 7; seq = 90 })

-- A request to discover is read as such, and not as another one.
discover_read :
    (read_discover_request envelopes (discover_domain, 5, request)
      ≡ some (record { provider_id = 1; discovery_addr = 7; seq = 90 }))
    × (read_ingest_request envelopes (discover_domain, 5, request) ≡ none)
    × (read_register_request envelopes (discover_domain, 5, request) ≡ none)
unfolding read_discover_request read_ingest_request read_register_request
discover_read = (refl, refl, refl)
