-- ===== src/Admin/Handler/Tests.antt =====
-- Instances for the administration: an integer's text is a number above 0, an address is its own text.
use storetheindex.Prelude.{
  ℕ, ◌+◌, ◌-◌, ◌*◌, ◌/◌, ◌%◌, ◌≡◌, refl, true, false, Option, none, some, [], ◌∷◌, ◌==◌,
  if◌then◌else◌, arith,
}
use storetheindex.Prelude.Ints.{ℤ, pos, negsuc}
use storetheindex.Registry.Tests.{memory, one}
use storetheindex.Server.Errors.{Formats}
use storetheindex.Ingest.Ad.Tests.{notes}
use storetheindex.Admin.Importer
use storetheindex.Admin.Handler.{Services, Admin}
use storetheindex.Admin.Handler.Client
use storetheindex.Admin.Handler.Client.{sync, allow, block}
use storetheindex.Admin.Handler.Laws.{IsServices, serve, sync_asked}
use storetheindex.Web.{HttpRequest, HttpResponse, http_error}

abbrev formats : Formats
formats = record {
  Bytes = ℕ;
  digits = λ n. n ∷ [];
  status_text = λ n. [];
  marshal = λ m s. none;
  unmarshal = λ b. none;
  server_error = 0;
}

abbrev importer : Importer.Formats
importer = record {
  decode = λ t. some t;
  hash = λ c. c;
  unmarshal_entry = λ t. none;
  decode_peer = λ t. some t;
}

abbrev parse : ℕ → Option ℤ
parse t =
    if t == 0 then none else if t % 2 == 1 then some (pos (t / 2)) else some (negsuc (t / 2 - 1))

abbrev format : ℤ → ℕ
format (pos n) = 2 * n + 1
format (negsuc n) = 2 * n + 2

abbrev services : Services formats
services = record {
  env = memory;
  core = notes;
  importer = importer;
  stops = λ n. false;
  checks = λ n. false;
  decode_peer = λ t. some t;
  parse_int = parse;
  parse_bool = λ t. if t == 0 then none else some (t == 2);
  unmarshal_text = λ b. some b;
  new_multiaddr = λ t. some t;
  get_params = λ b. none;
  unmarshal_map = λ b. some (some b);
  unmarshal_url = λ b. some b;
  list_providers = λ u. none;
  words = λ x. [];
}

abbrev client : Client.Services formats
client = record {
  peer_string = λ id. id;
  format_int = format;
  format_bool = λ b. if b then 2 else 1;
  marshal_addr = λ a. some a;
  marshal_url = λ u. some u;
  marshal_map = λ b. some b;
  marshal_params = λ n c m. some n;
}

format-ne : (d : ℤ) → (format d == 0) ≡ false
format-ne (pos n) = ground arith
format-ne (negsuc n) = ground arith

parse-format : (d : ℤ) → parse (format d) ≡ some d
parse-format (pos n) = ground arith
parse-format (negsuc n) = ground arith

services-IsServices : IsServices formats services client
services-IsServices = record {
  decode_peer-peer_string = λ id. refl;
  format_int-ne = format-ne;
  parse_int-format_int = parse-format;
  format_bool-ne = λ b. ground arith;
  parse_bool-format_bool = λ b. ground arith;
  addr_read = λ a. (a, a, refl, refl, refl);
}

abbrev unrouted : HttpRequest ℕ → HttpResponse ℕ
unrouted q = http_error 404 []

abbrev admin : Admin formats services
admin = record { registry = one; index = []; syncs = [] }

abbrev to_server :
    Admin formats services → HttpRequest ℕ → Admin formats services × Option (HttpResponse ℕ)
to_server = serve formats services client services-IsServices unrouted true

sync_asked_example : sync formats client to_server admin 1 (some 9) (negsuc 0) true ≡ (
  record admin { syncs = record { peer = 1; addr = some 9; depth = negsuc 0; resync = true } ∷ [] },
  none,
)
sync_asked_example =
    sync_asked formats services client services-IsServices unrouted true admin 1 (some 9) (negsuc 0)
      true refl
