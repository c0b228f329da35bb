-- ===== src/Finder/Clients/Tests.antt =====
-- Instances for the finder's clients: what is sent is the value itself, and a text is its own value.
use storetheindex.Prelude.{
  ℕ, ◌+◌, ◌/◌, ◌%◌, ◌≡◌, sym, refl, not, All, ◌==◌, if◌then◌else◌, Option, none, some, List, [],
  ◌∷◌,
}
use storetheindex.Prelude.Result.{ok}
use storetheindex.Registry.Tests.{memory}
use storetheindex.Registry.Register.{provider_info}
use storetheindex.Prelude.Dict
use storetheindex.Ingest.Batches.{Multihash}
use storetheindex.Finder
use storetheindex.Finder.{
  iso8601, ProviderModel, MultihashResult, provider_result_from_value, find_loop, find_values,
}
use storetheindex.Prelude.Ints.{pos}
use mathlib.Core.Option.{some-injective}
use storetheindex.Finder.Clients.Named.{IsNamedEntry}
use storetheindex.Finder.Tests.{mixed, stored, value}
use storetheindex.Finder.Servers.{Services, MessageType}
use storetheindex.Finder.Clients.{
  find, find_batch, get_provider, list_providers, p2p_find_batch, p2p_get_provider,
  p2p_list_providers,
}
use storetheindex.Finder.Clients.Encodings.{IsServices, IsCodecOf}
use storetheindex.Finder.Clients.Laws.{Gives, serve, exchange, query_answered, providers_answered}
use storetheindex.Server.Errors.{Chars, Formats}
use storetheindex.Web.{Codec, IsCodec, http_error, HttpResponse, HttpRequest}

data Sent : Type 0 where
  hashes : List Multihash → Sent
  results : List MultihashResult → Sent
  one : ProviderModel → Sent
  all : List ProviderModel → Sent
  number : ℕ → Sent
  error : Chars → ℕ → Sent

abbrev formats : Formats
formats = record {
  Bytes = Sent;
  digits = λ n. n ∷ [];
  status_text = λ n. [];
  marshal = λ m s. some (error m s);
  unmarshal = λ b. elim b [ error m s ↦ some (m, s) | _ ↦ none ];
  server_error = error [] 500;
}

abbrev services : Services formats
services = record {
  get = stored;
  size = some 400;
  from_b58 = λ t. if not (t == 0) then some t else none;
  b58_string = λ m. m;
  decode_cid = λ t. some t;
  hash = λ c. c;
  decode_peer = λ t. if not (t == 0) then some t else none;
  peer_string = λ id. id;
  find_request = record {
    encode = λ x. some (hashes x);
    decode = λ b. elim b [ hashes x ↦ some x | _ ↦ none ];
  };
  find_response = record {
    encode = λ x. some (results x);
    decode = λ b. elim b [ results x ↦ some x | _ ↦ none ];
  };
  provider = record {
    encode = λ x. some (one x);
    decode = λ b. elim b [ one x ↦ some x | _ ↦ none ];
  };
  providers = record {
    encode = λ x. some (all x);
    decode = λ b. elim b [ all x ↦ some x | _ ↦ none ];
  };
  peer_id = record {
    encode = λ x. some (number x);
    decode = λ b. elim b [ number x ↦ if not (x == 0) then some x else none | _ ↦ none ];
  };
  stats = record {
    encode = λ x. some (number x);
    decode = λ b. elim b [ number x ↦ some x | _ ↦ none ];
  };
  words = λ x. [];
  clock = record {
    format = λ t. t ∷ [];
    zone_offset = λ t. pos 7200;
    two_digits = λ n. (48 + n / 10) ∷ (48 + n % 10) ∷ [];
  };
}

sent-IsCodec :
    {A : Type 0} (c : Codec A Sent)
    → (into : A → Sent) → ((a : A) → c.encode a ≡ some (into a))
    → ((a : A) → c.decode (into a) ≡ some a)
    → IsCodec c
sent-IsCodec c into writes reads = record {
  written = λ a. (into a, writes a);
  decode-encode = λ a b h. let same : into a ≡ b = cc (h, writes a) in rw (same) at (reads a);
}

sent-IsCodecOf : {A : Type 0} (P : A → Type 0) (c : Codec A Sent) → IsCodec c → IsCodecOf P c
sent-IsCodecOf P c laws = record {
  written = laws.written;
  decode-encode = λ a b h e. laws.decode-encode a b e;
}

abbrev services_laws : IsServices formats services
services_laws = record {
  is_multihash = λ m. not (m == 0);
  is_peer = λ id. not (id == 0);
  find_request = sent-IsCodec services.find_request hashes (λ a. refl) (λ a. refl);
  find_response =
      sent-IsCodecOf _ services.find_response
        (sent-IsCodec services.find_response results (λ a. refl) (λ a. refl));
  provider =
      sent-IsCodecOf _ services.provider
        (sent-IsCodec services.provider one (λ a. refl) (λ a. refl));
  providers =
      sent-IsCodecOf _ services.providers
        (sent-IsCodec services.providers all (λ a. refl) (λ a. refl));
  peer_id-written = λ id. (number id, refl);
  peer_id-decode = λ id b h. rw (sym (some-injective _ _ h)) refl;
  from_b58-b58_string = λ m. refl;
  decode_peer-peer_string = λ id. refl;
}

-- In UTC+02:00
two_hours_ahead : iso8601 services.clock 5 ≡ 5 ∷ 43 ∷ 48 ∷ 50 ∷ 48 ∷ 48 ∷ []
unfolding iso8601
two_hours_ahead = refl

mixed-IsNamed : All (IsNamedEntry (λ id. not (id == 0)) memory) mixed.providers
mixed-IsNamed = ((refl, refl, λ v. refl), ((refl, refl, λ v. refl), tt))

abbrev unrouted : HttpRequest Sent → HttpResponse Sent
unrouted q = http_error 404 []

abbrev to_http : HttpRequest Sent → Option (HttpResponse Sent)
to_http = serve formats services services_laws memory mixed mixed-IsNamed unrouted []

abbrev by_p2p : MessageType → Option Sent → Option (MessageType × Option Sent)
by_p2p = exchange formats services services_laws memory mixed mixed-IsNamed unrouted []

query_answered_example :
    let expected : List MultihashResult =
      record {
        multihash = 21;
        provider_results =
            provider_result_from_value (value 1 4) (101 ∷ [])
            ∷ provider_result_from_value (value 1 5) (101 ∷ [])
            ∷ [];
      }
      ∷ [] in
    (find formats services to_http 21 ≡ ok expected)
    × (find_batch formats services to_http (21 ∷ 22 ∷ []) ≡ ok expected)
    × (p2p_find_batch formats services [] by_p2p (21 ∷ 22 ∷ []) ≡ ok expected)
unfolding Finder.find find_loop find_values provider_info Dict.get Dict.put
query_answered_example =
    query_answered formats services services_laws memory mixed mixed-IsNamed unrouted [] 21
      (21 ∷ 22 ∷ [])

providers_answered_example :
    Gives (get_provider formats services to_http 2) none
    × Gives (p2p_get_provider formats services [] by_p2p 2) none
    × (list_providers formats services to_http
        ≡ ok (Finder.list_providers memory mixed services.clock))
    × (p2p_list_providers formats services [] by_p2p
        ≡ ok (Finder.list_providers memory mixed services.clock))
unfolding Finder.get_provider provider_info Dict.get
providers_answered_example =
    providers_answered formats services services_laws memory mixed mixed-IsNamed unrouted [] 2
