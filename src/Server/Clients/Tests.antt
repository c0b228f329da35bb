-- ===== src/Server/Clients/Tests.antt =====
-- Instances for the clients of the ingest servers: provider 1 at the address 9, with the key 5.
use storetheindex.Prelude.{◌≡◌, ◌≢◌, refl, none, [], ◌∷◌}
use storetheindex.Server.Errors.{Chars}
use storetheindex.Server.Errors.Tests.{formats}
use storetheindex.Server.Requests.{
  ingest, peer_record, ingest_domain, peer_record_domain, make_register_request,
  make_ingest_request, make_request_envelop, domain,
}
use storetheindex.Registry.Register.{is_empty}
use storetheindex.Registry.Update.{strings_to_multiaddrs}
use storetheindex.Server.Handler
use storetheindex.Server.Handler.{Refusal, register_provider}
use storetheindex.Server.Handler.Tests.{services, handler, at}
use storetheindex.Server.Clients.{Cbor, index_content, register, p2p_register, p2p_index_content}
use storetheindex.Server.Clients.Laws.{serve, answer, Follows, register_asked, index_content_asked}
use storetheindex.Web.{HttpRequest, HttpResponse, http_error}

abbrev words : Refusal → Chars
words x = 1 ∷ []

abbrev cbor : Cbor services formats words
cbor = record { bytes_of = λ b. []; marshal = λ root provider. none }

abbrev unrouted : HttpRequest services.envelopes.Bytes → HttpResponse services.envelopes.Bytes
unrouted q = http_error 404 []

register_asked_example :
    let asked =
      register_provider services handler
        (at 1000)
        (peer_record_domain, 5, peer_record (record { peer_id = 1; addrs = 9 ∷ []; seq = 950 })) in
    Follows services formats words
      (at 1000)
      (register services formats words
        (serve services formats words (at 1000) cbor unrouted)
        950
        handler
        1
        5
        (9 ∷ []))
      asked
    × Follows services formats words
        (at 1000)
        (p2p_register services formats words []
          (answer services formats words (at 1000))
          950
          handler
          1
          5
          (9 ∷ []))
        asked
unfolding make_register_request make_request_envelop domain is_empty strings_to_multiaddrs
register_asked_example =
    register_asked services formats words (at 1000) cbor unrouted [] 950 handler 1 5 (9 ∷ [])
      (peer_record_domain, 5, peer_record (record { peer_id = 1; addrs = 9 ∷ []; seq = 950 })) refl

index_content_asked_example :
    let sent =
      index_content services formats words
        (serve services formats words (at 1000) cbor unrouted)
        950
        handler
        1
        5
        21
        64
        5
        (9 ∷ []) in
    Follows services formats words
      (at 1000)
      (p2p_index_content services formats words []
        (answer services formats words (at 1000))
        950
        handler
        1
        5
        21
        64
        5
        (9 ∷ []))
      (Handler.index_content services handler (at 1000) (
        ingest_domain,
        5,
        ingest (record {
          multihash = 21;
          provider_id = 1;
          context_id = 64;
          metadata = 5;
          addrs = 9 ∷ [];
          seq = 950;
        }),
      ))
    × (sent.0 ≡ handler)
    × (sent.1 ≢ none)
unfolding make_ingest_request make_request_envelop domain
index_content_asked_example =
    index_content_asked services formats words (at 1000) cbor unrouted (λ q. refl) [] 950 handler 1
      5 21 64 5 (9 ∷ [])
      (
        ingest_domain,
        5,
        ingest (record {
          multihash = 21;
          provider_id = 1;
          context_id = 64;
          metadata = 5;
          addrs = 9 ∷ [];
          seq = 950;
        }),
      )
      refl
