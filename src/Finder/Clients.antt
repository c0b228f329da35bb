-- ===== src/Finder/Clients.antt =====
-- The finder's clients: api/v0/finder/client/http/client.go, over what sending a request gives, and
-- api/v0/finder/client/libp2p/client.go, over what SendRequest of the libp2p client gives.
mod Named
mod Encodings
mod Laws
mod Tests
use storetheindex.Prelude.{ℕ, Bool, Option, none, some, List, [], ◌∷◌, ◌==◌, if◌then◌else◌}
use storetheindex.Prelude.Result.{Result, ok, err}
use storetheindex.PeerPolicy.{PeerId}
use storetheindex.Ingest.Batches.{Multihash}
use storetheindex.Finder.{ProviderModel, MultihashResult}
use storetheindex.Finder.Servers.{
  Services, MessageType, error_response, find_type, find_response_type, list_providers_type,
  list_providers_response, get_provider_type, get_provider_response, get_stats_type,
  get_stats_response, tag,
}
use storetheindex.Server.Errors.{Chars, Formats, decode_error}
use storetheindex.Web.{
  Method, get_method, post_method, Segment, word, name, multihash_word, providers_word, stats_word,
  HttpRequest, HttpResponse, Body, no_body, message, bytes, Codec, ClientError, not_made, not_sent,
  not_decoded, unexpected, failed, query_failed, read_error, body_text,
}

-- json.Unmarshal of a body
abbrev pub decode_body : {A B : Type 0} → Codec A B → Body B → Result ClientError A
decode_body c no_body = err not_decoded
decode_body c (message words) = err not_decoded
decode_body c (bytes b) = elim (c.decode b) [ none ↦ err not_decoded | some a ↦ ok a ]

module _ (f : Formats) (s : Services f) where
  abbrev pub request : Method → List Segment → Option f.Bytes → HttpRequest f.Bytes
  request method path body = record { method = method; path = path; query = []; body = body }

  module _ (send : HttpRequest f.Bytes → Option (HttpResponse f.Bytes)) where
    -- sendRequest, where an empty list is an empty FindResponse
    unfoldable pub send_request : HttpRequest f.Bytes → Result ClientError (List MultihashResult)
    send_request q = elim (send q) [
      | none ↦ err not_sent
      | some resp ↦
          if resp.code == 200
          then decode_body s.find_response resp.body
          else if resp.code == 404
          then ok []
          else err (query_failed resp.code)
    ]

    -- Client.Find
    unfoldable pub find : Multihash → Result ClientError (List MultihashResult)
    unfolding send_request
    find m =
        send_request (request get_method (word multihash_word ∷ name (s.b58_string m) ∷ []) none)

    -- Client.FindBatch
    unfoldable pub find_batch : List Multihash → Result ClientError (List MultihashResult)
    unfolding send_request
    find_batch [] = ok []
    find_batch (m ∷ mhs) = elim (s.find_request.encode (m ∷ mhs)) [
      | none ↦ err not_made
      | some data' ↦ send_request (request post_method (word multihash_word ∷ []) (some data'))
    ]

    -- What ListProviders, GetProvider and GetStats have in common
    fetch : {A : Type 0} → Codec A f.Bytes → List Segment → Result ClientError A
    fetch c path = elim (send (request get_method path none)) [
      | none ↦ err not_sent
      | some resp ↦
          if resp.code == 200
          then decode_body c resp.body
          else err (failed (read_error f resp.code (body_text resp.body)))
    ]

    -- Client.ListProviders
    unfoldable pub list_providers : Result ClientError (List ProviderModel)
    unfolding fetch
    list_providers = fetch s.providers (word providers_word ∷ [])

    -- Client.GetProvider
    unfoldable pub get_provider : PeerId → Result ClientError ProviderModel
    unfolding fetch
    get_provider id = fetch s.provider (word providers_word ∷ name (s.peer_string id) ∷ [])

    -- Client.GetStats
    unfoldable pub get_stats : Result ClientError ℕ
    unfolding fetch
    get_stats = fetch s.stats (word stats_word ∷ [])

  -- The libp2p client; `prefix` is the text of DecodeError for what it cannot read.
  module _ (prefix : Chars)
      (exchange : MessageType → Option f.Bytes → Option (MessageType × Option f.Bytes)) where
    -- sendRecv: an error without data is none.
    unfoldable pub send_recv :
        MessageType → Option f.Bytes → MessageType → Result ClientError (Option f.Bytes)
    send_recv t body expected = elim (exchange t body) [
      | none ↦ err not_sent
      | some (t', data') ↦
          if tag t' == tag expected
          then ok data'
          else if tag t' == tag error_response
          then elim data' [ none ↦ ok none | some b ↦ err (failed (decode_error f prefix b)) ]
          else err unexpected
    ]

    -- A request of a type and what it asks for, and the decoding of the data of the response
    receive :
        {A : Type 0}
        → Codec A f.Bytes
        → MessageType
        → Option f.Bytes
        → MessageType
        → Result ClientError A
    unfolding send_recv
    receive c t body expected = elim (send_recv t body expected) [
      | err e ↦ err e
      | ok none ↦ err not_decoded
      | ok (some b) ↦ elim (c.decode b) [ none ↦ err not_decoded | some a ↦ ok a ]
    ]

    -- Client.FindBatch, and Client.Find for one multihash
    unfoldable pub p2p_find_batch : List Multihash → Result ClientError (List MultihashResult)
    unfolding receive
    p2p_find_batch [] = ok []
    p2p_find_batch (m ∷ mhs) = elim (s.find_request.encode (m ∷ mhs)) [
      | none ↦ err not_made
      | some data' ↦ receive s.find_response find_type (some data') find_response_type
    ]

    -- Client.GetProvider
    unfoldable pub p2p_get_provider : PeerId → Result ClientError ProviderModel
    unfolding receive
    p2p_get_provider id = elim (s.peer_id.encode id) [
      | none ↦ err not_made
      | some data' ↦ receive s.provider get_provider_type (some data') get_provider_response
    ]

    -- Client.ListProviders
    unfoldable pub p2p_list_providers : Result ClientError (List ProviderModel)
    unfolding receive
    p2p_list_providers = receive s.providers list_providers_type none list_providers_response

    -- Client.GetStats
    unfoldable pub p2p_get_stats : Result ClientError ℕ
    unfolding receive
    p2p_get_stats = receive s.stats get_stats_type none get_stats_response
