-- ===== src/Finder/Servers.antt =====
-- The servers of the finder: server/finder/http/handler.go with the routes of server.go, and
-- server/finder/libp2p/handler.go, over the handler's model. Reading a body from the network is outside,
-- and so are the web pages, /reframe and the version that /health tells.
use storetheindex.Prelude.{ℕ, ◌/◌, Option, none, some, List, [], ◌∷◌}
use storetheindex.PeerPolicy.{PeerId}
use storetheindex.Registry.State.{Env, Registry, Text, Cid}
use storetheindex.Ingest.Batches.{Multihash, Value}
use storetheindex.Finder.{Clock, ProviderModel, MultihashResult, find, get_provider, list_providers}
use storetheindex.Server.Errors.{
  Chars, GoError, plain, api, api_status, Formats, of_api, encode_error, libp2p_handle_error,
}
use storetheindex.Web.{
  Method, get_method, post_method, Segment, word, name, cid_word, multihash_word, providers_word,
  stats_word, HttpRequest, HttpResponse, Codec, http_error, write_json_response, handle_error,
}

-- The texts of the errors that are made here.
pub data Failure : Type 0 where
  bad_multihash bad_cid bad_request no_results bad_id not_found no_query : Failure
  no_response : Failure

-- What the servers call: the registry's environment, indexer.Get and indexer.Size, where none is an
-- error, go-multihash, go-cid and peer.Decode, encoding/json for what is sent, and the times of time.Time.
pub record Services (f : Formats) : Type 0 where
  pub get : Multihash → Option (Option (List Value))
  pub size : Option ℕ
  pub from_b58 : Text → Option Multihash
  pub b58_string : Multihash → Text
  pub decode_cid : Text → Option Cid
  pub hash : Cid → Multihash
  pub decode_peer : Text → Option PeerId
  pub peer_string : PeerId → Text
  pub find_request : Codec (List Multihash) f.Bytes
  pub find_response : Codec (List MultihashResult) f.Bytes
  pub provider : Codec ProviderModel f.Bytes
  pub providers : Codec (List ProviderModel) f.Bytes
  pub peer_id : Codec PeerId f.Bytes
  pub stats : Codec ℕ f.Bytes
  pub words : Failure → Chars
  pub clock : Clock

-- The types of a pb.FinderMessage that the code names.
pub data MessageType : Type 0 where
  error_response : MessageType
  find_type find_response_type : MessageType
  list_providers_type list_providers_response : MessageType
  get_provider_type get_provider_response : MessageType
  get_stats_type get_stats_response : MessageType
  unknown_type : ℕ → MessageType

-- The numbers of the types
abbrev pub tag : MessageType → ℕ
tag error_response = 0
tag find_type = 1
tag find_response_type = 2
tag list_providers_type = 3
tag list_providers_response = 4
tag get_provider_type = 5
tag get_provider_response = 6
tag get_stats_type = 7
tag get_stats_response = 8
tag (unknown_type n) = n

module _ (f : Formats) (s : Services f) (env : Env) (r : Registry env) where
  -- An answer, with the values whose contexts the indexer is told to remove.
  abbrev pub Answer : Type 0
  Answer = HttpResponse f.Bytes × List Value

  -- httpHandler.getIndexes
  unfoldable pub get_indexes : List Multihash → Answer
  get_indexes mhs =
      let (results, removed) = find env r s.get mhs in
      let response : HttpResponse f.Bytes = elim results [
        | none ↦ handle_error f (api (plain (s.words no_query)) 500)
        | some [] ↦ http_error 404 (s.words no_results)
        | some (x ∷ xs) ↦ elim (s.find_response.encode (x ∷ xs)) [
          | none ↦ http_error 500 []
          | some rb ↦ write_json_response 200 rb
        ]
      ] in
      (response, removed)

  -- httpHandler.find
  unfoldable pub find_handler : Text → Answer
  unfolding get_indexes
  find_handler mh_var = elim (s.from_b58 mh_var) [
    | none ↦ (handle_error f (plain (s.words bad_multihash)), [])
    | some m ↦ get_indexes (m ∷ [])
  ]

  -- httpHandler.findCid
  unfoldable pub find_cid : Text → Answer
  unfolding get_indexes
  find_cid cid_var = elim (s.decode_cid cid_var) [
    | none ↦ (handle_error f (plain (s.words bad_cid)), [])
    | some c ↦ get_indexes (s.hash c ∷ [])
  ]

  -- httpHandler.findBatch; none is a body that cannot be read.
  unfoldable pub find_batch : Option f.Bytes → Answer
  unfolding get_indexes
  find_batch none = (http_error 500 [], [])
  find_batch (some body) = elim (s.find_request.decode body) [
    | none ↦ (http_error 500 [], [])
    | some mhs ↦ get_indexes mhs
  ]

  -- httpHandler.listProviders, and ListProviders with its encoding
  unfoldable pub http_list_providers : Answer
  http_list_providers = (
    elim (s.providers.encode (list_providers env r s.clock)) [
      | none ↦ http_error 500 []
      | some data' ↦ write_json_response 200 data'
    ],
    [],
  )

  -- GetProvider with its encoding: none is an error, and some none an unknown provider.
  unfoldable pub provider_data : PeerId → Option (Option f.Bytes)
  provider_data id = elim (get_provider env r s.clock id) [
    | none ↦ some none
    | some p ↦ elim (s.provider.encode p) [ none ↦ none | some b ↦ some (some b) ]
  ]

  -- httpHandler.getProvider
  unfoldable pub http_get_provider : Text → Answer
  unfolding provider_data
  http_get_provider pid = elim (s.decode_peer pid) [
    | none ↦ (http_error 400 [], [])
    | some id ↦ elim (provider_data id) [
      | none ↦ (http_error 500 [], [])
      | some none ↦ (http_error 404 (s.words not_found), [])
      | some (some data') ↦ (write_json_response 200 data', [])
    ]
  ]

  -- FinderHandler.GetStats: none is an error of the indexer or of the encoding.
  unfoldable pub get_stats : Option f.Bytes
  get_stats = elim s.size [ none ↦ none | some size ↦ s.stats.encode (size / 40) ]

  -- httpHandler.getStats
  unfoldable pub http_get_stats : Answer
  unfolding get_stats
  http_get_stats = elim get_stats [
    | none ↦ (http_error 500 [], [])
    | some data' ↦ (write_json_response 200 data', [])
  ]

  -- The routes of the HTTP server: where none matches, the router answers by itself.
  unfoldable pub route : HttpRequest f.Bytes → Option Answer
  unfolding find_handler find_cid find_batch http_list_providers http_get_provider http_get_stats
  route q = by_path q.method q.path
    where
      by_path : Method → List Segment → Option Answer
      by_path get_method (word cid_word ∷ name cid ∷ []) = some (find_cid cid)
      by_path get_method (word multihash_word ∷ name m ∷ []) = some (find_handler m)
      by_path post_method (word multihash_word ∷ []) = some (find_batch q.body)
      by_path get_method (word providers_word ∷ []) = some http_list_providers
      by_path get_method (word providers_word ∷ name id ∷ []) = some (http_get_provider id)
      by_path get_method (word stats_word ∷ []) = some http_get_stats
      by_path _ _ = none

  -- The four handlers of libp2pHandler, on the data of the message, if it has any: an error, or the data
  -- of the response.
  unfoldable pub handle_find : Option f.Bytes → Option f.Bytes × Option GoError × List Value
  handle_find none = (none, some (plain (s.words bad_request)), [])
  handle_find (some body) = elim (s.find_request.decode body) [
    | none ↦ (none, some (plain (s.words bad_request)), [])
    | some mhs ↦
        let (results, removed) = find env r s.get mhs in
        elim results [
          | none ↦ (none, some (api (plain (s.words no_query)) 500), removed)
          | some rs ↦ elim (s.find_response.encode rs) [
            | none ↦ (none, some (plain (s.words no_response)), removed)
            | some data' ↦ (some data', none, removed)
          ]
        ]
  ]

  unfoldable pub handle_list_providers : Option f.Bytes × Option GoError
  handle_list_providers = elim (s.providers.encode (list_providers env r s.clock)) [
    | none ↦ (none, some (api_status 500))
    | some data' ↦ (some data', none)
  ]

  unfoldable pub handle_get_provider : Option f.Bytes → Option f.Bytes × Option GoError
  unfolding provider_data
  handle_get_provider none = (none, some (api (plain (s.words bad_id)) 400))
  handle_get_provider (some body) = elim (s.peer_id.decode body) [
    | none ↦ (none, some (api (plain (s.words bad_id)) 400))
    | some id ↦ elim (provider_data id) [
      | none ↦ (none, some (api_status 500))
      | some none ↦ (none, some (api (plain (s.words not_found)) 404))
      | some (some data') ↦ (some data', none)
    ]
  ]

  unfoldable pub handle_get_stats : Option f.Bytes × Option GoError
  unfolding get_stats
  handle_get_stats = elim get_stats [
    | none ↦ (none, some (api_status 500))
    | some data' ↦ (some data', none)
  ]

  -- The end of HandleMessage
  unfoldable pub finish :
      MessageType → Option f.Bytes → Option GoError → MessageType × Option f.Bytes
  finish t data' none = (t, data')
  finish t data' (some e) =
      (error_response, some (encode_error f (of_api (libp2p_handle_error f e))))

  -- libp2pHandler.HandleMessage on a message that could be unmarshalled: none ends the stream.
  unfoldable pub handle_message :
      MessageType → Option f.Bytes → Option (MessageType × Option f.Bytes) × List Value
  unfolding handle_find handle_list_providers handle_get_provider handle_get_stats finish
  handle_message find_type body =
      let (data', e, removed) = handle_find body in
      (some (finish find_response_type data' e), removed)
  handle_message get_provider_type body =
      let (data', e) = handle_get_provider body in (some (finish get_provider_response data' e), [])
  handle_message list_providers_type body =
      let (data', e) = handle_list_providers in (some (finish list_providers_response data' e), [])
  handle_message get_stats_type body =
      let (data', e) = handle_get_stats in (some (finish get_stats_response data' e), [])
  handle_message t body = (none, [])
