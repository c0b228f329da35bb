-- ===== src/Admin/Handler.antt =====
-- The handlers of server/admin/http/handler.go with the routes of server.go, but for those of the metrics
-- and of the log levels. Reading a body from the network is outside.
pub mod Client
mod Laws
mod Tests
use storetheindex.Prelude.{
  ℕ, Bool, false, Option, none, some, List, [], ◌∷◌, ◌++◌, ◌==◌, if◌then◌else◌,
}
use storetheindex.Prelude.Ints.{ℤ, pos}
use storetheindex.Prelude.Result.{ok, err}
use storetheindex.PeerPolicy.{PeerId}
use storetheindex.Registry.Policy.{allow_peer, block_peer}
use storetheindex.Registry.State.{Env, Registry, Text, Addr}
use storetheindex.Registry.Import.{import_providers}
use storetheindex.Finder.{ProviderModel}
use storetheindex.Ingest.Batches.{Core}
use storetheindex.Server.Errors.{Chars, Formats}
use storetheindex.Admin.Importer
use storetheindex.Admin.Importer.{Params, import_manifest, import_cid_list}
use storetheindex.Web.{
  Method, get_method, post_method, put_method, Segment, word, name, ingest_word, allow_word,
  block_word, sync_word, import_word, manifest_word, cidlist_word, healthcheck_word,
  importproviders_word, reloadconfig_word, HttpRequest, HttpResponse, http_error, status_only,
}

-- The texts of the errors that are made here.
pub data Failure : Type 0 where
  bad_peer bad_depth bad_resync bad_addr no_sync : Failure
  bad_params no_indexer bad_url no_providers not_reloaded : Failure

-- What the handlers call: the environment of the registry and the indexer core, peer.Decode, strconv,
-- encoding/json for a text, NewMultiaddr, what getParams and os.Open find, the map of importProviders, and
-- ListProviders of the other indexer. The text 0 is the empty one.
pub record Services (f : Formats) : Type 1 where
  pub env : Env
  pub core : Core
  pub importer : Importer.Formats
  pub stops : ℕ → Bool
  pub checks : ℕ → Bool
  pub decode_peer : Text → Option PeerId
  pub parse_int : Text → Option ℤ
  pub parse_bool : Text → Option Bool
  pub unmarshal_text : f.Bytes → Option Text
  pub new_multiaddr : Text → Option Addr
  pub get_params : f.Bytes → Option Params
  pub unmarshal_map : f.Bytes → Option (Option f.Bytes)
  pub unmarshal_url : f.Bytes → Option Text
  pub list_providers : Text → Option (List ProviderModel)
  pub words : Failure → Chars

-- A call of Ingester.Sync
pub record SyncCall : Type 0 where
  pub peer : PeerId
  pub addr : Option Addr
  pub depth : ℤ
  pub resync : Bool

-- The keys of the query, and query.Get
abbrev pub depth_key : Text
depth_key = 1

abbrev pub resync_key : Text
resync_key = 2

abbrev pub query_get : List (Text × Text) → Text → Text
query_get [] k = 0
query_get ((k', v) ∷ q) k = if k' == k then v else query_get q k

module _ (f : Formats) (s : Services f) where
  -- The registry, the indexer core, and the syncs that the ingester was asked for.
  pub record Admin : Type 0 where
    pub registry : Registry s.env
    pub index : s.core.State
    pub syncs : List SyncCall

  abbrev pub Answer : Type 0
  Answer = Admin × Option (HttpResponse f.Bytes)

  abbrev pub answer : Admin → HttpResponse f.Bytes → Answer
  answer a r = (a, some r)

  -- decodePeerID, and what follows where it succeeds
  unfoldable pub decode_peer_id : Text → Admin → (PeerId → Answer) → Answer
  decode_peer_id id a then_do = elim (s.decode_peer id) [
    | none ↦ answer a (http_error 400 (s.words bad_peer))
    | some peer ↦ then_do peer
  ]

  -- adminHandler.allowPeer, with Registry.AllowPeer
  unfoldable pub allow_handler : Admin → Text → Answer
  unfolding decode_peer_id
  allow_handler a id = decode_peer_id id a λ peer.
      answer
        (record a {
          registry = record a.registry { policy = (allow_peer a.registry.policy peer).0 };
        })
        (status_only 200)

  -- adminHandler.blockPeer, with Registry.BlockPeer
  unfoldable pub block_handler : Admin → Text → Answer
  unfolding decode_peer_id
  block_handler a id = decode_peer_id id a λ peer.
      answer
        (record a {
          registry = record a.registry { policy = (block_peer a.registry.policy peer).0 };
        })
        (status_only 200)

  -- The parameters of a sync: none is one that cannot be parsed.
  unfoldable pub parse_depth : List (Text × Text) → Option ℤ
  parse_depth q = let t = query_get q depth_key in if t == 0 then some (pos 0) else s.parse_int t

  unfoldable pub parse_resync : List (Text × Text) → Option Bool
  parse_resync q = let t = query_get q resync_key in if t == 0 then some false else s.parse_bool t

  unfoldable pub parse_addr : Option f.Bytes → Option (Option Addr)
  parse_addr none = some none
  parse_addr (some data') = elim (s.unmarshal_text data') [
    | none ↦ none
    | some v ↦ elim (s.new_multiaddr v) [ none ↦ none | some addr ↦ some (some addr) ]
  ]

  -- adminHandler.sync, where Ingester.Sync refuses an invalid peer ID
  unfoldable pub sync_handler : Admin → Text → List (Text × Text) → Option f.Bytes → Answer
  unfolding decode_peer_id parse_depth parse_resync parse_addr
  sync_handler a id query body = decode_peer_id id a λ peer. elim (parse_depth query) [
    | none ↦ answer a (http_error 400 (s.words bad_depth))
    | some depth ↦ elim (parse_resync query) [
      | none ↦ answer a (http_error 400 (s.words bad_resync))
      | some resync ↦ elim (parse_addr body) [
        | none ↦ answer a (http_error 400 (s.words bad_addr))
        | some addr ↦
            if s.env.valid peer
            then answer
                (record a {
                  syncs =
                      a.syncs
                      ++ (record { peer = peer; addr = addr; depth = depth; resync = resync } ∷ []);
                })
                (status_only 202)
            else answer a (http_error 502 (s.words no_sync))
      ]
    ]
  ]

  -- adminHandler.importProviders: a panic of the registry gives no answer.
  unfoldable pub import_providers_handler : Admin → Option f.Bytes → Answer
  import_providers_handler a none = answer a (http_error 400 (s.words bad_params))
  import_providers_handler a (some body) = elim (s.unmarshal_map body) [
    | none ↦ answer a (http_error 400 (s.words bad_params))
    | some none ↦ answer a (http_error 400 (s.words no_indexer))
    | some (some from) ↦ elim (s.unmarshal_url from) [
      | none ↦ answer a (http_error 400 (s.words bad_url))
      | some url ↦
          let (r', result) = import_providers s.env a.registry (s.list_providers url) in
          let a' = record a { registry = r' } in
          elim result [
            | none ↦ answer a' (http_error 502 (s.words no_providers))
            | some (err e) ↦ (a', none)
            | some (ok infos) ↦ answer a' (status_only 200)
          ]
    ]
  ]

  -- adminHandler.reloadConfig, on whether the daemon could reload
  unfoldable pub reload_handler : Admin → Bool → Answer
  reload_handler a reloaded =
      answer a (if reloaded then status_only 200 else http_error 500 (s.words not_reloaded))

  params_of : Option f.Bytes → Option Params
  params_of none = none
  params_of (some body) = s.get_params body

  -- importManifest and importCidList on their requests
  unfoldable pub manifest_handler : Admin → Text → Option f.Bytes → Answer
  unfolding params_of
  manifest_handler a provider body =
      let (index', code) =
        import_manifest s.core s.importer s.stops s.checks a.index provider (params_of body) in
      answer (record a { index = index' }) (status_only code)

  unfoldable pub cid_list_handler : Admin → Text → Option f.Bytes → Answer
  unfolding params_of
  cid_list_handler a provider body =
      let (index', code) =
        import_cid_list s.core s.importer s.stops a.index provider (params_of body) in
      answer (record a { index = index' }) (status_only code)

  -- The routes; `reloaded` is what a reload would come to.
  unfoldable pub route : Bool → Admin → HttpRequest f.Bytes → Option Answer
  unfolding allow_handler block_handler sync_handler import_providers_handler reload_handler
  route reloaded a q = by_path q.method q.path
    where
      by_path : Method → List Segment → Option Answer
      by_path post_method (word import_word ∷ word manifest_word ∷ name id ∷ []) =
          some (manifest_handler a id q.body)
      by_path post_method (word import_word ∷ word cidlist_word ∷ name id ∷ []) =
          some (cid_list_handler a id q.body)
      by_path get_method (word healthcheck_word ∷ []) = some (answer a (status_only 200))
      by_path post_method (word importproviders_word ∷ []) =
          some (import_providers_handler a q.body)
      by_path post_method (word reloadconfig_word ∷ []) = some (reload_handler a reloaded)
      by_path put_method (word ingest_word ∷ word allow_word ∷ name id ∷ []) =
          some (allow_handler a id)
      by_path put_method (word ingest_word ∷ word block_word ∷ name id ∷ []) =
          some (block_handler a id)
      by_path post_method (word ingest_word ∷ word sync_word ∷ name id ∷ []) =
          some (sync_handler a id q.query q.body)
      by_path _ _ = none
