-- ===== src/Admin/Handler/Client.antt =====
-- The client of the administration, api/v0/admin/client/http/client.go, over what sending a request gives.
use storetheindex.Prelude.{
  ℕ, Bool, ◌||◌, Option, none, some, List, [], ◌∷◌, ◌++◌, ◌==◌, if◌then◌else◌,
}
use storetheindex.Prelude.Ints.{ℤ, is_zero}
use storetheindex.PeerPolicy.{PeerId}
use storetheindex.Registry.State.{Text, Addr}
use storetheindex.Server.Errors.{Formats}
use storetheindex.Admin.Handler.{depth_key, resync_key}
use storetheindex.Web.{
  Method, post_method, put_method, Segment, Word, word, name, ingest_word, allow_word, block_word,
  sync_word, importproviders_word, reloadconfig_word, import_word, manifest_word, cidlist_word,
  HttpRequest, HttpResponse, ClientError, not_made, not_sent, failed, query_failed, read_error,
  body_text,
}

-- What the client calls: peer.ID.String, strconv, MarshalJSON of an address, MarshalBinary of a URL, the
-- map that it is sent in, and the parameters of an import, where the file can be opened.
pub record Services (f : Formats) : Type 0 where
  pub peer_string : PeerId → Text
  pub format_int : ℤ → Text
  pub format_bool : Bool → Text
  pub marshal_addr : Addr → Option f.Bytes
  pub marshal_url : Text → Option f.Bytes
  pub marshal_map : f.Bytes → Option f.Bytes
  pub marshal_params : Text → ℕ → ℕ → Option f.Bytes

-- The pairs of a query: none where a key has no value.
abbrev pub pairs : List Text → Option (List (Text × Text))
pairs [] = some []
pairs (k ∷ []) = none
pairs (k ∷ v ∷ more) = elim (pairs more) [ none ↦ none | some q ↦ some ((k, v) ∷ q) ]

module _ (f : Formats) (c : Services f) {S : Type 0}
    (send : S → HttpRequest f.Bytes → S × Option (HttpResponse f.Bytes)) where
  -- A request whose answer has one of two codes, or is an error
  unfoldable pub exchange : ℕ → ℕ → S → HttpRequest f.Bytes → S × Option ClientError
  exchange code code' st q =
      let (st', r) = send st q in
      (
        st',
        elim r [
          | none ↦ some not_sent
          | some resp ↦
              if (resp.code == code) || (resp.code == code')
              then none
              else some (failed (read_error f resp.code (body_text resp.body)))
        ],
      )

  -- ingestRequest
  unfoldable pub ingest_request :
      S → PeerId → Word → Method → Option f.Bytes → List Text → S × Option ClientError
  unfolding exchange
  ingest_request st peer action method data' query_pairs = elim (pairs query_pairs) [
    | none ↦ (st, some not_made)
    | some q ↦ exchange 200 202 st (record {
      method = method;
      path = word ingest_word ∷ word action ∷ name (c.peer_string peer) ∷ [];
      query = q;
      body = data';
    })
  ]

  -- The query of a sync
  unfoldable pub sync_query : ℤ → Bool → List Text
  sync_query depth resync =
      (if is_zero depth then [] else depth_key ∷ c.format_int depth ∷ [])
      ++ (if resync then resync_key ∷ c.format_bool resync ∷ [] else [])

  -- Client.Sync
  unfoldable pub sync : S → PeerId → Option Addr → ℤ → Bool → S × Option ClientError
  unfolding ingest_request sync_query
  sync st peer none depth resync =
      ingest_request st peer sync_word post_method none (sync_query depth resync)
  sync st peer (some addr) depth resync = elim (c.marshal_addr addr) [
    | none ↦ (st, some not_made)
    | some data' ↦
        ingest_request st peer sync_word post_method (some data') (sync_query depth resync)
  ]

  -- Client.Allow and Client.Block
  unfoldable pub allow : S → PeerId → S × Option ClientError
  unfolding ingest_request
  allow st peer = ingest_request st peer allow_word put_method none []

  unfoldable pub block : S → PeerId → S × Option ClientError
  unfolding ingest_request
  block st peer = ingest_request st peer block_word put_method none []

  post : S → List Segment → Option f.Bytes → S × Option ClientError
  unfolding exchange
  post st path body =
      exchange 200 200 st (record { method = post_method; path = path; query = []; body = body })

  -- Client.ImportProviders; the text 0 is a URL that is missing or empty.
  unfoldable pub import_providers : S → Text → S × Option ClientError
  unfolding post
  import_providers st from_url =
      if from_url == 0 then (st, some not_made) else elim (c.marshal_url from_url) [
        | none ↦ (st, some not_made)
        | some bin_url ↦ elim (c.marshal_map bin_url) [
          | none ↦ (st, some not_made)
          | some body ↦ post st (word importproviders_word ∷ []) (some body)
        ]
      ]

  -- Client.ReloadConfig
  unfoldable pub reload_config : S → S × Option ClientError
  unfolding post
  reload_config st = post st (word reloadconfig_word ∷ []) none

  -- newUploadRequest, and what the two imports do with it
  upload : Word → S → Text → PeerId → ℕ → ℕ → S × Option ClientError
  upload kind st file_name prov_id context_id metadata =
      elim (c.marshal_params file_name context_id metadata) [
        | none ↦ (st, some not_made)
        | some body ↦
            let (st', r) = send st (record {
              method = post_method;
              path = word import_word ∷ word kind ∷ name (c.peer_string prov_id) ∷ [];
              query = [];
              body = some body;
            }) in
            (
              st',
              elim r [
                | none ↦ some not_sent
                | some resp ↦ if resp.code == 200 then none else some (query_failed resp.code)
              ],
            )
      ]

  -- Client.ImportFromManifest and Client.ImportFromCidList
  unfoldable pub import_from_manifest : S → Text → PeerId → ℕ → ℕ → S × Option ClientError
  unfolding upload
  import_from_manifest st file_name prov_id context_id metadata =
      upload manifest_word st file_name prov_id context_id metadata

  unfoldable pub import_from_cid_list : S → Text → PeerId → ℕ → ℕ → S × Option ClientError
  unfolding upload
  import_from_cid_list st file_name prov_id context_id metadata =
      upload cidlist_word st file_name prov_id context_id metadata
