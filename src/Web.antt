-- ===== src/Web.antt =====
-- Requests and responses of the HTTP servers and clients: api/v0/httpclient, and what both sides share.
-- A path is a list of segments; the bodies that carry data are bytes, the others texts.
use storetheindex.Prelude.{
  ℕ, ◌≡◌, Bool, ◌||◌, ◌&&◌, Option, some, List, [], ◌∷◌, leb, ◌==◌, if◌then◌else◌,
}
use storetheindex.Registry.State.{Text}
use storetheindex.Server.Errors.{Chars, GoError, plain, Formats, ApiError, text}
use storetheindex.Server.Errors

pub data Method : Type 0 where
  get_method post_method put_method delete_method : Method

-- The words of the routes.
pub data Word : Type 0 where
  cid_word multihash_word health_word providers_word stats_word : Word
  announce_word discover_word register_word ingest_word content_word : Word
  import_word manifest_word cidlist_word healthcheck_word importproviders_word : Word
  reloadconfig_word allow_word block_word sync_word : Word

pub data Segment : Type 0 where
  word : Word → Segment
  name : Text → Segment

module _ (B : Type 0) where
  pub data Body : Type 0 where
    no_body : Body
    message : Chars → Body
    bytes : B → Body

  pub record HttpRequest : Type 0 where
    pub method : Method
    pub path : List Segment
    pub query : List (Text × Text)
    pub body : Option B

  pub record HttpResponse : Type 0 where
    pub code : ℕ
    pub body : Body

-- json.Marshal and json.Unmarshal for a type
pub record Codec (A B : Type 0) : Type 0 where
  pub encode : A → Option B
  pub decode : B → Option A

-- Values of the type are written, and read back.
pub record IsCodec {A B : Type 0} (c : Codec A B) : Type 0 where
  pub written : (a : A) → (b : B) × (c.encode a ≡ some b)
  pub decode-encode : (a : A) (b : B) → c.encode a ≡ some b → c.decode b ≡ some a

-- unicode.IsSpace
is_space : ℕ → Bool
is_space c =
    (leb 9 c && leb c 13)
    || (c == 32)
    || (c == 133)
    || (c == 160)
    || (c == 5760)
    || (leb 8192 c && leb c 8202)
    || (c == 8232)
    || (c == 8233)
    || (c == 8239)
    || (c == 8287)
    || (c == 12288)

trim_left : Chars → Chars
unfolding is_space
trim_left [] = []
trim_left (c ∷ cs) = let rest = trim_left cs in if is_space c then rest else c ∷ cs

backwards : Chars → Chars → Chars
backwards [] onto = onto
backwards (c ∷ cs) onto = backwards cs (c ∷ onto)

-- strings.TrimSpace
unfoldable pub trim_space : Chars → Chars
unfolding trim_left backwards
trim_space cs = backwards (trim_left (backwards (trim_left cs) [])) []

-- httpclient.ReadError
unfoldable pub read_error : Formats → ℕ → Chars → GoError
unfolding trim_space
read_error f status body =
    plain (text f (record { err = some (plain (trim_space body)); status = status }))

-- What a client's call comes to, if not to a value.
pub data ClientError : Type 0 where
  not_made not_sent not_decoded unexpected : ClientError
  failed : GoError → ClientError
  query_failed : ℕ → ClientError

-- An answer of http.Error, and those of HandleError and WriteJsonResponse in internal/httpserver/util.go
module _ {B : Type 0} where
  abbrev pub http_error : ℕ → Chars → HttpResponse B
  http_error code words = record { code = code; body = message words }

  abbrev pub write_json_response : ℕ → B → HttpResponse B
  write_json_response code b = record { code = code; body = bytes b }

  abbrev pub status_only : ℕ → HttpResponse B
  status_only code = record { code = code; body = no_body }

  -- The text of a body that a client reads for an error
  abbrev pub body_text : Body B → Chars
  body_text no_body = []
  body_text (message words) = words
  body_text (bytes b) = []

abbrev pub handle_error : (f : Formats) → GoError → HttpResponse f.Bytes
handle_error f e =
    let r = Errors.http_handle_error f e in record { code = r.code; body = message r.body }
