-- ===== src/Server/Clients.antt =====
-- The clients of the ingest servers, api/v0/ingest/client/http/ingest.go and api/v0/ingest/client/libp2p,
-- and the routes of server/ingest/http/server.go.
mod Laws
mod Tests
use storetheindex.Prelude.{ℕ, Option, none, some, List, [], ◌∷◌, ◌||◌, ◌==◌, if◌then◌else◌}
use storetheindex.PeerPolicy.{PeerId}
use storetheindex.Registry.State.{Env, Text, Addr, AddrInfo, Cid}
use storetheindex.Ingest.Batches.{Multihash}
use storetheindex.Server.Errors.{Chars, Formats, Response, decode_error}
use storetheindex.Server.Requests.{make_register_request, make_ingest_request}
use storetheindex.Server.Handler.{Services, Handler, Now, Refusal}
use storetheindex.Server.Transport.{
  MessageType, error_response, discover_provider_type, discover_provider_response,
  register_provider_type, register_provider_response, remove_provider_type,
  remove_provider_response, index_content_type, index_content_response, unknown_type, Reply,
  no_reply, crash, reply, http_discover_provider, http_register_provider, http_remove_provider,
  http_announce, handle_message,
}
use storetheindex.Web.{
  Method, post_method, put_method, delete_method, Segment, word, name, announce_word, discover_word,
  register_word, ingest_word, content_word, HttpRequest, HttpResponse, message, ClientError,
  not_made, not_sent, unexpected, failed, read_error, body_text,
}

-- The numbers of the types
abbrev pub tag : MessageType → ℕ
tag error_response = 0
tag discover_provider_type = 1
tag discover_provider_response = 2
tag register_provider_type = 3
tag register_provider_response = 4
tag remove_provider_type = 5
tag remove_provider_response = 6
tag index_content_type = 7
tag index_content_response = 8
tag (unknown_type n) = n

module _ (s : Services) (f : Formats) (words : Refusal → Chars) where
  -- The bytes of a body, as UnmarshalCBOR reads them, and those of a dtsync.Message with the addresses of
  -- a peer, if they can be written.
  pub record Cbor : Type 0 where
    pub bytes_of : s.envelopes.Bytes → List ℕ
    pub marshal : Cid → AddrInfo → Option s.envelopes.Bytes

  abbrev pub Answer : Type 0
  Answer = Handler s × Option (Response f)

  -- The routes of the HTTP server
  unfoldable pub route : Cbor → Handler s → Now s → HttpRequest s.envelopes.Bytes → Option Answer
  route cbor h now q = by_path q.method q.path
    where
      text_of : Option s.envelopes.Bytes → List ℕ
      text_of none = []
      text_of (some b) = cbor.bytes_of b

      by_path : Method → List Segment → Option Answer
      by_path put_method (word ingest_word ∷ word announce_word ∷ []) =
          some (http_announce s f words h (text_of q.body))
      by_path post_method (word discover_word ∷ []) =
          some (http_discover_provider s f words h now q.body)
      by_path post_method (word register_word ∷ []) =
          some (http_register_provider s f words h now q.body)
      by_path delete_method (word register_word ∷ name id ∷ []) =
          some (http_remove_provider s f words h)
      by_path _ _ = none

  module _ {S : Type 0}
      (send : S → HttpRequest s.envelopes.Bytes → S × Option (HttpResponse s.envelopes.Bytes)) where
    -- Sending a request, whose answer has one of two codes or is an error
    unfoldable pub exchange : ℕ → ℕ → S → HttpRequest s.envelopes.Bytes → S × Option ClientError
    exchange code code' st q =
        let (st', r) = send st q in
        (
          st',
          elim r [
            | none ↦ some not_sent
            | some resp ↦
                if (resp.code == code) || (resp.code == code')
                then none
                else some (failed (read_error f resp.code (body_text resp.body)))
          ],
        )

    put_or_post : Method → List Segment → ℕ → S → Option s.envelopes.Bytes → S × Option ClientError
    unfolding exchange
    put_or_post method path code st none = (st, some not_made)
    put_or_post method path code st (some b) =
        exchange 200 code st (record { method = method; path = path; query = []; body = some b })

    -- Client.IndexContent, at the time `seq`
    unfoldable pub index_content :
        ℕ
        → S
        → PeerId
        → s.envelopes.PrivKey
        → Multihash
        → ℕ
        → ℕ
        → List Text
        → S × Option ClientError
    unfolding put_or_post
    index_content seq st id key m context_id metadata addrs =
        put_or_post post_method (word ingest_word ∷ word content_word ∷ []) 200 st
          (make_ingest_request s.envelopes seq id key m context_id metadata addrs)

    -- Client.Announce
    unfoldable pub announce : Cbor → S → AddrInfo → Cid → S × Option ClientError
    unfolding put_or_post
    announce cbor st provider root =
        put_or_post put_method (word ingest_word ∷ word announce_word ∷ []) 204 st
          (cbor.marshal root provider)

    -- Client.Register, at the time `seq`
    unfoldable pub register :
        ℕ → S → PeerId → s.envelopes.PrivKey → List Text → S × Option ClientError
    unfolding put_or_post
    register seq st id key addrs =
        put_or_post post_method (word register_word ∷ []) 200 st
          (make_register_request s.envelopes s.env seq id key addrs)

  -- The libp2p client; `prefix` is the text of DecodeError for what it cannot read.
  module _ {S : Type 0} (prefix : Chars)
      (send_request : S
        → MessageType
        → s.envelopes.Bytes
        → S × Option (MessageType × Option f.Bytes)) where
    -- sendRecv, without the data, which its callers drop
    unfoldable pub send_recv :
        S → MessageType → s.envelopes.Bytes → MessageType → S × Option ClientError
    send_recv st t body expected =
        let (st', r) = send_request st t body in
        (
          st',
          elim r [
            | none ↦ some not_sent
            | some (t', data') ↦
                if tag t' == tag expected
                then none
                else if tag t' == tag error_response
                then elim data' [ none ↦ none | some b ↦ some (failed (decode_error f prefix b)) ]
                else some unexpected
          ],
        )

    request_of : MessageType → MessageType → S → Option s.envelopes.Bytes → S × Option ClientError
    unfolding send_recv
    request_of t t' st none = (st, some not_made)
    request_of t t' st (some b) = send_recv st t b t'

    -- Client.Register and Client.IndexContent
    unfoldable pub p2p_register :
        ℕ → S → PeerId → s.envelopes.PrivKey → List Text → S × Option ClientError
    unfolding request_of
    p2p_register seq st id key addrs =
        request_of register_provider_type register_provider_response st
          (make_register_request s.envelopes s.env seq id key addrs)

    unfoldable pub p2p_index_content :
        ℕ
        → S
        → PeerId
        → s.envelopes.PrivKey
        → Multihash
        → ℕ
        → ℕ
        → List Text
        → S × Option ClientError
    unfolding request_of
    p2p_index_content seq st id key m context_id metadata addrs =
        request_of index_content_type index_content_response st
          (make_ingest_request s.envelopes seq id key m context_id metadata addrs)
