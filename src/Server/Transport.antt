-- ===== src/Server/Transport.antt =====
-- The two servers of the ingest handler: server/ingest/http/handler.go and server/ingest/libp2p/handler.go,
-- and the loop over a stream's messages in internal/libp2pserver/server.go. Routing and the transports
-- themselves are outside. A panic of a handler ends an HTTP connection without an answer, and a libp2p
-- server.
pub mod Laws
mod Tests
use storetheindex.Prelude.{ℕ, Bool, true, false, Option, none, some, List, [], ◌∷◌}
use storetheindex.Registry.State
use storetheindex.Server.Errors.{
  Chars, GoError, plain, wraps, api, api_status, Formats, Response, of_api, encode_error,
  http_handle_error, libp2p_handle_error,
}
use storetheindex.Server.Handler.{
  Services, Handler, Now, Refusal, not_indexed, bad_addrs, from_forbidden, registry_error,
  discover_provider, register_provider, index_content, announce_content,
}

-- The types of a pb.IngestMessage that the code names.
pub data MessageType : Type 0 where
  error_response : MessageType
  discover_provider_type discover_provider_response : MessageType
  register_provider_type register_provider_response : MessageType
  remove_provider_type remove_provider_response : MessageType
  index_content_type index_content_response : MessageType
  unknown_type : ℕ → MessageType

-- The error that a refusal is, with its text in `words`; none is a panic.
abbrev pub registry_go_error : Chars → State.Error → Option GoError
registry_go_error t State.panics = none
registry_go_error t State.not_allowed = some (api (plain t) 403)
registry_go_error t State.publisher_not_allowed = some (api (plain t) 403)
registry_go_error t State.cannot_publish = some (api (plain t) 403)
registry_go_error t State.not_persisted = some (api (plain t) 500)
registry_go_error t e = some (plain t)

abbrev pub go_error : (Refusal → Chars) → Refusal → Option GoError
go_error words (registry_error e) = registry_go_error (words (registry_error e)) e
go_error words not_indexed = some (api (plain (words not_indexed)) 500)
go_error words from_forbidden = some (api (plain (words from_forbidden)) 403)
go_error words bad_addrs = some (wraps (words bad_addrs) (plain []))
go_error words x = some (plain (words x))

module _ (s : Services) (f : Formats) (words : Refusal → Chars) where
  -- What one message is answered with: nothing, which ends the stream, or a type and data.
  pub data Reply : Type 0 where
    no_reply crash : Reply
    reply : MessageType → Option f.Bytes → Reply

  -- The answer to a request that ended so, with the status for no error.
  unfoldable pub http_answer : ℕ → Option Refusal → Option (Response f)
  http_answer code none = some (record { code = code; body = [] })
  http_answer code (some x) = elim (go_error words x) [
    | none ↦ none
    | some e ↦ some (http_handle_error f e)
  ]

  -- httpHandler.discoverProvider; none is a body that cannot be read.
  unfoldable pub http_discover_provider :
      Handler s → Now s → Option s.envelopes.Bytes → Handler s × Option (Response f)
  unfolding http_answer
  http_discover_provider h now none = (h, some (record { code = 500; body = [] }))
  http_discover_provider h now (some body) =
      let (h', e) = discover_provider s h now body in (h', http_answer 202 e)

  -- httpHandler.registerProvider
  unfoldable pub http_register_provider :
      Handler s → Now s → Option s.envelopes.Bytes → Handler s × Option (Response f)
  unfolding http_answer
  http_register_provider h now none = (h, some (record { code = 500; body = [] }))
  http_register_provider h now (some body) =
      let (h', e) = register_provider s h now body in (h', http_answer 200 e)

  -- httpHandler.removeProvider
  unfoldable pub http_remove_provider : Handler s → Handler s × Option (Response f)
  http_remove_provider h = (h, some (record { code = 501; body = [] }))

  -- httpHandler.announce
  unfoldable pub http_announce : Handler s → List ℕ → Handler s × Option (Response f)
  unfolding http_answer
  http_announce h body = let (h', e) = announce_content s h body in (h', http_answer 204 e)

  -- The end of HandleMessage, with the response type.
  unfoldable pub libp2p_answer : MessageType → Option Refusal → Reply
  libp2p_answer t none = reply t none
  libp2p_answer t (some x) = elim (go_error words x) [
    | none ↦ crash
    | some e ↦ reply error_response (some (encode_error f (of_api (libp2p_handle_error f e))))
  ]

  -- The switch of libp2pHandler.HandleMessage, with the handlers that it names.
  unfoldable pub dispatch : Handler s → Now s → MessageType → s.envelopes.Bytes → Handler s × Reply
  unfolding libp2p_answer
  dispatch h now discover_provider_type body =
      let (h', e) = discover_provider s h now body in
      (h', libp2p_answer discover_provider_response e)
  dispatch h now register_provider_type body =
      let (h', e) = register_provider s h now body in
      (h', libp2p_answer register_provider_response e)
  dispatch h now remove_provider_type body = (
    h,
    reply error_response (some (encode_error f (of_api (libp2p_handle_error f (api_status 501))))),
  )
  dispatch h now index_content_type body =
      let (h', e) = index_content s h now body in (h', libp2p_answer index_content_response e)
  dispatch h now t body = (h, no_reply)

  -- libp2pHandler.HandleMessage on the message that Unmarshal gives, if it gives one
  unfoldable pub handle_message :
      Handler s → Now s → Option (MessageType × s.envelopes.Bytes) → Handler s × Reply
  unfolding dispatch
  handle_message h now none = (h, no_reply)
  handle_message h now (some (t, body)) = dispatch h now t body

  -- What a stream's reader gives: a message with the time that it is handled at, and whether its answer
  -- can be written; at last the end of the input, or an error.
  pub record Incoming : Type 0 where
    pub now : Now s
    pub message : Option (MessageType × s.envelopes.Bytes)
    pub writable : Bool

  -- How handleNewStream leaves the stream.
  pub data End : Type 0 where
    closed reset crashed : End

  -- handleNewMessages, with the replies that were written; `at_end` is whether the input ended by EOF.
  unfoldable pub handle_new_messages :
      Bool → Handler s → List Incoming → Handler s × List Reply × End
  unfolding handle_message
  handle_new_messages true h [] = (h, [], closed)
  handle_new_messages false h [] = (h, [], reset)
  handle_new_messages at_end h (m ∷ ms) =
      let (h', r) = handle_message h m.now m.message in
      let (h'', rs, end) = handle_new_messages at_end h' ms in
      elim r [
        | no_reply ↦ (h', [], closed)
        | crash ↦ (h', [], crashed)
        | reply t data' ↦ elim m.writable [
          | false ↦ (h', [], reset)
          | true ↦ (h'', reply t data' ∷ rs, end)
        ]
      ]
