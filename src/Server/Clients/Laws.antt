-- ===== src/Server/Clients/Laws.antt =====
-- What the clients of the ingest servers bring about.
use storetheindex.Prelude.{
  ℕ, ◌≡◌, ◌≢◌, ◌↔◌, ==_refl, refl, false, Option, none, some, List, ◌==◌, if◌then◌else◌,
  Option-cases, inl, inr, ◌||◌,
}
use mathlib.Core.Path.{subst}
use storetheindex.PeerPolicy.{PeerId}
use storetheindex.Registry.State
use storetheindex.Registry.State.{Text}
use storetheindex.Ingest.Batches.{Multihash}
use storetheindex.Server.Errors.{Chars, GoError, Formats, http_handle_error, decode_error}
use storetheindex.Server.Requests.{make_register_request, make_ingest_request}
use storetheindex.Server.Handler
use storetheindex.Server.Handler.{
  Services, Handler, Now, Refusal, register_provider, sequence, registry_error, unreadable,
  missing_peer_id, long_context, long_metadata, not_indexed, bad_message, no_location, bad_addrs,
  bad_infos, two_peers, from_forbidden, not_announced,
}
use storetheindex.Server.Transport.{
  MessageType, error_response, go_error, http_answer, http_register_provider, dispatch,
  handle_message, libp2p_answer, reply, register_provider_response, index_content_response,
}
use storetheindex.Server.Clients.{
  tag, Cbor, route, exchange, put_or_post, index_content, register, send_recv, request_of,
  p2p_register, p2p_index_content,
}
use storetheindex.Web.{
  HttpRequest, HttpResponse, ClientError, not_sent, failed, unexpected, read_error, body_text,
  message,
}

module _ (s : Services) (f : Formats) (words : Refusal → Chars) where
  -- No refusal is answered by the status of a success.
  IsError : Option GoError → Type 0
  IsError none = Unit
  IsError (some e) = ((http_handle_error f e).code == 200) ≡ false

  registry-IsError : (x : State.Error) → IsError (go_error words (registry_error x))
  unfolding IsError http_handle_error
  registry-IsError State.missing_address = refl
  registry-IsError State.invalid_id = refl
  registry-IsError State.not_allowed = refl
  registry-IsError State.publisher_not_allowed = refl
  registry-IsError State.cannot_publish = refl
  registry-IsError State.not_persisted = refl
  registry-IsError State.not_removed = refl
  registry-IsError State.in_progress = refl
  registry-IsError State.too_soon = refl
  registry-IsError State.no_discovery = refl
  registry-IsError State.not_discovered = refl
  registry-IsError State.panics = tt

  refusal-IsError : (x : Refusal) → IsError (go_error words x)
  unfolding IsError http_handle_error
  refusal-IsError (registry_error x) = registry-IsError x
  refusal-IsError unreadable = refl
  refusal-IsError missing_peer_id = refl
  refusal-IsError long_context = refl
  refusal-IsError long_metadata = refl
  refusal-IsError not_indexed = refl
  refusal-IsError bad_message = refl
  refusal-IsError no_location = refl
  refusal-IsError bad_addrs = refl
  refusal-IsError bad_infos = refl
  refusal-IsError two_peers = refl
  refusal-IsError from_forbidden = refl
  refusal-IsError not_announced = refl
  refusal-IsError (sequence x) = refl

  error_code :
      (x : Refusal) (e : GoError)
      → go_error words x ≡ some e
      → ((http_handle_error f e).code == 200) ≡ false
  unfolding IsError
  error_code x e h = subst IsError h (refusal-IsError x)

  -- What the clients make of the end of a request.
  http_result : Option Refusal → Option ClientError
  http_result x =
      let sent : Option (HttpResponse s.envelopes.Bytes) = elim (http_answer s f words 200 x) [
        | none ↦ none
        | some r ↦ some (record { code = r.code; body = message r.body })
      ] in
      elim sent [
        | none ↦ some not_sent
        | some resp ↦
            if (resp.code == 200) || (resp.code == 200)
            then none
            else some (failed (read_error f resp.code (body_text resp.body)))
      ]

  http_result_iff : (x : Option Refusal) → (http_result x ≡ none) ↔ (x ≡ none)
  unfolding http_result http_answer
  http_result_iff none = ((λ e. refl), λ e. refl)
  http_result_iff (some x) = elim (Option-cases (go_error words x)) [
    | inl panic ↦ rw (panic, http_result, http_answer) ((λ e. absurd cc), λ e. absurd cc)
    | inr (e, given) ↦
        rw (given, http_result, http_answer)
          (rw (error_code x e given) ((λ e. absurd cc), λ e. absurd cc))
  ]

  p2p_result : Chars → MessageType → Option Refusal → Option ClientError
  p2p_result prefix t x =
      let sent : Option (MessageType × Option f.Bytes) = elim (libp2p_answer s f words t x) [
        | reply t' data' ↦ some (t', data')
        | _ ↦ none
      ] in
      elim sent [
        | none ↦ some not_sent
        | some (t', data') ↦
            if tag t' == tag t
            then none
            else if tag t' == tag error_response
            then elim data' [ none ↦ none | some b ↦ some (failed (decode_error f prefix b)) ]
            else some unexpected
      ]

  p2p_result_iff :
      (prefix : Chars) (t : MessageType) (x : Option Refusal)
      → (tag error_response == tag t) ≡ false
      → (p2p_result prefix t x ≡ none) ↔ (x ≡ none)
  unfolding p2p_result libp2p_answer
  p2p_result_iff prefix t none other = rw (==_refl (tag t)) ((λ e. refl), λ e. refl)
  p2p_result_iff prefix t (some x) other = elim (Option-cases (go_error words x)) [
    | inl panic ↦ rw (panic, p2p_result, libp2p_answer) ((λ e. absurd cc), λ e. absurd cc)
    | inr (e, given) ↦
        rw (given, p2p_result, libp2p_answer) (rw other ((λ e. absurd cc), λ e. absurd cc))
  ]

  module _ (now : Now s) where
    abbrev pub serve :
        Cbor s f words
        → (HttpRequest s.envelopes.Bytes → HttpResponse s.envelopes.Bytes)
        → Handler s
        → HttpRequest s.envelopes.Bytes
        → Handler s × Option (HttpResponse s.envelopes.Bytes)
    serve cbor unrouted h q = elim (route s f words cbor h now q) [
      | none ↦ (h, some (unrouted q))
      | some (h', r) ↦ (
        h',
        elim r [ none ↦ none | some x ↦ some (record { code = x.code; body = message x.body }) ],
      )
    ]

    -- A request to the libp2p server
    abbrev pub answer :
        Handler s
        → MessageType
        → s.envelopes.Bytes
        → Handler s × Option (MessageType × Option f.Bytes)
    answer h t body =
        let (h', r) = handle_message s f words h now (some (t, body)) in
        (h', elim r [ reply t' data' ↦ some (t', data') | _ ↦ none ])

    -- A call of a client: it leaves the server as the handler does, and has no error exactly if the handler
    -- has none.
    abbrev pub Follows : Handler s × Option ClientError → Handler s × Option Refusal → Type 0
    Follows t t' = (t.0 ≡ t'.0) × ((t.1 ≡ none) ↔ (t'.1 ≡ none))

    -- A provider that registers by a client, over HTTP or libp2p, is registered as the handler does it with
    -- the request that was made, and is told of an error exactly where the handler gives one.
    pub register_asked :
        (cbor : Cbor s f words)
        (unrouted : HttpRequest s.envelopes.Bytes → HttpResponse s.envelopes.Bytes) (prefix : Chars)
        (seq : ℕ) (h : Handler s) (id : PeerId) (key : s.envelopes.PrivKey) (addrs : List Text)
        (b : s.envelopes.Bytes)
        → make_register_request s.envelopes s.env seq id key addrs ≡ some b
        → Follows
            (register s f words (serve cbor unrouted) seq h id key addrs)
            (register_provider s h now b)
          × Follows
              (p2p_register s f words prefix answer seq h id key addrs)
              (register_provider s h now b)
    unfolding register put_or_post exchange route http_register_provider p2p_register request_of
        send_recv handle_message dispatch http_result p2p_result
    register_asked cbor unrouted prefix seq h id key addrs b made =
        rw (made, register, p2p_register)
          (
            (refl, http_result_iff (register_provider s h now b).1),
            (
              refl,
              p2p_result_iff prefix register_provider_response (register_provider s h now b).1 refl,
            ),
          )

    -- Content that a client indexes over libp2p is indexed as the handler does it with the request that was
    -- made. Over HTTP it never is: the server has no route for the client's request, which changes
    -- nothing and ends in an error, whatever the router answers to it but a success.
    pub index_content_asked :
        (cbor : Cbor s f words)
        (unrouted : HttpRequest s.envelopes.Bytes → HttpResponse s.envelopes.Bytes)
        → ((q : HttpRequest s.envelopes.Bytes) → ((unrouted q).code == 200) ≡ false)
        → (prefix : Chars) (seq : ℕ) (h : Handler s) (id : PeerId) (key : s.envelopes.PrivKey)
          (m : Multihash) (context_id metadata : ℕ) (addrs : List Text) (b : s.envelopes.Bytes)
        → make_ingest_request s.envelopes seq id key m context_id metadata addrs ≡ some b
        → Follows
            (p2p_index_content s f words prefix answer seq h id key m context_id metadata addrs)
            (Handler.index_content s h now b)
          × ((index_content s f words
                (serve cbor unrouted)
                seq
                h
                id
                key
                m
                context_id
                metadata
                addrs).0
              ≡ h)
          × ((index_content s f words
                (serve cbor unrouted)
                seq
                h
                id
                key
                m
                context_id
                metadata
                addrs).1
              ≢ none)
    unfolding index_content put_or_post exchange route p2p_index_content request_of send_recv
        handle_message dispatch p2p_result
    index_content_asked cbor unrouted fails prefix seq h id key m context_id metadata addrs b made =
        rw (made, index_content, p2p_index_content)
          (
            (
              refl,
              p2p_result_iff prefix index_content_response (Handler.index_content s h now b).1 refl,
            ),
            refl,
            λ e. absurd (cc (rw (fails _) at e)),
          )
