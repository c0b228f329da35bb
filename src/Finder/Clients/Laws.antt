-- ===== src/Finder/Clients/Laws.antt =====
-- What the finder's clients get from its servers.
use storetheindex.Prelude.{
  ◌≡◌, refl, true, if◌then◌else◌, All, Bool-cases, Option, none, some, List, [], ◌∷◌, Option-cases,
  inl, inr,
}
use storetheindex.Prelude.Result.{Result, ok, err}
use storetheindex.PeerPolicy.{PeerId}
use storetheindex.Registry.State.{Env, Registry}
use storetheindex.Ingest.Batches.{Multihash}
use storetheindex.Finder
use storetheindex.Finder.{ProviderModel, MultihashResult}
use storetheindex.Finder.Servers.{
  Services, MessageType, route, handle_message, find_type, find_response_type, get_indexes,
  provider_data, handle_find, handle_get_provider, handle_list_providers, finish,
}
use storetheindex.Finder.Servers
use storetheindex.Finder.Clients.Named.{
  IsNamedEntry, get_provider-IsNamed, list_providers-IsNamed, find-IsNamed,
}
use storetheindex.Finder.Clients.{
  send_request, find_batch, find, list_providers, get_provider, send_recv, receive, p2p_find_batch,
  fetch, p2p_get_provider, p2p_list_providers, request,
}
use storetheindex.Server.Errors.{Chars, Formats, http_handle_error}
use storetheindex.Web.{
  HttpRequest, HttpResponse, post_method, get_method, word, name, multihash_word, ClientError,
  query_failed,
}
use storetheindex.Finder.Clients.Encodings.{IsServices}

-- A client's result is the value, or an error where there is none.
abbrev pub Gives : {A : Type 0} → Result ClientError A → Option A → Type 0
Gives r none = (e : ClientError) × (r ≡ err e)
Gives r (some a) = r ≡ ok a

module _ (f : Formats) (s : Services f) (laws : IsServices f s) (env : Env) (r : Registry env)
    (named : All (IsNamedEntry laws.is_peer env) r.providers)
    (unrouted : HttpRequest f.Bytes → HttpResponse f.Bytes) (prefix : Chars) where
  -- A client's request to the HTTP server, which the router may answer, and to the libp2p server.
  abbrev pub serve : HttpRequest f.Bytes → Option (HttpResponse f.Bytes)
  serve q = elim (route f s env r q) [ none ↦ some (unrouted q) | some answer ↦ some answer.0 ]

  abbrev pub exchange : MessageType → Option f.Bytes → Option (MessageType × Option f.Bytes)
  exchange t body = (handle_message f s env r t body).0

  -- What the answer to a query is to the client.
  indexes-Gives :
      (send : HttpRequest f.Bytes → Option (HttpResponse f.Bytes)) (q : HttpRequest f.Bytes)
      (mhs : List Multihash)
      → send q ≡ some (get_indexes f s env r mhs).0
      → Gives (send_request f s send q) (Finder.find env r s.get mhs).0
  unfolding send_request get_indexes http_handle_error
  indexes-Gives send q mhs e = elim (Option-cases (Finder.find env r s.get mhs).0) [
    | inl bad ↦ rw (e, send_request) (rw (bad, get_indexes) (query_failed 500, refl))
    | inr ([], good) ↦ rw (e, send_request) (rw (good, get_indexes) refl)
    | inr (x ∷ xs, good) ↦
        let (b, written) = laws.find_response.written (x ∷ xs) in
        rw (e, send_request)
          (rw (good, get_indexes)
            (rw written (
              rw
                (laws.find_response.decode-encode (x ∷ xs) b
                  (find-IsNamed laws.is_peer env r named s.get mhs (x ∷ xs) good) written)
                refl)))
  ]

  served_batch :
      (mhs : List Multihash) (b : f.Bytes)
      → s.find_request.decode b ≡ some mhs
      → serve (request f s post_method (word multihash_word ∷ []) (some b))
        ≡ some (get_indexes f s env r mhs).0
  unfolding route Servers.find_batch
  served_batch mhs b read = rw read refl

  -- What HTTP find is asked for, where go-multihash does not refuse it.
  abbrev pub found : Multihash → Option (List MultihashResult)
  found m = if laws.is_multihash m then (Finder.find env r s.get (m ∷ [])).0 else none

  served_find :
      (m : Multihash)
      → laws.is_multihash m ≡ true
      → serve (request f s get_method (word multihash_word ∷ name (s.b58_string m) ∷ []) none)
        ≡ some (get_indexes f s env r (m ∷ [])).0
  unfolding route Servers.find_handler
  served_find m fine = rw (laws.from_b58-b58_string m, Servers.find_handler) (rw fine refl)

  http_find-Gives : (m : Multihash) → Gives (find f s serve m) (found m)
  unfolding find send_request route Servers.find_handler http_handle_error
  http_find-Gives m = elim (Bool-cases (laws.is_multihash m)) [
    | inl fine ↦ rw fine (
        indexes-Gives serve
          (request f s get_method (word multihash_word ∷ name (s.b58_string m) ∷ []) none) (m ∷ [])
          (served_find m fine))
    | inr bad ↦ rw bad (
        rw (laws.from_b58-b58_string m, find, send_request, Servers.find_handler)
          (rw bad (query_failed 400, refl)))
  ]

  http_find_batch-Gives :
      (mhs : List Multihash) → Gives (find_batch f s serve mhs) (Finder.find env r s.get mhs).0
  unfolding find_batch Finder.find Finder.find_loop
  http_find_batch-Gives [] = refl
  http_find_batch-Gives (m ∷ mhs) =
      let (b, written) = laws.find_request.written (m ∷ mhs) in
      rw (written, find_batch)
        (indexes-Gives serve (request f s post_method (word multihash_word ∷ []) (some b)) (m ∷ mhs)
          (served_batch (m ∷ mhs) b (laws.find_request.decode-encode (m ∷ mhs) b written)))

  -- The answer to a query over libp2p
  received :
      (mhs : List Multihash) (b : f.Bytes)
      → s.find_request.decode b ≡ some mhs
      → Gives
          (receive f s prefix exchange s.find_response find_type (some b) find_response_type)
          (Finder.find env r s.get mhs).0
  unfolding receive send_recv handle_message handle_find finish
  received mhs b read = elim (Option-cases (Finder.find env r s.get mhs).0) [
    | inl bad ↦ rw (read, receive, send_recv, handle_find) (rw (bad, receive) (_, refl))
    | inr (rs, good) ↦
        let (b', written) = laws.find_response.written rs in
        rw (read, receive, send_recv, handle_find)
          (rw good (
            rw written (
              rw
                (laws.find_response.decode-encode rs b'
                  (find-IsNamed laws.is_peer env r named s.get mhs rs good) written)
                refl)))
  ]

  p2p_find_batch-Gives :
      (mhs : List Multihash)
      → Gives (p2p_find_batch f s prefix exchange mhs) (Finder.find env r s.get mhs).0
  unfolding p2p_find_batch Finder.find Finder.find_loop
  p2p_find_batch-Gives [] = refl
  p2p_find_batch-Gives (m ∷ mhs) =
      let (b, written) = laws.find_request.written (m ∷ mhs) in
      rw (written, p2p_find_batch)
        (received (m ∷ mhs) b (laws.find_request.decode-encode (m ∷ mhs) b written))

  -- The provider that a client asks for, where peer.Decode does not refuse it.
  abbrev pub known : PeerId → Option ProviderModel
  known id = if laws.is_peer id then Finder.get_provider env r s.clock id else none

  http_get_provider-Gives : (id : PeerId) → Gives (get_provider f s serve id) (known id)
  unfolding get_provider fetch route Servers.http_get_provider provider_data
  http_get_provider-Gives id = elim (Bool-cases (laws.is_peer id)) [
    | inr bad ↦ rw bad (
        rw (laws.decode_peer-peer_string id, get_provider, fetch, Servers.http_get_provider)
          (rw bad (_, refl)))
    | inl fine ↦ rw fine (elim (Option-cases (Finder.get_provider env r s.clock id)) [
      | inl unknown ↦
          rw (laws.decode_peer-peer_string id, get_provider, fetch, Servers.http_get_provider)
            (rw fine (rw (unknown, provider_data) (_, refl)))
      | inr (p, known) ↦
          let (b, written) = laws.provider.written p in
          let read =
            laws.provider.decode-encode p b
              (get_provider-IsNamed laws.is_peer env r named s.clock id p known) written in
          rw (laws.decode_peer-peer_string id, get_provider, fetch, Servers.http_get_provider)
            (rw fine (rw (known, provider_data) (rw written (rw read refl))))
    ])
  ]

  p2p_get_provider-Gives :
      (id : PeerId) → Gives (p2p_get_provider f s prefix exchange id) (known id)
  unfolding p2p_get_provider receive send_recv handle_message handle_get_provider finish
      provider_data
  p2p_get_provider-Gives id =
      let (q, asked) = laws.peer_id-written id in
      let at_server = laws.peer_id-decode id q asked in
      elim (Bool-cases (laws.is_peer id)) [
        | inr bad ↦ rw bad (
            rw (asked, p2p_get_provider)
              (rw (at_server, receive, send_recv, handle_get_provider) (rw bad (_, refl))))
        | inl fine ↦ rw fine (elim (Option-cases (Finder.get_provider env r s.clock id)) [
          | inl unknown ↦
              rw (asked, p2p_get_provider)
                (rw (at_server, receive, send_recv, handle_get_provider)
                  (rw fine (rw (unknown, provider_data) (_, refl))))
          | inr (p, known) ↦
              let (b, written) = laws.provider.written p in
              let read =
                laws.provider.decode-encode p b
                  (get_provider-IsNamed laws.is_peer env r named s.clock id p known) written in
              rw (asked, p2p_get_provider)
                (rw (at_server, receive, send_recv, handle_get_provider)
                  (rw fine (rw (known, provider_data) (rw written (rw read refl)))))
        ])
      ]

  abbrev pub all : List ProviderModel
  all = Finder.list_providers env r s.clock

  all_read : (b : f.Bytes) → s.providers.encode all ≡ some b → s.providers.decode b ≡ some all
  all_read b written =
      laws.providers.decode-encode all b (list_providers-IsNamed laws.is_peer env r named s.clock)
        written

  http_list_providers_lem : list_providers f s serve ≡ ok all
  unfolding list_providers fetch route Servers.http_list_providers
  http_list_providers_lem =
      let (b, written) = laws.providers.written all in
      rw (written, list_providers, fetch, Servers.http_list_providers)
        (rw (all_read b written) refl)

  p2p_list_providers_lem : p2p_list_providers f s prefix exchange ≡ ok all
  unfolding p2p_list_providers receive send_recv handle_message handle_list_providers finish
  p2p_list_providers_lem =
      let (b, written) = laws.providers.written all in
      rw (written, p2p_list_providers, receive, send_recv, handle_list_providers)
        (rw (all_read b written) refl)

  -- Where peer.Decode takes the peer IDs of the registry, a query of a client, by HTTP or by libp2p, gives
  -- what the finder's handler answers to it, an empty result where there are no providers, and an error
  -- exactly where the indexer gives one, or where HTTP find is asked for a multihash that go-multihash
  -- refuses.
  pub query_answered :
      (m : Multihash) (mhs : List Multihash)
      → Gives (find f s serve m) (found m)
        × Gives (find_batch f s serve mhs) (Finder.find env r s.get mhs).0
        × Gives (p2p_find_batch f s prefix exchange mhs) (Finder.find env r s.get mhs).0
  query_answered m mhs = (http_find-Gives m, http_find_batch-Gives mhs, p2p_find_batch-Gives mhs)

  -- Where peer.Decode takes the peer IDs of the registry, a client that asks for a provider, or for all, by
  -- HTTP or by libp2p, gets what the registry has of the active ones, and an error for a provider that is
  -- unknown or inactive, or that peer.Decode refuses.
  pub providers_answered :
      (id : PeerId)
      → Gives (get_provider f s serve id) (known id)
        × Gives (p2p_get_provider f s prefix exchange id) (known id)
        × (list_providers f s serve ≡ ok all)
        × (p2p_list_providers f s prefix exchange ≡ ok all)
  providers_answered id = (
    http_get_provider-Gives id,
    p2p_get_provider-Gives id,
    http_list_providers_lem,
    p2p_list_providers_lem,
  )
