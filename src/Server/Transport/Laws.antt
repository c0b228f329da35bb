-- ===== src/Server/Transport/Laws.antt =====
-- Both servers of the ingest handler give the same answers, and a stream's requests are all answered.
use mathlib.Core.Option.{some-injective}
use storetheindex.Prelude.{
  ℕ, ◌≡◌, ◌⊎◌, inl, inr, refl, sym, true, Option, none, some, List, [], ◌∷◌, All, Option-cases,
}
use storetheindex.Server.Errors
use storetheindex.Server.Errors.{Chars, GoError, api_status, Formats, Response, http_handle_error}
use storetheindex.Server.Errors.Laws
use storetheindex.Server.Handler.{
  Services, Handler, Now, Refusal, discover_provider, register_provider, index_content,
}
use storetheindex.Server.Transport.{
  MessageType, error_response, discover_provider_type, discover_provider_response,
  register_provider_type, register_provider_response, remove_provider_type,
  remove_provider_response, index_content_type, index_content_response, go_error, Reply, crash,
  reply, http_answer, http_discover_provider, http_register_provider, libp2p_answer, dispatch,
  handle_message, Incoming, End, closed, crashed, handle_new_messages,
}

module _ (s : Services) (f : Formats) (words : Refusal → Chars) where
  -- The answers of the two servers: each says that the request was accepted, or each has the same
  -- error in its form, or neither answers for a panic.
  abbrev pub Agrees : ℕ → MessageType → Option (Response f) → Reply s f words → Type 0
  Agrees code t r r' =
      ((r ≡ some (record { code = code; body = [] })) × (r' ≡ reply t none))
      ⊎ ((e : GoError) × (r ≡ some (http_handle_error f e))
          × (r' ≡ reply error_response (some (Errors.Laws.libp2p_answer f e))))
      ⊎ ((r ≡ none) × (r' ≡ crash))

  answers_agree :
      (code : ℕ) (t : MessageType) (x : Option Refusal)
      → Agrees code t (http_answer s f words code x) (libp2p_answer s f words t x)
  unfolding http_answer libp2p_answer
  answers_agree code t none = inl (refl, refl)
  answers_agree code t (some x) = elim (Option-cases (go_error words x)) [
    | inl e ↦ inr (inr (rw (e, http_answer) refl, rw (e, libp2p_answer) refl))
    | inr (g, e) ↦ inr (inl (g, rw (e, http_answer) refl, rw (e, libp2p_answer) refl))
  ]

  -- A discover or register request does the same by HTTP and by libp2p, and is answered alike: it is
  -- accepted by both, or both give the same error.
  pub transports_agree :
      (h : Handler s) (now : Now s) (body : s.envelopes.Bytes)
      → let d = http_discover_provider s f words h now (some body) in
        let d' = handle_message s f words h now (some (discover_provider_type, body)) in
        let r = http_register_provider s f words h now (some body) in
        let r' = handle_message s f words h now (some (register_provider_type, body)) in
        (d.0 ≡ d'.0)
        × Agrees 202 discover_provider_response d.1 d'.1
        × (r.0 ≡ r'.0)
        × Agrees 200 register_provider_response r.1 r'.1
  unfolding http_discover_provider http_register_provider handle_message dispatch
  transports_agree h now body = (
    refl,
    answers_agree 202 discover_provider_response (discover_provider s h now body).1,
    refl,
    answers_agree 200 register_provider_response (register_provider s h now body).1,
  )

  -- The types of requests, and of their responses.
  abbrev pub response_to : MessageType → Option MessageType
  response_to discover_provider_type = some discover_provider_response
  response_to register_provider_type = some register_provider_response
  response_to remove_provider_type = some remove_provider_response
  response_to index_content_type = some index_content_response
  response_to t = none

  -- A message of a request's type whose answer can be written.
  abbrev pub IsRequest : Incoming s f words → Type 0
  IsRequest m =
      (t : MessageType) × (t' : MessageType) × (body : s.envelopes.Bytes) × (m.message
        ≡ some (t, body))
      × (response_to t ≡ some t')
      × (m.writable ≡ true)

  -- An answer has the response type of its request, or is an error.
  abbrev pub Answers : Incoming s f words → Reply s f words → Type 0
  Answers m r =
      (t : MessageType) × (t' : MessageType) × (body : s.envelopes.Bytes) × (data' : Option f.Bytes)
      × (m.message ≡ some (t, body))
      × ((r ≡ reply error_response data') ⊎ ((response_to t ≡ some t') × (r ≡ reply t' data')))

  abbrev pub AllAnswered : List (Incoming s f words) → List (Reply s f words) → Type 0
  AllAnswered [] [] = Unit
  AllAnswered [] (r ∷ rs) = ⊥
  AllAnswered (m ∷ ms) [] = ⊥
  AllAnswered (m ∷ ms) (r ∷ rs) = Answers m r × AllAnswered ms rs

  answer_lem :
      (t : MessageType) (x : Option Refusal)
      → (libp2p_answer s f words t x ≡ crash)
        ⊎ ((data' : Option f.Bytes) × ((libp2p_answer s f words t x ≡ reply error_response data')
              ⊎ (libp2p_answer s f words t x ≡ reply t data')))
  unfolding libp2p_answer
  answer_lem t none = inr (none, inr refl)
  answer_lem t (some x) = elim (Option-cases (go_error words x)) [
    | inl e ↦ inl (rw (e, libp2p_answer) refl)
    | inr (g, e) ↦ inr (some (Errors.Laws.libp2p_answer f g), inl (rw (e, libp2p_answer) refl))
  ]

  dispatch_lem :
      (h : Handler s) (now : Now s) (t t' : MessageType) (body : s.envelopes.Bytes)
      → response_to t ≡ some t'
      → ((dispatch s f words h now t body).1 ≡ crash)
        ⊎ ((data' : Option f.Bytes) × (((dispatch s f words h now t body).1
                ≡ reply error_response data')
              ⊎ ((dispatch s f words h now t body).1 ≡ reply t' data')))
  unfolding dispatch
  dispatch_lem h now discover_provider_type t' body e =
      rw (sym (some-injective _ _ e))
        (answer_lem discover_provider_response (discover_provider s h now body).1)
  dispatch_lem h now register_provider_type t' body e =
      rw (sym (some-injective _ _ e))
        (answer_lem register_provider_response (register_provider s h now body).1)
  dispatch_lem h now remove_provider_type t' body e =
      inr (some (Errors.Laws.libp2p_answer f (api_status 501)), inl refl)
  dispatch_lem h now index_content_type t' body e =
      rw (sym (some-injective _ _ e))
        (answer_lem index_content_response (index_content s h now body).1)
  dispatch_lem h now t t' body e = absurd (cc)

  -- One round of the loop, where the message is answered and where its handler panics.
  module _ (m : Incoming s f words) (ms : List (Incoming s f words)) (h : Handler s) where
    round : Handler s × Reply s f words
    round = handle_message s f words h m.now m.message

    rest : Handler s × List (Reply s f words) × End s f words
    rest = handle_new_messages s f words true round.0 ms

    answered :
        (t : MessageType) (data' : Option f.Bytes)
        → round.1 ≡ reply t data'
        → m.writable ≡ true
        → handle_new_messages s f words true h (m ∷ ms) ≡ (rest.0, reply t data' ∷ rest.1, rest.2)
    unfolding handle_new_messages round rest
    answered t data' e fine = rw (e, handle_new_messages) (rw fine refl)

    crashes : round.1 ≡ crash → (handle_new_messages s f words true h (m ∷ ms)).2 ≡ crashed
    unfolding handle_new_messages round
    crashes e = rw (e, handle_new_messages) refl

    more_answered :
        (t : MessageType) (data' : Option f.Bytes)
        → round.1 ≡ reply t data'
        → m.writable ≡ true
        → Answers m (reply t data')
        → (rest.2 ≡ crashed) ⊎ ((rest.2 ≡ closed) × AllAnswered ms rest.1)
        → let t = handle_new_messages s f words true h (m ∷ ms) in
          (t.2 ≡ crashed) ⊎ ((t.2 ≡ closed) × AllAnswered (m ∷ ms) t.1)
    more_answered t data' e fine a (inl bad) = inl (rw (answered t data' e fine) bad)
    more_answered t data' e fine a (inr (done, all)) =
        inr (rw (answered t data' e fine) done, rw (answered t data' e fine) (a, all))

  -- A stream of requests, whose answers can be written and which ends by EOF, has every request answered,
  -- in order, by its response or an error, and is then closed; else a handler has panicked.
  pub stream_answered :
      (ms : List (Incoming s f words)) (h : Handler s)
      → All IsRequest ms
      → let t = handle_new_messages s f words true h ms in
        (t.2 ≡ crashed) ⊎ ((t.2 ≡ closed) × AllAnswered ms t.1)
  unfolding handle_new_messages handle_message round rest
  stream_answered [] h k = inr (refl, tt)
  stream_answered (m ∷ ms) h ((t, t', body, is, e, fine), k) =
      let later = stream_answered ms (round m ms h).0 k in
      elim (dispatch_lem h m.now t t' body e) [
        | inl bad ↦ inl (crashes m ms h (at_message bad))
        | inr (data', inl same) ↦
            more_answered m ms h error_response data' (at_message same) fine
              (t, t', body, data', is, inl refl) later
        | inr (data', inr same) ↦
            more_answered m ms h t' data' (at_message same) fine
              (t, t', body, data', is, inr (e, refl)) later
      ]
    where
      at_message :
          {r : Reply s f words} → (dispatch s f words h m.now t body).1 ≡ r → (round m ms h).1 ≡ r
      at_message same = rw is same
