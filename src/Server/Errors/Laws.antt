-- ===== src/Server/Errors/Laws.antt =====
-- What a client learns from an error.
use storetheindex.Prelude.{
  ◌≤◌, ◌≡◌, refl, none, some, [], leb, arith, if◌then◌else◌, inl, inr, Bool-cases, Option-cases,
}
use storetheindex.Server.Errors.{
  Chars, GoError, plain, Formats, IsFormats, ApiError, of_api, as_api, status_line, error_text,
  text, encode_error, decode_error, http_handle_error, libp2p_handle_error,
}

module _ (f : Formats) where
  -- What is sent to a libp2p client for an error.
  abbrev pub libp2p_answer : GoError → f.Bytes
  libp2p_answer e = encode_error f (of_api (libp2p_handle_error f e))

  as_api-of_api : (a : ApiError) → as_api (of_api a) ≡ some a
  as_api-of_api a = ground arith

  http_internal :
      (e : GoError) (a : ApiError)
      → as_api e ≡ some a
      → 500 ≤ a.status
      → http_handle_error f e ≡ record { code = a.status; body = [] }
  unfolding http_handle_error
  http_internal e a is high = rw (is, http_handle_error) (ground arith)

  libp2p_internal :
      (e : GoError) (a : ApiError)
      → as_api e ≡ some a
      → 500 ≤ a.status
      → libp2p_handle_error f e ≡ record { err = none; status = a.status }
  unfolding libp2p_handle_error
  libp2p_internal e a is high = rw (is, libp2p_handle_error) (ground arith)

  -- Two errors of one status from 500 on are the same to a client of either kind of server: nothing of
  -- their texts is sent.
  pub internal_hidden :
      (e e' : GoError) (a a' : ApiError)
      → as_api e ≡ some a
      → as_api e' ≡ some a'
      → a.status ≡ a'.status
      → 500 ≤ a.status
      → (http_handle_error f e ≡ http_handle_error f e') × (libp2p_answer e ≡ libp2p_answer e')
  internal_hidden e e' a a' is is' same high = (
    rw (http_internal e a is high, http_internal e' a' is' high', same) refl,
    rw (libp2p_internal e a is high, libp2p_internal e' a' is' high', same) refl,
  )
    where
      high' : 500 ≤ a'.status
      high' = omega arith

  -- The message of an error to a client: the name of its status from 500 on, and else the text of the
  -- *v0.Error in it, or its own where there is none.
  abbrev pub message : GoError → Chars
  message e = elim (as_api e) [
    | none ↦ error_text f e
    | some a ↦ if leb 500 a.status then status_line f a.status else error_text f (of_api a)
  ]

  -- Both servers give an error the same status, and the libp2p server sends its message.
  same_answer :
      (e : GoError)
      → ((libp2p_handle_error f e).status ≡ (http_handle_error f e).code)
        × (error_text f (of_api (libp2p_handle_error f e)) ≡ message e)
  unfolding http_handle_error libp2p_handle_error error_text
  same_answer e = elim (Option-cases (as_api e)) [
    | inl none' ↦ (
      rw (none', http_handle_error, libp2p_handle_error) refl,
      rw (none', libp2p_handle_error, message) refl,
    )
    | inr (a, is) ↦ elim (Bool-cases (leb 500 a.status)) [
      | inl high ↦ (
        rw (is, http_handle_error, libp2p_handle_error) (rw high refl),
        rw (is, libp2p_handle_error, message) (rw (high, error_text) (ground arith)),
      )
      | inr low ↦ (
        rw (is, http_handle_error, libp2p_handle_error) (rw low refl),
        rw (is, libp2p_handle_error, message) (rw low refl),
      )
    ]
  ]

  decode-encode :
      IsFormats f
      → (prefix : Chars) (a : ApiError) (b : f.Bytes)
      → f.marshal (error_text f (of_api a)) a.status ≡ some b
      → decode_error f prefix (encode_error f (of_api a))
        ≡ plain
            (text f (record { err = some (plain (error_text f (of_api a))); status = a.status }))
  unfolding encode_error decode_error
  decode-encode h prefix a b written =
      rw (as_api-of_api a, encode_error)
        (rw written (
          rw (h.unmarshal-marshal (error_text f (of_api a)) a.status b written, decode_error) refl))

  -- Where JSON can write the error, a client of the libp2p server reads, behind the status that an HTTP
  -- server gives for it, its message.
  pub decode-answer :
      IsFormats f
      → (prefix : Chars) (e : GoError) (b : f.Bytes)
      → f.marshal (message e) (http_handle_error f e).code ≡ some b
      → decode_error f prefix (libp2p_answer e)
        ≡ plain (
            text f
              (record { err = some (plain (message e)); status = (http_handle_error f e).code }))
  unfolding libp2p_handle_error http_handle_error
  decode-answer h prefix e b written =
      let (statuses, messages) = same_answer e in
      let answered =
        decode-encode h prefix (libp2p_handle_error f e) b (rw (messages, statuses) written) in
      rw (messages, statuses) at answered
