-- ===== src/Server/Errors.antt =====
-- The errors of api/v0/error.go and common.go, and how both kinds of servers answer with them: HandleError
-- in internal/httpserver/util.go and in internal/libp2pserver/server.go. Texts are lists of characters.
pub mod Laws
pub mod Tests
use storetheindex.Prelude.{
  ℕ, ◌≡◌, Bool, true, false, Option, none, some, List, [], ◌∷◌, ◌++◌, leb, length, ◌==◌,
  if◌then◌else◌,
}

abbrev pub Chars : Type 0
Chars = List ℕ

-- An error: one with a text only, one of fmt.Errorf with %w, which wraps another one behind a text, and
-- a *v0.Error, with the error that it wraps or with none.
pub data GoError : Type 0 where
  plain : Chars → GoError
  wraps : Chars → GoError → GoError
  api : GoError → ℕ → GoError
  api_status : ℕ → GoError

-- What is called: strconv of a status, http.StatusText, and encoding/json for an ErrorMessage.
pub record Formats : Type 1 where
  pub Bytes : Type 0
  pub digits : ℕ → Chars
  pub status_text : ℕ → Chars
  pub marshal : Chars → ℕ → Option Bytes
  pub unmarshal : Bytes → Option (Chars × ℕ)
  pub server_error : Bytes

-- JSON gives back the message and the status.
pub record IsFormats (f : Formats) : Type 0 where
  pub unmarshal-marshal :
      (message : Chars) (status : ℕ) (b : f.Bytes)
      → f.marshal message status ≡ some b
      → f.unmarshal b ≡ some (message, status)

-- A *v0.Error by itself, and the conversion back to an error.
pub record ApiError : Type 0 where
  pub err : Option GoError
  pub status : ℕ

abbrev pub of_api : ApiError → GoError
of_api a = elim a.err [ none ↦ api_status a.status | some e ↦ api e a.status ]

-- errors.As for a *v0.Error
abbrev pub as_api : GoError → Option ApiError
as_api (plain t) = none
as_api (wraps t e) = as_api e
as_api (api e s) = some (record { err = some e; status = s })
as_api (api_status s) = some (record { err = none; status = s })

module _ (f : Formats) where
  -- The status and its name, where it has one.
  unfoldable pub status_line : ℕ → Chars
  status_line status =
      let text = f.status_text status in
      if length text == 0 then f.digits status else f.digits status ++ (32 ∷ []) ++ text

  -- The text of an error; for a *v0.Error, Error.Error
  unfoldable pub error_text : GoError → Chars
  unfolding status_line
  error_text (plain t) = t
  error_text (wraps t e) = t ++ error_text e
  error_text (api e s) = error_text e
  error_text (api_status s) = if s == 0 then [] else status_line s

  -- Error.Text
  unfoldable pub text : ApiError → Chars
  text a =
      let parts = if a.status == 0 then [] else status_line a.status in
      elim a.err [
        | none ↦ parts
        | some e ↦ (if a.status == 0 then parts else parts ++ (58 ∷ 32 ∷ [])) ++ error_text e
      ]

  -- EncodeError of an error that is there; the status 0 is the one that JSON leaves out.
  unfoldable pub encode_error : GoError → f.Bytes
  encode_error e =
      let status : ℕ = elim (as_api e) [ none ↦ 0 | some a ↦ a.status ] in
      elim (f.marshal (error_text e) status) [ none ↦ f.server_error | some data' ↦ data' ]

  -- DecodeError of data that is there, with the text of "cannot decode error message: ".
  unfoldable pub decode_error : Chars → f.Bytes → GoError
  decode_error prefix data' = elim (f.unmarshal data') [
    | none ↦ plain prefix
    | some (message, status) ↦ plain (text (record { err = some (plain message); status = status }))
  ]

  -- What an HTTP client gets by http.Error: the status and the text.
  pub record Response : Type 0 where
    pub code : ℕ
    pub body : Chars

  -- httpserver.HandleError
  unfoldable pub http_handle_error : GoError → Response
  http_handle_error e = elim (as_api e) [
    | none ↦ record { code = 400; body = error_text e }
    | some a ↦
        if leb 500 a.status
        then record { code = a.status; body = [] }
        else record { code = a.status; body = error_text e }
  ]

  -- libp2pserver.HandleError
  unfoldable pub libp2p_handle_error : GoError → ApiError
  libp2p_handle_error e = elim (as_api e) [
    | none ↦ record { err = some e; status = 400 }
    | some a ↦ if leb 500 a.status then record { err = none; status = a.status } else a
  ]
