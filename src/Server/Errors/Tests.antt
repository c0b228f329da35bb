-- ===== src/Server/Errors/Tests.antt =====
-- Instances for the errors: a status is its own digit, and the status 501 has a name.
use storetheindex.Prelude.{ℕ, ◌≡◌, refl, some, [], ◌∷◌, ◌==◌, if◌then◌else◌}
use storetheindex.Server.Errors.{
  Chars, GoError, plain, wraps, api, api_status, Formats, IsFormats, text, status_line, error_text,
  encode_error, decode_error, libp2p_handle_error,
}
use storetheindex.Server.Errors.Laws.{libp2p_answer}

abbrev pub formats : Formats
formats = record {
  Bytes = Chars × ℕ;
  digits = λ n. n ∷ [];
  status_text = λ n. if n == 501 then 78 ∷ 73 ∷ [] else [];
  marshal = λ m s. some (m, s);
  unmarshal = λ b. some b;
  server_error = ([], 0);
}

formats-IsFormats : IsFormats formats
formats-IsFormats = record { unmarshal-marshal = λ m s b h. cc }

abbrev broken_disk : GoError
broken_disk = wraps (9 ∷ []) (api (plain (1 ∷ 2 ∷ [])) 500)

-- The name of a status without a text is written twice: "501 NI: 501 NI".
named_twice :
    decode_error formats [] (libp2p_answer formats (api_status 501))
    ≡ plain (501 ∷ 32 ∷ 78 ∷ 73 ∷ 58 ∷ 32 ∷ 501 ∷ 32 ∷ 78 ∷ 73 ∷ [])
unfolding libp2p_handle_error encode_error decode_error error_text status_line text
named_twice = refl
