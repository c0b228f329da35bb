-- ===== src/Server/Client/Tests.antt =====
-- Instances for the client: a request that times out, and one that is answered.
use storetheindex.Prelude.{ℕ, refl, inl, true, none, List, [], ◌∷◌}
use storetheindex.Prelude.Result.{ok, err}
use storetheindex.Server.Client.{
  Client, Wait, responds, timed_out, Outside, not_read, prep_stream_reader, send_message,
  ctx_read_msg, send_request, requests,
}
use storetheindex.Server.Client.Laws.{IsClean, AreAnswered, requests_answered}

abbrev ends_by : Wait → Outside
ends_by w = record { opens = true; writes = true; wait = w }

abbrev calls : List (Outside × ℕ)
calls = (ends_by timed_out, 7) ∷ (ends_by (responds true), 8) ∷ []

abbrev new_client : Client
new_client = record { stream = none }

requests_answered_example :
    IsClean (requests new_client calls).0 × AreAnswered calls (err not_read ∷ ok 8 ∷ [])
unfolding requests send_request send_message prep_stream_reader ctx_read_msg
requests_answered_example = requests_answered calls new_client (inl refl)
