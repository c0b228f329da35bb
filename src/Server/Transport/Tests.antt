-- ===== src/Server/Transport/Tests.antt =====
-- Instances for the servers: a stream with a request that is accepted and one that is sent again.
use storetheindex.Prelude.{ℕ, ◌≡◌, ◌⊎◌, refl, true, none, some, [], ◌∷◌}
use storetheindex.Prelude.Dict
use storetheindex.PeerPolicy
use storetheindex.Registry.Policy.{allowed}
use storetheindex.Registry.Sequences.{check, oldest_allowed}
use storetheindex.Registry.Discovery.{discover, sync_start_discover, sync_need_discover}
use storetheindex.Server.Requests.{read_discover_request, discover_domain}
use storetheindex.Server.Requests.Tests.{request}
use storetheindex.Server.Errors.{Chars}
use storetheindex.Server.Errors.Tests.{formats}
use storetheindex.Server.Handler.{Refusal, discover_provider, check_sequence, start_discovery}
use storetheindex.Server.Handler.Tests.{services, handler, at}
use storetheindex.Server.Transport.{
  discover_provider_type, discover_provider_response, reply, dispatch, libp2p_answer,
  handle_message, Incoming, closed, crashed, handle_new_messages,
}
use storetheindex.Server.Transport.Laws.{AllAnswered, stream_answered}

-- Every refusal has the text 1.
abbrev words : Refusal → Chars
words x = 1 ∷ []

abbrev incoming : ℕ → Incoming services formats words
incoming t = record {
  now = at t;
  message = some (discover_provider_type, (discover_domain, 5, request));
  writable = true;
}

stream_answered_example :
    let t =
      handle_new_messages services formats words true handler (incoming 100 ∷ incoming 101 ∷ []) in
    (t.2 ≡ crashed)
    ⊎ ((t.2 ≡ closed) × AllAnswered services formats words (incoming 100 ∷ incoming 101 ∷ []) t.1)
stream_answered_example =
    stream_answered services formats words (incoming 100 ∷ incoming 101 ∷ []) handler (
      (
        discover_provider_type,
        discover_provider_response,
        (discover_domain, 5, request),
        refl,
        refl,
        refl,
      ),
      (
        (
          discover_provider_type,
          discover_provider_response,
          (discover_domain, 5, request),
          refl,
          refl,
          refl,
        ),
        tt,
      ),
    )

-- The first of them is accepted, the second one is a replay.
first_accepted :
    elim (handle_new_messages services formats words true handler (incoming 100 ∷ [])).1 [
      | [] ↦ none
      | r ∷ rs ↦ some r
    ]
    ≡ some (reply discover_provider_response none)
unfolding handle_new_messages handle_message dispatch libp2p_answer discover_provider check_sequence
    start_discovery read_discover_request check oldest_allowed discover sync_start_discover
    sync_need_discover allowed PeerPolicy.eval Dict.get Dict.put
first_accepted = refl
