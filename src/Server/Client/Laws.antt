-- ===== src/Server/Client/Laws.antt =====
-- Every response that a client takes is that of its own request.
use storetheindex.Prelude.{
  ℕ, ◌≡◌, ◌≢◌, ◌⊎◌, inl, inr, refl, Bool, true, false, Option, none, some, List, [], ◌∷◌,
}
use storetheindex.Prelude.Result.{Result, ok, err}
use storetheindex.Server.Client.{
  Client, Wait, responds, unreadable, cancelled, timed_out, Outside, SendError, prep_stream_reader,
  send_message, ctx_read_msg, send_request, requests,
}

-- No response is left on the stream.
abbrev pub IsClean : Client → Type 0
IsClean c = (c.stream ≡ none) ⊎ (c.stream ≡ some [])

-- A request ends with its own response, where it was written and that was read and decoded; else by an
-- error, for which there is a cause.
abbrev pub IsAnswered : Outside → ℕ → Result SendError ℕ → Type 0
IsAnswered o msg (ok m) = (m ≡ msg) × (o.writes ≡ true) × (o.wait ≡ responds true)
IsAnswered o msg (err x) = (o.opens ≡ false) ⊎ ((o.writes ≡ false) ⊎ (o.wait ≢ responds true))

by_cases :
    (opens writes : Bool) (wait : Wait) (stream : Option (List ℕ)) (msg : ℕ)
    → IsClean (record { stream = stream })
    → let o : Outside = record { opens = opens; writes = writes; wait = wait } in
      IsClean (send_request o (record { stream = stream }) msg).0
      × IsAnswered o msg (send_request o (record { stream = stream }) msg).1
unfolding send_request send_message prep_stream_reader ctx_read_msg
by_cases opens writes wait (some (m ∷ l)) msg (inl e) = absurd cc
by_cases opens writes wait (some (m ∷ l)) msg (inr e) = absurd cc
by_cases false writes wait none msg clean = (inl refl, inl refl)
by_cases true false wait none msg clean = (inl refl, inr (inl refl))
by_cases true true (responds true) none msg clean = (inr refl, (refl, refl, refl))
by_cases true true (responds false) none msg clean = (inl refl, inr (inr (λ h. cc)))
by_cases true true unreadable none msg clean = (inl refl, inr (inr (λ h. cc)))
by_cases true true cancelled none msg clean = (inl refl, inr (inr (λ h. cc)))
by_cases true true timed_out none msg clean = (inl refl, inr (inr (λ h. cc)))
by_cases opens false wait (some []) msg clean = (inl refl, inr (inl refl))
by_cases opens true (responds true) (some []) msg clean = (inr refl, (refl, refl, refl))
by_cases opens true (responds false) (some []) msg clean = (inl refl, inr (inr (λ h. cc)))
by_cases opens true unreadable (some []) msg clean = (inl refl, inr (inr (λ h. cc)))
by_cases opens true cancelled (some []) msg clean = (inl refl, inr (inr (λ h. cc)))
by_cases opens true timed_out (some []) msg clean = (inl refl, inr (inr (λ h. cc)))

-- What a list of requests comes to.
abbrev pub AreAnswered : List (Outside × ℕ) → List (Result SendError ℕ) → Type 0
AreAnswered [] [] = Unit
AreAnswered ((o, msg) ∷ calls) (r ∷ rs) = IsAnswered o msg r × AreAnswered calls rs
AreAnswered _ _ = ⊥

-- However the requests of a client end, one after another, each one that ends without an error was
-- written, and what is decoded is its own response, never one that an earlier request has left; each
-- error has a cause outside. A stream on which a response may still come is not used again.
pub requests_answered :
    (calls : List (Outside × ℕ)) (c : Client)
    → IsClean c
    → IsClean (requests c calls).0 × AreAnswered calls (requests c calls).1
unfolding requests
requests_answered [] c clean = (clean, tt)
requests_answered ((o, msg) ∷ calls) c clean =
    let (clean', answered) = by_cases o.opens o.writes o.wait c.stream msg clean in
    let (end, all) = requests_answered calls (send_request o c msg).0 clean' in
    (end, (answered, all))
