-- ===== src/Registry/Sequences/Tests.antt =====
-- Tests and instances for internal/registry/sequences.go.
use storetheindex.Prelude.{◌≡◌, refl, none, List, [], ◌∷◌, arith}
use storetheindex.Prelude.Dict
use storetheindex.Registry.Sequences.{Sequences, new_sequences, oldest_allowed, check, retire}
use storetheindex.Registry.Sequences.Replay.{Event, checks, retires, accepted, Above, no_replay}

-- Peer 4 sends 950, then 950 once more, and after a retirement at 1060 the number 990.
abbrev history : List Event
history =
    checks 1000 4 950
    ∷ checks 1001 4 950
    ∷ checks 1001 5 940
    ∷ retires 1060
    ∷ checks 1061 4 950
    ∷ checks 1062 4 990
    ∷ []

accepted-history : accepted 4 (new_sequences 100) history ≡ 950 ∷ 990 ∷ []
unfolding accepted new_sequences check retire oldest_allowed Dict.get Dict.put Dict.retain
accepted-history = refl

no_replay_example : Above none (accepted 4 (new_sequences 100) history)
unfolding new_sequences
no_replay_example = no_replay 100 4 1000 history (omega arith)

abbrev one_seen : Sequences
one_seen = record { max_age = 100; seqs = (4, 950) ∷ [] }
