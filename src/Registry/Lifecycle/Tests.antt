-- ===== src/Registry/Lifecycle/Tests.antt =====
-- A registry that is closed while a discovery runs.
use storetheindex.Prelude.{
  ◌≡◌, ◌≢◌, ◌≤◌, ◌⊎◌, ◌+◌, refl, Bool, true, false, none, List, [], ◌∷◌, length,
}
use storetheindex.Prelude.Dict
use storetheindex.Registry.Policy
use storetheindex.PeerPolicy
use storetheindex.PeerPolicy.{PeerId}
use storetheindex.Registry.Poll.{Polling}
use storetheindex.Registry.Discovery.{sync_start_discover, sync_need_discover}
use storetheindex.Registry.Tests.{memory, one}
use storetheindex.Registry.Lifecycle.{
  Move, starts, answers, acts, fires, checks, stops, closes, returns, waiting, Life, moves, panics,
  started, move, act, hand_over, check_step, run,
}
use storetheindex.Registry.Lifecycle.Laws.{IsStill, close_safe}
use storetheindex.Registry.Lifecycle.Ends.{begin_none, added, GoesOn, close_ends}

abbrev hourly : Polling
hourly = record { interval = 60; retry_after = 10; stop_after = 100 }

abbrev room : PeerId → Bool
room p = true

abbrev closing_moves : List Move
closing_moves = starts 1 7 ∷ acts 90 ∷ closes ∷ []

-- While the discovery of the address 7 runs
abbrev being_closed : Life memory
being_closed = record {
  registry = record one { discover_times = (7, 0) ∷ [] };
  wait = 1;
  discoverers = 7 ∷ [];
  acting = none;
  check = waiting;
  done = false;
  closing = true;
  closed = false;
  returned = false;
}

abbrev whole : List Move
whole =
    starts 1 7
    ∷ acts 90
    ∷ closes
    ∷ fires
    ∷ checks
    ∷ acts 91
    ∷ checks
    ∷ acts 92
    ∷ checks
    ∷ checks
    ∷ acts 93
    ∷ checks
    ∷ answers 7 none
    ∷ acts 94
    ∷ checks
    ∷ stops
    ∷ returns
    ∷ []

close_safe_example :
    (run memory hourly [] room (started memory one) whole ≢ panics)
    × ((l : Life memory)
        → run memory hourly [] room (started memory one) whole ≡ moves l
        → l.returned ≡ true
        → IsStill memory hourly [] room l)
unfolding move act hand_over check_step sync_start_discover sync_need_discover Dict.get Dict.put
    Policy.allowed PeerPolicy.eval
close_safe_example = close_safe memory hourly [] room one whole refl

close_ends_example :
    ((ms : List Move) (l : Life memory)
      → begin_none ms ≡ true
      → run memory hourly [] room being_closed ms ≡ moves l
      → length ms ≤ 9 + added ms)
    × ((false ≡ true) ⊎ GoesOn memory hourly [] room being_closed)
unfolding move act hand_over check_step run sync_start_discover sync_need_discover Dict.get Dict.put
    Policy.allowed PeerPolicy.eval
close_ends_example = close_ends memory hourly [] room one closing_moves being_closed refl refl refl
