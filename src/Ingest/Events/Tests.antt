-- ===== src/Ingest/Events/Tests.antt =====
-- Instances for the events: the channels 7 and 8 of the publisher 1, of which 7 is not read.
use storetheindex.Prelude.{ℕ, ◌≡◌, refl, true, false, none, some, List, [], ◌∷◌, ◌++◌}
use storetheindex.Prelude.Dict
use storetheindex.PeerPolicy.{PeerId}
use storetheindex.Ingest.State.{AdProcessedEvent}
use storetheindex.Ingest.Events.{Chans, receivers, on_ad_processed, cancel, swap_out}
use storetheindex.Ingest.Events.Delivery.{
  Delivery, Move, emits, takes, sends, unlocks, registers, cancels, move, run,
}
use storetheindex.Ingest.Events.Delivery.Taken.{outstanding, all_received}
use storetheindex.Ingest.Events.Delivery.Order.{Account, all_due, run_order}
use storetheindex.Ingest.Events.Delivery.Blocked.{IsBlocked, left_blocks}

abbrev two : Chans
two = some ((1, 7 ∷ 8 ∷ 9 ∷ []) ∷ [])

-- The last channel takes the place of the one that is cancelled, which is closed.
two_left : cancel two 1 7 ≡ (some ((1, 9 ∷ 8 ∷ []) ∷ []), true)
unfolding cancel swap_out Dict.get Dict.put
two_left = refl

abbrev event : ℕ → AdProcessedEvent
event c = record { publisher = 1; head_ad_cid = 30; ad_cid = c; failed = false }

abbrev start : Delivery
start = record { chans = none; in_event = none; sending = none; buffers = [] }

abbrev waiting : Delivery
waiting = record {
  chans = some ((1, 7 ∷ []) ∷ []);
  in_event = none;
  sending = some ((7, event 29) ∷ []);
  buffers = (7, event 28) ∷ [];
}

-- Two events come before the reader of the channel 7 reads.
abbrev moves : List Move
moves = registers 1 7 ∷ emits (event 28) ∷ takes ∷ sends ∷ unlocks ∷ emits (event 29) ∷ takes ∷ []

reaches_waiting : run start moves ≡ some waiting
unfolding run move on_ad_processed receivers Dict.get Dict.put
reaches_waiting = refl

-- No channel is registered at the start.
abbrev nobody : Account
nobody p = 0

due_to_7 : all_due 7 moves none nobody ≡ event 28 ∷ event 29 ∷ []
due_to_7 = refl

run_order_example :
    outstanding 7 start ++ all_due 7 moves none nobody
    ≡ all_received 7 start moves ++ outstanding 7 waiting
unfolding receivers
run_order_example = run_order 7 moves start waiting nobody (λ q. refl) reaches_waiting

left_blocks_example :
    IsBlocked 7 (record waiting { in_event = some (event 30) })
    × (move (record waiting { in_event = some (event 30) }) takes ≡ none)
    × ((p : PeerId) (c : ℕ)
        → (move (record waiting { in_event = some (event 30) }) (registers p c) ≡ none)
          × (move (record waiting { in_event = some (event 30) }) (cancels p c) ≡ none))
unfolding run move Dict.get
left_blocks_example =
    left_blocks 7 (emits (event 30) ∷ []) waiting (record waiting { in_event = some (event 30) })
      refl ((λ e. cc), tt) (event 29, event 28, [], refl, refl)
