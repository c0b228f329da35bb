-- ===== src/Ingest/Events/Delivery.antt =====
-- distributeEvents in internal/ingest/ingest.go and those that it works with, as moves that may come in
-- any order. A move that waits, for the mutex or for a channel, is none.
pub mod Taken
pub mod Order
pub mod Blocked
use storetheindex.Prelude.{
  ℕ, Bool, Option, none, some, List, [], ◌∷◌, ◌==◌, map, if◌then◌else◌, ◌>>=◌,
}
use storetheindex.Prelude.Dict
use storetheindex.Prelude.Dict.{Dict}
use storetheindex.PeerPolicy.{PeerId}
use storetheindex.Ingest.State.{AdProcessedEvent}
use storetheindex.Ingest.Events.{Chans, receivers, on_ad_processed, cancel}

-- The state of the events: inEvents, a channel for one event; what distributeEvents still has to send,
-- where it holds outEventsMutex; and the channels' buffers, for one event each.
pub record Delivery : Type 0 where
  pub chans : Chans
  pub in_event : Option AdProcessedEvent
  pub sending : Option (List (ℕ × AdProcessedEvent))
  pub buffers : Dict AdProcessedEvent

-- A worker sends an event; distributeEvents takes it with the lock, sends it to the next channel, and
-- gives the lock back; a reader receives from its channel, registers one, or cancels it.
pub data Move : Type 0 where
  emits : AdProcessedEvent → Move
  takes sends unlocks : Move
  receives : ℕ → Move
  registers cancels : PeerId → ℕ → Move

-- The sends of an event to the channels of its publisher.
abbrev pub copies : Chans → AdProcessedEvent → List (ℕ × AdProcessedEvent)
copies chans e = map (λ ch. (ch, e)) (receivers chans e.publisher)

-- What waits for the lock.
abbrev pub with_lock : Delivery → Delivery → Option Delivery
with_lock d d' = elim d.sending [ none ↦ some d' | some l ↦ none ]

unfoldable pub move : Delivery → Move → Option Delivery
move d (emits e) = elim d.in_event [ none ↦ some (record d { in_event = some e }) | some x ↦ none ]
move d takes = elim d.in_event [
  | none ↦ none
  | some e ↦ with_lock d (record d { in_event = none; sending = some (copies d.chans e) })
]
move d sends = elim d.sending [
  | none ↦ none
  | some [] ↦ none
  | some ((ch, e) ∷ rest) ↦ elim (Dict.get d.buffers ch) [
    | some x ↦ none
    | none ↦ some (record d { buffers = Dict.put d.buffers ch e; sending = some rest })
  ]
]
move d unlocks = elim d.sending [ some [] ↦ some (record d { sending = none }) | _ ↦ none ]
move d (receives ch) = elim (Dict.get d.buffers ch) [
  | none ↦ none
  | some e ↦ some (record d { buffers = Dict.remove d.buffers ch })
]
move d (registers p ch) = with_lock d (record d { chans = on_ad_processed d.chans p ch })
move d (cancels p ch) = with_lock d (record d { chans = (cancel d.chans p ch).0 })

unfoldable pub run : Delivery → List Move → Option Delivery
unfolding move
run d [] = some d
run d (m ∷ ms) = do d' ← move d m; run d' ms
