-- ===== src/Ingest/Events/Delivery/Blocked.antt =====
-- A reader that leaves while an event waits for its channel blocks all others.
use mathlib.Core.Option.{some-injective}
use storetheindex.Prelude.{
  ℕ, ◌≡◌, ◌≢◌, refl, sym, ap, none, some, List, [], ◌∷◌, ◌==◌, ==_iff, inl, inr, All, Bool-cases,
  Option-cases, bind_some,
}
use storetheindex.Prelude.Dict
use storetheindex.Prelude.Dict.{Dict, get-put, get-remove}
use storetheindex.PeerPolicy.{PeerId}
use storetheindex.Ingest.State.{AdProcessedEvent}
use storetheindex.Ingest.Events.Delivery.{
  Delivery, Move, emits, takes, sends, unlocks, receives, registers, cancels, move, run,
}
use storetheindex.Ingest.Events.Delivery.Taken.{sends_full}

-- The reader of the channel takes no part in these moves.
abbrev pub IsLeft : ℕ → List Move → Type 0
IsLeft ch = All (λ m. m ≢ receives ch)

-- A send that waits for a full channel.
abbrev pub IsBlocked : ℕ → Delivery → Type 0
IsBlocked ch d =
    (e : AdProcessedEvent) × (x : AdProcessedEvent) × (rest : List (ℕ × AdProcessedEvent))
    × (d.sending ≡ some ((ch, e) ∷ rest))
    × (Dict.get d.buffers ch ≡ some x)

move-IsBlocked :
    (ch : ℕ) (d d' : Delivery) (m : Move)
    → IsBlocked ch d
    → move d m ≡ some d'
    → m ≢ receives ch
    → IsBlocked ch d'
unfolding move
move-IsBlocked ch d d' (emits e) k h n = elim (Option-cases d.in_event) [
  | inl free ↦ rw (sym (some-injective _ _ (rw (free, move) at h))) k
  | inr (x, full) ↦ absurd (cc (rw (full, move) at h))
]
move-IsBlocked ch d d' takes (e, x, rest, s, b) h n = elim (Option-cases d.in_event) [
  | inl empty ↦ absurd (cc (rw (empty, move) at h))
  | inr (y, there) ↦ absurd (cc (rw (there, s, move) at h))
]
move-IsBlocked ch d d' sends (e, x, rest, s, b) h n =
    absurd (cc (rw (sends_full d ch e x rest s b) at h))
move-IsBlocked ch d d' unlocks (e, x, rest, s, b) h n = absurd (cc (rw (s, move) at h))
move-IsBlocked ch d d' (receives c) (e, x, rest, s, b) h n =
    elim (Option-cases (Dict.get d.buffers c)) [
      | inl empty ↦ absurd (cc (rw (empty, move) at h))
      | inr (y, there) ↦ elim (Bool-cases (c == ch)) [
        | inl own ↦ absurd (n (ap receives ((==_iff c ch).0 own)))
        | inr other ↦
            rw (sym (some-injective _ _ (rw (there, move) at h)))
              (e, x, rest, s, rw (get-remove d.buffers c ch, other) b)
      ]
    ]
move-IsBlocked ch d d' (registers p c) (e, x, rest, s, b) h n = absurd (cc (rw (s, move) at h))
move-IsBlocked ch d d' (cancels p c) (e, x, rest, s, b) h n = absurd (cc (rw (s, move) at h))

run-IsBlocked :
    (ch : ℕ) (ms : List Move) (d d' : Delivery)
    → run d ms ≡ some d'
    → IsLeft ch ms
    → IsBlocked ch d
    → IsBlocked ch d'
unfolding run
run-IsBlocked ch [] d d' h left k = rw (sym (some-injective _ _ h)) k
run-IsBlocked ch (m ∷ ms) d d' h (other, left) k =
    let (x, first, rest) = bind_some (move d m) (λ x. run x ms) d' h in
    run-IsBlocked ch ms x d' rest left (move-IsBlocked ch d x m k first other)

-- Where an event waits for a full channel whose reader takes no more part, it waits for ever, whatever
-- else happens: no further event is taken, and nobody can register or cancel a channel, the reader that
-- has left included.
pub left_blocks :
    (ch : ℕ) (ms : List Move) (d d' : Delivery)
    → run d ms ≡ some d'
    → IsLeft ch ms
    → IsBlocked ch d
    → IsBlocked ch d'
      × (move d' takes ≡ none)
      × ((p : PeerId) (c : ℕ) → (move d' (registers p c) ≡ none) × (move d' (cancels p c) ≡ none))
unfolding move
left_blocks ch ms d d' h left k =
    let (e, x, rest, s, b) = run-IsBlocked ch ms d d' h left k in
    (
      (e, x, rest, s, b),
      elim (Option-cases d'.in_event) [
        | inl empty ↦ rw (empty, move) refl
        | inr (y, there) ↦ rw (there, s, move) refl
      ],
      λ p c. (rw (s, move) refl, rw (s, move) refl),
    )
