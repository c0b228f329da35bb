-- ===== src/Ingest/Events/Delivery/Order.antt =====
-- The events reach each channel in order, by an account of who is registered that the moves alone tell.
use storetheindex.Prelude.{
  ℕ, zero, suc, ◌+◌, ◌-◌, ◌≡◌, refl, sym, ap, ◌∙◌, true, false, ◌&&◌, Option, none, some, List, [],
  ◌∷◌, ◌++◌, ◌==◌, map, elem, arith, if◌then◌else◌, inl, inr, Bool-cases, Option-cases, bind_some,
}
use mathlib.Core.Option.{some-injective}
use storetheindex.Prelude.Dict
use storetheindex.Prelude.Dict.{Dict}
use storetheindex.PeerPolicy.{PeerId}
use storetheindex.Registry.Discovery.Laws.{count}
use storetheindex.Ingest.State.{AdProcessedEvent}
use storetheindex.Ingest.Events.{receivers, cancel}
use storetheindex.Ingest.Events.Laws.{count-on_ad_processed, count-cancel}
use storetheindex.Ingest.Events.Delivery.{
  Delivery, Move, emits, takes, sends, unlocks, receives, registers, cancels, with_lock, move, run,
}
use storetheindex.Ingest.Events.Delivery.Taken.{
  for_channel, taken, all_taken, all_received, outstanding, run_taken, sends_full, sends_free,
}

-- How often a channel is registered for each publisher.
abbrev pub Account : Type 0
Account = PeerId → ℕ

abbrev pub times : ℕ → AdProcessedEvent → List AdProcessedEvent
times zero e = []
times (suc n) e = e ∷ times n e

-- What a move makes of the account, of the event that waits to be distributed, and what is then due to
-- the channel.
abbrev pub account : ℕ → Move → Account → Account
account ch (registers p c) n q = n q + (if (p == q) && (c == ch) then 1 else 0)
account ch (cancels p c) n q = n q - (if (p == q) && (c == ch) then 1 else 0)
account ch m n q = n q

abbrev pub waiting : Move → Option AdProcessedEvent → Option AdProcessedEvent
waiting (emits e) x = some e
waiting takes x = none
waiting m x = x

abbrev pub due : Move → Option AdProcessedEvent → Account → List AdProcessedEvent
due takes x n = elim x [ none ↦ [] | some e ↦ times (n e.publisher) e ]
due m x n = []

-- What is due to a channel in a run, told by the moves and by what is there at its start.
abbrev pub all_due : ℕ → List Move → Option AdProcessedEvent → Account → List AdProcessedEvent
all_due ch [] x n = []
all_due ch (m ∷ ms) x n = due m x n ++ all_due ch ms (waiting m x) (account ch m n)

count-elem : (c : ℕ) (l : List ℕ) → elem c l ≡ false → count c l ≡ 0
count-elem c [] h = refl
count-elem c (x ∷ xs) h = ground (arith, count-elem c xs)

for_channel-times :
    (ch : ℕ) (e : AdProcessedEvent) (l : List ℕ)
    → for_channel ch (map (λ c. (c, e)) l) ≡ times (count ch l) e
for_channel-times ch e [] = refl
for_channel-times ch e (c ∷ l) = elim (Bool-cases (c == ch)) [
  | inl own ↦ rw (own, for_channel-times ch e l) refl
  | inr other ↦ rw (other, for_channel-times ch e l) refl
]

module _ (d d' : Delivery) where
  -- What a move leaves where it does not register, cancel, emit or take.
  abbrev IsKept : Type 0
  IsKept = (d'.in_event ≡ d.in_event) × (d'.chans ≡ d.chans)

  kept : (x : Delivery) → some x ≡ some d' → x.in_event ≡ d.in_event → x.chans ≡ d.chans → IsKept
  kept x h e c = rw (sym (some-injective _ _ h)) (e, c)

  locked : (x : Delivery) → with_lock d x ≡ some d' → x ≡ d'
  locked x h = elim (Option-cases d.sending) [
    | inl free ↦ some-injective _ _ (rw free at h)
    | inr (l, busy) ↦ absurd (cc (rw busy at h))
  ]

  unlocks-IsKept : move d unlocks ≡ some d' → IsKept
  unfolding move
  unlocks-IsKept h = by_queue d.sending refl
    where
      by_queue : (o : Option (List (ℕ × AdProcessedEvent))) → d.sending ≡ o → IsKept
      by_queue none e = absurd (cc (rw (e, move) at h))
      by_queue (some []) e = kept (record d { sending = none }) (rw (e, move) at h) refl refl
      by_queue (some (x ∷ l)) e = absurd (cc (rw (e, move) at h))

  sends-IsKept : move d sends ≡ some d' → IsKept
  unfolding move
  sends-IsKept h = by_queue d.sending refl
    where
      by_queue : (o : Option (List (ℕ × AdProcessedEvent))) → d.sending ≡ o → IsKept
      by_queue none e = absurd (cc (rw (e, move) at h))
      by_queue (some []) e = absurd (cc (rw (e, move) at h))
      by_queue (some ((c, e) ∷ rest)) there = elim (Option-cases (Dict.get d.buffers c)) [
        | inr (x, full) ↦ absurd (cc (rw (sends_full d c e x rest there full) at h))
        | inl free ↦
            kept (record d { buffers = Dict.put d.buffers c e; sending = some rest })
              (rw (sends_free d c e rest there free) at h) refl refl
      ]

  receives-IsKept : (c : ℕ) → move d (receives c) ≡ some d' → IsKept
  unfolding move
  receives-IsKept c h = elim (Option-cases (Dict.get d.buffers c)) [
    | inl empty ↦ absurd (cc (rw (empty, move) at h))
    | inr (e, there) ↦
        kept (record d { buffers = Dict.remove d.buffers c }) (rw (there, move) at h) refl refl
  ]

  emits_lem :
      (e : AdProcessedEvent)
      → move d (emits e) ≡ some d'
      → (some e ≡ d'.in_event) × (d.chans ≡ d'.chans)
  unfolding move
  emits_lem e h = elim (Option-cases d.in_event) [
    | inl free ↦ rw (sym (some-injective _ _ (rw (free, move) at h))) (refl, refl)
    | inr (x, busy) ↦ absurd (cc (rw (busy, move) at h))
  ]

  takes_lem : move d takes ≡ some d' → (none ≡ d'.in_event) × (d.chans ≡ d'.chans)
  unfolding move
  takes_lem h = elim (Option-cases d.in_event) [
    | inl empty ↦ absurd (cc (rw (empty, move) at h))
    | inr (e, there) ↦ let same = locked _ (rw (there, move) at h) in rw (sym same) (refl, refl)
  ]

  module _ (ch : ℕ) (n : Account) (told : (q : PeerId) → count ch (receivers d.chans q) ≡ n q) where
    -- The account, and the event that waits, are those of the state after the move.
    abbrev IsTold : Move → Type 0
    IsTold m =
        (d'.in_event ≡ waiting m d.in_event)
        × ((q : PeerId) → count ch (receivers d'.chans q) ≡ account ch m n q)

    kept-IsTold :
        IsKept → (d'.in_event ≡ d.in_event) × ((q : PeerId) → count ch (receivers d'.chans q) ≡ n q)
    kept-IsTold (e, c) = (e, λ q. rw c (told q))

    not_there :
        (p q : PeerId) (c : ℕ)
        → elem c (receivers d.chans p) ≡ false
        → ((p == q) && (c == ch)) ≡ true
        → count ch (receivers d.chans q) ≡ 0
    not_there p q c absent own =
        let same : p ≡ q = ground arith in
        let same' : c ≡ ch = ground arith in
        count-elem ch (receivers d.chans q) (rw (same, same') at absent)

    cancelled_account :
        (p q : PeerId) (c : ℕ)
        → count ch (receivers (cancel d.chans p c).0 q) ≡ account ch (cancels p c) n q
    cancelled_account p q c = elim (Bool-cases (elem c (receivers d.chans p))) [
      | inl has ↦ ground (arith, rw has at (count-cancel d.chans p q c ch), told q)
      | inr absent ↦ elim (Bool-cases ((p == q) && (c == ch))) [
        | inr other ↦ ground (arith, rw absent at (count-cancel d.chans p q c ch), told q, other)
        | inl own ↦
            let none_there : count ch (receivers d.chans q) ≡ 0 = not_there p q c absent own in
            ground (arith, rw absent at (count-cancel d.chans p q c ch), told q, own, none_there)
      ]
    ]

    move-IsTold : (m : Move) → move d m ≡ some d' → IsTold m
    unfolding move
    move-IsTold (emits e) h = let (x, c) = emits_lem e h in (sym x, λ q. rw (sym c) (told q))
    move-IsTold takes h = let (x, c) = takes_lem h in (sym x, λ q. rw (sym c) (told q))
    move-IsTold sends h = kept-IsTold (sends-IsKept h)
    move-IsTold unlocks h = kept-IsTold (unlocks-IsKept h)
    move-IsTold (receives c) h = kept-IsTold (receives-IsKept c h)
    move-IsTold (registers p c) h =
        let same = locked _ h in
        rw (sym same) (refl, λ q. rw (sym (told q)) (count-on_ad_processed d.chans p q c ch))
    move-IsTold (cancels p c) h =
        let same = locked _ h in rw (sym same) (refl, λ q. cancelled_account p q c)

due-taken :
    (ch : ℕ) (d : Delivery) (n : Account) (m : Move)
    → ((q : PeerId) → count ch (receivers d.chans q) ≡ n q)
    → due m d.in_event n ≡ taken ch d m
due-taken ch d n takes told = elim (Option-cases d.in_event) [
  | inl empty ↦ rw empty refl
  | inr (e, there) ↦
      rw (there, sym (told e.publisher))
        (sym (for_channel-times ch e (receivers d.chans e.publisher)))
]
due-taken ch d n (emits e) told = refl
due-taken ch d n sends told = refl
due-taken ch d n unlocks told = refl
due-taken ch d n (receives c) told = refl
due-taken ch d n (registers p c) told = refl
due-taken ch d n (cancels p c) told = refl

all_due-taken :
    (ch : ℕ) (ms : List Move) (d d' : Delivery) (n : Account)
    → ((q : PeerId) → count ch (receivers d.chans q) ≡ n q)
    → run d ms ≡ some d'
    → all_due ch ms d.in_event n ≡ all_taken ch d ms
unfolding run
all_due-taken ch [] d d' n told h = refl
all_due-taken ch (m ∷ ms) d d' n told h =
    let (x, first, rest) = bind_some (move d m) (λ x. run x ms) d' h in
    let (e, told') = move-IsTold d x ch n told m first in
    rw (first, due-taken ch d n m told)
      (ap (λ l. taken ch d m ++ l)
        (ap (λ y. all_due ch ms y (account ch m n)) (sym e)
          ∙ all_due-taken ch ms x d' (account ch m n) told' rest))

-- However workers, distributeEvents and readers take turns, the events that are received from a channel,
-- and then those that it holds or is to be sent, are those that it was to have before and then those that
-- are due to it, in their order: of each event that is emitted and then taken, one copy for each
-- registration of the channel with the event's publisher that is there then, by a count of the
-- registrations, and of the cancellations, before. The count at the start is that of the channels
-- registered for the publisher then.
pub run_order :
    (ch : ℕ) (ms : List Move) (d d' : Delivery) (n : Account)
    → ((q : PeerId) → count ch (receivers d.chans q) ≡ n q)
    → run d ms ≡ some d'
    → outstanding ch d ++ all_due ch ms d.in_event n ≡ all_received ch d ms ++ outstanding ch d'
run_order ch ms d d' n told h = rw (all_due-taken ch ms d d' n told h) (run_taken ch ms d d' h)
