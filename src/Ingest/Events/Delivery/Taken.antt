-- ===== src/Ingest/Events/Delivery/Taken.antt =====
-- The events that are sent to a channel reach its reader in order.
use mathlib.Core.List.{append_assoc, append-nil}
use mathlib.Core.Option.{some-injective}
use storetheindex.Prelude.{
  ℕ, ◌≡◌, refl, sym, ap, ◌∙◌, Option, none, some, List, [], ◌∷◌, ◌++◌, ◌==◌, ==_iff, if◌then◌else◌,
  inl, inr, Bool-cases, Option-cases, bind_some,
}
use storetheindex.Prelude.Dict
use storetheindex.Prelude.Dict.{Dict, get-put, get-remove}
use storetheindex.Ingest.State.{AdProcessedEvent}
use storetheindex.Ingest.Events.Delivery.{
  Delivery, Move, emits, takes, sends, unlocks, receives, registers, cancels, copies, with_lock,
  move, run,
}

-- The events for one channel among those that are to be sent.
abbrev pub for_channel : ℕ → List (ℕ × AdProcessedEvent) → List AdProcessedEvent
for_channel ch [] = []
for_channel ch ((c, e) ∷ rest) =
    let more = for_channel ch rest in if c == ch then e ∷ more else more

-- What a channel holds, and what it is to be sent.
abbrev pub held : Option AdProcessedEvent → List AdProcessedEvent
held none = []
held (some e) = e ∷ []

abbrev pub queued : ℕ → Option (List (ℕ × AdProcessedEvent)) → List AdProcessedEvent
queued ch none = []
queued ch (some l) = for_channel ch l

abbrev pub outstanding : ℕ → Delivery → List AdProcessedEvent
outstanding ch d = held (Dict.get d.buffers ch) ++ queued ch d.sending

-- What a move takes for the channel, and what it receives from it.
abbrev pub taken : ℕ → Delivery → Move → List AdProcessedEvent
taken ch d takes = elim d.in_event [ none ↦ [] | some e ↦ for_channel ch (copies d.chans e) ]
taken ch d m = []

abbrev pub received : ℕ → Delivery → Move → List AdProcessedEvent
received ch d (receives c) = if c == ch then held (Dict.get d.buffers ch) else []
received ch d m = []

module _ (d : Delivery) (c : ℕ) (e : AdProcessedEvent) where
  pub sends_free :
      (rest : List (ℕ × AdProcessedEvent))
      → d.sending ≡ some ((c, e) ∷ rest)
      → Dict.get d.buffers c ≡ none
      → move d sends ≡ some (record d { buffers = Dict.put d.buffers c e; sending = some rest })
  unfolding move
  sends_free rest there free = rw (there, move) (rw free refl)

  pub sends_full :
      (x : AdProcessedEvent) (rest : List (ℕ × AdProcessedEvent))
      → d.sending ≡ some ((c, e) ∷ rest)
      → Dict.get d.buffers c ≡ some x
      → move d sends ≡ none
  unfolding move
  sends_full x rest there full = rw (there, move) (rw full refl)

module _ (ch : ℕ) (d d' : Delivery) where
  -- A move that leaves the buffers and what is to be sent.
  same_order :
      (x : Delivery)
      → some x ≡ some d'
      → x.buffers ≡ d.buffers
      → x.sending ≡ d.sending
      → outstanding ch d ++ [] ≡ outstanding ch d'
  same_order x h b s = rw (sym (some-injective _ _ h)) (rw (b, s) (append-nil (outstanding ch d)))

  with_lock_order :
      (x : Delivery)
      → with_lock d x ≡ some d'
      → x.buffers ≡ d.buffers
      → x.sending ≡ d.sending
      → outstanding ch d ++ [] ≡ outstanding ch d'
  with_lock_order x h b s = elim (Option-cases d.sending) [
    | inl free ↦ same_order x (rw free at h) b s
    | inr (l, busy) ↦ absurd (cc (rw busy at h))
  ]

  emits_order :
      (e : AdProcessedEvent)
      → move d (emits e) ≡ some d'
      → outstanding ch d ++ [] ≡ outstanding ch d'
  unfolding move
  emits_order e h = elim (Option-cases d.in_event) [
    | inl free ↦ same_order (record d { in_event = some e }) (rw (free, move) at h) refl refl
    | inr (x, busy) ↦ absurd (cc (rw (busy, move) at h))
  ]

  takes_order : move d takes ≡ some d' → outstanding ch d ++ taken ch d takes ≡ outstanding ch d'
  unfolding move
  takes_order h = elim (Option-cases d.in_event) [
    | inl empty ↦ absurd (cc (rw (empty, move) at h))
    | inr (e, there) ↦ elim (Option-cases d.sending) [
      | inr (l, busy) ↦ absurd (cc (rw (there, busy, move) at h))
      | inl free ↦
          rw (sym (some-injective _ _ (rw (there, free, move) at h)), there, free)
            (ap (λ l. l ++ for_channel ch (copies d.chans e))
              (append-nil (held (Dict.get d.buffers ch))))
    ]
  ]

  unlocks_order : move d unlocks ≡ some d' → outstanding ch d ++ [] ≡ outstanding ch d'
  unfolding move
  unlocks_order h = by_queue d.sending refl
    where
      by_queue :
          (o : Option (List (ℕ × AdProcessedEvent)))
          → d.sending ≡ o
          → outstanding ch d ++ [] ≡ outstanding ch d'
      by_queue none e = absurd (cc (rw (e, move) at h))
      by_queue (some []) e =
          rw (sym (some-injective _ _ (rw (e, move) at h)), e)
            (append-nil (held (Dict.get d.buffers ch) ++ []))
      by_queue (some (x ∷ l)) e = absurd (cc (rw (e, move) at h))

  sends_order : move d sends ≡ some d' → outstanding ch d ++ [] ≡ outstanding ch d'
  unfolding move
  sends_order h = by_queue d.sending refl
    where
      moved :
          (c : ℕ) (e : AdProcessedEvent) (rest : List (ℕ × AdProcessedEvent))
          → Dict.get d.buffers c ≡ none
          → (held (Dict.get d.buffers ch) ++ for_channel ch ((c, e) ∷ rest)) ++ []
            ≡ held (Dict.get (Dict.put d.buffers c e) ch) ++ for_channel ch rest
      moved c e rest free = elim (Bool-cases (c == ch)) [
        | inl own ↦
            rw (get-put d.buffers c ch e, own, rw ((==_iff c ch).0 own) at free) (append-nil _)
        | inr other ↦ rw (get-put d.buffers c ch e, other) (append-nil _)
      ]

      by_queue :
          (o : Option (List (ℕ × AdProcessedEvent)))
          → d.sending ≡ o
          → outstanding ch d ++ [] ≡ outstanding ch d'
      by_queue none e = absurd (cc (rw (e, move) at h))
      by_queue (some []) e = absurd (cc (rw (e, move) at h))
      by_queue (some ((c, e) ∷ rest)) there = elim (Option-cases (Dict.get d.buffers c)) [
        | inr (x, full) ↦ absurd (cc (rw (sends_full d c e x rest there full) at h))
        | inl free ↦
            rw (sym (some-injective _ _ (rw (sends_free d c e rest there free) at h)), there)
              (moved c e rest free)
      ]

  receives_order :
      (c : ℕ)
      → move d (receives c) ≡ some d'
      → outstanding ch d ++ [] ≡ received ch d (receives c) ++ outstanding ch d'
  unfolding move
  receives_order c h = elim (Option-cases (Dict.get d.buffers c)) [
    | inl empty ↦ absurd (cc (rw (empty, move) at h))
    | inr (e, there) ↦
        rw (sym (some-injective _ _ (rw (there, move) at h))) (elim (Bool-cases (c == ch)) [
          | inl own ↦
              rw (get-remove d.buffers c ch, own)
                (append-nil (held (Dict.get d.buffers ch) ++ queued ch d.sending))
          | inr other ↦
              rw (get-remove d.buffers c ch, other)
                (append-nil (held (Dict.get d.buffers ch) ++ queued ch d.sending))
        ])
  ]

  move_order :
      (m : Move)
      → move d m ≡ some d'
      → outstanding ch d ++ taken ch d m ≡ received ch d m ++ outstanding ch d'
  move_order (emits e) h = emits_order e h
  move_order takes h = takes_order h
  move_order sends h = sends_order h
  move_order unlocks h = unlocks_order h
  move_order (receives c) h = receives_order c h
  move_order (registers p c) h = unfold move in with_lock_order _ h refl refl
  move_order (cancels p c) h = unfold move in with_lock_order _ h refl refl

-- What a channel is sent, and what is received from it, in a run.
abbrev pub all_taken : ℕ → Delivery → List Move → List AdProcessedEvent
all_taken ch d [] = []
all_taken ch d (m ∷ ms) =
    taken ch d m ++ elim (move d m) [ none ↦ [] | some d' ↦ all_taken ch d' ms ]

abbrev pub all_received : ℕ → Delivery → List Move → List AdProcessedEvent
all_received ch d [] = []
all_received ch d (m ∷ ms) =
    received ch d m ++ elim (move d m) [ none ↦ [] | some d' ↦ all_received ch d' ms ]

-- What the moves take is what they give, by the channels that the state has where they take it.
pub run_taken :
    (ch : ℕ) (ms : List Move) (d d' : Delivery)
    → run d ms ≡ some d'
    → outstanding ch d ++ all_taken ch d ms ≡ all_received ch d ms ++ outstanding ch d'
unfolding run
run_taken ch [] d d' h = rw (some-injective _ _ h) (append-nil (outstanding ch d'))
run_taken ch (m ∷ ms) d d' h =
    let (x, first, rest) = bind_some (move d m) (λ x. run x ms) d' h in
    rw first (
      sym (append_assoc (outstanding ch d) (taken ch d m) (all_taken ch x ms))
      ∙ ap (λ l. l ++ all_taken ch x ms) (move_order ch d x m first)
      ∙ append_assoc (received ch d m) (outstanding ch x) (all_taken ch x ms)
      ∙ ap (λ l. received ch d m ++ l) (run_taken ch ms x d' rest)
      ∙ sym (append_assoc (received ch d m) (all_received ch x ms) (outstanding ch d')))
