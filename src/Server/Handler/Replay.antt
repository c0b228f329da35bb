-- ===== src/Server/Handler/Replay.antt =====
-- Signed requests that are sent again.
use storetheindex.Prelude.{
  ℕ, suc, ◌^◌, ◌≤◌, ◌<◌, ◌≡◌, ◌⊎◌, inl, inr, refl, ap, Option-cases, Option, none, some, List, [],
  ◌∷◌, ◌==◌, if◌then◌else◌, ==_refl, arith, ltb,
}
use storetheindex.Prelude.Dict.{IsDict, get-put, put-IsDict}
use storetheindex.Prelude.Result.{Result, ok, err, Result-cases}
use storetheindex.PeerPolicy.{PeerId}
use storetheindex.Registry.Sequences.{Error, check, retire}
use storetheindex.Registry.Sequences.Replay.{Guarded-later}
use storetheindex.Server.Requests.{
  DiscoverRequest, IngestRequest, PeerRecord, read_discover_request, read_ingest_request,
  read_register_request,
}
use storetheindex.Server.Handler.Barred.{IsBarred, check-IsBarred, retire-IsBarred, barred_lem}
use storetheindex.Server.Handler.Laws.{seen, check_sequence_cases}
use storetheindex.Server.Handler.{
  Services, Handler, Now, Refusal, unreadable, missing_peer_id, long_context, long_metadata,
  sequence, check_sequence, start_discovery, do_register, do_index, discover_provider,
  register_provider, index_content,
}

-- The requests that carry a sequence number.
pub data Call (s : Services) : Type 0 where
  discovers registers indexes : s.envelopes.Bytes → Call s

-- What a request asks for once it is read, and the number that it carries.
data Work : Type 0 where
  discovery : DiscoverRequest → Work
  registration : PeerRecord → Work
  indexing : IngestRequest → Work

abbrev id_of : Work → PeerId
id_of (discovery req) = req.provider_id
id_of (registration rec) = rec.peer_id
id_of (indexing req) = req.provider_id

abbrev seq_of : Work → ℕ
seq_of (discovery req) = req.seq
seq_of (registration rec) = rec.seq
seq_of (indexing req) = req.seq

module _ (s : Services) where
  unfoldable pub handle : Handler s → Now s → Call s → Handler s × Option Refusal
  handle h now (discovers b) = discover_provider s h now b
  handle h now (registers b) = register_provider s h now b
  handle h now (indexes b) = index_content s h now b

  do_work : Now s → Work → Handler s → Handler s × Option Refusal
  do_work now (discovery req) h = start_discovery s now req h
  do_work now (registration rec) h = do_register s rec h
  do_work now (indexing req) h = do_index s now req h

  -- A request is read and within its limits, or not.
  parse : Call s → Result Refusal Work
  parse (discovers b) = elim (read_discover_request s.envelopes b) [
    | none ↦ err unreadable
    | some req ↦ ok (discovery req)
  ]
  parse (registers b) = elim (read_register_request s.envelopes b) [
    | none ↦ err unreadable
    | some rec ↦ if rec.peer_id == 0 then err missing_peer_id else ok (registration rec)
  ]
  parse (indexes b) = elim (read_ingest_request s.envelopes b) [
    | none ↦ err unreadable
    | some req ↦
        if ltb 64 (s.len req.context_id)
        then err long_context
        else if ltb 1024 (s.len req.metadata)
        then err long_metadata
        else ok (indexing req)
  ]

  sequences-do_work :
      (now : Now s) (w : Work) (h : Handler s) → (do_work now w h).0.sequences ≡ h.sequences
  unfolding do_work start_discovery do_register do_index
  sequences-do_work now (discovery req) h = ground arith
  sequences-do_work now (registration rec) h = refl
  sequences-do_work now (indexing req) h = ground arith

  handle_unread :
      (h : Handler s) (now : Now s) (c : Call s) (x : Refusal)
      → parse c ≡ err x
      → handle h now c ≡ (h, some x)
  unfolding parse handle discover_provider register_provider index_content
  handle_unread h now (discovers b) x e = ground arith
  handle_unread h now (registers b) x e = ground arith
  handle_unread h now (indexes b) x e = ground arith

  handle_read :
      (h : Handler s) (now : Now s) (c : Call s) (w : Work)
      → parse c ≡ ok w
      → handle h now c ≡ check_sequence s h now (id_of w) (seq_of w) (do_work now w)
  unfolding parse handle discover_provider register_provider index_content do_work
  handle_read h now (discovers b) w e = ground arith
  handle_read h now (registers b) w e = ground arith
  handle_read h now (indexes b) w e = ground arith

  -- What comes in between: requests, and the retirements of sequence numbers by the registry.
  pub data Event : Type 0 where
    requests : Now s → Call s → Event
    retires : ℕ → Event

  unfoldable pub run : Handler s → List Event → Handler s
  run h [] = h
  run h (requests now c ∷ es) = run (handle h now c).0 es
  run h (retires now ∷ es) = run (record h { sequences = retire h.sequences now }) es

  -- The clock does not go back, it moves on after a retirement, and its values, since which `max_age`
  -- has passed, fit an int64; `last` comes after all.
  abbrev pub Ticks : ℕ → ℕ → List Event → ℕ → Type 0
  Ticks max_age t [] last = (t ≤ last) × (max_age ≤ last) × (last < 2 ^ 63)
  Ticks max_age t (requests now c ∷ es) last =
      (t ≤ now.unix) × (max_age ≤ now.unix) × (now.unix < 2 ^ 63) × Ticks max_age now.unix es last
  Ticks max_age t (retires now ∷ es) last =
      (t ≤ now) × (max_age ≤ now) × (now < 2 ^ 63) × Ticks max_age (suc now) es last

  sequences-check_sequence :
      (h : Handler s) (now : Now s) (id : PeerId) (seq : ℕ)
      (f : Handler s → Handler s × Option Refusal)
      → ((h' : Handler s) → (f h').0.sequences ≡ h'.sequences)
      → (check_sequence s h now id seq f).0.sequences ≡ (check h.sequences now.unix id seq).0
  unfolding check_sequence
  sequences-check_sequence h now id seq f keeps =
      elim (Option-cases (check h.sequences now.unix id seq).1) [
        | inl fine ↦ rw (fine, check_sequence) (keeps _)
        | inr (x, stops) ↦ rw (stops, check_sequence) refl
      ]

  -- A request leaves the sequence numbers, or changes them by a check.
  handle-sequences :
      (h : Handler s) (now : Now s) (c : Call s)
      → ((handle h now c).0.sequences ≡ h.sequences)
        ⊎ ((id : PeerId) × (seq : ℕ) × ((handle h now c).0.sequences
              ≡ (check h.sequences now.unix id seq).0))
  handle-sequences h now c = elim (Result-cases (parse c)) [
    | inl (x, e) ↦ inl (ap (λ t. t.0.sequences) (handle_unread h now c x e))
    | inr (w, e) ↦ inr (
      id_of w,
      seq_of w,
      rw (handle_read h now c w e) (
          sequences-check_sequence h now (id_of w) (seq_of w) (do_work now w)
            (sequences-do_work now w)),
    )
  ]

  max_age-handle :
      (h : Handler s) (now : Now s) (c : Call s)
      → (handle h now c).0.sequences.max_age ≡ h.sequences.max_age
  unfolding check
  max_age-handle h now c = elim (handle-sequences h now c) [
    | inl same ↦ ap (λ q. q.max_age) same
    | inr (id, seq, e) ↦ rw e (ground arith)
  ]

  handle-IsBarred :
      (h : Handler s) (now : Now s) (c : Call s) (id : PeerId) (seq t : ℕ)
      → t ≤ now.unix
      → h.sequences.max_age ≤ now.unix
      → now.unix < 2 ^ 63
      → IsBarred h.sequences id seq t
      → IsBarred (handle h now c).0.sequences id seq now.unix
  handle-IsBarred h now c id seq t later a b k = elim (handle-sequences h now c) [
    | inl same ↦
        rw same (k.0, k.1, Guarded-later h.sequences id t now.unix (some k.0) later k.2, k.3)
    | inr (peer, seq', e) ↦
        rw e (check-IsBarred h.sequences id peer seq seq' t now.unix later a b k)
  ]

  run-IsBarred :
      (es : List Event) (h : Handler s) (id : PeerId) (seq t last : ℕ)
      → Ticks h.sequences.max_age t es last
      → IsBarred h.sequences id seq t
      → (e : Error) × (check (run h es).sequences last id seq ≡ ((run h es).sequences, some e))
  unfolding run
  run-IsBarred [] h id seq t last (later, a, b) k = barred_lem h.sequences id seq t last later a b k
  run-IsBarred (requests now c ∷ es) h id seq t last (later, a, b, rest) k =
      run-IsBarred es (handle h now c).0 id seq now.unix last (rw (max_age-handle h now c) rest)
        (handle-IsBarred h now c id seq t later a b k)
  run-IsBarred (retires now ∷ es) h id seq t last (later, a, b, rest) k =
      run-IsBarred es (record h { sequences = retire h.sequences now }) id seq (suc now) last
        (unfold retire in rest) (retire-IsBarred h.sequences id seq t now later a b k)

  check_sequence_stops :
      (h : Handler s) (now : Now s) (id : PeerId) (seq : ℕ)
      (f : Handler s → Handler s × Option Refusal) (e : Error)
      → check h.sequences now.unix id seq ≡ (h.sequences, some e)
      → check_sequence s h now id seq f ≡ (h, some (sequence e))
  unfolding check_sequence
  check_sequence_stops h now id seq f e stops =
      rw (ap (λ t. t.1) stops, check_sequence) (rw (ap (λ t. t.0) stops) refl)

  -- A request whose work ends without an error has its number barred.
  passed :
      (h : Handler s) (now : Now s) (w : Work)
      → IsDict h.sequences.seqs
      → (check_sequence s h now (id_of w) (seq_of w) (do_work now w)).1 ≡ none
      → IsBarred
          (check_sequence s h now (id_of w) (seq_of w) (do_work now w)).0.sequences
          (id_of w)
          (seq_of w)
          now.unix
  passed h now w d fine = elim (check_sequence_cases s h now (id_of w) (seq_of w) (do_work now w)) [
    | inl (x, stops) ↦ absurd (cc (rw stops at fine))
    | inr (fits, above, goes) ↦ rw goes (
        rw (sequences-do_work now w (seen s h (id_of w) (seq_of w))) (
          seq_of w,
          omega arith,
          inl (
              rw (get-put h.sequences.seqs (id_of w) (id_of w) (seq_of w), ==_refl (id_of w)) refl),
          put-IsDict h.sequences.seqs (id_of w) (seq_of w) d,
        ))
  ]

  handle_ok :
      (h : Handler s) (now : Now s) (c : Call s)
      → IsDict h.sequences.seqs
      → (handle h now c).1 ≡ none
      → (w : Work) × (parse c ≡ ok w)
        × IsBarred (handle h now c).0.sequences (id_of w) (seq_of w) now.unix
  handle_ok h now c d fine = elim (Result-cases (parse c)) [
    | inl (x, e) ↦ absurd (cc (rw (handle_unread h now c x e) at fine))
    | inr (w, e) ↦ (
      w,
      e,
      rw (handle_read h now c w e) (passed h now w d (rw (handle_read h now c w e) at fine)),
    )
  ]

  -- A request that was answered without an error and is sent again, after any other requests and
  -- retirements, is refused for its number and changes nothing. It is assumed that the clock does not go
  -- back, and that at least a nanosecond passes between a retirement and the next event.
  pub resent_refused :
      (h : Handler s) (now now' : Now s) (c : Call s) (es : List Event)
      → IsDict h.sequences.seqs
      → Ticks h.sequences.max_age now.unix es now'.unix
      → (handle h now c).1 ≡ none
      → (e : Error) × (handle (run (handle h now c).0 es) now' c
          ≡ (run (handle h now c).0 es, some (sequence e)))
  resent_refused h now now' c es d ticks fine =
      let (w, read, k) = handle_ok h now c d fine in
      let (e, stops) =
        run-IsBarred es (handle h now c).0 (id_of w) (seq_of w) now.unix now'.unix
          (rw (max_age-handle h now c) ticks) k in
      (
        e,
        rw (handle_read (run (handle h now c).0 es) now' c w read) (
            check_sequence_stops (run (handle h now c).0 es) now' (id_of w) (seq_of w)
              (do_work now' w) e stops),
      )
