-- ===== src/Registry/Sequences/Replay.antt =====
-- The replay protection, over any history of checks and retirements.
use storetheindex.Prelude.{
  ℕ, suc, ◌+◌, ◌^◌, ◌≤◌, ◌<◌, ◌≡◌, ◌⊎◌, inl, inr, false, Option, none, some, List, [], ◌∷◌, ltb,
  leb, ◌==◌, ==_iff, arith, if◌then◌else◌, Option-cases, Bool-cases,
}
use storetheindex.Prelude.Dict
use storetheindex.Prelude.Dict.{IsDict, get-put, put-IsDict, get-retain, retain-IsDict}
use storetheindex.PeerPolicy.{PeerId}
use storetheindex.Registry.Sequences.{
  Sequences, Error, too_small, not_newer, new_sequences, oldest_allowed, check, retire,
}

-- A request's check, and a retirement, with the time of each.
pub data Event : Type 0 where
  checks : ℕ → PeerId → ℕ → Event
  retires : ℕ → Event

-- The sequence numbers of one peer that were accepted, oldest first.
unfoldable pub accepted : PeerId → Sequences → List Event → List ℕ
accepted id s [] = []
accepted id s (checks now peer seq ∷ es) =
    let rest = accepted id (check s now peer seq).0 es in
    elim (check s now peer seq).1 [ none ↦ if peer == id then seq ∷ rest else rest | some e ↦ rest ]
accepted id s (retires now ∷ es) = accepted id (retire s now) es

-- The clock does not go back, it moves on after a retirement, and its values, since which `max_age`
-- has passed, fit an int64.
abbrev pub Ticks : ℕ → ℕ → List Event → Type 0
Ticks max_age t [] = Unit {0}
Ticks max_age t (checks now peer seq ∷ es) =
    (t ≤ now) × (max_age ≤ now) × (now < 2 ^ 63) × Ticks max_age now es
Ticks max_age t (retires now ∷ es) =
    (t ≤ now) × (max_age ≤ now) × (now < 2 ^ 63) × Ticks max_age (suc now) es

-- Each number is above the one before it, and the first above `o`.
abbrev pub Above : Option ℕ → List ℕ → Type 0
Above o [] = Unit {0}
Above none (x ∷ xs) = Above (some x) xs
Above (some y) (x ∷ xs) = (y < x) × Above (some x) xs

-- What keeps the last accepted number out: it is remembered, or too old from `t` on.
abbrev pub Guarded : Sequences → PeerId → ℕ → Option ℕ → Type 0
Guarded s id t none = Unit {0}
Guarded s id t (some y) = (Dict.get s.seqs id ≡ some y) ⊎ (s.max_age + y < t)

pub oldest_lem :
    (s : Sequences) (now : ℕ)
    → s.max_age ≤ now
    → now < 2 ^ 63
    → oldest_allowed s now + s.max_age ≡ now
unfolding oldest_allowed
oldest_lem s now h k = omega arith

pub retire-IsDict : (s : Sequences) (now : ℕ) → IsDict s.seqs → IsDict (retire s now).seqs
unfolding retire
retire-IsDict s now d = retain-IsDict _ s.seqs d

pub retire-Guarded :
    (s : Sequences) (id : PeerId) (t now : ℕ) (o : Option ℕ)
    → IsDict s.seqs
    → t ≤ now
    → s.max_age ≤ now
    → now < 2 ^ 63
    → Guarded s id t o
    → Guarded (retire s now) id (suc now) o
unfolding retire
retire-Guarded s id t now none d h a b g = tt
retire-Guarded s id t now (some y) d h a b (inr old) = inr (omega arith)
retire-Guarded s id t now (some y) d h a b (inl e) =
    elim (Bool-cases (ltb (oldest_allowed s now) y)) [
      | inl new ↦
          inl (rw (get-retain (λ id seq. ltb (oldest_allowed s now) seq) s.seqs id d, e) (rw new))
      | inr old ↦ inr (ground (arith, oldest_lem s now a b))
    ]

-- The two ways a check ends: refused with nothing changed, or stored above all that stood there.
abbrev pub Outcome : Sequences → ℕ → PeerId → ℕ → Type 0
Outcome s now id seq =
    ((e : Error) × ((check s now id seq).0 ≡ s) × ((check s now id seq).1 ≡ some e))
    ⊎ (((check s now id seq).0 ≡ record s { seqs = Dict.put s.seqs id seq })
        × ((check s now id seq).1 ≡ none)
        × (oldest_allowed s now ≤ seq)
        × ((y : ℕ) → Dict.get s.seqs id ≡ some y → y < seq))

pub check_cases : (s : Sequences) (now : ℕ) (id : PeerId) (seq : ℕ) → Outcome s now id seq
unfolding check
check_cases s now id seq = elim (Bool-cases (ltb seq (oldest_allowed s now))) [
  | inl small ↦ inl (too_small, rw (small, check), rw (small, check))
  | inr fits ↦ elim (Option-cases (Dict.get s.seqs id)) [
    | inl new ↦ inr (rw (fits, new, check), rw (fits, new, check), ground arith, λ y e. cc (new, e))
    | inr (prev, e) ↦ elim (Bool-cases (leb seq prev)) [
      | inl old ↦ inl (not_newer, rw (fits, e, check) (rw old), rw (fits, e, check) (rw old))
      | inr above ↦ inr (
        rw (fits, e, check) (rw above),
        rw (fits, e, check) (rw above),
        ground arith,
        λ y e'. ground (arith, e),
      )
    ]
  ]
]

pub Guarded-later :
    (s : Sequences) (id : PeerId) (t u : ℕ) (o : Option ℕ)
    → t ≤ u
    → Guarded s id t o
    → Guarded s id u o
Guarded-later s id t u none h g = tt
Guarded-later s id t u (some y) h (inl e) = inl e
Guarded-later s id t u (some y) h (inr old) = inr (omega arith)

pub put-Guarded :
    (s : Sequences) (id peer : PeerId) (t seq : ℕ) (o : Option ℕ)
    → (peer == id) ≡ false
    → Guarded s id t o
    → Guarded (record s { seqs = Dict.put s.seqs peer seq }) id t o
put-Guarded s id peer t seq none ne g = tt
put-Guarded s id peer t seq (some y) ne (inl e) = inl (rw (get-put s.seqs peer id seq, ne) e)
put-Guarded s id peer t seq (some y) ne (inr old) = inr old

-- The guard puts an accepted number above the last one.
Above-cons :
    (s : Sequences) (id : PeerId) (now seq : ℕ) (o : Option ℕ) (xs : List ℕ)
    → s.max_age ≤ now
    → now < 2 ^ 63
    → Guarded s id now o
    → oldest_allowed s now ≤ seq
    → ((y : ℕ) → Dict.get s.seqs id ≡ some y → y < seq)
    → Above (some seq) xs
    → Above o (seq ∷ xs)
Above-cons s id now seq none xs a b g fits above rest = rest
Above-cons s id now seq (some y) xs a b (inl e) fits above rest = (above y e, rest)
Above-cons s id now seq (some y) xs a b (inr old) fits above rest =
    (omega (arith, oldest_lem s now a b), rest)

replay :
    (es : List Event) (s : Sequences) (id : PeerId) (t : ℕ) (o : Option ℕ)
    → IsDict s.seqs
    → Ticks s.max_age t es
    → Guarded s id t o
    → Above o (accepted id s es)
unfolding accepted
replay [] s id t o d h g = tt
replay (retires now ∷ es) s id t o d (p, a, b, later) g =
    replay es (retire s now) id (suc now) o (retire-IsDict s now d) (unfold retire in later)
      (retire-Guarded s id t now o d p a b g)
replay (checks now peer seq ∷ es) s id t o d (p, a, b, later) g =
    elim (check_cases s now peer seq) [
      | inl (e, same, refused) ↦ rw (refused, accepted) (rw same (replay es s id now o d later g'))
      | inr (stored, fine, fits, above) ↦
          rw (fine, accepted)
            (rw stored (elim (Bool-cases (peer == id)) [
              | inl own ↦ rw own (
                  Above-cons s id now seq o _ a b g' fits
                    (λ y e. above y (rw ((==_iff peer id).0 own) e))
                    (replay es (record s { seqs = Dict.put s.seqs peer seq }) id now (some seq) d'
                      later (inl (rw (get-put s.seqs peer id seq, own)))))
              | inr other ↦ rw other (
                  replay es (record s { seqs = Dict.put s.seqs peer seq }) id now o d' later
                    (put-Guarded s id peer now seq o other g'))
            ]))
    ]
  where
    g' : Guarded s id now o
    g' = Guarded-later s id t now o p g

    d' : IsDict (Dict.put s.seqs peer seq)
    d' = put-IsDict s.seqs peer seq d

-- From a new store of sequence numbers, whatever checks and retirements follow, the numbers that are
-- accepted for one peer strictly increase: none is accepted twice. It is assumed that the clock does
-- not go back, and that at least a nanosecond passes between a retirement and the next event.
pub no_replay :
    (max_age : ℕ) (id : PeerId) (t : ℕ) (es : List Event)
    → Ticks (new_sequences max_age).max_age t es
    → Above none (accepted id (new_sequences max_age) es)
no_replay max_age id t es h =
    replay es (new_sequences max_age) id t none (unfold new_sequences in tt) h tt

-- The clock has to move on: at the very time of a retirement that forgets a number, the number passes
-- the check once more.
pub retire_boundary :
    (s : Sequences) (id : PeerId) (now seq : ℕ)
    → IsDict s.seqs
    → Dict.get s.seqs id ≡ some seq
    → seq ≡ oldest_allowed s now
    → (check (retire s now) now id seq).1 ≡ none
unfolding check
retire_boundary s id now seq d e h = rw (fits, forgotten)
  where
    forgotten : Dict.get (retire s now).seqs id ≡ none
    forgotten =
        unfold retire in
        rw (get-retain (λ id seq. ltb (oldest_allowed s now) seq) s.seqs id d, e) (ground arith)

    fits : ltb seq (oldest_allowed (retire s now) now) ≡ false
    fits = unfold retire oldest_allowed in ground arith
