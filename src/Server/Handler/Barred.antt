-- ===== src/Server/Handler/Barred.antt =====
-- Sequence numbers that stay refused, whatever is checked and retired later.
use storetheindex.Prelude.{
  ℕ, suc, ◌^◌, ◌≤◌, ◌<◌, ◌≡◌, inl, inr, Bool-cases, some, ◌==◌, ==_iff, arith,
}
use storetheindex.Prelude.Dict
use storetheindex.Prelude.Dict.{IsDict, get-put, put-IsDict}
use storetheindex.PeerPolicy.{PeerId}
use storetheindex.Registry.Sequences.{Sequences, Error, check, retire, oldest_allowed}
use storetheindex.Registry.Sequences.Replay.{
  Guarded, check_cases, Guarded-later, put-Guarded, retire-Guarded, retire-IsDict, oldest_lem,
}

-- The number stays refused from the time `t` on: one at least as large is remembered, or it is too old.
abbrev pub IsBarred : Sequences → PeerId → ℕ → ℕ → Type 0
IsBarred q id seq t = (y : ℕ) × (seq ≤ y) × Guarded q id t (some y) × IsDict q.seqs

pub check-IsBarred :
    (q : Sequences) (id peer : PeerId) (seq seq' t now : ℕ)
    → t ≤ now
    → q.max_age ≤ now
    → now < 2 ^ 63
    → IsBarred q id seq t
    → IsBarred (check q now peer seq').0 id seq now
check-IsBarred q id peer seq seq' t now later a b (y, least, g, d) =
    elim (check_cases q now peer seq') [
      | inl (e, same, refused) ↦ rw same (y, least, Guarded-later q id t now (some y) later g, d)
      | inr (stored, fine, fits, above) ↦ rw stored (elim (Bool-cases (peer == id)) [
        | inl own ↦ (
          seq',
          newer fits (λ z e. above z (rw ((==_iff peer id).0 own) e))
              (Guarded-later q id t now (some y) later g),
          inl (rw (get-put q.seqs peer id seq', own)),
          put-IsDict q.seqs peer seq' d,
        )
        | inr other ↦ (
          y,
          least,
          put-Guarded q id peer now seq' (some y) other (Guarded-later q id t now (some y) later g),
          put-IsDict q.seqs peer seq' d,
        )
      ])
    ]
  where
    newer :
        oldest_allowed q now ≤ seq'
        → ((z : ℕ) → Dict.get q.seqs id ≡ some z → z < seq')
        → Guarded q id now (some y)
        → seq ≤ seq'
    newer fits above (inl e) = omega (arith, above y e, least)
    newer fits above (inr old) = omega (arith, oldest_lem q now a b, least)

pub retire-IsBarred :
    (q : Sequences) (id : PeerId) (seq t now : ℕ)
    → t ≤ now
    → q.max_age ≤ now
    → now < 2 ^ 63
    → IsBarred q id seq t
    → IsBarred (retire q now) id seq (suc now)
retire-IsBarred q id seq t now later a b (y, least, g, d) =
    (y, least, retire-Guarded q id t now (some y) d later a b g, retire-IsDict q now d)

pub barred_lem :
    (q : Sequences) (id : PeerId) (seq t now : ℕ)
    → t ≤ now
    → q.max_age ≤ now
    → now < 2 ^ 63
    → IsBarred q id seq t
    → (e : Error) × (check q now id seq ≡ (q, some e))
barred_lem q id seq t now later a b (y, least, g, d) = elim (check_cases q now id seq) [
  | inl (e, same, refused) ↦ (e, cc (same, refused))
  | inr (stored, fine, fits, above) ↦ absurd (stale fits above g)
]
  where
    stale :
        oldest_allowed q now ≤ seq
        → ((z : ℕ) → Dict.get q.seqs id ≡ some z → z < seq)
        → Guarded q id t (some y)
        → ⊥
    stale fits above (inl e) = omega (arith, above y e, least)
    stale fits above (inr old) = omega (arith, oldest_lem q now a b, least)
